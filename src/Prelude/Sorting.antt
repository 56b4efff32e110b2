-- ===== src/Prelude/Sorting.antt =====
-- Python's `sorted`: stable, by a Boolean order that tells of two elements which may come first.
use mathlib.Core.Path.{◌≡◌}
use mathlib.Core.Logic.{inl, inr}
use mathlib.Core.Bool.{Bool, true, false}
use mathlib.Core.List.{List, [], ◌∷◌, Perm}
use mathlib.Core.List.Perm
use ai_coinletgo.Prelude.Tests.{if◌then◌else◌, Bool-cases}
use ai_coinletgo.Prelude.Lists.{All}

module _ {ℓ} {A : Type ℓ} (first? : A → A → Bool) where
  unfoldable pub place : A → List A → List A
  place x [] = x ∷ []
  place x (y ∷ ys) = if first? x y then x ∷ y ∷ ys else y ∷ place x ys

  -- Elements that may come in either order stay in theirs.
  unfoldable pub sorted : List A → List A
  sorted [] = []
  sorted (x ∷ xs) = place x (sorted xs)

  abbrev pub IsBefore : A → List A → Type 0
  IsBefore x [] = Unit
  IsBefore x (y ∷ ys) = first? x y ≡ true

  abbrev pub IsSorted : List A → Type 0
  IsSorted [] = Unit
  IsSorted (x ∷ xs) = IsBefore x xs × IsSorted xs

  pub place-Perm : (x : A) (xs : List A) → Perm (place x xs) (x ∷ xs)
  unfolding place
  place-Perm x [] = Perm.refl (x ∷ [])
  place-Perm x (y ∷ ys) = elim (Bool-cases (first? x y)) [
    | inl h ↦ rw h (Perm.refl (x ∷ y ∷ ys))
    | inr h ↦ rw h (Perm.trans (Perm.cons y (place-Perm x ys)) (Perm.swap x y ys))
  ]

  -- Sorting keeps every element, as often as it is there.
  pub sorted-Perm : (xs : List A) → Perm (sorted xs) xs
  unfolding sorted
  sorted-Perm [] = Perm.refl []
  sorted-Perm (x ∷ xs) = Perm.trans (place-Perm x (sorted xs)) (Perm.cons x (sorted-Perm xs))

  module _ (total : (x y : A) → first? x y ≡ false → first? y x ≡ true) where
    place-IsBefore :
        (y x : A) (xs : List A) → first? y x ≡ true → IsBefore y xs → IsBefore y (place x xs)
    unfolding place
    place-IsBefore y x [] h k = h
    place-IsBefore y x (z ∷ zs) h k = elim (Bool-cases (first? x z)) [
      | inl t ↦ rw t h
      | inr t ↦ rw t k
    ]

    pub place-IsSorted : (x : A) (xs : List A) → IsSorted xs → IsSorted (place x xs)
    unfolding place
    place-IsSorted x [] h = (tt, tt)
    place-IsSorted x (y ∷ ys) h = elim (Bool-cases (first? x y)) [
      | inl t ↦ rw t (t, (h.0, h.1))
      | inr t ↦ rw t (place-IsBefore y x ys (total x y t) h.0, place-IsSorted x ys h.1)
    ]

    pub sorted-IsSorted : (xs : List A) → IsSorted (sorted xs)
    unfolding sorted
    sorted-IsSorted [] = tt
    sorted-IsSorted (x ∷ xs) = place-IsSorted x (sorted xs) (sorted-IsSorted xs)

  pub place-All {κ} : (P : A → Type κ) (x : A) (xs : List A) → P x → All P xs → All P (place x xs)
  unfolding place
  place-All P x [] p h = (p, tt)
  place-All P x (y ∷ ys) p h = elim (Bool-cases (first? x y)) [
    | inl t ↦ rw t (p, (h.0, h.1))
    | inr t ↦ rw t (h.0, place-All P x ys p h.1)
  ]

  pub sorted-All {κ} : (P : A → Type κ) (xs : List A) → All P xs → All P (sorted xs)
  unfolding sorted
  sorted-All P [] h = tt
  sorted-All P (x ∷ xs) h = place-All P x (sorted xs) h.0 (sorted-All P xs h.1)
