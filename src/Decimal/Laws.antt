-- ===== src/Decimal/Laws.antt =====
-- What the theorems use of decimal arithmetic. Every law holds of arithmetic that rounds half to
-- even to a fixed precision: order is exact, and rounding keeps order and sign. Sums need not be
-- associative, and a quotient times its divisor need not be the dividend.
use ai_coinletgo.Prelude.{
  ℕ, suc, ◌≡◌, refl, inl, inr, true, false, arith, List, [], ◌∷◌, All, Bool-cases, ◌↔◌,
}
use ai_coinletgo.Decimal.Defs.{
  Decimal, ◌≼◌, ◌≺◌, same, nought, ◌⊕◌, ◌⊖◌, ◌⊗◌, ◌⊘◌, minus, abs, min, max, sum_from, sum,
}

pub record IsRounded (D : Type 0) ⦃d : Decimal D⦄ : Type 0 where
  pub le_refl : (a : D) → (a ≼ a) ≡ true
  pub le_trans : (a b c : D) → (a ≼ b) ≡ true → (b ≼ c) ≡ true → (a ≼ c) ≡ true
  pub le_antisymm : (a b : D) → (a ≼ b) ≡ true → (b ≼ a) ≡ true → a ≡ b
  pub le_total : (a b : D) → (a ≼ b) ≡ false → (b ≼ a) ≡ true
  pub lit_nonneg : (c e : ℕ) → (nought ≼ d.lit c e) ≡ true
  pub lit_pos : (c e : ℕ) → (nought ≺ d.lit (suc c) e) ≡ true
  pub add_comm : (a b : D) → a ⊕ b ≡ b ⊕ a
  pub add-nought : (a : D) → a ⊕ nought ≡ a
  pub add_mono : (a b c : D) → (a ≼ b) ≡ true → (a ⊕ c ≼ b ⊕ c) ≡ true
  pub neg-neg : (a : D) → minus (minus a) ≡ a
  pub neg_anti : (a b : D) → (a ≼ b) ≡ true → (minus b ≼ minus a) ≡ true
  pub sub_self : (a : D) → a ⊖ a ≡ nought
  pub add_eq-nought : (a b : D) → a ⊕ b ≡ nought → b ≡ minus a
  pub mul_neg_self : (a : D) → (nought ≺ a ⊗ minus a) ≡ false
  pub mul_neg : (a b : D) → a ⊗ minus b ≡ minus (a ⊗ b)
  pub neg_mul : (a b : D) → minus a ⊗ b ≡ minus (a ⊗ b)
  pub mul_nonneg : (a b : D) → (nought ≼ a) ≡ true → (nought ≼ b) ≡ true → (nought ≼ a ⊗ b) ≡ true
  pub mul_pos : (a b : D) → (nought ≺ a) ≡ true → (nought ≺ b) ≡ true → (nought ≺ a ⊗ b) ≡ true
  pub div_pos : (a b : D) → (nought ≺ a) ≡ true → (nought ≺ b) ≡ true → (nought ≺ a ⊘ b) ≡ true
  pub div_nonneg : (a b : D) → (nought ≼ a) ≡ true → (nought ≺ b) ≡ true → (nought ≼ a ⊘ b) ≡ true

module _ {D : Type 0} ⦃d : Decimal D⦄ (laws : IsRounded D) where
  open laws use {
    le_refl, le_trans, le_antisymm, le_total, lit_nonneg, add_comm, add-nought, add_mono, neg_anti,
    sub_self, neg-neg, mul_neg, neg_mul, mul_nonneg, mul_pos,
  }

  pub lt-le : (a b : D) → (a ≺ b) ≡ true → (a ≼ b) ≡ true
  lt-le a b h = le_total b a (ground arith)

  pub lt-le_trans : (a b c : D) → (a ≺ b) ≡ true → (b ≼ c) ≡ true → (a ≺ c) ≡ true
  lt-le_trans a b c h k = ground (arith, le_trans b c a k)

  pub le-lt_trans : (a b c : D) → (a ≼ b) ≡ true → (b ≺ c) ≡ true → (a ≺ c) ≡ true
  le-lt_trans a b c h k = ground (arith, le_trans c a b)

  pub min-le_left : (a b : D) → (min a b ≼ a) ≡ true
  min-le_left a b = ground (arith, le_refl a, le_total a b)

  pub min-le_right : (a b : D) → (min a b ≼ b) ≡ true
  min-le_right a b = ground (arith, le_refl b, le_total a b)

  pub le-max_left : (a b : D) → (a ≼ max a b) ≡ true
  le-max_left a b = ground (arith, le_refl a, le_total b a)

  pub le-max_right : (a b : D) → (b ≼ max a b) ≡ true
  le-max_right a b = ground (arith, le_refl b, le_total b a)

  pub neg-nought : ◌≡◌ {A = D} (minus nought) nought
  neg-nought =
      ground (arith, sub_self nought, add_comm nought (minus nought), add-nought (minus nought))

  pub abs_nonneg : (a : D) → (nought ≼ abs a) ≡ true
  abs_nonneg a = elim (Bool-cases (nought ≼ a)) [
    | inl h ↦ rw h h
    | inr h ↦ rw h (ground (arith, neg-nought, neg_anti a nought (le_total nought a h)))
  ]

  pub le-add_left : (a b : D) → (nought ≼ b) ≡ true → (a ≼ a ⊕ b) ≡ true
  le-add_left a b h =
      ground (arith, add_mono nought b a h, add_comm nought a, add-nought a, add_comm b a)

  pub add_pos : (a b : D) → (nought ≺ a) ≡ true → (nought ≼ b) ≡ true → (nought ≺ a ⊕ b) ≡ true
  add_pos a b h k = lt-le_trans nought a (a ⊕ b) h (le-add_left a b k)

  pub add_nonneg : (a b : D) → (nought ≼ a) ≡ true → (nought ≼ b) ≡ true → (nought ≼ a ⊕ b) ≡ true
  add_nonneg a b h k = le_trans nought a (a ⊕ b) h (le-add_left a b k)

  -- a ≤ b exactly if 0 ≤ b - a: only this half survives rounding in general.
  pub sub_nonneg : (a b : D) → (a ≼ b) ≡ true → (nought ≼ b ⊖ a) ≡ true
  sub_nonneg a b h = ground (arith, add_mono a b (minus a) h, sub_self a)

  pub sub-le : (a b : D) → (nought ≼ b) ≡ true → (a ⊖ b ≼ a) ≡ true
  sub-le a b h = ground (
    arith,
    neg_anti nought b h,
    neg-nought,
    add_mono (minus b) nought a,
    add_comm (minus b) a,
    add_comm nought a,
    add-nought a,
  )

  pub sum_from_nonneg :
      (acc : D) (xs : List D)
      → (nought ≼ acc) ≡ true
      → All (λ x. (nought ≼ x) ≡ true) xs
      → (nought ≼ sum_from acc xs) ≡ true
  unfolding sum_from
  sum_from_nonneg acc [] h k = h
  sum_from_nonneg acc (x ∷ xs) h k = sum_from_nonneg (acc ⊕ x) xs (add_nonneg acc x h k.0) k.1

  pub sum_nonneg : (xs : List D) → All (λ x. (nought ≼ x) ≡ true) xs → (nought ≼ sum xs) ≡ true
  sum_nonneg xs h = sum_from_nonneg nought xs (le_refl nought) h

  pub same_iff : (a b : D) → (same a b ≡ true) ↔ (a ≡ b)
  same_iff a b = ground (arith, le_antisymm a b, le_refl a)

  pub neg_pos : (a : D) → (a ≺ nought) ≡ true → (nought ≺ minus a) ≡ true
  neg_pos a h = ground (arith, neg_anti (minus a) nought, neg-neg a, neg-nought)

  pub neg_nonneg : (a : D) → (a ≼ nought) ≡ true → (nought ≼ minus a) ≡ true
  neg_nonneg a h = ground (arith, neg_anti a nought h, neg-nought)

  neg_mul_neg : (a b : D) → minus a ⊗ minus b ≡ a ⊗ b
  neg_mul_neg a b = rw (neg_mul a (minus b), mul_neg a b, neg-neg (a ⊗ b)) refl

  -- The rule of signs.
  pub mul_nonpos : (a b : D) → (a ≼ nought) ≡ true → (b ≼ nought) ≡ true → (nought ≼ a ⊗ b) ≡ true
  mul_nonpos a b h k =
      ground
        (arith, neg_mul_neg a b, mul_nonneg (minus a) (minus b) (neg_nonneg a h) (neg_nonneg b k))

  pub mul_negs : (a b : D) → (a ≺ nought) ≡ true → (b ≺ nought) ≡ true → (nought ≺ a ⊗ b) ≡ true
  mul_negs a b h k =
      ground (arith, neg_mul_neg a b, mul_pos (minus a) (minus b) (neg_pos a h) (neg_pos b k))

  pub minus_neg : (a : D) → (nought ≺ a) ≡ true → (minus a ≺ nought) ≡ true
  minus_neg a h = ground (arith, neg_anti nought (minus a), neg-neg a, neg-nought)

  neg_of_neg_pos : (a : D) → (nought ≺ minus a) ≡ true → (a ≺ nought) ≡ true
  neg_of_neg_pos a h = ground (arith, neg_anti nought a, neg-nought)

  pub mul_pos_neg : (a b : D) → (nought ≺ a) ≡ true → (b ≺ nought) ≡ true → (a ⊗ b ≺ nought) ≡ true
  mul_pos_neg a b h k =
      neg_of_neg_pos (a ⊗ b) (ground (arith, mul_neg a b, mul_pos a (minus b) h (neg_pos b k)))

  pub mul_neg_pos : (a b : D) → (a ≺ nought) ≡ true → (nought ≺ b) ≡ true → (a ⊗ b ≺ nought) ≡ true
  mul_neg_pos a b h k =
      neg_of_neg_pos (a ⊗ b) (ground (arith, neg_mul a b, mul_pos (minus a) b (neg_pos a h) k))

  -- A product with factors of no common strict sign is not positive.
  pub mul_nonneg_nonpos :
      (a b : D) → (nought ≼ a) ≡ true → (b ≼ nought) ≡ true → (nought ≺ a ⊗ b) ≡ false
  mul_nonneg_nonpos a b h k = ground (
    arith,
    mul_neg a b,
    mul_nonneg a (minus b) h (neg_nonneg b k),
    neg_anti nought (minus (a ⊗ b)),
    neg-neg (a ⊗ b),
    neg-nought,
  )

  pub mul_nonpos_nonneg :
      (a b : D) → (a ≼ nought) ≡ true → (nought ≼ b) ≡ true → (nought ≺ a ⊗ b) ≡ false
  mul_nonpos_nonneg a b h k = ground (
    arith,
    neg_mul a b,
    mul_nonneg (minus a) b (neg_nonneg a h) k,
    neg_anti nought (minus (a ⊗ b)),
    neg-neg (a ⊗ b),
    neg-nought,
  )
