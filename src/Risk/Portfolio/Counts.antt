-- ===== src/Risk/Portfolio/Counts.antt =====
-- Dictionaries of risk/portfolio.py counted: how an assignment changes the number of entries, and of those
-- that pass a test.
use ai_coinletgo.Prelude.{
  ℕ, ◌≡◌, Bool, some, [], ◌∷◌, map, inl, inr, ◌+◌, ◌≤◌, arith, if◌then◌else◌, ◌==◌, length, count,
  Bool-cases,
}
use ai_coinletgo.Prelude.Text.{Text, text_eq}
use ai_coinletgo.Prelude.Dict.{Dict, lookup, insert}

module _ {V : Type 0} (test : V → Bool) where
  -- The entries that pass a test.
  abbrev pub passing : Dict Text V → ℕ
  passing d = count test (map (λ entry. entry.1) d)

  pub passing-insert :
      (k : Text) (v : V) (d : Dict Text V)
      → passing (insert k v d) ≤ passing d + (if test v then 1 else 0)
  unfolding insert
  passing-insert k v [] = ground arith
  passing-insert k v ((j, w) ∷ d) = ground (arith, passing-insert k v d)

  -- What replaces an entry and passes no test that the entry does not adds nothing.
  pub passing-insert_found :
      (k : Text) (v w : V) (d : Dict Text V)
      → lookup k d ≡ some w
      → test v ≡ test w
      → passing (insert k v d) ≡ passing d
  unfolding insert lookup
  passing-insert_found k v w [] found same = cc
  passing-insert_found k v w ((j, u) ∷ d) found same = elim (Bool-cases (j == k)) [
    | inl own ↦ ground arith
    | inr other ↦ ground (arith, passing-insert_found k v w d (rw other at found) same)
  ]

module _ {V : Type 0} where
  pub length-insert : (k : Text) (v : V) (d : Dict Text V) → length (insert k v d) ≤ length d + 1
  unfolding insert
  length-insert k v [] = omega arith
  length-insert k v ((j, w) ∷ d) = ground (arith, length-insert k v d)

  pub length-insert_found :
      (k : Text) (v w : V) (d : Dict Text V)
      → lookup k d ≡ some w
      → length (insert k v d) ≡ length d
  unfolding insert lookup
  length-insert_found k v w [] found = cc
  length-insert_found k v w ((j, u) ∷ d) found = elim (Bool-cases (j == k)) [
    | inl own ↦ ground arith
    | inr other ↦ ground (arith, length-insert_found k v w d (rw other at found))
  ]
