-- ===== src/Hft/OrderBook/Levels.antt =====
-- The level maps of hft/order_book.py (`_levels`, `_apply_updates`): what a list of updates leaves at
-- each price, and that no level of zero size and no price twice is ever held.
use ai_coinletgo.Prelude.{
  ◌≡◌, refl, true, ◌&&◌, Option, none, some, List, [], ◌∷◌, if◌then◌else◌, Eq, ◌==◌, All, arith,
  Bool-cases, inl, inr,
}
use ai_coinletgo.Prelude.Dict.{
  Dict, lookup, HasDistinctKeys, lookup-insert, lookup-erase, insert-HasDistinctKeys,
  erase-HasDistinctKeys, All-insert, All-erase,
}
use ai_coinletgo.Decimal.{Decimal, ◌≼◌, ◌≺◌, nought}
use ai_coinletgo.Hft.OrderBook.{
  RawRow, malformed_row, row, RawLevels, not_iterable, rows, apply_row, apply_rows, apply_updates,
  add_level, add_levels, levels,
}

module _ {D : Type 0} ⦃d : Decimal D⦄ ⦃e : Eq D⦄ where
  abbrev pub IsLevel : D × D → Type 0
  IsLevel level = ((nought ≺ level.0) ≡ true) × ((nought ≺ level.1) ≡ true)

  -- No price twice, and every price and every size positive.
  pub record IsLevels (book : Dict D D) : Type 0 where
    pub distinct : HasDistinctKeys book
    pub positive : All IsLevel book

  -- The quantity of the last well-formed row at the price: the specification of an update list.
  abbrev pub last_quantity : D → List (RawRow D) → Option D
  last_quantity p [] = none
  last_quantity p (malformed_row ∷ rest) = last_quantity p rest
  last_quantity p (row price quantity ∷ rest) = elim (last_quantity p rest) [
    | some later ↦ some later
    | none ↦ if (nought ≺ price) && (price == p) then some quantity else none
  ]

  -- What an update leaves at a price, from what was there.
  abbrev pub settle : Option D → Option D → Option D
  settle none old = old
  settle (some quantity) old = if quantity ≼ nought then none else some quantity

  apply_row-HasDistinctKeys :
      (book : Dict D D) (p q : D) → HasDistinctKeys book → HasDistinctKeys (apply_row book p q)
  apply_row-HasDistinctKeys book p q h =
      ground (arith, erase-HasDistinctKeys p book h, insert-HasDistinctKeys p q book h)

  lookup-apply_row :
      (k : D) (book : Dict D D) (p q : D)
      → HasDistinctKeys book
      → lookup k (apply_row book p q)
        ≡ settle (if (nought ≺ p) && (p == k) then some q else none) (lookup k book)
  lookup-apply_row k book p q h = ground (arith, lookup-erase p k book h, lookup-insert p k q book)

  settle-settle :
      (k p q : D) (rest : List (RawRow D)) (old : Option D)
      → settle
          (last_quantity k rest)
          (settle (if (nought ≺ p) && (p == k) then some q else none) old)
        ≡ settle (last_quantity k (row p q ∷ rest)) old
  settle-settle k p q rest old = ground arith

  -- After a list of updates every price holds what the last row at that price says, and every other
  -- price what it held.
  pub lookup-apply_rows :
      (k : D) (book : Dict D D) (rs : List (RawRow D))
      → HasDistinctKeys book
      → lookup k (apply_rows book rs) ≡ settle (last_quantity k rs) (lookup k book)
  unfolding apply_rows
  lookup-apply_rows k book [] h = refl
  lookup-apply_rows k book (malformed_row ∷ rest) h = lookup-apply_rows k book rest h
  lookup-apply_rows k book (row p q ∷ rest) h =
      rw
        (
          lookup-apply_rows k (apply_row book p q) rest (apply_row-HasDistinctKeys book p q h),
          lookup-apply_row k book p q h,
        )
        (settle-settle k p q rest (lookup k book))

  apply_row-IsLevels : (book : Dict D D) (p q : D) → IsLevels book → IsLevels (apply_row book p q)
  apply_row-IsLevels book p q v = record {
    distinct = apply_row-HasDistinctKeys book p q v.distinct;
    positive = ground (
      arith,
      All-erase IsLevel p book v.positive,
      λ (a : (nought ≺ p) ≡ true) (b : (nought ≺ q) ≡ true).
          All-insert IsLevel p q book (a, b) v.positive,
    );
  }

  pub apply_rows-IsLevels :
      (book : Dict D D) (rs : List (RawRow D)) → IsLevels book → IsLevels (apply_rows book rs)
  unfolding apply_rows
  apply_rows-IsLevels book [] v = v
  apply_rows-IsLevels book (malformed_row ∷ rest) v = apply_rows-IsLevels book rest v
  apply_rows-IsLevels book (row p q ∷ rest) v =
      apply_rows-IsLevels (apply_row book p q) rest (apply_row-IsLevels book p q v)

  pub apply_updates-IsLevels :
      (book : Dict D D) (raw : RawLevels D) → IsLevels book → IsLevels (apply_updates book raw)
  unfolding apply_updates
  apply_updates-IsLevels book not_iterable v = v
  apply_updates-IsLevels book (rows rs) v = apply_rows-IsLevels book rs v

  add_level-IsLevels : (book : Dict D D) (p q : D) → IsLevels book → IsLevels (add_level book p q)
  add_level-IsLevels book p q v = elim (Bool-cases ((nought ≺ p) && (nought ≺ q))) [
    | inl fits ↦ rw fits (record {
      distinct = insert-HasDistinctKeys p q book v.distinct;
      positive = All-insert IsLevel p q book (ground arith) v.positive;
    })
    | inr skipped ↦ rw skipped v
  ]

  add_levels-IsLevels :
      (book : Dict D D) (rs : List (RawRow D)) → IsLevels book → IsLevels (add_levels book rs)
  unfolding add_levels
  add_levels-IsLevels book [] v = v
  add_levels-IsLevels book (malformed_row ∷ rest) v = add_levels-IsLevels book rest v
  add_levels-IsLevels book (row p q ∷ rest) v =
      add_levels-IsLevels (add_level book p q) rest (add_level-IsLevels book p q v)

  pub nil-IsLevels : IsLevels []
  nil-IsLevels = record { distinct = tt; positive = tt }

  -- Whatever a snapshot's list holds, the levels read from it are well formed.
  pub levels-IsLevels : (raw : RawLevels D) → IsLevels (levels raw)
  unfolding levels
  levels-IsLevels not_iterable = nil-IsLevels
  levels-IsLevels (rows rs) = add_levels-IsLevels [] rs nil-IsLevels
