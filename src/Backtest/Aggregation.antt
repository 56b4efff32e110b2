-- ===== src/Backtest/Aggregation.antt =====
-- `aggregate_candles` of backtest/engine.py: which candles it takes together, and what it makes of them.
use ai_coinletgo.Prelude.{
  ℕ, zero, suc, ◌≡◌, refl, sym, subst, ap, ◌∙◌, ◌+◌, ◌*◌, ◌/◌, ◌%◌, ◌≤◌, ◌<◌, true, some, List, [],
  ◌∷◌, ◌++◌, arith, length, take, drop, take-drop, All,
}
use native.Mathlib.Nat.{div-add-mod, mod-lt}
use ai_coinletgo.Decimal.{Decimal, ◌≼◌, max, min}
use ai_coinletgo.Decimal.Laws.{IsRounded, le-max_left, le-max_right, min-le_left, min-le_right}
use ai_coinletgo.Domain.Market.{Candle}
use ai_coinletgo.Backtest.Candles.{
  groups, highest_of, lowest_of, prepend, candle_of, candles_of, aggregate_candles,
}

module _ {A : Type 0} where
  abbrev pub joined : List (List A) → List A
  joined [] = []
  joined (g ∷ gs) = g ++ joined gs

  length-drop : (n k : ℕ) (xs : List A) → n + k ≤ length xs → k ≤ length (drop n xs)
  length-drop zero k xs h = omega (arith, h)
  length-drop (suc n) k [] h = omega (arith, h)
  length-drop (suc n) k (x ∷ xs) h = length-drop n k xs (omega (arith, h))

  length-take : (n : ℕ) (xs : List A) → n ≤ length xs → length (take n xs) ≡ n
  length-take zero xs h = refl
  length-take (suc n) [] h = omega (arith, h)
  length-take (suc n) (x ∷ xs) h = ground (arith, length-take n xs)

  -- What no group takes.
  abbrev pub left_over : ℕ → ℕ → List A → List A
  left_over zero factor xs = xs
  left_over (suc n) factor xs = left_over n factor (drop factor xs)

  append_assoc : (xs ys zs : List A) → (xs ++ ys) ++ zs ≡ xs ++ (ys ++ zs)
  append_assoc [] ys zs = refl
  append_assoc (x ∷ xs) ys zs = ap (λ rest. x ∷ rest) (append_assoc xs ys zs)

  joined-groups :
      (n factor : ℕ) (xs : List A) → joined (groups n factor xs) ++ left_over n factor xs ≡ xs
  unfolding groups
  joined-groups zero factor xs = refl
  joined-groups (suc n) factor xs =
      append_assoc (take factor xs) _ _
      ∙ ap (λ rest. take factor xs ++ rest) (joined-groups n factor (drop factor xs))
      ∙ take-drop factor xs

  groups_full :
      (n factor : ℕ) (xs : List A)
      → n * factor ≤ length xs
      → All (λ g. length g ≡ factor) (groups n factor xs)
  unfolding groups
  groups_full zero factor xs h = tt
  groups_full (suc n) factor xs h = (
    length-take factor xs (omega (arith, h)),
    groups_full n factor (drop factor xs) (length-drop factor (n * factor) xs (omega (arith, h))),
  )

  length-groups : (n factor : ℕ) (xs : List A) → length (groups n factor xs) ≡ n
  unfolding groups
  length-groups zero factor xs = refl
  length-groups (suc n) factor xs = ap suc (length-groups n factor (drop factor xs))

  length-left_over :
      (n factor k : ℕ) (xs : List A)
      → length xs ≡ n * factor + k
      → length (left_over n factor xs) ≡ k
  length-left_over zero factor k xs h = omega (arith, h)
  length-left_over (suc n) factor k xs h =
      length-left_over n factor k (drop factor xs)
        (omega (arith, h, length-take factor xs (omega (arith, h)), length-append_drop factor xs))
    where
      length-append_drop :
          (m : ℕ) (ys : List A) → length (take m ys) + length (drop m ys) ≡ length ys
      length-append_drop zero ys = omega arith
      length-append_drop (suc m) [] = omega arith
      length-append_drop (suc m) (y ∷ ys) = omega (arith, length-append_drop m ys)

module _ {D : Type 0} ⦃d : Decimal D⦄ where
  -- A candle that covers each of a group's.
  abbrev pub IsSpan : Candle D → List (Candle D) → Type 0
  IsSpan y = All (λ (x : Candle D). ((x.high ≼ y.high) ≡ true) × ((y.low ≼ x.low) ≡ true))

  -- Candles that cover groups, one by one.
  abbrev pub Spans : List (Candle D) → List (List (Candle D)) → Type 0
  Spans [] [] = Unit
  Spans (y ∷ ys) (g ∷ gs) = IsSpan y g × Spans ys gs
  Spans _ _ = ⊥

  pub record IsAggregated (factor : ℕ) (candles result : List (Candle D)) : Type 0 where
    pub parts : List (List (Candle D))
    pub rest : List (Candle D)
    pub cut : joined parts ++ rest ≡ candles
    pub full : All (λ g. length g ≡ factor) parts
    pub short : length rest < factor
    pub covered : Spans result parts
    pub complete : length result ≡ length candles / factor

  module _ (laws : IsRounded D) where
    open laws use {le_refl, le_trans}

    highest_of_bounds :
        (best : D) (xs : List (Candle D))
        → ((best ≼ highest_of best xs) ≡ true)
          × All (λ (x : Candle D). (x.high ≼ highest_of best xs) ≡ true) xs
    highest_of_bounds best [] = (le_refl best, tt)
    highest_of_bounds best (x ∷ xs) =
        let top = max best x.high in
        let rest = highest_of_bounds top xs in
        (
          le_trans best top _ (le-max_left laws best x.high) rest.0,
          (le_trans x.high top _ (le-max_right laws best x.high) rest.0, rest.1),
        )

    lowest_of_bounds :
        (best : D) (xs : List (Candle D))
        → ((lowest_of best xs ≼ best) ≡ true)
          × All (λ (x : Candle D). (lowest_of best xs ≼ x.low) ≡ true) xs
    lowest_of_bounds best [] = (le_refl best, tt)
    lowest_of_bounds best (x ∷ xs) =
        let bottom = min best x.low in
        let rest = lowest_of_bounds bottom xs in
        (
          le_trans _ bottom best rest.0 (min-le_left laws best x.low),
          (le_trans _ bottom x.low rest.0 (min-le_right laws best x.low), rest.1),
        )

    paired :
        (hi lo : D) (xs : List (Candle D))
        → All (λ (x : Candle D). (x.high ≼ hi) ≡ true) xs
        → All (λ (x : Candle D). (lo ≼ x.low) ≡ true) xs
        → All (λ (x : Candle D). ((x.high ≼ hi) ≡ true) × ((lo ≼ x.low) ≡ true)) xs
    paired hi lo [] h k = tt
    paired hi lo (x ∷ xs) h k = ((h.0, k.0), paired hi lo xs h.1 k.1)

    candle_of-IsSpan :
        (g : List (Candle D)) → 0 < length g → (y : Candle D) × (candle_of g ≡ some y) × IsSpan y g
    unfolding candle_of
    candle_of-IsSpan [] h = absurd (omega (arith, h))
    candle_of-IsSpan (x ∷ xs) h =
        let hi = highest_of_bounds x.high xs in
        let lo = lowest_of_bounds x.low xs in (_, refl, ((hi.0, lo.0), paired _ _ xs hi.1 lo.1))

    candles_of-Spans :
        (factor : ℕ) (gs : List (List (Candle D)))
        → 0 < factor
        → All (λ g. length g ≡ factor) gs
        → (ys : List (Candle D)) × (candles_of gs ≡ some ys) × Spans ys gs × (length ys ≡ length gs)
    candles_of-Spans factor [] pos h = ([], refl, tt, refl)
    candles_of-Spans factor (g ∷ gs) pos h =
        let one = candle_of-IsSpan g (omega (arith, pos, h.0)) in
        let rest = candles_of-Spans factor gs pos h.1 in
        (
          one.0 ∷ rest.0,
          ap (λ o. prepend o (candles_of gs)) one.1 ∙ ap (prepend (some one.0)) rest.1,
          (one.2, rest.2),
          ap suc rest.3,
        )

    -- With a factor that is not zero, `aggregate_candles` returns a candle for each whole group of so many, in
    -- their order from the first candle on; fewer than the factor are left over at the end. The high and the
    -- low of each result bound those of every candle in its group.
    pub aggregate_candles-IsAggregated :
        (candles : List (Candle D)) (factor : ℕ)
        → 0 < factor
        → (result : List (Candle D)) × (aggregate_candles candles factor ≡ some result)
          × IsAggregated factor candles result
    unfolding aggregate_candles
    aggregate_candles-IsAggregated candles factor pos =
        let n = length candles / factor in
        let division = div-add-mod (length candles) factor in
        let full = groups_full n factor candles (omega (arith, division)) in
        let made = candles_of-Spans factor (groups n factor candles) pos full in
        (
          made.0,
          made.1,
          record {
            parts = groups n factor candles;
            rest = left_over n factor candles;
            cut = joined-groups n factor candles;
            full = full;
            short =
                subst (λ k. k < factor)
                  (sym (
                    length-left_over n factor (length candles % factor) candles
                      (omega (arith, division))))
                  (mod-lt (length candles) pos);
            covered = made.2;
            complete = made.3 ∙ length-groups n factor candles;
          },
        )
