-- ===== src/Decimal/Defs.antt =====
-- The operations, and the functions of Python that are defined by them.
use ai_coinletgo.Prelude.{ℕ, Bool, not, ◌&&◌, if◌then◌else◌, List, [], ◌∷◌}

-- The modes of `to_integral_value`.
pub data Rounding : Type 0 where
  round_down round_up round_half_up : Rounding

pub record Decimal (D : Type 0) : Type 1 where
  pub le : D → D → Bool
  -- `lit c e` is the literal c / 10^e: `Decimal("0.25")` is `lit 25 2`.
  pub lit : ℕ → ℕ → D
  pub add : D → D → D
  pub neg : D → D
  pub mul : D → D → D
  -- Called with a divisor that is not zero.
  pub div : D → D → D
  pub to_integral : Rounding → D → D

module _ {D : Type 0} ⦃d : Decimal D⦄ where
  infix 50 ◌≼◌ ◌≺◌
  abbrev pub ◌≼◌ : D → D → Bool
  ◌≼◌ = d.le

  abbrev pub ◌≺◌ : D → D → Bool
  a ≺ b = not (d.le b a)

  -- `a == b` on decimals.
  abbrev pub same : D → D → Bool
  same a b = d.le a b && d.le b a

  abbrev pub nought : D
  nought = d.lit 0 0

  abbrev pub one : D
  one = d.lit 1 0

  abbrev pub two : D
  two = d.lit 2 0

  infixl 65 ◌⊕◌ ◌⊖◌
  infixl 70 ◌⊗◌ ◌⊘◌
  abbrev pub ◌⊕◌ : D → D → D
  ◌⊕◌ = d.add

  abbrev pub ◌⊖◌ : D → D → D
  a ⊖ b = d.add a (d.neg b)

  abbrev pub ◌⊗◌ : D → D → D
  ◌⊗◌ = d.mul

  abbrev pub ◌⊘◌ : D → D → D
  ◌⊘◌ = d.div

  abbrev pub minus : D → D
  minus = d.neg

  abbrev pub abs : D → D
  abs a = if nought ≼ a then a else d.neg a

  -- `min(a, b)` and `max(a, b)` keep the first of equal arguments.
  abbrev pub min : D → D → D
  min a b = if b ≺ a then b else a

  abbrev pub max : D → D → D
  max a b = if a ≺ b then b else a

  -- `sum(xs, Decimal("0"))` adds from the left.
  unfoldable pub sum_from : D → List D → D
  sum_from acc [] = acc
  sum_from acc (x ∷ xs) = sum_from (acc ⊕ x) xs

  abbrev pub sum : List D → D
  sum xs = sum_from nought xs
