-- ===== src/Decimal/Fixed.antt =====
-- Decimals with eight places after the point, a product and a quotient rounded away from zero:
-- a number system with the laws, in which the examples are computed.
use ai_coinletgo.Prelude.{
  ℕ, zero, suc, ◌+◌, ◌*◌, ◌/◌, ◌^◌, ◌<◌, ◌≤◌, ◌-◌, ◌≡◌, refl, Bool, true, false, not, arith, leb,
}
use native.Mathlib.Nat.{pow-suc}
use ai_coinletgo.Prelude.Int.{ℤ, pos, negsuc, pos_part, neg_part, leb_ℤ, neg_ℤ, ◌+ℤ◌, int_laws}
use ai_coinletgo.Decimal.Defs.{Decimal, Rounding, round_down, round_up, round_half_up}
use ai_coinletgo.Decimal.Laws.{IsRounded}

abbrev pub scale : ℕ
scale = 100_000_000

abbrev pub magnitude : ℤ → ℕ
magnitude a = pos_part a + neg_part a

abbrev pub is_neg : ℤ → Bool
is_neg a = leb 1 (neg_part a)

-- A number by its sign and its magnitude.
abbrev pub signed : Bool → ℕ → ℤ
signed true n = neg_ℤ (pos n)
signed false n = pos n

abbrev pub differ : Bool → Bool → Bool
differ true b = not b
differ false b = b

unfoldable pub fixed_mul : ℤ → ℤ → ℤ
fixed_mul a b =
    signed (differ (is_neg a) (is_neg b)) ((magnitude a * magnitude b + (scale - 1)) / scale)

unfoldable pub fixed_div : ℤ → ℤ → ℤ
fixed_div a b =
    signed (differ (is_neg a) (is_neg b)) ((magnitude a * scale + (magnitude b - 1)) / magnitude b)

abbrev pub fixed_round : Rounding → ℕ → ℕ
fixed_round round_down n = n / scale * scale
fixed_round round_up n = (n + (scale - 1)) / scale * scale
fixed_round round_half_up n = (2 * n + scale) / (2 * scale) * scale

unfoldable pub fixed_integral : Rounding → ℤ → ℤ
fixed_integral r a = signed (is_neg a) (fixed_round r (magnitude a))

instance abbrev pub fixed : Decimal ℤ
fixed = record {
  le = leb_ℤ;
  lit = λ c e. pos ((c * scale + (10 ^ e - 1)) / 10 ^ e);
  add = ◌+ℤ◌;
  neg = neg_ℤ;
  mul = fixed_mul;
  div = fixed_div;
  to_integral = fixed_integral;
}

-- A number that reaches its divisor has a quotient of at least one.
le-div_pos : (a b : ℕ) → 0 < b → b ≤ a → 0 < a / b
le-div_pos a b h k = grind arith

pow_pos : (e : ℕ) → 0 < 10 ^ e
pow_pos zero = omega arith
pow_pos (suc e) = omega (arith, pow-suc 10 e, pow_pos e)

le_refl : (a : ℤ) → leb_ℤ a a ≡ true
le_refl a = ground arith

le_trans : (a b c : ℤ) → leb_ℤ a b ≡ true → leb_ℤ b c ≡ true → leb_ℤ a c ≡ true
le_trans a b c h k = ground arith

le_antisymm : (a b : ℤ) → leb_ℤ a b ≡ true → leb_ℤ b a ≡ true → a ≡ b
le_antisymm a b h k = ground arith

le_total : (a b : ℤ) → leb_ℤ a b ≡ false → leb_ℤ b a ≡ true
le_total a b h = ground arith

lit_nonneg : (c e : ℕ) → leb_ℤ (pos 0) (pos ((c * scale + (10 ^ e - 1)) / 10 ^ e)) ≡ true
lit_nonneg c e = ground arith

lit_pos : (c e : ℕ) → not (leb_ℤ (pos ((suc c * scale + (10 ^ e - 1)) / 10 ^ e)) (pos 0)) ≡ true
lit_pos c e = ground (arith, pow_pos e, le-div_pos (suc c * scale + (10 ^ e - 1)) (10 ^ e))

add_comm : (a b : ℤ) → a +ℤ b ≡ b +ℤ a
add_comm a b = omega int_laws

add-nought : (a : ℤ) → a +ℤ pos 0 ≡ a
add-nought a = omega int_laws

add_mono : (a b c : ℤ) → leb_ℤ a b ≡ true → leb_ℤ (a +ℤ c) (b +ℤ c) ≡ true
unfolding ◌+ℤ◌
add_mono a b c h = ground arith

neg-neg : (a : ℤ) → neg_ℤ (neg_ℤ a) ≡ a
neg-neg a = ground arith

neg_anti : (a b : ℤ) → leb_ℤ a b ≡ true → leb_ℤ (neg_ℤ b) (neg_ℤ a) ≡ true
neg_anti a b h = ground arith

sub_self : (a : ℤ) → a +ℤ neg_ℤ a ≡ pos 0
unfolding ◌+ℤ◌
sub_self a = ground arith

add_eq-nought : (a b : ℤ) → a +ℤ b ≡ pos 0 → b ≡ neg_ℤ a
unfolding ◌+ℤ◌
add_eq-nought a b h = ground arith

mul_neg_self : (a : ℤ) → not (leb_ℤ (fixed_mul a (neg_ℤ a)) (pos 0)) ≡ false
unfolding fixed_mul
mul_neg_self (pos zero) = refl
mul_neg_self (pos (suc n)) = ground arith
mul_neg_self (negsuc n) = ground arith

mul_nought : (a : ℤ) → fixed_mul a (pos 0) ≡ pos 0
unfolding fixed_mul
mul_nought (pos n) = ground arith
mul_nought (negsuc n) = ground arith

nought_mul : (a : ℤ) → fixed_mul (pos 0) a ≡ pos 0
unfolding fixed_mul
nought_mul (pos n) = ground arith
nought_mul (negsuc n) = ground arith

mul_neg : (a b : ℤ) → fixed_mul a (neg_ℤ b) ≡ neg_ℤ (fixed_mul a b)
unfolding fixed_mul
mul_neg a (pos zero) = ground (arith, mul_nought a)
mul_neg (pos a) (pos (suc n)) = ground arith
mul_neg (negsuc a) (pos (suc n)) = ground arith
mul_neg (pos a) (negsuc n) = ground arith
mul_neg (negsuc a) (negsuc n) = ground arith

neg_mul : (a b : ℤ) → fixed_mul (neg_ℤ a) b ≡ neg_ℤ (fixed_mul a b)
unfolding fixed_mul
neg_mul (pos zero) b = ground (arith, nought_mul b)
neg_mul (pos (suc n)) (pos b) = ground arith
neg_mul (pos (suc n)) (negsuc b) = ground arith
neg_mul (negsuc n) (pos b) = ground arith
neg_mul (negsuc n) (negsuc b) = ground arith

mul_nonneg :
    (a b : ℤ)
    → leb_ℤ (pos 0) a ≡ true
    → leb_ℤ (pos 0) b ≡ true
    → leb_ℤ (pos 0) (fixed_mul a b) ≡ true
unfolding fixed_mul
mul_nonneg a b h k = ground arith

div_nonneg :
    (a b : ℤ)
    → leb_ℤ (pos 0) a ≡ true
    → not (leb_ℤ b (pos 0)) ≡ true
    → leb_ℤ (pos 0) (fixed_div a b) ≡ true
unfolding fixed_div
div_nonneg a b h k = ground arith

mul_pos :
    (a b : ℤ)
    → not (leb_ℤ a (pos 0)) ≡ true
    → not (leb_ℤ b (pos 0)) ≡ true
    → not (leb_ℤ (fixed_mul a b) (pos 0)) ≡ true
unfolding fixed_mul
mul_pos (pos (suc a)) (pos (suc b)) h k = ground arith
mul_pos _ _ h k = ground arith

div_pos :
    (a b : ℤ)
    → not (leb_ℤ a (pos 0)) ≡ true
    → not (leb_ℤ b (pos 0)) ≡ true
    → not (leb_ℤ (fixed_div a b) (pos 0)) ≡ true
unfolding fixed_div
div_pos (pos (suc a)) (pos (suc b)) h k =
    ground (arith, le-div_pos (suc a * scale + (suc b - 1)) (suc b))
div_pos _ _ h k = ground arith

pub fixed-IsRounded : IsRounded ℤ
fixed-IsRounded = record {
  le_refl = le_refl;
  le_trans = le_trans;
  le_antisymm = le_antisymm;
  le_total = le_total;
  lit_nonneg = lit_nonneg;
  lit_pos = lit_pos;
  add_comm = add_comm;
  add-nought = add-nought;
  add_mono = add_mono;
  neg-neg = neg-neg;
  neg_anti = neg_anti;
  sub_self = sub_self;
  add_eq-nought = add_eq-nought;
  mul_neg_self = mul_neg_self;
  mul_neg = mul_neg;
  neg_mul = neg_mul;
  mul_nonneg = mul_nonneg;
  mul_pos = mul_pos;
  div_pos = div_pos;
  div_nonneg = div_nonneg;
}
