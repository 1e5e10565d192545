-- ===== src/Prelude/Decimal.antt =====
-- Python's `decimal.Decimal` in the default context, by value: a coefficient over a power of ten, and
-- results rounded half to even to 28 digits. Signed zeros and trailing zeros are not told apart, and
-- exponents have no bounds.
use Prim.Native.Nat.{ℕ, zero, suc, ◌+◌, ◌-◌, ◌*◌, ◌/◌, ◌%◌, ◌^◌, max, compare, Ordering}
use mathlib.Core.Path.{◌≡◌, ap, ◌∙◌}
use mathlib.Core.Logic.{inl, inr}
use mathlib.Core.Bool.{Bool, true, false, not, ◌&&◌, ◌||◌}
use native.Mathlib.Omega.{arith}
use goodmoneying.Prelude.Tests.{ltb, ◌==◌, if◌then◌else◌, Bool-cases}
use goodmoneying.Prelude.Int.{ℤ, pos, negsuc, ◌+ℤ◌, ◌-ℤ◌, ◌*ℤ◌, ltb_ℤ, pos_part, neg_part}

-- coefficient / 10 ^ scale
pub record Decimal : Type 0 where
  pub coefficient : ℤ
  pub scale : ℕ

abbrev precision : ℕ
precision = 28

-- The number of decimal digits, on fuel: the number itself is always enough.
unfoldable pub digits : ℕ → ℕ → ℕ
digits zero n = 1
digits (suc fuel) n = elim (compare n 10) [ Ordering.lt ↦ 1 | _ ↦ suc (digits fuel (n / 10)) ]

-- n / 10 ^ d, rounded half to even.
unfoldable pub half_even : ℕ → ℕ → ℕ
half_even n d =
    let quotient = n / 10 ^ d in
    let rest = 2 * (n % 10 ^ d) in
    if ltb rest (10 ^ d) || (rest == 10 ^ d) && (quotient % 2 == 0) then quotient else quotient + 1

-- The digits that a result has too many, and the magnitude without them.
abbrev excess : ℕ → ℕ
excess n = digits n n - precision

abbrev rounded : ℕ → ℕ → ℕ
rounded n scale = half_even n (excess n) * 10 ^ (excess n - scale)

abbrev pub negative : ℕ → ℤ
negative zero = pos 0
negative (suc n) = negsuc n

unfoldable pub round : ℤ → ℕ → Decimal
unfolding half_even digits
round (pos n) scale = record { coefficient = pos (rounded n scale); scale = scale - excess n }
round (negsuc n) scale = record {
  coefficient = negative (rounded (suc n) scale);
  scale = scale - excess (suc n);
}

abbrev pub scaled : Decimal → ℕ → ℤ
scaled a scale = a.coefficient *ℤ pos (10 ^ (scale - a.scale))

infixl 65 ◌+ᵈ◌ ◌-ᵈ◌
infixl 70 ◌*ᵈ◌ ◌/ᵈ◌
unfoldable pub ◌+ᵈ◌ : Decimal → Decimal → Decimal
unfolding round ◌+ℤ◌ ◌*ℤ◌
a +ᵈ b = let scale = max a.scale b.scale in round (scaled a scale +ℤ scaled b scale) scale

unfoldable pub ◌-ᵈ◌ : Decimal → Decimal → Decimal
unfolding round ◌-ℤ◌ ◌*ℤ◌
a -ᵈ b = let scale = max a.scale b.scale in round (scaled a scale -ℤ scaled b scale) scale

unfoldable pub ◌*ᵈ◌ : Decimal → Decimal → Decimal
unfolding round ◌*ℤ◌
a *ᵈ b = round (a.coefficient *ℤ b.coefficient) (a.scale + b.scale)

-- n / m for a divisor that is not 0, exact up to a digit that tells whether something is left over: it
-- has more digits than the precision, so rounding it is rounding the quotient.
abbrev sticky : ℕ → ℕ → ℕ
sticky n m = 10 * (n / m) + (if n % m == 0 then 0 else 1)

abbrev magnitude : ℤ → ℕ
magnitude a = pos_part a + neg_part a

-- The places that are added to the dividend.
abbrev quotient_places : ℕ → ℕ
quotient_places m = precision + 2 + digits m m

abbrev signed_as : ℤ → ℤ → ℕ → ℤ
signed_as (pos _) (pos _) n = pos n
signed_as (negsuc _) (negsuc _) n = pos n
signed_as _ _ n = negative n

-- `a / b` for a divisor that is not 0
unfoldable pub ◌/ᵈ◌ : Decimal → Decimal → Decimal
unfolding round digits
a /ᵈ b =
    let m = magnitude b.coefficient in
    let places = quotient_places m in
    round
      (signed_as a.coefficient b.coefficient
        (sticky (magnitude a.coefficient * 10 ^ places) m * 10 ^ b.scale))
      (a.scale + places + 1)

-- `a / Decimal("10000")`
unfoldable pub per_ten_thousand : Decimal → Decimal
unfolding round
per_ten_thousand a = round a.coefficient (a.scale + 4)

-- `a < b`
unfoldable pub decimal_lt : Decimal → Decimal → Bool
unfolding ◌*ℤ◌
decimal_lt a b = let scale = max a.scale b.scale in ltb_ℤ (scaled a scale) (scaled b scale)

-- `a == b`
unfoldable pub decimal_eq : Decimal → Decimal → Bool
unfolding decimal_lt
decimal_eq a b = not (decimal_lt a b) && not (decimal_lt b a)

-- `min(a, b)`
unfoldable pub decimal_min : Decimal → Decimal → Decimal
unfolding decimal_lt
decimal_min a b = if decimal_lt b a then b else a

-- `a == Decimal("0")`
abbrev pub is_zero : Decimal → Bool
is_zero a = (pos_part a.coefficient == 0) && (neg_part a.coefficient == 0)

abbrev pub integer : ℕ → Decimal
integer n = record { coefficient = pos n; scale = 0 }

-- The comparison at a given scale.
abbrev pub lt_at : Decimal → Decimal → ℕ → Bool
lt_at a b scale = ltb_ℤ (scaled a scale) (scaled b scale)

lt_at_asym : (a b : Decimal) (scale : ℕ) → lt_at a b scale ≡ true → lt_at b a scale ≡ false
lt_at_asym a b scale h = ground arith

lt_at_irrefl : (a : Decimal) (scale : ℕ) → lt_at a a scale ≡ false
lt_at_irrefl a scale = ground arith

pub decimal_lt_asym : (a b : Decimal) → decimal_lt a b ≡ true → decimal_lt b a ≡ false
unfolding decimal_lt
decimal_lt_asym a b h =
    let swap : max b.scale a.scale ≡ max a.scale b.scale = omega arith in
    ap (lt_at b a) swap ∙ lt_at_asym a b (max a.scale b.scale) h

pub decimal_lt_irrefl : (a : Decimal) → decimal_lt a a ≡ false
unfolding decimal_lt
decimal_lt_irrefl a = lt_at_irrefl a (max a.scale a.scale)

-- Neither number is below the smaller one.
pub decimal_min-lower :
    (a b : Decimal)
    → (decimal_lt a (decimal_min a b) ≡ false) × (decimal_lt b (decimal_min a b) ≡ false)
unfolding decimal_min
decimal_min-lower a b = elim (Bool-cases (decimal_lt b a)) [
  | inl b_less ↦ rw b_less (decimal_lt_asym b a b_less, decimal_lt_irrefl b)
  | inr b_not_less ↦ rw b_not_less (decimal_lt_irrefl a, b_not_less)
]
