-- ===== src/Prelude/DecimalOrder.antt =====
-- `<` on decimals compares the numbers, whatever their scales, so "not below" is transitive.
use Prim.Native.Nat.{ℕ, zero, suc, ◌+◌, ◌-◌, ◌*◌, ◌^◌, ◌≤◌, max}
use mathlib.Core.Path.{◌≡◌, sym, ap, ◌∙◌}
use mathlib.Core.Bool.{false}
use native.Mathlib.Omega.{arith}
use native.Mathlib.Nat.{pow-succ', mul_left_comm}
use goodmoneying.Prelude.Int.{ℤ, pos, negsuc, pos_part, neg_part, ◌*ℤ◌}
use goodmoneying.Prelude.Decimal.{Decimal, scaled, lt_at, decimal_lt}

times_ten :
    (c : ℤ) (p : ℕ)
    → (pos_part (c *ℤ pos (10 * p)) ≡ 10 * pos_part (c *ℤ pos p))
      × (neg_part (c *ℤ pos (10 * p)) ≡ 10 * neg_part (c *ℤ pos p))
unfolding ◌*ℤ◌
times_ten (pos n) p = ground (arith, mul_left_comm n 10 p)
times_ten (negsuc n) p = ground (arith, mul_left_comm (suc n) 10 p)

-- One place more.
scaled-suc :
    (a : Decimal) (s : ℕ)
    → a.scale ≤ s
    → (pos_part (scaled a (suc s)) ≡ 10 * pos_part (scaled a s))
      × (neg_part (scaled a (suc s)) ≡ 10 * neg_part (scaled a s))
scaled-suc a s le =
    let e : suc s - a.scale ≡ suc (s - a.scale) = omega (arith, le) in
    rw (e, pow-succ' 10 (s - a.scale)) (times_ten a.coefficient (10 ^ (s - a.scale)))

lt_at-suc : (a b : Decimal) (s : ℕ) → a.scale ≤ s → b.scale ≤ s → lt_at a b (suc s) ≡ lt_at a b s
lt_at-suc a b s le le' =
    let (pa, na) = scaled-suc a s le in
    let (pb, nb) = scaled-suc b s le' in ground (arith, pa, na, pb, nb)

lt_at-higher :
    (a b : Decimal) (s more : ℕ) → a.scale ≤ s → b.scale ≤ s → lt_at a b (more + s) ≡ lt_at a b s
lt_at-higher a b s zero le le' = ap (lt_at a b) (omega arith)
lt_at-higher a b s (suc more) le le' =
    ap (lt_at a b) (omega arith)
    ∙ lt_at-suc a b (more + s) (omega (arith, le)) (omega (arith, le'))
    ∙ lt_at-higher a b s more le le'

decimal_lt-lt_at :
    (a b : Decimal) (s : ℕ) → a.scale ≤ s → b.scale ≤ s → decimal_lt a b ≡ lt_at a b s
unfolding decimal_lt
decimal_lt-lt_at a b s le le' =
    let top = max a.scale b.scale in
    sym (lt_at-higher a b top (s - top) (omega arith) (omega arith))
    ∙ ap (lt_at a b) (omega (arith, le, le'))

not_less_at :
    (a b c : Decimal) (s : ℕ) → lt_at a b s ≡ false → lt_at b c s ≡ false → lt_at a c s ≡ false
not_less_at a b c s h k = ground arith

pub decimal_lt_trans_not :
    (a b c : Decimal) → decimal_lt a b ≡ false → decimal_lt b c ≡ false → decimal_lt a c ≡ false
decimal_lt_trans_not a b c h k =
    let s = max a.scale (max b.scale c.scale) in
    decimal_lt-lt_at a c s (omega arith) (omega arith)
    ∙ not_less_at a b c s (sym (decimal_lt-lt_at a b s (omega arith) (omega arith)) ∙ h)
        (sym (decimal_lt-lt_at b c s (omega arith) (omega arith)) ∙ k)
