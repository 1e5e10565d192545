-- ===== src/Rollup/Inside.antt =====
-- affected_rollup_ranges_for_interval of incremental_aggregation.py: which range an instant of the interval is in.
use mathlib.Core.Path.{subst}
use mathlib.Core.List.{Memᴰ}
use mathlib.Core.List.Memᴰ
use goodmoneying.Prelude.{
  ℕ, ◌≤◌, ◌<◌, ◌≡◌, refl, sym, inl, inr, List, [], ◌∷◌, ltb, Bool-cases, arith,
}
use goodmoneying.Rollup.{RollupUnit, RollupInvalidationRange}
use goodmoneying.Rollup.Ranges.{IsChain, chain_end, Covers, AllCover}

-- A range of the unit in the list has the instant.
abbrev pub IsInside : RollupUnit → ℕ → List RollupInvalidationRange → Type 0
IsInside unit at ranges =
    (r : RollupInvalidationRange) × Memᴰ r ranges
    × (r.candle_unit ≡ unit)
    × (r.start_at ≤ at)
    × (at < r.end_at)

module _ (unit : RollupUnit) (at : ℕ) where
  chain-IsInside :
      (last current : ℕ) (ranges : List RollupInvalidationRange)
      → IsChain unit last current ranges
      → current ≤ at
      → at < chain_end current ranges
      → IsInside unit at ranges
  chain-IsInside last current [] chain le less = absurd (omega (arith, le, less))
  chain-IsInside last current (r ∷ ranges) (same, begins, _, _, _, _, rest) le less =
      elim (Bool-cases (ltb at r.end_at)) [
        | inl here ↦ (r, Memᴰ.head refl, same, omega (arith, begins, le), ground (arith, here))
        | inr beyond ↦
            let (found, there, same', from, below) =
              chain-IsInside last r.end_at ranges rest (ground (arith, beyond)) less in
            (found, Memᴰ.tail there, same', from, below)
      ]

  pub AllCover-IsInside :
      (start_at end_at : ℕ) (units : List RollupUnit) (ranges : List RollupInvalidationRange)
      → AllCover start_at end_at units ranges
      → Memᴰ unit units
      → start_at ≤ at
      → at < end_at
      → IsInside unit at ranges
  AllCover-IsInside start_at end_at [] ranges h m le less = elim m [ ]
  AllCover-IsInside start_at end_at (u ∷ units) ranges (mine, others, e, covers, rest)
        (Memᴰ.head same) le less =
      let (before, chain, reaches) : Covers start_at end_at unit mine =
        subst (λ v. Covers start_at end_at v mine) (sym same) covers in
      let (r, there, unit_same, from, below) =
        chain-IsInside _ _ mine chain (omega (arith, before, le)) (omega (arith, less, reaches)) in
      (r, subst (λ l. Memᴰ r l) (sym e) (Memᴰ.append_left others there), unit_same, from, below)
  AllCover-IsInside start_at end_at (u ∷ units) ranges (mine, others, e, covers, rest) (Memᴰ.tail m)
        le less =
      let (r, there, unit_same, from, below) =
        AllCover-IsInside start_at end_at units others rest m le less in
      (r, subst (λ l. Memᴰ r l) (sym e) (Memᴰ.append_right mine there), unit_same, from, below)
