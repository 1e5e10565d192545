-- ===== src/Coverage/Recompute/Around.antt =====
-- The bounds of the source candles of an instrument in coverage_transition.py.
use mathlib.Core.Path.{subst}
use mathlib.Core.List.{Memᴰ}
use goodmoneying.Prelude.{
  ℕ, ◌≤◌, ◌≡◌, refl, sym, ap, ◌∙◌, inl, inr, Bool, true, Option, none, some, List, [], ◌∷◌, any,
  ◌==◌, Bool-cases, arith,
}
use goodmoneying.Coverage.Recompute.{SourceRevision, Bounds, widen, bounds_of}

-- The bounds are around every candle of the instrument.
widen-around :
    (s : SourceRevision) (o : Option Bounds)
    → ((widen s o).first_at ≤ s.candle_start_at) × (s.candle_start_at ≤ (widen s o).last_at)
widen-around s none = (omega arith, omega arith)
widen-around s (some b) = (omega arith, omega arith)

pub bounds_of-around :
    (instrument : ℕ) (revisions : List SourceRevision) {s : SourceRevision}
    → Memᴰ s revisions
    → s.instrument_id ≡ instrument
    → (b : Bounds) × (bounds_of instrument revisions ≡ some b)
      × (b.first_at ≤ s.candle_start_at)
      × (s.candle_start_at ≤ b.last_at)
unfolding bounds_of
bounds_of-around instrument [] m mine = elim m [ ]
bounds_of-around instrument (t ∷ revisions) {s} (Memᴰ.head e) mine =
    let same : (t.instrument_id == instrument) ≡ true =
      subst (λ u. (u.instrument_id == instrument) ≡ true) e (ground (arith, mine)) in
    let (first, last) =
      subst
        (λ u.
          ((widen t (bounds_of instrument revisions)).first_at ≤ u.candle_start_at)
          × (u.candle_start_at ≤ (widen t (bounds_of instrument revisions)).last_at))
        (sym e) (widen-around t (bounds_of instrument revisions)) in
    rw same (_, refl, first, last)
bounds_of-around instrument (t ∷ revisions) (Memᴰ.tail m) mine =
    let (b, found, first, last) = bounds_of-around instrument revisions m mine in
    elim (Bool-cases (t.instrument_id == instrument)) [
      | inl same ↦ rw (same, found) (_, refl, omega (arith, first), omega (arith, last))
      | inr other ↦ rw other (b, found, first, last)
    ]

pub any-mem :
    {A : Type 0} (p : A → Bool) {x : A} (xs : List A) → Memᴰ x xs → p x ≡ true → any p xs ≡ true
any-mem p [] m h = elim m [ ]
any-mem p (y ∷ xs) (Memᴰ.head e) h = let first = sym (ap p e) ∙ h in ground (arith, first)
any-mem p (y ∷ xs) (Memᴰ.tail m) h = let rest = any-mem p xs m h in ground (arith, rest)
