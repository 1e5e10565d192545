-- ===== src/Coverage/Recompute/Rows.antt =====
-- The rows of candle_rollup_invalidations that _enqueue_quality_transition_recomputation of coverage_transition.py
-- writes, by the keys that their fingerprints are made of.
use Prim.Native.String.{String}
use mathlib.Core.List.{Memᴰ}
use text.Mathlib.Text.{◌==◌ as str_eq}
use text.Mathlib.TextEquality.{eq_iff}
use goodmoneying.Prelude.{
  ◌≡◌, refl, sym, ◌∙◌, inl, inr, Bool, true, List, [], ◌∷◌, any, All, All-mem, Bool-cases, arith,
}
use goodmoneying.Coverage.Recompute.{RecomputeKey}
use goodmoneying.Coverage.Recompute.Queue.{RollupInvalidation, has_invalidation, Queue}

-- The two keys are for the same derived candles.
abbrev pub IsSameRange : RecomputeKey → RecomputeKey → Type 0
IsSameRange a b =
    (a.instrument_id ≡ b.instrument_id)
    × (a.unit ≡ b.unit)
    × (a.start_at ≡ b.start_at)
    × (a.end_at ≡ b.end_at)

-- The row is for the derived candles of the key.
abbrev pub IsFor : RecomputeKey → RollupInvalidation → Type 0
IsFor k i =
    (i.instrument_id ≡ k.instrument_id)
    × (i.candle_unit ≡ k.unit)
    × (i.range_start_at ≡ k.start_at)
    × (i.range_end_at ≡ k.end_at)

-- The row has the fingerprint of a key, and what the key says.
abbrev pub IsFingerprinted : (RecomputeKey → String) → RollupInvalidation → Type 0
IsFingerprinted fingerprint_of i =
    (k : RecomputeKey) × (i.idempotency_key ≡ fingerprint_of k) × IsFor k i

any-found :
    {A : Type 0} (p : A → Bool) (xs : List A) → any p xs ≡ true → (x : A) × Memᴰ x xs × (p x ≡ true)
any-found p [] h = cc
any-found p (x ∷ xs) h = elim (Bool-cases (p x)) [
  | inl passes ↦ (x, Memᴰ.head refl, passes)
  | inr fails ↦
      let rest : any p xs ≡ true = ground (arith, h, fails) in
      let (y, m, k) = any-found p xs rest in (y, Memᴰ.tail m, k)
]

-- The row with the fingerprint of a key is for the candles of this key, if the fingerprints tell them apart.
pub has_invalidation-IsFor :
    (fingerprint_of : RecomputeKey → String) (queue : Queue)
    → ((a b : RecomputeKey) → fingerprint_of a ≡ fingerprint_of b → IsSameRange a b)
    → All (IsFingerprinted fingerprint_of) queue.candle_rollup_invalidations
    → (k : RecomputeKey) → has_invalidation (fingerprint_of k) queue ≡ true
    → (i : RollupInvalidation) × Memᴰ i queue.candle_rollup_invalidations
      × (i.idempotency_key ≡ fingerprint_of k)
      × IsFor k i
has_invalidation-IsFor fingerprint_of queue separates rows k h =
    let (i, m, found) =
      any-found (λ i. str_eq i.idempotency_key (fingerprint_of k)) queue.candle_rollup_invalidations
        h in
    let keyed : i.idempotency_key ≡ fingerprint_of k = (eq_iff _ _).0 found in
    let (k', keyed', (instrument, unit, from, to)) = All-mem _ _ rows m in
    let (instrument', unit', from', to') = separates k' k (sym keyed' ∙ keyed) in
    (i, m, keyed, (instrument ∙ instrument', unit ∙ unit', from ∙ from', to ∙ to'))
