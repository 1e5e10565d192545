-- ===== src/Backtest/Lease/Seal.antt =====
-- How one row may change under a worker's statement: terminal rows not at all, the lease's
-- generation never backwards, and within one generation the lease never to another owner.
use Prim.Native.String.{String}
use mathlib.Core.Path.{subst}
use goodmoneying.Prelude.{
  ℕ, ◌≡◌, refl, ap, ◌∙◌, ◌≤◌, ◌+◌, inl, inr, Bool, true, false, arith, if◌then◌else◌, Bool-cases,
}
use goodmoneying.Backtest.Lease.{
  RunStatus, queued, running, retry_wait, Run, is_running, is_exhausted, bury, is_claimable,
  is_chosen, lease, holds, ResultStatus, RunResult, finish, give_back, is_last,
}

abbrev pub is_terminal : RunStatus → Bool
is_terminal queued = false
is_terminal running = false
is_terminal retry_wait = false
is_terminal _ = true

-- `b` is what a row `a` may have become.
pub record Follows (a b : Run) : Type 0 where
  pub same_id : b.id ≡ a.id
  pub same_input : b.input_hash ≡ a.input_hash
  pub same_request : b.requested_at ≡ a.requested_at
  pub same_limit : b.max_attempts ≡ a.max_attempts
  pub grows : a.lease_generation ≤ b.lease_generation
  pub sealed : is_terminal a.status ≡ true → b ≡ a
  pub fenced :
      b.lease_generation ≡ a.lease_generation
      → is_running b.status ≡ true
      → (is_running a.status ≡ true) × (b.lease_owner ≡ a.lease_owner)

pub Follows-refl : (a : Run) → Follows a a
Follows-refl a = ground arith

pub Follows-trans : (a b c : Run) → Follows a b → Follows b c → Follows a c
Follows-trans a b c h k = record {
  same_id = k.same_id ∙ h.same_id;
  same_input = k.same_input ∙ h.same_input;
  same_request = k.same_request ∙ h.same_request;
  same_limit = k.same_limit ∙ h.same_limit;
  grows = omega (arith, h.grows, k.grows);
  sealed = λ t. let e = h.sealed t in k.sealed (ap (λ (r : Run). is_terminal r.status) e ∙ t) ∙ e;
  fenced = λ same held.
      let low = h.grows in
      let high = k.grows in
      let (held_b, owner_b) = k.fenced (omega arith) held in
      let (held_a, owner_a) = h.fenced (omega arith) held_b in (held_a, owner_b ∙ owner_a);
}

pub bury-Follows : (now : ℕ) (r : Run) → Follows r (if is_exhausted now r then bury now r else r)
bury-Follows now r = elim (Bool-cases (is_exhausted now r)) [
  | inl spent ↦ rw spent (ground arith)
  | inr kept ↦ rw kept (Follows-refl r)
]

leased-Follows :
    (owner : String) (lease_seconds now select : ℕ) (r : Run)
    → is_claimable select r ≡ true
    → Follows r (lease owner lease_seconds (r.lease_generation + 1) now r)
leased-Follows owner lease_seconds now select r c = ground arith

pub lease-Follows :
    (owner : String) (lease_seconds now select : ℕ) (run r : Run)
    → (r.id ≡ run.id → r ≡ run)
    → is_claimable select run ≡ true
    → Follows r
        (if is_chosen run r then lease owner lease_seconds (run.lease_generation + 1) now r else r)
lease-Follows owner lease_seconds now select run r unique c = elim (Bool-cases (is_chosen run r)) [
  | inl chosen ↦
      let same : r ≡ run = unique (ground arith) in
      rw chosen (
        subst (λ t. Follows r (lease owner lease_seconds (t.lease_generation + 1) now r)) same
          (leased-Follows owner lease_seconds now select r (rw same c)))
  | inr other ↦ rw other (Follows-refl r)
]

module _ (id : ℕ) (worker : String) (generation now : ℕ) where
  pub finish-Follows :
      {Body : Type 0} (result : RunResult Body) (completed_at : ℕ) (r : Run)
      → Follows r (if holds id worker generation now r then finish result completed_at r else r)
  finish-Follows result completed_at r = elim (Bool-cases (holds id worker generation now r)) [
    | inl held ↦ rw held (finished result.status refl held)
    | inr other ↦ rw other (Follows-refl r)
  ]
    where
      finished :
          (s : ResultStatus)
          → result.status ≡ s
          → holds id worker generation now r ≡ true
          → Follows r (finish result completed_at r)
      finished ResultStatus.succeeded e held = rw e (ground arith)
      finished ResultStatus.failed e held = rw e (ground arith)

  pub give_back-Follows :
      (code message : String) (r : Run)
      → Follows r (if holds id worker generation now r then give_back code message now r else r)
  give_back-Follows code message r = elim (Bool-cases (holds id worker generation now r)) [
    | inl held ↦ elim (Bool-cases (is_last r)) [
      | inl last ↦ rw (held, last) (ground arith)
      | inr more ↦ rw (held, more) (ground arith)
    ]
    | inr other ↦ rw other (Follows-refl r)
  ]
