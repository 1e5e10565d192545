-- ===== src/Reconcile/Ledger.antt =====
-- What upbit_rest_reconciliation.py asks of the ledger: one fill for each trade, and nothing as long as the
-- order is open.
use Prim.Native.String.{String}
use mathlib.Core.Path.{subst}
use goodmoneying.Prelude.{
  ℕ, true, false, ◌≡◌, refl, sym, ◌∙◌, inl, inr, Option, some, List, Bool-cases, arith,
}
use goodmoneying.Prelude.Results.{Result, ok, ◌>>=◌, or_raise, bind-returned, ok-injective}
use goodmoneying.Prelude.Int.{ℤ}
use goodmoneying.Prelude.Json.{Json, boolean, Fields}
use goodmoneying.Reconcile.{
  ReconcileError, no_integer, Amount, OrderState, wait, watch, trade, done, cancel, prevented,
  rejected,
}
use goodmoneying.Reconcile.Snapshot.{
  UpbitRestOrderSnapshot, to_integer, parse_upbit_rest_order_snapshot,
}
use goodmoneying.Reconcile.Request.{
  observed_order_status, action_for, is_apply, plan_upbit_rest_snapshot_reconciliation, Fill,
  reconciliation_fills, StoreCall, observed, reconciled, put, reconcile_with, apply_snapshot,
  apply_upbit_rest_order_snapshot,
}
use goodmoneying.Reconcile.Fees.{distributed_fees}
use goodmoneying.Reconcile.Read.{IsSnapshot, parse_upbit_rest_order_snapshot-IsSnapshot}
use goodmoneying.Reconcile.Fills.{AllMatch, reconciliation_fills-AllMatch}

abbrev pub IsEnded : OrderState → Type 0
IsEnded done = Unit
IsEnded cancel = Unit
IsEnded prevented = Unit
IsEnded rejected = Unit
IsEnded _ = ⊥

applied-IsEnded :
    (state : OrderState) (remaining : Option Amount)
    → is_apply (action_for (observed_order_status state remaining)) ≡ true
    → IsEnded state
unfolding observed_order_status
applied-IsEnded wait remaining h = cc
applied-IsEnded watch remaining h = cc
applied-IsEnded trade remaining h = absurd (ground (arith, h))
applied-IsEnded done remaining h = tt
applied-IsEnded cancel remaining h = tt
applied-IsEnded prevented remaining h = tt
applied-IsEnded rejected remaining h = tt

abbrev pub IsOpen : OrderState → Type 0
IsOpen wait = Unit
IsOpen watch = Unit
IsOpen trade = Unit
IsOpen _ = ⊥

status-waits :
    (state : OrderState) (remaining : Option Amount)
    → IsOpen state
    → is_apply (action_for (observed_order_status state remaining)) ≡ false
unfolding observed_order_status
status-waits wait remaining waiting = refl
status-waits watch remaining waiting = refl
status-waits trade remaining waiting = ground arith
status-waits done remaining waiting = absurd waiting
status-waits cancel remaining waiting = absurd waiting
status-waits prevented remaining waiting = absurd waiting
status-waits rejected remaining waiting = absurd waiting

plan-waits :
    (s : UpbitRestOrderSnapshot)
    → IsOpen s.state
    → is_apply (plan_upbit_rest_snapshot_reconciliation s).ledger_action ≡ false
unfolding plan_upbit_rest_snapshot_reconciliation
plan-waits s waiting = status-waits s.state s.remaining_volume waiting

pub fills-match :
    (s : UpbitRestOrderSnapshot) {fills : List Fill}
    → reconciliation_fills s ≡ ok fills
    → AllMatch 0 fills s.trades
unfolding reconciliation_fills
fills-match s h =
    let (fees, _, distributed) = bind-returned (distributed_fees s.paid_fee s.trades) _ h in
    let (fills, made, matches) = reconciliation_fills-AllMatch s distributed in
    subst (λ fs. AllMatch 0 fs s.trades) (ok-injective (sym made ∙ h)) matches

pub plan-IsEnded :
    (s : UpbitRestOrderSnapshot)
    → is_apply (plan_upbit_rest_snapshot_reconciliation s).ledger_action ≡ true
    → IsEnded s.state
unfolding plan_upbit_rest_snapshot_reconciliation
plan-IsEnded s applied = applied-IsEnded s.state s.remaining_volume applied

module _ (repr : Json → String) (fromisoformat : String → Option (Option ℕ))
    (reconcile_exchange_order : StoreCall → Result ReconcileError Fields) where
  -- The store was asked about this snapshot, and answered.
  pub record WasAsked (exchange_order_id : Json) (s : UpbitRestOrderSnapshot) (row : Fields)
      : Type 0 where
    pub snapshot : IsSnapshot s
    pub ended : IsEnded s.state
    pub call : StoreCall
    pub about : call.exchange_order_id ≡ exchange_order_id
    pub fills_match : AllMatch 0 call.request.fills s.trades
    pub answer : Fields
    pub answered : reconcile_exchange_order call ≡ ok answer
    pub passed_on : row ≡ put "canResubmit" (boolean false) answer

  reconcile_with-asked :
      (exchange_order_id : Json) (s : UpbitRestOrderSnapshot) (call : StoreCall) {row : Fields}
      → IsSnapshot s
      → IsEnded s.state
      → call.exchange_order_id ≡ exchange_order_id
      → AllMatch 0 call.request.fills s.trades
      → reconcile_with repr fromisoformat reconcile_exchange_order call ≡ ok (reconciled row)
      → WasAsked exchange_order_id s row
  unfolding reconcile_with
  reconcile_with-asked exchange_order_id s call {row} snapshot ended about matches h =
      let (answer, made, answered) = bind-returned (reconcile_exchange_order call) _ h in
      record {
        snapshot = snapshot;
        ended = ended;
        call = call;
        about = about;
        fills_match = matches;
        answer = answer;
        answered = answered;
        passed_on = cc;
      }

  apply_snapshot-WasAsked :
      (exchange_order_id run_key actor_id reason : Json) (s : UpbitRestOrderSnapshot) {row : Fields}
      → IsSnapshot s
      → apply_snapshot repr fromisoformat reconcile_exchange_order exchange_order_id run_key
          actor_id reason s
        ≡ ok (reconciled row)
      → WasAsked exchange_order_id s row
  unfolding apply_snapshot
  apply_snapshot-WasAsked exchange_order_id run_key actor_id reason s {row} snapshot h =
      elim (Bool-cases (is_apply (plan_upbit_rest_snapshot_reconciliation s).ledger_action)) [
        | inr waiting ↦
            let only_seen = rw (waiting, apply_snapshot) at h in
            let (_, replied, _) =
              bind-returned (or_raise (to_integer exchange_order_id) no_integer) _ only_seen in
            cc
        | inl applied ↦
            let asked = rw (applied, apply_snapshot) at h in
            let (request, replied, built) = bind-returned (reconciliation_fills s >>= _) _ asked in
            let (fills, made, filled) = bind-returned (reconciliation_fills s) _ built in
            reconcile_with-asked exchange_order_id s _ snapshot (plan-IsEnded s applied) refl
              (subst (λ r. AllMatch 0 r.fills s.trades) (ok-injective made) (fills-match s filled))
              replied
      ]

  -- If the reply is the store's, the order has ended, and the store was asked to enter one fill for each of
  -- the snapshot's trades, in the order of time.
  pub apply_upbit_rest_order_snapshot-asked :
      (exchange_order_id run_key actor_id reason : Json) (payload : Fields)
      (knowledge_at : Option ℕ) (source_endpoint : String) {row : Fields}
      → apply_upbit_rest_order_snapshot repr fromisoformat reconcile_exchange_order
          exchange_order_id run_key actor_id reason payload knowledge_at source_endpoint
        ≡ ok (reconciled row)
      → (s : UpbitRestOrderSnapshot) × (parse_upbit_rest_order_snapshot repr fromisoformat payload
            knowledge_at source_endpoint
          ≡ ok s)
        × WasAsked exchange_order_id s row
  unfolding apply_upbit_rest_order_snapshot
  apply_upbit_rest_order_snapshot-asked exchange_order_id run_key actor_id reason payload
        knowledge_at source_endpoint h =
      let (s, later, read) =
        bind-returned
          (parse_upbit_rest_order_snapshot repr fromisoformat payload knowledge_at source_endpoint)
          _ h in
      let snapshot =
        parse_upbit_rest_order_snapshot-IsSnapshot repr fromisoformat payload knowledge_at
          source_endpoint read in
      (s, read, apply_snapshot-WasAsked exchange_order_id run_key actor_id reason s snapshot later)

  apply_snapshot-observed :
      (exchange_order_id run_key actor_id reason : Json) (s : UpbitRestOrderSnapshot) {id : ℤ}
      → IsOpen s.state
      → to_integer exchange_order_id ≡ some id
      → apply_snapshot repr fromisoformat reconcile_exchange_order exchange_order_id run_key
          actor_id reason s
        ≡ ok (observed id (observed_order_status s.state s.remaining_volume) s.source_endpoint)
  unfolding apply_snapshot
  apply_snapshot-observed exchange_order_id run_key actor_id reason s waiting numbered =
      rw (plan-waits s waiting, apply_snapshot, numbered, plan_upbit_rest_snapshot_reconciliation)
        refl

  -- Of an order that is open and has a number the reply is an observation: the store is not asked.
  pub apply_upbit_rest_order_snapshot-observed :
      (exchange_order_id run_key actor_id reason : Json) (payload : Fields)
      (knowledge_at : Option ℕ) (source_endpoint : String) {s : UpbitRestOrderSnapshot} {id : ℤ}
      → parse_upbit_rest_order_snapshot repr fromisoformat payload knowledge_at source_endpoint
        ≡ ok s
      → IsOpen s.state
      → to_integer exchange_order_id ≡ some id
      → apply_upbit_rest_order_snapshot repr fromisoformat reconcile_exchange_order
          exchange_order_id run_key actor_id reason payload knowledge_at source_endpoint
        ≡ ok (observed id (observed_order_status s.state s.remaining_volume) s.source_endpoint)
  unfolding apply_upbit_rest_order_snapshot apply_snapshot
  apply_upbit_rest_order_snapshot-observed exchange_order_id run_key actor_id reason payload
        knowledge_at source_endpoint {s} {id} read waiting numbered =
      rw (read, apply_upbit_rest_order_snapshot)
        (apply_snapshot-observed exchange_order_id run_key actor_id reason s waiting numbered)
