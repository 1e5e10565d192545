-- ===== src/Reconcile/Live/Bound.antt =====
-- What upbit_live_reconciliation.py asks of the store: only about the order that the binding names, and only when
-- that order has ended.
use Prim.Native.String.{String}
use text.Mathlib.Text.{◌==◌ as str_eq}
use mathlib.Core.Path.{subst}
use text.Mathlib.TextEquality.{eq_iff}
use text.Mathlib.TextPositions.{eq_refl as str_eq-refl}
use goodmoneying.Prelude.{
  ℕ, Bool, true, false, not, ◌≡◌, refl, sym, ap, ◌∙◌, inl, inr, Option, none, some, Bool-cases,
  if◌then◌else◌,
}
use goodmoneying.Prelude.Int.{eq_ℤ, eq_ℤ-sound}
use goodmoneying.Prelude.Results.{
  Result, ok, err, raise_if, or_raise, bind-returned, or_raise-returned, raise_if-returned,
  ok-injective,
}
use goodmoneying.Prelude.Json.{Json, boolean, Fields, end, field, get}
use goodmoneying.Reconcile.{
  ReconcileError, no_integer, Amount, OrderState, wait, watch, trade, done, cancel, prevented,
  rejected,
}
use goodmoneying.Reconcile.Snapshot.{
  UpbitRestOrderSnapshot, to_integer, parse_upbit_rest_order_snapshot,
}
use goodmoneying.Reconcile.Request.{
  observed_order_status, UpbitRestLedgerAction, apply, observe_only, action_for,
  plan_upbit_rest_snapshot_reconciliation, ReconciliationRequest, reconciliation_fills,
  build_upbit_rest_reconciliation_request, put,
}
use goodmoneying.Reconcile.Fills.{AllMatch}
use goodmoneying.Reconcile.Ledger.{IsEnded, IsOpen, plan-IsEnded, fills-match}
use goodmoneying.Reconcile.Live.{
  LiveError, refused, from_reconcile, lift, UpbitLiveBindingSnapshot, binding_of, is_text,
  validate_snapshot_matches_binding, LiveCall, LiveReply, live_observed, live_applied, Arguments,
  with_flags, live_call, carry_out, apply_bound, apply_upbit_live_rest_order_snapshot,
}

lift-returned : {A : Type 0} (r : Result ReconcileError A) {a : A} → lift r ≡ ok a → r ≡ ok a
lift-returned (err e) h = cc
lift-returned (ok b) h = cc

raise_if-passed : (b : Bool) (e : LiveError) {u : Unit {0}} → raise_if b e ≡ ok u → b ≡ false
raise_if-passed true e h = cc
raise_if-passed false e h = refl

not-false : (b : Bool) → not b ≡ false → b ≡ true
not-false true h = refl
not-false false h = cc

get-put : (key : String) (value : Json) (fs : Fields) → get key (put key value fs) ≡ some value
unfolding get
get-put key value end = rw (str_eq-refl key) refl
get-put key value (field k v fs) = elim (Bool-cases (str_eq k key)) [
  | inl same ↦ rw same (rw same refl)
  | inr other ↦ rw other (rw other (get-put key value fs))
]

get-put_other :
    (key other : String) (value : Json) (fs : Fields)
    → str_eq other key ≡ false
    → get key (put other value fs) ≡ get key fs
unfolding get
get-put_other key other value end apart = rw apart refl
get-put_other key other value (field k v fs) apart = elim (Bool-cases (str_eq k other)) [
  | inl same ↦
      let apart' : str_eq k key ≡ false =
        ap (λ x. str_eq x key) ((eq_iff k other).0 same) ∙ apart in
      rw same (rw apart' refl)
  | inr differs ↦
      rw differs
        (ap (λ o. if str_eq k key then some v else o) (get-put_other key other value fs apart))
]

-- The flags that the function sets stand in the reply, whatever the store's row says.
with_flags-get :
    (row : Fields)
    → (get "canResubmit" (with_flags row) ≡ some (boolean false))
      × (get "actualRequestSent" (with_flags row) ≡ some (boolean false))
      × (get "actualOrderCancelSent" (with_flags row) ≡ some (boolean false))
      × (get "liveBindingMatched" (with_flags row) ≡ some (boolean true))
with_flags-get row =
    let resubmit = put "canResubmit" (boolean false) row in
    let sent = put "actualRequestSent" (boolean false) resubmit in
    let cancelled = put "actualOrderCancelSent" (boolean false) sent in
    (
      get-put_other "canResubmit" "liveBindingMatched" (boolean true) cancelled refl
          ∙ get-put_other "canResubmit" "actualOrderCancelSent" (boolean false) sent refl
          ∙ get-put_other "canResubmit" "actualRequestSent" (boolean false) resubmit refl
          ∙ get-put "canResubmit" (boolean false) row,
      get-put_other "actualRequestSent" "liveBindingMatched" (boolean true) cancelled refl
          ∙ get-put_other "actualRequestSent" "actualOrderCancelSent" (boolean false) sent refl
          ∙ get-put "actualRequestSent" (boolean false) resubmit,
      get-put_other "actualOrderCancelSent" "liveBindingMatched" (boolean true) cancelled refl
          ∙ get-put "actualOrderCancelSent" (boolean false) sent,
      get-put "liveBindingMatched" (boolean true) cancelled,
    )

built-match :
    (s : UpbitRestOrderSnapshot) {request : ReconciliationRequest}
    → build_upbit_rest_reconciliation_request s ≡ ok request
    → IsEnded s.state × AllMatch 0 request.fills s.trades
unfolding build_upbit_rest_reconciliation_request
built-match s h =
    let (not_open, built) = raise_if-returned _ _ _ h in
    let (fills, made, filled) = bind-returned (reconciliation_fills s) _ built in
    (
      plan-IsEnded s (not-false _ not_open),
      subst (λ r. AllMatch 0 r.fills s.trades) (ok-injective made) (fills-match s filled),
    )

waiting-IsOpen :
    (state : OrderState) (remaining : Option Amount)
    → action_for (observed_order_status state remaining) ≡ observe_only
    → IsOpen state
unfolding observed_order_status
waiting-IsOpen wait remaining h = tt
waiting-IsOpen watch remaining h = tt
waiting-IsOpen trade remaining h = tt
waiting-IsOpen done remaining h = cc
waiting-IsOpen cancel remaining h = cc
waiting-IsOpen prevented remaining h = cc
waiting-IsOpen rejected remaining h = cc

plan-IsOpen :
    (s : UpbitRestOrderSnapshot)
    → (plan_upbit_rest_snapshot_reconciliation s).ledger_action ≡ observe_only
    → IsOpen s.state
unfolding plan_upbit_rest_snapshot_reconciliation
plan-IsOpen s h = waiting-IsOpen s.state s.remaining_volume h

is_text-eq : (text_ : String) (o : Option String) → is_text text_ o ≡ true → o ≡ some text_
is_text-eq text_ none h = cc
is_text-eq text_ (some other) h = ap some ((eq_iff other text_).0 h)

matches_lem :
    (uuid : String) (identifier : Option String) (binding : UpbitLiveBindingSnapshot) {u : Unit {0}}
    → validate_snapshot_matches_binding uuid identifier binding ≡ ok u
    → (uuid ≡ binding.upbit_order_uuid) × (identifier ≡ some binding.upbit_identifier)
unfolding validate_snapshot_matches_binding
matches_lem uuid identifier binding h =
    let (same_uuid, rest) = raise_if-returned _ _ _ h in
    let same_identifier = raise_if-passed _ _ rest in
    (
      (eq_iff uuid binding.upbit_order_uuid).0 (not-false _ same_uuid),
      is_text-eq binding.upbit_identifier identifier (not-false _ same_identifier),
    )

module _ (repr : Json → String) (fromisoformat : String → Option (Option ℕ))
    (store : LiveCall → Result LiveError Fields) where
  -- The store entered one fill for each trade of an order that has ended; its row is passed on, and says that nothing
  -- was sent to the exchange and nothing may be submitted again.
  pub record WasApplied (binding : UpbitLiveBindingSnapshot) (arguments : Arguments)
      (s : UpbitRestOrderSnapshot) (row : Fields) : Type 0 where
    pub ended : IsEnded s.state
    pub request : ReconciliationRequest
    pub fills_match : AllMatch 0 request.fills s.trades
    pub answered :
        (answer : Fields) × (store (live_call repr binding arguments s request) ≡ ok answer)
        × (row ≡ with_flags answer)
    pub no_resubmit : get "canResubmit" row ≡ some (boolean false)
    pub no_request : get "actualRequestSent" row ≡ some (boolean false)
    pub no_cancel : get "actualOrderCancelSent" row ≡ some (boolean false)

  -- The two replies.
  abbrev pub IsReply :
      UpbitLiveBindingSnapshot → Arguments → UpbitRestOrderSnapshot → LiveReply → Type 0
  IsReply binding arguments s (live_observed id status endpoint) =
      IsOpen s.state
      × (id ≡ binding.exchange_order_id)
      × (status ≡ observed_order_status s.state s.remaining_volume)
      × (endpoint ≡ s.source_endpoint)
  IsReply binding arguments s (live_applied row) = WasApplied binding arguments s row

  applied-WasApplied :
      (binding : UpbitLiveBindingSnapshot) (arguments : Arguments) (s : UpbitRestOrderSnapshot)
      (request : ReconciliationRequest) (answer : Fields)
      → build_upbit_rest_reconciliation_request s ≡ ok request
      → store (live_call repr binding arguments s request) ≡ ok answer
      → WasApplied binding arguments s (with_flags answer)
  applied-WasApplied binding arguments s request answer built answered =
      let (ended, matches) = built-match s built in
      let (no_resubmit, no_request, no_cancel, _) = with_flags-get answer in
      record {
        ended = ended;
        request = request;
        fills_match = matches;
        answered = (answer, answered, refl);
        no_resubmit = no_resubmit;
        no_request = no_request;
        no_cancel = no_cancel;
      }

  carry_out-IsReply :
      (action : UpbitRestLedgerAction) (binding : UpbitLiveBindingSnapshot) (arguments : Arguments)
      (s : UpbitRestOrderSnapshot) {reply : LiveReply}
      → (plan_upbit_rest_snapshot_reconciliation s).ledger_action ≡ action
      → carry_out repr fromisoformat store action binding arguments s ≡ ok reply
      → IsReply binding arguments s reply
  carry_out-IsReply observe_only binding arguments s planned h =
      subst (IsReply binding arguments s) (ok-injective h)
        (plan-IsOpen s planned, refl, unfold plan_upbit_rest_snapshot_reconciliation in refl, refl)
  carry_out-IsReply apply binding arguments s planned h =
      let (request, later, built) =
        bind-returned (lift (build_upbit_rest_reconciliation_request s)) _ h in
      let (answer, made, answered) =
        bind-returned (store (live_call repr binding arguments s request)) _ later in
      subst (IsReply binding arguments s) (ok-injective made)
        (applied-WasApplied binding arguments s request answer (lift-returned _ built) answered)

  -- A reply is about the order of the binding: the number that was asked for is the binding's, and the snapshot that
  -- was read has its UUID and its identifier. Of an open order it is an observation. Otherwise the order has ended, the
  -- store was asked, for the binding's account, intent and order, to enter one fill for each trade, and its row is
  -- passed on with the flags that say that nothing was sent and nothing may be submitted again.
  pub apply_upbit_live_rest_order_snapshot-IsReply :
      (live_binding : Fields) (exchange_order_id : Json) (arguments : Arguments) (payload : Fields)
      (endpoint : String) {reply : LiveReply}
      → apply_upbit_live_rest_order_snapshot repr fromisoformat store live_binding exchange_order_id
          arguments payload endpoint
        ≡ ok reply
      → (binding : UpbitLiveBindingSnapshot) × (s : UpbitRestOrderSnapshot) × (binding_of
            live_binding
          ≡ ok binding)
        × (to_integer exchange_order_id ≡ some binding.exchange_order_id)
        × (parse_upbit_rest_order_snapshot repr fromisoformat payload arguments.knowledge_at
              endpoint
            ≡ ok s)
        × (s.uuid ≡ binding.upbit_order_uuid)
        × (s.identifier ≡ some binding.upbit_identifier)
        × IsReply binding arguments s reply
  unfolding apply_upbit_live_rest_order_snapshot apply_bound
  apply_upbit_live_rest_order_snapshot-IsReply live_binding exchange_order_id arguments payload
        endpoint h =
      let (binding, numbered, bound) = bind-returned (binding_of live_binding) _ h in
      let (target, compared, number) =
        bind-returned (or_raise (to_integer exchange_order_id) (from_reconcile no_integer)) _
          numbered in
      let (_, applied, same) =
        bind-returned (raise_if (not (eq_ℤ binding.exchange_order_id target)) refused) _ compared in
      let (s, validated, read) =
        bind-returned
          (lift (
            parse_upbit_rest_order_snapshot repr fromisoformat payload arguments.knowledge_at
              endpoint))
          _ applied in
      let (_, carried, matched) =
        bind-returned (validate_snapshot_matches_binding s.uuid s.identifier binding) _ validated in
      let (same_uuid, same_identifier) = matches_lem s.uuid s.identifier binding matched in
      let same_order =
        eq_ℤ-sound binding.exchange_order_id target (not-false _ (raise_if-passed _ _ same)) in
      (
        binding,
        s,
        bound,
        or_raise-returned _ _ number ∙ ap some (sym same_order),
        lift-returned _ read,
        same_uuid,
        same_identifier,
        carry_out-IsReply _ binding arguments s refl carried,
      )
