-- ===== src/Backtest/Create/Reading.antt =====
-- packages/shared/goodmoneying_shared/backtest_store.py: what is known of arguments that create_run accepts.
use Prim.Native.String.{String}
use mathlib.Core.Path.{subst}
use goodmoneying.Prelude.Text.{is_blank, strip, is_trimmed_away, strip-not_trimmed_away}
use goodmoneying.Prelude.{inl, inr, false, Bool-cases, ℕ, zero, suc, ◌<◌, ◌≡◌, ap, arith}
use goodmoneying.Prelude.Int.{pos, negsuc}
use goodmoneying.Prelude.Results.{ok, bind-returned, ok-injective}
use goodmoneying.Backtest.Command.{
  Argument, CreateArguments, Command, positive_int, read_command, time_of, text_argument,
  parameter_payload, seed_of, decimal_of, execution_payload,
}

positive_int-positive : (name : String) (a : Argument) {n : ℕ} → positive_int name a ≡ ok n → 0 < n
unfolding positive_int
positive_int-positive name (Argument.whole (pos (suc n))) h = ground arith
positive_int-positive name (Argument.whole (pos zero)) h = cc
positive_int-positive name (Argument.whole (negsuc n)) h = cc
positive_int-positive name Argument.nothing h = cc
positive_int-positive name Argument.other h = cc
positive_int-positive name (Argument.string s) h = cc
positive_int-positive name (Argument.truth b) h = cc
positive_int-positive name (Argument.number d) h = cc
positive_int-positive name (Argument.time t) h = cc
positive_int-positive name (Argument.mapping es) h = cc

text_argument-not_trimmed_away :
    (name : String) (a : Argument) {text : String}
    → text_argument name a ≡ ok text
    → is_trimmed_away text ≡ false
unfolding text_argument
text_argument-not_trimmed_away name (Argument.string s) h = elim (Bool-cases (is_blank s)) [
  | inl blank ↦ ground (arith, h, blank)
  | inr full ↦
      let same : strip s ≡ _ = ok-injective (rw full at h) in
      subst (λ t. is_trimmed_away t ≡ false) same (strip-not_trimmed_away s full)
]
text_argument-not_trimmed_away name (Argument.whole i) h = cc
text_argument-not_trimmed_away name Argument.nothing h = cc
text_argument-not_trimmed_away name Argument.other h = cc
text_argument-not_trimmed_away name (Argument.truth b) h = cc
text_argument-not_trimmed_away name (Argument.number d) h = cc
text_argument-not_trimmed_away name (Argument.time t) h = cc
text_argument-not_trimmed_away name (Argument.mapping es) h = cc

-- The texts of a command are more than spaces.
pub record IsNamed (c : Command) : Type 0 where
  pub request : is_trimmed_away c.request_id ≡ false
  pub key : is_trimmed_away c.idempotency_key ≡ false
  pub actor : is_trimmed_away c.actor_id ≡ false
  pub reason : is_trimmed_away c.reason ≡ false
  pub engine : is_trimmed_away c.engine_version ≡ false

pub read_command-IsNamed : (a : CreateArguments) {c : Command} → read_command a ≡ ok c → IsNamed c
unfolding read_command
read_command-IsNamed a {c} h =
    let (_, h, _) = bind-returned (time_of "requestedAt" a.requested_at) _ h in
    let (_, h, request) = bind-returned (text_argument "requestId" a.request_id) _ h in
    let (_, h, key) = bind-returned (text_argument "idempotencyKey" a.idempotency_key) _ h in
    let (_, h, actor) = bind-returned (text_argument "actorId" a.actor_id) _ h in
    let (_, h, reason) = bind-returned (text_argument "reason" a.reason) _ h in
    let (_, h, _) = bind-returned (positive_int "strategyVersionId" a.strategy_version_id) _ h in
    let (_, h, _) = bind-returned (positive_int "datasetVersionId" a.dataset_version_id) _ h in
    let (_, h, engine) = bind-returned (text_argument "engineVersion" a.engine_version) _ h in
    let (_, h, _) = bind-returned (parameter_payload a.parameters) _ h in
    let (_, h, _) = bind-returned (seed_of a.seed) _ h in
    let (_, h, _) = bind-returned (decimal_of "initialCash" a.initial_cash) _ h in
    let (_, h, _) = bind-returned (execution_payload a.execution) _ h in
    let (_, h, _) = bind-returned (positive_int "maxAttempts" a.max_attempts) _ h in
    subst IsNamed (ok-injective h) (record {
      request = text_argument-not_trimmed_away _ a.request_id request;
      key = text_argument-not_trimmed_away _ a.idempotency_key key;
      actor = text_argument-not_trimmed_away _ a.actor_id actor;
      reason = text_argument-not_trimmed_away _ a.reason reason;
      engine = text_argument-not_trimmed_away _ a.engine_version engine;
    })

-- A run may have at least one attempt.
pub read_command-positive :
    (a : CreateArguments) {c : Command} → read_command a ≡ ok c → 0 < c.max_attempts
unfolding read_command
read_command-positive a {c} h =
    let (_, h, _) = bind-returned (time_of "requestedAt" a.requested_at) _ h in
    let (_, h, _) = bind-returned (text_argument "requestId" a.request_id) _ h in
    let (_, h, _) = bind-returned (text_argument "idempotencyKey" a.idempotency_key) _ h in
    let (_, h, _) = bind-returned (text_argument "actorId" a.actor_id) _ h in
    let (_, h, _) = bind-returned (text_argument "reason" a.reason) _ h in
    let (_, h, _) = bind-returned (positive_int "strategyVersionId" a.strategy_version_id) _ h in
    let (_, h, _) = bind-returned (positive_int "datasetVersionId" a.dataset_version_id) _ h in
    let (_, h, _) = bind-returned (text_argument "engineVersion" a.engine_version) _ h in
    let (_, h, _) = bind-returned (parameter_payload a.parameters) _ h in
    let (_, h, _) = bind-returned (seed_of a.seed) _ h in
    let (_, h, _) = bind-returned (decimal_of "initialCash" a.initial_cash) _ h in
    let (_, h, _) = bind-returned (execution_payload a.execution) _ h in
    let (n, h, read) = bind-returned (positive_int "maxAttempts" a.max_attempts) _ h in
    let same : n ≡ c.max_attempts = ap (λ (k : Command). k.max_attempts) (ok-injective h) in
    subst (λ k. 0 < k) same (positive_int-positive "maxAttempts" a.max_attempts read)
