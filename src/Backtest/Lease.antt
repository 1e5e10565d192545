-- ===== src/Backtest/Lease.antt =====
-- The worker leases of backtest runs: claim_next_run, complete_claimed_run and fail_claimed_run of
-- packages/shared/goodmoneying_shared/backtest_store.py. The table `backtest_runs` is a list of
-- rows; a transaction takes the readings of clock_timestamp() of its statements, in microseconds,
-- and the rows that other transactions hold locked.
use Prim.Native.String.{String}
use text.Mathlib.Text.{◌==◌ as str_eq}
use goodmoneying.Prelude.{
  is_some, ℕ, ◌+◌, ◌*◌, ◌^◌, min, Bool, true, false, not, ◌&&◌, ◌||◌, Option, none, some, List, [],
  ◌∷◌, ◌++◌, map, ltb, leb, ◌==◌, if◌then◌else◌, find,
}
use mathlib.Core.Option
use goodmoneying.Prelude.Query.{select_first}
use goodmoneying.Prelude.Results.{Result, ok, err, ◌>>=◌, ◌>>◌, or_raise, raise_if}
use goodmoneying.Prelude.Text.{is_blank, strip}
pub mod Rows
pub mod Valid
pub mod Seal
pub mod Claim
pub mod Commits
pub mod History
pub mod Fencing
pub mod Saved
pub mod Retry
mod Tests

pub data RunStatus : Type 0 where
  queued running retry_wait succeeded failed cancelled dead_letter : RunStatus

pub record Run : Type 0 where
  pub id : ℕ
  pub status : RunStatus
  pub lease_owner : Option String
  pub lease_expires_at : Option ℕ
  pub lease_generation : ℕ
  pub attempt_count : ℕ
  pub max_attempts : ℕ
  pub next_retry_at : Option ℕ
  pub last_error_code : Option String
  pub last_error_message : Option String
  pub dead_letter_reason : Option String
  pub requested_at : ℕ
  pub started_at : Option ℕ
  pub finished_at : Option ℕ
  pub input_hash : String
  pub result_hash : Option String
  pub assumptions : List String

pub data StoreError : Type 0 where
  blank_field lease_seconds_below_one id_below_one generation_below_one : StoreError
  lease_lost input_hash_differs constraint_violated integer_out_of_range : StoreError

-- A comparison with NULL is not true.
abbrev pub due : Option ℕ → ℕ → Bool
due none now = false
due (some t) now = leb t now

abbrev pub ahead : Option ℕ → ℕ → Bool
ahead none now = false
ahead (some t) now = ltb now t

abbrev pub owned_by : Option String → String → Bool
owned_by none worker = false
owned_by (some owner) worker = str_eq owner worker

abbrev pub coalesce : Option ℕ → ℕ → ℕ
coalesce none now = now
coalesce (some t) now = t

abbrev pub is_running : RunStatus → Bool
is_running RunStatus.running = true
is_running _ = false

abbrev pub is_queued : RunStatus → Bool
is_queued RunStatus.queued = true
is_queued _ = false

abbrev pub is_waiting : RunStatus → Bool
is_waiting RunStatus.retry_wait = true
is_waiting _ = false

abbrev pub seconds : ℕ → ℕ
seconds n = n * 1000000

-- `UPDATE … SET … WHERE p`
abbrev pub update_where : (Run → Bool) → (Run → Run) → List Run → List Run
update_where p f = map (λ r. if p r then f r else r)

-- `_non_blank`
unfoldable pub non_blank : String → Result StoreError String
unfolding strip
non_blank value = if is_blank value then err blank_field else ok (strip value)

-- The first statement of `claim_next_run`: runs whose last attempt's lease has run out.
abbrev pub is_exhausted : ℕ → Run → Bool
is_exhausted now r =
    is_running r.status && due r.lease_expires_at now && leb r.max_attempts r.attempt_count

abbrev pub bury : ℕ → Run → Run
bury now r = record r {
  status = dead_letter;
  lease_owner = none;
  lease_expires_at = none;
  next_retry_at = none;
  dead_letter_reason = some "retry_attempts_exhausted";
  finished_at = some now;
}

-- The second statement: what may be claimed, and the order in which it is.
abbrev pub is_claimable : ℕ → Run → Bool
is_claimable now r =
    ltb r.attempt_count r.max_attempts
    && (is_queued r.status
        || is_waiting r.status && due r.next_retry_at now
        || is_running r.status && due r.lease_expires_at now)

abbrev pub is_earlier : Run → Run → Bool
is_earlier a b =
    ltb a.requested_at b.requested_at || (a.requested_at == b.requested_at) && ltb a.id b.id

-- The third statement: the row with the chosen id and the generation that was read.
abbrev pub is_chosen : Run → Run → Bool
is_chosen run r = (r.id == run.id) && (r.lease_generation == run.lease_generation)

abbrev pub lease : String → ℕ → ℕ → ℕ → Run → Run
lease owner lease_seconds generation now r = record r {
  status = running;
  lease_owner = some owner;
  lease_expires_at = some (now + seconds lease_seconds);
  lease_generation = generation;
  attempt_count = r.attempt_count + 1;
  next_retry_at = none;
  dead_letter_reason = none;
  started_at = some (coalesce r.started_at now);
  finished_at = none;
}

-- The readings of the clock by the three statements of a claim.
pub record Readings : Type 0 where
  pub sweep : ℕ
  pub select : ℕ
  pub update : ℕ

abbrev pub swept : ℕ → List Run → List Run
swept now = update_where (is_exhausted now) (bury now)

-- With the row that the second statement read.
unfoldable pub claim_chosen : String → ℕ → Readings → Option Run → List Run → Option Run × List Run
claim_chosen owner lease_seconds at none table = (none, table)
claim_chosen owner lease_seconds at (some run) table =
    let generation = run.lease_generation + 1 in
    let update = lease owner lease_seconds generation at.update in
    (Option.map update (find (is_chosen run) table), update_where (is_chosen run) update table)

unfoldable pub claim_from : String → ℕ → Readings → (Run → Bool) → List Run → Option Run × List Run
unfolding claim_chosen
claim_from owner lease_seconds at locked table =
    claim_chosen owner lease_seconds at
      (select_first is_earlier (λ r. is_claimable at.select r && not (locked r)) table) table

unfoldable pub claim_next_run :
    String → ℕ → Readings → (Run → Bool) → List Run → Result StoreError (Option Run × List Run)
unfolding claim_from non_blank
claim_next_run worker_id lease_seconds at locked table = do
  owner ← non_blank worker_id
  raise_if (ltb lease_seconds 1) lease_seconds_below_one
  ok (claim_from owner lease_seconds at locked (swept at.sweep table))

-- `WHERE id=%s AND status='running' AND lease_owner=%s AND lease_generation=%s AND
-- lease_expires_at > clock_timestamp()`
abbrev pub holds : ℕ → String → ℕ → ℕ → Run → Bool
holds id owner generation now r =
    (r.id == id)
    && is_running r.status
    && owned_by r.lease_owner owner
    && (r.lease_generation == generation)
    && ahead r.lease_expires_at now

-- A result's status is `succeeded` or `failed`.
pub data ResultStatus : Type 0 where
  succeeded failed : ResultStatus

abbrev pub run_status : ResultStatus → RunStatus
run_status ResultStatus.succeeded = RunStatus.succeeded
run_status ResultStatus.failed = RunStatus.failed

-- What `complete_claimed_run` reads of a result; `Body` is what it writes to the child tables.
pub record RunResult (Body : Type 0) : Type 0 where
  pub status : ResultStatus
  pub input_hash : String
  pub result_hash : String
  pub assumptions : List String
  pub body : Body

abbrev pub finish : {Body : Type 0} → RunResult Body → ℕ → Run → Run
finish result completed_at r = record r {
  status = run_status result.status;
  result_hash = some result.result_hash;
  assumptions = result.assumptions;
  lease_owner = none;
  lease_expires_at = none;
  finished_at = some completed_at;
}

-- The runs, and what the child tables hold, each entry with its run.
pub record Store (Body : Type 0) : Type 0 where
  pub runs : List Run
  pub saved : List (ℕ × Body)

-- A transaction on the store: it commits the new one, or raises and leaves the old one.
module _ {Body : Type 0} (accepts : List (ℕ × Body) → ℕ → Body → Bool) where
  -- After the row is locked. `accepts` are the constraints of the child tables; `now` is read by
  -- the last statement.
  unfoldable pub complete_held :
      Run → ℕ → String → ℕ → RunResult Body → ℕ → ℕ → Store Body → Result StoreError (Store Body)
  complete_held run id owner generation result completed_at now store = do
    raise_if (not (str_eq run.input_hash result.input_hash)) input_hash_differs
    raise_if (not (accepts store.saved id result.body)) constraint_violated
    raise_if (not (is_some (find (holds id owner generation now) store.runs))) lease_lost
    ok (record {
      runs = update_where (holds id owner generation now) (finish result completed_at) store.runs;
      saved = store.saved ++ (id, result.body) ∷ [];
    })

  unfoldable pub complete_claimed_run :
      ℕ → String → ℕ → RunResult Body → ℕ → ℕ → ℕ → Store Body → Result StoreError (Store Body)
  unfolding complete_held non_blank
  complete_claimed_run id worker_id generation result completed_at selected updated store = do
    owner ← non_blank worker_id
    raise_if (ltb id 1) id_below_one
    raise_if (ltb generation 1) generation_below_one
    run ← or_raise (find (holds id owner generation selected) store.runs) lease_lost
    complete_held run id owner generation result completed_at updated store

-- The transition that `fail_claimed_run` writes.
abbrev pub is_last : Run → Bool
is_last r = leb r.max_attempts r.attempt_count

abbrev pub retry_delay : ℕ → ℕ
retry_delay attempt_count = seconds (min 300 (2 ^ attempt_count))

abbrev pub give_back : String → String → ℕ → Run → Run
give_back code message now r = record r {
  status = if is_last r then dead_letter else retry_wait;
  lease_owner = none;
  lease_expires_at = none;
  next_retry_at = if is_last r then none else some (now + retry_delay r.attempt_count);
  last_error_code = some code;
  last_error_message = some message;
  dead_letter_reason = if is_last r then some code else none;
  finished_at = if is_last r then some now else none;
}

-- `power(2, attempt_count)::integer` has 31 bits at most.
abbrev pub overflows : Run → Bool
overflows r = not (is_last r) && leb 31 r.attempt_count

unfoldable pub fail_held :
    ℕ → String → ℕ → String → String → ℕ → List Run → Option Run → Result StoreError (List Run)
fail_held id owner generation code message now runs none = err lease_lost
fail_held id owner generation code message now runs (some run) = do
  raise_if (overflows run) integer_out_of_range
  ok (update_where (holds id owner generation now) (give_back code message now) runs)

unfoldable pub fail_claimed_run :
    ℕ → String → ℕ → String → String → ℕ → List Run → Result StoreError (List Run)
unfolding fail_held non_blank
fail_claimed_run id worker_id generation error_code message now runs = do
  owner ← non_blank worker_id
  code ← non_blank error_code
  failure_message ← non_blank message
  raise_if (ltb id 1) id_below_one
  raise_if (ltb generation 1) generation_below_one
  fail_held id owner generation code failure_message now runs
      (find (holds id owner generation now) runs)
