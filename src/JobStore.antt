-- ===== src/JobStore.antt =====
-- src/jobs/store.ts: the record of every job. `randomUUID()` and `Date.now()` are arguments.
-- The map is the list of its records in the order of insertion, keyed by their ids; no caller
-- patches an id, and a patch has none.
pub mod Retention
pub mod Updates
pub mod Bounded
pub mod Capacity
pub mod Patched
pub mod Moves
mod Tests
use contract_pinger.Common.{
  ℕ, suc, ◌+◌, ◌-◌, Bool, true, false, not, ◌&&◌, ◌||◌, List, [], ◌∷◌, ◌++◌, Option, none, some,
  String, length, keep, tally, take, ltb, leb, str_eq, if◌then◌else◌,
}
use contract_pinger.Common.Sorting.{sort}
use contract_pinger.Common.Int.{ℤ, sub_ℕ}
use contract_pinger.BidirectionalTx.{TxMode}

pub data JobState : Type 0 where
  pending sign_sent awaiting_signature verified broadcast confirmed responded failed : JobState

pub data FailureReason : Type 0 where
  all_workers_busy all_workers_underfunded preflight_underfunded signature_timeout : FailureReason
  derivation_mismatch broadcast_failed confirmation_timeout transaction_reverted : FailureReason
  respond_timeout respond_mismatch shutdown internal_error : FailureReason

pub record JobTimings : Type 0 where
  pub accepted_at : ℕ
  pub lease_acquired_at : Option ℕ
  pub sign_sent_at : Option ℕ
  pub signature_at : Option ℕ
  pub broadcast_at : Option ℕ
  pub confirmed_at : Option ℕ
  pub responded_at : Option ℕ
  pub finished_at : Option ℕ

pub record JobRecord : Type 0 where
  pub id : String
  pub environment : String
  pub mode : TxMode
  pub state : JobState
  pub path : Option String
  pub derived_address : Option String
  pub request_id : Option String
  pub solana_tx : Option String
  pub eth_tx_hash : Option String
  pub nonce : Option ℕ
  pub serialized_output : Option String
  pub failure_reason : Option FailureReason
  pub error : Option String
  pub timings : JobTimings

-- `none` is a key that the patch does not have.
pub record TimingsPatch : Type 0 where
  pub lease_acquired_at : Option ℕ
  pub sign_sent_at : Option ℕ
  pub signature_at : Option ℕ
  pub broadcast_at : Option ℕ
  pub confirmed_at : Option ℕ
  pub responded_at : Option ℕ
  pub finished_at : Option ℕ

pub record JobPatch : Type 0 where
  pub state : Option JobState
  pub path : Option String
  pub derived_address : Option String
  pub request_id : Option String
  pub solana_tx : Option String
  pub eth_tx_hash : Option String
  pub nonce : Option ℕ
  pub serialized_output : Option String
  pub failure_reason : Option FailureReason
  pub error : Option String
  pub timings : TimingsPatch

abbrev pub no_timings : TimingsPatch
no_timings = record {
  lease_acquired_at = none;
  sign_sent_at = none;
  signature_at = none;
  broadcast_at = none;
  confirmed_at = none;
  responded_at = none;
  finished_at = none;
}

abbrev pub no_change : JobPatch
no_change = record {
  state = none;
  path = none;
  derived_address = none;
  request_id = none;
  solana_tx = none;
  eth_tx_hash = none;
  nonce = none;
  serialized_output = none;
  failure_reason = none;
  error = none;
  timings = no_timings;
}

-- A key that the patch has wins.
abbrev pub given {ℓ} : {A : Type ℓ} → Option A → A → A
given none old = old
given (some new) old = new

abbrev pub given? {ℓ} : {A : Type ℓ} → Option A → Option A → Option A
given? none old = old
given? (some new) old = some new

-- `{ ...job.timings, ...timings }`
abbrev pub merge_timings : TimingsPatch → JobTimings → JobTimings
merge_timings t old = record old {
  lease_acquired_at = given? t.lease_acquired_at old.lease_acquired_at;
  sign_sent_at = given? t.sign_sent_at old.sign_sent_at;
  signature_at = given? t.signature_at old.signature_at;
  broadcast_at = given? t.broadcast_at old.broadcast_at;
  confirmed_at = given? t.confirmed_at old.confirmed_at;
  responded_at = given? t.responded_at old.responded_at;
  finished_at = given? t.finished_at old.finished_at;
}

-- `Object.assign(job, rest)` and the timings.
abbrev pub merge : JobPatch → JobRecord → JobRecord
merge p job = record job {
  state = given p.state job.state;
  path = given? p.path job.path;
  derived_address = given? p.derived_address job.derived_address;
  request_id = given? p.request_id job.request_id;
  solana_tx = given? p.solana_tx job.solana_tx;
  eth_tx_hash = given? p.eth_tx_hash job.eth_tx_hash;
  nonce = given? p.nonce job.nonce;
  serialized_output = given? p.serialized_output job.serialized_output;
  failure_reason = given? p.failure_reason job.failure_reason;
  error = given? p.error job.error;
  timings = merge_timings p.timings job.timings;
}

pub record JobStore : Type 0 where
  pub jobs : List JobRecord
  pub max_jobs : ℕ
  pub retained : ℕ
  pub max_active_jobs : ℕ

-- `state === 'responded' || state === 'failed'`
abbrev pub finished_state : JobState → Bool
finished_state responded = true
finished_state failed = true
finished_state _ = false

abbrev pub confirmed_state : JobState → Bool
confirmed_state confirmed = true
confirmed_state _ = false

abbrev pub is_finished : JobRecord → Bool
is_finished j = finished_state j.state

abbrev pub is_awaiting : JobRecord → Bool
is_awaiting j = confirmed_state j.state

abbrev pub is_active : JobRecord → Bool
is_active j = not (finished_state j.state) && not (confirmed_state j.state)

-- `timings.finishedAt ?? 0`
abbrev pub stamp : JobRecord → ℕ
stamp j = elim j.timings.finished_at [ none ↦ 0 | some t ↦ t ]

abbrev pub earlier : JobRecord → JobRecord → Bool
earlier a b = leb (stamp a) (stamp b)

abbrev pub has_id : String → JobRecord → Bool
has_id id j = str_eq j.id id

abbrev pub in_ids : String → List JobRecord → Bool
in_ids id [] = false
in_ids id (j ∷ js) = has_id id j || in_ids id js

-- The finished jobs that `prune` drops.
unfoldable pub surplus : ℕ → List JobRecord → List JobRecord
surplus retained jobs =
    let finished = keep is_finished jobs in
    if leb (length finished) retained
    then []
    else take (length finished - retained) (sort earlier finished)

unfoldable pub prune : JobStore → JobStore
prune s =
    let dropped = surplus s.retained s.jobs in
    record s { jobs = keep (λ j. not (in_ids j.id dropped)) s.jobs }

unfoldable pub active_count : JobStore → ℕ
active_count s = tally is_active s.jobs

unfoldable pub awaiting_respond_count : JobStore → ℕ
awaiting_respond_count s = tally is_awaiting s.jobs

unfoldable pub live_count : JobStore → ℕ
unfolding active_count awaiting_respond_count
live_count s = active_count s + awaiting_respond_count s

pub data Ceiling : Type 0 where
  active awaiting_respond : Ceiling

unfoldable pub at_capacity : JobStore → Option Ceiling
unfolding active_count awaiting_respond_count
at_capacity s =
    if leb s.max_active_jobs (active_count s)
    then some active
    else if leb s.max_jobs (awaiting_respond_count s)
    then some awaiting_respond
    else none

-- `Map.set`: in place for a key that is there, behind the others for a new one.
abbrev pub put : JobRecord → List JobRecord → List JobRecord
put j [] = j ∷ []
put j (x ∷ xs) = if has_id j.id x then j ∷ xs else x ∷ put j xs

abbrev pub new_job : String → String → TxMode → ℕ → JobRecord
new_job id environment mode now = record {
  id = id;
  environment = environment;
  mode = mode;
  state = pending;
  path = none;
  derived_address = none;
  request_id = none;
  solana_tx = none;
  eth_tx_hash = none;
  nonce = none;
  serialized_output = none;
  failure_reason = none;
  error = none;
  timings = record {
    accepted_at = now;
    lease_acquired_at = none;
    sign_sent_at = none;
    signature_at = none;
    broadcast_at = none;
    confirmed_at = none;
    responded_at = none;
    finished_at = none;
  };
}

unfoldable pub create : JobStore → String → String → TxMode → ℕ → JobStore
unfolding prune
create s id environment mode now =
    prune (record s { jobs = put (new_job id environment mode now) s.jobs })

unfoldable pub find : String → List JobRecord → Option JobRecord
find id [] = none
find id (j ∷ js) = if has_id id j then some j else find id js

-- `this.jobs.get(id)` and a change of what it finds.
unfoldable pub modify : String → (JobRecord → JobRecord) → List JobRecord → List JobRecord
modify id f [] = []
modify id f (j ∷ js) = if has_id id j then f j ∷ js else j ∷ modify id f js

unfoldable pub update : JobStore → String → JobPatch → JobStore
unfolding find modify prune
update s id p = elim (find id s.jobs) [
  | none ↦ s
  | some job ↦
      let s' = record s { jobs = modify id (merge p) s.jobs } in
      if is_finished (merge p job) then prune s' else s'
]

abbrev pub failure : FailureReason → String → ℕ → JobPatch
failure reason message now = record no_change {
  state = some failed;
  failure_reason = some reason;
  error = some message;
  timings = record no_timings { finished_at = some now };
}

unfoldable pub fail : JobStore → String → FailureReason → String → ℕ → JobStore
fail s id reason message now = update s id (failure reason message now)

-- `span` of two instants, and the entries of `durationsFor` that are not undefined.
abbrev pub span : Option ℕ → Option ℕ → Option ℤ
span (some from) (some to) = some (sub_ℕ to from)
span _ _ = none

abbrev pub entry : String → Option ℤ → List (String × ℤ)
entry name none = []
entry name (some d) = (name, d) ∷ []

unfoldable pub durations_for : JobTimings → List (String × ℤ)
durations_for t =
    entry "leaseWaitMs" (span (some t.accepted_at) t.lease_acquired_at)
    ++ (entry "signatureMs" (span t.sign_sent_at t.signature_at)
        ++ (entry "confirmationMs" (span t.broadcast_at t.confirmed_at)
            ++ (entry "respondMs" (span t.confirmed_at t.responded_at)
                ++ entry "totalMs" (span (some t.accepted_at) t.finished_at))))

unfoldable pub view : JobStore → String → Option (JobRecord × List (String × ℤ))
unfolding find durations_for
view s id = elim (find id s.jobs) [ none ↦ none | some job ↦ some (job, durations_for job.timings) ]
