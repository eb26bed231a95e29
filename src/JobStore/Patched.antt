-- ===== src/JobStore/Patched.antt =====
-- What `update` of src/jobs/store.ts makes of a record, field by field.
use contract_pinger.Common.{
  ◌≡◌, refl, ◌∙◌, Bool, false, Option, none, some, String, str_eq, eq_iff, if◌then◌else◌, arith,
}
use contract_pinger.JobStore.{
  JobState, JobTimings, TimingsPatch, JobRecord, JobPatch, JobStore, finished_state, given, given?,
  merge_timings, merge, find, update,
}
use contract_pinger.JobStore.Updates.{find-modify, update_found}

-- What a key of a patch makes of a field: without the key the field is kept.
abbrev pub Follows {ℓ} : {A : Type ℓ} → Option A → A → A → Type ℓ
Follows none old new = new ≡ old
Follows (some x) old new = new ≡ x

abbrev pub FollowsOptional {ℓ} : {A : Type ℓ} → Option A → Option A → Option A → Type ℓ
FollowsOptional none old new = new ≡ old
FollowsOptional (some x) old new = new ≡ some x

pub record ArePatched (t : TimingsPatch) (old new : JobTimings) : Type 0 where
  pub accepted_at : new.accepted_at ≡ old.accepted_at
  pub lease_acquired_at :
      FollowsOptional t.lease_acquired_at old.lease_acquired_at new.lease_acquired_at
  pub sign_sent_at : FollowsOptional t.sign_sent_at old.sign_sent_at new.sign_sent_at
  pub signature_at : FollowsOptional t.signature_at old.signature_at new.signature_at
  pub broadcast_at : FollowsOptional t.broadcast_at old.broadcast_at new.broadcast_at
  pub confirmed_at : FollowsOptional t.confirmed_at old.confirmed_at new.confirmed_at
  pub responded_at : FollowsOptional t.responded_at old.responded_at new.responded_at
  pub finished_at : FollowsOptional t.finished_at old.finished_at new.finished_at

pub record IsPatched (p : JobPatch) (old new : JobRecord) : Type 0 where
  pub id : new.id ≡ old.id
  pub environment : new.environment ≡ old.environment
  pub mode : new.mode ≡ old.mode
  pub state : Follows p.state old.state new.state
  pub path : FollowsOptional p.path old.path new.path
  pub derived_address : FollowsOptional p.derived_address old.derived_address new.derived_address
  pub request_id : FollowsOptional p.request_id old.request_id new.request_id
  pub solana_tx : FollowsOptional p.solana_tx old.solana_tx new.solana_tx
  pub eth_tx_hash : FollowsOptional p.eth_tx_hash old.eth_tx_hash new.eth_tx_hash
  pub nonce : FollowsOptional p.nonce old.nonce new.nonce
  pub serialized_output :
      FollowsOptional p.serialized_output old.serialized_output new.serialized_output
  pub failure_reason : FollowsOptional p.failure_reason old.failure_reason new.failure_reason
  pub error : FollowsOptional p.error old.error new.error
  pub timings : ArePatched p.timings old.timings new.timings

given-Follows {ℓ} : {A : Type ℓ} (x : Option A) (old : A) → Follows x old (given x old)
given-Follows none old = refl
given-Follows (some x) old = refl

given?-FollowsOptional {ℓ} : {A : Type ℓ} (x old : Option A) → FollowsOptional x old (given? x old)
given?-FollowsOptional none old = refl
given?-FollowsOptional (some x) old = refl

merge_timings-ArePatched :
    (t : TimingsPatch) (old : JobTimings) → ArePatched t old (merge_timings t old)
merge_timings-ArePatched t old = record {
  accepted_at = refl;
  lease_acquired_at = given?-FollowsOptional t.lease_acquired_at old.lease_acquired_at;
  sign_sent_at = given?-FollowsOptional t.sign_sent_at old.sign_sent_at;
  signature_at = given?-FollowsOptional t.signature_at old.signature_at;
  broadcast_at = given?-FollowsOptional t.broadcast_at old.broadcast_at;
  confirmed_at = given?-FollowsOptional t.confirmed_at old.confirmed_at;
  responded_at = given?-FollowsOptional t.responded_at old.responded_at;
  finished_at = given?-FollowsOptional t.finished_at old.finished_at;
}

merge-IsPatched : (p : JobPatch) (job : JobRecord) → IsPatched p job (merge p job)
merge-IsPatched p job = record {
  id = refl;
  environment = refl;
  mode = refl;
  state = given-Follows p.state job.state;
  path = given?-FollowsOptional p.path job.path;
  derived_address = given?-FollowsOptional p.derived_address job.derived_address;
  request_id = given?-FollowsOptional p.request_id job.request_id;
  solana_tx = given?-FollowsOptional p.solana_tx job.solana_tx;
  eth_tx_hash = given?-FollowsOptional p.eth_tx_hash job.eth_tx_hash;
  nonce = given?-FollowsOptional p.nonce job.nonce;
  serialized_output = given?-FollowsOptional p.serialized_output job.serialized_output;
  failure_reason = given?-FollowsOptional p.failure_reason job.failure_reason;
  error = given?-FollowsOptional p.error job.error;
  timings = merge_timings-ArePatched p.timings job.timings;
}

-- Whether the job is finished once it has the state of the patch, or its own where that has none.
abbrev pub ends_finished : JobPatch → JobRecord → Bool
ends_finished p job = elim p.state [
  | none ↦ finished_state job.state
  | some state ↦ finished_state state
]

-- While the job that an update names stays live, the update leaves in its record every field and
-- every instant that the patch has no key for, and gives the others the patch's values; the record
-- of every other id stays as it was.
pub find-update :
    (s : JobStore) (id : String) (p : JobPatch) (job : JobRecord)
    → find id s.jobs ≡ some job
    → ends_finished p job ≡ false
    → ((new : JobRecord) × (find id (update s id p).jobs ≡ some new) × IsPatched p job new)
      × ((k : String) → str_eq id k ≡ false → find k (update s id p).jobs ≡ find k s.jobs)
find-update s id p job e live = (
  (merge p job, find_patched id ∙ ground (arith, eq_iff id id), merge-IsPatched p job),
  λ k apart. find_patched k ∙ rw apart refl,
)
  where
    live_merge :
        (x : Option JobState)
        → elim x [ none ↦ finished_state job.state | some y ↦ finished_state y ] ≡ false
        → finished_state (given x job.state) ≡ false
    live_merge none h = h
    live_merge (some y) h = h

    find_patched :
        (k : String)
        → find k (update s id p).jobs ≡ (if str_eq id k then some (merge p job) else find k s.jobs)
    find_patched k =
        rw (update_found s id p job e, live_merge p.state live)
          (find-modify id k (merge p) s.jobs job (λ j. refl) e)
