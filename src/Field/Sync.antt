-- ===== src/Field/Sync.antt =====
-- apps/field/lib/offline/sync.ts: one run of `flush` over the rider's phone. The network, the file
-- system, the clock and the id generator (`SyncDeps`), and `AsyncStorage`'s `getItem` and `setItem`, are
-- parameters over a world that they may change; `get_item` says whether a read gives what is stored, or
-- fails. Between two accesses to the store the rider may act: `arrivals` holds, for each access, what
-- has been queued just before it. `Steps` and `Flush` have the run itself.
pub mod Steps
pub mod Flush
pub mod Kept
pub mod Steady
pub mod Settling
pub mod Safety
pub mod Waiting
pub mod Drains
pub mod Completes
pub mod View
use ironman.Prelude.{
  ℕ, zero, suc, ◌+◌, String, Bool, true, false, not, ◌&&◌, ◌||◌, Option, none, some, List, [], ◌∷◌,
  ◌++◌, map, filter, find, take, drop, length, leb, ltb, nat_eq, if◌then◌else◌, ◌==◌, ◌≡◌,
}
use ironman.Exec.{
  ApiError, Thrown, api_error, other_error, Result, ok, err, Exec, pure, throw, gets, modify,
  try_catch, ◌>>=◌, ◌>>◌,
}
use ironman.Json.{Json, str}
use ironman.Field.Types.{
  JobStatus, JobCard, OpType, job_start, job_arrive, job_complete, job_fail, Payload, QueuedOp,
  QueuedProof, SyncIssue, OpStatus, applied, conflict, rejected, OfflineOpResult,
}
use ironman.Field.Rules.{next_status}
use ironman.Field.Store.{
  Phone, unreadable, JobsCache, load_jobs, save_jobs, patch_job, load_ops, add_op, remove_ops,
  load_proofs, add_proof, remove_proof, add_issues, known_device, set_device,
}

pub record SyncOp : Type 0 where
  pub client_op_id : String
  pub op_type : OpType
  pub payload : Payload
  pub client_ts : String

pub record SyncBody : Type 0 where
  pub device_id : String
  pub ops : List SyncOp

-- `{ ...o, [k]: v }`: a key that is there keeps its place.
unfoldable pub put_key : Payload → String × Json → Payload
put_key [] e = e ∷ []
put_key ((k, v) ∷ o) e = let rest = put_key o e in if k == e.0 then (k, e.1) ∷ o else (k, v) ∷ rest

-- `{ ...o, ...more }`.
unfoldable pub spread : Payload → Payload → Payload
spread o [] = o
spread o (e ∷ more) = spread (put_key o e) more

unfoldable pub sync_op : QueuedOp → SyncOp
sync_op op = record {
  client_op_id = op.client_op_id;
  op_type = op.op_type;
  payload = spread (("job_id", str op.job_id) ∷ []) op.payload;
  client_ts = op.client_ts;
}

pub record Env (W : Type 0) : Type 0 where
  pub post : String → SyncBody → W → Result (List OfflineOpResult) × W
  pub fetch_jobs : W → Result (List JobCard) × W
  pub upload_proof : QueuedProof → W → Result (Unit {0}) × W
  pub discard_file : String → W → Result (Unit {0}) × W
  pub new_id : W → String × W
  pub now : W → String × W
  pub get_item : W → Bool × W
  pub set_item : W → Result (Unit {0}) × W

-- Every read of the store gives what is stored.
abbrev pub Reads : {W : Type 0} → Env W → Type 0
Reads {W} env = (w : W) → (env.get_item w).0 ≡ true

pub record SyncSummary : Type 0 where
  pub applied_ops : ℕ
  pub issues : List SyncIssue
  pub uploaded_proofs : ℕ
  pub remaining_ops : ℕ
  pub remaining_proofs : ℕ
  pub offline : Bool
  pub jobs_refreshed : Bool

abbrev pub empty_summary : SyncSummary
empty_summary = record {
  applied_ops = 0;
  issues = [];
  uploaded_proofs = 0;
  remaining_ops = 0;
  remaining_proofs = 0;
  offline = false;
  jobs_refreshed = false;
}

-- What the rider does while a run is under way.
pub data Arrival : Type 0 where
  new_op : QueuedOp → Arrival
  new_photo : QueuedProof → Arrival

-- A batch that was posted, and what came back.
pub record Exchange : Type 0 where
  pub batch : List QueuedOp
  pub outcome : Result (List OfflineOpResult)

-- `wire` is the history of the batches; the code does not read it.
pub record Run (W : Type 0) : Type 0 where
  pub phone : Phone
  pub summary : SyncSummary
  pub arrivals : List (List Arrival)
  pub wire : List Exchange
  pub world : W

abbrev pub batch_size : ℕ
batch_size = 50

unfoldable pub what_label : OpType → String
what_label job_start = "Starting the job"
what_label job_arrive = "Marking arrival"
what_label job_complete = "Completing the job"
what_label job_fail = "Reporting a problem"

-- `isFinalRefusal`: a refusal that will never change on retry.
unfoldable pub is_final_refusal : Thrown → Bool
is_final_refusal other_error = false
is_final_refusal (api_error e) =
    leb 400 e.status
    && ltb e.status 500
    && not (nat_eq e.status 401)
    && not (nat_eq e.status 408)
    && not (nat_eq e.status 429)

-- `ApiError.isApiError(error) ? error.message : …`.
abbrev pub message_or : String → Thrown → String
message_or fallback other_error = fallback
message_or fallback (api_error e) = e.message

-- `refOf`.
abbrev pub ref_or : Option JobCard → String
ref_or none = "a job"
ref_or (some j) = j.order_ref

unfoldable pub ref_of : JobsCache → String → String
ref_of cache job_id = ref_or (find (λ j. j.id == job_id) cache.jobs)

-- `new Map(results.map((r) => [r.client_op_id, r])).get(id)`: of two answers the later one counts.
unfoldable pub result_for : List OfflineOpResult → String → Option OfflineOpResult
result_for [] id = none
result_for (r ∷ rs) id = elim (result_for rs id) [
  | some later ↦ some later
  | none ↦ if r.client_op_id == id then some r else none
]

abbrev pub or_text : String → String → String
or_text s fallback = if s == "" then fallback else s

abbrev pub ids_of : List QueuedOp → List String
ids_of = map λ op. op.client_op_id

-- `"done" | "offline"`.
pub data Sent : Type 0 where
  sent gone_offline : Sent

unfoldable pub arrive : List Arrival → Phone → Phone
arrive [] p = p
arrive (new_op op ∷ rest) p = arrive rest (add_op op p)
arrive (new_photo proof ∷ rest) p = arrive rest (add_proof proof p)

module _ {W : Type 0} where
  -- The rider's actions up to this access of the store.
  unfoldable pub catch_up_from : List (List Arrival) → Run W → Run W
  unfolding arrive
  catch_up_from [] r = r
  catch_up_from (now ∷ later) r = record r { phone = arrive now r.phone; arrivals = later }

  unfoldable pub catch_up : Run W → Run W
  unfolding catch_up_from
  catch_up r = catch_up_from r.arrivals r

-- The keys of the rider's four lists.
pub data Slot : Type 0 where
  jobs_slot ops_slot proofs_slot issues_slot : Slot

-- What an operation on one key sees: a read that fails, now, finds the key unreadable.
abbrev pub slot_seen : Bool → Slot → Phone → Phone
slot_seen true slot p = p
slot_seen false jobs_slot p = record p { jobs = unreadable }
slot_seen false ops_slot p = record p { ops = unreadable }
slot_seen false proofs_slot p = record p { proofs = unreadable }
slot_seen false issues_slot p = record p { issues = unreadable }

-- What a read sees, which looks at one key only.
abbrev pub seen : Bool → Phone → Phone
seen true p = p
seen false p = record {
  jobs = unreadable;
  ops = unreadable;
  proofs = unreadable;
  issues = unreadable;
  device_id = unreadable;
}

module _ {W : Type 0} (env : Env W) where
  -- `getItem`, and whether it gave what is stored.
  abbrev pub looked : Run W → Run W
  looked r = let r' = catch_up r in record r' { world = (env.get_item r'.world).1 }

  abbrev pub look_works : Run W → Bool
  look_works r = (env.get_item (catch_up r).world).0

  unfoldable pub read : {A : Type 0} → (Phone → A) → Exec (Run W) A
  read f r = (ok (f (seen (look_works r) (looked r).phone)), looked r)
