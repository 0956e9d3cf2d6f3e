-- ===== src/Web/FieldActions.antt =====
-- The riders' actions in the browser (apps/web/lib/api/hooks.ts): an action goes to the server, or into
-- the queue of Web/Offline when there is no network, and the cached jobs show it either way. `online`
-- is the call of the server; what it throws is an `ApiError` when the server answered.
pub mod Outcomes
pub mod Queued
pub mod Captures
mod Tests
use ironman.Prelude.{
  ℕ, String, Bool, true, false, Option, none, some, List, [], ◌∷◌, map, if◌then◌else◌, ◌==◌,
}
use ironman.Json.{Json, JsonItems, JsonFields}
use ironman.Exec.{Thrown, api_error, other_error, Result, ok, err, Exec}
use ironman.Field.Types.{
  JobKind, JobStatus, en_route, arrived, done, failed, DeclaredLine, OpType, job_start, job_arrive,
  job_complete, job_fail, Payload,
}
use ironman.Web.Offline.{
  Tables, OfflineOp, OpInput, ProofKind, otp, OfflineProof, ProofInput, Browser, SyncAnswer,
  enqueue_op, enqueue_proof,
}

pub record Job : Type 0 where
  pub id : String
  pub route_day : String
  pub order : String
  pub order_ref : String
  pub kind : JobKind
  pub sequence : ℕ
  pub assigned_to : Option String
  pub assigned_to_name : String
  pub status : JobStatus
  pub slot_start : Option String
  pub slot_end : Option String
  pub started_at : Option String
  pub arrived_at : Option String
  pub completed_at : Option String
  pub attempt_no : ℕ

-- The query cache's entries for `["job", id]`, and for `["my-jobs", date]` of every date.
pub record JobCaches : Type 0 where
  pub jobs : List (String × Job)
  pub my_jobs : List (Option String × List Job)

abbrev pub patch_entry : String → (Job → Job) → String × Job → String × Job
patch_entry id patch (key, job) = if key == id then (key, patch job) else (key, job)

abbrev pub patch_listed : String → (Job → Job) → Job → Job
patch_listed id patch j = if j.id == id then patch j else j

-- `patchJobCaches`; `patch` is `{ ...job, ...patch }`.
unfoldable pub patch_job_caches : String → (Job → Job) → JobCaches → JobCaches
patch_job_caches id patch caches = record {
  jobs = map (patch_entry id patch) caches.jobs;
  my_jobs =
      map (λ (day : Option String × List Job). (day.0, map (patch_listed id patch) day.1))
        caches.my_jobs;
}

-- What an action of each kind shows at once.
abbrev pub status_patch : OpType → String → Job → Job
status_patch job_start now j = record j { status = en_route; started_at = some now }
status_patch job_arrive now j = record j { status = arrived; arrived_at = some now }
status_patch job_complete now j = record j { status = done; completed_at = some now }
status_patch job_fail now j = record j { status = failed }

-- `{ job, queued }`.
pub record ActionEnd : Type 0 where
  pub job : Option Job
  pub queued : Bool

pub record CompleteJobInput : Type 0 where
  pub declared_lines : Option (List DeclaredLine)
  pub bag_codes : Option (List String)
  pub otp_verified : Bool

abbrev pub or_empty : {A : Type 0} → Option (List A) → List A
or_empty none = []
or_empty (some xs) = xs

abbrev pub items_of : {A : Type 0} → (A → Json) → List A → JsonItems
items_of f [] = JsonItems.nil
items_of f (x ∷ xs) = JsonItems.cons (f x) (items_of f xs)

abbrev pub line_json : DeclaredLine → Json
line_json l = Json.obj (
    JsonFields.field "garment_type" (Json.str l.garment_type)
      (JsonFields.field "qty" (Json.num l.qty) JsonFields.end))

abbrev pub proof_json : Bool → Json
proof_json false = Json.null
proof_json true = Json.obj (
    JsonFields.field "kind" (Json.str "OTP")
      (JsonFields.field "otp_verified" (Json.bool true) JsonFields.end))

abbrev pub complete_payload : CompleteJobInput → Payload
complete_payload input =
    ("declared_lines", Json.arr (items_of line_json (or_empty input.declared_lines)))
    ∷ ("bag_codes", Json.arr (items_of Json.str (or_empty input.bag_codes)))
    ∷ ("proof", proof_json input.otp_verified)
    ∷ []

abbrev pub or_blank : Option String → String
or_blank none = ""
or_blank (some s) = s

abbrev pub fail_payload : String → Option String → Payload
fail_payload reason note =
    ("reason_code", Json.str reason) ∷ ("note", Json.str (or_blank note)) ∷ []

-- The operation that is queued; `queued_at` is written by the queue.
abbrev pub new_op : String → String → OpType → String → Payload → OfflineOp
new_op id now kind job_id payload = record {
  client_op_id = id;
  op_type = kind;
  job_id = job_id;
  payload = ("job_id", Json.str job_id) ∷ payload;
  client_ts = now;
  queued_at = "";
}

module _ {W : Type 0} (has_database has_storage : Bool) (access : W → Bool × W) (tables : Tables)
    (random_uuid now : W → String × W)
    (offline_sync : String → List OpInput → Exec (Browser W) (List SyncAnswer))
    (create_proof : ProofInput → Exec (Browser W) (Unit {0})) where
  abbrev pub queued_end : Result (Unit {0}) → Result ActionEnd
  queued_end (ok u) = ok (record { job = none; queued = true })
  queued_end (err t) = err t

  -- The `catch`: with no answer of the server the action is queued.
  unfoldable pub queue_action : OpType → String → Payload → Exec (Browser W) ActionEnd
  queue_action kind job_id payload s =
      let (id, w) = random_uuid s.world in
      let (at, w') = now w in
      let (r, s') =
        enqueue_op has_database has_storage access tables random_uuid now offline_sync create_proof
          (new_op id at kind job_id payload) (record s { world = w' }) in
      (queued_end r, s')

  abbrev pub after_online : OpType → String → Payload → Result Job → Exec (Browser W) ActionEnd
  after_online kind job_id payload (ok job) s = (ok (record { job = some job; queued = false }), s)
  after_online kind job_id payload (err (api_error e)) s = (err (api_error e), s)
  after_online kind job_id payload (err other_error) s = queue_action kind job_id payload s

  -- `runOfflineAwareAction`.
  unfoldable pub run_offline_aware_action :
      OpType → String → Payload → Exec (Browser W) Job → Exec (Browser W) ActionEnd
  run_offline_aware_action kind job_id payload online s =
      let (r, s1) = online s in after_online kind job_id payload r s1

  -- `job ?? statusPatch(jobId)`: the server's job replaces the cached one.
  abbrev pub shown : OpType → String → Option Job → Job → Job
  shown kind at none = status_patch kind at
  shown kind at (some job) = λ _. job

  -- `onSuccess`: a throw leaves the caches alone.
  abbrev pub on_action : OpType → String → String → Result ActionEnd → JobCaches → JobCaches
  on_action kind job_id at (ok end) caches = patch_job_caches job_id (shown kind at end.job) caches
  on_action kind job_id at (err t) caches = caches

  -- `useOfflineAwareStatusMutation` from the tap on: how it ends, the caches then, and the browser. The
  -- message about a queued action, and the count of what is queued, are left out.
  unfoldable pub act :
      OpType
      → String
      → Payload
      → Exec (Browser W) Job
      → JobCaches
      → Browser W
      → (Result ActionEnd × JobCaches) × Browser W
  act kind job_id payload online caches s =
      let (r, s1) = run_offline_aware_action kind job_id payload online s in
      let (at, w) = now s1.world in
      ((r, on_action kind job_id at r caches), record s1 { world = w })
