-- ===== src/Field/Engine.antt =====
-- apps/field/lib/offline/engine.tsx: taking an action, and one run of `flush` at a time. The React
-- state that mirrors the store is left out. A tap runs over the store like a sync run does, with the
-- environment and the state of Field/Sync.
pub mod Queue
pub mod Passes
use ironman.Prelude.{
  ℕ, suc, String, Bool, true, false, not, ◌&&◌, Option, none, some, List, [], ◌∷◌, find,
  if◌then◌else◌, ◌==◌,
}
use ironman.Json.{Json, str, num, arr, obj, JsonItems, nil, cons, JsonFields, end, field}
use ironman.Field.Types.{
  JobStatus, JobCard, OpType, job_start, job_arrive, job_complete, job_fail, Payload, DeclaredLine,
  QueuedOp, QueuedProof,
}
use ironman.Field.Rules.{next_status, effective_jobs}
use ironman.Exec.{Exec, pure, ◌>>=◌}
use ironman.Field.Store.{Phone, JobsCache, load_jobs, load_ops, add_op, add_proof}
use ironman.Field.Sync.{Env, Run, read, ops_slot}
use ironman.Field.Sync.Steps.{draw, change_slot}

abbrev pub or_job : Option JobCard → JobCard → JobCard
or_job none job = job
or_job (some j) job = j

-- `cache.jobs.find((j) => j.id === job.id) ?? job`.
unfoldable pub cached_job : JobsCache → JobCard → JobCard
cached_job cache job = or_job (find (λ j. j.id == job.id) cache.jobs) job

-- `effectiveJobs([raw], queued)[0]`.
abbrev pub first_status : JobCard → List JobCard → JobStatus
first_status job [] = job.status
first_status job (j ∷ js) = j.status

-- `current.status`, of what was read of the jobs and of the queue.
unfoldable pub judged_status : JobsCache → List QueuedOp → JobCard → JobStatus
unfolding cached_job
judged_status cache queued job =
    first_status job (effective_jobs (cached_job cache job ∷ []) queued)

-- The status of a job as the rider sees it.
unfoldable pub current_status : Phone → JobCard → JobStatus
unfolding judged_status
current_status p job = judged_status (load_jobs p) (load_ops p) job

abbrev pub new_op : String → String → JobCard → OpType → Payload → QueuedOp
new_op id ts job op_type payload = record {
  client_op_id = id;
  op_type = op_type;
  job_id = job.id;
  payload = payload;
  client_ts = ts;
}

unfoldable pub json_lines : List DeclaredLine → JsonItems
json_lines [] = nil
json_lines (l ∷ ls) =
    cons (obj (field "garment_type" (str l.garment_type) (field "qty" (num l.qty) end)))
      (json_lines ls)

unfoldable pub json_texts : List String → JsonItems
json_texts [] = nil
json_texts (s ∷ ss) = cons (str s) (json_texts ss)

abbrev pub or_none : {A : Type 0} → Option (List A) → List A
or_none none = []
or_none (some l) = l

pub record Completion : Type 0 where
  pub declared_lines : Option (List DeclaredLine)
  pub bag_codes : Option (List String)

module _ {W : Type 0} (env : Env W) where
  -- The rest of `enqueue` after the check.
  unfoldable pub add_if : Option JobStatus → JobCard → OpType → Payload → Exec (Run W) (Unit {0})
  add_if none job op_type payload = pure tt
  add_if (some next) job op_type payload = do
    id ← draw env env.new_id
    ts ← draw env env.now
    change_slot env ops_slot (add_op (new_op id ts job op_type payload))

  -- `enqueue`, up to the reload: the jobs and the queue are read, the action is judged by what was read,
  -- and one that fits is added. Before each of the three accesses other taps may come in between, which
  -- are the run's arrivals. A read that fails judges by the fallback, and a write that fails throws.
  unfoldable pub enqueue : JobCard → OpType → Payload → Exec (Run W) (Unit {0})
  unfolding add_if
  enqueue job op_type payload = do
    cache ← read env load_jobs
    queued ← read env load_ops
    add_if (next_status (judged_status cache queued job) op_type) job op_type payload

  unfoldable pub start : JobCard → Exec (Run W) (Unit {0})
  start job = enqueue job job_start []

  unfoldable pub arrive : JobCard → Exec (Run W) (Unit {0})
  arrive job = enqueue job job_arrive []

  unfoldable pub complete : JobCard → Completion → Exec (Run W) (Unit {0})
  unfolding json_lines json_texts
  complete job completion = enqueue job job_complete (
      ("declared_lines", arr (json_lines (or_none completion.declared_lines)))
      ∷ ("bag_codes", arr (json_texts (or_none completion.bag_codes)))
      ∷ [])

  unfoldable pub fail : JobCard → String → String → Exec (Run W) (Unit {0})
  fail job reason_code note =
      enqueue job job_fail (("reason_code", str reason_code) ∷ ("note", str note) ∷ [])

-- `addPhoto`, with the file that `keepPhoto` made.
unfoldable pub add_photo : String → String → JobCard → String → Phone → Phone
add_photo id captured_at job uri =
    add_proof (record { id = id; job_id = job.id; uri = uri; captured_at = captured_at })

-- The refs and the state of `syncNow`.
pub record Engine : Type 0 where
  pub running : Bool
  pub again : Bool
  pub syncing : Bool
  pub offline : Bool

abbrev pub idle : Engine
idle = record { running = false; again = false; syncing = false; offline = false }

-- A call of `syncNow`, and how the flush that is under way ends.
pub data Event : Type 0 where
  request : Event
  flushed : Bool → Event
  threw : Event

-- A call of `syncNow`; the flag says that a flush starts.
unfoldable pub sync_now : Engine → Engine × Bool
sync_now e =
    if e.running
    then (record e { again = true }, false)
    else (record e { running = true; syncing = true; again = false }, true)

-- The flush returned: `while (again.current && !summary.offline)`, then `finally`.
unfoldable pub after_flush : Engine → Bool → Engine × Bool
after_flush e went_offline =
    if e.again && not went_offline
    then (record e { offline = went_offline; again = false }, true)
    else (record e { offline = went_offline; running = false; syncing = false }, false)

-- The flush threw: `catch`, then `finally`.
unfoldable pub after_throw : Engine → Engine × Bool
after_throw e = (record e { offline = true; running = false; syncing = false }, false)

unfoldable pub step : Engine → Event → Engine × Bool
unfolding sync_now after_flush after_throw
step e request = sync_now e
step e (flushed went_offline) = after_flush e went_offline
step e threw = after_throw e
