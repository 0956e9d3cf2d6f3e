-- ===== src/Field/Rules.antt =====
-- apps/field/lib/offline/rules.ts: what a rider may do to a job, and the job as the rider sees it
-- while actions wait. `localeCompare` is the runtime's collation, so it is a parameter.
pub mod Transitions
pub mod Effective
pub mod Comparator
pub mod Day
use ironman.Prelude.{
  ℕ, ◌-◌, String, Bool, true, false, not, ◌&&◌, ◌||◌, Option, none, some, List, [], ◌∷◌, ◌++◌, map,
  ltb, nat_eq, if◌then◌else◌, filter, ◌==◌, text_leb,
}
use ironman.Field.Types.{
  JobStatus, pending, en_route, arrived, done, failed, OpType, job_start, job_arrive, job_complete,
  job_fail, JobCard, QueuedOp,
}

-- `ALLOWED[status][op] ?? null`.
unfoldable pub next_status : JobStatus → OpType → Option JobStatus
next_status pending job_start = some en_route
next_status pending job_fail = some failed
next_status en_route job_arrive = some arrived
next_status en_route job_complete = some done
next_status en_route job_fail = some failed
next_status arrived job_complete = some done
next_status arrived job_fail = some failed
next_status _ _ = none

unfoldable pub is_finished : JobStatus → Bool
is_finished done = true
is_finished failed = true
is_finished _ = false

-- `Map<string, QueuedOp[]>`.
abbrev pub Groups : Type 0
Groups = List (String × List QueuedOp)

-- `byJob.get(id) ?? []`.
unfoldable pub ops_of : Groups → String → List QueuedOp
ops_of [] id = []
ops_of ((k, ops) ∷ g) id = let rest = ops_of g id in if k == id then ops else rest

-- `byJob.set(op.job_id, [...(byJob.get(op.job_id) ?? []), op])`.
unfoldable pub add_to_group : Groups → QueuedOp → Groups
add_to_group [] op = (op.job_id, op ∷ []) ∷ []
add_to_group ((k, ops) ∷ g) op =
    let rest = add_to_group g op in
    if k == op.job_id then (k, ops ++ op ∷ []) ∷ g else (k, ops) ∷ rest

unfoldable pub by_job : Groups → List QueuedOp → Groups
by_job g [] = g
by_job g (op ∷ ops) = by_job (add_to_group g op) ops

-- `if (next) status = next`.
unfoldable pub moved : JobStatus → Option JobStatus → JobStatus
moved status none = status
moved status (some next) = next

-- The inner loop: an action that does not fit is skipped.
unfoldable pub replay_status : JobStatus → List QueuedOp → JobStatus
replay_status status [] = status
replay_status status (op ∷ ops) = replay_status (moved status (next_status status op.op_type)) ops

abbrev pub status_eq : JobStatus → JobStatus → Bool
status_eq pending pending = true
status_eq en_route en_route = true
status_eq arrived arrived = true
status_eq done done = true
status_eq failed failed = true
status_eq _ _ = false

unfoldable pub effective_job : Groups → JobCard → JobCard
effective_job g job =
    let status = replay_status job.status (ops_of g job.id) in
    if status_eq status job.status then job else record job { status = status }

unfoldable pub effective_jobs : List JobCard → List QueuedOp → List JobCard
effective_jobs jobs ops = map (effective_job (by_job [] ops)) jobs

-- What `localeCompare` answers: before, the same, after.
pub data Order : Type 0 where
  before same after : Order

-- `a || b` on comparator results.
abbrev pub or_else : Order → Order → Order
or_else same o = o
or_else o _ = o

abbrev pub comes_after : Order → Bool
comes_after after = true
comes_after _ = false

-- `a - b` on numbers, by its sign.
unfoldable pub compare_numbers : ℕ → ℕ → Order
compare_numbers a b = if ltb a b then before else if nat_eq a b then same else after

-- `slot ?? ""`.
abbrev pub or_empty : Option String → String
or_empty none = ""
or_empty (some s) = s

pub record DaySplit : Type 0 where
  pub todo : List JobCard
  pub done_jobs : List JobCard

abbrev pub is_relevant : String → JobCard → Bool
is_relevant today j = text_leb j.date today && (j.date == today || not (is_finished j.status))

module _ (locale_compare : String → String → Order) where
  unfoldable pub compare_jobs : JobCard → JobCard → Order
  compare_jobs a b = or_else (compare_numbers a.sequence b.sequence) (
      or_else (locale_compare (or_empty a.slot_start) (or_empty b.slot_start))
        (locale_compare a.order_ref b.order_ref))

  -- `sort` is stable: an element goes in front of the first one that it does not come after.
  unfoldable pub insert_job : JobCard → List JobCard → List JobCard
  insert_job j [] = j ∷ []
  insert_job j (k ∷ ks) =
      let rest = insert_job j ks in if comes_after (compare_jobs j k) then k ∷ rest else j ∷ k ∷ ks

  unfoldable pub sort_jobs : List JobCard → List JobCard
  sort_jobs [] = []
  sort_jobs (j ∷ js) = insert_job j (sort_jobs js)

  unfoldable pub split_day : List JobCard → String → DaySplit
  split_day jobs today =
      let sorted = sort_jobs (filter (is_relevant today) jobs) in
      record {
        todo = filter (λ j. not (is_finished j.status)) sorted;
        done_jobs = filter (λ j. is_finished j.status) sorted;
      }
