-- ===== src/Field/Sync/View.antt =====
-- What the rider sees while the server's answer to an action is written down.
use ironman.Prelude.{
  String, ◌≡◌, refl, ap, inl, inr, false, some, List, [], ◌∷◌, ◌++◌, map, All, Bool-cases, arith,
  ◌==◌, eq_iff, eq_refl,
}
use ironman.Field.Types.{JobStatus, JobCard, QueuedOp}
use ironman.Field.Rules.{next_status, moved, replay_status, effective_jobs}
use ironman.Field.Rules.Transitions.{next_status_once}
use ironman.Field.Rules.Effective.{own_ops, plain_view, effective_jobs-eq-plain}
use ironman.Field.Store.{with_status}

-- None of these actions is on the job.
abbrev pub NoneOn : String → List QueuedOp → Type 0
NoneOn id ops = All (λ o. (o.job_id == id) ≡ false) ops

own_ops-NoneOn :
    (id : String) (pre rest : List QueuedOp)
    → NoneOn id pre
    → own_ops id (pre ++ rest) ≡ own_ops id rest
own_ops-NoneOn id [] rest h = refl
own_ops-NoneOn id (o ∷ pre) rest h = rw (h.0) (own_ops-NoneOn id pre rest h.1)

-- Another job's action changes nothing for this one.
own_ops-skip :
    (id : String) (op : QueuedOp) (pre post : List QueuedOp)
    → (op.job_id == id) ≡ false
    → own_ops id (pre ++ op ∷ post) ≡ own_ops id (pre ++ post)
own_ops-skip id op [] post h = rw h refl
own_ops-skip id op (o ∷ pre) post h = rw (own_ops-skip id op pre post h) refl

module _ (op : QueuedOp) (next : JobStatus) (pre post : List QueuedOp)
    (first : NoneOn op.job_id pre) where
  once :
      (s : JobStatus)
      → next_status s op.op_type ≡ some next
      → (ops : List QueuedOp)
      → (replay_status (moved next (next_status next op.op_type)) ops
          ≡ replay_status (moved s (next_status s op.op_type)) ops)
        × (replay_status next ops ≡ replay_status (moved s (next_status s op.op_type)) ops)
  unfolding moved
  once s fits ops = rw (fits, next_status_once s next op.op_type fits) (refl, refl)

  -- Before the change, after the patch of the cached job, and after the action has left the queue.
  own_view :
      (job : JobCard)
      → job.id ≡ op.job_id
      → next_status job.status op.op_type ≡ some next
      → (plain_view (pre ++ op ∷ post) (with_status op.job_id next job)
          ≡ plain_view (pre ++ op ∷ post) job)
        × (plain_view (pre ++ post) (with_status op.job_id next job)
            ≡ plain_view (pre ++ op ∷ post) job)
  unfolding with_status replay_status moved
  own_view job same fits =
      rw
        (
          same,
          eq_refl op.job_id,
          own_ops-NoneOn op.job_id pre (op ∷ post) first,
          own_ops-NoneOn op.job_id pre post first,
          eq_refl op.job_id,
        )
        (let (a, b) = once job.status fits (own_ops op.job_id post) in (ap shown a, ap shown b))
    where
      shown : JobStatus → JobCard
      shown s = record job { id = op.job_id; status = s }

  other_view :
      (job : JobCard)
      → (job.id == op.job_id) ≡ false
      → (plain_view (pre ++ op ∷ post) (with_status op.job_id next job)
          ≡ plain_view (pre ++ op ∷ post) job)
        × (plain_view (pre ++ post) (with_status op.job_id next job)
            ≡ plain_view (pre ++ op ∷ post) job)
  unfolding with_status
  other_view job other =
      let flipped : (op.job_id == job.id) ≡ false =
        ground (arith, eq_iff op.job_id job.id, eq_iff job.id op.job_id) in
      rw (other, own_ops-skip job.id op pre post flipped) (refl, refl)

  job_view :
      (job : JobCard)
      → (job.id ≡ op.job_id → next_status job.status op.op_type ≡ some next)
      → (plain_view (pre ++ op ∷ post) (with_status op.job_id next job)
          ≡ plain_view (pre ++ op ∷ post) job)
        × (plain_view (pre ++ post) (with_status op.job_id next job)
            ≡ plain_view (pre ++ op ∷ post) job)
  job_view job fits = elim (Bool-cases (job.id == op.job_id)) [
    | inl e ↦ let same = (eq_iff job.id op.job_id).0 e in own_view job same (fits same)
    | inr e ↦ other_view job e
  ]

  jobs_view :
      (jobs : List JobCard)
      → All (λ job. job.id ≡ op.job_id → next_status job.status op.op_type ≡ some next) jobs
      → (map (plain_view (pre ++ op ∷ post)) (map (with_status op.job_id next) jobs)
          ≡ map (plain_view (pre ++ op ∷ post)) jobs)
        × (map (plain_view (pre ++ post)) (map (with_status op.job_id next) jobs)
            ≡ map (plain_view (pre ++ op ∷ post)) jobs)
  jobs_view [] fits = (refl, refl)
  jobs_view (job ∷ jobs) fits =
      let (a, b) = job_view job fits.0 in
      let (c, d) = jobs_view jobs fits.1 in (cc (a, c), cc (b, d))

  -- The server applied the first queued action on a job, and the action fits the cached job. Then
  -- patching the cached job does not change what the rider sees, and neither does taking the action
  -- off the queue after that.
  pub applied_view_steady :
      (jobs : List JobCard)
      → All (λ job. job.id ≡ op.job_id → next_status job.status op.op_type ≡ some next) jobs
      → let patched = map (with_status op.job_id next) jobs in
        (effective_jobs patched (pre ++ op ∷ post) ≡ effective_jobs jobs (pre ++ op ∷ post))
        × (effective_jobs patched (pre ++ post) ≡ effective_jobs jobs (pre ++ op ∷ post))
  applied_view_steady jobs fits =
      rw
        (
          effective_jobs-eq-plain _ (pre ++ op ∷ post),
          effective_jobs-eq-plain jobs (pre ++ op ∷ post),
          effective_jobs-eq-plain _ (pre ++ post),
        )
        (jobs_view jobs fits)
