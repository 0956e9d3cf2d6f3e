-- ===== src/Field/Rules/Effective.antt =====
-- The jobs as the rider sees them, against the plain reading: each job replays its own actions.
use ironman.Prelude.{
  String, ◌≡◌, refl, sym, ap, ◌∙◌, true, false, List, [], ◌∷◌, ◌++◌, map, arith, filter, ◌==◌,
  eq_iff, if◌then◌else◌, inl, inr, Bool-cases,
}
use mathlib.Core.List.{append_assoc, append-nil}
use mathlib.Core.Path.{fun_ext}
use ironman.Field.Types.{JobStatus, JobCard, QueuedOp}
use ironman.Field.Rules.{
  Groups, ops_of, add_to_group, by_job, replay_status, status_eq, effective_job, effective_jobs,
}

-- The actions on one job, in the order they were taken.
abbrev pub own_ops : String → List QueuedOp → List QueuedOp
own_ops id = filter (λ op. op.job_id == id)

abbrev pub plain_view : List QueuedOp → JobCard → JobCard
plain_view ops job = record job { status = replay_status job.status (own_ops job.id ops) }

ops_of-add_to_group :
    (g : Groups) (op : QueuedOp) (id : String)
    → ops_of (add_to_group g op) id ≡ ops_of g id ++ (if op.job_id == id then op ∷ [] else [])
unfolding ops_of add_to_group
ops_of-add_to_group [] op id = ground arith
ops_of-add_to_group ((k, ops) ∷ g) op id = elim (Bool-cases (k == op.job_id)) [
  | inl e ↦ elim (Bool-cases (k == id)) [
    | inl f ↦ rw (e, f, ← (eq_iff k op.job_id).0 e, f) refl
    | inr f ↦ rw (e, f, ← (eq_iff k op.job_id).0 e, f) (sym (append-nil (ops_of g id)))
  ]
  | inr e ↦ elim (Bool-cases (k == id)) [
    | inl f ↦ rw (e, f, other e f) (sym (append-nil ops))
    | inr f ↦ rw (e, f) (ops_of-add_to_group g op id)
  ]
]
  where
    other : (k == op.job_id) ≡ false → (k == id) ≡ true → (op.job_id == id) ≡ false
    other e f = ground (arith, eq_iff k op.job_id, eq_iff k id, eq_iff op.job_id id)

own_ops-cons :
    (id : String) (op : QueuedOp) (ops : List QueuedOp)
    → (if op.job_id == id then op ∷ [] else []) ++ own_ops id ops ≡ own_ops id (op ∷ ops)
own_ops-cons id op ops = ground arith

ops_of-by_job :
    (g : Groups) (ops : List QueuedOp) (id : String)
    → ops_of (by_job g ops) id ≡ ops_of g id ++ own_ops id ops
unfolding by_job
ops_of-by_job g [] id = sym (append-nil (ops_of g id))
ops_of-by_job g (op ∷ ops) id = rw (
  ops_of-by_job (add_to_group g op) ops id,
  ops_of-add_to_group g op id,
  append_assoc,
  own_ops-cons id op ops,
)

status_eq-eq : (s t : JobStatus) → status_eq s t ≡ true → s ≡ t
status_eq-eq s t h = ground arith

keep_same :
    (job : JobCard) (s : JobStatus)
    → (if status_eq s job.status then job else record job { status = s })
      ≡ record job { status = s }
keep_same job s = elim (Bool-cases (status_eq s job.status)) [
  | inl e ↦ rw (e, status_eq-eq s job.status e)
  | inr e ↦ rw e
]

-- Grouping the queue by job first gives what replaying each job's own actions in order gives.
pub effective_jobs-eq-plain :
    (jobs : List JobCard) (ops : List QueuedOp)
    → effective_jobs jobs ops ≡ map (plain_view ops) jobs
unfolding effective_jobs effective_job ops_of
effective_jobs-eq-plain jobs ops =
    ap (λ (f : JobCard → JobCard). map f jobs)
      (fun_ext λ job.
        keep_same job _
        ∙ ap (λ (l : List QueuedOp). record job { status = replay_status job.status l })
            (ops_of-by_job [] ops job.id))
