-- ===== src/Field/Rules/Transitions.antt =====
-- The state machine of a rider's job.
use ironman.Prelude.{
  ℕ, ◌<◌, ◌≡◌, refl, inl, inr, true, none, some, List, [], ◌∷◌, arith, Option-cases,
}
use ironman.Field.Types.{
  JobStatus, pending, en_route, arrived, done, failed, OpType, job_start, job_arrive, job_complete,
  QueuedOp,
}
use ironman.Field.Rules.{next_status, is_finished, moved, replay_status}

-- One accepted action after another.
pub data Reaches (s : JobStatus) : JobStatus → Type 0 where
  here : Reaches s s
  next : {t u : JobStatus} (op : OpType) → next_status t op ≡ some u → Reaches s t → Reaches s u

abbrev pub rank : JobStatus → ℕ
rank pending = 0
rank en_route = 1
rank arrived = 2
rank done = 3
rank failed = 3

-- An accepted action moves the job strictly forward.
pub next_status-rank :
    (s : JobStatus) (op : OpType) {t : JobStatus} → next_status s op ≡ some t → rank s < rank t
unfolding next_status
next_status-rank s op h = ground arith

-- An action that a job took once does not fit it a second time, so a replay of it is skipped.
pub next_status_once :
    (s t : JobStatus) (op : OpType) → next_status s op ≡ some t → next_status t op ≡ none
unfolding next_status
next_status_once s t op h = ground arith

-- A job is finished exactly when no action fits it.
pub finished_iff_stuck :
    (s : JobStatus)
    → (is_finished s ≡ true → (op : OpType) → next_status s op ≡ none)
      × (((op : OpType) → next_status s op ≡ none) → is_finished s ≡ true)
unfolding next_status is_finished
finished_iff_stuck pending = (λ h. ground arith, λ h. ground (arith, h job_start))
finished_iff_stuck en_route = (λ h. ground arith, λ h. ground (arith, h job_arrive))
finished_iff_stuck arrived = (λ h. ground arith, λ h. ground (arith, h job_complete))
finished_iff_stuck done = (λ h op. refl, λ h. refl)
finished_iff_stuck failed = (λ h op. refl, λ h. refl)

Reaches-trans : {s t u : JobStatus} → Reaches s t → Reaches t u → Reaches s u
Reaches-trans r here = r
Reaches-trans r (next op e q) = next op e (Reaches-trans r q)

moved-Reaches : (s : JobStatus) (op : OpType) → Reaches s (moved s (next_status s op))
unfolding moved
moved-Reaches s op = elim (Option-cases (next_status s op)) [
  | inl e ↦ rw e here
  | inr (t, e) ↦ rw e (next op e here)
]

-- Whatever is queued, the status shown is one that the job reaches by accepted actions.
pub replay_status-Reaches : (s : JobStatus) (ops : List QueuedOp) → Reaches s (replay_status s ops)
unfolding replay_status
replay_status-Reaches s [] = here
replay_status-Reaches s (op ∷ ops) =
    Reaches-trans (moved-Reaches s op.op_type)
      (replay_status-Reaches (moved s (next_status s op.op_type)) ops)

-- Nothing queued moves a finished job.
pub replay_status-finished :
    (s : JobStatus) (ops : List QueuedOp) → is_finished s ≡ true → replay_status s ops ≡ s
unfolding replay_status moved
replay_status-finished s [] h = refl
replay_status-finished s (op ∷ ops) h =
    rw ((finished_iff_stuck s).0 h op.op_type) (replay_status-finished s ops h)
