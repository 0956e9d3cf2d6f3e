-- ===== src/Field/Engine/Queue.antt =====
-- What `enqueue` lets into the queue (apps/field/lib/offline/engine.tsx).
use ironman.Prelude.{
  String, ◌≡◌, refl, sym, ap, ◌∙◌, ◌⊎◌, inl, inr, none, some, List, [], ◌∷◌, ◌++◌, find, Bool-cases,
  ◌==◌, eq_iff, eq_refl,
}
use ironman.Field.Types.{JobStatus, JobCard, OpType, Payload, QueuedOp}
use ironman.Field.Rules.{next_status, moved, replay_status}
use ironman.Field.Rules.Effective.{own_ops, effective_jobs-eq-plain}
use ironman.Field.Store.{Phone, load_jobs, load_ops, add_op}
use ironman.Exec.{Thrown, Result, ok, err, ◌>>=◌}
use ironman.Field.Sync.{Env, Run, Arrival, Reads, looked, catch_up, catch_up_from, read}
use ironman.Field.Sync.Steps.{written, change_slot}
use ironman.Field.Sync.Waiting.{quiet_catch_up}
use ironman.Field.Engine.{
  or_job, cached_job, judged_status, current_status, new_op, add_if, enqueue,
}

-- The status that a tap is judged by: the cached status with the job's queued actions replayed.
current_status-eq-replay :
    (p : Phone) (job : JobCard)
    → current_status p job
      ≡ replay_status
          (cached_job (load_jobs p) job).status
          (own_ops (cached_job (load_jobs p) job).id (load_ops p))
unfolding current_status judged_status
current_status-eq-replay p job =
    rw (effective_jobs-eq-plain (cached_job (load_jobs p) job ∷ []) (load_ops p)) refl

replay_status-append :
    (s : JobStatus) (ops : List QueuedOp) (op : QueuedOp)
    → replay_status s (ops ++ op ∷ [])
      ≡ moved (replay_status s ops) (next_status (replay_status s ops) op.op_type)
unfolding replay_status
replay_status-append s [] op = refl
replay_status-append s (o ∷ ops) op =
    replay_status-append (moved s (next_status s o.op_type)) ops op

own_ops-append :
    (id : String) (ops : List QueuedOp) (op : QueuedOp)
    → op.job_id ≡ id
    → own_ops id (ops ++ op ∷ []) ≡ own_ops id ops ++ op ∷ []
own_ops-append id [] op e = rw (e, eq_refl id)
own_ops-append id (o ∷ ops) op e = elim (Bool-cases (o.job_id == id)) [
  | inl t ↦ rw (t, own_ops-append id ops op e)
  | inr f ↦ rw (f, own_ops-append id ops op e)
]

cached_job-id : (p : Phone) (job : JobCard) → (cached_job (load_jobs p) job).id ≡ job.id
unfolding cached_job
cached_job-id p job = at (load_jobs p).jobs
  where
    at : (jobs : List JobCard) → (or_job (find (λ j. j.id == job.id) jobs) job).id ≡ job.id
    at [] = refl
    at (j ∷ jobs) = elim (Bool-cases (j.id == job.id)) [
      | inl e ↦ rw e ((eq_iff j.id job.id).0 e)
      | inr e ↦ rw e (at jobs)
    ]

load_ops-add_op : (p : Phone) (op : QueuedOp) → load_ops (add_op op p) ≡ load_ops p ++ op ∷ []
unfolding load_ops add_op
load_ops-add_op p op = refl

cached_job-add_op :
    (p : Phone) (op : QueuedOp) (job : JobCard)
    → cached_job (load_jobs (add_op op p)) job ≡ cached_job (load_jobs p) job
unfolding cached_job load_jobs add_op
cached_job-add_op p op job = refl

shown_after_add :
    (p : Phone) (job : JobCard) (op : QueuedOp) (next : JobStatus)
    → op.job_id ≡ job.id
    → next_status (current_status p job) op.op_type ≡ some next
    → current_status (add_op op p) job ≡ next
unfolding moved
shown_after_add p job op next on fits =
    rw
      (
        current_status-eq-replay (add_op op p) job,
        cached_job-add_op p op job,
        load_ops-add_op p op,
        own_ops-append (cached_job (load_jobs p) job).id (load_ops p) op
            (on ∙ sym (cached_job-id p job)),
        replay_status-append (cached_job (load_jobs p) job).status
            (own_ops (cached_job (load_jobs p) job).id (load_ops p)) op,
        ← current_status-eq-replay p job,
        fits,
      )
      refl

module _ {W : Type 0} where
  catch_up_from-world :
      (queue : List (List Arrival)) (w : W) (r : Run W)
      → (catch_up_from queue (record r { world = w })).phone ≡ (catch_up_from queue r).phone
  unfolding catch_up_from
  catch_up_from-world [] w r = refl
  catch_up_from-world (now ∷ later) w r = refl

  catch_up-world :
      (w : W) (r : Run W) → (catch_up (record r { world = w })).phone ≡ (catch_up r).phone
  unfolding catch_up
  catch_up-world w r = catch_up_from-world r.arrivals w r

module _ {W : Type 0} (env : Env W) (job : JobCard) (r : Run W) where
  -- The tap returned, with the action last in the queue and the job shown moved, or a write failed,
  -- which it threw, and the phone is as it was.
  abbrev pub Moved : QueuedOp → JobStatus → Result (Unit {0}) × Run W → Type 0
  Moved op next x =
      ((x.0 ≡ ok tt)
        × (load_ops x.1.phone ≡ load_ops r.phone ++ op ∷ [])
        × (current_status x.1.phone job ≡ next))
      ⊎ ((t : Thrown) × (w : W) × ((env.set_item w).0 ≡ err t)
          × (x.0 ≡ err t)
          × (x.1.phone ≡ r.phone))

module _ {W : Type 0} (env : Env W) (job : JobCard) (op_type : OpType) (payload : Payload) where
  -- The action is a tap on this job.
  abbrev pub IsTap : QueuedOp → Type 0
  IsTap op = (op.job_id ≡ job.id) × (op.op_type ≡ op_type) × (op.payload ≡ payload)

  -- The tap returned with the action added, or a write failed and the tap threw that and added nothing.
  abbrev pub Added : QueuedOp → Phone → Result (Unit {0}) × Run W → Type 0
  Added op p x =
      ((x.0 ≡ ok tt) × (x.1.phone ≡ add_op op p))
      ⊎ ((t : Thrown) × (w : W) × ((env.set_item w).0 ≡ err t) × (x.0 ≡ err t) × (x.1.phone ≡ p))

  add_if-adds :
      (next : JobStatus) (r : Run W)
      → Reads env
      → (op : QueuedOp) × IsTap op
        × Added op (catch_up r).phone (add_if env (some next) job op_type payload r)
  unfolding add_if ◌>>=◌ change_slot
  add_if-adds next r reads =
      let (id, w1) = env.new_id r.world in
      let (ts, w2) = env.now w1 in
      let r' : Run W = record r { world = w2 } in
      let op = new_op id ts job op_type payload in
      (
        op,
        (refl, refl, refl),
        rw (reads (catch_up r').world) (
            go op r' (catch_up-world w2 r) (looked env r').world
              (env.set_item (looked env r').world).0 (env.set_item (looked env r').world).1 refl),
      )
    where
      go :
          (op : QueuedOp) (r' : Run W)
          → (catch_up r').phone ≡ (catch_up r).phone
          → (w : W) (outcome : Result (Unit {0})) (w' : W) → (env.set_item w).0 ≡ outcome
          → Added op (catch_up r).phone (
            outcome,
            record (looked env r') {
              world = w';
              phone = written outcome (add_op op) (catch_up r').phone;
            },
          )
      go op r' same w (ok u) w' e = inl (refl, ap (add_op op) same)
      go op r' same w (err t) w' e = inr (t, w, e, refl, same)

  module _ (r : Run W) where
    -- The state after both reads, and the status that the tap is judged by.
    abbrev pub after_reads : Run W
    after_reads = looked env (looked env r)

    abbrev pub judged : JobStatus
    judged = judged_status (load_jobs (looked env r).phone) (load_ops after_reads.phone) job

    enqueue-add_if :
        Reads env
        → enqueue env job op_type payload r
          ≡ add_if env (next_status judged op_type) job op_type payload after_reads
    unfolding enqueue read ◌>>=◌
    enqueue-add_if reads =
        rw (reads (catch_up r).world) (rw (reads (catch_up (looked env r)).world) refl)

    -- If every read gives what is stored: a tap is judged by the jobs and the queue as it read them. One
    -- that does not fit changes nothing. For one that fits an action is added to the end of the queue,
    -- behind whatever other taps have added until then, unless the write fails: then the tap throws that
    -- failure and adds nothing.
    pub enqueue_exact :
        Reads env
        → ((next : JobStatus)
            → next_status judged op_type ≡ some next
            → (op : QueuedOp) × IsTap op
              × Added op (catch_up after_reads).phone (enqueue env job op_type payload r)
              × (load_ops (add_op op (catch_up after_reads).phone)
                  ≡ load_ops (catch_up after_reads).phone ++ op ∷ []))
          × (next_status judged op_type ≡ none
              → enqueue env job op_type payload r ≡ (ok tt, after_reads))
    unfolding add_if
    enqueue_exact reads = (
      λ next fits.
          let (op, tap, added) = add_if-adds next after_reads reads in
          (
            op,
            tap,
            rw (enqueue-add_if reads, fits) added,
            load_ops-add_op (catch_up after_reads).phone op,
          ),
      λ e. rw (enqueue-add_if reads, e) refl,
    )

    -- With no other tap in between.
    looked_quiet :
        (s : Run W) → s.arrivals ≡ [] → looked env s ≡ record s { world = (env.get_item s.world).1 }
    looked_quiet s quiet = rw (quiet_catch_up s quiet) refl

    after_reads_quiet :
        r.arrivals ≡ []
        → (w : W) × (looked env r ≡ record r { world = (env.get_item r.world).1 })
          × (after_reads ≡ record r { world = w })
    after_reads_quiet quiet =
        let first = looked_quiet r quiet in
        (
          (env.get_item (env.get_item r.world).1).1,
          first,
          ap (looked env) first
              ∙ looked_quiet (record r { world = (env.get_item r.world).1 }) quiet,
        )

    -- A tap that fits the job as the rider sees it, with no other tap while it is judged and added.
    pub enqueue_quiet :
        Reads env
        → r.arrivals ≡ []
        → (next : JobStatus) → next_status (current_status r.phone job) op_type ≡ some next
        → (op : QueuedOp) × IsTap op × Moved env job r op next (enqueue env job op_type payload r)
    unfolding current_status
    enqueue_quiet reads quiet next fits =
        let (w, first, second) = after_reads_quiet quiet in
        let sees : judged ≡ judged_status (load_jobs r.phone) (load_ops r.phone) job =
          ap (λ (s : Run W). judged_status (load_jobs s.phone) (load_ops after_reads.phone) job)
            first
          ∙ ap (λ (s : Run W). judged_status (load_jobs r.phone) (load_ops s.phone) job) second in
        let same : (catch_up after_reads).phone ≡ r.phone =
          ap (λ (s : Run W). (catch_up s).phone) second
          ∙ ap (λ (s : Run W). s.phone) (quiet_catch_up (record r { world = w }) quiet) in
        let (op, tap, added, stored) =
          (enqueue_exact reads).0 next (ap (λ s. next_status s op_type) sees ∙ fits) in
        (
          op,
          tap,
          elim added [
            | inl (returned, put) ↦
                let put' = put ∙ ap (add_op op) same in
                inl (
                  returned,
                  ap load_ops put' ∙ load_ops-add_op r.phone op,
                  ap (λ (p : Phone). current_status p job) put'
                      ∙ shown_after_add r.phone job op next tap.0
                          (ap (next_status (current_status r.phone job)) tap.1 ∙ fits),
                )
            | inr (t, v, failed, threw, untouched) ↦ inr (t, v, failed, threw, untouched ∙ same)
          ],
        )
