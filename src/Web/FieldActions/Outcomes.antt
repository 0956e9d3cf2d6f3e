-- ===== src/Web/FieldActions/Outcomes.antt =====
-- How a rider's action in the browser ends, and what the cached jobs show then.
use ironman.Prelude.{
  ◌≡◌, ◌≢◌, refl, ◌⊎◌, inl, inr, String, Bool, true, false, Option, none, some, List, [], ◌∷◌, map,
  All, Bool-cases, ◌==◌, eq_iff, arith,
}
use ironman.Exec.{api_error, other_error, Result, ok, err, Exec}
use ironman.Field.Types.{
  OpType, JobStatus, Payload, en_route, arrived, done, failed, job_start, job_arrive, job_complete,
  job_fail,
}
use ironman.Web.Offline.{Tables, OpInput, ProofInput, Browser, SyncAnswer, transaction, enqueue_op}
use ironman.Web.FieldActions.{
  Job, JobCaches, ActionEnd, patch_job_caches, patch_entry, patch_listed, shown, new_op,
  queue_action, after_online, run_offline_aware_action, on_action, act,
}

-- The action was put into the queue as it was in `s`.
abbrev pub Queues :
    Tables → OpType → String → Payload → {W : Type 0} → Browser W → Browser W → Type 0
Queues tables kind job_id payload s t =
    (id at queued_at : String) × (t.ops
      ≡ tables.put_op (record (new_op id at kind job_id payload) { queued_at = queued_at }) s.ops)
    × (t.proofs ≡ s.proofs)

module _ {W : Type 0} (has_database has_storage : Bool) (access : W → Bool × W) (tables : Tables)
    (random_uuid now : W → String × W)
    (offline_sync : String → List OpInput → Exec (Browser W) (List SyncAnswer))
    (create_proof : ProofInput → Exec (Browser W) (Unit {0})) (kind : OpType) (job_id : String)
    (payload : Payload) where
  queue_action-cases :
      (s : Browser W)
      → ((queue_action has_database has_storage access tables random_uuid now offline_sync
              create_proof kind job_id payload s).0
            ≡ ok (record { job = none; queued = true })
          × Queues tables kind job_id payload s
              (queue_action has_database has_storage access tables random_uuid now offline_sync
                create_proof kind job_id payload s).1)
        ⊎ ((queue_action has_database has_storage access tables random_uuid now offline_sync
                create_proof kind job_id payload s).0
              ≡ err other_error
            × ((queue_action has_database has_storage access tables random_uuid now offline_sync
                  create_proof kind job_id payload s).1.ops
                ≡ s.ops))
  unfolding queue_action enqueue_op transaction
  queue_action-cases s =
      let written = now (now (random_uuid s.world).1).1 in
      elim (Bool-cases (access written.1).0) [
        | inl works ↦ rw works (
            inl (
              refl,
              ((random_uuid s.world).0, (now (random_uuid s.world).1).0, written.0, refl, refl),
            ))
        | inr fails ↦ rw fails (inr (refl, refl))
      ]

  -- How an action ends, of what the call of the server came to and the browser it left.
  abbrev pub EndsAs : Result Job → Browser W → Result ActionEnd × Browser W → Type 0
  EndsAs (ok job) s1 x = x ≡ (ok (record { job = some job; queued = false }), s1)
  EndsAs (err (api_error e)) s1 x = x ≡ (err (api_error e), s1)
  EndsAs (err other_error) s1 x =
      ((x.0 ≡ ok (record { job = none; queued = true })) × Queues tables kind job_id payload s1 x.1)
      ⊎ ((x.0 ≡ err other_error) × (x.1.ops ≡ s1.ops))

  after_online-EndsAs :
      (r : Result Job) (s1 : Browser W)
      → EndsAs r s1 (
          after_online has_database has_storage access tables random_uuid now offline_sync
            create_proof kind job_id payload r s1)
  after_online-EndsAs (ok job) s1 = refl
  after_online-EndsAs (err (api_error e)) s1 = refl
  after_online-EndsAs (err other_error) s1 = queue_action-cases s1

  -- How an action ends: done by the server, with the queue as the call left it; refused by the server,
  -- with the queue as the call left it; queued, when nobody answered; or lost with a throw, when nobody
  -- answered and the queue could not be written.
  pub action_exact :
      (online : Exec (Browser W) Job) (s : Browser W)
      → EndsAs (online s).0 (online s).1 (
          run_offline_aware_action has_database has_storage access tables random_uuid now
            offline_sync create_proof kind job_id payload online s)
  unfolding run_offline_aware_action
  action_exact online s = after_online-EndsAs (online s).0 (online s).1

-- The status that a tap leads to: the server's, or the one that the action stands for.
abbrev pub new_status : OpType → Option Job → JobStatus
new_status kind (some job) = job.status
new_status job_start none = en_route
new_status job_arrive none = arrived
new_status job_complete none = done
new_status job_fail none = failed

-- Every cached copy of the job has the status.
abbrev pub AllShow : String → JobStatus → JobCaches → Type 0
AllShow id status caches =
    All (λ (e : String × Job). (e.0 ≢ id) ⊎ (e.1.status ≡ status)) caches.jobs
    × All
        (λ (day : Option String × List Job).
          All (λ (j : Job). (j.id ≢ id) ⊎ (j.status ≡ status)) day.1)
        caches.my_jobs

module _ (id : String) (status : JobStatus) (patch : Job → Job)
    (patched : (j : Job) → Job.status (patch j) ≡ status) where
  entries_show :
      (jobs : List (String × Job))
      → All
          (λ (e : String × Job). (e.0 ≢ id) ⊎ (e.1.status ≡ status))
          (map (patch_entry id patch) jobs)
  entries_show [] = tt
  entries_show ((key, j) ∷ jobs) = elim (Bool-cases (key == id)) [
    | inl e ↦ rw e (inr (patched j), entries_show jobs)
    | inr e ↦ rw e (inl (λ same. ground (arith, eq_iff key id, same)), entries_show jobs)
  ]

  listed_show :
      (jobs : List Job)
      → All (λ (j : Job). (j.id ≢ id) ⊎ (j.status ≡ status)) (map (patch_listed id patch) jobs)
  listed_show [] = tt
  listed_show (j ∷ jobs) = elim (Bool-cases (j.id == id)) [
    | inl e ↦ rw e (inr (patched j), listed_show jobs)
    | inr e ↦ rw e (inl (λ same. ground (arith, eq_iff j.id id, same)), listed_show jobs)
  ]

  days_show :
      (days : List (Option String × List Job))
      → All
          (λ (day : Option String × List Job).
            All (λ (j : Job). (j.id ≢ id) ⊎ (j.status ≡ status)) day.1)
          (map
            (λ (day : Option String × List Job). (day.0, map (patch_listed id patch) day.1))
            days)
  days_show [] = tt
  days_show (day ∷ days) = (listed_show day.1, days_show days)

module _ {W : Type 0} (has_database has_storage : Bool) (access : W → Bool × W) (tables : Tables)
    (random_uuid now : W → String × W)
    (offline_sync : String → List OpInput → Exec (Browser W) (List SyncAnswer))
    (create_proof : ProofInput → Exec (Browser W) (Unit {0})) where
  shown-status :
      (kind : OpType) (at : String) (job : Option Job) (j : Job)
      → Job.status (
          shown has_database has_storage access tables random_uuid now offline_sync create_proof
            kind at job j)
        ≡ new_status kind job
  shown-status kind at (some job) j = refl
  shown-status job_start at none j = refl
  shown-status job_arrive at none j = refl
  shown-status job_complete at none j = refl
  shown-status job_fail at none j = refl

  abbrev pub ShowsAs : OpType → String → JobCaches → Result ActionEnd → JobCaches → Type 0
  ShowsAs kind job_id before (ok end) after = AllShow job_id (new_status kind end.job) after
  ShowsAs kind job_id before (err t) after = after ≡ before

  on_action-ShowsAs :
      (kind : OpType) (job_id at : String) (r : Result ActionEnd) (caches : JobCaches)
      → ShowsAs kind job_id caches r (
          on_action has_database has_storage access tables random_uuid now offline_sync create_proof
            kind job_id at r caches)
  unfolding patch_job_caches
  on_action-ShowsAs kind job_id at (ok end) caches = (
    entries_show job_id (new_status kind end.job) _ (shown-status kind at end.job) caches.jobs,
    days_show job_id (new_status kind end.job) _ (shown-status kind at end.job) caches.my_jobs,
  )
  on_action-ShowsAs kind job_id at (err t) caches = refl

  -- After a tap that did not throw, every cached copy of the job has the status that the server
  -- answered, or the one that the action stands for when it was queued; after a throw the caches are
  -- as they were.
  pub act_shows :
      (kind : OpType) (job_id : String) (payload : Payload) (online : Exec (Browser W) Job)
      (caches : JobCaches) (s : Browser W)
      → ShowsAs kind job_id caches
          (act has_database has_storage access tables random_uuid now offline_sync create_proof kind
            job_id payload online caches s).0.0
          (act has_database has_storage access tables random_uuid now offline_sync create_proof kind
            job_id payload online caches s).0.1
  unfolding act
  act_shows kind job_id payload online caches s =
      on_action-ShowsAs kind job_id _
        (run_offline_aware_action has_database has_storage access tables random_uuid now
          offline_sync create_proof kind job_id payload online s).0
        caches
