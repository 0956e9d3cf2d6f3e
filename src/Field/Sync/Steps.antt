-- ===== src/Field/Sync/Steps.antt =====
-- The steps of `flush` and `sendBatch`: the accesses to the store and to the network, an issue, and
-- what a batch that was answered or refused leads to. A mutation of `summary` is a change of the
-- run's state.
use ironman.Prelude.{
  ℕ, Bool, true, false, ◌+◌, String, Option, none, some, List, [], ◌∷◌, ◌++◌, map, find, ◌==◌,
}
use ironman.Exec.{Thrown, as_value, Result, ok, err, Exec, pure, modify, ◌>>=◌, ◌>>◌}
use ironman.Field.Types.{
  OpStatus, JobStatus, JobCard, QueuedOp, SyncIssue, applied, conflict, rejected, OfflineOpResult,
}
use ironman.Field.Rules.{next_status}
use ironman.Field.Store.{
  Phone, JobsCache, load_jobs, patch_job, remove_ops, add_issues, known_device, set_device,
}
use ironman.Field.Sync.{
  Env, Run, SyncSummary, Sent, sent, catch_up, jobs_slot, ops_slot, issues_slot, Slot, seen,
  slot_seen, looked, look_works, read, sync_op, what_label, message_or, ref_of, result_for, or_text,
}

abbrev pub count_applied : SyncSummary → SyncSummary
count_applied s = record s { applied_ops = s.applied_ops + 1 }

abbrev pub push_issues : List SyncIssue → SyncSummary → SyncSummary
push_issues found s = record s { issues = s.issues ++ found }

abbrev pub count_upload : SyncSummary → SyncSummary
count_upload s = record s { uploaded_proofs = s.uploaded_proofs + 1 }

abbrev pub mark_refreshed : SyncSummary → SyncSummary
mark_refreshed s = record s { jobs_refreshed = true }

abbrev pub mark_offline : SyncSummary → SyncSummary
mark_offline s = record s { offline = true }

abbrev pub set_remaining : ℕ → ℕ → SyncSummary → SyncSummary
set_remaining ops proofs s = record s { remaining_ops = ops; remaining_proofs = proofs }

-- `if (!b) m`.
abbrev pub unless : {S : Type 0} → Bool → Exec S (Unit {0}) → Exec S (Unit {0})
unless true m = pure tt
unless false m = m

module _ {W : Type 0} where
  unfoldable pub summarise : (SyncSummary → SyncSummary) → Exec (Run W) (Unit {0})
  summarise f = modify λ r. record r { summary = f r.summary }

abbrev pub written : Result (Unit {0}) → (Phone → Phone) → Phone → Phone
written (ok _) f p = f p
written (err _) f p = p

module _ {W : Type 0} (env : Env W) where
  -- A write that reads nothing; one that storage refuses throws and changes nothing.
  unfoldable pub write : (Phone → Phone) → Exec (Run W) (Unit {0})
  write f r =
      let r' = catch_up r in
      let (outcome, w) = env.set_item r'.world in
      (outcome, record r' { world = w; phone = written outcome f r'.phone })

  -- `update`: the key is read, changed and written back in one atomic step.
  unfoldable pub change_slot : Slot → (Phone → Phone) → Exec (Run W) (Unit {0})
  change_slot slot f r =
      let fine = look_works env r in
      let r' = looked env r in
      let (outcome, w) = env.set_item r'.world in
      (
        outcome,
        record r' { world = w; phone = written outcome (λ p. f (slot_seen fine slot p)) r'.phone },
      )

  -- A call that goes to the world and touches nothing else.
  abbrev pub ask : {A : Type 0} → (W → Result A × W) → Exec (Run W) A
  ask call r = let (outcome, w) = call r.world in (outcome, record r { world = w })

  abbrev pub draw : {A : Type 0} → (W → A × W) → Exec (Run W) A
  draw call r = let (a, w) = call r.world in (ok a, record r { world = w })

  -- `deps.post("/fulfilment/sync", …)`.
  unfoldable pub post_batch : String → List QueuedOp → Exec (Run W) (List OfflineOpResult)
  post_batch device_id batch r =
      let (outcome, w) =
        env.post "/fulfilment/sync" (record { device_id = device_id; ops = map sync_op batch })
          r.world in
      (
        outcome,
        record r { world = w; wire = r.wire ++ record { batch = batch; outcome = outcome } ∷ [] },
      )

  -- `store.deviceId()`: one atomic step, with a new id only where none is stored.
  unfoldable pub device_step : Option String → Exec (Run W) String
  device_step (some id) r = (ok id, r)
  device_step none r =
      let (id, w) = env.new_id r.world in
      let (outcome, w') = env.set_item w in
      (
        as_value id outcome,
        record r { world = w'; phone = written outcome (set_device id) r.phone },
      )

  unfoldable pub device_id : Exec (Run W) String
  unfolding device_step
  device_id r =
      device_step (known_device (seen (look_works env r) (looked env r).phone)) (looked env r)

  -- `issue(op, what, message)`.
  unfoldable pub make_issue : JobsCache → String → String → String → Exec (Run W) SyncIssue
  make_issue cache job_id what message = do
    id ← draw env.new_id
    at ← draw env.now
    pure (record {
      id = id;
      job_id = job_id;
      order_ref = ref_of cache job_id;
      what = what;
      message = message;
      at = at;
    })

  unfoldable pub report : JobsCache → String → String → String → Exec (Run W) (Unit {0})
  unfolding make_issue summarise
  report cache job_id what message = do
    found ← make_issue cache job_id what message
    summarise (push_issues (found ∷ []))
    change_slot issues_slot (add_issues (found ∷ []))

  -- `current && nextStatus(current.status, op.op_type)`, then `patchJob`.
  unfoldable pub patch_to : QueuedOp → Option JobStatus → Exec (Run W) (Unit {0})
  patch_to op none = pure tt
  patch_to op (some moved) = change_slot jobs_slot (patch_job op.job_id moved)

  unfoldable pub patch_moved : QueuedOp → Option JobCard → Exec (Run W) (Unit {0})
  unfolding patch_to
  patch_moved op none = pure tt
  patch_moved op (some current) = patch_to op (next_status current.status op.op_type)

  unfoldable pub note_applied : QueuedOp → Exec (Run W) (Unit {0})
  unfolding patch_moved
  note_applied op = do
    summarise count_applied
    cache ← read env load_jobs
    patch_moved op (find (λ j. j.id == op.job_id) cache.jobs)

  unfoldable pub refuse_op : JobsCache → QueuedOp → String → Exec (Run W) (List SyncIssue)
  unfolding make_issue
  refuse_op cache op detail = do
    found ←
        make_issue cache op.job_id (what_label op.op_type)
          (or_text detail "The server did not accept this action.")
    pure (found ∷ [])

  -- The body of `for (const op of batch)` for an answered action: the issue that it leaves, if any.
  unfoldable pub settle_as :
      JobsCache → QueuedOp → String → OpStatus → Exec (Run W) (List SyncIssue)
  unfolding note_applied refuse_op
  settle_as cache op detail applied = do note_applied op; pure []
  settle_as cache op detail conflict = refuse_op cache op detail
  settle_as cache op detail rejected = refuse_op cache op detail

  unfoldable pub settle_found :
      JobsCache
      → QueuedOp
      → OfflineOpResult
      → Exec (Run W) (List String × List SyncIssue)
      → Exec (Run W) (List String × List SyncIssue)
  unfolding settle_as
  settle_found cache op result rest = do
    found ← settle_as cache op result.result_detail result.status
    more ← rest
    pure (op.client_op_id ∷ more.0, found ++ more.1)

  -- An action with no answer is left queued.
  unfoldable pub settle_or_leave :
      JobsCache
      → QueuedOp
      → Option OfflineOpResult
      → Exec (Run W) (List String × List SyncIssue)
      → Exec (Run W) (List String × List SyncIssue)
  unfolding settle_found
  settle_or_leave cache op none rest = rest
  settle_or_leave cache op (some result) rest = settle_found cache op result rest

  -- `for (const op of batch)`: the ids to remove and the issues found.
  unfoldable pub settle_all :
      JobsCache → List OfflineOpResult → List QueuedOp → Exec (Run W) (List String × List SyncIssue)
  unfolding settle_or_leave
  settle_all cache results [] = pure ([], [])
  settle_all cache results (op ∷ batch) =
      settle_or_leave cache op (result_for results op.client_op_id) (settle_all cache results batch)

  unfoldable pub save_found : List SyncIssue → Exec (Run W) (Unit {0})
  unfolding summarise
  save_found [] = pure tt
  save_found (i ∷ found) = do
    change_slot issues_slot (add_issues (i ∷ found))
    summarise (push_issues (i ∷ found))

  -- Issues are written before the actions leave the queue.
  unfoldable pub settle_batch : JobsCache → List QueuedOp → List OfflineOpResult → Exec (Run W) Sent
  settle_batch cache batch results = do
    done ← settle_all cache results batch
    save_found done.1
    change_slot ops_slot (remove_ops done.0)
    pure sent

  -- A batch of one that is refused for good: it becomes an issue and leaves the queue.
  unfoldable pub refuse_single : JobsCache → QueuedOp → Thrown → Exec (Run W) Sent
  refuse_single cache op error = do
    report cache op.job_id (what_label op.op_type) (message_or "" error)
    change_slot ops_slot (remove_ops (op.client_op_id ∷ []))
    pure sent
