-- ===== src/Field/Sync/Waiting.antt =====
-- What the steps of a run leave waiting, where storage works and the rider does nothing meanwhile.
use ironman.Prelude.{
  String, ◌≡◌, ◌≢◌, refl, true, not, Option, none, some, List, [], ◌∷◌, Has, filter-Has, includes,
  Has-includes,
}
use ironman.Exec.{Result, ok, err, Ends, Ends-bind, ◌>>=◌}
use ironman.Field.Types.{
  JobStatus, JobCard, OpStatus, applied, conflict, rejected, QueuedOp, SyncIssue, OfflineOpResult,
}
use ironman.Field.Rules.{next_status}
use ironman.Field.Store.{
  Phone, JobsCache, load_jobs, load_ops, remove_proof, save_jobs, patch_job, add_issues, remove_ops,
  known_device, set_device,
}
use ironman.Field.Sync.{
  Env, Run, SyncOp, SyncBody, SyncSummary, Reads, Slot, jobs_slot, ops_slot, proofs_slot,
  issues_slot, catch_up, read, is_final_refusal, result_for,
}
use ironman.Field.Sync.Steps.{
  summarise, write, change_slot, device_id, device_step, make_issue, report, patch_to, patch_moved,
  note_applied, refuse_op, settle_as, count_applied, push_issues,
}

-- An answer for each action of the batch, or a refusal that is final.
abbrev pub Replies : SyncBody → Result (List OfflineOpResult) → Type 0
Replies body (ok results) = (o : SyncOp) → Has o body.ops → result_for results o.client_op_id ≢ none
Replies body (err t) = is_final_refusal t ≡ true

-- Storage answers every read and takes every write, and the server replies to every batch.
pub record IsReachable {W : Type 0} (env : Env W) : Type 0 where
  pub looks : Reads env
  pub stores : (w : W) → (env.set_item w).0 ≡ ok tt
  pub replies : (path : String) (body : SyncBody) (w : W) → Replies body (env.post path body w).0

-- The rider does nothing more, and what waits has the property.
module _ {W : Type 0} (P : QueuedOp → Type 0) where
  pub record Waiting (r : Run W) : Type 0 where
    pub quiet : r.arrivals ≡ []
    pub only : (o : QueuedOp) → Has o (load_ops r.phone) → P o

-- Actions whose ids are not among these.
abbrev pub Besides : List String → (QueuedOp → Type 0) → QueuedOp → Type 0
Besides ids P o = P o × ¬ Has o.client_op_id ids

module _ {W : Type 0} where
  pub quiet_catch_up : (r : Run W) → r.arrivals ≡ [] → catch_up r ≡ r
  unfolding catch_up
  quiet_catch_up r e = rw e

  pub summarise-Waiting :
      (P : QueuedOp → Type 0) (E : Run W → Type 0) (f : SyncSummary → SyncSummary) (r : Run W)
      → Waiting P r
      → Ends (λ _. Waiting P) E (summarise f r)
  unfolding summarise
  summarise-Waiting P E f r h = record { quiet = h.quiet; only = h.only }

module _ {W : Type 0} (env : Env W) (reach : IsReachable env) where
  pub read-Waiting :
      {A : Type 0} (P : QueuedOp → Type 0) (E : Run W → Type 0) (f : Phone → A) (r : Run W)
      → Waiting P r
      → Ends (λ a s. Waiting P s × (a ≡ f s.phone)) E (read env f r)
  unfolding read
  read-Waiting P E f r h =
      rw (reach.looks (catch_up r).world, quiet_catch_up r h.quiet)
        (record { quiet = h.quiet; only = h.only }, refl)

  pub change_slot-Waiting :
      (Q : QueuedOp → Type 0) (E : Run W → Type 0) (slot : Slot) (f : Phone → Phone) (r : Run W)
      → r.arrivals ≡ []
      → ((o : QueuedOp) → Has o (load_ops (f r.phone)) → Q o)
      → Ends (λ _. Waiting Q) E (change_slot env slot f r)
  unfolding change_slot
  change_slot-Waiting Q E slot f r quiet step =
      rw
        (
          reach.looks (catch_up r).world,
          quiet_catch_up r quiet,
          reach.stores (env.get_item r.world).1,
        )
        (record { quiet = quiet; only = step })

  pub write-Waiting :
      (Q : QueuedOp → Type 0) (E : Run W → Type 0) (f : Phone → Phone) (r : Run W)
      → r.arrivals ≡ []
      → ((o : QueuedOp) → Has o (load_ops (f r.phone)) → Q o)
      → Ends (λ _. Waiting Q) E (write env f r)
  unfolding write
  write-Waiting Q E f r quiet step =
      rw (quiet_catch_up r quiet, reach.stores r.world) (record { quiet = quiet; only = step })

  module _ (P : QueuedOp → Type 0) (E : Run W → Type 0) where
    abbrev pub Fine : {A : Type 0} → Result A × Run W → Type 0
    Fine = Ends (λ _. Waiting P) E

    pub remove-Waiting :
        (ids : List String) (r : Run W)
        → Waiting P r
        → Ends (λ _. Waiting (Besides ids P)) E (change_slot env ops_slot (remove_ops ids) r)
    unfolding remove_ops load_ops
    remove-Waiting ids r h =
        change_slot-Waiting (Besides ids P) E ops_slot (remove_ops ids) r h.quiet λ o m.
          let (was, kept) =
            filter-Has (λ x. not (includes ids x.client_op_id)) o (load_ops r.phone) m in
          (h.only o was, λ gone. cc (Has-includes ids o.client_op_id gone, kept))

    pub add_issues-Waiting :
        (found : List SyncIssue) (r : Run W)
        → Waiting P r
        → Fine (change_slot env issues_slot (add_issues found) r)
    unfolding add_issues load_ops
    add_issues-Waiting found r h =
        change_slot-Waiting P E issues_slot (add_issues found) r h.quiet h.only

    pub patch-Waiting :
        (id : String) (status : JobStatus) (r : Run W)
        → Waiting P r
        → Fine (change_slot env jobs_slot (patch_job id status) r)
    unfolding patch_job load_ops
    patch-Waiting id status r h =
        change_slot-Waiting P E jobs_slot (patch_job id status) r h.quiet h.only

    pub save_jobs-Waiting :
        (jobs : List JobCard) (at : String) (r : Run W)
        → Waiting P r
        → Fine (write env (save_jobs jobs at) r)
    unfolding save_jobs load_ops
    save_jobs-Waiting jobs at r h = write-Waiting P E (save_jobs jobs at) r h.quiet h.only

    pub remove_proof-Waiting :
        (id : String) (r : Run W)
        → Waiting P r
        → Fine (change_slot env proofs_slot (remove_proof id) r)
    unfolding remove_proof load_ops
    remove_proof-Waiting id r h =
        change_slot-Waiting P E proofs_slot (remove_proof id) r h.quiet h.only

    pub device_id-Waiting : (r : Run W) → Waiting P r → Fine (device_id env r)
    unfolding device_id set_device load_ops
    device_id-Waiting r h =
        rw (reach.looks (catch_up r).world, quiet_catch_up r h.quiet)
          (step (record r { world = (env.get_item r.world).1 })
            (record { quiet = h.quiet; only = h.only }) (known_device r.phone))
      where
        step : (r : Run W) → Waiting P r → (known : Option String) → Fine (device_step env known r)
        step r h (some id) = h
        step r h none =
            rw (reach.stores (env.new_id r.world).1, device_step)
              (record { quiet = h.quiet; only = h.only })

    pub make_issue-Waiting :
        (cache : JobsCache) (job_id what message : String) (r : Run W)
        → Waiting P r
        → Fine (make_issue env cache job_id what message r)
    unfolding make_issue ◌>>=◌
    make_issue-Waiting cache job_id what message r h = record { quiet = h.quiet; only = h.only }

    pub report-Waiting :
        (cache : JobsCache) (job_id what message : String) (r : Run W)
        → Waiting P r
        → Fine (report env cache job_id what message r)
    unfolding report
    report-Waiting cache job_id what message r h =
        Ends-bind (λ _. Waiting P) _ E _ _ r (make_issue-Waiting cache job_id what message r h)
          λ i s hs.
            Ends-bind (λ _. Waiting P) _ E _ _ s (summarise-Waiting P E (push_issues (i ∷ [])) s hs)
              λ _ t ht. add_issues-Waiting (i ∷ []) t ht

    pub patch_to-Waiting :
        (op : QueuedOp) (next : Option JobStatus) (r : Run W)
        → Waiting P r
        → Fine (patch_to env op next r)
    unfolding patch_to
    patch_to-Waiting op none r h = h
    patch_to-Waiting op (some moved) r h = patch-Waiting op.job_id moved r h

    pub patch_moved-Waiting :
        (op : QueuedOp) (current : Option JobCard) (r : Run W)
        → Waiting P r
        → Fine (patch_moved env op current r)
    unfolding patch_moved
    patch_moved-Waiting op none r h = h
    patch_moved-Waiting op (some current) r h =
        patch_to-Waiting op (next_status current.status op.op_type) r h

    pub settle_as-Waiting :
        (cache : JobsCache) (op : QueuedOp) (detail : String) (status : OpStatus) (r : Run W)
        → Waiting P r
        → Fine (settle_as env cache op detail status r)
    unfolding settle_as note_applied refuse_op
    settle_as-Waiting cache op detail applied r h =
        Ends-bind (λ _. Waiting P) _ E _ _ r
          (Ends-bind (λ _. Waiting P) _ E _ _ r (summarise-Waiting P E count_applied r h)
            λ _ s hs.
              Ends-bind (λ a t. Waiting P t × (a ≡ load_jobs t.phone)) _ E _ _ s
                (read-Waiting P E load_jobs s hs) λ jobs t ht. patch_moved-Waiting op _ t ht.0)
          λ _ s hs. hs
    settle_as-Waiting cache op detail conflict r h =
        Ends-bind (λ _. Waiting P) _ E _ _ r (make_issue-Waiting cache _ _ _ r h) λ _ s hs. hs
    settle_as-Waiting cache op detail rejected r h =
        Ends-bind (λ _. Waiting P) _ E _ _ r (make_issue-Waiting cache _ _ _ r h) λ _ s hs. hs
