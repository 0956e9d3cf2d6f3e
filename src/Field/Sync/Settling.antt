-- ===== src/Field/Sync/Settling.antt =====
-- How a batch that the server answered, or refused, is settled.
use ironman.Prelude.{
  subst, String, ◌≡◌, ◌≢◌, refl, sym, inl, inr, Option, none, some, List, [], ◌∷◌, ◌++◌, find, Has,
  Has-append_left, Has-append_right, ◌==◌,
}
use ironman.Exec.{Thrown, as_value, Result, ok, err, Exec, ◌>>=◌}
use ironman.Field.Types.{
  JobStatus, JobCard, QueuedOp, SyncIssue, OpStatus, applied, conflict, rejected, OfflineOpResult,
}
use ironman.Field.Rules.{next_status}
use ironman.Field.Store.{
  JobsCache, load_jobs, load_issues, add_issues, remove_ops, known_device, set_device,
}
use ironman.Field.Sync.{
  Env, Run, Reads, jobs_slot, ops_slot, issues_slot, seen, look_works, looked, result_for,
  what_label, message_or,
}
use ironman.Field.Sync.Steps.{
  count_applied, written, change_slot, device_step, device_id, make_issue, report, patch_moved,
  note_applied, refuse_op, patch_to, settle_as, settle_or_leave, settle_all, save_found,
  settle_batch, refuse_single, push_issues,
}
use ironman.Field.Sync.Kept.{
  OnWire, answered, RefusedOnWire, not_applied, reported, Decided, Decided-mono, Advances,
  Advances-refl, Leads, Leads-from, Leads-bind, Any, Advancing, OnWire-mono, RefusedOnWire-mono,
}
use ironman.Field.Sync.Steady.{
  looked-Advances, read-Advancing, summarise-Advancing, change, change-Advances, world-Advances,
  change_slot-Leads, change_slot-Advancing, result_for-Has, patch_job-IsMild, add_issues-IsMild,
  set_device-IsMild, remove-Advances, added-Has,
}

module _ {W : Type 0} (env : Env W) (reads : Reads env) where
  device_step-Leads : (known : Option String) (r : Run W) → Leads r Any (device_step env known r)
  unfolding device_step
  device_step-Leads (some id) r = (Advances-refl r, tt)
  device_step-Leads none r = go (env.new_id r.world).0 (env.set_item (env.new_id r.world).1)
    where
      go :
          (id : String) (x : Result (Unit {0}) × W)
          → Leads r Any (
            as_value id x.0,
            record r { world = x.1; phone = written x.0 (set_device id) r.phone },
          )
      go id (ok u, w) = (change-Advances (set_device id) w r (set_device-IsMild id), tt)
      go id (err t, w) = world-Advances w r

  pub device_id-Advancing : Advancing (device_id env)
  unfolding device_id
  device_id-Advancing r = Leads-from r (looked env r) Any _ (looked-Advances env r) (
      device_step-Leads (known_device (seen (look_works env r) (looked env r).phone))
        (looked env r))

  pub make_issue-Leads :
      (cache : JobsCache) (job_id what message : String) (r : Run W)
      → Leads r
          (λ i _. (i.job_id ≡ job_id) × (i.what ≡ what))
          (make_issue env cache job_id what message r)
  unfolding make_issue ◌>>=◌
  make_issue-Leads cache job_id what message r = (world-Advances _ r, (refl, refl))

  -- The issue is written before `report` returns.
  pub report-Leads :
      (cache : JobsCache) (job_id what message : String) (r : Run W)
      → Leads r
          (λ _ s.
            (i : SyncIssue) × Has i (load_issues s.phone) × (i.job_id ≡ job_id) × (i.what ≡ what))
          (report env cache job_id what message r)
  unfolding report
  report-Leads cache job_id what message r =
      Leads-bind _ _ _ _ r (make_issue-Leads cache job_id what message r) λ i s _ q.
        Leads-bind Any _ _ _ s (summarise-Advancing (push_issues (i ∷ [])) s) λ _ t _ _.
          change_slot-Leads env reads _ issues_slot (add_issues (i ∷ [])) t λ w. (
            change-Advances _ w (looked env t) (add_issues-IsMild (i ∷ [])),
            (i, stored i w (looked env t), q.0, q.1),
          )
    where
      stored :
          (i : SyncIssue) (w : W) (t : Run W)
          → Has i (load_issues (change (add_issues (i ∷ [])) w t).phone)
      stored i w t = added-Has i (i ∷ []) t.phone (inl refl)

  patch_moved-Advancing :
      (op : QueuedOp) (current : Option JobCard) → Advancing (patch_moved env op current)
  unfolding patch_moved
  patch_moved-Advancing op none r = (Advances-refl r, tt)
  patch_moved-Advancing op (some current) r = go (next_status current.status op.op_type)
    where
      go : (next : Option JobStatus) → Leads r Any (patch_to env op next r)
      go none = (Advances-refl r, tt)
      go (some moved) =
          change_slot-Advancing env reads jobs_slot _ (patch_job-IsMild op.job_id moved) r

  note_applied-Advancing : (op : QueuedOp) → Advancing (note_applied env op)
  unfolding note_applied
  note_applied-Advancing op r =
      Leads-bind Any _ _ _ r (summarise-Advancing count_applied r) λ _ s _ _.
        Leads-bind Any _ _ _ s (read-Advancing env load_jobs s)
          λ cache t _ _. patch_moved-Advancing op (find (λ j. j.id == op.job_id) cache.jobs) t

  refuse_op-Leads :
      (cache : JobsCache) (op : QueuedOp) (x : OfflineOpResult) (r : Run W)
      → OnWire x r.wire
      → x.client_op_id ≡ op.client_op_id
      → x.status ≢ applied
      → Leads r
          (λ found s. Decided op.client_op_id s.wire found)
          (refuse_op env cache op x.result_detail r)
  unfolding refuse_op
  refuse_op-Leads cache op x r wired same refused =
      Leads-bind _ _ _ _ r (make_issue-Leads cache op.job_id (what_label op.op_type) _ r)
        λ i s adv q. (
          Advances-refl s,
          inr (
            not_applied x (OnWire-mono adv.wire_grows wired) same refused,
            reported op i refl (inl refl) q.0 q.1,
          ),
        )

  settle_op-Leads :
      (cache : JobsCache) (op : QueuedOp) (x : OfflineOpResult) (status : OpStatus) (r : Run W)
      → OnWire x r.wire
      → x.client_op_id ≡ op.client_op_id
      → x.status ≡ status
      → Leads r
          (λ found s. Decided op.client_op_id s.wire found)
          (settle_as env cache op x.result_detail status r)
  unfolding settle_as
  settle_op-Leads cache op x applied r wired same is =
      Leads-bind Any _ _ _ r (note_applied-Advancing op r)
        λ _ s adv _. (Advances-refl s, inl (answered x (OnWire-mono adv.wire_grows wired) same is))
  settle_op-Leads cache op x conflict r wired same is =
      refuse_op-Leads cache op x r wired same (λ e. cc (e, is))
  settle_op-Leads cache op x rejected r wired same is =
      refuse_op-Leads cache op x r wired same (λ e. cc (e, is))

  abbrev AllDecided : List String × List SyncIssue → Run W → Type 0
  AllDecided d s = (id : String) → Has id d.0 → Decided id s.wire d.1

  settle_or_leave-Leads :
      (cache : JobsCache) (op : QueuedOp) (o : Option OfflineOpResult)
      (rest : Exec (Run W) (List String × List SyncIssue)) (r : Run W)
      → ((x : OfflineOpResult) → o ≡ some x → OnWire x r.wire × (x.client_op_id ≡ op.client_op_id))
      → ((s : Run W) → Advances r s → Leads s AllDecided (rest s))
      → Leads r AllDecided (settle_or_leave env cache op o rest r)
  unfolding settle_or_leave
  settle_or_leave-Leads cache op none rest r h k = k r (Advances-refl r)
  settle_or_leave-Leads cache op (some x) rest r h k =
      Leads-bind (λ found s. Decided op.client_op_id s.wire found) AllDecided
        (settle_as env cache op x.result_detail x.status) _ r
        (settle_op-Leads cache op x x.status r (h x refl).0 (h x refl).1 refl)
        λ found s adv dec. Leads-bind AllDecided AllDecided rest _ s (k s adv) λ more t adv' decs. (
          Advances-refl t,
          λ id. elim [
            | inl e ↦
                subst (λ z. Decided z t.wire (found ++ more.1)) (sym e)
                  (Decided-mono adv'.wire_grows (λ i m. Has-append_left i found more.1 m) dec)
            | inr m ↦ Decided-mono (λ e n. n) (λ i n. Has-append_right i found more.1 n) (decs id m)
          ],
        )

  settle_all-Leads :
      (cache : JobsCache) (results : List OfflineOpResult) (batch : List QueuedOp) (r : Run W)
      → ((x : OfflineOpResult) → Has x results → OnWire x r.wire)
      → Leads r AllDecided (settle_all env cache results batch r)
  unfolding settle_all
  settle_all-Leads cache results [] r wired = (Advances-refl r, λ id h. absurd h)
  settle_all-Leads cache results (op ∷ batch) r wired =
      settle_or_leave-Leads cache op (result_for results op.client_op_id)
        (settle_all env cache results batch) r
        (λ x e. let (m, same) = result_for-Has results op.client_op_id x e in (wired x m, same))
        (λ s adv.
          settle_all-Leads cache results batch s (λ x h. OnWire-mono adv.wire_grows (wired x h)))

  save_found-Leads :
      (found : List SyncIssue) (r : Run W)
      → Leads r
          (λ _ s. (i : SyncIssue) → Has i found → Has i (load_issues s.phone))
          (save_found env found r)
  unfolding save_found
  save_found-Leads [] r = (Advances-refl r, λ i h. absurd h)
  save_found-Leads (i ∷ found) r =
      Leads-bind (λ _ s. (j : SyncIssue) → Has j (i ∷ found) → Has j (load_issues s.phone)) _ _ _ r
        (change_slot-Leads env reads _ issues_slot (add_issues (i ∷ found)) r λ w. (
          change-Advances _ w (looked env r) (add_issues-IsMild (i ∷ found)),
          λ j h. added-Has j (i ∷ found) (looked env r).phone h,
        ))
        λ _ s _ h.
          let (adv, _) = summarise-Advancing (push_issues (i ∷ found)) s in
          (adv, λ j m. adv.issues_grow j (h j m))

  -- Removing actions that are all decided, with their issues stored.
  remove-Leads :
      (ids : List String) (found : List SyncIssue) (r : Run W)
      → ((id : String) → Has id ids → Decided id r.wire found)
      → ((i : SyncIssue) → Has i found → Has i (load_issues r.phone))
      → Leads r Any (change_slot env ops_slot (remove_ops ids) r)
  remove-Leads ids found r decided stored =
      change_slot-Leads env reads (λ _. Unit {0}) ops_slot (remove_ops ids) r
        λ w.
          let adv = looked-Advances env r in
          (
            remove-Advances ids w (looked env r) (λ id h.
                Decided-mono adv.wire_grows (λ i m. adv.issues_grow i (stored i m)) (decided id h)),
            tt,
          )

  pub settle_batch-Leads :
      (cache : JobsCache) (batch : List QueuedOp) (results : List OfflineOpResult) (r : Run W)
      → ((x : OfflineOpResult) → Has x results → OnWire x r.wire)
      → Leads r Any (settle_batch env cache batch results r)
  unfolding settle_batch
  settle_batch-Leads cache batch results r wired =
      Leads-bind AllDecided Any _ _ r (settle_all-Leads cache results batch r wired)
        λ d s _ decided.
          Leads-bind (λ _ t. (i : SyncIssue) → Has i d.1 → Has i (load_issues t.phone)) Any _ _ s
            (save_found-Leads d.1 s)
            λ _ t adv stored.
              Leads-bind Any Any _ _ t
                (remove-Leads d.0 d.1 t
                  (λ id h. Decided-mono adv.wire_grows (λ i m. m) (decided id h)) stored)
                λ _ u _ _. (Advances-refl u, tt)

  pub refuse_single-Leads :
      (cache : JobsCache) (op : QueuedOp) (error : Thrown) (r : Run W)
      → RefusedOnWire op.client_op_id r.wire
      → Leads r Any (refuse_single env cache op error r)
  unfolding refuse_single
  refuse_single-Leads cache op error r refused =
      Leads-bind _ Any _ _ r
        (report-Leads cache op.job_id (what_label op.op_type) (message_or "" error) r)
        λ _ s adv q.
          Leads-bind Any Any _ _ s
            (remove-Leads (op.client_op_id ∷ []) (q.0 ∷ []) s
              (λ id. elim [
                | inl e ↦
                    subst (λ z. Decided z s.wire (q.0 ∷ [])) (sym e)
                      (inr (
                        RefusedOnWire-mono adv.wire_grows refused,
                        reported op q.0 refl (inl refl) q.2 q.3,
                      ))
                | inr h ↦ absurd h
              ])
              (λ i. elim [
                | inl e ↦ subst (λ z. Has z (load_issues s.phone)) (sym e) q.1
                | inr h ↦ absurd h
              ]))
            λ _ u _ _. (Advances-refl u, tt)
