-- ===== src/Web/FieldActions/Queued.antt =====
-- A rider's action with no network, and the flush of the queue after it.
use ironman.Prelude.{◌≡◌, sym, subst, inl, inr, String, Bool, Has, arith, List, refl}
use ironman.Exec.{other_error, Result, ok, err, Exec}
use ironman.Field.Types.{OpType, Payload}
use ironman.Web.Offline.{
  Tables, OfflineOp, OpInput, ProofInput, Browser, SyncAnswer, flush_offline_queue,
}
use ironman.Web.Offline.Kept.{Kept, flush_offline_queue-keeps}
use ironman.Web.FieldActions.{Job, ActionEnd, new_op, run_offline_aware_action}
use ironman.Web.FieldActions.Outcomes.{EndsAs, action_exact}

module _ {W : Type 0} (has_database has_storage : Bool) (access : W → Bool × W) (tables : Tables)
    (random_uuid now : W → String × W)
    (offline_sync : String → List OpInput → Exec (Browser W) (List SyncAnswer))
    (create_proof : ProofInput → Exec (Browser W) (Unit {0}))
    (puts : (op : OfflineOp) (ops : List OfflineOp) → Has op (tables.put_op op ops))
    (sync_keeps : (op : OfflineOp) (device : String) (inputs : List OpInput) (s : Browser W)
      → Has op s.ops
      → Has op (offline_sync device inputs s).1.ops)
    (proof_keeps : (op : OfflineOp) (input : ProofInput) (s : Browser W)
      → Has op s.ops
      → Has op (create_proof input s).1.ops) where
  -- An action that nobody answered, and whose tap did not throw, is queued; after the next flush it is
  -- still queued, or the server answered for its id in the call that that flush made of the queue,
  -- however the flush ends; if a record that is put into the database is stored.
  pub offline_action-Kept :
      (kind : OpType) (job_id : String) (payload : Payload) (online : Exec (Browser W) Job)
      (s s1 t : Browser W) (end : ActionEnd)
      → online s ≡ (err other_error, s1)
      → run_offline_aware_action has_database has_storage access tables random_uuid now offline_sync
          create_proof kind job_id payload online s
        ≡ (ok end, t)
      → (op : OfflineOp) × (op.job_id ≡ job_id)
        × (op.op_type ≡ kind)
        × Has op t.ops
        × Kept has_database has_storage access tables random_uuid now offline_sync create_proof op t
            (flush_offline_queue has_database has_storage access tables random_uuid now offline_sync
              create_proof t).1
  offline_action-Kept kind job_id payload online s s1 t end unanswered ran =
      let ends : EndsAs has_database has_storage access tables random_uuid now offline_sync
          create_proof kind job_id payload (err other_error) s1 (ok end, t) =
        subst
          (EndsAs has_database has_storage access tables random_uuid now offline_sync create_proof
            kind job_id payload (err other_error) s1)
          ran
          (subst
            (λ (x : Result Job × Browser W).
              EndsAs has_database has_storage access tables random_uuid now offline_sync
                create_proof kind job_id payload x.0 x.1
                (run_offline_aware_action has_database has_storage access tables random_uuid now
                  offline_sync create_proof kind job_id payload online s))
            unanswered
            (action_exact has_database has_storage access tables random_uuid now offline_sync
              create_proof kind job_id payload online s)) in
      elim ends [
        | inr (threw, ops) ↦ absurd (no_throw (sym threw))
        | inl (came, (id, at, queued_at, ops, proofs)) ↦
            let op = record (new_op id at kind job_id payload) { queued_at = queued_at } in
            let has : Has op t.ops = subst (Has op) (sym ops) (puts op s1.ops) in
            (
              op,
              refl,
              refl,
              has,
              flush_offline_queue-keeps has_database has_storage access tables random_uuid now
                  offline_sync create_proof op t (sync_keeps op) (proof_keeps op) has,
            )
      ]
    where
      no_throw : (err other_error) ≡ ok end → ⊥
      no_throw e = ground arith
