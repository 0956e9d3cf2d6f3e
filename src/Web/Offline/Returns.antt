-- ===== src/Web/Offline/Returns.antt =====
-- When a flush of the browser's queue returns and when it throws.
use ironman.Prelude.{◌≡◌, refl, Bool, true, String, List, [], ◌∷◌, Bool-cases, map, inl, inr}
use ironman.Exec.{Result, ok, err, Exec, ◌>>=◌}
use ironman.Web.Offline.{
  Tables, OfflineOp, OfflineProof, OpInput, ProofInput, Browser, FlushResult, SyncAnswer,
  transaction, list_ops, list_proofs, after_sync, flush_ops, flush_proof, flush_proofs,
  flush_offline_queue, get_device_id, to_op_input,
}

abbrev pub Returns : {A : Type 0} → Result A → Type 0
Returns {A} r = (a : A) × (r ≡ ok a)

module _ {S A B : Type 0} where
  returned :
      (f : A → Exec S B) (m : Exec S A) (s : S) (a : A)
      → (m s).0 ≡ ok a
      → ((a : A) (t : S) → Returns (f a t).0)
      → Returns ((m >>= f) s).0
  unfolding ◌>>=◌
  returned f m s a e k = rw e (k a (m s).1)

module _ {W : Type 0} (has_database has_storage : Bool) (access : W → Bool × W) (tables : Tables)
    (random_uuid now : W → String × W)
    (offline_sync : String → List OpInput → Exec (Browser W) (List SyncAnswer))
    (create_proof : ProofInput → Exec (Browser W) (Unit {0})) where
  flush_ops-Returns :
      (ops : List OfflineOp) (s : Browser W)
      → Returns
          (flush_ops has_database has_storage access tables random_uuid now offline_sync
            create_proof ops s).0
  unfolding flush_ops after_sync
  flush_ops-Returns [] s = (_, refl)
  flush_ops-Returns (o ∷ ops) s =
      let (device, s0) =
        get_device_id has_database has_storage access tables random_uuid now offline_sync
          create_proof s in
      answered (offline_sync device (map to_op_input (o ∷ ops)) s0).0
        (offline_sync device (map to_op_input (o ∷ ops)) s0).1
    where
      answered :
          (answer : Result (List SyncAnswer)) (s1 : Browser W)
          → Returns
              (after_sync has_database has_storage access tables random_uuid now offline_sync
                create_proof
                (o ∷ ops)
                answer
                s1).0
      answered (ok results) s1 = (_, refl)
      answered (err t) s1 = (_, refl)

  flush_proofs-Returns :
      (t : FlushResult) (proofs : List OfflineProof) (s : Browser W)
      → Returns
          (flush_proofs has_database has_storage access tables random_uuid now offline_sync
            create_proof t proofs s).0
  unfolding flush_proofs
  flush_proofs-Returns t [] s = (t, refl)
  flush_proofs-Returns t (p ∷ proofs) s =
      let (t', s') =
        flush_proof has_database has_storage access tables random_uuid now offline_sync create_proof
          t p s in
      flush_proofs-Returns t' proofs s'

  module _ (works : (w : W) → (access w).0 ≡ true) where
    list_ops-Returns :
        (s : Browser W)
        → Returns
            (list_ops has_database has_storage access tables random_uuid now offline_sync
              create_proof s).0
    unfolding list_ops transaction
    list_ops-Returns s = elim (Bool-cases has_database) [
      | inl e ↦ rw e (rw (works s.world) (s.ops, refl))
      | inr e ↦ rw e ([], refl)
    ]

    list_proofs-Returns :
        (s : Browser W)
        → Returns
            (list_proofs has_database has_storage access tables random_uuid now offline_sync
              create_proof s).0
    unfolding list_proofs transaction
    list_proofs-Returns s = elim (Bool-cases has_database) [
      | inl e ↦ rw e (rw (works s.world) (s.proofs, refl))
      | inr e ↦ rw e ([], refl)
    ]

    -- If every access to the database succeeds, a flush returns, whatever the network does.
    pub flush_offline_queue-Returns :
        (s : Browser W)
        → Returns
            (flush_offline_queue has_database has_storage access tables random_uuid now offline_sync
              create_proof s).0
    unfolding flush_offline_queue
    flush_offline_queue-Returns s =
        let (ops, read) = list_ops-Returns s in
        returned _
          (list_ops has_database has_storage access tables random_uuid now offline_sync
            create_proof)
          s ops read
          (λ ops s1.
            let (t, done) = flush_ops-Returns ops s1 in
            returned _
              (flush_ops has_database has_storage access tables random_uuid now offline_sync
                create_proof ops)
              s1 t done
              (λ t s2.
                let (proofs, read2) = list_proofs-Returns s2 in
                returned _
                  (list_proofs has_database has_storage access tables random_uuid now offline_sync
                    create_proof)
                  s2 proofs read2 (λ proofs s3. flush_proofs-Returns t proofs s3)))
