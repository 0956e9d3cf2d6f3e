-- ===== src/Web/Offline/Kept.antt =====
-- What a flush leaves in the browser's queue (apps/web/lib/offline/sync.ts).
use ironman.Prelude.{
  ◌≡◌, ◌≢◌, refl, ◌⊎◌, inl, inr, String, Bool, not, Option, none, some, List, [], ◌∷◌, map, Has,
  Has-filter, Bool-cases, ◌==◌, includes, includes-Has,
}
use ironman.Exec.{Result, ok, err, Exec, bind-state, bind-state_eq}
use ironman.Web.Offline.{
  Tables, OfflineOp, OfflineProof, OpInput, ProofInput, Browser, FlushResult, SyncAnswer, tally_ops,
  to_op_input, without_ops, transaction, list_ops, list_proofs, remove_queued, remove_sent,
  after_sync, flush_ops, get_device_id, known_device, to_proof_input, without_proofs, flush_proof,
  flush_proofs, flush_offline_queue, no_result,
}
use ironman.Web.Offline.Tally.{Answered, tally_ops-ids}

module _ {W : Type 0} (has_database has_storage : Bool) (access : W → Bool × W) (tables : Tables)
    (random_uuid now : W → String × W)
    (offline_sync : String → List OpInput → Exec (Browser W) (List SyncAnswer))
    (create_proof : ProofInput → Exec (Browser W) (Unit {0})) where
  -- What the server says to the call that a flush makes of what it listed.
  abbrev pub sync_answer : List OfflineOp → Browser W → Result (List SyncAnswer)
  sync_answer ops listed =
      let (device, s0) =
        get_device_id has_database has_storage access tables random_uuid now offline_sync
          create_proof listed in
      (offline_sync device (map to_op_input ops) s0).0

module _ {W : Type 0} (has_database has_storage : Bool) (access : W → Bool × W) (tables : Tables)
    (random_uuid now : W → String × W)
    (offline_sync : String → List OpInput → Exec (Browser W) (List SyncAnswer))
    (create_proof : ProofInput → Exec (Browser W) (Unit {0})) (op : OfflineOp) (X : Type 0) where
  abbrev Remains : Browser W → Type 0
  Remains s = Has op s.ops ⊎ X

  -- A transaction whose change keeps the operation, or makes it `X`.
  transaction-Has :
      {A : Type 0} (X : Type 0) (a : A) (change : Browser W → Browser W) (s : Browser W)
      → ((w : W) → Has op (change (record s { world = w })).ops ⊎ X)
      → Has op s.ops
      → Has op
          (transaction has_database has_storage access tables random_uuid now offline_sync
            create_proof a change s).1.ops
        ⊎ X
  unfolding transaction
  transaction-Has X a change s keeps has = elim (Bool-cases (access s.world).0) [
    | inl works ↦ rw works (keeps (access s.world).1)
    | inr fails ↦ rw fails (inl has)
  ]

  remove_queued-Has :
      (ids : List String) (s : Browser W)
      → Has op s.ops
      → Has op
          (remove_queued has_database has_storage access tables random_uuid now offline_sync
            create_proof ids s).1.ops
        ⊎ Has op.client_op_id ids
  unfolding remove_queued
  remove_queued-Has [] s has = inl has
  remove_queued-Has (id ∷ ids) s has =
      transaction-Has (Has op.client_op_id (id ∷ ids)) tt
        (λ b. record b { ops = without_ops (id ∷ ids) b.ops }) s (λ w. without) has
    where
      without : Has op (without_ops (id ∷ ids) s.ops) ⊎ Has op.client_op_id (id ∷ ids)
      without = elim (Bool-cases (includes (id ∷ ids) op.client_op_id)) [
        | inl listed ↦ inr (includes-Has (id ∷ ids) op.client_op_id listed)
        | inr other ↦ inl (
            Has-filter (λ o. not (includes (id ∷ ids) o.client_op_id)) op s.ops has (rw other refl))
      ]

  after_sync-Remains :
      (ops : List OfflineOp) (answer : Result (List SyncAnswer)) (s : Browser W)
      → ((results : List SyncAnswer) → answer ≡ ok results → Answered results op → X)
      → Remains s
      → Remains
          (after_sync has_database has_storage access tables random_uuid now offline_sync
            create_proof ops answer s).1
  unfolding after_sync
  after_sync-Remains ops (err t) s settles kept = kept
  after_sync-Remains ops (ok results) s settles (inr settled) = inr settled
  after_sync-Remains ops (ok results) s settles (inl has) =
      elim (remove_queued-Has (tally_ops results (no_result, []) ops).1 s has) [
        | inl still ↦ inl still
        | inr removed ↦ elim (tally_ops-ids results (no_result, []) ops op.client_op_id removed) [
          | inl before ↦ absurd before
          | inr answered ↦ inr (settles results refl answered)
        ]
      ]

  -- What only moves the world, or the phone's id, keeps the operation.
  moved-Remains :
      (s : Browser W) (device : Option String) (w : W)
      → Remains s
      → Remains (record s { device = device; world = w })
  moved-Remains s device w kept = kept

  known_device-Remains :
      (known : Option String) (s : Browser W)
      → Remains s
      → Remains
          (known_device has_database has_storage access tables random_uuid now offline_sync
            create_proof known s).1
  known_device-Remains none s kept =
      moved-Remains s (some (random_uuid s.world).0) (random_uuid s.world).1 kept
  known_device-Remains (some id) s kept = elim (Bool-cases (id == "")) [
    | inl e ↦ rw e (moved-Remains s (some (random_uuid s.world).0) (random_uuid s.world).1 kept)
    | inr e ↦ rw e kept
  ]

  get_device_id-Remains :
      (s : Browser W)
      → Remains s
      → Remains
          (get_device_id has_database has_storage access tables random_uuid now offline_sync
            create_proof s).1
  get_device_id-Remains s kept = elim (Bool-cases has_storage) [
    | inl e ↦ rw e (known_device-Remains s.device s kept)
    | inr e ↦ rw e kept
  ]

  transaction-Remains :
      {A : Type 0} (a : A) (change : Browser W → Browser W) (s : Browser W)
      → ((w : W) → Remains (change (record s { world = w })))
      → Remains s
      → Remains
          (transaction has_database has_storage access tables random_uuid now offline_sync
            create_proof a change s).1
  unfolding transaction
  transaction-Remains a change s keeps kept = elim (Bool-cases (access s.world).0) [
    | inl works ↦ rw works (keeps (access s.world).1)
    | inr fails ↦ rw fails kept
  ]

  list_ops-Remains :
      (s : Browser W)
      → Remains s
      → Remains
          (list_ops has_database has_storage access tables random_uuid now offline_sync create_proof
            s).1
  unfolding list_ops
  list_ops-Remains s kept = elim (Bool-cases has_database) [
    | inl e ↦ rw e (transaction-Remains s.ops (λ b. b) s (λ w. kept) kept)
    | inr e ↦ rw e kept
  ]

  list_proofs-Remains :
      (s : Browser W)
      → Remains s
      → Remains
          (list_proofs has_database has_storage access tables random_uuid now offline_sync
            create_proof s).1
  unfolding list_proofs
  list_proofs-Remains s kept = elim (Bool-cases has_database) [
    | inl e ↦ rw e (transaction-Remains s.proofs (λ b. b) s (λ w. kept) kept)
    | inr e ↦ rw e kept
  ]

  remove_sent-Remains :
      (ids : List String) (s : Browser W)
      → Remains s
      → Remains
          (remove_sent has_database has_storage access tables random_uuid now offline_sync
            create_proof ids s).1
  unfolding remove_sent
  remove_sent-Remains [] s kept = kept
  remove_sent-Remains (id ∷ ids) s kept =
      transaction-Remains tt (λ b. record b { proofs = without_proofs (id ∷ ids) b.proofs }) s
        (λ w. kept) kept

  module _
      (sync_keeps : (device : String) (inputs : List OpInput) (s : Browser W)
        → Has op s.ops
        → Has op (offline_sync device inputs s).1.ops)
      (proof_keeps : (input : ProofInput) (s : Browser W)
        → Has op s.ops
        → Has op (create_proof input s).1.ops) where
    call-Remains :
        (device : String) (inputs : List OpInput) (s : Browser W)
        → Remains s
        → Remains (offline_sync device inputs s).1
    call-Remains device inputs s (inl has) = inl (sync_keeps device inputs s has)
    call-Remains device inputs s (inr settled) = inr settled

    proof-Remains :
        (input : ProofInput) (s : Browser W) → Remains s → Remains (create_proof input s).1
    proof-Remains input s (inl has) = inl (proof_keeps input s has)
    proof-Remains input s (inr settled) = inr settled

    flush_ops-Remains :
        (ops : List OfflineOp) (s : Browser W)
        → ((results : List SyncAnswer)
            → ops ≢ []
            → sync_answer has_database has_storage access tables random_uuid now offline_sync
                create_proof ops s
              ≡ ok results
            → Answered results op
            → X)
        → Remains s
        → Remains
            (flush_ops has_database has_storage access tables random_uuid now offline_sync
              create_proof ops s).1
    unfolding flush_ops
    flush_ops-Remains [] s settles kept = kept
    flush_ops-Remains (o ∷ ops) s settles kept =
        let (device, s0) =
          get_device_id has_database has_storage access tables random_uuid now offline_sync
            create_proof s in
        let inputs = map to_op_input (o ∷ ops) in
        let (answer, s1) = offline_sync device inputs s0 in
        after_sync-Remains (o ∷ ops) answer s1
          (λ results e answered. settles results (λ n. cc) e answered)
          (call-Remains device inputs s0 (get_device_id-Remains s kept))

    flush_proof-Remains :
        (t : FlushResult) (p : OfflineProof) (s : Browser W)
        → Remains s
        → Remains
            (flush_proof has_database has_storage access tables random_uuid now offline_sync
              create_proof t p s).1
    unfolding flush_proof
    flush_proof-Remains t p s kept =
        bind-state Remains (create_proof (to_proof_input p))
          (λ u.
            remove_sent has_database has_storage access tables random_uuid now offline_sync
              create_proof (p.id ∷ []))
          s (proof-Remains (to_proof_input p) s kept)
          (λ u s' kept'. remove_sent-Remains (p.id ∷ []) s' kept')

    flush_proofs-Remains :
        (t : FlushResult) (proofs : List OfflineProof) (s : Browser W)
        → Remains s
        → Remains
            (flush_proofs has_database has_storage access tables random_uuid now offline_sync
              create_proof t proofs s).1
    unfolding flush_proofs
    flush_proofs-Remains t [] s kept = kept
    flush_proofs-Remains t (p ∷ proofs) s kept =
        let (t', s') =
          flush_proof has_database has_storage access tables random_uuid now offline_sync
            create_proof t p s in
        flush_proofs-Remains t' proofs s' (flush_proof-Remains t p s kept)

    flush_offline_queue-Remains :
        (start : Browser W)
        → ((ops : List OfflineOp) (listed : Browser W) (results : List SyncAnswer)
            → list_ops has_database has_storage access tables random_uuid now offline_sync
                create_proof start
              ≡ (ok ops, listed)
            → ops ≢ []
            → sync_answer has_database has_storage access tables random_uuid now offline_sync
                create_proof ops listed
              ≡ ok results
            → Answered results op
            → X)
        → Remains start
        → Remains
            (flush_offline_queue has_database has_storage access tables random_uuid now offline_sync
              create_proof start).1
    unfolding flush_offline_queue
    flush_offline_queue-Remains start settles here =
        bind-state_eq Remains
          (list_ops has_database has_storage access tables random_uuid now offline_sync
            create_proof)
          _ start (list_ops-Remains start here)
          (λ ops s1 listed kept1.
            bind-state Remains
              (flush_ops has_database has_storage access tables random_uuid now offline_sync
                create_proof ops)
              _ s1 (flush_ops-Remains ops s1 (λ results. settles ops s1 results listed) kept1)
              (λ t s2 kept2.
                bind-state Remains
                  (list_proofs has_database has_storage access tables random_uuid now offline_sync
                    create_proof)
                  _ s2 (list_proofs-Remains s2 kept2)
                  (λ proofs s3 kept3. flush_proofs-Remains t proofs s3 kept3)))

module _ {W : Type 0} (has_database has_storage : Bool) (access : W → Bool × W) (tables : Tables)
    (random_uuid now : W → String × W)
    (offline_sync : String → List OpInput → Exec (Browser W) (List SyncAnswer))
    (create_proof : ProofInput → Exec (Browser W) (Unit {0})) (op : OfflineOp)
    (start : Browser W) where
  -- The call that a flush from `start` makes was answered, and the answer names the operation: the
  -- call comes after the queue was listed and the device's id read, and is made if something is listed.
  abbrev pub Settled : Type 0
  Settled =
      (ops : List OfflineOp) × (listed : Browser W) × (results : List SyncAnswer) × (list_ops
          has_database has_storage access tables random_uuid now offline_sync create_proof start
        ≡ (ok ops, listed))
      × (ops ≢ [])
      × (sync_answer has_database has_storage access tables random_uuid now offline_sync
            create_proof ops listed
          ≡ ok results)
      × Answered results op

  abbrev pub Kept : Browser W → Type 0
  Kept s = Has op s.ops ⊎ Settled

  -- Whatever storage, the server and the network do, an operation that is queued when a flush starts
  -- is afterwards still queued, or the server answered for its id in the call that this flush made of
  -- the queue; also if the flush throws. The calls of the server may add operations to the queue, but
  -- take none away.
  pub flush_offline_queue-keeps :
      ((device : String) (inputs : List OpInput) (s : Browser W)
        → Has op s.ops
        → Has op (offline_sync device inputs s).1.ops)
      → ((input : ProofInput) (s : Browser W) → Has op s.ops → Has op (create_proof input s).1.ops)
      → Has op start.ops
      → Kept
          (flush_offline_queue has_database has_storage access tables random_uuid now offline_sync
            create_proof start).1
  flush_offline_queue-keeps sync_keeps proof_keeps has =
      flush_offline_queue-Remains has_database has_storage access tables random_uuid now
        offline_sync create_proof op Settled sync_keeps proof_keeps start
        (λ ops listed results e some_ops said answered.
          (ops, listed, results, e, some_ops, said, answered))
        (inl has)
