-- ===== src/Web/Offline.antt =====
-- apps/web/lib/offline/db.ts and apps/web/lib/offline/sync.ts: the rider's queue in the browser. The
-- parameters are the runtime's and the network's: whether IndexedDB and localStorage exist, whether
-- the next access succeeds, IndexedDB's `put`, the random ids, the clock, and the two calls of the server.
pub mod Queue
pub mod Tally
pub mod Kept
pub mod Returns
use ironman.Prelude.{
  ℕ, zero, suc, ◌+◌, String, Bool, true, false, not, ◌&&◌, ◌||◌, Option, none, some, List, [], ◌∷◌,
  ◌++◌, map, filter, length, includes, if◌then◌else◌, ◌==◌, text_leb,
}
use ironman.Json.{Json}
use ironman.Exec.{Thrown, other_error, Result, ok, err, Exec, pure, throw, ◌>>=◌, ◌>>◌}
use ironman.Field.Types.{OpType, Payload}

pub record OfflineOp : Type 0 where
  pub client_op_id : String
  pub op_type : OpType
  pub job_id : String
  pub payload : Payload
  pub client_ts : String
  pub queued_at : String

pub data ProofKind : Type 0 where
  photo otp signature : ProofKind

-- A file is its bytes, and a coordinate is what JSON writes for it.
pub record OfflineProof : Type 0 where
  pub id : String
  pub job_id : String
  pub kind : ProofKind
  pub file : Option String
  pub otp_verified : Bool
  pub geo_lat : Option Json
  pub geo_lng : Option Json
  pub queued_at : String

pub data OfflineOpStatus : Type 0 where
  pending applied conflict rejected : OfflineOpStatus

-- The server's answer to one operation.
pub record SyncAnswer : Type 0 where
  pub client_op_id : String
  pub op_type : String
  pub status : OfflineOpStatus
  pub result_detail : String

-- What `/fulfilment/sync` takes of an operation.
pub record OpInput : Type 0 where
  pub client_op_id : String
  pub op_type : OpType
  pub payload : Payload
  pub client_ts : String

-- What `/fulfilment/proofs` takes.
pub record ProofInput : Type 0 where
  pub job : String
  pub kind : ProofKind
  pub file : Option String
  pub otp_verified : Bool
  pub geo_lat : Option Json
  pub geo_lng : Option Json

-- The two object stores in the order of their keys, `localStorage`'s id, and all else.
pub record Browser (W : Type 0) : Type 0 where
  pub ops : List OfflineOp
  pub proofs : List OfflineProof
  pub device : Option String
  pub world : W

pub record FlushResult : Type 0 where
  pub applied_ops : ℕ
  pub conflicts : List SyncAnswer
  pub refusals : List SyncAnswer
  pub uploaded_proofs : ℕ
  pub failed_proof_uploads : ℕ

abbrev pub no_result : FlushResult
no_result = record {
  applied_ops = 0;
  conflicts = [];
  refusals = [];
  uploaded_proofs = 0;
  failed_proof_uploads = 0;
}

-- IndexedDB's `put`, on what `getAll` lists of a store.
pub record Tables : Type 0 where
  pub put_op : OfflineOp → List OfflineOp → List OfflineOp
  pub put_proof : OfflineProof → List OfflineProof → List OfflineProof

abbrev pub without_ops : List String → List OfflineOp → List OfflineOp
without_ops ids ops = filter (λ o. not (includes ids o.client_op_id)) ops

abbrev pub without_proofs : List String → List OfflineProof → List OfflineProof
without_proofs ids proofs = filter (λ p. not (includes ids p.id)) proofs

-- The later of two entries of a `Map` with one key.
abbrev pub later : {A : Type 0} → Option A → Option A → Option A
later (some a) o = some a
later none o = o

-- `byId.get(id)`: the last of the server's answers with this id.
unfoldable pub answer_for : List SyncAnswer → String → Option SyncAnswer
answer_for [] id = none
answer_for (r ∷ results) id =
    later (answer_for results id) (if r.client_op_id == id then some r else none)

-- The result so far and the ids to remove.
abbrev pub Tally : Type 0
Tally = FlushResult × List String

abbrev pub count_answer : Tally → OfflineOp → SyncAnswer → OfflineOpStatus → Tally
count_answer t op r pending = t
count_answer (t, ids) op r applied =
    (record t { applied_ops = t.applied_ops + 1 }, ids ++ (op.client_op_id ∷ []))
count_answer (t, ids) op r conflict =
    (record t { conflicts = t.conflicts ++ (r ∷ []) }, ids ++ (op.client_op_id ∷ []))
count_answer (t, ids) op r rejected =
    (record t { refusals = t.refusals ++ (r ∷ []) }, ids ++ (op.client_op_id ∷ []))

abbrev pub tally_op : Tally → OfflineOp → Option SyncAnswer → Tally
tally_op t op none = t
tally_op t op (some r) = count_answer t op r r.status

-- The loop over the queued operations.
unfoldable pub tally_ops : List SyncAnswer → Tally → List OfflineOp → Tally
unfolding answer_for
tally_ops results t [] = t
tally_ops results t (op ∷ ops) =
    tally_ops results (tally_op t op (answer_for results op.client_op_id)) ops

abbrev pub to_op_input : OfflineOp → OpInput
to_op_input op = record {
  client_op_id = op.client_op_id;
  op_type = op.op_type;
  payload = op.payload;
  client_ts = op.client_ts;
}

abbrev pub to_proof_input : OfflineProof → ProofInput
to_proof_input p = record {
  job = p.job_id;
  kind = p.kind;
  file = p.file;
  otp_verified = p.otp_verified;
  geo_lat = p.geo_lat;
  geo_lng = p.geo_lng;
}

module _ {W : Type 0} (has_database has_storage : Bool) (access : W → Bool × W) (tables : Tables)
    (random_uuid now : W → String × W)
    (offline_sync : String → List OpInput → Exec (Browser W) (List SyncAnswer))
    (create_proof : ProofInput → Exec (Browser W) (Unit {0})) where
  -- One transaction, which throws if it fails and then changes nothing.
  unfoldable pub transaction : {A : Type 0} → A → (Browser W → Browser W) → Exec (Browser W) A
  transaction a change s =
      let (works, w) = access s.world in
      if works
      then (ok a, change (record s { world = w }))
      else (err other_error, record s { world = w })

  unfoldable pub list_ops : Exec (Browser W) (List OfflineOp)
  unfolding transaction
  list_ops s = if has_database then transaction s.ops (λ b. b) s else (ok [], s)

  unfoldable pub list_proofs : Exec (Browser W) (List OfflineProof)
  unfolding transaction
  list_proofs s = if has_database then transaction s.proofs (λ b. b) s else (ok [], s)

  unfoldable pub enqueue_op : OfflineOp → Exec (Browser W) (Unit {0})
  unfolding transaction
  enqueue_op op s =
      let (at, w) = now s.world in
      transaction tt (λ b. record b { ops = tables.put_op (record op { queued_at = at }) b.ops })
        (record s { world = w })

  unfoldable pub enqueue_proof : OfflineProof → Exec (Browser W) OfflineProof
  unfolding transaction
  enqueue_proof proof s =
      let (id, w) = random_uuid s.world in
      let (at, w') = now w in
      let stored = record proof { id = id; queued_at = at } in
      transaction stored (λ b. record b { proofs = tables.put_proof stored b.proofs })
        (record s { world = w' })

  -- With nothing to remove the database is not opened.
  unfoldable pub remove_queued : List String → Exec (Browser W) (Unit {0})
  unfolding transaction
  remove_queued [] s = (ok tt, s)
  remove_queued (id ∷ ids) s =
      transaction tt (λ b. record b { ops = without_ops (id ∷ ids) b.ops }) s

  unfoldable pub remove_sent : List String → Exec (Browser W) (Unit {0})
  unfolding transaction
  remove_sent [] s = (ok tt, s)
  remove_sent (id ∷ ids) s =
      transaction tt (λ b. record b { proofs = without_proofs (id ∷ ids) b.proofs }) s

  abbrev pub new_device : Browser W → String × Browser W
  new_device s = let (id, w) = random_uuid s.world in (id, record s { device = some id; world = w })

  -- `if (!id)`: an empty id is replaced too.
  abbrev pub known_device : Option String → Browser W → String × Browser W
  known_device none s = new_device s
  known_device (some id) s = if id == "" then new_device s else (id, s)

  abbrev pub get_device_id : Browser W → String × Browser W
  get_device_id s = if has_storage then known_device s.device s else ("unknown-device", s)

  -- After the server's answer. A removal that fails is caught, with the result already counted.
  unfoldable pub after_sync :
      List OfflineOp → Result (List SyncAnswer) → Exec (Browser W) FlushResult
  unfolding tally_ops remove_queued
  after_sync ops (err t) s = (ok no_result, s)
  after_sync ops (ok results) s =
      let (t, ids) = tally_ops results (no_result, []) ops in (ok t, (remove_queued ids s).1)

  unfoldable pub flush_ops : List OfflineOp → Exec (Browser W) FlushResult
  unfolding after_sync
  flush_ops [] s = (ok no_result, s)
  flush_ops (op ∷ ops) s =
      let (device, s0) = get_device_id s in
      let (answer, s1) = offline_sync device (map to_op_input (op ∷ ops)) s0 in
      after_sync (op ∷ ops) answer s1

  abbrev pub uploaded : FlushResult → Result (Unit {0}) → FlushResult
  uploaded t (ok u) = record t { uploaded_proofs = t.uploaded_proofs + 1 }
  uploaded t (err e) = record t { failed_proof_uploads = t.failed_proof_uploads + 1 }

  unfoldable pub flush_proof : FlushResult → OfflineProof → Browser W → FlushResult × Browser W
  unfolding remove_sent ◌>>=◌
  flush_proof t p s =
      let (r, s1) = (create_proof (to_proof_input p) >> remove_sent (p.id ∷ [])) s in
      (uploaded t r, s1)

  unfoldable pub flush_proofs : FlushResult → List OfflineProof → Exec (Browser W) FlushResult
  unfolding flush_proof
  flush_proofs t [] s = (ok t, s)
  flush_proofs t (p ∷ proofs) s = let (t', s') = flush_proof t p s in flush_proofs t' proofs s'

  unfoldable pub flush_offline_queue : Exec (Browser W) FlushResult
  unfolding list_ops list_proofs flush_ops flush_proofs ◌>>=◌
  flush_offline_queue = do
    ops ← list_ops
    t ← flush_ops ops
    proofs ← list_proofs
    flush_proofs t proofs

  unfoldable pub pending_count : Exec (Browser W) ℕ
  unfolding list_ops list_proofs ◌>>=◌
  pending_count = do ops ← list_ops; proofs ← list_proofs; pure (length ops + length proofs)
