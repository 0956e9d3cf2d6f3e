-- ===== src/Web/Offline/Queue.antt =====
-- An instance of the browser's database, of which apps/web/lib/offline/db.ts uses `put` and `getAll`.
use ironman.Prelude.{List, [], ◌∷◌, Has, refl, inl, inr, Bool-cases, ◌==◌, text_leb, if◌then◌else◌}
use ironman.Web.Offline.{OfflineOp, OfflineProof, Tables}

-- Two stores whose records stand in the order of their keys, for runs.
unfoldable pub put_op : OfflineOp → List OfflineOp → List OfflineOp
put_op op [] = op ∷ []
put_op op (o ∷ ops) =
    let rest = put_op op ops in
    if o.client_op_id == op.client_op_id
    then op ∷ ops
    else if text_leb op.client_op_id o.client_op_id
    then op ∷ o ∷ ops
    else o ∷ rest

unfoldable pub put_proof : OfflineProof → List OfflineProof → List OfflineProof
put_proof proof [] = proof ∷ []
put_proof proof (p ∷ proofs) =
    let rest = put_proof proof proofs in
    if p.id == proof.id
    then proof ∷ proofs
    else if text_leb proof.id p.id
    then proof ∷ p ∷ proofs
    else p ∷ rest

abbrev pub key_ordered : Tables
key_ordered = record { put_op = put_op; put_proof = put_proof }

-- An operation that is put is stored.
pub put_op-Has : (op : OfflineOp) (ops : List OfflineOp) → Has op (put_op op ops)
unfolding put_op
put_op-Has op [] = inl refl
put_op-Has op (q ∷ ops) = elim (Bool-cases (q.client_op_id == op.client_op_id)) [
  | inl e ↦ rw e (inl refl)
  | inr e ↦ elim (Bool-cases (text_leb op.client_op_id q.client_op_id)) [
    | inl f ↦ rw e (rw f (inl refl))
    | inr f ↦ rw e (rw f (inr (put_op-Has op ops)))
  ]
]
