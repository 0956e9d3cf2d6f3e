-- ===== src/Web/Offline/Tally.antt =====
-- What the loop over the server's answers takes off the browser's queue.
use ironman.Prelude.{
  ◌≡◌, refl, sym, ◌∙◌, ◌⊎◌, inl, inr, String, Option, none, some, List, [], ◌∷◌, ◌++◌, Has,
  append-Has, Bool-cases, arith, ◌==◌, eq_iff, Option-cases,
}
use ironman.Web.Offline.{
  OfflineOp, SyncAnswer, OfflineOpStatus, pending, applied, conflict, rejected, Tally, count_answer,
  tally_op, answer_for, tally_ops,
}

-- The server's answer to this call has a result for the operation.
abbrev pub Answered : List SyncAnswer → OfflineOp → Type 0
Answered results op = (r : SyncAnswer) × Has r results × (r.client_op_id ≡ op.client_op_id)

answer_for-Has :
    (results : List SyncAnswer) (id : String) (q : SyncAnswer)
    → answer_for results id ≡ some q
    → (r : SyncAnswer) × Has r results × (r.client_op_id ≡ id)
unfolding answer_for
answer_for-Has [] id q e = ground arith
answer_for-Has (r ∷ results) id q e = elim (Option-cases (answer_for results id)) [
  | inr (p, f) ↦ let (a, has, same) = answer_for-Has results id p f in (a, inr has, same)
  | inl f ↦ elim (Bool-cases (r.client_op_id == id)) [
    | inl same ↦ (r, inl refl, (eq_iff r.client_op_id id).0 same)
    | inr other ↦ absurd (missing (sym (rw f (rw other refl)) ∙ e))
  ]
]
  where
    missing : none ≡ some q → ⊥
    missing f = ground arith

last : (ids : List String) (own id : String) → Has id (ids ++ (own ∷ [])) → Has id ids ⊎ (id ≡ own)
last ids own id has = elim (append-Has id ids (own ∷ []) has) [
  | inl before ↦ inl before
  | inr (inl same) ↦ inr same
  | inr (inr none_left) ↦ absurd none_left
]

count_answer-ids :
    (t : Tally) (op : OfflineOp) (r : SyncAnswer) (status : OfflineOpStatus) (id : String)
    → Has id (count_answer t op r status).1
    → Has id t.1 ⊎ (id ≡ op.client_op_id)
count_answer-ids t op r pending id has = inl has
count_answer-ids t op r applied id has = last t.1 op.client_op_id id has
count_answer-ids t op r conflict id has = last t.1 op.client_op_id id has
count_answer-ids t op r rejected id has = last t.1 op.client_op_id id has

tally_op-ids :
    (t : Tally) (op : OfflineOp) (answer : Option SyncAnswer) (id : String)
    → Has id (tally_op t op answer).1
    → Has id t.1 ⊎ ((q : SyncAnswer) × (answer ≡ some q) × (id ≡ op.client_op_id))
tally_op-ids t op none id has = inl has
tally_op-ids t op (some q) id has = elim (count_answer-ids t op q q.status id has) [
  | inl before ↦ inl before
  | inr same ↦ inr (q, refl, same)
]

-- Every id that the loop removes was answered for.
pub tally_ops-ids :
    (results : List SyncAnswer) (t : Tally) (ops : List OfflineOp) (id : String)
    → Has id (tally_ops results t ops).1
    → Has id t.1 ⊎ ((r : SyncAnswer) × Has r results × (r.client_op_id ≡ id))
unfolding tally_ops
tally_ops-ids results t [] id has = inl has
tally_ops-ids results t (op ∷ ops) id has =
    elim (tally_ops-ids results (tally_op t op (answer_for results op.client_op_id)) ops id has) [
      | inr answered ↦ inr answered
      | inl before ↦ elim (tally_op-ids t op (answer_for results op.client_op_id) id before) [
        | inl earlier ↦ inl earlier
        | inr (q, found, same) ↦
            let (r, in_results, e) = answer_for-Has results op.client_op_id q found in
            inr (r, in_results, e ∙ sym same)
      ]
    ]
