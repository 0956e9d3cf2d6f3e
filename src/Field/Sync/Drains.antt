-- ===== src/Field/Sync/Drains.antt =====
-- The batches of a run with the server in reach.
use ironman.Prelude.{
  ℕ, zero, suc, ◌≤◌, String, ◌≡◌, ◌≢◌, refl, ap, ◌⊎◌, inl, inr, Option, none, some, List, [], ◌∷◌,
  ◌++◌, map, take, drop, length, Has, length-drop, arith,
}
use ironman.Exec.{Thrown, Result, ok, err, Exec, Ends, Ends-bind}
use ironman.Field.Types.{QueuedOp, SyncIssue, OfflineOpResult}
use ironman.Field.Store.{JobsCache}
use ironman.Field.Sync.{
  Env, Run, SyncBody, Sent, sent, sync_op, batch_size, message_or, what_label, result_for, ids_of,
}
use ironman.Field.Sync.Steps.{
  post_batch, settle_as, settle_or_leave, settle_all, save_found, settle_batch, refuse_single,
  push_issues,
}
use ironman.Field.Sync.Flush.{
  after_post, attempt, send_one, send_singly, send_batch, send_rounds, send_queue,
}
use ironman.Field.Sync.Waiting.{
  Replies, IsReachable, Waiting, Besides, summarise-Waiting, remove-Waiting, add_issues-Waiting,
  device_id-Waiting, report-Waiting, settle_as-Waiting,
}

pub Waiting-mono :
    {W : Type 0} {P Q : QueuedOp → Type 0} {r : Run W}
    → ((o : QueuedOp) → P o → Q o)
    → Waiting P r
    → Waiting Q r
Waiting-mono f h = record { quiet = h.quiet; only = λ o m. f o (h.only o m) }

Has-ids_of :
    (o : QueuedOp) (batch : List QueuedOp) → Has o batch → Has (sync_op o) (map sync_op batch)
Has-ids_of o [] h = h
Has-ids_of o (x ∷ batch) (inl e) = inl (ap sync_op e)
Has-ids_of o (x ∷ batch) (inr h) = inr (Has-ids_of o batch h)

split_ids :
    (n : ℕ) (ops : List QueuedOp) (id : String)
    → Has id (ids_of ops)
    → Has id (ids_of (take n ops)) ⊎ Has id (ids_of (drop n ops))
split_ids zero ops id h = inr h
split_ids (suc n) [] id h = absurd h
split_ids (suc n) (o ∷ ops) id (inl e) = inl (inl e)
split_ids (suc n) (o ∷ ops) id (inr h) = elim (split_ids n ops id h) [
  | inl l ↦ inl (inr l)
  | inr r ↦ inr r
]

module _ {W : Type 0} (env : Env W) (reach : IsReachable env) (E : Run W → Type 0) where
  -- Every action of the batch is on the list of ids to remove.
  abbrev Covers : List QueuedOp → List String × List SyncIssue → Type 0
  Covers batch d = (id : String) → Has id (ids_of batch) → Has id d.0

  settle_all-Covers :
      (P : QueuedOp → Type 0) (cache : JobsCache) (results : List OfflineOpResult)
      (batch : List QueuedOp) (r : Run W)
      → ((o : QueuedOp) → Has o batch → result_for results o.client_op_id ≢ none)
      → Waiting P r
      → Ends (λ d s. Waiting P s × Covers batch d) E (settle_all env cache results batch r)
  unfolding settle_all
  settle_all-Covers P cache results [] r ans h = (h, λ id m. m)
  settle_all-Covers P cache results (op ∷ batch) r ans h =
      step (result_for results op.client_op_id) (ans op (inl refl))
        λ s hs. settle_all-Covers P cache results batch s (λ o m. ans o (inr m)) hs
    where
      step :
          (o : Option OfflineOpResult)
          → o ≢ none
          → ((s : Run W)
              → Waiting P s
              → Ends (λ d t. Waiting P t × Covers batch d) E (settle_all env cache results batch s))
          → Ends
              (λ d s. Waiting P s × Covers (op ∷ batch) d)
              E
              (settle_or_leave env cache op o (settle_all env cache results batch) r)
      step none n rest = absurd (n refl)
      step (some x) n rest =
          Ends-bind (λ _. Waiting P) (λ d s. Waiting P s × Covers (op ∷ batch) d) E
            (settle_as env cache op x.result_detail x.status) _ r
            (settle_as-Waiting env reach P E cache op x.result_detail x.status r h)
            λ found s hs.
              Ends-bind (λ d t. Waiting P t × Covers batch d)
                (λ d s. Waiting P s × Covers (op ∷ batch) d) E (settle_all env cache results batch)
                _ s (rest s hs)
                λ more t ht. (ht.0, λ id. elim [ inl e ↦ inl e | inr m ↦ inr (ht.1 id m) ])

  save_found-Waiting :
      (P : QueuedOp → Type 0) (found : List SyncIssue) (r : Run W)
      → Waiting P r
      → Ends (λ _. Waiting P) E (save_found env found r)
  unfolding save_found
  save_found-Waiting P [] r h = h
  save_found-Waiting P (i ∷ found) r h =
      Ends-bind (λ _. Waiting P) _ E _ _ r (add_issues-Waiting env reach P E (i ∷ found) r h)
        λ _ s hs. summarise-Waiting P E (push_issues (i ∷ found)) s hs

  -- A batch that is dealt with leaves none of its actions behind.
  abbrev Cleared : List String → (QueuedOp → Type 0) → Sent → Run W → Type 0
  Cleared ids P end s = (end ≡ sent) × Waiting (Besides ids P) s

  settle_batch-Cleared :
      (P : QueuedOp → Type 0) (cache : JobsCache) (batch : List QueuedOp)
      (results : List OfflineOpResult) (r : Run W)
      → ((o : QueuedOp) → Has o batch → result_for results o.client_op_id ≢ none)
      → Waiting P r
      → Ends (Cleared (ids_of batch) P) E (settle_batch env cache batch results r)
  unfolding settle_batch
  settle_batch-Cleared P cache batch results r ans h =
      Ends-bind (λ d s. Waiting P s × Covers batch d) _ E _ _ r
        (settle_all-Covers P cache results batch r ans h)
        λ d s hs.
          Ends-bind (λ _. Waiting P) _ E _ _ s (save_found-Waiting P d.1 s hs.0)
            λ _ t ht.
              Ends-bind (λ _. Waiting (Besides d.0 P)) _ E _ _ t
                (remove-Waiting env reach P E d.0 t ht)
                λ _ u hu. (refl, Waiting-mono (λ o b. (b.0, λ m. b.1 (hs.1 o.client_op_id m))) hu)

  refuse_single-Cleared :
      (P : QueuedOp → Type 0) (cache : JobsCache) (op : QueuedOp) (error : Thrown) (r : Run W)
      → Waiting P r
      → Ends (Cleared (op.client_op_id ∷ []) P) E (refuse_single env cache op error r)
  unfolding refuse_single
  refuse_single-Cleared P cache op error r h =
      Ends-bind (λ _. Waiting P) _ E _ _ r
        (report-Waiting env reach P E cache op.job_id (what_label op.op_type) (message_or "" error)
          r h)
        λ _ s hs.
          Ends-bind (λ _. Waiting (Besides (op.client_op_id ∷ []) P)) _ E _ _ s
            (remove-Waiting env reach P E (op.client_op_id ∷ []) s hs) λ _ u hu. (refl, hu)

  attempt-Cleared :
      (P : QueuedOp → Type 0) (cache : JobsCache) (device : String) (batch : List QueuedOp)
      (refused : Thrown → Exec (Run W) Sent) (r : Run W)
      → ((error : Thrown) (s : Run W)
          → Waiting P s
          → Ends (Cleared (ids_of batch) P) E (refused error s))
      → Waiting P r
      → Ends (Cleared (ids_of batch) P) E (attempt env cache device batch refused r)
  unfolding attempt post_batch sync_op
  attempt-Cleared P cache device batch refused r step h =
      let body : SyncBody = record { device_id = device; ops = map sync_op batch } in
      go (env.post "/fulfilment/sync" body r.world) (reach.replies "/fulfilment/sync" body r.world)
    where
      go :
          (x : Result (List OfflineOpResult) × W)
          → Replies (record { device_id = device; ops = map sync_op batch }) x.0
          → Ends (Cleared (ids_of batch) P) E (
              after_post env cache batch refused x.0 (record r {
                world = x.1;
                wire = r.wire ++ record { batch = batch; outcome = x.0 } ∷ [];
              }))
      go (ok results, w) ans =
          settle_batch-Cleared P cache batch results _
            (λ o m. ans (sync_op o) (Has-ids_of o batch m))
            (record { quiet = h.quiet; only = h.only })
      go (err error, w) final = rw final (step error _ (record { quiet = h.quiet; only = h.only }))

  send_one-Cleared :
      (P : QueuedOp → Type 0) (cache : JobsCache) (device : String) (op : QueuedOp) (r : Run W)
      → Waiting P r
      → Ends (Cleared (op.client_op_id ∷ []) P) E (send_one env cache device op r)
  unfolding send_one
  send_one-Cleared P cache device op r h =
      attempt-Cleared P cache device (op ∷ []) (refuse_single env cache op) r
        (λ error s hs. refuse_single-Cleared P cache op error s hs) h

  send_singly-Cleared :
      (P : QueuedOp → Type 0) (cache : JobsCache) (device : String) (batch : List QueuedOp)
      (r : Run W)
      → Waiting P r
      → Ends (Cleared (ids_of batch) P) E (send_singly env cache device batch r)
  unfolding send_singly
  send_singly-Cleared P cache device [] r h = (refl, Waiting-mono (λ o p. (p, λ m. m)) h)
  send_singly-Cleared P cache device (op ∷ batch) r h =
      Ends-bind (Cleared (op.client_op_id ∷ []) P) _ E _ _ r
        (send_one-Cleared P cache device op r h)
        λ end s hs. rw hs.0 (
          weaken (send_singly env cache device batch s)
            (send_singly-Cleared (Besides (op.client_op_id ∷ []) P) cache device batch s hs.1))
    where
      weaken :
          (x : Result Sent × Run W)
          → Ends (Cleared (ids_of batch) (Besides (op.client_op_id ∷ []) P)) E x
          → Ends (Cleared (op.client_op_id ∷ ids_of batch) P) E x
      weaken (ok end, s) c = (
        c.0,
        Waiting-mono (λ o b. (b.0.0, λ m. elim m [ inl e ↦ b.0.1 (inl e) | inr k ↦ b.1 k ])) c.1,
      )
      weaken (err t, s) c = c

  send_batch-Cleared :
      (P : QueuedOp → Type 0) (cache : JobsCache) (device : String) (batch : List QueuedOp)
      (r : Run W)
      → Waiting P r
      → Ends (Cleared (ids_of batch) P) E (send_batch env cache device batch r)
  unfolding send_batch
  send_batch-Cleared P cache device [] r h = (refl, Waiting-mono (λ o p. (p, λ m. m)) h)
  send_batch-Cleared P cache device (op ∷ []) r h = send_one-Cleared P cache device op r h
  send_batch-Cleared P cache device (op ∷ next ∷ batch) r h =
      attempt-Cleared P cache device (op ∷ next ∷ batch) _ r
        (λ error s hs. send_singly-Cleared P cache device (op ∷ next ∷ batch) s hs) h

  send_rounds-Waiting :
      (fuel : ℕ) (P : QueuedOp → Type 0) (cache : JobsCache) (device : String) (ops : List QueuedOp)
      (r : Run W)
      → length ops ≤ fuel
      → Waiting P r
      → Ends (λ _. Waiting (Besides (ids_of ops) P)) E (send_rounds env fuel cache device ops r)
  unfolding send_rounds
  send_rounds-Waiting zero P cache device [] r l h = Waiting-mono (λ o p. (p, λ m. m)) h
  send_rounds-Waiting zero P cache device (op ∷ ops) r l h = absurd (omega arith)
  send_rounds-Waiting (suc fuel) P cache device [] r l h = Waiting-mono (λ o p. (p, λ m. m)) h
  send_rounds-Waiting (suc fuel) P cache device (op ∷ ops) r l h =
      Ends-bind (Cleared (ids_of (take batch_size (op ∷ ops))) P) _ E _ _ r
        (send_batch-Cleared P cache device (take batch_size (op ∷ ops)) r h)
        λ end s hs. rw hs.0 (
          weaken (send_rounds env fuel cache device (drop batch_size (op ∷ ops)) s) (
            send_rounds-Waiting fuel (Besides (ids_of (take batch_size (op ∷ ops))) P) cache device
              (drop batch_size (op ∷ ops)) s (omega (arith, length-drop batch_size (op ∷ ops)))
              hs.1))
    where
      weaken :
          (x : Result (Unit {0}) × Run W)
          → Ends
              (λ _. Waiting (
                Besides
                  (ids_of (drop batch_size (op ∷ ops)))
                  (Besides (ids_of (take batch_size (op ∷ ops))) P)))
              E
              x
          → Ends (λ _. Waiting (Besides (ids_of (op ∷ ops)) P)) E x
      weaken (ok end, s) c =
          Waiting-mono
            (λ o b. (
              b.0.0,
              λ m. elim (split_ids batch_size (op ∷ ops) o.client_op_id m) [
                | inl e ↦ b.0.1 e
                | inr k ↦ b.1 k
              ],
            ))
            c
      weaken (err t, s) c = c

  pub send_queue-Waiting :
      (P : QueuedOp → Type 0) (cache : JobsCache) (ops : List QueuedOp) (r : Run W)
      → Waiting P r
      → Ends (λ _. Waiting (Besides (ids_of ops) P)) E (send_queue env cache ops r)
  unfolding send_queue
  send_queue-Waiting P cache [] r h = Waiting-mono (λ o p. (p, λ m. m)) h
  send_queue-Waiting P cache (op ∷ ops) r h =
      Ends-bind (λ _. Waiting P) _ E _ _ r (device_id-Waiting env reach P E r h)
        λ device s hs.
          send_rounds-Waiting (length (op ∷ ops)) P cache device (op ∷ ops) s (omega arith) hs
