-- ===== src/Field/Sync/Flush.antt =====
-- `flush` and `sendBatch`: the queue in batches, then the photos, then the day as the server has it.
use ironman.Prelude.{ℕ, zero, suc, String, List, [], ◌∷◌, take, drop, length, if◌then◌else◌}
use ironman.Exec.{Thrown, Result, ok, err, Exec, pure, gets, try_catch, ◌>>=◌, ◌>>◌}
use ironman.Field.Types.{OfflineOpResult, QueuedOp, QueuedProof}
use ironman.Field.Store.{JobsCache, load_jobs, save_jobs, load_ops, load_proofs, remove_proof}
use ironman.Field.Sync.{
  Env, Run, SyncSummary, Sent, sent, gone_offline, proofs_slot, read, batch_size, is_final_refusal,
  message_or, empty_summary,
}
use ironman.Field.Sync.Steps.{
  mark_offline, count_upload, mark_refreshed, set_remaining, unless, summarise, write, change_slot,
  ask, draw, post_batch, device_id, report, settle_batch, refuse_single,
}

module _ {W : Type 0} (env : Env W) where
  -- `try { results = await deps.post(…) } catch`, and what follows it.
  unfoldable pub after_post :
      JobsCache
      → List QueuedOp
      → (Thrown → Exec (Run W) Sent)
      → Result (List OfflineOpResult)
      → Exec (Run W) Sent
  after_post cache batch refused (ok results) = settle_batch env cache batch results
  after_post cache batch refused (err error) =
      if is_final_refusal error then refused error else pure gone_offline

  unfoldable pub attempt :
      JobsCache → String → List QueuedOp → (Thrown → Exec (Run W) Sent) → Exec (Run W) Sent
  unfolding after_post
  attempt cache device batch refused r =
      let (outcome, r') = post_batch env device batch r in after_post cache batch refused outcome r'

  -- `sendBatch(…, [op], …)`.
  unfoldable pub send_one : JobsCache → String → QueuedOp → Exec (Run W) Sent
  unfolding attempt refuse_single
  send_one cache device op = attempt cache device (op ∷ []) (refuse_single env cache op)

  -- One malformed action must not hold up the rest: they are sent singly.
  unfoldable pub send_singly : JobsCache → String → List QueuedOp → Exec (Run W) Sent
  send_singly cache device [] = pure sent
  send_singly cache device (op ∷ batch) =
      let rest = send_singly cache device batch in
      do end ← send_one cache device op; elim end [ sent ↦ rest | gone_offline ↦ pure gone_offline ]

  -- `sendBatch`; it is never called with an empty batch.
  unfoldable pub send_batch : JobsCache → String → List QueuedOp → Exec (Run W) Sent
  unfolding attempt
  send_batch cache device [] = pure sent
  send_batch cache device (op ∷ []) = send_one cache device op
  send_batch cache device (op ∷ next ∷ batch) =
      attempt cache device (op ∷ next ∷ batch) (λ _. send_singly cache device (op ∷ next ∷ batch))

  unfoldable pub go_offline : Exec (Run W) (Unit {0})
  unfolding summarise
  go_offline = summarise mark_offline

  -- The loop over the queue in batches of fifty: each round takes at least one action off `ops`, so
  -- their number is fuel enough.
  unfoldable pub send_rounds : ℕ → JobsCache → String → List QueuedOp → Exec (Run W) (Unit {0})
  unfolding go_offline
  send_rounds zero cache device ops = pure tt
  send_rounds (suc fuel) cache device [] = pure tt
  send_rounds (suc fuel) cache device (op ∷ ops) =
      let rest = send_rounds fuel cache device (drop batch_size (op ∷ ops)) in
      do
        end ← send_batch cache device (take batch_size (op ∷ ops))
        elim end [ sent ↦ rest | gone_offline ↦ go_offline ]

  unfoldable pub send_queue : JobsCache → List QueuedOp → Exec (Run W) (Unit {0})
  send_queue cache [] = pure tt
  send_queue cache (op ∷ ops) = do
    device ← device_id env
    send_rounds (length (op ∷ ops)) cache device (op ∷ ops)

  -- The `try` of one photo.
  unfoldable pub upload : QueuedProof → Exec (Run W) (Unit {0})
  unfolding summarise
  upload proof = do
    ask env (env.upload_proof proof)
    change_slot env proofs_slot (remove_proof proof.id)
    ask env (env.discard_file proof.uri)
    summarise count_upload

  -- Its `catch`: a photo refused for good becomes an issue, anything else ends the loop.
  unfoldable pub upload_failed : JobsCache → QueuedProof → Thrown → Exec (Run W) Sent
  unfolding go_offline report
  upload_failed cache proof error =
      if is_final_refusal error
      then (do
        report env cache proof.job_id "Uploading a photo"
            (message_or "The photo was refused." error)
        change_slot env proofs_slot (remove_proof proof.id)
        ask env (env.discard_file proof.uri)
        pure sent)
      else (do go_offline; pure gone_offline)

  unfoldable pub send_photo : JobsCache → QueuedProof → Exec (Run W) Sent
  unfolding upload upload_failed
  send_photo cache proof = try_catch (do upload proof; pure sent) (upload_failed cache proof)

  unfoldable pub send_photos : JobsCache → List QueuedProof → Exec (Run W) (Unit {0})
  send_photos cache [] = pure tt
  send_photos cache (proof ∷ proofs) =
      let rest = send_photos cache proofs in
      do end ← send_photo cache proof; elim end [ sent ↦ rest | gone_offline ↦ pure tt ]

  -- The day, as the server now has it.
  unfoldable pub refresh_jobs : Exec (Run W) (Unit {0})
  unfolding summarise
  refresh_jobs = do
    jobs ← ask env env.fetch_jobs
    at ← draw env env.now
    write env (save_jobs jobs at)
    summarise mark_refreshed

  -- `if (!summary.offline)`.
  unfoldable pub unless_offline : Exec (Run W) (Unit {0}) → Exec (Run W) (Unit {0})
  unless_offline m r = unless r.summary.offline m r

  unfoldable pub photos_step : JobsCache → Exec (Run W) (Unit {0})
  unfolding unless_offline
  photos_step cache = unless_offline (do proofs ← read env load_proofs; send_photos cache proofs)

  unfoldable pub refresh_step : Exec (Run W) (Unit {0})
  unfolding unless_offline refresh_jobs
  refresh_step = unless_offline (try_catch refresh_jobs (λ _. go_offline))

  unfoldable pub count_remaining : Exec (Run W) SyncSummary
  unfolding summarise
  count_remaining = do
    ops ← read env load_ops
    proofs ← read env load_proofs
    summarise (set_remaining (length ops) (length proofs))
    gets (λ r. r.summary)

  unfoldable pub flush : Exec (Run W) SyncSummary
  unfolding send_queue photos_step refresh_step count_remaining
  flush = do
    summarise (λ _. empty_summary)
    cache ← read env load_jobs
    ops ← read env load_ops
    send_queue cache ops
    photos_step cache
    refresh_step
    count_remaining
