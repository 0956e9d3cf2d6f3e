-- ===== src/Field/Sync/Safety.antt =====
-- What is stored on the phone before and after `flush`.
use ironman.Prelude.{
  ℕ, zero, suc, String, ◌≡◌, refl, inl, inr, Bool, true, false, List, [], ◌∷◌, ◌++◌, map, take,
  drop, length, Has, Has-append_left, Has-append_right, Bool-cases,
}
use ironman.Exec.{Thrown, Result, ok, err, Exec, pure, recover, try_catch}
use ironman.Field.Types.{QueuedOp, QueuedProof, SyncIssue, OfflineOpResult}
use ironman.Field.Store.{JobsCache, load_jobs, load_ops, load_proofs, load_issues}
use ironman.Field.Sync.{
  Env, Reads, proofs_slot, Run, Exchange, Sent, sent, gone_offline, sync_op, batch_size,
  is_final_refusal, empty_summary, message_or,
}
use ironman.Field.Sync.Steps.{
  mark_offline, count_upload, mark_refreshed, set_remaining, unless, ask, draw, post_batch,
  refuse_single,
}
use ironman.Field.Sync.Flush.{
  after_post, attempt, send_one, send_singly, send_batch, go_offline, send_rounds, send_queue,
  upload, upload_failed, send_photo, send_photos, refresh_jobs, unless_offline, photos_step,
  refresh_step, count_remaining, flush,
}
use ironman.Field.Sync.Kept.{
  on_wire, refused_alone, Kept, Decided-mono, Advances, Advances-refl, Leads, Leads-from,
  Leads-bind, Any, Advancing,
}
use ironman.Field.Sync.Steady.{
  read-Advancing, summarise-Advancing, world-Advances, write-Advancing, change_slot-Advancing,
  remove_proof-IsMild, save_jobs-IsMild,
}
use ironman.Field.Sync.Settling.{
  device_id-Advancing, report-Leads, settle_batch-Leads, refuse_single-Leads,
}

module _ {W : Type 0} where
  exchange-Advances :
      (x : Exchange) (w : W) (r : Run W)
      → Advances r (record r { world = w; wire = r.wire ++ x ∷ [] })
  exchange-Advances x w r = record {
    wire_grows = λ e h. Has-append_left e r.wire (x ∷ []) h;
    issues_grow = λ i h. h;
    keeps = λ o. elim [
      | inl h ↦ inl h
      | inr (inl h) ↦ inr (inl h)
      | inr (inr h) ↦
          inr (inr (Decided-mono (λ e m. Has-append_left e r.wire (x ∷ []) m) (λ i m. m) h))
    ];
  }

module _ {W : Type 0} (env : Env W) (reads : Reads env) where
  attempt-Leads :
      (cache : JobsCache) (device : String) (batch : List QueuedOp)
      (refused : Thrown → Exec (Run W) Sent) (r : Run W)
      → ((error : Thrown) (s : Run W)
          → is_final_refusal error ≡ true
          → Has (record { batch = batch; outcome = err error }) s.wire
          → Leads s Any (refused error s))
      → Leads r Any (attempt env cache device batch refused r)
  unfolding attempt post_batch
  attempt-Leads cache device batch refused r step =
      go (
        env.post "/fulfilment/sync" (record { device_id = device; ops = map sync_op batch })
          r.world)
    where
      go :
          (x : Result (List OfflineOpResult) × W)
          → Leads r Any (
              after_post env cache batch refused x.0 (record r {
                world = x.1;
                wire = r.wire ++ record { batch = batch; outcome = x.0 } ∷ [];
              }))
      go (ok results, w) =
          let s : Run W = record r {
            world = w;
            wire = r.wire ++ record { batch = batch; outcome = ok results } ∷ [];
          } in
          Leads-from r s Any _ (exchange-Advances _ w r) (
            settle_batch-Leads env reads cache batch results s
              λ x h. on_wire _ results (Has-append_right _ r.wire _ (inl refl)) refl h)
      go (err error, w) =
          let s : Run W = record r {
            world = w;
            wire = r.wire ++ record { batch = batch; outcome = err error } ∷ [];
          } in
          elim (Bool-cases (is_final_refusal error)) [
            | inl final ↦ rw final (
                Leads-from r s Any _ (exchange-Advances _ w r)
                  (step error s final (Has-append_right _ r.wire _ (inl refl))))
            | inr retry ↦ rw retry (exchange-Advances _ w r, tt)
          ]

  send_one-Advancing :
      (cache : JobsCache) (device : String) (op : QueuedOp)
      → Advancing (send_one env cache device op)
  unfolding send_one
  send_one-Advancing cache device op r =
      attempt-Leads cache device (op ∷ []) (refuse_single env cache op) r λ error s final on.
        refuse_single-Leads env reads cache op error s (refused_alone _ error on refl refl final)

  -- Going on after a batch, or stopping offline.
  sent_or-Advancing :
      {A : Type 0} (m k : Exec (Run W) A) (end : Sent)
      → Advancing m
      → Advancing k
      → Advancing (elim end [ sent ↦ m | gone_offline ↦ k ])
  sent_or-Advancing m k sent hm hk = hm
  sent_or-Advancing m k gone_offline hm hk = hk

  pure-Advancing : {A : Type 0} (a : A) → Advancing {W = W} (pure a)
  pure-Advancing a r = (Advances-refl r, tt)

  send_singly-Advancing :
      (cache : JobsCache) (device : String) (batch : List QueuedOp)
      → Advancing (send_singly env cache device batch)
  unfolding send_singly
  send_singly-Advancing cache device [] r = (Advances-refl r, tt)
  send_singly-Advancing cache device (op ∷ batch) r =
      Leads-bind Any Any _ _ r (send_one-Advancing cache device op r) λ end s _ _.
        sent_or-Advancing _ _ end (send_singly-Advancing cache device batch)
          (pure-Advancing gone_offline) s

  send_batch-Advancing :
      (cache : JobsCache) (device : String) (batch : List QueuedOp)
      → Advancing (send_batch env cache device batch)
  unfolding send_batch
  send_batch-Advancing cache device [] r = (Advances-refl r, tt)
  send_batch-Advancing cache device (op ∷ []) r = send_one-Advancing cache device op r
  send_batch-Advancing cache device (op ∷ next ∷ batch) r =
      attempt-Leads cache device (op ∷ next ∷ batch) _ r
        λ error s final on. send_singly-Advancing cache device (op ∷ next ∷ batch) s

  go_offline-Advancing : Advancing (go_offline env)
  unfolding go_offline
  go_offline-Advancing = summarise-Advancing mark_offline

  send_rounds-Advancing :
      (fuel : ℕ) (cache : JobsCache) (device : String) (ops : List QueuedOp)
      → Advancing (send_rounds env fuel cache device ops)
  unfolding send_rounds
  send_rounds-Advancing zero cache device ops r = (Advances-refl r, tt)
  send_rounds-Advancing (suc fuel) cache device [] r = (Advances-refl r, tt)
  send_rounds-Advancing (suc fuel) cache device (op ∷ ops) r =
      Leads-bind Any Any _ _ r (send_batch-Advancing cache device (take batch_size (op ∷ ops)) r)
        λ end s _ _.
          sent_or-Advancing _ _ end
            (send_rounds-Advancing fuel cache device (drop batch_size (op ∷ ops)))
            go_offline-Advancing s

  send_queue-Advancing :
      (cache : JobsCache) (ops : List QueuedOp) → Advancing (send_queue env cache ops)
  unfolding send_queue
  send_queue-Advancing cache [] r = (Advances-refl r, tt)
  send_queue-Advancing cache (op ∷ ops) r =
      Leads-bind Any Any _ _ r (device_id-Advancing env reads r)
        λ device s _ _. send_rounds-Advancing (length (op ∷ ops)) cache device (op ∷ ops) s

module _ {W : Type 0} where
  caught-Leads :
      {A : Type 0} (r : Run W) (h : Thrown → Exec (Run W) A) (x : Result A × Run W)
      → Leads r Any x
      → ((t : Thrown) → Advancing (h t))
      → Leads r Any (recover h x.0 x.1)
  caught-Leads r h (ok a, s) ran handled = ran
  caught-Leads r h (err t, s) ran handled = Leads-from r s Any (h t s) ran (handled t s)

  try_catch-Advancing :
      {A : Type 0} (m : Exec (Run W) A) (h : Thrown → Exec (Run W) A)
      → Advancing m
      → ((t : Thrown) → Advancing (h t))
      → Advancing (try_catch m h)
  unfolding try_catch
  try_catch-Advancing m h ran handled r = caught-Leads r h (m r) (ran r) handled

  asked-Advances :
      {A : Type 0} (r : Run W) (x : Result A × W) → Leads r Any (x.0, record r { world = x.1 })
  asked-Advances r (ok a, w) = (world-Advances w r, tt)
  asked-Advances r (err t, w) = world-Advances w r

  when_online :
      (offline : Bool) (m : Exec (Run W) (Unit {0})) (r : Run W)
      → Leads r Any (m r)
      → Leads r Any (unless offline m r)
  when_online true m r h = (Advances-refl r, tt)
  when_online false m r h = h

module _ {W : Type 0} (env : Env W) (reads : Reads env) where
  ask-Advancing : {A : Type 0} (call : W → Result A × W) → Advancing (ask env call)
  ask-Advancing call r = asked-Advances r (call r.world)

  upload-Advancing : (proof : QueuedProof) → Advancing (upload env proof)
  unfolding upload
  upload-Advancing proof r =
      Leads-bind Any Any _ _ r (ask-Advancing (env.upload_proof proof) r) λ _ s _ _.
        Leads-bind Any Any _ _ s
          (change_slot-Advancing env reads proofs_slot _ (remove_proof-IsMild proof.id) s)
          λ _ t _ _.
            Leads-bind Any Any _ _ t (ask-Advancing (env.discard_file proof.uri) t)
              λ _ u _ _. summarise-Advancing count_upload u

  upload_failed-Advancing :
      (cache : JobsCache) (proof : QueuedProof) (error : Thrown)
      → Advancing (upload_failed env cache proof error)
  unfolding upload_failed
  upload_failed-Advancing cache proof error r = elim (Bool-cases (is_final_refusal error)) [
    | inl final ↦ rw final (
        Leads-bind _ Any _ _ r
          (report-Leads env reads cache proof.job_id "Uploading a photo"
            (message_or "The photo was refused." error) r)
          λ _ s _ _.
            Leads-bind Any Any _ _ s
              (change_slot-Advancing env reads proofs_slot _ (remove_proof-IsMild proof.id) s)
              λ _ t _ _.
                Leads-bind Any Any _ _ t (ask-Advancing (env.discard_file proof.uri) t)
                  λ _ u _ _. (Advances-refl u, tt))
    | inr retry ↦ rw retry (
        Leads-bind Any Any _ _ r (go_offline-Advancing env reads r)
          λ _ s _ _. (Advances-refl s, tt))
  ]

  send_photo-Advancing :
      (cache : JobsCache) (proof : QueuedProof) → Advancing (send_photo env cache proof)
  unfolding send_photo
  send_photo-Advancing cache proof =
      try_catch-Advancing _ _
        (λ r. Leads-bind Any Any _ _ r (upload-Advancing proof r) λ _ s _ _. (Advances-refl s, tt))
        (upload_failed-Advancing cache proof)

  send_photos-Advancing :
      (cache : JobsCache) (proofs : List QueuedProof) → Advancing (send_photos env cache proofs)
  unfolding send_photos
  send_photos-Advancing cache [] r = (Advances-refl r, tt)
  send_photos-Advancing cache (proof ∷ proofs) r =
      Leads-bind Any Any _ _ r (send_photo-Advancing cache proof r) λ end s _ _.
        sent_or-Advancing env reads _ _ end (send_photos-Advancing cache proofs)
          (pure-Advancing env reads tt) s

  unless_offline-Advancing :
      (m : Exec (Run W) (Unit {0})) → Advancing m → Advancing (unless_offline env m)
  unfolding unless_offline
  unless_offline-Advancing m h r = when_online r.summary.offline m r (h r)

  photos_step-Advancing : (cache : JobsCache) → Advancing (photos_step env cache)
  unfolding photos_step
  photos_step-Advancing cache = unless_offline-Advancing _ λ r.
      Leads-bind Any Any _ _ r (read-Advancing env load_proofs r)
        λ proofs s _ _. send_photos-Advancing cache proofs s

  refresh_jobs-Advancing : Advancing (refresh_jobs env)
  unfolding refresh_jobs
  refresh_jobs-Advancing r = Leads-bind Any Any _ _ r (ask-Advancing env.fetch_jobs r) λ jobs s _ _.
      Leads-bind Any Any (draw env env.now) _ s (world-Advances _ s, tt)
        λ at t _ _.
          Leads-bind Any Any _ _ t (write-Advancing env _ (save_jobs-IsMild jobs at) t)
            λ _ u _ _. summarise-Advancing mark_refreshed u

  refresh_step-Advancing : Advancing (refresh_step env)
  unfolding refresh_step
  refresh_step-Advancing =
      unless_offline-Advancing _
        (try_catch-Advancing _ _ refresh_jobs-Advancing (λ _. go_offline-Advancing env reads))

  count_remaining-Advancing : Advancing (count_remaining env)
  unfolding count_remaining
  count_remaining-Advancing r =
      Leads-bind Any Any _ _ r (read-Advancing env load_ops r) λ ops s _ _.
        Leads-bind Any Any _ _ s (read-Advancing env load_proofs s) λ proofs t _ _.
          Leads-bind Any Any _ _ t
            (summarise-Advancing (set_remaining (length ops) (length proofs)) t)
            λ _ u _ _. (Advances-refl u, tt)

  flush-Advancing : Advancing (flush env)
  unfolding flush
  flush-Advancing r =
      Leads-bind Any Any _ _ r (summarise-Advancing (λ _. empty_summary) r) λ _ s _ _.
        Leads-bind Any Any _ _ s (read-Advancing env load_jobs s) λ cache t _ _.
          Leads-bind Any Any _ _ t (read-Advancing env load_ops t) λ ops u _ _.
            Leads-bind Any Any _ _ u (send_queue-Advancing env reads cache ops u) λ _ v _ _.
              Leads-bind Any Any _ _ v (photos_step-Advancing cache v) λ _ w _ _.
                Leads-bind Any Any _ _ w (refresh_step-Advancing w)
                  λ _ x _ _. count_remaining-Advancing x

  ended-Advances : {A : Type 0} (r : Run W) (x : Result A × Run W) → Leads r Any x → Advances r x.1
  ended-Advances r (ok a, s) h = h.0
  ended-Advances r (err t, s) h = h

  -- If every read of the store gives what is stored, then whatever the network and the writes of the
  -- store do, whether the run returns or throws, and whatever the rider does meanwhile: an action that is queued, or that the rider takes during the run, is
  -- afterwards still queued, or still to be taken, or the server answered that it applied it, or the
  -- server refused it and an issue about it is stored.
  pub flush_never_drops : (r : Run W) (o : QueuedOp) → Kept o r → Kept o (flush env r).1
  flush_never_drops r o h = (ended-Advances r (flush env r) (flush-Advancing r)).keeps o h

  -- If every read of the store gives what is stored, an issue that is stored is still stored after a
  -- run, however the run ends.
  pub flush_keeps_issues :
      (r : Run W) (i : SyncIssue)
      → Has i (load_issues r.phone)
      → Has i (load_issues (flush env r).1.phone)
  flush_keeps_issues r i h = (ended-Advances r (flush env r) (flush-Advancing r)).issues_grow i h
