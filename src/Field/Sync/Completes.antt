-- ===== src/Field/Sync/Completes.antt =====
-- A whole run of `flush` with the server in reach.
use ironman.Prelude.{
  ◌≡◌, refl, ap, inl, inr, Bool, true, false, List, [], ◌∷◌, length, Has, Bool-cases,
}
use ironman.Exec.{Thrown, Result, ok, err, Exec, Ends, Ends-bind, pure, recover, try_catch, ◌>>=◌}
use ironman.Field.Types.{QueuedOp, QueuedProof}
use ironman.Field.Store.{Phone, JobsCache, load_jobs, load_ops, load_proofs}
use ironman.Field.Sync.{
  Env, Run, SyncSummary, Sent, sent, gone_offline, catch_up, read, is_final_refusal, empty_summary,
  message_or, ids_of,
}
use ironman.Field.Sync.Steps.{
  summarise, ask, draw, count_upload, mark_refreshed, mark_offline, unless,
}
use ironman.Field.Sync.Flush.{
  go_offline, upload, upload_failed, send_photo, send_photos, refresh_jobs, unless_offline,
  photos_step, refresh_step, count_remaining, flush,
}
use ironman.Field.Sync.Waiting.{
  IsReachable, Waiting, Besides, quiet_catch_up, read-Waiting, summarise-Waiting, save_jobs-Waiting,
  remove_proof-Waiting, report-Waiting,
}
use ironman.Field.Sync.Drains.{send_queue-Waiting, Waiting-mono}

module _ {W : Type 0} (P : QueuedOp → Type 0) where
  -- Whether a step returns or throws, the queue is as it was.
  abbrev Stays : {A : Type 0} → Exec (Run W) A → Type 0
  Stays m = (r : Run W) → Waiting P r → Ends (λ _. Waiting P) (Waiting P) (m r)

  recover-Stays :
      {A : Type 0} (h : Thrown → Exec (Run W) A) (x : Result A × Run W)
      → Ends (λ _. Waiting P) (Waiting P) x
      → ((t : Thrown) → Stays (h t))
      → Ends (λ _. Waiting P) (Waiting P) (recover h x.0 x.1)
  recover-Stays h (ok a, s) w k = w
  recover-Stays h (err t, s) w k = k t s w

  try_catch-Stays :
      {A : Type 0} (m : Exec (Run W) A) (h : Thrown → Exec (Run W) A)
      → Stays m
      → ((t : Thrown) → Stays (h t))
      → Stays (try_catch m h)
  unfolding try_catch
  try_catch-Stays m h km kh r w = recover-Stays h (m r) (km r w) kh

  bind-Stays :
      {A B : Type 0} (m : Exec (Run W) A) (f : A → Exec (Run W) B)
      → Stays m
      → ((a : A) → Stays (f a))
      → Stays (m >>= f)
  bind-Stays m f km kf r w =
      Ends-bind (λ _. Waiting P) (λ _. Waiting P) (Waiting P) m f r (km r w) (λ a s. kf a s)

  pure-Stays : {A : Type 0} (a : A) → Stays (pure a)
  pure-Stays a r w = w

  world-Stays :
      {A : Type 0} (r : Run W) (x : Result A × W)
      → Waiting P r
      → Ends (λ _. Waiting P) (Waiting P) (x.0, record r { world = x.1 })
  world-Stays r (ok a, w) h = record { quiet = h.quiet; only = h.only }
  world-Stays r (err t, w) h = record { quiet = h.quiet; only = h.only }

  unless-Stays : (b : Bool) (m : Exec (Run W) (Unit {0})) → Stays m → Stays (unless b m)
  unless-Stays true m k r w = w
  unless-Stays false m k r w = k r w

  sent_or-Stays :
      {A : Type 0} (m k : Exec (Run W) A) (end : Sent)
      → Stays m
      → Stays k
      → Stays (elim end [ sent ↦ m | gone_offline ↦ k ])
  sent_or-Stays m k sent hm hk = hm
  sent_or-Stays m k gone_offline hm hk = hk

  summarise-Stays : (f : SyncSummary → SyncSummary) → Stays (summarise f)
  summarise-Stays f r w = summarise-Waiting P (Waiting P) f r w

module _ {W : Type 0} (env : Env W) (reach : IsReachable env) (P : QueuedOp → Type 0) where
  read-Stays : {A : Type 0} (f : Phone → A) → Stays P (read env f)
  read-Stays f r w = weaken f (read env f r) (read-Waiting env reach P (Waiting P) f r w)
    where
      weaken :
          {A : Type 0} (f : Phone → A) (x : Result A × Run W)
          → Ends (λ a s. Waiting P s × (a ≡ f s.phone)) (Waiting P) x
          → Ends (λ _. Waiting P) (Waiting P) x
      weaken f (ok a, s) h = h.0
      weaken f (err t, s) h = h

  ask-Stays : {A : Type 0} (call : W → Result A × W) → Stays P (ask env call)
  ask-Stays call r h = world-Stays P r (call r.world) h

  draw-Stays : {A : Type 0} (call : W → A × W) → Stays P (draw env call)
  draw-Stays call r h = record { quiet = h.quiet; only = h.only }

  upload-Stays : (proof : QueuedProof) → Stays P (upload env proof)
  unfolding upload
  upload-Stays proof = bind-Stays P _ _ (ask-Stays (env.upload_proof proof)) λ _.
      bind-Stays P _ _ (remove_proof-Waiting env reach P (Waiting P) proof.id) λ _.
        bind-Stays P _ _ (ask-Stays (env.discard_file proof.uri))
          λ _. summarise-Stays P count_upload

  upload_failed-Stays :
      (cache : JobsCache) (proof : QueuedProof) (error : Thrown)
      → Stays P (upload_failed env cache proof error)
  unfolding upload_failed go_offline
  upload_failed-Stays cache proof error = elim (Bool-cases (is_final_refusal error)) [
    | inl final ↦ rw final (
        bind-Stays P _ _
          (report-Waiting env reach P (Waiting P) cache proof.job_id "Uploading a photo"
            (message_or "The photo was refused." error))
          λ _.
            bind-Stays P _ _ (remove_proof-Waiting env reach P (Waiting P) proof.id)
              λ _. bind-Stays P _ _ (ask-Stays (env.discard_file proof.uri)) λ _. pure-Stays P sent)
    | inr retry ↦
        rw retry (bind-Stays P _ _ (summarise-Stays P mark_offline) λ _. pure-Stays P gone_offline)
  ]

  send_photos-Stays :
      (cache : JobsCache) (proofs : List QueuedProof) → Stays P (send_photos env cache proofs)
  unfolding send_photos send_photo
  send_photos-Stays cache [] = pure-Stays P tt
  send_photos-Stays cache (proof ∷ proofs) =
      bind-Stays P _ _
        (try_catch-Stays P _ _ (bind-Stays P _ _ (upload-Stays proof) (λ _. pure-Stays P sent))
          (upload_failed-Stays cache proof))
        λ end. sent_or-Stays P _ _ end (send_photos-Stays cache proofs) (pure-Stays P tt)

  photos_step-Stays : (cache : JobsCache) → Stays P (photos_step env cache)
  unfolding photos_step unless_offline
  photos_step-Stays cache r =
      unless-Stays P r.summary.offline _
        (bind-Stays P _ _ (read-Stays load_proofs) (λ proofs. send_photos-Stays cache proofs)) r

  refresh_step-Stays : Stays P (refresh_step env)
  unfolding refresh_step unless_offline refresh_jobs go_offline
  refresh_step-Stays r =
      unless-Stays P r.summary.offline _
        (try_catch-Stays P _ _
          (bind-Stays P _ _ (ask-Stays env.fetch_jobs) λ jobs.
            bind-Stays P _ _ (draw-Stays env.now) λ at.
              bind-Stays P _ _ (save_jobs-Waiting env reach P (Waiting P) jobs at)
                λ _. summarise-Stays P mark_refreshed)
          (λ _. summarise-Stays P mark_offline))
        r

abbrev Never : QueuedOp → Type 0
Never o = ⊥

empty_of_Never : (l : List QueuedOp) → ((o : QueuedOp) → Has o l → ⊥) → l ≡ []
empty_of_Never [] h = refl
empty_of_Never (o ∷ l) h = absurd (h o (inl refl))

Has-ids : (o : QueuedOp) (ops : List QueuedOp) → Has o ops → Has o.client_op_id (ids_of ops)
Has-ids o [] h = h
Has-ids o (x ∷ ops) (inl e) = inl (ap (λ (y : QueuedOp). y.client_op_id) e)
Has-ids o (x ∷ ops) (inr h) = inr (Has-ids o ops h)

module _ {W : Type 0} (env : Env W) (reach : IsReachable env) where
  -- The run reports that nothing is left, and nothing is.
  abbrev Emptied : Result SyncSummary × Run W → Type 0
  Emptied =
      Ends (λ summary s. (summary.remaining_ops ≡ 0) × (load_ops s.phone ≡ []))
        (λ s. load_ops s.phone ≡ [])

  count_remaining-Emptied : (r : Run W) → Waiting Never r → Emptied (count_remaining env r)
  unfolding count_remaining summarise ◌>>=◌ read
  count_remaining-Emptied r h =
      rw
        (
          reach.looks (catch_up r).world,
          quiet_catch_up r h.quiet,
          quiet_catch_up (record r { world = (env.get_item r.world).1 }) h.quiet,
        )
        (ap length (empty_of_Never _ h.only), empty_of_Never _ h.only)

  -- A step from an empty queue, whatever becomes of it.
  idle :
      {A : Type 0} (m : Exec (Run W) A)
      → Stays Never m
      → (r : Run W) → Waiting Never r
      → Ends (λ _. Waiting Never) (λ s. load_ops s.phone ≡ []) (m r)
  idle {A} m k r h = weaken (m r) (k r h)
    where
      weaken :
          (x : Result A × Run W)
          → Ends (λ _. Waiting Never) (Waiting Never) x
          → Ends (λ _. Waiting Never) (λ s. load_ops s.phone ≡ []) x
      weaken (ok a, s) w = w
      weaken (err t, s) w = empty_of_Never _ w.only

  -- If storage answers every read and takes every write, the rider takes no further action, and the server answers each
  -- action of every batch or refuses the batch for good, then one run empties the queue, however
  -- the photos and the refresh of the day end: a run that returns reports nothing remaining.
  pub flush_drains :
      (r : Run W)
      → r.arrivals ≡ []
      → Ends
          (λ summary s. (summary.remaining_ops ≡ 0) × (load_ops s.phone ≡ []))
          (λ s. load_ops s.phone ≡ [])
          (flush env r)
  unfolding flush
  flush_drains r quiet =
      let P : QueuedOp → Type 0 = λ o. Has o (load_ops r.phone) in
      let E : Run W → Type 0 = λ s. load_ops s.phone ≡ [] in
      let start : Waiting P r = record { quiet = quiet; only = λ o m. m } in
      Ends-bind (λ _. Waiting P) _ E _ _ r (summarise-Waiting P E (λ _. empty_summary) r start)
        λ _ s hs.
          Ends-bind (λ a t. Waiting P t × (a ≡ load_jobs t.phone)) _ E _ _ s
            (read-Waiting env reach P E load_jobs s hs)
            λ cache t ht.
              Ends-bind (λ a u. Waiting P u × (a ≡ load_ops u.phone)) _ E _ _ t
                (read-Waiting env reach P E load_ops t ht.0)
                λ ops u hu.
                  let queued : Waiting (λ o. Has o ops) u = record {
                    quiet = hu.0.quiet;
                    only = λ o m. rw hu.1 m;
                  } in
                  Ends-bind (λ _. Waiting (Besides (ids_of ops) (λ o. Has o ops))) _ E _ _ u
                    (send_queue-Waiting env reach E (λ o. Has o ops) cache ops u queued)
                    λ _ v hv.
                      let none_left : Waiting Never v =
                        Waiting-mono (λ o b. b.1 (Has-ids o ops b.0)) hv in
                      Ends-bind (λ _. Waiting Never) _ E _ _ v
                        (idle (photos_step env cache) (photos_step-Stays env reach Never cache) v
                          none_left)
                        λ _ w hw.
                          Ends-bind (λ _. Waiting Never) _ E _ _ w
                            (idle (refresh_step env) (refresh_step-Stays env reach Never) w hw)
                            λ _ x hx. count_remaining-Emptied x hx
