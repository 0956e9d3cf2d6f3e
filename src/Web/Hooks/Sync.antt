-- ===== src/Web/Hooks/Sync.antt =====
-- `useSyncOfflineQueue`: what a rider is told of a flush of the browser's queue (Web/Offline).
use Prim.Native.String.{◌++◌ as join}
use ironman.Prelude.{
  ℕ, suc, ◌+◌, ◌<◌, ◌≡◌, ◌⊎◌, inl, inr, refl, String, List, [], ◌∷◌, ltb, if◌then◌else◌, Bool-cases,
  arith,
}
use ironman.Web.Offline.{FlushResult}
use ironman.Web.Hooks.{success, warning, Effect, invalidate, toast}
use ironman.Web.Hooks.Custody.{plural}
use ironman.Web.Hooks.Fresh.Scans.{toasts_of}

abbrev pub count : {A : Type 0} → List A → ℕ
count [] = 0
count (x ∷ xs) = suc (count xs)

abbrev pub synced : FlushResult → ℕ
synced r = r.applied_ops + r.uploaded_proofs

abbrev pub not_applied : FlushResult → ℕ
not_applied r = count r.conflicts + count r.refusals

abbrev pub not_applied_text : (ℕ → String) → FlushResult → String
not_applied_text number_text r = join "Synced " (
    join (number_text (synced r))
      (join " — " (join (number_text (not_applied r)) " couldn't apply (check those jobs).")))

abbrev pub synced_text : (ℕ → String) → FlushResult → String
synced_text number_text r =
    join "Synced "
      (join (number_text (synced r)) (join " queued action" (join (plural (synced r)) ".")))

abbrev pub sync_messages : (ℕ → String) → FlushResult → List Effect
sync_messages number_text r =
    if ltb 0 (not_applied r)
    then toast (warning (not_applied_text number_text r)) ∷ []
    else if ltb 0 (synced r)
    then toast (success (synced_text number_text r)) ∷ []
    else []

unfoldable pub on_synced : (ℕ → String) → FlushResult → List Effect
on_synced number_text r =
    invalidate ("offline-pending-count" ∷ [])
    ∷ invalidate ("my-jobs" ∷ [])
    ∷ invalidate ("job" ∷ [])
    ∷ sync_messages number_text r

-- A rider is warned exactly if the server refused an action of the queue, is told of a success exactly
-- if it refused none and something was sent, and hears nothing of a flush that did nothing.
pub synced_exact :
    (number_text : ℕ → String) (r : FlushResult)
    → ((0 < not_applied r)
        × (toasts_of (on_synced number_text r) ≡ warning (not_applied_text number_text r) ∷ []))
      ⊎ ((not_applied r ≡ 0)
          × (0 < synced r)
          × (toasts_of (on_synced number_text r) ≡ success (synced_text number_text r) ∷ []))
      ⊎ ((not_applied r ≡ 0) × (synced r ≡ 0) × (toasts_of (on_synced number_text r) ≡ []))
unfolding on_synced
synced_exact number_text r = elim (Bool-cases (ltb 0 (not_applied r))) [
  | inl bad ↦ inl (ground (arith, bad), rw bad refl)
  | inr good ↦ elim (Bool-cases (ltb 0 (synced r))) [
    | inl sent ↦ inr (inl (ground (arith, good), ground (arith, sent), rw good (rw sent refl)))
    | inr idle ↦ inr (inr (ground (arith, good), ground (arith, idle), rw good (rw idle refl)))
  ]
]
