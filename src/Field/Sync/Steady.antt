-- ===== src/Field/Sync/Steady.antt =====
-- The steps of a run and what was queued before them.
use mathlib.Core.Path.{subst}
use ironman.Prelude.{
  String, ◌≡◌, refl, inl, inr, some, List, [], ◌∷◌, Has, Has-append_left, Has-append_right,
  includes, Has-filter, includes-Has, Bool-cases, Option-cases, ◌==◌, eq_iff,
}
use ironman.Exec.{Result, ok, err}
use ironman.Field.Types.{JobStatus, JobCard, QueuedOp, SyncIssue, OfflineOpResult}
use ironman.Field.Store.{
  Phone, save_jobs, patch_job, load_ops, add_op, add_proof, remove_ops, remove_proof, load_issues,
  add_issues, set_device,
}
use ironman.Field.Sync.{
  Env, Run, SyncSummary, Arrival, new_op, new_photo, arrive, catch_up, catch_up_from, Reads, Slot,
  looked, read, result_for,
}
use ironman.Field.Sync.Steps.{summarise, written, write, change_slot}
use ironman.Field.Sync.Kept.{
  Decided-mono, Settled, Upcoming, Kept, Advances, Advances-refl, Advances-trans, Leads, Advancing,
}

Has-arrive :
    (o : QueuedOp) (now : List Arrival) (p : Phone)
    → Has o (load_ops p)
    → Has o (load_ops (arrive now p))
unfolding arrive load_ops add_op add_proof
Has-arrive o [] p h = h
Has-arrive o (new_op op ∷ now) p h =
    Has-arrive o now (add_op op p) (Has-append_left o (load_ops p) (op ∷ []) h)
Has-arrive o (new_photo proof ∷ now) p h = Has-arrive o now (add_proof proof p) h

arrived-Has :
    (o : QueuedOp) (now : List Arrival) (p : Phone)
    → Has (new_op o) now
    → Has o (load_ops (arrive now p))
unfolding arrive load_ops add_op add_proof
arrived-Has o [] p h = absurd h
arrived-Has o (new_op op ∷ now) p (inl e) =
    Has-arrive o now (add_op op p) (Has-append_right o (load_ops p) (op ∷ []) (inl (cc)))
arrived-Has o (new_op op ∷ now) p (inr h) = arrived-Has o now (add_op op p) h
arrived-Has o (new_photo proof ∷ now) p (inl e) = cc
arrived-Has o (new_photo proof ∷ now) p (inr h) = arrived-Has o now (add_proof proof p) h

load_issues-arrive : (now : List Arrival) (p : Phone) → load_issues (arrive now p) ≡ load_issues p
unfolding arrive load_issues add_op add_proof
load_issues-arrive [] p = refl
load_issues-arrive (new_op op ∷ now) p = load_issues-arrive now (add_op op p)
load_issues-arrive (new_photo proof ∷ now) p = load_issues-arrive now (add_proof proof p)

module _ {W : Type 0} where
  caught_up-Kept :
      (o : QueuedOp) (r : Run W) (now : List Arrival) (later : List (List Arrival))
      → Upcoming o (now ∷ later)
      → Kept o (catch_up_from (now ∷ later) r)
  unfolding catch_up_from
  caught_up-Kept o r now later (inl h) = inl (arrived-Has o now r.phone h)
  caught_up-Kept o r now later (inr h) = inr (inl h)

  at_arrivals :
      (r : Run W) (queue : List (List Arrival))
      → r.arrivals ≡ queue
      → Advances r (catch_up_from queue r)
  unfolding catch_up_from
  at_arrivals r [] e = Advances-refl r
  at_arrivals r (now ∷ later) e = record {
    wire_grows = λ x h. h;
    issues_grow = λ i h. rw (load_issues-arrive now r.phone) h;
    keeps = λ o. elim [
      | inl h ↦ inl (Has-arrive o now r.phone h)
      | inr (inl h) ↦ caught_up-Kept o r now later (subst (Upcoming o) e h)
      | inr (inr h) ↦ inr (inr (rw (load_issues-arrive now r.phone) h))
    ];
  }

  pub catch_up-Advances : (r : Run W) → Advances r (catch_up r)
  unfolding catch_up
  catch_up-Advances r = at_arrivals r r.arrivals refl

  pub summarise-Advancing : (f : SyncSummary → SyncSummary) → Advancing {W = W} (summarise f)
  unfolding summarise
  summarise-Advancing f r =
      (record { wire_grows = λ e h. h; issues_grow = λ i h. h; keeps = λ o h. h }, tt)

-- A change of the store that leaves the queue and the issues alone, or adds to them.
pub record IsMild (f : Phone → Phone) : Type 0 where
  pub keeps_ops : (p : Phone) (o : QueuedOp) → Has o (load_ops p) → Has o (load_ops (f p))
  pub keeps_issues : (p : Phone) (i : SyncIssue) → Has i (load_issues p) → Has i (load_issues (f p))

module _ {W : Type 0} where
  abbrev pub change : (Phone → Phone) → W → Run W → Run W
  change f w r = record r { phone = f r.phone; world = w }

  pub change-Advances :
      (f : Phone → Phone) (w : W) (r : Run W) → IsMild f → Advances r (change f w r)
  change-Advances f w r mild = record {
    wire_grows = λ e h. h;
    issues_grow = mild.keeps_issues r.phone;
    keeps = λ o. elim [
      | inl h ↦ inl (mild.keeps_ops r.phone o h)
      | inr (inl h) ↦ inr (inl h)
      | inr (inr h) ↦ inr (inr (Decided-mono (λ e m. m) (mild.keeps_issues r.phone) h))
    ];
  }

  pub world-Advances : (w : W) (r : Run W) → Advances r (record r { world = w })
  world-Advances w r = record { wire_grows = λ e h. h; issues_grow = λ i h. h; keeps = λ o h. h }

module _ {W : Type 0} (env : Env W) where
  pub looked-Advances : (r : Run W) → Advances r (looked env r)
  looked-Advances r =
      Advances-trans (catch_up-Advances r)
        (world-Advances (env.get_item (catch_up r).world).1 (catch_up r))

  pub read-Advancing : {A : Type 0} (f : Phone → A) → Advancing (read env f)
  unfolding read
  read-Advancing f r = (looked-Advances r, tt)

  -- What holds after the change holds when the write returns; if it throws, nothing changed.
  pub write-Leads :
      (R : Run W → Type 0) (f : Phone → Phone) (r : Run W)
      → ((w : W) → Advances (catch_up r) (change f w (catch_up r)) × R (change f w (catch_up r)))
      → Leads r (λ _. R) (write env f r)
  unfolding write
  write-Leads R f r step = go (env.set_item (catch_up r).world)
    where
      go :
          (x : Result (Unit {0}) × W)
          → Leads r
              (λ _. R)
              (x.0, record (catch_up r) { world = x.1; phone = written x.0 f (catch_up r).phone })
      go (ok u, w) = (Advances-trans (catch_up-Advances r) (step w).0, (step w).1)
      go (err t, w) = Advances-trans (catch_up-Advances r) (world-Advances w (catch_up r))

  module _ (reads : Reads env) where
    -- The same for a change of one key, if its read works.
    pub change_slot-Leads :
        (R : Run W → Type 0) (slot : Slot) (f : Phone → Phone) (r : Run W)
        → ((w : W)
            → Advances (looked env r) (change f w (looked env r)) × R (change f w (looked env r)))
        → Leads r (λ _. R) (change_slot env slot f r)
    unfolding change_slot
    change_slot-Leads R slot f r step =
        rw (reads (catch_up r).world) (go (env.set_item (looked env r).world))
      where
        go :
            (x : Result (Unit {0}) × W)
            → Leads r
                (λ _. R)
                (
                  x.0,
                  record (looked env r) { world = x.1; phone = written x.0 f (looked env r).phone },
                )
        go (ok u, w) = (Advances-trans (looked-Advances r) (step w).0, (step w).1)
        go (err t, w) = Advances-trans (looked-Advances r) (world-Advances w (looked env r))

    pub change_slot-Advancing :
        (slot : Slot) (f : Phone → Phone) → IsMild f → Advancing (change_slot env slot f)
    change_slot-Advancing slot f mild r =
        change_slot-Leads (λ _. Unit {0}) slot f r
          (λ w. (change-Advances f w (looked env r) mild, tt))

  pub write-Advancing : (f : Phone → Phone) → IsMild f → Advancing (write env f)
  write-Advancing f mild r =
      write-Leads (λ _. Unit {0}) f r (λ w. (change-Advances f w (catch_up r) mild, tt))

-- Which of the answers counts for an action.
pub result_for-Has :
    (rs : List OfflineOpResult) (id : String) (x : OfflineOpResult)
    → result_for rs id ≡ some x
    → Has x rs × (x.client_op_id ≡ id)
unfolding result_for
result_for-Has [] id x e = cc
result_for-Has (r ∷ rs) id x e = elim (Option-cases (result_for rs id)) [
  | inr (y, f) ↦ let (m, q) = result_for-Has rs id x (rw f (rw (f, result_for) at e)) in (inr m, q)
  | inl f ↦ elim (Bool-cases (r.client_op_id == id)) [
    | inl t ↦
        let g : some r ≡ some x = (rw (f, t, result_for) at e) in
        (inl (cc), cc ((eq_iff r.client_op_id id).0 t))
    | inr t ↦ cc (e, f, t)
  ]
]

pub patch_job-IsMild : (id : String) (status : JobStatus) → IsMild (patch_job id status)
unfolding patch_job load_ops load_issues
patch_job-IsMild id status = record { keeps_ops = λ p o h. h; keeps_issues = λ p i h. h }

pub save_jobs-IsMild : (jobs : List JobCard) (at : String) → IsMild (save_jobs jobs at)
unfolding save_jobs load_ops load_issues
save_jobs-IsMild jobs at = record { keeps_ops = λ p o h. h; keeps_issues = λ p i h. h }

pub remove_proof-IsMild : (id : String) → IsMild (remove_proof id)
unfolding remove_proof load_ops load_issues
remove_proof-IsMild id = record { keeps_ops = λ p o h. h; keeps_issues = λ p i h. h }

pub add_issues-IsMild : (found : List SyncIssue) → IsMild (add_issues found)
unfolding add_issues load_ops load_issues
add_issues-IsMild found = record {
  keeps_ops = λ p o h. h;
  keeps_issues = λ p i h. Has-append_left i (load_issues p) found h;
}

pub set_device-IsMild : (id : String) → IsMild (set_device id)
unfolding set_device load_ops load_issues
set_device-IsMild id = record { keeps_ops = λ p o h. h; keeps_issues = λ p i h. h }

module _ {W : Type 0} where
  -- Actions leave the queue only if each of them is settled.
  pub remove-Advances :
      (ids : List String) (w : W) (r : Run W)
      → ((id : String) → Has id ids → Settled id r)
      → Advances r (change (remove_ops ids) w r)
  unfolding remove_ops load_ops load_issues
  remove-Advances ids w r settled = record {
    wire_grows = λ e h. h;
    issues_grow = λ i h. h;
    keeps = λ o. elim [
      | inl h ↦ elim (Bool-cases (includes ids o.client_op_id)) [
        | inl gone ↦ inr (inr (settled o.client_op_id (includes-Has ids o.client_op_id gone)))
        | inr stays ↦ inl (Has-filter _ o _ h (rw stays))
      ]
      | inr h ↦ inr h
    ];
  }

pub added-Has :
    (i : SyncIssue) (found : List SyncIssue) (p : Phone)
    → Has i found
    → Has i (load_issues (add_issues found p))
unfolding add_issues load_issues
added-Has i found p h = Has-append_right i (load_issues p) found h
