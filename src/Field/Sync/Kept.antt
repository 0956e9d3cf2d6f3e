-- ===== src/Field/Sync/Kept.antt =====
-- What a run may do to a queued action: keep it, or settle it by the server's answer.
use ironman.Prelude.{String, ◌≡◌, ◌≢◌, ◌⊎◌, inl, inr, true, List, [], ◌∷◌, Has}
use ironman.Exec.{Thrown, Result, ok, err, Exec, Ends, and_then, ◌>>=◌}
use ironman.Field.Types.{QueuedOp, SyncIssue, applied, OfflineOpResult}
use ironman.Field.Store.{load_ops, load_issues}
use ironman.Field.Sync.{Run, Exchange, Arrival, new_op, is_final_refusal, what_label, ids_of}

-- The server gave this answer to some batch.
pub data OnWire (x : OfflineOpResult) (wire : List Exchange) : Type 0 where
  on_wire :
      (e : Exchange) (rs : List OfflineOpResult)
      → Has e wire
      → e.outcome ≡ ok rs
      → Has x rs
      → OnWire x wire

-- The server refused the action: it answered with another status than APPLIED, or it refused for
-- good a batch of that action alone.
pub data RefusedOnWire (id : String) (wire : List Exchange) : Type 0 where
  not_applied :
      (x : OfflineOpResult)
      → OnWire x wire
      → x.client_op_id ≡ id
      → x.status ≢ applied
      → RefusedOnWire id wire
  refused_alone :
      (e : Exchange) (t : Thrown)
      → Has e wire
      → ids_of e.batch ≡ id ∷ []
      → e.outcome ≡ err t
      → is_final_refusal t ≡ true
      → RefusedOnWire id wire

pub data AppliedOnWire (id : String) (wire : List Exchange) : Type 0 where
  answered :
      (x : OfflineOpResult)
      → OnWire x wire
      → x.client_op_id ≡ id
      → x.status ≡ applied
      → AppliedOnWire id wire

-- An issue about an action with this id is among those that the rider will be shown.
pub data Reported (id : String) (issues : List SyncIssue) : Type 0 where
  reported :
      (op : QueuedOp) (i : SyncIssue)
      → op.client_op_id ≡ id
      → Has i issues
      → i.job_id ≡ op.job_id
      → i.what ≡ what_label op.op_type
      → Reported id issues

abbrev pub Decided : String → List Exchange → List SyncIssue → Type 0
Decided id wire issues = AppliedOnWire id wire ⊎ RefusedOnWire id wire × Reported id issues

-- The rider takes this action at some later moment of the run.
abbrev pub Upcoming : QueuedOp → List (List Arrival) → Type 0
Upcoming o [] = ⊥
Upcoming o (now ∷ later) = Has (new_op o) now ⊎ Upcoming o later

module _ {W : Type 0} where
  abbrev pub Settled : String → Run W → Type 0
  Settled id r = Decided id r.wire (load_issues r.phone)

  -- The action waits, or is yet to be taken, or has its answer.
  abbrev pub Kept : QueuedOp → Run W → Type 0
  Kept o r = Has o (load_ops r.phone) ⊎ Upcoming o r.arrivals ⊎ Settled o.client_op_id r

  pub record Advances (r r' : Run W) : Type 0 where
    pub wire_grows : (e : Exchange) → Has e r.wire → Has e r'.wire
    pub issues_grow : (i : SyncIssue) → Has i (load_issues r.phone) → Has i (load_issues r'.phone)
    pub keeps : (o : QueuedOp) → Kept o r → Kept o r'

pub OnWire-mono :
    {x : OfflineOpResult} {w w' : List Exchange}
    → ((e : Exchange) → Has e w → Has e w')
    → OnWire x w
    → OnWire x w'
OnWire-mono f (on_wire e rs h p m) = on_wire e rs (f e h) p m

pub RefusedOnWire-mono :
    {id : String} {w w' : List Exchange}
    → ((e : Exchange) → Has e w → Has e w')
    → RefusedOnWire id w
    → RefusedOnWire id w'
RefusedOnWire-mono f (not_applied x o p q) = not_applied x (OnWire-mono f o) p q
RefusedOnWire-mono f (refused_alone e t m p q s) = refused_alone e t (f e m) p q s

pub Decided-mono :
    {id : String} {w w' : List Exchange} {is is' : List SyncIssue}
    → ((e : Exchange) → Has e w → Has e w')
    → ((i : SyncIssue) → Has i is → Has i is')
    → Decided id w is
    → Decided id w' is'
Decided-mono f g (inl (answered x o p q)) = inl (answered x (OnWire-mono f o) p q)
Decided-mono f g (inr (refused, reported op i e h j k)) =
    inr (RefusedOnWire-mono f refused, reported op i e (g i h) j k)

module _ {W : Type 0} where
  pub Advances-refl : (r : Run W) → Advances r r
  Advances-refl r = record { wire_grows = λ e h. h; issues_grow = λ i h. h; keeps = λ o h. h }

  pub Advances-trans : {r s t : Run W} → Advances r s → Advances s t → Advances r t
  Advances-trans a b = record {
    wire_grows = λ e h. b.wire_grows e (a.wire_grows e h);
    issues_grow = λ i h. b.issues_grow i (a.issues_grow i h);
    keeps = λ o h. b.keeps o (a.keeps o h);
  }

  pub Settled-mono : {id : String} {r s : Run W} → Advances r s → Settled id r → Settled id s
  Settled-mono a = Decided-mono a.wire_grows a.issues_grow

  -- The rules for runs: from `r`, the run advances, and leaves `Q` of its value if it does not throw.
  abbrev pub Leads : {A : Type 0} (r : Run W) (Q : A → Run W → Type 0) → Result A × Run W → Type 0
  Leads r Q = Ends (λ a s. Advances r s × Q a s) (λ s. Advances r s)

  pub Leads-from :
      {A : Type 0} (r s : Run W) (Q : A → Run W → Type 0) (x : Result A × Run W)
      → Advances r s
      → Leads s Q x
      → Leads r Q x
  Leads-from r s Q (ok a, t) adv h = (Advances-trans adv h.0, h.1)
  Leads-from r s Q (err e, t) adv h = Advances-trans adv h

  and_then-Leads :
      {A B : Type 0} (R : A → Run W → Type 0) (Q : B → Run W → Type 0) (r : Run W)
      (f : A → Exec (Run W) B) (x : Result A × Run W)
      → Leads r R x
      → ((a : A) (s : Run W) → Advances r s → R a s → Leads s Q (f a s))
      → Leads r Q (and_then f x.0 x.1)
  and_then-Leads R Q r f (ok a, s) h k = Leads-from r s Q (f a s) h.0 (k a s h.0 h.1)
  and_then-Leads R Q r f (err e, s) h k = h

  pub Leads-bind :
      {A B : Type 0} (R : A → Run W → Type 0) (Q : B → Run W → Type 0) (m : Exec (Run W) A)
      (f : A → Exec (Run W) B) (r : Run W)
      → Leads r R (m r)
      → ((a : A) (s : Run W) → Advances r s → R a s → Leads s Q (f a s))
      → Leads r Q ((m >>= f) r)
  unfolding ◌>>=◌
  Leads-bind R Q m f r h k = and_then-Leads R Q r f (m r) h k

  abbrev pub Any : {A : Type 0} → A → Run W → Type 0
  Any a r = Unit {0}

  abbrev pub Advancing : {A : Type 0} → Exec (Run W) A → Type 0
  Advancing m = (r : Run W) → Leads r Any (m r)
