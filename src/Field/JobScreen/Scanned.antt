-- ===== src/Field/JobScreen/Scanned.antt =====
-- The tags of a delivery, from the camera to the queue.
use ironman.Prelude.{
  ◌≡◌, refl, sym, ap, subst, ◌∙◌, inl, inr, ℕ, ◌+◌, ◌≤◌, max, String, true, false, not, ◌&&◌,
  Option, none, some, List, [], ◌∷◌, ◌++◌, length, includes, Has, filter-Has, append-Has,
  Has-includes, Distinct, snoc-Distinct, filter-Distinct, leb, ltb, leb→le, arith, Bool-cases, ◌==◌,
}
use mathlib.Core.Option.{some-injective}
use ironman.Booking.{trim}
use ironman.Json.{arr, nil}
use ironman.Field.Types.{JobKind, delivery, arrived, done, JobCard, job_complete, QueuedOp}
use ironman.Field.Rules.{next_status}
use ironman.Field.Sync.{Env, Run, Reads}
use ironman.Field.Engine.{complete, current_status, json_texts, json_lines}
use ironman.Field.Engine.Queue.{Moved, enqueue_quiet}
use ironman.Field.JobScreen.{
  is_bag_code, CompletionCard, opened_card, is_ready, on_code, add_parsed, show_scan, CardAct,
  parse_bag_code, handle_scan, card_step, Handled, open_card, refresh, act, completion_of,
  press_complete,
}

abbrev pub AreBagCodes : List String → Type 0
AreBagCodes codes = (tag : String) → Has tag codes → is_bag_code tag ≡ true

-- The tags on the card are bag codes, and none stands there twice.
pub record IsTidy (c : CompletionCard) : Type 0 where
  pub once : Distinct c.codes
  pub real : AreBagCodes c.codes

snoc-AreBagCodes :
    (tag : String) (codes : List String)
    → is_bag_code tag ≡ true
    → AreBagCodes codes
    → AreBagCodes (codes ++ tag ∷ [])
snoc-AreBagCodes tag codes good real t has = elim (append-Has t codes (tag ∷ []) has) [
  | inl old ↦ real t old
  | inr (inl e) ↦ ap is_bag_code e ∙ good
  | inr (inr f) ↦ absurd f
]

unlisted : (codes : List String) (tag : String) → includes codes tag ≡ false → ¬ Has tag codes
unlisted codes tag e has = ground (arith, e, Has-includes codes tag has)

add_parsed-IsTidy :
    (o : Option String) (c : CompletionCard)
    → ((tag : String) → o ≡ some tag → is_bag_code tag ≡ true)
    → IsTidy c
    → IsTidy (add_parsed o c)
add_parsed-IsTidy none c good inv = record { once = inv.once; real = inv.real }
add_parsed-IsTidy (some tag) c good inv = elim (Bool-cases (includes c.codes tag)) [
  | inl t ↦ rw t (record { once = inv.once; real = inv.real })
  | inr f ↦ rw f (record {
    once = snoc-Distinct tag c.codes (unlisted c.codes tag f) inv.once;
    real = snoc-AreBagCodes tag c.codes (good tag refl) inv.real;
  })
]

show_scan-IsTidy :
    (o : Option String) (c : CompletionCard)
    → ((tag : String) → o ≡ some tag → is_bag_code tag ≡ true)
    → IsTidy c
    → IsTidy (show_scan o c)
unfolding on_code
show_scan-IsTidy none c good inv = record { once = inv.once; real = inv.real }
show_scan-IsTidy (some tag) c good inv = elim (Bool-cases (includes c.codes tag)) [
  | inl t ↦ rw t (record { once = inv.once; real = inv.real })
  | inr f ↦ rw f (record {
    once = snoc-Distinct tag c.codes (unlisted c.codes tag f) inv.once;
    real = snoc-AreBagCodes tag c.codes (good tag refl) inv.real;
  })
]

-- A press on a card that is ready, for a job of a kind that is known.
pub press_complete-is_ready :
    {W : Type 0} (env : Env W) (job : JobCard) (kind : JobKind) (c : CompletionCard) (r : Run W)
    → is_ready job c ≡ true
    → job.kind ≡ kind
    → press_complete env job c r ≡ complete env job (completion_of kind c) r
unfolding press_complete
press_complete-is_ready env job kind c r fine same =
    rw fine (ap (λ k. complete env job (completion_of k c) r) same)

module _ (upper : String → String) where
  parse_bag_code-good :
      (input tag : String) → parse_bag_code upper input ≡ some tag → is_bag_code tag ≡ true
  unfolding parse_bag_code
  parse_bag_code-good input tag e = elim (Bool-cases (is_bag_code (upper (trim input)))) [
    | inl t ↦
        ap is_bag_code (
          sym (
            some-injective (upper (trim input)) tag
              (let h : some (upper (trim input)) ≡ some tag = (rw t at e) in h)))
        ∙ t
    | inr f ↦ absurd (let h : none ≡ some tag = (rw f at e) in ground (arith, h))
  ]

  handle_scan-IsTidy :
      (now : ℕ) (raw : String) (c : CompletionCard)
      → IsTidy c
      → IsTidy (handle_scan upper now raw c)
  unfolding handle_scan
  handle_scan-IsTidy now raw c inv =
      elim (Bool-cases (raw == c.last_code && ltb now (c.last_at + 2000))) [
        | inl again ↦ rw again inv
        | inr first ↦ rw first (
            show_scan-IsTidy (parse_bag_code upper raw)
              (record c { last_code = raw; last_at = now }) (parse_bag_code-good raw)
              (record { once = inv.once; real = inv.real }))
      ]

  -- Whatever the camera reports, the rider types and takes off, in any order: every tag on the card is a
  -- bag code, and none is counted twice.
  pub Handled-IsTidy :
      {opened job : JobCard} {shown : List JobCard} {c : CompletionCard}
      → Handled upper opened job shown c
      → IsTidy c
  unfolding opened_card card_step
  Handled-IsTidy open_card = record { once = tt; real = λ tag has. absurd has }
  Handled-IsTidy (refresh handled fresh same) = Handled-IsTidy handled
  Handled-IsTidy (act {c = c} handled (CardAct.add_typed) allowed) =
      add_parsed-IsTidy (parse_bag_code upper c.typed) c (parse_bag_code-good c.typed)
        (Handled-IsTidy handled)
  Handled-IsTidy (act {c = c} handled (CardAct.report now raw) allowed) =
      handle_scan-IsTidy now raw c (Handled-IsTidy handled)
  Handled-IsTidy (act {c = c} handled (CardAct.tap_code tag) allowed) =
      let inv = Handled-IsTidy handled in
      record {
        once = filter-Distinct (λ x. not (x == tag)) c.codes inv.once;
        real = λ t has. inv.real t (filter-Has (λ x. not (x == tag)) t c.codes has).0;
      }
  Handled-IsTidy (act handled a allowed) =
      let inv = Handled-IsTidy handled in record { once = inv.once; real = inv.real }

  -- When a rider at the customer's door can complete a delivery, every read of the store gives what is
  -- stored and no other tap comes in between: completing it queues one action, last, and the job is done
  -- on the phone, or the write fails, and the press throws that and the phone is as it was. The action
  -- carries no counts and the tags of the card: at least as many as the order then has bags, and at
  -- least one, all bag codes, and no bag twice.
  pub delivery_exact :
      {W : Type 0} (env : Env W) (r : Run W) {opened job : JobCard} {shown : List JobCard}
      {c : CompletionCard}
      → Handled upper opened job shown c
      → Reads env
      → r.arrivals ≡ []
      → job.kind ≡ delivery
      → is_ready job c ≡ true
      → current_status r.phone job ≡ arrived
      → ((op : QueuedOp) × (op.job_id ≡ job.id)
          × (op.op_type ≡ job_complete)
          × (op.payload
              ≡ ("declared_lines", arr nil) ∷ ("bag_codes", arr (json_texts c.codes)) ∷ [])
          × Moved env job r op done (press_complete env job c r))
        × (max job.bag_count 1 ≤ length c.codes)
        × Distinct c.codes
        × AreBagCodes c.codes
  unfolding is_ready complete json_lines next_status
  delivery_exact env r {opened} {job} {shown} {c} handled reads quiet kind fine at_door =
      let inv = Handled-IsTidy handled in
      let enough : leb (max job.bag_count 1) (length c.codes) ≡ true = (rw kind at fine) in
      let (op, (on, kind_of, with_tags), moved) =
        enqueue_quiet env job job_complete
          (("declared_lines", arr nil) ∷ ("bag_codes", arr (json_texts c.codes)) ∷ []) r reads quiet
          done (ap (λ s. next_status s job_complete) at_door) in
      let pressed = press_complete-is_ready env job delivery c r fine kind in
      (
        (op, on, kind_of, with_tags, subst (Moved env job r op done) (sym pressed) moved),
        leb→le (max job.bag_count 1) (length c.codes) enough,
        inv.once,
        inv.real,
      )
