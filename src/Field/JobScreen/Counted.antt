-- ===== src/Field/JobScreen/Counted.antt =====
-- The counts of a pickup, from the estimate to the queue.
use ironman.Prelude.{
  includes, ◌≡◌, refl, sym, ap, subst, ◌∙◌, ◌↔◌, ◌⊎◌, inl, inr, ℕ, ◌+◌, ◌-◌, String, true, ◌&&◌,
  Option, none, some, List, [], ◌∷◌, map, Has, any-Has, Has-map, Distinct, ltb, arith, Bool-cases,
  eq_iff, ◌==◌,
}
use ironman.Booking.{Counts, assign}
use ironman.Json.{arr, nil}
use ironman.Field.Types.{pickup, arrived, done, JobLine, JobCard, job_complete, QueuedOp}
use ironman.Field.Rules.{next_status}
use ironman.Field.Sync.{Env, Run, Reads}
use ironman.Field.Engine.{complete, current_status, json_texts, json_lines}
use ironman.Field.Engine.Queue.{Moved, enqueue_quiet}
use ironman.Field.JobScreen.Scanned.{press_complete-is_ready}
use ironman.Field.JobScreen.{
  CompletionCard, from_entries, opened_card, is_ready, quantity, add_parsed, show_scan, CardAct,
  has_line, is_usable, declared, parse_bag_code, handle_scan, card_step, Handled, open_card,
  refresh, act, press_complete,
}

abbrev pub garments : Counts → List String
garments counts = map (λ c. c.0) counts

abbrev pub line_garments : List JobLine → List String
line_garments lines = map (λ (l : JobLine). l.garment_type) lines

garments-assign :
    (g : String) (n : ℕ) (counts : Counts)
    → Has g (garments counts)
    → garments (assign g n counts) ≡ garments counts
unfolding assign
garments-assign g n [] has = absurd has
garments-assign g n (c ∷ counts) has = elim (Bool-cases (c.0 == g)) [
  | inl t ↦ rw t refl
  | inr f ↦ rw f (
      ap (◌∷◌ c.0) (
        garments-assign g n counts
          (elim has [ inl e ↦ ground (arith, f, (eq_iff c.0 g).1 (sym e)) | inr more ↦ more ])))
]

assign-Has :
    (g h : String) (n : ℕ) (counts : Counts)
    → Has h (garments (assign g n counts)) ↔ ((h ≡ g) ⊎ Has h (garments counts))
unfolding assign
assign-Has g h n [] = (λ has. has, λ has. has)
assign-Has g h n (c ∷ counts) = elim (Bool-cases (c.0 == g)) [
  | inl t ↦ rw t (
    λ has. inr has,
    λ has. elim has [ inl e ↦ inl (e ∙ sym ((eq_iff c.0 g).0 t)) | inr more ↦ more ],
  )
  | inr f ↦ rw f (
    λ has. elim has [
      | inl e ↦ inr (inl e)
      | inr more ↦ elim ((assign-Has g h n counts).0 more) [
        | inl e ↦ inl e
        | inr old ↦ inr (inr old)
      ]
    ],
    λ has. elim has [
      | inl e ↦ inr ((assign-Has g h n counts).1 (inl e))
      | inr (inl e) ↦ inl e
      | inr (inr old) ↦ inr ((assign-Has g h n counts).1 (inr old))
    ],
  )
]

assign-Distinct :
    (g : String) (n : ℕ) (counts : Counts)
    → Distinct (garments counts)
    → Distinct (garments (assign g n counts))
unfolding assign
assign-Distinct g n [] inv = (λ has. has, tt)
assign-Distinct g n (c ∷ counts) (once, inv) = elim (Bool-cases (c.0 == g)) [
  | inl t ↦ rw t (once, inv)
  | inr f ↦ rw f (
    λ has. elim ((assign-Has g c.0 n counts).0 has) [
      | inl e ↦ ground (arith, f, (eq_iff c.0 g).1 e)
      | inr old ↦ once old
    ],
    assign-Distinct g n counts inv,
  )
]

-- The counts name the garments of the lines, and of what was there before.
from_entries-Has :
    (g : String) (lines : List JobLine) (counts : Counts)
    → Has g (garments (from_entries counts lines))
      ↔ (Has g (line_garments lines) ⊎ Has g (garments counts))
unfolding from_entries
from_entries-Has g [] counts =
    (λ has. inr has, λ has. elim has [ inl f ↦ absurd f | inr old ↦ old ])
from_entries-Has g (l ∷ lines) counts =
    let later = from_entries-Has g lines (assign l.garment_type l.declared_qty counts) in
    let here = assign-Has l.garment_type g l.declared_qty counts in
    (
      λ has. elim (later.0 has) [
        | inl in_lines ↦ inl (inr in_lines)
        | inr set ↦ elim (here.0 set) [ inl e ↦ inl (inl e) | inr old ↦ inr old ]
      ],
      λ has. elim has [
        | inl (inl e) ↦ later.1 (inr (here.1 (inl e)))
        | inl (inr in_lines) ↦ later.1 (inl in_lines)
        | inr old ↦ later.1 (inr (here.1 (inr old)))
      ],
    )

from_entries-Distinct :
    (lines : List JobLine) (counts : Counts)
    → Distinct (garments counts)
    → Distinct (garments (from_entries counts lines))
unfolding from_entries
from_entries-Distinct [] counts inv = inv
from_entries-Distinct (l ∷ lines) counts inv =
    from_entries-Distinct lines (assign l.garment_type l.declared_qty counts)
      (assign-Distinct l.garment_type l.declared_qty counts inv)

has_line-Has :
    (g : String) (lines : List JobLine) → has_line g lines ≡ true → Has g (line_garments lines)
has_line-Has g lines e =
    let (l, has, same) = any-Has (λ (x : JobLine). x.garment_type == g) lines e in
    subst (λ h. Has h (line_garments lines)) ((eq_iff l.garment_type g).0 same)
      (Has-map (λ (x : JobLine). x.garment_type) l lines has)

-- A garment is on the estimate of one of the jobs.
abbrev pub OnOne : List JobCard → String → Type 0
OnOne shown g = (j : JobCard) × Has j shown × Has g (line_garments j.lines)

-- The counts name no garment twice, each of the estimate that the card was opened with, and only those
-- of the estimates that were shown.
pub record NamesLines (opened : JobCard) (shown : List JobCard) (c : CompletionCard) : Type 0 where
  pub once : Distinct (garments c.counts)
  pub each : (g : String) → Has g (line_garments opened.lines) → Has g (garments c.counts)
  pub only : (g : String) → Has g (garments c.counts) → OnOne shown g

same_names :
    (opened : JobCard) (shown : List JobCard) (c d : CompletionCard)
    → garments d.counts ≡ garments c.counts
    → NamesLines opened shown c
    → NamesLines opened shown d
same_names opened shown c d e inv = record {
  once = rw e inv.once;
  each = λ g. rw e (inv.each g);
  only = λ g. rw e (inv.only g);
}

add_parsed-counts : (o : Option String) (c : CompletionCard) → (add_parsed o c).counts ≡ c.counts
add_parsed-counts none c = refl
add_parsed-counts (some tag) c = elim (Bool-cases (includes c.codes tag)) [
  | inl t ↦ rw t refl
  | inr f ↦ rw f refl
]

show_scan-counts : (o : Option String) (c : CompletionCard) → (show_scan o c).counts ≡ c.counts
show_scan-counts none c = refl
show_scan-counts (some tag) c = elim (Bool-cases (includes c.codes tag)) [
  | inl t ↦ rw t refl
  | inr f ↦ rw f refl
]

module _ (upper : String → String) where
  handle_scan-counts :
      (now : ℕ) (raw : String) (c : CompletionCard)
      → (handle_scan upper now raw c).counts ≡ c.counts
  unfolding handle_scan
  handle_scan-counts now raw c =
      elim (Bool-cases (raw == c.last_code && ltb now (c.last_at + 2000))) [
        | inl again ↦ rw again refl
        | inr first ↦ rw first (
            show_scan-counts (parse_bag_code upper raw)
              (record c { last_code = raw; last_at = now }))
      ]

  counted :
      (opened job : JobCard) (shown : List JobCard) (g : String) (n : ℕ) (c : CompletionCard)
      → has_line g job.lines ≡ true
      → Has job shown
      → NamesLines opened shown c
      → NamesLines opened shown (record c { counts = assign g n c.counts })
  counted opened job shown g n c listed now inv = record {
    once = assign-Distinct g n c.counts inv.once;
    each = λ h has. (assign-Has g h n c.counts).1 (inr (inv.each h has));
    only = λ h has. elim ((assign-Has g h n c.counts).0 has) [
      | inl e ↦ (
        job,
        now,
        subst (λ x. Has x (line_garments job.lines)) (sym e) (has_line-Has g job.lines listed),
      )
      | inr old ↦ inv.only h old
    ];
  }

  Handled-Has :
      {opened job : JobCard} {shown : List JobCard} {c : CompletionCard}
      → Handled upper opened job shown c
      → Has job shown
  Handled-Has open_card = inl refl
  Handled-Has (refresh handled fresh same) = inl refl
  Handled-Has (act handled a allowed) = Handled-Has handled

  pub Handled-NamesLines :
      {opened job : JobCard} {shown : List JobCard} {c : CompletionCard}
      → Handled upper opened job shown c
      → NamesLines opened shown c
  unfolding opened_card card_step is_usable
  Handled-NamesLines {opened = opened} open_card = record {
    once = from_entries-Distinct opened.lines [] tt;
    each = λ g has. (from_entries-Has g opened.lines []).1 (inl has);
    only = λ g has. elim ((from_entries-Has g opened.lines []).0 has) [
      | inl here ↦ (opened, inl refl, here)
      | inr f ↦ absurd f
    ];
  }
  Handled-NamesLines (refresh handled fresh same) =
      let inv = Handled-NamesLines handled in
      record {
        once = inv.once;
        each = inv.each;
        only = λ g has. let (j, shown, named) = inv.only g has in (j, inr shown, named);
      }
  Handled-NamesLines {opened = opened}
        (act {job = job} {shown = shown} {c = c} handled (CardAct.fewer g) allowed) =
      counted opened job shown g (quantity g c.counts - 1) c (ground (arith, allowed))
        (Handled-Has handled) (Handled-NamesLines handled)
  Handled-NamesLines {opened = opened}
        (act {job = job} {shown = shown} {c = c} handled (CardAct.more g) allowed) =
      counted opened job shown g (quantity g c.counts + 1) c (ground (arith, allowed))
        (Handled-Has handled) (Handled-NamesLines handled)
  Handled-NamesLines {opened = opened}
        (act {shown = shown} {c = c} handled (CardAct.add_typed) allowed) =
      same_names opened shown c _ (ap garments (add_parsed-counts (parse_bag_code upper c.typed) c))
        (Handled-NamesLines handled)
  Handled-NamesLines {opened = opened}
        (act {shown = shown} {c = c} handled (CardAct.report now raw) allowed) =
      same_names opened shown c _ (ap garments (handle_scan-counts now raw c))
        (Handled-NamesLines handled)
  Handled-NamesLines {opened = opened} (act {shown = shown} {c = c} handled a allowed) =
      same_names opened shown c _ refl (Handled-NamesLines handled)

  -- A pickup can always be completed. If every read of the store gives what is stored and no other tap
  -- comes in between, completing it at the customer's door queues one action, last, and the job is done
  -- on the phone, or the write fails, and the press throws that and the phone is as it was. The action
  -- carries the counts of the card and no tags. The counts name no garment twice, each garment of the
  -- estimate that the card was opened with, and no garment that was on no estimate shown since.
  pub pickup_exact :
      {W : Type 0} (env : Env W) (r : Run W) {opened job : JobCard} {shown : List JobCard}
      {c : CompletionCard}
      → Handled upper opened job shown c
      → Reads env
      → r.arrivals ≡ []
      → job.kind ≡ pickup
      → current_status r.phone job ≡ arrived
      → ((op : QueuedOp) × (op.job_id ≡ job.id)
          × (op.op_type ≡ job_complete)
          × (op.payload
              ≡ ("declared_lines", arr (json_lines (declared c.counts)))
                ∷ ("bag_codes", arr nil)
                ∷ [])
          × Moved env job r op done (press_complete env job c r))
        × Distinct (garments c.counts)
        × ((g : String) → Has g (line_garments opened.lines) → Has g (garments c.counts))
        × ((g : String) → Has g (garments c.counts) → OnOne shown g)
  unfolding is_ready complete json_texts next_status
  pickup_exact env r {opened} {job} {shown} {c} handled reads quiet kind at_door =
      let inv = Handled-NamesLines handled in
      let (op, (on, kind_of, with_counts), moved) =
        enqueue_quiet env job job_complete
          (("declared_lines", arr (json_lines (declared c.counts))) ∷ ("bag_codes", arr nil) ∷ []) r
          reads quiet done (ap (λ s. next_status s job_complete) at_door) in
      let pressed = press_complete-is_ready env job pickup c r (rw kind refl) kind in
      (
        (op, on, kind_of, with_counts, subst (Moved env job r op done) (sym pressed) moved),
        inv.once,
        inv.each,
        inv.only,
      )
