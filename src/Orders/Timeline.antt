-- ===== src/Orders/Timeline.antt =====
-- What the timeline of an order shows.
use ironman.Prelude.{
  ◌≡◌, refl, sym, ap, subst, ◌∙◌, ◌⊎◌, inl, inr, ◌↔◌, String, false, ◌||◌, Option, none, some, List,
  [], ◌∷◌, Has, Bool-cases, arith, ◌==◌, eq_iff,
}
use mathlib.Core.Option.{some-injective}
use ironman.Field.Rules.{Order, comes_after}
use ironman.Orders.{
  TrackingEvent, ShownEvent, event_label, is_last, show_next, show_events, insert_event,
  newest_first, visible_events,
}

-- No line has the label of the line before it, where `last` stands before the first.
abbrev pub NoRepeats : Option String → List ShownEvent → Type 0
NoRepeats last [] = Unit
NoRepeats last (e ∷ shown) = (is_last last e.label ≡ false) × NoRepeats (some e.label) shown

show_next-NoRepeats :
    (last label : Option String) (at : String) (rest : Option String → List ShownEvent)
    → ((l : Option String) → NoRepeats l (rest l))
    → NoRepeats last (show_next last label at rest)
show_next-NoRepeats last none at rest k = k last
show_next-NoRepeats last (some label) at rest k =
    elim (Bool-cases (label == "" || is_last last label)) [
      | inl e ↦ rw e (k last)
      | inr e ↦ rw e (ground arith, k (some label))
    ]

show_events-NoRepeats :
    (events : List TrackingEvent) (last : Option String) → NoRepeats last (show_events events last)
unfolding show_events
show_events-NoRepeats [] last = tt
show_events-NoRepeats (event ∷ events) last =
    show_next-NoRepeats last (event_label event) event.created_at (λ l. show_events events l)
      (show_events-NoRepeats events)

-- Some event has this label, which is not empty.
abbrev pub Labels : String → List TrackingEvent → Type 0
Labels label events =
    (e : TrackingEvent) × Has e events × (event_label e ≡ some label) × ((label == "") ≡ false)

-- A line with this label.
abbrev pub Shows : String → List ShownEvent → Type 0
Shows label shown = (s : ShownEvent) × Has s shown × (s.label ≡ label)

show_next-Shows :
    (last own : Option String) (at : String) (rest : Option String → List ShownEvent)
    (label : String)
    → Shows label (show_next last own at rest)
    → ((own ≡ some label) × ((label == "") ≡ false)) ⊎ ((l : Option String) × Shows label (rest l))
show_next-Shows last none at rest label shows = inr (last, shows)
show_next-Shows last (some o) at rest label shows = elim (Bool-cases (o == "" || is_last last o)) [
  | inl e ↦ inr (last, rw e at shows)
  | inr e ↦ shown e (rw e at shows)
]
  where
    shown :
        (o == "" || is_last last o) ≡ false
        → Shows label (record { label = o; at = at } ∷ rest (some o))
        → ((some o ≡ some label) × ((label == "") ≡ false))
          ⊎ ((l : Option String) × Shows label (rest l))
    shown e (s, inl first, same) =
        let own : o ≡ label = sym (ap ShownEvent.label first) ∙ same in
        inl (ap some own, subst (λ x. (x == "") ≡ false) own (ground arith))
    shown e (s, inr has, same) = inr (some o, (s, has, same))

show_events-Labels :
    (events : List TrackingEvent) (last : Option String) (label : String)
    → Shows label (show_events events last)
    → Labels label events
unfolding show_events
show_events-Labels [] last label (s, has, same) = absurd has
show_events-Labels (event ∷ events) last label shows =
    elim (show_next-Shows last (event_label event) event.created_at (λ l. show_events events l)
      label shows) [
        | inl (own, filled) ↦ (event, inl refl, own, filled)
        | inr (l, later) ↦
            let (e, has, own, filled) = show_events-Labels events l label later in
            (e, inr has, own, filled)
      ]

-- A label is shown, or it was the last one.
abbrev ShownOrLast : String → Option String → List ShownEvent → Type 0
ShownOrLast label last shown = Shows label shown ⊎ (last ≡ some label)

show_next-own :
    (last : Option String) (at : String) (rest : Option String → List ShownEvent) (label : String)
    → (label == "") ≡ false
    → ShownOrLast label last (show_next last (some label) at rest)
show_next-own none at rest label filled = rw filled (inl (_, inl refl, refl))
show_next-own (some l) at rest label filled = elim (Bool-cases (l == label)) [
  | inl e ↦ inr (ap some ((eq_iff l label).0 e))
  | inr e ↦ rw filled (rw e (inl (_, inl refl, refl)))
]

show_next-later :
    (last own : Option String) (at : String) (rest : Option String → List ShownEvent)
    (label : String)
    → ((l : Option String) → ShownOrLast label l (rest l))
    → ShownOrLast label last (show_next last own at rest)
show_next-later last none at rest label k = k last
show_next-later last (some o) at rest label k = elim (Bool-cases (o == "" || is_last last o)) [
  | inl e ↦ rw e (k last)
  | inr e ↦ rw e (elim (k (some o)) [
    | inl (s, has, same) ↦ inl (s, inr has, same)
    | inr own ↦ inl (record { label = o; at = at }, inl refl, some-injective o label own)
  ])
]

show_events-ShownOrLast :
    (events : List TrackingEvent) (last : Option String) (label : String)
    → Labels label events
    → ShownOrLast label last (show_events events last)
unfolding show_events
show_events-ShownOrLast [] last label (e, has, own, filled) = absurd has
show_events-ShownOrLast (event ∷ events) last label (e, inl first, own, filled) =
    subst
      (λ o. ShownOrLast label last (show_next last o event.created_at (λ l. show_events events l)))
      (sym own ∙ ap event_label first)
      (show_next-own last event.created_at (λ l. show_events events l) label filled)
show_events-ShownOrLast (event ∷ events) last label (e, inr has, own, filled) =
    show_next-later last (event_label event) event.created_at (λ l. show_events events l) label
      (λ l. show_events-ShownOrLast events l label (e, has, own, filled))

module _ (locale_compare : String → String → Order) where
  insert_event-Has :
      (x e : TrackingEvent) (events : List TrackingEvent)
      → Has x (insert_event locale_compare e events) ↔ ((x ≡ e) ⊎ Has x events)
  unfolding insert_event
  insert_event-Has x e [] = (λ h. h, λ h. h)
  insert_event-Has x e (f ∷ events) =
      elim (Bool-cases (comes_after (locale_compare f.created_at e.created_at))) [
        | inr c ↦ rw c (λ h. h, λ h. h)
        | inl c ↦ rw c (
            let (to, from) = insert_event-Has x e events in
            (
              λ h. elim h [
                | inl first ↦ inr (inl first)
                | inr k ↦ elim (to k) [ inl own ↦ inl own | inr m ↦ inr (inr m) ]
              ],
              λ h. elim h [
                | inl own ↦ inr (from (inl own))
                | inr k ↦ elim k [ inl first ↦ inl first | inr m ↦ inr (from (inr m)) ]
              ],
            ))
      ]

  newest_first-Has :
      (x : TrackingEvent) (events : List TrackingEvent)
      → Has x (newest_first locale_compare events) ↔ Has x events
  unfolding newest_first
  newest_first-Has x [] = (λ h. h, λ h. h)
  newest_first-Has x (e ∷ events) =
      let (to, from) = newest_first-Has x events in
      let (split, join) = insert_event-Has x e (newest_first locale_compare events) in
      (
        λ h. elim (split h) [ inl own ↦ inl own | inr k ↦ inr (to k) ],
        λ h. elim h [ inl own ↦ join (inl own) | inr k ↦ join (inr (from k)) ],
      )

  -- The timeline never shows one label twice in a row.
  pub visible_events-NoRepeats :
      (events : List TrackingEvent) → NoRepeats none (visible_events locale_compare events)
  unfolding visible_events
  visible_events-NoRepeats events = show_events-NoRepeats (newest_first locale_compare events) none

  -- A label is on the timeline exactly if some event has it.
  pub visible_events-exact :
      (events : List TrackingEvent) (label : String)
      → Shows label (visible_events locale_compare events) ↔ Labels label events
  unfolding visible_events
  visible_events-exact events label = (
    λ shows.
        let (e, has, own, filled) =
          show_events-Labels (newest_first locale_compare events) none label shows in
        (e, (newest_first-Has e events).0 has, own, filled),
    λ (e, has, own, filled).
        elim (show_events-ShownOrLast (newest_first locale_compare events) none label
          (e, (newest_first-Has e events).1 has, own, filled)) [
            | inl shows ↦ shows
            | inr impossible ↦ ground arith
          ],
  )
