-- ===== src/Web/Bags/Conveyor.antt =====
-- What a scan does to the garments of a bag.
use ironman.Prelude.{
  String, ◌≡◌, refl, sym, ap, subst, ◌∙◌, ◌⊎◌, inl, inr, Bool, true, false, not, Option, none, some,
  List, [], ◌∷◌, Has, map, any, filter, arith, Bool-cases, Has-any, Has-map, map-Has,
}
use mathlib.Core.Option.{some-injective}
use ironman.Web.Bags.{
  GarmentStage, received, sorted, pressing, pressed, qc, rework, packed, dispatched, delivered,
  damaged, lost, held, returned_unpressed, same_stage, stages_from, can_reach, Garment, Bag, Scan,
  scan_to, advance_scan, moved_to, move_line, can_move, BagTransitionResult, moved_bag,
  transition_bag, next_stage, stage_name,
}

-- A stage that the button leads to is not reached from the check, and is not the one after it.
abbrev passes_check : Option GarmentStage → Bool
passes_check none = false
passes_check (some t) = can_reach qc t

next_stage-stops : (s : GarmentStage) → passes_check (next_stage s) ≡ false
unfolding next_stage can_reach stages_from same_stage stage_name
next_stage-stops received = refl
next_stage-stops sorted = refl
next_stage-stops pressing = refl
next_stage-stops pressed = refl
next_stage-stops qc = refl
next_stage-stops rework = refl
next_stage-stops packed = refl
next_stage-stops dispatched = refl
next_stage-stops delivered = refl
next_stage-stops damaged = refl
next_stage-stops lost = refl
next_stage-stops held = refl
next_stage-stops returned_unpressed = refl

abbrev leads_to_packed : Option GarmentStage → Bool
leads_to_packed none = false
leads_to_packed (some t) = same_stage t packed

next_stage-not_packed : (s : GarmentStage) → leads_to_packed (next_stage s) ≡ false
unfolding next_stage same_stage stage_name
next_stage-not_packed received = refl
next_stage-not_packed sorted = refl
next_stage-not_packed pressing = refl
next_stage-not_packed pressed = refl
next_stage-not_packed qc = refl
next_stage-not_packed rework = refl
next_stage-not_packed packed = refl
next_stage-not_packed dispatched = refl
next_stage-not_packed delivered = refl
next_stage-not_packed damaged = refl
next_stage-not_packed lost = refl
next_stage-not_packed held = refl
next_stage-not_packed returned_unpressed = refl

moved_to-stage : (g : Garment) (t : GarmentStage) → (moved_to g t).stage ≡ t
moved_to-stage g received = refl
moved_to-stage g sorted = refl
moved_to-stage g pressing = refl
moved_to-stage g pressed = refl
moved_to-stage g qc = refl
moved_to-stage g rework = refl
moved_to-stage g packed = refl
moved_to-stage g dispatched = refl
moved_to-stage g delivered = refl
moved_to-stage g damaged = refl
moved_to-stage g lost = refl
moved_to-stage g held = refl
moved_to-stage g returned_unpressed = refl

move_line-cases :
    (t : GarmentStage) (g : Garment)
    → ((can_move t g ≡ true) × (move_line t g ≡ moved_to g t))
      ⊎ ((can_move t g ≡ false) × (move_line t g ≡ g))
unfolding move_line
move_line-cases t g = elim (Bool-cases (can_reach g.stage t)) [
  | inl moves ↦ inl (moves, rw moves refl)
  | inr stays ↦ inr (stays, rw stays refl)
]

transition_bag-moved :
    (bag : Bag) (t : GarmentStage) (r : BagTransitionResult)
    → transition_bag bag t ≡ some r
    → (r ≡ moved_bag bag t) × (any (can_move t) bag.lines ≡ true)
unfolding transition_bag
transition_bag-moved bag t r e = elim (Bool-cases (any (can_move t) bag.lines)) [
  | inl moves ↦ (
    sym (
        some-injective (moved_bag bag t) r
          (let h : some (moved_bag bag t) ≡ some r = (rw moves at e) in h)),
    moves,
  )
  | inr stays ↦ absurd (let h : none ≡ some r = (rw stays at e) in ground (arith, h))
]

reaches : GarmentStage → Option GarmentStage → Bool
reaches s none = true
reaches s (some t) = can_reach s t

next_stage-reaches : (s : GarmentStage) → reaches s (next_stage s) ≡ true
unfolding reaches next_stage can_reach stages_from same_stage stage_name
next_stage-reaches received = refl
next_stage-reaches sorted = refl
next_stage-reaches pressing = refl
next_stage-reaches pressed = refl
next_stage-reaches qc = refl
next_stage-reaches rework = refl
next_stage-reaches packed = refl
next_stage-reaches dispatched = refl
next_stage-reaches delivered = refl
next_stage-reaches damaged = refl
next_stage-reaches lost = refl
next_stage-reaches held = refl
next_stage-reaches returned_unpressed = refl

scan_to-next :
    (code : String) (o : Option GarmentStage) (s : Scan)
    → scan_to code o ≡ some s
    → o ≡ some s.to_stage
scan_to-next code none s e = ground (arith, e)
scan_to-next code (some t) s e =
    ap (λ (x : Scan). some x.to_stage) (some-injective (record { code = code; to_stage = t }) s e)

advance_scan-next :
    (can_manage : Bool) (bag : Bag) (s : Scan)
    → advance_scan can_manage bag ≡ some s
    → next_stage bag.current_stage ≡ some s.to_stage
unfolding advance_scan
advance_scan-next true bag s e = scan_to-next bag.code (next_stage bag.current_stage) s e
advance_scan-next false bag s e = ground (arith, e)

-- A scan that the button of a bag's card sends takes no garment out of the quality check, and packs none:
-- whatever stages the garments of the bag are in, those at the check are in the bag unchanged after it,
-- and those that are packed after it were packed before.
pub advance-keeps_check :
    (can_manage : Bool) (bag : Bag) (s : Scan) (r : BagTransitionResult)
    → advance_scan can_manage bag ≡ some s
    → transition_bag bag s.to_stage ≡ some r
    → ((g : Garment) → Has g bag.lines → g.stage ≡ qc → Has g r.bag.lines)
      × ((g : Garment) → Has g r.bag.lines → g.stage ≡ packed → Has g bag.lines)
unfolding same_stage stage_name
advance-keeps_check can_manage bag s r pressed_on sent =
    let next = advance_scan-next can_manage bag s pressed_on in
    let stops : can_reach qc s.to_stage ≡ false =
      sym (ap passes_check next) ∙ next_stage-stops bag.current_stage in
    let other : same_stage s.to_stage packed ≡ false =
      sym (ap leads_to_packed next) ∙ next_stage-not_packed bag.current_stage in
    let (same, moves) = transition_bag-moved bag s.to_stage r sent in
    rw same (
      λ g has here. elim (move_line-cases s.to_stage g) [
        | inl (reached, e) ↦ ground (arith, reached, stops, ap (λ u. can_reach u s.to_stage) here)
        | inr (stays, e) ↦
            subst (λ x. Has x (map (move_line s.to_stage) bag.lines)) e
              (Has-map (move_line s.to_stage) g bag.lines has)
      ],
      λ h has here.
          let (g, in_bag, was) = map-Has (move_line s.to_stage) bag.lines h has in
          elim (move_line-cases s.to_stage g) [
            | inl (reached, e) ↦
                let to_packed : s.to_stage ≡ packed =
                  sym (moved_to-stage g s.to_stage)
                  ∙ ap (λ (x : Garment). x.stage) (sym (was ∙ e))
                  ∙ here in
                ground (arith, other, ap (λ u. same_stage u packed) to_packed)
            | inr (stays, e) ↦ subst (λ x. Has x bag.lines) (sym (was ∙ e)) in_bag
          ],
    )

-- A bag that stayed together: every garment is in the stage of the bag.
abbrev pub IsTogether : Bag → Type 0
IsTogether bag = (g : Garment) → Has g bag.lines → g.stage ≡ bag.current_stage

none_left :
    {A : Type 0} (p : A → Bool) (xs : List A)
    → ((a : A) → Has a xs → p a ≡ false)
    → filter p xs ≡ []
none_left p [] failing = refl
none_left p (x ∷ xs) failing =
    rw (failing x (inl refl)) (none_left p xs (λ a has. failing a (inr has)))

map-stage :
    (t : GarmentStage) (xs : List Garment)
    → ((g : Garment) → Has g xs → can_move t g ≡ true)
    → (h : Garment) → Has h (map (move_line t) xs)
    → h.stage ≡ t
map-stage t xs all h has =
    let (g, in_xs, e) = map-Has (move_line t) xs h has in
    elim (move_line-cases t g) [
      | inl (moves, went) ↦ ap (λ (x : Garment). x.stage) (e ∙ went) ∙ moved_to-stage g t
      | inr (stays, same) ↦ ground (arith, stays, all g in_xs)
    ]

-- On a bag with a garment, whose garments are all in its stage, the scan of the button is accepted,
-- leaves no garment behind, and the bag is together in the next stage.
pub advance-IsTogether :
    (can_manage : Bool) (bag : Bag) (s : Scan) (g : Garment)
    → advance_scan can_manage bag ≡ some s
    → IsTogether bag
    → Has g bag.lines
    → (r : BagTransitionResult) × (transition_bag bag s.to_stage ≡ some r)
      × (r.skipped ≡ [])
      × (r.bag.current_stage ≡ s.to_stage)
      × IsTogether r.bag
unfolding reaches transition_bag
advance-IsTogether can_manage bag s g pressed_on together has =
    let next = advance_scan-next can_manage bag s pressed_on in
    let reached : can_reach bag.current_stage s.to_stage ≡ true =
      sym (ap (reaches bag.current_stage) next) ∙ next_stage-reaches bag.current_stage in
    let all : (x : Garment) → Has x bag.lines → can_move s.to_stage x ≡ true =
      λ x in_bag. ap (λ u. can_reach u s.to_stage) (together x in_bag) ∙ reached in
    (
      moved_bag bag s.to_stage,
      rw (Has-any (can_move s.to_stage) bag.lines g has (all g has)) refl,
      none_left (λ x. not (can_move s.to_stage x)) bag.lines (λ x in_bag. ap not (all x in_bag)),
      refl,
      map-stage s.to_stage bag.lines all,
    )
