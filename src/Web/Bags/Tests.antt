-- ===== src/Web/Bags/Tests.antt =====
-- A bag whose garments went different ways, and a batch of two scans of which the first fails while a
-- third bag is added.
use ironman.Prelude.{◌≡◌, refl, inl, inr, true, false, none, some, [], ◌∷◌, map, Has}
use ironman.Booking.{trim_start, trim_end}
use ironman.Web.Bags.{
  sorted, pressed, qc, packed, stage_name, same_stage, stages_from, can_reach, Garment, Bag,
  move_line, BagTransitionResult, moved_bag, transition_bag, next_stage, Scan, advance_scan,
  BatchRun, ScanCard, fresh_card, add_to_queue, process_queue, answer_scan, Reach, mount, type_code,
  add, press, answer,
}
use ironman.Web.Bags.Conveyor.{IsTogether, advance-keeps_check, advance-IsTogether}
use ironman.Web.Bags.Scans.{IsOrderly, Reach-IsOrderly}
use ironman.Web.Bags.Runs.{
  Since, pressed as run_pressed, typed, answered, added, unserved, scan_at, run_end,
}

abbrev shirt : Garment
shirt = record { id = "g1"; stage = qc; rework_count = 0 }

abbrev kurta : Garment
kurta = record { id = "g2"; stage = pressed; rework_count = 1 }

abbrev mixed : Bag
mixed = record { code = "BAG-1"; current_stage = pressed; lines = shirt ∷ kurta ∷ [] }

abbrev to_check : Scan
to_check = record { code = "BAG-1"; to_stage = qc }

mixed_scan : advance_scan true mixed ≡ some to_check
unfolding advance_scan next_stage
mixed_scan = refl

mixed_moved : transition_bag mixed qc ≡ some (moved_bag mixed qc)
unfolding transition_bag can_reach same_stage stage_name stages_from
mixed_moved = refl

advance-keeps_check_example :
    ((g : Garment) → Has g mixed.lines → g.stage ≡ qc → Has g (moved_bag mixed qc).bag.lines)
    × ((g : Garment) → Has g (moved_bag mixed qc).bag.lines → g.stage ≡ packed → Has g mixed.lines)
advance-keeps_check_example =
    advance-keeps_check true mixed to_check (moved_bag mixed qc) mixed_scan mixed_moved

abbrev whole : Bag
whole = record { code = "BAG-1"; current_stage = pressed; lines = kurta ∷ [] }

whole_scan : advance_scan true whole ≡ some to_check
unfolding advance_scan next_stage
whole_scan = refl

whole-IsTogether : IsTogether whole
whole-IsTogether g (inl e) = cc
whole-IsTogether g (inr f) = absurd f

whole_moves :
    (r : BagTransitionResult) × (transition_bag whole qc ≡ some r)
    × (r.skipped ≡ [])
    × (r.bag.current_stage ≡ qc)
    × IsTogether r.bag
whole_moves = advance-IsTogether true whole to_check kurta whole_scan whole-IsTogether (inl refl)

-- A scan of the board packs a garment that is at the check.
packed_unchecked :
    transition_bag mixed packed
    ≡ some (record {
      bag = record mixed {
        current_stage = packed;
        lines = record shirt { stage = packed } ∷ kurta ∷ [];
      };
      moved = record shirt { stage = packed } ∷ [];
      skipped = kurta ∷ [];
    })
unfolding transition_bag move_line can_reach same_stage stage_name stages_from
packed_unchecked = refl

abbrev two_queued : ScanCard
two_queued =
    add_to_queue (record (add_to_queue (record fresh_card { code = "BAG-1" })) { code = "BAG-2" })

abbrev first_run : BatchRun
first_run = record {
  queue = "BAG-1" ∷ "BAG-2" ∷ [];
  to_stage = sorted;
  answered = [];
  remaining = [];
  todo = "BAG-1" ∷ "BAG-2" ∷ [];
}

abbrev added_late : ScanCard
added_late =
    add_to_queue
      (record (answer_scan (process_queue two_queued) first_run false) { code = "BAG-3" })

abbrev last_run : BatchRun
last_run = record first_run {
  answered = record { scan = record { code = "BAG-1"; to_stage = sorted }; ok = false } ∷ [];
  remaining = "BAG-1" ∷ [];
  todo = "BAG-2" ∷ [];
}

late_reached : Reach added_late
unfolding add_to_queue process_queue trim_start trim_end
late_reached = add (
    type_code
      (answer (press (add (type_code (add (type_code mount "BAG-1")) "BAG-2")) refl (λ e. cc))
        first_run refl false)
      "BAG-3")

late_run : added_late.run ≡ some last_run
unfolding add_to_queue process_queue answer_scan trim_start trim_end
late_run = refl

Reach-IsOrderly_example : IsOrderly added_late
Reach-IsOrderly_example = Reach-IsOrderly late_reached

two_reached : Reach two_queued
unfolding add_to_queue trim_start trim_end
two_reached = add (type_code (add (type_code mount "BAG-1")) "BAG-2")

late_since : Since two_queued (false ∷ []) added_late
unfolding add_to_queue process_queue trim_start trim_end
late_since = added (typed (answered (run_pressed refl (λ e. cc)) first_run refl false) "BAG-3")

run_end_example :
    (scan_at sorted "BAG-1" ∷ scan_at sorted "BAG-2" ∷ [] ≡ map (scan_at sorted) two_queued.queue)
    × ((answer_scan added_late last_run true).queue ≡ unserved two_queued.queue (false ∷ true ∷ []))
    × ((answer_scan added_late last_run true).run ≡ none)
unfolding add_to_queue trim_start trim_end
run_end_example = run_end last_run "BAG-2" true two_reached late_since late_run refl

-- The bag that was added during the run is queued before the last answer, and not after it.
added_lost :
    (added_late.queue ≡ "BAG-1" ∷ "BAG-2" ∷ "BAG-3" ∷ [])
    × ((answer_scan added_late last_run true).queue ≡ "BAG-1" ∷ [])
unfolding add_to_queue process_queue answer_scan trim_start trim_end
added_lost = (refl, refl)
