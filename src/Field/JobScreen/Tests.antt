-- ===== src/Field/JobScreen/Tests.antt =====
-- A delivery of one bag, whose tag the camera reports three times, and a pickup of two kinds of garments.
use ironman.Prelude.{◌≡◌, ◌≤◌, refl, max, String, true, none, [], ◌∷◌, length, Has, Distinct}
use ironman.Booking.{trim_start, trim_end, assign}
use ironman.Json.{arr, nil}
use ironman.Field.Types.{JobKind, pickup, delivery, arrived, done, JobCard, job_complete, QueuedOp}
use ironman.Field.Rules
use ironman.Field.Rules.{effective_jobs, replay_status}
use ironman.Field.Store.{Phone, absent, load_jobs, load_ops}
use ironman.Exec.{other_error, ok, err}
use ironman.Field.Sync.{Env, Run, empty_summary}
use ironman.Field.Engine.{current_status, judged_status, cached_job, json_texts, json_lines}
use ironman.Field.Engine.Queue.{Moved}
use ironman.Field.JobScreen.{
  is_hex_text, begins, is_bag_code, CompletionCard, from_entries, opened_card, is_ready, quantity,
  on_code, open_scanner, report, more, is_usable, declared, parse_bag_code, handle_scan, card_step,
  Handled, open_card, refresh, act, press_complete,
}
use ironman.Field.JobScreen.Scanned.{AreBagCodes, IsTidy, Handled-IsTidy, delivery_exact}
use ironman.Field.JobScreen.Counted.{garments, line_garments, OnOne, pickup_exact}

abbrev as_typed : String → String
as_typed s = s

abbrev at_the_door : JobKind → JobCard
at_the_door kind = record {
  id = "j1";
  route_day = "r1";
  date = "2026-10-07";
  order = "o1";
  order_ref = "IM-1";
  order_status = "OUT_FOR_DELIVERY";
  payment_status = "PAID";
  kind = kind;
  sequence = 1;
  status = arrived;
  slot_start = none;
  slot_end = none;
  attempt_no = 1;
  customer_name = "Asha";
  customer_phone = "";
  apartment_name = "Palms";
  address = "12 Main Road";
  special_instructions = "";
  lines =
      record { garment_type = "shirt"; garment_type_name = "Shirt"; declared_qty = 2 }
      ∷ record { garment_type = "saree"; garment_type_name = "Saree"; declared_qty = 1 }
      ∷ [];
  bag_count = 1;
}

abbrev empty_phone : Phone
empty_phone = record {
  jobs = absent;
  ops = absent;
  proofs = absent;
  issues = absent;
  device_id = absent;
}

-- Storage that answers every read and takes every write.
abbrev working : Env (Unit {0})
working = record {
  post = λ path body w. (err other_error, w);
  fetch_jobs = λ w. (err other_error, w);
  upload_proof = λ proof w. (err other_error, w);
  discard_file = λ uri w. (ok tt, w);
  new_id = λ w. ("k1", w);
  now = λ w. ("10:00", w);
  get_item = λ w. (true, w);
  set_item = λ w. (ok tt, w);
}

abbrev alone : Run (Unit {0})
alone = record {
  phone = empty_phone;
  summary = empty_summary;
  arrivals = [];
  wire = [];
  world = tt;
}

seen_arrived : (kind : JobKind) → current_status empty_phone (at_the_door kind) ≡ arrived
unfolding current_status judged_status cached_job load_jobs load_ops effective_jobs replay_status
    Rules.effective_job Rules.ops_of Rules.by_job
seen_arrived kind = refl

abbrev reports : CompletionCard → CompletionCard
reports c =
    handle_scan as_typed 2600 "BAG-0123456789"
      (handle_scan as_typed 500 "BAG-0123456789" (handle_scan as_typed 0 "BAG-0123456789" c))

abbrev scanned_card : CompletionCard
scanned_card = reports (record (opened_card (at_the_door delivery)) { scanning = true })

scanned_once : scanned_card.codes ≡ "BAG-0123456789" ∷ []
unfolding opened_card handle_scan on_code parse_bag_code is_bag_code begins is_hex_text trim_start
    trim_end
scanned_once = refl

scanned :
    Handled as_typed
      (at_the_door delivery)
      (at_the_door delivery)
      (at_the_door delivery ∷ [])
      scanned_card
unfolding card_step is_usable opened_card handle_scan on_code parse_bag_code is_bag_code begins
    is_hex_text trim_start trim_end
scanned =
    act
      (act (act (act open_card open_scanner refl) (report 0 "BAG-0123456789") refl)
        (report 500 "BAG-0123456789") refl)
      (report 2600 "BAG-0123456789") refl

scanned-is_ready : is_ready (at_the_door delivery) scanned_card ≡ true
unfolding is_ready opened_card handle_scan on_code parse_bag_code is_bag_code begins is_hex_text
    trim_start trim_end
scanned-is_ready = refl

Handled-IsTidy_example : IsTidy scanned_card
Handled-IsTidy_example = Handled-IsTidy as_typed scanned

delivery_exact_example :
    ((op : QueuedOp) × (op.job_id ≡ "j1")
      × (op.op_type ≡ job_complete)
      × (op.payload
          ≡ ("declared_lines", arr nil) ∷ ("bag_codes", arr (json_texts scanned_card.codes)) ∷ [])
      × Moved working
          (at_the_door delivery)
          alone
          op
          done
          (press_complete working (at_the_door delivery) scanned_card alone))
    × (max 1 1 ≤ length scanned_card.codes)
    × Distinct scanned_card.codes
    × AreBagCodes scanned_card.codes
delivery_exact_example =
    delivery_exact as_typed working alone scanned (λ w. refl) refl refl scanned-is_ready
      (seen_arrived delivery)

abbrev counted_card : CompletionCard
counted_card = card_step as_typed (opened_card (at_the_door pickup)) (more "saree")

counted_twice : counted_card.counts ≡ ("shirt", 2) ∷ ("saree", 2) ∷ []
unfolding card_step opened_card from_entries assign quantity
counted_twice = refl

-- While the card is open the job is refreshed, with no garments on its estimate.
abbrev emptied : JobCard
emptied = record (at_the_door pickup) { lines = [] }

counted :
    Handled as_typed (at_the_door pickup) emptied (emptied ∷ at_the_door pickup ∷ []) counted_card
unfolding is_usable opened_card from_entries assign quantity
counted = refresh (act open_card (more "saree") refl) emptied refl

emptied_arrived : current_status empty_phone emptied ≡ arrived
unfolding current_status judged_status cached_job load_jobs load_ops effective_jobs replay_status
    Rules.effective_job Rules.ops_of Rules.by_job
emptied_arrived = refl

pickup_exact_example :
    ((op : QueuedOp) × (op.job_id ≡ "j1")
      × (op.op_type ≡ job_complete)
      × (op.payload
          ≡ ("declared_lines", arr (json_lines (declared counted_card.counts)))
            ∷ ("bag_codes", arr nil)
            ∷ [])
      × Moved working emptied alone op done (press_complete working emptied counted_card alone))
    × Distinct (garments counted_card.counts)
    × ((g : String)
        → Has g (line_garments (at_the_door pickup).lines)
        → Has g (garments counted_card.counts))
    × ((g : String)
        → Has g (garments counted_card.counts)
        → OnOne (emptied ∷ at_the_door pickup ∷ []) g)
pickup_exact_example =
    pickup_exact as_typed working alone counted (λ w. refl) refl refl emptied_arrived
