-- ===== src/Web/Bags.antt =====
-- Bags of garments: what the console's custody section (apps/web/components/custody/custody-section.tsx)
-- and its production board (apps/web/app/console/(auth)/production/page.tsx) offer, and the garments'
-- state machine of the server, apps/api/custody/state_machine.py.
pub mod Conveyor
pub mod Scans
pub mod Runs
mod Tests
use ironman.Prelude.{
  ◌≡◌, ◌≢◌, ◌++◌, ℕ, zero, suc, String, Bool, true, false, not, ◌&&◌, Option, none, some, List, [],
  ◌∷◌, map, any, filter, length, includes, if◌then◌else◌, ◌==◌,
}
use ironman.Booking.{trim}

pub data GarmentStage : Type 0 where
  received sorted pressing pressed qc rework packed dispatched delivered damaged lost held
        returned_unpressed :
      GarmentStage

-- The stage as the API sends it.
unfoldable pub stage_name : GarmentStage → String
stage_name received = "RECEIVED"
stage_name sorted = "SORTED"
stage_name pressing = "PRESSING"
stage_name pressed = "PRESSED"
stage_name qc = "QC"
stage_name rework = "REWORK"
stage_name packed = "PACKED"
stage_name dispatched = "DISPATCHED"
stage_name delivered = "DELIVERED"
stage_name damaged = "DAMAGED"
stage_name lost = "LOST"
stage_name held = "HELD"
stage_name returned_unpressed = "RETURNED_UNPRESSED"

unfoldable pub same_stage : GarmentStage → GarmentStage → Bool
unfolding stage_name
same_stage s t = stage_name s == stage_name t

-- `ALLOWED` of the state machine, with `HELD` and the two exceptions last.
abbrev pub or_aside : List GarmentStage → List GarmentStage
or_aside stages = stages ++ held ∷ damaged ∷ lost ∷ []

unfoldable pub stages_from : GarmentStage → List GarmentStage
stages_from received = or_aside (sorted ∷ [])
stages_from sorted = or_aside (pressing ∷ [])
stages_from pressing = or_aside (pressed ∷ returned_unpressed ∷ [])
stages_from pressed = or_aside (qc ∷ [])
stages_from qc = or_aside (packed ∷ rework ∷ [])
stages_from rework = or_aside (pressing ∷ [])
stages_from packed = or_aside (dispatched ∷ [])
stages_from dispatched = or_aside (delivered ∷ returned_unpressed ∷ [])
stages_from returned_unpressed = or_aside (sorted ∷ [])
stages_from held =
    received ∷ sorted ∷ pressing ∷ pressed ∷ qc ∷ packed ∷ dispatched ∷ damaged ∷ lost ∷ []
stages_from delivered = []
stages_from damaged = []
stages_from lost = []

unfoldable pub can_reach : GarmentStage → GarmentStage → Bool
unfolding same_stage
can_reach s t = any (same_stage t) (stages_from s)

pub record Garment : Type 0 where
  pub id : String
  pub stage : GarmentStage
  pub rework_count : ℕ

pub record Bag : Type 0 where
  pub code : String
  pub current_stage : GarmentStage
  pub lines : List Garment

-- The change of `transition_garment_line`.
abbrev pub moved_to : Garment → GarmentStage → Garment
moved_to g rework = record g { stage = rework; rework_count = suc g.rework_count }
moved_to g to_stage = record g { stage = to_stage }

-- One turn of the loop of `transition_bag`.
unfoldable pub move_line : GarmentStage → Garment → Garment
move_line to_stage g =
    let moved = moved_to g to_stage in if can_reach g.stage to_stage then moved else g

abbrev pub can_move : GarmentStage → Garment → Bool
can_move to_stage g = can_reach g.stage to_stage

pub record BagTransitionResult : Type 0 where
  pub bag : Bag
  pub moved : List Garment
  pub skipped : List Garment

abbrev pub moved_bag : Bag → GarmentStage → BagTransitionResult
moved_bag bag to_stage = record {
  bag = record bag { current_stage = to_stage; lines = map (move_line to_stage) bag.lines };
  moved = map (move_line to_stage) (filter (can_move to_stage) bag.lines);
  skipped = filter (λ g. not (can_move to_stage g)) bag.lines;
}

-- `transition_bag`; `none` is the refusal, of a bag with no line or with none that can move.
unfoldable pub transition_bag : Bag → GarmentStage → Option BagTransitionResult
transition_bag bag to_stage =
    if any (can_move to_stage) bag.lines then some (moved_bag bag to_stage) else none

-- `NEXT_STAGE` of the custody section.
unfoldable pub next_stage : GarmentStage → Option GarmentStage
next_stage received = some sorted
next_stage sorted = some pressing
next_stage pressing = some pressed
next_stage pressed = some qc
next_stage packed = some dispatched
next_stage dispatched = some delivered
next_stage _ = none

pub record Scan : Type 0 where
  pub code : String
  pub to_stage : GarmentStage

abbrev pub scan_to : String → Option GarmentStage → Option Scan
scan_to code none = none
scan_to code (some stage) = some (record { code = code; to_stage = stage })

-- The scan that the button of a bag's card sends, where the card has one.
unfoldable pub advance_scan : Bool → Bag → Option Scan
advance_scan can_manage bag =
    if can_manage then scan_to bag.code (next_stage bag.current_stage) else none

-- A scan that was answered, well or with an error.
pub record ScanAnswer : Type 0 where
  pub scan : Scan
  pub ok : Bool

-- One call of `processQueue`, up to the answer that it awaits: `queue` and `toStage` are those of the
-- render in which the button was pressed.
pub record BatchRun : Type 0 where
  pub queue : List String
  pub to_stage : GarmentStage
  pub answered : List ScanAnswer
  pub remaining : List String
  pub todo : List String

-- The state of `BatchScanCard`; `submitting` is that there is a run.
pub record ScanCard : Type 0 where
  pub queue : List String
  pub code : String
  pub to_stage : GarmentStage
  pub run : Option BatchRun

abbrev pub fresh_card : ScanCard
fresh_card = record { queue = []; code = ""; to_stage = sorted; run = none }

-- `addToQueue`.
abbrev pub add_code : ScanCard → String → ScanCard
add_code c trimmed =
    let queued = c.queue ++ trimmed ∷ [] in
    if trimmed == ""
    then record c { code = "" }
    else if includes c.queue trimmed
    then record c { code = "" }
    else record c { queue = queued; code = "" }

unfoldable pub add_to_queue : ScanCard → ScanCard
add_to_queue c = add_code c (trim c.code)

unfoldable pub remove_code : String → ScanCard → ScanCard
remove_code code c = record c { queue = filter (λ x. not (x == code)) c.queue }

-- The start of `processQueue`.
unfoldable pub process_queue : ScanCard → ScanCard
process_queue c = record c {
  run = some (record {
    queue = c.queue;
    to_stage = c.to_stage;
    answered = [];
    remaining = [];
    todo = c.queue;
  });
}

abbrev pub or_keep : Bool → String → List String → List String
or_keep true code remaining = remaining
or_keep false code remaining = remaining ++ code ∷ []

-- After an answer the loop goes on, or it is over and the queue is what remains.
abbrev pub continue : ScanCard → BatchRun → List String → ScanCard
continue c r [] = record c { queue = r.remaining; run = none }
continue c r (code ∷ todo) = record c { run = some r }

abbrev pub answer_next : ScanCard → BatchRun → List String → Bool → ScanCard
answer_next c r [] ok = c
answer_next c r (code ∷ todo) ok =
    continue c
      (record r {
        answered =
            r.answered
            ++ record { scan = record { code = code; to_stage = r.to_stage }; ok = ok } ∷ [];
        remaining = or_keep ok code r.remaining;
        todo = todo;
      })
      todo

-- The answer to the scan under way.
unfoldable pub answer_scan : ScanCard → BatchRun → Bool → ScanCard
answer_scan c r ok = answer_next c r r.todo ok

-- Everything that happens on the card, in any order.
pub data Reach : ScanCard → Type 0 where
  mount : Reach fresh_card
  type_code : {c : ScanCard} → Reach c → (text : String) → Reach (record c { code = text })
  choose : {c : ScanCard} → Reach c → (stage : GarmentStage) → Reach (record c { to_stage = stage })
  add : {c : ScanCard} → Reach c → Reach (add_to_queue c)
  remove : {c : ScanCard} → Reach c → (code : String) → Reach (remove_code code c)
  press : {c : ScanCard} → Reach c → c.run ≡ none → c.queue ≢ [] → Reach (process_queue c)
  answer :
      {c : ScanCard}
      → Reach c
      → (r : BatchRun) → c.run ≡ some r
      → (ok : Bool) → Reach (answer_scan c r ok)
