-- ===== src/Booking.antt =====
-- apps/mobile/lib/booking/state.ts: the booking flow's state, its reducer and the request it sends; and
-- its start, in context.tsx there and apps/mobile/app/book/_layout.tsx.
-- Upper case is the runtime's, and so a parameter. A quantity is a number already cut by `trunc`; the
-- garments' ids are taken not to look like array indices, which `Object.entries` would move first.
pub mod Placing
pub mod Request
pub mod Phone
pub mod Prefs
pub mod Bounds
mod Tests
use Prim.Native.Char.{Char, code}
use Prim.Native.String.{◌++◌ as join}
use ironman.Prelude.{
  ℤ, pos, negsuc, ℕ, zero, suc, ◌+◌, ◌-◌, min, String, Bool, true, false, not, ◌&&◌, ◌||◌, Option,
  none, some, List, [], ◌∷◌, map, filter, leb, ltb, nat_eq, if◌then◌else◌, ◌==◌, any,
}

pub record PublicApartment : Type 0 where
  pub id : String
  pub name : String
  pub cluster : String

pub record ServiceArea : Type 0 where
  pub pincode : String
  pub hub_id : String
  pub hub_name : String
  pub cluster_id : Option String

pub data Mode : Type 0 where
  in_apartment other : Mode

pub record NewAddress : Type 0 where
  pub mode : Mode
  pub apartment : Option PublicApartment
  pub flat_no : String
  pub block : String
  pub landmark : String
  pub free_text : String

pub record SavedAddress : Type 0 where
  pub id : String
  pub label : String
  pub apartment_id : Option String

pub data AddressChoice : Type 0 where
  saved : SavedAddress → AddressChoice
  new : NewAddress → AddressChoice

abbrev pub Counts : Type 0
Counts = List (String × ℕ)

pub record BookingState : Type 0 where
  pub area : Option ServiceArea
  pub address : Option AddressChoice
  pub service_id : Option String
  pub counts : Counts
  pub slot_id : Option String
  pub notes : String
  pub referral_code : String
  pub heard_from : String

abbrev pub initial_booking : BookingState
initial_booking = record {
  area = none;
  address = none;
  service_id = none;
  counts = [];
  slot_id = none;
  notes = "";
  referral_code = "";
  heard_from = "";
}

pub data BookingAction : Type 0 where
  set_area : ServiceArea → BookingAction
  set_address : AddressChoice → BookingAction
  set_service : String → BookingAction
  set_count : String → ℤ → BookingAction
  set_slot : Option String → BookingAction
  set_notes : String → BookingAction
  set_referral : String → BookingAction
  set_heard_from : String → BookingAction
  reset : BookingAction

abbrev pub max_per_garment : ℕ
max_per_garment = 50

-- A character's UTF-16 units, which `length` and `slice` count.
abbrev pub units : Char → ℕ
units c = if ltb (code c) 65536 then 1 else 2

unfoldable pub text_length : String → ℕ
text_length String.[] = 0
text_length (String.◌∷◌ c s) = units c + text_length s

-- `slice(0, n)`. A character that it would cut in half is left out.
unfoldable pub slice : ℕ → String → String
slice n String.[] = ""
slice n (String.◌∷◌ c s) =
    let rest = slice (n - units c) s in if leb (units c) n then String.◌∷◌ c rest else ""

abbrev pub between : ℕ → ℕ → ℕ → Bool
between low high n = leb low n && leb n high

-- The white space of `trim` and of `\s`.
abbrev pub is_space : Char → Bool
is_space c =
    between 9 13 (code c)
    || nat_eq (code c) 32
    || nat_eq (code c) 160
    || nat_eq (code c) 5760
    || between 8192 8202 (code c)
    || between 8232 8233 (code c)
    || nat_eq (code c) 8239
    || nat_eq (code c) 8287
    || nat_eq (code c) 12288
    || nat_eq (code c) 65279

-- `replace(/\s/g, "")`.
unfoldable pub without_spaces : String → String
without_spaces String.[] = ""
without_spaces (String.◌∷◌ c s) =
    let rest = without_spaces s in if is_space c then rest else String.◌∷◌ c rest

unfoldable pub trim_start : String → String
trim_start String.[] = ""
trim_start (String.◌∷◌ c s) = let rest = trim_start s in if is_space c then rest else String.◌∷◌ c s

unfoldable pub trim_end : String → String
trim_end String.[] = ""
trim_end (String.◌∷◌ c s) =
    let rest = trim_end s in if is_space c && rest == "" then "" else String.◌∷◌ c rest

abbrev pub trim : String → String
trim s = trim_end (trim_start s)

-- `counts[garment] = qty`: in its place, or at the end.
unfoldable pub assign : String → ℕ → Counts → Counts
assign g n [] = (g, n) ∷ []
assign g n ((h, m) ∷ counts) =
    let rest = assign g n counts in if h == g then (h, n) ∷ counts else (h, m) ∷ rest

pub record EarlierLine : Type 0 where
  pub garment_type : String
  pub declared_qty : ℕ

pub record EarlierOrder : Type 0 where
  pub service : String
  pub lines : List EarlierLine

-- `Object.fromEntries` of the lines of an earlier order that were declared, as declared.
unfoldable pub earlier_counts : Counts → List EarlierLine → Counts
unfolding assign
earlier_counts counts [] = counts
earlier_counts counts (line ∷ lines) =
    earlier_counts
      (if ltb 0 line.declared_qty
        then assign line.garment_type line.declared_qty counts
        else counts)
      lines

-- `{ ...initialBooking, ...initial }`, where `initial` is made of the order that is booked again.
unfoldable pub booking_provider : Option EarlierOrder → BookingState
unfolding earlier_counts
booking_provider none = initial_booking
booking_provider (some earlier) = record initial_booking {
  service_id = some earlier.service;
  counts = earlier_counts [] earlier.lines;
}

-- `delete counts[garment]`.
abbrev pub delete : String → Counts → Counts
delete g counts = filter (λ c. not (c.0 == g)) counts

-- `Math.max(0, Math.min(MAX_PER_GARMENT, qty))`.
abbrev pub clamp : ℤ → ℕ
clamp (pos n) = min max_per_garment n
clamp (negsuc n) = 0

abbrev pub with_count : String → ℕ → Counts → Counts
with_count g qty counts = if nat_eq qty 0 then delete g counts else assign g qty counts

abbrev pub is_service : Option String → String → Bool
is_service none id = false
is_service (some old) id = id == old

module _ (upper : String → String) where
  unfoldable pub booking_reducer : BookingState → BookingAction → BookingState
  unfolding assign slice without_spaces
  booking_reducer s (set_area area) = record s { area = some area }
  booking_reducer s (set_address address) = record s { address = some address }
  booking_reducer s (set_service id) =
      if is_service s.service_id id then s else record s { service_id = some id; counts = [] }
  booking_reducer s (set_count garment qty) = record s {
    counts = with_count garment (clamp qty) s.counts;
  }
  booking_reducer s (set_slot slot_id) = record s { slot_id = slot_id }
  booking_reducer s (set_notes notes) = record s { notes = slice 500 notes }
  booking_reducer s (set_referral text) = record s {
    referral_code = slice 24 (without_spaces (upper text));
  }
  booking_reducer s (set_heard_from value) = record s { heard_from = value }
  booking_reducer s reset = record initial_booking { area = s.area }

  -- The state after some actions, the first one first.
  unfoldable pub after : BookingState → List BookingAction → BookingState
  unfolding booking_reducer
  after s [] = s
  after s (action ∷ actions) = after (booking_reducer s action) actions
