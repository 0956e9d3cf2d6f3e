-- ===== src/Booking/Request.antt =====
-- The request of a finished booking, and the line that describes its address.
pub mod Complete
use Prim.Native.String.{◌++◌ as join}
use ironman.Prelude.{
  ℕ, zero, suc, ◌+◌, String, Bool, true, false, not, ◌&&◌, ◌||◌, Option, none, some, List, [], ◌∷◌,
  map, filter, leb, ltb, nat_eq, if◌then◌else◌, ◌==◌,
}
use ironman.Booking.{
  PublicApartment, ServiceArea, Mode, in_apartment, other, NewAddress, SavedAddress, AddressChoice,
  saved, new, Counts, BookingState, text_length, trim, trim_start, trim_end,
}

pub record OrderLineInput : Type 0 where
  pub garment_type : String
  pub qty : ℕ

-- A field left out is `none`.
pub record CreateOrderInput : Type 0 where
  pub hub : String
  pub service : String
  pub channel : String
  pub address : Option String
  pub flat_no : Option String
  pub block : Option String
  pub landmark : Option String
  pub free_text_address : Option String
  pub apartment : Option String
  pub pickup_capacity : Option String
  pub lines : List OrderLineInput
  pub notes : Option String
  pub referral_code : Option String
  pub acquisition_source : Option String

abbrev pub order_lines : Counts → List OrderLineInput
order_lines counts =
    map (λ c. record { garment_type = c.0; qty = c.1 }) (filter (λ c. ltb 0 c.1) counts)

unfoldable pub total_qty : Counts → ℕ
total_qty [] = 0
total_qty (c ∷ counts) = c.1 + total_qty counts

-- `!!value` of a text, or of an object.
abbrev pub filled : String → Bool
filled s = not (s == "")

abbrev pub is_given : {A : Type 0} → Option A → Bool
is_given none = false
is_given (some a) = true

abbrev pub is_filled : Option String → Bool
is_filled none = false
is_filled (some s) = filled s

abbrev pub new_ready : NewAddress → Mode → Bool
new_ready a in_apartment = is_given a.apartment && ltb 0 (text_length (trim a.flat_no))
new_ready a other = leb 5 (text_length (trim a.free_text))

unfoldable pub address_ready : Option AddressChoice → Bool
unfolding text_length trim_start trim_end
address_ready none = false
address_ready (some (saved a)) = true
address_ready (some (new a)) = new_ready a a.mode

-- `.filter(Boolean).join(separator)`.
unfoldable pub join_filled : String → List String → String
join_filled sep [] = ""
join_filled sep (s ∷ texts) =
    let rest = join_filled sep texts in
    if s == "" then rest else if rest == "" then s else join s (join sep rest)

abbrev pub name_of : Option PublicApartment → String
name_of none = ""
name_of (some a) = a.name

unfoldable pub describe_new : NewAddress → Mode → String
unfolding trim_start trim_end join_filled
describe_new a in_apartment =
    let block = trim a.block in
    let unit =
      join_filled ", " (trim a.flat_no ∷ (if block == "" then "" else join "Block " block) ∷ []) in
    join_filled " · " (unit ∷ name_of a.apartment ∷ [])
describe_new a other = join_filled " · " (trim a.free_text ∷ trim a.landmark ∷ [])

unfoldable pub describe_address : Option AddressChoice → String
unfolding describe_new
describe_address none = ""
describe_address (some (saved a)) = a.label
describe_address (some (new a)) = describe_new a a.mode

unfoldable pub can_place_order : BookingState → Bool
unfolding address_ready total_qty
can_place_order s =
    is_given s.area
    && (is_filled s.service_id && (address_ready s.address && ltb 0 (total_qty s.counts)))

-- `if (text) input.field = text`.
abbrev pub if_filled : String → Option String
if_filled s = if s == "" then none else some s

abbrev pub if_given : Option String → Option String
if_given none = none
if_given (some s) = if_filled s

-- The input without the fields of its address.
abbrev pub base_input : BookingState → ServiceArea → String → CreateOrderInput
base_input s area service = record {
  hub = area.hub_id;
  service = service;
  channel = "APP";
  address = none;
  flat_no = none;
  block = none;
  landmark = none;
  free_text_address = none;
  apartment = none;
  pickup_capacity = if_given s.slot_id;
  lines = order_lines s.counts;
  notes = if_filled (trim s.notes);
  referral_code = if_filled (trim s.referral_code);
  acquisition_source = if_filled s.heard_from;
}

-- `address.apartment!.id` throws when there is no apartment.
abbrev pub with_apartment :
    NewAddress → CreateOrderInput → Option PublicApartment → Option CreateOrderInput
with_apartment a input none = none
with_apartment a input (some apartment) = some (record input {
  apartment = some apartment.id;
  flat_no = some (trim a.flat_no);
  block = if_filled (trim a.block);
})

abbrev pub with_new : NewAddress → CreateOrderInput → Mode → Option CreateOrderInput
with_new a input in_apartment = with_apartment a input a.apartment
with_new a input other = some (record input {
  free_text_address = some (trim a.free_text);
  landmark = if_filled (trim a.landmark);
})

abbrev pub with_address : AddressChoice → CreateOrderInput → Option CreateOrderInput
with_address (saved a) input =
    some (record input { address = some a.id; apartment = if_given a.apartment_id })
with_address (new a) input = with_new a input a.mode

-- The source's `state.area!`, `state.serviceId!` and `state.address!`: `none` is a throw.
abbrev pub fill_in :
    BookingState
    → Option ServiceArea
    → Option String
    → Option AddressChoice
    → Option CreateOrderInput
fill_in s (some area) (some service) (some address) =
    with_address address (base_input s area service)
fill_in s _ _ _ = none

unfoldable pub build_order_input : BookingState → Option CreateOrderInput
unfolding can_place_order
build_order_input s = if can_place_order s then fill_in s s.area s.service_id s.address else none

-- The growth channels and how a customer reads them.
abbrev pub heard_from_choices : List (String × String)
heard_from_choices =
    ("WATCHMAN", "Our building's security guard")
    ∷ ("CUSTOMER_REFERRAL", "A friend or neighbour")
    ∷ ("FLYER", "A flyer or poster")
    ∷ ("DIGITAL_AD", "An Instagram or Facebook ad")
    ∷ ("WHATSAPP", "A WhatsApp message")
    ∷ ("WALK_IN", "I saw your shop or stand")
    ∷ ("ORGANIC", "I searched online")
    ∷ []
