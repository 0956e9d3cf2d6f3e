-- ===== src/Web/Wizard.antt =====
-- The booking wizard of the site, apps/web/app/book/page.tsx: its state and its request.
pub mod Acts
pub mod Guards
pub mod Requests
mod Tests
use Prim.Native.String.{◌++◌ as join}
use text.Mathlib.Text.{starts_with}
use ironman.Prelude.{
  ◌≡◌, ℕ, zero, suc, ◌+◌, ◌-◌, String, Bool, true, false, not, ◌&&◌, ◌||◌, Option, none, some, List,
  [], ◌∷◌, ◌++◌, leb, ltb, nat_eq, if◌then◌else◌, ◌==◌,
}
use ironman.Booking.{PublicApartment, Counts, text_length, slice, trim, assign}
use ironman.Booking.Phone.{digits_of}
use ironman.Booking.Request.{
  OrderLineInput, order_lines, total_qty, filled, is_given, is_filled, if_filled, if_given,
}

pub data AddressMode : Type 0 where
  in_apartment manual : AddressMode

pub record Hub : Type 0 where
  pub id : String
  pub name : String

pub record Serviceability : Type 0 where
  pub serviceable : Bool
  pub hub : Option Hub
  pub clusters : List String

-- The body of `POST /orders/` that the page sends; a member that is `undefined` is `none`.
pub record WebOrderInput : Type 0 where
  pub hub : String
  pub service : String
  pub channel : String
  pub apartment : Option String
  pub flat_no : Option String
  pub block : Option String
  pub free_text_address : Option String
  pub landmark : Option String
  pub pickup_capacity : Option String
  pub lines : List OrderLineInput
  pub notes : String
  pub referral_code : Option String
  pub acquisition_source : Option String

pub record Placed : Type 0 where
  pub input : WebOrderInput
  pub access_token : String
  pub idempotency_key : String

-- `useState` of each name; `sent` and `keys_drawn` are what the page did outside.
pub record Wizard : Type 0 where
  pub step : ℕ
  pub order : Option String
  pub channel : String
  pub pincode : String
  pub address_mode : AddressMode
  pub apartment_query : String
  pub apartment : Option PublicApartment
  pub flat_no : String
  pub block : String
  pub landmark : String
  pub free_text_address : String
  pub service_id : Option String
  pub counts : Counts
  pub slot_id : Option String
  pub notes : String
  pub phone : String
  pub full_name : String
  pub otp_sent : Bool
  pub code : String
  pub access_token : Option String
  pub referral_code : String
  pub heard_from : String
  pub idempotency_key : Option String
  pub placing : Bool
  pub sent : List Placed
  pub keys_drawn : ℕ

-- `?src=` and `?ref=` of the page's address.
abbrev pub channel_of : Option String → String
channel_of none = "WEB"
channel_of (some src) = if src == "whatsapp" then "WHATSAPP" else "WEB"

abbrev pub or_blank_ref : Option String → String
or_blank_ref none = ""
or_blank_ref (some ref) = ref

unfoldable pub opened : Option String → Option String → Wizard
opened src ref = record {
  step = 0;
  order = none;
  channel = channel_of src;
  pincode = "";
  address_mode = in_apartment;
  apartment_query = "";
  apartment = none;
  flat_no = "";
  block = "";
  landmark = "";
  free_text_address = "";
  service_id = none;
  counts = [];
  slot_id = none;
  notes = "";
  phone = "";
  full_name = "";
  otp_sent = false;
  code = "";
  access_token = none;
  referral_code = slice 24 (or_blank_ref ref);
  heard_from = "";
  idempotency_key = none;
  placing = false;
  sent = [];
  keys_drawn = 0;
}

-- `counts[garment] ?? 0`.
unfoldable pub count_or_zero : String → Counts → ℕ
count_or_zero g [] = 0
count_or_zero g (c ∷ counts) = let rest = count_or_zero g counts in if c.0 == g then c.1 else rest

-- `normalizedPhone`.
unfoldable pub normalized_phone : String → String
normalized_phone raw =
    if starts_with raw "+" then join "+" (digits_of raw) else join "+91" (digits_of raw)

-- What the customer does, and what comes back: a code sent, a phone verified, an order placed or not.
pub data Act : Type 0 where
  type_pincode search type_flat_no type_block type_landmark type_free_text type_notes type_phone
        type_full_name type_code type_referral choose_heard choose_service choose_slot fewer more :
      String → Act
  choose_mode : AddressMode → Act
  choose_apartment : PublicApartment → Act
  drop_apartment back next confirm code_sent order_failed : Act
  verified order_created : String → Act

-- `!!apartment && flatNo.trim().length > 0`, or `freeTextAddress.trim().length > 0`.
abbrev pub address_given : Wizard → AddressMode → Bool
address_given w in_apartment = is_given w.apartment && ltb 0 (text_length (trim w.flat_no))
address_given w manual = ltb 0 (text_length (trim w.free_text_address))

abbrev pub apartment_id : Option PublicApartment → Option String
apartment_id none = none
apartment_id (some a) = some a.id

-- `slotId ?? undefined` and the other members that may be missing.
abbrev pub with_place : Wizard → AddressMode → WebOrderInput → WebOrderInput
with_place w in_apartment i = record i { flat_no = some w.flat_no; block = some w.block }
with_place w manual i = record i {
  free_text_address = some w.free_text_address;
  landmark = some w.landmark;
}

unfoldable pub order_input : Wizard → Hub → String → WebOrderInput
order_input w hub service = with_place w w.address_mode (record {
  hub = hub.id;
  service = service;
  channel = w.channel;
  apartment = apartment_id w.apartment;
  flat_no = none;
  block = none;
  free_text_address = none;
  landmark = none;
  pickup_capacity = w.slot_id;
  lines = order_lines w.counts;
  notes = w.notes;
  referral_code = if_filled (trim w.referral_code);
  acquisition_source = if_filled w.heard_from;
})

-- `if (!idempotencyKeyRef.current) idempotencyKeyRef.current = newIdempotencyKey()`.
abbrev pub key_or : String → Option String → String
key_or fresh none = fresh
key_or fresh (some key) = if key == "" then fresh else key
