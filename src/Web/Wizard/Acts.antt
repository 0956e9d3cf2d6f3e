-- ===== src/Web/Wizard/Acts.antt =====
-- What each control of the booking wizard does and when it can be used, and the answers that arrive
-- later. `serviceability` is the cached answer for a pincode, and `keys` the keys that
-- `newIdempotencyKey()` returns, one after another.
use ironman.Prelude.{
  ◌≡◌, ℕ, zero, suc, ◌+◌, ◌-◌, String, Bool, true, false, not, ◌&&◌, Option, none, some, List, [],
  ◌∷◌, ◌++◌, ltb, nat_eq, if◌then◌else◌,
}
use ironman.Booking.{text_length, assign}
use ironman.Booking.Phone.{digits_of}
use ironman.Booking.Request.{total_qty, filled, is_given, is_filled, if_given}
use ironman.Web.Wizard.{
  Hub, Serviceability, Wizard, opened, count_or_zero, Act, type_pincode, choose_mode, search,
  choose_apartment, drop_apartment, type_flat_no, type_block, type_landmark, type_free_text,
  choose_service, fewer, more, choose_slot, type_notes, type_phone, type_full_name, type_code,
  type_referral, choose_heard, code_sent, verified, order_created, order_failed, back, next,
  confirm, address_given, order_input, key_or,
}

-- The step on whose card a control stands; the other controls are on every card.
abbrev pub card_of : Act → Option ℕ
card_of (type_pincode text) = some 0
card_of (choose_mode mode) = some 1
card_of (search text) = some 1
card_of (choose_apartment a) = some 1
card_of drop_apartment = some 1
card_of (type_flat_no text) = some 1
card_of (type_block text) = some 1
card_of (type_landmark text) = some 1
card_of (type_free_text text) = some 1
card_of (choose_service id) = some 2
card_of (fewer g) = some 3
card_of (more g) = some 3
card_of (choose_slot id) = some 4
card_of (type_notes text) = some 4
card_of (type_phone text) = some 5
card_of (type_full_name text) = some 5
card_of (type_code text) = some 5
card_of (type_referral text) = some 6
card_of (choose_heard value) = some 6
card_of confirm = some 6
card_of _ = none

abbrev pub is_shown : ℕ → Option ℕ → Bool
is_shown step none = true
is_shown step (some card) = nat_eq step card

abbrev pub served_by : Option Serviceability → Option Hub
served_by none = none
served_by (some answer) = if answer.serviceable then answer.hub else none

-- `flags[i]`, where `undefined` counts as false.
unfoldable pub nth : ℕ → List Bool → Bool
nth i [] = false
nth zero (flag ∷ flags) = flag
nth (suc i) (flag ∷ flags) = nth i flags

module _ (serviceability : String → Option Serviceability) (keys : ℕ → String) where
  -- The query is made for six digits.
  abbrev pub hub_of : String → Option Hub
  hub_of pincode =
      if nat_eq (text_length pincode) 6 then served_by (serviceability pincode) else none

  -- What each step asks for; the last one asks for nothing that `canProceed` knows.
  abbrev pub guards : Wizard → List Bool
  guards w =
      is_given (hub_of w.pincode)
      ∷ address_given w w.address_mode
      ∷ is_filled w.service_id
      ∷ ltb 0 (total_qty w.counts)
      ∷ true
      ∷ is_filled w.access_token
      ∷ []

  abbrev pub can_proceed : Wizard → Bool
  can_proceed w = nth w.step (guards w)

  abbrev pub place_with : Wizard → Option Hub → Option String → Option String → Wizard
  place_with w (some hub) (some service) (some token) = record w {
    placing = true;
    idempotency_key = some (key_or (keys w.keys_drawn) w.idempotency_key);
    keys_drawn = if is_filled w.idempotency_key then w.keys_drawn else suc w.keys_drawn;
    sent =
        w.sent
        ++ record {
          input = order_input w hub service;
          access_token = token;
          idempotency_key = key_or (keys w.keys_drawn) w.idempotency_key;
        }
          ∷ [];
  }
  place_with w _ _ _ = w

  -- `handleConfirm`, up to the answer.
  unfoldable pub handle_confirm : Wizard → Wizard
  handle_confirm w =
      place_with w (hub_of w.pincode) (if_given w.service_id) (if_given w.access_token)

  unfoldable pub perform : Wizard → Act → Wizard
  perform w (type_pincode text) = record w { pincode = digits_of text }
  perform w (choose_mode mode) = record w { address_mode = mode }
  perform w (search text) = record w { apartment_query = text; apartment = none }
  perform w (choose_apartment a) = record w { apartment = some a }
  perform w drop_apartment = record w { apartment = none }
  perform w (type_flat_no text) = record w { flat_no = text }
  perform w (type_block text) = record w { block = text }
  perform w (type_landmark text) = record w { landmark = text }
  perform w (type_free_text text) = record w { free_text_address = text }
  perform w (choose_service id) = record w { service_id = some id }
  perform w (fewer g) = record w { counts = assign g (count_or_zero g w.counts - 1) w.counts }
  perform w (more g) = record w { counts = assign g (count_or_zero g w.counts + 1) w.counts }
  perform w (choose_slot id) = record w { slot_id = some id }
  perform w (type_notes text) = record w { notes = text }
  perform w (type_phone text) = record w { phone = text }
  perform w (type_full_name text) = record w { full_name = text }
  perform w (type_code text) = record w { code = digits_of text }
  perform w (type_referral text) = record w { referral_code = text }
  perform w (choose_heard value) = record w { heard_from = value }
  perform w code_sent = record w { otp_sent = true }
  perform w (verified token) = record w { access_token = some token }
  perform w (order_created ref) = record w { order = some ref; placing = false }
  perform w order_failed = record w { placing = false }
  perform w back = record w { step = w.step - 1 }
  perform w next = record w { step = w.step + 1 }
  perform w confirm = handle_confirm w

  -- The controls' own `disabled`. An access token that the server sends is not empty.
  abbrev pub is_enabled : Wizard → Act → Bool
  is_enabled w (fewer g) = ltb 0 (count_or_zero g w.counts)
  is_enabled w (type_phone text) = not w.otp_sent
  is_enabled w confirm = not w.placing
  is_enabled w back = ltb 0 w.step
  is_enabled w next = ltb w.step 6 && can_proceed w
  is_enabled w (verified token) = filled token
  is_enabled w _ = true

  -- Every visit of the page, up to the order.
  pub data Visit : Wizard → Type 0 where
    open_page : (src ref : Option String) → Visit (opened src ref)
    act :
        {w : Wizard}
        → Visit w
        → (a : Act) → (is_shown w.step (card_of a) && is_enabled w a) ≡ true
        → Visit (perform w a)
