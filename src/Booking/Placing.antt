-- ===== src/Booking/Placing.antt =====
-- Placing a booking, `placeOrder` of apps/mobile/app/book/confirm.tsx: the idempotency key across the
-- attempts of one visit of the screen. `keys n` is the key that `randomUUID()` returns if tap `n` asks
-- for one. The server (apps/api/ordering/services.py, create_order) has one order for a key: an attempt
-- under a key that it has an order for makes none.
pub mod Once
mod Tests
use ironman.Prelude.{
  ◌≡◌, ℕ, suc, ◌+◌, String, Bool, true, false, ◌&&◌, Option, none, some, List, [], ◌∷◌, ◌++◌,
  includes, leb, ltb, if◌then◌else◌, ◌==◌,
}
use ironman.Exec.{ApiError, Thrown, api_error, other_error}

-- The ref and the error of the screen; `placed` is that the booking was reset and left, `taps` how many
-- taps there were, and `orders` the keys of the orders that the server has made.
pub record Placing : Type 0 where
  pub key : Option String
  pub error : Option String
  pub placed : Bool
  pub taps : ℕ
  pub orders : List String

abbrev pub confirm_opened : Placing
confirm_opened = record { key = none; error = none; placed = false; taps = 0; orders = [] }

-- `if (!idempotencyKey.current) idempotencyKey.current = randomUUID()`.
abbrev pub drawn_key : String → Option String → String
drawn_key fresh none = fresh
drawn_key fresh (some key) = if key == "" then fresh else key

abbrev pub is_client_error : Thrown → Bool
is_client_error (api_error e) = leb 400 e.status && ltb e.status 500
is_client_error other_error = false

-- The server's order for a key, made where there is none.
unfoldable pub ordered_under : String → List String → List String
ordered_under key orders = if includes orders key then orders else orders ++ key ∷ []

-- `err.fieldErrors.referral_code?.[0] ?? err.message`, or the app's own words.
unfoldable pub messages_of : String → List (String × List String) → List String
messages_of name [] = []
messages_of name (f ∷ fields) =
    let rest = messages_of name fields in if f.0 == name then f.1 else rest

abbrev pub first_or : String → List String → String
first_or other [] = other
first_or other (m ∷ messages) = m

unfoldable pub shown_error : Thrown → String
shown_error (api_error e) = first_or e.message (messages_of "referral_code" e.field_errors)
shown_error other_error = "Couldn't place your order. Check your connection and try again."

-- How an attempt goes: the answer arrives; the server takes the booking and the answer is lost, or it
-- takes nothing; the app then has an error.
pub data Attempt : Type 0 where
  answered : Attempt
  unheard unsent : Thrown → Attempt

-- The `catch` block.
unfoldable pub after_error : Thrown → Placing → Placing
after_error thrown p = record p {
  key = if is_client_error thrown then none else p.key;
  error = some (shown_error thrown);
}

module _ (keys : ℕ → String) where
  abbrev pub with_key : Placing → Placing
  with_key p = record p {
    error = none;
    key = some (drawn_key (keys p.taps) p.key);
    taps = suc p.taps;
  }

  abbrev pub with_order : Placing → Placing
  with_order p = record p { orders = ordered_under (drawn_key (keys p.taps) p.key) p.orders }

  -- `placeOrder`.
  unfoldable pub place_order : Attempt → Placing → Placing
  unfolding after_error
  place_order answered p = record (with_key (with_order p)) { placed = true }
  place_order (unheard thrown) p = after_error thrown (with_key (with_order p))
  place_order (unsent thrown) p = after_error thrown (with_key p)

  -- Taps on the button, up to the one that places the booking.
  unfoldable pub tapped : List Attempt → Placing → Placing
  unfolding place_order
  tapped [] p = p
  tapped (a ∷ attempts) p =
      let next = tapped attempts (place_order a p) in if p.placed then p else next
