-- ===== src/Booking/Placing/Tests.antt =====
-- An order whose answer is lost on the way.
use ironman.Prelude.{
  ◌≡◌, ◌≤◌, refl, inl, ℕ, String, true, false, none, List, [], ◌∷◌, length, nat_eq, inr,
  if◌then◌else◌, Bool-cases, ◌==◌,
}
use ironman.Exec.{ApiError, api_error, other_error}
use ironman.Booking.Placing.{
  confirm_opened, ordered_under, messages_of, shown_error, Attempt, answered, unheard, unsent,
  after_error, place_order, tapped,
}
use ironman.Booking.Placing.Once.{AreFair, tapped_once}

abbrev first_key : ℕ → String
first_key n = if nat_eq n 2 then "k3" else "k1"

first_key-real : (n : ℕ) → (first_key n == "") ≡ false
first_key-real n = elim (Bool-cases (nat_eq n 2)) [ inl t ↦ rw t refl | inr f ↦ rw f refl ]

abbrev lost_then_answered : List Attempt
lost_then_answered = unheard other_error ∷ unsent other_error ∷ answered ∷ []

fair_attempts : AreFair first_key lost_then_answered confirm_opened
fair_attempts = (refl, (inl refl, (tt, tt)))

tapped_once_example :
    (length (tapped first_key lost_then_answered confirm_opened).orders ≤ 1)
    × ((tapped first_key lost_then_answered confirm_opened).placed ≡ true
        → length (tapped first_key lost_then_answered confirm_opened).orders ≡ 1)
tapped_once_example = tapped_once first_key first_key-real lost_then_answered fair_attempts

abbrev invalid : ApiError
invalid = record {
  status = 400;
  code = "validation_error";
  message = "Check the details.";
  detail = none;
  field_errors = [];
  request_id = "";
  retryable = true;
}

-- The order was made, the next tap is refused for its details, and the third tap makes a second order.
ordered_twice :
    (tapped first_key
      (unheard other_error ∷ unsent (api_error invalid) ∷ answered ∷ [])
      confirm_opened).orders
    ≡ "k1" ∷ "k3" ∷ []
unfolding tapped place_order after_error ordered_under
ordered_twice = refl

refused_words : shown_error (api_error invalid) ≡ "Check the details."
unfolding shown_error messages_of
refused_words = refl
