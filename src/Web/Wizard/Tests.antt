-- ===== src/Web/Wizard/Tests.antt =====
-- A visit on which the customer looks at one service, books another, and types the address after
-- choosing an apartment.
use ironman.Prelude.{
  ◌≡◌, refl, ◌++◌, ◌&&◌, ℕ, String, Bool, true, Option, none, some, List, [], ◌∷◌, arith,
}
use ironman.Booking.{text_length, slice, trim_start, trim_end, assign}
use ironman.Booking.Phone.{digits_of}
use ironman.Booking.Request.{total_qty, filled}
use ironman.Web.Wizard.{
  manual, Hub, Serviceability, Placed, Wizard, opened, Act, type_pincode, choose_apartment,
  choose_mode, type_free_text, choose_service, more, verified, confirm, back, next, order_failed,
  type_notes, apartment_id, order_input, count_or_zero,
}
use ironman.Web.Wizard.Acts.{
  nth, perform, handle_confirm, card_of, is_shown, is_enabled, Visit, open_page, act,
}
use ironman.Web.Wizard.Guards.{IsGuarded, Visit-IsGuarded}
use ironman.Web.Wizard.Requests.{IsWhole, confirm_exact, HasOneKey, Visit-HasOneKey}

abbrev koramangala : Hub
koramangala = record { id = "h1"; name = "Koramangala" }

abbrev lookup : String → Option Serviceability
lookup pincode = some (record { serviceable = true; hub = some koramangala; clusters = [] })

abbrev one_key : ℕ → String
one_key n = "k"

abbrev run : Wizard → List Act → Wizard
run w [] = w
run w (a ∷ acts) = run (perform lookup one_key w a) acts

abbrev allowed : Wizard → List Act → Bool
allowed w [] = true
allowed w (a ∷ acts) =
    (is_shown w.step (card_of a) && is_enabled lookup one_key w a)
    && allowed (perform lookup one_key w a) acts

run-Visit :
    (acts : List Act) (w : Wizard)
    → Visit lookup one_key w
    → allowed w acts ≡ true
    → Visit lookup one_key (run w acts)
run-Visit [] w visit fine = visit
run-Visit (a ∷ acts) w visit fine =
    run-Visit acts (perform lookup one_key w a) (act visit a (ground (arith, fine)))
      (ground (arith, fine))

abbrev booking : List Act
booking =
    type_pincode "560095"
    ∷ next
    ∷ choose_apartment (record { id = "a1"; name = "Palms"; cluster = "c1" })
    ∷ choose_mode manual
    ∷ type_free_text "12 Main Road"
    ∷ next
    ∷ choose_service "ironing"
    ∷ next
    ∷ more "shirt"
    ∷ back
    ∷ choose_service "dry-cleaning"
    ∷ next
    ∷ next
    ∷ next
    ∷ verified "t"
    ∷ next
    ∷ []

abbrev at_the_end : Wizard
at_the_end = run (opened none none) booking

booking-allowed : allowed (opened none none) booking ≡ true
unfolding perform opened digits_of text_length total_qty nth assign count_or_zero trim_start
    trim_end slice
booking-allowed = refl

end_visited : Visit lookup one_key at_the_end
end_visited = run-Visit booking (opened none none) (open_page none none) booking-allowed

end_step : at_the_end.step ≡ 6
unfolding perform opened
end_step = refl

-- The shirt was counted for the service that was left, and the apartment goes with the typed address.
sent_at_the_end :
    (at_the_end.service_id ≡ some "dry-cleaning")
    × (at_the_end.counts ≡ ("shirt", 1) ∷ [])
    × ((order_input at_the_end koramangala "dry-cleaning").apartment ≡ some "a1")
    × ((order_input at_the_end koramangala "dry-cleaning").free_text_address ≡ some "12 Main Road")
unfolding perform opened assign count_or_zero order_input
sent_at_the_end = (refl, refl, refl, refl)

Visit-IsGuarded_example : IsGuarded lookup one_key at_the_end
Visit-IsGuarded_example = Visit-IsGuarded lookup one_key end_visited

confirm_exact_example :
    (p : Placed) × ((handle_confirm lookup one_key at_the_end).sent ≡ at_the_end.sent ++ p ∷ [])
    × IsWhole lookup one_key p
    × (p.input.apartment ≡ apartment_id at_the_end.apartment)
confirm_exact_example = confirm_exact lookup one_key at_the_end end_visited end_step

abbrev key_filled : (n : ℕ) → filled (one_key n) ≡ true
key_filled n = refl

-- A first try that fails, another note, and a second try.
abbrev retry : List Act
retry = confirm ∷ order_failed ∷ back ∷ back ∷ type_notes "ring twice" ∷ next ∷ next ∷ confirm ∷ []

retry-allowed : allowed at_the_end retry ≡ true
unfolding perform handle_confirm opened digits_of text_length total_qty nth assign count_or_zero
    trim_start trim_end slice
retry-allowed = refl

Visit-HasOneKey_example : HasOneKey lookup one_key key_filled (run at_the_end retry)
Visit-HasOneKey_example =
    Visit-HasOneKey lookup one_key key_filled (run-Visit retry at_the_end end_visited retry-allowed)
