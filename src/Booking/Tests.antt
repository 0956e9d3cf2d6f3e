-- ===== src/Booking/Tests.antt =====
-- A booking from the first tap to its request.
use ironman.Prelude.{
  arith, pos, negsuc, ◌≡◌, refl, String, true, none, some, List, [], ◌∷◌, ◌<◌, All,
}
use mathlib.Core.Option.{map as map_option}
use ironman.Booking.{
  pos, negsuc, ServiceArea, AddressChoice, in_apartment, new, BookingState, BookingAction, set_area,
  set_address, set_service, set_count, set_referral, initial_booking, EarlierOrder,
  booking_provider, earlier_counts, assign, booking_reducer, after, assign, slice, without_spaces,
  text_length, trim_start, trim_end,
}
use ironman.Booking.Request.{
  OrderLineInput, CreateOrderInput, can_place_order, build_order_input, total_qty, address_ready,
  describe_address, describe_new, join_filled,
}
use ironman.Booking.Request.Complete.{build_sends, ordered, SendsOneAddress}
use ironman.Booking.Phone.{
  normalize_phone, is_plausible_phone, digits_of, without_zeros, all_digits, after_code,
}
use ironman.Booking.Bounds.{IsWellFormed, booking-IsWellFormed}

abbrev same : String → String
same s = s

abbrev home : AddressChoice
home = new (record {
  mode = in_apartment;
  apartment = some (record { id = "apt"; name = "Lake View"; cluster = "c" });
  flat_no = " 4B ";
  block = "";
  landmark = "";
  free_text = "";
})

abbrev taps : List BookingAction
taps =
    set_area (record { pincode = "560001"; hub_id = "hub"; hub_name = "Hub"; cluster_id = none })
    ∷ set_address home
    ∷ set_service "wash"
    ∷ set_count "shirt" (pos 80)
    ∷ set_count "saree" (pos 2)
    ∷ set_count "saree" (negsuc 0)
    ∷ set_referral " ab c "
    ∷ []

abbrev booked : BookingState
booked = after same initial_booking taps

run_booking : Unit {0}
unfolding booking_reducer after assign slice without_spaces text_length trim_start trim_end
    can_place_order build_order_input total_qty address_ready describe_address describe_new
    join_filled
run_booking = tt

booked_shirts : booked.counts ≡ ("shirt", 50) ∷ []
unfolding run_booking
booked_shirts = refl

booked_code : booked.referral_code ≡ "abc"
unfolding run_booking
booked_code = refl

booked_ready : can_place_order booked ≡ true
unfolding run_booking
booked_ready = refl

booked_address : describe_address booked.address ≡ "4B · Lake View"
unfolding run_booking
booked_address = refl

build_sends_example :
    (input : CreateOrderInput) × (build_order_input booked ≡ some input)
    × (map_option ServiceArea.hub_id booked.area ≡ some input.hub)
    × (booked.service_id ≡ some input.service)
    × (ordered input.lines ≡ total_qty booked.counts)
    × (0 < ordered input.lines)
    × All (λ (l : OrderLineInput). 0 < l.qty) input.lines
    × SendsOneAddress input
build_sends_example = build_sends booked booked_ready

-- An order of sixty shirts, from before there was a limit, is booked again.
abbrev many : EarlierOrder
many = record {
  service = "iron";
  lines =
      record { garment_type = "shirt"; declared_qty = 60 }
      ∷ record { garment_type = "saree"; declared_qty = 0 }
      ∷ [];
}

many_counted : BookingState.counts (booking_provider (some many)) ≡ ("shirt", 60) ∷ []
unfolding booking_provider earlier_counts assign
many_counted = refl

booking-IsWellFormed_example : IsWellFormed 60 (after same (booking_provider (some many)) taps)
booking-IsWellFormed_example =
    booking-IsWellFormed same 60 (some many) taps (omega arith) (omega arith, (omega arith, tt))

phone_run : normalize_phone " 098765 43210" ≡ "+919876543210"
unfolding normalize_phone digits_of without_zeros trim_start trim_end
phone_run = refl

phone_plausible : is_plausible_phone "98765 43210" ≡ true
unfolding is_plausible_phone normalize_phone digits_of without_zeros trim_start trim_end all_digits
    after_code text_length
phone_plausible = refl
