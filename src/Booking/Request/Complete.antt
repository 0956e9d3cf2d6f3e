-- ===== src/Booking/Request/Complete.antt =====
-- What the request of a booking holds (buildOrderInput of apps/mobile/lib/booking/state.ts).
use ironman.Prelude.{
  ℕ, ◌≡◌, refl, ◌⊎◌, inl, inr, ◌↔◌, ◌+◌, ◌<◌, String, true, ◌&&◌, Option, none, some, List, [], ◌∷◌,
  ltb, arith, All, Bool-cases, ltb→lt, leb→le, eq_iff, ap, sym, subst, ◌∙◌, ◌==◌,
}
use mathlib.Core.Option.{map as map_option}
use ironman.Booking.{
  PublicApartment, ServiceArea, Mode, in_apartment, other, NewAddress, AddressChoice, saved, new,
  Counts, BookingState, trim, text_length,
}
use ironman.Booking.Request.{
  OrderLineInput, CreateOrderInput, order_lines, total_qty, address_ready, can_place_order,
  build_order_input, base_input, fill_in, with_new, with_apartment, is_given, is_filled, filled,
  new_ready,
}

-- The pieces that some lines order.
abbrev pub ordered : List OrderLineInput → ℕ
ordered [] = 0
ordered (l ∷ lines) = l.qty + ordered lines

-- An address is sent in exactly one way.
abbrev pub SendsOneAddress : CreateOrderInput → Type 0
SendsOneAddress i =
    (is_given i.address ≡ true × (i.free_text_address ≡ none) × (i.flat_no ≡ none))
    ⊎ (((i.address ≡ none)
          × (i.free_text_address ≡ none)
          × (is_filled i.flat_no ≡ true)
          × (is_given i.apartment ≡ true))
        ⊎ ((i.address ≡ none)
            × (i.flat_no ≡ none)
            × (i.apartment ≡ none)
            × (is_filled i.free_text_address ≡ true)))

total_positive : (s : BookingState) → can_place_order s ≡ true → 0 < total_qty s.counts
unfolding can_place_order
total_positive s ready = ground arith

pub ordered-order_lines : (counts : Counts) → ordered (order_lines counts) ≡ total_qty counts
unfolding total_qty
ordered-order_lines [] = refl
ordered-order_lines (c ∷ counts) = ground (arith, ordered-order_lines counts)

pub order_lines-positive :
    (counts : Counts) → All (λ (l : OrderLineInput). 0 < l.qty) (order_lines counts)
order_lines-positive [] = tt
order_lines-positive (c ∷ counts) = elim (Bool-cases (ltb 0 c.1)) [
  | inl e ↦ rw e (ltb→lt 0 c.1 e, order_lines-positive counts)
  | inr e ↦ rw e (order_lines-positive counts)
]

empty-text_length : (s : String) → s ≡ "" → text_length s ≡ 0
unfolding text_length
empty-text_length s e = ap text_length e

filled_length : (s : String) → 0 < text_length s → filled s ≡ true
filled_length s h = elim (Bool-cases (s == "")) [
  | inl e ↦ ground (arith, empty-text_length s ((eq_iff s "").0 e))
  | inr e ↦ rw e refl
]

-- What the source's `!` leave: an input for these parts of the booking.
abbrev Filled : BookingState → Option ServiceArea → Option String → Option CreateOrderInput → Type 0
Filled s area service made =
    (input : CreateOrderInput) × (made ≡ some input)
    × (map_option ServiceArea.hub_id area ≡ some input.hub)
    × (service ≡ some input.service)
    × (input.lines ≡ order_lines s.counts)
    × SendsOneAddress input

module _ (s : BookingState) (area : ServiceArea) (service : String) (a : NewAddress) where
  with_apartment-Filled :
      (apartment : Option PublicApartment)
      → (is_given apartment && ltb 0 (text_length (trim a.flat_no))) ≡ true
      → Filled s (some area) (some service) (with_apartment a (base_input s area service) apartment)
  with_apartment-Filled none ready = ground arith
  with_apartment-Filled (some apartment) ready = (
    _,
    refl,
    refl,
    refl,
    refl,
    inr (inl (refl, refl, filled_length (trim a.flat_no) (ltb→lt _ _ ready), refl)),
  )

  with_new-Filled :
      (mode : Mode)
      → new_ready a mode ≡ true
      → Filled s (some area) (some service) (with_new a (base_input s area service) mode)
  with_new-Filled in_apartment ready = with_apartment-Filled a.apartment ready
  with_new-Filled other ready = (
    _,
    refl,
    refl,
    refl,
    refl,
    inr (
        inr
          (refl, refl, refl, filled_length (trim a.free_text) (ground (arith, leb→le _ _ ready)))),
  )

fill_in-Filled :
    (s : BookingState) (area : Option ServiceArea) (service : Option String)
    (address : Option AddressChoice)
    → (is_given area
        && (is_filled service && (address_ready address && ltb 0 (total_qty s.counts))))
      ≡ true
    → Filled s area service (fill_in s area service address)
unfolding address_ready
fill_in-Filled s none service address ready = ground arith
fill_in-Filled s (some area) none address ready = ground arith
fill_in-Filled s (some area) (some service) none ready = ground arith
fill_in-Filled s (some area) (some service) (some (saved a)) ready =
    (_, refl, refl, refl, refl, inl (refl, refl, refl))
fill_in-Filled s (some area) (some service) (some (new a)) ready =
    with_new-Filled s area service a a.mode (ground arith)

build-Filled :
    (s : BookingState)
    → can_place_order s ≡ true
    → Filled s s.area s.service_id (build_order_input s)
unfolding build_order_input can_place_order
build-Filled s ready = rw ready (fill_in-Filled s s.area s.service_id s.address ready)

-- A request is built exactly for a booking that the screen lets through.
pub build_exact :
    (s : BookingState)
    → (can_place_order s ≡ true) ↔ ((input : CreateOrderInput) × (build_order_input s ≡ some input))
unfolding build_order_input
build_exact s = (
  λ ready. let (input, made, _, _, _, _) = build-Filled s ready in (input, made),
  λ (input, made). ground arith,
)

-- The request of a booking that the screen lets through goes to its area's hub for its service,
-- orders every piece counted, on lines of at least one, and sends the address in exactly one way.
pub build_sends :
    (s : BookingState)
    → can_place_order s ≡ true
    → (input : CreateOrderInput) × (build_order_input s ≡ some input)
      × (map_option ServiceArea.hub_id s.area ≡ some input.hub)
      × (s.service_id ≡ some input.service)
      × (ordered input.lines ≡ total_qty s.counts)
      × (0 < ordered input.lines)
      × All (λ (l : OrderLineInput). 0 < l.qty) input.lines
      × SendsOneAddress input
build_sends s ready =
    let (input, made, hub, service, lines, address) = build-Filled s ready in
    let pieces = ap ordered lines ∙ ordered-order_lines s.counts in
    (
      input,
      made,
      hub,
      service,
      pieces,
      ground (arith, pieces, total_positive s ready),
      subst (All (λ (l : OrderLineInput). 0 < l.qty)) (sym lines) (order_lines-positive s.counts),
      address,
    )
