-- ===== src/Web/Wizard/Requests.antt =====
-- The requests that the wizard sends.
use ironman.Prelude.{
  ◌≡◌, refl, sym, subst, ◌⊎◌, inl, inr, ℕ, ◌<◌, String, true, Option, none, some, List, [], ◌∷◌,
  ◌++◌, All, arith, Bool-cases, ltb→lt, ◌==◌,
}
use ironman.Booking.{PublicApartment, trim, text_length}
use ironman.Booking.Request.{
  OrderLineInput, order_lines, total_qty, filled, is_given, is_filled, if_given,
}
use ironman.Booking.Request.Complete.{ordered, ordered-order_lines, order_lines-positive}
use ironman.Web.Wizard.{
  AddressMode, in_apartment, manual, Hub, Serviceability, WebOrderInput, Placed, Wizard, opened,
  Act, address_given, apartment_id, order_input, key_or,
}
use ironman.Web.Wizard.Acts.{
  guards, nth, hub_of, perform, handle_confirm, place_with, Visit, open_page, act,
}
use ironman.Web.Wizard.Guards.{IsGuarded, Visit-IsGuarded}

-- A request says where to come in exactly one of the two ways.
abbrev pub TellsPlace : WebOrderInput → Type 0
TellsPlace i =
    ((flat : String) × (i.flat_no ≡ some flat)
      × (0 < text_length (trim flat))
      × (is_given i.apartment ≡ true)
      × (i.free_text_address ≡ none))
    ⊎ ((text : String) × (i.free_text_address ≡ some text)
        × (0 < text_length (trim text))
        × (i.flat_no ≡ none))

-- Requests under one key, and one more under it.
keyed_snoc :
    (was now : Option String) (sent : List Placed) (last : Placed)
    → ((p : Placed) → was ≡ some p.idempotency_key → now ≡ some p.idempotency_key)
    → now ≡ some last.idempotency_key
    → All (λ (p : Placed). was ≡ some p.idempotency_key) sent
    → All (λ (p : Placed). now ≡ some p.idempotency_key) (sent ++ last ∷ [])
keyed_snoc was now [] last turn here one = (here, tt)
keyed_snoc was now (p ∷ sent) last turn here (e, one) =
    (turn p e, keyed_snoc was now sent last turn here one)

module _ (serviceability : String → Option Serviceability) (keys : ℕ → String) where
  -- What the server is told is enough for an order.
  abbrev pub IsWhole : Placed → Type 0
  IsWhole p =
      ((pincode : String) × (hub : Hub) × (hub_of serviceability keys pincode ≡ some hub)
        × (p.input.hub ≡ hub.id))
      × (filled p.input.service ≡ true)
      × (0 < ordered p.input.lines)
      × All (λ (l : OrderLineInput). 0 < l.qty) p.input.lines
      × TellsPlace p.input
      × (filled p.access_token ≡ true)

  -- The answers that a confirmation needs, as the guards give them.
  pub record Answers (w : Wizard) : Type 0 where
    pub hub : Hub
    pub service : String
    pub token : String
    pub has_hub : hub_of serviceability keys w.pincode ≡ some hub
    pub has_service : if_given w.service_id ≡ some service
    pub has_token : if_given w.access_token ≡ some token
    pub real_service : filled service ≡ true
    pub real_token : filled token ≡ true
    pub has_place : address_given w w.address_mode ≡ true
    pub some_items : 0 < total_qty w.counts

  given_text :
      (o : Option String)
      → is_filled o ≡ true
      → (s : String) × (if_given o ≡ some s) × (filled s ≡ true)
  given_text none e = ground arith
  given_text (some s) e = (
    s,
    elim (Bool-cases (s == "")) [ inl empty ↦ ground (arith, empty, e) | inr full ↦ rw full refl ],
    e,
  )

  given_hub : (o : Option Hub) → is_given o ≡ true → (hub : Hub) × (o ≡ some hub)
  given_hub none e = ground arith
  given_hub (some hub) e = (hub, refl)

  given_id : (o : Option PublicApartment) → is_given o ≡ true → is_given (apartment_id o) ≡ true
  given_id none e = e
  given_id (some a) e = refl

  answers : (w : Wizard) → IsGuarded serviceability keys w → w.step ≡ 6 → Answers w
  unfolding nth
  answers w inv last =
      let at : (i : ℕ) → i < 6 → nth i (guards serviceability keys w) ≡ true =
        λ i h. inv.passed i (omega (arith, h, last)) in
      let (hub, has_hub) = given_hub (hub_of serviceability keys w.pincode) (at 0 (omega arith)) in
      let (service, has_service, real_service) = given_text w.service_id (at 2 (omega arith)) in
      let (token, has_token, real_token) = given_text w.access_token (at 5 (omega arith)) in
      record {
        hub = hub;
        service = service;
        token = token;
        has_hub = has_hub;
        has_service = has_service;
        has_token = has_token;
        real_service = real_service;
        real_token = real_token;
        has_place = at 1 (omega arith);
        some_items = ltb→lt 0 (total_qty w.counts) (at 3 (omega arith));
      }

  order_input-TellsPlace :
      (w : Wizard) (hub : Hub) (service : String) (mode : AddressMode)
      → w.address_mode ≡ mode
      → address_given w mode ≡ true
      → TellsPlace (order_input w hub service)
  unfolding order_input
  order_input-TellsPlace w hub service in_apartment e given = rw e (
      inl (
        w.flat_no,
        refl,
        ground (arith, given),
        given_id w.apartment (ground (arith, given)),
        refl,
      ))
  order_input-TellsPlace w hub service manual e given =
      rw e (inr (w.free_text_address, refl, ground (arith, given), refl))

  order_input-lines :
      (w : Wizard) (hub : Hub) (service : String) (mode : AddressMode)
      → w.address_mode ≡ mode
      → ((order_input w hub service).lines ≡ order_lines w.counts)
        × ((order_input w hub service).hub ≡ hub.id)
        × ((order_input w hub service).service ≡ service)
        × ((order_input w hub service).apartment ≡ apartment_id w.apartment)
  unfolding order_input
  order_input-lines w hub service in_apartment e = rw e (refl, refl, refl, refl)
  order_input-lines w hub service manual e = rw e (refl, refl, refl, refl)

  -- The request that a wizard with these answers sends.
  abbrev pub placed : (w : Wizard) → Answers w → Placed
  placed w a = record {
    input = order_input w a.hub a.service;
    access_token = a.token;
    idempotency_key = key_or (keys w.keys_drawn) w.idempotency_key;
  }

  placed-IsWhole : (w : Wizard) (a : Answers w) → IsWhole (placed w a)
  placed-IsWhole w a =
      let (lines, hub, service, apartment) =
        order_input-lines w a.hub a.service w.address_mode refl in
      (
        (w.pincode, a.hub, a.has_hub, hub),
        rw service a.real_service,
        subst (λ ls. 0 < ordered ls) (sym lines)
            (omega (arith, a.some_items, ordered-order_lines w.counts)),
        rw lines (order_lines-positive w.counts),
        order_input-TellsPlace w a.hub a.service w.address_mode refl a.has_place,
        a.real_token,
      )

  confirm-sends :
      (w : Wizard) (a : Answers w)
      → (handle_confirm serviceability keys w).sent ≡ w.sent ++ placed w a ∷ []
  unfolding handle_confirm
  confirm-sends w a = rw a.has_hub (rw a.has_service (rw a.has_token refl))

  -- Whoever has come to the last step confirms with one request, which is enough for an order: a hub that
  -- serves the pincode, a service, at least one piece and no empty line, a place told in exactly one of
  -- the two ways and a verified phone. It names the apartment that was chosen last, if any.
  pub confirm_exact :
      (w : Wizard)
      → Visit serviceability keys w
      → w.step ≡ 6
      → (p : Placed) × ((handle_confirm serviceability keys w).sent ≡ w.sent ++ p ∷ [])
        × IsWhole p
        × (p.input.apartment ≡ apartment_id w.apartment)
  confirm_exact w visit last =
      let a = answers w (Visit-IsGuarded serviceability keys visit) last in
      (
        placed w a,
        confirm-sends w a,
        placed-IsWhole w a,
        (order_input-lines w a.hub a.service w.address_mode refl).3,
      )

  module _ (real_keys : (n : ℕ) → filled (keys n) ≡ true) where
    -- One key for all that was sent.
    pub record HasOneKey (w : Wizard) : Type 0 where
      pub real : (w.idempotency_key ≡ none) ⊎ (is_filled w.idempotency_key ≡ true)
      pub one : All (λ (p : Placed). w.idempotency_key ≡ some p.idempotency_key) w.sent

    kept_key :
        (fresh : String) (key : Option String)
        → filled fresh ≡ true
        → (key ≡ none) ⊎ (is_filled key ≡ true)
        → (filled (key_or fresh key) ≡ true)
          × ((k : String) → key ≡ some k → some (key_or fresh key) ≡ some k)
    kept_key fresh none real was = (real, λ k e. ground (arith, e))
    kept_key fresh (some old) real (inl e) = ground (arith, e)
    kept_key fresh (some old) real (inr full) = elim (Bool-cases (old == "")) [
      | inl empty ↦ ground (arith, empty, full)
      | inr there ↦ rw there (full, λ k e. e)
    ]

    confirm-HasOneKey :
        (w : Wizard) (hub : Option Hub) (service token : Option String)
        → HasOneKey w
        → HasOneKey (place_with serviceability keys w hub service token)
    confirm-HasOneKey w none service token inv = inv
    confirm-HasOneKey w (some hub) none token inv = inv
    confirm-HasOneKey w (some hub) (some service) none inv = inv
    confirm-HasOneKey w (some hub) (some service) (some token) inv =
        let (real, keeps) =
          kept_key (keys w.keys_drawn) w.idempotency_key (real_keys w.keys_drawn) inv.real in
        record {
          real = inr real;
          one =
              keyed_snoc w.idempotency_key _ w.sent _ (λ p e. keeps p.idempotency_key e) refl
                inv.one;
        }

    perform-HasOneKey :
        (w : Wizard) (a : Act) → HasOneKey w → HasOneKey (perform serviceability keys w a)
    unfolding perform handle_confirm
    perform-HasOneKey w Act.confirm inv = confirm-HasOneKey w _ _ _ inv
    perform-HasOneKey w _ inv = record { real = inv.real; one = inv.one }

    opened-HasOneKey : (src ref : Option String) → HasOneKey (opened src ref)
    unfolding opened
    opened-HasOneKey src ref = record { real = inl refl; one = tt }

    -- However often the customer confirms in one visit, and whatever was changed in between, every request
    -- carries the same idempotency key, if the random keys are not empty.
    pub Visit-HasOneKey : {w : Wizard} → Visit serviceability keys w → HasOneKey w
    Visit-HasOneKey (open_page src ref) = opened-HasOneKey src ref
    Visit-HasOneKey (act {w} visit a allowed) = perform-HasOneKey w a (Visit-HasOneKey visit)
