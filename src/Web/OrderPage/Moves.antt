-- ===== src/Web/OrderPage/Moves.antt =====
-- What the server makes of the buttons of an order's page.
use ironman.Prelude.{
  ◌≡◌, ◌≢◌, refl, sym, ap, ◌∙◌, ◌⊎◌, inl, inr, ℕ, suc, ◌+◌, ◌≤◌, Bool, true, not, ◌&&◌, ◌||◌,
  Option, none, some, [], ◌∷◌, ◌++◌, Has, append-Has, nat_eq, arith, Bool-cases,
}
use ironman.Orders.{
  OrderStatus, draft, pending_confirmation, scheduled, pickup_assigned, pickup_en_route,
  pickup_failed, picked_up, at_hub, intake_verified, in_production, ready, delivery_assigned,
  out_for_delivery, delivery_failed, returned_to_hub, delivered, on_hold, cancelled, closed,
  is_status,
}
use ironman.Web.Permissions.{Roles, can_manage_orders}
use ironman.Web.OrderPage.{
  allowed_from, is_allowed, ServerOrder, may_close, guarded, transition, next_action, report_issue,
  cancel_order, advance_to, advance_button, intake_button, is_terminal, open_buttons, order_buttons,
  has_custody,
}

-- How often the button can still be pressed.
abbrev pub presses_left : OrderStatus → ℕ
presses_left scheduled = 4
presses_left pickup_assigned = 3
presses_left pickup_en_route = 2
presses_left picked_up = 1
presses_left intake_verified = 6
presses_left in_production = 5
presses_left ready = 4
presses_left delivery_assigned = 3
presses_left out_for_delivery = 2
presses_left delivered = 1
presses_left _ = 0

-- A next action is a move that the server allows, uses up one press, and does not pass the intake.
abbrev is_forward : OrderStatus → Option OrderStatus → Bool
is_forward s none = true
is_forward s (some t) =
    is_allowed s t
    && nat_eq (presses_left s) (suc (presses_left t))
    && (has_custody s && has_custody t || not (has_custody s) && not (has_custody t))

next_action-is_forward : (s : OrderStatus) → is_forward s (next_action s) ≡ true
unfolding next_action is_allowed allowed_from has_custody is_status
next_action-is_forward draft = refl
next_action-is_forward pending_confirmation = refl
next_action-is_forward scheduled = refl
next_action-is_forward pickup_assigned = refl
next_action-is_forward pickup_en_route = refl
next_action-is_forward pickup_failed = refl
next_action-is_forward picked_up = refl
next_action-is_forward at_hub = refl
next_action-is_forward intake_verified = refl
next_action-is_forward in_production = refl
next_action-is_forward ready = refl
next_action-is_forward delivery_assigned = refl
next_action-is_forward out_for_delivery = refl
next_action-is_forward delivery_failed = refl
next_action-is_forward returned_to_hub = refl
next_action-is_forward delivered = refl
next_action-is_forward on_hold = refl
next_action-is_forward cancelled = refl
next_action-is_forward closed = refl

all_three : (a b c : Bool) → (a && b && c) ≡ true → (a ≡ true) × (b ≡ true) × (c ≡ true)
all_three a b c e = ground (arith, e)

same_side : (a b : Bool) → (a && b || not a && not b) ≡ true → a ≡ b
same_side a b e = ground (arith, e)

same_number : (a b : ℕ) → nat_eq a b ≡ true → a ≡ b
same_number a b e = ground (arith, e)

forward :
    (s t : OrderStatus)
    → next_action s ≡ some t
    → (is_allowed s t ≡ true)
      × (presses_left s ≡ suc (presses_left t))
      × (has_custody s ≡ has_custody t)
forward s t e =
    let (allowed, left, side) =
      all_three (is_allowed s t) (nat_eq (presses_left s) (suc (presses_left t)))
        (has_custody s && has_custody t || not (has_custody s) && not (has_custody t))
        (ap (is_forward s) (sym e) ∙ next_action-is_forward s) in
    (
      allowed,
      same_number (presses_left s) (suc (presses_left t)) left,
      same_side (has_custody s) (has_custody t) side,
    )

advance_button-only :
    (o : Option OrderStatus) (t : OrderStatus) → Has (advance_to t) (advance_button o) → o ≡ some t
advance_button-only none t has = absurd has
advance_button-only (some u) t (inl e) = cc
advance_button-only (some u) t (inr has) = absurd has

intake_button-no_advance : (s t : OrderStatus) → ¬ Has (advance_to t) (intake_button s)
intake_button-no_advance draft t has = has
intake_button-no_advance pending_confirmation t has = has
intake_button-no_advance scheduled t has = has
intake_button-no_advance pickup_assigned t has = has
intake_button-no_advance pickup_en_route t has = has
intake_button-no_advance pickup_failed t has = has
intake_button-no_advance picked_up t has = has
intake_button-no_advance at_hub t has = elim has [ inl e ↦ cc | inr f ↦ absurd f ]
intake_button-no_advance intake_verified t has = has
intake_button-no_advance in_production t has = has
intake_button-no_advance ready t has = has
intake_button-no_advance delivery_assigned t has = has
intake_button-no_advance out_for_delivery t has = has
intake_button-no_advance delivery_failed t has = has
intake_button-no_advance returned_to_hub t has = has
intake_button-no_advance delivered t has = has
intake_button-no_advance on_hold t has = has
intake_button-no_advance cancelled t has = has
intake_button-no_advance closed t has = has

open_buttons-next :
    (s t : OrderStatus) → Has (advance_to t) (open_buttons s) → next_action s ≡ some t
open_buttons-next s t has =
    elim (append-Has (advance_to t) (intake_button s ++ advance_button (next_action s))
      (cancel_order ∷ []) has) [
        | inr (inl e) ↦ cc
        | inr (inr f) ↦ absurd f
        | inl first ↦
            elim (append-Has (advance_to t) (intake_button s) (advance_button (next_action s))
              first) [
                | inl early ↦ absurd (intake_button-no_advance s t early)
                | inr here ↦ advance_button-only (next_action s) t here
              ]
      ]

order_buttons-next :
    (roles : Roles) (s t : OrderStatus)
    → Has (advance_to t) (order_buttons roles s)
    → next_action s ≡ some t
unfolding order_buttons
order_buttons-next roles s t has = elim (Bool-cases (can_manage_orders roles)) [
  | inr barred ↦ absurd (let h : Has (advance_to t) [] = (rw barred at has) in h)
  | inl runs ↦ elim (Bool-cases (is_terminal s)) [
    | inl over ↦
        elim (let h : Has (advance_to t) (report_issue ∷ []) = (rw over at (rw runs at has)) in h) [
          | inl e ↦ cc
          | inr f ↦ absurd f
        ]
    | inr going ↦
        elim (let h : Has (advance_to t) (report_issue ∷ open_buttons s) =
            (rw going at (rw runs at has)) in
          h) [ inl e ↦ cc | inr rest ↦ open_buttons-next s t rest ]
  ]
]

guarded-done :
    (o : ServerOrder) (t : OrderStatus)
    → (may_close o ≡ true) ⊎ (t ≢ closed)
    → guarded o t ≡ some (record o { status = t })
guarded-done o draft fine = refl
guarded-done o pending_confirmation fine = refl
guarded-done o scheduled fine = refl
guarded-done o pickup_assigned fine = refl
guarded-done o pickup_en_route fine = refl
guarded-done o pickup_failed fine = refl
guarded-done o picked_up fine = refl
guarded-done o at_hub fine = refl
guarded-done o intake_verified fine = refl
guarded-done o in_production fine = refl
guarded-done o ready fine = refl
guarded-done o delivery_assigned fine = refl
guarded-done o out_for_delivery fine = refl
guarded-done o delivery_failed fine = refl
guarded-done o returned_to_hub fine = refl
guarded-done o delivered fine = refl
guarded-done o on_hold fine = refl
guarded-done o cancelled fine = refl
guarded-done o closed fine = elim fine [ inl paid ↦ rw paid refl | inr other ↦ absurd (other refl) ]

-- Whatever the page offers as an order's next step, the server does, if the step is not the closing of
-- an order that is unpaid or has an open exception.
pub advance_exact :
    (roles : Roles) (o : ServerOrder) (t : OrderStatus)
    → Has (advance_to t) (order_buttons roles o.status)
    → (may_close o ≡ true) ⊎ (t ≢ closed)
    → transition o t ≡ some (record o { status = t })
unfolding transition
advance_exact roles o t has fine =
    rw (forward o.status t (order_buttons-next roles o.status t has)).0 (guarded-done o t fine)

-- Presses of the button, one after another.
pub data Presses : ℕ → OrderStatus → OrderStatus → Type 0 where
  rest : (s : OrderStatus) → Presses 0 s s
  press :
      {n : ℕ} (s t : OrderStatus) {u : OrderStatus}
      → next_action s ≡ some t
      → Presses n t u
      → Presses (suc n) s u

Presses-exact :
    {n : ℕ} {s u : OrderStatus}
    → Presses n s u
    → (presses_left s ≡ n + presses_left u) × (has_custody s ≡ has_custody u)
Presses-exact (rest s) = (omega arith, refl)
Presses-exact (press s t e more) =
    let (left, side) = Presses-exact more in
    let (allowed, one, same) = forward s t e in (omega (arith, one, left), same ∙ side)

presses_left-le : (s : OrderStatus) → presses_left s ≤ 6
presses_left-le draft = omega arith
presses_left-le pending_confirmation = omega arith
presses_left-le scheduled = omega arith
presses_left-le pickup_assigned = omega arith
presses_left-le pickup_en_route = omega arith
presses_left-le pickup_failed = omega arith
presses_left-le picked_up = omega arith
presses_left-le at_hub = omega arith
presses_left-le intake_verified = omega arith
presses_left-le in_production = omega arith
presses_left-le ready = omega arith
presses_left-le delivery_assigned = omega arith
presses_left-le out_for_delivery = omega arith
presses_left-le delivery_failed = omega arith
presses_left-le returned_to_hub = omega arith
presses_left-le delivered = omega arith
presses_left-le on_hold = omega arith
presses_left-le cancelled = omega arith
presses_left-le closed = omega arith

-- The button can be pressed at most six times in a row, and however often it is pressed, an order whose
-- garments were not counted does not come to a status of counted garments.
pub Presses-end :
    {n : ℕ} {s u : OrderStatus} → Presses n s u → (n ≤ 6) × (has_custody s ≡ has_custody u)
Presses-end {n} {s} {u} presses =
    let (left, side) = Presses-exact presses in (omega (arith, left, presses_left-le s), side)
