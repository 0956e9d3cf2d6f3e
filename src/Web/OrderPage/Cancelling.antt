-- ===== src/Web/OrderPage/Cancelling.antt =====
-- Cancelling an order from its page and from the customer's app.
use ironman.Prelude.{◌≡◌, refl, ◌∙◌, String, Bool, true, false, none, some, if◌then◌else◌, arith}
use ironman.Orders.{
  OrderStatus, draft, pending_confirmation, scheduled, pickup_assigned, pickup_en_route,
  pickup_failed, picked_up, at_hub, intake_verified, in_production, ready, delivery_assigned,
  out_for_delivery, delivery_failed, returned_to_hub, delivered, on_hold, cancelled, closed,
  is_status, can_cancel,
}
use ironman.Web.OrderPage.{allowed_from, is_allowed, ServerOrder, transition, cancel}

-- The statuses from which the server cancels an order.
abbrev pub is_cancellable : OrderStatus → Bool
is_cancellable draft = true
is_cancellable pending_confirmation = true
is_cancellable scheduled = true
is_cancellable pickup_assigned = true
is_cancellable pickup_failed = true
is_cancellable delivery_assigned = true
is_cancellable on_hold = true
is_cancellable _ = false

cancel-cases :
    (s : OrderStatus) (payment : String) (troubled : Bool)
    → cancel (record { status = s; payment_status = payment; has_open_exception = troubled }) ≡ (
        if is_cancellable s
        then some
            (record { status = cancelled; payment_status = payment; has_open_exception = troubled })
        else none)
unfolding cancel transition is_allowed allowed_from is_status
cancel-cases draft payment troubled = refl
cancel-cases pending_confirmation payment troubled = refl
cancel-cases scheduled payment troubled = refl
cancel-cases pickup_assigned payment troubled = refl
cancel-cases pickup_en_route payment troubled = refl
cancel-cases pickup_failed payment troubled = refl
cancel-cases picked_up payment troubled = refl
cancel-cases at_hub payment troubled = refl
cancel-cases intake_verified payment troubled = refl
cancel-cases in_production payment troubled = refl
cancel-cases ready payment troubled = refl
cancel-cases delivery_assigned payment troubled = refl
cancel-cases out_for_delivery payment troubled = refl
cancel-cases delivery_failed payment troubled = refl
cancel-cases returned_to_hub payment troubled = refl
cancel-cases delivered payment troubled = refl
cancel-cases on_hold payment troubled = refl
cancel-cases cancelled payment troubled = refl
cancel-cases closed payment troubled = refl

can_cancel-cancellable : (s : OrderStatus) → can_cancel s ≡ true → is_cancellable s ≡ true
unfolding can_cancel is_status
can_cancel-cancellable draft e = ground (arith, e)
can_cancel-cancellable pending_confirmation e = ground (arith, e)
can_cancel-cancellable scheduled e = ground (arith, e)
can_cancel-cancellable pickup_assigned e = ground (arith, e)
can_cancel-cancellable pickup_en_route e = ground (arith, e)
can_cancel-cancellable pickup_failed e = ground (arith, e)
can_cancel-cancellable picked_up e = ground (arith, e)
can_cancel-cancellable at_hub e = ground (arith, e)
can_cancel-cancellable intake_verified e = ground (arith, e)
can_cancel-cancellable in_production e = ground (arith, e)
can_cancel-cancellable ready e = ground (arith, e)
can_cancel-cancellable delivery_assigned e = ground (arith, e)
can_cancel-cancellable out_for_delivery e = ground (arith, e)
can_cancel-cancellable delivery_failed e = ground (arith, e)
can_cancel-cancellable returned_to_hub e = ground (arith, e)
can_cancel-cancellable delivered e = ground (arith, e)
can_cancel-cancellable on_hold e = ground (arith, e)
can_cancel-cancellable cancelled e = ground (arith, e)
can_cancel-cancellable closed e = ground (arith, e)

-- The server cancels every order that the customer's app offers to cancel.
pub can_cancel-accepted :
    (o : ServerOrder)
    → can_cancel o.status ≡ true
    → cancel o ≡ some (record o { status = cancelled })
can_cancel-accepted o e =
    cancel-cases o.status o.payment_status o.has_open_exception
    ∙ rw (can_cancel-cancellable o.status e) refl
