-- ===== src/Web/OrderPage.antt =====
-- The buttons of an order's page in the console, apps/web/app/console/(auth)/orders/[id]/page.tsx, with
-- the sections that depend on its status, and the moves that the server's state machine,
-- apps/api/ordering/state_machine.py, lets an order make.
pub mod Moves
pub mod Cancelling
mod Tests
use ironman.Prelude.{
  ◌≡◌, ◌++◌, ℕ, suc, ◌-◌, String, Bool, true, false, not, ◌&&◌, ◌||◌, Option, none, some, List, [],
  ◌∷◌, any, length, leb, ltb, max, if◌then◌else◌, ◌==◌, ℤ, pos, negsuc,
}
use ironman.Orders.{
  OrderStatus, draft, pending_confirmation, scheduled, pickup_assigned, pickup_en_route,
  pickup_failed, picked_up, at_hub, intake_verified, in_production, ready, delivery_assigned,
  out_for_delivery, delivery_failed, returned_to_hub, delivered, on_hold, cancelled, closed,
  is_status,
}
use ironman.Web.Permissions.{
  Roles, can_manage_orders, can_issue_invoices, can_view_invoices, can_record_payment,
  can_write_off,
}

-- `ALLOWED` of the state machine.
unfoldable pub allowed_from : OrderStatus → List OrderStatus
allowed_from draft = pending_confirmation ∷ scheduled ∷ cancelled ∷ []
allowed_from pending_confirmation = scheduled ∷ cancelled ∷ []
allowed_from scheduled = pickup_assigned ∷ cancelled ∷ scheduled ∷ at_hub ∷ []
allowed_from pickup_assigned = pickup_en_route ∷ pickup_failed ∷ cancelled ∷ []
allowed_from pickup_en_route = picked_up ∷ pickup_failed ∷ []
allowed_from pickup_failed = scheduled ∷ cancelled ∷ []
allowed_from picked_up = at_hub ∷ []
allowed_from at_hub = intake_verified ∷ on_hold ∷ []
allowed_from intake_verified = in_production ∷ on_hold ∷ []
allowed_from in_production = ready ∷ on_hold ∷ []
allowed_from ready = delivery_assigned ∷ on_hold ∷ []
allowed_from delivery_assigned = out_for_delivery ∷ cancelled ∷ []
allowed_from out_for_delivery = delivered ∷ delivery_failed ∷ []
allowed_from delivery_failed = out_for_delivery ∷ returned_to_hub ∷ []
allowed_from returned_to_hub = delivery_assigned ∷ on_hold ∷ []
allowed_from on_hold = intake_verified ∷ in_production ∷ ready ∷ delivery_assigned ∷ cancelled ∷ []
allowed_from delivered = closed ∷ []
allowed_from cancelled = []
allowed_from closed = []

unfoldable pub is_allowed : OrderStatus → OrderStatus → Bool
unfolding is_status
is_allowed s t = any (is_status t) (allowed_from s)

-- The columns of an order that a transition reads.
pub record ServerOrder : Type 0 where
  pub status : OrderStatus
  pub payment_status : String
  pub has_open_exception : Bool

abbrev pub may_close : ServerOrder → Bool
may_close o =
    (o.payment_status == "PAID" || o.payment_status == "WRITTEN_OFF") && not o.has_open_exception

abbrev pub guarded : ServerOrder → OrderStatus → Option ServerOrder
guarded o closed = if may_close o then some (record o { status = closed }) else none
guarded o to_status = some (record o { status = to_status })

-- `transition`; `none` is the refusal.
unfoldable pub transition : ServerOrder → OrderStatus → Option ServerOrder
transition o to_status =
    let moved = guarded o to_status in if is_allowed o.status to_status then moved else none

-- `cancel`.
unfoldable pub cancel : ServerOrder → Option ServerOrder
unfolding is_status
cancel o =
    if any (is_status o.status) (delivered ∷ closed ∷ cancelled ∷ [])
    then none
    else transition o cancelled

-- `NEXT_ACTION`.
unfoldable pub next_action : OrderStatus → Option OrderStatus
next_action scheduled = some pickup_assigned
next_action pickup_assigned = some pickup_en_route
next_action pickup_en_route = some picked_up
next_action picked_up = some at_hub
next_action intake_verified = some in_production
next_action in_production = some ready
next_action ready = some delivery_assigned
next_action delivery_assigned = some out_for_delivery
next_action out_for_delivery = some delivered
next_action delivered = some closed
next_action _ = none

pub data OrderButton : Type 0 where
  report_issue verify_intake cancel_order : OrderButton
  advance_to : OrderStatus → OrderButton

abbrev pub advance_button : Option OrderStatus → List OrderButton
advance_button none = []
advance_button (some t) = advance_to t ∷ []

abbrev pub intake_button : OrderStatus → List OrderButton
intake_button at_hub = verify_intake ∷ []
intake_button _ = []

unfoldable pub is_terminal : OrderStatus → Bool
unfolding is_status
is_terminal s = any (is_status s) (cancelled ∷ closed ∷ [])

abbrev pub open_buttons : OrderStatus → List OrderButton
open_buttons s = intake_button s ++ advance_button (next_action s) ++ cancel_order ∷ []

unfoldable pub order_buttons : Roles → OrderStatus → List OrderButton
order_buttons roles s =
    if can_manage_orders roles
    then report_issue ∷ (if is_terminal s then [] else open_buttons s)
    else []

-- `ORDER_STATUSES_WITH_CUSTODY`, and the same set in the invoice's section.
unfoldable pub has_custody : OrderStatus → Bool
unfolding is_status
has_custody s = any (is_status s) (
    intake_verified ∷ in_production ∷ ready ∷ delivery_assigned ∷ out_for_delivery ∷ delivery_failed
    ∷ returned_to_hub ∷ delivered ∷ closed ∷ [])

-- Whether the custody section shows "Bag garments"; the bags are `none` until they are fetched.
unfoldable pub can_bag : Bool → OrderStatus → Option ℕ → Bool
can_bag can_manage s none = false
can_bag can_manage s (some bags) = has_custody s && can_manage && not (ltb 0 bags)

-- Whether the invoice section shows "Issue invoice"; the invoices likewise.
unfoldable pub can_issue : Roles → OrderStatus → Option ℕ → Bool
can_issue roles s none = has_custody s && can_issue_invoices roles
can_issue roles s (some invoices) =
    has_custody s
    && can_issue_invoices roles
    && (not (can_view_invoices roles) || not (ltb 0 invoices))

-- `Math.max(balance, 0)` and `Math.max(-balance, 0)`.
unfoldable pub remaining_minor : ℤ → ℕ
remaining_minor (pos n) = n
remaining_minor (negsuc n) = 0

unfoldable pub refund_due_minor : ℤ → ℕ
refund_due_minor (pos n) = 0
refund_due_minor (negsuc n) = suc n

unfoldable pub can_record : Roles → ℤ → Bool
can_record roles balance = can_record_payment roles && ltb 0 (remaining_minor balance)

unfoldable pub can_write_off_balance : Roles → ℤ → Bool
can_write_off_balance roles balance = can_write_off roles && ltb 0 (remaining_minor balance)
