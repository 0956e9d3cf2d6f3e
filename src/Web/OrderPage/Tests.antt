-- ===== src/Web/OrderPage/Tests.antt =====
-- An order that is ready, and one that is being pressed, on an operator's page.
use ironman.Prelude.{◌≡◌, ◌≤◌, refl, inl, inr, true, false, some, [], ◌∷◌, Has, negsuc}
use ironman.Orders.{
  scheduled, pickup_assigned, in_production, ready, delivery_assigned, is_status, status_name,
}
use ironman.Web.Permissions.{Roles, operator, has_role, same_role, role_name}
use ironman.Web.OrderPage.{
  ServerOrder, transition, next_action, advance_to, is_terminal, order_buttons, has_custody,
  can_bag, remaining_minor, refund_due_minor,
}
use ironman.Web.OrderPage.Moves.{advance_exact, Presses, rest, press, Presses-end}

abbrev operators : Roles
operators = some (operator ∷ [])

abbrev ready_order : ServerOrder
ready_order = record { status = ready; payment_status = "UNPAID"; has_open_exception = false }

ready-advances : Has (advance_to delivery_assigned) (order_buttons operators ready)
unfolding order_buttons has_role same_role role_name is_terminal is_status status_name next_action
ready-advances = inr (inl refl)

advance_exact_example :
    transition ready_order delivery_assigned
    ≡ some (record ready_order { status = delivery_assigned })
advance_exact_example =
    advance_exact operators ready_order delivery_assigned ready-advances (inr (λ e. cc))

one_press : Presses 1 scheduled pickup_assigned
unfolding next_action
one_press = press scheduled pickup_assigned refl (rest pickup_assigned)

Presses-end_example : (1 ≤ 6) × (has_custody scheduled ≡ has_custody pickup_assigned)
Presses-end_example = Presses-end one_press

abbrev pressed_order : ServerOrder
pressed_order = record {
  status = in_production;
  payment_status = "UNPAID";
  has_open_exception = false;
}

credited : (remaining_minor (negsuc 99) ≡ 0) × (refund_due_minor (negsuc 99) ≡ 100)
unfolding remaining_minor refund_due_minor
credited = (refl, refl)

bagged_once :
    (can_bag true in_production (some 0) ≡ true)
    × (can_bag true in_production (some 1) ≡ false)
    × (can_bag true scheduled (some 0) ≡ false)
unfolding can_bag has_custody is_status status_name
bagged_once = (refl, refl, refl)
