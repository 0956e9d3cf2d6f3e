-- ===== src/Orders/Rules.antt =====
-- How a customer's buttons depend on the order's status.
use ironman.Prelude.{◌≡◌, refl, Bool, true, false, arith}
use ironman.Orders.{
  OrderStatus, draft, pending_confirmation, scheduled, pickup_assigned, pickup_en_route,
  pickup_failed, picked_up, at_hub, intake_verified, in_production, ready, delivery_assigned,
  out_for_delivery, delivery_failed, returned_to_hub, delivered, on_hold, cancelled, closed,
  is_status, stage_of, Stage, failed, hold, can_cancel, can_reschedule, can_reorder, can_rate,
  is_troubled,
}

-- The stages that are no progress.
abbrev pub is_trouble_stage : Stage → Bool
is_trouble_stage failed = true
is_trouble_stage hold = true
is_trouble_stage _ = false

-- The orders that show a message in place of the progress bar are those in a stage that is no progress.
pub is_troubled_by_stage : (s : OrderStatus) → is_troubled s ≡ is_trouble_stage (stage_of s)
unfolding is_troubled is_status stage_of
is_troubled_by_stage draft = refl
is_troubled_by_stage pending_confirmation = refl
is_troubled_by_stage scheduled = refl
is_troubled_by_stage pickup_assigned = refl
is_troubled_by_stage pickup_en_route = refl
is_troubled_by_stage pickup_failed = refl
is_troubled_by_stage picked_up = refl
is_troubled_by_stage at_hub = refl
is_troubled_by_stage intake_verified = refl
is_troubled_by_stage in_production = refl
is_troubled_by_stage ready = refl
is_troubled_by_stage delivery_assigned = refl
is_troubled_by_stage out_for_delivery = refl
is_troubled_by_stage delivery_failed = refl
is_troubled_by_stage returned_to_hub = refl
is_troubled_by_stage delivered = refl
is_troubled_by_stage on_hold = refl
is_troubled_by_stage cancelled = refl
is_troubled_by_stage closed = refl

-- An order that can be moved can be cancelled; one that can be rated can be ordered again, but neither
-- cancelled nor moved, and it shows no trouble.
pub buttons_agree :
    (s : OrderStatus)
    → (can_reschedule s ≡ true → can_cancel s ≡ true)
      × (can_rate s ≡ true
          → (can_reorder s ≡ true)
            × (can_cancel s ≡ false)
            × (can_reschedule s ≡ false)
            × (is_troubled s ≡ false))
unfolding can_reschedule can_cancel can_rate can_reorder is_troubled is_status
buttons_agree draft = ground arith
buttons_agree pending_confirmation = ground arith
buttons_agree scheduled = ground arith
buttons_agree pickup_assigned = ground arith
buttons_agree pickup_en_route = ground arith
buttons_agree pickup_failed = ground arith
buttons_agree picked_up = ground arith
buttons_agree at_hub = ground arith
buttons_agree intake_verified = ground arith
buttons_agree in_production = ground arith
buttons_agree ready = ground arith
buttons_agree delivery_assigned = ground arith
buttons_agree out_for_delivery = ground arith
buttons_agree delivery_failed = ground arith
buttons_agree returned_to_hub = ground arith
buttons_agree delivered = ground arith
buttons_agree on_hold = ground arith
buttons_agree cancelled = ground arith
buttons_agree closed = ground arith
