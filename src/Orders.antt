-- ===== src/Orders.antt =====
-- apps/mobile/lib: order-rules.ts, timeline.ts and status.ts, what a customer sees of an order and may
-- do with it. `localeCompare` is the runtime's collation, so it is a parameter.
pub mod Timeline
pub mod Rules
mod Tests
use ironman.Prelude.{
  ℕ, zero, suc, String, Bool, true, false, not, ◌&&◌, ◌||◌, Option, none, some, List, [], ◌∷◌, any,
  if◌then◌else◌, ◌==◌,
}
use ironman.Field.Rules.{Order, comes_after}

pub data OrderStatus : Type 0 where
  draft pending_confirmation scheduled pickup_assigned pickup_en_route pickup_failed picked_up
        at_hub intake_verified in_production ready delivery_assigned out_for_delivery
        delivery_failed returned_to_hub delivered on_hold cancelled closed :
      OrderStatus

-- The status as the API sends it.
unfoldable pub status_name : OrderStatus → String
status_name draft = "DRAFT"
status_name pending_confirmation = "PENDING_CONFIRMATION"
status_name scheduled = "SCHEDULED"
status_name pickup_assigned = "PICKUP_ASSIGNED"
status_name pickup_en_route = "PICKUP_EN_ROUTE"
status_name pickup_failed = "PICKUP_FAILED"
status_name picked_up = "PICKED_UP"
status_name at_hub = "AT_HUB"
status_name intake_verified = "INTAKE_VERIFIED"
status_name in_production = "IN_PRODUCTION"
status_name ready = "READY"
status_name delivery_assigned = "DELIVERY_ASSIGNED"
status_name out_for_delivery = "OUT_FOR_DELIVERY"
status_name delivery_failed = "DELIVERY_FAILED"
status_name returned_to_hub = "RETURNED_TO_HUB"
status_name delivered = "DELIVERED"
status_name on_hold = "ON_HOLD"
status_name cancelled = "CANCELLED"
status_name closed = "CLOSED"

-- `===` of two statuses.
unfoldable pub is_status : OrderStatus → OrderStatus → Bool
unfolding status_name
is_status s t = status_name s == status_name t

-- A stage of the tokens package.
pub data Stage : Type 0 where
  booked pickup at_hub_stage pressing ready_stage out delivered_stage failed hold : Stage

unfoldable pub stage_of : OrderStatus → Stage
stage_of draft = booked
stage_of pending_confirmation = booked
stage_of scheduled = booked
stage_of pickup_assigned = pickup
stage_of pickup_en_route = pickup
stage_of pickup_failed = failed
stage_of picked_up = at_hub_stage
stage_of at_hub = at_hub_stage
stage_of intake_verified = at_hub_stage
stage_of in_production = pressing
stage_of ready = ready_stage
stage_of delivery_assigned = out
stage_of out_for_delivery = out
stage_of delivery_failed = failed
stage_of returned_to_hub = at_hub_stage
stage_of delivered = delivered_stage
stage_of on_hold = hold
stage_of cancelled = failed
stage_of closed = delivered_stage

abbrev pub before_pickup : List OrderStatus
before_pickup = pending_confirmation ∷ scheduled ∷ pickup_assigned ∷ pickup_failed ∷ []

unfoldable pub can_cancel : OrderStatus → Bool
unfolding is_status
can_cancel s = any (λ t. is_status t s) before_pickup

unfoldable pub can_reschedule : OrderStatus → Bool
unfolding is_status
can_reschedule s = is_status s scheduled

unfoldable pub can_reorder : OrderStatus → Bool
unfolding is_status
can_reorder s = not (is_status s draft) && not (is_status s pending_confirmation)

unfoldable pub can_rate : OrderStatus → Bool
unfolding is_status
can_rate s = is_status s delivered || is_status s closed

unfoldable pub is_troubled : OrderStatus → Bool
unfolding is_status
is_troubled s =
    is_status s pickup_failed
    || is_status s delivery_failed
    || is_status s on_hold
    || is_status s cancelled

unfoldable pub trouble_message : OrderStatus → String
trouble_message cancelled = "This order was cancelled."
trouble_message on_hold = "This order is on hold. We'll reach out if we need anything from you."
trouble_message pickup_failed =
    "We couldn't collect your clothes. We'll be in touch to find a new time."
trouble_message _ = "We hit a snag on this order. We'll be in touch shortly to sort it out."

pub record TrackingEvent : Type 0 where
  pub event_type : String
  pub to_status : String
  pub stage : Option String
  pub created_at : String

-- One line of the timeline.
pub record ShownEvent : Type 0 where
  pub label : String
  pub at : String

abbrev pub labels : List (String × String)
labels =
    ("order.created", "Order placed")
    ∷ ("order.scheduled", "Pickup scheduled")
    ∷ ("order.rescheduled", "Pickup time changed")
    ∷ ("order.pickup_assigned", "Rider assigned")
    ∷ ("order.pickup_en_route", "Rider is on the way")
    ∷ ("order.picked_up", "Clothes collected")
    ∷ ("order.arrived_at_hub", "Reached our hub")
    ∷ ("order.pickup_failed", "We couldn't collect your clothes")
    ∷ ("order.intake_verified", "Counted and checked")
    ∷ ("order.requote_raised", "Price updated: needs your approval")
    ∷ ("order.requote_approved", "New price approved")
    ∷ ("order.requote_rejected", "New price declined")
    ∷ ("order.delivery_assigned", "Delivery scheduled")
    ∷ ("order.out_for_delivery", "Out for delivery")
    ∷ ("order.delivered", "Delivered")
    ∷ ("order.delivery_failed", "We couldn't deliver")
    ∷ ("order.returned_to_hub", "Back at our hub")
    ∷ ("order.cancelled", "Order cancelled")
    ∷ []

abbrev pub status_fallback : List (String × String)
status_fallback =
    ("IN_PRODUCTION", "Pressing started")
    ∷ ("READY", "Ready for delivery")
    ∷ ("ON_HOLD", "On hold")
    ∷ ("CLOSED", "Order complete")
    ∷ []

unfoldable pub lookup : String → List (String × String) → Option String
lookup k [] = none
lookup k ((j, v) ∷ table) = let rest = lookup k table in if j == k then some v else rest

-- `a ?? b`.
abbrev pub or_if_missing : Option String → Option String → Option String
or_if_missing none o = o
or_if_missing (some s) o = some s

unfoldable pub event_label : TrackingEvent → Option String
unfolding lookup
event_label event =
    or_if_missing (lookup event.event_type labels) (lookup event.to_status status_fallback)

abbrev pub is_last : Option String → String → Bool
is_last none label = false
is_last (some l) label = l == label

-- The loop's body: `last` is the label shown last, `rest` the events that follow it.
abbrev pub show_next :
    Option String → Option String → String → (Option String → List ShownEvent) → List ShownEvent
show_next last none at rest = rest last
show_next last (some label) at rest =
    if label == "" || is_last last label
    then rest last
    else record { label = label; at = at } ∷ rest (some label)

unfoldable pub show_events : List TrackingEvent → Option String → List ShownEvent
unfolding event_label
show_events [] last = []
show_events (event ∷ events) last =
    show_next last (event_label event) event.created_at (λ l. show_events events l)

module _ (locale_compare : String → String → Order) where
  -- A stable sort by `b.created_at.localeCompare(a.created_at)`.
  unfoldable pub insert_event : TrackingEvent → List TrackingEvent → List TrackingEvent
  insert_event e [] = e ∷ []
  insert_event e (f ∷ events) =
      let rest = insert_event e events in
      if comes_after (locale_compare f.created_at e.created_at) then f ∷ rest else e ∷ f ∷ events

  unfoldable pub newest_first : List TrackingEvent → List TrackingEvent
  unfolding insert_event
  newest_first [] = []
  newest_first (e ∷ events) = insert_event e (newest_first events)

  unfoldable pub visible_events : List TrackingEvent → List ShownEvent
  unfolding newest_first show_events
  visible_events events = show_events (newest_first events) none

-- `STAGE_STEPS`: the keys and labels of the progress bar.
abbrev pub stage_steps : List (String × String)
stage_steps =
    ("booked", "Booked")
    ∷ ("pickup", "Pickup")
    ∷ ("atHub", "At our hub")
    ∷ ("pressing", "Pressing")
    ∷ ("ready", "Ready")
    ∷ ("out", "Out for delivery")
    ∷ ("delivered", "Delivered")
    ∷ []

-- `findIndex`; `none` is -1.
unfoldable pub step_index : String → ℕ → List (String × String) → Option ℕ
step_index stage n [] = none
step_index stage n ((key, label) ∷ steps) =
    let rest = step_index stage (suc n) steps in if key == stage then some n else rest

abbrev pub current_step : String → Option ℕ
current_step stage = step_index stage 0 stage_steps

abbrev pub cancel_reasons : List String
cancel_reasons =
    "I booked by mistake" ∷ "I need a different time" ∷ "I won't be home" ∷ "Changed my mind"
    ∷ "Something else" ∷ []
