-- ===== src/Orders/Tests.antt =====
-- The timeline and the buttons of concrete orders.
use ironman.Prelude.{◌≡◌, refl, String, none, List, [], ◌∷◌, text_leb, if◌then◌else◌, ◌==◌}
use ironman.Field.Rules.{Order, before, same, after}
use ironman.Orders.{
  TrackingEvent, event_label, lookup, show_events, insert_event, newest_first, visible_events,
}

-- A collation by code points.
abbrev by_code : String → String → Order
by_code a b = if a == b then same else if text_leb a b then before else after

abbrev event : String → String → TrackingEvent
event kind at = record { event_type = kind; to_status = ""; stage = none; created_at = at }

abbrev events : List TrackingEvent
events =
    event "order.created" "1"
    ∷ event "order.scheduled" "2"
    ∷ event "order.unknown" "3"
    ∷ event "order.scheduled" "4"
    ∷ []

-- The later of the two equal steps stands alone.
visible_run :
    visible_events by_code events
    ≡ record { label = "Pickup scheduled"; at = "4" }
      ∷ record { label = "Order placed"; at = "1" }
      ∷ []
unfolding visible_events newest_first insert_event show_events event_label lookup text_leb
visible_run = refl
