-- ===== src/Booking/Prefs.antt =====
-- apps/mobile/lib/prefs.ts: the service area that a phone remembers. JSON and storage are the runtime's;
-- the state is the stored text.
use ironman.Prelude.{String, Bool, false, not, ◌&&◌, Option, none, some, if◌then◌else◌, ◌==◌}
use ironman.Booking.{ServiceArea}

-- A parsed entry: `Partial<ServiceArea>`.
pub record PartialArea : Type 0 where
  pub pincode : Option String
  pub hub_id : Option String
  pub hub_name : Option String
  pub cluster_id : Option String

abbrev pub has_text : Option String → Bool
has_text none = false
has_text (some s) = not (s == "")

abbrev pub usable : Option PartialArea → Option PartialArea
usable none = none
usable (some value) = if has_text value.pincode && has_text value.hub_id then some value else none

-- `parse` is `none` where `JSON.parse` throws.
module _ (parse : String → Option PartialArea) (print : ServiceArea → String) where
  unfoldable pub load_service_area : Option String → Option PartialArea
  load_service_area none = none
  load_service_area (some raw) = if raw == "" then none else usable (parse raw)

  abbrev pub save_service_area : ServiceArea → Option String → Option String
  save_service_area area stored = some (print area)
