-- ===== src/Web/Endpoints/Areas.antt =====
-- The endpoints of areas, apartments and supplies.
use ironman.Prelude.{String, Option, none, some, List, [], ◌∷◌}
use ironman.Json.{Json, obj, end, field}
use ironman.Api.{post, put, patch, Method, no_body, json_body, Param, undefined, given}
use ironman.Web.Endpoints.{Call, read_call, write_call, at_path}

abbrev pub text_param : Option String → Param
text_param none = undefined
text_param (some s) = given s

-- `territoryApi`.
abbrev pub list_clusters : Option String → Call
list_clusters hub = read_call "/territory/clusters/" (("hub", text_param hub) ∷ [])

abbrev pub create_cluster : Json → Call
create_cluster input = write_call post "/territory/clusters/" (json_body input)

abbrev pub update_cluster : String → Json → Call
update_cluster id changes =
    write_call patch (at_path "/territory/clusters/" id "/") (json_body changes)

abbrev pub list_apartments : List (String × Param) → Call
list_apartments params = read_call "/territory/apartments-admin/" params

abbrev pub get_apartment : String → Call
get_apartment id = read_call (at_path "/territory/apartments-admin/" id "/") []

abbrev pub create_apartment : Json → Call
create_apartment input = write_call post "/territory/apartments-admin/" (json_body input)

abbrev pub update_apartment : String → Json → Call
update_apartment id changes =
    write_call patch (at_path "/territory/apartments-admin/" id "/") (json_body changes)

abbrev pub create_apartment_contact : Json → Call
create_apartment_contact input = write_call post "/territory/apartment-contacts/" (json_body input)

abbrev pub update_apartment_contact : String → Json → Call
update_apartment_contact id changes =
    write_call patch (at_path "/territory/apartment-contacts/" id "/") (json_body changes)

abbrev pub delete_apartment_contact : String → Call
delete_apartment_contact id =
    write_call Method.delete (at_path "/territory/apartment-contacts/" id "/") no_body

abbrev pub check_serviceability : String → Call
check_serviceability pincode =
    read_call "/territory/serviceability" (("pincode", given pincode) ∷ [])

abbrev pub search_apartments : String → Option String → Call
search_apartments q cluster =
    read_call "/territory/apartments" (("q", given q) ∷ ("cluster", text_param cluster) ∷ [])

-- `suppliesApi`.
abbrev pub list_stock_items : List (String × Param) → Call
list_stock_items params = read_call "/supplies/items/" params

abbrev pub create_stock_item : Json → Call
create_stock_item input = write_call post "/supplies/items/" (json_body input)

abbrev pub update_stock_item : String → Json → Call
update_stock_item id changes =
    write_call patch (at_path "/supplies/items/" id "/") (json_body changes)

abbrev pub list_stock_levels : Option String → Call
list_stock_levels hub = read_call "/supplies/levels/" (("hub", text_param hub) ∷ [])

abbrev pub list_stock_movements : List (String × Param) → Call
list_stock_movements params = read_call "/supplies/movements/" params

abbrev pub list_reorder_alerts : Call
list_reorder_alerts = read_call "/supplies/reorder-alerts" []

abbrev pub receive_stock : Json → Call
receive_stock input = write_call post "/supplies/receipts" (json_body input)

abbrev pub adjust_stock : Json → Call
adjust_stock input = write_call post "/supplies/adjustments" (json_body input)

abbrev pub list_consumption_rules : Call
list_consumption_rules = read_call "/supplies/consumption-rules" []

abbrev pub replace_consumption_rules : Json → Call
replace_consumption_rules rules =
    write_call put "/supplies/consumption-rules" (json_body (obj (field "rules" rules end)))
