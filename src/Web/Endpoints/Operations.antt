-- ===== src/Web/Endpoints/Operations.antt =====
-- The endpoints of orders, re-quotes, bags, exceptions and routes.
use ironman.Prelude.{String, Bool, Option, none, List, [], ◌∷◌}
use ironman.Json.{Json, bool, str, obj, JsonFields, end, field}
use ironman.Api.{post, patch, no_body, json_body, Param, given}
use ironman.Web.Endpoints.{Call, read_call, write_call, keyed, at_path, optional, given_key}

-- `ordersApi`.
abbrev pub list_orders : List (String × Param) → Call
list_orders params = read_call "/orders/" params

abbrev pub get_order : String → Call
get_order id = read_call (at_path "/orders/" id "/") []

abbrev pub list_order_events : String → Call
list_order_events id = read_call (at_path "/orders/" id "/events/") []

abbrev pub create_order : String → Json → Option String → Option String → Call
create_order fresh input token key =
    keyed (given_key fresh key) token (write_call post "/orders/" (json_body input))

abbrev pub create_counter_order : String → Json → Call
create_counter_order fresh input =
    keyed fresh none (write_call post "/orders/counter" (json_body input))

abbrev pub cancel_order : String → String → Call
cancel_order id reason =
    write_call post (at_path "/orders/" id "/cancel/")
      (json_body (obj (field "reason" (str reason) end)))

abbrev pub advance_order : String → String → Call
advance_order id to_status =
    write_call post (at_path "/orders/" id "/advance/")
      (json_body (obj (field "to_status" (str to_status) end)))

abbrev pub take_in_order : String → Json → Option Json → Call
take_in_order id lines notes =
    write_call post (at_path "/orders/" id "/intake/")
      (json_body (obj (field "verified_lines" lines (optional "notes" notes end))))

-- `requotesApi`.
abbrev pub list_requotes : List (String × Param) → Call
list_requotes params = read_call "/requotes/" params

abbrev pub respond_to_requote : String → Bool → Call
respond_to_requote id approved =
    write_call post (at_path "/requotes/" id "/respond/")
      (json_body (obj (field "approved" (bool approved) end)))

-- `custodyApi`.
abbrev pub list_bags : String → Call
list_bags order = read_call "/custody/bags/" (("order", given order) ∷ [])

abbrev pub list_garment_lines : List (String × Param) → Call
list_garment_lines params = read_call "/custody/garment-lines/" params

abbrev pub get_wip_summary : List (String × Param) → Call
get_wip_summary params = read_call "/custody/garment-lines/wip_summary/" params

abbrev pub bag_contents : Option Json → JsonFields
bag_contents lines = optional "order_line_ids" lines end

abbrev pub create_bag : String → String → Option Json → Call
create_bag fresh order lines =
    keyed fresh none
      (write_call post (at_path "/orders/" order "/bags") (json_body (obj (bag_contents lines))))

abbrev pub print_tag : String → Call
print_tag bag = write_call post (at_path "/custody/bags/" bag "/print_tag/") no_body

abbrev pub scan_bag : String → String → Call
scan_bag code to_stage =
    write_call post "/custody/scan"
      (json_body (obj (field "code" (str code) (field "to_stage" (str to_stage) end))))

abbrev pub transition_garment : String → String → Call
transition_garment id to_stage =
    write_call post (at_path "/custody/garment-lines/" id "/transition/")
      (json_body (obj (field "to_stage" (str to_stage) end)))

abbrev pub record_qc : String → String → Option Json → Call
record_qc id result reason =
    write_call post (at_path "/custody/garment-lines/" id "/qc/")
      (json_body (obj (field "result" (str result) (optional "reason" reason end))))

-- `exceptionsApi`.
abbrev pub list_exceptions : List (String × Param) → Call
list_exceptions params = read_call "/order-exceptions/" params

abbrev pub create_exception : Json → Call
create_exception input = write_call post "/order-exceptions/" (json_body input)

abbrev pub update_exception : String → Json → Call
update_exception id changes =
    write_call patch (at_path "/order-exceptions/" id "/") (json_body changes)

-- `fulfilmentApi`.
abbrev pub list_route_days : List (String × Param) → Call
list_route_days params = read_call "/fulfilment/route-days/" params

abbrev pub get_route_day : String → Call
get_route_day id = read_call (at_path "/fulfilment/route-days/" id "/") []

abbrev pub create_route_day : String → String → Call
create_route_day cluster date =
    write_call post "/fulfilment/route-days/"
      (json_body (obj (field "cluster" (str cluster) (field "date" (str date) end))))

abbrev pub assign_route_day : String → Json → Json → Call
assign_route_day id staff jobs =
    write_call post (at_path "/fulfilment/route-days/" id "/assign/")
      (json_body (obj (field "staff" staff (field "jobs" jobs end))))

abbrev pub start_job : String → Call
start_job id = write_call post (at_path "/fulfilment/jobs/" id "/start/") no_body

abbrev pub fail_job : String → String → Option Json → Call
fail_job id reason_code note =
    write_call post (at_path "/fulfilment/jobs/" id "/fail/")
      (json_body (obj (field "reason_code" (str reason_code) (optional "note" note end))))
