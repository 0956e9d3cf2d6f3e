-- ===== src/Web/Endpoints/Money.antt =====
-- The endpoints of prices, invoices, cash, credit, partners and settlements.
use ironman.Prelude.{String, Bool, Option, none, some, List, [], ◌∷◌}
use ironman.Json.{Json, null, bool, str, obj, end, field}
use ironman.Api.{post, put, no_body, json_body, Param, undefined, given}
use ironman.Web.Endpoints.{Call, read_call, write_call, at_path}

-- `catalogApi`.
abbrev pub list_price_lists : List (String × Param) → Call
list_price_lists params = read_call "/catalog/price-lists/" params

abbrev pub create_price_list : Json → Call
create_price_list input = write_call post "/catalog/price-lists/" (json_body input)

abbrev pub set_price_lines : String → Json → Call
set_price_lines id input =
    write_call put (at_path "/catalog/price-lists/" id "/lines/") (json_body input)

abbrev pub or_empty_object : Option Json → Json
or_empty_object none = obj end
or_empty_object (some input) = input

abbrev pub activate_price_list : String → Option Json → Call
activate_price_list id input =
    write_call post (at_path "/catalog/price-lists/" id "/activate/")
      (json_body (or_empty_object input))

-- `billingApi`.
abbrev pub list_invoices : List (String × Param) → Call
list_invoices params = read_call "/billing/invoices/" params

abbrev pub list_uninvoiced_deliveries : Call
list_uninvoiced_deliveries = read_call "/billing/uninvoiced-deliveries" []

abbrev pub get_invoice : String → Call
get_invoice ref = read_call (at_path "/billing/invoices/" ref "/") []

-- `apply_gst ?? null`.
abbrev pub or_null : Option Bool → Json
or_null none = null
or_null (some b) = bool b

abbrev pub issue_invoice : String → Option Bool → Call
issue_invoice order apply_gst =
    write_call post (at_path "/billing/invoices/" order "/issue")
      (json_body (obj (field "apply_gst" (or_null apply_gst) end)))

abbrev pub issue_credit_note : String → Json → Call
issue_credit_note ref input =
    write_call post (at_path "/billing/invoices/" ref "/credit-note/") (json_body input)

abbrev pub record_payment : String → Json → Call
record_payment ref input =
    write_call post (at_path "/billing/invoices/" ref "/payments/") (json_body input)

abbrev pub get_cash_mine : Call
get_cash_mine = read_call "/billing/cash/mine" []

abbrev pub list_handovers : List (String × Param) → Call
list_handovers params = read_call "/billing/cash/handovers/" params

abbrev pub initiate_handover : Json → Call
initiate_handover input = write_call post "/billing/cash/handovers/" (json_body input)

abbrev pub confirm_handover : String → Json → Call
confirm_handover id input =
    write_call post (at_path "/billing/cash/handovers/" id "/confirm/") (json_body input)

abbrev pub list_deposits : Call
list_deposits = read_call "/billing/cash/deposits/" []

abbrev pub record_deposit : Json → Call
record_deposit input = write_call post "/billing/cash/deposits/" (json_body input)

abbrev pub date_param : Option String → Param
date_param none = undefined
date_param (some date) = given date

abbrev pub get_cash_reconciliation : Option String → Call
get_cash_reconciliation date =
    read_call "/billing/cash/reconciliation" (("date", date_param date) ∷ [])

abbrev pub get_customer_credit : String → Call
get_customer_credit customer = read_call (at_path "/billing/credits/" customer "") []

abbrev pub grant_credit : String → Json → Call
grant_credit customer input =
    write_call post (at_path "/billing/credits/" customer "/grant") (json_body input)

-- `partnersApi`, `commissionAccrualsApi` and `settlementsApi`.
abbrev pub list_partners : List (String × Param) → Call
list_partners params = read_call "/growth/partners/" params

abbrev pub get_partner_balance : String → Call
get_partner_balance id = read_call (at_path "/growth/partners/" id "/balance/") []

abbrev pub list_partner_accruals : String → Call
list_partner_accruals id = read_call (at_path "/growth/partners/" id "/accruals/") []

abbrev pub void_accrual : String → String → Call
void_accrual id reason =
    write_call post (at_path "/growth/commission-accruals/" id "/void/")
      (json_body (obj (field "reason" (str reason) end)))

abbrev pub list_settlements : List (String × Param) → Call
list_settlements params = read_call "/growth/settlements/" params

abbrev pub create_settlement : Json → Call
create_settlement input = write_call post "/growth/settlements/" (json_body input)

abbrev pub mark_settlement_paid : String → String → String → Call
mark_settlement_paid id method reference =
    write_call post (at_path "/growth/settlements/" id "/mark-paid/") (
      json_body
        (obj (field "payment_method" (str method) (field "payment_ref" (str reference) end))))

abbrev pub cancel_settlement : String → Call
cancel_settlement id = write_call post (at_path "/growth/settlements/" id "/cancel/") no_body
