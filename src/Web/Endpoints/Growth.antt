-- ===== src/Web/Endpoints/Growth.antt =====
-- The endpoints of partners, referral codes, commission rules, the referral programme, campaigns and
-- customers who stayed away.
use ironman.Prelude.{String, Bool, Option, none, some, List, [], ◌∷◌}
use ironman.Json.{Json, null, bool, str, obj, end, field}
use ironman.Api.{post, patch, json_body, Param}
use ironman.Web.Endpoints.{Call, read_call, write_call, at_path}
use ironman.Web.Endpoints.Areas.{text_param}

-- The same request with query parameters.
abbrev pub with_params : List (String × Param) → Call → Call
with_params ps c = record c { options = record c.options { params = ps } }

-- `partnersApi`.
abbrev pub create_partner : Json → Call
create_partner input = write_call post "/growth/partners/" (json_body input)

abbrev pub update_partner : String → Json → Call
update_partner id changes =
    write_call patch (at_path "/growth/partners/" id "/") (json_body changes)

abbrev pub set_partner_status : String → String → Call
set_partner_status id status =
    write_call post (at_path "/growth/partners/" id "/status/")
      (json_body (obj (field "status" (str status) end)))

abbrev pub text_or_null : Option String → Json
text_or_null none = null
text_or_null (some s) = str s

abbrev pub set_partner_rule : String → Option String → Call
set_partner_rule id rule =
    write_call post (at_path "/growth/partners/" id "/commission-rule/")
      (json_body (obj (field "commission_rule" (text_or_null rule) end)))

-- `referralCodesApi`.
abbrev pub list_referral_codes : List (String × Param) → Call
list_referral_codes params = read_call "/growth/referral-codes/" params

abbrev pub create_referral_code : Json → Call
create_referral_code input = write_call post "/growth/referral-codes/" (json_body input)

abbrev pub set_referral_code_active : String → Bool → Call
set_referral_code_active id active =
    write_call patch (at_path "/growth/referral-codes/" id "/")
      (json_body (obj (field "is_active" (bool active) end)))

-- `commissionRulesApi`.
abbrev pub list_commission_rules : Call
list_commission_rules = read_call "/growth/commission-rules/" []

abbrev pub create_commission_rule : Json → Call
create_commission_rule input = write_call post "/growth/commission-rules/" (json_body input)

abbrev pub update_commission_rule : String → Json → Call
update_commission_rule id changes =
    write_call patch (at_path "/growth/commission-rules/" id "/") (json_body changes)

-- `referralProgramApi`.
abbrev pub get_referral_program : Option String → Call
get_referral_program hub = read_call "/growth/referral-program" (("hub", text_param hub) ∷ [])

abbrev pub update_referral_program : Option String → Json → Call
update_referral_program hub changes =
    with_params (("hub", text_param hub) ∷ [])
      (write_call patch "/growth/referral-program" (json_body changes))

-- `marketingApi`.
abbrev pub list_campaigns : Call
list_campaigns = read_call "/growth/campaigns/" []

abbrev pub create_campaign : Json → Call
create_campaign input = write_call post "/growth/campaigns/" (json_body input)

abbrev pub update_campaign : String → Json → Call
update_campaign id changes =
    write_call patch (at_path "/growth/campaigns/" id "/") (json_body changes)

abbrev pub list_spend : Call
list_spend = read_call "/growth/spend/" []

abbrev pub record_spend : Json → Call
record_spend input = write_call post "/growth/spend/" (json_body input)

abbrev pub remove_spend : String → String → Call
remove_spend id reason =
    write_call post (at_path "/growth/spend/" id "/remove/")
      (json_body (obj (field "reason" (str reason) end)))

-- `reengagementApi`.
abbrev pub send_reengagement : Option String → Json → Call
send_reengagement hub input =
    with_params (("hub", text_param hub) ∷ [])
      (write_call post "/growth/campaigns/lapsed/send" (json_body input))
