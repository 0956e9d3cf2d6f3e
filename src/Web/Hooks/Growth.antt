-- ===== src/Web/Hooks/Growth.antt =====
-- The hooks of partners, referral codes, commission rules, the referral programme, campaigns and
-- customers who stayed away. `lower` is `toLowerCase` and `number_text` is
-- `String(n)`.
use Prim.Native.String.{◌++◌ as join}
use ironman.Prelude.{
  ℕ, ◌+◌, String, Bool, Option, none, some, List, [], ◌∷◌, ◌++◌, nat_eq, if◌then◌else◌,
}
use ironman.Json.{Json, str, obj, end, field}
use ironman.Api.{truthy}
use ironman.Web.Endpoints.Growth.{
  create_partner, update_partner, set_partner_status, set_partner_rule, list_referral_codes,
  create_referral_code, set_referral_code_active, list_commission_rules, create_commission_rule,
  update_commission_rule, get_referral_program, update_referral_program, list_campaigns,
  create_campaign, update_campaign, list_spend, record_spend, remove_spend, send_reengagement,
}
use ironman.Web.Hooks.{
  text, QueryOptions, success, Effect, invalidate, toast, Mutation, error_toast, id_part,
  when_given, params_part, or_no_params,
}
use ironman.Web.Hooks.Orders.{Params}
use ironman.Web.Hooks.Custody.{plural}

-- What the hooks read of a partner, a code, a rule or campaign, a spend, and of what was sent.
pub record ReferralPartner : Type 0 where
  pub name : String
  pub status : String
  pub commission_rule_name : Option String

pub record ReferralCode : Type 0 where
  pub code : String
  pub is_active : Bool

pub record Titled : Type 0 where
  pub name : String

pub record Spend : Type 0 where
  pub campaign_name : String

pub record ReengagementResult : Type 0 where
  pub sent : ℕ
  pub recently_contacted : ℕ
  pub opted_out : ℕ
  pub not_sent : ℕ

-- Queries.
abbrev pub use_referral_codes : Params → QueryOptions
use_referral_codes ps = record {
  query_key = text "referral-codes" ∷ params_part ps ∷ [];
  call = some (list_referral_codes (or_no_params ps));
}

abbrev pub use_commission_rules : Bool → QueryOptions
use_commission_rules enabled = record {
  query_key = text "commission-rules" ∷ [];
  call = if enabled then some list_commission_rules else none;
}

abbrev pub use_referral_program : Option String → QueryOptions
use_referral_program hub = record {
  query_key = text "referral-program" ∷ id_part hub ∷ [];
  call = when_given (λ h. get_referral_program (some h)) hub;
}

abbrev pub use_campaigns : QueryOptions
use_campaigns = record { query_key = text "campaigns" ∷ []; call = some list_campaigns }

abbrev pub use_spend : QueryOptions
use_spend = record { query_key = text "spend" ∷ []; call = some list_spend }

-- Partners.
abbrev pub use_create_partner : Mutation Json ReferralPartner
use_create_partner = record {
  mutation_fn = create_partner;
  on_success = λ partner v.
      invalidate ("referral-partners" ∷ []) ∷ toast (success (join partner.name " onboarded")) ∷ [];
  on_error = error_toast "Couldn't onboard the partner.";
}

abbrev pub use_update_partner : Mutation (String × Json) ReferralPartner
use_update_partner = record {
  mutation_fn = λ (id, changes). update_partner id changes;
  on_success = λ partner v.
      invalidate ("referral-partners" ∷ []) ∷ toast (success (join partner.name " updated")) ∷ [];
  on_error = error_toast "Couldn't update the partner.";
}

abbrev pub use_set_partner_status : (String → String) → Mutation (String × String) ReferralPartner
use_set_partner_status lower = record {
  mutation_fn = λ (id, status). set_partner_status id status;
  on_success = λ partner v.
      invalidate ("referral-partners" ∷ [])
      ∷ toast (success (join partner.name (join " is now " (lower partner.status))))
      ∷ [];
  on_error = error_toast "Couldn't update the partner's status.";
}

abbrev pub rule_message : String → Option String → String
rule_message name none = join name " now earns under the hub default"
rule_message name (some rule) = join name (join " now earns under \"" (join rule "\""))

abbrev pub use_set_partner_commission_rule : Mutation (String × Option String) ReferralPartner
use_set_partner_commission_rule = record {
  mutation_fn = λ (id, rule). set_partner_rule id rule;
  on_success = λ partner v.
      invalidate ("referral-partners" ∷ [])
      ∷ invalidate ("commission-rules" ∷ [])
      ∷ toast (success (rule_message partner.name (truthy partner.commission_rule_name)))
      ∷ [];
  on_error = error_toast "Couldn't change the partner's rule.";
}

-- Codes.
abbrev pub use_create_referral_code : Mutation Json ReferralCode
use_create_referral_code = record {
  mutation_fn = create_referral_code;
  on_success = λ code v.
      invalidate ("referral-codes" ∷ [])
      ∷ toast (success (join "Code " (join code.code " issued")))
      ∷ [];
  on_error = error_toast "Couldn't issue a referral code.";
}

abbrev pub use_set_referral_code_active : Mutation (String × Bool) ReferralCode
use_set_referral_code_active = record {
  mutation_fn = λ (id, active). set_referral_code_active id active;
  on_success = λ code v.
      invalidate ("referral-codes" ∷ [])
      ∷ toast (success (join code.code (if code.is_active then " activated" else " deactivated")))
      ∷ [];
  on_error = error_toast "Couldn't update the referral code.";
}

-- Rules and the programme.
abbrev pub use_create_commission_rule : Mutation Json Titled
use_create_commission_rule = record {
  mutation_fn = create_commission_rule;
  on_success = λ rule v.
      invalidate ("commission-rules" ∷ [])
      ∷ toast (success (join "Rule \"" (join rule.name "\" created")))
      ∷ [];
  on_error = error_toast "Couldn't create the rule.";
}

abbrev pub use_update_commission_rule : Mutation (String × Json) Titled
use_update_commission_rule = record {
  mutation_fn = λ (id, changes). update_commission_rule id changes;
  on_success = λ rule v.
      invalidate ("commission-rules" ∷ [])
      ∷ toast (success (join "Rule \"" (join rule.name "\" updated")))
      ∷ [];
  on_error = error_toast "Couldn't update the rule.";
}

abbrev pub use_update_referral_program : Mutation (Option String × Json) Json
use_update_referral_program = record {
  mutation_fn = λ (hub, changes). update_referral_program hub changes;
  on_success = λ d v.
      invalidate ("referral-program" ∷ []) ∷ toast (success "Refer-a-friend terms saved") ∷ [];
  on_error = error_toast "Couldn't save the refer-a-friend terms.";
}

-- Campaigns.
abbrev pub invalidate_marketing : List Effect
invalidate_marketing =
    invalidate ("campaigns" ∷ [])
    ∷ invalidate ("spend" ∷ [])
    ∷ invalidate ("acquisition-cost" ∷ [])
    ∷ []

abbrev pub use_create_campaign : Mutation Json Titled
use_create_campaign = record {
  mutation_fn = create_campaign;
  on_success = λ campaign v.
      invalidate_marketing
      ++ toast (success (join "Campaign \"" (join campaign.name "\" created"))) ∷ [];
  on_error = error_toast "Couldn't create the campaign.";
}

abbrev pub use_end_campaign : Mutation (String × String) Titled
use_end_campaign = record {
  mutation_fn = λ (id, end_on). update_campaign id (obj (field "end_on" (str end_on) end));
  on_success = λ campaign v.
      invalidate_marketing ++ toast (success (join "\"" (join campaign.name "\" ended"))) ∷ [];
  on_error = error_toast "Couldn't end the campaign.";
}

abbrev pub use_record_spend : Mutation Json Spend
use_record_spend = record {
  mutation_fn = record_spend;
  on_success = λ spend v.
      invalidate_marketing
      ++ toast (success (join "Spend added to \"" (join spend.campaign_name "\""))) ∷ [];
  on_error = error_toast "Couldn't record the spend.";
}

abbrev pub use_remove_spend : Mutation (String × String) Json
use_remove_spend = record {
  mutation_fn = λ (id, reason). remove_spend id reason;
  on_success = λ d v. invalidate_marketing ++ toast (success "Spend removed") ∷ [];
  on_error = error_toast "Couldn't remove the spend.";
}

abbrev pub sent_message : (ℕ → String) → ReengagementResult → String
sent_message number_text r =
    let skipped = r.recently_contacted + r.opted_out + r.not_sent in
    join "Sent to " (
      join (number_text r.sent) (
        join " customer" (
          join (plural r.sent) (
            if nat_eq skipped 0
            then ""
            else join " · " (
                join (number_text skipped)
                  " skipped (recently messaged, opted out or no channel)")))))

abbrev pub use_send_reengagement : (ℕ → String) → Mutation (Option String × Json) ReengagementResult
use_send_reengagement number_text = record {
  mutation_fn = λ (hub, input). send_reengagement hub input;
  on_success = λ r v.
      invalidate ("lapsed-customers" ∷ []) ∷ toast (success (sent_message number_text r)) ∷ [];
  on_error = error_toast "Couldn't send the messages.";
}
