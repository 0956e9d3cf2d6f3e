-- ===== src/Web/Hooks/Money.antt =====
-- The hooks of price lists, invoices, cash in the riders' hands, credit and settlements. `fixed` is
-- `(minor / 100).toFixed(2)`.
use Prim.Native.String.{◌++◌ as join}
use ironman.Prelude.{ℕ, String, Bool, Option, none, some, List, [], ◌∷◌, ◌++◌, if◌then◌else◌}
use ironman.Json.{Json}
use ironman.Web.Endpoints.Money.{
  list_price_lists, create_price_list, set_price_lines, activate_price_list, list_invoices,
  list_uninvoiced_deliveries, get_invoice, issue_invoice, issue_credit_note, record_payment,
  get_cash_mine, list_handovers, initiate_handover, confirm_handover, list_deposits, record_deposit,
  get_cash_reconciliation, get_customer_credit, grant_credit, list_partners, get_partner_balance,
  list_partner_accruals, void_accrual, list_settlements, create_settlement, mark_settlement_paid,
  cancel_settlement,
}
use ironman.Web.Hooks.{
  text, QueryOptions, success, Effect, invalidate, toast, Mutation, error_toast, id_part,
  when_given, params_part, or_no_params,
}
use ironman.Web.Hooks.Orders.{Params}

-- What the hooks read of an invoice, a payment, an accrual and a settlement.
pub record InvoiceDetail : Type 0 where
  pub ref : String
  pub order : String

pub record Payment : Type 0 where
  pub amount_minor : ℕ

pub record CommissionAccrual : Type 0 where
  pub order_ref : String

pub record Settlement : Type 0 where
  pub ref : String
  pub partner_name : String

-- Queries.
abbrev pub use_price_lists : Params → QueryOptions
use_price_lists ps = record {
  query_key = text "price-lists" ∷ params_part ps ∷ [];
  call = some (list_price_lists (or_no_params ps));
}

abbrev pub use_invoices : Params → QueryOptions
use_invoices ps = record {
  query_key = text "invoices" ∷ params_part ps ∷ [];
  call = some (list_invoices (or_no_params ps));
}

abbrev pub use_invoice : Option String → QueryOptions
use_invoice ref = record {
  query_key = text "invoice" ∷ id_part ref ∷ [];
  call = when_given get_invoice ref;
}

abbrev pub use_cash_mine : QueryOptions
use_cash_mine = record { query_key = text "cash-mine" ∷ []; call = some get_cash_mine }

abbrev pub use_handovers : Params → QueryOptions
use_handovers ps = record {
  query_key = text "handovers" ∷ params_part ps ∷ [];
  call = some (list_handovers (or_no_params ps));
}

abbrev pub use_cash_deposits : QueryOptions
use_cash_deposits = record { query_key = text "cash-deposits" ∷ []; call = some list_deposits }

abbrev pub use_cash_reconciliation : Option String → QueryOptions
use_cash_reconciliation date = record {
  query_key = text "cash-reconciliation" ∷ id_part date ∷ [];
  call = some (get_cash_reconciliation date);
}

abbrev pub use_customer_credit : Option String → QueryOptions
use_customer_credit customer = record {
  query_key = text "customer-credit" ∷ id_part customer ∷ [];
  call = when_given get_customer_credit customer;
}

abbrev pub use_partners : Params → QueryOptions
use_partners ps = record {
  query_key = text "referral-partners" ∷ params_part ps ∷ [];
  call = some (list_partners (or_no_params ps));
}

abbrev pub use_partner_balance : Option String → QueryOptions
use_partner_balance id = record {
  query_key = text "partner-balance" ∷ id_part id ∷ [];
  call = when_given get_partner_balance id;
}

abbrev pub use_partner_accruals : Option String → QueryOptions
use_partner_accruals id = record {
  query_key = text "partner-accruals" ∷ id_part id ∷ [];
  call = when_given list_partner_accruals id;
}

abbrev pub use_settlements : Params → Bool → QueryOptions
use_settlements ps enabled = record {
  query_key = text "settlements" ∷ params_part ps ∷ [];
  call = if enabled then some (list_settlements (or_no_params ps)) else none;
}

abbrev pub use_uninvoiced_deliveries : Bool → QueryOptions
use_uninvoiced_deliveries enabled = record {
  query_key = text "uninvoiced-deliveries" ∷ [];
  call = if enabled then some list_uninvoiced_deliveries else none;
}

-- Price lists.
abbrev pub use_create_price_list : Mutation Json Json
use_create_price_list = record {
  mutation_fn = create_price_list;
  on_success =
      λ d v. invalidate ("price-lists" ∷ []) ∷ toast (success "Draft price list created") ∷ [];
  on_error = error_toast "Couldn't create the price list.";
}

abbrev pub use_set_price_lines : Mutation (String × Json) Json
use_set_price_lines = record {
  mutation_fn = λ (id, input). set_price_lines id input;
  on_success = λ d v. invalidate ("price-lists" ∷ []) ∷ toast (success "Price lines saved") ∷ [];
  on_error = error_toast "Couldn't save the price lines.";
}

abbrev pub use_activate_price_list : Mutation (String × Option Json) Json
use_activate_price_list = record {
  mutation_fn = λ (id, input). activate_price_list id input;
  on_success = λ d v. invalidate ("price-lists" ∷ []) ∷ toast (success "Price list activated") ∷ [];
  on_error = error_toast "Couldn't activate the price list.";
}

-- Invoices.
abbrev pub use_issue_invoice : Mutation (String × Option Bool) InvoiceDetail
use_issue_invoice = record {
  mutation_fn = λ (order, apply_gst). issue_invoice order apply_gst;
  on_success = λ invoice v.
      invalidate ("invoices" ∷ [])
      ∷ invalidate ("uninvoiced-deliveries" ∷ [])
      ∷ invalidate ("order" ∷ invoice.order ∷ [])
      ∷ toast (success (join invoice.ref " issued"))
      ∷ [];
  on_error = error_toast "Couldn't issue the invoice.";
}

abbrev pub use_issue_credit_note : Mutation (String × Json) Json
use_issue_credit_note = record {
  mutation_fn = λ (ref, input). issue_credit_note ref input;
  on_success = λ d (ref, input).
      invalidate ("invoice" ∷ ref ∷ [])
      ∷ invalidate ("invoices" ∷ [])
      ∷ toast (success "Credit note issued")
      ∷ [];
  on_error = error_toast "Couldn't issue the credit note.";
}

abbrev pub use_record_payment : (ℕ → String) → Mutation (String × Json) Payment
use_record_payment fixed = record {
  mutation_fn = λ (ref, input). record_payment ref input;
  on_success = λ payment (ref, input).
      invalidate ("invoice" ∷ ref ∷ [])
      ∷ invalidate ("invoices" ∷ [])
      ∷ invalidate ("order" ∷ [])
      ∷ toast (success (join "Payment recorded — ₹" (fixed payment.amount_minor)))
      ∷ [];
  on_error = error_toast "Couldn't record the payment.";
}

-- Cash.
abbrev pub use_initiate_handover : Mutation Json Json
use_initiate_handover = record {
  mutation_fn = initiate_handover;
  on_success = λ d v.
      invalidate ("cash-mine" ∷ [])
      ∷ invalidate ("handovers" ∷ [])
      ∷ toast (success "Handover initiated")
      ∷ [];
  on_error = error_toast "Couldn't initiate the handover.";
}

abbrev pub use_confirm_handover : Mutation (String × Json) Json
use_confirm_handover = record {
  mutation_fn = λ (id, input). confirm_handover id input;
  on_success = λ d v.
      invalidate ("handovers" ∷ [])
      ∷ invalidate ("cash-reconciliation" ∷ [])
      ∷ toast (success "Handover confirmed")
      ∷ [];
  on_error = error_toast "Couldn't confirm the handover.";
}

abbrev pub use_record_deposit : Mutation Json Json
use_record_deposit = record {
  mutation_fn = record_deposit;
  on_success = λ d v.
      invalidate ("cash-deposits" ∷ [])
      ∷ invalidate ("cash-reconciliation" ∷ [])
      ∷ toast (success "Deposit recorded")
      ∷ [];
  on_error = error_toast "Couldn't record the deposit.";
}

-- Credit.
abbrev pub use_grant_credit : Mutation (String × Json) Json
use_grant_credit = record {
  mutation_fn = λ (customer, input). grant_credit customer input;
  on_success = λ d (customer, input).
      invalidate ("customer-credit" ∷ customer ∷ []) ∷ toast (success "Credit granted") ∷ [];
  on_error = error_toast "Couldn't grant credit.";
}

-- Commission.
abbrev pub invalidate_commission : List Effect
invalidate_commission =
    invalidate ("referral-partners" ∷ [])
    ∷ invalidate ("partner-balance" ∷ [])
    ∷ invalidate ("partner-accruals" ∷ [])
    ∷ invalidate ("settlements" ∷ [])
    ∷ []

abbrev pub use_void_accrual : Mutation (String × String) CommissionAccrual
use_void_accrual = record {
  mutation_fn = λ (id, reason). void_accrual id reason;
  on_success = λ accrual v.
      invalidate_commission
      ++ toast (success (join "Commission on " (join accrual.order_ref " voided"))) ∷ [];
  on_error = error_toast "Couldn't void the commission.";
}

abbrev pub use_create_settlement : Mutation Json Settlement
use_create_settlement = record {
  mutation_fn = create_settlement;
  on_success = λ settlement v.
      invalidate_commission
      ++ toast (success (join settlement.ref (join " created for " settlement.partner_name))) ∷ [];
  on_error = error_toast "Couldn't create the settlement.";
}

pub record Payout : Type 0 where
  pub id : String
  pub method : String
  pub reference : String

abbrev pub use_mark_settlement_paid : Mutation Payout Settlement
use_mark_settlement_paid = record {
  mutation_fn = λ v. mark_settlement_paid v.id v.method v.reference;
  on_success = λ settlement v.
      invalidate_commission ++ toast (success (join settlement.ref " marked paid")) ∷ [];
  on_error = error_toast "Couldn't mark the settlement paid.";
}

abbrev pub use_cancel_settlement : Mutation String Settlement
use_cancel_settlement = record {
  mutation_fn = cancel_settlement;
  on_success = λ settlement v.
      invalidate_commission
      ++ toast (success (join settlement.ref " cancelled — its commission is unpaid again")) ∷ [];
  on_error = error_toast "Couldn't cancel the settlement.";
}
