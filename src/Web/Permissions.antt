-- ===== src/Web/Permissions.antt =====
-- apps/web/lib/permissions.ts: what the console renders for a list of roles, `none` while it is unknown.
pub mod Tiers
use ironman.Prelude.{
  String, Bool, true, false, not, ◌&&◌, Option, none, some, List, [], ◌∷◌, any, ◌==◌,
}

pub data Role : Type 0 where
  customer field operator admin founder viewer : Role

-- The role as the API sends it.
unfoldable pub role_name : Role → String
role_name customer = "CUSTOMER"
role_name field = "FIELD"
role_name operator = "OPERATOR"
role_name admin = "ADMIN"
role_name founder = "FOUNDER"
role_name viewer = "VIEWER"

-- `===` of two roles.
unfoldable pub same_role : Role → Role → Bool
unfolding role_name
same_role r q = role_name r == role_name q

abbrev pub ops_roles : List Role
ops_roles = operator ∷ admin ∷ founder ∷ []

abbrev pub money_roles : List Role
money_roles = admin ∷ founder ∷ []

-- `allowed.includes(r)`.
abbrev pub allows : List Role → Role → Bool
allows allowed r = any (same_role r) allowed

abbrev pub Roles : Type 0
Roles = Option (List Role)

unfoldable pub has_role : List Role → Roles → Bool
unfolding same_role
has_role allowed none = false
has_role allowed (some roles) = any (allows allowed) roles

abbrev pub console_roles : List Role
console_roles = operator ∷ admin ∷ founder ∷ viewer ∷ field ∷ []

abbrev pub can_access_console : Roles → Bool
can_access_console = has_role console_roles

abbrev pub can_manage_orders : Roles → Bool
can_manage_orders = has_role ops_roles

abbrev pub can_manage_supplies : Roles → Bool
can_manage_supplies = has_role ops_roles

abbrev pub can_see_stock_ledger : Roles → Bool
can_see_stock_ledger = has_role (admin ∷ founder ∷ [])

abbrev pub can_see_money : Roles → Bool
can_see_money = has_role money_roles

abbrev pub can_issue_invoices : Roles → Bool
can_issue_invoices = has_role ops_roles

abbrev pub can_view_invoices : Roles → Bool
can_view_invoices = has_role (field ∷ ops_roles)

abbrev pub can_record_payment : Roles → Bool
can_record_payment = has_role (field ∷ ops_roles)

abbrev pub can_record_adjustment : Roles → Bool
can_record_adjustment = has_role money_roles

abbrev pub can_write_off : Roles → Bool
can_write_off = can_record_adjustment

abbrev pub can_issue_credit_notes : Roles → Bool
can_issue_credit_notes = can_record_adjustment

abbrev pub can_export_invoices : Roles → Bool
can_export_invoices = can_record_adjustment

abbrev pub can_manage_cash_custody : Roles → Bool
can_manage_cash_custody = has_role ops_roles

abbrev pub can_view_cash_reconciliation : Roles → Bool
can_view_cash_reconciliation = has_role money_roles

abbrev pub can_view_customer_credit : Roles → Bool
can_view_customer_credit = has_role money_roles

abbrev pub can_grant_credit : Roles → Bool
can_grant_credit = has_role money_roles

abbrev pub can_record_credit_payment : Roles → Bool
can_record_credit_payment = has_role ops_roles

abbrev pub can_edit_pricing : Roles → Bool
can_edit_pricing = has_role (founder ∷ [])

abbrev pub can_manage_staff : Roles → Bool
can_manage_staff = has_role (admin ∷ founder ∷ [])

abbrev pub can_view_audit_log : Roles → Bool
can_view_audit_log = has_role (admin ∷ founder ∷ [])

abbrev pub can_manage_growth_partners : Roles → Bool
can_manage_growth_partners = has_role money_roles

abbrev pub can_view_commission : Roles → Bool
can_view_commission = has_role (admin ∷ founder ∷ [])

abbrev pub can_manage_commission : Roles → Bool
can_manage_commission = has_role (founder ∷ [])

abbrev pub can_manage_marketing : Roles → Bool
can_manage_marketing = has_role (founder ∷ [])

abbrev pub can_plan_route_days : Roles → Bool
can_plan_route_days = has_role (admin ∷ founder ∷ [])

abbrev pub can_view_notification_log : Roles → Bool
can_view_notification_log = has_role ops_roles

unfoldable pub is_viewer : Roles → Bool
is_viewer roles = has_role (viewer ∷ []) roles && not (has_role ops_roles roles)

unfoldable pub role_label : Role → String
role_label customer = "Customer"
role_label field = "Field Staff"
role_label operator = "Store Operator"
role_label admin = "Ops / Admin"
role_label founder = "Founder"
role_label viewer = "Viewer"
