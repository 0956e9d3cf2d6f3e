-- ===== src/Web/Permissions/Tiers.antt =====
-- How the permissions of the console lie in each other.
use ironman.Prelude.{
  ◌≡◌, refl, ◌⊎◌, inl, inr, ◌↔◌, true, none, some, List, [], ◌∷◌, any, Has, Bool-cases, any_mono,
  any_split, any-Has, Has-any, arith, sym, ap, subst, ◌∙◌, eq_iff, eq_refl, ◌==◌, String,
  if◌then◌else◌,
}
use mathlib.Core.Option.{some-injective}
use ironman.Web.Permissions.{
  Role, customer, field, operator, admin, founder, viewer, same_role, role_name, console_roles,
  allows, Roles, has_role, ops_roles, money_roles, is_viewer, can_access_console, can_manage_orders,
  can_see_money, can_record_payment, can_edit_pricing,
}

-- The role that a name stands for.
abbrev role_named : String → Role
role_named s =
    if s == "CUSTOMER"
    then customer
    else if s == "FIELD"
    then field
    else if s == "OPERATOR"
    then operator
    else if s == "ADMIN"
    then admin
    else if s == "FOUNDER"
    then founder
    else viewer

role_named-role_name : (r : Role) → role_named (role_name r) ≡ r
unfolding role_name
role_named-role_name customer = refl
role_named-role_name field = refl
role_named-role_name operator = refl
role_named-role_name admin = refl
role_named-role_name founder = refl
role_named-role_name viewer = refl

same_role-eq : (r q : Role) → same_role r q ≡ true → r ≡ q
unfolding same_role
same_role-eq r q e =
    sym (role_named-role_name r)
    ∙ ap role_named ((eq_iff (role_name r) (role_name q)).0 e)
    ∙ role_named-role_name q

same_role_refl : (r : Role) → same_role r r ≡ true
unfolding same_role
same_role_refl r = eq_refl (role_name r)

allows-Has : (allowed : List Role) (r : Role) → allows allowed r ≡ true → Has r allowed
allows-Has allowed r e =
    let (q, has, same) = any-Has (same_role r) allowed e in
    subst (λ x. Has x allowed) (sym (same_role-eq r q same)) has

Has-allows : (allowed : List Role) (r : Role) → Has r allowed → allows allowed r ≡ true
Has-allows allowed r has = Has-any (same_role r) allowed r has (same_role_refl r)

-- A role test is passed exactly when the roles are known and one of them is an allowed one.
pub has_role-exact :
    (allowed : List Role) (roles : Roles)
    → (has_role allowed roles ≡ true)
      ↔ ((list : List Role) × (roles ≡ some list) × (r : Role) × Has r list × Has r allowed)
unfolding has_role
has_role-exact allowed none = (λ e. ground arith, λ (list, e, r, has, ok). ground arith)
has_role-exact allowed (some roles) = (
  λ e.
      let (r, has, ok) = any-Has (allows allowed) roles e in
      (roles, refl, r, has, allows-Has allowed r ok),
  λ (list, e, r, has, ok).
      subst (λ l. any (allows allowed) l ≡ true) (some-injective list roles (sym e))
        (Has-any (allows allowed) list r has (Has-allows allowed r ok)),
)

-- A test with more allowed roles is passed by whoever passes one with fewer.
has_role_mono :
    (fewer more : List Role) (roles : Roles)
    → ((r : Role) → allows fewer r ≡ true → allows more r ≡ true)
    → has_role fewer roles ≡ true
    → has_role more roles ≡ true
unfolding has_role
has_role_mono fewer more none h e = e
has_role_mono fewer more (some roles) h e = any_mono (allows fewer) (allows more) h roles e

has_role_split :
    (all left right : List Role) (roles : Roles)
    → ((r : Role) → allows all r ≡ true → (allows left r ≡ true) ⊎ (allows right r ≡ true))
    → has_role all roles ≡ true
    → (has_role left roles ≡ true) ⊎ (has_role right roles ≡ true)
unfolding has_role
has_role_split all left right none h e = inl e
has_role_split all left right (some roles) h e =
    any_split (allows all) (allows left) (allows right) h roles e

-- Every tier holds what the narrower ones hold.
pub tiers_nest :
    (roles : Roles)
    → (can_edit_pricing roles ≡ true → can_see_money roles ≡ true)
      × (can_see_money roles ≡ true → can_manage_orders roles ≡ true)
      × (can_manage_orders roles ≡ true → can_record_payment roles ≡ true)
      × (can_record_payment roles ≡ true → can_access_console roles ≡ true)
unfolding same_role
tiers_nest roles = (
  has_role_mono (founder ∷ []) money_roles roles (λ r. ground arith),
  has_role_mono money_roles ops_roles roles (λ r. ground arith),
  has_role_mono ops_roles (field ∷ ops_roles) roles (λ r. ground arith),
  has_role_mono (field ∷ ops_roles) console_roles roles (λ r. ground arith),
)

-- The console opens exactly for those who may record a payment and for viewers.
pub console-cases :
    (roles : Roles)
    → (can_access_console roles ≡ true)
      ↔ ((can_record_payment roles ≡ true) ⊎ (is_viewer roles ≡ true))
unfolding is_viewer same_role
console-cases roles = (
  λ e.
      elim (has_role_split console_roles (field ∷ ops_roles) (viewer ∷ []) roles (λ r. ground arith)
        e) [
          | inl pays ↦ inl pays
          | inr views ↦ elim (Bool-cases (has_role ops_roles roles)) [
            | inl runs ↦
                inl (has_role_mono ops_roles (field ∷ ops_roles) roles (λ r. ground arith) runs)
            | inr other ↦ inr (ground arith)
          ]
        ],
  λ e. elim e [
    | inl pays ↦ has_role_mono (field ∷ ops_roles) console_roles roles (λ r. ground arith) pays
    | inr views ↦ has_role_mono (viewer ∷ []) console_roles roles (λ r. ground arith) (ground arith)
  ],
)
