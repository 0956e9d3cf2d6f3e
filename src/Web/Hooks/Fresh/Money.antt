-- ===== src/Web/Hooks/Fresh/Money.antt =====
-- Which queries the hooks of money have fetched again.
use ironman.Prelude.{
  ◌≡◌, refl, String, ℕ, Bool, true, Option, some, List, [], ◌∷◌, Has, Has-any, inl, inr, sym, subst,
}
use ironman.Json.{Json}
use ironman.Web.Hooks.{text, Key, Effect, id_part, params_part}
use ironman.Web.Hooks.Orders.{Params, use_order}
use ironman.Web.Hooks.Money.{
  Payment, CommissionAccrual, Settlement, Payout, use_invoices, use_invoice, use_partners,
  use_partner_balance, use_partner_accruals, use_settlements, use_record_payment, use_void_accrual,
  use_create_settlement, use_mark_settlement_paid, use_cancel_settlement, invalidate_commission,
}
use ironman.Web.Hooks.Fresh.{filters_of, MatchesByPrefix, refetches, hit_name, hit_id}

-- The hooks that change what a partner is owed, with what the server answered.
pub data CommissionChange : Type 0 where
  voiding : CommissionAccrual → String × String → CommissionChange
  creating : Settlement → Json → CommissionChange
  paying : Settlement → Payout → CommissionChange
  undoing : Settlement → String → CommissionChange

abbrev pub commission_effects : CommissionChange → List Effect
commission_effects (voiding accrual v) = use_void_accrual.on_success accrual v
commission_effects (creating settlement v) = use_create_settlement.on_success settlement v
commission_effects (paying settlement v) = use_mark_settlement_paid.on_success settlement v
commission_effects (undoing settlement v) = use_cancel_settlement.on_success settlement v

module _ (matches : List String → Key → Bool) (by_prefix : MatchesByPrefix matches) where
  named :
      (effects : List Effect) (a : String) (key : Key)
      → Has (a ∷ []) (filters_of effects)
      → refetches matches effects (text a ∷ key) ≡ true
  named effects a key has =
      Has-any (λ filter. matches filter (text a ∷ key)) (filters_of effects) (a ∷ []) has
        (hit_name matches by_prefix a key)

  -- Once a payment is recorded, the invoice that it pays, every list of invoices and every order are
  -- fetched again, if the library's filters match by the beginning of the key.
  pub payment-refetches :
      (fixed : ℕ → String) (payment : Payment) (ref : String) (input : Json) (ps : Params)
      (order : Option String)
      → (refetches matches
            ((use_record_payment fixed).on_success payment (ref, input))
            (use_invoice (some ref)).query_key
          ≡ true)
        × (refetches matches
              ((use_record_payment fixed).on_success payment (ref, input))
              (use_invoices ps).query_key
            ≡ true)
        × (refetches matches
              ((use_record_payment fixed).on_success payment (ref, input))
              (use_order order).query_key
            ≡ true)
  payment-refetches fixed payment ref input ps order =
      let effects = (use_record_payment fixed).on_success payment (ref, input) in
      (
        rw (hit_id matches by_prefix "invoice" ref) refl,
        named effects "invoices" (params_part ps ∷ []) (inr (inl refl)),
        named effects "order" (id_part order ∷ []) (inr (inr (inl refl))),
      )

  module _ (ps : Params) (enabled : Bool) (partner : Option String) where
    -- The four kinds of query that show what a partner is owed.
    abbrev pub AllOwed : List Effect → Type 0
    AllOwed effects =
        (refetches matches effects (use_partners ps).query_key ≡ true)
        × (refetches matches effects (use_partner_balance partner).query_key ≡ true)
        × (refetches matches effects (use_partner_accruals partner).query_key ≡ true)
        × (refetches matches effects (use_settlements ps enabled).query_key ≡ true)

    owed :
        (c : CommissionChange)
        → filters_of (commission_effects c) ≡ filters_of invalidate_commission
        → AllOwed (commission_effects c)
    owed c same =
        let at : (a : String) (key : Key)
            → Has (a ∷ []) (filters_of invalidate_commission)
            → refetches matches (commission_effects c) (text a ∷ key) ≡ true =
          λ a key has. named (commission_effects c) a key (subst (Has (a ∷ [])) (sym same) has) in
        (
          at "referral-partners" (params_part ps ∷ []) (inl refl),
          at "partner-balance" (id_part partner ∷ []) (inr (inl refl)),
          at "partner-accruals" (id_part partner ∷ []) (inr (inr (inl refl))),
          at "settlements" (params_part ps ∷ []) (inr (inr (inr (inl refl)))),
        )

    -- Once a commission is voided, or a settlement is made, paid or undone, every list of partners and
    -- of settlements, and every partner's balance and accruals, are fetched again, if the library's
    -- filters match by the beginning of the key.
    pub commission_change-refetches : (c : CommissionChange) → AllOwed (commission_effects c)
    commission_change-refetches (voiding accrual v) = owed (voiding accrual v) refl
    commission_change-refetches (creating settlement v) = owed (creating settlement v) refl
    commission_change-refetches (paying settlement v) = owed (paying settlement v) refl
    commission_change-refetches (undoing settlement v) = owed (undoing settlement v) refl
