-- ===== src/Web/Hooks/Fresh.antt =====
-- Which queries the hooks have fetched again once the server has made the change. `matches` is the query
-- library's test, by the beginning of the key.
pub mod Money
pub mod Scans
use ironman.Prelude.{
  ◌≡◌, ◌≢◌, refl, sym, ap, ◌∙◌, ◌⊎◌, ◌↔◌, inl, inr, ℕ, ltb, ◌<◌, String, Bool, true, false, ◌||◌,
  not, Option, none, some, List, [], ◌∷◌, ◌++◌, map, arith, any, Bool-cases, ◌==◌, eq_iff, eq_refl,
  if◌then◌else◌,
}
use ironman.Json.{Json}
use ironman.Web.Hooks.{KeyPart, text, Key, Effect, invalidate, toast, QueryOptions, Mutation}
use ironman.Web.Hooks.Orders.{
  OrderDetail, Intake, Params, use_orders, use_order, use_order_events, use_cancel_order,
  use_advance_order, use_order_intake, use_respond_to_requote,
}
use ironman.Web.Hooks.Custody.{ScanResult, use_scan_bag, use_board_scan, scan_toast}

-- `invalidateQueries({ queryKey: filter })` matches the keys that begin with the filter.
abbrev pub texts : List String → Key
texts filter = map text filter

abbrev pub MatchesByPrefix : (List String → Key → Bool) → Type 0
MatchesByPrefix matches =
    (filter : List String) (key : Key)
    → (matches filter key ≡ true) ↔ ((rest : Key) × (key ≡ texts filter ++ rest))

-- The filters of the queries that a callback has fetched again.
abbrev pub filters_of : List Effect → List (List String)
filters_of [] = []
filters_of (invalidate filter ∷ es) = filter ∷ filters_of es
filters_of (toast t ∷ es) = filters_of es

-- Whether a hook's callback has the query under a key fetched again.
abbrev pub refetches : (List String → Key → Bool) → List Effect → Key → Bool
refetches matches effects key = any (λ filter. matches filter key) (filters_of effects)

abbrev first_text : Key → String
first_text (text a ∷ key) = a
first_text _ = ""

abbrev second_text : Key → String
second_text (part ∷ key) = first_text key
second_text _ = ""

module _ (matches : List String → Key → Bool) (by_prefix : MatchesByPrefix matches) where
  pub hit_name : (a : String) (key : Key) → matches (a ∷ []) (text a ∷ key) ≡ true
  hit_name a key = (by_prefix (a ∷ []) (text a ∷ key)).1 (key, refl)

  pub hit_id : (a b : String) → matches (a ∷ b ∷ []) (text a ∷ text b ∷ []) ≡ true
  hit_id a b = (by_prefix (a ∷ b ∷ []) (text a ∷ text b ∷ [])).1 ([], refl)

  pub miss_name :
      (a : String) (filter : List String) (b : String) (key : Key)
      → a ≢ b
      → matches (a ∷ filter) (text b ∷ key) ≡ false
  miss_name a filter b key differ = elim (Bool-cases (matches (a ∷ filter) (text b ∷ key))) [
    | inr e ↦ e
    | inl e ↦
        let (rest, same) = (by_prefix (a ∷ filter) (text b ∷ key)).0 e in
        absurd (differ (sym (ap first_text same)))
  ]

  pub miss_id : (a b c : String) → b ≢ c → matches (a ∷ b ∷ []) (text a ∷ text c ∷ []) ≡ false
  miss_id a b c differ = elim (Bool-cases (matches (a ∷ b ∷ []) (text a ∷ text c ∷ []))) [
    | inr e ↦ e
    | inl e ↦
        let (rest, same) = (by_prefix (a ∷ b ∷ []) (text a ∷ text c ∷ [])).0 e in
        absurd (differ (sym (ap second_text same)))
  ]

-- The hooks that change one order, with what they are called with.
pub data OrderChange : Type 0 where
  cancelling advancing : String × String → OrderChange
  taking_in : Intake → OrderChange
  answering_requote : String × Bool → OrderChange

abbrev pub change_effects : (String → String) → OrderChange → OrderDetail → List Effect
change_effects lower (cancelling v) order = use_cancel_order.on_success order v
change_effects lower (advancing v) order = (use_advance_order lower).on_success order v
change_effects lower (taking_in v) order = use_order_intake.on_success order v
change_effects lower (answering_requote v) order = use_respond_to_requote.on_success order v

abbrev pub is_advancing : OrderChange → Bool
is_advancing (advancing v) = true
is_advancing _ = false

module _ (matches : List String → Key → Bool) (by_prefix : MatchesByPrefix matches)
    (lower : String → String) where
  other_name :
      (a b : String)
      → (a == b) ≡ false
      → (filter : List String) (key : Key) → matches (a ∷ filter) (text b ∷ key) ≡ false
  other_name a b differ filter key =
      miss_name matches by_prefix a filter b key (λ e. ground (arith, eq_iff a b, e))

  lists_hit : (ps : Params) → matches ("orders" ∷ []) (use_orders ps).query_key ≡ true
  lists_hit ps = hit_name matches by_prefix "orders" _

  one_hit : (id : String) → matches ("order" ∷ id ∷ []) (use_order (some id)).query_key ≡ true
  one_hit id = hit_id matches by_prefix "order" id

  -- Once the server has changed an order, every list of orders and the order itself are fetched again,
  -- and no other order is, if the library's filters match by the beginning of the key.
  pub order_change-refetches :
      (c : OrderChange) (order : OrderDetail) (ps : Params) (other : String)
      → order.id ≢ other
      → (refetches matches (change_effects lower c order) (use_orders ps).query_key ≡ true)
        × (refetches matches (change_effects lower c order) (use_order (some order.id)).query_key
            ≡ true)
        × (refetches matches (change_effects lower c order) (use_order (some other)).query_key
            ≡ false)
  order_change-refetches (cancelling v) order ps other differ = (
    rw (lists_hit ps) refl,
    rw (other_name "orders" "order" refl [] (text order.id ∷ [])) (rw (one_hit order.id) refl),
    rw (other_name "orders" "order" refl [] (text other ∷ []))
        (rw (miss_id matches by_prefix "order" order.id other differ) refl),
  )
  order_change-refetches (advancing v) order ps other differ = (
    rw (lists_hit ps) refl,
    rw (other_name "orders" "order" refl [] (text order.id ∷ [])) (rw (one_hit order.id) refl),
    rw (other_name "orders" "order" refl [] (text other ∷ [])) (
        rw (miss_id matches by_prefix "order" order.id other differ)
          (rw (other_name "order-events" "order" refl (order.id ∷ []) (text other ∷ [])) refl)),
  )
  order_change-refetches (taking_in v) order ps other differ = (
    rw (lists_hit ps) refl,
    rw (other_name "orders" "order" refl [] (text order.id ∷ [])) (rw (one_hit order.id) refl),
    rw (other_name "orders" "order" refl [] (text other ∷ []))
        (rw (miss_id matches by_prefix "order" order.id other differ) refl),
  )
  order_change-refetches (answering_requote v) order ps other differ = (
    rw (lists_hit ps) refl,
    rw (other_name "orders" "order" refl [] (text order.id ∷ [])) (rw (one_hit order.id) refl),
    rw (other_name "orders" "order" refl [] (text other ∷ [])) (
        rw (miss_id matches by_prefix "order" order.id other differ)
          (rw (other_name "requotes" "order" refl [] (text other ∷ [])) refl)),
  )

  -- The two filters that the four hooks share miss the history, so the others decide.
  history_missed :
      (id : String) {rest answer : Bool}
      → rest ≡ answer
      → (matches ("orders" ∷ []) (use_order_events (some id)).query_key
          || (matches ("order" ∷ id ∷ []) (use_order_events (some id)).query_key || rest))
        ≡ answer
  history_missed id e =
      rw (other_name "orders" "order-events" refl [] (text id ∷ []))
        (rw (other_name "order" "order-events" refl (id ∷ []) (text id ∷ [])) e)

  -- Of these hooks only the one that moves an order on has the order's history fetched again, if the
  -- library's filters match by the beginning of the key.
  pub history-refetches :
      (c : OrderChange) (order : OrderDetail)
      → refetches matches
          (change_effects lower c order)
          (use_order_events (some order.id)).query_key
        ≡ is_advancing c
  history-refetches (cancelling v) order = history_missed order.id refl
  history-refetches (advancing v) order =
      history_missed order.id (rw (hit_id matches by_prefix "order-events" order.id) refl)
  history-refetches (taking_in v) order = history_missed order.id refl
  history-refetches (answering_requote v) order =
      history_missed order.id
        (rw (other_name "requotes" "order-events" refl [] (text order.id ∷ [])) refl)
