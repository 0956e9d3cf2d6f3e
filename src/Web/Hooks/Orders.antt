-- ===== src/Web/Hooks/Orders.antt =====
-- The hooks of orders and re-quotes. `lower` is `toLowerCase`.
use Prim.Native.Char.{code}
use Prim.Native.String.{◌++◌ as join}
use ironman.Prelude.{String, Bool, Option, some, List, [], ◌∷◌, nat_eq, if◌then◌else◌, ◌==◌}
use ironman.Json.{Json}
use ironman.Api.{Param}
use ironman.Web.Endpoints.Operations.{
  list_orders, get_order, list_order_events, create_order, create_counter_order, cancel_order,
  advance_order, take_in_order, list_requotes, respond_to_requote,
}
use ironman.Web.Hooks.{
  text, QueryOptions, success, warning, invalidate, toast, Mutation, error_toast, id_part,
  when_given, params_part, or_no_params,
}

-- What the hooks read of an order.
pub record OrderDetail : Type 0 where
  pub id : String
  pub ref : String
  pub status : String

abbrev pub Params : Type 0
Params = Option (List (String × Param))

-- Queries.
abbrev pub use_orders : Params → QueryOptions
use_orders ps = record {
  query_key = text "orders" ∷ params_part ps ∷ [];
  call = some (list_orders (or_no_params ps));
}

abbrev pub use_order : Option String → QueryOptions
use_order id = record { query_key = text "order" ∷ id_part id ∷ []; call = when_given get_order id }

abbrev pub use_order_events : Option String → QueryOptions
use_order_events id = record {
  query_key = text "order-events" ∷ id_part id ∷ [];
  call = when_given list_order_events id;
}

abbrev pub use_requotes : Params → QueryOptions
use_requotes ps = record {
  query_key = text "requotes" ∷ params_part ps ∷ [];
  call = some (list_requotes (or_no_params ps));
}

-- Orders. `fresh` is what `newIdempotencyKey()` returns.
pub record NewOrder : Type 0 where
  pub input : Json
  pub access_token : Option String
  pub idempotency_key : Option String

abbrev pub use_create_order : String → Mutation NewOrder OrderDetail
use_create_order fresh = record {
  mutation_fn = λ v. create_order fresh v.input v.access_token v.idempotency_key;
  on_success = λ order v.
      invalidate ("orders" ∷ []) ∷ toast (success (join "Order " (join order.ref " created"))) ∷ [];
  on_error = error_toast "Couldn't create the order.";
}

abbrev pub use_create_counter_order : String → Mutation Json OrderDetail
use_create_counter_order fresh = record {
  mutation_fn = create_counter_order fresh;
  on_success = λ order v.
      invalidate ("orders" ∷ [])
      ∷ toast (success (join "Order " (join order.ref " created at the counter")))
      ∷ [];
  on_error = error_toast "Couldn't create the order.";
}

abbrev pub use_cancel_order : Mutation (String × String) OrderDetail
use_cancel_order = record {
  mutation_fn = λ (id, reason). cancel_order id reason;
  on_success = λ order v.
      invalidate ("orders" ∷ [])
      ∷ invalidate ("order" ∷ order.id ∷ [])
      ∷ toast (success (join order.ref " cancelled"))
      ∷ [];
  on_error = error_toast "Couldn't cancel the order.";
}

-- `replaceAll("_", " ")`, and `replace("_", " ")`, which replaces the first.
unfoldable pub with_spaces : String → String
with_spaces String.[] = ""
with_spaces (String.◌∷◌ c s) =
    let rest = with_spaces s in if nat_eq (code c) 95 then join " " rest else String.◌∷◌ c rest

unfoldable pub with_first_space : String → String
with_first_space String.[] = ""
with_first_space (String.◌∷◌ c s) =
    let rest = with_first_space s in if nat_eq (code c) 95 then join " " s else String.◌∷◌ c rest

abbrev pub use_advance_order : (String → String) → Mutation (String × String) OrderDetail
use_advance_order lower = record {
  mutation_fn = λ (id, to_status). advance_order id to_status;
  on_success = λ order v.
      invalidate ("orders" ∷ [])
      ∷ invalidate ("order" ∷ order.id ∷ [])
      ∷ invalidate ("order-events" ∷ order.id ∷ [])
      ∷ toast (success (join order.ref (join " moved to " (lower (with_spaces order.status)))))
      ∷ [];
  on_error = error_toast "Couldn't update the order status.";
}

pub record Intake : Type 0 where
  pub id : String
  pub verified_lines : Json
  pub notes : Option Json

abbrev pub use_order_intake : Mutation Intake OrderDetail
use_order_intake = record {
  mutation_fn = λ v. take_in_order v.id v.verified_lines v.notes;
  on_success = λ order v.
      invalidate ("orders" ∷ [])
      ∷ invalidate ("order" ∷ order.id ∷ [])
      ∷ toast (
          if order.status == "ON_HOLD"
          then warning (join order.ref " needs a re-quote — counts differ from the estimate")
          else success (join "Intake recorded for " order.ref))
      ∷ [];
  on_error = error_toast "Couldn't record intake.";
}

abbrev pub use_respond_to_requote : Mutation (String × Bool) OrderDetail
use_respond_to_requote = record {
  mutation_fn = λ (id, approved). respond_to_requote id approved;
  on_success = λ order v.
      invalidate ("orders" ∷ [])
      ∷ invalidate ("order" ∷ order.id ∷ [])
      ∷ invalidate ("requotes" ∷ [])
      ∷ toast (
          success (
            if order.status == "CANCELLED"
            then "Re-quote rejected, order cancelled"
            else "Re-quote approved"))
      ∷ [];
  on_error = error_toast "Couldn't respond to the re-quote.";
}
