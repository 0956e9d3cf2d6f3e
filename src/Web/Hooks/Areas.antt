-- ===== src/Web/Hooks/Areas.antt =====
-- The hooks of areas, apartments and supplies. `number_text` is `String(n)`.
use Prim.Native.String.{◌++◌ as join}
use ironman.Prelude.{ℤ, String, Option, none, some, List, [], ◌∷◌, ◌++◌, leb, nat_eq, if◌then◌else◌}
use ironman.Json.{Json}
use ironman.Booking.{text_length, trim}
use ironman.Web.Endpoints.Areas.{
  list_clusters, create_cluster, update_cluster, list_apartments, get_apartment, create_apartment,
  update_apartment, create_apartment_contact, update_apartment_contact, delete_apartment_contact,
  check_serviceability, search_apartments, list_stock_items, create_stock_item, update_stock_item,
  list_stock_levels, list_stock_movements, list_reorder_alerts, receive_stock, adjust_stock,
  list_consumption_rules, replace_consumption_rules,
}
use ironman.Web.Hooks.{
  text, QueryOptions, success, Effect, invalidate, toast, Mutation, error_toast, id_part,
  when_given, params_part, or_no_params,
}
use ironman.Web.Hooks.Orders.{Params}

-- What the hooks read of a cluster, an apartment, a stock item and a movement of stock.
pub record Named : Type 0 where
  pub name : String

pub record Apartment : Type 0 where
  pub id : String
  pub name : String

pub record StockMovement : Type 0 where
  pub sku : String
  pub delta_qty : ℤ

-- Queries.
abbrev pub use_clusters : Option String → QueryOptions
use_clusters hub = record {
  query_key = text "clusters" ∷ id_part hub ∷ [];
  call = some (list_clusters hub);
}

-- `enabled: pincode.length === 6`.
abbrev pub use_serviceability : String → QueryOptions
use_serviceability pincode = record {
  query_key = text "serviceability" ∷ text pincode ∷ [];
  call = if nat_eq (text_length pincode) 6 then some (check_serviceability pincode) else none;
}

abbrev pub use_apartment_search : String → Option String → QueryOptions
use_apartment_search q cluster = record {
  query_key = text "apartment-search" ∷ text q ∷ id_part cluster ∷ [];
  call = if leb 2 (text_length (trim q)) then some (search_apartments q cluster) else none;
}

abbrev pub use_apartments : Params → QueryOptions
use_apartments ps = record {
  query_key = text "apartments" ∷ params_part ps ∷ [];
  call = some (list_apartments (or_no_params ps));
}

abbrev pub use_apartment : Option String → QueryOptions
use_apartment id = record {
  query_key = text "apartment" ∷ id_part id ∷ [];
  call = when_given get_apartment id;
}

abbrev pub use_stock_items : Params → QueryOptions
use_stock_items ps = record {
  query_key = text "stock-items" ∷ params_part ps ∷ [];
  call = some (list_stock_items (or_no_params ps));
}

abbrev pub use_stock_levels : Option String → QueryOptions
use_stock_levels hub = record {
  query_key = text "stock-levels" ∷ id_part hub ∷ [];
  call = some (list_stock_levels hub);
}

abbrev pub use_reorder_alerts : QueryOptions
use_reorder_alerts = record {
  query_key = text "reorder-alerts" ∷ [];
  call = some list_reorder_alerts;
}

abbrev pub use_stock_movements : Params → QueryOptions
use_stock_movements ps = record {
  query_key = text "stock-movements" ∷ params_part ps ∷ [];
  call = some (list_stock_movements (or_no_params ps));
}

abbrev pub use_consumption_rules : QueryOptions
use_consumption_rules = record {
  query_key = text "consumption-rules" ∷ [];
  call = some list_consumption_rules;
}

-- Areas.
abbrev pub use_create_cluster : Mutation Json Named
use_create_cluster = record {
  mutation_fn = create_cluster;
  on_success = λ cluster v.
      invalidate ("clusters" ∷ [])
      ∷ toast (success (join "Cluster \"" (join cluster.name "\" created")))
      ∷ [];
  on_error = error_toast "Couldn't create the cluster.";
}

abbrev pub use_update_cluster : Mutation (String × Json) Named
use_update_cluster = record {
  mutation_fn = λ (id, changes). update_cluster id changes;
  on_success = λ cluster v. invalidate ("clusters" ∷ []) ∷ toast (success "Cluster updated") ∷ [];
  on_error = error_toast "Couldn't update the cluster.";
}

abbrev pub use_create_apartment : Mutation Json Apartment
use_create_apartment = record {
  mutation_fn = create_apartment;
  on_success = λ apartment v.
      invalidate ("apartments" ∷ []) ∷ toast (success (join apartment.name " added")) ∷ [];
  on_error = error_toast "Couldn't create the apartment.";
}

abbrev pub use_update_apartment : Mutation (String × Json) Apartment
use_update_apartment = record {
  mutation_fn = λ (id, changes). update_apartment id changes;
  on_success = λ apartment v.
      invalidate ("apartments" ∷ [])
      ∷ invalidate ("apartment" ∷ apartment.id ∷ [])
      ∷ toast (success (join apartment.name " updated"))
      ∷ [];
  on_error = error_toast "Couldn't update the apartment.";
}

abbrev pub invalidate_apartment_contacts : String → List Effect
invalidate_apartment_contacts id =
    invalidate ("apartments" ∷ []) ∷ invalidate ("apartment" ∷ id ∷ []) ∷ []

abbrev pub use_create_apartment_contact : String → Mutation Json Json
use_create_apartment_contact apartment = record {
  mutation_fn = create_apartment_contact;
  on_success =
      λ d v. invalidate_apartment_contacts apartment ++ toast (success "Contact added") ∷ [];
  on_error = error_toast "Couldn't add the contact.";
}

abbrev pub use_update_apartment_contact : String → Mutation (String × Json) Json
use_update_apartment_contact apartment = record {
  mutation_fn = λ (id, changes). update_apartment_contact id changes;
  on_success =
      λ d v. invalidate_apartment_contacts apartment ++ toast (success "Contact updated") ∷ [];
  on_error = error_toast "Couldn't update the contact.";
}

abbrev pub use_delete_apartment_contact : String → Mutation String Json
use_delete_apartment_contact apartment = record {
  mutation_fn = delete_apartment_contact;
  on_success =
      λ d v. invalidate_apartment_contacts apartment ++ toast (success "Contact removed") ∷ [];
  on_error = error_toast "Couldn't remove the contact.";
}

-- Supplies.
abbrev pub use_create_stock_item : Mutation Json Named
use_create_stock_item = record {
  mutation_fn = create_stock_item;
  on_success = λ item v.
      invalidate ("stock-items" ∷ [])
      ∷ invalidate ("stock-levels" ∷ [])
      ∷ toast (success (join item.name " added"))
      ∷ [];
  on_error = error_toast "Couldn't create the stock item.";
}

abbrev pub use_update_stock_item : Mutation (String × Json) Named
use_update_stock_item = record {
  mutation_fn = λ (id, changes). update_stock_item id changes;
  on_success = λ item v.
      invalidate ("stock-items" ∷ [])
      ∷ invalidate ("stock-levels" ∷ [])
      ∷ toast (success (join item.name " updated"))
      ∷ [];
  on_error = error_toast "Couldn't update the stock item.";
}

abbrev pub invalidate_stock : List Effect
invalidate_stock =
    invalidate ("stock-levels" ∷ [])
    ∷ invalidate ("reorder-alerts" ∷ [])
    ∷ invalidate ("stock-movements" ∷ [])
    ∷ []

abbrev pub use_receive_stock : (ℤ → String) → Mutation Json StockMovement
use_receive_stock number_text = record {
  mutation_fn = receive_stock;
  on_success = λ movement v.
      invalidate_stock
      ++ toast (
          success
            (join "Received " (join (number_text movement.delta_qty) (join " " movement.sku))))
        ∷ [];
  on_error = error_toast "Couldn't record the receipt.";
}

abbrev pub use_adjust_stock : (ℤ → String) → Mutation Json StockMovement
use_adjust_stock number_text = record {
  mutation_fn = adjust_stock;
  on_success = λ movement v.
      invalidate_stock
      ++ toast (success (join movement.sku (join " adjusted by " (number_text movement.delta_qty))))
        ∷ [];
  on_error = error_toast "Couldn't record the adjustment.";
}

abbrev pub use_replace_consumption_rules : Mutation Json Json
use_replace_consumption_rules = record {
  mutation_fn = replace_consumption_rules;
  on_success =
      λ d v. invalidate ("consumption-rules" ∷ []) ∷ toast (success "Consumption rules saved") ∷ [];
  on_error = error_toast "Couldn't save the consumption rules.";
}
