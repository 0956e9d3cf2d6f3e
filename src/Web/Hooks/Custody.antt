-- ===== src/Web/Hooks/Custody.antt =====
-- The hooks of bags, the production board, exceptions and routes. `lower` is `toLowerCase` and
-- `number_text` is `String(n)`.
use Prim.Native.String.{◌++◌ as join}
use ironman.Prelude.{
  ℕ, String, Option, none, some, List, [], ◌∷◌, ◌++◌, ltb, nat_eq, if◌then◌else◌, ◌==◌,
}
use ironman.Json.{Json}
use ironman.Web.Endpoints.Operations.{
  list_bags, list_garment_lines, get_wip_summary, create_bag, print_tag, scan_bag,
  transition_garment, record_qc, list_exceptions, create_exception, update_exception, get_route_day,
  create_route_day, assign_route_day, start_job, fail_job,
}
use ironman.Web.Hooks.{
  text, QueryOptions, Toast, success, warning, Effect, invalidate, toast, Mutation, error_toast,
  id_part, when_given, params_part, or_no_params,
}
use ironman.Web.Hooks.Orders.{Params, with_first_space}

-- What the hooks read of a bag, a scan, a garment line, a route day and a job.
pub record BagDetail : Type 0 where
  pub code : String
  pub garment_count : ℕ
  pub current_stage : String

pub record ScanResult : Type 0 where
  pub bag : BagDetail
  pub moved_count : ℕ
  pub skipped_count : ℕ

pub record GarmentLine : Type 0 where
  pub stage : String

pub record RouteDayDetail : Type 0 where
  pub job_count : ℕ

pub record RouteJob : Type 0 where
  pub order_ref : String
  pub status : String

abbrev pub use_order_bags : Option String → QueryOptions
use_order_bags id = record {
  query_key = text "bags" ∷ id_part id ∷ [];
  call = when_given list_bags id;
}

abbrev pub use_garment_lines : Params → QueryOptions
use_garment_lines ps = record {
  query_key = text "garment-lines" ∷ params_part ps ∷ [];
  call = some (list_garment_lines (or_no_params ps));
}

abbrev pub use_wip_summary : Params → QueryOptions
use_wip_summary ps = record {
  query_key = text "wip-summary" ∷ params_part ps ∷ [];
  call = some (get_wip_summary (or_no_params ps));
}

abbrev pub use_exceptions : Params → QueryOptions
use_exceptions ps = record {
  query_key = text "exceptions" ∷ params_part ps ∷ [];
  call = some (list_exceptions (or_no_params ps));
}

abbrev pub use_route_day : Option String → QueryOptions
use_route_day id = record {
  query_key = text "route-day" ∷ id_part id ∷ [];
  call = when_given get_route_day id;
}

-- Bags. `invalidateBags`, and `invalidateBoard` of the production board.
abbrev pub invalidate_bags : String → List Effect
invalidate_bags order = invalidate ("bags" ∷ order ∷ []) ∷ []

abbrev pub invalidate_board : List Effect
invalidate_board = invalidate ("garment-lines" ∷ []) ∷ invalidate ("wip-summary" ∷ []) ∷ []

abbrev pub use_create_bag : (ℕ → String) → String → String → Mutation (Option Json) BagDetail
use_create_bag number_text fresh order = record {
  mutation_fn = create_bag fresh order;
  on_success = λ bag v.
      invalidate_bags order
      ++ toast (
          success (
            join "Bag " (
              join bag.code
                (join " created — " (join (number_text bag.garment_count) " garments")))))
        ∷ [];
  on_error = error_toast "Couldn't create a bag for this order.";
}

abbrev pub use_print_bag_tag : String → Mutation String BagDetail
use_print_bag_tag order = record {
  mutation_fn = print_tag;
  on_success =
      λ bag v. invalidate_bags order ++ toast (success (join "Tag ready for " bag.code)) ∷ [];
  on_error = error_toast "Couldn't print the bag tag.";
}

-- The ending of a count.
abbrev pub plural : ℕ → String
plural n = if nat_eq n 1 then "" else "s"

abbrev pub scan_toast : (ℕ → String) → (String → String) → ScanResult → Toast
scan_toast number_text lower result =
    if ltb 0 result.skipped_count
    then warning (
        join (number_text result.moved_count) (
          join " garment" (
            join (plural result.moved_count) (
              join " moved, " (
                join (number_text result.skipped_count)
                  " couldn't (already diverged — check them individually)")))))
    else success (join result.bag.code (join " moved to " (lower result.bag.current_stage)))

-- `useScanBag` on the page of an order, and `useBoardScan`.
abbrev pub use_scan_bag :
    (ℕ → String) → (String → String) → String → Mutation (String × String) ScanResult
use_scan_bag number_text lower order = record {
  mutation_fn = λ (code, to_stage). scan_bag code to_stage;
  on_success =
      λ result v. invalidate_bags order ++ toast (scan_toast number_text lower result) ∷ [];
  on_error = error_toast "Couldn't scan this bag.";
}

abbrev pub use_board_scan : (ℕ → String) → (String → String) → Mutation (String × String) ScanResult
use_board_scan number_text lower = record {
  mutation_fn = λ (code, to_stage). scan_bag code to_stage;
  on_success = λ result v. invalidate_board ++ toast (scan_toast number_text lower result) ∷ [];
  on_error = error_toast "Couldn't scan this bag.";
}

abbrev pub use_transition_garment : String → Mutation (String × String) GarmentLine
use_transition_garment order = record {
  mutation_fn = λ (id, to_stage). transition_garment id to_stage;
  on_success = λ line v. invalidate_bags order;
  on_error = error_toast "Couldn't update this garment.";
}

pub record QcCheck : Type 0 where
  pub id : String
  pub result : String
  pub reason : Option Json

abbrev pub qc_toast : GarmentLine → Toast
qc_toast line =
    success (if line.stage == "PACKED" then "Passed QC — packed" else "Failed QC — sent for rework")

abbrev pub use_record_qc : String → Mutation QcCheck GarmentLine
use_record_qc order = record {
  mutation_fn = λ v. record_qc v.id v.result v.reason;
  on_success = λ line v. invalidate_bags order ++ toast (qc_toast line) ∷ [];
  on_error = error_toast "Couldn't record the QC result.";
}

abbrev pub use_board_record_qc : Mutation QcCheck GarmentLine
use_board_record_qc = record {
  mutation_fn = λ v. record_qc v.id v.result v.reason;
  on_success = λ line v. invalidate_board ++ toast (qc_toast line) ∷ [];
  on_error = error_toast "Couldn't record the QC result.";
}

-- Exceptions, of which the hooks read nothing.
abbrev pub use_create_exception : Mutation Json Json
use_create_exception = record {
  mutation_fn = create_exception;
  on_success = λ d v.
      invalidate ("exceptions" ∷ [])
      ∷ invalidate ("orders" ∷ [])
      ∷ toast (success "Exception raised")
      ∷ [];
  on_error = error_toast "Couldn't raise the exception.";
}

abbrev pub use_update_exception : Mutation (String × Json) Json
use_update_exception = record {
  mutation_fn = λ (id, changes). update_exception id changes;
  on_success = λ d v. invalidate ("exceptions" ∷ []) ∷ toast (success "Exception updated") ∷ [];
  on_error = error_toast "Couldn't update the exception.";
}

-- Routes.
abbrev pub use_create_route_day : Mutation (String × String) RouteDayDetail
use_create_route_day = record {
  mutation_fn = λ (cluster, date). create_route_day cluster date;
  on_success = λ d v. invalidate ("route-days" ∷ []) ∷ toast (success "Route day created") ∷ [];
  on_error = error_toast "Couldn't create the route day.";
}

abbrev pub use_assign_route_day : (ℕ → String) → String → Mutation (Json × Json) RouteDayDetail
use_assign_route_day number_text route_day = record {
  mutation_fn = λ (staff, jobs). assign_route_day route_day staff jobs;
  on_success = λ day v.
      invalidate ("route-day" ∷ route_day ∷ [])
      ∷ invalidate ("route-days" ∷ [])
      ∷ invalidate ("orders" ∷ [])
      ∷ toast (
          success (
            join (number_text day.job_count)
              (join " job" (join (plural day.job_count) " assigned"))))
      ∷ [];
  on_error = error_toast "Couldn't assign that job — check the order's status.";
}

abbrev pub use_start_job : (String → String) → String → Mutation String RouteJob
use_start_job lower route_day = record {
  mutation_fn = start_job;
  on_success = λ job v.
      invalidate ("route-day" ∷ route_day ∷ [])
      ∷ toast (success (join job.order_ref (join " marked " (with_first_space (lower job.status)))))
      ∷ [];
  on_error = error_toast "Couldn't start this job.";
}

abbrev pub use_fail_job : String → Mutation (String × String) RouteJob
use_fail_job route_day = record {
  mutation_fn = λ (id, reason_code). fail_job id reason_code none;
  on_success = λ job v.
      invalidate ("route-day" ∷ route_day ∷ [])
      ∷ invalidate ("orders" ∷ [])
      ∷ toast (success (join job.order_ref " marked failed"))
      ∷ [];
  on_error = error_toast "Couldn't mark this job failed.";
}
