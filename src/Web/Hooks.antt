-- ===== src/Web/Hooks.antt =====
-- apps/web/lib/api/hooks.ts: what a screen's query asks for and under which key, and what a mutation
-- sends and what its callbacks tell the query library and the messages, in their order. When the library
-- makes the calls is its own.
pub mod Orders
pub mod Custody
pub mod Money
pub mod Areas
pub mod Growth
pub mod Sync
pub mod Fresh
mod Tests
use Prim.Native.String.{◌++◌ as join}
use ironman.Prelude.{
  String, Bool, true, false, ◌||◌, Option, none, some, List, [], ◌∷◌, ◌++◌, map, foldl,
}
use ironman.Exec.{ApiError, Thrown, api_error, other_error, Result, ok, err, Exec}
use ironman.Api.{Param, truthy}
use ironman.Web.Endpoints.{Call}

-- A part of a query key: a text, `undefined`, or the parameters of a list.
pub data KeyPart : Type 0 where
  text : String → KeyPart
  missing : KeyPart
  params : List (String × Param) → KeyPart

abbrev pub Key : Type 0
Key = List KeyPart

-- What `useQuery` is given: `call` is made only where `enabled`.
pub record QueryOptions : Type 0 where
  pub query_key : Key
  pub call : Option Call

pub data Toast : Type 0 where
  success warning : String → Toast
  error : String → Option String → Toast

pub data Effect : Type 0 where
  invalidate : List String → Effect
  toast : Toast → Effect

pub record Mutation (V D : Type 0) : Type 0 where
  pub mutation_fn : V → Call
  pub on_success : D → V → List Effect
  pub on_error : Thrown → List Effect

abbrev pub reference_line : Option String → Option String
reference_line none = none
reference_line (some id) = some (join "Ref: " id)

-- `errorToast`.
abbrev pub error_toast : String → Thrown → List Effect
error_toast fallback (api_error e) =
    toast (error e.message (reference_line (truthy (some e.request_id)))) ∷ []
error_toast fallback other_error = toast (error fallback none) ∷ []

-- `enabled: !!id`, and `["name", id]`.
abbrev pub id_part : Option String → KeyPart
id_part none = missing
id_part (some id) = text id

abbrev pub map_call : (String → Call) → Option String → Option Call
map_call call none = none
map_call call (some id) = some (call id)

abbrev pub when_given : (String → Call) → Option String → Option Call
when_given call id = map_call call (truthy id)

abbrev pub params_part : Option (List (String × Param)) → KeyPart
params_part none = missing
params_part (some ps) = params ps

abbrev pub or_no_params : Option (List (String × Param)) → List (String × Param)
or_no_params none = []
or_no_params (some ps) = ps
