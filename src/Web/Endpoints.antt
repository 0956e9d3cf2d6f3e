-- ===== src/Web/Endpoints.antt =====
-- apps/web/lib/api/endpoints.ts: the requests of the console's screens, as the path and the options that
-- `apiFetch` (Web/Client) is called with. A value that a screen passes on unread is JSON here; `fresh`
-- is the key that `newIdempotencyKey()` returns. A token that no hook passes is left out.
pub mod Operations
pub mod Money
pub mod Areas
pub mod Growth
use Prim.Native.String.{◌++◌ as join}
use ironman.Prelude.{String, Option, none, some, List, []}
use ironman.Json.{Json, JsonFields, end, field}
use ironman.Api.{Method, get, post, RequestBody, no_body, json_body, Param}
use ironman.Web.Client.{FetchOptions}

pub record Call : Type 0 where
  pub path : String
  pub options : FetchOptions

abbrev pub read_call : String → List (String × Param) → Call
read_call path params = record {
  path = path;
  options = record {
    method = get;
    body = no_body;
    params = params;
    idempotency_key = none;
    access_token = none;
  };
}

abbrev pub write_call : Method → String → RequestBody → Call
write_call method path body = record {
  path = path;
  options = record {
    method = method;
    body = body;
    params = [];
    idempotency_key = none;
    access_token = none;
  };
}

-- The same request under an idempotency key, and for the bearer of a token.
abbrev pub keyed : String → Option String → Call → Call
keyed key token c = record c {
  options = record c.options { idempotency_key = some key; access_token = token };
}

-- `/<collection>/<id>/<tail>`.
abbrev pub at_path : String → String → String → String
at_path collection id tail = join collection (join id tail)

-- `JSON.stringify` leaves an `undefined` member out.
abbrev pub optional : String → Option Json → JsonFields → JsonFields
optional name none rest = rest
optional name (some value) rest = field name value rest

-- `options?.idempotencyKey ?? newIdempotencyKey()`.
abbrev pub given_key : String → Option String → String
given_key fresh none = fresh
given_key fresh (some key) = key
