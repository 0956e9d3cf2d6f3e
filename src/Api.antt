-- ===== src/Api.antt =====
-- packages/api-client/src/index.ts: the one call site of every request of the two phone apps. `S` is
-- the state of everything outside the client: the token store, the network and the rest.
pub mod Requests
pub mod Session
pub mod Flight
mod Tests
use Prim.Native.String.{◌++◌ as join}
use text.Mathlib.Text.{starts_with}
use ironman.Prelude.{
  ℕ, String, Bool, true, false, not, ◌&&◌, ◌||◌, Option, none, some, List, [], ◌∷◌, ◌++◌, leb, ltb,
  nat_eq, if◌then◌else◌, ◌==◌,
}
use ironman.Json.{Json}
use ironman.Exec.{
  ApiError, Thrown, api_error, other_error, Result, ok, err, Exec, pure, throw, recover, try_catch,
  ◌>>=◌, ◌>>◌,
}

pub data Method : Type 0 where
  get post patch put delete : Method

-- A `FormData` is sent as it is, anything else as JSON.
pub data RequestBody : Type 0 where
  no_body form_data : RequestBody
  json_body : Json → RequestBody

-- A query parameter: `undefined`, `null`, or what `String(value)` makes of it.
pub data Param : Type 0 where
  undefined null : Param
  given : String → Param

pub record RequestOptions : Type 0 where
  pub method : Method
  pub body : RequestBody
  pub params : List (String × Param)
  pub idempotency_key : Option String

-- What `fetch` is given. The URL's own encoding is the runtime's.
pub record HttpRequest : Type 0 where
  pub url : String
  pub query : List (String × String)
  pub method : Method
  pub headers : List (String × String)
  pub body : RequestBody

-- A body that was read: nothing, an error envelope, a token pair, or other JSON.
pub data Body : Type 0 where
  null_body : Body
  envelope : ApiError → Body
  token_pair : String → Option String → Body
  other_body : Json → Body

pub record Response : Type 0 where
  pub status : ℕ
  pub is_json : Bool
  pub json : Result Body

pub record ApiClientConfig (S : Type 0) : Type 0 where
  pub base_url : String
  pub get_access_token : Exec S (Option String)
  pub refresh_access_token : Option (Exec S (Option String))
  pub on_unauthorized : Option (Exec S (Unit {0}))
  pub do_fetch : HttpRequest → Exec S Response

abbrev pub is_ok : Response → Bool
is_ok r = leb 200 r.status && ltb r.status 300

-- `searchParams.set`: the last value of a name counts, in the first one's place.
unfoldable pub set_param : List (String × String) → String → String → List (String × String)
set_param [] k v = (k, v) ∷ []
set_param ((j, w) ∷ q) k v =
    let rest = set_param q k v in if j == k then (k, v) ∷ q else (j, w) ∷ rest

abbrev pub add_param : List (String × String) → String → Param → List (String × String)
add_param q k undefined = q
add_param q k null = q
add_param q k (given v) = if v == "" then q else set_param q k v

-- `buildUrl`: the address, and the parameters that have a value.
unfoldable pub full_url : String → String → String
full_url base_url path = if starts_with path "http" then path else join base_url path

unfoldable pub build_query : List (String × String) → List (String × Param) → List (String × String)
unfolding set_param
build_query q [] = q
build_query q ((k, v) ∷ params) = build_query (add_param q k v) params

abbrev pub content_type : RequestBody → List (String × String)
content_type (json_body j) = ("Content-Type", "application/json") ∷ []
content_type _ = []

-- `if (value) headers[name] = …`: an empty text counts as none.
abbrev pub truthy : Option String → Option String
truthy none = none
truthy (some s) = if s == "" then none else some s

abbrev pub header : String → String → Option String → List (String × String)
header name before none = []
header name before (some s) = (name, join before s) ∷ []

unfoldable pub build_request : String → String → RequestOptions → Option String → HttpRequest
unfolding full_url build_query
build_request base_url path options token = record {
  url = full_url base_url path;
  query = build_query [] options.params;
  method = options.method;
  headers =
      ("Accept", "application/json")
      ∷ (content_type options.body
          ++ (header "Idempotency-Key" "" (truthy options.idempotency_key)
              ++ header "Authorization" "Bearer " (truthy token)));
  body = options.body;
}

-- The error of a response with no envelope.
abbrev pub unknown_error : ℕ → ApiError
unknown_error status = record {
  status = status;
  code = "unknown_error";
  message = "Something went wrong. Please try again.";
  detail = none;
  field_errors = [];
  request_id = "";
  retryable = leb 500 status;
}

-- `new ApiError(response.status, data)`, or the error with no envelope.
abbrev pub error_of : ℕ → Body → ApiError
error_of status (envelope e) = record e { status = status }
error_of status _ = unknown_error status

abbrev pub judge : Response → Result Body → Result Body
judge response (err t) = err t
judge response (ok body) =
    if is_ok response then ok body else err (api_error (error_of response.status body))

-- From `if (response.status === 204)` on.
unfoldable pub classify : Response → Result Body
classify response =
    if nat_eq response.status 204
    then ok null_body
    else judge response (if response.is_json then response.json else ok null_body)

module _ {S : Type 0} (config : ApiClientConfig S) where
  abbrev pub signal : Option (Exec S (Unit {0})) → Exec S (Unit {0})
  signal none = pure tt
  signal (some m) = m

  -- `onUnauthorized?.()`, and then the response is judged.
  give_up : Response → Exec S Body
  give_up response s = (classify response, (signal config.on_unauthorized s).1)

  -- What `refreshOnce` came to: a token to replay with, a refused session, or no attempt.
  after_refresh : Response → Exec S Body → Result (Option String) → Exec S Body
  unfolding give_up
  after_refresh response replay (err t) s = (classify response, s)
  after_refresh response replay (ok none) s = give_up response s
  after_refresh response replay (ok (some token)) s =
      if token == "" then (classify response, s) else replay s

  -- A 401 for a request that carried a token.
  on_expired : Option (Exec S (Option String)) → Response → Exec S Body → Exec S Body
  unfolding give_up after_refresh
  on_expired none response replay s = give_up response s
  on_expired (some refresh) response replay s =
      let (r, s') = refresh s in after_refresh response replay r s'

  handle : Option (Exec S (Option String)) → Exec S Body → Option String → Response → Exec S Body
  unfolding on_expired
  handle refresh replay none response s = (classify response, s)
  handle refresh replay (some token) response s =
      if nat_eq response.status 401
      then on_expired refresh response replay s
      else (classify response, s)

  -- One round of `request`; `refresh` is what this round may still use.
  unfoldable pub round :
      Option (Exec S (Option String)) → Exec S Body → String → RequestOptions → Exec S Body
  unfolding handle
  round refresh replay path options = do
    token ← config.get_access_token
    response ← config.do_fetch (build_request config.base_url path options token)
    handle refresh replay (truthy token) response

  -- `request(path, options, true)`: `!retried` fails, so a 401 is not renewed again.
  unfoldable pub retried : String → RequestOptions → Exec S Body
  retried path options = round none (throw other_error) path options

  -- `request(path, options)`.
  unfoldable pub request : String → RequestOptions → Exec S Body
  unfolding round retried
  request path options = round config.refresh_access_token (retried path options) path options

  abbrev pub get_json : String → List (String × Param) → Exec S Body
  get_json path params =
      request path
        (record { method = get; body = no_body; params = params; idempotency_key = none })

  -- `{ ...options, method, body }`.
  abbrev pub send_json : Method → String → RequestBody → RequestOptions → Exec S Body
  send_json method path body options =
      request path (record options { method = method; body = body })

  abbrev pub post_json : String → RequestBody → RequestOptions → Exec S Body
  post_json = send_json post

  abbrev pub patch_json : String → RequestBody → RequestOptions → Exec S Body
  patch_json = send_json patch

  abbrev pub put_json : String → RequestBody → RequestOptions → Exec S Body
  put_json = send_json put

  abbrev pub delete_at : String → RequestOptions → Exec S Body
  delete_at path options = request path (record options { method = delete })
