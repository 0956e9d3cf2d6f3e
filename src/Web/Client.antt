-- ===== src/Web/Client.antt =====
-- apps/web/lib/api/client.ts: the console's own client, with cookies in place of a stored token. The
-- parameters are the address that the build was given, whether a browser runs it, the cookie's token
-- and `fetch`.
pub mod Addresses
use Prim.Native.String.{◌++◌ as join}
use text.Mathlib.Text.{starts_with}
use ironman.Prelude.{
  String, Bool, true, false, ◌&&◌, Option, none, some, List, [], ◌∷◌, ◌++◌, if◌then◌else◌, ◌==◌,
}
use ironman.Exec.{Result, Exec, ◌>>=◌}
use ironman.Api.{
  Method, get, RequestBody, Param, HttpRequest, Response, Body, build_query, content_type, truthy,
  header, classify,
}

-- `process.env.NEXT_PUBLIC_API_BASE_URL`, and `typeof window !== "undefined"`.
pub record Deployment : Type 0 where
  pub public_url : Option String
  pub in_browser : Bool

pub record FetchOptions : Type 0 where
  pub method : Method
  pub body : RequestBody
  pub params : List (String × Param)
  pub idempotency_key : Option String
  pub access_token : Option String

abbrev pub or_local : Option String → String
or_local none = "http://localhost:8000/api/v1"
or_local (some url) = url

abbrev pub api_origin : Deployment → String
api_origin d = or_local d.public_url

abbrev pub is_set : Option String → Bool
is_set none = false
is_set (some url) = true

abbrev pub api_base_url : Deployment → String
api_base_url d = if d.in_browser && is_set (truthy d.public_url) then "/api/v1" else api_origin d

-- `text.slice(prefix.length)`, of a text that begins with the prefix.
unfoldable pub after_prefix : String → String → String
after_prefix String.[] s = s
after_prefix (String.◌∷◌ c p) String.[] = ""
after_prefix (String.◌∷◌ c p) (String.◌∷◌ d s) = after_prefix p s

abbrev pub normalized_path : Deployment → String → String
normalized_path d path =
    if starts_with path (api_origin d) then after_prefix (api_origin d) path else path

abbrev pub absolute : Deployment → String → String
absolute d path = if starts_with path "http" then path else join (api_base_url d) path

-- `buildUrl`, without the parameters.
unfoldable pub build_url : Deployment → String → String
unfolding after_prefix
build_url d path = absolute d (normalized_path d path)

abbrev pub is_get : Method → Bool
is_get get = true
is_get _ = false

-- A token is sent as such; without one, a write carries the cookie's token.
abbrev pub credentials : Option String → Method → Option String → List (String × String)
credentials (some token) method csrf = header "Authorization" "Bearer " (some token)
credentials none method csrf = if is_get method then [] else header "X-CSRFToken" "" (truthy csrf)

unfoldable pub api_request : Deployment → Option String → String → FetchOptions → HttpRequest
unfolding build_url build_query
api_request d csrf path options = record {
  url = build_url d path;
  query = build_query [] options.params;
  method = options.method;
  headers =
      ("Accept", "application/json")
      ∷ (content_type options.body
          ++ (header "Idempotency-Key" "" (truthy options.idempotency_key)
              ++ credentials (truthy options.access_token) options.method csrf));
  body = options.body;
}

module _ {S : Type 0} (get_csrf_token : S → Option String)
    (do_fetch : HttpRequest → Exec S Response) where
  -- From the status on the code is the phone client's.
  abbrev pub judge_answer : Response → Exec S Body
  judge_answer response s = (classify response, s)

  unfoldable pub api_fetch : Deployment → String → FetchOptions → Exec S Body
  unfolding api_request ◌>>=◌
  api_fetch d path options s =
      (do_fetch (api_request d (get_csrf_token s) path options) >>= judge_answer) s
