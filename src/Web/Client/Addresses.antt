-- ===== src/Web/Client/Addresses.antt =====
-- Where the console's requests go.
use Prim.Native.String.{◌++◌ as join}
use text.Mathlib.Text.{starts_with}
use text.Mathlib.TextLemmas.{nil-append, cons-append}
use text.Mathlib.TextPositions.{starts_with-append}
use ironman.Prelude.{◌≡◌, refl, ap, ◌∙◌, String, false}
use ironman.Web.Client.{Deployment, api_origin, api_base_url, after_prefix, build_url}

after_prefix-append : (p s : String) → after_prefix p (join p s) ≡ s
unfolding after_prefix
after_prefix-append String.[] s = nil-append s
after_prefix-append (String.◌∷◌ c p) s =
    ap (after_prefix (String.◌∷◌ c p)) (cons-append c p s) ∙ after_prefix-append p s

-- The address of a next page, which the server writes with its own origin, is asked for under the base
-- address of the deployment, like the path that follows the origin.
pub build_url-next_page :
    (d : Deployment) (path : String)
    → starts_with path "http" ≡ false
    → build_url d (join (api_origin d) path) ≡ join (api_base_url d) path
unfolding build_url
build_url-next_page d path plain =
    rw (starts_with-append (api_origin d) path)
      (rw (after_prefix-append (api_origin d) path) (rw plain refl))
