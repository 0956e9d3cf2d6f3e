-- ===== src/Web/Middleware.antt =====
-- apps/web/middleware.ts: which host serves which path. The file's `matcher`, which keeps static
-- files away, stands before it.
pub mod Routes
use Prim.Native.String.{◌++◌ as join}
use text.Mathlib.Text.{starts_with}
use ironman.Prelude.{String, Bool, true, false, ◌||◌, Option, none, some, if◌then◌else◌, ◌==◌}

abbrev pub console_host : String
console_host = "console.ironmanindia.co"

abbrev pub public_host : String
public_host = "ironmanindia.co"

abbrev pub vercel_production_host : String
vercel_production_host = "ironman-console.vercel.app"

pub record PageRequest : Type 0 where
  pub host : Option String
  pub pathname : String
  pub search : String

-- `NextResponse.next()`, `.rewrite(url)` with its path, and `.redirect(url, 308)` with its host and the rest.
pub data Answer : Type 0 where
  next : Answer
  rewrite : String → Answer
  redirect : String → String → Answer

-- `text.includes(".")`.
unfoldable pub has_dot : String → Bool
has_dot String.[] = false
has_dot (String.◌∷◌ c s) = String.◌∷◌ c "" == "." || has_dot s

abbrev pub is_field : String → Bool
is_field pathname = pathname == "/field" || starts_with pathname "/field/"

abbrev pub passes_through : String → Bool
passes_through pathname =
    starts_with pathname "/console"
    || (is_field pathname
        || (starts_with pathname "/api" || (starts_with pathname "/_next" || has_dot pathname)))

unfoldable pub to_canonical_domain : PageRequest → Answer
to_canonical_domain r =
    if starts_with r.pathname "/api" || starts_with r.pathname "/_next"
    then next
    else redirect
        (if starts_with r.pathname "/console" || is_field r.pathname
          then console_host
          else public_host)
        (join r.pathname r.search)

abbrev pub host_of : Option String → String
host_of none = ""
host_of (some host) = host

unfoldable pub middleware : PageRequest → Answer
unfolding to_canonical_domain has_dot
middleware r =
    if host_of r.host == vercel_production_host
    then to_canonical_domain r
    else if host_of r.host == console_host
    then (if passes_through r.pathname then next else rewrite (join "/console" r.pathname))
    else next
