-- ===== src/Web/Middleware/Routes.antt =====
-- Answers of apps/web/middleware.ts one after another.
use Prim.Native.String.{◌++◌ as join}
use text.Mathlib.Text.{starts_with}
use text.Mathlib.TextPositions.{starts_with-append}
use ironman.Prelude.{◌≡◌, refl, ◌⊎◌, inl, inr, String, ◌||◌, some, subst, ◌≢◌, Bool-cases, ◌==◌}
use ironman.Web.Middleware.{
  PageRequest, Answer, next, redirect, middleware, to_canonical_domain, console_host, public_host,
  vercel_production_host, passes_through, is_field, host_of,
}

-- The hosts that an answer redirects to are the two real ones.
abbrev RealHost : Answer → Type 0
RealHost (redirect host rest) = (host ≡ console_host) ⊎ (host ≡ public_host)
RealHost _ = Unit

abbrev NoRedirect : Answer → Type 0
NoRedirect (redirect host rest) = ⊥
NoRedirect _ = Unit

to_canonical_domain-RealHost : (r : PageRequest) → RealHost (to_canonical_domain r)
unfolding to_canonical_domain
to_canonical_domain-RealHost r =
    elim (Bool-cases (starts_with r.pathname "/api" || starts_with r.pathname "/_next")) [
      | inl e ↦ rw e tt
      | inr e ↦ elim (Bool-cases (starts_with r.pathname "/console" || is_field r.pathname)) [
        | inl f ↦ rw e (rw f (inl refl))
        | inr f ↦ rw e (rw f (inr refl))
      ]
    ]

middleware-RealHost : (r : PageRequest) → RealHost (middleware r)
unfolding middleware
middleware-RealHost r = elim (Bool-cases (host_of r.host == vercel_production_host)) [
  | inl e ↦ rw e (to_canonical_domain-RealHost r)
  | inr e ↦ elim (Bool-cases (host_of r.host == console_host)) [
    | inr f ↦ rw e (rw f tt)
    | inl f ↦ elim (Bool-cases (passes_through r.pathname)) [
      | inl g ↦ rw e (rw f (rw g tt))
      | inr g ↦ rw e (rw f (rw g tt))
    ]
  ]
]

real_host-NoRedirect :
    (host pathname search : String)
    → (host ≡ console_host) ⊎ (host ≡ public_host)
    → NoRedirect (middleware (record { host = some host; pathname = pathname; search = search }))
unfolding middleware
real_host-NoRedirect host pathname search (inr e) = rw e tt
real_host-NoRedirect host pathname search (inl e) = elim (Bool-cases (passes_through pathname)) [
  | inl g ↦ rw e (rw g tt)
  | inr g ↦ rw e (rw g tt)
]

-- A redirect is not followed by another one, whatever path is asked for on its host.
pub redirects_once :
    (r : PageRequest) (host rest : String)
    → middleware r ≡ redirect host rest
    → (pathname search host' rest' : String)
    → middleware (record { host = some host; pathname = pathname; search = search })
      ≢ redirect host' rest'
redirects_once r host rest e pathname search host' rest' f =
    subst NoRedirect f
      (real_host-NoRedirect host pathname search (subst RealHost e (middleware-RealHost r)))

-- On the console's host, the path that a request is rewritten to is served as it stands.
pub rewritten_served :
    (pathname search : String)
    → middleware
        (record { host = some console_host; pathname = join "/console" pathname; search = search })
      ≡ next
unfolding middleware
rewritten_served pathname search = rw (starts_with-append "/console" pathname) refl
