-- ===== src/Api/Tests.antt =====
-- A client on a phone whose token ran out: what its requests come to.
use ironman.Prelude.{
  Bool, ◌⊎◌, inl, eq_iff, ℕ, String, ◌≡◌, refl, true, Option, none, some, [], arith, if◌then◌else◌,
  ◌≢◌, ◌+◌, ◌==◌,
}
use ironman.Exec.{Thrown, other_error, ok, err, Exec, ◌>>=◌}
use ironman.Api.{
  get, no_body, RequestOptions, HttpRequest, Response, null_body, token_pair, ApiClientConfig,
  classify, truthy, request, round, retried, build_request, build_query, full_url, set_param,
}
use ironman.Api.Session.{App, app_client, sign_out as app_sign_out}
use ironman.Api.Session.Renewal.{
  no_items, offline_keeps_session, refusal_signs_out, renewal_replays,
}
use ironman.Api.Requests.{request_on_401}

-- The stored token, and how often the user was signed out.
abbrev Phone : Type 0
Phone = Option String × ℕ

abbrev read_token : Exec Phone (Option String)
read_token s = (ok s.0, s)

-- The server renews the token.
abbrev renew : Exec Phone (Option String)
renew s = (ok (some "new"), (some "new", s.1))

-- `onUnauthorized`.
abbrev sign_out : Exec Phone (Unit {0})
sign_out s = (ok tt, (none, s.1 + 1))

abbrev expired : Response
expired = record { status = 401; is_json = true; json = ok null_body }

abbrev answered : Response
answered = record { status = 200; is_json = true; json = ok (token_pair "a" none) }

-- The server takes only the token it renewed last.
abbrev serve : HttpRequest → Exec Phone Response
serve r s =
    (ok (elim s.0 [ none ↦ expired | some t ↦ if t == "new" then answered else expired ]), s)

abbrev client : ApiClientConfig Phone
client = record {
  base_url = "https://api";
  get_access_token = read_token;
  refresh_access_token = some renew;
  on_unauthorized = some sign_out;
  do_fetch = serve;
}

abbrev plain : RequestOptions
plain = record { method = get; body = no_body; params = []; idempotency_key = none }

-- A renewed token replays the request.
renewed_run :
    request client "/me" plain (some "old", 0) ≡ (ok (token_pair "a" none), (some "new", 0))
unfolding request round retried ◌>>=◌ build_request build_query full_url set_param classify
renewed_run = refl

request_on_401_example :
    ((new : String) (token2 : Option String) (response2 : Response) (s4 s5 : Phone)
      → new ≢ ""
      → renew (some "old", 0) ≡ (ok (some new), (some "new", 0))
      → read_token (some "new", 0) ≡ (ok token2, s4)
      → serve (build_request "https://api" "/me" plain token2) s4 ≡ (ok response2, s5)
      → ((truthy token2 ≡ none) ⊎ (response2.status ≢ 401)
          → request client "/me" plain (some "old", 0) ≡ (classify response2, s5))
        × (truthy token2 ≢ none
            → response2.status ≡ 401
            → request client "/me" plain (some "old", 0) ≡ (classify response2, (none, s5.1 + 1))))
    × (renew (some "old", 0) ≡ (ok none, (some "new", 0))
        → request client "/me" plain (some "old", 0) ≡ (classify expired, (none, 1)))
    × ((t : Thrown)
        → renew (some "old", 0) ≡ (err t, (some "new", 0))
        → request client "/me" plain (some "old", 0) ≡ (classify expired, (some "new", 0)))
request_on_401_example =
    request_on_401 client "/me" plain (some "old") expired (some "old", 0) (some "old", 0)
      (some "old", 0) (refl, refl) (ground arith) refl renew (some "new", 0) refl

-- A rider's phone with a stored session, whose writes all work.
abbrev works : Unit {0} → Bool × Unit {0}
works w = (true, w)

abbrev signed_in : App (Unit {0})
signed_in = record {
  items = record { access_token = some "old"; refresh_token = some "r"; user = some "u" };
  notified = 0;
  world = tt;
}

abbrev always_expired : HttpRequest → Exec (App (Unit {0})) Response
always_expired r s = (ok expired, s)

abbrev no_network : String → Exec (App (Unit {0})) Response
no_network r s = (err other_error, s)

abbrev refusing : String → Exec (App (Unit {0})) Response
refusing r s = (ok expired, s)

abbrev renewed : Response
renewed = record { status = 200; is_json = true; json = ok (token_pair "new" none) }

abbrev renewing : String → Exec (App (Unit {0})) Response
renewing r s = (ok renewed, s)

offline_keeps_session_example :
    request (app_client works no_network "https://api" always_expired) "/jobs" plain signed_in
    ≡ (classify expired, signed_in)
offline_keeps_session_example =
    offline_keeps_session works no_network "https://api" always_expired "/jobs" plain signed_in
      signed_in signed_in "old" "r" expired (err other_error) (refl, refl, refl, refl, refl)
      (inl (other_error, refl))

refusal_signs_out_example :
    (e : App (Unit {0})) × (request
        (app_client works refusing "https://api" always_expired)
        "/jobs"
        plain
        signed_in
      ≡ (classify expired, e))
    × (e.items ≡ no_items)
    × (e.notified ≡ 1)
refusal_signs_out_example =
    refusal_signs_out works refusing "https://api" always_expired "/jobs" plain signed_in signed_in
      signed_in "old" "r" expired (ok expired) (refl, refl, refl, refl, refl) (λ w. refl) expired
      refl (omega arith) refl

-- The server takes only the new token, which the phone has once it is renewed.
abbrev takes_new : HttpRequest → Exec (App (Unit {0})) Response
takes_new r s = (
  ok (elim s.items.access_token [
    | none ↦ expired
    | some t ↦ if t == "new" then answered else expired
  ]),
  s,
)

renewal_replays_example :
    (e : App (Unit {0})) × (e.items
      ≡ record { access_token = some "new"; refresh_token = some "r"; user = some "u" })
    × (e.notified ≡ 0)
    × ((response2 : Response) (s5 : App (Unit {0}))
        → takes_new (build_request "https://api" "/jobs" plain (some "new")) e ≡ (ok response2, s5)
        → (response2.status ≢ 401
            → request (app_client works renewing "https://api" takes_new) "/jobs" plain signed_in
              ≡ (classify response2, s5))
          × (response2.status ≡ 401
              → request (app_client works renewing "https://api" takes_new) "/jobs" plain signed_in
                ≡ (classify response2, (app_sign_out works s5).1)))
renewal_replays_example =
    renewal_replays works renewing "https://api" takes_new "/jobs" plain signed_in signed_in
      signed_in "old" "r" expired (ok renewed) (refl, refl, refl, refl, refl) (λ w. refl) renewed
      "new" none refl refl refl (ground (arith, eq_iff "new" ""))
