-- ===== src/Api/Session/Renewal.antt =====
-- What an expired token does to the session of a phone.
use ironman.Prelude.{
  ◌+◌, ◌≡◌, ◌≢◌, refl, sym, ap, ◌∙◌, ◌⊎◌, inl, inr, ◌≤◌, ◌<◌, String, Bool, true, false, Option,
  none, some, leb, arith, eq_iff,
}
use ironman.Exec.{Thrown, other_error, Result, ok, err, Exec, pure, and_then, ◌>>=◌}
use ironman.Api.{
  Response, token_pair, HttpRequest, RequestOptions, build_request, ApiClientConfig, classify,
  is_ok, truthy, request, signal,
}
use ironman.Api.Requests.{request_on_401}
use ironman.Api.Session.{
  App, Items, both, write_item, notify, set_tokens, sign_out, store_pair, on_renewal, renew_with,
  refresh_access_token, app_client, rotated,
}

abbrev pub no_items : Items
no_items = record { access_token = none; refresh_token = none; user = none }

module _ {W : Type 0} (write_works : W → Bool × W)
    (works : (w : W) → (write_works w).0 ≡ true) where
  pub sign_out-items :
      (s : App W)
      → ((sign_out write_works s).1.items ≡ no_items)
        × ((sign_out write_works s).1.notified ≡ s.notified + 1)
  unfolding sign_out write_item both notify ◌>>=◌
  sign_out-items s =
      let w1 = (write_works s.world).1 in
      let w2 = (write_works w1).1 in rw (works s.world) (rw (works w1) (rw (works w2) (refl, refl)))

  set_tokens-items :
      (s : App W) (access refresh : String)
      → (e : App W) × (set_tokens write_works (record { access = access; refresh = refresh }) s
          ≡ (ok tt, e))
        × (e.items ≡ record {
          access_token = some access;
          refresh_token = some refresh;
          user = s.items.user;
        })
        × (e.notified ≡ s.notified)
  unfolding set_tokens write_item both
  set_tokens-items s access refresh =
      rw (works s.world) (rw (works (write_works s.world).1) (_, refl, refl, refl))

module _ {W : Type 0} (write_works : W → Bool × W) (post_refresh : String → Exec (App W) Response)
    (base_url : String) (do_fetch : HttpRequest → Exec (App W) Response) (path : String)
    (options : RequestOptions) (s s2 s3 : App W) (access refresh : String) (response : Response)
    (outcome : Result Response) where
  abbrev pub client : ApiClientConfig (App W)
  client = app_client write_works post_refresh base_url do_fetch

  -- The request carried a token and was answered with a 401, a refresh token is stored, and the call
  -- that renews came to `outcome`.
  abbrev pub Expired : Type 0
  Expired =
      (truthy s.items.access_token ≡ some access)
      × (do_fetch (build_request base_url path options s.items.access_token) s ≡ (ok response, s2))
      × (response.status ≡ 401)
      × (truthy s2.items.refresh_token ≡ some refresh)
      × (post_refresh refresh s2 ≡ (outcome, s3))

  carried : Expired → truthy s.items.access_token ≢ none
  carried (token, fetched, is, stored, posted) e = ground (arith, sym token ∙ e)

  -- What the renewal comes to once it was answered.
  abbrev pub renewal : Result Response → Exec (App W) (Option String)
  renewal (err t) s = (err t, s)
  renewal (ok answer) s = on_renewal write_works refresh answer s

  renewal-eq : Expired → refresh_access_token write_works post_refresh s2 ≡ renewal outcome s3
  unfolding refresh_access_token renew_with ◌>>=◌
  renewal-eq (token, fetched, is, stored, posted) = rw stored (rw posted refl)

  server_error :
      (answer : Response)
      → 500 ≤ answer.status
      → on_renewal write_works refresh answer s3 ≡ (err other_error, s3)
  unfolding on_renewal
  server_error answer high = rw (the_test) refl
    where
      the_test : leb 500 answer.status ≡ true
      the_test = ground arith

  refusal :
      (answer : Response)
      → answer.status < 500
      → is_ok answer ≡ false
      → on_renewal write_works refresh answer s3 ≡ (ok none, s3)
  unfolding on_renewal
  refusal answer low refused = rw the_test (rw refused refl)
    where
      the_test : leb 500 answer.status ≡ false
      the_test = ground arith

  success :
      (answer : Response) (new : String) (next : Option String)
      → is_ok answer ≡ true
      → answer.json ≡ ok (token_pair new next)
      → (e : App W)
      → set_tokens write_works (record { access = new; refresh = rotated refresh next }) s3
        ≡ (ok tt, e)
      → on_renewal write_works refresh answer s3 ≡ (ok (some new), e)
  unfolding on_renewal store_pair ◌>>=◌
  success answer new next good pair e stored = rw the_test (
      rw good (
        rw pair
          (ap (λ (x : Result (Unit {0}) × App W). and_then (λ _. pure (some new)) x.0 x.1) stored)))
    where
      the_test : leb 500 answer.status ≡ false
      the_test = ground (arith, good)

  -- If the renewal could not be tried, or the server failed at it, the 401 is judged and the session is
  -- as the calls left it: nobody is signed out and no listener is called.
  pub offline_keeps_session :
      Expired
      → ((t : Thrown) × (outcome ≡ err t))
        ⊎ ((answer : Response) × (outcome ≡ ok answer) × (500 ≤ answer.status))
      → request client path options s ≡ (classify response, s3)
  offline_keeps_session (token, fetched, is, stored, posted) h =
      let expired : Expired = (token, fetched, is, stored, posted) in
      let (renewed, refused, failed) =
        request_on_401 client path options s.items.access_token response s s s2 (refl, fetched)
          (carried expired) is (refresh_access_token write_works post_refresh) s3 refl in
      elim h [
        | inl (t, threw) ↦ failed t (renewal-eq expired ∙ ap (λ o. renewal o s3) threw)
        | inr (answer, came, high) ↦
            failed other_error
              (renewal-eq expired ∙ ap (λ o. renewal o s3) came ∙ server_error answer high)
      ]

  -- If the server refuses the renewal and storage takes the writes, the 401 is judged, the stored items
  -- are gone and the listeners are called once.
  pub refusal_signs_out :
      Expired
      → ((w : W) → (write_works w).0 ≡ true)
      → (answer : Response) → outcome ≡ ok answer
      → answer.status < 500
      → is_ok answer ≡ false
      → (e : App W) × (request client path options s ≡ (classify response, e))
        × (e.items ≡ no_items)
        × (e.notified ≡ s3.notified + 1)
  refusal_signs_out (token, fetched, is, stored, posted) works answer came low refusing =
      let expired : Expired = (token, fetched, is, stored, posted) in
      let (renewed, refused, failed) =
        request_on_401 client path options s.items.access_token response s s s2 (refl, fetched)
          (carried expired) is (refresh_access_token write_works post_refresh) s3 refl in
      let (gone, told) = sign_out-items write_works works s3 in
      (
        (sign_out write_works s3).1,
        refused (renewal-eq expired ∙ ap (λ o. renewal o s3) came ∙ refusal answer low refusing),
        gone,
        told,
      )

  -- If the server renews the tokens and storage takes the writes, the new access token is stored, the
  -- new refresh token or else the old one, the same user, and no listener is called; then the request
  -- is fetched again with the new token, and its response is the one that is judged, with the state
  -- that this fetch left unless it is a second 401, which signals the session once.
  pub renewal_replays :
      Expired
      → ((w : W) → (write_works w).0 ≡ true)
      → (answer : Response) (new : String) (next : Option String) → outcome ≡ ok answer
      → is_ok answer ≡ true
      → answer.json ≡ ok (token_pair new next)
      → new ≢ ""
      → (e : App W) × (e.items ≡ record {
        access_token = some new;
        refresh_token = some (rotated refresh next);
        user = s3.items.user;
      })
        × (e.notified ≡ s3.notified)
        × ((response2 : Response) (s5 : App W)
            → do_fetch (build_request base_url path options (some new)) e ≡ (ok response2, s5)
            → (response2.status ≢ 401 → request client path options s ≡ (classify response2, s5))
              × (response2.status ≡ 401
                  → request client path options s
                    ≡ (classify response2, (signal client client.on_unauthorized s5).1)))
  renewal_replays (token, fetched, is, stored, posted) works answer new next came good pair filled =
      let expired : Expired = (token, fetched, is, stored, posted) in
      let (e, wrote, items, told) =
        set_tokens-items write_works works s3 new (rotated refresh next) in
      let (renewed, refused, failed) =
        request_on_401 client path options s.items.access_token response s s s2 (refl, fetched)
          (carried expired) is (refresh_access_token write_works post_refresh) e refl in
      let came_back =
        renewal-eq expired
        ∙ ap (λ o. renewal o s3) came
        ∙ success answer new next good pair e wrote in
      (
        e,
        items,
        told,
        λ response2 s5 again.
            let (judged, signalled) =
              renewed new (some new) response2 e s5 filled came_back
                (ap (λ (i : Items). (ok i.access_token, e)) items) again in
            (
              λ other. judged (inr other),
              λ is2. signalled (λ t. filled (ground (arith, t, eq_iff new ""))) is2,
            ),
      )
