-- ===== src/Api/Requests.antt =====
-- `request` on every answer of the server.
use ironman.Prelude.{
  ℕ, String, ◌≡◌, ◌≢◌, refl, ◌⊎◌, inl, inr, true, false, Option, none, some, arith, nat_eq, ◌≤◌,
  ◌<◌, ◌∙◌, eq_iff, Bool-cases, if◌then◌else◌,
}
use ironman.Exec.{ApiError, Thrown, api_error, other_error, ok, err, Exec, throw, ◌>>=◌}
use ironman.Api.{
  RequestOptions, Response, Body, null_body, envelope, token_pair, other_body, ApiClientConfig,
  build_request, truthy, classify, is_ok, error_of, signal, handle, on_expired, round, retried,
  request,
}

error_of-status : (status : ℕ) (b : Body) → ApiError.status (error_of status b) ≡ status
error_of-status status null_body = refl
error_of-status status (envelope e) = refl
error_of-status status (token_pair a b) = refl
error_of-status status (other_body j) = refl

module _ (r : Response) (b : Body) (other : nat_eq r.status 204 ≡ false)
    (read : (if r.is_json then r.json else ok null_body) ≡ ok b) where
  classify-ok : is_ok r ≡ true → classify r ≡ ok b
  unfolding classify
  classify-ok f = rw other (rw read (rw f refl))

  classify-error :
      is_ok r ≡ false → (e : ApiError) × (classify r ≡ err (api_error e)) × (e.status ≡ r.status)
  unfolding classify
  classify-error f =
      (error_of r.status b, rw other (rw read (rw f refl)), error_of-status r.status b)

-- A response is a value exactly if its status is 204, or 2xx with a body that can be read. Outside
-- 2xx it is thrown, as an `ApiError` with the response's status unless reading the body threw.
pub classify_exact :
    (r : Response) (body : Body)
    → r.json ≡ ok body
    → ((r.status ≡ 204) × (classify r ≡ ok null_body))
      ⊎ ((r.status ≢ 204)
          × (200 ≤ r.status)
          × (r.status < 300)
          × (classify r ≡ ok (if r.is_json then body else null_body)))
      ⊎ (((r.status < 200) ⊎ (300 ≤ r.status))
          × (e : ApiError) × (classify r ≡ err (api_error e))
          × (e.status ≡ r.status))
unfolding classify
classify_exact r body read = elim (Bool-cases (nat_eq r.status 204)) [
  | inl e ↦ inl (ground arith, rw e refl)
  | inr e ↦ elim (Bool-cases (is_ok r)) [
    | inl f ↦ inr (inl (ground arith, ground arith, ground arith, classify-ok r _ e parsed f))
    | inr f ↦
        let (error, thrown, same) =
          classify-error r (if r.is_json then body else null_body) e parsed f in
        inr (inr (ground arith, error, thrown, same))
  ]
]
  where
    parsed :
        (if r.is_json then r.json else ok null_body) ≡ ok (if r.is_json then body else null_body)
    parsed = elim (Bool-cases r.is_json) [ inl j ↦ rw j read | inr j ↦ rw j refl ]

module _ {S : Type 0} (config : ApiClientConfig S) (refresh : Option (Exec S (Option String)))
    (replay : Exec S Body) (response : Response) (s : S) where
  handle_plain :
      (token : Option String)
      → (token ≡ none) ⊎ (response.status ≢ 401)
      → handle config refresh replay token response s ≡ (classify response, s)
  unfolding handle
  handle_plain none h = refl
  handle_plain (some token) (inl e) = cc
  handle_plain (some token) (inr n) = elim (Bool-cases (nat_eq response.status 401)) [
    | inl e ↦ absurd (n (ground arith))
    | inr e ↦ rw e
  ]

  handle_401 :
      (token : Option String)
      → token ≢ none
      → response.status ≡ 401
      → handle config refresh replay token response s ≡ on_expired config refresh response replay s
  unfolding handle
  handle_401 none carried is = absurd (carried refl)
  handle_401 (some token) carried is = rw is

module _ {S : Type 0} (config : ApiClientConfig S) (path : String) (options : RequestOptions)
    (token : Option String) (response : Response) (s s1 s2 : S) where
  -- The token was read, and the server answered.
  abbrev pub Answered : Type 0
  Answered =
      (config.get_access_token s ≡ (ok token, s1))
      × (config.do_fetch (build_request config.base_url path options token) s1 ≡ (ok response, s2))

  round_reaches :
      (refresh : Option (Exec S (Option String))) (replay : Exec S Body)
      → Answered
      → round config refresh replay path options s
        ≡ handle config refresh replay (truthy token) response s2
  unfolding round ◌>>=◌
  round_reaches refresh replay (a, f) = rw a (rw f refl)

  on_expired-outcomes :
      (refresh : Exec S (Option String)) (replay : Exec S Body) (s3 : S)
      → ((new : String)
          → new ≢ ""
          → refresh s2 ≡ (ok (some new), s3)
          → on_expired config (some refresh) response replay s2 ≡ replay s3)
        × (refresh s2 ≡ (ok none, s3)
            → on_expired config (some refresh) response replay s2
              ≡ (classify response, (signal config config.on_unauthorized s3).1))
        × ((t : Thrown)
            → refresh s2 ≡ (err t, s3)
            → on_expired config (some refresh) response replay s2 ≡ (classify response, s3))
  unfolding on_expired
  on_expired-outcomes refresh replay s3 =
      (λ new n e. rw e (ground (arith, eq_iff new "")), λ e. rw e refl, λ t e. rw e refl)

  -- An answer other than 401, or a 401 to a request with no token, is judged as it is: nothing is
  -- renewed, nobody is signed out, and the state is the one that the fetch left.
  pub request_plain :
      Answered
      → (truthy token ≡ none) ⊎ (response.status ≢ 401)
      → request config path options s ≡ (classify response, s2)
  unfolding request
  request_plain answered h =
      round_reaches config.refresh_access_token (retried config path options) answered
      ∙ handle_plain config config.refresh_access_token (retried config path options) response s2
          (truthy token) h

  -- The replay is not renewed again: a second 401 calls `onUnauthorized`.
  pub retried_on_401 :
      Answered
      → truthy token ≢ none
      → response.status ≡ 401
      → retried config path options s
        ≡ (classify response, (signal config config.on_unauthorized s2).1)
  unfolding retried on_expired
  retried_on_401 answered carried is =
      round_reaches none (throw other_error) answered
      ∙ handle_401 config none (throw other_error) response s2 (truthy token) carried is

  -- How the replay ends: as the second response says, and with the session signalled on a second 401.
  retried_exact :
      Answered
      → ((truthy token ≡ none) ⊎ (response.status ≢ 401)
          → retried config path options s ≡ (classify response, s2))
        × (truthy token ≢ none
            → response.status ≡ 401
            → retried config path options s
              ≡ (classify response, (signal config config.on_unauthorized s2).1))
  unfolding retried
  retried_exact answered = (
    λ h.
        round_reaches none (throw other_error) answered
        ∙ handle_plain config none (throw other_error) response s2 (truthy token) h,
    λ carried is. retried_on_401 answered carried is,
  )

module _ {S : Type 0} (config : ApiClientConfig S) (path : String) (options : RequestOptions) where
  -- A 401 to a request with a token, in a client that can renew it. With a new token the request is
  -- fetched again, with the token that is then read: its response is the one that is judged, and a
  -- second 401 to a token calls `onUnauthorized`, with no further renewal or fetch. A refused renewal
  -- calls `onUnauthorized` and the first 401 is judged. A renewal that could not be tried leaves the
  -- session alone and the first 401 is judged.
  pub request_on_401 :
      (token : Option String) (response : Response) (s s1 s2 : S)
      → Answered config path options token response s s1 s2
      → truthy token ≢ none
      → response.status ≡ 401
      → (refresh : Exec S (Option String)) (s3 : S) → config.refresh_access_token ≡ some refresh
      → ((new : String) (token2 : Option String) (response2 : Response) (s4 s5 : S)
          → new ≢ ""
          → refresh s2 ≡ (ok (some new), s3)
          → config.get_access_token s3 ≡ (ok token2, s4)
          → config.do_fetch (build_request config.base_url path options token2) s4
            ≡ (ok response2, s5)
          → ((truthy token2 ≡ none) ⊎ (response2.status ≢ 401)
              → request config path options s ≡ (classify response2, s5))
            × (truthy token2 ≢ none
                → response2.status ≡ 401
                → request config path options s
                  ≡ (classify response2, (signal config config.on_unauthorized s5).1)))
        × (refresh s2 ≡ (ok none, s3)
            → request config path options s
              ≡ (classify response, (signal config config.on_unauthorized s3).1))
        × ((t : Thrown)
            → refresh s2 ≡ (err t, s3)
            → request config path options s ≡ (classify response, s3))
  unfolding request
  request_on_401 token response s s1 s2 answered carried is refresh s3 can =
      let reaches =
        round_reaches config path options token response s s1 s2 config.refresh_access_token
          (retried config path options) answered
        ∙ handle_401 config config.refresh_access_token (retried config path options) response s2
            (truthy token) carried is in
      let (renewed, refused, failed) =
        on_expired-outcomes config path options token response s s1 s2 refresh
          (retried config path options) s3 in
      (
        λ new token2 response2 s4 s5 n e read fetched.
            let again = reaches ∙ rw can (renewed new n e) in
            let (judged, expired) =
              retried_exact config path options token2 response2 s3 s4 s5 (read, fetched) in
            (λ h. again ∙ judged h, λ carried2 is2. again ∙ expired carried2 is2),
        λ e. reaches ∙ rw can (refused e),
        λ t e. reaches ∙ rw can (failed t e),
      )
