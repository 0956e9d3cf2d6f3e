-- ===== src/Api/Session.antt =====
-- apps/field/lib/auth-store.ts and apps/field/lib/api.ts (apps/mobile/lib has the same code under other
-- storage keys): the three stored items, the renewal of the token pair and the client built of them.
-- Parameters are whether the next write works, the call that renews, `fetch`, and JSON of a user.
pub mod Renewal
use ironman.Prelude.{
  ℕ, suc, ◌+◌, String, Bool, true, false, not, ◌||◌, Option, none, some, leb, if◌then◌else◌, ◌==◌,
}
use ironman.Exec.{Thrown, other_error, Result, ok, err, Exec, pure, throw, modify, ◌>>=◌, ◌>>◌}
use ironman.Api.{
  Response, Body, null_body, envelope, token_pair, other_body, HttpRequest, ApiClientConfig, is_ok,
  truthy,
}

-- The texts under the three storage keys.
pub record Items : Type 0 where
  pub access_token : Option String
  pub refresh_token : Option String
  pub user : Option String

pub data Key : Type 0 where
  access_token_key refresh_token_key user_key : Key

-- The stored items, how often the listeners were called, and all else.
pub record App (W : Type 0) : Type 0 where
  pub items : Items
  pub notified : ℕ
  pub world : W

pub record Tokens : Type 0 where
  pub access : String
  pub refresh : String

abbrev pub put_item : Key → Option String → Items → Items
put_item access_token_key v i = record i { access_token = v }
put_item refresh_token_key v i = record i { refresh_token = v }
put_item user_key v i = record i { user = v }

-- `Promise.all` of writes under different keys: all are made, and one that fails makes it throw.
abbrev pub joined : Result (Unit {0}) → Result (Unit {0}) → Result (Unit {0})
joined (ok a) r = r
joined (err t) r = err t

-- `data.refresh ?? refresh`.
abbrev pub rotated : String → Option String → String
rotated refresh none = refresh
rotated refresh (some new) = new

module _ {S : Type 0} where
  unfoldable pub both : Exec S (Unit {0}) → Exec S (Unit {0}) → Exec S (Unit {0})
  both m n s = let (r, s1) = m s in let (q, s2) = n s1 in (joined r q, s2)

module _ {W : Type 0} (write_works : W → Bool × W) where
  -- `setItem(key, value)`, or `deleteItem(key)` where the value is `none`.
  unfoldable pub write_item : Key → Option String → Exec (App W) (Unit {0})
  write_item key v s =
      let (works, w) = write_works s.world in
      if works
      then (ok tt, record s { items = put_item key v s.items; world = w })
      else (err other_error, record s { world = w })

  unfoldable pub notify : Exec (App W) (Unit {0})
  notify s = (ok tt, record s { notified = s.notified + 1 })

  unfoldable pub set_session : Tokens → String → Exec (App W) (Unit {0})
  unfolding write_item both notify ◌>>=◌
  set_session tokens user =
      both (write_item access_token_key (some tokens.access)) (
        both (write_item refresh_token_key (some tokens.refresh)) (write_item user_key (some user)))
      >> notify

  unfoldable pub set_tokens : Tokens → Exec (App W) (Unit {0})
  unfolding write_item both
  set_tokens tokens =
      both (write_item access_token_key (some tokens.access))
        (write_item refresh_token_key (some tokens.refresh))

  unfoldable pub update_stored_user : String → Exec (App W) (Unit {0})
  unfolding write_item notify ◌>>=◌
  update_stored_user user = write_item user_key (some user) >> notify

  unfoldable pub sign_out : Exec (App W) (Unit {0})
  unfolding write_item both notify ◌>>=◌
  sign_out =
      both (write_item access_token_key none)
        (both (write_item refresh_token_key none) (write_item user_key none))
      >> notify

  abbrev pub get_access_token : Exec (App W) (Option String)
  get_access_token s = (ok s.items.access_token, s)

  abbrev pub get_refresh_token : Exec (App W) (Option String)
  get_refresh_token s = (ok s.items.refresh_token, s)

  -- `if (!accessToken || !userJson) return null`, and a text that does not parse is `null` too.
  module _ {Me : Type 0} (parse : String → Option Me) where
    abbrev pub stored_user : Option String → Option String → Option Me
    stored_user (some access) (some user) = parse user
    stored_user _ _ = none

    abbrev pub get_stored_session : App W → Option Me
    get_stored_session s = stored_user (truthy s.items.access_token) (truthy s.items.user)

  -- The server's success is a token pair. Of another body `data.access` is `undefined`, which the
  -- phone's storage refuses with a throw.
  unfoldable pub store_pair : String → Result Body → Exec (App W) (Option String)
  unfolding set_tokens ◌>>=◌
  store_pair refresh (err t) = throw t
  store_pair refresh (ok (token_pair access new)) = do
    set_tokens (record { access = access; refresh = rotated refresh new })
    pure (some access)
  store_pair refresh (ok _) = throw other_error

  unfoldable pub on_renewal : String → Response → Exec (App W) (Option String)
  unfolding store_pair
  on_renewal refresh response s =
      if leb 500 response.status
      then (err other_error, s)
      else if is_ok response
      then store_pair refresh response.json s
      else (ok none, s)

  module _ (post_refresh : String → Exec (App W) Response) where
    unfoldable pub renew_with : Option String → Exec (App W) (Option String)
    unfolding on_renewal ◌>>=◌
    renew_with none s = (ok none, s)
    renew_with (some refresh) s = (post_refresh refresh >>= on_renewal refresh) s

    unfoldable pub refresh_access_token : Exec (App W) (Option String)
    unfolding renew_with
    refresh_access_token s = renew_with (truthy s.items.refresh_token) s

    abbrev pub app_client : String → (HttpRequest → Exec (App W) Response) → ApiClientConfig (App W)
    app_client base_url do_fetch = record {
      base_url = base_url;
      get_access_token = get_access_token;
      refresh_access_token = some refresh_access_token;
      on_unauthorized = some sign_out;
      do_fetch = do_fetch;
    }
