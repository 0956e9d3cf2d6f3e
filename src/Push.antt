-- ===== src/Push.antt =====
-- apps/mobile/lib/push.ts (apps/field/lib/push.ts is the same but for its storage key) and the sign-out
-- of apps/mobile/lib/auth.tsx: a phone that is registered for messages, over the stored session of
-- Api/Session. Parameters are the system's permission, now and once it has been asked for, the push
-- service's token, the client's call of the server and whether the next write works.
pub mod Registering
pub mod Leaving
pub mod Routes
mod Tests
use Prim.Native.Char.{Char, code}
use Prim.Native.String.{◌++◌ as join}
use ironman.Prelude.{
  ℕ, suc, ◌+◌, String, Bool, true, false, not, ◌&&◌, ◌||◌, Option, none, some, List, [], ◌∷◌, ◌++◌,
  leb, nat_eq, if◌then◌else◌, ◌==◌,
}
use ironman.Exec.{
  Thrown, other_error, Result, ok, err, Exec, pure, throw, recover, try_catch, ◌>>=◌, ◌>>◌,
}
use ironman.Api.{truthy}
use ironman.Api.Session.{Items, App, sign_out}
use ironman.Booking.{between, text_length}

pub data PushState : Type 0 where
  on ask denied unavailable : PushState

pub data Platform : Type 0 where
  web ios android : Platform

pub record Permission : Type 0 where
  pub granted : Bool
  pub can_ask_again : Bool

-- `Platform.OS`, `Device.isDevice` and what the build's configuration says.
pub record Build : Type 0 where
  pub os : Platform
  pub is_device : Bool
  pub extra_project_id : Option String
  pub eas_project_id : Option String
  pub version : Option String

-- The requests to `/notifications/devices`.
pub data DeviceCall : Type 0 where
  register : String → String → String → DeviceCall
  unregister : String → DeviceCall

-- The stored token; the requests sent, each with the access token it carried; how often the system's
-- prompt was shown.
pub record PushWorld (W : Type 0) : Type 0 where
  pub push_token : Option String
  pub sent : List (DeviceCall × Option String)
  pub prompts : ℕ
  pub rest : W

abbrev pub Phone : Type 0 → Type 0
Phone W = App (PushWorld W)

abbrev pub or_else : Option String → Option String → Option String
or_else none b = b
or_else (some a) b = some a

abbrev pub expo_project_id : Build → Option String
expo_project_id b = or_else b.extra_project_id b.eas_project_id

abbrev pub is_some : Option String → Bool
is_some none = false
is_some (some s) = true

abbrev pub is_web : Platform → Bool
is_web web = true
is_web _ = false

abbrev pub can_receive_push : Build → Bool
can_receive_push b = not (is_web b.os) && b.is_device && is_some (truthy (expo_project_id b))

abbrev pub platform_name : Platform → String
platform_name ios = "ios"
platform_name _ = "android"

abbrev pub or_blank_version : Option String → String
or_blank_version none = ""
or_blank_version (some v) = v

-- `[0-9a-fA-F-]`.
abbrev pub is_id_char : Char → Bool
is_id_char c =
    between 48 57 (code c)
    || between 97 102 (code c)
    || between 65 70 (code c)
    || nat_eq (code c) 45

unfoldable pub has_id_chars : String → Bool
has_id_chars String.[] = true
has_id_chars (String.◌∷◌ c s) = is_id_char c && has_id_chars s

-- `routeForNotification`, of the message's `orderId` where that is a text.
unfoldable pub route_for_notification : Option String → String
route_for_notification none = "/"
route_for_notification (some id) =
    if has_id_chars id && leb 16 (text_length id) then join "/orders/" id else "/"

abbrev pub unless_granted : Permission → PushState
unless_granted p = if p.can_ask_again then ask else denied

module _ {W : Type 0} (permission_now prompt : W → Result Permission × W)
    (expo_push_token : Option String → W → Result String × W)
    (answer : DeviceCall → Exec (Phone W) (Unit {0})) (write_works : W → Bool × W)
    (build : Build) where
  -- Parts of the world, as steps of the phone.
  unfoldable pub get_permissions : Exec (Phone W) Permission
  get_permissions s =
      let (r, w) = permission_now s.world.rest in
      (r, record s { world = record s.world { rest = w } })

  unfoldable pub request_permissions : Exec (Phone W) Permission
  request_permissions s =
      let (r, w) = prompt s.world.rest in
      (r, record s { world = record s.world { rest = w; prompts = suc s.world.prompts } })

  unfoldable pub get_expo_push_token : Exec (Phone W) String
  get_expo_push_token s =
      let (r, w) = expo_push_token (expo_project_id build) s.world.rest in
      (r, record s { world = record s.world { rest = w } })

  unfoldable pub send : DeviceCall → Exec (Phone W) (Unit {0})
  send call s = answer call (record s {
    world = record s.world { sent = s.world.sent ++ (call, s.items.access_token) ∷ [] };
  })

  unfoldable pub store_token : Option String → Exec (Phone W) (Unit {0})
  store_token token s =
      let (works, w) = write_works s.world.rest in
      if works
      then (ok tt, record s { world = record s.world { rest = w; push_token = token } })
      else (err other_error, record s { world = record s.world { rest = w } })

  abbrev pub state_of : Permission → Exec (Phone W) PushState
  state_of p s = (
    ok (
        if p.granted
        then (if is_some (truthy s.world.push_token) then on else ask)
        else unless_granted p),
    s,
  )

  unfoldable pub push_state : Exec (Phone W) PushState
  push_state s =
      if can_receive_push build then (get_permissions >>= state_of) s else (ok unavailable, s)

  abbrev pub asked : Bool → Permission → Exec (Phone W) Permission
  asked ask_if_needed p s =
      if not p.granted && ask_if_needed && p.can_ask_again then request_permissions s else (ok p, s)

  unfoldable pub register_token : String → Exec (Phone W) PushState
  register_token token = do
    send (register token (platform_name build.os) (or_blank_version build.version))
    store_token (some token)
    pure on

  abbrev pub once_decided : Permission → Exec (Phone W) PushState
  once_decided p s =
      if p.granted then (get_expo_push_token >>= register_token) s else (ok (unless_granted p), s)

  unfoldable pub register_for_push : Bool → Exec (Phone W) PushState
  register_for_push ask_if_needed s =
      if can_receive_push build
      then ((get_permissions >>= asked ask_if_needed) >>= once_decided) s
      else (ok unavailable, s)

  abbrev pub unregister_with : Option String → Exec (Phone W) (Unit {0})
  unregister_with none s = (ok tt, s)
  unregister_with (some token) s =
      (try_catch (send (unregister token)) (λ t. pure tt) >>= λ done. store_token none) s

  unfoldable pub unregister_push : Exec (Phone W) (Unit {0})
  unregister_push s = unregister_with (truthy s.world.push_token) s

  -- The storage of the session is the phone's too.
  abbrev pub session_write : PushWorld W → Bool × PushWorld W
  session_write w = let (works, rest) = write_works w.rest in (works, record w { rest = rest })

  -- `logout`, up to the screen's own state.
  unfoldable pub logout : Exec (Phone W) (Unit {0})
  logout s = (unregister_push >>= λ done. sign_out session_write) s
