-- ===== src/Push/Leaving.antt =====
-- Signing out.
use ironman.Prelude.{◌≡◌, refl, ◌∙◌, String, Bool, true, Option, none, some, List, [], ◌∷◌, ◌++◌}
use ironman.Exec.{Result, ok, err, Exec, recover, try_catch, ◌>>=◌, and_then, Ends, Ends-bind}
use ironman.Api.{truthy}
use ironman.Api.Session.{write_item, both, notify, sign_out}
use ironman.Api.Session.Renewal.{no_items}
use ironman.Push.{
  Permission, Build, DeviceCall, unregister, Phone, send, store_token, unregister_with,
  unregister_push, session_write, logout,
}
use ironman.Push.Registering.{KeepsPush}

module _ {W : Type 0} (permission_now prompt : W → Result Permission × W)
    (expo_push_token : Option String → W → Result String × W)
    (answer : DeviceCall → Exec (Phone W) (Unit {0})) (write_works : W → Bool × W) (build : Build)
    (keeps : KeepsPush answer) (works : (w : W) → (write_works w).0 ≡ true) where
  -- Nothing of the session is left, nor the registration.
  abbrev pub Left : List (DeviceCall × Option String) → Result (Unit {0}) × Phone W → Type 0
  Left sent x =
      (x.0 ≡ ok tt)
      × (x.1.items ≡ no_items)
      × (x.1.world.push_token ≡ none)
      × (x.1.world.sent ≡ sent)

  sign_out-Left :
      (t : Phone W)
      → t.world.push_token ≡ none
      → Left t.world.sent (
          sign_out (session_write permission_now prompt expo_push_token answer write_works build) t)
  unfolding sign_out write_item both notify ◌>>=◌
  sign_out-Left t gone =
      let w1 = (write_works t.world.rest).1 in
      let w2 = (write_works w1).1 in
      rw (works t.world.rest) (rw (works w1) (rw (works w2) (refl, refl, gone, refl)))

  caught-Ends :
      (sent : List (DeviceCall × Option String)) (r : Result (Unit {0})) (t : Phone W)
      → t.world.sent ≡ sent
      → Ends
          (λ (a : Unit {0}) t. t.world.sent ≡ sent)
          (λ t. ⊥)
          (recover {S = Phone W} (λ e s. (ok tt, s)) r t)
  caught-Ends sent (ok a) t e = e
  caught-Ends sent (err x) t e = e

  -- What the registration comes to.
  abbrev Gone : List (DeviceCall × Option String) → Result (Unit {0}) × Phone W → Type 0
  Gone sent = Ends (λ a t. (t.world.push_token ≡ none) × (t.world.sent ≡ sent)) (λ t. ⊥)

  unregister-Gone :
      (token : String) (s : Phone W)
      → Gone (s.world.sent ++ (unregister token, s.items.access_token) ∷ []) (
          unregister_with permission_now prompt expo_push_token answer write_works build
            (some token)
            s)
  unfolding try_catch send store_token
  unregister-Gone token s =
      let call : DeviceCall × Option String = (unregister token, s.items.access_token) in
      let t = record s { world = record s.world { sent = s.world.sent ++ call ∷ [] } } in
      let x = answer (unregister token) t in
      Ends-bind (λ a t. t.world.sent ≡ s.world.sent ++ call ∷ []) _ _ _ _ s
        (caught-Ends (s.world.sent ++ call ∷ []) x.0 x.1 (keeps (unregister token) t).1)
        (λ a u e. rw (works u.world.rest) (refl, e))

  Gone-Left :
      (sent : List (DeviceCall × Option String)) (x : Result (Unit {0}) × Phone W)
      → Gone sent x
      → Left sent (
          and_then
            (λ done.
              sign_out
                (session_write permission_now prompt expo_push_token answer write_works build))
            x.0
            x.1)
  Gone-Left sent (ok a, t) (gone, e) =
      let (one, two, three, four) = sign_out-Left t gone in (one, two, three, four ∙ e)
  Gone-Left sent (err x, t) e = absurd e

  -- Signing out of a phone that is registered sends the server one request to take the registration
  -- back, which carries the access token that the phone has until then. Whatever becomes of it, the
  -- phone has neither a registration nor a session afterwards, if its storage can be written. The
  -- client's calls are taken to leave the registration alone.
  pub logout_exact :
      (token : String) (s : Phone W)
      → truthy s.world.push_token ≡ some token
      → Left
          (s.world.sent ++ (unregister token, s.items.access_token) ∷ [])
          (logout permission_now prompt expo_push_token answer write_works build s)
  unfolding logout unregister_push ◌>>=◌
  logout_exact token s has =
      let sent = s.world.sent ++ (unregister token, s.items.access_token) ∷ [] in
      Gone-Left sent
        (unregister_with permission_now prompt expo_push_token answer write_works build
          (truthy s.world.push_token) s)
        (rw has (unregister-Gone token s))
