-- ===== src/Push/Registering.antt =====
-- Registering the phone.
use ironman.Prelude.{
  ◌≡◌, refl, ap, ◌∙◌, inl, inr, String, Bool, not, ◌&&◌, Option, some, [], ◌∷◌, ◌++◌, Bool-cases,
}
use ironman.Exec.{Result, ok, err, Exec, Ends, Ends-bind}
use ironman.Push.{
  PushState, on, Permission, Build, DeviceCall, register, Phone, can_receive_push, platform_name,
  or_blank_version, unless_granted, get_permissions, request_permissions, get_expo_push_token, send,
  store_token, asked, register_token, once_decided, register_for_push,
}

-- The client's calls of the server leave the phone's registration alone.
abbrev pub KeepsPush : {W : Type 0} → (DeviceCall → Exec (Phone W) (Unit {0})) → Type 0
KeepsPush {W} answer =
    (call : DeviceCall) (s : Phone W)
    → ((answer call s).1.world.push_token ≡ s.world.push_token)
      × ((answer call s).1.world.sent ≡ s.world.sent)
      × ((answer call s).1.world.prompts ≡ s.world.prompts)

abbrev pub Unchanged : {W : Type 0} → Phone W → Phone W → Type 0
Unchanged s t = (t.world.push_token ≡ s.world.push_token) × (t.world.sent ≡ s.world.sent)

-- How a registration ends, of the phone before it.
abbrev pub Registered : {W : Type 0} → Build → Phone W → PushState → Phone W → Type 0
Registered build s on t =
    (token : String) × (access : Option String) × (t.world.push_token ≡ some token)
    × (t.world.sent
        ≡ s.world.sent
          ++ (register token (platform_name build.os) (or_blank_version build.version), access)
            ∷ [])
Registered build s _ t = Unchanged s t

module _ {W : Type 0} (permission_now prompt : W → Result Permission × W)
    (expo_push_token : Option String → W → Result String × W)
    (answer : DeviceCall → Exec (Phone W) (Unit {0})) (write_works : W → Bool × W) (build : Build)
    (keeps : KeepsPush answer) (s : Phone W) where
  abbrev Kept : Phone W → Type 0
  Kept t = t.world.push_token ≡ s.world.push_token

  read-Ends :
      {A : Type 0} (r : Result A) (t : Phone W)
      → Unchanged s t
      → Ends {A = A} (λ a t. Unchanged s t) Kept (r, t)
  read-Ends (ok a) t same = same
  read-Ends (err e) t same = same.0

  permissions-Ends :
      Ends
        (λ p t. Unchanged s t)
        Kept
        (get_permissions permission_now prompt expo_push_token answer write_works build s)
  unfolding get_permissions
  permissions-Ends = read-Ends (permission_now s.world.rest).0 _ (refl, refl)

  asked-Ends :
      (a : Bool) (p : Permission) (t : Phone W)
      → Unchanged s t
      → Ends
          (λ p t. Unchanged s t)
          Kept
          (asked permission_now prompt expo_push_token answer write_works build a p t)
  unfolding request_permissions
  asked-Ends a p t same = elim (Bool-cases (not p.granted && a && p.can_ask_again)) [
    | inl e ↦ rw e (read-Ends (prompt t.world.rest).0 _ same)
    | inr e ↦ rw e same
  ]

  unless_granted-Registered :
      (p : Permission) (t : Phone W) → Unchanged s t → Registered build s (unless_granted p) t
  unless_granted-Registered p t same = elim (Bool-cases p.can_ask_again) [
    | inl e ↦ rw e same
    | inr e ↦ rw e same
  ]

  token-Ends :
      (t : Phone W)
      → Unchanged s t
      → Ends
          (λ token t. Unchanged s t)
          Kept
          (get_expo_push_token permission_now prompt expo_push_token answer write_works build t)
  unfolding get_expo_push_token
  token-Ends t same = read-Ends (expo_push_token _ t.world.rest).0 _ same

  -- The request has gone out, and nothing is stored yet.
  abbrev Sent : String → Phone W → Type 0
  Sent token t =
      (access : Option String) × (t.world.push_token ≡ s.world.push_token)
      × (t.world.sent
          ≡ s.world.sent
            ++ (register token (platform_name build.os) (or_blank_version build.version), access)
              ∷ [])

  answered-Ends :
      (token : String) (r : Result (Unit {0})) (t : Phone W)
      → Sent token t
      → Ends (λ (a : Unit {0}) t. Sent token t) Kept (r, t)
  answered-Ends token (ok a) t out = out
  answered-Ends token (err e) t out = out.1

  send-Ends :
      (token : String) (t : Phone W)
      → Unchanged s t
      → Ends
          (λ (a : Unit {0}) t. Sent token t)
          Kept
          (send permission_now prompt expo_push_token answer write_works build
            (register token (platform_name build.os) (or_blank_version build.version))
            t)
  unfolding send
  send-Ends token t (token_kept, sent_kept) =
      let call = register token (platform_name build.os) (or_blank_version build.version) in
      let t1 = record t {
        world = record t.world { sent = t.world.sent ++ (call, t.items.access_token) ∷ [] };
      } in
      let (one, two, three) = keeps call t1 in
      answered-Ends token (answer call t1).0 (answer call t1).1 (
        t.items.access_token,
        one ∙ token_kept,
        two ∙ ap (λ xs. xs ++ (call, t.items.access_token) ∷ []) sent_kept,
      )

  store-Ends :
      (token : String) (t : Phone W)
      → Sent token t
      → Ends
          (λ (a : Unit {0}) t. Registered build s on t)
          Kept
          (store_token permission_now prompt expo_push_token answer write_works build
            (some token)
            t)
  unfolding store_token
  store-Ends token t (access, token_kept, out) = elim (Bool-cases (write_works t.world.rest).0) [
    | inl e ↦ rw e (token, access, refl, out)
    | inr e ↦ rw e token_kept
  ]

  register_token-Ends :
      (token : String) (t : Phone W)
      → Unchanged s t
      → Ends
          (Registered build s)
          Kept
          (register_token permission_now prompt expo_push_token answer write_works build token t)
  unfolding register_token
  register_token-Ends token t same =
      Ends-bind (λ a t. Sent token t) _ _ _ _ t (send-Ends token t same)
        (λ a t1 out.
          Ends-bind (λ a t. Registered build s on t) _ _ _ _ t1 (store-Ends token t1 out)
            (λ b t2 done. done))

  once_decided-Ends :
      (p : Permission) (t : Phone W)
      → Unchanged s t
      → Ends
          (Registered build s)
          Kept
          (once_decided permission_now prompt expo_push_token answer write_works build p t)
  once_decided-Ends p t same = elim (Bool-cases p.granted) [
    | inl e ↦
        rw e (Ends-bind (λ a t. Unchanged s t) _ _ _ _ t (token-Ends t same) register_token-Ends)
    | inr e ↦ rw e (unless_granted-Registered p t same)
  ]

  -- A registration that ends `on` sent exactly one request, with the token that is stored then; one
  -- that ends in another state sent none and left the stored token; and one that throws left the
  -- stored token too. The client's calls are taken to leave the registration alone.
  pub register_exact :
      (ask_if_needed : Bool)
      → Ends (Registered build s) Kept (
          register_for_push permission_now prompt expo_push_token answer write_works build
            ask_if_needed s)
  unfolding register_for_push
  register_exact ask_if_needed = elim (Bool-cases (can_receive_push build)) [
    | inl e ↦ rw e (
        Ends-bind (λ p t. Unchanged s t) _ _ _ _ s
          (Ends-bind (λ p t. Unchanged s t) _ _ _ _ s permissions-Ends (asked-Ends ask_if_needed))
          once_decided-Ends)
    | inr e ↦ rw e (refl, refl)
  ]
