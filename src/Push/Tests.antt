-- ===== src/Push/Tests.antt =====
-- A phone that is registered and signs out while the server fails.
use ironman.Prelude.{◌≡◌, refl, String, Bool, true, false, Option, none, some, [], ◌∷◌}
use ironman.Exec.{other_error, Result, ok, err, Exec, Ends}
use ironman.Push.{Permission, Build, ios, DeviceCall, unregister, Phone, register_for_push, logout}
use ironman.Push.Registering.{Registered, register_exact}
use ironman.Push.Leaving.{Left, logout_exact}

abbrev phone : Phone (Unit {0})
phone = record {
  items = record { access_token = some "a"; refresh_token = some "r"; user = some "u" };
  notified = 0;
  world = record { push_token = some "t"; sent = []; prompts = 0; rest = tt };
}

abbrev allowed : Unit {0} → Result Permission × Unit {0}
allowed w = (ok (record { granted = true; can_ask_again = false }), w)

abbrev expo : Option String → Unit {0} → Result String × Unit {0}
expo project w = (ok "t", w)

-- The server cannot be reached.
abbrev offline : DeviceCall → Exec (Phone (Unit {0})) (Unit {0})
offline call s = (err other_error, s)

abbrev works : Unit {0} → Bool × Unit {0}
works w = (true, w)

abbrev build : Build
build = record {
  os = ios;
  is_device = true;
  extra_project_id = some "p";
  eas_project_id = none;
  version = none;
}

register_exact_example :
    Ends
      (Registered build phone)
      (λ t. t.world.push_token ≡ some "t")
      (register_for_push allowed allowed expo offline works build true phone)
register_exact_example =
    register_exact allowed allowed expo offline works build (λ call s. (refl, refl, refl)) phone
      true

logout_exact_example :
    Left allowed allowed expo offline works build
      (λ call s. (refl, refl, refl))
      (λ w. refl)
      ((unregister "t", some "a") ∷ [])
      (logout allowed allowed expo offline works build phone)
logout_exact_example =
    logout_exact allowed allowed expo offline works build (λ call s. (refl, refl, refl)) (λ w. refl)
      "t" phone refl
