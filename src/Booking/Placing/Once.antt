-- ===== src/Booking/Placing/Once.antt =====
-- How many orders the taps on one screen make.
use ironman.Prelude.{
  ◌≡◌, refl, ap, ◌∙◌, ◌⊎◌, inl, inr, ℕ, ◌≤◌, String, Bool, true, false, Option, none, some, List,
  [], ◌∷◌, length, if◌then◌else◌, arith, Bool-cases, eq_refl, ◌==◌,
}
use mathlib.Core.Option.{some-injective}
use ironman.Booking.Placing.{
  Placing, confirm_opened, drawn_key, is_client_error, ordered_under, Attempt, answered, unheard,
  unsent, after_error, with_key, place_order, tapped,
}

-- The key of the screen: none, or one that is not empty.
abbrev IsReal : Option String → Type 0
IsReal key = (key ≡ none) ⊎ ((k : String) × (key ≡ some k) × ((k == "") ≡ false))

-- There is no order yet, or one, which is under the key of the screen.
abbrev IsKeyed : List String → Option String → Type 0
IsKeyed orders key = (orders ≡ []) ⊎ ((k : String) × (orders ≡ k ∷ []) × (key ≡ some k))

drawn_key-real :
    (fresh : String) (key : Option String)
    → (fresh == "") ≡ false
    → IsReal key
    → ((drawn_key fresh key == "") ≡ false)
      × ((k : String) → key ≡ some k → drawn_key fresh key ≡ k)
drawn_key-real fresh none real was = (real, λ k e. ground (arith, e))
drawn_key-real fresh (some old) real (inl e) = ground (arith, e)
drawn_key-real fresh (some old) real (inr (k, e, full)) =
    let there : (old == "") ≡ false = ap (λ s. s == "") (some-injective old k e) ∙ full in
    rw there (there, λ j same. some-injective old j same)

-- An attempt under the key that is drawn makes the first order, or finds it.
ordered_once :
    (fresh : String) (key : Option String) (orders : List String)
    → ((k : String) → key ≡ some k → drawn_key fresh key ≡ k)
    → IsKeyed orders key
    → ordered_under (drawn_key fresh key) orders ≡ drawn_key fresh key ∷ []
unfolding ordered_under
ordered_once fresh key orders same (inl nothing) = rw nothing refl
ordered_once fresh key orders same (inr (k, one, keyed)) =
    let found = same k keyed in rw one (rw found (rw (eq_refl k) refl))

kept_order :
    (fresh : String) (key : Option String) (orders : List String)
    → ((k : String) → key ≡ some k → drawn_key fresh key ≡ k)
    → IsKeyed orders key
    → IsKeyed orders (some (drawn_key fresh key))
kept_order fresh key orders same (inl nothing) = inl nothing
kept_order fresh key orders same (inr (k, one, keyed)) = inr (k, one, ap some (same k keyed))

-- An attempt that the server took leaves no error of the client's side; one that it refuses so comes
-- while it has no order.
abbrev pub IsFair : Attempt → Placing → Type 0
IsFair answered p = Unit
IsFair (unheard thrown) p = is_client_error thrown ≡ false
IsFair (unsent thrown) p = (is_client_error thrown ≡ false) ⊎ (p.orders ≡ [])

module _ (keys : ℕ → String) where
  abbrev pub AreFair : List Attempt → Placing → Type 0
  AreFair [] p = Unit
  AreFair (a ∷ attempts) p = IsFair a p × AreFair attempts (place_order keys a p)

  record IsSingle (p : Placing) : Type 0 where
    real : IsReal p.key
    keyed : IsKeyed p.orders p.key
    made : (p.placed ≡ true) → length p.orders ≡ 1

  either-IsSingle :
      (b : Bool) (x y : Placing)
      → IsSingle x
      → (b ≡ false → IsSingle y)
      → IsSingle (if b then x else y)
  either-IsSingle true x y left right = left
  either-IsSingle false x y left right = right refl

  module _ (real_keys : (n : ℕ) → (keys n == "") ≡ false) where
    -- An attempt that did not reach the server, and whose key is kept.
    kept-IsSingle :
        (p : Placing) {error : Option String}
        → p.placed ≡ false
        → IsSingle p
        → IsSingle (record (with_key keys p) { error = error })
    kept-IsSingle p going inv =
        let (full, same) = drawn_key-real (keys p.taps) p.key (real_keys p.taps) inv.real in
        record {
          real = inr (drawn_key (keys p.taps) p.key, refl, full);
          keyed = kept_order (keys p.taps) p.key p.orders same inv.keyed;
          made = λ done. ground (arith, done, going);
        }

    place_order-IsSingle :
        (a : Attempt) (p : Placing)
        → p.placed ≡ false
        → IsFair a p
        → IsSingle p
        → IsSingle (place_order keys a p)
    unfolding place_order after_error
    place_order-IsSingle answered p going fair inv =
        let (full, same) = drawn_key-real (keys p.taps) p.key (real_keys p.taps) inv.real in
        let one = ordered_once (keys p.taps) p.key p.orders same inv.keyed in
        record {
          real = inr (drawn_key (keys p.taps) p.key, refl, full);
          keyed = inr (drawn_key (keys p.taps) p.key, one, refl);
          made = λ done. ap length one;
        }
    place_order-IsSingle (unheard thrown) p going fair inv =
        let (full, same) = drawn_key-real (keys p.taps) p.key (real_keys p.taps) inv.real in
        let one = ordered_once (keys p.taps) p.key p.orders same inv.keyed in
        rw fair (record {
          real = inr (drawn_key (keys p.taps) p.key, refl, full);
          keyed = inr (drawn_key (keys p.taps) p.key, one, refl);
          made = λ done. ap length one;
        })
    place_order-IsSingle (unsent thrown) p going fair inv =
        elim (Bool-cases (is_client_error thrown)) [
          | inr heard ↦ rw heard (kept-IsSingle p going inv)
          | inl refused ↦ elim fair [
            | inl heard ↦ ground (arith, heard, refused)
            | inr nothing ↦ rw refused (record {
              real = inl refl;
              keyed = inl nothing;
              made = λ done. ground (arith, done, going);
            })
          ]
        ]

    tapped-IsSingle :
        (attempts : List Attempt) (p : Placing)
        → AreFair attempts p
        → IsSingle p
        → IsSingle (tapped keys attempts p)
    unfolding tapped
    tapped-IsSingle [] p fair inv = inv
    tapped-IsSingle (a ∷ attempts) p (first, fair) inv =
        either-IsSingle p.placed p (tapped keys attempts (place_order keys a p)) inv (λ going.
          tapped-IsSingle attempts (place_order keys a p) fair
            (place_order-IsSingle a p going first inv))

    single_length :
        (orders : List String) (key : Option String) → IsKeyed orders key → length orders ≤ 1
    single_length orders key (inl nothing) = rw nothing (omega arith)
    single_length orders key (inr (k, one, keyed)) = rw one (omega arith)

    -- In one visit of the screen, which keeps its key until it is left: however often a customer taps and
    -- whatever happens to the answers, the server makes one order at most, and exactly one once the app
    -- has placed the booking; if random keys are not empty, and the server refuses no attempt, by a
    -- status from 400 to 499, after it has made an order.
    pub tapped_once :
        (attempts : List Attempt)
        → AreFair attempts confirm_opened
        → (length (tapped keys attempts confirm_opened).orders ≤ 1)
          × ((tapped keys attempts confirm_opened).placed ≡ true
              → length (tapped keys attempts confirm_opened).orders ≡ 1)
    tapped_once attempts fair =
        let inv =
          tapped-IsSingle attempts confirm_opened fair
            (record { real = inl refl; keyed = inl refl; made = λ done. ground (arith, done) }) in
        (
          single_length (tapped keys attempts confirm_opened).orders
              (tapped keys attempts confirm_opened).key inv.keyed,
          inv.made,
        )
