-- ===== src/Prelude/Lists.antt =====
-- The array methods that the source uses, over native numbers and Boolean tests.
use Prim.Native.Nat.{ℕ, zero, suc, ◌+◌, ◌-◌, ◌≤◌}
use Prim.Native.Char.{code}
use Prim.Native.String.{String}
use mathlib.Core.Path.{◌≡◌, refl, ap, sym, ◌∙◌}
use mathlib.Core.Logic.{◌↔◌, ◌⊎◌, inl, inr}
use mathlib.Core.Bool.{Bool, true, false, ◌||◌}
use mathlib.Core.Option.{Option, none, some}
use mathlib.Core.List.{List, [], ◌∷◌, ◌++◌, map}
use native.Mathlib.Omega.{arith}
use text.Mathlib.Text.{◌==◌}
use text.Mathlib.TextEquality.{eq_iff}
use ironman.Prelude.Tests.{ltb, nat_eq, if◌then◌else◌, Bool-cases}

module _ {ℓ} {A : Type ℓ} where
  abbrev pub length : List A → ℕ
  length [] = 0
  length (x ∷ xs) = suc (length xs)

  -- `filter`, with a test into `Bool` as in the source.
  abbrev pub filter : (A → Bool) → List A → List A
  filter p [] = []
  filter p (x ∷ xs) = let rest = filter p xs in if p x then x ∷ rest else rest

  -- `some`.
  abbrev pub any : (A → Bool) → List A → Bool
  any p [] = false
  any p (x ∷ xs) = p x || any p xs

  -- `find`.
  abbrev pub find : (A → Bool) → List A → Option A
  find p [] = none
  find p (x ∷ xs) = let rest = find p xs in if p x then some x else rest

  abbrev pub take : ℕ → List A → List A
  take zero xs = []
  take (suc n) [] = []
  take (suc n) (x ∷ xs) = x ∷ take n xs

  abbrev pub drop : ℕ → List A → List A
  drop zero xs = xs
  drop (suc n) [] = []
  drop (suc n) (x ∷ xs) = drop n xs

  abbrev pub All {κ} : (A → Type κ) → List A → Type κ
  All P [] = Unit
  All P (x ∷ xs) = P x × All P xs

  pub length-append : (xs ys : List A) → length (xs ++ ys) ≡ length xs + length ys
  length-append [] ys = omega arith
  length-append (x ∷ xs) ys = omega (arith, length-append xs ys)

  pub take-append-drop : (n : ℕ) (xs : List A) → take n xs ++ drop n xs ≡ xs
  take-append-drop zero xs = refl
  take-append-drop (suc n) [] = refl
  take-append-drop (suc n) (x ∷ xs) = ap (◌∷◌ x) (take-append-drop n xs)

  pub length-drop : (n : ℕ) (xs : List A) → length (drop n xs) ≡ length xs - n
  length-drop zero xs = omega arith
  length-drop (suc n) [] = omega arith
  length-drop (suc n) (x ∷ xs) = omega (arith, length-drop n xs)

  pub length-filter-le : (p : A → Bool) (xs : List A) → length (filter p xs) ≤ length xs
  length-filter-le p [] = omega arith
  length-filter-le p (x ∷ xs) = ground (arith, length-filter-le p xs)

-- `<=` on strings, by code points.
unfoldable pub text_leb : String → String → Bool
text_leb String.[] t = true
text_leb (String.◌∷◌ c s) String.[] = false
text_leb (String.◌∷◌ c s) (String.◌∷◌ d t) =
    let rest = text_leb s t in
    if ltb (code c) (code d) then true else if nat_eq (code c) (code d) then rest else false

-- `includes` on an array of strings.
abbrev pub includes : List String → String → Bool
includes xs a = any (λ x. x == a) xs

module _ {A : Type 0} where
  -- Membership as data, so that a proof can follow the element.
  abbrev pub Has : A → List A → Type 0
  Has a [] = ⊥
  Has a (x ∷ xs) = (a ≡ x) ⊎ Has a xs

  pub Has-append_left : (a : A) (xs ys : List A) → Has a xs → Has a (xs ++ ys)
  Has-append_left a [] ys h = absurd h
  Has-append_left a (x ∷ xs) ys (inl e) = inl e
  Has-append_left a (x ∷ xs) ys (inr h) = inr (Has-append_left a xs ys h)

  pub Has-append_right : (a : A) (xs ys : List A) → Has a ys → Has a (xs ++ ys)
  Has-append_right a [] ys h = h
  Has-append_right a (x ∷ xs) ys h = inr (Has-append_right a xs ys h)

  pub append-Has : (a : A) (xs ys : List A) → Has a (xs ++ ys) → Has a xs ⊎ Has a ys
  append-Has a [] ys h = inr h
  append-Has a (x ∷ xs) ys (inl e) = inl (inl e)
  append-Has a (x ∷ xs) ys (inr h) = elim (append-Has a xs ys h) [
    | inl l ↦ inl (inr l)
    | inr r ↦ inr r
  ]

  -- A test keeps the elements that pass it, and a dropped element failed it.
  pub Has-filter :
      (p : A → Bool) (a : A) (xs : List A) → Has a xs → p a ≡ true → Has a (filter p xs)
  Has-filter p a [] h e = h
  Has-filter p a (x ∷ xs) (inl q) e = rw (ap p (sym q) ∙ e) (inl q)
  Has-filter p a (x ∷ xs) (inr h) e = elim (Bool-cases (p x)) [
    | inl t ↦ rw t (inr (Has-filter p a xs h e))
    | inr f ↦ rw f (Has-filter p a xs h e)
  ]

  pub filter-Has :
      (p : A → Bool) (a : A) (xs : List A) → Has a (filter p xs) → Has a xs × (p a ≡ true)
  filter-Has p a [] h = absurd h
  filter-Has p a (x ∷ xs) h = elim (Bool-cases (p x)) [
    | inr f ↦ let (m, t) = filter-Has p a xs (rw f at h) in (inr m, t)
    | inl t ↦ elim (let k : Has a (x ∷ filter p xs) = (rw t at h) in k) [
      | inl e ↦ (inl e, ap p e ∙ t)
      | inr m ↦ let (n, u) = filter-Has p a xs m in (inr n, u)
    ]
  ]

  pub Has-filter_iff :
      (p : A → Bool) (a : A) (xs : List A) → Has a (filter p xs) ↔ (Has a xs × (p a ≡ true))
  Has-filter_iff p a xs = (filter-Has p a xs, λ h. Has-filter p a xs h.0 h.1)

pub Has-map : {A B : Type 0} (f : A → B) (a : A) (xs : List A) → Has a xs → Has (f a) (map f xs)
Has-map f a [] has = absurd has
Has-map f a (x ∷ xs) (inl e) = inl (ap f e)
Has-map f a (x ∷ xs) (inr has) = inr (Has-map f a xs has)

pub map-Has :
    {A B : Type 0} (f : A → B) (xs : List A) (b : B)
    → Has b (map f xs)
    → (x : A) × Has x xs × (b ≡ f x)
map-Has f [] b has = absurd has
map-Has f (x ∷ xs) b (inl e) = (x, inl refl, e)
map-Has f (x ∷ xs) b (inr has) = let (y, in_xs, e) = map-Has f xs b has in (y, inr in_xs, e)

pub text_leb_refl : (s : String) → text_leb s s ≡ true
unfolding text_leb
text_leb_refl String.[] = refl
text_leb_refl (String.◌∷◌ c s) = ground (arith, text_leb_refl s)

pub includes-Has : (xs : List String) (a : String) → includes xs a ≡ true → Has a xs
includes-Has [] a h = cc
includes-Has (x ∷ xs) a h = elim (Bool-cases (x == a)) [
  | inl e ↦ inl (sym ((eq_iff x a).0 e))
  | inr f ↦ inr (includes-Has xs a (rw f at h))
]

pub Has-includes : (xs : List String) (a : String) → Has a xs → includes xs a ≡ true
Has-includes [] a h = absurd h
Has-includes (x ∷ xs) a (inl e) = rw ((eq_iff x a).1 (sym e))
Has-includes (x ∷ xs) a (inr h) = ground (arith, Has-includes xs a h)
