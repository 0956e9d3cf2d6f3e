-- ===== src/Prelude/Any.antt =====
-- `some` on an array, as a Boolean test and as membership.
use mathlib.Core.Path.{◌≡◌, refl}
use mathlib.Core.Logic.{◌⊎◌, inl, inr}
use mathlib.Core.Bool.{Bool, true}
use mathlib.Core.List.{List, [], ◌∷◌}
use native.Mathlib.Omega.{arith}
use ironman.Prelude.Tests.{Bool-cases}
use ironman.Prelude.Lists.{any, Has}

pub any_mono :
    {A : Type 0} (p q : A → Bool)
    → ((a : A) → p a ≡ true → q a ≡ true)
    → (xs : List A) → any p xs ≡ true
    → any q xs ≡ true
any_mono p q h [] e = e
any_mono p q h (x ∷ xs) e = ground (arith, h x, any_mono p q h xs)

pub any_split :
    {A : Type 0} (p q r : A → Bool)
    → ((a : A) → p a ≡ true → (q a ≡ true) ⊎ (r a ≡ true))
    → (xs : List A) → any p xs ≡ true
    → (any q xs ≡ true) ⊎ (any r xs ≡ true)
any_split p q r h [] e = inl e
any_split p q r h (x ∷ xs) e = ground (arith, h x, any_split p q r h xs)

pub any-Has :
    {A : Type 0} (p : A → Bool) (xs : List A) → any p xs ≡ true → (a : A) × Has a xs × (p a ≡ true)
any-Has p [] e = ground arith
any-Has p (x ∷ xs) e = elim (Bool-cases (p x)) [
  | inl px ↦ (x, inl refl, px)
  | inr px ↦ let (a, has, pa) = any-Has p xs (ground arith) in (a, inr has, pa)
]

pub Has-any :
    {A : Type 0} (p : A → Bool) (xs : List A) (a : A) → Has a xs → p a ≡ true → any p xs ≡ true
Has-any p [] a has pa = absurd has
Has-any p (x ∷ xs) a (inl e) pa = ground (arith, e)
Has-any p (x ∷ xs) a (inr has) pa = ground (arith, Has-any p xs a has pa)
