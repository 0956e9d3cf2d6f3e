-- ===== src/Exec.antt =====
-- Asynchronous code that may throw, as a function of the state it runs in: what was written before
-- a throw stays written. `ApiError` is the error class of packages/api-client/src/index.ts.
use ironman.Prelude.{ℕ, String, Bool, Option, List, ◌≡◌, refl, ap}

-- `field_errors` maps a field to its messages.
pub record ApiError : Type 0 where
  pub status : ℕ
  pub code : String
  pub message : String
  pub detail : Option String
  pub field_errors : List (String × List String)
  pub request_id : String
  pub retryable : Bool

-- What a `catch` can see: an `ApiError`, or anything else (no network, a failed write).
pub data Thrown : Type 0 where
  api_error : ApiError → Thrown
  other_error : Thrown

pub data Result (A : Type 0) : Type 0 where
  ok : A → Result A
  err : Thrown → Result A

-- The value that a finished call stands for.
abbrev pub as_value : {A B : Type 0} → B → Result A → Result B
as_value b (ok a) = ok b
as_value b (err t) = err t

abbrev pub Exec : Type 0 → Type 0 → Type 0
Exec S A = S → Result A × S

module _ {S A : Type 0} where
  abbrev pub pure : A → Exec S A
  pure a s = (ok a, s)

  abbrev pub throw : Thrown → Exec S A
  throw t s = (err t, s)

  abbrev pub gets : (S → A) → Exec S A
  gets f s = (ok (f s), s)

  abbrev pub recover : (Thrown → Exec S A) → Result A → Exec S A
  recover h (ok a) s = (ok a, s)
  recover h (err t) s = h t s

  -- `try { m } catch (t) { h(t) }`.
  unfoldable pub try_catch : Exec S A → (Thrown → Exec S A) → Exec S A
  try_catch m h s = let (r, s') = m s in recover h r s'

module _ {S A B : Type 0} where
  abbrev pub and_then : (A → Exec S B) → Result A → Exec S B
  and_then f (ok a) s = f a s
  and_then f (err t) s = (err t, s)

  infixl 5 ◌>>=◌ ◌>>◌
  unfoldable pub ◌>>=◌ : Exec S A → (A → Exec S B) → Exec S B
  ◌>>=◌ m f s = let (r, s') = m s in and_then f r s'

  abbrev pub ◌>>◌ : Exec S A → Exec S B → Exec S B
  m >> n = m >>= λ _. n

module _ {S : Type 0} where
  abbrev pub modify : (S → S) → Exec S (Unit {0})
  modify f s = (ok tt, f s)

-- A run that ends in a pair `x` leaves `Q` with its value, or `E` if it threw.
module _ {S A : Type 0} (Q : A → S → Type 0) (E : S → Type 0) where
  abbrev pub Ends : Result A × S → Type 0
  Ends (ok a, s) = Q a s
  Ends (err t, s) = E s

module _ {S A B : Type 0} (R : A → S → Type 0) (Q : B → S → Type 0) (E : S → Type 0) where
  and_then-Ends :
      (f : A → Exec S B) (x : Result A × S)
      → Ends R E x
      → ((a : A) (s : S) → R a s → Ends Q E (f a s))
      → Ends Q E (and_then f x.0 x.1)
  and_then-Ends f (ok a, s) h k = k a s h
  and_then-Ends f (err t, s) h k = h

  pub Ends-bind :
      (m : Exec S A) (f : A → Exec S B) (s : S)
      → Ends R E (m s)
      → ((a : A) (t : S) → R a t → Ends Q E (f a t))
      → Ends Q E ((m >>= f) s)
  unfolding ◌>>=◌
  Ends-bind m f s h k = and_then-Ends f (m s) h k

-- A predicate on states that every step keeps holds after a sequence, however it ends.
module _ {S A B : Type 0} (P : S → Type 0) where
  and_then-state :
      (f : A → Exec S B) (r : Result A) (s : S)
      → P s
      → ((a : A) (t : S) → P t → P (f a t).1)
      → P (and_then f r s).1
  and_then-state f (ok a) s p k = k a s p
  and_then-state f (err t) s p k = p

  pub bind-state :
      (m : Exec S A) (f : A → Exec S B) (s : S)
      → P (m s).1
      → ((a : A) (t : S) → P t → P (f a t).1)
      → P ((m >>= f) s).1
  unfolding ◌>>=◌
  bind-state m f s p k = and_then-state f (m s).0 (m s).1 p k

  and_then-state_eq :
      (f : A → Exec S B) (r : Result A) (s : S)
      → P s
      → ((a : A) → r ≡ ok a → P s → P (f a s).1)
      → P (and_then f r s).1
  and_then-state_eq f (ok a) s p k = k a refl p
  and_then-state_eq f (err t) s p k = p

  -- As `bind-state`, where the rest knows what came before it.
  pub bind-state_eq :
      (m : Exec S A) (f : A → Exec S B) (s : S)
      → P (m s).1
      → ((a : A) (t : S) → m s ≡ (ok a, t) → P t → P (f a t).1)
      → P ((m >>= f) s).1
  unfolding ◌>>=◌
  bind-state_eq m f s p k =
      and_then-state_eq f (m s).0 (m s).1 p
        (λ a e. k a (m s).1 (ap (λ (r : Result A). (r, (m s).1)) e))
