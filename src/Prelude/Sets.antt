-- ===== src/Prelude/Sets.antt =====
-- Lists of texts in which nothing stands twice.
use Prim.Native.String.{String}
use mathlib.Core.Path.{sym}
use mathlib.Core.Logic.{inl, inr}
use mathlib.Core.Bool.{Bool}
use mathlib.Core.List.{List, [], ◌∷◌, ◌++◌}
use ironman.Prelude.Tests.{Bool-cases}
use ironman.Prelude.Lists.{filter, Has, append-Has, filter-Has}

abbrev pub Distinct : List String → Type 0
Distinct [] = Unit
Distinct (x ∷ xs) = (¬ Has x xs) × Distinct xs

pub snoc-Distinct :
    (c : String) (xs : List String) → ¬ Has c xs → Distinct xs → Distinct (xs ++ c ∷ [])
snoc-Distinct c [] fresh inv = (λ has. has, tt)
snoc-Distinct c (x ∷ xs) fresh (once, inv) = (
  λ has. elim (append-Has x xs (c ∷ []) has) [
    | inl old ↦ once old
    | inr (inl e) ↦ fresh (inl (sym e))
    | inr (inr f) ↦ f
  ],
  snoc-Distinct c xs (λ has. fresh (inr has)) inv,
)

pub filter-Distinct : (p : String → Bool) (xs : List String) → Distinct xs → Distinct (filter p xs)
filter-Distinct p [] inv = inv
filter-Distinct p (x ∷ xs) (once, inv) = elim (Bool-cases (p x)) [
  | inl t ↦ rw t (λ has. once (filter-Has p x xs has).0, filter-Distinct p xs inv)
  | inr f ↦ rw f (filter-Distinct p xs inv)
]
