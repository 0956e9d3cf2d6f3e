-- ===== src/Field/Rules/Comparator.antt =====
-- Comparators as `sort` wants them, and that comparing by several keys in turn is one.
use ironman.Prelude.{String, ◌≡◌, true, false, arith}
use ironman.Field.Types.{JobCard}
use ironman.Field.Rules.{
  Order, before, same, after, or_else, or_empty, comes_after, compare_numbers, compare_jobs,
}

-- The answer is the opposite when the two are swapped, "before" is transitive, and what compares
-- the same compares alike with everything.
pub record IsComparator {A : Type 0} (cmp : A → A → Order) : Type 0 where
  pub swap_before : (a b : A) → cmp a b ≡ before → cmp b a ≡ after
  pub swap_after : (a b : A) → cmp a b ≡ after → cmp b a ≡ before
  pub swap_same : (a b : A) → cmp a b ≡ same → cmp b a ≡ same
  pub before_trans : (a b c : A) → cmp a b ≡ before → cmp b c ≡ before → cmp a c ≡ before
  pub same_left : (a b c : A) → cmp a b ≡ same → cmp a c ≡ cmp b c

module _ {A : Type 0} {cmp : A → A → Order} (law : IsComparator cmp) where
  same_right : (a b c : A) → cmp b c ≡ same → cmp a b ≡ cmp a c
  same_right a b c h = ground (
    arith,
    law.swap_same b c,
    law.same_left b c a,
    law.swap_before a b,
    law.swap_after a b,
    law.swap_same a b,
    law.swap_before a c,
    law.swap_after a c,
    law.swap_same a c,
    law.swap_before c a,
    law.swap_after c a,
    law.swap_same c a,
  )

  pub not_after_flip : (a b : A) → comes_after (cmp a b) ≡ true → comes_after (cmp b a) ≡ false
  not_after_flip a b h = ground (arith, law.swap_after a b)

  pub not_after_trans :
      (a b c : A)
      → comes_after (cmp a b) ≡ false
      → comes_after (cmp b c) ≡ false
      → comes_after (cmp a c) ≡ false
  not_after_trans a b c h k =
      ground (arith, law.before_trans a b c, law.same_left a b c, same_right a b c)

pub pullback-IsComparator :
    {A B : Type 0} {cmp : B → B → Order} (f : A → B)
    → IsComparator cmp
    → IsComparator (λ (a : A) (b : A). cmp (f a) (f b))
pullback-IsComparator f law = record {
  swap_before = λ a b. law.swap_before (f a) (f b);
  swap_after = λ a b. law.swap_after (f a) (f b);
  swap_same = λ a b. law.swap_same (f a) (f b);
  before_trans = λ a b c. law.before_trans (f a) (f b) (f c);
  same_left = λ a b c. law.same_left (f a) (f b) (f c);
}

or_else-IsComparator :
    {A : Type 0} {c d : A → A → Order}
    → IsComparator c
    → IsComparator d
    → IsComparator (λ (a : A) (b : A). or_else (c a b) (d a b))
or_else-IsComparator {c = c} {d = d} p q = record {
  swap_before = λ x y h. ground (arith, p.swap_before x y, p.swap_same x y, q.swap_before x y);
  swap_after = λ x y h. ground (arith, p.swap_after x y, p.swap_same x y, q.swap_after x y);
  swap_same = λ x y h. ground (arith, p.swap_same x y, q.swap_same x y);
  before_trans = λ x y z h k.
      ground
        (arith, p.before_trans x y z, p.same_left x y z, same_right p x y z, q.before_trans x y z);
  same_left = λ x y z h. ground (arith, p.same_left x y z, q.same_left x y z);
}

pub compare_numbers-IsComparator : IsComparator compare_numbers
unfolding compare_numbers
compare_numbers-IsComparator = record {
  swap_before = λ x y h. ground arith;
  swap_after = λ x y h. ground arith;
  swap_same = λ x y h. ground arith;
  before_trans = λ x y z h k. ground arith;
  same_left = λ x y z h. ground arith;
}

-- Sorting by sequence, then slot, then reference is sorting by a comparator, if the collation is.
pub compare_jobs-IsComparator :
    (locale_compare : String → String → Order)
    → IsComparator locale_compare
    → IsComparator (compare_jobs locale_compare)
unfolding compare_jobs
compare_jobs-IsComparator lc law =
    or_else-IsComparator
      (pullback-IsComparator (λ (j : JobCard). j.sequence) compare_numbers-IsComparator)
      (or_else-IsComparator (pullback-IsComparator (λ (j : JobCard). or_empty j.slot_start) law)
        (pullback-IsComparator (λ (j : JobCard). j.order_ref) law))
