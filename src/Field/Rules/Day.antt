-- ===== src/Field/Rules/Day.antt =====
-- The rider's day: the order of the stops, and what is still to do.
use mathlib.Core.List.{Perm, perm_middle}
use mathlib.Core.List.Perm
use ironman.Prelude.{
  String, ◌≡◌, ◌⊎◌, inl, inr, ◌↔◌, Bool, true, false, not, List, [], ◌∷◌, ◌++◌, All, Has, arith,
  filter, Bool-cases, eq_iff, text_leb, Has-filter_iff, text_leb_refl,
}
use ironman.Field.Types.{JobCard}
use ironman.Field.Rules.Comparator.{
  IsComparator, not_after_flip, not_after_trans, compare_jobs-IsComparator,
}
use ironman.Field.Rules.{
  Order, compare_jobs, comes_after, insert_job, sort_jobs, is_finished, is_relevant, split_day,
}

-- Nobody stands behind a stop that comes after them.
abbrev pub NotAfter : (JobCard → JobCard → Order) → JobCard → JobCard → Type 0
NotAfter cmp a b = comes_after (cmp a b) ≡ false

module _ (cmp : JobCard → JobCard → Order) where
  abbrev pub InOrder : List JobCard → Type 0
  InOrder [] = Unit
  InOrder (j ∷ js) = All (NotAfter cmp j) js × InOrder js

All-mono :
    (P Q : JobCard → Type 0) (js : List JobCard) → ((j : JobCard) → P j → Q j) → All P js → All Q js
All-mono P Q [] f h = tt
All-mono P Q (j ∷ js) f h = (f j h.0, All-mono P Q js f h.1)

All-filter :
    (P : JobCard → Type 0) (p : JobCard → Bool) (js : List JobCard) → All P js → All P (filter p js)
All-filter P p [] h = tt
All-filter P p (j ∷ js) h = elim (Bool-cases (p j)) [
  | inl e ↦ rw e (h.0, All-filter P p js h.1)
  | inr e ↦ rw e (All-filter P p js h.1)
]

InOrder-filter :
    (cmp : JobCard → JobCard → Order) (p : JobCard → Bool) (js : List JobCard)
    → InOrder cmp js
    → InOrder cmp (filter p js)
InOrder-filter cmp p [] h = tt
InOrder-filter cmp p (j ∷ js) h = elim (Bool-cases (p j)) [
  | inl e ↦ rw e (All-filter _ p js h.0, InOrder-filter cmp p js h.1)
  | inr e ↦ rw e (InOrder-filter cmp p js h.1)
]

split-perm :
    (p : JobCard → Bool) (js : List JobCard) → Perm (filter (λ j. not (p j)) js ++ filter p js) js
split-perm p [] = Perm.refl []
split-perm p (j ∷ js) = elim (Bool-cases (p j)) [
  | inl e ↦ rw e (Perm.trans (perm_middle _ _) (Perm.cons j (split-perm p js)))
  | inr e ↦ rw e (Perm.cons j (split-perm p js))
]

module _ (locale_compare : String → String → Order) where
  insert_job-perm :
      (j : JobCard) (ks : List JobCard) → Perm (insert_job locale_compare j ks) (j ∷ ks)
  unfolding insert_job
  insert_job-perm j [] = Perm.refl _
  insert_job-perm j (k ∷ ks) = elim (Bool-cases (comes_after (compare_jobs locale_compare j k))) [
    | inl e ↦ rw e (Perm.trans (Perm.cons k (insert_job-perm j ks)) (Perm.swap j k ks))
    | inr e ↦ rw e (Perm.refl _)
  ]

  pub sort_jobs-perm : (js : List JobCard) → Perm (sort_jobs locale_compare js) js
  unfolding sort_jobs
  sort_jobs-perm [] = Perm.refl []
  sort_jobs-perm (j ∷ js) = Perm.trans (insert_job-perm j _) (Perm.cons j (sort_jobs-perm js))

  All-insert_job :
      (P : JobCard → Type 0) (j : JobCard) (ks : List JobCard)
      → P j
      → All P ks
      → All P (insert_job locale_compare j ks)
  unfolding insert_job
  All-insert_job P j [] pj h = (pj, tt)
  All-insert_job P j (k ∷ ks) pj h =
      elim (Bool-cases (comes_after (compare_jobs locale_compare j k))) [
        | inl e ↦ rw e (h.0, All-insert_job P j ks pj h.1)
        | inr e ↦ rw e (pj, h)
      ]

  module _ (law : IsComparator locale_compare) where
    insert_job-InOrder :
        (j : JobCard) (ks : List JobCard)
        → InOrder (compare_jobs locale_compare) ks
        → InOrder (compare_jobs locale_compare) (insert_job locale_compare j ks)
    unfolding insert_job
    insert_job-InOrder j [] h = (tt, tt)
    insert_job-InOrder j (k ∷ ks) h =
        elim (Bool-cases (comes_after (compare_jobs locale_compare j k))) [
          | inl e ↦ rw e (
            All-insert_job _ j ks
                (not_after_flip (compare_jobs-IsComparator locale_compare law) j k e) h.0,
            insert_job-InOrder j ks h.1,
          )
          | inr e ↦ rw e (
            (
              e,
              All-mono _ _ ks
                  (λ x n. not_after_trans (compare_jobs-IsComparator locale_compare law) j k x e n)
                  h.0,
            ),
            h,
          )
        ]

    sort_jobs-InOrder :
        (js : List JobCard) → InOrder (compare_jobs locale_compare) (sort_jobs locale_compare js)
    unfolding sort_jobs
    sort_jobs-InOrder [] = tt
    sort_jobs-InOrder (j ∷ js) = insert_job-InOrder j _ (sort_jobs-InOrder js)

    -- The two halves of the day hold each relevant job of the cache once and nothing else, and each
    -- half stands in the order of the route: sequence, then slot, then order reference.
    pub split_day-sorted :
        (jobs : List JobCard) (today : String)
        → let d = split_day locale_compare jobs today in
          Perm (d.todo ++ d.done_jobs) (filter (is_relevant today) jobs)
          × InOrder (compare_jobs locale_compare) d.todo
          × InOrder (compare_jobs locale_compare) d.done_jobs
    unfolding split_day
    split_day-sorted jobs today = (
      Perm.trans (split-perm _ _) (sort_jobs-perm _),
      InOrder-filter _ _ _ (sort_jobs-InOrder _),
      InOrder-filter _ _ _ (sort_jobs-InOrder _),
    )

  Has-insert_job :
      (x j : JobCard) (ks : List JobCard)
      → Has x (insert_job locale_compare j ks) ↔ (x ≡ j) ⊎ Has x ks
  unfolding insert_job
  Has-insert_job x j [] = (λ h. h, λ h. h)
  Has-insert_job x j (k ∷ ks) = elim (Bool-cases (comes_after (compare_jobs locale_compare j k))) [
    | inl e ↦ rw e (ground (arith, Has-insert_job x j ks))
    | inr e ↦ rw e (λ h. h, λ h. h)
  ]

  Has-sort_jobs : (x : JobCard) (js : List JobCard) → Has x (sort_jobs locale_compare js) ↔ Has x js
  unfolding sort_jobs
  Has-sort_jobs x [] = (λ h. h, λ h. h)
  Has-sort_jobs x (j ∷ js) =
      ground (arith, Has-insert_job x j (sort_jobs locale_compare js), Has-sort_jobs x js)

  -- A job is still to do exactly when it is cached, unfinished, and dated today or earlier; it is
  -- shown as done exactly when it is cached, finished, and dated today.
  pub split_day-exact :
      (jobs : List JobCard) (today : String) (j : JobCard)
      → let d = split_day locale_compare jobs today in
        (Has j d.todo
          ↔ Has j jobs × (is_finished j.status ≡ false) × (text_leb j.date today ≡ true))
        × (Has j d.done_jobs ↔ Has j jobs × (is_finished j.status ≡ true) × (j.date ≡ today))
  unfolding split_day
  split_day-exact jobs today j =
      let relevant = filter (is_relevant today) jobs in
      ground (
        arith,
        Has-filter_iff (λ x. not (is_finished x.status)) j (sort_jobs locale_compare relevant),
        Has-filter_iff (λ x. is_finished x.status) j (sort_jobs locale_compare relevant),
        Has-sort_jobs j relevant,
        Has-filter_iff (is_relevant today) j jobs,
        eq_iff j.date today,
        text_leb_refl j.date,
      )
