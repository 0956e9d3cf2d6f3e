-- ===== src/Booking/Bounds.antt =====
-- The counts and the texts of a booking (bookingReducer of apps/mobile/lib/booking/state.ts).
use ironman.Prelude.{
  ℤ, pos, negsuc, ℕ, ◌-◌, ◌<◌, ◌≤◌, ◌≡◌, refl, ap, ◌∙◌, inl, inr, String, Bool, false, ◌||◌, Option,
  none, some, List, [], ◌∷◌, All, Bool-cases, leb, leb→le, ltb, ltb→lt, nat_eq, arith,
  if◌then◌else◌, ◌==◌, eq_iff, eq_refl,
}
use ironman.Booking.{
  Counts, BookingState, EarlierLine, EarlierOrder, earlier_counts, booking_provider, BookingAction,
  set_area, set_address, set_service, set_count, set_slot, set_notes, set_referral, set_heard_from,
  reset, units, text_length, slice, is_space, without_spaces, assign, delete, clamp, with_count,
  max_per_garment, booking_reducer, after, is_service,
}

-- A garment is not counted yet.
abbrev pub Fresh : String → Counts → Type 0
Fresh g counts = All (λ (c : String × ℕ). (c.0 == g) ≡ false) counts

-- No garment is counted twice, and every count is between 1 and a limit.
abbrev pub IsBounded : ℕ → Counts → Type 0
IsBounded limit [] = Unit
IsBounded limit (c ∷ counts) = (0 < c.1) × (c.1 ≤ limit) × Fresh c.0 counts × IsBounded limit counts

unfoldable pub has_space : String → Bool
has_space String.[] = false
has_space (String.◌∷◌ c s) = is_space c || has_space s

abbrev pub IsWellFormed : ℕ → BookingState → Type 0
IsWellFormed limit s =
    IsBounded limit s.counts
    × (text_length s.notes ≤ 500)
    × (text_length s.referral_code ≤ 24)
    × (has_space s.referral_code ≡ false)

Fresh-assign :
    (h g : String) (n : ℕ) (counts : Counts)
    → (g == h) ≡ false
    → Fresh h counts
    → Fresh h (assign g n counts)
unfolding assign
Fresh-assign h g n [] other fresh = (other, tt)
Fresh-assign h g n (c ∷ counts) other (f, fresh) = elim (Bool-cases (c.0 == g)) [
  | inl e ↦ rw e (f, fresh)
  | inr e ↦ rw e (f, Fresh-assign h g n counts other fresh)
]

IsBounded-assign :
    (limit : ℕ) (g : String) (n : ℕ) (counts : Counts)
    → 0 < n
    → n ≤ limit
    → IsBounded limit counts
    → IsBounded limit (assign g n counts)
unfolding assign
IsBounded-assign limit g n [] low high bounded = (low, high, tt, tt)
IsBounded-assign limit g n (c ∷ counts) low high (l, h, fresh, bounded) =
    elim (Bool-cases (c.0 == g)) [
      | inl e ↦ rw e (low, high, fresh, bounded)
      | inr e ↦ rw e (
        l,
        h,
        Fresh-assign c.0 g n counts (apart c.0 g e) fresh,
        IsBounded-assign limit g n counts low high bounded,
      )
    ]
  where
    apart : (a b : String) → (a == b) ≡ false → (b == a) ≡ false
    apart a b e = ground (arith, eq_iff a b, eq_iff b a)

Fresh-delete : (h g : String) (counts : Counts) → Fresh h counts → Fresh h (delete g counts)
Fresh-delete h g [] fresh = tt
Fresh-delete h g (c ∷ counts) (f, fresh) = elim (Bool-cases (c.0 == g)) [
  | inl e ↦ rw e (Fresh-delete h g counts fresh)
  | inr e ↦ rw e (f, Fresh-delete h g counts fresh)
]

IsBounded-delete :
    (limit : ℕ) (g : String) (counts : Counts)
    → IsBounded limit counts
    → IsBounded limit (delete g counts)
IsBounded-delete limit g [] bounded = tt
IsBounded-delete limit g (c ∷ counts) (l, h, fresh, bounded) = elim (Bool-cases (c.0 == g)) [
  | inl e ↦ rw e (IsBounded-delete limit g counts bounded)
  | inr e ↦ rw e (l, h, Fresh-delete c.0 g counts fresh, IsBounded-delete limit g counts bounded)
]

clamp-max : (qty : ℤ) → clamp qty ≤ max_per_garment
clamp-max (pos n) = omega arith
clamp-max (negsuc n) = omega arith

IsBounded-with_count :
    (limit : ℕ) (g : String) (n : ℕ) (counts : Counts)
    → n ≤ limit
    → IsBounded limit counts
    → IsBounded limit (with_count g n counts)
IsBounded-with_count limit g n counts high bounded = elim (Bool-cases (nat_eq n 0)) [
  | inl e ↦ rw e (IsBounded-delete limit g counts bounded)
  | inr e ↦ rw e (IsBounded-assign limit g n counts (ground arith) high bounded)
]

text_length-slice : (n : ℕ) (s : String) → text_length (slice n s) ≤ n
unfolding text_length slice
text_length-slice n String.[] = omega arith
text_length-slice n (String.◌∷◌ c s) = elim (Bool-cases (leb (units c) n)) [
  | inl e ↦ rw e (omega (arith, text_length-slice (n - units c) s, leb→le (units c) n e))
  | inr e ↦ rw e (omega arith)
]

has_space-slice : (n : ℕ) (s : String) → has_space s ≡ false → has_space (slice n s) ≡ false
unfolding has_space slice
has_space-slice n String.[] none_in = refl
has_space-slice n (String.◌∷◌ c s) none_in = elim (Bool-cases (leb (units c) n)) [
  | inl e ↦ rw e (ground (arith, has_space-slice (n - units c) s))
  | inr e ↦ rw e refl
]

has_space-without_spaces : (s : String) → has_space (without_spaces s) ≡ false
unfolding has_space without_spaces
has_space-without_spaces String.[] = refl
has_space-without_spaces (String.◌∷◌ c s) = elim (Bool-cases (is_space c)) [
  | inl e ↦ rw e (has_space-without_spaces s)
  | inr e ↦ rw e (rw e (has_space-without_spaces s))
]

empty_short : (n : ℕ) → text_length "" ≤ n
unfolding text_length
empty_short n = omega arith

empty_plain : has_space "" ≡ false
unfolding has_space
empty_plain = refl

-- `counts[garment]`.
unfoldable pub count_of : String → Counts → Option ℕ
count_of g [] = none
count_of g (c ∷ counts) = let rest = count_of g counts in if c.0 == g then some c.1 else rest

count_of-assign : (g : String) (n : ℕ) (counts : Counts) → count_of g (assign g n counts) ≡ some n
unfolding count_of assign
count_of-assign g n [] = rw (eq_refl g) refl
count_of-assign g n (c ∷ counts) = elim (Bool-cases (c.0 == g)) [
  | inl e ↦ rw e (rw e refl)
  | inr e ↦ rw e (rw e (count_of-assign g n counts))
]

count_of-assign_other :
    (h g : String) (n : ℕ) (counts : Counts)
    → (g == h) ≡ false
    → count_of h (assign g n counts) ≡ count_of h counts
unfolding count_of assign
count_of-assign_other h g n [] other = rw other refl
count_of-assign_other h g n (c ∷ counts) other = elim (Bool-cases (c.0 == g)) [
  | inl e ↦ rw e (rw (ap (λ x. x == h) ((eq_iff c.0 g).0 e) ∙ other) refl)
  | inr e ↦ rw e (rw (count_of-assign_other h g n counts other) refl)
]

count_of-delete : (g : String) (counts : Counts) → count_of g (delete g counts) ≡ none
unfolding count_of
count_of-delete g [] = refl
count_of-delete g (c ∷ counts) = elim (Bool-cases (c.0 == g)) [
  | inl e ↦ rw e (count_of-delete g counts)
  | inr e ↦ rw e (rw e (count_of-delete g counts))
]

count_of-delete_other :
    (h g : String) (counts : Counts)
    → (g == h) ≡ false
    → count_of h (delete g counts) ≡ count_of h counts
unfolding count_of
count_of-delete_other h g [] other = refl
count_of-delete_other h g (c ∷ counts) other = elim (Bool-cases (c.0 == g)) [
  | inl e ↦
      rw e (
        rw (ap (λ x. x == h) ((eq_iff c.0 g).0 e) ∙ other) (count_of-delete_other h g counts other))
  | inr e ↦ rw e (rw (count_of-delete_other h g counts other) refl)
]

-- No line of an order declares more than a limit.
abbrev pub Within : ℕ → List EarlierLine → Type 0
Within limit lines = All (λ (line : EarlierLine). line.declared_qty ≤ limit) lines

abbrev pub EarlierWithin : ℕ → Option EarlierOrder → Type 0
EarlierWithin limit none = Unit
EarlierWithin limit (some earlier) = Within limit earlier.lines

earlier_counts-IsBounded :
    (limit : ℕ) (counts : Counts) (lines : List EarlierLine)
    → IsBounded limit counts
    → Within limit lines
    → IsBounded limit (earlier_counts counts lines)
unfolding earlier_counts
earlier_counts-IsBounded limit counts [] bounded within = bounded
earlier_counts-IsBounded limit counts (line ∷ lines) bounded (low, within) =
    elim (Bool-cases (ltb 0 line.declared_qty)) [
      | inl e ↦ rw e (
          earlier_counts-IsBounded limit (assign line.garment_type line.declared_qty counts) lines
            (IsBounded-assign limit line.garment_type line.declared_qty counts
              (ltb→lt 0 line.declared_qty e) low bounded)
            within)
      | inr e ↦ rw e (earlier_counts-IsBounded limit counts lines bounded within)
    ]

booking_provider-IsWellFormed :
    (limit : ℕ) (earlier : Option EarlierOrder)
    → EarlierWithin limit earlier
    → IsWellFormed limit (booking_provider earlier)
unfolding booking_provider
booking_provider-IsWellFormed limit none within = (tt, empty_short 500, empty_short 24, empty_plain)
booking_provider-IsWellFormed limit (some earlier) within = (
  earlier_counts-IsBounded limit [] earlier.lines tt within,
  empty_short 500,
  empty_short 24,
  empty_plain,
)

module _ (upper : String → String) where
  step-IsWellFormed :
      (limit : ℕ) (s : BookingState) (action : BookingAction)
      → max_per_garment ≤ limit
      → IsWellFormed limit s
      → IsWellFormed limit (booking_reducer upper s action)
  unfolding booking_reducer
  step-IsWellFormed limit s (set_area area) room well = well
  step-IsWellFormed limit s (set_address address) room well = well
  step-IsWellFormed limit s (set_service id) room (bounded, notes, code, plain) =
      elim (Bool-cases (is_service s.service_id id)) [
        | inl e ↦ rw e (bounded, notes, code, plain)
        | inr e ↦ rw e (tt, notes, code, plain)
      ]
  step-IsWellFormed limit s (set_count garment qty) room (bounded, notes, code, plain) = (
    IsBounded-with_count limit garment (clamp qty) s.counts (omega (arith, clamp-max qty, room))
        bounded,
    notes,
    code,
    plain,
  )
  step-IsWellFormed limit s (set_slot slot_id) room well = well
  step-IsWellFormed limit s (set_notes notes) room (bounded, _, code, plain) =
      (bounded, text_length-slice 500 notes, code, plain)
  step-IsWellFormed limit s (set_referral text) room (bounded, notes, _, _) =
      let code = without_spaces (upper text) in
      (
        bounded,
        notes,
        text_length-slice 24 code,
        has_space-slice 24 code (has_space-without_spaces (upper text)),
      )
  step-IsWellFormed limit s (set_heard_from value) room well = well
  step-IsWellFormed limit s reset room well = (tt, empty_short 500, empty_short 24, empty_plain)

  after-IsWellFormed :
      (limit : ℕ) (actions : List BookingAction) (s : BookingState)
      → max_per_garment ≤ limit
      → IsWellFormed limit s
      → IsWellFormed limit (after upper s actions)
  unfolding after
  after-IsWellFormed limit [] s room well = well
  after-IsWellFormed limit (action ∷ actions) s room well =
      after-IsWellFormed limit actions (booking_reducer upper s action) room
        (step-IsWellFormed limit s action room well)

  -- Whatever the customer does, in a new booking or in one that starts from an earlier order: no
  -- garment is counted twice, every count is at least 1 and at most a limit, the notes keep to 500
  -- units and the referral code to 24, with no white space. The limit is any number that is at least
  -- 50 and at least what each line of the earlier order declared; so it is 50 for a new booking.
  pub booking-IsWellFormed :
      (limit : ℕ) (earlier : Option EarlierOrder) (actions : List BookingAction)
      → max_per_garment ≤ limit
      → EarlierWithin limit earlier
      → IsWellFormed limit (after upper (booking_provider earlier) actions)
  booking-IsWellFormed limit earlier actions room within =
      after-IsWellFormed limit actions (booking_provider earlier) room
        (booking_provider-IsWellFormed limit earlier within)

  -- After a garment's count is set it is the number asked for, cut to at most 50, or gone if that is
  -- zero or less; no other garment's count changes.
  pub set_count_exact :
      (s : BookingState) (garment : String) (qty : ℤ)
      → (count_of garment (booking_reducer upper s (set_count garment qty)).counts
          ≡ (if nat_eq (clamp qty) 0 then none else some (clamp qty)))
        × ((h : String)
            → (garment == h) ≡ false
            → count_of h (booking_reducer upper s (set_count garment qty)).counts
              ≡ count_of h s.counts)
  unfolding booking_reducer
  set_count_exact s garment qty = elim (Bool-cases (nat_eq (clamp qty) 0)) [
    | inl e ↦ rw e (
      count_of-delete garment s.counts,
      λ h other. count_of-delete_other h garment s.counts other,
    )
    | inr e ↦ rw e (
      count_of-assign garment (clamp qty) s.counts,
      λ h other. count_of-assign_other h garment (clamp qty) s.counts other,
    )
  ]
