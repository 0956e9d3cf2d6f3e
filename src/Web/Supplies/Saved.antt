-- ===== src/Web/Supplies/Saved.antt =====
-- What the editor and the dialog send.
use ironman.Prelude.{
  ◌≡◌, refl, sym, ap, subst, ◌∙◌, inl, inr, ℕ, ◌<◌, ltb, ltb→lt, String, Bool, true, false, not,
  ◌&&◌, Option, none, some, List, [], ◌∷◌, map, any, includes, Has, map-Has, All, if◌then◌else◌,
  arith, Bool-cases, eq_iff, ◌==◌, ℤ, pos, negsuc, negated,
}
use mathlib.Core.Option.{some-injective}
use ironman.Booking.{trim}
use ironman.Web.Supplies.{
  any_garment, ConsumptionRule, Draft, RuleInput, unless_any, identity, repeats, all_drafts,
  at_least_one, is_complete, to_input, Editor, can_save, press_save, AdjustmentKind, issue, wastage,
  return, adjustment, is_outgoing, Adjustment, signed, AdjustInput, adjust_input, press_adjust,
}

abbrev pub AreTwins : RuleInput → RuleInput → Type 0
AreTwins i j =
    (i.service ≡ j.service) × (i.garment_type ≡ j.garment_type) × (i.stock_item ≡ j.stock_item)

abbrev pub NoTwins : List RuleInput → Type 0
NoTwins [] = Unit
NoTwins (i ∷ inputs) = ((j : RuleInput) → Has j inputs → ¬ AreTwins i j) × NoTwins inputs

unless_any-injective : (g h : String) → unless_any g ≡ unless_any h → g ≡ h
unfolding unless_any
unless_any-injective g h e = elim (Bool-cases (g == any_garment)) [
  | inl a ↦ elim (Bool-cases (h == any_garment)) [
    | inl b ↦ (eq_iff g any_garment).0 a ∙ sym ((eq_iff h any_garment).0 b)
    | inr b ↦ absurd (let k : none ≡ some h = (rw b at (rw a at e)) in ground (arith, k))
  ]
  | inr a ↦ elim (Bool-cases (h == any_garment)) [
    | inl b ↦ absurd (let k : some g ≡ none = (rw b at (rw a at e)) in ground (arith, k))
    | inr b ↦ some-injective g h (let k : some g ≡ some h = (rw b at (rw a at e)) in k)
  ]
]

module _ (two_decimals : String → String) where
  twins_identity :
      (d f : Draft)
      → AreTwins (to_input two_decimals d) (to_input two_decimals f)
      → identity d ≡ identity f
  unfolding to_input identity
  twins_identity d f (service, garment, item) =
      let same = unless_any-injective d.garment_type f.garment_type garment in
      rw service (rw same (rw item refl))

  -- No draft's identity was seen before, and no two drafts make twins.
  repeats-NoTwins :
      (seen : List String) (drafts : List Draft)
      → repeats seen drafts ≡ false
      → ((d : Draft) → Has d drafts → includes seen (identity d) ≡ false)
        × NoTwins (map (to_input two_decimals) drafts)
  unfolding repeats
  repeats-NoTwins seen [] e = (λ d has. absurd has, tt)
  repeats-NoTwins seen (d ∷ drafts) e = elim (Bool-cases (includes seen (identity d))) [
    | inl t ↦ absurd (let k : true ≡ false = (rw t at e) in ground (arith, k))
    | inr f ↦
        let (fresh, apart) = repeats-NoTwins (identity d ∷ seen) drafts (rw f at e) in
        (
          λ x has. elim has [
            | inl same ↦ ap (λ y. includes seen (identity y)) same ∙ f
            | inr more ↦ let new = fresh x more in ground (arith, new)
          ],
          (
            λ j has twins.
                let (x, in_drafts, made) = map-Has (to_input two_decimals) drafts j has in
                let new = fresh x in_drafts in
                let same =
                  twins_identity d x (subst (AreTwins (to_input two_decimals d)) made twins) in
                ground (arith, new, (eq_iff (identity d) (identity x)).1 same),
            apart,
          ),
        )
  ]

-- A draft that can be sent: a service, an item and a whole number of at least one.
abbrev pub IsGood : (String → Option ℤ) → Draft → Type 0
IsGood whole d =
    ((d.service == "") ≡ false)
    × ((d.stock_item == "") ≡ false)
    × (n : ℕ) × (0 < n)
    × (whole d.qty ≡ some (pos n))

at_least_one-whole : (o : Option ℤ) → at_least_one o ≡ true → (n : ℕ) × (0 < n) × (o ≡ some (pos n))
at_least_one-whole none e = ground (arith, e)
at_least_one-whole (some (negsuc n)) e = ground (arith, e)
at_least_one-whole (some (pos n)) e = (n, ltb→lt 0 n e, refl)

is_complete-IsGood :
    (whole : String → Option ℤ) (d : Draft) → is_complete whole d ≡ true → IsGood whole d
unfolding is_complete
is_complete-IsGood whole d e =
    let (n, positive, same) = at_least_one-whole (whole d.qty) (ground (arith, e)) in
    (ground (arith, e), ground (arith, e), n, positive, same)

all_drafts-All :
    (whole : String → Option ℤ) (drafts : List Draft)
    → all_drafts (is_complete whole) drafts ≡ true
    → All (IsGood whole) drafts
all_drafts-All whole [] e = tt
all_drafts-All whole (d ∷ drafts) e = (
  is_complete-IsGood whole d (ground (arith, e)),
  all_drafts-All whole drafts (ground (arith, e)),
)

module _ (whole : String → Option ℤ) (stringify : List (List String) → String)
    (two_decimals : String → String) where
  -- What a press of the save button sends is the drafts on the screen, every one with a service, an item
  -- and a whole quantity of at least one, and no two of them for the same service, garments and item.
  pub press_save_exact :
      (e : Editor) (inputs : List RuleInput)
      → press_save whole stringify two_decimals e ≡ some inputs
      → (inputs ≡ map (to_input two_decimals) e.drafts)
        × All (IsGood whole) e.drafts
        × NoTwins inputs
  unfolding press_save can_save
  press_save_exact e inputs sent =
      elim (Bool-cases (any (λ d. true) e.drafts && can_save whole stringify two_decimals e)) [
        | inr barred ↦
            absurd (let k : none ≡ some inputs = (rw barred at sent) in ground (arith, k))
        | inl allowed ↦
            let same = some-injective (map (to_input two_decimals) e.drafts) inputs (
              let k : some (map (to_input two_decimals) e.drafts) ≡ some inputs =
                (rw allowed at sent) in
              k) in
            (
              sym same,
              all_drafts-All whole e.drafts (ground (arith, allowed)),
              subst NoTwins same
                  ((repeats-NoTwins two_decimals [] e.drafts (ground (arith, allowed))).1),
            )
      ]

-- The rule itself, as it is sent.
abbrev pub input_of : ConsumptionRule → RuleInput
input_of r = record {
  service = r.service;
  garment_type = r.garment_type;
  stock_item = r.stock_item;
  qty_per_unit = r.qty_per_unit;
}

-- The kinds by which stock goes out.
abbrev pub takes_out : AdjustmentKind → Bool
takes_out issue = true
takes_out wastage = true
takes_out _ = false

signed-takes_out :
    (kind : AdjustmentKind) (n : ℕ)
    → signed (is_outgoing kind) (pos n) ≡ (if takes_out kind then negated n else pos n)
signed-takes_out issue n = refl
signed-takes_out wastage n = refl
signed-takes_out return n = refl
signed-takes_out adjustment n = refl

sent_adjustment :
    (a : Adjustment) (o : Option ℤ) (i : AdjustInput)
    → adjust_input a o ≡ some i
    → (n : ℕ) × (0 < n)
      × (o ≡ some (pos n))
      × (i.kind ≡ a.kind)
      × (i.delta ≡ (if takes_out a.kind then negated n else pos n))
sent_adjustment a none i e = ground (arith, e)
sent_adjustment a (some (negsuc n)) i e = elim (Bool-cases (a.item == "")) [
  | inl t ↦ absurd (let k : none ≡ some i = (rw t at e) in ground (arith, k))
  | inr f ↦ absurd (let k : none ≡ some i = (rw f at e) in ground (arith, k))
]
sent_adjustment a (some (pos n)) i e = elim (Bool-cases (not (a.item == "") && ltb 0 n)) [
  | inr f ↦ absurd (let k : none ≡ some i = (rw f at e) in ground (arith, k))
  | inl t ↦
      let sent : AdjustInput = record {
        item = a.item;
        delta = signed (is_outgoing a.kind) (pos n);
        kind = a.kind;
        note = trim a.note;
      } in
      let same : sent ≡ i = some-injective sent i (let k : some sent ≡ some i = (rw t at e) in k) in
      (
        n,
        ltb→lt 0 n (ground (arith, t)),
        refl,
        ap (λ (x : AdjustInput). x.kind) (sym same),
        ap (λ (x : AdjustInput). x.delta) (sym same) ∙ signed-takes_out a.kind n,
      )
]

-- The dialog sends only a whole quantity of at least one, and sends it as stock that goes out for an
-- issue and for wastage, and as stock that comes in for a return and for a correction.
pub press_adjust_exact :
    (whole : String → Option ℤ) (a : Adjustment) (i : AdjustInput)
    → press_adjust whole a ≡ some i
    → (n : ℕ) × (0 < n)
      × (whole a.qty ≡ some (pos n))
      × (i.kind ≡ a.kind)
      × (i.delta ≡ (if takes_out a.kind then negated n else pos n))
unfolding press_adjust
press_adjust_exact whole a i sent = sent_adjustment a (whole a.qty) i sent
