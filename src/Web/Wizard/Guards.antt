-- ===== src/Web/Wizard/Guards.antt =====
-- What stays answered while a customer goes through the wizard.
use ironman.Prelude.{
  ◌≡◌, refl, sym, ap, subst, ◌∙◌, inl, inr, ℕ, zero, suc, ◌+◌, ◌≤◌, ◌<◌, String, Bool, true, ◌&&◌,
  Option, none, some, List, [], ◌∷◌, ltb, ltb→lt, take, arith, Bool-cases,
}
use ironman.Booking.Request.{filled}
use ironman.Web.Wizard.{Hub, Serviceability, Wizard, opened, Act}
use ironman.Web.Wizard.Acts.{
  guards, nth, perform, handle_confirm, place_with, card_of, is_shown, is_enabled, Visit, open_page,
  act,
}

nth-of_take : (i k : ℕ) (xs : List Bool) → i < k → nth i (take k xs) ≡ nth i xs
unfolding nth
nth-of_take i zero xs lower = absurd omega (arith, lower)
nth-of_take i (suc k) [] lower = refl
nth-of_take zero (suc k) (x ∷ xs) lower = refl
nth-of_take (suc i) (suc k) (x ∷ xs) lower = nth-of_take i k xs (omega (arith, lower))

nth-take : (i k : ℕ) (xs ys : List Bool) → i < k → take k xs ≡ take k ys → nth i xs ≡ nth i ys
nth-take i k xs ys lower same =
    sym (nth-of_take i k xs lower) ∙ ap (nth i) same ∙ nth-of_take i k ys lower

nth_fifth : (a b c d e f : Bool) → nth 5 (a ∷ b ∷ c ∷ d ∷ e ∷ f ∷ []) ≡ f
unfolding nth
nth_fifth a b c d e f = refl

module _ (serviceability : String → Option Serviceability) (keys : ℕ → String) where
  -- The steps that the customer has passed are answered still.
  pub record IsGuarded (w : Wizard) : Type 0 where
    pub in_range : w.step ≤ 6
    pub passed : (i : ℕ) → i < w.step → nth i (guards serviceability keys w) ≡ true

  opened-IsGuarded : (src ref : Option String) → IsGuarded (opened src ref)
  unfolding opened
  opened-IsGuarded src ref = record {
    in_range = omega arith;
    passed = λ i h. absurd (omega (arith, h));
  }

  -- Two wizards on one step whose guards below it agree.
  same_below :
      (w v : Wizard)
      → v.step ≡ w.step
      → ((i : ℕ)
          → i < w.step
          → nth i (guards serviceability keys v) ≡ nth i (guards serviceability keys w))
      → IsGuarded w
      → IsGuarded v
  same_below w v step agree inv = record {
    in_range = omega (arith, inv.in_range, step);
    passed = λ i h.
        let lower : i < w.step = omega (arith, h, step) in agree i lower ∙ inv.passed i lower;
  }

  next-IsGuarded :
      (w : Wizard)
      → w.step < 6
      → nth w.step (guards serviceability keys w) ≡ true
      → IsGuarded w
      → IsGuarded (record w { step = w.step + 1 })
  next-IsGuarded w small here inv = record {
    in_range = omega (arith, small);
    passed = λ i h. elim (Bool-cases (ltb i w.step)) [
      | inl lower ↦ inv.passed i (ltb→lt i w.step lower)
      | inr last ↦
          subst (λ j. nth j (guards serviceability keys w) ≡ true) (ground (arith, h, last)) here
    ];
  }

  -- A control on the card of the step that the customer is on changes no answer before it.
  on_card :
      (k : ℕ) (w v : Wizard)
      → take k (guards serviceability keys v) ≡ take k (guards serviceability keys w)
      → v.step ≡ w.step
      → w.step ≡ k
      → IsGuarded w
      → IsGuarded v
  on_card k w v same step here inv =
      same_below w v step (λ i h. nth-take i k _ _ (omega (arith, h, here)) same) inv

  verified-IsGuarded :
      (w : Wizard) (token : String)
      → filled token ≡ true
      → IsGuarded w
      → IsGuarded (record w { access_token = some token })
  verified-IsGuarded w token real inv = record {
    in_range = inv.in_range;
    passed = λ i h. elim (Bool-cases (ltb i 5)) [
      | inl lower ↦
          nth-take i 5 _ (guards serviceability keys w) (ltb→lt i 5 lower) refl ∙ inv.passed i h
      | inr last ↦
          subst
            (λ j.
              nth j (guards serviceability keys (record w { access_token = some token })) ≡ true)
            (ground (arith, h, last, inv.in_range)) (nth_fifth _ _ _ _ _ _ ∙ real)
    ];
  }

  confirm-IsGuarded :
      (w : Wizard) (hub : Option Hub) (service token : Option String)
      → IsGuarded w
      → IsGuarded (place_with serviceability keys w hub service token)
  confirm-IsGuarded w (some hub) (some service) (some token) inv =
      same_below w _ refl (λ i h. refl) inv
  confirm-IsGuarded w none service token inv = inv
  confirm-IsGuarded w (some hub) none token inv = inv
  confirm-IsGuarded w (some hub) (some service) none inv = inv

  perform-IsGuarded :
      (w : Wizard) (a : Act)
      → (is_shown w.step (card_of a) && is_enabled serviceability keys w a) ≡ true
      → IsGuarded w
      → IsGuarded (perform serviceability keys w a)
  unfolding perform handle_confirm
  perform-IsGuarded w (Act.type_pincode text) allowed inv =
      on_card 0 w _ refl refl (ground (arith, allowed)) inv
  perform-IsGuarded w (Act.choose_mode mode) allowed inv =
      on_card 1 w _ refl refl (ground (arith, allowed)) inv
  perform-IsGuarded w (Act.search text) allowed inv =
      on_card 1 w _ refl refl (ground (arith, allowed)) inv
  perform-IsGuarded w (Act.choose_apartment a) allowed inv =
      on_card 1 w _ refl refl (ground (arith, allowed)) inv
  perform-IsGuarded w Act.drop_apartment allowed inv =
      on_card 1 w _ refl refl (ground (arith, allowed)) inv
  perform-IsGuarded w (Act.type_flat_no text) allowed inv =
      on_card 1 w _ refl refl (ground (arith, allowed)) inv
  perform-IsGuarded w (Act.type_free_text text) allowed inv =
      on_card 1 w _ refl refl (ground (arith, allowed)) inv
  perform-IsGuarded w (Act.choose_service id) allowed inv =
      on_card 2 w _ refl refl (ground (arith, allowed)) inv
  perform-IsGuarded w (Act.fewer g) allowed inv =
      on_card 3 w _ refl refl (ground (arith, allowed)) inv
  perform-IsGuarded w (Act.more g) allowed inv =
      on_card 3 w _ refl refl (ground (arith, allowed)) inv
  perform-IsGuarded w (Act.verified token) allowed inv = verified-IsGuarded w token allowed inv
  perform-IsGuarded w Act.back allowed inv = record {
    in_range = omega (arith, inv.in_range);
    passed = λ i h. inv.passed i (omega (arith, h));
  }
  perform-IsGuarded w Act.next allowed inv =
      next-IsGuarded w (ground (arith, allowed)) (ground (arith, allowed)) inv
  perform-IsGuarded w Act.confirm allowed inv = confirm-IsGuarded w _ _ _ inv
  perform-IsGuarded w _ allowed inv = same_below w _ refl (λ i h. refl) inv

  -- On whatever way a customer comes to a step of the wizard, every step before it is answered still.
  pub Visit-IsGuarded : {w : Wizard} → Visit serviceability keys w → IsGuarded w
  Visit-IsGuarded (open_page src ref) = opened-IsGuarded src ref
  Visit-IsGuarded (act {w} visit a allowed) = perform-IsGuarded w a allowed (Visit-IsGuarded visit)
