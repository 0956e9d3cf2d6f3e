-- ===== src/Api/Flight/Shared.antt =====
-- Every run of renewals.
use ironman.Prelude.{
  ℕ, ◌+◌, ◌<◌, ◌≡◌, refl, sym, ap, ◌∙◌, inl, inr, String, not, Option, none, some, List, [], ◌∷◌,
  map, filter, map-Has, Has, append-Has, filter-Has, arith,
}
use mathlib.Core.Option.{some-injective}
use ironman.Exec.{Result}
use ironman.Api.Flight.{
  Waiter, Served, Flight, at_rest, join_call, refresh_once, awaits, settle_call, join, settle,
  Reach, start, then,
}

abbrev pub in_flight : Option ℕ → ℕ
in_flight none = 0
in_flight (some call) = 1

-- One call at most is under way, the last one made; all waiters await it; those served were served by
-- calls that settled, and two that one call served were told the same.
pub record IsShared (s : Flight) : Type 0 where
  pub counted : s.started ≡ s.settled + in_flight s.refreshing
  pub current : (call : ℕ) → s.refreshing ≡ some call → call ≡ s.settled
  pub awaited : (w : Waiter) → Has w s.waiting → s.refreshing ≡ some w.call
  pub served : (a : Served) → Has a s.answered → a.waiter.call < s.settled
  pub agreed :
      (a b : Served)
      → Has a s.answered
      → Has b s.answered
      → a.waiter.call ≡ b.waiter.call
      → a.outcome ≡ b.outcome

at_rest-IsShared : IsShared at_rest
at_rest-IsShared = record {
  counted = refl;
  current = λ call e. ground arith;
  awaited = λ w has. absurd has;
  served = λ a has. absurd has;
  agreed = λ a b has. absurd has;
}

join_call-IsShared :
    (r : String) (call : Option ℕ) (s : Flight)
    → s.refreshing ≡ call
    → IsShared s
    → IsShared (join_call r call s)
join_call-IsShared r (some call) s e inv = record {
  counted = inv.counted;
  current = inv.current;
  awaited = λ w has. elim (append-Has w s.waiting (record { request = r; call = call } ∷ []) has) [
    | inl old ↦ inv.awaited w old
    | inr (inl new) ↦ e ∙ ap (λ (v : Waiter). some v.call) (sym new)
    | inr (inr f) ↦ absurd f
  ];
  served = inv.served;
  agreed = inv.agreed;
}
join_call-IsShared r none s e inv = record {
  counted = omega (arith, inv.counted, ap in_flight e);
  current = λ call q. omega (arith, some-injective s.started call q, inv.counted, ap in_flight e);
  awaited = λ w has.
      elim (append-Has w s.waiting (record { request = r; call = s.started } ∷ []) has) [
        | inl old ↦ ground (arith, inv.awaited w old, e)
        | inr (inl new) ↦ ap (λ (v : Waiter). some v.call) (sym new)
        | inr (inr f) ↦ absurd f
      ];
  served = inv.served;
  agreed = inv.agreed;
}

refresh_once-IsShared : (r : String) (s : Flight) → IsShared s → IsShared (refresh_once r s)
unfolding refresh_once
refresh_once-IsShared r s inv = join_call-IsShared r s.refreshing s refl inv

-- Who was served before and who is served now.
abbrev told : ℕ → Result (Option String) → List Waiter → List Served
told call outcome waiting =
    map (λ (w : Waiter). record { waiter = w; outcome = outcome }) (filter (awaits call) waiting)

told-Has :
    (call : ℕ) (outcome : Result (Option String)) (waiting : List Waiter) (a : Served)
    → Has a (told call outcome waiting)
    → (a.waiter.call ≡ call) × (a.outcome ≡ outcome)
told-Has call outcome waiting a has =
    let (w, in_it, e) =
      map-Has (λ (w : Waiter). record { waiter = w; outcome = outcome })
        (filter (awaits call) waiting) a has in
    let (was, mine) = filter-Has (awaits call) w waiting in_it in
    (ap (λ (b : Served). b.waiter.call) e ∙ ground (arith, mine), ap (λ (b : Served). b.outcome) e)

settle_call-IsShared :
    (call : ℕ) (outcome : Result (Option String)) (s : Flight)
    → s.refreshing ≡ some call
    → IsShared s
    → IsShared (settle_call call outcome s)
unfolding settle_call
settle_call-IsShared call outcome s e inv =
    let now = inv.current call e in
    record {
      counted = omega (arith, inv.counted, ap in_flight e);
      current = λ call q. ground arith;
      awaited = λ w has.
          let (was, other) = filter-Has (λ w. not (awaits call w)) w s.waiting has in
          ground (arith, other, some-injective call w.call (sym e ∙ inv.awaited w was));
      served = λ a has. elim (append-Has a s.answered (told call outcome s.waiting) has) [
        | inl old ↦ omega (arith, inv.served a old)
        | inr new ↦ omega (arith, now, (told-Has call outcome s.waiting a new).0)
      ];
      agreed = λ a b has has' same.
          elim (append-Has a s.answered (told call outcome s.waiting) has) [
            | inl old ↦ elim (append-Has b s.answered (told call outcome s.waiting) has') [
              | inl old' ↦ inv.agreed a b old old' same
              | inr new' ↦
                  absurd omega
                    (arith, inv.served a old, now, same, (told-Has call outcome s.waiting b new').0)
            ]
            | inr new ↦ elim (append-Has b s.answered (told call outcome s.waiting) has') [
              | inl old' ↦
                  absurd omega
                    (arith, inv.served b old', now, same, (told-Has call outcome s.waiting a new).0)
              | inr new' ↦
                  (told-Has call outcome s.waiting a new).1
                  ∙ sym ((told-Has call outcome s.waiting b new').1)
            ]
          ];
    }

-- However renewals start, are joined and settle, in any order: one is under way at most, every request
-- that waits awaits that one, and two requests that one renewal served were told the same outcome.
pub Reach-IsShared : {s : Flight} → Reach s → IsShared s
Reach-IsShared start = at_rest-IsShared
Reach-IsShared (then reached (join {s} r)) = refresh_once-IsShared r s (Reach-IsShared reached)
Reach-IsShared (then reached (settle {s} call outcome e)) =
    settle_call-IsShared call outcome s e (Reach-IsShared reached)
