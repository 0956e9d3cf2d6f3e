-- ===== src/Field/Engine/Passes.antt =====
-- `syncNow` as a machine (apps/field/lib/offline/engine.tsx).
use ironman.Prelude.{ℕ, zero, suc, ◌+◌, ◌≡◌, refl, Bool, true, false, arith, if◌then◌else◌}
use ironman.Field.Engine.{Engine, request, flushed, threw, idle, step}

-- The flushes that are under way: a start adds one, and an end takes one away. An end comes only
-- while a flush is under way.
pub data Trace : Engine → ℕ → Type 0 where
  launch : Trace idle 0
  requested :
      {e : Engine} {n : ℕ}
      → Trace e n
      → Trace (step e request).0 (n + (if (step e request).1 then 1 else 0))
  returned :
      {e : Engine} (went_offline : Bool)
      → Trace e 1
      → Trace (step e (flushed went_offline)).0 (if (step e (flushed went_offline)).1 then 1 else 0)
  failed : {e : Engine} → Trace e 1 → Trace (step e threw).0 (if (step e threw).1 then 1 else 0)

abbrev pub count : Bool → ℕ
count b = if b then 1 else 0

-- In every run of the engine at most one flush is under way, namely while `running` is set, and the
-- spinner `syncing` shows exactly then.
pub one_flush_at_a_time :
    {e : Engine} {n : ℕ} → Trace e n → (n ≡ count e.running) × (e.syncing ≡ e.running)
unfolding step
one_flush_at_a_time launch = (refl, refl)
one_flush_at_a_time (requested t) = ground (arith, one_flush_at_a_time t)
one_flush_at_a_time (returned went_offline t) = ground (arith, one_flush_at_a_time t)
one_flush_at_a_time (failed t) = ground (arith, one_flush_at_a_time t)

abbrev pub ask_times : ℕ → Engine → Engine
ask_times zero e = e
ask_times (suc n) e = ask_times n (step e request).0

asked :
    (n : ℕ) (e : Engine)
    → e.running ≡ true
    → e.again ≡ true
    → ((ask_times n e).running ≡ true) × ((ask_times n e).again ≡ true)
unfolding step
asked zero e r a = (r, a)
asked (suc n) e r a = asked n (step e request).0 (ground arith) (ground arith)

-- However often `syncNow` is called while a flush is under way, exactly one more flush follows it
-- if it returns online, and none if it ends offline or throws.
pub requests_make_one_pass :
    (n : ℕ) (e : Engine)
    → e.running ≡ true
    → let asked_e = ask_times (suc n) e in
      let next = step asked_e (flushed false) in
      (next.1 ≡ true)
      × ((step next.0 (flushed false)).1 ≡ false)
      × ((step asked_e (flushed true)).1 ≡ false)
      × ((step asked_e threw).1 ≡ false)
unfolding step
requests_make_one_pass n e r =
    let (run, more) = asked n (step e request).0 (ground arith) (ground arith) in
    (ground arith, ground arith, ground arith, refl)
