-- ===== src/Api/Flight.antt =====
-- `refreshOnce` of packages/api-client/src/index.ts: requests that fail together share one renewal. A
-- call of `refreshAccessToken` has a number, which stands for its promise.
pub mod Shared
mod Tests
use ironman.Prelude.{
  ℕ, zero, suc, ◌+◌, String, Bool, true, false, not, Option, none, some, List, [], ◌∷◌, ◌++◌, map,
  filter, nat_eq, ◌≡◌,
}
use ironman.Exec.{Result}

-- A request and the call whose promise it awaits.
pub record Waiter : Type 0 where
  pub request : String
  pub call : ℕ

-- A request whose promise settled, and what it came to.
pub record Served : Type 0 where
  pub waiter : Waiter
  pub outcome : Result (Option String)

-- `refreshing`; the calls made and settled so far; the requests that await one, and those served.
pub record Flight : Type 0 where
  pub refreshing : Option ℕ
  pub started : ℕ
  pub settled : ℕ
  pub waiting : List Waiter
  pub answered : List Served

abbrev pub at_rest : Flight
at_rest = record { refreshing = none; started = 0; settled = 0; waiting = []; answered = [] }

-- The promise that `refreshOnce` returns to a request.
abbrev pub join_call : String → Option ℕ → Flight → Flight
join_call r (some call) s = record s {
  waiting = s.waiting ++ record { request = r; call = call } ∷ [];
}
join_call r none s = record s {
  refreshing = some s.started;
  started = suc s.started;
  waiting = s.waiting ++ record { request = r; call = s.started } ∷ [];
}

unfoldable pub refresh_once : String → Flight → Flight
refresh_once r s = join_call r s.refreshing s

abbrev pub awaits : ℕ → Waiter → Bool
awaits call w = nat_eq w.call call

-- A call settles: `finally` clears `refreshing`, then every request that awaits it goes on.
unfoldable pub settle_call : ℕ → Result (Option String) → Flight → Flight
settle_call call outcome s = record {
  refreshing = none;
  started = s.started;
  settled = suc s.settled;
  waiting = filter (λ w. not (awaits call w)) s.waiting;
  answered =
      s.answered
      ++ map (λ (w : Waiter). record { waiter = w; outcome = outcome })
          (filter (awaits call) s.waiting);
}

-- What can happen next.
pub data Step : Flight → Flight → Type 0 where
  join : {s : Flight} (r : String) → Step s (refresh_once r s)
  settle :
      {s : Flight} (call : ℕ) (outcome : Result (Option String))
      → s.refreshing ≡ some call
      → Step s (settle_call call outcome s)

pub data Reach : Flight → Type 0 where
  start : Reach at_rest
  then : {s t : Flight} → Reach s → Step s t → Reach t
