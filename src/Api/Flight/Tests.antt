-- ===== src/Api/Flight/Tests.antt =====
-- Two requests that share a renewal.
use ironman.Prelude.{refl, some}
use ironman.Exec.{ok}
use ironman.Api.Flight.{
  Flight, at_rest, refresh_once, settle_call, Reach, start, then, join, settle,
}
use ironman.Api.Flight.Shared.{IsShared, Reach-IsShared}

abbrev both_wait : Flight
both_wait = refresh_once "b" (refresh_once "a" at_rest)

abbrev both_served : Flight
both_served = settle_call 0 (ok (some "new")) both_wait

served_reached : Reach both_served
unfolding refresh_once
served_reached = then (then (then start (join "a")) (join "b")) (settle 0 (ok (some "new")) refl)

Reach-IsShared_example : IsShared both_served
Reach-IsShared_example = Reach-IsShared served_reached
