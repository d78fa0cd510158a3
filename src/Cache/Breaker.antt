-- ===== src/Cache/Breaker.antt =====
-- internal/cache/breaker.go: the breaker that keeps a failing cache server from costing every request
-- its timeout. The mutex makes each method one step; the injected clock's reading is an argument.
-- Times are nanoseconds since a fixed instant, so `now.Sub(openedAt) < openFor` is a comparison of
-- sums.
pub mod Laws
pub mod Threshold
use wave_house.Prelude.{
  ℕ, Bool, Option, false, true, ltb, leb, ◌+◌, if◌then◌else◌, not, ◌&&◌, ◌||◌, List, ◌∷◌, [],
}
use wave_house.Prelude.Int.{ℤ, pos, ◌-ℤ◌}

pub record Breaker : Type 0 where
  pub threshold : ℕ
  pub open_for : ℕ
  pub failures : ℕ
  pub «open» : Bool
  pub opened_at : ℕ
  pub probing : Bool

unfoldable pub new_breaker : ℕ → ℕ → Breaker
new_breaker threshold open_for = record {
  threshold = threshold;
  open_for = open_for;
  failures = 0;
  «open» = false;
  opened_at = 0;
  probing = false;
}

pub data Opening : Type 0 where
  unchanged opened reopened : Opening

-- Whether the call may go to the server, and whether the caller is to probe.
unfoldable pub allow : Breaker → ℕ → Breaker × Bool × Bool
allow b now =
    if not b.«open»
    then (b, true, false)
    else if b.probing || ltb now (b.opened_at + b.open_for)
    then (b, false, false)
    else (record b { probing = true }, false, true)

unfoldable pub success : Breaker → Breaker
success b =
    if b.«open» && not b.probing
    then b
    else record b { failures = 0; «open» = false; probing = false }

unfoldable pub opening_of : Breaker → Opening
opening_of b = if not b.«open» then opened else if b.probing then reopened else unchanged

unfoldable pub open_locked : Breaker → ℕ → Breaker × Opening
open_locked b now = (record b { «open» = true; opened_at = now; probing = false }, opening_of b)

unfoldable pub failure : Breaker → ℕ → Breaker × Opening
failure b now =
    let b' : Breaker = record b { failures = b.failures + 1 } in
    if b'.probing || leb b'.threshold b'.failures then open_locked b' now else (b', unchanged)

unfoldable pub trip : Breaker → ℕ → Breaker × Opening
trip b now = open_locked b now

unfoldable pub is_open : Breaker → Bool
is_open b = b.«open»

-- How long until the probe is due, and whether the breaker is open.
unfoldable pub until_probe : Breaker → ℕ → ℤ × Bool
until_probe b now =
    if not b.«open»
    then (pos 0, false)
    else if b.probing
    then (pos b.open_for, true)
    else (pos (b.opened_at + b.open_for) -ℤ pos now, true)

-- One call of a method, at the time the clock reads.
pub data Call : Type 0 where
  allow_at : ℕ → Call
  success_at : Call
  failure_at : ℕ → Call
  trip_at : ℕ → Call

unfoldable pub step : Breaker → Call → Breaker
step b (allow_at now) = (allow b now).0
step b success_at = success b
step b (failure_at now) = (failure b now).0
step b (trip_at now) = (trip b now).0

unfoldable pub run : Breaker → List Call → Breaker
run b [] = b
run b (c ∷ cs) = run (step b c) cs
