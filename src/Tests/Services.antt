-- ===== src/Tests/Services.antt =====
-- The backoff, the share of units, the lease table and the keepalive wheel on concrete calls.
use mathlib.Core.List.{Memᴰ}
use wave_house.Prelude.{
  ℕ, false, [], ◌∷◌, arith, inr, refl, List, min, ◌-◌, ◌<◌, ◌≡◌, ◌≤◌, ◌*◌, ◌^◌, ◌/◌,
}
use wave_house.Prelude.Bytes.{decimal, decimal_digits, codes, count, lookup, bytes_eq, Bytes}
use wave_house.Prelude.Maps.{put, delete}
use wave_house.Ingest.Backoff.{Backoff, retry_base, allow, waiting, fail, adopt, spread, delay}
use wave_house.Ingest.Backoff.Laws.{IsJitter, patience, waits-AreBounded, fail-doubles}
use wave_house.Ingest.Backoffs.{
  Target, key_of, empty, Call, failed, succeeded, run, set_waiting, ask_both,
}
use wave_house.Ingest.Backoffs.Laws.{set_waiting-ask_both}
use wave_house.Ingest.Assign.{fnv_1a, fnv_start, unit_score, assign_by, mix, xor}
use wave_house.Ingest.Assign.Owners.{HasOwner}
use wave_house.Ingest.Assign.Even.{holders, assign_by-IsEven}
use wave_house.Coord.Local.{
  Term, System, new_system, call_acquire, call_resign, call_close, acquired, try_acquire,
  last_token, has_term, same_term, grant, end_locked, remove_term, resign,
}
use wave_house.Coord.Local.Laws.{run-holds_once}
use wave_house.Coord.Local.Fencing.{try_acquire-fences}
use wave_house.Stream.Heartbeat.{
  call_add, call_remove, call_reconfigure, call_tick, new_heartbeater, is_registered, pushed,
}
use wave_house.Stream.Heartbeat.Wheel.{places_of}
use wave_house.Stream.Heartbeat.Refines.{AddsOnce, IsOrder, spot, run-Refines}
use wave_house.Stream.Heartbeat.Rounds.{ticks, run-keeps_alive}
use wave_house.Coord.Local
use wave_house.Stream.Heartbeat

abbrev jitter : ℕ → ℕ
jitter d = d - 1

abbrev cap : ℕ
cap = 3_000_000_000

-- Two failures, the second one when the first window is over.
abbrev failing : Backoff
failing = record {
  failures = 2;
  until = 9_000_000_000;
  probing = false;
  since = 1;
  logged = 1;
  ceiling = 5_000_000_000;
}

jitter-IsJitter : IsJitter jitter
jitter-IsJitter d h = omega arith

waits-AreBounded_example :
    ((allow failing 5_000_000_000 cap jitter).1 ≤ patience cap)
    × ((waiting failing 5_000_000_000 cap jitter).1 ≤ patience cap)
    × ((fail failing 5_000_000_000 cap jitter).wait ≤ patience cap)
waits-AreBounded_example =
    waits-AreBounded failing 5_000_000_000 cap jitter jitter-IsJitter (omega arith)

cut_wait : (allow failing 5_000_000_000 cap jitter).1 ≡ 3_999_999_999
unfolding allow adopt spread
cut_wait = refl

failing_wait : (fail failing 9_000_000_000 cap jitter).wait ≡ 2_999_999_999
unfolding fail adopt delay spread
failing_wait = refl

fail-doubles_example :
    (min (retry_base * 2 ^ 2) cap / 2 ≤ (fail failing 9_000_000_000 cap jitter).wait)
    × ((fail failing 9_000_000_000 cap jitter).wait ≤ min (retry_base * 2 ^ 2) cap)
    × ((allow (fail failing 9_000_000_000 cap jitter).state 11_000_000_000 cap jitter).2 ≡ false)
fail-doubles_example =
    fail-doubles failing 9_000_000_000 cap 11_000_000_000 cap jitter jitter jitter-IsJitter
      (omega arith) (omega arith) (inr (omega arith)) (omega arith) (omega (arith, failing_wait))
      (omega arith)

abbrev pool : Target
pool = record { url = codes "http://ch:8123"; username = codes "u"; database = codes "d" }

-- The pool fails, and is back.
abbrev outage_and_back : List Call
outage_and_back =
    failed (key_of pool []) 1_000_000_000 cap jitter ∷ succeeded (key_of pool []) 2_000_000_000 ∷ []

set_waiting-ask_both_example :
    ((set_waiting (run empty outage_and_back) pool (codes "t") 3_000_000_000 cap jitter).1
      ≡ (ask_both (run empty outage_and_back) pool (codes "t") 3_000_000_000 cap jitter).1)
    × ((set_waiting (run empty outage_and_back) pool (codes "t") 3_000_000_000 cap jitter).2
        ≡ (ask_both (run empty outage_and_back) pool (codes "t") 3_000_000_000 cap jitter).2)
set_waiting-ask_both_example =
    set_waiting-ask_both outage_and_back pool (codes "t") 3_000_000_000 cap jitter

-- Handle 0 takes a lease, handle 1 is refused it and takes another.
abbrev two_leases : List Local.Call
two_leases =
    call_acquire 0 false (codes "a")
    ∷ call_acquire 1 false (codes "a")
    ∷ call_acquire 1 false (codes "b")
    ∷ []

abbrev main_handle : ℕ
main_handle = 0

abbrev first_term : Term
first_term = record { owner = 0; name = codes "a"; token = 1 }

run-holds_once_example :
    (first_term ≡ first_term)
    × (main_handle ≡ main_handle)
    × (first_term.token ≡ last_token (codes "a") (Local.run new_system two_leases).table)
unfolding Local.run Local.step try_acquire grant has_term same_term last_token lookup bytes_eq put
run-holds_once_example =
    run-holds_once two_leases main_handle main_handle first_term first_term refl refl refl

-- Handle 0 gives the lease back, and handle 1 takes it.
try_acquire-fences_example : 1 < 2
unfolding Local.run Local.step try_acquire grant end_locked resign has_term remove_term same_term
    last_token lookup bytes_eq put delete
try_acquire-fences_example =
    try_acquire-fences [] (call_resign first_term ∷ []) 0 1 false false (codes "a") first_term
      (record { owner = 1; name = codes "a"; token = 2 }) (omega arith) refl refl

abbrev in_order : List ℕ → List ℕ
in_order b = b

in_order-IsOrder : IsOrder in_order
in_order-IsOrder x b = refl

-- Three streams open, the wheel is rebuilt with two buckets, and one stream closes.
abbrev streams : List Heartbeat.Call
streams =
    call_add 1
    ∷ call_add 2
    ∷ call_tick
    ∷ call_add 3
    ∷ call_reconfigure 10_000_000_000 2
    ∷ call_remove 1
    ∷ []

run-Refines_example :
    places_of 3 (Heartbeat.run in_order streams (new_heartbeater 0 0))
    ≡ spot (is_registered 3 streams false)
unfolding AddsOnce
run-Refines_example =
    run-Refines in_order in_order-IsOrder 0 0 streams 3 (refl, (refl, (tt, (refl, (tt, (tt, tt))))))

run-keeps_alive_example :
    (k : ℕ) × (k < (Heartbeat.run in_order streams (new_heartbeater 0 0)).size)
    × (0 < count 3 (pushed (ticks k (Heartbeat.run in_order streams (new_heartbeater 0 0)))))
unfolding AddsOnce is_registered
run-keeps_alive_example =
    run-keeps_alive in_order 0 0 streams 3 in_order-IsOrder
      (refl, (refl, (tt, (refl, (tt, (tt, tt)))))) refl

fnv_of_a : fnv_1a fnv_start (codes "a") ≡ 12638187200555641996
unfolding fnv_1a xor
fnv_of_a = refl

abbrev units : List Bytes
units = codes "acme/a" ∷ codes "acme/b" ∷ codes "acme/c" ∷ []

abbrev live_slots : List ℕ
live_slots = 7 ∷ 2 ∷ []

score_of_unit : unit_score (codes "acme/a") 7 ≡ 11192483989407400935
unfolding unit_score mix fnv_1a xor decimal decimal_digits
score_of_unit = refl

live_slots-once : (s : ℕ) → count s live_slots ≤ 1
unfolding count
live_slots-once s = ground arith

assign_by-IsEven_example :
    HasOwner live_slots (codes "acme/b") (assign_by unit_score units live_slots)
    × (holders 2 (assign_by unit_score units live_slots) ≤ 2)
assign_by-IsEven_example =
    assign_by-IsEven unit_score units live_slots (codes "acme/b") 2 (omega arith) live_slots-once
      (Memᴰ.tail (Memᴰ.head refl))
