-- ===== src/Cache/Breaker/Laws.antt =====
-- internal/cache/breaker.go: proofs about sequences of calls of the breaker, and about its probe.
use wave_house.Prelude.{
  ℕ, List, ◌≡◌, ◌≤◌, Bool-cases, arith, true, ◌∷◌, false, inr, inl, ◌<◌, [], refl, ◌||◌, ltb, ◌+◌,
  ◌&&◌, not, leb, All, Bool, ◌↔◌,
}
use wave_house.Cache.Breaker.{
  Breaker, Call, allow_at, success_at, failure_at, trip_at, new_breaker, allow, success, failure,
  trip, open_locked, step, run, is_open,
}

-- Only an open breaker probes, and a closed one is below its threshold.
pub record IsWellFormed (b : Breaker) : Type 0 where
  pub probes_open : b.probing ≡ true → b.«open» ≡ true
  pub below : b.«open» ≡ false → b.failures < b.threshold

new_breaker-IsWellFormed :
    (threshold open_for : ℕ) → 1 ≤ threshold → IsWellFormed (new_breaker threshold open_for)
unfolding new_breaker
new_breaker-IsWellFormed threshold open_for h = record {
  probes_open = λ e. absurd (cc);
  below = λ e. omega arith;
}

-- A step keeps the configured threshold as well.
abbrev pub Keeps : Breaker → Breaker → Type 0
Keeps b b' = (b'.threshold ≡ b.threshold) × IsWellFormed b'

open_locked-Keeps : (b : Breaker) (now : ℕ) → Keeps b (open_locked b now).0
unfolding open_locked
open_locked-Keeps b now = (refl, record { probes_open = λ e. refl; below = λ e. absurd (cc) })

-- The three answers of `allow`.
allow-closed : (b : Breaker) (now : ℕ) → b.«open» ≡ false → allow b now ≡ (b, true, false)
unfolding allow
allow-closed b now e = simp e

allow-waiting :
    (b : Breaker) (now : ℕ)
    → b.«open» ≡ true
    → (b.probing || ltb now (b.opened_at + b.open_for)) ≡ true
    → allow b now ≡ (b, false, false)
unfolding allow
allow-waiting b now e f = simp (e, f)

allow-due :
    (b : Breaker) (now : ℕ)
    → b.«open» ≡ true
    → (b.probing || ltb now (b.opened_at + b.open_for)) ≡ false
    → allow b now ≡ (record b { probing = true }, false, true)
unfolding allow
allow-due b now e f = simp (e, f)

step-Keeps : (b : Breaker) (c : Call) → 1 ≤ b.threshold → IsWellFormed b → Keeps b (step b c)
unfolding step success failure trip
step-Keeps b (allow_at now) h w = elim (Bool-cases b.«open») [
  | inr closed ↦ rw (step, allow-closed b now closed) (refl, w)
  | inl live ↦ elim (Bool-cases (b.probing || ltb now (b.opened_at + b.open_for))) [
    | inl e ↦ rw (step, allow-waiting b now live e) (refl, w)
    | inr e ↦
        rw (step, allow-due b now live e)
          (refl, record { probes_open = λ _. live; below = λ k. absurd (cc) })
  ]
]
step-Keeps b success_at h w = elim (Bool-cases (b.«open» && not b.probing)) [
  | inl e ↦ rw e (refl, w)
  | inr e ↦ rw e (refl, record { probes_open = λ k. absurd (cc); below = λ k. omega arith })
]
step-Keeps b (failure_at now) h w =
    elim (Bool-cases (b.probing || leb b.threshold (b.failures + 1))) [
      | inl e ↦
          rw (step, failure, e) (open_locked-Keeps (record b { failures = b.failures + 1 }) now)
      | inr e ↦
          rw (step, failure, e)
            (refl, record { probes_open = λ k. absurd (ground arith); below = λ k. ground arith })
    ]
step-Keeps b (trip_at now) h w = open_locked-Keeps b now

-- Whatever calls a new breaker with a positive threshold has seen, it has a probe out only if it
-- is open, and while it is closed its count of failures is below the threshold.
pub run-IsWellFormed :
    (threshold open_for : ℕ) (cs : List Call)
    → 1 ≤ threshold
    → IsWellFormed (run (new_breaker threshold open_for) cs)
unfolding run new_breaker
run-IsWellFormed threshold open_for cs h =
    from _ cs h (new_breaker-IsWellFormed threshold open_for h)
  where
    from :
        (b : Breaker) (ds : List Call) → 1 ≤ b.threshold → IsWellFormed b → IsWellFormed (run b ds)
    from b [] k w = w
    from b (d ∷ ds) k w =
        let (same, w') = step-Keeps b d k w in from (step b d) ds (omega (arith, same)) w'

-- What the server is asked: a closed breaker lets every call through, an open one none, and only an
-- open one that has no probe out and whose time is up asks for one.
pub record IsGated (b : Breaker) (now : ℕ) : Type 0 where
  pub passes : (allow b now).1 ≡ not (is_open b)
  pub probe_iff :
      ((allow b now).2 ≡ true)
      ↔ ((b.«open» ≡ true) × (b.probing ≡ false) × (b.opened_at + b.open_for ≤ now))

-- `allow` lets a call through exactly where the breaker is closed, and asks for a probe exactly where it
-- is open, no probe is out and the open period is over.
pub allow-IsGated : (b : Breaker) (now : ℕ) → IsGated b now
unfolding is_open
allow-IsGated b now = elim (Bool-cases b.«open») [
  | inr closed ↦ record {
    passes = rw (allow-closed b now closed, closed) refl;
    probe_iff = rw (allow-closed b now closed) (λ e. absurd (cc), λ (e, _, _). absurd (cc));
  }
  | inl live ↦ elim (Bool-cases (b.probing || ltb now (b.opened_at + b.open_for))) [
    | inl e ↦ record {
      passes = rw (allow-waiting b now live e, live) refl;
      probe_iff = rw (allow-waiting b now live e) (λ k. absurd (cc), λ k. absurd (ground arith));
    }
    | inr e ↦ record {
      passes = rw (allow-due b now live e, live) refl;
      probe_iff = rw (allow-due b now live e) (λ _. (live, ground arith, ground arith), λ _. refl);
    }
  ]
]

-- The calls of `allow` alone, with what each answers.
unfoldable pub allow_all : Breaker → List ℕ → List (Bool × Bool)
allow_all b [] = []
allow_all b (now ∷ ts) = ((allow b now).1, (allow b now).2) ∷ allow_all (allow b now).0 ts

abbrev pub Refused : Bool × Bool → Type 0
Refused answer = answer ≡ (false, false)

probing-Refused :
    (b : Breaker) (ts : List ℕ) → b.«open» ≡ true → b.probing ≡ true → All Refused (allow_all b ts)
unfolding allow_all
probing-Refused b [] h k = tt
probing-Refused b (now ∷ ts) h k =
    rw (allow-waiting b now h (ground arith)) (refl, probing-Refused b ts h k)

-- After `allow` told a caller to probe, every further `allow` is refused and asks for no probe,
-- whatever the times, as long as no outcome is reported in between.
pub allow-probes_once :
    (b : Breaker) (now : ℕ) (ts : List ℕ)
    → (allow b now).2 ≡ true
    → All Refused (allow_all (allow b now).0 ts)
allow-probes_once b now ts h =
    let (live, idle, due) = (allow-IsGated b now).probe_iff.0 h in
    rw (allow-due b now live (ground arith))
      (probing-Refused (record b { probing = true }) ts live refl)
