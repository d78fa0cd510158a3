-- ===== src/Cache/Breaker/Threshold.antt =====
-- internal/cache/breaker.go: proofs about the threshold of failures and the wait for a probe.
use wave_house.Prelude.{
  ℕ, List, leb, ◌≡◌, false, true, ◌+◌, ◌∷◌, ◌≤◌, Bool-cases, [], length, ◌<◌, ◌||◌, ◌↔◌, arith, inl,
  inr, ◌∙◌, ap, refl,
}
use wave_house.Prelude.Int.{ℤ, pos, ◌-ℤ◌, ◌≤ℤ◌}
use wave_house.Cache.Breaker.{allow, is_open, until_probe, new_breaker}
use wave_house.Cache.Breaker.Laws.{allow-IsGated}
use wave_house.Prelude.Int.{ℤ, pos, ◌-ℤ◌}
use wave_house.Cache.Breaker.{
  Breaker, Call, failure_at, new_breaker, failure, open_locked, step, run, until_probe, is_open,
}
use wave_house.Cache.Breaker.Laws.{allow-IsGated}

-- Failures in a row, at these times.
abbrev pub failures_at : List ℕ → List Call
failures_at [] = []
failures_at (t ∷ ts) = failure_at t ∷ failures_at ts

failure-open : (b : Breaker) (now : ℕ) → b.«open» ≡ true → (failure b now).0.«open» ≡ true
unfolding failure open_locked
failure-open b now h = elim (Bool-cases (b.probing || leb b.threshold (b.failures + 1))) [
  | inl e ↦ rw e refl
  | inr e ↦ rw e h
]

stays_open : (b : Breaker) (ts : List ℕ) → b.«open» ≡ true → (run b (failures_at ts)).«open» ≡ true
unfolding run step
stays_open b [] h = h
stays_open b (t ∷ ts) h = stays_open (failure b t).0 ts (failure-open b t h)

failure-below :
    (b : Breaker) (now : ℕ)
    → b.probing ≡ false
    → b.failures + 1 < b.threshold
    → (failure b now).0 ≡ record b { failures = b.failures + 1 }
unfolding failure
failure-below b now p h =
    let e : (b.probing || leb b.threshold (b.failures + 1)) ≡ false = ground arith in rw e refl

failure-reaches :
    (b : Breaker) (now : ℕ)
    → leb b.threshold (b.failures + 1) ≡ true
    → (failure b now).0.«open» ≡ true
unfolding failure open_locked
failure-reaches b now h =
    let e : (b.probing || leb b.threshold (b.failures + 1)) ≡ true = ground arith in rw e refl

counting :
    (b : Breaker) (ts : List ℕ)
    → b.«open» ≡ false
    → b.probing ≡ false
    → b.failures < b.threshold
    → (run b (failures_at ts)).«open» ≡ leb b.threshold (b.failures + length ts)
unfolding run step
counting b [] c p h = c ∙ ground arith
counting b (t ∷ ts) c p h = elim (Bool-cases (leb b.threshold (b.failures + 1))) [
  | inl e ↦ stays_open (failure b t).0 ts (failure-reaches b t e) ∙ ground arith
  | inr e ↦
      ap (λ x. (run x (failures_at ts)).«open») (failure-below b t p (ground arith))
      ∙ (counting (record b { failures = b.failures + 1 }) ts c p (ground arith)
          ∙ ap (leb b.threshold) (omega arith))
]

-- A new breaker with a positive threshold that sees only failures is open exactly when they are
-- at least as many as the threshold, whenever they come.
pub run-opens_at_threshold :
    (threshold open_for : ℕ) (ts : List ℕ)
    → 1 ≤ threshold
    → is_open (run (new_breaker threshold open_for) (failures_at ts)) ≡ leb threshold (length ts)
unfolding is_open new_breaker
run-opens_at_threshold threshold open_for ts h =
    counting (new_breaker threshold open_for) ts refl refl (omega arith)
    ∙ ap (leb threshold) (omega arith)

-- What a caller is told to wait for.
abbrev pub IsElapsed : ℤ → Type 0
IsElapsed d = d ≤ℤ pos 0

-- A breaker without a probe out reports by `until_probe` whether it is open, and while it is open
-- the wait that it reports is over exactly when `allow` would ask for the probe.
pub until_probe-allow :
    (b : Breaker) (now : ℕ)
    → b.probing ≡ false
    → ((until_probe b now).1 ≡ is_open b)
      × (b.«open» ≡ true → IsElapsed (until_probe b now).0 ↔ ((allow b now).2 ≡ true))
unfolding until_probe is_open ◌-ℤ◌
until_probe-allow b now p = elim (Bool-cases b.«open») [
  | inr closed ↦ (simp (closed, p), λ e. absurd (cc))
  | inl live ↦ (
    simp (live, p),
    λ _. (
      λ w. (allow-IsGated b now).probe_iff.1 (live, p, ground arith),
      λ a. let (_, _, due) = (allow-IsGated b now).probe_iff.0 a in ground arith,
    ),
  )
]
