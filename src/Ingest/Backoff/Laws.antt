-- ===== src/Ingest/Backoff/Laws.antt =====
-- internal/ingest/backoff.go: proofs about the waits of one backoff.
use wave_house.Prelude.{
  ℕ, arith, max, ◌<◌, ◌≤◌, ◌+◌, ◌/◌, ◌^◌, ◌*◌, ◌≡◌, min, Bool-cases, ltb, inl, inr, ◌⊎◌, ◌&&◌,
  false, ◌-◌, ap, ◌∙◌,
}
use native.Mathlib.Nat.{pow-le-pow_right}
use wave_house.Ingest.Backoff.{
  Backoff, retry_base, spread, probe_out, adopt, try_open, allow, counted, delay, jittered,
  wait_open, waiting, fail, opened,
}

-- The random source answers less than it is asked for.
abbrev pub IsJitter : (ℕ → ℕ) → Type 0
IsJitter jitter = (d : ℕ) → 0 < d → jitter d < d

-- What a tenant waits at most: its cap, never under the base, and the base for the spread.
abbrev pub patience : ℕ → ℕ
patience ceiling = max ceiling retry_base + retry_base

spread_bound : (jitter : ℕ → ℕ) (d : ℕ) → IsJitter jitter → spread jitter d ≤ d
unfolding spread
spread_bound jitter d h = ground (arith, h d)

adopt-until :
    (b : Backoff) (now ceiling : ℕ)
    → 0 < ceiling
    → (adopt b now ceiling).until ≤ now + max ceiling retry_base
unfolding adopt
adopt-until b now ceiling h = ground arith

probe_out_bound : (jitter : ℕ → ℕ) → IsJitter jitter → probe_out jitter ≤ retry_base
unfolding probe_out
probe_out_bound jitter h = omega (arith, spread_bound jitter (retry_base / 2) h)

try_open_bound :
    (b : Backoff) (now cap : ℕ) (jitter : ℕ → ℕ)
    → IsJitter jitter
    → b.until ≤ now + cap
    → (try_open b now jitter).1 ≤ cap + retry_base
try_open_bound b now cap jitter h k =
    ground (arith, spread_bound jitter retry_base h, probe_out_bound jitter h)

wait_open_bound :
    (b : Backoff) (now cap : ℕ) (jitter : ℕ → ℕ)
    → IsJitter jitter
    → b.until ≤ now + cap
    → (wait_open b now jitter).1 ≤ cap + retry_base
wait_open_bound b now cap jitter h k =
    ground (arith, spread_bound jitter retry_base h, probe_out_bound jitter h)

allow_bound :
    (b : Backoff) (now ceiling : ℕ) (jitter : ℕ → ℕ)
    → IsJitter jitter
    → 0 < ceiling
    → (allow b now ceiling jitter).1 ≤ patience ceiling
unfolding allow
allow_bound b now ceiling jitter h k = ground (
  arith,
  try_open_bound (adopt b now ceiling) now (max ceiling retry_base) jitter h
      (adopt-until b now ceiling k),
)

waiting_bound :
    (b : Backoff) (now ceiling : ℕ) (jitter : ℕ → ℕ)
    → IsJitter jitter
    → 0 < ceiling
    → (waiting b now ceiling jitter).1 ≤ patience ceiling
unfolding waiting
waiting_bound b now ceiling jitter h k = ground (
  arith,
  wait_open_bound (adopt b now ceiling) now (max ceiling retry_base) jitter h
      (adopt-until b now ceiling k),
)

-- The cap of a window that has just been opened is the failing tenant's.
fresh_cap :
    (b : Backoff) (now ceiling : ℕ)
    → 0 < ceiling
    → (adopt (counted b now) now ceiling).ceiling ≡ max ceiling retry_base
unfolding adopt
fresh_cap b now ceiling h = ground arith

fresh_failures :
    (b : Backoff) (now ceiling : ℕ) → (adopt (counted b now) now ceiling).failures ≡ b.failures + 1
unfolding adopt
fresh_failures b now ceiling = ground arith

jittered_bound :
    (d : ℕ) (jitter : ℕ → ℕ)
    → IsJitter jitter
    → (d / 2 ≤ jittered d jitter) × (jittered d jitter ≤ d)
jittered_bound d jitter h = (omega arith, omega (arith, spread_bound jitter (d / 2) h))

-- The delay doubles with each failure, up to the cap.
delay-doubles :
    (shift cap : ℕ)
    → retry_base ≤ cap
    → cap ≤ retry_base * 2 ^ 30
    → delay shift cap ≡ min (retry_base * 2 ^ shift) cap
unfolding delay
delay-doubles shift cap h k = elim (Bool-cases (ltb shift 30)) [
  | inl early ↦ rw early (ground arith)
  | inr late ↦ rw late (
      let grown : 2 ^ 30 ≤ 2 ^ shift =
        pow-le-pow_right {n = 2} (omega arith) {i = 30} {j = shift} (ground arith) in
      omega arith)
]

delay_range : (shift cap : ℕ) → delay shift cap ≤ max cap retry_base
unfolding delay
delay_range shift cap = ground arith

fresh_delay :
    (b : Backoff) (now ceiling : ℕ)
    → 0 < ceiling
    → delay
        ((adopt (counted b now) now ceiling).failures - 1)
        (adopt (counted b now) now ceiling).ceiling
      ≡ delay b.failures (max ceiling retry_base)
fresh_delay b now ceiling h =
    let shift : (adopt (counted b now) now ceiling).failures - 1 ≡ b.failures =
      omega (arith, fresh_failures b now ceiling) in
    ap (λ n. delay n (adopt (counted b now) now ceiling).ceiling) shift
    ∙ ap (delay b.failures) (fresh_cap b now ceiling h)

fail_bound :
    (b : Backoff) (now ceiling : ℕ) (jitter : ℕ → ℕ)
    → IsJitter jitter
    → 0 < ceiling
    → (fail b now ceiling jitter).wait ≤ patience ceiling
unfolding fail
fail_bound b now ceiling jitter h k = elim (Bool-cases (ltb 0 b.failures && ltb now b.until)) [
  | inl running ↦
      rw running (omega (arith, adopt-until b now ceiling k, spread_bound jitter retry_base h))
  | inr opens ↦ rw opens (
      omega (
        arith,
        fresh_delay b now ceiling k,
        delay_range b.failures (max ceiling retry_base),
        jittered_bound
            (delay ((adopt (counted b now) now ceiling).failures - 1)
              (adopt (counted b now) now ceiling).ceiling)
            jitter h,
      ))
]

-- No flush and no row of a tenant waits longer than the tenant's cap, never taken under the base,
-- and one base for the spread, whatever the state of the backoff: where it is turned away, where it
-- is asked to stay away, and after a failure. It is asked that the cap is positive and that the
-- random source answers less than it is asked for.
pub waits-AreBounded :
    (b : Backoff) (now ceiling : ℕ) (jitter : ℕ → ℕ)
    → IsJitter jitter
    → 0 < ceiling
    → ((allow b now ceiling jitter).1 ≤ patience ceiling)
      × ((waiting b now ceiling jitter).1 ≤ patience ceiling)
      × ((fail b now ceiling jitter).wait ≤ patience ceiling)
waits-AreBounded b now ceiling jitter h k = (
  allow_bound b now ceiling jitter h k,
  waiting_bound b now ceiling jitter h k,
  fail_bound b now ceiling jitter h k,
)

-- Under a cap that is no less than the one of the window, the window stays as long as it is.
adopt-keeps :
    (b : Backoff) (later ceiling : ℕ)
    → b.ceiling ≤ ceiling
    → 0 < b.ceiling
    → b.until ≤ later + b.ceiling
    → (adopt b later ceiling).until ≡ b.until
unfolding adopt
adopt-keeps b later ceiling h k l = ground arith

adopt-failures : (b : Backoff) (later ceiling : ℕ) → (adopt b later ceiling).failures ≡ b.failures
unfolding adopt
adopt-failures b later ceiling = ground arith

-- A flush is turned away while the window that it adopts is running.
running-refuses :
    (b : Backoff) (later ceiling : ℕ) (jitter : ℕ → ℕ)
    → 0 < b.failures
    → later < (adopt b later ceiling).until
    → (allow b later ceiling jitter).2 ≡ false
unfolding allow
running-refuses b later ceiling jitter h k = ground arith

-- A failure that opens a window, since none is running, asks its rows to stay away for at least half
-- and at most the whole of the base doubled once for each failure before it, or of the tenant's cap
-- where that is less; and a try that comes next, of a tenant whose cap is no less, is not let through
-- before that time. It is asked that the cap is at least the base and at most 2^30 times it, and that
-- the random source answers less than it is asked for.
pub fail-doubles :
    (b : Backoff) (now ceiling later other : ℕ) (jitter again : ℕ → ℕ)
    → IsJitter jitter
    → retry_base ≤ ceiling
    → ceiling ≤ retry_base * 2 ^ 30
    → (b.failures ≡ 0) ⊎ (b.until ≤ now)
    → now ≤ later
    → later < now + (fail b now ceiling jitter).wait
    → ceiling ≤ other
    → (min (retry_base * 2 ^ b.failures) ceiling / 2 ≤ (fail b now ceiling jitter).wait)
      × ((fail b now ceiling jitter).wait ≤ min (retry_base * 2 ^ b.failures) ceiling)
      × ((allow (fail b now ceiling jitter).state later other again).2 ≡ false)
unfolding fail
fail-doubles b now ceiling later other jitter again h low high closed since before more =
    let opens : (ltb 0 b.failures && ltb now b.until) ≡ false = ground arith in
    let fresh : Backoff = adopt (counted b now) now ceiling in
    let d : ℕ = delay (fresh.failures - 1) fresh.ceiling in
    let whole : d ≡ min (retry_base * 2 ^ b.failures) ceiling =
      fresh_delay b now ceiling (omega arith)
      ∙ ap (delay b.failures) (omega arith)
      ∙ delay-doubles b.failures ceiling low high in
    let range : (d / 2 ≤ jittered d jitter) × (jittered d jitter ≤ d) = jittered_bound d jitter h in
    let open_until : later < now + jittered d jitter = rw opens at before in
    let cap : fresh.ceiling ≡ max ceiling retry_base = fresh_cap b now ceiling (omega arith) in
    let state : Backoff = (opened fresh now jitter).state in
    let kept : (adopt state later other).until ≡ now + jittered d jitter =
      adopt-keeps state later other (omega (arith, cap)) (omega (arith, cap))
        (omega (arith, range.1, whole, cap)) in
    rw opens (
      omega (arith, whole, range.0),
      omega (arith, whole, range.1),
      running-refuses state later other again (omega (arith, fresh_failures b now ceiling))
          (omega (arith, kept, open_until)),
    )
