-- ===== src/Ingest/Backoff.antt =====
-- internal/ingest/backoff.go: the backoff of one ClickHouse pool or table. The mutex makes each
-- method one step. Times are nanoseconds, the zero time is 0; a cap that is not positive is 0.
-- `jitter` is the call of the random source that a method makes, if it makes one.
pub mod Laws
use wave_house.Prelude.{
  ℕ, true, false, Bool, if◌then◌else◌, ◌+◌, ◌-◌, ◌/◌, ltb, ◌==◌, max, min, ◌&&◌, ◌||◌, leb, ◌*◌,
  ◌^◌,
}

abbrev pub retry_base : ℕ
retry_base = 1_000_000_000

abbrev pub outage_log_every : ℕ
outage_log_every = 30_000_000_000

pub record Backoff : Type 0 where
  pub failures : ℕ
  pub until : ℕ
  pub probing : Bool
  pub since : ℕ
  pub logged : ℕ
  pub ceiling : ℕ

abbrev pub new_backoff : Backoff
new_backoff = record {
  failures = 0;
  until = 0;
  probing = false;
  since = 0;
  logged = 0;
  ceiling = 0;
}

-- `spread`: the random source is asked for positive durations only.
unfoldable pub spread : (ℕ → ℕ) → ℕ → ℕ
spread jitter d = if d == 0 then 0 else jitter d

unfoldable pub probe_out : (ℕ → ℕ) → ℕ
probe_out jitter = retry_base / 2 + spread jitter (retry_base / 2)

abbrev pub lowered : ℕ → ℕ → ℕ
lowered old cap = if old == 0 || ltb cap old then cap else old

unfoldable pub adopt : Backoff → ℕ → ℕ → Backoff
adopt b now ceiling =
    if ceiling == 0
    then b
    else let cap : ℕ = lowered b.ceiling (max ceiling retry_base) in
      record b { ceiling = cap; until = if ltb (now + cap) b.until then now + cap else b.until }

-- The wait, and whether the flush may try.
abbrev pub try_open : Backoff → ℕ → (ℕ → ℕ) → Backoff × ℕ × Bool
try_open b now jitter =
    if ltb now b.until
    then (b, b.until - now + spread jitter retry_base, false)
    else if b.probing
    then (b, probe_out jitter, false)
    else (record b { probing = true }, 0, true)

unfoldable pub allow : Backoff → ℕ → ℕ → (ℕ → ℕ) → Backoff × ℕ × Bool
allow b now ceiling jitter =
    if b.failures == 0 then (b, 0, true) else try_open (adopt b now ceiling) now jitter

unfoldable pub release : Backoff → Backoff
release b = record b { probing = false }

abbrev pub wait_open : Backoff → ℕ → (ℕ → ℕ) → Backoff × ℕ × Bool
wait_open b now jitter =
    if ltb now b.until
    then (b, b.until - now + spread jitter retry_base, true)
    else if b.probing
    then (b, probe_out jitter, true)
    else (b, 0, false)

unfoldable pub waiting : Backoff → ℕ → ℕ → (ℕ → ℕ) → Backoff × ℕ × Bool
waiting b now ceiling jitter =
    if b.failures == 0 then (b, 0, false) else wait_open (adopt b now ceiling) now jitter

pub record Failed : Type 0 where
  pub state : Backoff
  pub wait : ℕ
  pub first : Bool
  pub log : Bool

-- The doubling delay, from the count of the failures before this one.
unfoldable pub delay : ℕ → ℕ → ℕ
delay shift cap =
    if ltb shift 30 then min (retry_base * 2 ^ shift) (max cap retry_base) else max cap retry_base

abbrev pub jittered : ℕ → (ℕ → ℕ) → ℕ
jittered d jitter = d / 2 + spread jitter (d / 2)

abbrev pub is_logged : Backoff → ℕ → Bool
is_logged b now = b.failures == 1 || leb (b.logged + outage_log_every) now

-- The window opens: the failure is counted, and its cap is the failing tenant's alone.
abbrev pub counted : Backoff → ℕ → Backoff
counted b now = record b {
  probing = false;
  failures = b.failures + 1;
  since = if b.failures == 0 then now else b.since;
  ceiling = 0;
}

abbrev pub opened_for : Backoff → ℕ → ℕ → Failed
opened_for b now wait = record {
  state = record b { until = now + wait; logged = if is_logged b now then now else b.logged };
  wait = wait;
  first = b.failures == 1;
  log = is_logged b now;
}

abbrev pub not_escalated : Backoff → ℕ → (ℕ → ℕ) → Failed
not_escalated b now jitter = record {
  state = b;
  wait = b.until - now + spread jitter retry_base;
  first = false;
  log = false;
}

abbrev pub opened : Backoff → ℕ → (ℕ → ℕ) → Failed
opened b now jitter = opened_for b now (jittered (delay (b.failures - 1) b.ceiling) jitter)

unfoldable pub fail : Backoff → ℕ → ℕ → (ℕ → ℕ) → Failed
fail b now ceiling jitter =
    if ltb 0 b.failures && ltb now b.until
    then not_escalated (adopt b now ceiling) now jitter
    else opened (adopt (counted b now) now ceiling) now jitter

-- Whether the backoff was open, and how long.
unfoldable pub succeed : Backoff → ℕ → Backoff × Bool × ℕ
succeed b now =
    if b.failures == 0
    then (b, false, 0)
    else (record b { failures = 0; probing = false; until = 0; ceiling = 0 }, true, now - b.since)
