-- ===== src/Ingest/Backoffs/Laws.antt =====
-- internal/ingest/backoff.go: proofs about the count of outages and the fast path that reads it.
use wave_house.Prelude.{
  ℕ, [], ◌∷◌, arith, Bool-cases, inl, inr, if◌then◌else◌, ◌+◌, ◌≡◌, ◌==◌, refl, List, not, false,
  ap, sym,
}
use wave_house.Ingest.Backoff.{
  Backoff, allow, waiting, fail, adopt, counted, succeed, Failed, release,
}
use wave_house.Ingest.Backoffs.{
  PoolKey, key_eq, Table, Backoffs, find, update, allow_on, ask_both, fail_on, release_on, run,
  step, succeed_on, with_backoff, Target, set_waiting, Call, key_of, try, give_back, failed,
  succeeded, asked, empty,
}

abbrev pub outage : Backoff → ℕ
outage b = if b.failures == 0 then 0 else 1

unfoldable pub outages : Table → ℕ
outages [] = 0
outages ((k, b) ∷ m) = outage b + outages m

-- A method on one backoff changes the number of outages by that backoff alone.
outages-update :
    (k : PoolKey) (b : Backoff) (m : Table)
    → outages (update k b m) + outage (find k m) ≡ outages m + outage b
unfolding outages update find
outages-update k b [] = omega arith
outages-update k b ((j, c) ∷ m) = elim (Bool-cases (key_eq j k)) [
  | inl same ↦ rw same (omega arith)
  | inr other ↦ rw other (omega (arith, outages-update k b m))
]

adopt-failures : (b : Backoff) (now ceiling : ℕ) → (adopt b now ceiling).failures ≡ b.failures
unfolding adopt
adopt-failures b now ceiling = ground arith

allow-failures :
    (b : Backoff) (now ceiling : ℕ) (jitter : ℕ → ℕ)
    → (allow b now ceiling jitter).0.failures ≡ b.failures
unfolding allow
allow-failures b now ceiling jitter = ground (arith, adopt-failures b now ceiling)

waiting-failures :
    (b : Backoff) (now ceiling : ℕ) (jitter : ℕ → ℕ)
    → (waiting b now ceiling jitter).0.failures ≡ b.failures
unfolding waiting
waiting-failures b now ceiling jitter = ground (arith, adopt-failures b now ceiling)

fail-outage :
    (b : Backoff) (now ceiling : ℕ) (jitter : ℕ → ℕ)
    → (outage (fail b now ceiling jitter).state ≡ 1)
      × ((fail b now ceiling jitter).first ≡ (b.failures == 0))
unfolding fail
fail-outage b now ceiling jitter =
    ground (arith, adopt-failures b now ceiling, adopt-failures (counted b now) now ceiling)

-- The atomic counter is the number of open backoffs.
unfoldable pub Counts : Backoffs → Type 0
Counts s = s.«open» ≡ outages s.m

outage_same : (a b : Backoff) → a.failures ≡ b.failures → outage a ≡ outage b
outage_same a b e = rw e refl

keeps_count :
    (s : Backoffs) (k : PoolKey) (b : Backoff)
    → b.failures ≡ (find k s.m).failures
    → Counts s
    → Counts (with_backoff s k b)
unfolding Counts
keeps_count s k b e h = omega (arith, outages-update k b s.m, outage_same b (find k s.m) e)

allow_on-Counts :
    (s : Backoffs) (k : PoolKey) (now ceiling : ℕ) (jitter : ℕ → ℕ)
    → Counts s
    → Counts (allow_on s k now ceiling jitter)
unfolding allow_on
allow_on-Counts s k now ceiling jitter =
    keeps_count s k (allow (find k s.m) now ceiling jitter).0
      (allow-failures (find k s.m) now ceiling jitter)

release_on-Counts : (s : Backoffs) (k : PoolKey) → Counts s → Counts (release_on s k)
unfolding release_on release
release_on-Counts s k = keeps_count s k (release (find k s.m)) refl

fail_on-Counts :
    (s : Backoffs) (k : PoolKey) (now ceiling : ℕ) (jitter : ℕ → ℕ)
    → Counts s
    → Counts (fail_on s k now ceiling jitter)
unfolding fail_on Counts
fail_on-Counts s k now ceiling jitter h =
    let done : Failed = fail (find k s.m) now ceiling jitter in
    let told : (outage done.state ≡ 1) × (done.first ≡ ((find k s.m).failures == 0)) =
      fail-outage (find k s.m) now ceiling jitter in
    let sum : outages (update k done.state s.m) + outage (find k s.m)
        ≡ outages s.m + outage done.state =
      outages-update k done.state s.m in
    rw (told.1) (ground arith)

succeed-outage :
    (b : Backoff) (now : ℕ)
    → (outage (succeed b now).0 ≡ 0) × ((succeed b now).1 ≡ not (b.failures == 0))
unfolding succeed
succeed-outage b now = ground arith

succeed_on-Counts : (s : Backoffs) (k : PoolKey) (now : ℕ) → Counts s → Counts (succeed_on s k now)
unfolding succeed_on Counts
succeed_on-Counts s k now h =
    let told : (outage (succeed (find k s.m) now).0 ≡ 0)
        × ((succeed (find k s.m) now).1 ≡ not ((find k s.m).failures == 0)) =
      succeed-outage (find k s.m) now in
    let sum : outages (update k (succeed (find k s.m) now).0 s.m) + outage (find k s.m)
        ≡ outages s.m + outage (succeed (find k s.m) now).0 =
      outages-update k (succeed (find k s.m) now).0 s.m in
    rw (told.1) (ground arith)

ask_both-Counts :
    (s : Backoffs) (t : Target) (table : List ℕ) (now ceiling : ℕ) (jitter : ℕ → ℕ)
    → Counts s
    → Counts (ask_both s t table now ceiling jitter).0
unfolding ask_both
ask_both-Counts s t table now ceiling jitter h =
    let pool : Counts
        (with_backoff s (key_of t []) (waiting (find (key_of t []) s.m) now ceiling jitter).0) =
      keeps_count s (key_of t []) (waiting (find (key_of t []) s.m) now ceiling jitter).0
        (waiting-failures (find (key_of t []) s.m) now ceiling jitter) h in
    elim (Bool-cases (waiting (find (key_of t []) s.m) now ceiling jitter).2) [
      | inl backing_off ↦ rw (ask_both, backing_off) pool
      | inr closed ↦
          rw (ask_both, closed)
            (keeps_count
              (with_backoff s (key_of t []) (waiting (find (key_of t []) s.m) now ceiling jitter).0)
              (key_of t table) _ (waiting-failures _ now ceiling jitter) pool)
    ]

step-Counts : (s : Backoffs) (c : Call) → Counts s → Counts (step s c)
unfolding step set_waiting
step-Counts s (try k now ceiling jitter) h = allow_on-Counts s k now ceiling jitter h
step-Counts s (give_back k) h = release_on-Counts s k h
step-Counts s (failed k now ceiling jitter) h = fail_on-Counts s k now ceiling jitter h
step-Counts s (succeeded k now) h = succeed_on-Counts s k now h
step-Counts s (asked t table now ceiling jitter) h = elim (Bool-cases (s.«open» == 0)) [
  | inl none_open ↦ rw (step, set_waiting, none_open) h
  | inr some_open ↦
      rw (step, set_waiting, some_open) (ask_both-Counts s t table now ceiling jitter h)
]

run-Counts : (s : Backoffs) (cs : List Call) → Counts s → Counts (run s cs)
unfolding run
run-Counts s [] h = h
run-Counts s (c ∷ cs) h = run-Counts (step s c) cs (step-Counts s c h)

all_closed : (k : PoolKey) (m : Table) → outages m ≡ 0 → (find k m).failures ≡ 0
unfolding outages find
all_closed k [] h = refl
all_closed k ((j, b) ∷ m) h = ground (arith, all_closed k m)

empty-Counts : Counts empty
unfolding Counts outages
empty-Counts = refl

closed_answer :
    (b : Backoff) (now ceiling : ℕ) (jitter : ℕ → ℕ)
    → b.failures ≡ 0
    → waiting b now ceiling jitter ≡ (b, 0, false)
unfolding waiting
closed_answer b now ceiling jitter h = rw h refl

-- Where no backoff is open, asking both of them answers what the fast path answers.
both_closed :
    (s : Backoffs) (t : Target) (table : List ℕ) (now ceiling : ℕ) (jitter : ℕ → ℕ)
    → outages s.m ≡ 0
    → ((ask_both s t table now ceiling jitter).1 ≡ 0)
      × ((ask_both s t table now ceiling jitter).2 ≡ false)
unfolding ask_both
both_closed s t table now ceiling jitter h =
    let pool : waiting (find (key_of t []) s.m) now ceiling jitter
        ≡ (find (key_of t []) s.m, 0, false) =
      closed_answer (find (key_of t []) s.m) now ceiling jitter (all_closed (key_of t []) s.m h) in
    let still : outages (update (key_of t []) (find (key_of t []) s.m) s.m) ≡ 0 =
      omega (arith, outages-update (key_of t []) (find (key_of t []) s.m) s.m) in
    let answer : waiting (find (key_of t table) (update (key_of t []) (find (key_of t []) s.m) s.m))
          now ceiling jitter
        ≡ (find (key_of t table) (update (key_of t []) (find (key_of t []) s.m) s.m), 0, false) =
      closed_answer _ now ceiling jitter (all_closed (key_of t table) _ still) in
    rw (ask_both, pool) (ap (λ a. a.1) answer, ap (λ a. a.2) answer)

-- Whatever calls the workers have made, the fast path of `waiting` answers as the two backoffs
-- would: a count of no outages means that neither the pool nor the table is backing off.
pub set_waiting-ask_both :
    (cs : List Call) (t : Target) (table : List ℕ) (now ceiling : ℕ) (jitter : ℕ → ℕ)
    → ((set_waiting (run empty cs) t table now ceiling jitter).1
        ≡ (ask_both (run empty cs) t table now ceiling jitter).1)
      × ((set_waiting (run empty cs) t table now ceiling jitter).2
          ≡ (ask_both (run empty cs) t table now ceiling jitter).2)
unfolding set_waiting Counts
set_waiting-ask_both cs t table now ceiling jitter =
    let s : Backoffs = run empty cs in
    let counts : s.«open» ≡ outages s.m = run-Counts empty cs empty-Counts in
    elim (Bool-cases (s.«open» == 0)) [
      | inl none_open ↦
          let quiet : ((ask_both s t table now ceiling jitter).1 ≡ 0)
              × ((ask_both s t table now ceiling jitter).2 ≡ false) =
            both_closed s t table now ceiling jitter (ground (arith, counts)) in
          rw (set_waiting, none_open) (sym quiet.0, sym quiet.1)
      | inr some_open ↦ rw (set_waiting, some_open) (refl, refl)
    ]
