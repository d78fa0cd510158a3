-- ===== src/Ingest/Backoffs.antt =====
-- internal/ingest/backoff.go: the backoffs of all pools and tables, and their count of outages.
-- `open.Add(1)` and `open.Add(-1)` of a backoff's methods are the sums of `fail_on` and `succeed_on`.
pub mod Laws
use wave_house.Prelude.{ℕ, true, false, [], ◌∷◌, Bool, List, if◌then◌else◌, ◌&&◌, ◌+◌, ◌-◌, ◌==◌}
use wave_house.Prelude.Bytes.{Bytes, bytes_eq}
use wave_house.Ingest.Backoff.{Backoff, new_backoff, allow, release, waiting, fail, Failed, succeed}

pub record PoolKey : Type 0 where
  pub url : Bytes
  pub user : Bytes
  pub database : Bytes
  pub table : Bytes

-- The part of a chconn.Target that names a pool.
pub record Target : Type 0 where
  pub url : Bytes
  pub username : Bytes
  pub database : Bytes

unfoldable pub key_of : Target → Bytes → PoolKey
key_of t table = record { url = t.url; user = t.username; database = t.database; table = table }

unfoldable pub key_eq : PoolKey → PoolKey → Bool
key_eq a b =
    bytes_eq a.url b.url
    && bytes_eq a.user b.user
    && bytes_eq a.database b.database
    && bytes_eq a.table b.table

abbrev pub Table : Type 0
Table = List (PoolKey × Backoff)

pub record Backoffs : Type 0 where
  pub m : Table
  pub «open» : ℕ

abbrev pub empty : Backoffs
empty = record { m = []; «open» = 0 }

-- `get`: the backoff of a key, created on first use.
unfoldable pub find : PoolKey → Table → Backoff
find k [] = new_backoff
find k ((j, b) ∷ m) = if key_eq j k then b else find k m

-- What the map holds after a method on the backoff of a key.
unfoldable pub update : PoolKey → Backoff → Table → Table
update k b [] = (k, b) ∷ []
update k b ((j, c) ∷ m) =
    let rest = update k b m in if key_eq j k then (j, b) ∷ m else (j, c) ∷ rest

abbrev pub with_backoff : Backoffs → PoolKey → Backoff → Backoffs
with_backoff s k b = record s { m = update k b s.m }

unfoldable pub allow_on : Backoffs → PoolKey → ℕ → ℕ → (ℕ → ℕ) → Backoffs
allow_on s k now ceiling jitter = with_backoff s k (allow (find k s.m) now ceiling jitter).0

unfoldable pub release_on : Backoffs → PoolKey → Backoffs
release_on s k = with_backoff s k (release (find k s.m))

unfoldable pub fail_on : Backoffs → PoolKey → ℕ → ℕ → (ℕ → ℕ) → Backoffs
fail_on s k now ceiling jitter =
    let failed : Failed = fail (find k s.m) now ceiling jitter in
    record {
      m = update k failed.state s.m;
      «open» = if failed.first then s.«open» + 1 else s.«open»;
    }

unfoldable pub succeed_on : Backoffs → PoolKey → ℕ → Backoffs
succeed_on s k now =
    let done : Backoff × Bool × ℕ = succeed (find k s.m) now in
    record { m = update k done.0 s.m; «open» = if done.1 then s.«open» - 1 else s.«open» }

-- `waiting` past its fast path: the pool's backoff, then the table's.
abbrev pub ask_table : Backoffs → Target → Bytes → ℕ → ℕ → (ℕ → ℕ) → Backoffs × ℕ × Bool
ask_table s t table now ceiling jitter =
    let asked : Backoff × ℕ × Bool = waiting (find (key_of t table) s.m) now ceiling jitter in
    (with_backoff s (key_of t table) asked.0, asked.1, asked.2)

unfoldable pub ask_both : Backoffs → Target → Bytes → ℕ → ℕ → (ℕ → ℕ) → Backoffs × ℕ × Bool
ask_both s t table now ceiling jitter =
    let asked : Backoff × ℕ × Bool = waiting (find (key_of t []) s.m) now ceiling jitter in
    let after : Backoffs = with_backoff s (key_of t []) asked.0 in
    if asked.2 then (after, asked.1, true) else ask_table after t table now ceiling jitter

unfoldable pub set_waiting : Backoffs → Target → Bytes → ℕ → ℕ → (ℕ → ℕ) → Backoffs × ℕ × Bool
set_waiting s t table now ceiling jitter =
    if s.«open» == 0 then (s, 0, false) else ask_both s t table now ceiling jitter

-- The calls that the ingest workers make, in any order.
pub data Call : Type 0 where
  try : PoolKey → ℕ → ℕ → (ℕ → ℕ) → Call
  give_back : PoolKey → Call
  failed : PoolKey → ℕ → ℕ → (ℕ → ℕ) → Call
  succeeded : PoolKey → ℕ → Call
  asked : Target → Bytes → ℕ → ℕ → (ℕ → ℕ) → Call

unfoldable pub step : Backoffs → Call → Backoffs
step s (try k now ceiling jitter) = allow_on s k now ceiling jitter
step s (give_back k) = release_on s k
step s (failed k now ceiling jitter) = fail_on s k now ceiling jitter
step s (succeeded k now) = succeed_on s k now
step s (asked t table now ceiling jitter) = (set_waiting s t table now ceiling jitter).0

unfoldable pub run : Backoffs → List Call → Backoffs
run s [] = s
run s (c ∷ cs) = run (step s c) cs
