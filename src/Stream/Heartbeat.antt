-- ===== src/Stream/Heartbeat.antt =====
-- internal/stream/heartbeat.go, bucket.go: the timing wheel that keeps every subscriber's connection
-- alive. The wheel's mutex makes each method one step. A subscriber is known by a number. A bucket is
-- the list of its members, and `order` is the order in which Go ranges over it. The slice of buckets
-- is a function below its length. A subscriber's `bucket` field names the ring that the bucket is of,
-- since a rebuild leaves the old ring's buckets behind.
pub mod Counts
pub mod Wheel
pub mod Refines
pub mod Rounds
use wave_house.Prelude.{
  ℕ, true, false, [], ◌∷◌, some, none, Bool, List, Option, if◌then◌else◌, length, suc, ◌+◌, zero,
  ◌%◌, ◌++◌, ◌-◌, ◌/◌, ◌==◌, ltb, ◌&&◌,
}
use wave_house.Prelude.Bytes.{count}

abbrev pub Bucket : Type 0
Bucket = List ℕ

unfoldable pub insert : ℕ → Bucket → Bucket
insert x b = if count x b == 0 then x ∷ b else b

unfoldable pub remove_from : ℕ → Bucket → Bucket
remove_from x [] = []
remove_from x (y ∷ b) = let rest = remove_from x b in if y == x then rest else y ∷ rest

abbrev pub default_interval : ℕ
default_interval = 30_000_000_000

abbrev pub default_buckets : ℕ
default_buckets = 3

pub record Heartbeater : Type 0 where
  pub tick_interval : ℕ
  pub size : ℕ
  pub bucket : ℕ → Bucket
  pub hand : ℕ
  pub retick : Bool
  pub ring : ℕ
  pub bucket_of : ℕ → Option (ℕ × ℕ)

-- `wheelShape`, on a period in nanoseconds and a bucket count of which 0 stands for none positive.
abbrev pub shape_of : ℕ → ℕ → ℕ × ℕ
shape_of period n = (if period / n == 0 then period else period / n, n)

unfoldable pub wheel_shape : ℕ → ℕ → ℕ × ℕ
wheel_shape period buckets =
    let n : ℕ = if buckets == 0 then default_buckets else buckets in
    let p : ℕ = if period == 0 then default_interval else period in
    if ltb p n then shape_of p 1 else shape_of p n

abbrev pub new_ring : ℕ → Bucket
new_ring i = []

unfoldable pub new_heartbeater : ℕ → ℕ → Heartbeater
new_heartbeater period buckets = record {
  tick_interval = (wheel_shape period buckets).0;
  size = (wheel_shape period buckets).1;
  bucket = new_ring;
  hand = 0;
  retick = false;
  ring = 0;
  bucket_of = λ x. none;
}

abbrev pub set_at {ℓ} : {A : Type ℓ} → ℕ → A → (ℕ → A) → ℕ → A
set_at i v f j = if i == j then v else f j

-- `ring[i].Add(sub)` and `sub.bucket = ring[i]`.
unfoldable pub place : ℕ → ℕ → Heartbeater → Heartbeater
place x i hb = record hb {
  bucket = set_at i (insert x (hb.bucket i)) hb.bucket;
  bucket_of = set_at x (some (hb.ring, i)) hb.bucket_of;
}

unfoldable pub add : ℕ → Heartbeater → Heartbeater
add x hb = place x ((hb.hand + hb.size - 1) % hb.size) hb

abbrev pub remove_at : ℕ → Option (ℕ × ℕ) → Heartbeater → Heartbeater
remove_at x none hb = hb
remove_at x (some (ring, i)) hb =
    if ring == hb.ring
    then record hb { bucket = set_at i (remove_from x (hb.bucket i)) hb.bucket }
    else hb

unfoldable pub remove : ℕ → Heartbeater → Heartbeater
remove x hb = remove_at x (hb.bucket_of x) hb

-- The subscribers of the first `n` buckets, in the order of the rebuild's loops.
unfoldable pub gather : (Bucket → Bucket) → ℕ → (ℕ → Bucket) → List ℕ
gather order zero bucket = []
gather order (suc n) bucket = gather order n bucket ++ order (bucket n)

-- The subscribers dealt round-robin, from the `i`-th on.
unfoldable pub deal : ℕ → List ℕ → Heartbeater → Heartbeater
deal i [] hb = hb
deal i (x ∷ xs) hb = deal (i + 1) xs (place x (i % hb.size) hb)

unfoldable pub rebuild : (Bucket → Bucket) → ℕ → Heartbeater → Heartbeater
rebuild order n hb =
    deal 0 (gather order hb.size hb.bucket)
      (record hb { size = n; bucket = new_ring; hand = 0; ring = hb.ring + 1 })

unfoldable pub reconfigure : (Bucket → Bucket) → ℕ → ℕ → Heartbeater → Heartbeater
reconfigure order period buckets hb =
    let shape : ℕ × ℕ = wheel_shape period buckets in
    if shape.0 == hb.tick_interval && shape.1 == hb.size
    then hb
    else if shape.1 == hb.size
    then record hb { tick_interval = shape.0; retick = true }
    else record (rebuild order shape.1 hb) { tick_interval = shape.0; retick = true }

-- The members of the first `n` buckets, added up: `Len`.
unfoldable pub sum_below : ℕ → (ℕ → ℕ) → ℕ
sum_below zero f = 0
sum_below (suc n) f = sum_below n f + f n

unfoldable pub len : Heartbeater → ℕ
len hb = sum_below hb.size (λ i. length (hb.bucket i))

-- `tick`: the bucket at the hand is pushed a keepalive, and the hand moves on.
abbrev pub pushed : Heartbeater → Bucket
pushed hb = hb.bucket hb.hand

unfoldable pub tick : Heartbeater → Heartbeater
tick hb = record hb { hand = (hb.hand + 1) % hb.size }

-- `Run` takes the wake-up and resets its ticker.
unfoldable pub wake : Heartbeater → Heartbeater
wake hb = record hb { retick = false }

pub data Call : Type 0 where
  call_add : ℕ → Call
  call_remove : ℕ → Call
  call_reconfigure : ℕ → ℕ → Call
  call_tick : Call
  call_wake : Call

unfoldable pub step : (Bucket → Bucket) → Call → Heartbeater → Heartbeater
step order (call_add x) hb = add x hb
step order (call_remove x) hb = remove x hb
step order (call_reconfigure period buckets) hb = reconfigure order period buckets hb
step order call_tick hb = tick hb
step order call_wake hb = wake hb

unfoldable pub run : (Bucket → Bucket) → List Call → Heartbeater → Heartbeater
run order [] hb = hb
run order (c ∷ cs) hb = run order cs (step order c hb)

-- The abstract view: whether a subscriber is registered after these calls, if it was before.
abbrev pub registered_after : ℕ → Call → Bool → Bool
registered_after x (call_add y) b = if y == x then true else b
registered_after x (call_remove y) b = if y == x then false else b
registered_after x (call_reconfigure period buckets) b = b
registered_after x call_tick b = b
registered_after x call_wake b = b

unfoldable pub is_registered : ℕ → List Call → Bool → Bool
is_registered x [] b = b
is_registered x (c ∷ cs) b = is_registered x cs (registered_after x c b)
