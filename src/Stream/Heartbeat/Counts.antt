-- ===== src/Stream/Heartbeat/Counts.antt =====
-- internal/stream/heartbeat.go, bucket.go: counts of the places of a subscriber in the wheel.
use wave_house.Prelude.{
  ℕ, false, [], ◌∷◌, arith, Bool-cases, inl, inr, ◌<◌, ◌≡◌, if◌then◌else◌, suc, ◌+◌, ◌≤◌, zero,
  ◌==◌, ap, refl, ==_iff,
}
use wave_house.Prelude.Bytes.{count, count-append}
use wave_house.Stream.Heartbeat.{Bucket, insert, remove_from, new_ring, set_at, gather, sum_below}

abbrev pub places : ℕ → ℕ → (ℕ → Bucket) → ℕ
places x n bucket = sum_below n (λ i. count x (bucket i))

pub insert-count :
    (x y : ℕ) (b : Bucket)
    → count x b ≡ 0
    → count y (insert x b) ≡ (if x == y then 1 else 0) + count y b
unfolding insert count
insert-count x y b h = rw h refl

pub remove_from-count :
    (x y : ℕ) (b : Bucket) → count y (remove_from x b) ≡ (if x == y then 0 else count y b)
unfolding remove_from count
remove_from-count x y [] = ground arith
remove_from-count x y (z ∷ b) = ground (arith, remove_from-count x y b)

pub above_places :
    (x n i : ℕ) (b : Bucket) (bucket : ℕ → Bucket)
    → n ≤ i
    → places x n (set_at i b bucket) ≡ places x n bucket
unfolding sum_below
above_places x zero i b bucket h = refl
above_places x (suc n) i b bucket h =
    let other : (i == n) ≡ false = ground arith in
    let top : count x (set_at i b bucket n) ≡ count x (bucket n) = rw other refl in
    omega (arith, top, above_places x n i b bucket (omega arith))

-- One bucket is replaced: the other places stay.
pub set_at-places :
    (x n i : ℕ) (b : Bucket) (bucket : ℕ → Bucket)
    → i < n
    → places x n (set_at i b bucket) + count x (bucket i) ≡ places x n bucket + count x b
unfolding sum_below
set_at-places x zero i b bucket h = absurd (omega arith)
set_at-places x (suc n) i b bucket h = elim (Bool-cases (i == n)) [
  | inl e ↦
      let top : count x (set_at i b bucket n) ≡ count x b = rw e refl in
      let old : count x (bucket i) ≡ count x (bucket n) =
        ap (λ k. count x (bucket k)) ((==_iff i n).0 e) in
      omega (arith, top, old, above_places x n i b bucket (ground arith))
  | inr e ↦
      let top : count x (set_at i b bucket n) ≡ count x (bucket n) = rw e refl in
      omega (arith, top, set_at-places x n i b bucket (ground arith))
]

pub new_ring-places : (x n : ℕ) → places x n new_ring ≡ 0
unfolding sum_below count
new_ring-places x zero = refl
new_ring-places x (suc n) = omega (arith, new_ring-places x n)

pub gather-count :
    (order : Bucket → Bucket)
    → ((x : ℕ) (b : Bucket) → count x (order b) ≡ count x b)
    → (x n : ℕ) (bucket : ℕ → Bucket) → count x (gather order n bucket) ≡ places x n bucket
unfolding gather sum_below count
gather-count order h x zero bucket = refl
gather-count order h x (suc n) bucket = omega (
  arith,
  count-append x (gather order n bucket) (order (bucket n)),
  gather-count order h x n bucket,
  h x (bucket n),
)

-- Where a subscriber stands in a bucket, it stands in a place of the wheel.
pub bucket-places :
    (x n i : ℕ) (bucket : ℕ → Bucket) → i < n → count x (bucket i) ≤ places x n bucket
unfolding sum_below
bucket-places x zero i bucket h = absurd (omega arith)
bucket-places x (suc n) i bucket h = elim (Bool-cases (i == n)) [
  | inl e ↦ omega (arith, ap (λ k. count x (bucket k)) ((==_iff i n).0 e))
  | inr e ↦ omega (arith, bucket-places x n i bucket (ground arith))
]

-- A subscriber with a place stands in some bucket.
pub places-bucket :
    (x n : ℕ) (bucket : ℕ → Bucket)
    → 0 < places x n bucket
    → (i : ℕ) × (i < n) × (0 < count x (bucket i))
unfolding sum_below
places-bucket x zero bucket h = absurd (omega arith)
places-bucket x (suc n) bucket h = elim (Bool-cases (count x (bucket n) == 0)) [
  | inl e ↦
      let below : (i : ℕ) × (i < n) × (0 < count x (bucket i)) =
        places-bucket x n bucket (ground arith) in
      (below.0, omega (arith, below.1), below.2)
  | inr e ↦ (n, omega arith, ground arith)
]
