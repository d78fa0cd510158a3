-- ===== src/Cache/Versions/Answers.antt =====
-- internal/cache/version_manager.go: proofs about the key that `QueryKey` answers, and its
-- generation.
use mathlib.Core.Option.{some-injective}
use wave_house.Prelude.{
  ℕ, true, false, [], ◌∷◌, some, none, arith, length, List, Option, ◌≡◌, refl, ◌+◌, ◌<◌, ◌^◌, ◌≤◌,
  ap, sym,
}
use wave_house.Prelude.Bytes.{Bytes, lookup}
use wave_house.Cache.Versions.{
  TenantVersions, VersionManager, Namespace, found_or, index, segment, with_segment, segments,
  key_text, key_from, keyed, query_key_locked, or_create, query_key,
}
use wave_house.Cache.Versions.Generations.{
  Above, Grows, Reads, index-Reads, segments-Grows, join_Grows,
}

-- The read-locked attempt leaves the index as it is.
index_reads_only : (id : Bytes) (vm : VersionManager) → (index false id vm).0 ≡ vm
unfolding index
index_reads_only id vm = by_lookup (lookup id vm.tenants)
  where
    by_lookup : (o : Option TenantVersions) → (found_or o false id vm).0 ≡ vm
    by_lookup none = refl
    by_lookup (some tv) = refl

index_creates :
    (id : Bytes) (vm : VersionManager) → (tv : TenantVersions) × ((index true id vm).1 ≡ some tv)
unfolding index
index_creates id vm = by_lookup (lookup id vm.tenants)
  where
    by_lookup :
        (o : Option TenantVersions) → (tv : TenantVersions) × ((found_or o true id vm).1 ≡ some tv)
    by_lookup none = (_, refl)
    by_lookup (some tv) = (tv, refl)

segments_create :
    (ds : List Namespace) (vm : VersionManager)
    → (segs : List Bytes) × ((segments true ds vm).1 ≡ some segs)
unfolding segments
segments_create [] vm = ([], refl)
segments_create (d ∷ ds) vm =
    let first : (tv : TenantVersions) × ((index true d.tenant vm).1 ≡ some tv) =
      index_creates d.tenant vm in
    let rest : (segs : List Bytes) × ((segments true ds (index true d.tenant vm).0).1 ≡ some segs) =
      segments_create ds (index true d.tenant vm).0 in
    rw (segments, first.1)
      (extended (segment first.0 d) (segments true ds (index true d.tenant vm).0) rest)
  where
    extended :
        (s : Bytes) (r : VersionManager × Option (List Bytes))
        → (segs : List Bytes) × (r.1 ≡ some segs)
        → (segs : List Bytes) × ((with_segment s r).1 ≡ some segs)
    extended s (vm, none) (segs, e) = absurd (cc e)
    extended s (vm, some segs) h = (s ∷ segs, refl)

-- A key that was answered, and the generation that it folds.
pub record Answer (low : Bytes → ℕ) (id sha : Bytes) (n : ℕ) (vm : VersionManager)
    (r : VersionManager × Option Bytes) : Type 0 where
  pub gen : ℕ
  pub segs : List Bytes
  pub answers : r.1 ≡ some (key_text sha id gen segs)
  pub grows : Grows low n vm r.0
  pub above : low id < gen
  pub handed : gen ≤ r.0.last_gen

module _ (low : Bytes → ℕ) (id sha : Bytes) (deps : List Namespace) (vm : VersionManager)
    (inv : Above low vm) (few : vm.last_gen + (1 + length deps) < 2 ^ 64) where
  from_segments :
      (own : TenantVersions) (mid : VersionManager) (r : VersionManager × Option (List Bytes))
      (segs : List Bytes)
      → r.1 ≡ some segs
      → Grows low (1 + length deps) vm r.0
      → mid.last_gen ≤ r.0.last_gen
      → (low id < own.gen) × (own.gen ≤ mid.last_gen)
      → Answer low id sha (1 + length deps) vm (key_from sha id own.gen r)
  from_segments own mid (after, none) segs e g h k = absurd (cc e)
  from_segments own mid (after, some found) segs e g h k = record {
    gen = own.gen;
    segs = found;
    answers = refl;
    grows = g;
    above = k.0;
    handed = omega (arith, h, k.1);
  }

  keyed-Answer :
      (r : VersionManager × Option TenantVersions) (own : TenantVersions)
      → r.1 ≡ some own
      → Reads low id vm r
      → Answer low id sha (1 + length deps) vm (keyed true id sha deps r)
  keyed-Answer (mid, none) own e reads = absurd (cc e)
  keyed-Answer (mid, some found) own e reads =
      let segs : (segs : List Bytes) × ((segments true deps mid).1 ≡ some segs) =
        segments_create deps mid in
      let rest : Grows low (length deps) mid (segments true deps mid).0 =
        segments-Grows low true deps mid reads.grows.above (omega (arith, reads.grows.most)) in
      from_segments found mid (segments true deps mid) segs.0 segs.1
        (join_Grows low 1 (length deps) vm mid (segments true deps mid).0 reads.grows rest)
        rest.more (reads.reads found refl)

  locked-Answer : Answer low id sha (1 + length deps) vm (keyed true id sha deps (index true id vm))
  locked-Answer =
      let own : (tv : TenantVersions) × ((index true id vm).1 ≡ some tv) = index_creates id vm in
      keyed-Answer (index true id vm) own.0 own.1 (index-Reads low true id vm inv (omega arith))

  -- A key that the read-locked attempt answers.
  read_key :
      (r : VersionManager × Option TenantVersions) (key : Bytes)
      → (keyed false id sha deps r).1 ≡ some key
      → (own : TenantVersions) × (segs : List Bytes) × (r.1 ≡ some own)
        × (key ≡ key_text sha id own.gen segs)
  read_key (mid, none) key e = absurd (cc e)
  read_key (mid, some own) key e =
      let text : (segs : List Bytes) × (key ≡ key_text sha id own.gen segs) =
        of_segments own (segments false deps mid) key e in
      (own, text.0, refl, text.1)
    where
      of_segments :
          (own : TenantVersions) (r : VersionManager × Option (List Bytes)) (key : Bytes)
          → (key_from sha id own.gen r).1 ≡ some key
          → (segs : List Bytes) × (key ≡ key_text sha id own.gen segs)
      of_segments own (after, none) key f = absurd (cc f)
      of_segments own (after, some segs) key f = (segs, sym (some-injective _ _ f))

  or_create-Answer :
      (o : Option Bytes)
      → (keyed false id sha deps (index false id vm)).1 ≡ o
      → Answer low id sha (1 + length deps) vm (or_create o id sha deps vm)
  unfolding query_key_locked
  or_create-Answer none e = locked-Answer
  or_create-Answer (some key) e =
      let read : (own : TenantVersions) × (segs : List Bytes) × ((index false id vm).1 ≡ some own)
          × (key ≡ key_text sha id own.gen segs) =
        read_key (index false id vm) key e in
      let reads : Reads low id vm (index false id vm) =
        index-Reads low false id vm inv (omega arith) in
      let bounds : (low id < read.0.gen) × (read.0.gen ≤ (index false id vm).0.last_gen) =
        reads.reads read.0 read.2 in
      let unchanged : (index false id vm).0.last_gen ≡ vm.last_gen =
        ap (λ v. v.last_gen) (index_reads_only id vm) in
      record {
        gen = read.0.gen;
        segs = read.1;
        answers = ap some read.3;
        grows = record { above = inv; more = omega arith; most = omega arith };
        above = bounds.0;
        handed = omega (arith, bounds.1, unchanged);
      }

  pub query_key-Answer : Answer low id sha (1 + length deps) vm (query_key id sha deps vm)
  unfolding query_key query_key_locked
  query_key-Answer = or_create-Answer (query_key_locked false id sha deps vm).1 refl
