-- ===== src/Cache/Versions/Generations.antt =====
-- internal/cache/version_manager.go: proofs about the generations in the index and their counter.
use mathlib.Core.Path.{subst}
use mathlib.Core.Option.{some-injective}
use wave_house.Prelude.{
  ℕ, true, false, [], ◌∷◌, some, none, Bool-cases, Option-cases, inl, inr, arith, length, Bool,
  Option, ◌+◌, ◌≤◌, ◌<◌, ◌≡◌, if◌then◌else◌, ◌^◌, sym, ◌∙◌, ap, refl, List, suc,
}
use wave_house.Prelude.Bytes.{Bytes, bytes_eq, bytes_eq_iff, lookup}
use wave_house.Prelude.Maps.{put, lookup-put}
use wave_house.Cache.Versions.{
  TenantVersions, VersionManager, Namespace, next, new_tenant, found_or, index, segment,
  with_segment, segments,
}

-- The generations in the index lie above those of `low`, and up to the last one handed out.
pub record Above (low : Bytes → ℕ) (vm : VersionManager) : Type 0 where
  pub last : (id : Bytes) → low id ≤ vm.last_gen
  pub within :
      (id : Bytes) (tv : TenantVersions)
      → lookup id vm.tenants ≡ some tv
      → (low id < tv.gen) × (tv.gen ≤ vm.last_gen)

-- A step keeps that, and hands out `n` generations at most.
pub record Grows (low : Bytes → ℕ) (n : ℕ) (before after : VersionManager) : Type 0 where
  pub above : Above low after
  pub more : before.last_gen ≤ after.last_gen
  pub most : after.last_gen ≤ before.last_gen + n

pub same : (low : Bytes → ℕ) (vm : VersionManager) → Above low vm → Grows low 0 vm vm
same low vm inv = record { above = inv; more = omega arith; most = omega arith }

module _ (low : Bytes → ℕ) where
  pub put_tenant :
      (id : Bytes) (tv : TenantVersions) (n : ℕ) (vm : VersionManager)
      → Above low vm
      → vm.last_gen ≤ n
      → low id < tv.gen
      → tv.gen ≤ n
      → Above low (record { tenants = put id tv vm.tenants; last_gen = n })
  put_tenant id tv n vm inv h k l = record {
    last = λ x. omega (arith, inv.last x);
    within = λ x u e.
        let found : (if bytes_eq id x then some tv else lookup x vm.tenants) ≡ some u =
          sym (lookup-put x id tv vm.tenants) ∙ e in
        elim (Bool-cases (bytes_eq id x)) [
          | inl here ↦
              let is_new : tv ≡ u = some-injective _ _ (rw here at found) in
              let gens : tv.gen ≡ u.gen = ap (λ v. v.gen) is_new in
              let lows : low id ≡ low x = ap low ((bytes_eq_iff id x).0 here) in
              (omega (arith, gens, lows), omega (arith, gens))
          | inr other ↦
              let was : (low x < u.gen) × (u.gen ≤ vm.last_gen) =
                inv.within x u (rw other at found) in
              (was.0, omega (arith, was.1))
        ];
  }

  new_tenant-Grows :
      (id : Bytes) (vm : VersionManager)
      → Above low vm
      → vm.last_gen + 1 < 2 ^ 64
      → Grows low 1 vm (new_tenant id vm).0
  unfolding new_tenant
  new_tenant-Grows id vm inv few = record {
    above =
        put_tenant id (record { gen = next vm.last_gen; tables = [] }) (next vm.last_gen) vm inv
          (omega arith) (omega (arith, inv.last id)) (omega arith);
    more = omega arith;
    most = omega arith;
  }

  new_tenant-reads :
      (id : Bytes) (vm : VersionManager)
      → Above low vm
      → vm.last_gen + 1 < 2 ^ 64
      → (low id < (new_tenant id vm).1.gen)
        × ((new_tenant id vm).1.gen ≤ (new_tenant id vm).0.last_gen)
  unfolding new_tenant
  new_tenant-reads id vm inv few = (omega (arith, inv.last id), omega arith)

  -- The index that a key reads has a generation above `low`.
  pub record Reads (id : Bytes) (vm : VersionManager) (r : VersionManager × Option TenantVersions)
      : Type 0 where
    pub grows : Grows low 1 vm r.0
    pub reads : (tv : TenantVersions) → r.1 ≡ some tv → (low id < tv.gen) × (tv.gen ≤ r.0.last_gen)

  pub index-Reads :
      (create : Bool) (id : Bytes) (vm : VersionManager)
      → Above low vm
      → vm.last_gen + 1 < 2 ^ 64
      → Reads id vm (index create id vm)
  unfolding index
  index-Reads create id vm inv few = by_lookup (lookup id vm.tenants) refl create
    where
      by_lookup :
          (o : Option TenantVersions)
          → lookup id vm.tenants ≡ o
          → (c : Bool) → Reads id vm (found_or o c id vm)
      by_lookup (some tv) e c = record {
        grows = record { above = inv; more = omega arith; most = omega arith };
        reads = λ u f. inv.within id u (e ∙ f);
      }
      by_lookup none e false = record {
        grows = record { above = inv; more = omega arith; most = omega arith };
        reads = λ u f. absurd (cc f);
      }
      by_lookup none e true = record {
        grows = new_tenant-Grows id vm inv few;
        reads = λ u f.
            let is_new : (new_tenant id vm).1 ≡ u = some-injective _ _ f in
            let new : (low id < (new_tenant id vm).1.gen)
                × ((new_tenant id vm).1.gen ≤ (new_tenant id vm).0.last_gen) =
              new_tenant-reads id vm inv few in
            subst (λ v. (low id < v.gen) × (v.gen ≤ (new_tenant id vm).0.last_gen)) is_new new;
      }

  pub join_Grows :
      (m n : ℕ) (a b c : VersionManager) → Grows low m a b → Grows low n b c → Grows low (m + n) a c
  join_Grows m n a b c g h = record {
    above = h.above;
    more = omega (arith, g.more, h.more);
    most = omega (arith, g.most, h.most);
  }

  with_segment-state :
      (s : Bytes) (r : VersionManager × Option (List Bytes)) → (with_segment s r).0 ≡ r.0
  with_segment-state s (vm, none) = refl
  with_segment-state s (vm, some segs) = refl

  pub segments-Grows :
      (create : Bool) (ds : List Namespace) (vm : VersionManager)
      → Above low vm
      → vm.last_gen + length ds < 2 ^ 64
      → Grows low (length ds) vm (segments create ds vm).0
  unfolding segments
  segments-Grows create [] vm inv few = same low vm inv
  segments-Grows create (d ∷ ds) vm inv few =
      let first : Reads d.tenant vm (index create d.tenant vm) =
        index-Reads create d.tenant vm inv (omega arith) in
      elim (Option-cases (index create d.tenant vm).1) [
        | inl missing ↦
            rw (segments, missing)
              (record {
                above = first.grows.above;
                more = first.grows.more;
                most = omega (arith, first.grows.most);
              })
        | inr (tv, e) ↦
            let rest : Grows low (length ds) (index create d.tenant vm).0
                (segments create ds (index create d.tenant vm).0).0 =
              segments-Grows create ds (index create d.tenant vm).0 first.grows.above
                (omega (arith, first.grows.most)) in
            let all : Grows low (1 + length ds) vm
                (segments create ds (index create d.tenant vm).0).0 =
              join_Grows 1 (length ds) vm _ _ first.grows rest in
            rw (segments, e)
              (subst (λ v. Grows low (suc (length ds)) vm v)
                (sym (
                  with_segment-state (segment tv d)
                    (segments create ds (index create d.tenant vm).0)))
                (record { above = all.above; more = all.more; most = omega (arith, all.most) }))
      ]
