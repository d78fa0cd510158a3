-- ===== src/Cache/Versions/Orphans.antt =====
-- internal/cache/version_manager.go: proofs about the keys of a tenant before and after its bump.
use mathlib.Core.Option.{some-injective}
use wave_house.Prelude.{
  ℕ, false, [], ◌∷◌, some, none, Bool-cases, inl, inr, arith, length, All, refl, Bool, List, Option,
  ◌+◌, ◌≡◌, if◌then◌else◌, ◌<◌, sym, ◌≤◌, ◌∙◌, ap, ◌^◌, ◌≢◌,
}
use wave_house.Prelude.Bytes.{Bytes, IsByte, bytes_eq, bytes_eq_iff, bytes_eq_self, lookup}
use wave_house.Prelude.Maps.{delete, lookup-delete}
use wave_house.Cache.Versions.{
  TableVersions, TenantVersions, VersionManager, Namespace, new_version_manager, key_text,
  query_key, on_table, bump_table, bump_namespace, bump_tenant, kept_tenants, prune, Call, call_key,
  call_bump_table, call_bump_namespace, call_bump_tenant, call_prune, step, run,
}
use wave_house.Cache.Versions.Generations.{Above, Grows, same, put_tenant, join_Grows}
use wave_house.Cache.Versions.Answers.{Answer, query_key-Answer}
use wave_house.Cache.Versions.Keys.{key_text-gen}

-- How many generations a call hands out at most.
abbrev pub cost : Call → ℕ
cost (call_key id sha deps) = 1 + length deps
cost (call_bump_table id table) = 0
cost (call_bump_namespace ns) = 0
cost (call_bump_tenant id) = 0
cost (call_prune keep) = 0

unfoldable pub costs : List Call → ℕ
costs [] = 0
costs (c ∷ cs) = cost c + costs cs

unkept :
    (keep : Bytes → Bool) (x : Bytes) (m : List (Bytes × TenantVersions))
    → keep x ≡ false
    → lookup x (kept_tenants keep m) ≡ none
unfolding lookup kept_tenants
unkept keep x [] h = refl
unkept keep x ((j, w) ∷ m) h = elim (Bool-cases (keep j)) [
  | inr goes ↦ rw (kept_tenants, goes) (unkept keep x m h)
  | inl stays ↦ elim (Bool-cases (bytes_eq j x)) [
    | inl here ↦ absurd (cc (stays, h, ap keep ((bytes_eq_iff j x).0 here)))
    | inr other ↦ rw (kept_tenants, stays, lookup, other) (unkept keep x m h)
  ]
]

lookup-kept_tenants :
    (keep : Bytes → Bool) (x : Bytes) (m : List (Bytes × TenantVersions)) (tv : TenantVersions)
    → lookup x (kept_tenants keep m) ≡ some tv
    → lookup x m ≡ some tv
unfolding lookup kept_tenants
lookup-kept_tenants keep x [] tv e = e
lookup-kept_tenants keep x ((j, w) ∷ m) tv e = elim (Bool-cases (keep j)) [
  | inl stays ↦ elim (Bool-cases (bytes_eq j x)) [
    | inl here ↦ rw (lookup, here) (rw (kept_tenants, stays, lookup, here) at e)
    | inr other ↦
        rw (lookup, other)
          (lookup-kept_tenants keep x m tv (rw (kept_tenants, stays, lookup, other) at e))
  ]
  | inr goes ↦ elim (Bool-cases (bytes_eq j x)) [
    | inl here ↦ absurd (
        cc (
          unkept keep x m (ap keep (sym ((bytes_eq_iff j x).0 here)) ∙ goes),
          rw (kept_tenants, goes) at e,
        ))
    | inr other ↦
        rw (lookup, other) (lookup-kept_tenants keep x m tv (rw (kept_tenants, goes) at e))
  ]
]

module _ (low : Bytes → ℕ) where
  on_table-Grows :
      (o : Option TenantVersions) (change : TableVersions → TableVersions) (id table : Bytes)
      (vm : VersionManager)
      → lookup id vm.tenants ≡ o
      → Above low vm
      → Grows low 0 vm (on_table o change id table vm)
  on_table-Grows none change id table vm e inv = same low vm inv
  on_table-Grows (some tv) change id table vm e inv =
      let now : (low id < tv.gen) × (tv.gen ≤ vm.last_gen) = inv.within id tv e in
      record {
        above = put_tenant low id _ vm.last_gen vm inv (omega arith) now.0 now.1;
        more = omega arith;
        most = omega arith;
      }

  fewer-Grows :
      (m : List (Bytes × TenantVersions)) (vm : VersionManager)
      → ((x : Bytes) (tv : TenantVersions) → lookup x m ≡ some tv → lookup x vm.tenants ≡ some tv)
      → Above low vm
      → Grows low 0 vm (record { tenants = m; last_gen = vm.last_gen })
  fewer-Grows m vm h inv = record {
    above = record { last = inv.last; within = λ x tv e. inv.within x tv (h x tv e) };
    more = omega arith;
    most = omega arith;
  }

lookup-delete-some :
    (id x : Bytes) (m : List (Bytes × TenantVersions)) (tv : TenantVersions)
    → lookup x (delete id m) ≡ some tv
    → (bytes_eq id x ≡ false) × (lookup x m ≡ some tv)
lookup-delete-some id x m tv e =
    let found : (if bytes_eq id x then none else lookup x m) ≡ some tv =
      sym (lookup-delete x id m) ∙ e in
    elim (Bool-cases (bytes_eq id x)) [
      | inl gone ↦ absurd (cc (rw gone at found))
      | inr other ↦ (other, rw other at found)
    ]

step-Grows :
    (low : Bytes → ℕ) (c : Call) (vm : VersionManager)
    → Above low vm
    → vm.last_gen + cost c < 2 ^ 64
    → Grows low (cost c) vm (step c vm)
unfolding step bump_table bump_namespace bump_tenant prune
step-Grows low (call_key id sha deps) vm inv few =
    (query_key-Answer low id sha deps vm inv few).grows
step-Grows low (call_bump_table id table) vm inv few =
    on_table-Grows low (lookup id vm.tenants) _ id table vm refl inv
step-Grows low (call_bump_namespace ns) vm inv few =
    on_table-Grows low (lookup ns.tenant vm.tenants) _ ns.tenant ns.table vm refl inv
step-Grows low (call_bump_tenant id) vm inv few =
    fewer-Grows low (delete id vm.tenants) vm
      (λ x tv e. (lookup-delete-some id x vm.tenants tv e).1) inv
step-Grows low (call_prune keep) vm inv few =
    fewer-Grows low (kept_tenants keep vm.tenants) vm
      (λ x tv e. lookup-kept_tenants keep x vm.tenants tv e) inv

run-Grows :
    (low : Bytes → ℕ) (cs : List Call) (vm : VersionManager)
    → Above low vm
    → vm.last_gen + costs cs < 2 ^ 64
    → Grows low (costs cs) vm (run cs vm)
unfolding run costs
run-Grows low [] vm inv few = same low vm inv
run-Grows low (c ∷ cs) vm inv few =
    let first : Grows low (cost c) vm (step c vm) = step-Grows low c vm inv (omega arith) in
    join_Grows low (cost c) (costs cs) vm (step c vm) (run cs (step c vm)) first
      (run-Grows low cs (step c vm) first.above (omega (arith, first.most)))

new-Above : Above (λ x. 0) new_version_manager
unfolding lookup
new-Above = record { last = λ x. omega arith; within = λ x tv e. cc }

-- After a bump every later generation of the tenant is above the one of the keys so far.
raise : Bytes → ℕ → Bytes → ℕ
raise id gen x = if bytes_eq id x then gen else 0

raise_self : (id : Bytes) (gen : ℕ) → raise id gen id ≡ gen
unfolding raise
raise_self id gen = rw (bytes_eq_self id) refl

bump_tenant-Above :
    (id : Bytes) (gen : ℕ) (vm : VersionManager)
    → Above (λ x. 0) vm
    → gen ≤ vm.last_gen
    → Above (raise id gen) (bump_tenant id vm)
unfolding bump_tenant raise
bump_tenant-Above id gen vm inv h = record {
  last = λ x. ground arith;
  within = λ x tv e.
      let was : (bytes_eq id x ≡ false) × (lookup x vm.tenants ≡ some tv) =
        lookup-delete-some id x vm.tenants tv e in
      rw was.0 (inv.within x tv was.1);
}

-- The manager after these calls, a bump of the tenant, and the calls behind it.
abbrev pub after_bump : List Call → Bytes → List Call → VersionManager → VersionManager
after_bump cs id ds vm = run ds (bump_tenant id (run cs vm))

-- A key that is built for a tenant before it is bumped is never built for it again, whatever queries
-- and dependencies the two keys are of and whatever calls come before the first key, between it and
-- the bump, and between the bump and the second key; both keys are answered. It is asked that the
-- tenant and the two hashes are of bytes and that the calls need fewer than 2^64 generations.
pub bump_tenant-orphans :
    (cs es ds : List Call) (id sha sha2 : Bytes) (deps deps2 : List Namespace)
    → All IsByte id
    → All IsByte sha
    → All IsByte sha2
    → costs cs + (1 + length deps) + (costs es + (costs ds + (1 + length deps2))) < 2 ^ 64
    → ((query_key id sha deps (run cs new_version_manager)).1 ≢ none)
      × ((query_key id sha2 deps2
            (after_bump es id ds (query_key id sha deps (run cs new_version_manager)).0)).1
          ≢ none)
      × ((query_key id sha deps (run cs new_version_manager)).1
          ≢ (query_key id sha2 deps2
              (after_bump es id ds (query_key id sha deps (run cs new_version_manager)).0)).1)
unfolding bump_tenant
bump_tenant-orphans cs es ds id sha sha2 deps deps2 k h h2 few =
    let s : VersionManager = run cs new_version_manager in
    let before : Grows (λ x. 0) (costs cs) new_version_manager s =
      run-Grows (λ x. 0) cs new_version_manager new-Above (omega arith) in
    let first : Answer (λ x. 0) id sha (1 + length deps) s (query_key id sha deps s) =
      query_key-Answer (λ x. 0) id sha deps s before.above (omega (arith, before.most)) in
    let told : VersionManager = (query_key id sha deps s).0 in
    let meanwhile : Grows (λ x. 0) (costs es) told (run es told) =
      run-Grows (λ x. 0) es told first.grows.above (omega (arith, first.grows.most, before.most)) in
    let bumped : VersionManager = bump_tenant id (run es told) in
    let low : Bytes → ℕ = raise id first.gen in
    let between : Grows low (costs ds) bumped (run ds bumped) =
      run-Grows low ds bumped
        (bump_tenant-Above id first.gen (run es told) meanwhile.above
          (omega (arith, first.handed, meanwhile.more)))
        (omega (arith, meanwhile.most, first.grows.most, before.most)) in
    let second : Answer low id sha2 (1 + length deps2) (run ds bumped)
        (query_key id sha2 deps2 (run ds bumped)) =
      query_key-Answer low id sha2 deps2 (run ds bumped) between.above
        (omega (arith, between.most, meanwhile.most, first.grows.most, before.most)) in
    let raised : low id ≡ first.gen = raise_self id first.gen in
    (
      λ e. cc (e, first.answers),
      λ e. cc (e, second.answers),
      λ e.
          let texts : key_text sha id first.gen first.segs
              ≡ key_text sha2 id second.gen second.segs =
            some-injective _ _ (sym first.answers ∙ e ∙ second.answers) in
          let gens : first.gen ≡ second.gen =
            key_text-gen sha sha2 id first.gen second.gen first.segs second.segs h h2 k texts in
          absurd (omega (arith, second.above, raised, gens)),
    )
