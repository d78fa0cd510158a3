-- ===== src/Cache/Versions.antt =====
-- internal/cache/version_manager.go: the versions that the keys of cached query results fold. The
-- mutex makes each method one step. A map is an association list, and a missing table or scope reads
-- as version 0.
pub mod Generations
pub mod Answers
pub mod Keys
pub mod Orphans
use wave_house.Prelude.{
  ℕ, true, false, [], ◌∷◌, some, none, ok, err, Bool, List, Option, Result, ◌+◌, if◌then◌else◌, ◌%◌,
  ◌++◌, is_empty, ◌==◌, ◌^◌, ltb,
}
use wave_house.Prelude.Bytes.{Bytes, codes, lookup, decimal, join_texts}
use wave_house.Prelude.Maps.{put, delete}
use wave_house.Keyenc.{KeyError, escape, join}

pub record TableVersions : Type 0 where
  pub version : ℕ
  pub scopes : List (Bytes × ℕ)

pub record TenantVersions : Type 0 where
  pub gen : ℕ
  pub tables : List (Bytes × TableVersions)

pub record VersionManager : Type 0 where
  pub tenants : List (Bytes × TenantVersions)
  pub last_gen : ℕ

pub record Namespace : Type 0 where
  pub tenant : Bytes
  pub table : Bytes
  pub scope : Bytes

abbrev pub new_version_manager : VersionManager
new_version_manager = record { tenants = []; last_gen = 0 }

abbrev pub next : ℕ → ℕ
next n = (n + 1) % 2 ^ 64

unfoldable pub new_tenant : Bytes → VersionManager → VersionManager × TenantVersions
new_tenant id vm =
    let tv : TenantVersions = record { gen = next vm.last_gen; tables = [] } in
    (record { tenants = put id tv vm.tenants; last_gen = next vm.last_gen }, tv)

abbrev pub created : Bool → Bytes → VersionManager → VersionManager × Option TenantVersions
created true id vm = ((new_tenant id vm).0, some (new_tenant id vm).1)
created false id vm = (vm, none)

abbrev pub found_or :
    Option TenantVersions → Bool → Bytes → VersionManager → VersionManager × Option TenantVersions
found_or (some tv) create id vm = (vm, some tv)
found_or none create id vm = created create id vm

-- The closure `index` of `queryKeyLocked`.
unfoldable pub index : Bool → Bytes → VersionManager → VersionManager × Option TenantVersions
index create id vm = found_or (lookup id vm.tenants) create id vm

abbrev pub or_zero : Option ℕ → ℕ
or_zero none = 0
or_zero (some n) = n

abbrev pub table_version : Option TableVersions → ℕ
table_version none = 0
table_version (some t) = t.version

abbrev pub scope_version : Option TableVersions → Bytes → ℕ
scope_version none scope = 0
scope_version (some t) scope = or_zero (lookup scope t.scopes)

abbrev pub dot : ℕ
dot = b'.'

abbrev pub bar : ℕ
bar = b'|'

-- keyenc.Join, which does not panic here: the separator is accepted and there are fields.
abbrev pub joined : Result KeyError Bytes → Bytes
joined (ok s) = s
joined (err why) = []

unfoldable pub segment : TenantVersions → Namespace → Bytes
segment tv d = joined (
    join dot (
      d.tenant
      ∷ decimal tv.gen
      ∷ d.table
      ∷ decimal (table_version (lookup d.table tv.tables))
      ∷ d.scope
      ∷ decimal (scope_version (lookup d.table tv.tables) d.scope)
      ∷ []))

abbrev pub with_segment :
    Bytes → VersionManager × Option (List Bytes) → VersionManager × Option (List Bytes)
with_segment s (vm, none) = (vm, none)
with_segment s (vm, some segs) = (vm, some (s ∷ segs))

-- The loop over the dependencies.
unfoldable pub segments :
    Bool → List Namespace → VersionManager → VersionManager × Option (List Bytes)
segments create [] vm = (vm, some [])
segments create (d ∷ ds) vm = elim ((index create d.tenant vm).1) [
  | none ↦ ((index create d.tenant vm).0, none)
  | some tv ↦ with_segment (segment tv d) (segments create ds (index create d.tenant vm).0)
]

-- sort.Strings: the order of bytes, and insertion into a sorted list.
unfoldable pub text_le : Bytes → Bytes → Bool
text_le [] t = true
text_le (a ∷ s) [] = false
text_le (a ∷ s) (b ∷ t) = if a == b then text_le s t else ltb a b

unfoldable pub insert_text : Bytes → List Bytes → List Bytes
insert_text s [] = s ∷ []
insert_text s (t ∷ ts) = let rest = insert_text s ts in if text_le s t then s ∷ t ∷ ts else t ∷ rest

unfoldable pub sort_texts : List Bytes → List Bytes
sort_texts [] = []
sort_texts (s ∷ ss) = insert_text s (sort_texts ss)

unfoldable pub key_text : Bytes → Bytes → ℕ → List Bytes → Bytes
key_text sha id gen segs =
    escape sha
    ++ bar
      ∷ (joined (join dot (id ∷ decimal gen ∷ [])) ++ bar ∷ join_texts (bar ∷ []) (sort_texts segs))

abbrev pub key_from :
    Bytes → Bytes → ℕ → VersionManager × Option (List Bytes) → VersionManager × Option Bytes
key_from sha id gen (vm, none) = (vm, none)
key_from sha id gen (vm, some segs) = (vm, some (key_text sha id gen segs))

abbrev pub keyed :
    Bool
    → Bytes
    → Bytes
    → List Namespace
    → VersionManager × Option TenantVersions
    → VersionManager × Option Bytes
keyed create id sha deps (vm, none) = (vm, none)
keyed create id sha deps (vm, some own) = key_from sha id own.gen (segments create deps vm)

unfoldable pub query_key_locked :
    Bool → Bytes → Bytes → List Namespace → VersionManager → VersionManager × Option Bytes
query_key_locked create id sha deps vm = keyed create id sha deps (index create id vm)

abbrev pub or_create :
    Option Bytes → Bytes → Bytes → List Namespace → VersionManager → VersionManager × Option Bytes
or_create (some key) id sha deps vm = (vm, some key)
or_create none id sha deps vm = query_key_locked true id sha deps vm

-- The read-locked attempt changes nothing.
unfoldable pub query_key :
    Bytes → Bytes → List Namespace → VersionManager → VersionManager × Option Bytes
query_key id sha deps vm = or_create (query_key_locked false id sha deps vm).1 id sha deps vm

abbrev pub table_or_new : Option TableVersions → TableVersions
table_or_new none = record { version = 0; scopes = [] }
table_or_new (some t) = t

-- `tableLocked` and what the caller does to the table that it answers.
abbrev pub on_table :
    Option TenantVersions
    → (TableVersions → TableVersions)
    → Bytes
    → Bytes
    → VersionManager
    → VersionManager
on_table none change id table vm = vm
on_table (some tv) change id table vm = record vm {
  tenants =
      put id
        (record tv {
          tables = put table (change (table_or_new (lookup table tv.tables))) tv.tables;
        })
        vm.tenants;
}

unfoldable pub bump_table : Bytes → Bytes → VersionManager → VersionManager
bump_table id table vm =
    on_table (lookup id vm.tenants) (λ t. record { version = next t.version; scopes = [] }) id table
      vm

abbrev pub bump_scope : Bytes → List (Bytes × ℕ) → List (Bytes × ℕ)
bump_scope scope scopes = put scope (next (or_zero (lookup scope scopes))) scopes

abbrev pub bump_scopes : Bytes → List (Bytes × ℕ) → List (Bytes × ℕ)
bump_scopes scope scopes =
    if is_empty scope then bump_scope scope scopes else bump_scope [] (bump_scope scope scopes)

unfoldable pub bump_namespace : Namespace → VersionManager → VersionManager
bump_namespace ns vm =
    on_table (lookup ns.tenant vm.tenants)
      (λ t. record { version = t.version; scopes = bump_scopes ns.scope t.scopes }) ns.tenant
      ns.table vm

unfoldable pub bump_tenant : Bytes → VersionManager → VersionManager
bump_tenant id vm = record vm { tenants = delete id vm.tenants }

unfoldable pub kept_tenants :
    (Bytes → Bool) → List (Bytes × TenantVersions) → List (Bytes × TenantVersions)
kept_tenants keep [] = []
kept_tenants keep ((id, tv) ∷ m) =
    let rest = kept_tenants keep m in if keep id then (id, tv) ∷ rest else rest

unfoldable pub prune : (Bytes → Bool) → VersionManager → VersionManager
prune keep vm = record vm { tenants = kept_tenants keep vm.tenants }

pub data Call : Type 0 where
  call_key : Bytes → Bytes → List Namespace → Call
  call_bump_table : Bytes → Bytes → Call
  call_bump_namespace : Namespace → Call
  call_bump_tenant : Bytes → Call
  call_prune : (Bytes → Bool) → Call

unfoldable pub step : Call → VersionManager → VersionManager
step (call_key id sha deps) vm = (query_key id sha deps vm).0
step (call_bump_table id table) vm = bump_table id table vm
step (call_bump_namespace ns) vm = bump_namespace ns vm
step (call_bump_tenant id) vm = bump_tenant id vm
step (call_prune keep) vm = prune keep vm

unfoldable pub run : List Call → VersionManager → VersionManager
run [] vm = vm
run (c ∷ cs) vm = run cs (step c vm)
