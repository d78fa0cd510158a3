-- ===== src/Tests/Cache.antt =====
-- The breaker and the owed bumps on concrete calls.
use wave_house.Prelude.{arith, refl, ◌≢◌, All, none, some, List}
use wave_house.Prelude.Bytes.{
  Bytes, codes, IsByte, lookup, bytes_eq, decimal, decimal_digits, join_texts,
}
use wave_house.Prelude.Maps.{put}
use wave_house.Keyenc.{
  join, append_join, join_fields, append_fields, append_escape, escape, escape_byte, kept,
  check_sep,
}
use wave_house.Cache.Versions
use wave_house.Cache.Versions.{
  Namespace, call_key, call_bump_table, query_key, query_key_locked, index, new_tenant, segments,
  segment, key_text, sort_texts, insert_text, bump_tenant, bump_table, new_version_manager,
}
use wave_house.Cache.Versions.Orphans.{after_bump, costs, bump_tenant-orphans}
use wave_house.Prelude.{[], ◌∷◌, some, true, false, All, arith, ◌≡◌, ◌⊎◌, refl, ◌↔◌}
use wave_house.Prelude.Bytes.{Bytes, codes, bytes_eq, contains, lookup}
use wave_house.Cache.Breaker.{
  Breaker, allow_at, success_at, failure_at, new_breaker, run, allow, is_open, until_probe,
}
use wave_house.Cache.Breaker.Laws.{
  IsWellFormed, run-IsWellFormed, IsGated, allow-IsGated, allow_all, Refused, allow-probes_once,
}
use wave_house.Cache.Breaker.Threshold.{
  failures_at, run-opens_at_threshold, IsElapsed, until_probe-allow,
}
use wave_house.Cache.Pending.{PendingBumps, add, done, snapshot, owed, next_gen, tenant_token_key}
use wave_house.Cache.Pending.Laws.{IsCovered, IsOwedAt, add-keeps_owed, done-keeps_added}

run-IsWellFormed_example :
    IsWellFormed
      (run (new_breaker 2 10) (failure_at 1 ∷ failure_at 2 ∷ allow_at 12 ∷ success_at ∷ []))
run-IsWellFormed_example =
    run-IsWellFormed 2 10 (failure_at 1 ∷ failure_at 2 ∷ allow_at 12 ∷ success_at ∷ [])
      (omega arith)

abbrev tripped : Breaker
tripped = record {
  threshold = 2;
  open_for = 10;
  failures = 0;
  «open» = true;
  opened_at = 5;
  probing = false;
}

allow-IsGated_example : IsGated tripped 15
allow-IsGated_example = allow-IsGated tripped 15

tripped-due : (allow tripped 15).2 ≡ true
unfolding allow
tripped-due = refl

allow-probes_once_example : All Refused (allow_all (allow tripped 15).0 (16 ∷ 40 ∷ []))
allow-probes_once_example = allow-probes_once tripped 15 (16 ∷ 40 ∷ []) tripped-due

run-opens_at_threshold_example : is_open (run (new_breaker 2 10) (failures_at (3 ∷ 4 ∷ []))) ≡ true
run-opens_at_threshold_example = run-opens_at_threshold 2 10 (3 ∷ 4 ∷ []) (omega arith)

until_probe-allow_example :
    ((until_probe tripped 15).1 ≡ is_open tripped)
    × (true ≡ true → IsElapsed (until_probe tripped 15).0 ↔ ((allow tripped 15).2 ≡ true))
until_probe-allow_example = until_probe-allow tripped 15 refl

abbrev acme_table : Bytes
acme_table = codes "acme:orders"

abbrev owing : PendingBumps
owing = record {
  prefix = codes "wh";
  most = 1;
  keys = (acme_table, record { tenant = codes "acme"; gen = 3 }) ∷ [];
  gen = 3;
  n = 1;
}

acme_table-named : contains acme_table (acme_table ∷ []) ≡ true
unfolding contains bytes_eq
acme_table-named = refl

done-keeps_added_example :
    IsCovered
      (done (add owing (codes "acme") (acme_table ∷ [])) (snapshot owing))
      (next_gen 3)
      (codes "acme")
      acme_table
done-keeps_added_example =
    done-keeps_added owing (codes "acme") (acme_table ∷ []) acme_table (omega arith, tt)
      (omega arith) acme_table-named

owing-table : lookup acme_table (owed owing) ≡ some record { tenant = codes "acme"; gen = 3 }
unfolding lookup bytes_eq owed
owing-table = refl

acme_table-unnamed : contains acme_table (codes "acme:users" ∷ []) ≡ false
unfolding contains bytes_eq
acme_table-unnamed = refl

add-keeps_owed_example :
    IsOwedAt (owed (add owing (codes "acme") (codes "acme:users" ∷ []))) 3 acme_table
    ⊎ IsOwedAt
        (owed (add owing (codes "acme") (codes "acme:users" ∷ [])))
        (next_gen 3)
        (tenant_token_key (codes "wh") (codes "acme"))
add-keeps_owed_example =
    add-keeps_owed owing (codes "acme") (codes "acme:users" ∷ []) acme_table
      (record { tenant = codes "acme"; gen = 3 }) owing-table acme_table-unnamed

abbrev tenant_a : Bytes
tenant_a = codes "a"

abbrev table_key : List Namespace
table_key = record { tenant = codes "a"; table = codes "t"; scope = [] } ∷ []

-- A key, a bump of its table, and a bump of its tenant.
abbrev first_calls : List Versions.Call
first_calls =
    call_key (codes "b") (codes "s1") table_key ∷ call_bump_table (codes "a") (codes "t") ∷ []

tenant_a-IsByte : All IsByte tenant_a
tenant_a-IsByte = ground arith

sha-IsByte : All IsByte (codes "s1")
sha-IsByte = ground arith

-- Between the key and the bump another table is bumped, and after the bump another key is built.
abbrev meanwhile : List Versions.Call
meanwhile = call_bump_table (codes "a") (codes "u") ∷ []

abbrev later_calls : List Versions.Call
later_calls = call_key (codes "b") (codes "s2") table_key ∷ []

bump_tenant-orphans_example :
    ((query_key tenant_a (codes "s1") table_key (Versions.run first_calls new_version_manager)).1
      ≢ none)
    × ((query_key tenant_a (codes "s1") table_key (
          after_bump meanwhile tenant_a later_calls
            (query_key tenant_a
              (codes "s1")
              table_key
              (Versions.run first_calls new_version_manager)).0)).1
        ≢ none)
    × ((query_key tenant_a (codes "s1") table_key (Versions.run first_calls new_version_manager)).1
        ≢ (query_key tenant_a (codes "s1") table_key (
            after_bump meanwhile tenant_a later_calls
              (query_key tenant_a
                (codes "s1")
                table_key
                (Versions.run first_calls new_version_manager)).0)).1)
unfolding costs
bump_tenant-orphans_example =
    bump_tenant-orphans first_calls meanwhile later_calls tenant_a (codes "s1") (codes "s1")
      table_key table_key tenant_a-IsByte sha-IsByte sha-IsByte (omega arith)

fresh_key :
    (query_key tenant_a (codes "s1") table_key (Versions.run first_calls new_version_manager)).1
    ≡ some (codes "s1|a.2|a.2.t.1..0")
unfolding query_key query_key_locked index new_tenant segments segment key_text sort_texts
    insert_text Versions.run Versions.step bump_table lookup put bytes_eq join append_join
    join_fields append_fields append_escape escape escape_byte kept check_sep decimal decimal_digits
    join_texts
fresh_key = refl
