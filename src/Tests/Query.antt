-- ===== src/Tests/Query.antt =====
-- The query builder on concrete queries.
use mathlib.Core.Path.{subst}
use mathlib.Core.Option.{some-injective}
use wave_house.Policy.Evaluate.RowSecurity.{BindsItsParams}
use wave_house.Prelude.{List, [], ◌∷◌, none, some, true, false, ok, refl, ◌≡◌, ap, ◌∙◌}
use wave_house.Prelude.Int.{pos}
use wave_house.Prelude.Bytes.{
  Bytes, codes, count, bytes_eq, contains, join_texts, decimal, decimal_digits,
}
use wave_house.Chsql.Quote.{question, quote_ident, escape_ident, bind_unsafe}
use wave_house.Policy.Values.{str, number}
use wave_house.Policy.Types.{ResolvedSelect, ResolvedPermissions}
use wave_house.Policy.Columns.{is_column_allowed, passes_lists, is_denied, side_lists}
use wave_house.Policy.Evaluate.{empty_select}
use wave_house.Query.Ast.{StructuredQuery}
use wave_house.Query.Authorize.{
  validate_and_authorize_columns, check_each, check, validate_column, authorize, check_aggregations,
  check_order, check_time_range, resolve_projection,
}
use wave_house.Query.Where.{
  Clock, build_where, filter_clauses, filter_to_sql, coerce_filter_value, time_clauses,
}
use wave_house.Query.Build.{
  BuildResult, build, read_side, render, select_parts, where_text, group_text, order_text, limit_of,
}
use wave_house.Query.Authorize.Calm.{panics}
use wave_house.Query.Build.Calm.{build-IsCalm}
use wave_house.Query.Build.Safety.{IsScoped, build-IsScoped}
use wave_house.Query.Build.Rows.{IsFiltered, build-IsFiltered, IsBounded, limit_of-IsBounded}
use wave_house.Query.Build.Binding.{GrantBinds, build-BindsItsParams}

abbrev still_clock : Clock
still_clock = record {
  to_lower = λ s. s;
  now = pos 0;
  parse_relative = λ _. none;
  parse_rfc3339 = λ _. none;
  format = λ _. [];
}

abbrev orders : Bytes
orders = codes "orders"

abbrev schema : List Bytes
schema = codes "id" ∷ codes "org" ∷ codes "note" ∷ []

abbrev own_rows : ResolvedSelect
own_rows = record empty_select {
  deny_columns = codes "note" ∷ [];
  where_clause = codes "`org` = ?";
  where_params = codes "acme" ∷ [];
  max_rows = pos 50;
}

abbrev viewer : ResolvedPermissions
viewer = record { allowed = true; select = some own_rows; insert = none }

abbrev recent : StructuredQuery
recent = record {
  columns = codes "id" ∷ [];
  select_all = false;
  aggregations = [];
  filters = record { column = codes "id"; op = codes "gt"; value = number (codes "7") } ∷ [];
  group_by = [];
  order_by = [];
  limit = pos 80;
  time_range = none;
}

abbrev recent_built : BuildResult
recent_built = record {
  sql = codes "SELECT `id` FROM `orders` WHERE (`org` = ?) AND `id` > ? LIMIT 50";
  params = str (codes "acme") ∷ number (codes "7") ∷ [];
}

recent-accepted :
    validate_and_authorize_columns still_clock.to_lower schema (some viewer) recent ≡ ok tt
unfolding validate_and_authorize_columns check_each check validate_column authorize contains
    bytes_eq bind_unsafe is_column_allowed side_lists passes_lists is_denied check_aggregations
    check_order check_time_range
recent-accepted = refl

recent-build : build still_clock orders recent schema (some viewer) 0 (pos 100) ≡ ok recent_built
unfolding build validate_and_authorize_columns check_each check validate_column authorize contains
    bytes_eq bind_unsafe is_column_allowed side_lists passes_lists is_denied check_aggregations
    check_order check_time_range resolve_projection build_where filter_clauses filter_to_sql
    coerce_filter_value time_clauses quote_ident escape_ident read_side render select_parts
    join_texts where_text group_text order_text decimal decimal_digits limit_of
recent-build = refl

build-IsScoped_example :
    IsScoped still_clock orders recent schema (some viewer) (pos 100) recent_built
build-IsScoped_example =
    build-IsScoped still_clock orders recent schema (some viewer) 0 (pos 100) recent_built
      recent-build

build-IsFiltered_example : IsFiltered still_clock orders recent own_rows 0 recent_built
build-IsFiltered_example =
    build-IsFiltered still_clock orders recent schema viewer own_rows 0 (pos 100) recent_built refl
      refl recent-build

own_rows-binds : count question own_rows.where_clause ≡ 1
unfolding count
own_rows-binds = refl

viewer-GrantBinds : GrantBinds (some viewer)
viewer-GrantBinds rp s e f =
    subst BindsItsParams (some-injective _ _ (ap (λ x. x.select) (some-injective _ _ e) ∙ f))
      own_rows-binds

build-BindsItsParams_example : count question recent_built.sql ≡ 2
build-BindsItsParams_example =
    build-BindsItsParams still_clock orders recent schema (some viewer) 0 (pos 100) recent_built
      (λ s _. refl) viewer-GrantBinds (λ e. absurd (cc)) recent-build

limit_of-IsBounded_example :
    IsBounded (pos 80) (pos 100) (pos 50) (limit_of (pos 80) (pos 100) (pos 50))
limit_of-IsBounded_example = limit_of-IsBounded (pos 80) (pos 100) (pos 50)

-- A grant for writing, whose read side was never resolved.
abbrev writer : ResolvedPermissions
writer = record { allowed = true; select = none; insert = none }

abbrev everything : StructuredQuery
everything = record recent { columns = []; select_all = true; filters = [] }

build-IsCalm_example :
    panics (build still_clock orders everything schema (some writer) 0 (pos 100)) ≡ false
build-IsCalm_example = build-IsCalm still_clock orders everything schema (some writer) 0 (pos 100)
