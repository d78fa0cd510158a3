-- ===== src/Query/Authorize.antt =====
-- internal/query/builder.go: every column that a query names is checked against the schema and
-- against the role (`validateAndAuthorizeColumns`), and the projection is resolved.
-- `to_lower` is strings.ToLower.
pub mod Calm
pub mod Laws
use wave_house.Prelude.{
  Bool, List, Option, Result, false, if◌then◌else◌, ok, ◌∷◌, [], all, err, not, some, is_empty, ltb,
  true, none, ◌>>◌, map,
}
use wave_house.Prelude.Bytes.{Bytes, codes, contains, bytes_eq}
use wave_house.Chsql.Quote.{bind_unsafe}
use wave_house.Policy.Types.{ResolvedPermissions}
use wave_house.Policy.Columns.{
  star, is_column_allowed, is_aggregation_allowed, allowed_projection, restricts_columns,
}
use wave_house.Query.Ast.{
  Aggregation, OrderClause, TimeRange, StructuredQuery, QueryError, unknown_column,
  unsupported_column, forbidden_column, unsupported_aggregation, forbidden_aggregation,
  unsupported_alias, unsupported_order_column, no_readable_columns, empty_projection,
}

abbrev pub Checked : Type 0
Checked = Result QueryError (Unit {0})

-- An error of this name where the test fails.
abbrev pub require : Bool → QueryError → Checked
require true e = ok tt
require false e = err e

-- `schema` is the list of the table's column names: schemaColumnSet answers membership in it.
unfoldable pub validate_column : List Bytes → Bytes → Checked
validate_column schema col = do
  require (contains col schema) (unknown_column col)
  require (not (bind_unsafe col)) (unsupported_column col)

unfoldable pub authorize : Option ResolvedPermissions → Bytes → Checked
authorize perms col = require (is_column_allowed perms col false) (forbidden_column col)

unfoldable pub check : List Bytes → Option ResolvedPermissions → Bytes → Checked
check schema perms col = do validate_column schema col; authorize perms col

unfoldable pub check_each : List Bytes → Option ResolvedPermissions → List Bytes → Checked
check_each schema perms [] = ok tt
check_each schema perms (c ∷ cs) = do check schema perms c; check_each schema perms cs

abbrev pub aggregation_names : List Bytes
aggregation_names =
    codes "count"
    ∷ codes "sum"
    ∷ codes "avg"
    ∷ codes "min"
    ∷ codes "max"
    ∷ codes "countdistinct"
    ∷ codes "uniq"
    ∷ codes "uniqexact"
    ∷ codes "any"
    ∷ codes "anylast"
    ∷ codes "argmin"
    ∷ codes "argmax"
    ∷ codes "grouparray"
    ∷ codes "median"
    ∷ codes "quantile"
    ∷ codes "stddevpop"
    ∷ codes "stddevsamp"
    ∷ codes "varpop"
    ∷ codes "varsamp"
    ∷ []

-- What an `ORDER BY` column passes: a column of the schema is authorized, any other name is taken
-- for an alias.
abbrev pub check_order_by : Option ResolvedPermissions → Bytes → Checked → Checked
check_order_by perms col (ok _) = authorize perms col
check_order_by perms col (err _) = require (not (bind_unsafe col)) (unsupported_order_column col)

unfoldable pub check_order : List Bytes → Option ResolvedPermissions → List OrderClause → Checked
check_order schema perms [] = ok tt
check_order schema perms (o ∷ os) = do
  check_order_by perms o.column (validate_column schema o.column)
  check_order schema perms os

unfoldable pub check_time_range :
    List Bytes → Option ResolvedPermissions → Option TimeRange → Checked
check_time_range schema perms none = ok tt
check_time_range schema perms (some t) =
    if is_empty t.column then ok tt else check schema perms t.column

-- `*` is the argument of no column.
unfoldable pub check_argument : List Bytes → Option ResolvedPermissions → Bytes → Checked
check_argument schema perms col = if bytes_eq col star then ok tt else check schema perms col

module _ (to_lower : Bytes → Bytes) where
  unfoldable pub is_valid_agg_fn : Bytes → Bool
  is_valid_agg_fn fn =
      if all (λ c. ltb c 128) fn then contains (to_lower fn) aggregation_names else false

  unfoldable pub check_aggregation : List Bytes → Option ResolvedPermissions → Aggregation → Checked
  check_aggregation schema perms a = do
    check_argument schema perms a.column
    require (is_valid_agg_fn a.fn) (unsupported_aggregation a.fn)
    require (is_aggregation_allowed to_lower perms a.fn) (forbidden_aggregation a.fn)
    require (not (bind_unsafe a.alias)) (unsupported_alias a.alias)

  unfoldable pub check_aggregations :
      List Bytes → Option ResolvedPermissions → List Aggregation → Checked
  check_aggregations schema perms [] = ok tt
  check_aggregations schema perms (a ∷ as') = do
    check_aggregation schema perms a
    check_aggregations schema perms as'

  unfoldable pub validate_and_authorize_columns :
      List Bytes → Option ResolvedPermissions → StructuredQuery → Checked
  validate_and_authorize_columns schema perms q = do
    check_each schema perms q.columns
    check_aggregations schema perms q.aggregations
    check_each schema perms (map (λ f. f.column) q.filters)
    check_each schema perms q.group_by
    check_order schema perms q.order_by
    check_time_range schema perms q.time_range

-- The columns to project, and whether a bare `*` is emitted instead.
abbrev pub projection_all : Bool → List Bytes → Result QueryError (List Bytes × Bool)
projection_all false allowed = ok ([], true)
projection_all true [] = err no_readable_columns
projection_all true (c ∷ cs) = ok (c ∷ cs, false)

unfoldable pub resolve_projection :
    List Bytes
    → Option ResolvedPermissions
    → StructuredQuery
    → Result QueryError (List Bytes × Bool)
resolve_projection schema perms q =
    if q.select_all
    then projection_all (restricts_columns perms) (allowed_projection perms schema)
    else if not (is_empty q.columns)
    then ok (q.columns, false)
    else if not (is_empty q.aggregations)
    then ok ([], false)
    else err empty_projection
