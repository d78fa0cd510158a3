-- ===== src/Query/Authorize/Laws.antt =====
-- internal/query/builder.go: proofs about the columns of a query that passed the checks.
use mathlib.Core.Option.{some-injective}
use wave_house.Prelude.{
  Bool, List, ◌>>◌, Option, ◌≡◌, false, ok, true, All, err, refl, ◌∷◌, [], map, some, is_empty,
  none, not,
}
use wave_house.Prelude.Bytes.{Bytes, contains, bytes_eq}
use wave_house.Chsql.Quote.{bind_unsafe}
use wave_house.Policy.Types.{ResolvedPermissions}
use wave_house.Policy.Columns.{star, is_column_allowed, is_aggregation_allowed}
use wave_house.Query.Ast.{Aggregation, OrderClause, TimeRange, StructuredQuery, QueryError}
use wave_house.Query.Authorize.{
  check_argument, Checked, require, validate_column, authorize, check, check_each, check_order_by,
  check_order, check_time_range, is_valid_agg_fn, check_aggregation, check_aggregations,
  validate_and_authorize_columns,
}

-- Both steps of a sequence that succeeds succeed.
pub >>-ok : (a b : Checked) → (a >> b) ≡ ok tt → (a ≡ ok tt) × (b ≡ ok tt)
>>-ok (ok tt) b h = (refl, h)
>>-ok (err e) b h = absurd (cc)

pub require-ok : (b : Bool) (e : QueryError) → require b e ≡ ok tt → b ≡ true
require-ok true e h = refl
require-ok false e h = cc

pub require_of_not : (b : Bool) (e : QueryError) → require (not b) e ≡ ok tt → b ≡ false
require_of_not false e h = refl
require_of_not true e h = cc

module _ (schema : List Bytes) (perms : Option ResolvedPermissions) where
  -- A column that may stand in the SQL of this role.
  pub record IsUsable (col : Bytes) : Type 0 where
    pub known : contains col schema ≡ true
    pub bind_safe : bind_unsafe col ≡ false
    pub readable : is_column_allowed perms col false ≡ true

  validate_column-ok :
      (col : Bytes)
      → validate_column schema col ≡ ok tt
      → (contains col schema ≡ true) × (bind_unsafe col ≡ false)
  unfolding validate_column
  validate_column-ok col h = let (a, b) = >>-ok _ _ h in (require-ok _ _ a, require_of_not _ _ b)

  authorize-ok :
      (col : Bytes) → authorize perms col ≡ ok tt → is_column_allowed perms col false ≡ true
  unfolding authorize
  authorize-ok col h = require-ok _ _ h

  check-ok : (col : Bytes) → check schema perms col ≡ ok tt → IsUsable col
  unfolding check
  check-ok col h =
      let (a, b) = >>-ok _ _ h in
      let (k, s) = validate_column-ok col a in
      record { known = k; bind_safe = s; readable = authorize-ok col b }

  check_each-ok : (cols : List Bytes) → check_each schema perms cols ≡ ok tt → All IsUsable cols
  unfolding check_each
  check_each-ok [] h = tt
  check_each-ok (c ∷ cs) h = let (a, b) = >>-ok _ _ h in (check-ok c a, check_each-ok cs b)

  -- An `ORDER BY` name: a usable column, or no column of the schema that could be withheld.
  abbrev pub IsOrderable : OrderClause → Type 0
  IsOrderable o =
      (bind_unsafe o.column ≡ false) × (contains o.column schema ≡ true → IsUsable o.column)

  check_order_by-ok :
      (o : OrderClause) (r : Checked)
      → validate_column schema o.column ≡ r
      → check_order_by perms o.column r ≡ ok tt
      → IsOrderable o
  unfolding validate_column
  check_order_by-ok o (ok u) e h =
      let (k, s) = validate_column-ok o.column e in
      (s, λ _. record { known = k; bind_safe = s; readable = authorize-ok o.column h })
  check_order_by-ok o (err x) e h =
      let safe : bind_unsafe o.column ≡ false = require_of_not _ _ h in
      (safe, λ k. absurd (cc (rw (k, safe) at e)))

  check_order-ok :
      (os : List OrderClause) → check_order schema perms os ≡ ok tt → All IsOrderable os
  unfolding check_order
  check_order-ok [] h = tt
  check_order-ok (o ∷ os) h =
      let (a, b) = >>-ok _ _ h in (check_order_by-ok o _ refl a, check_order-ok os b)

  check_time_range-ok :
      (r : Option TimeRange)
      → check_time_range schema perms r ≡ ok tt
      → (t : TimeRange) → r ≡ some t
      → is_empty t.column ≡ false
      → IsUsable t.column
  unfolding check_time_range
  check_time_range-ok none h t e n = absurd (cc)
  check_time_range-ok (some r) h t e n =
      check-ok t.column (rw n at (rw (some-injective _ _ e) at h))

module _ (to_lower : Bytes → Bytes) (schema : List Bytes) (perms : Option ResolvedPermissions) where
  -- An aggregation that may stand in the SQL of this role.
  pub record IsUsableAggregation (a : Aggregation) : Type 0 where
    pub argument : bytes_eq a.column star ≡ false → IsUsable schema perms a.column
    pub valid : is_valid_agg_fn to_lower a.fn ≡ true
    pub permitted : is_aggregation_allowed to_lower perms a.fn ≡ true
    pub alias_safe : bind_unsafe a.alias ≡ false

  check_argument-ok :
      (col : Bytes)
      → check_argument schema perms col ≡ ok tt
      → bytes_eq col star ≡ false
      → IsUsable schema perms col
  unfolding check_argument
  check_argument-ok col h e = check-ok schema perms col (rw e at h)

  check_aggregation-ok :
      (a : Aggregation) → check_aggregation to_lower schema perms a ≡ ok tt → IsUsableAggregation a
  unfolding check_aggregation
  check_aggregation-ok a h =
      let (arg, h₁) = >>-ok _ _ h in
      let (fn, h₂) = >>-ok _ _ h₁ in
      let (allowed, safe) = >>-ok _ _ h₂ in
      record {
        argument = check_argument-ok a.column arg;
        valid = require-ok _ _ fn;
        permitted = require-ok _ _ allowed;
        alias_safe = require_of_not _ _ safe;
      }

  check_aggregations-ok :
      (as' : List Aggregation)
      → check_aggregations to_lower schema perms as' ≡ ok tt
      → All IsUsableAggregation as'
  unfolding check_aggregations
  check_aggregations-ok [] h = tt
  check_aggregations-ok (a ∷ as') h =
      let (x, y) = >>-ok _ _ h in (check_aggregation-ok a x, check_aggregations-ok as' y)

  -- Every column-bearing clause of the query.
  pub record IsAuthorized (q : StructuredQuery) : Type 0 where
    pub columns : All (IsUsable schema perms) q.columns
    pub aggregations : All IsUsableAggregation q.aggregations
    pub filters : All (IsUsable schema perms) (map (λ f. f.column) q.filters)
    pub group_by : All (IsUsable schema perms) q.group_by
    pub order_by : All (IsOrderable schema perms) q.order_by
    pub time_range :
        (t : TimeRange)
        → q.time_range ≡ some t
        → is_empty t.column ≡ false
        → IsUsable schema perms t.column

  -- A query passes the checks only if every column that any of its clauses names is a column of the
  -- schema, bind-safe and readable by the role (an ORDER BY name outside the schema is an alias and
  -- bind-safe), and every aggregation is a known one that the role may run, under a bind-safe alias.
  pub validate_and_authorize_columns-IsAuthorized :
      (q : StructuredQuery)
      → validate_and_authorize_columns to_lower schema perms q ≡ ok tt
      → IsAuthorized q
  unfolding validate_and_authorize_columns
  validate_and_authorize_columns-IsAuthorized q h =
      let (columns, h₁) = >>-ok _ _ h in
      let (aggregations, h₂) = >>-ok _ _ h₁ in
      let (filters, h₃) = >>-ok _ _ h₂ in
      let (group_by, h₄) = >>-ok _ _ h₃ in
      let (order_by, time_range) = >>-ok _ _ h₄ in
      record {
        columns = check_each-ok schema perms q.columns columns;
        aggregations = check_aggregations-ok q.aggregations aggregations;
        filters = check_each-ok schema perms (map (λ f. f.column) q.filters) filters;
        group_by = check_each-ok schema perms q.group_by group_by;
        order_by = check_order-ok schema perms q.order_by order_by;
        time_range = check_time_range-ok schema perms q.time_range time_range;
      }
