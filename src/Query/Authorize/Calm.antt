-- ===== src/Query/Authorize/Calm.antt =====
-- internal/query/builder.go: proofs about the errors of the checks of a query.
use wave_house.Prelude.{
  [], ◌∷◌, none, some, ok, err, Bool, List, Result, ◌>>◌, Option, false, true, ◌≡◌, Bool-cases, map,
  refl, ◌>>=◌, inl, is_empty, inr, not,
}
use wave_house.Prelude.Bytes.{Bytes, bytes_eq}
use wave_house.Policy.Types.{ResolvedPermissions}
use wave_house.Policy.Columns.{star}
use wave_house.Query.Ast.{
  StructuredQuery, Aggregation, OrderClause, TimeRange, QueryError, nil_select,
}
use wave_house.Policy.Columns.{is_aggregation_allowed}
use wave_house.Query.Ast.{unsupported_aggregation, forbidden_aggregation, unsupported_alias}
use wave_house.Chsql.Quote.{bind_unsafe}
use wave_house.Query.Authorize.{
  is_valid_agg_fn, Checked, require, validate_column, authorize, check, check_each, check_order_by,
  check_order, check_time_range, check_argument, check_aggregation, check_aggregations,
  validate_and_authorize_columns, resolve_projection, projection_all,
}

-- The error that stands for the panic.
abbrev pub is_panic : QueryError → Bool
is_panic nil_select = true
is_panic _ = false

abbrev pub panics : {A : Type 0} → Result QueryError A → Bool
panics (ok a) = false
panics (err e) = is_panic e

pub record IsCalm {A : Type 0} (m : Result QueryError A) : Type 0 where
  pub calm : panics m ≡ false

pub settled : {A : Type 0} (a : A) → IsCalm (ok a)
settled a = record { calm = refl }

pub >>=-IsCalm :
    {A B : Type 0} (m : Result QueryError A) (f : A → Result QueryError B)
    → IsCalm m
    → ((a : A) → m ≡ ok a → IsCalm (f a))
    → IsCalm (m >>= f)
>>=-IsCalm (ok a) f h k = k a refl
>>=-IsCalm (err e) f h k = record { calm = h.calm }

>>-IsCalm : (a b : Checked) → IsCalm a → IsCalm b → IsCalm (a >> b)
>>-IsCalm (ok tt) b h k = k
>>-IsCalm (err e) b h k = h

pub require-IsCalm : (b : Bool) (e : QueryError) → is_panic e ≡ false → IsCalm (require b e)
require-IsCalm true e h = settled tt
require-IsCalm false e h = record { calm = h }

module _ (schema : List Bytes) (perms : Option ResolvedPermissions) where
  validate_column-IsCalm : (c : Bytes) → IsCalm (validate_column schema c)
  unfolding validate_column
  validate_column-IsCalm c = >>-IsCalm _ _ (require-IsCalm _ _ refl) (require-IsCalm _ _ refl)

  authorize-IsCalm : (c : Bytes) → IsCalm (authorize perms c)
  unfolding authorize
  authorize-IsCalm c = require-IsCalm _ _ refl

  check-IsCalm : (c : Bytes) → IsCalm (check schema perms c)
  unfolding check
  check-IsCalm c = >>-IsCalm _ _ (validate_column-IsCalm c) (authorize-IsCalm c)

  check_each-IsCalm : (cs : List Bytes) → IsCalm (check_each schema perms cs)
  unfolding check_each
  check_each-IsCalm [] = settled tt
  check_each-IsCalm (c ∷ cs) = >>-IsCalm _ _ (check-IsCalm c) (check_each-IsCalm cs)

  check_order_by-IsCalm : (c : Bytes) (r : Checked) → IsCalm (check_order_by perms c r)
  check_order_by-IsCalm c (ok u) = authorize-IsCalm c
  check_order_by-IsCalm c (err e) = require-IsCalm _ _ refl

  check_order-IsCalm : (os : List OrderClause) → IsCalm (check_order schema perms os)
  unfolding check_order
  check_order-IsCalm [] = settled tt
  check_order-IsCalm (o ∷ os) =
      >>-IsCalm _ _ (check_order_by-IsCalm o.column _) (check_order-IsCalm os)

  check_time_range-IsCalm : (r : Option TimeRange) → IsCalm (check_time_range schema perms r)
  unfolding check_time_range
  check_time_range-IsCalm none = settled tt
  check_time_range-IsCalm (some t) = elim (Bool-cases (is_empty t.column)) [
    | inl e ↦ rw e (settled tt)
    | inr e ↦ rw e (check-IsCalm t.column)
  ]

  check_argument-IsCalm : (c : Bytes) → IsCalm (check_argument schema perms c)
  unfolding check_argument
  check_argument-IsCalm c = elim (Bool-cases (bytes_eq c star)) [
    | inl e ↦ rw e (settled tt)
    | inr e ↦ rw e (check-IsCalm c)
  ]

module _ (to_lower : Bytes → Bytes) (schema : List Bytes) (perms : Option ResolvedPermissions) where
  check_aggregation-IsCalm : (a : Aggregation) → IsCalm (check_aggregation to_lower schema perms a)
  unfolding check_aggregation
  check_aggregation-IsCalm a =
      >>-IsCalm (check_argument schema perms a.column) _
        (check_argument-IsCalm schema perms a.column)
        (>>-IsCalm (require (is_valid_agg_fn to_lower a.fn) (unsupported_aggregation a.fn)) _
          (require-IsCalm (is_valid_agg_fn to_lower a.fn) _ refl)
          (>>-IsCalm
            (require (is_aggregation_allowed to_lower perms a.fn) (forbidden_aggregation a.fn)) _
            (require-IsCalm (is_aggregation_allowed to_lower perms a.fn) _ refl)
            (require-IsCalm (not (bind_unsafe a.alias)) (unsupported_alias a.alias) refl)))

  check_aggregations-IsCalm :
      (as' : List Aggregation) → IsCalm (check_aggregations to_lower schema perms as')
  unfolding check_aggregations
  check_aggregations-IsCalm [] = settled tt
  check_aggregations-IsCalm (a ∷ as') =
      >>-IsCalm _ _ (check_aggregation-IsCalm a) (check_aggregations-IsCalm as')

  pub validate-IsCalm :
      (q : StructuredQuery) → IsCalm (validate_and_authorize_columns to_lower schema perms q)
  unfolding validate_and_authorize_columns
  validate-IsCalm q = >>-IsCalm _ _ (check_each-IsCalm schema perms q.columns) (
      >>-IsCalm _ _ (check_aggregations-IsCalm q.aggregations) (
        >>-IsCalm _ _ (check_each-IsCalm schema perms (map (λ f. f.column) q.filters)) (
          >>-IsCalm _ _ (check_each-IsCalm schema perms q.group_by) (
            >>-IsCalm _ _ (check_order-IsCalm schema perms q.order_by)
              (check_time_range-IsCalm schema perms q.time_range)))))

projection_all-IsCalm : (b : Bool) (cols : List Bytes) → IsCalm (projection_all b cols)
projection_all-IsCalm false cols = settled _
projection_all-IsCalm true [] = record { calm = refl }
projection_all-IsCalm true (c ∷ cs) = settled _

pub resolve_projection-IsCalm :
    (schema : List Bytes) (perms : Option ResolvedPermissions) (q : StructuredQuery)
    → IsCalm (resolve_projection schema perms q)
unfolding resolve_projection
resolve_projection-IsCalm schema perms q = elim (Bool-cases q.select_all) [
  | inl e ↦ rw e (projection_all-IsCalm _ _)
  | inr e ↦ elim (Bool-cases (is_empty q.columns)) [
    | inr e₁ ↦ rw (e, e₁) (settled _)
    | inl e₁ ↦ elim (Bool-cases (is_empty q.aggregations)) [
      | inr e₂ ↦ rw (e, e₁, e₂) (settled _)
      | inl e₂ ↦ rw (e, e₁, e₂) record { calm = refl }
    ]
  ]
]
