-- ===== src/Query/Build.antt =====
-- internal/query/builder.go: `Build`, from a structured query to parameterized SQL.
pub mod Balance
pub mod Binding
pub mod Calm
pub mod Placeholders
pub mod Resolved
pub mod Rows
pub mod Safety
pub mod Texts
use wave_house.Prelude.{
  ℕ, Bool, List, Option, suc, ◌++◌, ◌+◌, Result, [], if◌then◌else◌, none, some, ◌/◌, ◌∷◌, err,
  is_empty, leb, ltb, map, zero, ◌%◌, ok, ◌>>=◌, not, ◌&&◌,
}
use wave_house.Prelude.Bytes.{decimal, Bytes, codes, join_texts, bytes_eq}
use wave_house.Prelude.Int.{ℤ, pos, negsuc}
use wave_house.Chsql.Quote.{quote_ident, bind_unsafe}
use wave_house.Policy.Values.{str}
use wave_house.Policy.Types.{ResolvedSelect, ResolvedPermissions}
use wave_house.Policy.Columns.{star}
use wave_house.Query.Ast.{
  Aggregation, OrderClause, StructuredQuery, QueryError, unsupported_table, columns_and_select_all,
  select_all_and_aggregations, empty_projection, nil_select,
}
use wave_house.Query.Authorize.{require, validate_and_authorize_columns, resolve_projection}
use wave_house.Query.Where.{Clock, Param, Clause, build_where}

pub record BuildResult : Type 0 where
  pub sql : Bytes
  pub params : List Param

abbrev pub default_max_rows : ℕ
default_max_rows = 10000

abbrev pub comma : Bytes
comma = codes ", "

unfoldable pub aggregation_expr : Aggregation → Bytes
aggregation_expr a =
    a.fn
    ++ (codes "("
        ++ ((if bytes_eq a.column star then a.column else quote_ident a.column)
            ++ (codes ")"
                ++ (if is_empty a.alias then [] else codes " AS " ++ quote_ident a.alias))))

unfoldable pub select_parts : Bool → List Bytes → List Aggregation → List Bytes
select_parts wildcard projection aggregations =
    (if wildcard then star ∷ [] else [])
    ++ (map quote_ident projection ++ map aggregation_expr aggregations)

-- The policy's clause, if it has one, and what the read of a side that was never resolved does.
abbrev pub policy_clause_of : ResolvedSelect → List Clause
policy_clause_of s =
    if is_empty s.where_clause
    then []
    else (codes "(" ++ (s.where_clause ++ codes ")"), map str s.where_params) ∷ []

abbrev pub with_select {ℓ} : {A : Type ℓ} → Option ResolvedSelect → (ResolvedSelect → A) → Option A
with_select none f = none
with_select (some s) f = some (f s)

abbrev pub or_panic {ℓ} :
    {A : Type ℓ} → Option A → (A → Result QueryError BuildResult) → Result QueryError BuildResult
or_panic none f = err nil_select
or_panic (some a) f = f a

-- What `Build` reads of the grant: the policy's clause and its row cap. No grant at all has none.
unfoldable pub read_side : Option ResolvedPermissions → Option (List Clause × ℤ)
read_side none = some ([], pos 0)
read_side (some rp) = with_select rp.select (λ s. (policy_clause_of s, s.max_rows))

unfoldable pub where_text : List Clause → Bytes
where_text clauses =
    if is_empty clauses
    then []
    else codes " WHERE " ++ join_texts (codes " AND ") (map (λ c. c.0) clauses)

abbrev pub params_of : List Clause → List Param
params_of [] = []
params_of (c ∷ cs) = c.1 ++ params_of cs

unfoldable pub group_text : List Bytes → Bytes
group_text cols =
    if is_empty cols then [] else codes " GROUP BY " ++ join_texts comma (map quote_ident cols)

abbrev pub positive : ℤ → Option ℕ
positive (pos zero) = none
positive (pos (suc n)) = some (suc n)
positive (negsuc n) = none

abbrev pub or_default : Option ℕ → ℕ → ℕ
or_default none d = d
or_default (some n) d = n

abbrev pub capped : Option ℕ → ℕ → ℕ
capped none most = most
capped (some n) most = if ltb n most then n else most

abbrev pub requested : Option ℕ → ℕ → ℕ
requested none most = most
requested (some n) most = if leb n most then n else most

-- The LIMIT: the caller's where it is positive and within the cap, else the cap.
unfoldable pub limit_of : (limit default_max role_max : ℤ) → ℕ
limit_of limit default_max role_max =
    requested (positive limit)
      (capped (positive role_max) (or_default (positive default_max) default_max_rows))

module _ (clock : Clock) where
  unfoldable pub order_part : OrderClause → Bytes
  order_part o =
      quote_ident o.column
      ++ (if bytes_eq (clock.to_lower o.dir) (codes "desc") then codes " DESC" else codes " ASC")

  unfoldable pub order_text : List OrderClause → Bytes
  order_text os =
      if is_empty os then [] else codes " ORDER BY " ++ join_texts comma (map order_part os)

  -- The text and its parameters, once every part is known.
  unfoldable pub render :
      Bytes → StructuredQuery → ℤ → List Bytes → List Clause × ℤ → List Clause → BuildResult
  render table q default_max parts (policy, role_max) own = record {
    sql =
        codes "SELECT "
        ++ (join_texts comma parts
            ++ (codes " FROM "
                ++ (quote_ident table
                    ++ (where_text (policy ++ own)
                        ++ (group_text q.group_by
                            ++ (order_text q.order_by
                                ++ (codes " LIMIT "
                                    ++ decimal (limit_of q.limit default_max role_max))))))));
    params = params_of (policy ++ own);
  }

  unfoldable pub build :
      Bytes
      → StructuredQuery
      → List Bytes
      → Option ResolvedPermissions
      → ℕ
      → ℤ
      → Result QueryError BuildResult
  build table q schema perms bucket_seconds default_max = do
    _ ← require (not (bind_unsafe table)) unsupported_table
    _ ← require (not (q.select_all && not (is_empty q.columns))) columns_and_select_all
    _ ← require (not (q.select_all && not (is_empty q.aggregations))) select_all_and_aggregations
    _ ← validate_and_authorize_columns clock.to_lower schema perms q
    (projection, wildcard) ← resolve_projection schema perms q
    _ ← require (not (is_empty (select_parts wildcard projection q.aggregations))) empty_projection
    own ← build_where clock q.filters q.time_range bucket_seconds
    or_panic (read_side perms) (λ side.
        ok (render table q default_max (select_parts wildcard projection q.aggregations) side own))
