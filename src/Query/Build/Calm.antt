-- ===== src/Query/Build/Calm.antt =====
-- internal/query/builder.go: proofs about the reads of a grant's side by `Build`.
use wave_house.Prelude.{
  ℕ, [], ◌∷◌, none, some, ok, not, ◌&&◌, Bool, List, Option, refl, Result, ◌≡◌, false,
  if◌then◌else◌, is_empty, true, err,
}
use wave_house.Prelude.Int.{ℤ}
use wave_house.Prelude.Bytes.{Bytes}
use wave_house.Chsql.Quote.{bind_unsafe}
use wave_house.Policy.Values.{Json, null, bool, number, str, arr, obj, nil, cons}
use wave_house.Policy.Types.{ResolvedSelect, ResolvedPermissions}
use wave_house.Query.Ast.{unsupported_operator}
use wave_house.Chsql.Quote.{quote_ident}
use wave_house.Query.Where.{coerce_filter_value, comparison, Clause}
use wave_house.Query.Authorize.Calm.{is_panic}
use wave_house.Prelude.Bytes.{bytes_eq, codes}
use wave_house.Query.Ast.{
  StructuredQuery, Filter, TimeRange, QueryError, unsupported_table, columns_and_select_all,
  select_all_and_aggregations, empty_projection,
}
use wave_house.Query.Authorize.{resolve_projection}
use wave_house.Query.Authorize.Laws.{IsAuthorized, validate_and_authorize_columns-IsAuthorized}
use wave_house.Query.Authorize.Calm.{
  IsCalm, panics, settled, >>=-IsCalm, require-IsCalm, validate-IsCalm, resolve_projection-IsCalm,
}
use wave_house.Query.Where.{
  Clock, filter_to_sql, in_filter, absolute, relative, resolve_time_value, bound_clause,
  until_clause, time_clauses, filter_clauses, build_where,
}
use wave_house.Query.Build.{
  policy_clause_of, BuildResult, build, or_panic, with_select, read_side, select_parts,
}
use wave_house.Query.Build.Resolved.{unresolved-resolve_projection}

comparison-IsCalm : (col op : Bytes) (v : Json) → IsCalm (comparison col op v)
comparison-IsCalm col op v = settled _

abbrev failed : (A : Type 0) → QueryError → Result QueryError A
failed A e = err e

failing : (A : Type 0) (e : QueryError) → is_panic e ≡ false → IsCalm (failed A e)
failing A e h = record { calm = h }

in_filter-IsCalm : (col : Bytes) (v : Json) → IsCalm (in_filter col v)
in_filter-IsCalm col (arr (cons v vs)) = settled _
in_filter-IsCalm col (arr nil) = record { calm = refl }
in_filter-IsCalm col null = record { calm = refl }
in_filter-IsCalm col (bool b) = record { calm = refl }
in_filter-IsCalm col (number n) = record { calm = refl }
in_filter-IsCalm col (str s) = record { calm = refl }
in_filter-IsCalm col (obj fs) = record { calm = refl }

either-IsCalm :
    {A : Type 0} (b : Bool) (x y : Result QueryError A)
    → IsCalm x
    → IsCalm y
    → IsCalm (if b then x else y)
either-IsCalm true x y h k = h
either-IsCalm false x y h k = k

module _ (clock : Clock) where
  filter_to_sql-IsCalm : (f : Filter) → IsCalm (filter_to_sql clock f)
  unfolding filter_to_sql
  filter_to_sql-IsCalm f =
      let v = coerce_filter_value clock f.value in
      let op = clock.to_lower f.op in
      let cmp = λ (sign : Bytes). comparison-IsCalm (quote_ident f.column) sign v in
      either-IsCalm (bytes_eq op (codes "eq")) _ _ (cmp (codes " = ?")) (
        either-IsCalm (bytes_eq op (codes "neq")) _ _ (cmp (codes " != ?")) (
          either-IsCalm (bytes_eq op (codes "gt")) _ _ (cmp (codes " > ?")) (
            either-IsCalm (bytes_eq op (codes "gte")) _ _ (cmp (codes " >= ?")) (
              either-IsCalm (bytes_eq op (codes "lt")) _ _ (cmp (codes " < ?")) (
                either-IsCalm (bytes_eq op (codes "lte")) _ _ (cmp (codes " <= ?")) (
                  either-IsCalm (bytes_eq op (codes "like")) _ _ (cmp (codes " LIKE ?")) (
                    either-IsCalm (bytes_eq op (codes "in")) _ _
                      (in_filter-IsCalm (quote_ident f.column) f.value)
                      (failing Clause (unsupported_operator f.op) refl))))))))

  filter_clauses-IsCalm : (fs : List Filter) → IsCalm (filter_clauses clock fs)
  unfolding filter_clauses
  filter_clauses-IsCalm [] = settled _
  filter_clauses-IsCalm (f ∷ fs) =
      >>=-IsCalm _ _ (filter_to_sql-IsCalm f)
        (λ c _. >>=-IsCalm _ _ (filter_clauses-IsCalm fs) (λ cs _. settled _))

  absolute-IsCalm :
      (val : Bytes) (bucket_seconds : ℕ) (o : Option ℤ)
      → IsCalm (absolute clock val bucket_seconds o)
  absolute-IsCalm val bucket_seconds none = record { calm = refl }
  absolute-IsCalm val bucket_seconds (some t) = settled _

  relative-IsCalm :
      (val : Bytes) (bucket_seconds : ℕ) (o : Option ℤ)
      → IsCalm (relative clock val bucket_seconds o)
  relative-IsCalm val bucket_seconds none = absolute-IsCalm val bucket_seconds _
  relative-IsCalm val bucket_seconds (some d) = settled _

  bound_clause-IsCalm :
      (text val : Bytes) (bucket_seconds : ℕ) → IsCalm (bound_clause clock text val bucket_seconds)
  unfolding resolve_time_value
  bound_clause-IsCalm text val bucket_seconds =
      >>=-IsCalm (relative clock val bucket_seconds (clock.parse_relative val))
        (λ t. ok ((text, str t ∷ []) ∷ []))
        (relative-IsCalm val bucket_seconds (clock.parse_relative val))
        (λ t _. settled ((text, str t ∷ []) ∷ []))

  until_clause-IsCalm :
      (r : TimeRange) (bucket_seconds : ℕ) → IsCalm (until_clause clock r bucket_seconds)
  unfolding until_clause
  until_clause-IsCalm r bucket_seconds =
      either-IsCalm _ _ _ (settled _) (bound_clause-IsCalm _ r.until bucket_seconds)

  time_clauses-IsCalm :
      (o : Option TimeRange) (bucket_seconds : ℕ) → IsCalm (time_clauses clock o bucket_seconds)
  unfolding time_clauses
  time_clauses-IsCalm none bucket_seconds = settled _
  time_clauses-IsCalm (some r) bucket_seconds = either-IsCalm _ _ _ (settled _) (
      >>=-IsCalm _ _ (bound_clause-IsCalm _ r.since bucket_seconds)
        (λ s _. >>=-IsCalm _ _ (until_clause-IsCalm r bucket_seconds) (λ u _. settled _)))

  build_where-IsCalm :
      (fs : List Filter) (o : Option TimeRange) (bucket_seconds : ℕ)
      → IsCalm (build_where clock fs o bucket_seconds)
  unfolding build_where
  build_where-IsCalm fs o bucket_seconds =
      >>=-IsCalm _ _ (filter_clauses-IsCalm fs)
        (λ p _. >>=-IsCalm _ _ (time_clauses-IsCalm o bucket_seconds) (λ t _. settled _))

or_panic-IsCalm :
    {A : Type 0} (o : Option A) (f : A → BuildResult)
    → ¬ (o ≡ none)
    → IsCalm (or_panic o (λ a. ok (f a)))
or_panic-IsCalm none f h = absurd (h refl)
or_panic-IsCalm (some a) f h = settled _

read_side-resolved :
    (to_lower : Bytes → Bytes) (schema : List Bytes) (perms : Option ResolvedPermissions)
    (q : StructuredQuery) (pw : List Bytes × Bool)
    → IsAuthorized to_lower schema perms q
    → resolve_projection schema perms q ≡ ok pw
    → ¬ (read_side perms ≡ none)
unfolding read_side
read_side-resolved to_lower schema none q pw a e h = absurd (cc)
read_side-resolved to_lower schema (some rp) q pw a e h = by_side rp.select refl h
  where
    by_side :
        (o : Option ResolvedSelect)
        → rp.select ≡ o
        → ¬ (with_select {A = List Clause × ℤ} o (λ s. (policy_clause_of s, s.max_rows)) ≡ none)
    by_side none k x = unresolved-resolve_projection rp k to_lower schema q pw a e
    by_side (some s) k x = absurd (cc)

-- `Build` never panics, whatever the query, the schema and the grant: where the grant's read side was
-- never resolved, an earlier check refuses the query, so the bare read of that side is not reached.
pub build-IsCalm :
    (clock : Clock) (table : Bytes) (q : StructuredQuery) (schema : List Bytes)
    (perms : Option ResolvedPermissions) (bucket_seconds : ℕ) (default_max : ℤ)
    → panics (build clock table q schema perms bucket_seconds default_max) ≡ false
unfolding build
build-IsCalm clock table q schema perms bucket_seconds default_max =
    let whole : IsCalm (build clock table q schema perms bucket_seconds default_max) =
      >>=-IsCalm _ _ (require-IsCalm (not (bind_unsafe table)) unsupported_table refl) (λ _ _.
        >>=-IsCalm _ _
          (require-IsCalm (not (q.select_all && not (is_empty q.columns))) columns_and_select_all
            refl)
          (λ _ _.
            >>=-IsCalm _ _
              (require-IsCalm (not (q.select_all && not (is_empty q.aggregations)))
                select_all_and_aggregations refl)
              (λ _ _. >>=-IsCalm _ _ (validate-IsCalm clock.to_lower schema perms q) (λ _ v.
                >>=-IsCalm _ _ (resolve_projection-IsCalm schema perms q) (λ pw e.
                  >>=-IsCalm _ _
                    (require-IsCalm (not (is_empty (select_parts pw.1 pw.0 q.aggregations)))
                      empty_projection refl)
                    (λ _ _.
                      >>=-IsCalm _ _
                        (build_where-IsCalm clock q.filters q.time_range bucket_seconds)
                        (λ own _. or_panic-IsCalm _ _ (
                          read_side-resolved clock.to_lower schema perms q pw
                            (validate_and_authorize_columns-IsAuthorized clock.to_lower schema perms
                              q v)
                            e)))))))) in
    whole.calm
