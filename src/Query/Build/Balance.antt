-- ===== src/Query/Build/Balance.antt =====
-- internal/query/builder.go: proofs about the placeholders and parameters of the rendered SQL.
use wave_house.Prelude.Int.{ℤ}
use wave_house.Prelude.Bytes.{
  decimal, count, count_all, Bytes, bytes_eq, join_texts-count, codes, count-append,
  count_all-append, join_texts,
}
use wave_house.Prelude.{
  List, All, length, Bool-cases, map, ◌≡◌, false, is_empty, true, ◌∷◌, arith, inl, [], inr, refl,
  all, ltb, Option, Bool, if◌then◌else◌, sym, ◌++◌, ◌∙◌,
}
use wave_house.Chsql.Quote.{question, quote_ident, quote_ident-count, bind_unsafe}
use wave_house.Policy.Types.{ResolvedPermissions}
use wave_house.Query.Where.{Clause}
use wave_house.Query.Authorize.{is_valid_agg_fn, aggregation_names}
use wave_house.Query.Authorize.Laws.{IsUsableAggregation}
use wave_house.Query.Build.{
  where_text, group_text, comma, Clock, OrderClause, aggregation_expr, order_part, order_text,
  Aggregation, render, select_parts, star, StructuredQuery, limit_of,
}
use wave_house.Query.Build.Placeholders.{IsBalanced, decimal-count}
use wave_house.Query.Build.Texts.{
  AllSafe, quoted-count_all, group_text-count, where_text-count, contains-count, names-count,
  argument-count, alias-count, star_part-count,
}

-- What strings.ToLower does to a text of ASCII bytes: it maps letters to letters.
abbrev pub KeepsPlaceholders : (Bytes → Bytes) → Type 0
KeepsPlaceholders f =
    (s : Bytes) → all (λ c. ltb c 128) s ≡ true → count question (f s) ≡ count question s

module _ (clock : Clock) (ascii : KeepsPlaceholders clock.to_lower) where
  fn-count : (fn : Bytes) → is_valid_agg_fn clock.to_lower fn ≡ true → count question fn ≡ 0
  unfolding is_valid_agg_fn
  fn-count fn h = elim (Bool-cases (all (λ c. ltb c 128) fn)) [
    | inl e ↦
        sym (ascii fn e)
        ∙ contains-count (clock.to_lower fn) aggregation_names names-count (rw e at h)
    | inr e ↦ absurd (cc (rw e at h))
  ]

  aggregation_expr-count :
      (schema : List Bytes) (perms : Option ResolvedPermissions) (a : Aggregation)
      → IsUsableAggregation clock.to_lower schema perms a
      → count question (aggregation_expr a) ≡ 0
  unfolding aggregation_expr count
  aggregation_expr-count schema perms a u =
      let arg = if bytes_eq a.column star then a.column else quote_ident a.column in
      let name = if is_empty a.alias then [] else codes " AS " ++ quote_ident a.alias in
      omega (
        arith,
        count-append question a.fn (codes "(" ++ (arg ++ (codes ")" ++ name))),
        count-append question arg (codes ")" ++ name),
        fn-count a.fn u.valid,
        argument-count a.column (λ e. (u.argument e).bind_safe),
        alias-count a.alias u.alias_safe,
      )

  aggregations-count :
      (schema : List Bytes) (perms : Option ResolvedPermissions) (as' : List Aggregation)
      → All (IsUsableAggregation clock.to_lower schema perms) as'
      → count_all question (map aggregation_expr as') ≡ 0
  unfolding count_all
  aggregations-count schema perms [] h = refl
  aggregations-count schema perms (a ∷ as') h =
      omega
        (arith, aggregation_expr-count schema perms a h.0, aggregations-count schema perms as' h.1)

  pub select_parts-count :
      (schema : List Bytes) (perms : Option ResolvedPermissions) (wildcard : Bool)
      (cols : List Bytes) (as' : List Aggregation)
      → AllSafe cols
      → All (IsUsableAggregation clock.to_lower schema perms) as'
      → count_all question (select_parts wildcard cols as') ≡ 0
  unfolding select_parts
  select_parts-count schema perms wildcard cols as' h u = omega (
    arith,
    count_all-append question (if wildcard then star ∷ [] else [])
        (map quote_ident cols ++ map aggregation_expr as'),
    count_all-append question (map quote_ident cols) (map aggregation_expr as'),
    star_part-count wildcard,
    quoted-count_all cols h,
    aggregations-count schema perms as' u,
  )

  order_part-count :
      (o : OrderClause) → bind_unsafe o.column ≡ false → count question (order_part clock o) ≡ 0
  unfolding order_part
  order_part-count o h = elim (Bool-cases (bytes_eq (clock.to_lower o.dir) (codes "desc"))) [
    | inl e ↦
        rw (e, count-append question (quote_ident o.column), quote_ident-count o.column h)
          (unfold count in refl)
    | inr e ↦
        rw (e, count-append question (quote_ident o.column), quote_ident-count o.column h)
          (unfold count in refl)
  ]

  order_parts-count :
      (os : List OrderClause)
      → All (λ o. bind_unsafe o.column ≡ false) os
      → count_all question (map (order_part clock) os) ≡ 0
  unfolding count_all
  order_parts-count [] h = refl
  order_parts-count (o ∷ os) h = omega (arith, order_part-count o h.0, order_parts-count os h.1)

  order_text-count :
      (os : List OrderClause)
      → All (λ o. bind_unsafe o.column ≡ false) os
      → count question (order_text clock os) ≡ 0
  unfolding order_text count
  order_text-count [] h = refl
  order_text-count (o ∷ os) h = omega (
    arith,
    join_texts-count question comma (map (order_part clock) (o ∷ os)) refl,
    order_parts-count (o ∷ os) h,
  )

  pub render-count :
      (table : Bytes) (q : StructuredQuery) (default_max : ℤ) (parts : List Bytes)
      (policy own : List Clause) (role_max : ℤ)
      → bind_unsafe table ≡ false
      → count_all question parts ≡ 0
      → All IsBalanced (policy ++ own)
      → AllSafe q.group_by
      → All (λ o. bind_unsafe o.column ≡ false) q.order_by
      → count question (render clock table q default_max parts (policy, role_max) own).sql
        ≡ length (render clock table q default_max parts (policy, role_max) own).params
  unfolding render count
  render-count table q default_max parts policy own role_max safe hp hc hg ho =
      let last = codes " LIMIT " ++ decimal (limit_of q.limit default_max role_max) in
      let ordered = order_text clock q.order_by ++ last in
      let grouped = group_text q.group_by ++ ordered in
      let filtered = where_text (policy ++ own) ++ grouped in
      omega (
        arith,
        count-append question (join_texts comma parts)
            (codes " FROM " ++ (quote_ident table ++ filtered)),
        join_texts-count question comma parts refl,
        count-append question (quote_ident table) filtered,
        quote_ident-count table safe,
        count-append question (where_text (policy ++ own)) grouped,
        where_text-count (policy ++ own) hc,
        count-append question (group_text q.group_by) ordered,
        group_text-count q.group_by hg,
        count-append question (order_text clock q.order_by) last,
        order_text-count q.order_by ho,
        decimal-count (limit_of q.limit default_max role_max),
        hp,
      )
