-- ===== src/Query/Build/Resolved.antt =====
-- internal/query/builder.go: proofs about the read side of the grant in `Build`.
use wave_house.Prelude.{
  [], ◌∷◌, none, some, ok, ◌≡◌, Bool, List, false, true, All, Bool-cases, refl, inl, is_empty, inr,
}
use wave_house.Prelude.Bytes.{Bytes}
use wave_house.Policy.Types.{ResolvedPermissions}
use wave_house.Policy.Columns.{
  is_column_allowed, side_lists, is_aggregation_allowed, restricts_columns, allowed_projection,
  keep_allowed,
}
use wave_house.Query.Ast.{StructuredQuery, Aggregation}
use wave_house.Query.Authorize.{resolve_projection}
use wave_house.Query.Authorize.Laws.{IsAuthorized, IsUsable, IsUsableAggregation}

-- What a grant whose read side was never resolved answers.
module _ (rp : ResolvedPermissions) (h : rp.select ≡ none) where
  unresolved-column : (c : Bytes) → is_column_allowed (some rp) c false ≡ false
  unfolding is_column_allowed side_lists
  unresolved-column c = elim (Bool-cases rp.allowed) [ inl e ↦ rw (e, h) refl | inr e ↦ rw e refl ]

  unresolved-aggregation :
      (to_lower : Bytes → Bytes) (fn : Bytes) → is_aggregation_allowed to_lower (some rp) fn ≡ false
  unfolding is_aggregation_allowed
  unresolved-aggregation to_lower fn = elim (Bool-cases rp.allowed) [
    | inl e ↦ rw (e, h) refl
    | inr e ↦ rw e refl
  ]

  unresolved-restricts : restricts_columns (some rp) ≡ true
  unfolding restricts_columns side_lists
  unresolved-restricts = elim (Bool-cases rp.allowed) [ inl e ↦ rw (e, h) refl | inr e ↦ rw e refl ]

  unresolved-projection : (cols : List Bytes) → allowed_projection (some rp) cols ≡ []
  unfolding allowed_projection keep_allowed
  unresolved-projection [] = refl
  unresolved-projection (c ∷ cs) = rw (unresolved-column c) (unresolved-projection cs)

  no_column :
      (schema cols : List Bytes) → All (IsUsable schema (some rp)) cols → is_empty cols ≡ true
  no_column schema [] u = refl
  no_column schema (c ∷ cs) u = absurd (cc (unresolved-column c, u.0.readable))

  no_aggregation :
      (to_lower : Bytes → Bytes) (schema : List Bytes) (as' : List Aggregation)
      → All (IsUsableAggregation to_lower schema (some rp)) as'
      → is_empty as' ≡ true
  no_aggregation to_lower schema [] u = refl
  no_aggregation to_lower schema (a ∷ as') u =
      absurd (cc (unresolved-aggregation to_lower a.fn, u.0.permitted))

  pub unresolved-resolve_projection :
      (to_lower : Bytes → Bytes) (schema : List Bytes) (q : StructuredQuery)
      (pw : List Bytes × Bool)
      → IsAuthorized to_lower schema (some rp) q
      → ¬ (resolve_projection schema (some rp) q ≡ ok pw)
  unfolding resolve_projection
  unresolved-resolve_projection to_lower schema q pw a e = elim (Bool-cases q.select_all) [
    | inl s ↦ absurd (cc (rw (s, unresolved-restricts, unresolved-projection schema) at e))
    | inr s ↦ absurd (
        cc (
          rw
            (
              s,
              no_column schema q.columns a.columns,
              no_aggregation to_lower schema q.aggregations a.aggregations,
            )
            at e))
  ]
