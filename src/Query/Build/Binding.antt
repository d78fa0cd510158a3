-- ===== src/Query/Build/Binding.antt =====
-- internal/query/builder.go: proofs about the positional binding of a built query.
use wave_house.Prelude.Bytes.{Bytes, count}
use mathlib.Core.Path.{subst}
use mathlib.Core.Option.{some-injective}
use wave_house.Prelude.{
  ℕ, Bool, List, Option, All, some, ◌∷◌, ◌≡◌, All-map, Bool-cases, none, ok, true, false, inl,
  ok-injective, refl, [], inr, length, All-append, is_empty, map,
}
use wave_house.Prelude.Int.{ℤ}
use wave_house.Chsql.Quote.{question, bind_unsafe}
use wave_house.Policy.Types.{ResolvedSelect, ResolvedPermissions}
use wave_house.Policy.Columns.{keep_allowed, allowed_projection, is_column_allowed}
use wave_house.Policy.Evaluate.RowSecurity.{BindsItsParams}
use wave_house.Query.Ast.{StructuredQuery}
use wave_house.Query.Authorize.{resolve_projection, projection_all}
use wave_house.Query.Authorize.Laws.{IsUsable, IsOrderable}
use wave_house.Query.Where.{Clock, Clause}
use wave_house.Query.Build.{BuildResult, read_side, with_select, build, policy_clause_of}
use wave_house.Query.Build.Safety.{build-IsBuilt}
use wave_house.Query.Build.Placeholders.{IsBalanced, build_where-IsBalanced}
use wave_house.Query.Build.Texts.{AllSafe, policy_clause_of-IsBalanced}
use wave_house.Query.Build.Balance.{KeepsPlaceholders, render-count, select_parts-count}

keep_allowed-AllSafe :
    (rp : ResolvedPermissions) (cols : List Bytes) → AllSafe cols → AllSafe (keep_allowed rp cols)
unfolding keep_allowed
keep_allowed-AllSafe rp [] h = tt
keep_allowed-AllSafe rp (c ∷ cs) h = elim (Bool-cases (is_column_allowed (some rp) c false)) [
  | inl e ↦ rw e (h.0, keep_allowed-AllSafe rp cs h.1)
  | inr e ↦ rw e (keep_allowed-AllSafe rp cs h.1)
]

allowed_projection-AllSafe :
    (perms : Option ResolvedPermissions) (cols : List Bytes)
    → AllSafe cols
    → AllSafe (allowed_projection perms cols)
unfolding allowed_projection
allowed_projection-AllSafe none cols h = h
allowed_projection-AllSafe (some rp) cols h = keep_allowed-AllSafe rp cols h

projection_all-AllSafe :
    (b : Bool) (cols : List Bytes) (pw : List Bytes × Bool)
    → AllSafe cols
    → projection_all b cols ≡ ok pw
    → AllSafe pw.0
projection_all-AllSafe false cols pw h e = subst (λ x. AllSafe x.0) (ok-injective _ _ _ refl e) tt
projection_all-AllSafe true [] pw h e = absurd (cc)
projection_all-AllSafe true (c ∷ cs) pw h e = subst (λ x. AllSafe x.0) (ok-injective _ _ _ refl e) h

resolve_projection-AllSafe :
    (schema : List Bytes) (perms : Option ResolvedPermissions) (q : StructuredQuery)
    (pw : List Bytes × Bool)
    → (q.select_all ≡ true → AllSafe schema)
    → AllSafe q.columns
    → resolve_projection schema perms q ≡ ok pw
    → AllSafe pw.0
unfolding resolve_projection
resolve_projection-AllSafe schema perms q pw whole a h = elim (Bool-cases q.select_all) [
  | inl e ↦
      projection_all-AllSafe _ _ pw (allowed_projection-AllSafe perms schema (whole e)) (rw e at h)
  | inr e ↦ elim (Bool-cases (is_empty q.columns)) [
    | inr e₁ ↦ subst (λ x. AllSafe x.0) (ok-injective _ _ _ refl (rw (e, e₁) at h)) a
    | inl e₁ ↦ elim (Bool-cases (is_empty q.aggregations)) [
      | inr e₂ ↦ subst (λ x. AllSafe x.0) (ok-injective _ _ _ refl (rw (e, e₁, e₂) at h)) tt
      | inl e₂ ↦ absurd (cc (rw (e, e₁, e₂) at h))
    ]
  ]
]

-- The row filter of a grant that was resolved for reading binds its parameters.
abbrev pub GrantBinds : Option ResolvedPermissions → Type 0
GrantBinds perms =
    (rp : ResolvedPermissions) (s : ResolvedSelect)
    → perms ≡ some rp
    → rp.select ≡ some s
    → BindsItsParams s

with_select-IsBalanced :
    (o : Option ResolvedSelect) (side : List Clause × ℤ)
    → ((s : ResolvedSelect) → o ≡ some s → BindsItsParams s)
    → with_select o (λ s. (policy_clause_of s, s.max_rows)) ≡ some side
    → All IsBalanced side.0
with_select-IsBalanced none side h e = absurd (cc)
with_select-IsBalanced (some s) side h e =
    subst (λ x. All IsBalanced x.0) (some-injective _ _ e)
      (policy_clause_of-IsBalanced s (h s refl))

read_side-IsBalanced :
    (perms : Option ResolvedPermissions) (side : List Clause × ℤ)
    → GrantBinds perms
    → read_side perms ≡ some side
    → All IsBalanced side.0
unfolding read_side
read_side-IsBalanced none side h e = subst (λ x. All IsBalanced x.0) (some-injective _ _ e) tt
read_side-IsBalanced (some rp) side h e = with_select-IsBalanced rp.select side (λ s. h rp s refl) e

usable-AllSafe :
    (schema : List Bytes) (perms : Option ResolvedPermissions) (cols : List Bytes)
    → All (IsUsable schema perms) cols
    → AllSafe cols
usable-AllSafe schema perms cols h = All-map (IsUsable schema perms) _ (λ c u. u.bind_safe) cols h

-- The SQL of a query that `Build` accepts has one placeholder for each of its parameters. It is
-- asked that strings.ToLower keeps the number of `?`s of ASCII text, that the grant's row filter
-- binds its own parameters, and, for a query of all columns, that no column of the schema holds a
-- `?`.
pub build-BindsItsParams :
    (clock : Clock) (table : Bytes) (q : StructuredQuery) (schema : List Bytes)
    (perms : Option ResolvedPermissions) (bucket_seconds : ℕ) (default_max : ℤ) (r : BuildResult)
    → KeepsPlaceholders clock.to_lower
    → GrantBinds perms
    → (q.select_all ≡ true → AllSafe schema)
    → build clock table q schema perms bucket_seconds default_max ≡ ok r
    → count question r.sql ≡ length r.params
build-BindsItsParams clock table q schema perms bucket_seconds default_max r ascii grant whole h =
    let b = build-IsBuilt clock table q schema perms bucket_seconds default_max h in
    let a = b.authorized in
    let safe = usable-AllSafe schema perms in
    subst (λ x. count question x.sql ≡ length x.params) b.rendered
      (render-count clock ascii table q default_max _ b.side.0 b.own b.side.1 b.table_safe
        (select_parts-count clock ascii schema perms b.wildcard b.projection q.aggregations
          (resolve_projection-AllSafe schema perms q _ whole (safe q.columns a.columns) b.projected)
          a.aggregations)
        (All-append IsBalanced b.side.0 b.own (read_side-IsBalanced perms b.side grant b.read) (
          build_where-IsBalanced clock q.filters q.time_range bucket_seconds b.own
            (safe (map (λ f. f.column) q.filters) a.filters)
            (λ t e n. (a.time_range t e n).bind_safe) b.filtered))
        (safe q.group_by a.group_by)
        (All-map (IsOrderable schema perms) (λ o. bind_unsafe o.column ≡ false) (λ o u. u.0)
          q.order_by a.order_by))
