-- ===== src/Query/Build/Safety.antt =====
-- internal/query/builder.go: proofs about a query that `Build` accepts.
use mathlib.Core.Path.{subst}
use wave_house.Policy.Columns.{
  is_column_allowed, allowed_projection, restricts_columns, keep_allowed,
}
use wave_house.Policy.Columns.Projection.{restricts_columns_iff}
use wave_house.Query.Authorize.{projection_all}
use wave_house.Prelude.{
  ok-injective, ℕ, List, Option, Bool, ◌≡◌, ok, >>=-ok, false, some, not, ◌&&◌, is_empty, Result,
  none, refl, All, true, Bool-cases, [], ◌∷◌, inl, inr, All-map, sym,
}
use wave_house.Prelude.Bytes.{Bytes}
use wave_house.Prelude.Int.{ℤ}
use wave_house.Policy.Types.{ResolvedPermissions}
use wave_house.Query.Ast.{
  StructuredQuery, QueryError, unsupported_table, columns_and_select_all,
  select_all_and_aggregations, empty_projection,
}
use wave_house.Query.Authorize.{require, validate_and_authorize_columns, resolve_projection}
use wave_house.Query.Authorize.Laws.{IsUsable}
use wave_house.Query.Authorize.Laws.{
  IsAuthorized, validate_and_authorize_columns-IsAuthorized, require_of_not,
}
use wave_house.Query.Where.{Clock, Clause, build_where}
use wave_house.Query.Build.{
  BuildResult, select_parts, or_panic, read_side, render, build, bind_unsafe,
}

-- What every stage of a successful build answered.
-- What every stage of a successful build answered.
module _ (clock : Clock) (table : Bytes) (q : StructuredQuery) (schema : List Bytes)
    (perms : Option ResolvedPermissions) (bucket_seconds : ℕ) (default_max : ℤ) where
  pub record IsBuilt (r : BuildResult) : Type 0 where
    pub projection : List Bytes
    pub wildcard : Bool
    pub own : List Clause
    pub side : List Clause × ℤ
    pub table_safe : bind_unsafe table ≡ false
    pub authorized : IsAuthorized clock.to_lower schema perms q
    pub projected : resolve_projection schema perms q ≡ ok (projection, wildcard)
    pub filtered : build_where clock q.filters q.time_range bucket_seconds ≡ ok own
    pub read : read_side perms ≡ some side
    pub rendered :
        render clock table q default_max (select_parts wildcard projection q.aggregations) side own
        ≡ r

  or_panic-ok :
      {A : Type 0} (s : Option A) (f : A → Result QueryError BuildResult) {r : BuildResult}
      → or_panic s f ≡ ok r
      → (a : A) × (s ≡ some a) × (f a ≡ ok r)
  or_panic-ok none f h = absurd (cc)
  or_panic-ok (some a) f h = (a, refl, h)

  pub build-IsBuilt :
      {r : BuildResult}
      → build clock table q schema perms bucket_seconds default_max ≡ ok r
      → IsBuilt r
  unfolding build
  build-IsBuilt {r} h =
      let (_, t, h₁) = >>=-ok (require (not (bind_unsafe table)) unsupported_table) _ h in
      let (_, _, h₂) =
        >>=-ok (require (not (q.select_all && not (is_empty q.columns))) columns_and_select_all) _
          h₁ in
      let (_, _, h₃) =
        >>=-ok
          (require (not (q.select_all && not (is_empty q.aggregations)))
            select_all_and_aggregations)
          _ h₂ in
      let (_, v, h₄) = >>=-ok (validate_and_authorize_columns clock.to_lower schema perms q) _ h₃ in
      let (pw, p, h₅) = >>=-ok (resolve_projection schema perms q) _ h₄ in
      let (_, _, h₆) =
        >>=-ok (require (not (is_empty (select_parts pw.1 pw.0 q.aggregations))) empty_projection) _
          h₅ in
      let (own, w, h₇) = >>=-ok (build_where clock q.filters q.time_range bucket_seconds) _ h₆ in
      let (side, rd, h₈) = or_panic-ok (read_side perms) _ h₇ in
      record {
        projection = pw.0;
        wildcard = pw.1;
        own = own;
        side = side;
        table_safe = require_of_not _ _ t;
        authorized = validate_and_authorize_columns-IsAuthorized clock.to_lower schema perms q v;
        projected = p;
        filtered = w;
        read = rd;
        rendered = ok-injective _ _ _ refl h₈;
      }

-- What is projected: names that the role reads, or `*` for a role that reads every column.
pub record IsReadableProjection (perms : Option ResolvedPermissions) (pw : List Bytes × Bool)
    : Type 0 where
  pub named : All (λ c. is_column_allowed perms c false ≡ true) pw.0
  pub whole : pw.1 ≡ true → (c : Bytes) → is_column_allowed perms c false ≡ true

keep_allowed-All :
    (rp : ResolvedPermissions) (cols : List Bytes)
    → All (λ c. is_column_allowed (some rp) c false ≡ true) (allowed_projection (some rp) cols)
unfolding allowed_projection keep_allowed
keep_allowed-All rp [] = tt
keep_allowed-All rp (c ∷ cs) = elim (Bool-cases (is_column_allowed (some rp) c false)) [
  | inl e ↦ rw e (e, keep_allowed-All rp cs)
  | inr e ↦ rw e (keep_allowed-All rp cs)
]

named_only :
    (perms : Option ResolvedPermissions) (cols : List Bytes)
    → All (λ c. is_column_allowed perms c false ≡ true) cols
    → IsReadableProjection perms (cols, false)
named_only perms cols h = record { named = h; whole = λ e. absurd (cc) }

all_readable :
    (perms : Option ResolvedPermissions)
    → ((c : Bytes) → is_column_allowed perms c false ≡ true)
    → IsReadableProjection perms ([], true)
all_readable perms h = record { named = tt; whole = λ _. h }

projected-IsReadable :
    (rp : ResolvedPermissions) (b : Bool) (cols : List Bytes) (pw : List Bytes × Bool)
    → restricts_columns (some rp) ≡ b
    → All (λ c. is_column_allowed (some rp) c false ≡ true) cols
    → projection_all b cols ≡ ok pw
    → IsReadableProjection (some rp) pw
projected-IsReadable rp false cols pw e a h =
    subst (IsReadableProjection (some rp)) (ok-injective _ _ _ refl h)
      (all_readable (some rp) ((restricts_columns_iff rp).0 e))
projected-IsReadable rp true [] pw e a h = absurd (cc)
projected-IsReadable rp true (c ∷ cs) pw e a h =
    subst (IsReadableProjection (some rp)) (ok-injective _ _ _ refl h)
      (named_only (some rp) (c ∷ cs) a)

projection_all-IsReadable :
    (perms : Option ResolvedPermissions) (cols : List Bytes) (pw : List Bytes × Bool)
    → projection_all (restricts_columns perms) (allowed_projection perms cols) ≡ ok pw
    → IsReadableProjection perms pw
unfolding restricts_columns is_column_allowed
projection_all-IsReadable none cols pw h =
    subst (IsReadableProjection none) (ok-injective _ _ _ refl h) (all_readable none (λ c. refl))
projection_all-IsReadable (some rp) cols pw h =
    projected-IsReadable rp _ _ pw refl (keep_allowed-All rp cols) h

resolve_projection-IsReadable :
    (schema : List Bytes) (perms : Option ResolvedPermissions) (q : StructuredQuery)
    (pw : List Bytes × Bool)
    → All (λ c. is_column_allowed perms c false ≡ true) q.columns
    → resolve_projection schema perms q ≡ ok pw
    → IsReadableProjection perms pw
unfolding resolve_projection
resolve_projection-IsReadable schema perms q pw a h = elim (Bool-cases q.select_all) [
  | inl e ↦ projection_all-IsReadable perms schema pw (rw e at h)
  | inr e ↦ elim (Bool-cases (is_empty q.columns)) [
    | inr e₁ ↦
        subst (IsReadableProjection perms) (ok-injective _ _ _ refl (rw (e, e₁) at h))
          (named_only perms q.columns a)
    | inl e₁ ↦ elim (Bool-cases (is_empty q.aggregations)) [
      | inr e₂ ↦
          subst (IsReadableProjection perms) (ok-injective _ _ _ refl (rw (e, e₁, e₂) at h))
            (named_only perms [] tt)
      | inl e₂ ↦ absurd (cc (rw (e, e₁, e₂) at h))
    ]
  ]
]

-- What a query that `Build` accepts may touch: a bind-safe table, columns of the schema that the role
-- reads, aggregations that it may run, and a projection of columns that it reads, which is what
-- the SQL selects.
pub record IsScoped (clock : Clock) (table : Bytes) (q : StructuredQuery) (schema : List Bytes)
    (perms : Option ResolvedPermissions) (default_max : ℤ) (r : BuildResult) : Type 0 where
  pub projection : List Bytes × Bool
  pub own : List Clause
  pub side : List Clause × ℤ
  pub table_safe : bind_unsafe table ≡ false
  pub authorized : IsAuthorized clock.to_lower schema perms q
  pub readable : IsReadableProjection perms projection
  pub granted : read_side perms ≡ some side
  pub rendered :
      r
      ≡ render clock table q default_max
          (select_parts projection.1 projection.0 q.aggregations)
          side
          own

-- Every query that `Build` accepts is scoped to the role: its table is bind-safe, all the columns
-- that its clauses name pass the schema and the policy (an ORDER BY name outside the schema counts
-- as an alias, and is bind-safe), its aggregations are ones that the role may run, and its SQL is
-- rendered from a projection of readable columns only, or from `*` for a role that reads every
-- column. A grant that was never resolved for reading is not accepted.
pub build-IsScoped :
    (clock : Clock) (table : Bytes) (q : StructuredQuery) (schema : List Bytes)
    (perms : Option ResolvedPermissions) (bucket_seconds : ℕ) (default_max : ℤ) (r : BuildResult)
    → build clock table q schema perms bucket_seconds default_max ≡ ok r
    → IsScoped clock table q schema perms default_max r
build-IsScoped clock table q schema perms bucket_seconds default_max r h =
    let b = build-IsBuilt clock table q schema perms bucket_seconds default_max h in
    record {
      projection = (b.projection, b.wildcard);
      own = b.own;
      side = b.side;
      table_safe = b.table_safe;
      authorized = b.authorized;
      readable =
          resolve_projection-IsReadable schema perms q _
            (All-map (IsUsable schema perms) _ (λ c u. u.readable) q.columns b.authorized.columns)
            b.projected;
      granted = b.read;
      rendered = sym b.rendered;
    }
