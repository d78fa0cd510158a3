-- ===== src/Query/Build/Rows.antt =====
-- internal/query/builder.go: proofs about the row filter and the row cap in the SQL of `Build`.
use mathlib.Core.Path.{subst}
use mathlib.Core.Option.{some-injective}
use wave_house.Prelude.Bytes.{decimal, Bytes}
use wave_house.Query.Ast.{StructuredQuery}
use wave_house.Query.Where.{Clock, build_where}
use wave_house.Query.Build.Safety.{build-IsBuilt}
use wave_house.Chsql.Quote.{quote_ident}
use wave_house.Policy.Types.{ResolvedPermissions}
use wave_house.Policy.Values.{str}
use wave_house.Prelude.{
  ℕ, List, arith, ◌≡◌, ◌≤◌, Option, is_empty, some, suc, Bool-cases, false, zero, leb, ltb, ◌++◌,
  inl, map, append_assoc, inr, none, refl, ok, ap,
}
use wave_house.Prelude.Int.{ℤ, pos, negsuc}
use wave_house.Prelude.Bytes.{Bytes, codes, join_texts, joined_rest}
use wave_house.Chsql.Quote.{quote_ident}
use wave_house.Policy.Values.{str}
use wave_house.Policy.Types.{ResolvedSelect, ResolvedPermissions}
use wave_house.Query.Ast.{StructuredQuery}
use wave_house.Query.Where.{Clock, Clause, build_where}
use wave_house.Query.Build.{
  select_parts, group_text, order_text, BuildResult, build, read_side, render, params_of, comma,
  requested, capped, positive, or_default, limit_of, default_max_rows, BuildResult, build,
  where_text, policy_clause_of, read_side, render, params_of, comma,
}
use wave_house.Query.Build.Safety.{build-IsBuilt}

-- What the LIMIT keeps to: it is positive, within the configured default (or the constant, where that
-- is not positive), within the role's cap, and no more than a positive request.
pub record IsBounded (limit default_max role_max : ℤ) (n : ℕ) : Type 0 where
  pub some_row : 1 ≤ n
  pub by_default : n ≤ or_default (positive default_max) default_max_rows
  pub by_role : (m : ℕ) → positive role_max ≡ some m → n ≤ m
  pub by_request : (m : ℕ) → positive limit ≡ some m → n ≤ m

positive-pos : (z : ℤ) (m : ℕ) → positive z ≡ some m → 1 ≤ m
positive-pos (pos zero) m h = absurd (cc)
positive-pos (pos (suc n)) m h = subst (λ k. 1 ≤ k) (some-injective _ _ h) (omega arith)
positive-pos (negsuc n) m h = absurd (cc)

or_default-pos : (z : ℤ) (d : ℕ) → 1 ≤ d → 1 ≤ or_default (positive z) d
or_default-pos (pos zero) d h = h
or_default-pos (pos (suc n)) d h = omega arith
or_default-pos (negsuc n) d h = h

-- The caller's positive LIMIT is honoured up to the cap of the configuration and the role.
module _ (cap : ℕ) (live : 1 ≤ cap) where
  pub record IsWithin (o : Option ℕ) (n : ℕ) : Type 0 where
    pub live_n : 1 ≤ n
    pub within : n ≤ cap
    pub kept : (m : ℕ) → o ≡ some m → n ≤ m

  capped-IsWithin : (o : Option ℕ) → ((m : ℕ) → o ≡ some m → 1 ≤ m) → IsWithin o (capped o cap)
  capped-IsWithin none h = record { live_n = live; within = omega arith; kept = λ m e. absurd (cc) }
  capped-IsWithin (some k) h = elim (Bool-cases (ltb k cap)) [
    | inl e ↦ rw e record {
      live_n = h k refl;
      within = ground arith;
      kept = λ m s. omega (arith, some-injective _ _ s);
    }
    | inr e ↦ rw e record {
      live_n = live;
      within = omega arith;
      kept = λ m s. ground (arith, some-injective _ _ s);
    }
  ]

  requested-IsWithin :
      (o : Option ℕ) → ((m : ℕ) → o ≡ some m → 1 ≤ m) → IsWithin o (requested o cap)
  requested-IsWithin none h = record {
    live_n = live;
    within = omega arith;
    kept = λ m e. absurd (cc);
  }
  requested-IsWithin (some k) h = elim (Bool-cases (leb k cap)) [
    | inl e ↦ rw e record {
      live_n = h k refl;
      within = ground arith;
      kept = λ m s. omega (arith, some-injective _ _ s);
    }
    | inr e ↦ rw e record {
      live_n = live;
      within = omega arith;
      kept = λ m s. ground (arith, some-injective _ _ s);
    }
  ]

-- The LIMIT is always positive, never exceeds the configured default (10000 where that is not
-- positive) nor a positive cap of the role, and never exceeds a positive request.
pub limit_of-IsBounded :
    (limit default_max role_max : ℤ)
    → IsBounded limit default_max role_max (limit_of limit default_max role_max)
unfolding limit_of
limit_of-IsBounded limit default_max role_max =
    let d = or_default (positive default_max) default_max_rows in
    let c =
      capped-IsWithin d (or_default-pos default_max default_max_rows (omega arith))
        (positive role_max) (positive-pos role_max) in
    let r =
      requested-IsWithin (capped (positive role_max) d) c.live_n (positive limit)
        (positive-pos limit) in
    record {
      some_row = r.live_n;
      by_default = omega (arith, r.within, c.within);
      by_role = λ m e. omega (arith, r.within, c.kept m e);
      by_request = r.kept;
    }

-- The text of the clauses after the first.
policy_where-eq :
    (s : ResolvedSelect) (own : List Clause) (rest : Bytes)
    → is_empty s.where_clause ≡ false
    → where_text (policy_clause_of s ++ own) ++ rest
      ≡ codes " WHERE ("
        ++ (s.where_clause
            ++ (codes ")" ++ (joined_rest (codes " AND ") (map (λ c. c.0) own) ++ rest)))
unfolding where_text join_texts
policy_where-eq s own rest e = rw e (simp append_assoc)

-- What the SQL of a restricted role reads: the row filter stands first in WHERE, in parentheses, and
-- its values stand first among the parameters.
pub record IsFiltered (clock : Clock) (table : Bytes) (q : StructuredQuery) (s : ResolvedSelect)
    (bucket_seconds : ℕ) (r : BuildResult) : Type 0 where
  pub own : List Clause
  pub parts : List Bytes
  pub rest : Bytes
  pub asked : build_where clock q.filters q.time_range bucket_seconds ≡ ok own
  pub text :
      r.sql
      ≡ codes "SELECT "
        ++ (join_texts comma parts
            ++ (codes " FROM "
                ++ (quote_ident table
                    ++ (codes " WHERE ("
                        ++ (s.where_clause
                            ++ (codes ")"
                                ++ (joined_rest (codes " AND ") (map (λ c. c.0) own) ++ rest)))))))
  pub bound : r.params ≡ map str s.where_params ++ params_of own

params_of-policy :
    (s : ResolvedSelect) (own : List Clause)
    → is_empty s.where_clause ≡ false
    → params_of (policy_clause_of s ++ own) ≡ map str s.where_params ++ params_of own
params_of-policy s own e = rw e refl

render-IsFiltered :
    (clock : Clock) (table : Bytes) (q : StructuredQuery) (default_max : ℤ) (parts : List Bytes)
    (s : ResolvedSelect) (own : List Clause) (bucket_seconds : ℕ)
    → is_empty s.where_clause ≡ false
    → build_where clock q.filters q.time_range bucket_seconds ≡ ok own
    → IsFiltered clock table q s bucket_seconds
        (render clock table q default_max parts (policy_clause_of s, s.max_rows) own)
unfolding render
render-IsFiltered clock table q default_max parts s own bucket_seconds e w =
    let rest =
      group_text q.group_by
      ++ (order_text clock q.order_by
          ++ (codes " LIMIT " ++ decimal (limit_of q.limit default_max s.max_rows))) in
    record {
      own = own;
      parts = parts;
      rest = rest;
      asked = w;
      text =
          ap
            (λ t.
              codes "SELECT "
              ++ (join_texts comma parts ++ (codes " FROM " ++ (quote_ident table ++ t))))
            (policy_where-eq s own rest e);
      bound = params_of-policy s own e;
    }

read_side-eq :
    (rp : ResolvedPermissions) (s : ResolvedSelect) (side : List Clause × ℤ)
    → rp.select ≡ some s
    → read_side (some rp) ≡ some side
    → (policy_clause_of s, s.max_rows) ≡ side
unfolding read_side
read_side-eq rp s side e h = some-injective _ _ (rw e at h)

-- A query that `Build` accepts for a grant with a row filter carries the filter: it is the first
-- conjunct of the WHERE clause, in parentheses, every clause of the caller is joined to it by AND,
-- and its values are the first parameters, in order, before the caller's.
pub build-IsFiltered :
    (clock : Clock) (table : Bytes) (q : StructuredQuery) (schema : List Bytes)
    (rp : ResolvedPermissions) (s : ResolvedSelect) (bucket_seconds : ℕ) (default_max : ℤ)
    (r : BuildResult)
    → rp.select ≡ some s
    → is_empty s.where_clause ≡ false
    → build clock table q schema (some rp) bucket_seconds default_max ≡ ok r
    → IsFiltered clock table q s bucket_seconds r
build-IsFiltered clock table q schema rp s bucket_seconds default_max r e f h =
    let b = build-IsBuilt clock table q schema (some rp) bucket_seconds default_max h in
    let parts = select_parts b.wildcard b.projection q.aggregations in
    subst (IsFiltered clock table q s bucket_seconds) b.rendered (
      subst
        (λ side.
          IsFiltered clock table q s bucket_seconds
            (render clock table q default_max parts side b.own))
        (read_side-eq rp s b.side e b.read)
        (render-IsFiltered clock table q default_max _ s b.own bucket_seconds f b.filtered))
