-- ===== src/Query/Build/Placeholders.antt =====
-- internal/query/builder.go: proofs about the placeholders of each clause that `Build` renders.
use mathlib.Core.Path.{subst}
use wave_house.Prelude.Bytes.{decimal, decimal_digits, Bytes, count, count-append, bytes_eq, codes}
use wave_house.Prelude.{
  ℕ, List, Option, ◌≡◌, All, false, length, ok, some, suc, ◌+◌, >>=-ok, Bool-cases, [], is_empty,
  map, ◌++◌, ◌∷◌, arith, inl, ltb, refl, inr, ◌/◌, ◌%◌, zero, Bool, ok-injective, Result, ◌||◌,
  All-append, if◌then◌else◌, none, true,
}
use wave_house.Chsql.Quote.{question, quote_ident, quote_ident-count, bind_unsafe}
use wave_house.Policy.Values.{Json, null, bool, number, obj, nil, str, arr, cons, items}
use wave_house.Query.Ast.{Filter, TimeRange, QueryError}
use wave_house.Query.Where.{
  Clock, Clause, comparison, in_filter, more_placeholders, filter_to_sql, bound_clause,
  until_clause, time_clauses, filter_clauses, build_where, resolve_time_value, coerce_filter_value,
}

-- A clause has a placeholder for each of its parameters, and no other.
abbrev pub IsBalanced : Clause → Type 0
IsBalanced (text, params) = count question text ≡ length params

decimal_digits-count :
    (fuel n : ℕ) (acc : Bytes)
    → count question acc ≡ 0
    → count question (decimal_digits fuel n acc) ≡ 0
unfolding decimal_digits count
decimal_digits-count zero n acc h = h
decimal_digits-count (suc fuel) n acc h = elim (Bool-cases (ltb n 10)) [
  | inl e ↦ rw e (ground arith)
  | inr e ↦ rw e (decimal_digits-count fuel (n / 10) ((b'0' + n % 10) ∷ acc) (ground arith))
]

pub decimal-count : (n : ℕ) → count question (decimal n) ≡ 0
unfolding decimal
decimal-count n = decimal_digits-count (n + 1) n [] (unfold count in refl)

more_placeholders-count : (vs : List Json) → count question (more_placeholders vs) ≡ length vs
unfolding count
more_placeholders-count [] = refl
more_placeholders-count (v ∷ vs) = omega (arith, more_placeholders-count vs)

in_filter-IsBalanced :
    (col : Bytes) (v : Json) (c : Clause)
    → count question col ≡ 0
    → in_filter col v ≡ ok c
    → IsBalanced c
unfolding count
in_filter-IsBalanced col (arr (cons v vs)) c h e = subst IsBalanced (ok-injective _ _ _ refl e) (
    rw (count-append question col, h)
      (omega (
        arith,
        count-append question (more_placeholders (items vs)) (codes ")"),
        more_placeholders-count (items vs),
      )))
in_filter-IsBalanced col (arr nil) c h e = absurd (cc)
in_filter-IsBalanced col null c h e = absurd (cc)
in_filter-IsBalanced col (bool b) c h e = absurd (cc)
in_filter-IsBalanced col (number n) c h e = absurd (cc)
in_filter-IsBalanced col (str s) c h e = absurd (cc)
in_filter-IsBalanced col (obj fs) c h e = absurd (cc)

comparison-IsBalanced :
    (col op : Bytes) (v : Json) (c : Clause)
    → count question col ≡ 0
    → count question op ≡ 1
    → comparison col op v ≡ ok c
    → IsBalanced c
comparison-IsBalanced col op v c h k e =
    subst IsBalanced (ok-injective _ _ _ refl e) (omega (arith, count-append question col op))

either_branch :
    (b : Bool) (x y : Result QueryError Clause) (c : Clause)
    → (x ≡ ok c → IsBalanced c)
    → (y ≡ ok c → IsBalanced c)
    → (if b then x else y) ≡ ok c
    → IsBalanced c
either_branch true x y c f g e = f e
either_branch false x y c f g e = g e

module _ (clock : Clock) where
  filter_to_sql-IsBalanced :
      (f : Filter) (c : Clause)
      → bind_unsafe f.column ≡ false
      → filter_to_sql clock f ≡ ok c
      → IsBalanced c
  unfolding filter_to_sql
  filter_to_sql-IsBalanced f c safe h =
      let q = quote_ident-count f.column safe in
      let v = coerce_filter_value clock f.value in
      let cmp = λ (op : Bytes) (k : count question op ≡ 1).
        comparison-IsBalanced (quote_ident f.column) op v c q k in
      either_branch (bytes_eq (clock.to_lower f.op) (codes "eq")) _ _ c
        (cmp (codes " = ?") (unfold count in refl))
        (λ e_eq.
          either_branch (bytes_eq (clock.to_lower f.op) (codes "neq")) _ _ c
            (cmp (codes " != ?") (unfold count in refl))
            (λ e_neq.
              either_branch (bytes_eq (clock.to_lower f.op) (codes "gt")) _ _ c
                (cmp (codes " > ?") (unfold count in refl))
                (λ e_gt.
                  either_branch (bytes_eq (clock.to_lower f.op) (codes "gte")) _ _ c
                    (cmp (codes " >= ?") (unfold count in refl))
                    (λ e_gte.
                      either_branch (bytes_eq (clock.to_lower f.op) (codes "lt")) _ _ c
                        (cmp (codes " < ?") (unfold count in refl))
                        (λ e_lt.
                          either_branch (bytes_eq (clock.to_lower f.op) (codes "lte")) _ _ c
                            (cmp (codes " <= ?") (unfold count in refl))
                            (λ e_lte.
                              either_branch (bytes_eq (clock.to_lower f.op) (codes "like")) _ _ c
                                (cmp (codes " LIKE ?") (unfold count in refl))
                                (λ e_like.
                                  either_branch (bytes_eq (clock.to_lower f.op) (codes "in")) _ _ c
                                    (in_filter-IsBalanced (quote_ident f.column) f.value c q)
                                    (λ e. absurd (cc)) e_like)
                                e_lte)
                            e_lt)
                        e_gte)
                    e_gt)
                e_neq)
            e_eq)
        h

  bound_clause-IsBalanced :
      (text val : Bytes) (bucket_seconds : ℕ) (cs : List Clause)
      → count question text ≡ 1
      → bound_clause clock text val bucket_seconds ≡ ok cs
      → All IsBalanced cs
  bound_clause-IsBalanced text val bucket_seconds cs h e =
      let (t, _, e₁) = >>=-ok (resolve_time_value clock val bucket_seconds) _ e in
      subst (All IsBalanced) (ok-injective _ _ _ refl e₁) (h, tt)

  quoted-count :
      (col op : Bytes)
      → bind_unsafe col ≡ false
      → count question op ≡ 1
      → count question (quote_ident col ++ op) ≡ 1
  quoted-count col op h k =
      omega (arith, count-append question (quote_ident col) op, quote_ident-count col h)

  until_clause-IsBalanced :
      (r : TimeRange) (bucket_seconds : ℕ) (cs : List Clause)
      → bind_unsafe r.column ≡ false
      → until_clause clock r bucket_seconds ≡ ok cs
      → All IsBalanced cs
  unfolding until_clause
  until_clause-IsBalanced r bucket_seconds cs safe e = elim (Bool-cases (is_empty r.until)) [
    | inl u ↦ subst (All IsBalanced) (ok-injective _ _ _ refl (rw u at e)) tt
    | inr u ↦
        bound_clause-IsBalanced _ r.until bucket_seconds cs
          (quoted-count r.column (codes " <= ?") safe (unfold count in refl)) (rw u at e)
  ]

  time_clauses-IsBalanced :
      (o : Option TimeRange) (bucket_seconds : ℕ) (cs : List Clause)
      → ((r : TimeRange) → o ≡ some r → is_empty r.column ≡ false → bind_unsafe r.column ≡ false)
      → time_clauses clock o bucket_seconds ≡ ok cs
      → All IsBalanced cs
  unfolding time_clauses
  time_clauses-IsBalanced none bucket_seconds cs safe e =
      subst (All IsBalanced) (ok-injective _ _ _ refl e) tt
  time_clauses-IsBalanced (some r) bucket_seconds cs safe e =
      elim (Bool-cases (is_empty r.column || is_empty r.since)) [
        | inl u ↦ subst (All IsBalanced) (ok-injective _ _ _ refl (rw u at e)) tt
        | inr u ↦
            let named : bind_unsafe r.column ≡ false = safe r refl (ground arith) in
            let (since, e₁, e₂) =
              >>=-ok
                (bound_clause clock (quote_ident r.column ++ codes " >= ?") r.since bucket_seconds)
                _ (rw u at e) in
            let (until, e₃, e₄) = >>=-ok (until_clause clock r bucket_seconds) _ e₂ in
            subst (All IsBalanced) (ok-injective _ _ _ refl e₄) (
              All-append IsBalanced since until
                (bound_clause-IsBalanced _ r.since bucket_seconds since
                  (quoted-count r.column (codes " >= ?") named (unfold count in refl)) e₁)
                (until_clause-IsBalanced r bucket_seconds until named e₃))
      ]

  filter_clauses-IsBalanced :
      (fs : List Filter) (cs : List Clause)
      → All (λ c. bind_unsafe c ≡ false) (map (λ f. f.column) fs)
      → filter_clauses clock fs ≡ ok cs
      → All IsBalanced cs
  unfolding filter_clauses
  filter_clauses-IsBalanced [] cs h e = subst (All IsBalanced) (ok-injective _ _ _ refl e) tt
  filter_clauses-IsBalanced (f ∷ fs) cs h e =
      let (c, e₁, e₂) = >>=-ok (filter_to_sql clock f) _ e in
      let (rest, e₃, e₄) = >>=-ok (filter_clauses clock fs) _ e₂ in
      subst (All IsBalanced) (ok-injective _ _ _ refl e₄)
        (filter_to_sql-IsBalanced f c h.0 e₁, filter_clauses-IsBalanced fs rest h.1 e₃)

  pub build_where-IsBalanced :
      (fs : List Filter) (o : Option TimeRange) (bucket_seconds : ℕ) (cs : List Clause)
      → All (λ c. bind_unsafe c ≡ false) (map (λ f. f.column) fs)
      → ((r : TimeRange) → o ≡ some r → is_empty r.column ≡ false → bind_unsafe r.column ≡ false)
      → build_where clock fs o bucket_seconds ≡ ok cs
      → All IsBalanced cs
  unfolding build_where
  build_where-IsBalanced fs o bucket_seconds cs h safe e =
      let (parts, e₁, e₂) = >>=-ok (filter_clauses clock fs) _ e in
      let (times, e₃, e₄) = >>=-ok (time_clauses clock o bucket_seconds) _ e₂ in
      subst (All IsBalanced) (ok-injective _ _ _ refl e₄) (
        All-append IsBalanced parts times (filter_clauses-IsBalanced fs parts h e₁)
          (time_clauses-IsBalanced o bucket_seconds times safe e₃))
