-- ===== src/Policy/Predicates/Placeholders.antt =====
-- pkg/policy/policy.go: proofs about the SQL of a row filter, its clauses and placeholders.
use wave_house.Prelude.{
  List, ◌≡◌, length, ◌∷◌, [], arith, refl, All, false, ◌++◌, ◌+◌, Option, length-append, ◌∙◌,
  All-append, if◌then◌else◌, true, ◌≤◌, none,
}
use wave_house.Prelude.Bytes.{Bytes, count, count-append, codes, count_all, join_texts-count}
use wave_house.Chsql.Quote.{question, quote_ident, quote_ident-count, bind_unsafe}
use wave_house.Policy.Values.{Fields}
use wave_house.Policy.Types.{Filter, Op, ResolvedPredicate, has_operator}
use wave_house.Policy.Types.{is_set}
use wave_house.Policy.Predicates.{
  scalar_of, set_of, clause_by_op, scalar_predicate, column_predicates, resolve_predicates,
  more_placeholders, in_clause, scalar_clause, predicate_clause, predicates_to_sql, where_clause_of,
  op_text, List, ◌∷◌, codes, Option, some,
}

more_placeholders-count : (vs : List Bytes) → count question (more_placeholders vs) ≡ length vs
unfolding count
more_placeholders-count [] = refl
more_placeholders-count (v ∷ vs) = omega (arith, more_placeholders-count vs)

-- A clause of a bind-safe column has a placeholder for each of its parameters, and no other.
abbrev pub IsBalanced : Bytes × List Bytes → Type 0
IsBalanced (clause, params) = count question clause ≡ length params

in_clause-IsBalanced :
    (qcol : Bytes) (vs : List Bytes) → count question qcol ≡ 0 → IsBalanced (in_clause qcol vs)
unfolding count
in_clause-IsBalanced qcol [] h = refl
in_clause-IsBalanced qcol (v ∷ vs) h =
    rw (count-append question qcol, h)
      (omega (
        arith,
        count-append question (more_placeholders vs) (codes ")"),
        more_placeholders-count vs,
      ))

op_text-count : (op : Op) (s : Bytes) → count question (op_text op ++ s) ≡ count question s
unfolding count
op_text-count Op.eq s = omega arith
op_text-count Op.neq s = omega arith
op_text-count Op.gt s = omega arith
op_text-count Op.lt s = omega arith
op_text-count Op.one_of s = omega arith

scalar_clause-IsBalanced :
    (qcol : Bytes) (op : Op) (vs : List Bytes)
    → count question qcol ≡ 0
    → IsBalanced (scalar_clause qcol op vs)
unfolding count
scalar_clause-IsBalanced qcol op [] h = refl
scalar_clause-IsBalanced qcol op (v ∷ vs) h =
    rw (count-append question qcol, h) (omega (arith, op_text-count op (codes " ?")))

abbrev pub HasSafeColumn : ResolvedPredicate → Type 0
HasSafeColumn p = bind_unsafe p.column ≡ false

clause_by_op-IsBalanced :
    (qcol : Bytes) (op : Op) (vs : List Bytes)
    → count question qcol ≡ 0
    → IsBalanced (clause_by_op qcol op vs)
clause_by_op-IsBalanced qcol Op.one_of vs h = in_clause-IsBalanced qcol vs h
clause_by_op-IsBalanced qcol Op.eq vs h = scalar_clause-IsBalanced qcol Op.eq vs h
clause_by_op-IsBalanced qcol Op.neq vs h = scalar_clause-IsBalanced qcol Op.neq vs h
clause_by_op-IsBalanced qcol Op.gt vs h = scalar_clause-IsBalanced qcol Op.gt vs h
clause_by_op-IsBalanced qcol Op.lt vs h = scalar_clause-IsBalanced qcol Op.lt vs h

predicate_clause-IsBalanced :
    (p : ResolvedPredicate) → HasSafeColumn p → IsBalanced (predicate_clause p)
unfolding predicate_clause
predicate_clause-IsBalanced p h =
    clause_by_op-IsBalanced (quote_ident p.column) p.op p.values (quote_ident-count p.column h)

where_clause_of-count :
    (ss : List Bytes) → count question (where_clause_of ss) ≡ count_all question ss
unfolding where_clause_of
where_clause_of-count ss = join_texts-count question (codes " AND ") ss (unfold count in refl)

predicates_to_sql-count :
    (ps : List ResolvedPredicate)
    → All HasSafeColumn ps
    → count_all question (predicates_to_sql ps).0 ≡ length (predicates_to_sql ps).1
unfolding predicates_to_sql count_all
predicates_to_sql-count [] h = refl
predicates_to_sql-count (p ∷ ps) (hp, hs) = omega (
  arith,
  predicate_clause-IsBalanced p hp,
  predicates_to_sql-count ps hs,
  length-append (predicate_clause p).1 (predicates_to_sql ps).1,
)

-- Joined to one WHERE clause, the predicates of bind-safe columns have as many placeholders as
-- parameters.
pub where_clause-IsBalanced :
    (ps : List ResolvedPredicate)
    → All HasSafeColumn ps
    → IsBalanced (where_clause_of (predicates_to_sql ps).0, (predicates_to_sql ps).1)
where_clause-IsBalanced ps h =
    where_clause_of-count (predicates_to_sql ps).0 ∙ predicates_to_sql-count ps h

-- Every predicate of an entry stands on the entry's column, and an entry with an operator has one.
module _ (claims : Fields) (col : Bytes) where
  scalar_of-HasSafeColumn :
      (op : Op) (o : Option Bytes)
      → bind_unsafe col ≡ false
      → All HasSafeColumn (scalar_of claims col op o)
  unfolding scalar_predicate
  scalar_of-HasSafeColumn op none h = tt
  scalar_of-HasSafeColumn op (some tmpl) h = (h, tt)

  set_of-HasSafeColumn :
      (o : Option Bytes) → bind_unsafe col ≡ false → All HasSafeColumn (set_of claims col o)
  set_of-HasSafeColumn none h = tt
  set_of-HasSafeColumn (some tmpl) h = (h, tt)

  column_predicates-HasSafeColumn :
      (f : Filter) → bind_unsafe col ≡ false → All HasSafeColumn (column_predicates claims col f)
  unfolding column_predicates
  column_predicates-HasSafeColumn f h =
      let each = λ (op : Op) (o : Option Bytes). scalar_of-HasSafeColumn op o h in
      All-append HasSafeColumn (scalar_of claims col Op.eq f.eq) _ (each Op.eq f.eq) (
        All-append HasSafeColumn (scalar_of claims col Op.neq f.neq) _ (each Op.neq f.neq) (
          All-append HasSafeColumn (scalar_of claims col Op.gt f.gt) _ (each Op.gt f.gt) (
            All-append HasSafeColumn (scalar_of claims col Op.lt f.lt) _ (each Op.lt f.lt)
              (set_of-HasSafeColumn f.«in» h))))

  scalar_of-length :
      (op : Op) (o : Option Bytes)
      → length (scalar_of claims col op o) ≡ (if is_set o then 1 else 0)
  scalar_of-length op none = refl
  scalar_of-length op (some tmpl) = refl

  set_of-length : (o : Option Bytes) → length (set_of claims col o) ≡ (if is_set o then 1 else 0)
  set_of-length none = refl
  set_of-length (some tmpl) = refl

  column_predicates-length :
      (f : Filter)
      → length (column_predicates claims col f)
        ≡ (if is_set f.eq then 1 else 0)
          + ((if is_set f.neq then 1 else 0)
              + ((if is_set f.gt then 1 else 0)
                  + ((if is_set f.lt then 1 else 0) + (if is_set f.«in» then 1 else 0))))
  unfolding column_predicates
  column_predicates-length f = simp (length-append, scalar_of-length, set_of-length)

  column_predicates-pos :
      (f : Filter) → has_operator f ≡ true → 1 ≤ length (column_predicates claims col f)
  unfolding has_operator
  column_predicates-pos f h = ground (arith, column_predicates-length f)

abbrev pub IsSafeEntry : Bytes × Filter → Type 0
IsSafeEntry (col, f) = (bind_unsafe col ≡ false) × (has_operator f ≡ true)

module _ (claims : Fields) where
  pub resolve_predicates-HasSafeColumn :
      (fs : List (Bytes × Filter))
      → All IsSafeEntry fs
      → All HasSafeColumn (resolve_predicates claims fs)
  unfolding resolve_predicates
  resolve_predicates-HasSafeColumn [] h = tt
  resolve_predicates-HasSafeColumn ((col, f) ∷ fs) ((safe, _), hs) =
      All-append HasSafeColumn (column_predicates claims col f) (resolve_predicates claims fs)
        (column_predicates-HasSafeColumn claims col f safe) (resolve_predicates-HasSafeColumn fs hs)

  -- No entry of a filter is lost: each leaves at least one predicate.
  pub length-resolve_predicates :
      (fs : List (Bytes × Filter))
      → All IsSafeEntry fs
      → length fs ≤ length (resolve_predicates claims fs)
  unfolding resolve_predicates
  length-resolve_predicates [] h = omega arith
  length-resolve_predicates ((col, f) ∷ fs) ((_, set), hs) = omega (
    arith,
    column_predicates-pos claims col f set,
    length-resolve_predicates fs hs,
    length-append (column_predicates claims col f) (resolve_predicates claims fs),
  )
