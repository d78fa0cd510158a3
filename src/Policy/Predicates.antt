-- ===== src/Policy/Predicates.antt =====
-- pkg/policy/policy.go: row filters resolved to predicates (`resolvePredicates`), and the predicates
-- rendered to SQL (`predicatesToSQL`).
pub mod Placeholders
use wave_house.Prelude.{List, Option, [], ◌++◌, ◌∷◌, some, none}
use wave_house.Prelude.Bytes.{Bytes, codes, join_texts}
use wave_house.Chsql.Quote.{quote_ident}
use wave_house.Policy.Values.{Fields}
use wave_house.Policy.Template.{resolve_template, resolve_in_values, bound_value}
use wave_house.Policy.Types.{Filter, Op, ResolvedPredicate}

-- `scalar`: a constant that does not resolve leaves the predicate without a value.
unfoldable pub scalar_predicate : Fields → Bytes → Op → Bytes → ResolvedPredicate
scalar_predicate claims col op tmpl = record {
  column = col;
  op = op;
  values = bound_value (resolve_template tmpl claims);
}

abbrev pub scalar_of : Fields → Bytes → Op → Option Bytes → List ResolvedPredicate
scalar_of claims col op none = []
scalar_of claims col op (some tmpl) = scalar_predicate claims col op tmpl ∷ []

abbrev pub set_of : Fields → Bytes → Option Bytes → List ResolvedPredicate
set_of claims col none = []
set_of claims col (some tmpl) =
    record { column = col; op = Op.one_of; values = resolve_in_values tmpl claims } ∷ []

-- One round of the loop over the columns.
unfoldable pub column_predicates : Fields → Bytes → Filter → List ResolvedPredicate
column_predicates claims col f =
    scalar_of claims col Op.eq f.eq
    ++ (scalar_of claims col Op.neq f.neq
        ++ (scalar_of claims col Op.gt f.gt
            ++ (scalar_of claims col Op.lt f.lt ++ set_of claims col f.«in»)))

unfoldable pub resolve_predicates : Fields → List (Bytes × Filter) → List ResolvedPredicate
resolve_predicates claims [] = []
resolve_predicates claims ((col, f) ∷ fs) =
    column_predicates claims col f ++ resolve_predicates claims fs

abbrev pub op_text : Op → Bytes
op_text Op.eq = codes "="
op_text Op.neq = codes "!="
op_text Op.gt = codes ">"
op_text Op.lt = codes "<"
op_text Op.one_of = codes "in"

-- `?,?,…`: strings.Repeat without its last comma.
abbrev pub more_placeholders : List Bytes → Bytes
more_placeholders [] = []
more_placeholders (v ∷ vs) = codes ",?" ++ more_placeholders vs

abbrev pub false_clause : Bytes
false_clause = codes "1 = 0"

abbrev pub in_clause : Bytes → List Bytes → Bytes × List Bytes
in_clause qcol [] = (false_clause, [])
in_clause qcol (v ∷ vs) =
    (qcol ++ (codes " IN (" ++ (codes "?" ++ (more_placeholders vs ++ codes ")"))), v ∷ vs)

abbrev pub scalar_clause : Bytes → Op → List Bytes → Bytes × List Bytes
scalar_clause qcol op [] = (false_clause, [])
scalar_clause qcol op (v ∷ vs) = (qcol ++ (codes " " ++ (op_text op ++ codes " ?")), v ∷ [])

-- The `switch` on the operator.
abbrev pub clause_by_op : Bytes → Op → List Bytes → Bytes × List Bytes
clause_by_op qcol Op.one_of vs = in_clause qcol vs
clause_by_op qcol op vs = scalar_clause qcol op vs

-- One clause and the parameters that it binds.
unfoldable pub predicate_clause : ResolvedPredicate → Bytes × List Bytes
predicate_clause p = clause_by_op (quote_ident p.column) p.op p.values

unfoldable pub predicates_to_sql : List ResolvedPredicate → List Bytes × List Bytes
predicates_to_sql [] = ([], [])
predicates_to_sql (p ∷ ps) =
    let (clause, bound) = predicate_clause p in
    let (clauses, params) = predicates_to_sql ps in (clause ∷ clauses, bound ++ params)

unfoldable pub where_clause_of : List Bytes → Bytes
where_clause_of clauses = join_texts (codes " AND ") clauses
