-- ===== src/Policy/Evaluate.antt =====
-- pkg/policy/policy.go: `Evaluate`, with the read side and the write side of a grant.
pub mod Access
pub mod Clauses
pub mod RowSecurity
use wave_house.Prelude.Int.{pos}
use wave_house.Prelude.{
  ℕ, Bool, List, Option, [], false, if◌then◌else◌, true, none, some, ◌||◌, any, is_empty, not, ◌∷◌,
  ◌&&◌, ◌++◌,
}
use wave_house.Prelude.Bytes.{Bytes, lookup}
use wave_house.Chsql.Quote.{bind_unsafe}
use wave_house.Policy.Values.{Fields}
use wave_house.Policy.Template.{resolve_template, resolve_in_values, has_template}
use wave_house.Policy.Types.{
  Filter, SelectPermissions, InsertPermissions, RolePermissions, TablePolicy, Policy,
  ResolvedSelect, Required, literal, derived, member_of, ResolvedInsert, ResolvedPermissions,
  is_set, has_operator,
}
use wave_house.Policy.Predicates.{resolve_predicates, predicates_to_sql, where_clause_of}
use wave_house.Policy.Roles.{is_admin, resolve_role}

-- The operations that `Evaluate` knows; any other string is denied.
pub data Operation : Type 0 where
  select insert other : Operation

abbrev pub denied : ResolvedPermissions
denied = record { allowed = false; select = none; insert = none }

abbrev pub empty_select : ResolvedSelect
empty_select = record {
  allow_columns = [];
  deny_columns = [];
  where_clause = [];
  where_params = [];
  row_filter = [];
  allowed_aggregations = [];
  denied_aggregations = [];
  max_rows = pos 0;
  max_execution_time = pos 0;
  max_rows_to_read = pos 0;
  max_memory_usage = pos 0;
}

abbrev pub empty_insert : ResolvedInsert
empty_insert = record { allow_columns = []; deny_columns = []; check_clauses = [] }

abbrev pub unrestricted : ResolvedPermissions
unrestricted = record { allowed = true; select = some empty_select; insert = some empty_insert }

unfoldable pub resolved_select : SelectPermissions → Fields → ResolvedSelect
resolved_select perms claims =
    let preds = resolve_predicates claims perms.filter in
    let (clauses, params) = predicates_to_sql preds in
    record {
      allow_columns = perms.allow_columns;
      deny_columns = perms.deny_columns;
      where_clause = where_clause_of clauses;
      where_params = params;
      row_filter = preds;
      allowed_aggregations = perms.allowed_aggregations;
      denied_aggregations = perms.denied_aggregations;
      max_rows = perms.max_rows;
      max_execution_time = perms.max_execution_time;
      max_rows_to_read = perms.max_rows_to_read;
      max_memory_usage = perms.max_memory_usage;
    }

-- The defence in depth of the read path: an entry that cannot be emitted, or that restricts nothing.
unfoldable pub bad_filter : Bytes × Filter → Bool
bad_filter (col, f) = bind_unsafe col || not (has_operator f)

unfoldable pub evaluate_select : Option SelectPermissions → Fields → ResolvedPermissions
evaluate_select none claims = denied
evaluate_select (some perms) claims =
    if any bad_filter perms.filter
    then denied
    else record { allowed = true; select = some (resolved_select perms claims); insert = none }

-- The same of the write path, which honours `_eq` or `_in` alone.
unfoldable pub bad_check : Bytes × Filter → Bool
bad_check (col, f) =
    bind_unsafe col
    || (not (has_operator f)
        || (is_set f.neq || (is_set f.gt || (is_set f.lt || (is_set f.eq && is_set f.«in»)))))

abbrev pub required_eq : Bytes → Fields → Required
required_eq tmpl claims =
    let (v, _) = resolve_template tmpl claims in if has_template tmpl then derived v else literal v

abbrev pub required_in : Bytes → Fields → Option Bytes → List (Bytes × Required)
required_in col claims none = []
required_in col claims (some tmpl) = (col, member_of (resolve_in_values tmpl claims)) ∷ []

abbrev pub required_of : Bytes → Fields → Filter → List (Bytes × Required)
required_of col claims f = elim f.eq [
  | some tmpl ↦ (col, required_eq tmpl claims) ∷ []
  | none ↦ required_in col claims f.«in»
]

unfoldable pub check_clauses_of : Fields → List (Bytes × Filter) → List (Bytes × Required)
check_clauses_of claims [] = []
check_clauses_of claims ((col, f) ∷ fs) = required_of col claims f ++ check_clauses_of claims fs

unfoldable pub evaluate_insert : Option InsertPermissions → Fields → ResolvedPermissions
evaluate_insert none claims = denied
evaluate_insert (some perms) claims = if any bad_check perms.check then denied else record {
  allowed = true;
  select = none;
  insert = some (record {
    allow_columns = perms.allow_columns;
    deny_columns = perms.deny_columns;
    check_clauses = check_clauses_of claims perms.check;
  });
}

abbrev pub evaluate_operation : RolePermissions → Operation → Fields → ResolvedPermissions
evaluate_operation perms select claims = evaluate_select perms.select claims
evaluate_operation perms insert claims = evaluate_insert perms.insert claims
evaluate_operation perms other claims = denied

abbrev pub evaluate_entry : Option RolePermissions → Operation → Fields → ResolvedPermissions
evaluate_entry none operation claims = denied
evaluate_entry (some perms) operation claims = evaluate_operation perms operation claims

-- An empty role matches no entry.
abbrev pub evaluate_table : Option TablePolicy → Bytes → Operation → Fields → ResolvedPermissions
evaluate_table none role operation claims = denied
evaluate_table (some tp) role operation claims =
    if is_empty role then denied else evaluate_entry (lookup role tp) operation claims

abbrev pub evaluate_role : Option Policy → Bytes → Bytes → Operation → Fields → ResolvedPermissions
evaluate_role none role table operation claims = denied
evaluate_role (some p) role table operation claims =
    evaluate_table (lookup table p.tables) role operation claims

unfoldable pub evaluate : Option Policy → Bytes → Bytes → Operation → Fields → ResolvedPermissions
evaluate p role table operation claims =
    if is_admin p (resolve_role p role)
    then unrestricted
    else evaluate_role p (resolve_role p role) table operation claims
