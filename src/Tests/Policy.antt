-- ===== src/Tests/Policy.antt =====
-- The policy on a concrete document.
use wave_house.Prelude.{
  ℕ, List, Option, [], ◌∷◌, none, some, true, false, ok, Bool, is_empty, ◌≡◌, refl, ◌↔◌, All, ◌⊎◌,
  arith,
}
use wave_house.Prelude.Int.{ℤ, pos}
use wave_house.Prelude.Bytes.{Bytes, codes, bytes_eq, lookup, cut_prefix}
use wave_house.Chsql.Quote.{bind_unsafe}
use wave_house.Policy.Values.{str, Fields, end, field}
use wave_house.Policy.Types.{
  Filter, SelectPermissions, InsertPermissions, RolePermissions, TablePolicy, Policy,
  ResolvedPredicate, Op, ResolvedSelect, ResolvedPermissions, has_operator,
}
use wave_house.Policy.Roles.{is_admin, resolve_role, admin_role}
use wave_house.Policy.Template.{
  parts, parts_from, template_at, trim_space, span, is_space, space_len, trim_left, trim_right,
  is_path_byte,
}
use wave_house.Policy.Columns.{is_column_allowed, restricts_columns, check_clauses}
use wave_house.Policy.Columns.Laws.{IsReadable, is_column_allowed_iff}
use wave_house.Policy.Evaluate.{select, insert, evaluate, empty_select}
use wave_house.Policy.Evaluate.Access.{IsGranted, evaluate_allowed_iff, evaluate_sides}
use wave_house.Policy.Evaluate.RowSecurity.{BindsItsParams, SelectHas, evaluate-BindsItsParams}
use wave_house.Prelude.Decimal.{value_of}
use wave_house.Policy.Numeric.{compare_canonical_decimals}
use wave_house.Policy.Numeric.Integers.{
  IsInteger, number, order_ℤ, compare_canonical_decimals-number,
}
use wave_house.Policy.RowFilter.{
  Row, Columns, text, opaque, matches, row_visible, compare_scalar, scalar_string,
}
use wave_house.Policy.RowFilter.Laws.{Matches, row_visible_iff}
use wave_house.Policy.RowFilter.Closed.{IsSpelled, matches-opaque}
use wave_house.Policy.Validate.{
  validate, validate_tables, validate_roles, validate_select_perms, validate_filters,
  validate_insert_perms, validate_checks, reject_malformed_templates, malformed_template, from_open,
  literal_text,
}
use wave_house.Policy.Validate.Laws.{validate-evaluate}

abbrev no_operators : Filter
no_operators = record { eq = none; neq = none; gt = none; lt = none; «in» = none }

abbrev own_org : Filter
own_org = record no_operators { eq = some (codes "{{ jwt.org }}") }

abbrev reads : SelectPermissions
reads = record {
  allow_columns = codes "id" ∷ codes "org" ∷ [];
  deny_columns = codes "note" ∷ [];
  filter = (codes "org", own_org) ∷ [];
  allowed_aggregations = [];
  denied_aggregations = [];
  max_rows = pos 50;
  max_execution_time = pos 0;
  max_rows_to_read = pos 0;
  max_memory_usage = pos 0;
}

abbrev writes : InsertPermissions
writes = record { allow_columns = []; deny_columns = []; check = (codes "org", own_org) ∷ [] }

abbrev viewer : RolePermissions
viewer = record { select = some reads; insert = some writes }

abbrev orders_roles : TablePolicy
orders_roles = (codes "viewer", viewer) ∷ []

abbrev shop : Policy
shop = record { default_role = []; admin_role = []; tables = (codes "orders", orders_roles) ∷ [] }

abbrev acme : Fields
acme = field (codes "org") (str (codes "acme")) end

abbrev orders : Bytes
orders = codes "orders"

abbrev viewer_role : Bytes
viewer_role = codes "viewer"

abbrev viewer_grant : ResolvedPermissions
viewer_grant = evaluate (some shop) viewer_role orders select acme

viewer-plain : is_admin (some shop) (resolve_role (some shop) viewer_role) ≡ false
unfolding is_admin resolve_role admin_role bytes_eq
viewer-plain = refl

evaluate_allowed_iff_example : (viewer_grant.allowed ≡ true) ↔ (
    (is_admin (some shop) (resolve_role (some shop) viewer_role) ≡ true)
    ⊎ IsGranted (some shop) (resolve_role (some shop) viewer_role) orders select)
evaluate_allowed_iff_example = evaluate_allowed_iff (some shop) viewer_role orders select acme

evaluate-BindsItsParams_example : SelectHas BindsItsParams viewer_grant
evaluate-BindsItsParams_example = evaluate-BindsItsParams (some shop) viewer_role orders select acme

evaluate_sides_example :
    (is_column_allowed (some viewer_grant) (codes "id") true ≡ false)
    × (check_clauses (some viewer_grant) ≡ none)
    × (is_column_allowed
          (some (evaluate (some shop) viewer_role orders insert acme))
          (codes "id")
          false
        ≡ false)
    × (restricts_columns (some (evaluate (some shop) viewer_role orders insert acme)) ≡ true)
evaluate_sides_example =
    evaluate_sides (some shop) viewer_role orders acme (codes "id") viewer-plain

is_column_allowed_iff_example :
    (is_column_allowed (some viewer_grant) (codes "note") false ≡ true) ↔ (
      (viewer_grant.allowed ≡ true)
      × ((s : ResolvedSelect) × (viewer_grant.select ≡ some s)
          × IsReadable (codes "note") s.allow_columns s.deny_columns))
is_column_allowed_iff_example = is_column_allowed_iff viewer_grant (codes "note")

abbrev first_columns : List Bytes
first_columns = codes "id" ∷ codes "note" ∷ []

shop-valid : validate (some shop) ≡ ok tt
unfolding validate validate_tables validate_roles validate_select_perms validate_filters
    validate_insert_perms validate_checks reject_malformed_templates malformed_template from_open
    literal_text parts parts_from template_at trim_space trim_left trim_right space_len span
    is_space has_operator bind_unsafe cut_prefix is_path_byte
shop-valid = refl

shop-orders : lookup orders shop.tables ≡ some orders_roles
unfolding lookup bytes_eq
shop-orders = refl

viewer-named : is_empty (resolve_role (some shop) viewer_role) ≡ false
unfolding resolve_role
viewer-named = refl

viewer-entry : lookup (resolve_role (some shop) viewer_role) orders_roles ≡ some viewer
unfolding lookup bytes_eq resolve_role
viewer-entry = refl

validate-evaluate_example :
    (viewer_grant.allowed ≡ true)
    × ((evaluate (some shop) viewer_role orders insert acme).allowed ≡ true)
validate-evaluate_example =
    validate-evaluate shop viewer_role orders orders_roles viewer acme shop-valid viewer-plain
      viewer-named shop-orders viewer-entry

-- A row filter on a text column and on one of unknown type.
abbrev valid_json : Bytes → Bool
valid_json s = true

abbrev no_float : ℕ → Bytes → Option ℤ
no_float bits s = none

abbrev event : Row
event = (codes "org", str (codes "acme")) ∷ []

abbrev org_is : ResolvedPredicate
org_is = record { column = codes "org"; op = Op.eq; values = codes "acme" ∷ [] }

abbrev org_only : ResolvedPermissions
org_only = record {
  allowed = true;
  select = some (record empty_select { row_filter = org_is ∷ [] });
  insert = none;
}

abbrev text_org : Columns
text_org = (codes "org", text) ∷ []

row_visible_iff_example :
    (row_visible valid_json no_float (some org_only) event text_org ≡ true) ↔ (
      (org_only.allowed ≡ true)
      × ((s : ResolvedSelect) × (org_only.select ≡ some s)
          × All (Matches valid_json no_float event text_org) s.row_filter))
row_visible_iff_example = row_visible_iff valid_json no_float event text_org org_only

-- A token without the claim that the filter names.
abbrev stranger : Fields
stranger = field (codes "sub") (str (codes "u")) end

org_is-opaque : matches valid_json no_float org_is event opaque ≡ true
unfolding matches lookup bytes_eq compare_scalar scalar_string
org_is-opaque = refl

matches-opaque_example : IsSpelled org_is event
matches-opaque_example = matches-opaque valid_json no_float org_is event org_is-opaque

minus_twelve-IsInteger : IsInteger true (codes "12")
unfolding value_of
minus_twelve-IsInteger = record {
  digits = ground arith;
  lead = omega arith;
  signed_zero = λ _. omega arith;
}

seven-IsInteger : IsInteger false (codes "7")
seven-IsInteger = record { digits = ground arith; lead = tt; signed_zero = λ e. absurd (cc e) }

compare_canonical_decimals-number_example :
    compare_canonical_decimals (codes "-12") (codes "7")
    ≡ order_ℤ (number true (codes "12")) (number false (codes "7"))
compare_canonical_decimals-number_example =
    compare_canonical_decimals-number true false (codes "12") (codes "7") minus_twelve-IsInteger
      seven-IsInteger
