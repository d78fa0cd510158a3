-- ===== src/Policy/Types.antt =====
-- The policy document and the resolved grant: the structs of pkg/policy/policy.go.
-- A pointer is an Option, a map an association list in its order of iteration.
use wave_house.Prelude.{Bool, List, Option, false, ◌||◌, some, true, none}
use wave_house.Prelude.Bytes.{Bytes}
use wave_house.Prelude.Int.{ℤ}

pub record Filter : Type 0 where
  pub eq : Option Bytes
  pub neq : Option Bytes
  pub gt : Option Bytes
  pub lt : Option Bytes
  pub «in» : Option Bytes

pub record SelectPermissions : Type 0 where
  pub allow_columns : List Bytes
  pub deny_columns : List Bytes
  pub filter : List (Bytes × Filter)
  pub allowed_aggregations : List Bytes
  pub denied_aggregations : List Bytes
  pub max_rows : ℤ
  pub max_execution_time : ℤ
  pub max_rows_to_read : ℤ
  pub max_memory_usage : ℤ

pub record InsertPermissions : Type 0 where
  pub allow_columns : List Bytes
  pub deny_columns : List Bytes
  pub check : List (Bytes × Filter)

pub record RolePermissions : Type 0 where
  pub select : Option SelectPermissions
  pub insert : Option InsertPermissions

abbrev pub TablePolicy : Type 0
TablePolicy = List (Bytes × RolePermissions)

pub record Policy : Type 0 where
  pub default_role : Bytes
  pub admin_role : Bytes
  pub tables : List (Bytes × TablePolicy)

-- The `Op` of a resolved predicate.
pub data Op : Type 0 where
  eq neq gt lt one_of : Op

pub record ResolvedPredicate : Type 0 where
  pub column : Bytes
  pub op : Op
  pub values : List Bytes

pub record ResolvedSelect : Type 0 where
  pub allow_columns : List Bytes
  pub deny_columns : List Bytes
  pub where_clause : Bytes
  pub where_params : List Bytes
  pub row_filter : List ResolvedPredicate
  pub allowed_aggregations : List Bytes
  pub denied_aggregations : List Bytes
  pub max_rows : ℤ
  pub max_execution_time : ℤ
  pub max_rows_to_read : ℤ
  pub max_memory_usage : ℤ

-- A required value of an insert check: LiteralValue, a claim-derived string, or a set.
pub data Required : Type 0 where
  literal : Bytes → Required
  derived : Bytes → Required
  member_of : List Bytes → Required

pub record ResolvedInsert : Type 0 where
  pub allow_columns : List Bytes
  pub deny_columns : List Bytes
  pub check_clauses : List (Bytes × Required)

pub record ResolvedPermissions : Type 0 where
  pub allowed : Bool
  pub select : Option ResolvedSelect
  pub insert : Option ResolvedInsert

abbrev pub is_set {ℓ} : {A : Type ℓ} → Option A → Bool
is_set none = false
is_set (some a) = true

unfoldable pub has_operator : Filter → Bool
has_operator f = is_set f.eq || (is_set f.neq || (is_set f.gt || (is_set f.lt || is_set f.«in»)))
