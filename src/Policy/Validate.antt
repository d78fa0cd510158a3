-- ===== src/Policy/Validate.antt =====
-- pkg/policy/policy.go: `Validate`, which every adoption of a policy runs. An error keeps what it is
-- about, not its words. The role's text is trimmed as strings.TrimSpace does.
pub mod Laws
use mathlib.Core.Option
use wave_house.Prelude.{
  ℕ, Bool, List, Option, Result, ok, err, ◌>>◌, [], none, some, true, ◌∷◌, false, is_empty, not,
  ◌||◌, ◌&&◌,
}
use wave_house.Prelude.Bytes.{Bytes, cut_prefix, codes}
use wave_house.Prelude.Int.{ℤ, pos, ltb_ℤ}
use wave_house.Chsql.Quote.{bind_unsafe}
use wave_house.Policy.Template.{Part, text, claim, parts, open_braces, close_braces, trim_space}
use wave_house.Policy.Types.{
  Filter, SelectPermissions, InsertPermissions, RolePermissions, TablePolicy, Policy, is_set,
  has_operator,
}

pub data PolicyError : Type 0 where
  nil_policy : PolicyError
  empty_role : Bytes → PolicyError
  negative_cap : (table role cap : Bytes) → PolicyError
  unsafe_column : (table role column : Bytes) → PolicyError
  no_operator : (table role column : Bytes) → PolicyError
  unsupported_operator : (table role column : Bytes) → PolicyError
  ambiguous_check : (table role column : Bytes) → PolicyError
  malformed : (table role column fragment : Bytes) → PolicyError

abbrev pub Validated : Type 0
Validated = Result PolicyError (Unit {0})

abbrev pub reject : Bool → PolicyError → Validated
reject true e = err e
reject false e = ok tt

-- ReplaceAllString with the empty text.
unfoldable pub literal_text : List Part → Bytes
literal_text [] = []
literal_text (text c ∷ ps) = c ∷ literal_text ps
literal_text (claim path ∷ ps) = literal_text ps

-- The text from the first `{{` on.
unfoldable pub from_open : Bytes → Option Bytes
from_open [] = none
from_open (c ∷ s) =
    let rest = from_open s in
    elim (cut_prefix open_braces (c ∷ s)) [ none ↦ rest | some t ↦ some (c ∷ s) ]

-- The text up to the first `}}` and with it, or all of it.
unfoldable pub through_close : Bytes → Bytes
through_close [] = []
through_close (c ∷ s) =
    let rest = through_close s in
    elim (cut_prefix close_braces (c ∷ s)) [ none ↦ c ∷ rest | some t ↦ close_braces ]

unfoldable pub malformed_template : Bytes → Option Bytes
malformed_template v = Option.map through_close (from_open (literal_text (parts v)))

abbrev pub value_malformed : Option Bytes → Option Bytes
value_malformed none = none
value_malformed (some v) = malformed_template v

abbrev pub reject_fragment : (table role col : Bytes) → Option Bytes → Validated
reject_fragment table role col none = ok tt
reject_fragment table role col (some frag) = err (malformed table role col frag)

unfoldable pub reject_malformed_templates : (table role col : Bytes) → Filter → Validated
reject_malformed_templates table role col f = do
  reject_fragment table role col (value_malformed f.eq)
  reject_fragment table role col (value_malformed f.neq)
  reject_fragment table role col (value_malformed f.gt)
  reject_fragment table role col (value_malformed f.lt)
  reject_fragment table role col (value_malformed f.«in»)

abbrev pub is_negative : ℤ → Bool
is_negative z = ltb_ℤ z (pos 0)

unfoldable pub validate_filters : (table role : Bytes) → List (Bytes × Filter) → Validated
validate_filters table role [] = ok tt
validate_filters table role ((col, f) ∷ fs) = do
  reject (bind_unsafe col) (unsafe_column table role col)
  reject (not (has_operator f)) (no_operator table role col)
  reject_malformed_templates table role col f
  validate_filters table role fs

unfoldable pub validate_select_perms : (table role : Bytes) → Option SelectPermissions → Validated
validate_select_perms table role none = ok tt
validate_select_perms table role (some perms) = do
  reject (is_negative perms.max_rows) (negative_cap table role (codes "max_rows"))
  reject (is_negative perms.max_execution_time)
      (negative_cap table role (codes "max_execution_time"))
  reject (is_negative perms.max_rows_to_read) (negative_cap table role (codes "max_rows_to_read"))
  reject (is_negative perms.max_memory_usage) (negative_cap table role (codes "max_memory_usage"))
  validate_filters table role perms.filter

unfoldable pub validate_checks : (table role : Bytes) → List (Bytes × Filter) → Validated
validate_checks table role [] = ok tt
validate_checks table role ((col, f) ∷ fs) = do
  reject (bind_unsafe col) (unsafe_column table role col)
  reject (not (has_operator f)) (no_operator table role col)
  reject (is_set f.neq || (is_set f.gt || is_set f.lt)) (unsupported_operator table role col)
  reject (is_set f.eq && is_set f.«in») (ambiguous_check table role col)
  reject_malformed_templates table role col f
  validate_checks table role fs

unfoldable pub validate_insert_perms : (table role : Bytes) → Option InsertPermissions → Validated
validate_insert_perms table role none = ok tt
validate_insert_perms table role (some perms) = validate_checks table role perms.check

unfoldable pub validate_roles : Bytes → TablePolicy → Validated
validate_roles table [] = ok tt
validate_roles table ((role, perms) ∷ tp) = do
  reject (is_empty (trim_space role)) (empty_role table)
  validate_select_perms table role perms.select
  validate_insert_perms table role perms.insert
  validate_roles table tp

unfoldable pub validate_tables : List (Bytes × TablePolicy) → Validated
validate_tables [] = ok tt
validate_tables ((table, tp) ∷ ts) = do validate_roles table tp; validate_tables ts

unfoldable pub validate : Option Policy → Validated
validate none = err nil_policy
validate (some p) = validate_tables p.tables
