-- ===== src/Policy/Validate/Laws.antt =====
-- pkg/policy/policy.go: proofs about a validated policy under `Evaluate`.
use mathlib.Core.Option.{some-injective}
use mathlib.Core.Path.{subst}
use wave_house.Prelude.{
  List, Option, ◌>>◌, ok, Bool, some, ◌≡◌, any, err, false, none, ◌∷◌, Bool-cases, [], arith,
  is_empty, refl, inl, true, inr, not, ◌||◌, ◌&&◌,
}
use wave_house.Prelude.Bytes.{Bytes, lookup, bytes_eq, codes}
use wave_house.Chsql.Quote.{bind_unsafe}
use wave_house.Policy.Values.{Fields}
use wave_house.Policy.Types.{
  Filter, SelectPermissions, InsertPermissions, RolePermissions, TablePolicy, Policy, is_set,
  has_operator,
}
use wave_house.Policy.Roles.{is_admin, resolve_role}
use wave_house.Policy.Evaluate.{
  select, insert, bad_filter, bad_check, evaluate_select, evaluate_insert, evaluate,
}
use wave_house.Policy.Template.{trim_space}
use wave_house.Policy.Validate.{
  is_negative, negative_cap, unsafe_column, no_operator, unsupported_operator, ambiguous_check,
  empty_role, PolicyError, Validated, reject, reject_malformed_templates, validate_filters,
  validate_select_perms, validate_checks, validate_insert_perms, validate_roles, validate_tables,
  validate,
}

>>-ok : (a b : Validated) → (a >> b) ≡ ok tt → (a ≡ ok tt) × (b ≡ ok tt)
>>-ok (ok tt) b h = (refl, h)
>>-ok (err e) b h = absurd (cc)

-- What a test that rejected nothing answered, and what came after it.
reject_then :
    (b : Bool) (e : PolicyError) (k : Validated)
    → (reject b e >> k) ≡ ok tt
    → (b ≡ false) × (k ≡ ok tt)
reject_then false e k h = (refl, h)
reject_then true e k h = absurd (cc)

module _ (table role : Bytes) where
  validate_filters-ok :
      (fs : List (Bytes × Filter))
      → validate_filters table role fs ≡ ok tt
      → any bad_filter fs ≡ false
  unfolding validate_filters bad_filter
  validate_filters-ok [] h = refl
  validate_filters-ok ((col, f) ∷ fs) h =
      let (a, h₁) = reject_then (bind_unsafe col) (unsafe_column table role col) _ h in
      let (b, h₂) = reject_then (not (has_operator f)) (no_operator table role col) _ h₁ in
      let (_, h₃) = >>-ok (reject_malformed_templates table role col f) _ h₂ in
      rw (a, b) (validate_filters-ok fs h₃)

  validate_checks-ok :
      (fs : List (Bytes × Filter))
      → validate_checks table role fs ≡ ok tt
      → any bad_check fs ≡ false
  unfolding validate_checks bad_check
  validate_checks-ok [] h = refl
  validate_checks-ok ((col, f) ∷ fs) h =
      let (a, h₁) = reject_then (bind_unsafe col) (unsafe_column table role col) _ h in
      let (b, h₂) = reject_then (not (has_operator f)) (no_operator table role col) _ h₁ in
      let (c, h₃) =
        reject_then (is_set f.neq || (is_set f.gt || is_set f.lt))
          (unsupported_operator table role col) _ h₂ in
      let (d, h₄) =
        reject_then (is_set f.eq && is_set f.«in») (ambiguous_check table role col) _ h₃ in
      let (_, h₅) = >>-ok (reject_malformed_templates table role col f) _ h₄ in
      let rest = validate_checks-ok fs h₅ in ground arith

  -- Both sides of a validated role.
  IsSound : RolePermissions → Type 0
  IsSound perms =
      (validate_select_perms table role perms.select ≡ ok tt)
      × (validate_insert_perms table role perms.insert ≡ ok tt)

  select-allowed :
      (o : Option SelectPermissions) (claims : Fields)
      → validate_select_perms table role o ≡ ok tt
      → (evaluate_select o claims).allowed ≡ is_set o
  unfolding validate_select_perms evaluate_select
  select-allowed none claims h = refl
  select-allowed (some perms) claims h =
      let (_, h0) =
        reject_then (is_negative perms.max_rows) (negative_cap table role (codes "max_rows")) _ h in
      let (_, h1) =
        reject_then (is_negative perms.max_execution_time)
          (negative_cap table role (codes "max_execution_time")) _ h0 in
      let (_, h2) =
        reject_then (is_negative perms.max_rows_to_read)
          (negative_cap table role (codes "max_rows_to_read")) _ h1 in
      let (_, h3) =
        reject_then (is_negative perms.max_memory_usage)
          (negative_cap table role (codes "max_memory_usage")) _ h2 in
      rw (validate_filters-ok perms.filter h3) refl

  insert-allowed :
      (o : Option InsertPermissions) (claims : Fields)
      → validate_insert_perms table role o ≡ ok tt
      → (evaluate_insert o claims).allowed ≡ is_set o
  unfolding validate_insert_perms evaluate_insert
  insert-allowed none claims h = refl
  insert-allowed (some perms) claims h = rw (validate_checks-ok perms.check h) refl

validate_roles-ok :
    (table : Bytes) (tp : TablePolicy) (role : Bytes) (perms : RolePermissions)
    → validate_roles table tp ≡ ok tt
    → lookup role tp ≡ some perms
    → (name : Bytes) × IsSound table name perms
unfolding validate_roles lookup IsSound
validate_roles-ok table [] role perms h e = absurd (cc)
validate_roles-ok table ((r, q) ∷ tp) role perms h e =
    let (_, h₁) = reject_then (is_empty (trim_space r)) (empty_role table) _ h in
    let (s, h₂) = >>-ok (validate_select_perms table r q.select) _ h₁ in
    let (i, h₃) = >>-ok (validate_insert_perms table r q.insert) _ h₂ in
    elim (Bool-cases (bytes_eq r role)) [
      | inl f ↦
          subst (λ x. (name : Bytes) × IsSound table name x) (some-injective _ _ (rw f at e))
            (r, (s, i))
      | inr f ↦ validate_roles-ok table tp role perms h₃ (rw f at e)
    ]

validate_tables-ok :
    (ts : List (Bytes × TablePolicy)) (table : Bytes) (tp : TablePolicy)
    → validate_tables ts ≡ ok tt
    → lookup table ts ≡ some tp
    → (name : Bytes) × (validate_roles name tp ≡ ok tt)
unfolding validate_tables lookup
validate_tables-ok [] table tp h e = absurd (cc)
validate_tables-ok ((t, x) ∷ ts) table tp h e =
    let (a, b) = >>-ok (validate_roles t x) _ h in
    elim (Bool-cases (bytes_eq t table)) [
      | inl f ↦
          subst (λ y. (name : Bytes) × (validate_roles name y ≡ ok tt))
            (some-injective _ _ (rw f at e)) (t, a)
      | inr f ↦ validate_tables-ok ts table tp b (rw f at e)
    ]

-- Under a policy that `Validate` accepts, `Evaluate` grants a role that is not the admin exactly what the
-- policy's entry for the role and the table names: a read where it has a read side, an insert where
-- it has a write side. Nothing that was validated is refused later.
pub validate-evaluate :
    (p : Policy) (role table : Bytes) (tp : TablePolicy) (perms : RolePermissions) (claims : Fields)
    → validate (some p) ≡ ok tt
    → is_admin (some p) (resolve_role (some p) role) ≡ false
    → is_empty (resolve_role (some p) role) ≡ false
    → lookup table p.tables ≡ some tp
    → lookup (resolve_role (some p) role) tp ≡ some perms
    → ((evaluate (some p) role table select claims).allowed ≡ is_set perms.select)
      × ((evaluate (some p) role table insert claims).allowed ≡ is_set perms.insert)
unfolding validate evaluate IsSound
validate-evaluate p role table tp perms claims v plain named t r =
    let (name, roles) = validate_tables-ok p.tables table tp v t in
    let (as', sound) = validate_roles-ok name tp (resolve_role (some p) role) perms roles r in
    rw (plain, t, named, r)
      (
        select-allowed name as' perms.select claims sound.0,
        insert-allowed name as' perms.insert claims sound.1,
      )
