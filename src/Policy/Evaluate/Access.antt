-- ===== src/Policy/Evaluate/Access.antt =====
-- pkg/policy/policy.go: proofs about who gets a grant, and about the two sides of one.
use mathlib.Core.Option.{some-injective}
use wave_house.Prelude.{
  Option, ◌≡◌, some, true, Bool-cases, is_empty, ◌↔◌, false, inl, ◌⊎◌, arith, inr, none, refl, All,
}
use wave_house.Prelude.Bytes.{Bytes, lookup}
use wave_house.Policy.Values.{Fields}
use wave_house.Policy.Types.{
  Filter, SelectPermissions, InsertPermissions, RolePermissions, TablePolicy, Policy,
}
use wave_house.Policy.Roles.{is_admin, resolve_role}
use wave_house.Policy.Columns.{restricts_columns, is_column_allowed, side_lists, check_clauses}
use wave_house.Policy.Evaluate.{
  Operation, select, insert, other, bad_filter, evaluate_select, bad_check, evaluate_insert,
  evaluate_operation, evaluate_entry, evaluate_table, evaluate_role, evaluate, Option, some, true,
  is_empty, false, ResolvedPermissions, denied, Filter,
}
use wave_house.Policy.Evaluate.Clauses.{
  IsBindable, Restricts, IsHonoured, bad_filter_iff, bad_check_iff, any_none_iff,
}

-- The role's entry names the operation, and each of its clauses can be kept.
abbrev pub Grants : RolePermissions → Operation → Type 0
Grants perms select =
    (s : SelectPermissions) × (perms.select ≡ some s)
    × All (λ (e : Bytes × Filter). IsBindable e.0 × Restricts e.1) s.filter
Grants perms insert =
    (i : InsertPermissions) × (perms.insert ≡ some i)
    × All (λ (e : Bytes × Filter). IsBindable e.0 × IsHonoured e.1) i.check
Grants perms other = ⊥

-- The policy lists the table, and the table the role, which is not empty.
pub record IsGranted (p : Option Policy) (role table : Bytes) (operation : Operation) : Type 0 where
  pub policy : Policy
  pub tables : TablePolicy
  pub perms : RolePermissions
  pub loaded : p ≡ some policy
  pub table_found : lookup table policy.tables ≡ some tables
  pub named : is_empty role ≡ false
  pub role_found : lookup role tables ≡ some perms
  pub grants : Grants perms operation

evaluate_select_iff :
    (o : Option SelectPermissions) (claims : Fields)
    → ((evaluate_select o claims).allowed ≡ true) ↔ (
        (s : SelectPermissions) × (o ≡ some s)
        × All (λ (e : Bytes × Filter). IsBindable e.0 × Restricts e.1) s.filter)
unfolding evaluate_select
evaluate_select_iff none claims = (λ h. absurd (cc), λ (s, e, _). absurd (cc))
evaluate_select_iff (some perms) claims =
    let clean = any_none_iff bad_filter _ bad_filter_iff perms.filter in
    (
      λ h. (perms, refl, clean.0 (ground arith)),
      λ (s, e, safe). rw (clean.1 (rw (some-injective _ _ e) safe)) refl,
    )

evaluate_insert_iff :
    (o : Option InsertPermissions) (claims : Fields)
    → ((evaluate_insert o claims).allowed ≡ true) ↔ (
        (i : InsertPermissions) × (o ≡ some i)
        × All (λ (e : Bytes × Filter). IsBindable e.0 × IsHonoured e.1) i.check)
unfolding evaluate_insert
evaluate_insert_iff none claims = (λ h. absurd (cc), λ (s, e, _). absurd (cc))
evaluate_insert_iff (some perms) claims =
    let clean = any_none_iff bad_check _ bad_check_iff perms.check in
    (
      λ h. (perms, refl, clean.0 (ground arith)),
      λ (i, e, safe). rw (clean.1 (rw (some-injective _ _ e) safe)) refl,
    )

evaluate_operation_iff :
    (perms : RolePermissions) (operation : Operation) (claims : Fields)
    → ((evaluate_operation perms operation claims).allowed ≡ true) ↔ Grants perms operation
evaluate_operation_iff perms select claims = evaluate_select_iff perms.select claims
evaluate_operation_iff perms insert claims = evaluate_insert_iff perms.insert claims
evaluate_operation_iff perms other claims = (λ h. cc, λ h. absurd h)

module _ (role table : Bytes) (operation : Operation) (claims : Fields) where
  evaluate_entry_sound :
      (p : Policy) (tp : TablePolicy) (o : Option RolePermissions)
      → lookup table p.tables ≡ some tp
      → lookup role tp ≡ o
      → is_empty role ≡ false
      → (evaluate_entry o operation claims).allowed ≡ true
      → IsGranted (some p) role table operation
  evaluate_entry_sound p tp none e f g h = absurd (cc)
  evaluate_entry_sound p tp (some perms) e f g h = record {
    policy = p;
    tables = tp;
    perms = perms;
    loaded = refl;
    table_found = e;
    named = g;
    role_found = f;
    grants = (evaluate_operation_iff perms operation claims).0 h;
  }

  evaluate_table_sound :
      (p : Policy) (o : Option TablePolicy)
      → lookup table p.tables ≡ o
      → (evaluate_table o role operation claims).allowed ≡ true
      → IsGranted (some p) role table operation
  evaluate_table_sound p none e h = absurd (cc)
  evaluate_table_sound p (some tp) e h = elim (Bool-cases (is_empty role)) [
    | inl g ↦ absurd (cc (rw g at h))
    | inr g ↦ evaluate_entry_sound p tp (lookup role tp) e refl g (rw g at h)
  ]

  evaluate_role_iff :
      (p : Option Policy)
      → ((evaluate_role p role table operation claims).allowed ≡ true)
        ↔ IsGranted p role table operation
  evaluate_role_iff none = (λ h. absurd (cc), λ g. absurd (cc (g.loaded)))
  evaluate_role_iff (some p) =
      (λ h. evaluate_table_sound p (lookup table p.tables) refl h, λ g. complete g (cc (g.loaded)))
    where
      complete :
          (g : IsGranted (some p) role table operation)
          → p ≡ g.policy
          → (evaluate_role (some p) role table operation claims).allowed ≡ true
      complete g e =
          let found : lookup table p.tables ≡ some g.tables = rw e g.table_found in
          rw found (
            rw g.named
              (rw g.role_found ((evaluate_operation_iff g.perms operation claims).1 g.grants)))

-- A request is allowed exactly if its role, an empty one replaced by the default role, is the admin
-- role, or the policy has an entry for the table and that role, which is not empty, and the entry
-- names the operation and has only clauses that can be kept: the column's name has no `?`, a filter
-- has an operator, and a check has `_eq` or `_in`, not both, and no other operator.
pub evaluate_allowed_iff :
    (p : Option Policy) (role table : Bytes) (operation : Operation) (claims : Fields)
    → ((evaluate p role table operation claims).allowed ≡ true) ↔ (
        (is_admin p (resolve_role p role) ≡ true)
        ⊎ IsGranted p (resolve_role p role) table operation)
unfolding evaluate
evaluate_allowed_iff p role table operation claims =
    elim (Bool-cases (is_admin p (resolve_role p role))) [
      | inl a ↦ (λ _. inl a, λ _. rw a)
      | inr a ↦ rw a (
        λ h. inr ((evaluate_role_iff (resolve_role p role) table operation claims p).0 h),
        λ o. elim o [
          | inl b ↦ absurd (cc)
          | inr g ↦ (evaluate_role_iff (resolve_role p role) table operation claims p).1 g
        ],
      )
    ]

evaluate_select-insert :
    (o : Option SelectPermissions) (claims : Fields) → (evaluate_select o claims).insert ≡ none
unfolding evaluate_select
evaluate_select-insert none claims = refl
evaluate_select-insert (some perms) claims = ground arith

pub evaluate_insert-select :
    (o : Option InsertPermissions) (claims : Fields) → (evaluate_insert o claims).select ≡ none
unfolding evaluate_insert
evaluate_insert-select none claims = refl
evaluate_insert-select (some perms) claims = ground arith

-- What holds of a denial and of every entry's grant holds of every grant but an admin's.
pub evaluate_ind :
    (P : ResolvedPermissions → Type 0) (p : Option Policy) (role table : Bytes)
    (operation : Operation) (claims : Fields)
    → P denied
    → ((perms : RolePermissions) → P (evaluate_operation perms operation claims))
    → is_admin p (resolve_role p role) ≡ false
    → P (evaluate p role table operation claims)
unfolding evaluate
evaluate_ind P p role table operation claims d k a = rw a (by_policy p (resolve_role p role))
  where
    by_entry : (o : Option RolePermissions) → P (evaluate_entry o operation claims)
    by_entry none = d
    by_entry (some perms) = k perms

    by_table : (o : Option TablePolicy) (r : Bytes) → P (evaluate_table o r operation claims)
    by_table none r = d
    by_table (some tp) r = elim (Bool-cases (is_empty r)) [
      | inl e ↦ rw e d
      | inr e ↦ rw e (by_entry (lookup r tp))
    ]

    by_policy : (q : Option Policy) (r : Bytes) → P (evaluate_role q r table operation claims)
    by_policy none r = d
    by_policy (some q) r = by_table (lookup table q.tables) r

no_insert_side :
    (rp : ResolvedPermissions) (col : Bytes)
    → rp.insert ≡ none
    → (is_column_allowed (some rp) col true ≡ false) × (check_clauses (some rp) ≡ none)
unfolding is_column_allowed check_clauses side_lists
no_insert_side rp col e = elim (Bool-cases rp.allowed) [
  | inl a ↦ (rw (a, e), rw (a, e))
  | inr a ↦ (rw a, rw a)
]

no_select_side :
    (rp : ResolvedPermissions) (col : Bytes)
    → rp.select ≡ none
    → (is_column_allowed (some rp) col false ≡ false) × (restricts_columns (some rp) ≡ true)
unfolding is_column_allowed restricts_columns side_lists
no_select_side rp col e = elim (Bool-cases rp.allowed) [
  | inl a ↦ (rw (a, e), rw (a, e))
  | inr a ↦ (rw a, rw a)
]

-- A grant that a role other than the admin's got for reading lets no column be written and refuses
-- the write instead of running no checks; one got for writing lets no column be read and counts as
-- restricted.
pub evaluate_sides :
    (p : Option Policy) (role table : Bytes) (claims : Fields) (col : Bytes)
    → is_admin p (resolve_role p role) ≡ false
    → (is_column_allowed (some (evaluate p role table select claims)) col true ≡ false)
      × (check_clauses (some (evaluate p role table select claims)) ≡ none)
      × (is_column_allowed (some (evaluate p role table insert claims)) col false ≡ false)
      × (restricts_columns (some (evaluate p role table insert claims)) ≡ true)
evaluate_sides p role table claims col a =
    let read =
      evaluate_ind (λ rp. rp.insert ≡ none) p role table select claims refl
        (λ perms. evaluate_select-insert perms.select claims) a in
    let write =
      evaluate_ind (λ rp. rp.select ≡ none) p role table insert claims refl
        (λ perms. evaluate_insert-select perms.insert claims) a in
    let (w₁, w₂) = no_insert_side (evaluate p role table select claims) col read in
    let (r₁, r₂) = no_select_side (evaluate p role table insert claims) col write in
    (w₁, w₂, r₁, r₂)
