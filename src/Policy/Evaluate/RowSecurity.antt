-- ===== src/Policy/Evaluate/RowSecurity.antt =====
-- pkg/policy/policy.go: proofs about the row filter of a read grant, and its parameters.
use mathlib.Core.Path.{subst}
use mathlib.Core.Option.{some-injective}
use wave_house.Prelude.{
  [], List, Option, some, any, false, All, List, Option, length, some, ◌≡◌, Bool-cases, any, ◌≤◌,
  false, inl, none, inr, arith, refl, ◌∷◌,
}
use wave_house.Prelude.Bytes.{Bytes, count}
use wave_house.Chsql.Quote.{question}
use wave_house.Policy.Values.{Fields}
use wave_house.Policy.Types.{
  Filter, SelectPermissions, RolePermissions, Policy, ResolvedSelect, ResolvedPermissions,
}
use wave_house.Policy.Roles.{is_admin, resolve_role}
use wave_house.Policy.Predicates.{resolve_predicates}
use wave_house.Policy.Predicates.Placeholders.{
  IsSafeEntry, where_clause-IsBalanced, resolve_predicates-HasSafeColumn, length-resolve_predicates,
}
use wave_house.Policy.Evaluate.{
  Operation, select, insert, other, bad_filter, resolved_select, evaluate_select, evaluate,
  evaluate_operation,
}
use wave_house.Policy.Evaluate.Access.{evaluate_ind, evaluate_insert-select}

All-IsSafeEntry : (fs : List (Bytes × Filter)) → any bad_filter fs ≡ false → All IsSafeEntry fs
unfolding bad_filter
All-IsSafeEntry [] h = tt
All-IsSafeEntry ((col, f) ∷ fs) h =
    ((ground arith, ground arith), All-IsSafeEntry fs (ground arith))

-- What a grant's read side has, if it has one.
abbrev pub SelectHas : (ResolvedSelect → Type 0) → ResolvedPermissions → Type 0
SelectHas P rp = (s : ResolvedSelect) → rp.select ≡ some s → P s

abbrev pub BindsItsParams : ResolvedSelect → Type 0
BindsItsParams s = count question s.where_clause ≡ length s.where_params

abbrev pub KeepsFilter : SelectPermissions → ResolvedSelect → Type 0
KeepsFilter perms s = length perms.filter ≤ length s.row_filter

resolved_select-BindsItsParams :
    (perms : SelectPermissions) (claims : Fields)
    → All IsSafeEntry perms.filter
    → BindsItsParams (resolved_select perms claims)
unfolding resolved_select
resolved_select-BindsItsParams perms claims h =
    where_clause-IsBalanced (resolve_predicates claims perms.filter)
      (resolve_predicates-HasSafeColumn claims perms.filter h)

resolved_select-KeepsFilter :
    (perms : SelectPermissions) (claims : Fields)
    → All IsSafeEntry perms.filter
    → KeepsFilter perms (resolved_select perms claims)
unfolding resolved_select
resolved_select-KeepsFilter perms claims h = length-resolve_predicates claims perms.filter h

evaluate_select-SelectHas :
    (P : SelectPermissions → ResolvedSelect → Type 0) (claims : Fields)
    → ((perms : SelectPermissions)
        → All IsSafeEntry perms.filter
        → P perms (resolved_select perms claims))
    → (perms : SelectPermissions) → SelectHas (P perms) (evaluate_select (some perms) claims)
unfolding evaluate_select
evaluate_select-SelectHas P claims k perms = elim (Bool-cases (any bad_filter perms.filter)) [
  | inl bad ↦ rw bad (λ s e. absurd (cc))
  | inr safe ↦ rw safe (λ s e. subst (P perms) (cc) (k perms (All-IsSafeEntry perms.filter safe)))
]

by_operation :
    (perms : RolePermissions) (operation : Operation) (claims : Fields)
    → SelectHas BindsItsParams (evaluate_operation perms operation claims)
unfolding evaluate_select
by_operation perms select claims = by_select perms.select
  where
    by_select :
        (o : Option SelectPermissions)
        → SelectHas BindsItsParams (evaluate_operation (record perms { select = o }) select claims)
    by_select none = λ s e. absurd (cc)
    by_select (some sp) =
        evaluate_select-SelectHas (λ _. BindsItsParams) claims
          (λ q. resolved_select-BindsItsParams q claims) sp
by_operation perms insert claims =
    λ s e. absurd (ground (arith, evaluate_insert-select perms.insert claims))
by_operation perms other claims = λ s e. absurd (cc)

-- Every grant that `Evaluate` hands out for reading binds its row filter exactly: its WHERE clause
-- holds one placeholder for each of its parameters.
pub evaluate-BindsItsParams :
    (p : Option Policy) (role table : Bytes) (operation : Operation) (claims : Fields)
    → SelectHas BindsItsParams (evaluate p role table operation claims)
unfolding evaluate
evaluate-BindsItsParams p role table operation claims =
    elim (Bool-cases (is_admin p (resolve_role p role))) [
      | inl a ↦ rw a (λ s e. subst BindsItsParams (some-injective _ _ e) (unfold count in refl))
      | inr a ↦
          evaluate_ind (SelectHas BindsItsParams) p role table operation claims (λ s e. absurd (cc))
            (λ perms. by_operation perms operation claims) a
    ]

-- A read grant that carries a resolved read side has at least as many row predicates as the role's
-- filter has entries.
pub evaluate_select-KeepsFilter :
    (perms : SelectPermissions) (claims : Fields)
    → SelectHas (KeepsFilter perms) (evaluate_select (some perms) claims)
evaluate_select-KeepsFilter perms claims =
    evaluate_select-SelectHas KeepsFilter claims (λ q. resolved_select-KeepsFilter q claims) perms
