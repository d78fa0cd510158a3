-- ===== src/Pipes/Bind/Laws.antt =====
-- pkg/pipes/pipes.go: proofs about the claims that a token cannot bind.
use mathlib.Core.Option.{some-injective}
use wave_house.Prelude.{
  [], ◌∷◌, true, ok, err, none, some, Bool-cases, Option-cases, inl, inr, List, Bool, ◌≡◌, ◌≢◌, ap,
  Option, Result, ◌>>=◌, ◌++◌, ◌⊎◌, refl, ◌∙◌, ◌↔◌,
}
use wave_house.Prelude.Bytes.{Bytes, bytes_eq, bytes_eq_iff, contains, lookup}
use wave_house.Policy.Values.{Fields}
use wave_house.Policy.Template.{resolve_claim}
use wave_house.Pipes.Literal.{Value, ParamError, format_param_value}
use wave_house.Pipes.Template.{claim, param, Piece, plain, ref, claims_of}
use wave_house.Pipes.Template.{claim_paths, pieces}
use wave_house.Pipes.Bind.{
  BindError, unresolved_claim, first_unresolved, bind_value, named, ParamDef, Supplied, Ref,
  bind_params, bind_pieces, bind_ref, value_for, formal, claim_paths, NamedQuery, if_resolved,
  if_supplied, first_missing,
}

chain_err :
    (m : Result BindError Bytes) (f : Bytes → Bytes) {e : BindError}
    → (m >>= λ s. ok (f s)) ≡ err e
    → m ≡ err e
chain_err (ok s) f h = absurd (cc h)
chain_err (err why) f h = h

refs_err :
    (m n : Result BindError Bytes) {e : BindError}
    → (m >>= λ lit. n >>= λ s. ok (lit ++ s)) ≡ err e
    → (m ≡ err e) ⊎ (n ≡ err e)
refs_err (ok lit) n h = inr (chain_err n (λ s. lit ++ s) h)
refs_err (err why) n h = inl h

abbrev IsRefusedFor : Bytes → Result BindError Bytes → Type 0
IsRefusedFor path r = r ≡ err (unresolved_claim path)

same_claim : (other path : Bytes) → IsRefusedFor path (err (unresolved_claim other)) → other ≡ path
same_claim other path e = cc

past_missing :
    (o : Option Bytes) (r : Result BindError Bytes) (path : Bytes)
    → IsRefusedFor path (if_supplied o r)
    → IsRefusedFor path r
past_missing none r path e = e
past_missing (some name) r path e = absurd (cc e)

module _ (token : Fields) where
  -- The token binds every claim of these pieces.
  unfoldable pub Resolves : List Piece → Type 0
  Resolves [] = Unit
  Resolves (plain c ∷ ps) = Resolves ps
  Resolves (ref raw (param name def) ∷ ps) = Resolves ps
  Resolves (ref raw (claim path) ∷ ps) = (resolve_claim token path ≢ none) × Resolves ps

  abbrev Bound : List Bytes → Type 0
  Bound seen = (path : Bytes) → contains path seen ≡ true → resolve_claim token path ≢ none

  extended_bindings :
      (seen : List Bytes) (path : Bytes) (vals : List Bytes × Bool)
      → resolve_claim token path ≡ some vals
      → Bound seen
      → Bound (path ∷ seen)
  unfolding contains
  extended_bindings seen path vals e h other found = elim (Bool-cases (bytes_eq path other)) [
    | inl same ↦ λ n. cc (e, ap (resolve_claim token) ((bytes_eq_iff path other).0 same), n)
    | inr differs ↦ h other (rw (contains, differs) at found)
  ]

  -- The claims that are listed once each are all the claims that the pieces use.
  claims_of-Resolves :
      (seen : List Bytes) (ps : List Piece)
      → Bound seen
      → first_unresolved token (claims_of seen ps) ≡ none
      → Resolves ps
  unfolding claims_of first_unresolved Resolves
  claims_of-Resolves seen [] h e = tt
  claims_of-Resolves seen (plain c ∷ ps) h e = claims_of-Resolves seen ps h e
  claims_of-Resolves seen (ref raw (param name def) ∷ ps) h e = claims_of-Resolves seen ps h e
  claims_of-Resolves seen (ref raw (claim path) ∷ ps) h e = elim (Bool-cases (contains path seen)) [
    | inl listed ↦ (h path listed, claims_of-Resolves seen ps h (rw (claims_of, listed) at e))
    | inr fresh ↦
        let e2 : first_unresolved token (path ∷ claims_of (path ∷ seen) ps) ≡ none =
          rw (claims_of, fresh) at e in
        elim (Option-cases (resolve_claim token path)) [
          | inl gone ↦ absurd (cc (rw (first_unresolved, gone) at e2))
          | inr (vals, bound) ↦ (
            λ n. cc (bound, n),
            claims_of-Resolves (path ∷ seen) ps (extended_bindings seen path vals bound h)
                (rw (first_unresolved, bound) at e2),
          )
        ]
  ]

  IsRefusal : Result BindError Bytes → Type 0
  IsRefusal r = (path : Bytes) × (r ≡ err (unresolved_claim path))

  bind_value-Refusal : (name : Bytes) (o : Option Value) → ¬ IsRefusal (bind_value name o)
  unfolding IsRefusal
  bind_value-Refusal name none (path, e) = cc
  bind_value-Refusal name (some v) (path, e) = by_result (format_param_value v) e
    where
      by_result : (r : Result ParamError Bytes) → ¬ (named name r ≡ err (unresolved_claim path))
      by_result (ok lit) f = cc
      by_result (err why) f = cc

  module _ (params : List ParamDef) (supplied : Supplied) where
    bind_ref-Refusal :
        (raw : Bytes) (r : Ref) (ps : List Piece)
        → Resolves (ref raw r ∷ ps)
        → ¬ IsRefusal (bind_ref params supplied token r)
    unfolding bind_ref Resolves IsRefusal
    bind_ref-Refusal raw (param name def) ps h =
        bind_value-Refusal name (value_for (lookup name supplied) (formal name params) def)
    bind_ref-Refusal raw (claim path) ps h = elim (Option-cases (resolve_claim token path)) [
      | inl gone ↦ absurd (h.0 gone)
      | inr (vals, bound) ↦ rw bound (λ r. cc (r.1))
    ]

    tail_Resolves :
        (raw : Bytes) (r : Ref) (ps : List Piece) → Resolves (ref raw r ∷ ps) → Resolves ps
    unfolding Resolves
    tail_Resolves raw (param name def) ps h = h
    tail_Resolves raw (claim path) ps h = h.1

    bind_pieces-Refusal :
        (ps : List Piece) → Resolves ps → ¬ IsRefusal (bind_pieces params supplied token ps)
    unfolding bind_pieces Resolves IsRefusal
    bind_pieces-Refusal [] h (path, e) = cc
    bind_pieces-Refusal (plain c ∷ ps) h (path, e) =
        bind_pieces-Refusal ps h (path, chain_err (bind_pieces params supplied token ps) _ e)
    bind_pieces-Refusal (ref raw r ∷ ps) h (path, e) =
        elim (refs_err (bind_ref params supplied token r) (bind_pieces params supplied token ps)
          e) [
            | inl here ↦ bind_ref-Refusal raw r ps h (path, here)
            | inr later ↦ bind_pieces-Refusal ps (tail_Resolves raw r ps h) (path, later)
          ]

    -- Only a claim that the token cannot bind is answered by that refusal.
    refused_by_claims :
        (sql path : Bytes)
        → IsRefusedFor path (
            if_resolved (first_unresolved token (claim_paths sql)) (
              if_supplied
                (first_missing supplied params)
                (bind_pieces params supplied token (pieces sql))))
        → first_unresolved token (claim_paths sql) ≡ some path
    unfolding claim_paths IsRefusal contains
    refused_by_claims sql path e =
        elim (Option-cases (first_unresolved token (claims_of [] (pieces sql)))) [
          | inr (other, first) ↦
              first ∙ ap some (same_claim other path (rw (claim_paths, first) at e))
          | inl all_bound ↦ absurd (
              bind_pieces-Refusal (pieces sql)
                (claims_of-Resolves [] (pieces sql) (λ other found. cc) all_bound)
                (
                  path,
                  past_missing (first_missing supplied params)
                      (bind_pieces params supplied token (pieces sql)) path
                      (rw (claim_paths, all_bound) at e),
                ))
        ]

-- The claim is the first of a template, as it is read, that the token cannot bind.
unfoldable pub IsFirstUnbound : Fields → Bytes → List Piece → Type 0
IsFirstUnbound token path [] = ⊥
IsFirstUnbound token path (plain c ∷ ps) = IsFirstUnbound token path ps
IsFirstUnbound token path (ref raw (param name def) ∷ ps) = IsFirstUnbound token path ps
IsFirstUnbound token path (ref raw (claim p) ∷ ps) =
    ((p ≡ path) × (resolve_claim token p ≡ none))
    ⊎ ((resolve_claim token p ≢ none) × IsFirstUnbound token path ps)

claims_of-IsFirstUnbound :
    (token : Fields) (path : Bytes) (seen : List Bytes) (ps : List Piece)
    → Bound token seen
    → (first_unresolved token (claims_of seen ps) ≡ some path) ↔ IsFirstUnbound token path ps
unfolding claims_of first_unresolved IsFirstUnbound
claims_of-IsFirstUnbound token path seen [] h = (λ e. absurd (cc), λ k. absurd k)
claims_of-IsFirstUnbound token path seen (plain c ∷ ps) h =
    claims_of-IsFirstUnbound token path seen ps h
claims_of-IsFirstUnbound token path seen (ref raw (param name def) ∷ ps) h =
    claims_of-IsFirstUnbound token path seen ps h
claims_of-IsFirstUnbound token path seen (ref raw (claim p) ∷ ps) h =
    elim (Bool-cases (contains p seen)) [
      | inl listed ↦
          let rest = claims_of-IsFirstUnbound token path seen ps h in
          rw (claims_of, listed)
            (
              λ e. inr (h p listed, rest.0 e),
              λ k. elim k [ inl (_, gone) ↦ absurd (h p listed gone) | inr (_, r) ↦ rest.1 r ],
            )
      | inr fresh ↦ elim (Option-cases (resolve_claim token p)) [
        | inl gone ↦
            rw (claims_of, fresh, first_unresolved, gone)
              (
                λ e. inl (some-injective _ _ e, refl),
                λ k. elim k [ inl (e, _) ↦ ap some e | inr (n, _) ↦ absurd (n refl) ],
              )
        | inr (vals, bound) ↦
            let rest =
              claims_of-IsFirstUnbound token path (p ∷ seen) ps
                (extended_bindings token seen p vals bound h) in
            rw (claims_of, fresh, first_unresolved, bound)
              (
                λ e. inr (λ n. absurd (cc), rest.0 e),
                λ k. elim k [ inl (_, gone) ↦ absurd (cc) | inr (_, r) ↦ rest.1 r ],
              )
      ]
    ]

-- Whatever values are supplied, a pipe is refused for a claim exactly if the claim is the first of
-- the placeholders of its template, as it is read, that the token cannot bind.
pub bind_params-unresolved :
    (q : NamedQuery) (supplied : Supplied) (token : Fields) (path : Bytes)
    → (bind_params q supplied token ≡ err (unresolved_claim path))
      ↔ IsFirstUnbound token path (pieces q.sql)
unfolding bind_params claim_paths contains
bind_params-unresolved q supplied token path =
    let first = claims_of-IsFirstUnbound token path [] (pieces q.sql) (λ other found. cc) in
    (
      λ e. first.0 (refused_by_claims token q.parameters supplied q.sql path e),
      λ k. rw (first.1 k) refl,
    )
