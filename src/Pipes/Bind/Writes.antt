-- ===== src/Pipes/Bind/Writes.antt =====
-- pkg/pipes/pipes.go: proofs about what the SQL of a bound query is made of.
use mathlib.Core.Path.{subst}
use wave_house.Prelude.{
  ℕ, [], ◌∷◌, ok, err, none, some, refl, List, Bool, Option, ◌≡◌, Result, ok-injective, ◌++◌,
  >>=-ok, ap, ◌>>=◌,
}
use wave_house.Prelude.Bytes.{Bytes, lookup}
use wave_house.Policy.Values.{Fields}
use wave_house.Policy.Template.{resolve_claim}
use wave_house.Pipes.Literal.{Value, ParamError, format_param_value, claim_literal}
use wave_house.Pipes.Template.{Ref, claim, param, Piece, plain, ref}
use wave_house.Pipes.Bind.{
  ParamDef, Supplied, formal, bind_value, bind_resolved, named, value_for, bind_ref, bind_pieces,
  BindError, bind_params, NamedQuery, if_resolved, if_supplied, pieces, first_missing,
  first_unresolved, claim_paths,
}

-- The SQL is the template, in order: its own bytes, the token's literals, and for each parameter
-- the literal of a value.
pub data Writes (token : Fields) : List Piece → Bytes → Type 0 where
  done : Writes token [] []
  byte :
      {ps : List Piece} {s : Bytes} (c : ℕ)
      → Writes token ps s
      → Writes token (plain c ∷ ps) (c ∷ s)
  from_token :
      {ps : List Piece} {s : Bytes} (raw path : Bytes) (vals : List Bytes × Bool)
      → resolve_claim token path ≡ some vals
      → Writes token ps s
      → Writes token (ref raw (claim path) ∷ ps) (claim_literal vals ++ s)
  from_value :
      {ps : List Piece} {s : Bytes} (raw name def lit : Bytes) (v : Value)
      → format_param_value v ≡ ok lit
      → Writes token ps s
      → Writes token (ref raw (param name def) ∷ ps) (lit ++ s)

module _ (params : List ParamDef) (supplied : Supplied) (token : Fields) where
  named_value :
      (name lit : Bytes) (o : Option Value)
      → bind_value name o ≡ ok lit
      → (v : Value) × (format_param_value v ≡ ok lit)
  named_value name lit none e = absurd (cc e)
  named_value name lit (some v) e = (v, by_result (format_param_value v) e)
    where
      by_result : (r : Result ParamError Bytes) → named name r ≡ ok lit → r ≡ ok lit
      by_result (ok s) f = ap ok (ok-injective _ _ _ refl f)
      by_result (err why) f = absurd (cc f)

  resolved_value :
      (path lit : Bytes) (o : Option (List Bytes × Bool))
      → bind_resolved path o ≡ ok lit
      → (vals : List Bytes × Bool) × (o ≡ some vals) × (claim_literal vals ≡ lit)
  resolved_value path lit none e = absurd (cc e)
  resolved_value path lit (some vals) e = (vals, refl, ok-injective _ _ _ refl e)

  add_ref :
      (raw : Bytes) (r : Ref) (lit : Bytes) (ps : List Piece) (s : Bytes)
      → bind_ref params supplied token r ≡ ok lit
      → Writes token ps s
      → Writes token (ref raw r ∷ ps) (lit ++ s)
  unfolding bind_ref
  add_ref raw (claim path) lit ps s e w =
      let found : (vals : List Bytes × Bool) × (resolve_claim token path ≡ some vals)
          × (claim_literal vals ≡ lit) =
        resolved_value path lit (resolve_claim token path) e in
      subst (λ l. Writes token (ref raw (claim path) ∷ ps) (l ++ s)) found.2
        (from_token raw path found.0 found.1 w)
  add_ref raw (param name def) lit ps s e w =
      let found : (v : Value) × (format_param_value v ≡ ok lit) =
        named_value name lit (value_for (lookup name supplied) (formal name params) def) e in
      from_value raw name def lit found.0 found.1 w

  bind_pieces-Writes :
      (ps : List Piece) (sql : Bytes)
      → bind_pieces params supplied token ps ≡ ok sql
      → Writes token ps sql
  unfolding bind_pieces
  bind_pieces-Writes [] sql e = subst (Writes token []) (ok-injective _ _ _ refl e) done
  bind_pieces-Writes (plain c ∷ ps) sql e =
      let tail : (s : Bytes) × (bind_pieces params supplied token ps ≡ ok s)
          × (ok (c ∷ s) ≡ ok sql) =
        >>=-ok (bind_pieces params supplied token ps) (λ s. ok (c ∷ s)) e in
      subst (Writes token (plain c ∷ ps)) (ok-injective _ _ _ refl tail.2)
        (byte c (bind_pieces-Writes ps tail.0 tail.1))
  bind_pieces-Writes (ref raw r ∷ ps) sql e =
      let front : (lit : Bytes) × (bind_ref params supplied token r ≡ ok lit)
          × ((bind_pieces params supplied token ps >>= λ s. ok (lit ++ s)) ≡ ok sql) =
        >>=-ok (bind_ref params supplied token r)
          (λ lit. bind_pieces params supplied token ps >>= λ s. ok (lit ++ s)) e in
      let tail : (s : Bytes) × (bind_pieces params supplied token ps ≡ ok s)
          × (ok (front.0 ++ s) ≡ ok sql) =
        >>=-ok (bind_pieces params supplied token ps) (λ s. ok (front.0 ++ s)) front.2 in
      subst (Writes token (ref raw r ∷ ps)) (ok-injective _ _ _ refl tail.2)
        (add_ref raw r front.0 ps tail.0 front.1 (bind_pieces-Writes ps tail.0 tail.1))

past_claims :
    (o : Option Bytes) (r : Result BindError Bytes) (sql : Bytes)
    → if_resolved o r ≡ ok sql
    → r ≡ ok sql
past_claims none r sql e = e
past_claims (some path) r sql e = absurd (cc e)

past_required :
    (o : Option Bytes) (r : Result BindError Bytes) (sql : Bytes)
    → if_supplied o r ≡ ok sql
    → r ≡ ok sql
past_required none r sql e = e
past_required (some name) r sql e = absurd (cc e)

-- Where a query is bound, its SQL is the template with each claim written from the token alone and
-- each parameter written as the literal of one value.
pub bind_params-Writes :
    (q : NamedQuery) (supplied : Supplied) (token : Fields) (sql : Bytes)
    → bind_params q supplied token ≡ ok sql
    → Writes token (pieces q.sql) sql
unfolding bind_params
bind_params-Writes q supplied token sql e =
    bind_pieces-Writes q.parameters supplied token (pieces q.sql) sql (
      past_required (first_missing supplied q.parameters) _ sql
        (past_claims (first_unresolved token (claim_paths q.sql)) _ sql e))
