-- ===== src/Pipes/Bind.antt =====
-- pkg/pipes/pipes.go: `BindParams`, which writes the values of a request and of its token into the
-- SQL of a named query. Of a query it reads the SQL and the parameters, of a parameter its name,
-- whether it is required, and its default.
pub mod Laws
pub mod Writes
use wave_house.Prelude.{
  ℕ, [], ◌∷◌, true, false, ok, err, none, some, Bool, List, Option, Result, if◌then◌else◌, ◌>>=◌,
  ◌++◌,
}
use wave_house.Prelude.Bytes.{Bytes, bytes_eq, lookup}
use wave_house.Policy.Values.{Fields}
use wave_house.Policy.Template.{resolve_claim}
use wave_house.Pipes.Literal.{Value, text, ParamError, format_param_value, claim_literal}
use wave_house.Pipes.Template.{Ref, claim, param, Piece, plain, ref, pieces, claim_paths}

pub record ParamDef : Type 0 where
  pub name : Bytes
  pub required : Bool
  pub default : Value

pub record NamedQuery : Type 0 where
  pub sql : Bytes
  pub parameters : List ParamDef

pub data BindError : Type 0 where
  unresolved_claim : Bytes → BindError
  missing_parameter : Bytes → BindError
  bad_parameter : Bytes → ParamError → BindError

abbrev pub Supplied : Type 0
Supplied = List (Bytes × Value)

-- The first of these claims that the token cannot bind.
unfoldable pub first_unresolved : Fields → List Bytes → Option Bytes
first_unresolved token [] = none
first_unresolved token (path ∷ paths) = elim (resolve_claim token path) [
  | none ↦ some path
  | some vals ↦ first_unresolved token paths
]

-- The map of the definitions: of two with one name the later one stays.
abbrev pub unless_later : Option ParamDef → Bytes → ParamDef → Option ParamDef
unless_later (some q) name p = some q
unless_later none name p = if bytes_eq p.name name then some p else none

unfoldable pub formal : Bytes → List ParamDef → Option ParamDef
formal name [] = none
formal name (p ∷ ps) = unless_later (formal name ps) name p

abbrev pub is_missing : ParamDef → Option Value → Bool
is_missing p none = p.required
is_missing p (some v) = false

unfoldable pub first_missing : Supplied → List ParamDef → Option Bytes
first_missing supplied [] = none
first_missing supplied (p ∷ ps) =
    let later = first_missing supplied ps in
    if is_missing p (lookup p.name supplied) then some p.name else later

abbrev pub inline_default : Bytes → Option Value
inline_default [] = none
inline_default (c ∷ def) = some (text (c ∷ def))

abbrev pub default_of : Option ParamDef → Bytes → Option Value
default_of none def = inline_default def
default_of (some p) def = some p.default

abbrev pub value_for : Option Value → Option ParamDef → Bytes → Option Value
value_for (some v) p def = some v
value_for none p def = default_of p def

abbrev pub named : Bytes → Result ParamError Bytes → Result BindError Bytes
named name (err why) = err (bad_parameter name why)
named name (ok lit) = ok lit

abbrev pub bind_value : Bytes → Option Value → Result BindError Bytes
bind_value name none = err (missing_parameter name)
bind_value name (some v) = named name (format_param_value v)

abbrev pub bind_resolved : Bytes → Option (List Bytes × Bool) → Result BindError Bytes
bind_resolved path none = err (unresolved_claim path)
bind_resolved path (some vals) = ok (claim_literal vals)

-- What one placeholder is replaced by.
unfoldable pub bind_ref : List ParamDef → Supplied → Fields → Ref → Result BindError Bytes
bind_ref params supplied token (claim path) = bind_resolved path (resolve_claim token path)
bind_ref params supplied token (param name def) =
    bind_value name (value_for (lookup name supplied) (formal name params) def)

-- ReplaceAllStringFunc over the template; the first error stands.
unfoldable pub bind_pieces : List ParamDef → Supplied → Fields → List Piece → Result BindError Bytes
bind_pieces params supplied token [] = ok []
bind_pieces params supplied token (plain c ∷ ps) =
    bind_pieces params supplied token ps >>= λ s. ok (c ∷ s)
bind_pieces params supplied token (ref raw r ∷ ps) = bind_ref params supplied token r >>= λ lit.
    bind_pieces params supplied token ps >>= λ s. ok (lit ++ s)

abbrev pub if_supplied : Option Bytes → Result BindError Bytes → Result BindError Bytes
if_supplied (some name) bound = err (missing_parameter name)
if_supplied none bound = bound

abbrev pub if_resolved : Option Bytes → Result BindError Bytes → Result BindError Bytes
if_resolved (some path) bound = err (unresolved_claim path)
if_resolved none bound = bound

unfoldable pub bind_params : NamedQuery → Supplied → Fields → Result BindError Bytes
bind_params q supplied token = if_resolved (first_unresolved token (claim_paths q.sql)) (
    if_supplied (first_missing supplied q.parameters)
      (bind_pieces q.parameters supplied token (pieces q.sql)))
