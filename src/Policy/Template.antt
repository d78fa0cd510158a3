-- ===== src/Policy/Template.antt =====
-- The claim templates `{{ jwt.<path> }}` of pkg/policy/claims.go and their resolution in
-- pkg/policy/policy.go (`resolveTemplate`, `resolveInValues`), pkg/policy/claims.go (`ResolveClaim`).
-- The grammar is read by hand, as RE2 reads the pattern: leftmost, greedy, and with no choice left
-- open, since neither a space nor a brace is a byte of a path.
use mathlib.Core.Option.{Option, none, some}
use mathlib.Core.Option
use wave_house.Prelude.{
  zero, suc, ℕ, Bool, List, Option, suc, ◌∷◌, [], any, false, if◌then◌else◌, leb, none, some, true,
  ◌==◌, is_empty, length, ◌&&◌, ◌++◌, ◌||◌, ◌-◌,
}
use wave_house.Prelude.Bytes.{Bytes, codes, cut_prefix, split_at}
use wave_house.Policy.Values.{Json, nil, cons, arr, Fields, items, navigate_claims}
use wave_house.Policy.Canonical.{canonical_scalar}

-- `\s` of RE2.
unfoldable pub is_space : ℕ → Bool
is_space c = c == 9 || (c == 10 || (c == 12 || (c == 13 || c == 32)))

unfoldable pub is_path_byte : ℕ → Bool
is_path_byte c =
    (leb b'a' c && leb c b'z')
    || ((leb b'A' c && leb c b'Z') || ((leb b'0' c && leb c b'9') || (c == b'_' || c == b'.')))

-- The longest run of bytes of a class, and what follows it.
abbrev pub consed : ℕ → Bytes × Bytes → Bytes × Bytes
consed c (a, b) = (c ∷ a, b)

unfoldable pub span : (ℕ → Bool) → Bytes → Bytes × Bytes
span p [] = ([], [])
span p (c ∷ s) = let rest = span p s in if p c then consed c rest else ([], c ∷ s)

abbrev pub open_braces : Bytes
open_braces = codes "{{"

abbrev pub close_braces : Bytes
close_braces = codes "}}"

abbrev pub closed_claim : Bytes × Bytes → Option (Bytes × Bytes)
closed_claim ([], rest) = none
closed_claim (c ∷ path, rest) =
    Option.map (λ after. (c ∷ path, after)) (cut_prefix close_braces (span is_space rest).1)

-- A template at the front of the text: its path, and what follows.
unfoldable pub template_at : Bytes → Option (Bytes × Bytes)
template_at s = elim (cut_prefix open_braces s) [
  | none ↦ none
  | some a ↦ elim (cut_prefix (codes "jwt.") (span is_space a).1) [
    | none ↦ none
    | some b ↦ closed_claim (span is_path_byte b)
  ]
]

pub data Part : Type 0 where
  text : ℕ → Part
  claim : Bytes → Part

-- The text in parts: its templates, leftmost first, and the bytes between them. `skip` counts the
-- bytes of a template that are still to pass.
unfoldable pub parts_from : ℕ → Bytes → List Part
parts_from skip [] = []
parts_from (suc skip) (c ∷ s) = parts_from skip s
parts_from zero (c ∷ s) = elim (template_at (c ∷ s)) [
  | none ↦ text c ∷ parts_from 0 s
  | some (path, rest) ↦ claim path ∷ parts_from (length s - length rest) s
]

unfoldable pub parts : Bytes → List Part
parts s = parts_from 0 s

abbrev pub or_empty : Option Bytes → Bytes
or_empty none = []
or_empty (some s) = s

abbrev pub dot : ℕ
dot = 46

unfoldable pub claim_at : Fields → Bytes → Json
claim_at claims path = navigate_claims claims (split_at dot path)

-- ReplaceAllStringFunc, with `ok` cleared where a claim does not bind.
unfoldable pub resolve_parts : Fields → List Part → Bytes × Bool
resolve_parts claims [] = ([], true)
resolve_parts claims (text c ∷ ps) = let (s, bound) = resolve_parts claims ps in (c ∷ s, bound)
resolve_parts claims (claim path ∷ ps) =
    let (s, bound) = resolve_parts claims ps in
    elim (canonical_scalar (claim_at claims path)) [ none ↦ (s, false) | some v ↦ (v ++ s, bound) ]

unfoldable pub resolve_template : Bytes → Fields → Bytes × Bool
resolve_template tmpl claims = resolve_parts claims (parts tmpl)

abbrev pub is_claim : Part → Bool
is_claim (text c) = false
is_claim (claim path) = true

-- claimTemplateRe.MatchString
unfoldable pub has_template : Bytes → Bool
has_template tmpl = any is_claim (parts tmpl)

-- The elements of an array claim, if every one is a scalar.
unfoldable pub canonical_items : List Json → Option (List Bytes)
canonical_items [] = some []
canonical_items (v ∷ vs) = elim (canonical_scalar v) [
  | none ↦ none
  | some s ↦ Option.map (λ rest. s ∷ rest) (canonical_items vs)
]

-- The values, and whether they are a set (an array claim).
abbrev pub single : Option Bytes → Option (List Bytes × Bool)
single none = none
single (some s) = some (s ∷ [], false)

unfoldable pub bind_claim : Json → Option (List Bytes × Bool)
bind_claim (arr nil) = none
bind_claim (arr (cons v vs)) =
    Option.map (λ values. (values, true)) (canonical_items (items (cons v vs)))
bind_claim v = single (canonical_scalar v)

unfoldable pub resolve_claim : Fields → Bytes → Option (List Bytes × Bool)
resolve_claim claims path = bind_claim (claim_at claims path)

-- Unicode's White_Space in UTF-8: the length of the space that the text begins with, or 0.
unfoldable pub space_len : Bytes → ℕ
space_len [] = 0
space_len (a ∷ []) = if (leb 9 a && leb a 13) || a == 32 then 1 else 0
space_len (a ∷ b ∷ []) =
    if (leb 9 a && leb a 13) || a == 32
    then 1
    else if a == 0xC2 && (b == 0x85 || b == 0xA0)
    then 2
    else 0
space_len (a ∷ b ∷ c ∷ s) =
    if (leb 9 a && leb a 13) || a == 32
    then 1
    else if a == 0xC2 && (b == 0x85 || b == 0xA0)
    then 2
    else if (a == 0xE1 && (b == 0x9A && c == 0x80))
        || ((a == 0xE2
              && ((b == 0x80
                    && ((leb 0x80 c && leb c 0x8A) || (c == 0xA8 || (c == 0xA9 || c == 0xAF))))
                  || (b == 0x81 && c == 0x9F)))
            || (a == 0xE3 && (b == 0x80 && c == 0x80)))
    then 3
    else 0

unfoldable pub trim_left : ℕ → Bytes → Bytes
trim_left skip [] = []
trim_left (suc skip) (c ∷ s) = trim_left skip s
trim_left zero (c ∷ s) = elim (space_len (c ∷ s)) [ zero ↦ c ∷ s | suc n ↦ trim_left n s ]

unfoldable pub trim_right : Bytes → Bytes
trim_right [] = []
trim_right (c ∷ s) =
    let rest = trim_right s in if is_empty (trim_left 0 (c ∷ s)) then [] else c ∷ rest

-- strings.TrimSpace
unfoldable pub trim_space : Bytes → Bytes
trim_space s = trim_right (trim_left 0 s)

-- wholeClaimRe: the path, where the text is one template and nothing else.
abbrev pub whole_of : Option (Bytes × Bytes) → Option Bytes
whole_of (some (path, [])) = some path
whole_of _ = none

abbrev pub bound_value : Bytes × Bool → List Bytes
bound_value (v, true) = v ∷ []
bound_value (v, false) = []

abbrev pub bound_set : Option (List Bytes × Bool) → List Bytes
bound_set none = []
bound_set (some (values, set)) = values

-- nil and an empty slice are both `[]`: every reader tests the length alone.
unfoldable pub resolve_in_values : Bytes → Fields → List Bytes
resolve_in_values tmpl claims = elim (whole_of (template_at (trim_space tmpl))) [
  | some path ↦ bound_set (resolve_claim claims path)
  | none ↦ bound_value (resolve_template tmpl claims)
]
