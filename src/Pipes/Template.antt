-- ===== src/Pipes/Template.antt =====
-- pkg/pipes/pipes.go: the placeholders of a SQL template, and the check of a template.
use wave_house.Prelude.{
  ℕ, [], ◌∷◌, true, false, none, some, Bool, List, Option, map, if◌then◌else◌, leb, suc, ◌++◌, ◌+◌,
  ◌||◌, length, ltb, take, ◌&&◌, ◌==◌, not, ◌-◌, zero,
}
use wave_house.Prelude.Bytes.{Bytes, codes, cut_prefix, bytes_eq, contains}
use wave_house.Policy.Template.{span, template_at, open_braces, close_braces, is_space}
use wave_house.Chsql.Opaque.{Span, opaque}

-- `\w` of RE2.
unfoldable pub is_name_byte : ℕ → Bool
is_name_byte c =
    leb b'0' c && leb c b'9'
    || (leb b'A' c && leb c b'Z')
    || (leb b'a' c && leb c b'z')
    || c == b'_'

pub data Ref : Type 0 where
  claim : Bytes → Ref
  param : Bytes → Bytes → Ref

abbrev pub closed_param : Bytes → Bytes → Option Bytes → Option (Ref × Bytes)
closed_param name def none = none
closed_param name def (some rest) = some (param name def, rest)

-- What follows the name: `}}`, or `:`, the default and `}}`.
abbrev pub after_name : Bytes → Bytes → Option (Ref × Bytes)
after_name [] s = none
after_name (n ∷ name) [] = none
after_name (n ∷ name) (c ∷ s) =
    if c == b':'
    then closed_param (n ∷ name) (span (λ d. not (d == b'}')) s).0
        (cut_prefix close_braces (span (λ d. not (d == b'}')) s).1)
    else closed_param (n ∷ name) [] (cut_prefix close_braces (c ∷ s))

abbrev pub in_braces : Option Bytes → Option (Ref × Bytes)
in_braces none = none
in_braces (some s) = after_name (span is_name_byte s).0 (span is_name_byte s).1

-- `paramPattern` at the front of the text.
unfoldable pub param_at : Bytes → Option (Ref × Bytes)
param_at s = in_braces (cut_prefix open_braces s)

abbrev pub claim_first : Option (Bytes × Bytes) → Option (Ref × Bytes) → Option (Ref × Bytes)
claim_first none other = other
claim_first (some (path, rest)) other = some (claim path, rest)

-- `placeholderRe` at the front of the text: a claim reference, else a parameter.
unfoldable pub placeholder_at : Bytes → Option (Ref × Bytes)
placeholder_at s = claim_first (template_at s) (param_at s)

-- A template in pieces: its placeholders with their own text, and the bytes between them.
pub data Piece : Type 0 where
  plain : ℕ → Piece
  ref : Bytes → Ref → Piece

-- The matches of a pattern, leftmost first; `skip` counts the bytes of a match still to pass.
unfoldable pub pieces_from : (Bytes → Option (Ref × Bytes)) → ℕ → Bytes → List Piece
pieces_from at skip [] = []
pieces_from at (suc skip) (c ∷ s) = pieces_from at skip s
pieces_from at zero (c ∷ s) = elim (at (c ∷ s)) [
  | none ↦ plain c ∷ pieces_from at 0 s
  | some (r, rest) ↦
      ref (take (length (c ∷ s) - length rest) (c ∷ s)) r
      ∷ pieces_from at (length s - length rest) s
]

unfoldable pub pieces : Bytes → List Piece
pieces sql = pieces_from placeholder_at 0 sql

-- The text with every placeholder written by `write`.
unfoldable pub written : (Bytes → Ref → Bytes) → List Piece → Bytes
written write [] = []
written write (plain c ∷ ps) = c ∷ written write ps
written write (ref raw r ∷ ps) = write raw r ++ written write ps

unfoldable pub skeleton : Bytes → Bytes
skeleton sql = written (λ raw r. codes "''") (pieces sql)

unfoldable pub claims_of : List Bytes → List Piece → List Bytes
claims_of seen [] = []
claims_of seen (plain c ∷ ps) = claims_of seen ps
claims_of seen (ref raw (param name def) ∷ ps) = claims_of seen ps
claims_of seen (ref raw (claim path) ∷ ps) = elim (contains path seen) [
  | true ↦ claims_of seen ps
  | false ↦ path ∷ claims_of (path ∷ seen) ps
]

-- `Claims`: each path once, in the order of first use.
unfoldable pub claim_paths : Bytes → List Bytes
claim_paths sql = claims_of [] (pieces sql)

pub data TemplateError : Type 0 where
  reserved : Bytes → TemplateError
  inside_comment : Bytes → TemplateError
  inside_quotes : Bytes → TemplateError
  unrecognized : Bytes → TemplateError

abbrev pub reserved_param : Bytes
reserved_param = codes "jwt"

unfoldable pub reserved_use : List Piece → Option TemplateError
reserved_use [] = none
reserved_use (ref raw (param name def) ∷ ps) =
    if bytes_eq name reserved_param then some (reserved raw) else reserved_use ps
reserved_use (_ ∷ ps) = reserved_use ps

abbrev pub blanks : Bytes → Bytes
blanks s = map (λ c. b' ') s

unfoldable pub masked : Bytes → Bytes
masked sql = written (λ raw r. blanks raw) (pieces sql)

-- The spans that the byte at `i` stands in, the first of them deciding.
unfoldable pub span_at : ℕ → List Span → Option Bool
span_at i [] = none
span_at i (span ∷ spans) =
    if ltb i span.start || leb span.end i then span_at i spans else some span.comment

abbrev pub found_in : Bytes → Option Bool → Option TemplateError → Option TemplateError
found_in raw none later = later
found_in raw (some true) later = some (inside_comment raw)
found_in raw (some false) later = some (inside_quotes raw)

-- The loop over the placeholders, the first piece standing at index `i`.
unfoldable pub hidden_use : List Span → ℕ → List Piece → Option TemplateError
hidden_use spans i [] = none
hidden_use spans i (plain c ∷ ps) = hidden_use spans (i + 1) ps
hidden_use spans i (ref raw r ∷ ps) =
    found_in raw (span_at i spans) (hidden_use spans (i + length raw) ps)

abbrev pub opens_name : Bytes → Bool
opens_name [] = false
opens_name (c ∷ s) = is_name_byte c || c == b'.'

abbrev pub is_malformed : Option Bytes → Bool
is_malformed none = false
is_malformed (some s) = opens_name (span is_space s).1

-- `malformedRe`: the text from its first match on.
unfoldable pub malformed_at : Bytes → Option Bytes
malformed_at [] = none
malformed_at (c ∷ s) =
    let later = malformed_at s in
    if is_malformed (cut_prefix open_braces (c ∷ s)) then some (c ∷ s) else later

-- Up to the first `}}` and with it, or the whole text.
unfoldable pub upto_close : Bytes → Bytes
upto_close [] = []
upto_close (c ∷ s) =
    let more = upto_close s in
    elim (cut_prefix close_braces (c ∷ s)) [ none ↦ c ∷ more | some rest ↦ close_braces ]

abbrev pub malformed_use : Option Bytes → Option TemplateError
malformed_use none = none
malformed_use (some frag) = some (unrecognized (upto_close frag))

abbrev pub first_error : Option TemplateError → Option TemplateError → Option TemplateError
first_error none later = later
first_error (some why) later = some why

unfoldable pub stripped : Bytes → Bytes
stripped sql = written (λ raw r. []) (pieces sql)

unfoldable pub check_template : Bytes → Option TemplateError
check_template sql = first_error (reserved_use (pieces_from param_at 0 sql)) (
    first_error (hidden_use (opaque (masked sql)) 0 (pieces sql))
      (malformed_use (malformed_at (stripped sql))))
