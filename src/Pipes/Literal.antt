-- ===== src/Pipes/Literal.antt =====
-- pkg/pipes/pipes.go: the SQL literals of parameter values and of claims.
pub mod Quoted
pub mod Inert
pub mod Formats
use wave_house.Prelude.{
  ℕ, [], ◌∷◌, true, false, ok, err, Bool, List, Option, Result, if◌then◌else◌, ◌++◌, ◌+◌, leb, map,
  some, ◌&&◌, ◌==◌, is_empty, none, ◌||◌,
}
use wave_house.Prelude.Bytes.{Bytes, codes, decimal, join_texts}
use wave_house.Prelude.Int.{ℤ, pos, negsuc}

abbrev pub quote_byte : ℕ
quote_byte = b'\''

-- `literalEscaper`: what one byte is replaced by.
unfoldable pub escaped_byte : ℕ → Bytes
escaped_byte c =
    if c == b'\\'
    then codes "\\\\"
    else if c == b'\''
    then codes "''"
    else if c == 10
    then codes "\\n"
    else if c == 13
    then codes "\\r"
    else if c == b'*'
    then codes "\\x2A"
    else if c == b'$'
    then codes "\\x24"
    else c ∷ []

unfoldable pub escape_literal : Bytes → Bytes
escape_literal [] = []
escape_literal (c ∷ s) = escaped_byte c ++ escape_literal s

unfoldable pub quote_literal : Bytes → Bytes
quote_literal s = quote_byte ∷ (escape_literal s ++ quote_byte ∷ [])

abbrev pub is_minus : ℕ → Bool
is_minus c = c == b'-'

unfoldable pub bare_number : Bytes → Bytes
bare_number [] = []
bare_number (c ∷ s) = if is_minus c then b' ' ∷ c ∷ s else c ∷ s

-- `numericLiteralRe`, read by hand: no choice is open, since a digit is no point, exponent or sign.
abbrev pub is_ascii_digit : ℕ → Bool
is_ascii_digit c = leb b'0' c && leb c b'9'

unfoldable pub after_digits : Bytes → Bytes
after_digits [] = []
after_digits (c ∷ s) = let rest = after_digits s in if is_ascii_digit c then rest else c ∷ s

unfoldable pub some_digits : Bytes → Bool
some_digits [] = false
some_digits (c ∷ s) = is_ascii_digit c && is_empty (after_digits s)

abbrev pub after_sign : Bytes → Bytes
after_sign [] = []
after_sign (c ∷ s) = if c == b'+' || c == b'-' then s else c ∷ s

unfoldable pub exponent_or_end : Bytes → Bool
exponent_or_end [] = true
exponent_or_end (c ∷ s) = (c == b'e' || c == b'E') && some_digits (after_sign s)

unfoldable pub fraction_or_end : Bytes → Bool
fraction_or_end [] = true
fraction_or_end (c ∷ s) =
    if c == b'.' then exponent_or_end (after_digits s) else exponent_or_end (c ∷ s)

abbrev pub leading_digit : Bytes → Bool
leading_digit [] = false
leading_digit (c ∷ s) = is_ascii_digit c

unfoldable pub is_mantissa : Bytes → Bool
is_mantissa [] = false
is_mantissa (c ∷ s) =
    if is_ascii_digit c
    then fraction_or_end (after_digits s)
    else c == b'.' && leading_digit s && exponent_or_end (after_digits s)

unfoldable pub is_numeric_literal : Bytes → Bool
is_numeric_literal s = is_mantissa (after_sign s)

-- A decoded value. A float is what the code asks of it: the integer that it equals, if one, and
-- its `%g` text. A value of a type without SQL form is `object`.
mutual
  pub data Value : Type 0 where
    null : Value
    text : Bytes → Value
    float : Option ℤ → Bytes → Value
    bool : Bool → Value
    int : ℤ → Value
    uint : ℕ → Value
    array : Values → Value
    object : Value

  pub data Values : Type 0 where
    nil : Values
    cons : Value → Values → Values

pub data ParamError : Type 0 where
  empty_array : ParamError
  unsupported : ParamError

unfoldable pub int_decimal : ℤ → Bytes
int_decimal (pos n) = decimal n
int_decimal (negsuc n) = b'-' ∷ decimal (n + 1)

abbrev pub float_text : Option ℤ → Bytes → Bytes
float_text none general = bare_number general
float_text (some n) general = bare_number (int_decimal n)

abbrev pub in_parens : List Bytes → Bytes
in_parens texts = b'(' ∷ (join_texts (codes ", ") texts ++ b')' ∷ [])

abbrev pub listed : Result ParamError (List Bytes) → Result ParamError Bytes
listed (err why) = err why
listed (ok texts) = ok (in_parens texts)

abbrev pub also :
    Result ParamError Bytes → Result ParamError (List Bytes) → Result ParamError (List Bytes)
also (err why) rest = err why
also (ok s) (err why) = err why
also (ok s) (ok texts) = ok (s ∷ texts)

unfoldable mutual
  pub format_param_value : Value → Result ParamError Bytes
  format_param_value null = ok (codes "NULL")
  format_param_value (text s) =
      if is_numeric_literal s then ok (bare_number s) else ok (quote_literal s)
  format_param_value (float whole general) = ok (float_text whole general)
  format_param_value (bool b) = ok (if b then codes "1" else codes "0")
  format_param_value (int n) = ok (bare_number (int_decimal n))
  format_param_value (uint n) = ok (decimal n)
  format_param_value (array nil) = err empty_array
  format_param_value (array (cons v vs)) = listed (format_each (cons v vs))
  format_param_value object = err unsupported

  pub format_each : Values → Result ParamError (List Bytes)
  format_each nil = ok []
  format_each (cons v vs) = also (format_param_value v) (format_each vs)

-- `claimLiteral`. The source indexes the first value of a claim that is no set.
unfoldable pub claim_literal : List Bytes × Bool → Bytes
claim_literal (vals, true) = in_parens (map quote_literal vals)
claim_literal ([], false) = []
claim_literal (v ∷ vals, false) = quote_literal v
