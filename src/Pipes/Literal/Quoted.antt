-- ===== src/Pipes/Literal/Quoted.antt =====
-- pkg/pipes/pipes.go, pkg/chsql: proofs about quoted literals and identifiers under the SQL
-- scanner.
use wave_house.Prelude.{
  ℕ, [], ◌∷◌, false, ◌≢◌, arith, ◌++◌, ◌≡◌, if◌then◌else◌, refl, ◌==◌, append_assoc, ◌||◌, length,
}
use wave_house.Prelude.Bytes.{Bytes}
use wave_house.Chsql.Quote.{quote_ident, escape_ident, backtick, backslash}
use wave_house.Chsql.Scan.{skip_quoted, starts_with}
use wave_house.Chsql.Scan.Quoted.{skip_quoted_escaped}
use wave_house.Chsql.Opaque.{opaque}
use wave_house.Chsql.Opaque.Tokens.{opaque-quoted, moved}
use wave_house.Chsql.Mutation.{has_top_level_insert_into}
use wave_house.Chsql.Mutation.Laws.{has_top_level_insert_into-quoted}
use wave_house.Pipes.Literal.{escaped_byte, escape_literal, quote_literal, quote_byte}

-- Each replacement of `literalEscaper` is stepped over inside single quotes.
escaped_byte_whole :
    (c : ℕ) (t : Bytes)
    → t ≢ []
    → skip_quoted quote_byte (escaped_byte c ++ t) ≡ skip_quoted quote_byte t
unfolding escaped_byte skip_quoted
escaped_byte_whole c [] h = absurd (h refl)
escaped_byte_whole c (d ∷ t) h = ground arith

skip_quoted-escape_literal :
    (s rest : Bytes)
    → starts_with (λ c. c == quote_byte) rest ≡ false
    → skip_quoted quote_byte ((escape_literal s ++ quote_byte ∷ []) ++ rest) ≡ rest
unfolding escape_literal
skip_quoted-escape_literal s rest h = rw (append_assoc (escape_literal s) (quote_byte ∷ []) rest) (
    skip_quoted_escaped quote_byte escaped_byte escape_literal refl (λ c t. refl) escaped_byte_whole
      (omega arith) s rest h)

abbrev escaped_ident_byte : ℕ → Bytes
escaped_ident_byte c = if c == backslash || c == backtick then backslash ∷ c ∷ [] else c ∷ []

escaped_ident_byte_whole :
    (c : ℕ) (t : Bytes)
    → t ≢ []
    → skip_quoted backtick (escaped_ident_byte c ++ t) ≡ skip_quoted backtick t
unfolding skip_quoted
escaped_ident_byte_whole c [] h = absurd (h refl)
escaped_ident_byte_whole c (d ∷ t) h = ground arith

skip_quoted-escape_ident :
    (s rest : Bytes)
    → starts_with (λ c. c == backtick) rest ≡ false
    → skip_quoted backtick ((escape_ident s ++ backtick ∷ []) ++ rest) ≡ rest
unfolding escape_ident
skip_quoted-escape_ident s rest h = rw (append_assoc (escape_ident s) (backtick ∷ []) rest) (
    skip_quoted_escaped backtick escaped_ident_byte escape_ident refl (λ c t. refl)
      escaped_ident_byte_whole (omega arith) s rest h)

-- A string literal, whatever it holds, is one quoted token: the text behind it keeps its spans,
-- unless it goes on with another single quote.
pub opaque-quote_literal :
    (s rest : Bytes)
    → starts_with (λ c. c == quote_byte) rest ≡ false
    → opaque (quote_literal s ++ rest)
      ≡ record { start = 0; end = length (quote_literal s); comment = false }
        ∷ moved (length (quote_literal s)) (opaque rest)
unfolding quote_literal
opaque-quote_literal s rest h =
    opaque-quoted quote_byte (escape_literal s ++ quote_byte ∷ []) rest refl
      (skip_quoted-escape_literal s rest h)

-- A quoted identifier, whatever its name, is one quoted token: the text behind it keeps its spans,
-- unless it goes on with another backtick.
pub opaque-quote_ident :
    (name rest : Bytes)
    → starts_with (λ c. c == backtick) rest ≡ false
    → opaque (quote_ident name ++ rest)
      ≡ record { start = 0; end = length (quote_ident name); comment = false }
        ∷ moved (length (quote_ident name)) (opaque rest)
unfolding quote_ident
opaque-quote_ident name rest h =
    opaque-quoted backtick (escape_ident name ++ backtick ∷ []) rest refl
      (skip_quoted-escape_ident name rest h)

-- A string literal in front of a text neither hides nor makes an INSERT INTO of that text, unless
-- the text goes on with another single quote.
pub has_top_level_insert_into-quote_literal :
    (s rest : Bytes)
    → starts_with (λ c. c == quote_byte) rest ≡ false
    → has_top_level_insert_into (quote_literal s ++ rest) ≡ has_top_level_insert_into rest
unfolding quote_literal
has_top_level_insert_into-quote_literal s rest h =
    has_top_level_insert_into-quoted quote_byte (escape_literal s ++ quote_byte ∷ []) rest refl
      (skip_quoted-escape_literal s rest h)
