-- ===== src/Chsql/Opaque.antt =====
-- pkg/chsql/scan.go: the spans of a SQL text that ClickHouse reads as text (`Opaque`).
pub mod Spans
pub mod Tokens
use wave_house.Prelude.{
  ℕ, Bool, List, Option, if◌then◌else◌, [], false, length, some, ◌∷◌, none, suc, ◌==◌, true, ◌-◌,
  zero, ◌&&◌,
}
use wave_house.Prelude.Bytes.{Bytes}
use wave_house.Chsql.Scan.{
  is_quote, opens_comment, skip_comment, skip_word, skip_quoted, skip_curly_quoted, skip_heredoc,
  skip_dot_number, is_digit, is_word_byte, starts_with, or_end, dollar,
}

pub record Span : Type 0 where
  pub start : ℕ
  pub end : ℕ
  pub comment : Bool

-- What one round of the loop steps over: code, or a span of a kind.
pub data Kind : Type 0 where
  code : Kind
  text : Bool → Kind

abbrev pub span_or_byte : Bytes → Option Bytes → Kind × Bytes
span_or_byte s none = (code, s)
span_or_byte s (some rest) = (text false, rest)

abbrev pub span_or_word : Bytes → Option Bytes → Kind × Bytes
span_or_word s none = (code, skip_word s)
span_or_word s (some rest) = (text false, rest)

-- The switch of the loop, on the byte `c` and the text after it.
unfoldable pub token : ℕ → Bytes → Kind × Bytes
token c s =
    if is_quote c
    then (text false, skip_quoted c s)
    else if c == 0xE2
    then span_or_byte s (skip_curly_quoted (c ∷ s))
    else if c == dollar
    then span_or_word s (skip_heredoc s)
    else if opens_comment c s
    then (text true, or_end (skip_comment (c ∷ s)))
    else if c == b'.' && starts_with is_digit s
    then (code, skip_dot_number s)
    else if is_word_byte c
    then (code, skip_word (c ∷ s))
    else (code, s)

abbrev pub add_span : Kind → ℕ → ℕ → List Span → List Span
add_span code i j spans = spans
add_span (text comment) i j spans = record { start = i; end = j; comment = comment } ∷ spans

-- The loop: `i` is the index of the text that is left, which ends at `n`.
unfoldable pub opaque_from : ℕ → ℕ → Bytes → List Span
opaque_from zero n s = []
opaque_from (suc fuel) n [] = []
opaque_from (suc fuel) n (c ∷ s) =
    add_span (token c s).0 (n - length (c ∷ s)) (n - length (token c s).1)
      (opaque_from fuel n (token c s).1)

unfoldable pub opaque : Bytes → List Span
opaque sql = opaque_from (length sql) (length sql) sql
