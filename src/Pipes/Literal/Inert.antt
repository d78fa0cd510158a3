-- ===== src/Pipes/Literal/Inert.antt =====
-- pkg/pipes/pipes.go: proofs about the bytes of a literal.
use wave_house.Prelude.{
  ℕ, [], ◌∷◌, true, false, ◌≢◌, Bool-cases, inl, inr, arith, All, All-append, is_empty, refl, ◌++◌,
  ◌==◌, ◌≡◌, ◌||◌,
}
use wave_house.Prelude.Bytes.{Bytes}
use wave_house.Chsql.Scan.{starts_with}
use wave_house.Pipes.Literal.{
  quote_byte, escaped_byte, escape_literal, quote_literal, is_minus, bare_number, is_ascii_digit,
  after_digits, some_digits, after_sign, exponent_or_end, fraction_or_end, is_mantissa,
  is_numeric_literal,
}

-- Not a byte that ends a line, a block comment or a heredoc.
abbrev pub IsHarmlessByte : ℕ → Type 0
IsHarmlessByte c = (c ≢ 10) × (c ≢ 13) × (c ≢ b'*') × (c ≢ b'$')

abbrev pub Harmless : Bytes → Type 0
Harmless s = All IsHarmlessByte s

-- A literal that is not empty, holds no such byte and does not begin with a minus.
unfoldable pub Inert : Bytes → Type 0
Inert s = Harmless s × (starts_with is_minus s ≡ false) × (s ≢ [])

pub Harmless-append : (s t : Bytes) → Harmless s → Harmless t → Harmless (s ++ t)
Harmless-append s t h k = All-append IsHarmlessByte s t h k

escaped_byte-Harmless : (c : ℕ) → Harmless (escaped_byte c)
unfolding escaped_byte
escaped_byte-Harmless c = ground arith

escape_literal-Harmless : (s : Bytes) → Harmless (escape_literal s)
unfolding escape_literal
escape_literal-Harmless [] = tt
escape_literal-Harmless (c ∷ s) =
    Harmless-append (escaped_byte c) (escape_literal s) (escaped_byte-Harmless c)
      (escape_literal-Harmless s)

pub quote_literal-Inert : (s : Bytes) → Inert (quote_literal s)
unfolding quote_literal Inert
quote_literal-Inert s = (
  (
    ground arith,
    Harmless-append (escape_literal s) (quote_byte ∷ []) (escape_literal-Harmless s) (ground arith),
  ),
  refl,
  λ e. cc,
)

after_digits-Harmless : (s : Bytes) → Harmless (after_digits s) → Harmless s
unfolding after_digits
after_digits-Harmless [] h = tt
after_digits-Harmless (c ∷ s) h = elim (Bool-cases (is_ascii_digit c)) [
  | inl digit ↦ (ground arith, after_digits-Harmless s (rw digit at h))
  | inr other ↦ rw other at h
]

no_rest-Harmless : (s : Bytes) → is_empty s ≡ true → Harmless s
no_rest-Harmless [] e = tt
no_rest-Harmless (c ∷ s) e = cc

some_digits-Harmless : (s : Bytes) → some_digits s ≡ true → Harmless s
unfolding some_digits
some_digits-Harmless [] e = cc
some_digits-Harmless (c ∷ s) e =
    (ground arith, after_digits-Harmless s (no_rest-Harmless (after_digits s) (ground arith)))

after_sign-Harmless : (s : Bytes) → Harmless (after_sign s) → Harmless s
after_sign-Harmless [] h = tt
after_sign-Harmless (c ∷ s) h = elim (Bool-cases (c == b'+' || c == b'-')) [
  | inl sign ↦ (ground arith, rw sign at h)
  | inr other ↦ rw other at h
]

exponent_or_end-Harmless : (s : Bytes) → exponent_or_end s ≡ true → Harmless s
unfolding exponent_or_end
exponent_or_end-Harmless [] e = tt
exponent_or_end-Harmless (c ∷ s) e =
    (ground arith, after_sign-Harmless s (some_digits-Harmless (after_sign s) (ground arith)))

fraction_or_end-Harmless : (s : Bytes) → fraction_or_end s ≡ true → Harmless s
unfolding fraction_or_end
fraction_or_end-Harmless [] e = tt
fraction_or_end-Harmless (c ∷ s) e = elim (Bool-cases (c == b'.')) [
  | inl point ↦ (
    ground arith,
    after_digits-Harmless s (exponent_or_end-Harmless (after_digits s) (rw point at e)),
  )
  | inr other ↦ exponent_or_end-Harmless (c ∷ s) (rw other at e)
]

is_mantissa-Harmless : (s : Bytes) → is_mantissa s ≡ true → Harmless s
unfolding is_mantissa
is_mantissa-Harmless [] e = cc
is_mantissa-Harmless (c ∷ s) e = elim (Bool-cases (is_ascii_digit c)) [
  | inl digit ↦ (
    ground arith,
    after_digits-Harmless s (fraction_or_end-Harmless (after_digits s) (rw digit at e)),
  )
  | inr other ↦ (
    ground arith,
    after_digits-Harmless s (exponent_or_end-Harmless (after_digits s) (ground arith)),
  )
]

pub is_numeric_literal-Harmless : (s : Bytes) → is_numeric_literal s ≡ true → Harmless s
unfolding is_numeric_literal
is_numeric_literal-Harmless s e = after_sign-Harmless s (is_mantissa-Harmless (after_sign s) e)

pub bare_number-Inert : (s : Bytes) → Harmless s → s ≢ [] → Inert (bare_number s)
unfolding bare_number Inert
bare_number-Inert [] h filled = absurd (filled refl)
bare_number-Inert (c ∷ s) h filled = elim (Bool-cases (is_minus c)) [
  | inl minus ↦ rw minus ((ground arith, h), refl, λ e. cc)
  | inr plain ↦ rw plain (h, plain, λ e. cc)
]
