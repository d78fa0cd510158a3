-- ===== src/Pipes/Literal/Formats.antt =====
-- pkg/pipes/pipes.go: proofs about the literals of `formatParamValue`.
use wave_house.Prelude.{
  ℕ, [], ◌∷◌, true, false, ◌≢◌, Bool-cases, inl, inr, arith, ok, err, All, none, some, suc, ◌≡◌,
  ltb, ◌/◌, zero, ◌+◌, ◌%◌, Bool, List, Option, Result, ok-injective, refl, if◌then◌else◌, ◌++◌,
}
use mathlib.Core.Path.{subst}
use wave_house.Prelude.Bytes.{Bytes, codes, decimal, decimal_digits, join_texts, joined_rest}
use wave_house.Prelude.Int.{ℤ, pos, negsuc}
use wave_house.Chsql.Scan.{starts_with}
use wave_house.Pipes.Literal.{
  is_minus, bare_number, is_numeric_literal, int_decimal, in_parens, Value, Values, null, text,
  float, bool, int, uint, array, object, nil, cons, ParamError, format_param_value, format_each,
  float_text, listed, also, is_mantissa,
}
use wave_house.Pipes.Literal.Inert.{
  Harmless, Inert, Harmless-append, quote_literal-Inert, is_numeric_literal-Harmless,
  bare_number-Inert,
}

-- Digits, and no minus in front.
abbrev IsDigits : Bytes → Type 0
IsDigits s = Harmless s × (starts_with is_minus s ≡ false)

decimal_digits-IsDigits :
    (fuel n : ℕ) (acc : Bytes) → IsDigits acc → IsDigits (decimal_digits fuel n acc)
unfolding decimal_digits
decimal_digits-IsDigits zero n acc h = h
decimal_digits-IsDigits (suc fuel) n acc h = elim (Bool-cases (ltb n 10)) [
  | inl one ↦ rw one ((ground arith, h.0), ground arith)
  | inr more ↦ rw more (decimal_digits-IsDigits fuel (n / 10) _ ((ground arith, h.0), ground arith))
]

decimal_digits_filled : (fuel n d : ℕ) (acc : Bytes) → decimal_digits fuel n (d ∷ acc) ≢ []
unfolding decimal_digits
decimal_digits_filled zero n d acc e = cc
decimal_digits_filled (suc fuel) n d acc e = elim (Bool-cases (ltb n 10)) [
  | inl one ↦ absurd (cc (rw (decimal_digits, one) at e))
  | inr more ↦
      decimal_digits_filled fuel (n / 10) (b'0' + n % 10) (d ∷ acc) (rw (decimal_digits, more) at e)
]

first_digit_filled : (fuel n : ℕ) → decimal_digits (suc fuel) n [] ≢ []
unfolding decimal_digits
first_digit_filled fuel n e = elim (Bool-cases (ltb n 10)) [
  | inl one ↦ absurd (cc (rw (decimal_digits, one) at e))
  | inr more ↦
      decimal_digits_filled fuel (n / 10) (b'0' + n % 10) [] (rw (decimal_digits, more) at e)
]

decimal_filled : (n : ℕ) → decimal n ≢ []
unfolding decimal
decimal_filled n =
    subst (λ fuel. decimal_digits fuel n [] ≢ []) (omega arith) (first_digit_filled n n)

decimal-Inert : (n : ℕ) → Inert (decimal n)
unfolding Inert decimal
decimal-Inert n =
    let digits : IsDigits (decimal n) = decimal_digits-IsDigits (n + 1) n [] (tt, refl) in
    (digits.0, digits.1, decimal_filled n)

Inert-Harmless : (s : Bytes) → Inert s → Harmless s
unfolding Inert
Inert-Harmless s h = h.0

int_decimal-Inert : (n : ℤ) → Inert (bare_number (int_decimal n))
unfolding int_decimal
int_decimal-Inert (pos n) =
    bare_number-Inert (decimal n) (Inert-Harmless (decimal n) (decimal-Inert n)) (decimal_filled n)
int_decimal-Inert (negsuc n) =
    bare_number-Inert (b'-' ∷ decimal (n + 1))
      (omega arith, Inert-Harmless (decimal (n + 1)) (decimal-Inert (n + 1))) (λ e. cc)

joined_rest-Harmless :
    (sep : Bytes) (texts : List Bytes)
    → Harmless sep
    → All Inert texts
    → Harmless (joined_rest sep texts)
joined_rest-Harmless sep [] h k = tt
joined_rest-Harmless sep (s ∷ texts) h k = Harmless-append sep (s ++ joined_rest sep texts) h (
    Harmless-append s (joined_rest sep texts) (Inert-Harmless s k.0)
      (joined_rest-Harmless sep texts h k.1))

join_texts-Harmless :
    (sep : Bytes) (texts : List Bytes)
    → Harmless sep
    → All Inert texts
    → Harmless (join_texts sep texts)
unfolding join_texts
join_texts-Harmless sep [] h k = tt
join_texts-Harmless sep (s ∷ texts) h k =
    Harmless-append s (joined_rest sep texts) (Inert-Harmless s k.0)
      (joined_rest-Harmless sep texts h k.1)

pub in_parens-Inert : (texts : List Bytes) → All Inert texts → Inert (in_parens texts)
unfolding Inert
in_parens-Inert texts h = (
  (
    ground arith,
    Harmless-append (join_texts (codes ", ") texts) (b')' ∷ [])
        (join_texts-Harmless (codes ", ") texts (ground arith) h) (ground arith),
  ),
  refl,
  λ e. cc,
)

-- The `%g` texts of floats, which are never empty, hold none of the bytes that are escaped.
unfoldable mutual
  pub HasFloatTexts : Value → Type 0
  HasFloatTexts (float whole general) = Harmless general × (general ≢ [])
  HasFloatTexts (array vs) = HaveFloatTexts vs
  HasFloatTexts null = Unit
  HasFloatTexts (text s) = Unit
  HasFloatTexts (bool b) = Unit
  HasFloatTexts (int n) = Unit
  HasFloatTexts (uint n) = Unit
  HasFloatTexts object = Unit

  pub HaveFloatTexts : Values → Type 0
  HaveFloatTexts nil = Unit
  HaveFloatTexts (cons v vs) = HasFloatTexts v × HaveFloatTexts vs

numeric_filled : (s : Bytes) → is_numeric_literal s ≡ true → s ≢ []
unfolding is_numeric_literal is_mantissa
numeric_filled [] e f = cc
numeric_filled (c ∷ s) e f = cc

null-Inert : Inert (codes "NULL")
unfolding Inert
null-Inert = (ground arith, refl, λ e. cc)

bool-Inert : (b : Bool) → Inert (if b then codes "1" else codes "0")
unfolding Inert
bool-Inert true = (ground arith, refl, λ e. cc)
bool-Inert false = (ground arith, refl, λ e. cc)

text-Inert : (s lit : Bytes) → format_param_value (text s) ≡ ok lit → Inert lit
unfolding format_param_value
text-Inert s lit e = elim (Bool-cases (is_numeric_literal s)) [
  | inl numeric ↦
      subst Inert (ok-injective _ _ _ refl (rw (format_param_value, numeric) at e))
        (bare_number-Inert s (is_numeric_literal-Harmless s numeric) (numeric_filled s numeric))
  | inr quoted ↦
      subst Inert (ok-injective _ _ _ refl (rw (format_param_value, quoted) at e))
        (quote_literal-Inert s)
]

float-Inert :
    (whole : Option ℤ) (general : Bytes)
    → Harmless general
    → general ≢ []
    → Inert (float_text whole general)
float-Inert none general h filled = bare_number-Inert general h filled
float-Inert (some n) general h filled = int_decimal-Inert n

listed-Inert :
    (r : Result ParamError (List Bytes)) (lit : Bytes)
    → ((texts : List Bytes) → r ≡ ok texts → All Inert texts)
    → listed r ≡ ok lit
    → Inert lit
listed-Inert (err why) lit h e = absurd (cc e)
listed-Inert (ok texts) lit h e =
    subst Inert (ok-injective _ _ _ refl e) (in_parens-Inert texts (h texts refl))

also-Inert :
    (m : Result ParamError Bytes) (r : Result ParamError (List Bytes)) (texts : List Bytes)
    → ((lit : Bytes) → m ≡ ok lit → Inert lit)
    → ((rest : List Bytes) → r ≡ ok rest → All Inert rest)
    → also m r ≡ ok texts
    → All Inert texts
also-Inert (err why) r texts h k e = absurd (cc e)
also-Inert (ok s) (err why) texts h k e = absurd (cc e)
also-Inert (ok s) (ok rest) texts h k e =
    subst (All Inert) (ok-injective _ _ _ refl e) (h s refl, k rest refl)

mutual
  unfolding format_param_value HasFloatTexts

  value-Inert :
      (v : Value) (lit : Bytes) → HasFloatTexts v → format_param_value v ≡ ok lit → Inert lit
  value-Inert null lit h e = subst Inert (ok-injective _ _ _ refl e) null-Inert
  value-Inert (text s) lit h e = text-Inert s lit e
  value-Inert (float whole general) lit h e =
      subst Inert (ok-injective _ _ _ refl e) (float-Inert whole general h.0 h.1)
  value-Inert (bool b) lit h e = subst Inert (ok-injective _ _ _ refl e) (bool-Inert b)
  value-Inert (int n) lit h e = subst Inert (ok-injective _ _ _ refl e) (int_decimal-Inert n)
  value-Inert (uint n) lit h e = subst Inert (ok-injective _ _ _ refl e) (decimal-Inert n)
  value-Inert (array nil) lit h e = absurd (cc e)
  value-Inert (array (cons v vs)) lit h e =
      listed-Inert (format_each (cons v vs)) lit (λ texts f. each-Inert (cons v vs) texts h f) e
  value-Inert object lit h e = absurd (cc e)

  each-Inert :
      (vs : Values) (texts : List Bytes)
      → HaveFloatTexts vs
      → format_each vs ≡ ok texts
      → All Inert texts
  each-Inert nil texts h e = subst (All Inert) (ok-injective _ _ _ refl e) tt
  each-Inert (cons v vs) texts h e =
      also-Inert (format_param_value v) (format_each vs) texts (λ lit f. value-Inert v lit h.0 f)
        (λ rest f. each-Inert vs rest h.1 f) e

-- The literal of a value is not empty, does not begin with a minus, and holds no newline, carriage
-- return, `*` or `$`, where the `%g` texts of the value's floats hold none and are not empty.
pub format_param_value-Inert :
    (v : Value) (lit : Bytes) → HasFloatTexts v → format_param_value v ≡ ok lit → Inert lit
format_param_value-Inert v lit h e = value-Inert v lit h e
