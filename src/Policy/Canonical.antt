-- ===== src/Policy/Canonical.antt =====
-- pkg/policy/canonical.go: the one canonical text of a scalar that is compared or bound.
use wave_house.Prelude.Int.{ℤ, negsuc, ◌-ℤ◌, pos, sub_ℕ, ◌+ℤ◌, pos_part}
use mathlib.Core.Option.{Option, none, some}
use mathlib.Core.Option
use wave_house.Prelude.{
  ℕ, Bool, Option, [], take, ◌+◌, ◌∷◌, false, if◌then◌else◌, leb, none, some, suc, true, ◌*◌, ◌++◌,
  all, drop, ltb, zero, ◌&&◌, ◌-◌, ◌==◌, is_empty, length,
}
use wave_house.Prelude.Bytes.{Bytes, codes, cut}
use wave_house.Policy.Values.{Json, null, bool, number, str, arr, obj}

abbrev pub max_canonical_digits : ℕ
max_canonical_digits = 100

abbrev pub max_numeric_operand_chars : ℕ
max_numeric_operand_chars = max_canonical_digits + 4

abbrev pub minus : ℕ
minus = 45

abbrev pub point_byte : ℕ
point_byte = 46

unfoldable pub is_digit : ℕ → Bool
is_digit c = leb b'0' c && leb c b'9'

-- The loop that counts digits.
unfoldable pub count_digits : Bytes → ℕ
count_digits [] = 0
count_digits (c ∷ s) = (if is_digit c then 1 else 0) + count_digits s

unfoldable pub strip_zeros : Bytes → Bytes
strip_zeros [] = []
strip_zeros (c ∷ s) = let rest = strip_zeros s in if c == b'0' then rest else c ∷ s

-- The text without its last byte where that is a zero, again and again.
unfoldable pub strip_last_zeros : Bytes → Bytes
strip_last_zeros [] = []
strip_last_zeros (c ∷ s) =
    let rest = strip_last_zeros s in if c == b'0' && is_empty rest then [] else c ∷ rest

abbrev pub signed : Bool → Bytes → Bytes
signed true s = minus ∷ s
signed false s = s

-- The decimal text of the integer that these digits spell: zero has no sign.
abbrev pub int_text : Bool → Bytes → Bytes
int_text negative [] = b'0' ∷ []
int_text negative (c ∷ s) = signed negative (c ∷ s)

unfoldable pub int_digits : Bool → Bytes → Option Bytes
int_digits negative [] = none
int_digits negative (c ∷ s) =
    if all is_digit (c ∷ s) then some (int_text negative (strip_zeros (c ∷ s))) else none

-- big.Int.SetString in base 10, and String of what it read: an optional sign, then digits.
unfoldable pub int_literal : Bytes → Option Bytes
int_literal [] = none
int_literal (c ∷ s) =
    if c == minus
    then int_digits true s
    else if c == b'+'
    then int_digits false s
    else int_digits false (c ∷ s)

-- strings.Cut, as the pair of texts and whether the byte was there.
abbrev pub cut_or : ℕ → Bytes → Bytes × Bytes × Bool
cut_or sep s = elim (cut sep s) [ none ↦ (s, [], false) | some (a, b) ↦ (a, b, true) ]

unfoldable pub digits_value : ℕ → Bytes → ℕ
digits_value n [] = n
digits_value n (c ∷ s) = digits_value (n * 10 + (c - b'0')) s

-- strconv.Atoi and the bound of 2 * maxCanonicalDigits on its magnitude. A value past an int's
-- range, which Atoi refuses, is past the bound too.
abbrev pub bounded_exp : Bool → Bytes → Option ℤ
bounded_exp negative [] = none
bounded_exp negative (c ∷ s) =
    if all is_digit (c ∷ s) && leb (digits_value 0 (c ∷ s)) (2 * max_canonical_digits)
    then some (if negative then sub_ℕ 0 (digits_value 0 (c ∷ s)) else pos (digits_value 0 (c ∷ s)))
    else none

unfoldable pub parse_exp : Bytes → Option ℤ
parse_exp [] = none
parse_exp (c ∷ s) =
    if c == minus
    then bounded_exp true s
    else if c == b'+'
    then bounded_exp false s
    else bounded_exp false (c ∷ s)

-- The mantissa and the exponent of a literal; no exponent is 0.
abbrev pub split_exp : Bytes → Option (Bytes × ℤ)
split_exp lit = elim (cut b'e' lit) [
  | some (m, e) ↦ Option.map (λ x. (m, x)) (parse_exp e)
  | none ↦ elim (cut b'E' lit) [
    | some (m, e) ↦ Option.map (λ x. (m, x)) (parse_exp e)
    | none ↦ some (lit, pos 0)
  ]
]

abbrev pub split_sign : Bytes → Bool × Bytes
split_sign [] = (false, [])
split_sign (c ∷ s) = if c == minus then (true, s) else (false, c ∷ s)

abbrev pub zeros : ℕ → Bytes
zeros zero = []
zeros (suc n) = b'0' ∷ zeros n

-- The loop that drops leading zeros, and moves the point along.
unfoldable pub drop_leading : Bytes → ℤ → Bytes × ℤ
drop_leading [] point = ([], point)
drop_leading (c ∷ s) point =
    let rest = drop_leading s (point -ℤ pos 1) in if c == b'0' then rest else (c ∷ s, point)

-- The loop that drops trailing zeros behind the point: with `k` digits left of the point (none if
-- it is negative), the zeros at the end of the rest.
unfoldable pub drop_trailing : ℕ → Bytes → Bytes
drop_trailing k ds = take k ds ++ strip_last_zeros (drop k ds)

-- The `switch` that writes the digits around the point.
unfoldable pub place_point : Bytes → ℤ → Bytes
place_point ds (negsuc n) = codes "0." ++ (zeros (n + 1) ++ ds)
place_point ds (pos n) =
    if n == 0
    then codes "0." ++ ds
    else if leb (length ds) n
    then ds ++ zeros (n - length ds)
    else take n ds ++ point_byte ∷ drop n ds

abbrev pub within_bound : Bool → Bytes → Option Bytes
within_bound negative out =
    if ltb (max_canonical_digits + 2) (length out) then none else some (signed negative out)

abbrev pub finish_decimal : Bool → Bytes → ℤ → Option Bytes
finish_decimal negative [] point = some (b'0' ∷ [])
finish_decimal negative (d ∷ ds) point = within_bound negative (place_point (d ∷ ds) point)

-- The digits and the place of the point, once the exponent is applied.
unfoldable pub decimal_of : Bool → Bytes → Bytes → ℤ → Option Bytes
decimal_of negative int_part frac_part exp =
    let digits = int_part ++ frac_part in
    let (ds, point) = drop_leading digits (pos (length int_part) +ℤ exp) in
    if is_empty digits
    then none
    else if all is_digit digits
    then finish_decimal negative (drop_trailing (pos_part point) ds) point
    else none

unfoldable pub canonical_decimal : Bytes → Option Bytes
canonical_decimal lit = elim (split_exp lit) [
  | none ↦ none
  | some (m, exp) ↦
      let (negative, mant) = split_sign m in
      let (int_part, frac_part, _) = cut_or point_byte mant in
      decimal_of negative int_part frac_part exp
]

abbrev pub or_else : Option Bytes → Option Bytes → Option Bytes
or_else none b = b
or_else (some a) b = some a

-- The json.Number case of `CanonicalScalar`.
unfoldable pub canonical_number : Bytes → Option Bytes
canonical_number lit =
    if ltb max_canonical_digits (count_digits lit)
    then none
    else or_else (int_literal lit) (canonical_decimal lit)

abbrev pub bool_text : Bool → Bytes
bool_text true = codes "true"
bool_text false = codes "false"

unfoldable pub canonical_scalar : Json → Option Bytes
canonical_scalar null = none
canonical_scalar (bool b) = some (bool_text b)
canonical_scalar (number lit) = canonical_number lit
canonical_scalar (str s) = some s
canonical_scalar (arr vs) = none
canonical_scalar (obj fs) = none
