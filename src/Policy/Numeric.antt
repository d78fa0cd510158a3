-- ===== src/Policy/Numeric.antt =====
-- pkg/policy/numeric.go: canonical decimal forms compared in the domain of the column that stores
-- them. `parse_float` is strconv.ParseFloat at a bit width that it knows: it answers the place of the
-- value in the order of the floats, or none on overflow. A scale is not negative where it truncates:
-- `decimal_in_precision` has passed before.
pub mod Integers
use wave_house.Prelude.Int.{ℤ, pos, pos_part, ltb_ℤ, ◌-ℤ◌}
use wave_house.Prelude.{
  ℕ, Bool, Option, [], ◌∷◌, ◌++◌, true, false, none, some, if◌then◌else◌, ◌||◌, ◌==◌, ltb, leb, ◌-◌,
  length, take, any, not, ◌&&◌, ◌^◌,
}
use wave_house.Prelude.Bytes.{Bytes, codes, bytes_eq, decimal_digits}
use wave_house.Policy.Canonical.{minus, point_byte, cut_or, strip_last_zeros}

-- The sign of Go's three-way comparisons.
pub data Order : Type 0 where
  less same greater : Order

abbrev pub flip : Order → Order
flip less = greater
flip same = same
flip greater = less

-- strings.Compare
unfoldable pub compare_text : Bytes → Bytes → Order
compare_text [] [] = same
compare_text [] (b ∷ t) = less
compare_text (a ∷ s) [] = greater
compare_text (a ∷ s) (b ∷ t) =
    let rest = compare_text s t in if ltb a b then less else if ltb b a then greater else rest

abbrev pub first_of : Order → Order → Order
first_of same o = o
first_of less o = less
first_of greater o = greater

unfoldable pub compare_canonical_magnitudes : Bytes → Bytes → Order
compare_canonical_magnitudes a b =
    let (ai, af, _) = cut_or point_byte a in
    let (bi, bf, _) = cut_or point_byte b in
    if length ai == length bi
    then first_of (compare_text ai bi) (compare_text af bf)
    else if ltb (length ai) (length bi)
    then less
    else greater

-- The digits after a leading minus, if there is one.
abbrev pub negated : Bytes → Option Bytes
negated [] = none
negated (c ∷ s) = if c == minus then some s else none

abbrev pub compare_signs : Bytes → Bytes → Option Bytes → Option Bytes → Order
compare_signs a b (some x) none = less
compare_signs a b none (some y) = greater
compare_signs a b (some x) (some y) = flip (compare_canonical_magnitudes x y)
compare_signs a b none none = compare_canonical_magnitudes a b

unfoldable pub compare_canonical_decimals : Bytes → Bytes → Order
compare_canonical_decimals a b =
    if bytes_eq a b then same else compare_signs a b (negated a) (negated b)

pub data NumericFamily : Type 0 where
  no_family integers floats decimals : NumericFamily

pub record NumericSpec : Type 0 where
  pub family : NumericFamily
  pub bits : ℕ
  pub unsigned : Bool
  pub precision : ℤ
  pub scale : ℤ

abbrev pub rejoined : Bytes → Bytes → Bytes
rejoined int_part [] = if bytes_eq int_part (codes "-0") then codes "0" else int_part
rejoined int_part (d ∷ frac) = int_part ++ (point_byte ∷ d ∷ frac)

abbrev pub truncated : Bytes → ℕ → Bytes × Bytes × Bool → Bytes
truncated canonical scale (int_part, frac, false) = canonical
truncated canonical scale (int_part, frac, true) =
    rejoined int_part (strip_last_zeros (take scale frac))

unfoldable pub truncate_scale : Bytes → ℕ → Bytes
truncate_scale canonical scale = truncated canonical scale (cut_or point_byte canonical)

abbrev pub unsigned_text : Bytes → Bytes
unsigned_text [] = []
unsigned_text (c ∷ s) = if c == minus then s else c ∷ s

unfoldable pub decimal_in_precision : NumericSpec → Bytes → Bool
decimal_in_precision n c =
    let (int_part, _, _) = cut_or point_byte (unsigned_text c) in
    let digits = if bytes_eq int_part (codes "0") then 0 else length int_part in
    if ltb_ℤ n.precision (pos 1) || (ltb_ℤ n.scale (pos 0) || ltb_ℤ n.precision n.scale)
    then false
    else not (ltb_ℤ (n.precision -ℤ n.scale) (pos digits))

-- The integer widths that ClickHouse has.
unfoldable pub known_width : ℕ → Bool
known_width bits =
    bits == 8 || (bits == 16 || (bits == 32 || (bits == 64 || (bits == 128 || bits == 256))))

-- A bound of `intBounds` in decimal digits: 2^256 has fewer than 80.
abbrev pub bound_text : ℕ → Bytes
bound_text n = decimal_digits 80 n []

abbrev pub at_least : Order → Bool
at_least less = false
at_least same = true
at_least greater = true

abbrev pub in_bounds : (low high c : Bytes) → Bool
in_bounds low high c =
    at_least (compare_canonical_decimals c low) && at_least (compare_canonical_decimals high c)

unfoldable pub integer_in_range : NumericSpec → Bytes → Bool
integer_in_range n c =
    if not (known_width n.bits)
    then false
    else if n.unsigned
    then in_bounds (codes "0") (bound_text (2 ^ n.bits - 1)) c
    else in_bounds (minus ∷ bound_text (2 ^ (n.bits - 1))) (bound_text (2 ^ (n.bits - 1) - 1)) c

abbrev pub has_point : Bytes → Bool
has_point s = any (λ c. c == point_byte) s

module _ (parse_float : ℕ → Bytes → Option ℤ) where
  unfoldable pub narrow_float : Bytes → ℕ → Option ℤ
  narrow_float canonical bits =
      if not (bits == 32) && not (bits == 64) then none else parse_float bits canonical

  abbrev pub compare_floats : Option ℤ → Option ℤ → Option Order
  compare_floats none y = none
  compare_floats (some x) none = none
  compare_floats (some x) (some y) =
      some (if ltb_ℤ x y then less else if ltb_ℤ y x then greater else same)

  abbrev pub compare_in : NumericFamily → NumericSpec → Bytes → Bytes → Option Order
  compare_in no_family n a b = none
  compare_in integers n a b =
      if has_point a || has_point b
      then none
      else if not (integer_in_range n a) || not (integer_in_range n b)
      then none
      else some (compare_canonical_decimals a b)
  compare_in floats n a b = compare_floats (narrow_float a n.bits) (narrow_float b n.bits)
  compare_in decimals n a b =
      if not (decimal_in_precision n a) || not (decimal_in_precision n b)
      then none
      else some (
          compare_canonical_decimals (truncate_scale a (pos_part n.scale))
            (truncate_scale b (pos_part n.scale)))

  -- `NumericSpec.compare`
  unfoldable pub compare_numeric : NumericSpec → Bytes → Bytes → Option Order
  compare_numeric n a b = compare_in n.family n a b
