-- ===== src/Policy/RowFilter.antt =====
-- pkg/policy/rowfilter.go: the row filter evaluated in memory, on a decoded event.
-- json.Valid, strconv.ParseFloat and a column's ParseTime are parameters; an instant is its place in
-- time. A column that the map does not know has the zero `ColumnSpec`, which is opaque. A decoded
-- event holds no float64: the stream decodes with UseNumber.
pub mod Closed
pub mod Unresolved
pub mod Laws
use wave_house.Prelude.{
  ℕ, Bool, List, Option, false, if◌then◌else◌, ltb, some, true, ◌∷◌, [], length, none, not, ◌&&◌,
  ◌||◌, is_empty,
}
use wave_house.Prelude.Bytes.{Bytes, bytes_eq, lookup}
use wave_house.Prelude.Int.{ℤ, ltb_ℤ}
use wave_house.Policy.Values.{Json, null, bool, number, str, arr, obj}
use wave_house.Policy.Types.{Op, ResolvedPredicate, ResolvedSelect, ResolvedPermissions}
use wave_house.Policy.Canonical.{max_numeric_operand_chars, canonical_number, bool_text}
use wave_house.Policy.Numeric.{
  Order, less, same, greater, compare_text, NumericSpec, integers, NumericFamily, compare_numeric,
}

abbrev pub max_time_operand_chars : ℕ
max_time_operand_chars = 64

-- The kinds of columns; a time column carries its parser, where it has one, a number column its model.
pub data ColumnSpec : Type 0 where
  opaque : ColumnSpec
  numeric : NumericSpec → ColumnSpec
  text : ColumnSpec
  time : Option (Json → Option ℤ) → ColumnSpec

-- The two maps: the event and the column specs.
abbrev pub Row : Type 0
Row = List (Bytes × Json)

abbrev pub Columns : Type 0
Columns = List (Bytes × ColumnSpec)

abbrev pub spec_or_opaque : Option ColumnSpec → ColumnSpec
spec_or_opaque none = opaque
spec_or_opaque (some spec) = spec

unfoldable pub scalar_string : Json → Option Bytes
scalar_string (str s) = some s
scalar_string (number n) = some n
scalar_string (bool b) = some (bool_text b)
scalar_string null = none
scalar_string (arr vs) = none
scalar_string (obj fs) = none

-- The length gate of a payload timestamp.
abbrev pub too_long_time : Json → Bool
too_long_time (str s) = ltb max_time_operand_chars (length s)
too_long_time (number n) = ltb max_time_operand_chars (length n)
too_long_time _ = false

abbrev pub compare_instants : Option ℤ → Option ℤ → Option Order
compare_instants none b = none
compare_instants (some a) none = none
compare_instants (some a) (some b) =
    some (if ltb_ℤ a b then less else if ltb_ℤ b a then greater else same)

unfoldable pub compare_time : Option (Json → Option ℤ) → Json → Bytes → Option Order
compare_time none row_val filter_val = none
compare_time (some parse_time) row_val filter_val =
    if too_long_time row_val || ltb max_time_operand_chars (length filter_val)
    then none
    else compare_instants (parse_time row_val) (parse_time (str filter_val))

abbrev pub compare_texts : Option Bytes → Bytes → Option Order
compare_texts none filter_val = none
compare_texts (some s) filter_val = some (compare_text s filter_val)

abbrev pub compare_opaque : Option Bytes → Bytes → Option Order
compare_opaque none filter_val = none
compare_opaque (some s) filter_val = if bytes_eq s filter_val then some same else none

abbrev pub is_integers : NumericFamily → Bool
is_integers integers = true
is_integers _ = false

abbrev pub is_same : Option Order → Bool
is_same (some same) = true
is_same _ = false

abbrev pub is_other : Option Order → Bool
is_other (some less) = true
is_other (some greater) = true
is_other _ = false

abbrev pub is_greater : Option Order → Bool
is_greater (some greater) = true
is_greater _ = false

abbrev pub is_less : Option Order → Bool
is_less (some less) = true
is_less _ = false

module _ (json_valid : Bytes → Bool) (parse_float : ℕ → Bytes → Option ℤ) where
  unfoldable pub canonical_numeric_literal : Bytes → Option Bytes
  canonical_numeric_literal s = if not (json_valid s) then none else canonical_number s

  unfoldable pub numeric_canonical : Json → Option Bytes
  numeric_canonical (str s) =
      if ltb max_numeric_operand_chars (length s) then none else canonical_numeric_literal s
  numeric_canonical (number n) =
      if ltb max_numeric_operand_chars (length n) then none else canonical_number n
  numeric_canonical _ = none

  abbrev pub compare_canonical : NumericSpec → Bytes → Option Bytes → Option Bytes → Option Order
  compare_canonical n filter_val none b = none
  compare_canonical n filter_val (some a) none = none
  compare_canonical n filter_val (some a) (some b) =
      if is_integers n.family && not (bytes_eq b filter_val)
      then none
      else compare_numeric parse_float n a b

  unfoldable pub compare_number : NumericSpec → Json → Bytes → Option Order
  compare_number n row_val filter_val =
      if ltb max_numeric_operand_chars (length filter_val)
      then none
      else compare_canonical n filter_val (numeric_canonical row_val)
          (canonical_numeric_literal filter_val)

  unfoldable pub compare_scalar : Json → Bytes → ColumnSpec → Option Order
  compare_scalar row_val filter_val (time parse_time) = compare_time parse_time row_val filter_val
  compare_scalar row_val filter_val (numeric n) = compare_number n row_val filter_val
  compare_scalar row_val filter_val text = compare_texts (scalar_string row_val) filter_val
  compare_scalar row_val filter_val opaque = compare_opaque (scalar_string row_val) filter_val

  unfoldable pub any_same : Json → List Bytes → ColumnSpec → Bool
  any_same raw [] spec = false
  any_same raw (v ∷ vs) spec =
      let rest = any_same raw vs spec in if is_same (compare_scalar raw v spec) then true else rest

  abbrev pub holds : Op → Json → Bytes → List Bytes → ColumnSpec → Bool
  holds Op.eq raw v vs spec = is_same (compare_scalar raw v spec)
  holds Op.neq raw v vs spec = is_other (compare_scalar raw v spec)
  holds Op.gt raw v vs spec = is_greater (compare_scalar raw v spec)
  holds Op.lt raw v vs spec = is_less (compare_scalar raw v spec)
  holds Op.one_of raw v vs spec = any_same raw (v ∷ vs) spec

  abbrev pub holds_at : Op → Option Json → List Bytes → ColumnSpec → Bool
  holds_at op raw [] spec = false
  holds_at op none (v ∷ vs) spec = false
  holds_at op (some raw) (v ∷ vs) spec = holds op raw v vs spec

  unfoldable pub matches : ResolvedPredicate → Row → ColumnSpec → Bool
  matches pred row spec = holds_at pred.op (lookup pred.column row) pred.values spec

  unfoldable pub all_match : List ResolvedPredicate → Row → Columns → Bool
  all_match [] row cols = true
  all_match (p ∷ ps) row cols =
      let rest = all_match ps row cols in
      if not (matches p row (spec_or_opaque (lookup p.column cols))) then false else rest

  abbrev pub visible_side : Option ResolvedSelect → Row → Columns → Bool
  visible_side none row cols = false
  visible_side (some s) row cols = all_match s.row_filter row cols

  unfoldable pub row_visible : Option ResolvedPermissions → Row → Columns → Bool
  row_visible none row cols = true
  row_visible (some rp) row cols = if not rp.allowed then false else visible_side rp.select row cols

abbrev pub filtered_side : Option ResolvedSelect → Bool
filtered_side none = true
filtered_side (some s) = not (is_empty s.row_filter)

unfoldable pub has_row_filter : Option ResolvedPermissions → Bool
has_row_filter none = false
has_row_filter (some rp) = if not rp.allowed then true else filtered_side rp.select
