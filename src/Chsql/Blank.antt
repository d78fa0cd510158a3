-- ===== src/Chsql/Blank.antt =====
-- pkg/chsql/scan.go: the whitespace and comments in front of a token.
pub mod Laws
use wave_house.Prelude.{
  ℕ, Bool, Option, if◌then◌else◌, length, suc, ◌∷◌, leb, ltb, ◌==◌, [], some, ◌&&◌, ◌||◌, drop, ◌-◌,
  ◌*◌, ◌+◌, zero,
}
use wave_house.Prelude.Bytes.{Bytes}
use mathlib.Core.Option.{Option, none, some}
use wave_house.Chsql.Scan.{skip_comment}

abbrev pub is_continuation : ℕ → Bool
is_continuation c = leb 0x80 c && leb c 0xBF

-- The second byte that Go's decoder takes after `c` of a rune of three or four bytes.
abbrev pub second_ok : ℕ → ℕ → Bool
second_ok c d =
    if c == 0xE0
    then leb 0xA0 d && leb d 0xBF
    else if c == 0xED
    then leb 0x80 d && leb d 0x9F
    else if c == 0xF0
    then leb 0x90 d && leb d 0xBF
    else if c == 0xF4
    then leb 0x80 d && leb d 0x8F
    else is_continuation d

-- utf8.DecodeRuneInString on a text whose first byte is not ASCII; an invalid one is U+FFFD.
unfoldable pub decode_rune : Bytes → ℕ × ℕ
decode_rune (c ∷ d ∷ e ∷ f ∷ s) =
    if leb 0xC2 c && leb c 0xDF && is_continuation d
    then ((c - 0xC0) * 0x40 + (d - 0x80), 2)
    else if leb 0xE0 c && leb c 0xEF && second_ok c d && is_continuation e
    then ((c - 0xE0) * 0x1000 + (d - 0x80) * 0x40 + (e - 0x80), 3)
    else if leb 0xF0 c && leb c 0xF4 && second_ok c d && is_continuation e && is_continuation f
    then ((c - 0xF0) * 0x40000 + (d - 0x80) * 0x1000 + (e - 0x80) * 0x40 + (f - 0x80), 4)
    else (0xFFFD, 1)
decode_rune (c ∷ d ∷ e ∷ []) =
    if leb 0xC2 c && leb c 0xDF && is_continuation d
    then ((c - 0xC0) * 0x40 + (d - 0x80), 2)
    else if leb 0xE0 c && leb c 0xEF && second_ok c d && is_continuation e
    then ((c - 0xE0) * 0x1000 + (d - 0x80) * 0x40 + (e - 0x80), 3)
    else (0xFFFD, 1)
decode_rune (c ∷ d ∷ []) =
    if leb 0xC2 c && leb c 0xDF && is_continuation d
    then ((c - 0xC0) * 0x40 + (d - 0x80), 2)
    else (0xFFFD, 1)
decode_rune s = (0xFFFD, 1)

unfoldable pub is_space_rune : ℕ → Bool
is_space_rune r =
    r == 0x85
    || r == 0xA0
    || r == 0x180E
    || (leb 0x2000 r && leb r 0x200D)
    || r == 0x2028
    || r == 0x2029
    || r == 0x202F
    || r == 0x205F
    || r == 0x2060
    || r == 0x3000
    || r == 0xFEFF

unfoldable pub is_ascii_space : ℕ → Bool
is_ascii_space c = c == 32 || (leb 9 c && leb c 13)

abbrev pub rune_space : ℕ × ℕ → ℕ
rune_space r = if is_space_rune r.0 then r.1 else 0

-- `sqlSpaceLen`: the source calls it inside the text only.
unfoldable pub sql_space_len : Bytes → ℕ
sql_space_len [] = 0
sql_space_len (c ∷ s) =
    if is_ascii_space c then 1 else if ltb c 0x80 then 0 else rune_space (decode_rune (c ∷ s))

-- One round of the loop of `skipSpaceAndComments`: the text after a space or a comment.
unfoldable pub skip_one : Bytes → Option Bytes
skip_one s = if ltb 0 (sql_space_len s) then some (drop (sql_space_len s) s) else skip_comment s

-- The loop: each round takes at least a byte, so the text's length is enough fuel.
unfoldable pub skip_blank : ℕ → Bytes → Bytes
skip_blank zero s = s
skip_blank (suc fuel) [] = []
skip_blank (suc fuel) (c ∷ s) = elim (skip_one (c ∷ s)) [
  | none ↦ c ∷ s
  | some rest ↦ skip_blank fuel rest
]

unfoldable pub skip_space_and_comments : Bytes → Bytes
skip_space_and_comments s = skip_blank (length s) s

-- `StripLeadingComments`.
unfoldable pub strip_leading_comments : Bytes → Bytes
strip_leading_comments s = skip_space_and_comments s
