-- ===== src/Chsql/Scan.antt =====
-- pkg/chsql/scan.go: how the scanner steps over one token of SQL text. An index of the source is
-- here the text from that index on, so `len(s)` is the empty text; a function that answers the
-- index it got, where nothing of its kind starts, answers `none`.
pub mod Laws
pub mod Quoted
use wave_house.Prelude.{
  ℕ, Bool, Option, ◌∷◌, [], false, if◌then◌else◌, leb, none, some, ◌==◌, true, ◌&&◌, ◌++◌, ◌||◌,
  ◌+◌, ◌-◌,
}
use wave_house.Prelude.Bytes.{Bytes, codes, cut_prefix}

unfoldable pub is_digit : ℕ → Bool
is_digit c = leb b'0' c && leb c b'9'

unfoldable pub is_word_byte : ℕ → Bool
is_word_byte c = leb b'A' c && leb c b'Z' || (leb b'a' c && leb c b'z') || is_digit c || c == b'_'

abbrev pub dollar : ℕ
dollar = b'$'

abbrev pub slash : ℕ
slash = b'/'

abbrev pub star : ℕ
star = b'*'

abbrev pub newline : ℕ
newline = 10

-- `SkipWord`, and the bareword it steps over.
unfoldable pub skip_word : Bytes → Bytes
skip_word [] = []
skip_word (c ∷ s) = let rest = skip_word s in if is_word_byte c || c == dollar then rest else c ∷ s

unfoldable pub bareword : Bytes → Bytes
bareword [] = []
bareword (c ∷ s) = let more = bareword s in if is_word_byte c || c == dollar then c ∷ more else []

abbrev pub starts_with : (ℕ → Bool) → Bytes → Bool
starts_with test [] = false
starts_with test (c ∷ s) = test c

-- `skipDigits`: `last` is the byte before the text, which an underscore looks back at.
unfoldable pub skip_digits : ℕ → Bytes → Bytes
skip_digits last [] = []
skip_digits last (c ∷ s) =
    let rest = skip_digits c s in
    if is_digit c || c == b'_' && is_digit last && starts_with is_digit s then rest else c ∷ s

abbrev pub is_sign : ℕ → Bool
is_sign c = c == b'+' || c == b'-'

unfoldable pub skip_power : ℕ → Bytes → Bytes
skip_power last [] = []
skip_power last (c ∷ s) = if is_sign c then skip_digits c s else skip_digits last (c ∷ s)

unfoldable pub skip_exponent : Bytes → Bytes
skip_exponent [] = []
skip_exponent (c ∷ s) = if c == b'e' || c == b'E' then skip_power c s else c ∷ s

-- `skipDotNumber`, on the text after its point.
unfoldable pub skip_dot_number : Bytes → Bytes
skip_dot_number s = skip_exponent (skip_digits b'.' s)

abbrev pub earlier : Option Bytes → Option Bytes → Option Bytes
earlier none o = o
earlier (some s) o = some s

-- The text after the first occurrence of `p`: strings.Index with the length added.
unfoldable pub after_first : Bytes → Bytes → Option Bytes
after_first p [] = cut_prefix p []
after_first p (c ∷ s) = earlier (cut_prefix p (c ∷ s)) (after_first p s)

abbrev pub or_end : Option Bytes → Bytes
or_end none = []
or_end (some s) = s

-- The tag of a heredoc: the loop of `skipHeredoc`, over word bytes only.
unfoldable pub tag_word : Bytes → Bytes
tag_word [] = []
tag_word (c ∷ s) = let more = tag_word s in if is_word_byte c then c ∷ more else []

unfoldable pub after_tag : Bytes → Bytes
after_tag [] = []
after_tag (c ∷ s) = let rest = after_tag s in if is_word_byte c then rest else c ∷ s

abbrev pub heredoc_body : Bytes → Bytes → Option Bytes
heredoc_body tag [] = none
heredoc_body tag (c ∷ body) =
    if c == dollar then after_first (dollar ∷ (tag ++ dollar ∷ [])) body else none

-- `skipHeredoc`, on the text after its first `$`.
unfoldable pub skip_heredoc : Bytes → Option Bytes
skip_heredoc s = heredoc_body (tag_word s) (after_tag s)

-- The quotes of a word processor: ‘ ’ “ ” in UTF-8.
abbrev pub curly : ℕ → Bytes
curly last = 0xE2 ∷ 0x80 ∷ last ∷ []

abbrev pub curly_body : ℕ → Option Bytes → Option Bytes
curly_body closer none = none
curly_body closer (some body) = some (or_end (after_first (curly closer) body))

unfoldable pub skip_curly_quoted : Bytes → Option Bytes
skip_curly_quoted s =
    earlier (curly_body 0x99 (cut_prefix (curly 0x98) s))
      (curly_body 0x9D (cut_prefix (curly 0x9C) s))

-- `skipQuoted`, on the text after the opening quote `q`.
unfoldable pub skip_quoted : ℕ → Bytes → Bytes
skip_quoted q [] = []
skip_quoted q (c ∷ []) = []
skip_quoted q (c ∷ d ∷ s) = elim (c == b'\\') [
  | true ↦ skip_quoted q s
  | false ↦ elim (c == q) [
    | true ↦ elim (d == q) [ true ↦ skip_quoted q s | false ↦ d ∷ s ]
    | false ↦ skip_quoted q (d ∷ s)
  ]
]

-- The loop of `skipComment` over a block comment. At depth 0 it stands at the opening only.
unfoldable pub skip_block : ℕ → Bytes → Bytes
skip_block depth [] = []
skip_block depth (c ∷ []) = []
skip_block depth (c ∷ d ∷ s) = elim (c == slash && d == star) [
  | true ↦ skip_block (depth + 1) s
  | false ↦ elim (c == star && d == slash) [
    | true ↦ elim (leb depth 1) [ true ↦ s | false ↦ skip_block (depth - 1) s ]
    | false ↦ skip_block depth (d ∷ s)
  ]
]

abbrev pub starts : Bytes → Bytes → Bool
starts p s = elim (cut_prefix p s) [ none ↦ false | some t ↦ true ]

unfoldable pub skip_comment : Bytes → Option Bytes
skip_comment s =
    if starts (codes "--") s || starts (codes "//") s || starts_with (λ c. c == b'#') s
    then some (or_end (after_first (newline ∷ []) s))
    else if starts (codes "/*") s
    then some (skip_block 0 s)
    else none

abbrev pub is_quote : ℕ → Bool
is_quote c = c == b'\'' || c == b'"' || c == b'`'

abbrev pub opens_comment : ℕ → Bytes → Bool
opens_comment c s =
    c == b'-' && starts_with (λ d. d == b'-') s
    || c == b'#'
    || c == slash && starts_with (λ d. d == star || d == slash) s
