-- ===== src/Keyenc.antt =====
-- internal/keyenc/keyenc.go: the escaping of composite keys, and the fields joined and split.
-- A string is its bytes. A panic of the source is an error of its own here.
pub mod Laws
use wave_house.Prelude.{
  ℕ, ◌+◌, ◌/◌, ◌%◌, Bool, true, false, ◌&&◌, ◌||◌, List, [], ◌∷◌, ◌++◌, Result, ok, err, ◌>>=◌, leb,
  ◌==◌, if◌then◌else◌, get_or, all, ◌*◌, ◌-◌,
}
use wave_house.Prelude.Bytes.{Bytes, codes, split_at}

-- `bad_escape` is url.EscapeError; the other two are the panics of `checkSep` and `Join`.
pub data KeyError : Type 0 where
  bad_escape bad_separator no_fields : KeyError

abbrev pub percent : ℕ
percent = 37

unfoldable pub kept : ℕ → Bool
kept b =
    (leb b'a' b && leb b b'z')
    || ((leb b'A' b && leb b b'Z') || ((leb b'0' b && leb b b'9') || (b == b'_' || b == b'-')))

abbrev pub hex_digits : Bytes
hex_digits = codes "0123456789ABCDEF"

unfoldable pub upper_hex : ℕ → ℕ
upper_hex d = get_or hex_digits d 0

-- What one byte of the input appends: itself, or `%XX`.
unfoldable pub escape_byte : ℕ → Bytes
escape_byte b = if kept b then b ∷ [] else percent ∷ upper_hex (b / 16) ∷ upper_hex (b % 16) ∷ []

unfoldable pub append_escape : Bytes → Bytes → Bytes
append_escape dst [] = dst
append_escape dst (b ∷ s) = append_escape (dst ++ escape_byte b) s

-- The loop of `Escape` looks for a byte to escape, and returns the text itself if there is none.
unfoldable pub escape : Bytes → Bytes
escape s = if all kept s then s else append_escape [] s

unfoldable pub is_hex : ℕ → Bool
is_hex c = (leb b'0' c && leb c b'9') || ((leb b'a' c && leb c b'f') || (leb b'A' c && leb c b'F'))

-- Go's `unhex`, on a byte that `is_hex` accepts.
unfoldable pub unhex : ℕ → ℕ
unhex c =
    if leb b'0' c && leb c b'9'
    then c - b'0'
    else if leb b'a' c && leb c b'f'
    then c - b'a' + 10
    else c - b'A' + 10

abbrev pub prepend : ℕ → Result KeyError Bytes → Result KeyError Bytes
prepend c (ok s) = ok (c ∷ s)
prepend c (err e) = err e

-- url.PathUnescape: `%XX` in either case decodes, any other byte is itself.
unfoldable pub unescape : Bytes → Result KeyError Bytes
unescape [] = ok []
unescape (c ∷ []) = if c == percent then err bad_escape else ok (c ∷ [])
unescape (c ∷ h ∷ []) =
    let plain = prepend c (unescape (h ∷ [])) in if c == percent then err bad_escape else plain
unescape (c ∷ h ∷ l ∷ s) =
    let decoded = prepend (unhex h * 16 + unhex l) (unescape s) in
    let plain = prepend c (unescape (h ∷ l ∷ s)) in
    if c == percent then if is_hex h && is_hex l then decoded else err bad_escape else plain

unfoldable pub check_sep : ℕ → Result KeyError (Unit {0})
check_sep sep = if kept sep || (sep == percent || leb 128 sep) then err bad_separator else ok tt

-- The loop of `AppendJoin` after its first field.
unfoldable pub append_fields : Bytes → ℕ → List Bytes → Bytes
append_fields dst sep [] = dst
append_fields dst sep (f ∷ fs) = append_fields (append_escape (dst ++ sep ∷ []) f) sep fs

unfoldable pub join_fields : Bytes → ℕ → List Bytes → Result KeyError Bytes
join_fields dst sep [] = err no_fields
join_fields dst sep (f ∷ fs) = ok (append_fields (append_escape dst f) sep fs)

unfoldable pub append_join : Bytes → ℕ → List Bytes → Result KeyError Bytes
append_join dst sep fields = do _ ← check_sep sep; join_fields dst sep fields

unfoldable pub join : ℕ → List Bytes → Result KeyError Bytes
join sep fields = append_join [] sep fields

unfoldable pub unescape_all : List Bytes → Result KeyError (List Bytes)
unescape_all [] = ok []
unescape_all (p ∷ ps) = do f ← unescape p; fs ← unescape_all ps; ok (f ∷ fs)

unfoldable pub split : Bytes → ℕ → Result KeyError (List Bytes)
split key sep = do _ ← check_sep sep; unescape_all (split_at sep key)
