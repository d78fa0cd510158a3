-- ===== src/Keyenc/Laws.antt =====
-- internal/keyenc/keyenc.go: proofs about escaping with unescaping, and joining with splitting.
use wave_house.Prelude.{
  ℕ, zero, suc, ◌+◌, ◌/◌, ◌%◌, ◌<◌, ◌≡◌, refl, sym, ap, ◌∙◌, ◌≢◌, inl, inr, Bool, true, ◌&&◌, ◌||◌,
  List, [], ◌∷◌, ◌++◌, append_assoc, append-nil, ok, ◌>>=◌, ◌==◌, Bool-cases, All, All-append, all,
  arith, ◌*◌,
}
use wave_house.Prelude.Bytes.{Bytes, IsByte, Lacks, split_at, split_at-Lacks, split_at-append}
use wave_house.Keyenc.{
  percent, kept, upper_hex, escape_byte, append_escape, escape, is_hex, unhex, prepend, unescape,
  check_sep, append_fields, join_fields, append_join, join, unescape_all, split,
}

-- The escaped text as one plain recursion.
pub escaped : Bytes → Bytes
escaped [] = []
escaped (b ∷ s) = escape_byte b ++ escaped s

pub append_escape-eq : (dst s : Bytes) → append_escape dst s ≡ dst ++ escaped s
unfolding append_escape escaped
append_escape-eq dst [] = sym (append-nil dst)
append_escape-eq dst (b ∷ s) =
    append_escape-eq (dst ++ escape_byte b) s ∙ append_assoc dst (escape_byte b) (escaped s)

escaped_of_kept : (s : Bytes) → all kept s ≡ true → escaped s ≡ s
unfolding escaped escape_byte
escaped_of_kept [] h = refl
escaped_of_kept (b ∷ s) h = ground (arith, escaped_of_kept s)

pub escape-eq : (s : Bytes) → escape s ≡ escaped s
unfolding escape
escape-eq s = elim (Bool-cases (all kept s)) [
  | inl h ↦ rw h (sym (escaped_of_kept s h))
  | inr h ↦ rw h (append_escape-eq [] s)
]

-- A text of kept bytes is its own escaped form.
pub escape_of_kept : (s : Bytes) → all kept s ≡ true → escape s ≡ s
escape_of_kept s h = escape-eq s ∙ escaped_of_kept s h

-- The sixteen digits, and the way back.
passes_below : (ℕ → Bool) → ℕ → Bool
passes_below test zero = true
passes_below test (suc most) = passes_below test most && test most

passes_at :
    (test : ℕ → Bool) (d most : ℕ) → d < most → passes_below test most ≡ true → test d ≡ true
unfolding passes_below
passes_at test d zero small passed = absurd (omega arith)
passes_at test d (suc most) small passed = ground (arith, passes_at test d most)

hex_table : passes_below (λ d. is_hex (upper_hex d) && unhex (upper_hex d) == d) 16 ≡ true
unfolding passes_below is_hex upper_hex unhex
hex_table = refl

hex_round_trip : (d : ℕ) → d < 16 → (is_hex (upper_hex d) ≡ true) × (unhex (upper_hex d) ≡ d)
hex_round_trip d h = let row = passes_at _ d 16 h hex_table in (ground arith, ground arith)

kept-percent : (b : ℕ) → kept b ≡ true → b ≢ percent
unfolding kept
kept-percent b h = ground arith

unescape-cons : (c : ℕ) (s : Bytes) → c ≢ percent → unescape (c ∷ s) ≡ prepend c (unescape s)
unfolding unescape
unescape-cons c [] h = ground arith
unescape-cons c (h ∷ []) n = ground arith
unescape-cons c (h ∷ l ∷ s) n = ground arith

unescape-hex :
    (b : ℕ) (s : Bytes)
    → IsByte b
    → unescape (percent ∷ upper_hex (b / 16) ∷ upper_hex (b % 16) ∷ s) ≡ prepend b (unescape s)
unfolding unescape
unescape-hex b s h =
    let (hi, hi_back) = hex_round_trip (b / 16) (omega arith) in
    let (lo, lo_back) = hex_round_trip (b % 16) (omega arith) in
    let whole : b / 16 * 16 + b % 16 ≡ b = omega arith in rw (hi, lo, hi_back, lo_back, whole)

unescape-escape_byte :
    (b : ℕ) (s : Bytes) → IsByte b → unescape (escape_byte b ++ s) ≡ prepend b (unescape s)
unfolding escape_byte
unescape-escape_byte b s h = elim (Bool-cases (kept b)) [
  | inl k ↦ rw k (unescape-cons b s (kept-percent b k))
  | inr k ↦ rw k (unescape-hex b s h)
]

unescape-escaped : (s : Bytes) → All IsByte s → unescape (escaped s) ≡ ok s
unfolding unescape escaped
unescape-escaped [] h = refl
unescape-escaped (b ∷ s) (hb, hs) =
    unescape-escape_byte b (escaped s) hb ∙ ap (prepend b) (unescape-escaped s hs)

-- Unescaping an escaped text of bytes gives the text back.
pub unescape-escape : (s : Bytes) → All IsByte s → unescape (escape s) ≡ ok s
unescape-escape s h = ap unescape (escape-eq s) ∙ unescape-escaped s h

-- The bytes that an escaped field is made of.
abbrev pub IsFieldByte : ℕ → Type 0
IsFieldByte c = ((kept c || c == percent) ≡ true)

hex_kept : passes_below (λ d. kept (upper_hex d)) 16 ≡ true
unfolding passes_below kept upper_hex
hex_kept = refl

escape_byte-IsFieldByte : (b : ℕ) → IsByte b → All IsFieldByte (escape_byte b)
unfolding escape_byte
escape_byte-IsFieldByte b h =
    let hi = passes_at _ (b / 16) 16 (omega arith) hex_kept in
    let lo = passes_at _ (b % 16) 16 (omega arith) hex_kept in ground arith

escaped-IsFieldByte : (s : Bytes) → All IsByte s → All IsFieldByte (escaped s)
unfolding escaped
escaped-IsFieldByte [] h = tt
escaped-IsFieldByte (b ∷ s) (hb, hs) =
    All-append IsFieldByte (escape_byte b) (escaped s) (escape_byte-IsFieldByte b hb)
      (escaped-IsFieldByte s hs)

-- An escaped field holds letters, digits, `_`, `-` and `%` only.
pub escape-IsFieldByte : (s : Bytes) → All IsByte s → All IsFieldByte (escape s)
escape-IsFieldByte s h = rw (escape-eq s) (escaped-IsFieldByte s h)

-- A separator that `checkSep` accepts.
abbrev pub IsSeparator : ℕ → Type 0
IsSeparator sep = check_sep sep ≡ ok tt

IsFieldByte-ne : (sep c : ℕ) → IsSeparator sep → IsFieldByte c → c ≢ sep
unfolding check_sep
IsFieldByte-ne sep c h k e = ground arith

escaped-Lacks : (sep : ℕ) (s : Bytes) → IsSeparator sep → All IsFieldByte s → Lacks sep s
escaped-Lacks sep [] h k = tt
escaped-Lacks sep (c ∷ s) h (k, ks) = (IsFieldByte-ne sep c h k, escaped-Lacks sep s h ks)

-- The fields after the first, each behind a separator.
tail_fields : ℕ → List Bytes → Bytes
tail_fields sep [] = []
tail_fields sep (f ∷ fs) = sep ∷ (escaped f ++ tail_fields sep fs)

append_fields-eq :
    (dst : Bytes) (sep : ℕ) (fs : List Bytes) → append_fields dst sep fs ≡ dst ++ tail_fields sep fs
unfolding append_fields tail_fields
append_fields-eq dst sep [] = sym (append-nil dst)
append_fields-eq dst sep (f ∷ fs) =
    append_fields-eq (append_escape (dst ++ sep ∷ []) f) sep fs
    ∙ (rw (append_escape-eq (dst ++ sep ∷ []) f) (simp append_assoc))

split_at-fields :
    (sep : ℕ) (f : Bytes) (fs : List Bytes)
    → IsSeparator sep
    → All (All IsByte) (f ∷ fs)
    → unescape_all (split_at sep (escaped f ++ tail_fields sep fs)) ≡ ok (f ∷ fs)
unfolding tail_fields unescape_all
split_at-fields sep f [] h (hf, _) = rw (
  append-nil (escaped f),
  split_at-Lacks sep (escaped f) (escaped-Lacks sep (escaped f) h (escaped-IsFieldByte f hf)),
  unescape-escaped f hf,
)
split_at-fields sep f (g ∷ fs) h (hf, hs) = rw (
  split_at-append sep (escaped f) (escaped g ++ tail_fields sep fs)
      (escaped-Lacks sep (escaped f) h (escaped-IsFieldByte f hf)),
  unescape-escaped f hf,
  split_at-fields sep g fs h hs,
)

-- The key that the fields make, written as one text.
pub key_of : ℕ → Bytes → List Bytes → Bytes
key_of sep f fs = escaped f ++ tail_fields sep fs

pub append_join-eq :
    (dst : Bytes) (sep : ℕ) (f : Bytes) (fs : List Bytes)
    → IsSeparator sep
    → append_join dst sep (f ∷ fs) ≡ ok (dst ++ key_of sep f fs)
unfolding append_join join_fields key_of
append_join-eq dst sep f fs h =
    rw (h, append_fields-eq (append_escape dst f) sep fs, append_escape-eq dst f)
      (ap ok (append_assoc dst (escaped f) (tail_fields sep fs)))

pub split-key_of :
    (sep : ℕ) (f : Bytes) (fs : List Bytes)
    → IsSeparator sep
    → All (All IsByte) (f ∷ fs)
    → split (key_of sep f fs) sep ≡ ok (f ∷ fs)
unfolding split key_of
split-key_of sep f fs h hs = rw h (split_at-fields sep f fs h hs)

-- Joining one field or more, all of bytes, under an accepted separator and splitting the key at it
-- gives the fields back.
pub split-join :
    (sep : ℕ) (f : Bytes) (fs : List Bytes)
    → IsSeparator sep
    → All (All IsByte) (f ∷ fs)
    → (join sep (f ∷ fs) >>= λ key. split key sep) ≡ ok (f ∷ fs)
unfolding join
split-join sep f fs h hs = rw (append_join-eq [] sep f fs h) (split-key_of sep f fs h hs)

-- No key holds a byte that its fields and its separator cannot write.
pub key_of-Lacks :
    (c sep : ℕ) (f : Bytes) (fs : List Bytes)
    → IsSeparator c
    → sep ≢ c
    → All (All IsByte) (f ∷ fs)
    → Lacks c (key_of sep f fs)
unfolding key_of tail_fields
key_of-Lacks c sep f [] h n (hf, _) =
    All-append (λ b. b ≢ c) (escaped f) []
      (escaped-Lacks c (escaped f) h (escaped-IsFieldByte f hf)) tt
key_of-Lacks c sep f (g ∷ fs) h n (hf, hs) =
    All-append (λ b. b ≢ c) (escaped f) (sep ∷ key_of sep g fs)
      (escaped-Lacks c (escaped f) h (escaped-IsFieldByte f hf)) (n, key_of-Lacks c sep g fs h n hs)
