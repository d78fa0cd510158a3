-- ===== src/Chsql/Scan/Laws.antt =====
-- pkg/chsql/scan.go: proofs about the bytes that the steps of the scanner take.
use wave_house.Prelude.{
  ℕ, some, [], ◌∷◌, true, Option-cases, inl, inr, arith, length, ◌<◌, ◌≡◌, ◌+◌, ◌≤◌, ◌++◌, ◌-◌,
  Option, none, ap, refl, ◌⊎◌, sym, ◌∙◌,
}
use mathlib.Core.Option.{some-injective}
use wave_house.Prelude.Bytes.{Bytes, cut_prefix}
use wave_house.Chsql.Scan.{
  earlier, skip_word, skip_digits, skip_power, skip_exponent, skip_dot_number, after_first, or_end,
  tag_word, after_tag, heredoc_body, dollar, skip_heredoc, skip_quoted, skip_block, skip_comment,
  is_word_byte, newline, curly_body, skip_curly_quoted, curly,
}

pub skip_word-length : (s : Bytes) → length (skip_word s) ≤ length s
unfolding skip_word
skip_word-length [] = omega arith
skip_word-length (c ∷ s) = ground (arith, skip_word-length s)

-- The step over a word takes the byte that a word may start with.
pub skip_word-shorter :
    (c : ℕ) (s : Bytes) → is_word_byte c ≡ true → length (skip_word (c ∷ s)) ≤ length s
unfolding skip_word
skip_word-shorter c s e = ground (arith, skip_word-length s)

skip_digits-length : (last : ℕ) (s : Bytes) → length (skip_digits last s) ≤ length s
unfolding skip_digits
skip_digits-length last [] = omega arith
skip_digits-length last (c ∷ s) = ground (arith, skip_digits-length c s)

skip_power-length : (last : ℕ) (s : Bytes) → length (skip_power last s) ≤ length s
unfolding skip_power
skip_power-length last [] = omega arith
skip_power-length last (c ∷ s) =
    ground (arith, skip_digits-length c s, skip_digits-length last (c ∷ s))

skip_exponent-length : (s : Bytes) → length (skip_exponent s) ≤ length s
unfolding skip_exponent
skip_exponent-length [] = omega arith
skip_exponent-length (c ∷ s) = ground (arith, skip_power-length c s)

pub skip_dot_number-length : (s : Bytes) → length (skip_dot_number s) ≤ length s
unfolding skip_dot_number
skip_dot_number-length s =
    omega (arith, skip_exponent-length (skip_digits b'.' s), skip_digits-length b'.' s)

cut_prefix-length : (p s t : Bytes) → cut_prefix p s ≡ some t → length p + length t ≡ length s
unfolding cut_prefix
cut_prefix-length [] s t e = ground arith
cut_prefix-length (a ∷ p) [] t e = ground arith
cut_prefix-length (a ∷ p) (c ∷ s) t e = ground (arith, cut_prefix-length p s t)

earlier_either :
    (o r : Option Bytes) (t : Bytes) → earlier o r ≡ some t → (o ≡ some t) ⊎ (r ≡ some t)
earlier_either none r t e = inr e
earlier_either (some s) r t e = inl e

pub after_first-length : (p s t : Bytes) → after_first p s ≡ some t → length p + length t ≤ length s
unfolding after_first
after_first-length p [] t e = omega (arith, cut_prefix-length p [] t e)
after_first-length p (c ∷ s) t e = elim (earlier_either (cut_prefix p (c ∷ s)) _ t e) [
  | inl now ↦ omega (arith, cut_prefix-length p (c ∷ s) t now)
  | inr later ↦ omega (arith, after_first-length p s t later)
]

after_tag-length : (s : Bytes) → length (after_tag s) ≤ length s
unfolding after_tag
after_tag-length [] = omega arith
after_tag-length (c ∷ s) = ground (arith, after_tag-length s)

heredoc_body-length : (tag s t : Bytes) → heredoc_body tag s ≡ some t → length t ≤ length s
heredoc_body-length tag [] t e = cc
heredoc_body-length tag (c ∷ body) t e =
    ground (arith, after_first-length (dollar ∷ (tag ++ dollar ∷ [])) body t)

pub skip_heredoc-length : (s t : Bytes) → skip_heredoc s ≡ some t → length t ≤ length s
unfolding skip_heredoc
skip_heredoc-length s t e =
    omega (arith, heredoc_body-length (tag_word s) (after_tag s) t e, after_tag-length s)

pub or_end_bound :
    (o : Option Bytes) (n : ℕ) → ((t : Bytes) → o ≡ some t → length t ≤ n) → length (or_end o) ≤ n
or_end_bound none n h = omega arith
or_end_bound (some t) n h = h t refl

or_end-length : (p s : Bytes) → 0 < length p → length (or_end (after_first p s)) ≤ length s - 1
or_end-length p s h =
    or_end_bound (after_first p s) (length s - 1) λ t e. omega (arith, after_first-length p s t e)

curly_body-length :
    (opener closer : ℕ) (s t : Bytes)
    → curly_body closer (cut_prefix (curly opener) s) ≡ some t
    → length t ≤ length s - 1
curly_body-length opener closer s t e = elim (Option-cases (cut_prefix (curly opener) s)) [
  | inl shut ↦ absurd (cc (e, ap (curly_body closer) shut))
  | inr (body, begun) ↦
      let is_rest : or_end (after_first (curly closer) body) ≡ t =
        some-injective _ _ (sym (ap (curly_body closer) begun) ∙ e) in
      omega (
        arith,
        ap (λ r. length r) is_rest,
        or_end-length (curly closer) body (omega arith),
        cut_prefix-length (curly opener) s body begun,
      )
]

pub skip_curly_quoted-length :
    (c : ℕ) (s t : Bytes) → skip_curly_quoted (c ∷ s) ≡ some t → length t ≤ length s
unfolding skip_curly_quoted
skip_curly_quoted-length c s t e =
    elim (earlier_either (curly_body 0x99 (cut_prefix (curly 0x98) (c ∷ s)))
      (curly_body 0x9D (cut_prefix (curly 0x9C) (c ∷ s))) t e) [
        | inl single ↦ omega (arith, curly_body-length 0x98 0x99 (c ∷ s) t single)
        | inr double ↦ omega (arith, curly_body-length 0x9C 0x9D (c ∷ s) t double)
      ]

pub skip_quoted-length : (q : ℕ) (s : Bytes) → length (skip_quoted q s) ≤ length s
unfolding skip_quoted
skip_quoted-length q [] = omega arith
skip_quoted-length q (c ∷ []) = omega arith
skip_quoted-length q (c ∷ d ∷ s) =
    ground (arith, skip_quoted-length q s, skip_quoted-length q (d ∷ s))

skip_block-length : (depth : ℕ) (s : Bytes) → length (skip_block depth s) ≤ length s - 1
unfolding skip_block
skip_block-length depth [] = omega arith
skip_block-length depth (c ∷ []) = omega arith
skip_block-length depth (c ∷ d ∷ s) = ground (
  arith,
  skip_block-length (depth + 1) s,
  skip_block-length (depth - 1) s,
  skip_block-length depth (d ∷ s),
)

pub skip_comment-length :
    (c : ℕ) (s t : Bytes) → skip_comment (c ∷ s) ≡ some t → length t ≤ length s
unfolding skip_comment
skip_comment-length c s t e =
    ground (arith, or_end-length (newline ∷ []) (c ∷ s), skip_block-length 0 (c ∷ s))
