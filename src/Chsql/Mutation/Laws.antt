-- ===== src/Chsql/Mutation/Laws.antt =====
-- pkg/chsql/scan.go: proofs about the scan for a top-level INSERT INTO and about leading comments.
use wave_house.Prelude.{
  zero, ℕ, none, some, [], ◌∷◌, true, arith, Bool, Option, length, suc, ◌≡◌, ◌≤◌, refl, ◌++◌,
  length-append,
}
use wave_house.Prelude.Bytes.{Bytes}
use wave_house.Chsql.Scan.{skip_curly_quoted, skip_heredoc, skip_comment}
use wave_house.Chsql.Scan.Laws.{
  skip_word-length, skip_word-shorter, skip_dot_number-length, skip_heredoc-length,
  skip_quoted-length, skip_comment-length, skip_curly_quoted-length, or_end_bound,
}
use wave_house.Chsql.Blank.{skip_one}
use wave_house.Chsql.Blank.Laws.{strip_leading_comments-skip_one}
use wave_house.Chsql.Mutation.{
  heredoc_or_word, curly_or_byte, Round, found, go, round, top_level, has_top_level_insert_into,
  is_quote, skip_quoted, is_mutation,
}

curly_or_byte-length :
    (s : Bytes) (o : Option Bytes)
    → ((t : Bytes) → o ≡ some t → length t ≤ length s)
    → length (curly_or_byte s o) ≤ length s
curly_or_byte-length s none h = omega arith
curly_or_byte-length s (some t) h = h t refl

heredoc_or_word-length :
    (s : Bytes) (o : Option Bytes)
    → ((t : Bytes) → o ≡ some t → length t ≤ length s)
    → length (heredoc_or_word s o) ≤ length s
heredoc_or_word-length s none h = skip_word-length s
heredoc_or_word-length s (some t) h = h t refl

abbrev text_left : Round → Bytes
text_left found = []
text_left (go depth rest) = rest

round-length : (depth c : ℕ) (s : Bytes) → length (text_left (round depth c s)) ≤ length s
unfolding round
round-length depth c s = ground (
  arith,
  skip_quoted-length c s,
  curly_or_byte-length s (skip_curly_quoted (c ∷ s)) (λ t. skip_curly_quoted-length c s t),
  heredoc_or_word-length s (skip_heredoc s) (λ t. skip_heredoc-length s t),
  or_end_bound (skip_comment (c ∷ s)) (length s) (λ t. skip_comment-length c s t),
  skip_dot_number-length s,
  skip_word-shorter c s,
)

abbrev scan_on : ℕ → Round → Bool
scan_on fuel found = true
scan_on fuel (go depth rest) = top_level fuel depth rest

top_level_step :
    (fuel depth c : ℕ) (s : Bytes)
    → top_level (suc fuel) depth (c ∷ s) ≡ scan_on fuel (round depth c s)
unfolding top_level
top_level_step fuel depth c s = refl

scan_on_same :
    (f g : ℕ) (r : Round)
    → ((depth : ℕ) (rest : Bytes)
        → length rest ≤ f
        → length rest ≤ g
        → top_level f depth rest ≡ top_level g depth rest)
    → length (text_left r) ≤ f
    → length (text_left r) ≤ g
    → scan_on f r ≡ scan_on g r
scan_on_same f g found ih h k = refl
scan_on_same f g (go depth rest) ih h k = ih depth rest h k

-- Any fuel from the text's length on gives the same answer.
top_level_fuel :
    (f g depth : ℕ) (s : Bytes)
    → length s ≤ f
    → length s ≤ g
    → top_level f depth s ≡ top_level g depth s
unfolding top_level
top_level_fuel zero zero depth s h k = refl
top_level_fuel zero (suc g) depth [] h k = refl
top_level_fuel zero (suc g) depth (c ∷ s) h k = absurd (omega arith)
top_level_fuel (suc f) zero depth [] h k = refl
top_level_fuel (suc f) zero depth (c ∷ s) h k = absurd (omega arith)
top_level_fuel (suc f) (suc g) depth [] h k = refl
top_level_fuel (suc f) (suc g) depth (c ∷ s) h k =
    scan_on_same f g (round depth c s) (top_level_fuel f g) (omega (arith, round-length depth c s))
      (omega (arith, round-length depth c s))

round_quoted :
    (depth q : ℕ) (s : Bytes) → is_quote q ≡ true → round depth q s ≡ go depth (skip_quoted q s)
unfolding round
round_quoted depth q s e = ground arith

-- A quoted token in front of a text does not change the answer.
pub has_top_level_insert_into-quoted :
    (q : ℕ) (body rest : Bytes)
    → is_quote q ≡ true
    → skip_quoted q (body ++ rest) ≡ rest
    → has_top_level_insert_into (q ∷ body ++ rest) ≡ has_top_level_insert_into rest
unfolding has_top_level_insert_into
has_top_level_insert_into-quoted q body rest e h =
    rw
      (
        top_level_step (length (body ++ rest)) 0 q (body ++ rest),
        round_quoted 0 q (body ++ rest) e,
        h,
      )
      (top_level_fuel (length (body ++ rest)) (length rest) 0 rest
        (omega (arith, length-append body rest)) (omega arith))

-- A whitespace character or a comment in front of a statement does not change its class.
pub is_mutation-skip_one :
    (c : ℕ) (s rest : Bytes) → skip_one (c ∷ s) ≡ some rest → is_mutation (c ∷ s) ≡ is_mutation rest
unfolding is_mutation
is_mutation-skip_one c s rest e = rw (strip_leading_comments-skip_one c s rest e) refl
