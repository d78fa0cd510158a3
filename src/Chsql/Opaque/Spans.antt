-- ===== src/Chsql/Opaque/Spans.antt =====
-- pkg/chsql/scan.go: proofs about the loop of `Opaque` and the places of its spans.
use wave_house.Prelude.{
  ℕ, none, some, [], ◌∷◌, arith, List, Option, length, ◌-◌, ◌<◌, ◌≡◌, ◌≤◌, refl, suc, zero, ap,
}
use mathlib.Core.Path.{subst}
use wave_house.Prelude.Bytes.{Bytes}
use wave_house.Chsql.Scan.{skip_curly_quoted, skip_heredoc, skip_comment}
use wave_house.Chsql.Scan.Laws.{
  skip_word-length, skip_word-shorter, skip_dot_number-length, skip_heredoc-length,
  skip_quoted-length, skip_comment-length, skip_curly_quoted-length, or_end_bound,
}
use wave_house.Chsql.Opaque.{
  Span, Kind, code, text, span_or_byte, span_or_word, token, add_span, opaque_from, opaque,
}

span_or_byte-length :
    (s : Bytes) (o : Option Bytes)
    → ((t : Bytes) → o ≡ some t → length t ≤ length s)
    → length (span_or_byte s o).1 ≤ length s
span_or_byte-length s none h = omega arith
span_or_byte-length s (some t) h = h t refl

span_or_word-length :
    (s : Bytes) (o : Option Bytes)
    → ((t : Bytes) → o ≡ some t → length t ≤ length s)
    → length (span_or_word s o).1 ≤ length s
span_or_word-length s none h = skip_word-length s
span_or_word-length s (some t) h = h t refl

-- Every round of the loop takes its first byte.
pub token-length : (c : ℕ) (s : Bytes) → length (token c s).1 ≤ length s
unfolding token
token-length c s = ground (
  arith,
  skip_quoted-length c s,
  span_or_byte-length s (skip_curly_quoted (c ∷ s)) (λ t. skip_curly_quoted-length c s t),
  span_or_word-length s (skip_heredoc s) (λ t. skip_heredoc-length s t),
  or_end_bound (skip_comment (c ∷ s)) (length s) (λ t. skip_comment-length c s t),
  skip_dot_number-length s,
  skip_word-shorter c s,
)

-- Any fuel from the text's length on gives the same spans.
pub opaque_from_fuel :
    (f g n : ℕ) (s : Bytes) → length s ≤ f → length s ≤ g → opaque_from f n s ≡ opaque_from g n s
unfolding opaque_from
opaque_from_fuel zero zero n s h k = refl
opaque_from_fuel zero (suc g) n [] h k = refl
opaque_from_fuel zero (suc g) n (c ∷ s) h k = absurd (omega arith)
opaque_from_fuel (suc f) zero n [] h k = refl
opaque_from_fuel (suc f) zero n (c ∷ s) h k = absurd (omega arith)
opaque_from_fuel (suc f) (suc g) n [] h k = refl
opaque_from_fuel (suc f) (suc g) n (c ∷ s) h k =
    ap (add_span (token c s).0 (n - length (c ∷ s)) (n - length (token c s).1)) (
      opaque_from_fuel f g n (token c s).1 (omega (arith, token-length c s))
        (omega (arith, token-length c s)))

-- Spans that are not empty, one behind the other, from `i` on and within `n`.
unfoldable pub Within : ℕ → ℕ → List Span → Type 0
Within i n [] = i ≤ n
Within i n (span ∷ spans) = (i ≤ span.start) × (span.start < span.end) × Within span.end n spans

add_span-Within :
    (kind : Kind) (i j n : ℕ) (spans : List Span)
    → i < j
    → Within j n spans
    → Within i n (add_span kind i j spans)
unfolding Within
add_span-Within code i j n [] h k = omega arith
add_span-Within code i j n (span ∷ spans) h k = (omega (arith, k.0), k.1, k.2)
add_span-Within (text comment) i j n spans h k = (omega arith, h, k)

opaque_from-Within :
    (f n : ℕ) (s : Bytes) → length s ≤ n → Within (n - length s) n (opaque_from f n s)
unfolding Within opaque_from
opaque_from-Within zero n s h = omega arith
opaque_from-Within (suc f) n [] h = omega arith
opaque_from-Within (suc f) n (c ∷ s) h =
    add_span-Within (token c s).0 _ _ n _ (omega (arith, token-length c s))
      (opaque_from-Within f n (token c s).1 (omega (arith, token-length c s)))

-- The spans of a text are not empty, do not overlap, stand in the order of the text and end
-- within it.
pub opaque-Within : (sql : Bytes) → Within 0 (length sql) (opaque sql)
unfolding opaque
opaque-Within sql =
    subst (λ i. Within i (length sql) (opaque_from (length sql) (length sql) sql)) (omega arith)
      (opaque_from-Within (length sql) (length sql) sql (omega arith))
