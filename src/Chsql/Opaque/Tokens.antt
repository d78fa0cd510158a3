-- ===== src/Chsql/Opaque/Tokens.antt =====
-- pkg/chsql/scan.go: proofs about the spans of a text behind a quoted token.
use wave_house.Prelude.{
  ℕ, [], ◌∷◌, true, false, arith, List, length, ◌≡◌, ◌++◌, ◌+◌, ◌≤◌, refl, suc, length-append, ◌-◌,
  zero, ap,
}
use mathlib.Core.Path.{subst}
use wave_house.Prelude.Bytes.{Bytes}
use wave_house.Chsql.Scan.{skip_quoted, is_quote}
use wave_house.Chsql.Opaque.{Span, Kind, code, text, token, add_span, opaque_from, opaque}
use wave_house.Chsql.Opaque.Spans.{token-length, opaque_from_fuel}

abbrev pub moved : ℕ → List Span → List Span
moved k [] = []
moved k (span ∷ spans) =
    record { start = k + span.start; end = k + span.end; comment = span.comment } ∷ moved k spans

add_span-moved :
    (kind : Kind) (k i j i2 j2 : ℕ) (spans : List Span)
    → k + i ≡ i2
    → k + j ≡ j2
    → add_span kind i2 j2 (moved k spans) ≡ moved k (add_span kind i j spans)
add_span-moved code k i j i2 j2 spans e f = refl
add_span-moved (text comment) k i j i2 j2 spans e f = rw (e, f) refl

opaque_from-moved :
    (f k n : ℕ) (s : Bytes) → length s ≤ n → opaque_from f (k + n) s ≡ moved k (opaque_from f n s)
unfolding opaque_from
opaque_from-moved zero k n s h = refl
opaque_from-moved (suc f) k n [] h = refl
opaque_from-moved (suc f) k n (c ∷ s) h =
    rw (opaque_from-moved f k n (token c s).1 (omega (arith, token-length c s))) (
      add_span-moved (token c s).0 k (n - length (c ∷ s)) (n - length (token c s).1) _ _ _
        (omega arith) (omega (arith, token-length c s)))

token_quoted : (q : ℕ) (s : Bytes) → is_quote q ≡ true → token q s ≡ (text false, skip_quoted q s)
unfolding token
token_quoted q s e = rw e refl

-- The text behind a quoted token keeps its spans.
pub opaque-quoted :
    (q : ℕ) (body rest : Bytes)
    → is_quote q ≡ true
    → skip_quoted q (body ++ rest) ≡ rest
    → opaque (q ∷ body ++ rest)
      ≡ record { start = 0; end = suc (length body); comment = false }
        ∷ moved (suc (length body)) (opaque rest)
unfolding opaque opaque_from
opaque-quoted q body rest e h =
    let size : length (body ++ rest) ≡ length body + length rest = length-append body rest in
    let front : suc (length body + length rest) - suc (length body + length rest) ≡ 0 =
      omega arith in
    let back : suc (length body + length rest) - length rest ≡ suc (length body) = omega arith in
    let total : suc (length body) + length rest ≡ suc (length body + length rest) = omega arith in
    rw
      (
        token_quoted q (body ++ rest) e,
        h,
        size,
        opaque_from_fuel (length body + length rest) (length rest) _ rest (omega arith)
            (omega arith),
        front,
        back,
      )
      (ap (λ spans. record { start = 0; end = suc (length body); comment = false } ∷ spans)
        (subst
          (λ n.
            opaque_from (length rest) n rest
            ≡ moved (suc (length body)) (opaque_from (length rest) (length rest) rest))
          total
          (opaque_from-moved (length rest) (suc (length body)) (length rest) rest (omega arith))))
