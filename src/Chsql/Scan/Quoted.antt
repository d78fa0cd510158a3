-- ===== src/Chsql/Scan/Quoted.antt =====
-- pkg/chsql/scan.go: proofs about the step over escaped text inside quotes.
use wave_house.Prelude.{ℕ, [], ◌∷◌, ◌++◌, false, refl, ◌∙◌, arith, ◌≢◌, ◌==◌, ◌≡◌, append_assoc}
use wave_house.Prelude.Bytes.{Bytes}
use wave_house.Chsql.Scan.{skip_quoted, starts_with}

abbrev pub backslash_byte : ℕ
backslash_byte = b'\\'

-- A plain byte inside the quotes.
pub skip_quoted_plain :
    (q c : ℕ) (t : Bytes)
    → c ≢ q
    → c ≢ backslash_byte
    → t ≢ []
    → skip_quoted q (c ∷ t) ≡ skip_quoted q t
unfolding skip_quoted
skip_quoted_plain q c [] h k m = absurd (m refl)
skip_quoted_plain q c (d ∷ t) h k m = ground arith

-- An escape: the byte after a backslash is not looked at.
pub skip_quoted_escape :
    (q c : ℕ) (t : Bytes) → skip_quoted q (backslash_byte ∷ c ∷ t) ≡ skip_quoted q t
unfolding skip_quoted
skip_quoted_escape q c t = refl

pub skip_quoted_doubled :
    (q : ℕ) (t : Bytes) → q ≢ backslash_byte → skip_quoted q (q ∷ q ∷ t) ≡ skip_quoted q t
unfolding skip_quoted
skip_quoted_doubled q t h = ground arith

pub skip_quoted_close :
    (q : ℕ) (t : Bytes)
    → q ≢ backslash_byte
    → starts_with (λ c. c == q) t ≡ false
    → skip_quoted q (q ∷ t) ≡ t
unfolding skip_quoted
skip_quoted_close q [] h k = refl
skip_quoted_close q (d ∷ t) h k = ground arith

append_filled : (q : ℕ) (s t : Bytes) → s ++ q ∷ t ≢ []
append_filled q [] t e = cc
append_filled q (c ∷ s) t e = cc

-- Text escaped byte by byte, each byte by a text the scan steps over, up to its closing quote.
module _ (q : ℕ) (escaped : ℕ → Bytes) (escape : Bytes → Bytes) (start : escape [] ≡ [])
    (next : (c : ℕ) (s : Bytes) → escape (c ∷ s) ≡ escaped c ++ escape s)
    (whole : (c : ℕ) (t : Bytes) → t ≢ [] → skip_quoted q (escaped c ++ t) ≡ skip_quoted q t)
    (plain : q ≢ backslash_byte) where
  pub skip_quoted_escaped :
      (s rest : Bytes)
      → starts_with (λ c. c == q) rest ≡ false
      → skip_quoted q (escape s ++ q ∷ rest) ≡ rest
  skip_quoted_escaped [] rest h = rw start (skip_quoted_close q rest plain h)
  skip_quoted_escaped (c ∷ s) rest h =
      rw (next c s, append_assoc (escaped c) (escape s) (q ∷ rest))
        (whole c (escape s ++ q ∷ rest) (append_filled q (escape s) rest)
          ∙ skip_quoted_escaped s rest h)
