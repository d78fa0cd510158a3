-- ===== src/Chsql/Quote.antt =====
-- pkg/chsql/chsql.go: identifiers quoted, and the names that positional binding refuses.
use wave_house.Prelude.{
  ℕ, Bool, ◌∷◌, any, if◌then◌else◌, ◌++◌, ◌≡◌, [], false, ◌==◌, arith, ◌||◌, refl,
}
use wave_house.Prelude.Bytes.{Bytes, count, count-append}

abbrev pub backslash : ℕ
backslash = 92

abbrev pub backtick : ℕ
backtick = 96

abbrev pub question : ℕ
question = 63

-- The two replacements of `identEscaper`, in one pass.
unfoldable pub escape_ident : Bytes → Bytes
escape_ident [] = []
escape_ident (c ∷ s) =
    (if c == backslash || c == backtick then backslash ∷ c ∷ [] else c ∷ []) ++ escape_ident s

unfoldable pub quote_ident : Bytes → Bytes
quote_ident name = backtick ∷ (escape_ident name ++ backtick ∷ [])

unfoldable pub bind_unsafe : Bytes → Bool
bind_unsafe name = any (λ c. c == question) name

escape_ident-count : (s : Bytes) → bind_unsafe s ≡ false → count question (escape_ident s) ≡ 0
unfolding escape_ident bind_unsafe count
escape_ident-count [] h = refl
escape_ident-count (c ∷ s) h = ground (arith, escape_ident-count s)

-- A name that is bind-safe brings no placeholder into the SQL text.
pub quote_ident-count : (s : Bytes) → bind_unsafe s ≡ false → count question (quote_ident s) ≡ 0
unfolding quote_ident count
quote_ident-count s h =
    omega (arith, count-append question (escape_ident s) (backtick ∷ []), escape_ident-count s h)
