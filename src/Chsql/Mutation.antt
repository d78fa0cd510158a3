-- ===== src/Chsql/Mutation.antt =====
-- pkg/chsql/scan.go: which statements change data (`IsMutation`).
pub mod Laws
use wave_house.Prelude.{
  ℕ, Bool, List, Option, if◌then◌else◌, map, ◌∷◌, [], false, is_empty, leb, length, none, some,
  true, ◌==◌, suc, ◌&&◌, ◌+◌, zero, ◌-◌,
}
use wave_house.Prelude.Bytes.{Bytes, codes, contains, bytes_eq}
use wave_house.Chsql.Scan.{
  is_quote, opens_comment, skip_comment, skip_word, bareword, skip_quoted, skip_curly_quoted,
  skip_heredoc, skip_dot_number, is_digit, is_word_byte, starts_with, or_end, dollar,
}
use wave_house.Chsql.Blank.{skip_space_and_comments, strip_leading_comments}

abbrev pub mutation_verbs : List Bytes
mutation_verbs =
    codes "INSERT"
    ∷ codes "UPDATE"
    ∷ codes "DELETE"
    ∷ codes "TRUNCATE"
    ∷ codes "DROP"
    ∷ codes "ALTER"
    ∷ codes "CREATE"
    ∷ codes "RENAME"
    ∷ codes "EXCHANGE"
    ∷ codes "OPTIMIZE"
    ∷ codes "REPLACE"
    ∷ codes "GRANT"
    ∷ codes "REVOKE"
    ∷ codes "ATTACH"
    ∷ codes "DETACH"
    ∷ codes "KILL"
    ∷ codes "SET"
    ∷ codes "USE"
    ∷ codes "SYSTEM"
    ∷ []

-- strings.ToUpper on a bareword, which is ASCII.
unfoldable pub to_upper : Bytes → Bytes
to_upper s = map (λ c. if leb b'a' c && leb c b'z' then c - 32 else c) s

-- strings.EqualFold of a bareword with an ASCII word in capitals.
abbrev pub equal_fold : Bytes → Bytes → Bool
equal_fold s upper = bytes_eq (to_upper s) upper

-- A text that opens with `$` is a heredoc's, else a bareword's.
abbrev pub heredoc_or_word : Bytes → Option Bytes → Bytes
heredoc_or_word s none = skip_word s
heredoc_or_word s (some rest) = rest

abbrev pub curly_or_byte : Bytes → Option Bytes → Bytes
curly_or_byte s none = s
curly_or_byte s (some rest) = rest

unfoldable pub skip_name : Bytes → Bytes
skip_name [] = []
skip_name (c ∷ s) =
    if is_quote c
    then skip_quoted c s
    else if c == 0xE2
    then curly_or_byte (c ∷ s) (skip_curly_quoted (c ∷ s))
    else if c == dollar
    then heredoc_or_word (c ∷ s) (skip_heredoc s)
    else skip_word (c ∷ s)

abbrev pub skip_host : Bytes → Bytes
skip_host [] = []
skip_host (c ∷ s) =
    if c == b'@' then skip_space_and_comments (skip_name (skip_space_and_comments s)) else c ∷ s

abbrev pub after_as : Bytes → Option Bytes
after_as s =
    if equal_fold (bareword s) (codes "AS")
    then some
        (skip_host (skip_space_and_comments (skip_name (skip_space_and_comments (skip_word s)))))
    else none

-- `SkipExecuteAs`: none where no such prefix leads the text.
unfoldable pub skip_execute_as : Bytes → Option Bytes
skip_execute_as s =
    if equal_fold (bareword s) (codes "EXECUTE")
    then after_as (skip_space_and_comments (skip_word s))
    else none

abbrev pub is_insert_into : ℕ → Bytes → Bool
is_insert_into depth s =
    depth == 0
    && equal_fold (bareword s) (codes "INSERT")
    && equal_fold (bareword (skip_space_and_comments (skip_word s))) (codes "INTO")

-- A token of the loop of `hasTopLevelInsertInto`: the statement is found, or the scan goes on at
-- a depth with the text after the token.
pub data Round : Type 0 where
  found : Round
  go : ℕ → Bytes → Round

unfoldable pub round : ℕ → ℕ → Bytes → Round
round depth c s =
    if c == b'('
    then go (depth + 1) s
    else if c == b')'
    then go (depth - 1) s
    else if is_quote c
    then go depth (skip_quoted c s)
    else if c == 0xE2
    then go depth (curly_or_byte s (skip_curly_quoted (c ∷ s)))
    else if c == dollar
    then go depth (heredoc_or_word s (skip_heredoc s))
    else if c == b'.' && starts_with is_digit s
    then go depth (skip_dot_number s)
    else if is_word_byte c
    then (if is_insert_into depth (c ∷ s) then found else go depth (skip_word (c ∷ s)))
    else if opens_comment c s
    then go depth (or_end (skip_comment (c ∷ s)))
    else go depth s

unfoldable pub top_level : ℕ → ℕ → Bytes → Bool
top_level zero depth s = false
top_level (suc fuel) depth [] = false
top_level (suc fuel) depth (c ∷ s) = elim (round depth c s) [
  | found ↦ true
  | go deeper rest ↦ top_level fuel deeper rest
]

unfoldable pub has_top_level_insert_into : Bytes → Bool
has_top_level_insert_into s = top_level (length s) 0 s

abbrev pub leading_verb : Bytes → Bool
leading_verb s =
    if is_empty (bareword s)
    then false
    else if bytes_eq (to_upper (bareword s)) (codes "WITH")
    then has_top_level_insert_into (skip_word s)
    else contains (to_upper (bareword s)) mutation_verbs

abbrev pub run_as : Bytes → Bool
run_as [] = true
run_as (c ∷ s) = if c == b';' then true else leading_verb (c ∷ s)

abbrev pub after_prefix : Bytes → Option Bytes → Bool
after_prefix s none = leading_verb s
after_prefix s (some rest) = run_as rest

unfoldable pub is_mutation : Bytes → Bool
is_mutation sql =
    after_prefix (strip_leading_comments sql) (skip_execute_as (strip_leading_comments sql))
