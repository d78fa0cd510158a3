-- ===== src/Tests/Sql.antt =====
-- The SQL scanner and the pipes on concrete texts.
use wave_house.Prelude.{◌∷◌, ◌≡◌, false, true, [], refl, ◌↔◌}
use wave_house.Prelude.Bytes.{
  Bytes, split_at, lookup, decimal, decimal_digits, codes, bytes_eq, contains, cut_prefix,
}
use wave_house.Prelude.{length, ◌++◌, ok, err, none, arith}
use wave_house.Prelude.Int.{negsuc}
use wave_house.Policy.Values.{Fields, field, end, str, get_field, navigate_claims}
use wave_house.Policy.Canonical.{canonical_scalar}
use wave_house.Policy.Template.{
  span, is_space, is_path_byte, template_at, claim_at, resolve_claim, bind_claim,
}
use wave_house.Pipes.Literal.{
  text, array, cons, nil, int, float, in_parens, int_decimal, escaped_byte, escape_literal,
  quote_literal, bare_number, after_digits, some_digits, exponent_or_end, fraction_or_end,
  is_mantissa, is_numeric_literal, format_param_value, claim_literal,
}
use wave_house.Pipes.Template.{
  is_name_byte, param_at, placeholder_at, pieces_from, pieces, claims_of, claim_paths, written,
  masked, span_at, hidden_use, malformed_at, upto_close, stripped, check_template, reserved_use,
  skeleton,
}
use wave_house.Pipes.Bind.{
  NamedQuery, unresolved_claim, first_unresolved, formal, first_missing, bind_ref, bind_pieces,
  bind_params,
}
use wave_house.Pipes.Bind.Laws.{IsFirstUnbound, bind_params-unresolved}
use wave_house.Pipes.Literal.Inert.{Inert}
use wave_house.Pipes.Literal.Formats.{HasFloatTexts, format_param_value-Inert}
use wave_house.Pipes.Literal.Quoted.{opaque-quote_literal, has_top_level_insert_into-quote_literal}
use wave_house.Chsql.Opaque.Tokens.{moved}
use wave_house.Chsql.Opaque.Spans.{Within, opaque-Within}
use wave_house.Chsql.Scan.{
  is_digit, is_word_byte, skip_word, bareword, skip_digits, skip_power, skip_exponent,
  skip_dot_number, after_first, tag_word, after_tag, skip_heredoc, skip_curly_quoted, skip_quoted,
  skip_block, skip_comment,
}
use wave_house.Chsql.Blank.{
  decode_rune, is_space_rune, is_ascii_space, sql_space_len, skip_one, skip_blank,
  skip_space_and_comments, strip_leading_comments,
}
use wave_house.Chsql.Mutation.{
  to_upper, skip_name, skip_execute_as, round, top_level, has_top_level_insert_into, is_mutation,
}
use wave_house.Chsql.Opaque.{opaque, opaque_from, token}

reads : is_mutation (codes "/* a */ -- b\n select 1") ≡ false
unfolding bytes_eq contains cut_prefix is_digit is_word_byte skip_word bareword skip_digits
    skip_power skip_exponent skip_dot_number after_first tag_word after_tag skip_heredoc
    skip_curly_quoted skip_quoted skip_block skip_comment decode_rune is_space_rune is_ascii_space
    sql_space_len skip_one skip_blank skip_space_and_comments strip_leading_comments to_upper
    skip_name skip_execute_as round top_level has_top_level_insert_into is_mutation
reads = refl

writes : is_mutation (codes " # x\n\tiNsert into t values (1)") ≡ true
unfolding bytes_eq contains cut_prefix is_digit is_word_byte skip_word bareword skip_digits
    skip_power skip_exponent skip_dot_number after_first tag_word after_tag skip_heredoc
    skip_curly_quoted skip_quoted skip_block skip_comment decode_rune is_space_rune is_ascii_space
    sql_space_len skip_one skip_blank skip_space_and_comments strip_leading_comments to_upper
    skip_name skip_execute_as round top_level has_top_level_insert_into is_mutation
writes = refl

writes_after_with : is_mutation (codes "WITH 'x' AS y INSERT /**/ INTO t SELECT y") ≡ true
unfolding bytes_eq contains cut_prefix is_digit is_word_byte skip_word bareword skip_digits
    skip_power skip_exponent skip_dot_number after_first tag_word after_tag skip_heredoc
    skip_curly_quoted skip_quoted skip_block skip_comment decode_rune is_space_rune is_ascii_space
    sql_space_len skip_one skip_blank skip_space_and_comments strip_leading_comments to_upper
    skip_name skip_execute_as round top_level has_top_level_insert_into is_mutation
writes_after_with = refl

hidden_in_parens :
    is_mutation (codes "with (insert into t) as x select '\\' insert into t'") ≡ false
unfolding bytes_eq contains cut_prefix is_digit is_word_byte skip_word bareword skip_digits
    skip_power skip_exponent skip_dot_number after_first tag_word after_tag skip_heredoc
    skip_curly_quoted skip_quoted skip_block skip_comment decode_rune is_space_rune is_ascii_space
    sql_space_len skip_one skip_blank skip_space_and_comments strip_leading_comments to_upper
    skip_name skip_execute_as round top_level has_top_level_insert_into is_mutation
hidden_in_parens = refl

writes_as_a_user : is_mutation (codes "execute as 'bob'@h drop table t") ≡ true
unfolding bytes_eq contains cut_prefix is_digit is_word_byte skip_word bareword skip_digits
    skip_power skip_exponent skip_dot_number after_first tag_word after_tag skip_heredoc
    skip_curly_quoted skip_quoted skip_block skip_comment decode_rune is_space_rune is_ascii_space
    sql_space_len skip_one skip_blank skip_space_and_comments strip_leading_comments to_upper
    skip_name skip_execute_as round top_level has_top_level_insert_into is_mutation
writes_as_a_user = refl

wide_space : is_mutation (0xE2 ∷ 0x80 ∷ 0x83 ∷ codes "drop table t") ≡ true
unfolding bytes_eq contains cut_prefix is_digit is_word_byte skip_word bareword skip_digits
    skip_power skip_exponent skip_dot_number after_first tag_word after_tag skip_heredoc
    skip_curly_quoted skip_quoted skip_block skip_comment decode_rune is_space_rune is_ascii_space
    sql_space_len skip_one skip_blank skip_space_and_comments strip_leading_comments to_upper
    skip_name skip_execute_as round top_level has_top_level_insert_into is_mutation
wide_space = refl

spans : opaque (codes "a 'b' $x$c$x$ --d") ≡ (
    record { start = 2; end = 5; comment = false }
    ∷ record { start = 6; end = 13; comment = false }
    ∷ record { start = 14; end = 17; comment = true }
    ∷ [])
unfolding bytes_eq contains cut_prefix is_digit is_word_byte skip_word bareword skip_digits
    skip_power skip_exponent skip_dot_number after_first tag_word after_tag skip_heredoc
    skip_curly_quoted skip_quoted skip_block skip_comment token opaque_from opaque
spans = refl

-- A value that tries to end its literal, and the SQL behind it.
abbrev hostile : Bytes
hostile = codes "a'; insert into t --\\"

abbrev tail_sql : Bytes
tail_sql = codes " and 'b' -- c"

opaque-quote_literal_example :
    opaque (quote_literal hostile ++ tail_sql)
    ≡ record { start = 0; end = length (quote_literal hostile); comment = false }
      ∷ moved (length (quote_literal hostile)) (opaque tail_sql)
opaque-quote_literal_example = opaque-quote_literal hostile tail_sql refl

has_top_level_insert_into-quote_literal_example :
    has_top_level_insert_into (quote_literal hostile ++ tail_sql)
    ≡ has_top_level_insert_into tail_sql
has_top_level_insert_into-quote_literal_example =
    has_top_level_insert_into-quote_literal hostile tail_sql refl

opaque-Within_example : Within 0 (length tail_sql) (opaque tail_sql)
opaque-Within_example = opaque-Within tail_sql

format_param_value-Inert_example :
    Inert (in_parens (quote_literal hostile ∷ codes " -5" ∷ codes "1.5" ∷ []))
unfolding format_param_value is_numeric_literal is_mantissa HasFloatTexts bare_number int_decimal
    decimal decimal_digits
format_param_value-Inert_example =
    format_param_value-Inert
      (array (cons (text hostile) (cons (int (negsuc 4)) (cons (float none (codes "1.5")) nil))))
      (in_parens (quote_literal hostile ∷ codes " -5" ∷ codes "1.5" ∷ []))
      (tt, (tt, ((ground arith, λ e. cc), tt))) refl

-- A pipe that is scoped to a claim, and takes a parameter.
abbrev scoped_pipe : NamedQuery
scoped_pipe = record {
  sql = codes "select * from t where a = {{ jwt.org }} limit {{n:10}}";
  parameters = [];
}

abbrev other_claims : Fields
other_claims = field (codes "sub") (str (codes "u")) end

abbrev org_claims : Fields
org_claims = field (codes "org") (str (codes "o'1")) end

bind_params-unresolved_example :
    (bind_params scoped_pipe ((codes "n", text (codes "5")) ∷ []) other_claims
      ≡ err (unresolved_claim (codes "org")))
    ↔ IsFirstUnbound other_claims (codes "org") (pieces scoped_pipe.sql)
bind_params-unresolved_example =
    bind_params-unresolved scoped_pipe ((codes "n", text (codes "5")) ∷ []) other_claims
      (codes "org")

refused :
    bind_params scoped_pipe ((codes "n", text (codes "5")) ∷ []) other_claims
    ≡ err (unresolved_claim (codes "org"))
unfolding cut_prefix bytes_eq contains split_at lookup span is_space is_path_byte template_at
    claim_at resolve_claim bind_claim navigate_claims get_field is_name_byte param_at placeholder_at
    pieces_from pieces claims_of claim_paths first_unresolved bind_params canonical_scalar
refused = refl

bound :
    bind_params scoped_pipe ((codes "n", text (codes "5")) ∷ []) org_claims
    ≡ ok (codes "select * from t where a = 'o''1' limit 5")
unfolding cut_prefix bytes_eq contains split_at lookup span is_space is_path_byte template_at
    claim_at resolve_claim bind_claim navigate_claims get_field is_name_byte param_at placeholder_at
    pieces_from pieces claims_of claim_paths written masked span_at hidden_use malformed_at
    upto_close stripped check_template reserved_use skeleton first_unresolved formal first_missing
    bind_ref bind_pieces bind_params canonical_scalar escaped_byte escape_literal quote_literal
    bare_number after_digits some_digits exponent_or_end fraction_or_end is_mantissa
    is_numeric_literal format_param_value claim_literal
bound = refl

defaulted :
    bind_params scoped_pipe [] org_claims ≡ ok (codes "select * from t where a = 'o''1' limit 10")
unfolding cut_prefix bytes_eq contains split_at lookup span is_space is_path_byte template_at
    claim_at resolve_claim bind_claim navigate_claims get_field is_name_byte param_at placeholder_at
    pieces_from pieces claims_of claim_paths written masked span_at hidden_use malformed_at
    upto_close stripped check_template reserved_use skeleton first_unresolved formal first_missing
    bind_ref bind_pieces bind_params canonical_scalar escaped_byte escape_literal quote_literal
    bare_number after_digits some_digits exponent_or_end fraction_or_end is_mantissa
    is_numeric_literal format_param_value claim_literal
defaulted = refl
