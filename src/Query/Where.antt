-- ===== src/Query/Where.antt =====
-- internal/query/builder.go: the WHERE clause of the caller's filters and time range.
-- Go's clock and its reading and writing of times are the parameter `Clock`.
use wave_house.Prelude.{
  ℕ, List, Option, Result, if◌then◌else◌, ◌-◌, err, is_empty, ok, some, ◌%◌, ◌==◌, ◌∷◌, [], none,
  ◌*◌, ◌++◌, ◌+◌, ◌||◌, ◌>>=◌,
}
use wave_house.Prelude.Bytes.{Bytes, codes, bytes_eq}
use wave_house.Prelude.Int.{ℤ, pos, negsuc, ◌-ℤ◌}
use wave_house.Chsql.Quote.{quote_ident}
use wave_house.Policy.Values.{Json, str, arr, cons, items}
use wave_house.Query.Ast.{
  Filter, TimeRange, QueryError, bad_in_value, unsupported_operator, invalid_time,
}

-- An instant is in nanoseconds since Go's zero time. `parse_relative` is time.ParseDuration behind
-- `expandDayWeek`, whose floating-point text is not modelled; `format` is Format with the layout
-- of ClickHouse.
pub record Clock : Type 0 where
  pub to_lower : Bytes → Bytes
  pub now : ℤ
  pub parse_relative : Bytes → Option ℤ
  pub parse_rfc3339 : Bytes → Option ℤ
  pub format : ℤ → Bytes

-- time.Time.Truncate: down to a multiple of the duration.
unfoldable pub truncate_time : ℤ → ℕ → ℤ
truncate_time (pos n) d = pos (n - n % d)
truncate_time (negsuc n) d = negsuc (n + (d - 1 - n % d))

unfoldable pub bucket_time : ℤ → ℕ → ℤ
bucket_time t bucket_seconds =
    if bucket_seconds == 0 then t else truncate_time t (bucket_seconds * 1_000_000_000)

-- A parameter of the clause, as the driver gets it.
abbrev pub Param : Type 0
Param = Json

abbrev pub Clause : Type 0
Clause = Bytes × List Param

abbrev pub more_placeholders : List Json → Bytes
more_placeholders [] = []
more_placeholders (v ∷ vs) = codes ",?" ++ more_placeholders vs

abbrev pub comparison : Bytes → Bytes → Json → Result QueryError Clause
comparison col op v = ok (col ++ op, v ∷ [])

abbrev pub in_filter : Bytes → Json → Result QueryError Clause
in_filter col (arr (cons v vs)) = ok (
  col ++ (codes " IN (" ++ (codes "?" ++ (more_placeholders (items vs) ++ codes ")"))),
  v ∷ items vs,
)
in_filter col _ = err bad_in_value

module _ (clock : Clock) where
  abbrev pub formatted_or : Json → Option ℤ → Json
  formatted_or v none = v
  formatted_or v (some t) = str (clock.format t)

  unfoldable pub coerce_filter_value : Json → Json
  coerce_filter_value (str s) = formatted_or (str s) (clock.parse_rfc3339 s)
  coerce_filter_value v = v

  unfoldable pub filter_to_sql : Filter → Result QueryError Clause
  filter_to_sql f =
      let col = quote_ident f.column in
      let op = clock.to_lower f.op in
      let v = coerce_filter_value f.value in
      if bytes_eq op (codes "eq")
      then comparison col (codes " = ?") v
      else if bytes_eq op (codes "neq")
      then comparison col (codes " != ?") v
      else if bytes_eq op (codes "gt")
      then comparison col (codes " > ?") v
      else if bytes_eq op (codes "gte")
      then comparison col (codes " >= ?") v
      else if bytes_eq op (codes "lt")
      then comparison col (codes " < ?") v
      else if bytes_eq op (codes "lte")
      then comparison col (codes " <= ?") v
      else if bytes_eq op (codes "like")
      then comparison col (codes " LIKE ?") v
      else if bytes_eq op (codes "in")
      then in_filter col f.value
      else err (unsupported_operator f.op)

  abbrev pub absolute : Bytes → ℕ → Option ℤ → Result QueryError Bytes
  absolute val bucket_seconds none = err (invalid_time val)
  absolute val bucket_seconds (some t) = ok (clock.format (bucket_time t bucket_seconds))

  abbrev pub relative : Bytes → ℕ → Option ℤ → Result QueryError Bytes
  relative val bucket_seconds none = absolute val bucket_seconds (clock.parse_rfc3339 val)
  relative val bucket_seconds (some d) =
      ok (clock.format (bucket_time (clock.now -ℤ d) bucket_seconds))

  unfoldable pub resolve_time_value : Bytes → ℕ → Result QueryError Bytes
  resolve_time_value val bucket_seconds = relative val bucket_seconds (clock.parse_relative val)

  abbrev pub bound_clause : Bytes → Bytes → ℕ → Result QueryError (List Clause)
  bound_clause text val bucket_seconds = do
    t ← resolve_time_value val bucket_seconds
    ok ((text, str t ∷ []) ∷ [])

  unfoldable pub until_clause : TimeRange → ℕ → Result QueryError (List Clause)
  until_clause r bucket_seconds =
      if is_empty r.until
      then ok []
      else bound_clause (quote_ident r.column ++ codes " <= ?") r.until bucket_seconds

  unfoldable pub time_clauses : Option TimeRange → ℕ → Result QueryError (List Clause)
  time_clauses none bucket_seconds = ok []
  time_clauses (some r) bucket_seconds = if is_empty r.column || is_empty r.since then ok [] else do
    since ← bound_clause (quote_ident r.column ++ codes " >= ?") r.since bucket_seconds
    until ← until_clause r bucket_seconds
    ok (since ++ until)

  -- The clauses with their parameters. No clause of `filterToSQL` is empty, so the guard against
  -- an empty one is left out.
  unfoldable pub filter_clauses : List Filter → Result QueryError (List Clause)
  filter_clauses [] = ok []
  filter_clauses (f ∷ fs) = do c ← filter_to_sql f; cs ← filter_clauses fs; ok (c ∷ cs)

  unfoldable pub build_where : List Filter → Option TimeRange → ℕ → Result QueryError (List Clause)
  build_where filters time_range bucket_seconds = do
    parts ← filter_clauses filters
    times ← time_clauses time_range bucket_seconds
    ok (parts ++ times)
