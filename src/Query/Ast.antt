-- ===== src/Query/Ast.antt =====
-- internal/query/ast.go and internal/query/errors.go: the query, and why it is refused.
-- A value of a filter is decoded JSON. The program decodes its numbers to float64 (the API does not
-- ask for json.Number), and Build passes a value on as it is: a number here is a name of that float.
use wave_house.Prelude.{List, Bool, Option}
use wave_house.Prelude.Bytes.{Bytes}
use wave_house.Prelude.Int.{ℤ}
use wave_house.Policy.Values.{Json}

pub record Aggregation : Type 0 where
  pub fn : Bytes
  pub column : Bytes
  pub alias : Bytes

pub record Filter : Type 0 where
  pub column : Bytes
  pub op : Bytes
  pub value : Json

pub record OrderClause : Type 0 where
  pub column : Bytes
  pub dir : Bytes

pub record TimeRange : Type 0 where
  pub column : Bytes
  pub since : Bytes
  pub until : Bytes

pub record StructuredQuery : Type 0 where
  pub columns : List Bytes
  pub select_all : Bool
  pub aggregations : List Aggregation
  pub filters : List Filter
  pub group_by : List Bytes
  pub order_by : List OrderClause
  pub limit : ℤ
  pub time_range : Option TimeRange

-- `nil_select` is the panic of reading a grant's read side that was never resolved.
pub data QueryError : Type 0 where
  unsupported_table : QueryError
  columns_and_select_all : QueryError
  select_all_and_aggregations : QueryError
  unknown_column : Bytes → QueryError
  unsupported_column : Bytes → QueryError
  forbidden_column : Bytes → QueryError
  unsupported_aggregation : Bytes → QueryError
  forbidden_aggregation : Bytes → QueryError
  unsupported_alias : Bytes → QueryError
  unsupported_order_column : Bytes → QueryError
  no_readable_columns : QueryError
  empty_projection : QueryError
  bad_in_value : QueryError
  unsupported_operator : Bytes → QueryError
  invalid_time : Bytes → QueryError
  nil_select : QueryError
