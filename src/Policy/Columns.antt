-- ===== src/Policy/Columns.antt =====
-- pkg/policy/policy.go: what a resolved grant answers about columns, aggregations and checks.
-- A nil receiver is `none`. `to_lower` is strings.ToLower, whose Unicode tables are not modelled.
pub mod Laws
pub mod Projection
use mathlib.Core.Option.{Option, some}
use mathlib.Core.Option
use wave_house.Prelude.{
  Bool, List, Option, false, if◌then◌else◌, some, true, ◌∷◌, [], is_empty, none, ◌||◌,
}
use wave_house.Prelude.Bytes.{Bytes, codes, bytes_eq}
use wave_house.Policy.Types.{Required, ResolvedPermissions}

abbrev pub star : Bytes
star = codes "*"

-- The two loops of IsColumnAllowed.
unfoldable pub is_denied : Bytes → List Bytes → Bool
is_denied col [] = false
is_denied col (d ∷ ds) = if bytes_eq d col then true else is_denied col ds

unfoldable pub is_listed : Bytes → List Bytes → Bool
is_listed col [] = false
is_listed col (a ∷ as') = if bytes_eq a star || bytes_eq a col then true else is_listed col as'

unfoldable pub passes_lists : Bytes → List Bytes → List Bytes → Bool
passes_lists col allow deny =
    if is_denied col deny then false else if is_empty allow then true else is_listed col allow

-- The allow and deny lists of the side that was asked for, if it was resolved.
unfoldable pub side_lists : ResolvedPermissions → Bool → Option (List Bytes × List Bytes)
side_lists rp true = Option.map (λ i. (i.allow_columns, i.deny_columns)) rp.insert
side_lists rp false = Option.map (λ s. (s.allow_columns, s.deny_columns)) rp.select

abbrev pub allows_in : Bytes → Option (List Bytes × List Bytes) → Bool
allows_in col none = false
allows_in col (some (allow, deny)) = passes_lists col allow deny

unfoldable pub is_column_allowed : Option ResolvedPermissions → Bytes → Bool → Bool
is_column_allowed none col insert = true
is_column_allowed (some rp) col insert =
    if rp.allowed then allows_in col (side_lists rp insert) else false

abbrev pub clauses_of : ResolvedPermissions → Option (List (Bytes × Required))
clauses_of rp = Option.map (λ i. i.check_clauses) rp.insert

-- `none` is the answer false: the write is refused.
unfoldable pub check_clauses : Option ResolvedPermissions → Option (List (Bytes × Required))
check_clauses none = some []
check_clauses (some rp) = if rp.allowed then clauses_of rp else none

unfoldable pub keep_allowed : ResolvedPermissions → List Bytes → List Bytes
keep_allowed rp [] = []
keep_allowed rp (c ∷ cs) =
    let rest = keep_allowed rp cs in if is_column_allowed (some rp) c false then c ∷ rest else rest

unfoldable pub allowed_projection : Option ResolvedPermissions → List Bytes → List Bytes
allowed_projection none cols = cols
allowed_projection (some rp) cols = keep_allowed rp cols

-- The loop over the allow list that looks for the wildcard.
unfoldable pub lacks_star : List Bytes → Bool
lacks_star [] = true
lacks_star (a ∷ as') = if bytes_eq a star then false else lacks_star as'

abbrev pub restricts_lists : Option (List Bytes × List Bytes) → Bool
restricts_lists none = true
restricts_lists (some (allow, deny)) =
    if is_empty deny then if is_empty allow then false else lacks_star allow else true

unfoldable pub restricts_columns : Option ResolvedPermissions → Bool
restricts_columns none = false
restricts_columns (some rp) = if rp.allowed then restricts_lists (side_lists rp false) else true

module _ (to_lower : Bytes → Bytes) where
  unfoldable pub lists_folded : Bytes → List Bytes → Bool
  lists_folded fn [] = false
  lists_folded fn (a ∷ as') = if bytes_eq (to_lower a) fn then true else lists_folded fn as'

  abbrev pub aggregation_lists : ResolvedPermissions → Option (List Bytes × List Bytes)
  aggregation_lists rp = Option.map (λ s. (s.allowed_aggregations, s.denied_aggregations)) rp.select

  abbrev pub passes_aggregations : Bytes → Option (List Bytes × List Bytes) → Bool
  passes_aggregations fn none = false
  passes_aggregations fn (some (allow, deny)) =
      if lists_folded fn deny then false else if is_empty allow then true else lists_folded fn allow

  unfoldable pub is_aggregation_allowed : Option ResolvedPermissions → Bytes → Bool
  is_aggregation_allowed none fn = true
  is_aggregation_allowed (some rp) fn =
      if rp.allowed then passes_aggregations (to_lower fn) (aggregation_lists rp) else false
