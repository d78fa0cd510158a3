-- ===== src/Policy/RowFilter/Laws.antt =====
-- pkg/policy/rowfilter.go: proofs about the rows that a grant shows.
use mathlib.Core.List.{Memᴰ}
use wave_house.Prelude.{
  ℕ, Bool, Option, List, some, ◌≡◌, false, true, is_empty, ◌↔◌, All, ◌∷◌, Bool-cases, arith, inl,
  inr, [], none, refl, ◌⊎◌,
}
use wave_house.Prelude.Bytes.{Bytes, lookup}
use wave_house.Prelude.Int.{ℤ}
use wave_house.Policy.Types.{Op, ResolvedPredicate, ResolvedSelect, ResolvedPermissions}
use wave_house.Policy.Values.{Json}
use wave_house.Policy.Numeric.{Order, less, same, greater}
use wave_house.Policy.RowFilter.{
  ColumnSpec, compare_scalar, any_same, is_same, is_other, is_greater, is_less, holds, holds_at,
  Row, Columns, spec_or_opaque, matches, all_match, visible_side, row_visible, has_row_filter,
  filtered_side,
}

-- What the comparisons of a payload with the constants have to answer under each operator.
abbrev Compares : Op → (Bytes → Option Order) → Bytes → List Bytes → Type 0
Compares Op.eq cmp v vs = cmp v ≡ some same
Compares Op.neq cmp v vs = (cmp v ≡ some less) ⊎ (cmp v ≡ some greater)
Compares Op.gt cmp v vs = cmp v ≡ some greater
Compares Op.lt cmp v vs = cmp v ≡ some less
Compares Op.one_of cmp v vs = (w : Bytes) × Memᴰ w (v ∷ vs) × (cmp w ≡ some same)

is_same_iff : (o : Option Order) → (is_same o ≡ true) ↔ (o ≡ some same)
is_same_iff none = (λ h. absurd (cc), λ h. absurd (cc))
is_same_iff (some less) = (λ h. absurd (cc), λ h. absurd (cc))
is_same_iff (some same) = (λ _. refl, λ _. refl)
is_same_iff (some greater) = (λ h. absurd (cc), λ h. absurd (cc))

is_other_iff : (o : Option Order) → (is_other o ≡ true) ↔ ((o ≡ some less) ⊎ (o ≡ some greater))
is_other_iff none = (λ h. absurd (cc), λ h. elim h [ inl e ↦ absurd (cc) | inr e ↦ absurd (cc) ])
is_other_iff (some less) = (λ _. inl refl, λ _. refl)
is_other_iff (some same) =
    (λ h. absurd (cc), λ h. elim h [ inl e ↦ absurd (cc) | inr e ↦ absurd (cc) ])
is_other_iff (some greater) = (λ _. inr refl, λ _. refl)

is_greater_iff : (o : Option Order) → (is_greater o ≡ true) ↔ (o ≡ some greater)
is_greater_iff none = (λ h. absurd (cc), λ h. absurd (cc))
is_greater_iff (some less) = (λ h. absurd (cc), λ h. absurd (cc))
is_greater_iff (some same) = (λ h. absurd (cc), λ h. absurd (cc))
is_greater_iff (some greater) = (λ _. refl, λ _. refl)

is_less_iff : (o : Option Order) → (is_less o ≡ true) ↔ (o ≡ some less)
is_less_iff none = (λ h. absurd (cc), λ h. absurd (cc))
is_less_iff (some less) = (λ _. refl, λ _. refl)
is_less_iff (some same) = (λ h. absurd (cc), λ h. absurd (cc))
is_less_iff (some greater) = (λ h. absurd (cc), λ h. absurd (cc))

module _ (json_valid : Bytes → Bool) (parse_float : ℕ → Bytes → Option ℤ) where
  abbrev compared : Json → ColumnSpec → Bytes → Option Order
  compared raw spec v = compare_scalar json_valid parse_float raw v spec

  any_same_iff :
      (raw : Json) (vs : List Bytes) (spec : ColumnSpec)
      → (any_same json_valid parse_float raw vs spec ≡ true)
        ↔ ((w : Bytes) × Memᴰ w vs × (compared raw spec w ≡ some same))
  unfolding any_same
  any_same_iff raw [] spec = (λ h. absurd (cc), λ (w, m, e). elim m [ ])
  any_same_iff raw (v ∷ vs) spec =
      let rest = any_same_iff raw vs spec in
      elim (Bool-cases (is_same (compared raw spec v))) [
        | inl e ↦
            rw e (λ _. (v, Memᴰ.head refl, (is_same_iff (compared raw spec v)).0 e), λ _. refl)
        | inr e ↦ rw e (
          λ h. let (w, m, k) = rest.0 h in (w, Memᴰ.tail m, k),
          λ (w, m, k). elim m [
            | Memᴰ.head here ↦ absurd (cc (e, (is_same_iff (compared raw spec w)).1 k, here))
            | Memᴰ.tail later ↦ rest.1 (w, later, k)
          ],
        )
      ]

  holds_iff :
      (op : Op) (raw : Json) (v : Bytes) (vs : List Bytes) (spec : ColumnSpec)
      → (holds json_valid parse_float op raw v vs spec ≡ true)
        ↔ Compares op (compared raw spec) v vs
  holds_iff Op.eq raw v vs spec = is_same_iff (compared raw spec v)
  holds_iff Op.neq raw v vs spec = is_other_iff (compared raw spec v)
  holds_iff Op.gt raw v vs spec = is_greater_iff (compared raw spec v)
  holds_iff Op.lt raw v vs spec = is_less_iff (compared raw spec v)
  holds_iff Op.one_of raw v vs spec = any_same_iff raw (v ∷ vs) spec

  abbrev HoldsAt : Op → Option Json → List Bytes → ColumnSpec → Type 0
  HoldsAt op o values spec =
      (raw : Json) × (v : Bytes) × (vs : List Bytes) × (o ≡ some raw)
      × (values ≡ v ∷ vs)
      × Compares op (compared raw spec) v vs

  holds_at_iff :
      (op : Op) (o : Option Json) (values : List Bytes) (spec : ColumnSpec)
      → (holds_at json_valid parse_float op o values spec ≡ true) ↔ HoldsAt op o values spec
  holds_at_iff op o [] spec = (λ h. absurd (cc), λ (_, _, _, _, e, _). absurd (cc))
  holds_at_iff op none (v ∷ vs) spec = (λ h. absurd (cc), λ (_, _, _, e, _, _). absurd (cc))
  holds_at_iff op (some raw) (v ∷ vs) spec = (
    λ h. (raw, v, vs, refl, refl, (holds_iff op raw v vs spec).0 h),
    λ (raw2, v2, vs2, e, f, h).
        let there : holds json_valid parse_float op raw2 v2 vs2 spec ≡ true =
          (holds_iff op raw2 v2 vs2 spec).1 h in
        cc (e, f, there),
  )

module _ (json_valid : Bytes → Bool) (parse_float : ℕ → Bytes → Option ℤ) (row : Row)
    (cols : Columns) where
  -- The row has the predicate's column, the predicate has a constant, and the payload compares with
  -- the constants, under what is known of the column, as the operator asks.
  abbrev pub Matches : ResolvedPredicate → Type 0
  Matches p =
      HoldsAt json_valid parse_float p.op (lookup p.column row) p.values
        (spec_or_opaque (lookup p.column cols))

  matches_iff :
      (p : ResolvedPredicate)
      → (matches json_valid parse_float p row (spec_or_opaque (lookup p.column cols)) ≡ true)
        ↔ Matches p
  unfolding matches
  matches_iff p =
      holds_at_iff json_valid parse_float p.op (lookup p.column row) p.values
        (spec_or_opaque (lookup p.column cols))

  all_match_iff :
      (ps : List ResolvedPredicate)
      → (all_match json_valid parse_float ps row cols ≡ true) ↔ All Matches ps
  unfolding all_match
  all_match_iff [] = (λ _. tt, λ _. refl)
  all_match_iff (p ∷ ps) =
      let ih = all_match_iff ps in
      elim (Bool-cases
        (matches json_valid parse_float p row (spec_or_opaque (lookup p.column cols)))) [
          | inl e ↦ rw e (λ h. ((matches_iff p).0 e, ih.0 h), λ h. ih.1 h.1)
          | inr e ↦ rw e (λ h. absurd (cc), λ h. absurd (cc (e, (matches_iff p).1 h.0)))
        ]

  -- A row is visible under a grant exactly where the grant is allowed, its read side was resolved, and
  -- for every predicate of the row filter the row has the column, the predicate has a constant, and
  -- the payload compares, under the column's kind, as equal to the first constant for `=`, as less
  -- or greater for `!=`, greater for `>`, less for `<`, and equal to one of the constants for `in`.
  pub row_visible_iff :
      (rp : ResolvedPermissions)
      → (row_visible json_valid parse_float (some rp) row cols ≡ true) ↔ (
          (rp.allowed ≡ true)
          × ((s : ResolvedSelect) × (rp.select ≡ some s) × All Matches s.row_filter))
  unfolding row_visible
  row_visible_iff rp = elim (Bool-cases rp.allowed) [
    | inr e ↦ rw e (λ h. absurd (cc), λ h. absurd (cc (h.0)))
    | inl e ↦ rw e (λ h. (refl, from rp.select refl h), λ h. to h.1)
  ]
    where
      from :
          (o : Option ResolvedSelect)
          → rp.select ≡ o
          → visible_side json_valid parse_float o row cols ≡ true
          → (s : ResolvedSelect) × (o ≡ some s) × All Matches s.row_filter
      from none e h = absurd (cc)
      from (some s) e h = (s, refl, (all_match_iff s.row_filter).0 h)

      to :
          (s : ResolvedSelect) × (rp.select ≡ some s) × All Matches s.row_filter
          → visible_side json_valid parse_float rp.select row cols ≡ true
      to (s, e, h) = rw e ((all_match_iff s.row_filter).1 h)

  -- The gate in front of the filter is safe: a grant that it answers no filter for shows every row.
  has_row_filter-row_visible :
      (perms : Option ResolvedPermissions)
      → has_row_filter perms ≡ false
      → row_visible json_valid parse_float perms row cols ≡ true
  unfolding has_row_filter row_visible
  has_row_filter-row_visible none h = refl
  has_row_filter-row_visible (some rp) h = elim (Bool-cases rp.allowed) [
    | inr e ↦ absurd (cc (rw e at h))
    | inl e ↦ rw e (by_side rp.select (rw e at h))
  ]
    where
      by_filter :
          (ps : List ResolvedPredicate)
          → is_empty ps ≡ true
          → all_match json_valid parse_float ps row cols ≡ true
      by_filter [] k = (all_match_iff []).1 tt
      by_filter (p ∷ ps) k = absurd (cc)

      by_side :
          (o : Option ResolvedSelect)
          → filtered_side o ≡ false
          → visible_side json_valid parse_float o row cols ≡ true
      by_side none k = absurd (cc)
      by_side (some s) k = by_filter s.row_filter (ground arith)
