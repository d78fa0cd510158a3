-- ===== src/Policy/RowFilter/Closed.antt =====
-- pkg/policy/rowfilter.go: proofs about unresolved predicates, and columns of unknown type.
use mathlib.Core.List.{Memᴰ}
use wave_house.Prelude.{
  ℕ, Bool, Option, List, [], ◌≡◌, false, some, true, Bool-cases, refl, ◌∷◌, ◌⊎◌, inl, ap, inr, none,
}
use wave_house.Prelude.Bytes.{Bytes, bytes_eq, bytes_eq_iff, lookup}
use wave_house.Prelude.Int.{ℤ}
use wave_house.Policy.Values.{Json}
use wave_house.Policy.Types.{Op, ResolvedPredicate}
use wave_house.Policy.Predicates.{clause_by_op, false_clause}
use wave_house.Policy.RowFilter.{
  ColumnSpec, opaque, Row, scalar_string, compare_opaque, any_same, compare_scalar, is_same,
  is_other, is_less, is_greater, matches, holds, holds_at,
}

-- The payload's own text is among the constants.
pub record IsSpelled (p : ResolvedPredicate) (row : Row) : Type 0 where
  pub raw : Json
  pub spelling : Bytes
  pub present : lookup p.column row ≡ some raw
  pub scalar : scalar_string raw ≡ some spelling
  pub among : Memᴰ spelling p.values
  pub equality : (p.op ≡ Op.eq) ⊎ (p.op ≡ Op.one_of)

compare_opaque-same :
    (o : Option Bytes) (v : Bytes) → is_same (compare_opaque o v) ≡ true → o ≡ some v
compare_opaque-same none v h = absurd (cc)
compare_opaque-same (some s) v h = elim (Bool-cases (bytes_eq s v)) [
  | inl e ↦ ap some ((bytes_eq_iff s v).0 e)
  | inr e ↦ absurd (cc (rw e at h))
]

compare_opaque-never :
    (o : Option Bytes) (v : Bytes)
    → (is_other (compare_opaque o v) ≡ false)
      × (is_greater (compare_opaque o v) ≡ false)
      × (is_less (compare_opaque o v) ≡ false)
compare_opaque-never none v = (refl, refl, refl)
compare_opaque-never (some s) v = elim (Bool-cases (bytes_eq s v)) [
  | inl e ↦ rw e (refl, refl, refl)
  | inr e ↦ rw e (refl, refl, refl)
]

pub clause_of_none : (qcol : Bytes) (op : Op) → clause_by_op qcol op [] ≡ (false_clause, [])
clause_of_none qcol Op.eq = refl
clause_of_none qcol Op.neq = refl
clause_of_none qcol Op.gt = refl
clause_of_none qcol Op.lt = refl
clause_of_none qcol Op.one_of = refl

module _ (json_valid : Bytes → Bool) (parse_float : ℕ → Bytes → Option ℤ) where
  pub matches-valueless :
      (p : ResolvedPredicate) (row : Row) (spec : ColumnSpec)
      → p.values ≡ []
      → matches json_valid parse_float p row spec ≡ false
  unfolding matches
  matches-valueless p row spec h = rw h refl

  any_same-among :
      (raw : Json) (vs : List Bytes)
      → any_same json_valid parse_float raw vs opaque ≡ true
      → (s : Bytes) × (scalar_string raw ≡ some s) × Memᴰ s vs
  unfolding any_same compare_scalar
  any_same-among raw [] h = absurd (cc)
  any_same-among raw (v ∷ vs) h =
      elim (Bool-cases (is_same (compare_opaque (scalar_string raw) v))) [
        | inl e ↦ (v, compare_opaque-same (scalar_string raw) v e, Memᴰ.head refl)
        | inr e ↦ let (s, k, m) = any_same-among raw vs (rw e at h) in (s, k, Memᴰ.tail m)
      ]

  -- What a predicate that holds on an opaque column says of its parts.
  abbrev pub Spelled : Op → Option Json → List Bytes → Type 0
  Spelled op o vs =
      (raw : Json) × (spelling : Bytes) × (o ≡ some raw)
      × (scalar_string raw ≡ some spelling)
      × Memᴰ spelling vs
      × ((op ≡ Op.eq) ⊎ (op ≡ Op.one_of))

  holds-opaque :
      (op : Op) (raw : Json) (v : Bytes) (vs : List Bytes)
      → holds json_valid parse_float op raw v vs opaque ≡ true
      → Spelled op (some raw) (v ∷ vs)
  unfolding compare_scalar
  holds-opaque Op.eq raw v vs h =
      (raw, v, refl, compare_opaque-same (scalar_string raw) v h, Memᴰ.head refl, inl refl)
  holds-opaque Op.neq raw v vs h =
      let (e, _, _) = compare_opaque-never (scalar_string raw) v in absurd (cc)
  holds-opaque Op.gt raw v vs h =
      let (_, e, _) = compare_opaque-never (scalar_string raw) v in absurd (cc)
  holds-opaque Op.lt raw v vs h =
      let (_, _, e) = compare_opaque-never (scalar_string raw) v in absurd (cc)
  holds-opaque Op.one_of raw v vs h =
      let (s, k, m) = any_same-among raw (v ∷ vs) h in (raw, s, refl, k, m, inr refl)

  holds_at-opaque :
      (op : Op) (o : Option Json) (vs : List Bytes)
      → holds_at json_valid parse_float op o vs opaque ≡ true
      → Spelled op o vs
  holds_at-opaque op o [] h = absurd (cc)
  holds_at-opaque op none (v ∷ vs) h = absurd (cc)
  holds_at-opaque op (some raw) (v ∷ vs) h = holds-opaque op raw v vs h

  -- A column whose type is not known lets a row through only by equality of bytes: a predicate that
  -- holds there is an equality or a set, the event has the column, and the scalar's own text is
  -- one of the predicate's constants. Every inequality and every order is withheld.
  pub matches-opaque :
      (p : ResolvedPredicate) (row : Row)
      → matches json_valid parse_float p row opaque ≡ true
      → IsSpelled p row
  unfolding matches
  matches-opaque p row h =
      let (raw, s, e, k, m, op) = holds_at-opaque p.op (lookup p.column row) p.values h in
      record { raw = raw; spelling = s; present = e; scalar = k; among = m; equality = op }
