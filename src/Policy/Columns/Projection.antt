-- ===== src/Policy/Columns/Projection.antt =====
-- pkg/policy/policy.go: proofs about `RestrictsColumns` and `AllowedProjection`.
use mathlib.Core.Option
use mathlib.Core.List.{Memᴰ}
use wave_house.Prelude.{
  ℕ, List, some, ◌∷◌, ◌≡◌, false, true, ◌++◌, [], length, ◌↔◌, ◌≤◌, ◌≢◌, arith, length-append, ap,
  refl, Option, Bool-cases, inl, inr, none,
}
use wave_house.Prelude.Bytes.{Bytes, bytes_eq_iff, bytes_eq_self}
use wave_house.Policy.Types.{ResolvedSelect, ResolvedPermissions}
use wave_house.Policy.Columns.{
  is_denied, is_listed, passes_lists, side_lists, allows_in, is_column_allowed, keep_allowed,
  allowed_projection, lacks_star, restricts_lists, restricts_columns,
}

-- A name longer than every name of the list.
fresh : List Bytes → Bytes
fresh [] = []
fresh (a ∷ rest) = 0 ∷ (a ++ fresh rest)

is_listed-fresh :
    (allow more : List Bytes) (col : Bytes)
    → lacks_star allow ≡ true
    → length (fresh allow) ≤ length col
    → is_listed col allow ≡ false
unfolding fresh is_listed lacks_star
is_listed-fresh [] more col h k = refl
is_listed-fresh (a ∷ rest) more col h k =
    let unequal : a ≢ col =
      λ e. absurd (omega (arith, length-append a (fresh rest), ap (length {A = ℕ}) e)) in
    ground (arith, bytes_eq_iff a col, is_listed-fresh rest more col, length-append a (fresh rest))

is_listed-star :
    (allow : List Bytes) (col : Bytes) → lacks_star allow ≡ false → is_listed col allow ≡ true
unfolding is_listed lacks_star
is_listed-star [] col h = absurd (cc)
is_listed-star (a ∷ rest) col h = ground (arith, is_listed-star rest col)

restricts_lists_iff :
    (allow deny : List Bytes)
    → (restricts_lists (some (allow, deny)) ≡ false)
      ↔ ((col : Bytes) → passes_lists col allow deny ≡ true)
unfolding passes_lists is_denied
restricts_lists_iff allow (d ∷ deny) =
    (λ h. absurd (cc), λ every. absurd (ground (arith, every d, bytes_eq_self d)))
restricts_lists_iff [] [] = (λ _ col. refl, λ _. refl)
restricts_lists_iff (a ∷ allow) [] = (
  λ h col. is_listed-star (a ∷ allow) col h,
  λ every. elim (Bool-cases (lacks_star (a ∷ allow))) [
    | inl l ↦ absurd (
        ground (
          arith,
          every (fresh (a ∷ allow)),
          is_listed-fresh (a ∷ allow) [] (fresh (a ∷ allow)) l (omega arith),
        ))
    | inr l ↦ l
  ],
)

-- A grant counts as unrestricted exactly if it allows every column name whatever for reading.
pub restricts_columns_iff :
    (rp : ResolvedPermissions)
    → (restricts_columns (some rp) ≡ false)
      ↔ ((col : Bytes) → is_column_allowed (some rp) col false ≡ true)
unfolding restricts_columns is_column_allowed side_lists
restricts_columns_iff rp = elim (Bool-cases rp.allowed) [
  | inl a ↦ rw a (by_select rp.select)
  | inr a ↦ rw a (λ h. absurd (cc), λ every. absurd (cc (every [])))
]
  where
    by_select :
        (o : Option ResolvedSelect)
        → (restricts_lists (Option.map (λ s. (s.allow_columns, s.deny_columns)) o) ≡ false) ↔ (
            (col : Bytes)
            → allows_in col (Option.map (λ s. (s.allow_columns, s.deny_columns)) o) ≡ true)
    by_select none = (λ h. absurd (cc), λ every. absurd (cc (every [])))
    by_select (some s) = restricts_lists_iff s.allow_columns s.deny_columns

module _ (rp : ResolvedPermissions) where
  abbrev KeepsExactly : List Bytes → Bytes → Type 0
  KeepsExactly cols c =
      Memᴰ c (keep_allowed rp cols) ↔ (Memᴰ c cols × (is_column_allowed (some rp) c false ≡ true))

  mem-keep_allowed : (cols : List Bytes) (c : Bytes) → KeepsExactly cols c
  unfolding keep_allowed
  mem-keep_allowed [] c = (λ m. elim m [ ], λ (m, _). elim m [ ])
  mem-keep_allowed (d ∷ cols) c = elim (Bool-cases (is_column_allowed (some rp) d false)) [
    | inl e ↦ rw e (kept e (mem-keep_allowed cols c), λ (m, a). keep m a (mem-keep_allowed cols c))
    | inr e ↦
        rw e (dropped (mem-keep_allowed cols c), λ (m, a). drop_it e m a (mem-keep_allowed cols c))
  ]
    where
      kept :
          is_column_allowed (some rp) d false ≡ true
          → KeepsExactly cols c
          → Memᴰ c (d ∷ keep_allowed rp cols)
          → Memᴰ c (d ∷ cols) × (is_column_allowed (some rp) c false ≡ true)
      kept e ih (Memᴰ.head same) = (Memᴰ.head same, rw same e)
      kept e ih (Memᴰ.tail m) = (Memᴰ.tail (ih.0 m).0, (ih.0 m).1)

      keep :
          Memᴰ c (d ∷ cols)
          → is_column_allowed (some rp) c false ≡ true
          → KeepsExactly cols c
          → Memᴰ c (d ∷ keep_allowed rp cols)
      keep (Memᴰ.head same) a ih = Memᴰ.head same
      keep (Memᴰ.tail m) a ih = Memᴰ.tail (ih.1 (m, a))

      dropped :
          KeepsExactly cols c
          → Memᴰ c (keep_allowed rp cols)
          → Memᴰ c (d ∷ cols) × (is_column_allowed (some rp) c false ≡ true)
      dropped ih m = (Memᴰ.tail (ih.0 m).0, (ih.0 m).1)

      drop_it :
          is_column_allowed (some rp) d false ≡ false
          → Memᴰ c (d ∷ cols)
          → is_column_allowed (some rp) c false ≡ true
          → KeepsExactly cols c
          → Memᴰ c (keep_allowed rp cols)
      drop_it e (Memᴰ.head same) a ih = absurd (cc (rw same at a))
      drop_it e (Memᴰ.tail m) a ih = ih.1 (m, a)

  keep_allowed-append :
      (xs ys : List Bytes) → keep_allowed rp (xs ++ ys) ≡ keep_allowed rp xs ++ keep_allowed rp ys
  unfolding keep_allowed
  keep_allowed-append [] ys = refl
  keep_allowed-append (x ∷ xs) ys = ground (arith, keep_allowed-append xs ys)

-- The projection of a grant holds exactly the given columns that the role may read, in the order
-- given.
pub allowed_projection-mem :
    (rp : ResolvedPermissions) (xs ys : List Bytes) (c : Bytes)
    → (Memᴰ c (allowed_projection (some rp) xs)
        ↔ (Memᴰ c xs × (is_column_allowed (some rp) c false ≡ true)))
      × (allowed_projection (some rp) (xs ++ ys)
          ≡ allowed_projection (some rp) xs ++ allowed_projection (some rp) ys)
unfolding allowed_projection
allowed_projection-mem rp xs ys c = (mem-keep_allowed rp xs c, keep_allowed-append rp xs ys)
