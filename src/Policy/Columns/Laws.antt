-- ===== src/Policy/Columns/Laws.antt =====
-- pkg/policy/policy.go: proofs about the decision on a column.
use mathlib.Core.Option
use mathlib.Core.List.{Memᴰ}
use wave_house.Prelude.{
  List, ◌≡◌, true, ◌∷◌, ◌↔◌, false, ◌⊎◌, Bool-cases, inl, inr, [], arith, if◌then◌else◌, some, sym,
  Option, is_empty, refl, none,
}
use wave_house.Prelude.Bytes.{Bytes, bytes_eq, bytes_eq_iff}
use wave_house.Policy.Types.{ResolvedSelect, ResolvedPermissions}
use wave_house.Policy.Columns.{
  star, is_denied, is_listed, passes_lists, side_lists, allows_in, is_column_allowed, List, true,
  false,
}

module _ (col : Bytes) where
  is_denied_iff : (ds : List Bytes) → (is_denied col ds ≡ true) ↔ Memᴰ col ds
  unfolding is_denied
  is_denied_iff [] = (λ h. absurd (cc), λ m. elim m [ ])
  is_denied_iff (d ∷ ds) = (there (is_denied_iff ds), back (is_denied_iff ds))
    where
      there :
          (is_denied col ds ≡ true) ↔ Memᴰ col ds
          → is_denied col (d ∷ ds) ≡ true
          → Memᴰ col (d ∷ ds)
      there ih h = elim (Bool-cases (bytes_eq d col)) [
        | inl e ↦ Memᴰ.head (sym ((bytes_eq_iff d col).0 e))
        | inr e ↦ Memᴰ.tail (ih.0 (rw e at h))
      ]

      back :
          (is_denied col ds ≡ true) ↔ Memᴰ col ds
          → Memᴰ col (d ∷ ds)
          → is_denied col (d ∷ ds) ≡ true
      back ih (Memᴰ.head e) = rw ((bytes_eq_iff d col).1 (sym e))
      back ih (Memᴰ.tail m) = ground (arith, ih.1 m)

  -- What an allow list lets pass: its members, or anything where the wildcard is among them.
  abbrev pub Lists : List Bytes → Type 0
  Lists allow = Memᴰ star allow ⊎ Memᴰ col allow

  is_listed_iff : (allow : List Bytes) → (is_listed col allow ≡ true) ↔ Lists allow
  unfolding is_listed
  is_listed_iff [] = (λ h. absurd (cc), λ o. elim o [ inl m ↦ elim m [ ] | inr m ↦ elim m [ ] ])
  is_listed_iff (a ∷ rest) =
      let ih = is_listed_iff rest in
      (there ih, λ o. elim o [ inl m ↦ wild ih m | inr m ↦ named ih m ])
    where
      later : Lists rest → Lists (a ∷ rest)
      later (inl m) = inl (Memᴰ.tail m)
      later (inr m) = inr (Memᴰ.tail m)

      there :
          (is_listed col rest ≡ true) ↔ Lists rest
          → is_listed col (a ∷ rest) ≡ true
          → Lists (a ∷ rest)
      there ih h = elim (Bool-cases (bytes_eq a star)) [
        | inl e ↦ inl (Memᴰ.head (sym ((bytes_eq_iff a star).0 e)))
        | inr e ↦ elim (Bool-cases (bytes_eq a col)) [
          | inl f ↦ inr (Memᴰ.head (sym ((bytes_eq_iff a col).0 f)))
          | inr f ↦ later (ih.0 (rw (e, f) at h))
        ]
      ]

      wild :
          (is_listed col rest ≡ true) ↔ Lists rest
          → Memᴰ star (a ∷ rest)
          → is_listed col (a ∷ rest) ≡ true
      wild ih (Memᴰ.head e) = rw ((bytes_eq_iff a star).1 (sym e))
      wild ih (Memᴰ.tail m) = ground (arith, ih.1 (inl m))

      named :
          (is_listed col rest ≡ true) ↔ Lists rest
          → Memᴰ col (a ∷ rest)
          → is_listed col (a ∷ rest) ≡ true
      named ih (Memᴰ.head e) = ground (arith, (bytes_eq_iff a col).1 (sym e))
      named ih (Memᴰ.tail m) = ground (arith, ih.1 (inr m))

  -- The rule of the documentation: never a denied column, and else all of them where the allow list
  -- is empty or has the wildcard, or its members.
  pub record IsReadable (allow deny : List Bytes) : Type 0 where
    pub undenied : ¬ Memᴰ col deny
    pub listed : (allow ≡ []) ⊎ Lists allow

  passes_lists_sound :
      (allow deny : List Bytes) → passes_lists col allow deny ≡ true → IsReadable allow deny
  unfolding passes_lists
  passes_lists_sound allow deny h = record {
    undenied = λ m. absurd (ground (arith, (is_denied_iff deny).1 m));
    listed = by_allow allow h;
  }
    where
      by_allow :
          (allow' : List Bytes) → passes_lists col allow' deny ≡ true → (allow' ≡ []) ⊎ Lists allow'
      by_allow [] k = inl refl
      by_allow (a ∷ rest) k = inr ((is_listed_iff (a ∷ rest)).0 (ground arith))

  passes_lists_complete :
      (allow deny : List Bytes) → IsReadable allow deny → passes_lists col allow deny ≡ true
  unfolding passes_lists
  passes_lists_complete allow deny r =
      let open_deny : is_denied col deny ≡ false = elim (Bool-cases (is_denied col deny)) [
        | inl e ↦ absurd (r.undenied ((is_denied_iff deny).0 e))
        | inr e ↦ e
      ] in
      rw open_deny (by_allow allow r.listed)
    where
      by_allow :
          (allow' : List Bytes)
          → (allow' ≡ []) ⊎ Lists allow'
          → (if is_empty allow' then true else is_listed col allow') ≡ true
      by_allow [] k = refl
      by_allow (a ∷ rest) (inl e) = absurd (cc)
      by_allow (a ∷ rest) (inr m) = (is_listed_iff (a ∷ rest)).1 m

-- A column is allowed for reading exactly if the grant is allowed, its read side was resolved, and
-- the lists of that side let the column pass: it is not denied, and it is listed, or the allow list
-- is empty or has the wildcard.
pub is_column_allowed_iff :
    (rp : ResolvedPermissions) (col : Bytes)
    → (is_column_allowed (some rp) col false ≡ true) ↔ (
        (rp.allowed ≡ true)
        × ((s : ResolvedSelect) × (rp.select ≡ some s)
            × IsReadable col s.allow_columns s.deny_columns))
unfolding is_column_allowed side_lists
is_column_allowed_iff rp col = elim (Bool-cases rp.allowed) [
  | inl a ↦ rw a (λ h. (refl, by_select rp.select refl h), λ h. complete h.1)
  | inr a ↦ rw a (λ h. absurd (cc), λ (h, _). absurd (cc))
]
  where
    by_select :
        (o : Option ResolvedSelect)
        → rp.select ≡ o
        → allows_in col (Option.map (λ s. (s.allow_columns, s.deny_columns)) o) ≡ true
        → (s : ResolvedSelect) × (rp.select ≡ some s)
          × IsReadable col s.allow_columns s.deny_columns
    by_select none e h = absurd (cc)
    by_select (some s) e h = (s, e, passes_lists_sound col s.allow_columns s.deny_columns h)

    complete :
        (s : ResolvedSelect) × (rp.select ≡ some s) × IsReadable col s.allow_columns s.deny_columns
        → allows_in col (side_lists rp false) ≡ true
    complete (s, e, r) = rw e (passes_lists_complete col s.allow_columns s.deny_columns r)
