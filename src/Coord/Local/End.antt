-- ===== src/Coord/Local/End.antt =====
-- internal/coord/local.go: proofs about the end of a term.
use mathlib.Core.Option.{some-injective}
use mathlib.Core.Path.{subst}
use wave_house.Prelude.{
  ℕ, true, false, some, none, Bool-cases, inl, inr, ◌≡◌, if◌then◌else◌, ap, ◌∙◌, sym, ◌==◌, ==_iff,
}
use wave_house.Prelude.Bytes.{Bytes, bytes_eq, bytes_eq_iff, lookup}
use wave_house.Prelude.Maps.{delete, lookup-delete}
use wave_house.Coord.Local.{
  Term, same_term, has_term, remove_term, System, set_handle, last_token, end_locked,
}
use wave_house.Coord.Local.Terms.{same_term-eq, same_term_self, has_term-remove_term, IsExclusive}

module _ (s : System) (h : ℕ) (t : Term) (inv : IsExclusive s) where
  -- The system after the term ended.
  ended : System
  ended = record {
    table = record { held = delete t.name s.table.held; tokens = s.table.tokens };
    handle =
        set_handle h
          (record { closed = (s.handle h).closed; terms = remove_term t (s.handle h).terms })
          s.handle;
  }

  kept_ended :
      (u : Term)
      → lookup u.name s.table.held ≡ some u
      → ¬ (bytes_eq t.name u.name ≡ true)
      → lookup u.name (delete t.name s.table.held) ≡ some u
  kept_ended u e apart_names = elim (Bool-cases (bytes_eq t.name u.name)) [
    | inl same ↦ absurd (apart_names same)
    | inr other ↦ rw (lookup-delete u.name t.name s.table.held, other) e
  ]

  module _ (is_own : has_term t (s.handle h).terms ≡ true) where
    one_holder :
        (u : Term) → lookup u.name s.table.held ≡ some u → bytes_eq t.name u.name ≡ true → t ≡ u
    one_holder u e same = some-injective _ _ (
        sym (inv.owned h t is_own).1
        ∙ ap (λ k. lookup k s.table.held) ((bytes_eq_iff t.name u.name).0 same)
        ∙ e)

    ended-owned :
        (i : ℕ) (u : Term)
        → has_term u (ended.handle i).terms ≡ true
        → (u.owner ≡ i) × (lookup u.name ended.table.held ≡ some u)
    unfolding ended
    ended-owned i u e = elim (Bool-cases (h == i)) [
      | inr other ↦
          let was : (u.owner ≡ i) × (lookup u.name s.table.held ≡ some u) =
            inv.owned i u (rw (ended, other) at e) in
          (
            was.0,
            kept_ended u was.1 λ same.
                let t_is_u : t ≡ u = one_holder u was.1 same in
                let owner_t : t.owner ≡ h = (inv.owned h t is_own).0 in
                let owners : h ≡ i = sym owner_t ∙ ap (λ x. x.owner) t_is_u ∙ was.0 in
                absurd (cc (other, (==_iff h i).1 owners)),
          )
      | inl here ↦
          let left : (if same_term t u then false else has_term u (s.handle h).terms) ≡ true =
            sym (has_term-remove_term u t (s.handle h).terms) ∙ (rw (ended, here) at e) in
          elim (Bool-cases (same_term t u)) [
            | inl gone ↦ absurd (cc (rw gone at left))
            | inr stays ↦
                let was : (u.owner ≡ h) × (lookup u.name s.table.held ≡ some u) =
                  inv.owned h u (rw stays at left) in
                (
                  was.0 ∙ (==_iff h i).0 here,
                  kept_ended u was.1 λ same.
                      absurd
                        (cc (stays, same_term_self t, ap (same_term t) (one_holder u was.1 same))),
                )
          ]
    ]

    still_held :
        (k : Bytes) (u : Term)
        → bytes_eq t.name k ≡ false
        → u.name ≡ k
        → has_term u (s.handle u.owner).terms ≡ true
        → has_term u (ended.handle u.owner).terms ≡ true
    unfolding ended
    still_held k u apart_names named e = elim (Bool-cases (h == u.owner)) [
      | inr other ↦ rw (ended, other) e
      | inl here ↦
          let e2 : has_term u (s.handle h).terms ≡ true =
            subst (λ j. has_term u (s.handle j).terms ≡ true) (sym ((==_iff h u.owner).0 here)) e in
          elim (Bool-cases (same_term t u)) [
            | inl same ↦
                let names : t.name ≡ k = ap (λ x. x.name) (same_term-eq t u same) ∙ named in
                absurd (cc (apart_names, (bytes_eq_iff t.name k).1 names))
            | inr differs ↦
                rw (ended, here, has_term-remove_term u t (s.handle h).terms, differs) e2
          ]
    ]

    ended-live :
        (k : Bytes) (u : Term)
        → lookup k ended.table.held ≡ some u
        → (u.name ≡ k)
          × (has_term u (ended.handle u.owner).terms ≡ true)
          × (u.token ≡ last_token k ended.table)
    unfolding ended last_token
    ended-live k u e =
        let left : (if bytes_eq t.name k then none else lookup k s.table.held) ≡ some u =
          sym (lookup-delete k t.name s.table.held) ∙ e in
        elim (Bool-cases (bytes_eq t.name k)) [
          | inl gone ↦ absurd (cc (rw gone at left))
          | inr stays ↦
              let was : (u.name ≡ k)
                  × (has_term u (s.handle u.owner).terms ≡ true)
                  × (u.token ≡ last_token k s.table) =
                inv.live k u (rw stays at left) in
              (was.0, still_held k u stays was.0 was.1, was.2)
        ]

    ended-IsExclusive : IsExclusive ended
    ended-IsExclusive = record { owned = ended-owned; live = ended-live }

  pub end_locked-IsExclusive : IsExclusive (end_locked s h t)
  unfolding end_locked ended
  end_locked-IsExclusive = elim (Bool-cases (has_term t (s.handle h).terms)) [
    | inl own ↦ rw (end_locked, own) (ended-IsExclusive own)
    | inr other ↦ rw (end_locked, other) inv
  ]
