-- ===== src/Coord/Local/Grant.antt =====
-- internal/coord/local.go: proofs about the grant of a lease.
use mathlib.Core.Option.{some-injective}
use mathlib.Core.Path.{subst}
use wave_house.Prelude.{
  ℕ, true, false, some, none, Bool-cases, inl, inr, arith, ◌≡◌, if◌then◌else◌, Bool, ap, refl, ◌∙◌,
  sym, ◌==◌, ◌⊎◌, ==_iff,
}
use wave_house.Prelude.Bytes.{Bytes, bytes_eq, bytes_eq_iff, bytes_eq_self, lookup}
use wave_house.Prelude.Maps.{put, lookup-put}
use wave_house.Coord.Local.{
  Term, same_term, has_term, System, set_handle, last_token, next_token, new_term, grant,
}
use wave_house.Coord.Local.Terms.{grant-last_token, same_term-eq, same_term_self, IsExclusive}

or_true : (b : Bool) → (if b then true else true) ≡ true
or_true true = refl
or_true false = refl

or_cases : (b c : Bool) → (if b then true else c) ≡ true → (b ≡ true) ⊎ (c ≡ true)
or_cases true c e = inl refl
or_cases false c e = inr e

module _ (s : System) (h : ℕ) (name : Bytes) (inv : IsExclusive s)
    (free : lookup name s.table.held ≡ none) where
  kept :
      (t : Term)
      → lookup t.name s.table.held ≡ some t
      → lookup t.name (put name (new_term s h name) s.table.held) ≡ some t
  kept t e = elim (Bool-cases (bytes_eq name t.name)) [
    | inl same ↦
        absurd (cc (free, e, ap (λ k. lookup k s.table.held) ((bytes_eq_iff name t.name).0 same)))
    | inr other ↦ rw (lookup-put t.name name (new_term s h name) s.table.held, other) e
  ]

  new_held : lookup name (put name (new_term s h name) s.table.held) ≡ some (new_term s h name)
  new_held = rw (lookup-put name name (new_term s h name) s.table.held, bytes_eq_self name) refl

  owned_before :
      (i : ℕ) (t : Term)
      → has_term t (s.handle i).terms ≡ true
      → (t.owner ≡ i) × (lookup t.name (put name (new_term s h name) s.table.held) ≡ some t)
  owned_before i t e = ((inv.owned i t e).0, kept t (inv.owned i t e).1)

  grant-owned :
      (i : ℕ) (t : Term)
      → has_term t ((grant s h name).handle i).terms ≡ true
      → (t.owner ≡ i) × (lookup t.name (grant s h name).table.held ≡ some t)
  unfolding grant has_term
  grant-owned i t e = elim (Bool-cases (h == i)) [
    | inr other ↦ owned_before i t (rw (grant, set_handle, other) at e)
    | inl here ↦ elim (or_cases _ _ (rw (grant, set_handle, here, has_term) at e)) [
      | inl is_new ↦
          let same : new_term s h name ≡ t = same_term-eq (new_term s h name) t is_new in
          (
            ap (λ u. u.owner) (sym same) ∙ (==_iff h i).0 here,
            subst (λ u. lookup u.name (put name (new_term s h name) s.table.held) ≡ some u) same
                new_held,
          )
      | inr was ↦
          owned_before i t
            (subst (λ j. has_term t (s.handle j).terms ≡ true) ((==_iff h i).0 here) was)
    ]
  ]

  new_live : has_term (new_term s h name) ((grant s h name).handle h).terms ≡ true
  unfolding grant has_term
  new_live =
      let here : (h == h) ≡ true = ground arith in
      rw (grant, here, has_term, same_term_self (new_term s h name)) refl

  has_kept :
      (i : ℕ) (t : Term)
      → has_term t (s.handle i).terms ≡ true
      → has_term t ((grant s h name).handle i).terms ≡ true
  unfolding grant has_term
  has_kept i t e = elim (Bool-cases (h == i)) [
    | inr other ↦ rw (grant, other) e
    | inl here ↦
        let e2 : has_term t (s.handle h).terms ≡ true =
          subst (λ j. has_term t (s.handle j).terms ≡ true) (sym ((==_iff h i).0 here)) e in
        rw (grant, here, has_term, e2) (or_true (same_term (new_term s h name) t))
  ]

  grant-live :
      (k : Bytes) (t : Term)
      → lookup k (grant s h name).table.held ≡ some t
      → (t.name ≡ k)
        × (has_term t ((grant s h name).handle t.owner).terms ≡ true)
        × (t.token ≡ last_token k (grant s h name).table)
  unfolding grant
  grant-live k t e =
      let found : (if bytes_eq name k then some (new_term s h name) else lookup k s.table.held)
          ≡ some t =
        sym (lookup-put k name (new_term s h name) s.table.held) ∙ e in
      elim (Bool-cases (bytes_eq name k)) [
        | inl same ↦
            let is_new : new_term s h name ≡ t = some-injective _ _ (rw same at found) in
            (let token : last_token k (grant s h name).table ≡ next_token name s.table =
                rw (grant-last_token s h name k, same) refl in
              subst
                (λ u.
                  (u.name ≡ k)
                  × (has_term u ((grant s h name).handle u.owner).terms ≡ true)
                  × (u.token ≡ last_token k (grant s h name).table))
                is_new ((bytes_eq_iff name k).0 same, new_live, sym token))
        | inr other ↦
            let before : (t.name ≡ k)
                × (has_term t (s.handle t.owner).terms ≡ true)
                × (t.token ≡ last_token k s.table) =
              inv.live k t (rw other at found) in
            let token : last_token k (grant s h name).table ≡ last_token k s.table =
              rw (grant-last_token s h name k, other) refl in
            (before.0, has_kept t.owner t before.1, before.2 ∙ sym token)
      ]

  pub grant-IsExclusive : IsExclusive (grant s h name)
  grant-IsExclusive = record { owned = grant-owned; live = grant-live }
