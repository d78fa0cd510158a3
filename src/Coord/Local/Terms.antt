-- ===== src/Coord/Local/Terms.antt =====
-- internal/coord/local.go: the terms of a handle as a set, and what an exclusive lease is.
use wave_house.Prelude.{
  ℕ, true, false, [], ◌∷◌, some, Bool-cases, inl, inr, arith, List, ◌≡◌, if◌then◌else◌, Bool, ap,
  refl, ◌∙◌, sym,
}
use wave_house.Prelude.Maps.{lookup-put}
use wave_house.Prelude.Bytes.{Bytes, bytes_eq_iff, bytes_eq_self, lookup, bytes_eq}
use wave_house.Coord.Local.{
  grant, next_token, Term, same_term, has_term, remove_term, System, new_system, last_token,
}

pub same_term-eq : (a b : Term) → same_term a b ≡ true → a ≡ b
unfolding same_term
same_term-eq a b e =
    term_eq a b (ground arith) ((bytes_eq_iff a.name b.name).0 (ground arith)) (ground arith)
  where
    term_eq : (a b : Term) → a.owner ≡ b.owner → a.name ≡ b.name → a.token ≡ b.token → a ≡ b
    term_eq a b o n t = λ i. record { owner = o i; name = n i; token = t i }

pub same_term_self : (a : Term) → same_term a a ≡ true
unfolding same_term
same_term_self a = ground (arith, bytes_eq_self a.name)

by_test : (b c : Bool) → (if b then false else c) ≡ (if b then false else if b then true else c)
by_test true c = refl
by_test false c = refl

apart :
    (a b c : Bool)
    → (a ≡ true → ¬ (b ≡ true))
    → (if a then true else if b then false else c) ≡ (if b then false else if a then true else c)
apart true true c h = absurd (h refl refl)
apart true false c h = refl
apart false true c h = refl
apart false false c h = refl

pub has_term-remove_term :
    (t u : Term) (ts : List Term)
    → has_term t (remove_term u ts) ≡ (if same_term u t then false else has_term t ts)
unfolding has_term remove_term
has_term-remove_term t u [] = ground arith
has_term-remove_term t u (v ∷ ts) = elim (Bool-cases (same_term v u)) [
  | inl e ↦
      rw (e, same_term-eq v u e, has_term-remove_term t u ts)
        (by_test (same_term u t) (has_term t ts))
  | inr e ↦
      rw (e, has_term, has_term-remove_term t u ts)
        (apart (same_term v t) (same_term u t) (has_term t ts) (λ f g. absurd (
          cc (
            e,
            same_term_self v,
            ap (same_term v) (same_term-eq v t f ∙ sym (same_term-eq u t g)),
          ))))
]

-- The lease table and the terms of the handles agree.
pub record IsExclusive (s : System) : Type 0 where
  pub owned :
      (h : ℕ) (t : Term)
      → has_term t (s.handle h).terms ≡ true
      → (t.owner ≡ h) × (lookup t.name s.table.held ≡ some t)
  pub live :
      (name : Bytes) (t : Term)
      → lookup name s.table.held ≡ some t
      → (t.name ≡ name)
        × (has_term t (s.handle t.owner).terms ≡ true)
        × (t.token ≡ last_token name s.table)

pub new_system-IsExclusive : IsExclusive new_system
unfolding has_term lookup
new_system-IsExclusive = record { owned = λ h t e. cc; live = λ name t e. cc }

-- A grant gives its name the next token, and no other name one.
pub grant-last_token :
    (s : System) (h : ℕ) (name k : Bytes)
    → last_token k (grant s h name).table
      ≡ (if bytes_eq name k then next_token name s.table else last_token k s.table)
unfolding grant last_token
grant-last_token s h name k = elim (Bool-cases (bytes_eq name k)) [
  | inl e ↦ rw (lookup-put k name (next_token name s.table) s.table.tokens, e) refl
  | inr e ↦ rw (lookup-put k name (next_token name s.table) s.table.tokens, e) refl
]
