-- ===== src/Coord/Local/Laws.antt =====
-- internal/coord/local.go: proofs about the holders of a name after any calls.
use mathlib.Core.Option.{some-injective}
use mathlib.Core.Path.{subst}
use wave_house.Prelude.{
  ℕ, true, false, [], ◌∷◌, some, none, Bool-cases, inl, inr, List, ◌≡◌, Bool, Option, ap, refl, ◌∙◌,
  sym, ◌==◌, ==_iff,
}
use wave_house.Prelude.Bytes.{Bytes, lookup}
use wave_house.Coord.Local.{
  Term, has_term, System, new_system, last_token, grant_free, try_acquire, end_locked, end_each,
  shut, close, resign, Call, call_acquire, call_resign, call_close, call_shut, step, run,
}
use wave_house.Coord.Local.Terms.{new_system-IsExclusive, IsExclusive}
use wave_house.Coord.Local.Grant.{grant-IsExclusive}
use wave_house.Coord.Local.End.{end_locked-IsExclusive}

shut_terms : (s : System) (h i : ℕ) → ((shut s h).handle i).terms ≡ (s.handle i).terms
shut_terms s h i = elim (Bool-cases (h == i)) [
  | inl here ↦ rw here (ap (λ j. (s.handle j).terms) ((==_iff h i).0 here))
  | inr other ↦ rw other refl
]

shut-IsExclusive : (s : System) (h : ℕ) → IsExclusive s → IsExclusive (shut s h)
shut-IsExclusive s h inv = record {
  owned = λ i t e. inv.owned i t (subst (λ ts. has_term t ts ≡ true) (shut_terms s h i) e);
  live = λ name t e.
      let was : (t.name ≡ name)
          × (has_term t (s.handle t.owner).terms ≡ true)
          × (t.token ≡ last_token name s.table) =
        inv.live name t e in
      (was.0, subst (λ ts. has_term t ts ≡ true) (sym (shut_terms s h t.owner)) was.1, was.2);
}

end_each-IsExclusive :
    (s : System) (h : ℕ) (ts : List Term) → IsExclusive s → IsExclusive (end_each s h ts)
unfolding end_each
end_each-IsExclusive s h [] inv = inv
end_each-IsExclusive s h (t ∷ ts) inv =
    end_each-IsExclusive (end_locked s h t) h ts (end_locked-IsExclusive s h t inv)

free-IsExclusive :
    (s : System) (h : ℕ) (name : Bytes) (o : Option Term)
    → lookup name s.table.held ≡ o
    → IsExclusive s
    → IsExclusive (grant_free s h name o).0
free-IsExclusive s h name (some t) e inv = inv
free-IsExclusive s h name none e inv = grant-IsExclusive s h name inv e

acquire-IsExclusive :
    (s : System) (h : ℕ) (is_cancelled : Bool) (name : Bytes)
    → IsExclusive s
    → IsExclusive (try_acquire s h is_cancelled name).0
unfolding try_acquire
acquire-IsExclusive s h true name inv = inv
acquire-IsExclusive s h false name inv = elim (Bool-cases (s.handle h).closed) [
  | inl shut_down ↦ rw (try_acquire, shut_down) inv
  | inr serving ↦
      rw (try_acquire, serving) (free-IsExclusive s h name (lookup name s.table.held) refl inv)
]

step-IsExclusive : (s : System) (c : Call) → IsExclusive s → IsExclusive (step s c)
unfolding step try_acquire resign close
step-IsExclusive s (call_acquire h is_cancelled name) inv =
    acquire-IsExclusive s h is_cancelled name inv
step-IsExclusive s (call_resign t) inv = end_locked-IsExclusive s t.owner t inv
step-IsExclusive s (call_close h) inv =
    end_each-IsExclusive (shut s h) h (s.handle h).terms (shut-IsExclusive s h inv)
step-IsExclusive s (call_shut h) inv = shut-IsExclusive s h inv

run-IsExclusive : (s : System) (cs : List Call) → IsExclusive s → IsExclusive (run s cs)
unfolding run
run-IsExclusive s [] inv = inv
run-IsExclusive s (c ∷ cs) inv = run-IsExclusive (step s c) cs (step-IsExclusive s c inv)

-- Whatever calls the handles over one table have seen, two live terms of one name are the same term,
-- of one handle, and its token is the last that was given for the name.
pub run-holds_once :
    (cs : List Call) (h i : ℕ) (t u : Term)
    → has_term t ((run new_system cs).handle h).terms ≡ true
    → has_term u ((run new_system cs).handle i).terms ≡ true
    → t.name ≡ u.name
    → (t ≡ u) × (h ≡ i) × (t.token ≡ last_token t.name (run new_system cs).table)
run-holds_once cs h i t u e f same =
    let s : System = run new_system cs in
    let inv : IsExclusive s = run-IsExclusive new_system cs new_system-IsExclusive in
    let t_held : lookup t.name s.table.held ≡ some t = (inv.owned h t e).1 in
    let one : t ≡ u =
      some-injective _ _
        (sym t_held ∙ ap (λ k. lookup k s.table.held) same ∙ (inv.owned i u f).1) in
    (
      one,
      sym (inv.owned h t e).0 ∙ ap (λ x. x.owner) one ∙ (inv.owned i u f).0,
      (inv.live t.name t t_held).2,
    )
