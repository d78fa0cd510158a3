-- ===== src/Coord/Local/Fencing.antt =====
-- internal/coord/local.go: proofs about the tokens of a name.
use mathlib.Core.Path.{subst}
use wave_house.Coord.Local.Terms.{grant-last_token}
use wave_house.Prelude.{
  ℕ, true, false, [], ◌∷◌, some, none, Bool-cases, inl, inr, arith, length, Bool, List, Option, ◌+◌,
  ◌≡◌, ◌≤◌, refl, ◌<◌, ◌∙◌, ◌^◌, ap,
}
use wave_house.Prelude.Bytes.{Bytes, bytes_eq, bytes_eq_iff, lookup, bytes_eq_self}
use wave_house.Coord.Local.{
  Term, System, last_token, next_token, grant, grant_free, try_acquire, end_locked, end_each, shut,
  close, resign, Call, call_acquire, call_resign, call_close, call_shut, step, run, has_term,
  acquired, new_system, new_term,
}

-- A call gives at most one token of a name.
abbrev AtMostOne : Bytes → System → System → Type 0
AtMostOne k s r =
    (last_token k s.table ≤ last_token k r.table)
    × (last_token k r.table ≤ last_token k s.table + 1)

grant-AtMostOne :
    (s : System) (h : ℕ) (name k : Bytes)
    → last_token k s.table + 1 < 2 ^ 64
    → AtMostOne k s (grant s h name)
grant-AtMostOne s h name k few = elim (Bool-cases (bytes_eq name k)) [
  | inl same ↦
      let token : last_token k (grant s h name).table ≡ next_token k s.table =
        rw (grant-last_token s h name k, same)
          (ap (λ n. next_token n s.table) ((bytes_eq_iff name k).0 same)) in
      (omega (arith, token), omega (arith, token))
  | inr other ↦
      let token : last_token k (grant s h name).table ≡ last_token k s.table =
        rw (grant-last_token s h name k, other) refl in
      (omega (arith, token), omega (arith, token))
]

free-AtMostOne :
    (s : System) (h : ℕ) (name k : Bytes) (o : Option Term)
    → last_token k s.table + 1 < 2 ^ 64
    → AtMostOne k s (grant_free s h name o).0
free-AtMostOne s h name k (some t) few = (omega arith, omega arith)
free-AtMostOne s h name k none few = grant-AtMostOne s h name k few

acquire-AtMostOne :
    (s : System) (h : ℕ) (is_cancelled : Bool) (name k : Bytes)
    → last_token k s.table + 1 < 2 ^ 64
    → AtMostOne k s (try_acquire s h is_cancelled name).0
unfolding try_acquire
acquire-AtMostOne s h true name k few = (omega arith, omega arith)
acquire-AtMostOne s h false name k few = elim (Bool-cases (s.handle h).closed) [
  | inl shut_down ↦ rw (try_acquire, shut_down) (omega arith, omega arith)
  | inr serving ↦
      rw (try_acquire, serving) (free-AtMostOne s h name k (lookup name s.table.held) few)
]

end_locked-last_token :
    (s : System) (h : ℕ) (t : Term) (k : Bytes)
    → last_token k (end_locked s h t).table ≡ last_token k s.table
unfolding end_locked last_token
end_locked-last_token s h t k = elim (Bool-cases (has_term t (s.handle h).terms)) [
  | inl own ↦ rw (end_locked, own) refl
  | inr other ↦ rw (end_locked, other) refl
]

end_each-last_token :
    (s : System) (h : ℕ) (ts : List Term) (k : Bytes)
    → last_token k (end_each s h ts).table ≡ last_token k s.table
unfolding end_each
end_each-last_token s h [] k = refl
end_each-last_token s h (t ∷ ts) k =
    end_each-last_token (end_locked s h t) h ts k ∙ end_locked-last_token s h t k

step-AtMostOne :
    (s : System) (c : Call) (k : Bytes)
    → last_token k s.table + 1 < 2 ^ 64
    → AtMostOne k s (step s c)
unfolding step resign close
step-AtMostOne s (call_acquire h is_cancelled name) k few =
    acquire-AtMostOne s h is_cancelled name k few
step-AtMostOne s (call_resign t) k few = (
  omega (arith, end_locked-last_token s t.owner t k),
  omega (arith, end_locked-last_token s t.owner t k),
)
step-AtMostOne s (call_close h) k few = (
  omega (arith, end_each-last_token (shut s h) h (s.handle h).terms k),
  omega (arith, end_each-last_token (shut s h) h (s.handle h).terms k),
)
step-AtMostOne s (call_shut h) k few = (omega arith, omega arith)

-- Over fewer than 2^64 calls no token wraps around.
run_bounds :
    (s : System) (cs : List Call) (k : Bytes)
    → last_token k s.table + length cs < 2 ^ 64
    → (last_token k s.table ≤ last_token k (run s cs).table)
      × (last_token k (run s cs).table ≤ last_token k s.table + length cs)
unfolding run
run_bounds s [] k few = (omega arith, omega arith)
run_bounds s (c ∷ cs) k few =
    let one : AtMostOne k s (step s c) = step-AtMostOne s c k (omega arith) in
    let more : (last_token k (step s c).table ≤ last_token k (run (step s c) cs).table)
        × (last_token k (run (step s c) cs).table ≤ last_token k (step s c).table + length cs) =
      run_bounds (step s c) cs k (omega (arith, one.1)) in
    (omega (arith, one.0, more.0), omega (arith, one.1, more.1))

-- What a granted call tells.
abbrev Granted : System → Bytes → Term → System → Type 0
Granted s name t r =
    (t.name ≡ name) × (t.token ≡ next_token name s.table) × (last_token name r.table ≡ t.token)

free-Granted :
    (s : System) (h : ℕ) (name : Bytes) (t : Term) (o : Option Term)
    → (grant_free s h name o).1 ≡ acquired t
    → Granted s name t (grant_free s h name o).0
free-Granted s h name t (some u) e = absurd (cc e)
free-Granted s h name t none e =
    let token : last_token name (grant s h name).table ≡ next_token name s.table =
      rw (grant-last_token s h name name, bytes_eq_self name) refl in
    subst (λ u. Granted s name u (grant s h name)) (acquired-injective (new_term s h name) t e)
      (refl, refl, token)
  where
    acquired-injective : (a b : Term) → acquired a ≡ acquired b → a ≡ b
    acquired-injective a b f = cc

acquire-Granted :
    (s : System) (h : ℕ) (is_cancelled : Bool) (name : Bytes) (t : Term)
    → (try_acquire s h is_cancelled name).1 ≡ acquired t
    → Granted s name t (try_acquire s h is_cancelled name).0
unfolding try_acquire
acquire-Granted s h true name t e = absurd (cc e)
acquire-Granted s h false name t e = elim (Bool-cases (s.handle h).closed) [
  | inl shut_down ↦ absurd (cc (rw (try_acquire, shut_down) at e))
  | inr serving ↦
      rw (try_acquire, serving)
        (free-Granted s h name t (lookup name s.table.held) (rw (try_acquire, serving) at e))
]

new_system-last_token : (k : Bytes) → last_token k new_system.table ≡ 0
unfolding last_token lookup
new_system-last_token k = refl

-- The token of a term is less than that of every later term of its name, whichever handles they are
-- of and whatever calls come before and between, as long as there are fewer than 2^64 of them.
pub try_acquire-fences :
    (cs ds : List Call) (h i : ℕ) (b c : Bool) (name : Bytes) (t u : Term)
    → length cs + length ds + 2 < 2 ^ 64
    → (try_acquire (run new_system cs) h b name).1 ≡ acquired t
    → (try_acquire (run (try_acquire (run new_system cs) h b name).0 ds) i c name).1 ≡ acquired u
    → t.token < u.token
try_acquire-fences cs ds h i b c name t u few e f =
    let s : System = run new_system cs in
    let r : System = (try_acquire s h b name).0 in
    let before : (last_token name new_system.table ≤ last_token name s.table)
        × (last_token name s.table ≤ last_token name new_system.table + length cs) =
      run_bounds new_system cs name (omega (arith, new_system-last_token name)) in
    let first : Granted s name t r = acquire-Granted s h b name t e in
    let between : (last_token name r.table ≤ last_token name (run r ds).table)
        × (last_token name (run r ds).table ≤ last_token name r.table + length ds) =
      run_bounds r ds name
        (omega (arith, first.1, first.2, before.1, new_system-last_token name)) in
    let second : Granted (run r ds) name u (try_acquire (run r ds) i c name).0 =
      acquire-Granted (run r ds) i c name u f in
    omega (
      arith,
      first.1,
      first.2,
      second.1,
      before.1,
      between.0,
      between.1,
      new_system-last_token name,
    )
