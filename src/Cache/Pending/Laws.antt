-- ===== src/Cache/Pending/Laws.antt =====
-- internal/cache/pending.go: proofs about the owed bumps across additions and deliveries.
use wave_house.Prelude.{
  ℕ, List, ◌∷◌, ◌≡◌, ◌⊎◌, false, if◌then◌else◌, some, true, Bool, Bool-cases, [], ◌∙◌, Option, inl,
  ltb, inr, length, refl, All, ◌+◌, ◌<◌, ◌==◌, ◌^◌, ◌≤◌, map, arith, sym, ap, none,
}
use mathlib.Core.Option.{some-injective}
use wave_house.Prelude.Bytes.{Bytes, bytes_eq, contains, lookup, bytes_eq_self, bytes_eq_iff}
use wave_house.Prelude.Maps.{put, lookup-put, lookup-delete}
use wave_house.Cache.Pending.{
  PendingKey, PendingBumps, add, put_all, collapse, tenant_token_key, next_gen, drop_if, drop_all,
  done, snapshot, owed,
}

abbrev pub Keys : Type 0
Keys = List (Bytes × PendingKey)

-- The key is owed a bump that was asked for at this generation.
pub record IsOwedAt (m : Keys) (gen : ℕ) (k : Bytes) : Type 0 where
  pub entry : PendingKey
  pub found : lookup k m ≡ some entry
  pub at_gen : entry.gen ≡ gen

lookup-put_all :
    (pk : PendingKey) (j : Bytes) (ks : List Bytes) (m : Keys)
    → lookup j (put_all pk ks m) ≡ (if contains j ks then some pk else lookup j m)
unfolding put_all contains
lookup-put_all pk j [] m = refl
lookup-put_all pk j (k ∷ ks) m =
    lookup-put_all pk j ks (put k pk m)
    ∙ rw (lookup-put j k pk m) (by_tests (contains j ks) (bytes_eq k j) _ _)
  where
    by_tests :
        (b c : Bool) (x y : Option PendingKey)
        → (if b then x else if c then x else y) ≡ (if (if c then true else b) then x else y)
    by_tests true true x y = refl
    by_tests true false x y = refl
    by_tests false true x y = refl
    by_tests false false x y = refl

put-IsOwedAt :
    (m : Keys) (k : Bytes) (pk : PendingKey) (j : Bytes)
    → (bytes_eq k j ≡ false → IsOwedAt m pk.gen j)
    → IsOwedAt (put k pk m) pk.gen j
put-IsOwedAt m k pk j h = elim (Bool-cases (bytes_eq k j)) [
  | inl e ↦ record { entry = pk; found = lookup-put j k pk m ∙ rw e refl; at_gen = refl }
  | inr e ↦
      let old = h e in
      record {
        entry = old.entry;
        found = lookup-put j k pk m ∙ rw e old.found;
        at_gen = old.at_gen;
      }
]

module _ (prefix : Bytes) (gen : ℕ) where
  collapse-keeps :
      (m out : Keys) (j : Bytes) → IsOwedAt out gen j → IsOwedAt (collapse prefix gen m out) gen j
  unfolding collapse
  collapse-keeps [] out j h = h
  collapse-keeps ((k, pk) ∷ m) out j h = collapse-keeps m _ j (
      put-IsOwedAt out (tenant_token_key prefix pk.tenant)
        (record { tenant = pk.tenant; gen = gen }) j (λ _. h))

  -- Every owed key leaves its tenant's token owed.
  collapse-covers :
      (m out : Keys) (k : Bytes) (pk : PendingKey)
      → lookup k m ≡ some pk
      → IsOwedAt (collapse prefix gen m out) gen (tenant_token_key prefix pk.tenant)
  unfolding collapse lookup
  collapse-covers [] out k pk h = absurd (cc)
  collapse-covers ((j, qk) ∷ m) out k pk h = elim (Bool-cases (bytes_eq j k)) [
    | inl e ↦ rw (← some-injective _ _ (rw e at h)) (
        collapse-keeps m _ (tenant_token_key prefix qk.tenant) (
          put-IsOwedAt out (tenant_token_key prefix qk.tenant)
            (record { tenant = qk.tenant; gen = gen }) _
            (λ k. absurd (cc (bytes_eq_self (tenant_token_key prefix qk.tenant), k)))))
    | inr e ↦ collapse-covers m _ k pk (rw e at h)
  ]

-- A key is covered where it is owed itself, or its tenant's token is.
abbrev pub IsCovered : PendingBumps → ℕ → Bytes → Bytes → Type 0
IsCovered p gen id k = IsOwedAt p.keys gen k ⊎ IsOwedAt p.keys gen (tenant_token_key p.prefix id)

-- A key that the addition names again or that was owed before is still covered afterwards.
added-IsCovered :
    (p : PendingBumps) (id : Bytes) (ks : List Bytes) (k : Bytes) (pk : PendingKey)
    → lookup k (put_all (record { tenant = id; gen = next_gen p.gen }) ks p.keys) ≡ some pk
    → IsOwedAt (add p id ks).keys pk.gen k
      ⊎ IsOwedAt (add p id ks).keys (next_gen p.gen) (tenant_token_key p.prefix pk.tenant)
unfolding add
added-IsCovered p id ks k pk there =
    let gen = next_gen p.gen in
    let added = put_all (record { tenant = id; gen = gen }) ks p.keys in
    elim (Bool-cases (ltb p.most (length added))) [
      | inl e ↦ rw e (inr (collapse-covers p.prefix gen added [] k pk there))
      | inr e ↦ rw e (inl record { entry = pk; found = there; at_gen = refl })
    ]

add-IsCovered :
    (p : PendingBumps) (id : Bytes) (ks : List Bytes) (k : Bytes)
    → contains k ks ≡ true
    → IsCovered (add p id ks) (next_gen p.gen) id k
unfolding add
add-IsCovered p id ks k h = added-IsCovered p id ks k _ (lookup-put_all _ k ks p.keys ∙ rw h refl)

-- Adding keys loses none that was owed: a key that is not named again stays owed at its generation, or,
-- past the limit, its tenant's token is owed at the new one.
pub add-keeps_owed :
    (p : PendingBumps) (id : Bytes) (ks : List Bytes) (k : Bytes) (pk : PendingKey)
    → lookup k (owed p) ≡ some pk
    → contains k ks ≡ false
    → IsOwedAt (owed (add p id ks)) pk.gen k
      ⊎ IsOwedAt (owed (add p id ks)) (next_gen p.gen) (tenant_token_key p.prefix pk.tenant)
unfolding owed
add-keeps_owed p id ks k pk there fresh =
    added-IsCovered p id ks k pk (lookup-put_all _ k ks p.keys ∙ rw fresh there)

-- No landed bump has this generation.
abbrev pub IsNewer : ℕ → List (Bytes × ℕ) → Type 0
IsNewer gen landed = All (λ e. e.1 < gen) landed

-- An entry that a landed bump of an earlier generation matches is not the newer one.
matched_is_older :
    (m : Keys) (gen g : ℕ) (j k : Bytes) (pk : PendingKey) (h : IsOwedAt m gen k)
    → g < gen
    → j ≡ k
    → lookup j m ≡ some pk
    → ¬ ((pk.gen == g) ≡ true)
matched_is_older m gen g j k pk h older same e f =
    let both : h.entry ≡ pk =
      some-injective _ _ (sym h.found ∙ (ap (λ x. lookup x m) (sym same) ∙ e)) in
    ground (arith, h.at_gen, ap (λ x. x.gen) both)

drop_if-IsOwedAt :
    (m : Keys) (gen g : ℕ) (j k : Bytes)
    → g < gen
    → IsOwedAt m gen k
    → IsOwedAt (drop_if j g (lookup j m) m) gen k
drop_if-IsOwedAt m gen g j k older h = by_entry (lookup j m) refl
  where
    by_entry : (o : Option PendingKey) → lookup j m ≡ o → IsOwedAt (drop_if j g o m) gen k
    by_entry none e = h
    by_entry (some pk) e = elim (Bool-cases (pk.gen == g)) [
      | inr f ↦ rw f h
      | inl f ↦ rw f (elim (Bool-cases (bytes_eq j k)) [
        | inr other ↦ record {
          entry = h.entry;
          found = lookup-delete k j m ∙ rw other h.found;
          at_gen = h.at_gen;
        }
        | inl same ↦
            absurd (matched_is_older m gen g j k pk h older ((bytes_eq_iff j k).0 same) e f)
      ])
    ]

drop_all-IsOwedAt :
    (landed : List (Bytes × ℕ)) (m : Keys) (gen : ℕ) (k : Bytes)
    → IsNewer gen landed
    → IsOwedAt m gen k
    → IsOwedAt (drop_all landed m) gen k
unfolding drop_all
drop_all-IsOwedAt [] m gen k newer h = h
drop_all-IsOwedAt ((j, g) ∷ landed) m gen k newer h =
    drop_all-IsOwedAt landed _ gen k newer.1 (drop_if-IsOwedAt m gen g j k newer.0 h)

next_gen-newer : (gen : ℕ) → gen + 1 < 2 ^ 64 → gen < next_gen gen
unfolding next_gen
next_gen-newer gen h = omega (arith)

-- No owed key is of a later generation than the last addition.
abbrev pub IsTimed : PendingBumps → Type 0
IsTimed p = All (λ e. e.1.gen ≤ p.gen) p.keys

snapshot-IsNewer :
    (m : Keys) (g gen : ℕ)
    → g < gen
    → All (λ e. e.1.gen ≤ g) m
    → IsNewer gen (map (λ (k, pk). (k, pk.gen)) m)
snapshot-IsNewer [] g gen h a = tt
snapshot-IsNewer (e ∷ m) g gen h a = (omega (arith, a.0), snapshot-IsNewer m g gen h a.1)

-- A bump that is asked for again while earlier ones are being delivered is not lost: reporting the
-- snapshot from before as landed leaves the key, or its tenant's token, owed at the new
-- generation. It is asked that no key is of a later generation than the last addition, and that
-- the generation does not wrap around.
pub done-keeps_added :
    (p : PendingBumps) (id : Bytes) (ks : List Bytes) (k : Bytes)
    → IsTimed p
    → p.gen + 1 < 2 ^ 64
    → contains k ks ≡ true
    → IsCovered (done (add p id ks) (snapshot p)) (next_gen p.gen) id k
unfolding done snapshot owed
done-keeps_added p id ks k timed fits named =
    let newer = snapshot-IsNewer p.keys p.gen (next_gen p.gen) (next_gen-newer p.gen fits) timed in
    elim (add-IsCovered p id ks k named) [
      | inl own ↦ inl (drop_all-IsOwedAt _ _ _ k newer own)
      | inr token ↦ inr (drop_all-IsOwedAt _ _ _ _ newer token)
    ]
