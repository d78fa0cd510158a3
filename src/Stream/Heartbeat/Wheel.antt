-- ===== src/Stream/Heartbeat/Wheel.antt =====
-- internal/stream/heartbeat.go: proofs about the buckets that subscribers stand in.
use mathlib.Core.Path.{subst}
use mathlib.Core.Option.{some-injective}
use wave_house.Prelude.{
  ℕ, false, [], ◌∷◌, some, none, arith, Bool-cases, inl, inr, ◌<◌, ◌≡◌, ◌≤◌, if◌then◌else◌, ◌==◌,
  ap, ◌+◌, ==_iff, List, ltb, ltb→lt, sym, ◌%◌, ◌∙◌, Option, refl,
}
use wave_house.Prelude.Bytes.{count}
use wave_house.Stream.Heartbeat.{insert, remove_from, Heartbeater, set_at, place, remove_at, deal}
use wave_house.Stream.Heartbeat.Counts.{
  places, insert-count, remove_from-count, set_at-places, above_places, bucket-places,
  places-bucket,
}

pub record IsWellFormed (hb : Heartbeater) : Type 0 where
  pub turning : hb.hand < hb.size
  pub once : (x : ℕ) → places x hb.size hb.bucket ≤ 1
  pub found :
      (x i : ℕ) → i < hb.size → 0 < count x (hb.bucket i) → hb.bucket_of x ≡ some (hb.ring, i)

abbrev pub places_of : ℕ → Heartbeater → ℕ
places_of x hb = places x hb.size hb.bucket

module _ (x i : ℕ) (hb : Heartbeater) (inv : IsWellFormed hb) (fits : i < hb.size)
    (new : places_of x hb ≡ 0) where
  nowhere : (j : ℕ) → j < hb.size → count x (hb.bucket j) ≡ 0
  nowhere j h = omega (arith, bucket-places x hb.size j hb.bucket h, new)

  pub place-places :
      (y : ℕ) → places_of y (place x i hb) ≡ (if x == y then 1 else 0) + places_of y hb
  unfolding place
  place-places y = omega (
    arith,
    set_at-places y hb.size i (insert x (hb.bucket i)) hb.bucket fits,
    insert-count x y (hb.bucket i) (nowhere i fits),
  )

  place-found :
      (y j : ℕ)
      → j < hb.size
      → 0 < count y ((place x i hb).bucket j)
      → (place x i hb).bucket_of y ≡ some (hb.ring, j)
  unfolding place
  place-found y j h k = elim (Bool-cases (i == j)) [
    | inr other ↦
        let was : 0 < count y (hb.bucket j) = rw (place, other) at k in
        elim (Bool-cases (x == y)) [
          | inl same ↦
              absurd
                (omega (arith, nowhere j h, ap (λ z. count z (hb.bucket j)) ((==_iff x y).0 same)))
          | inr differs ↦ rw (place, differs) (inv.found y j h was)
        ]
    | inl here ↦
        let now : 0 < count y (insert x (hb.bucket i)) = rw (place, here) at k in
        elim (Bool-cases (x == y)) [
          | inl same ↦ rw (place, same) (ap (λ n. some (hb.ring, n)) ((==_iff i j).0 here))
          | inr differs ↦
              let old : count y (insert x (hb.bucket i)) ≡ count y (hb.bucket i) =
                ground (arith, insert-count x y (hb.bucket i) (nowhere i fits)) in
              rw (place, differs)
                (subst (λ n. hb.bucket_of y ≡ some (hb.ring, n)) ((==_iff i j).0 here)
                  (inv.found y i fits (omega (arith, old))))
        ]
  ]

  pub place-IsWellFormed : IsWellFormed (place x i hb)
  unfolding place
  place-IsWellFormed = record {
    turning = inv.turning;
    once = λ y. ground (arith, place-places y, inv.once y, new);
    found = place-found;
  }

-- Subscribers that stand nowhere, each once, are dealt one place each.
pub record Dealt (xs : List ℕ) (hb after : Heartbeater) : Type 0 where
  pub well : IsWellFormed after
  pub spread : (y : ℕ) → places_of y after ≡ count y xs + places_of y hb

pub deal-Dealt :
    (i : ℕ) (xs : List ℕ) (hb : Heartbeater)
    → IsWellFormed hb
    → ((y : ℕ) → count y xs + places_of y hb ≤ 1)
    → Dealt xs hb (deal i xs hb)
unfolding deal count
deal-Dealt i [] hb inv h = record { well = inv; spread = λ y. omega arith }
deal-Dealt i (x ∷ xs) hb inv h =
    let fits : i % hb.size < hb.size = omega (arith, inv.turning) in
    let first : count x (x ∷ xs) ≡ 1 + count x xs = ground arith in
    let new : places_of x hb ≡ 0 = omega (arith, h x, first) in
    let placed : Heartbeater = place x (i % hb.size) hb in
    let one : (y : ℕ) → places_of y placed ≡ (if x == y then 1 else 0) + places_of y hb =
      place-places x (i % hb.size) hb inv fits new in
    let rest : Dealt xs placed (deal (i + 1) xs placed) =
      deal-Dealt (i + 1) xs placed (place-IsWellFormed x (i % hb.size) hb inv fits new)
        (λ y. omega (arith, h y, one y)) in
    record { well = rest.well; spread = λ y. omega (arith, rest.spread y, one y) }

other_ring :
    (a i b j : ℕ) → (a == b) ≡ false → ¬ (◌≡◌ {A = Option (ℕ × ℕ)} (some (a, i)) (some (b, j)))
other_ring a i b j h e =
    absurd (cc (h, (==_iff a b).1 (ap (λ r. r.0) (some-injective (a, i) (b, j) e))))

module _ (x : ℕ) (hb : Heartbeater) (inv : IsWellFormed hb) where
  -- A subscriber that names no bucket of this ring stands in none.
  unnamed : ((j : ℕ) → ¬ (hb.bucket_of x ≡ some (hb.ring, j))) → places_of x hb ≡ 0
  unnamed h = elim (Bool-cases (ltb 0 (places_of x hb))) [
    | inl placed ↦
        let at : (j : ℕ) × (j < hb.size) × (0 < count x (hb.bucket j)) =
          places-bucket x hb.size hb.bucket (ltb→lt 0 (places_of x hb) placed) in
        absurd (h at.0 (inv.found x at.0 at.1 at.2))
    | inr nowhere_x ↦ ground arith
  ]

  absent :
      ((j : ℕ) → ¬ (hb.bucket_of x ≡ some (hb.ring, j)))
      → (y : ℕ) → places_of y hb ≡ (if x == y then 0 else places_of y hb)
  absent h y = elim (Bool-cases (x == y)) [
    | inl same ↦ rw same (subst (λ z. places_of z hb ≡ 0) ((==_iff x y).0 same) (unnamed h))
    | inr differs ↦ rw differs refl
  ]

  -- The wheel with the subscriber taken out of one bucket.
  abbrev without : ℕ → Heartbeater
  without i = record hb { bucket = set_at i (remove_from x (hb.bucket i)) hb.bucket }

  module _ (i : ℕ) (e : hb.bucket_of x ≡ some (hb.ring, i)) where
    home : 0 < places_of x hb → (i < hb.size) × (0 < count x (hb.bucket i))
    home h =
        let at : (j : ℕ) × (j < hb.size) × (0 < count x (hb.bucket j)) =
          places-bucket x hb.size hb.bucket h in
        let same : at.0 ≡ i =
          ap (λ r. r.1) (some-injective _ _ (sym (inv.found x at.0 at.1 at.2) ∙ e)) in
        subst (λ j. (j < hb.size) × (0 < count x (hb.bucket j))) same (at.1, at.2)

    most_home : places_of x hb ≤ count x (hb.bucket i)
    most_home = elim (Bool-cases (ltb 0 (places_of x hb))) [
      | inl placed ↦
          let at : (i < hb.size) × (0 < count x (hb.bucket i)) =
            home (ltb→lt 0 (places_of x hb) placed) in
          omega (arith, at.1, inv.once x)
      | inr nowhere_x ↦ ground arith
    ]

    outside : ltb i hb.size ≡ false → places_of x hb ≡ 0
    outside h = elim (Bool-cases (ltb 0 (places_of x hb))) [
      | inl placed ↦
          let at : (i < hb.size) × (0 < count x (hb.bucket i)) =
            home (ltb→lt 0 (places_of x hb) placed) in
          absurd (ground (arith, at.0, h))
      | inr nowhere_x ↦ ground arith
    ]

    without-places : (y : ℕ) → places_of y (without i) ≡ (if x == y then 0 else places_of y hb)
    without-places y =
        let taken : count y (remove_from x (hb.bucket i))
            ≡ (if x == y then 0 else count y (hb.bucket i)) =
          remove_from-count x y (hb.bucket i) in
        elim (Bool-cases (ltb i hb.size)) [
          | inl fits ↦
              let at : i < hb.size = ltb→lt i hb.size fits in
              let sum : places_of y (without i) + count y (hb.bucket i)
                  ≡ places_of y hb + count y (remove_from x (hb.bucket i)) =
                set_at-places y hb.size i (remove_from x (hb.bucket i)) hb.bucket at in
              elim (Bool-cases (x == y)) [
                | inl same ↦ rw same (
                    let is_y : x ≡ y = (==_iff x y).0 same in
                    let gone : count y (remove_from x (hb.bucket i)) ≡ 0 = ground (arith, taken) in
                    let most : places_of y hb ≤ count y (hb.bucket i) =
                      subst (λ z. places_of z hb ≤ count z (hb.bucket i)) is_y most_home in
                    omega (arith, sum, gone, most))
                | inr differs ↦ rw differs (ground (arith, sum, taken))
              ]
          | inr above ↦
              let stays : places_of y (without i) ≡ places_of y hb =
                above_places y hb.size i (remove_from x (hb.bucket i)) hb.bucket
                  (ground (arith, above)) in
              elim (Bool-cases (x == y)) [
                | inl same ↦
                    rw same (
                      stays ∙ subst (λ z. places_of z hb ≡ 0) ((==_iff x y).0 same) (outside above))
                | inr differs ↦ rw differs stays
              ]
        ]

    found_before : (y j : ℕ) → 0 < count y ((without i).bucket j) → 0 < count y (hb.bucket j)
    found_before y j h = elim (Bool-cases (i == j)) [
      | inr other ↦ rw other at h
      | inl here ↦
          let left : 0 < count y (remove_from x (hb.bucket i)) = rw here at h in
          let was : 0 < count y (hb.bucket i) =
            ground (arith, remove_from-count x y (hb.bucket i)) in
          subst (λ k. 0 < count y (hb.bucket k)) ((==_iff i j).0 here) was
    ]

    without-IsWellFormed : IsWellFormed (without i)
    without-IsWellFormed = record {
      turning = inv.turning;
      once = λ y. ground (arith, without-places y, inv.once y);
      found = λ y j h k. inv.found y j h (found_before y j k);
    }

  pub remove_at-places :
      (o : Option (ℕ × ℕ))
      → hb.bucket_of x ≡ o
      → (y : ℕ) → places_of y (remove_at x o hb) ≡ (if x == y then 0 else places_of y hb)
  remove_at-places none e y = absent (λ j f. cc (e, f)) y
  remove_at-places (some (ring, i)) e y = elim (Bool-cases (ring == hb.ring)) [
    | inl current ↦
        rw current
          (without-places i (e ∙ ap (λ r. some (r, i)) ((==_iff ring hb.ring).0 current)) y)
    | inr old ↦ rw old (absent (λ j f. other_ring ring i hb.ring j old (sym e ∙ f)) y)
  ]

  pub remove_at-IsWellFormed :
      (o : Option (ℕ × ℕ)) → hb.bucket_of x ≡ o → IsWellFormed (remove_at x o hb)
  remove_at-IsWellFormed none e = inv
  remove_at-IsWellFormed (some (ring, i)) e = elim (Bool-cases (ring == hb.ring)) [
    | inl current ↦
        rw current
          (without-IsWellFormed i (e ∙ ap (λ r. some (r, i)) ((==_iff ring hb.ring).0 current)))
    | inr old ↦ rw old inv
  ]
