-- ===== src/Ingest/Assign/Owners.antt =====
-- internal/ingest/assign.go: proofs about the slot that a unit is given to.
use wave_house.Prelude.{
  ℕ, [], ◌∷◌, some, Bool-cases, Option-cases, inl, inr, arith, length, map, Bool, List, ◌+◌, ◌<◌,
  ◌≡◌, refl, ◌≤◌, ◌*◌, sym, ◌⊎◌,
}
use mathlib.Core.List.{Memᴰ}
use wave_house.Prelude.Maps.{lookup-put}
use wave_house.Prelude.Bytes.{Bytes, count, lookup, bytes_eq, bytes_eq_iff}
use wave_house.Ingest.Assign.{insert_by, sort_by, Ranked, rank, pick, Shares, give, give_all}
use wave_house.Ingest.Assign.Room.{HaveSlots, full_total, give-total, pick-none, pick-some, total}

-- The unit is given to a slot of these.
abbrev pub HasOwner : List ℕ → Bytes → List (Bytes × ℕ) → Type 0
HasOwner slots u out = (s : ℕ) × (lookup u out ≡ some s) × (0 < count s slots)

pub IsRanked : Bytes → List Ranked → Type 0
IsRanked u [] = ⊥
IsRanked u (r ∷ rs) = (r.unit ≡ u) ⊎ IsRanked u rs

give-HasOwner :
    (limit : ℕ) (slots : List ℕ) (u v : Bytes) (order : List ℕ) (shares : Shares)
    → ((s : ℕ) → count s order ≡ count s slots)
    → total shares.load slots < limit * length slots
    → (v ≡ u) ⊎ HasOwner slots u shares.out
    → HasOwner slots u (give v (pick shares.load limit order) shares).out
give-HasOwner limit slots u v order shares same room either =
    elim (Option-cases (pick shares.load limit order)) [
      | inl nothing ↦ absurd (
          omega (
            arith,
            room,
            full_total shares.load limit slots
                (λ s k. pick-none shares.load limit order s nothing (omega (arith, same s, k))),
          ))
      | inr (s, found) ↦ rw found (
          let live : 0 < count s slots =
            omega (arith, same s, (pick-some shares.load limit order s found).1) in
          elim (Bool-cases (bytes_eq v u)) [
            | inl here ↦ (s, rw (lookup-put u v s shares.out, here) refl, live)
            | inr other ↦ elim either [
              | inl e ↦ absurd (cc (other, (bytes_eq_iff v u).1 e))
              | inr (t, e, k) ↦ (t, rw (lookup-put u v s shares.out, other) e, k)
            ]
          ])
    ]

pub give_all-HasOwner :
    (limit : ℕ) (slots : List ℕ) (u : Bytes) (rs : List Ranked) (shares : Shares)
    → ((s : ℕ) → count s slots ≤ 1)
    → HaveSlots slots rs
    → total shares.load slots + length rs ≤ limit * length slots
    → IsRanked u rs ⊎ HasOwner slots u shares.out
    → HasOwner slots u (give_all limit rs shares).out
unfolding give_all HaveSlots IsRanked
give_all-HasOwner limit slots u [] shares once all room either = elim either [
  | inl m ↦ absurd m
  | inr o ↦ o
]
give_all-HasOwner limit slots u (r ∷ rs) shares once (h, all) room either =
    let next : Shares = give r.unit (pick shares.load limit r.order) shares in
    let fits : total shares.load slots < limit * length slots = omega (arith, room) in
    let grown : total next.load slots ≡ total shares.load slots + 1 =
      give-total limit slots r.unit r.order shares once h fits in
    let more : total next.load slots + length rs ≤ limit * length slots =
      omega (arith, grown, room) in
    let given : (r.unit ≡ u) ⊎ HasOwner slots u shares.out → HasOwner slots u next.out =
      give-HasOwner limit slots u r.unit r.order shares h fits in
    give_all-HasOwner limit slots u rs next once all more (elim either [
      | inl (inl here) ↦ inr (given (inl here))
      | inl (inr later) ↦ inl later
      | inr o ↦ inr (given (inr o))
    ])

pub rank-IsRanked :
    (score : Bytes → ℕ → ℕ) (slots : List ℕ) (u : Bytes) (units : List Bytes)
    → Memᴰ u units
    → IsRanked u (map (rank score slots) units)
unfolding IsRanked rank
rank-IsRanked score slots u [] m = elim m [ ]
rank-IsRanked score slots u (v ∷ units) m = elim m [
  | Memᴰ.head here ↦ inl (sym here)
  | Memᴰ.tail later ↦ inr (rank-IsRanked score slots u units later)
]

insert_by-IsRanked :
    (before : Ranked → Ranked → Bool) (u : Bytes) (r : Ranked) (rs : List Ranked)
    → (r.unit ≡ u) ⊎ IsRanked u rs
    → IsRanked u (insert_by before r rs)
unfolding IsRanked insert_by
insert_by-IsRanked before u r [] m = m
insert_by-IsRanked before u r (x ∷ rs) m = elim (Bool-cases (before x r)) [
  | inr sooner ↦ rw sooner m
  | inl later ↦ rw later (elim m [
    | inl here ↦ inr (insert_by-IsRanked before u r rs (inl here))
    | inr (inl first) ↦ inl first
    | inr (inr rest) ↦ inr (insert_by-IsRanked before u r rs (inr rest))
  ])
]

pub sort_by-IsRanked :
    (before : Ranked → Ranked → Bool) (u : Bytes) (rs : List Ranked)
    → IsRanked u rs
    → IsRanked u (sort_by before rs)
unfolding IsRanked sort_by
sort_by-IsRanked before u [] m = m
sort_by-IsRanked before u (r ∷ rs) m =
    insert_by-IsRanked before u r (sort_by before rs)
      (elim m [ inl here ↦ inl here | inr later ↦ inr (sort_by-IsRanked before u rs later) ])
