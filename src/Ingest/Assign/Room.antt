-- ===== src/Ingest/Assign/Room.antt =====
-- internal/ingest/assign.go: proofs about the loads of the slots, and the room that is left in them.
use wave_house.Prelude.{
  ℕ, [], ◌∷◌, some, none, Bool-cases, Option-cases, inl, inr, arith, length, ltb, map, Bool, List,
  ◌+◌, ◌<◌, ◌≡◌, if◌then◌else◌, refl, ◌≤◌, ◌*◌, ◌==◌, ap, ==_iff, All, suc, ◌-◌, ◌∙◌, ◌/◌, ◌%◌,
}
use native.Mathlib.Nat.{div-add-mod', mod-lt}
use mathlib.Core.Option.{some-injective}
use wave_house.Prelude.Bytes.{Bytes, count}
use wave_house.Ingest.Assign.{
  insert_by, sort_by, Ranked, rank, pick, add_load, Shares, give, give_all, share, slot_before,
}

insert_by-count :
    (before : ℕ → ℕ → Bool) (x y : ℕ) (ys : List ℕ)
    → count x (insert_by before y ys) ≡ (if y == x then 1 else 0) + count x ys
unfolding insert_by count
insert_by-count before x y [] = refl
insert_by-count before x y (z ∷ ys) = ground (arith, insert_by-count before x y ys)

sort_by-count :
    (before : ℕ → ℕ → Bool) (x : ℕ) (xs : List ℕ) → count x (sort_by before xs) ≡ count x xs
unfolding sort_by count
sort_by-count before x [] = refl
sort_by-count before x (y ∷ xs) =
    omega (arith, insert_by-count before x y (sort_by before xs), sort_by-count before x xs)

-- The loads of these slots, added up.
unfoldable pub total : (ℕ → ℕ) → List ℕ → ℕ
total load [] = 0
total load (s ∷ slots) = load s + total load slots

add_load-total :
    (s : ℕ) (load : ℕ → ℕ) (slots : List ℕ)
    → total (add_load s load) slots ≡ total load slots + count s slots
unfolding total count
add_load-total s load [] = omega arith
add_load-total s load (t ∷ slots) = ground (arith, add_load-total s load slots)

-- No slot of the order is under the limit where none is picked.
pub pick-none :
    (load : ℕ → ℕ) (limit : ℕ) (order : List ℕ) (s : ℕ)
    → pick load limit order ≡ none
    → 0 < count s order
    → limit ≤ load s
unfolding pick count
pick-none load limit [] s e h = absurd (omega arith)
pick-none load limit (t ∷ order) s e h = elim (Bool-cases (ltb (load t) limit)) [
  | inl under ↦ absurd (cc (rw (pick, under) at e))
  | inr full ↦
      let rest : pick load limit order ≡ none = rw (pick, full) at e in
      elim (Bool-cases (t == s)) [
        | inl same ↦ ground (arith, full, ap load ((==_iff t s).0 same))
        | inr other ↦ pick-none load limit order s rest (ground arith)
      ]
]

pub pick-some :
    (load : ℕ → ℕ) (limit : ℕ) (order : List ℕ) (s : ℕ)
    → pick load limit order ≡ some s
    → (load s < limit) × (0 < count s order)
unfolding pick count
pick-some load limit [] s e = absurd (cc e)
pick-some load limit (t ∷ order) s e = elim (Bool-cases (ltb (load t) limit)) [
  | inl under ↦
      let is_t : t ≡ s = some-injective _ _ (rw (pick, under) at e) in
      (ground (arith, under, ap load is_t), ground (arith, is_t))
  | inr full ↦
      let rest : (load s < limit) × (0 < count s order) =
        pick-some load limit order s (rw (pick, full) at e) in
      (rest.0, ground (arith, rest.1))
]

-- Slots that are all at the limit carry it each.
pub full_total :
    (load : ℕ → ℕ) (limit : ℕ) (slots : List ℕ)
    → ((s : ℕ) → 0 < count s slots → limit ≤ load s)
    → limit * length slots ≤ total load slots
unfolding total count
full_total load limit [] h = omega arith
full_total load limit (t ∷ slots) h =
    omega (arith, full_total load limit slots (λ s k. h s (ground arith)), h t (ground arith))

pub give-total :
    (limit : ℕ) (slots : List ℕ) (u : Bytes) (order : List ℕ) (shares : Shares)
    → ((s : ℕ) → count s slots ≤ 1)
    → ((s : ℕ) → count s order ≡ count s slots)
    → total shares.load slots < limit * length slots
    → total (give u (pick shares.load limit order) shares).load slots ≡ total shares.load slots + 1
give-total limit slots u order shares once same room =
    elim (Option-cases (pick shares.load limit order)) [
      | inl nothing ↦ absurd (
          omega (
            arith,
            room,
            full_total shares.load limit slots
                (λ s k. pick-none shares.load limit order s nothing (omega (arith, same s, k))),
          ))
      | inr (s, found) ↦
          rw (found, add_load-total s shares.load slots)
            (omega (arith, once s, same s, (pick-some shares.load limit order s found).1))
    ]

-- Each order of these has the slots.
unfoldable pub HaveSlots : List ℕ → List Ranked → Type 0
HaveSlots slots rs = All (λ r. (s : ℕ) → count s r.order ≡ count s slots) rs

give_all-total :
    (limit : ℕ) (slots : List ℕ) (rs : List Ranked) (shares : Shares)
    → ((s : ℕ) → count s slots ≤ 1)
    → HaveSlots slots rs
    → total shares.load slots + length rs ≤ limit * length slots
    → total (give_all limit rs shares).load slots ≡ total shares.load slots + length rs
unfolding give_all HaveSlots
give_all-total limit slots [] shares once all room = omega arith
give_all-total limit slots (r ∷ rs) shares once (h, all) room =
    let next : Shares = give r.unit (pick shares.load limit r.order) shares in
    let grown : total next.load slots ≡ total shares.load slots + 1 =
      give-total limit slots r.unit r.order shares once h (omega (arith, room)) in
    omega (arith, give_all-total limit slots rs next once all (omega (arith, grown, room)), grown)

pub rank-HaveSlots :
    (score : Bytes → ℕ → ℕ) (slots : List ℕ) (units : List Bytes)
    → HaveSlots slots (map (rank score (sort_by ltb slots)) units)
unfolding HaveSlots rank
rank-HaveSlots score slots [] = tt
rank-HaveSlots score slots (u ∷ units) = (
  λ s. sort_by-count (slot_before (score u)) s (sort_by ltb slots) ∙ sort_by-count ltb s slots,
  rank-HaveSlots score slots units,
)

insert_by-HaveSlots :
    (before : Ranked → Ranked → Bool) (slots : List ℕ) (r : Ranked) (rs : List Ranked)
    → ((s : ℕ) → count s r.order ≡ count s slots)
    → HaveSlots slots rs
    → HaveSlots slots (insert_by before r rs)
unfolding HaveSlots insert_by
insert_by-HaveSlots before slots r [] h all = (h, tt)
insert_by-HaveSlots before slots r (x ∷ rs) h (hx, all) = elim (Bool-cases (before x r)) [
  | inl later ↦ rw later (hx, insert_by-HaveSlots before slots r rs h all)
  | inr sooner ↦ rw sooner (h, (hx, all))
]

pub sort_by-HaveSlots :
    (before : Ranked → Ranked → Bool) (slots : List ℕ) (rs : List Ranked)
    → HaveSlots slots rs
    → HaveSlots slots (sort_by before rs)
unfolding HaveSlots sort_by
sort_by-HaveSlots before slots [] all = tt
sort_by-HaveSlots before slots (r ∷ rs) (h, all) =
    insert_by-HaveSlots before slots r (sort_by before rs) h (sort_by-HaveSlots before slots rs all)

insert_by-length :
    (before : Ranked → Ranked → Bool) (r : Ranked) (rs : List Ranked)
    → length (insert_by before r rs) ≡ suc (length rs)
unfolding insert_by
insert_by-length before r [] = refl
insert_by-length before r (x ∷ rs) = ground (arith, insert_by-length before r rs)

pub sort_by-length :
    (before : Ranked → Ranked → Bool) (rs : List Ranked) → length (sort_by before rs) ≡ length rs
unfolding sort_by
sort_by-length before [] = refl
sort_by-length before (r ∷ rs) =
    omega (arith, insert_by-length before r (sort_by before rs), sort_by-length before rs)

pub map-length : (f : Bytes → Ranked) (units : List Bytes) → length (map f units) ≡ length units
map-length f [] = refl
map-length f (u ∷ units) = omega (arith, map-length f units)

pub total_zero : (slots : List ℕ) → total (λ s. 0) slots ≡ 0
unfolding total
total_zero [] = refl
total_zero (s ∷ slots) = omega (arith, total_zero slots)

pub share_covers : (units slots : ℕ) → 0 < slots → units ≤ share units slots * slots
share_covers units slots h =
    let whole : (units + slots - 1) / slots * slots + (units + slots - 1) % slots
        ≡ units + slots - 1 =
      div-add-mod' (units + slots - 1) slots in
    omega (arith, whole, mod-lt (units + slots - 1) h)
