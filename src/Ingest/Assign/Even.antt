-- ===== src/Ingest/Assign/Even.antt =====
-- internal/ingest/assign.go: proofs about the owners of the units and the share of a slot.
use wave_house.Prelude.{
  ℕ, [], ◌∷◌, Option-cases, inl, inr, arith, length, ltb, map, List, ◌+◌, ◌<◌, ◌≡◌, if◌then◌else◌,
  ◌≤◌, ◌*◌, ◌==◌, ◌∙◌,
}
use mathlib.Core.List.{Memᴰ}
use wave_house.Prelude.Maps.{put}
use wave_house.Prelude.Bytes.{Bytes, count}
use wave_house.Ingest.Assign.{
  sort_by, Ranked, rank, pick, Shares, give, give_all, no_shares, share, assign_by, ranked_before,
  put,
}
use wave_house.Ingest.Assign.Room.{
  HaveSlots, map-length, pick-some, rank-HaveSlots, share_covers, sort_by-HaveSlots, sort_by-length,
  total, total_zero,
}
use wave_house.Ingest.Assign.Owners.{HasOwner, give_all-HasOwner, rank-IsRanked, sort_by-IsRanked}

give-bounded :
    (limit : ℕ) (u : Bytes) (order : List ℕ) (shares : Shares)
    → ((s : ℕ) → shares.load s ≤ limit)
    → (t : ℕ) → (give u (pick shares.load limit order) shares).load t ≤ limit
give-bounded limit u order shares h t = elim (Option-cases (pick shares.load limit order)) [
  | inl nothing ↦ rw nothing (h t)
  | inr (s, found) ↦ rw found (ground (arith, h t, (pick-some shares.load limit order s found).0))
]

give_all-bounded :
    (limit : ℕ) (rs : List Ranked) (shares : Shares)
    → ((s : ℕ) → shares.load s ≤ limit)
    → (t : ℕ) → (give_all limit rs shares).load t ≤ limit
unfolding give_all HaveSlots
give_all-bounded limit [] shares h t = h t
give_all-bounded limit (r ∷ rs) shares h t =
    give_all-bounded limit rs _ (give-bounded limit r.unit r.order shares h) t

-- How many units of a map a slot has.
unfoldable pub holders : ℕ → List (Bytes × ℕ) → ℕ
holders s [] = 0
holders s ((u, t) ∷ out) = (if t == s then 1 else 0) + holders s out

holders-put :
    (s : ℕ) (u : Bytes) (t : ℕ) (out : List (Bytes × ℕ))
    → holders s (put u t out) ≤ holders s out + (if t == s then 1 else 0)
unfolding holders put
holders-put s u t [] = omega arith
holders-put s u t ((v, w) ∷ out) = ground (arith, holders-put s u t out)

give-holders :
    (limit : ℕ) (u : Bytes) (order : List ℕ) (shares : Shares)
    → ((s : ℕ) → holders s shares.out ≤ shares.load s)
    → (s : ℕ)
    → holders s (give u (pick shares.load limit order) shares).out
      ≤ (give u (pick shares.load limit order) shares).load s
give-holders limit u order shares h s = elim (Option-cases (pick shares.load limit order)) [
  | inl nothing ↦ rw nothing (h s)
  | inr (t, found) ↦ rw found (ground (arith, h s, holders-put s u t shares.out))
]

give_all-holders :
    (limit : ℕ) (rs : List Ranked) (shares : Shares)
    → ((s : ℕ) → holders s shares.out ≤ shares.load s)
    → (s : ℕ) → holders s (give_all limit rs shares).out ≤ (give_all limit rs shares).load s
unfolding give_all
give_all-holders limit [] shares h s = h s
give_all-holders limit (r ∷ rs) shares h s =
    give_all-holders limit rs _ (give-holders limit r.unit r.order shares h) s

-- Over distinct slots, however the units score, every unit is given to one of the slots, and no slot
-- is given more units than the even share, which is the units by the slots, rounded up.
pub assign_by-IsEven :
    (score : Bytes → ℕ → ℕ) (units : List Bytes) (slots : List ℕ) (unit : Bytes) (slot : ℕ)
    → 0 < length slots
    → ((s : ℕ) → count s slots ≤ 1)
    → Memᴰ unit units
    → HasOwner slots unit (assign_by score units slots)
      × (holders slot (assign_by score units slots) ≤ share (length units) (length slots))
unfolding assign_by holders
assign_by-IsEven score units [] unit slot h once m = absurd (omega (arith, h))
assign_by-IsEven score units (s ∷ slots) unit slot h once m =
    let ranks : List Ranked = map (rank score (sort_by ltb (s ∷ slots))) units in
    let rs : List Ranked = sort_by ranked_before ranks in
    let limit : ℕ = share (length units) (length (s ∷ slots)) in
    let many : length rs ≡ length units = sort_by-length ranked_before _ ∙ map-length _ units in
    let all : HaveSlots (s ∷ slots) rs =
      sort_by-HaveSlots ranked_before (s ∷ slots) _ (rank-HaveSlots score (s ∷ slots) units) in
    let room : length units ≤ limit * length (s ∷ slots) =
      share_covers (length units) (length (s ∷ slots)) h in
    let none_yet : total no_shares.load (s ∷ slots) ≡ 0 = total_zero (s ∷ slots) in
    (
      give_all-HasOwner limit (s ∷ slots) unit rs no_shares once all
          (omega (arith, none_yet, many, room))
          (inl (
            sort_by-IsRanked ranked_before unit ranks
              (rank-IsRanked score (sort_by ltb (s ∷ slots)) unit units m))),
      omega (
        arith,
        give_all-holders limit rs no_shares (λ t. omega arith) slot,
        give_all-bounded limit rs no_shares (λ t. omega arith) slot,
      ),
    )
