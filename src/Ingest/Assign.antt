-- ===== src/Ingest/Assign.antt =====
-- internal/ingest/assign.go: the units of work given to the live membership slots. FNV-1a and
-- shard.Mix are on 64-bit words, written out with their wrap-around.
pub mod Room
pub mod Owners
pub mod Even
use wave_house.Prelude.{
  ℕ, true, false, [], ◌∷◌, some, none, Bool, List, Option, if◌then◌else◌, suc, ◌*◌, ◌++◌, ◌+◌, ◌/◌,
  ◌^◌, length, ltb, ◌%◌, ◌-◌, ◌==◌, map, zero,
}
use wave_house.Prelude.Bytes.{Bytes, decimal}
use wave_house.Prelude.Maps.{put}

-- The exclusive or of two words of `w` bits.
unfoldable pub xor : ℕ → ℕ → ℕ → ℕ
xor zero a b = 0
xor (suc w) a b = 2 * xor w (a / 2) (b / 2) + (if a % 2 == b % 2 then 0 else 1)

abbrev pub word : ℕ
word = 2 ^ 64

-- hash/fnv's New64a over these bytes, from a state on.
unfoldable pub fnv_1a : ℕ → Bytes → ℕ
fnv_1a h [] = h
fnv_1a h (b ∷ s) = fnv_1a (xor 64 h b * 1_099_511_628_211 % word) s

abbrev pub fnv_start : ℕ
fnv_start = 14_695_981_039_346_656_037

unfoldable pub mix : ℕ → ℕ
mix z =
    let a : ℕ = xor 64 z (z / 2 ^ 30) * 0xbf58476d1ce4e5b9 % word in
    let b : ℕ = xor 64 a (a / 2 ^ 27) * 0x94d049bb133111eb % word in xor 64 b (b / 2 ^ 31)

-- Of a slot, which is never negative, the decimal digits are hashed.
unfoldable pub unit_score : Bytes → ℕ → ℕ
unit_score unit slot = mix (fnv_1a fnv_start (unit ++ 0 ∷ decimal slot))

-- slices.SortFunc by an order of two elements, here `before`. It tells all but equal
-- elements apart in the two calls, so the result does not depend on how ties are broken.
module _ {ℓ} {A : Type ℓ} (before : A → A → Bool) where
  unfoldable pub insert_by : A → List A → List A
  insert_by x [] = x ∷ []
  insert_by x (y ∷ ys) = let rest = insert_by x ys in if before y x then y ∷ rest else x ∷ y ∷ ys

  unfoldable pub sort_by : List A → List A
  sort_by [] = []
  sort_by (x ∷ xs) = insert_by x (sort_by xs)

pub record Ranked : Type 0 where
  pub unit : Bytes
  pub order : List ℕ
  pub best : ℕ

unfoldable pub text_before : Bytes → Bytes → Bool
text_before s [] = false
text_before [] (b ∷ t) = true
text_before (a ∷ s) (b ∷ t) = if a == b then text_before s t else ltb a b

-- The slots, best score first, and the lower slot first of two that score alike.
unfoldable pub slot_before : (ℕ → ℕ) → ℕ → ℕ → Bool
slot_before score a b = if score a == score b then ltb a b else ltb (score b) (score a)

unfoldable pub ranked_before : Ranked → Ranked → Bool
ranked_before a b = if a.best == b.best then text_before a.unit b.unit else ltb b.best a.best

abbrev pub score_of_first : (ℕ → ℕ) → List ℕ → ℕ
score_of_first score [] = 0
score_of_first score (s ∷ order) = score s

unfoldable pub rank : (Bytes → ℕ → ℕ) → List ℕ → Bytes → Ranked
rank score slots unit = record {
  unit = unit;
  order = sort_by (slot_before (score unit)) slots;
  best = score_of_first (score unit) (sort_by (slot_before (score unit)) slots);
}

-- The first slot of the order that is under the limit.
unfoldable pub pick : (ℕ → ℕ) → ℕ → List ℕ → Option ℕ
pick load limit [] = none
pick load limit (s ∷ order) =
    let later = pick load limit order in if ltb (load s) limit then some s else later

abbrev pub add_load : ℕ → (ℕ → ℕ) → ℕ → ℕ
add_load s load t = if s == t then load t + 1 else load t

-- The maps `out` and `load`, which the loop writes.
pub record Shares : Type 0 where
  pub out : List (Bytes × ℕ)
  pub load : ℕ → ℕ

abbrev pub give : Bytes → Option ℕ → Shares → Shares
give unit none shares = shares
give unit (some s) shares = record { out = put unit s shares.out; load = add_load s shares.load }

-- The loop over the ranked units.
unfoldable pub give_all : ℕ → List Ranked → Shares → Shares
give_all limit [] shares = shares
give_all limit (r ∷ rs) shares =
    give_all limit rs (give r.unit (pick shares.load limit r.order) shares)

abbrev pub no_shares : Shares
no_shares = record { out = []; load = λ s. 0 }

abbrev pub share : ℕ → ℕ → ℕ
share units slots = (units + slots - 1) / slots

-- `assignUnits` with the score as an argument. Of the two maps that its loop writes it answers `out`.
unfoldable pub assign_by : (Bytes → ℕ → ℕ) → List Bytes → List ℕ → List (Bytes × ℕ)
assign_by score units [] = []
assign_by score units (s ∷ slots) =
    (give_all (share (length units) (length (s ∷ slots)))
      (sort_by ranked_before (map (rank score (sort_by ltb (s ∷ slots))) units)) no_shares).out

unfoldable pub assign_units : List Bytes → List ℕ → List (Bytes × ℕ)
assign_units units slots = assign_by unit_score units slots
