-- ===== src/Stream/Heartbeat/Rounds.antt =====
-- internal/stream/heartbeat.go: proofs about the pushes of one turn of the wheel.
use wave_house.Prelude.{
  ℕ, true, false, arith, Bool-cases, inl, inr, suc, ◌<◌, zero, ◌+◌, ◌%◌, ◌≡◌, ◌⊎◌, ltb, ltb→lt,
  List, leb, ◌-◌, ◌∙◌, ap,
}
use native.Mathlib.Nat.{mod-eq_of_lt, mod_self}
use wave_house.Prelude.{refl, ltb→lt, ltb}
use wave_house.Prelude.Bytes.{count}
use wave_house.Stream.Heartbeat.{
  Bucket, Heartbeater, tick, pushed, run, Call, new_heartbeater, is_registered,
}
use wave_house.Stream.Heartbeat.Counts.{places-bucket}
use wave_house.Stream.Heartbeat.Wheel.{IsWellFormed, places_of}
use wave_house.Stream.Heartbeat.Refines.{IsOrder, AddsOnce, run-IsWellFormed, run-Refines, spot}

-- The wheel after so many ticks.
unfoldable pub ticks : ℕ → Heartbeater → Heartbeater
ticks zero hb = hb
ticks (suc k) hb = ticks k (tick hb)

next_hand :
    (hand size : ℕ)
    → hand < size
    → (((hand + 1) % size ≡ hand + 1) × (hand + 1 < size))
      ⊎ ((hand + 1 ≡ size) × ((hand + 1) % size ≡ 0))
next_hand hand size h = elim (Bool-cases (ltb (hand + 1) size)) [
  | inl more ↦ inl (mod-eq_of_lt (ltb→lt (hand + 1) size more), ltb→lt (hand + 1) size more)
  | inr last ↦ let full : hand + 1 ≡ size = ground arith in inr (full, rw full (mod_self size))
]

-- The hand comes to a bucket that is `d` places on, past the end of the ring or not.
reaches :
    (d i : ℕ) (hb : Heartbeater)
    → hb.hand < hb.size
    → i < hb.size
    → (hb.hand + d ≡ i) ⊎ (hb.hand + d ≡ i + hb.size)
    → ((ticks d hb).hand ≡ i) × ((ticks d hb).bucket ≡ hb.bucket)
unfolding ticks tick
reaches zero i hb h fits at = (ground arith, refl)
reaches (suc d) i hb h fits at =
    let on : (((hb.hand + 1) % hb.size ≡ hb.hand + 1) × (hb.hand + 1 < hb.size))
        ⊎ ((hb.hand + 1 ≡ hb.size) × ((hb.hand + 1) % hb.size ≡ 0)) =
      next_hand hb.hand hb.size h in
    reaches d i (tick hb) (ground (arith, on)) fits (ground (arith, on))

-- A subscriber that stands in the wheel is pushed within one turn.
turn :
    (hb : Heartbeater) (x : ℕ)
    → IsWellFormed hb
    → 0 < places_of x hb
    → (k : ℕ) × (k < hb.size) × (0 < count x (pushed (ticks k hb)))
turn hb x inv h =
    let at : (i : ℕ) × (i < hb.size) × (0 < count x (hb.bucket i)) =
      places-bucket x hb.size hb.bucket h in
    elim (Bool-cases (leb hb.hand at.0)) [
      | inl ahead ↦
          reached at.0 (at.0 - hb.hand) at.1 at.2 (ground (arith, at.1)) (inl (ground arith))
      | inr behind ↦
          reached at.0 (at.0 + hb.size - hb.hand) at.1 at.2 (ground arith)
            (inr (ground (arith, inv.turning)))
    ]
  where
    reached :
        (i d : ℕ)
        → i < hb.size
        → 0 < count x (hb.bucket i)
        → d < hb.size
        → (hb.hand + d ≡ i) ⊎ (hb.hand + d ≡ i + hb.size)
        → (k : ℕ) × (k < hb.size) × (0 < count x (pushed (ticks k hb)))
    reached i d fits found short way =
        let there : ((ticks d hb).hand ≡ i) × ((ticks d hb).bucket ≡ hb.bucket) =
          reaches d i hb inv.turning fits way in
        (d, short, rw (there.0, there.1) found)

-- After any calls to a new wheel, a registered subscriber is pushed a keepalive by one of the next
-- ticks, before as many of them as the wheel has buckets. It is asked that ranging over a bucket
-- lists its members and that no subscriber is added while it is registered.
pub run-keeps_alive :
    (order : Bucket → Bucket) (period buckets : ℕ) (cs : List Call) (x : ℕ)
    → IsOrder order
    → AddsOnce (λ y. false) cs
    → is_registered x cs false ≡ true
    → (k : ℕ) × (k < (run order cs (new_heartbeater period buckets)).size)
      × (0 < count x (pushed (ticks k (run order cs (new_heartbeater period buckets)))))
run-keeps_alive order period buckets cs x ranges once registered =
    let placed : places_of x (run order cs (new_heartbeater period buckets)) ≡ 1 =
      run-Refines order ranges period buckets cs x once ∙ ap spot registered in
    turn (run order cs (new_heartbeater period buckets)) x
      (run-IsWellFormed order ranges period buckets cs once) (omega (arith, placed))
