-- ===== src/Stream/Heartbeat/Refines.antt =====
-- internal/stream/heartbeat.go: proofs about the wheel and the set of registered subscribers.
use wave_house.Prelude.{
  ℕ, true, false, [], ◌∷◌, arith, Bool-cases, inl, inr, Bool, ◌<◌, ◌==◌, ◌≡◌, ◌&&◌, ◌+◌, refl,
  if◌then◌else◌, ◌-◌, suc, ◌%◌, zero, ◌∙◌, ap, List, sym, ==_iff,
}
use wave_house.Prelude.Bytes.{count}
use wave_house.Stream.Heartbeat.{
  Bucket, Heartbeater, new_ring, add, remove, deal, tick, wake, gather, rebuild, reconfigure,
  wheel_shape, new_heartbeater, Call, call_add, call_remove, call_reconfigure, call_tick, call_wake,
  step, run, registered_after, is_registered, sum_below,
}
use wave_house.Stream.Heartbeat.Counts.{places, new_ring-places, gather-count}
use wave_house.Stream.Heartbeat.Wheel.{
  IsWellFormed, places_of, place-places, place-IsWellFormed, Dealt, deal-Dealt, remove_at-places,
  remove_at-IsWellFormed,
}

-- A ring has a bucket at least.
wheel_shape_filled : (period buckets : ℕ) → 0 < (wheel_shape period buckets).1
unfolding wheel_shape
wheel_shape_filled period buckets = ground arith

abbrev pub spot : Bool → ℕ
spot b = if b then 1 else 0

added :
    (b c : Bool) (n : ℕ)
    → n ≡ spot c
    → (b ≡ true → c ≡ false)
    → (if b then 1 else 0) + n ≡ spot (if b then true else c)
added true c n e h = omega (arith, e ∙ ap spot (h refl))
added false c n e h = omega (arith, e)

removed : (b c : Bool) (n : ℕ) → n ≡ spot c → (if b then 0 else n) ≡ spot (if b then false else c)
removed true c n e = refl
removed false c n e = e

-- What a step makes of a wheel, in the places of each subscriber.
record Keeps (before : ℕ → ℕ) (hb : Heartbeater) : Type 0 where
  pub well : IsWellFormed hb
  pub same : (x : ℕ) → places_of x hb ≡ before x

nil_count : (x : ℕ) (b : Bucket) → b ≡ [] → count x b ≡ 0
unfolding count
nil_count x b e = rw e refl

empty_places :
    (x n : ℕ) (bucket : ℕ → Bucket) → ((i : ℕ) → count x (bucket i) ≡ 0) → places x n bucket ≡ 0
unfolding sum_below
empty_places x zero bucket h = refl
empty_places x (suc n) bucket h = omega (arith, h n, empty_places x n bucket h)

empty-IsWellFormed :
    (hb : Heartbeater) → hb.hand < hb.size → ((i : ℕ) → hb.bucket i ≡ []) → IsWellFormed hb
empty-IsWellFormed hb h empty = record {
  turning = h;
  once = λ x. omega (arith, no_places x);
  found = λ x i fits k. absurd (omega (arith, none_in x i));
}
  where
    none_in : (x i : ℕ) → count x (hb.bucket i) ≡ 0
    none_in x i = nil_count x (hb.bucket i) (empty i)

    no_places : (x : ℕ) → places_of x hb ≡ 0
    no_places x = empty_places x hb.size hb.bucket (none_in x)

-- The order in which a bucket is ranged over lists its members.
abbrev pub IsOrder : (Bucket → Bucket) → Type 0
IsOrder order = (x : ℕ) (b : Bucket) → count x (order b) ≡ count x b

-- Only a subscriber that is not registered is added, as each connection does once.
abbrev Allowed : (ℕ → Bool) → Call → Type 0
Allowed registered (call_add x) = registered x ≡ false
Allowed registered (call_remove x) = Unit
Allowed registered (call_reconfigure period buckets) = Unit
Allowed registered call_tick = Unit
Allowed registered call_wake = Unit

-- Every addition of these calls is of a subscriber that is not registered when it comes.
unfoldable pub AddsOnce : (ℕ → Bool) → List Call → Type 0
AddsOnce registered [] = Unit
AddsOnce registered (c ∷ cs) =
    Allowed registered c × AddsOnce (λ x. registered_after x c (registered x)) cs

module _ (order : Bucket → Bucket) (ranges : IsOrder order) where
  rebuild-Keeps :
      (n : ℕ) (hb : Heartbeater)
      → 0 < n
      → IsWellFormed hb
      → Keeps (λ x. places_of x hb) (rebuild order n hb)
  unfolding rebuild
  rebuild-Keeps n hb h inv =
      let fresh : Heartbeater = record hb {
        size = n;
        bucket = new_ring;
        hand = 0;
        ring = hb.ring + 1;
      } in
      let fresh_well : IsWellFormed fresh = empty-IsWellFormed fresh h (λ i. refl) in
      let all : (x : ℕ) → count x (gather order hb.size hb.bucket) ≡ places_of x hb =
        λ x. gather-count order ranges x hb.size hb.bucket in
      let dealt : Dealt (gather order hb.size hb.bucket) fresh
          (deal 0 (gather order hb.size hb.bucket) fresh) =
        deal-Dealt 0 (gather order hb.size hb.bucket) fresh fresh_well
          (λ x. omega (arith, all x, inv.once x, new_ring-places x n)) in
      record {
        well = dealt.well;
        same = λ x. omega (arith, dealt.spread x, all x, new_ring-places x n);
      }

  retimed :
      (t : ℕ) (r : Bool) (before : ℕ → ℕ) (hb : Heartbeater)
      → Keeps before hb
      → Keeps before (record hb { tick_interval = t; retick = r })
  retimed t r before hb k = record {
    well = record { turning = k.well.turning; once = k.well.once; found = k.well.found };
    same = k.same;
  }

  reconfigure-Keeps :
      (period buckets : ℕ) (hb : Heartbeater)
      → IsWellFormed hb
      → Keeps (λ x. places_of x hb) (reconfigure order period buckets hb)
  unfolding reconfigure
  reconfigure-Keeps period buckets hb inv =
      let shape : ℕ × ℕ = wheel_shape period buckets in
      let as_is : Keeps (λ x. places_of x hb) hb = record { well = inv; same = λ x. refl } in
      elim (Bool-cases (shape.0 == hb.tick_interval && shape.1 == hb.size)) [
        | inl unchanged ↦ rw (reconfigure, unchanged) as_is
        | inr changed ↦ elim (Bool-cases (shape.1 == hb.size)) [
          | inl same_size ↦
              rw (reconfigure, changed, same_size)
                (retimed shape.0 true (λ x. places_of x hb) hb as_is)
          | inr other_size ↦
              rw (reconfigure, changed, other_size)
                (retimed shape.0 true (λ x. places_of x hb) (rebuild order shape.1 hb)
                  (rebuild-Keeps shape.1 hb (wheel_shape_filled period buckets) inv))
        ]
      ]

  step-Keeps :
      (registered : ℕ → Bool) (c : Call) (hb : Heartbeater)
      → Allowed registered c
      → Keeps (λ x. spot (registered x)) hb
      → Keeps (λ x. spot (registered_after x c (registered x))) (step order c hb)
  unfolding step add remove tick wake
  step-Keeps registered (call_add y) hb h k =
      let last : ℕ = (hb.hand + hb.size - 1) % hb.size in
      let fits : last < hb.size = omega (arith, k.well.turning) in
      let new : places_of y hb ≡ 0 = k.same y ∙ ap spot h in
      record {
        well = place-IsWellFormed y last hb k.well fits new;
        same = λ x.
            place-places y last hb k.well fits new x
            ∙ added (y == x) (registered x) _ (k.same x)
                (λ e. ap registered (sym ((==_iff y x).0 e)) ∙ h);
      }
  step-Keeps registered (call_remove y) hb h k = record {
    well = remove_at-IsWellFormed y hb k.well (hb.bucket_of y) refl;
    same = λ x.
        remove_at-places y hb k.well (hb.bucket_of y) refl x
        ∙ removed (y == x) (registered x) _ (k.same x);
  }
  step-Keeps registered (call_reconfigure period buckets) hb h k =
      let now : Keeps (λ x. places_of x hb) (reconfigure order period buckets hb) =
        reconfigure-Keeps period buckets hb k.well in
      record { well = now.well; same = λ x. now.same x ∙ k.same x }
  step-Keeps registered call_tick hb h k = record {
    well = record {
      turning = omega (arith, k.well.turning);
      once = k.well.once;
      found = k.well.found;
    };
    same = k.same;
  }
  step-Keeps registered call_wake hb h k = retimed hb.tick_interval false _ hb k

  run-Keeps :
      (registered : ℕ → Bool) (cs : List Call) (hb : Heartbeater)
      → AddsOnce registered cs
      → Keeps (λ x. spot (registered x)) hb
      → Keeps (λ x. spot (is_registered x cs (registered x))) (run order cs hb)
  unfolding AddsOnce run is_registered
  run-Keeps registered [] hb h k = k
  run-Keeps registered (c ∷ cs) hb h k =
      run-Keeps (λ x. registered_after x c (registered x)) cs (step order c hb) h.1
        (step-Keeps registered c hb h.0 k)

  new-Keeps : (period buckets : ℕ) → Keeps (λ x. 0) (new_heartbeater period buckets)
  unfolding new_heartbeater count
  new-Keeps period buckets = record {
    well =
        empty-IsWellFormed (new_heartbeater period buckets) (wheel_shape_filled period buckets)
          (λ i. refl);
    same = λ x. empty_places x (wheel_shape period buckets).1 new_ring (λ i. refl);
  }

  pub run-IsWellFormed :
      (period buckets : ℕ) (cs : List Call)
      → AddsOnce (λ x. false) cs
      → IsWellFormed (run order cs (new_heartbeater period buckets))
  run-IsWellFormed period buckets cs h =
      (run-Keeps (λ x. false) cs (new_heartbeater period buckets) h (new-Keeps period buckets)).well

  -- After any calls to a new wheel, rebuilds and ticks among them, a subscriber stands in one bucket
  -- of the wheel if it is registered, and else in none. It is asked that ranging over a bucket lists
  -- its members and that no subscriber is added while it is registered.
  pub run-Refines :
      (period buckets : ℕ) (cs : List Call) (x : ℕ)
      → AddsOnce (λ x. false) cs
      → places_of x (run order cs (new_heartbeater period buckets))
        ≡ spot (is_registered x cs false)
  run-Refines period buckets cs x h =
      (run-Keeps (λ x. false) cs (new_heartbeater period buckets) h (new-Keeps period buckets)).same
        x
