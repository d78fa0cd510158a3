-- ===== src/Cache/Pending.antt =====
-- internal/cache/pending.go: the token bumps that an invalidation could not deliver. The mutex makes
-- each method one step; a map is an association list. `gen` is a uint64 and wraps around.
pub mod Laws
use wave_house.Prelude.{
  ℕ, Bool, List, Option, if◌then◌else◌, ◌+◌, ◌%◌, ◌^◌, ◌∷◌, [], ltb, length, ◌==◌, map, any, false,
  some, ◌++◌, none,
}
use wave_house.Prelude.Bytes.{Bytes, codes, lookup}
use wave_house.Policy.Types.{is_set}
use wave_house.Prelude.Maps.{put, delete}

pub record PendingKey : Type 0 where
  pub tenant : Bytes
  pub gen : ℕ

pub record PendingBumps : Type 0 where
  pub prefix : Bytes
  pub most : ℕ
  pub keys : List (Bytes × PendingKey)
  pub gen : ℕ
  pub n : ℕ

unfoldable pub new_pending_bumps : Bytes → ℕ → PendingBumps
new_pending_bumps prefix max_keys = record {
  prefix = prefix;
  most = max_keys;
  keys = [];
  gen = 0;
  n = 0;
}

-- internal/cache/redis_codec.go
unfoldable pub tenant_token_key : Bytes → Bytes → Bytes
tenant_token_key prefix id = prefix ++ (codes ":{" ++ (id ++ codes "}:T"))

unfoldable pub put_all :
    PendingKey → List Bytes → List (Bytes × PendingKey) → List (Bytes × PendingKey)
put_all pk [] m = m
put_all pk (k ∷ ks) m = put_all pk ks (put k pk m)

-- The loop that collapses every key to its tenant's token.
unfoldable pub collapse :
    Bytes → ℕ → List (Bytes × PendingKey) → List (Bytes × PendingKey) → List (Bytes × PendingKey)
collapse prefix gen [] out = out
collapse prefix gen ((k, pk) ∷ m) out =
    collapse prefix gen m
      (put (tenant_token_key prefix pk.tenant) (record { tenant = pk.tenant; gen = gen }) out)

unfoldable pub next_gen : ℕ → ℕ
next_gen gen = (gen + 1) % 2 ^ 64

unfoldable pub add : PendingBumps → Bytes → List Bytes → PendingBumps
add p id ks =
    let gen = next_gen p.gen in
    let added = put_all (record { tenant = id; gen = gen }) ks p.keys in
    let keys = if ltb p.most (length added) then collapse p.prefix gen added [] else added in
    record p { keys = keys; gen = gen; n = length keys }

unfoldable pub owed : PendingBumps → List (Bytes × PendingKey)
owed p = p.keys

unfoldable pub snapshot : PendingBumps → List (Bytes × ℕ)
snapshot p = map (λ (k, pk). (k, pk.gen)) (owed p)

abbrev pub drop_if :
    Bytes → ℕ → Option PendingKey → List (Bytes × PendingKey) → List (Bytes × PendingKey)
drop_if k gen none m = m
drop_if k gen (some pk) m = if pk.gen == gen then delete k m else m

unfoldable pub drop_all : List (Bytes × ℕ) → List (Bytes × PendingKey) → List (Bytes × PendingKey)
drop_all [] m = m
drop_all ((k, gen) ∷ landed) m = drop_all landed (drop_if k gen (lookup k m) m)

unfoldable pub done : PendingBumps → List (Bytes × ℕ) → PendingBumps
done p landed = let keys = drop_all landed p.keys in record p { keys = keys; n = length keys }

unfoldable pub is_owed : List (Bytes × PendingKey) → Bytes → Bool
is_owed m k = is_set (lookup k m)

unfoldable pub owes_any : PendingBumps → List Bytes → Bool
owes_any p ks = if p.n == 0 then false else any (is_owed p.keys) ks

unfoldable pub len : PendingBumps → ℕ
len p = p.n
