-- ===== src/Tenant.antt =====
-- pkg/tenant/tenant.go: the grammar of a tenant id.
use wave_house.Prelude.{
  Option, Result, ℕ, ◌<◌, ◌≡◌, Bool, if◌then◌else◌, length, none, ok, leb, some, ◌==◌, ◌↔◌, ◌∷◌,
  ◌≤◌, All, Option-cases, err, ◌&&◌, ◌+◌, inl, ltb, true, ◌||◌, arith, inr, [], refl,
}
use wave_house.Prelude.Bytes.{Bytes, codes}

-- Why an id is refused: the byte and its position for the last kind.
pub data TenantError : Type 0 where
  empty_id : TenantError
  too_long : ℕ → TenantError
  bad_byte : (c i : ℕ) → TenantError

abbrev pub max_len : ℕ
max_len = 64

abbrev pub default_tenant : Bytes
default_tenant = codes "0"

-- The case of the `switch` that accepts a byte.
unfoldable pub is_id_byte : ℕ → Bool
is_id_byte c =
    (leb b'a' c && leb c b'z')
    || ((leb b'A' c && leb c b'Z') || ((leb b'0' c && leb c b'9') || (c == b'_' || c == b'-')))

-- The loop of `Parse` from index `i`: the first byte refused.
unfoldable pub scan_id : Bytes → ℕ → Option TenantError
scan_id [] i = none
scan_id (c ∷ s) i =
    let rest = scan_id s (i + 1) in if is_id_byte c then rest else some (bad_byte c i)

abbrev pub accepted : Bytes → Option TenantError → Result TenantError Bytes
accepted s none = ok s
accepted s (some e) = err e

unfoldable pub parse : Bytes → Result TenantError Bytes
parse s =
    if length s == 0
    then err empty_id
    else if ltb max_len (length s)
    then err (too_long (length s))
    else accepted s (scan_id s 0)

-- The grammar, stated without the loop.
pub record IsTenantId (s : Bytes) : Type 0 where
  pub nonempty : 0 < length s
  pub short : length s ≤ max_len
  pub bytes : All (λ c. is_id_byte c ≡ true) s

scan_id_iff : (s : Bytes) (i : ℕ) → (scan_id s i ≡ none) ↔ All (λ c. is_id_byte c ≡ true) s
unfolding scan_id
scan_id_iff [] i = (λ _. tt, λ _. refl)
scan_id_iff (c ∷ s) i = ground (arith, scan_id_iff s (i + 1))

-- `Parse` accepts exactly the ids of the grammar, and returns them unchanged.
pub parse_iff : (s t : Bytes) → (parse s ≡ ok t) ↔ (IsTenantId s × (s ≡ t))
unfolding parse
parse_iff s t = elim (Option-cases (scan_id s 0)) [
  | inl none_bad ↦ (
    λ h. (
      record {
        nonempty = ground arith;
        short = ground arith;
        bytes = (scan_id_iff s 0).0 none_bad;
      },
      ground arith,
    ),
    λ (v, same). ground (arith, v.nonempty, v.short),
  )
  | inr (e, bad) ↦ (
    λ h. absurd (ground arith),
    λ (v, same). absurd (ground (arith, (scan_id_iff s 0).1 v.bytes)),
  )
]
