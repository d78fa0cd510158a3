-- ===== src/Policy/RowFilter/Unresolved.antt =====
-- pkg/policy/rowfilter.go, pkg/policy/policy.go: proofs about a filter with a constant that does not
-- resolve.
use mathlib.Core.List.{Memᴰ}
use mathlib.Core.List.Memᴰ
use wave_house.Prelude.{List, [], ◌≡◌, some, none, ◌⊎◌}
use wave_house.Prelude.Bytes.{Bytes}
use wave_house.Policy.Values.{Fields}
use wave_house.Policy.Types.{Filter, ResolvedPredicate}
use wave_house.Policy.Canonical.{canonical_scalar}
use wave_house.Policy.Template.{claim, parts, claim_at}

-- The constant has a template of a claim that is not a scalar of the token.
pub record IsUnresolved (claims : Fields) (tmpl : Bytes) : Type 0 where
  pub path : Bytes
  pub uses : Memᴰ (claim path) (parts tmpl)
  pub unbound : canonical_scalar (claim_at claims path) ≡ none

-- The filter has the constant under one of the operators that compare with one value.
abbrev pub Names : Filter → Bytes → Type 0
Names f tmpl = (f.eq ≡ some tmpl) ⊎ (f.neq ≡ some tmpl) ⊎ (f.gt ≡ some tmpl) ⊎ (f.lt ≡ some tmpl)

abbrev HasValueless : List ResolvedPredicate → Type 0
HasValueless ps = (p : ResolvedPredicate) × Memᴰ p ps × (p.values ≡ [])
