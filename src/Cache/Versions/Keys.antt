-- ===== src/Cache/Versions/Keys.antt =====
-- internal/cache/version_manager.go: proofs about the text of a key.
use mathlib.Core.Option.{some-injective}
use wave_house.Prelude.{
  ℕ, [], ◌∷◌, ◌++◌, some, ok, arith, All, refl, List, ◌≡◌, Result, ap, sym, ◌∙◌, get_or,
  ok-injective,
}
use wave_house.Prelude.Bytes.{Bytes, IsByte, Lacks, cut, cut-append, decimal, join_texts}
use wave_house.Prelude.Decimal.{decimal-injective, decimal-IsByte}
use wave_house.Keyenc.{KeyError, escape, join, split, kept, check_sep}
use wave_house.Keyenc.Laws.{
  IsSeparator, IsFieldByte, escape-IsFieldByte, key_of, append_join-eq, split-key_of, key_of-Lacks,
}
use wave_house.Cache.Versions.{dot, bar, joined, key_text, sort_texts}

field_bytes-Lacks : (s : Bytes) → All IsFieldByte s → Lacks bar s
unfolding kept
field_bytes-Lacks [] h = tt
field_bytes-Lacks (c ∷ s) h = (ground (arith, h.0), field_bytes-Lacks s h.1)

dot-IsSeparator : IsSeparator dot
unfolding check_sep kept
dot-IsSeparator = refl

bar-IsSeparator : IsSeparator bar
unfolding check_sep kept
bar-IsSeparator = refl

abbrev tenant_key : Bytes → ℕ → Bytes
tenant_key id gen = key_of dot id (decimal gen ∷ [])

tenant_part : (id : Bytes) (gen : ℕ) → joined (join dot (id ∷ decimal gen ∷ [])) ≡ tenant_key id gen
unfolding join
tenant_part id gen = rw (append_join-eq [] dot id (decimal gen ∷ []) dot-IsSeparator) refl

abbrev deps_part : List Bytes → Bytes
deps_part segs = join_texts (bar ∷ []) (sort_texts segs)

-- The three parts of a key.
key_text-cut :
    (sha id : Bytes) (gen : ℕ) (segs : List Bytes)
    → All IsByte sha
    → cut bar (key_text sha id gen segs)
      ≡ some (escape sha, tenant_key id gen ++ bar ∷ deps_part segs)
unfolding key_text
key_text-cut sha id gen segs h = rw (tenant_part id gen) (
    cut-append bar (escape sha) (tenant_key id gen ++ bar ∷ deps_part segs)
      (field_bytes-Lacks (escape sha) (escape-IsFieldByte sha h)))

tenant_fields-IsByte :
    (id : Bytes) (gen : ℕ) → All IsByte id → All (All IsByte) (id ∷ decimal gen ∷ [])
tenant_fields-IsByte id gen k = (k, (decimal-IsByte gen, tt))

tenant_key-cut :
    (id : Bytes) (gen : ℕ) (segs : List Bytes)
    → All IsByte id
    → cut bar (tenant_key id gen ++ bar ∷ deps_part segs) ≡ some (tenant_key id gen, deps_part segs)
tenant_key-cut id gen segs k = cut-append bar (tenant_key id gen) (deps_part segs) (
    key_of-Lacks bar dot id (decimal gen ∷ []) bar-IsSeparator (omega arith)
      (tenant_fields-IsByte id gen k))

tenant_key-gen :
    (id : Bytes) (gen gen2 : ℕ)
    → All IsByte id
    → tenant_key id gen ≡ tenant_key id gen2
    → gen ≡ gen2
tenant_key-gen id gen gen2 k e =
    let fields : ◌≡◌ {A = Result KeyError (List Bytes)} (ok (id ∷ decimal gen ∷ []))
        (ok (id ∷ decimal gen2 ∷ [])) =
      sym (split-key_of dot id (decimal gen ∷ []) dot-IsSeparator (tenant_fields-IsByte id gen k))
      ∙ ap (λ key. split key dot) e
      ∙ split-key_of dot id (decimal gen2 ∷ []) dot-IsSeparator (tenant_fields-IsByte id gen2 k) in
    decimal-injective gen gen2 (ap (λ fs. get_or fs 1 []) (ok-injective _ _ _ refl fields))

-- The generation of the tenant can be read off the key.
pub key_text-gen :
    (sha sha2 id : Bytes) (gen gen2 : ℕ) (segs segs2 : List Bytes)
    → All IsByte sha
    → All IsByte sha2
    → All IsByte id
    → key_text sha id gen segs ≡ key_text sha2 id gen2 segs2
    → gen ≡ gen2
key_text-gen sha sha2 id gen gen2 segs segs2 h h2 k e =
    let rests : tenant_key id gen ++ bar ∷ deps_part segs
        ≡ tenant_key id gen2 ++ bar ∷ deps_part segs2 =
      ap (λ p. p.1)
        (some-injective _ _ (
          sym (key_text-cut sha id gen segs h)
          ∙ ap (cut bar) e
          ∙ key_text-cut sha2 id gen2 segs2 h2)) in
    tenant_key-gen id gen gen2 k (
      ap (λ p. p.0)
        (some-injective _ _ (
          sym (tenant_key-cut id gen segs k)
          ∙ ap (cut bar) rests
          ∙ tenant_key-cut id gen2 segs2 k)))
