-- ===== src/Prelude/Bytes.antt =====
-- Go strings as lists of bytes: equality, prefixes, the cut and the split at a byte.
use wave_house.Prelude.{◌+◌, suc, ◌/◌, ◌%◌, ltb, zero}
use Prim.Native.Nat.{ℕ, ◌<◌, ◌+◌}
use Prim.Native.Char.{code}
use Prim.Native.String.{String}
use mathlib.Core.Path.{◌≡◌, refl}
use mathlib.Core.Logic.{◌↔◌, ◌≢◌}
use mathlib.Core.Bool.{Bool, true, false, ◌&&◌}
use mathlib.Core.Option.{Option, none, some}
use mathlib.Core.List.{List, [], ◌∷◌, ◌++◌}
use native.Mathlib.Omega.{arith}
use wave_house.Prelude.Tests.{◌==◌, if◌then◌else◌}
use wave_house.Prelude.Lists.{All}

abbrev pub Bytes : Type 0
Bytes = List ℕ

-- The bytes of an ASCII literal of the source.
abbrev pub codes : String → Bytes
codes String.[] = []
codes (String.◌∷◌ c s) = code c ∷ codes s

abbrev pub IsByte : ℕ → Type 0
IsByte b = b < 256

unfoldable pub bytes_eq : Bytes → Bytes → Bool
bytes_eq [] [] = true
bytes_eq (a ∷ s) (b ∷ t) = a == b && bytes_eq s t
bytes_eq _ _ = false

pub bytes_eq_iff : (s t : Bytes) → (bytes_eq s t ≡ true) ↔ (s ≡ t)
unfolding bytes_eq
bytes_eq_iff [] [] = (λ _. refl, λ _. refl)
bytes_eq_iff (a ∷ s) (b ∷ t) = ground (arith, bytes_eq_iff s t)
bytes_eq_iff [] (b ∷ t) = ground arith
bytes_eq_iff (a ∷ s) [] = ground arith

pub bytes_eq_self : (s : Bytes) → bytes_eq s s ≡ true
bytes_eq_self s = (bytes_eq_iff s s).1 refl

-- No byte of the text is `c`.
abbrev pub Lacks : ℕ → Bytes → Type 0
Lacks c s = All (λ b. b ≢ c) s

-- strings.CutPrefix: what follows the prefix, if the text has it.
unfoldable pub cut_prefix : Bytes → Bytes → Option Bytes
cut_prefix [] s = some s
cut_prefix (p ∷ ps) [] = none
cut_prefix (p ∷ ps) (c ∷ s) = if p == c then cut_prefix ps s else none

pub cut_prefix-append : (p s : Bytes) → cut_prefix p (p ++ s) ≡ some s
unfolding cut_prefix
cut_prefix-append [] s = refl
cut_prefix-append (c ∷ p) s = ground (arith, cut_prefix-append p s)

-- strings.Cut at one byte: the text before and after its first occurrence.
abbrev pub before_cut : ℕ → Option (Bytes × Bytes) → Option (Bytes × Bytes)
before_cut c none = none
before_cut c (some (s, t)) = some (c ∷ s, t)

unfoldable pub cut : ℕ → Bytes → Option (Bytes × Bytes)
cut sep [] = none
cut sep (c ∷ s) = if c == sep then some ([], s) else before_cut c (cut sep s)

pub cut-append : (sep : ℕ) (s t : Bytes) → Lacks sep s → cut sep (s ++ sep ∷ t) ≡ some (s, t)
unfolding cut
cut-append sep [] t h = ground arith
cut-append sep (c ∷ s) t h = ground (arith, cut-append sep s t)

-- strings.Split at one byte.
abbrev pub extend_head : ℕ → List Bytes → List Bytes
extend_head c [] = (c ∷ []) ∷ []
extend_head c (f ∷ fs) = (c ∷ f) ∷ fs

unfoldable pub split_at : ℕ → Bytes → List Bytes
split_at sep [] = [] ∷ []
split_at sep (c ∷ s) =
    let rest = split_at sep s in if c == sep then [] ∷ rest else extend_head c rest

-- A text without the separator is one field, and the separator ends it.
pub split_at-Lacks : (sep : ℕ) (s : Bytes) → Lacks sep s → split_at sep s ≡ s ∷ []
unfolding split_at
split_at-Lacks sep [] h = refl
split_at-Lacks sep (c ∷ s) h = ground (arith, split_at-Lacks sep s)

pub split_at-append :
    (sep : ℕ) (s t : Bytes) → Lacks sep s → split_at sep (s ++ sep ∷ t) ≡ s ∷ split_at sep t
unfolding split_at
split_at-append sep [] t h = ground arith
split_at-append sep (c ∷ s) t h = ground (arith, split_at-append sep s t)

module _ {ℓ} {V : Type ℓ} where
  -- A map keyed by strings, as an association list in any order of iteration.
  unfoldable pub lookup : Bytes → List (Bytes × V) → Option V
  lookup k [] = none
  lookup k ((j, v) ∷ m) = if bytes_eq j k then some v else lookup k m

unfoldable pub contains : Bytes → List Bytes → Bool
contains s [] = false
contains s (x ∷ xs) = if bytes_eq x s then true else contains s xs

-- strings.Join.
abbrev pub joined_rest : Bytes → List Bytes → Bytes
joined_rest sep [] = []
joined_rest sep (x ∷ xs) = sep ++ (x ++ joined_rest sep xs)

unfoldable pub join_texts : Bytes → List Bytes → Bytes
join_texts sep [] = []
join_texts sep (x ∷ xs) = x ++ joined_rest sep xs

-- How often a byte stands in a text.
unfoldable pub count : ℕ → Bytes → ℕ
count c [] = 0
count c (b ∷ s) = (if b == c then 1 else 0) + count c s

pub count-append : (c : ℕ) (s t : Bytes) → count c (s ++ t) ≡ count c s + count c t
unfolding count
count-append c [] t = omega arith
count-append c (b ∷ s) t = omega (arith, count-append c s t)

pub count-Lacks : (c : ℕ) (s : Bytes) → Lacks c s → count c s ≡ 0
unfolding count
count-Lacks c [] h = refl
count-Lacks c (b ∷ s) h = ground (arith, count-Lacks c s)

-- How often a byte stands in the texts together.
unfoldable pub count_all : ℕ → List Bytes → ℕ
count_all c [] = 0
count_all c (s ∷ ss) = count c s + count_all c ss

joined_rest-count :
    (c : ℕ) (sep : Bytes) (ss : List Bytes)
    → count c sep ≡ 0
    → count c (joined_rest sep ss) ≡ count_all c ss
unfolding count_all count
joined_rest-count c sep [] h = refl
joined_rest-count c sep (s ∷ ss) h = omega (
  arith,
  count-append c sep (s ++ joined_rest sep ss),
  count-append c s (joined_rest sep ss),
  joined_rest-count c sep ss h,
)

-- A separator without the byte leaves the count of the joined texts to them.
pub join_texts-count :
    (c : ℕ) (sep : Bytes) (ss : List Bytes)
    → count c sep ≡ 0
    → count c (join_texts sep ss) ≡ count_all c ss
unfolding count_all count join_texts
join_texts-count c sep [] h = refl
join_texts-count c sep (s ∷ ss) h =
    omega (arith, count-append c s (joined_rest sep ss), joined_rest-count c sep ss h)

pub count_all-append :
    (c : ℕ) (ss ts : List Bytes) → count_all c (ss ++ ts) ≡ count_all c ss + count_all c ts
unfolding count_all
count_all-append c [] ts = omega arith
count_all-append c (s ∷ ss) ts = omega (arith, count_all-append c ss ts)

-- Go's `%d`: the fuel is more than the number of digits.
unfoldable pub decimal_digits : ℕ → ℕ → Bytes → Bytes
decimal_digits zero n acc = acc
decimal_digits (suc fuel) n acc =
    let more = decimal_digits fuel (n / 10) ((b'0' + n % 10) ∷ acc) in
    if ltb n 10 then (b'0' + n) ∷ acc else more

unfoldable pub decimal : ℕ → Bytes
decimal n = decimal_digits (n + 1) n []
