-- ===== src/Prelude/Results.antt =====
-- Fallible code: the value, or why there is none.
use mathlib.Core.Path.{◌≡◌, refl}

pub data Result {ℓ} (E : Type ℓ) (A : Type ℓ) : Type ℓ where
  ok : A → Result E A
  err : E → Result E A

infixl 5 ◌>>=◌ ◌>>◌
abbrev pub ◌>>=◌ {ℓ} : {E X Y : Type ℓ} → Result E X → (X → Result E Y) → Result E Y
err why >>= next = err why
ok x >>= next = next x

abbrev pub ◌>>◌ {ℓ} : {E B : Type ℓ} → Result E (Unit {ℓ}) → Result E B → Result E B
m >> k = m >>= λ _. k

-- A chain that answers `ok` got there through its first step.
pub >>=-ok {ℓ} :
    {E X Y : Type ℓ} (first : Result E X) (next : X → Result E Y) {y : Y}
    → (first >>= next) ≡ ok y
    → (x : X) × (first ≡ ok x) × (next x ≡ ok y)
>>=-ok (err why) next reached = cc
>>=-ok (ok x) next reached = (x, refl, reached)

pub ok-injective {ℓ} : {E A : Type ℓ} (m : Result E A) (a b : A) → m ≡ ok a → m ≡ ok b → a ≡ b
ok-injective m a b e f = cc
