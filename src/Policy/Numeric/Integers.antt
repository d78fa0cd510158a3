-- ===== src/Policy/Numeric/Integers.antt =====
-- pkg/policy/numeric.go: proofs about the comparison of canonical integers and their values.
use wave_house.Prelude.{
  ℕ, true, false, none, [], ◌∷◌, ◌≡◌, Bool, All, ltb, if◌then◌else◌, ◌<◌, ◌≤◌, ◌*◌, ◌+◌, ◌-◌, arith,
  length, Bool-cases, inl, inr, refl, ap, sym, ◌∙◌, ◌==◌, ==_iff,
}
use wave_house.Prelude.Bytes.{Bytes, bytes_eq, bytes_eq_iff, cut}
use wave_house.Prelude.Decimal.{value_of}
use wave_house.Prelude.Int.{ℤ, pos, ltb_ℤ, sub_ℕ}
use wave_house.Policy.Canonical.{point_byte, minus, cut_or}
use wave_house.Policy.Numeric.{
  Order, less, same, greater, compare_text, first_of, compare_canonical_magnitudes, negated,
  compare_signs, compare_canonical_decimals,
}

abbrev IsDigit : ℕ → Type 0
IsDigit c = (b'0' ≤ c) × (c ≤ b'9')

-- There is a digit, and no zero in front of others.
abbrev HasLead : Bytes → Type 0
HasLead [] = ⊥
HasLead (c ∷ []) = Unit
HasLead (c ∷ d ∷ s) = b'0' < c

-- The digits of a canonical integer; a negative one is not zero.
pub record IsInteger (negative : Bool) (s : Bytes) : Type 0 where
  pub digits : All IsDigit s
  pub lead : HasLead s
  pub signed_zero : negative ≡ true → 0 < value_of 0 s

abbrev pub signed : Bool → Bytes → Bytes
signed true s = minus ∷ s
signed false s = s

abbrev pub number : Bool → Bytes → ℤ
number true s = sub_ℕ 0 (value_of 0 s)
number false s = pos (value_of 0 s)

abbrev order_of : ℕ → ℕ → Order
order_of m n = if ltb m n then less else if ltb n m then greater else same

abbrev pub order_ℤ : ℤ → ℤ → Order
order_ℤ a b = if ltb_ℤ a b then less else if ltb_ℤ b a then greater else same

value_of-least : (n : ℕ) (s : Bytes) → n ≤ value_of n s
unfolding value_of
value_of-least n [] = omega arith
value_of-least n (c ∷ s) = omega (arith, value_of-least (n * 10 + (c - b'0')) s)

value_of-below :
    (m n : ℕ) (s t : Bytes)
    → All IsDigit s
    → m < n
    → length s ≤ length t
    → value_of m s < value_of n t
unfolding value_of
value_of-below m n [] t h k l = omega (arith, value_of-least n t)
value_of-below m n (c ∷ s) [] h k l = absurd (omega arith)
value_of-below m n (c ∷ s) (d ∷ t) (h, hs) k l =
    value_of-below (m * 10 + (c - b'0')) (n * 10 + (d - b'0')) s t hs (omega (arith, h.0, h.1))
      (omega arith)

compare_text-value_of :
    (n : ℕ) (s t : Bytes)
    → All IsDigit s
    → All IsDigit t
    → length s ≡ length t
    → compare_text s t ≡ order_of (value_of n s) (value_of n t)
unfolding compare_text value_of
compare_text-value_of n [] [] h k l = ground arith
compare_text-value_of n [] (d ∷ t) h k l = absurd (omega arith)
compare_text-value_of n (c ∷ s) [] h k l = absurd (omega arith)
compare_text-value_of n (c ∷ s) (d ∷ t) (h, hs) (k, ks) l = elim (Bool-cases (ltb c d)) [
  | inl below ↦
      let smaller =
        value_of-below (n * 10 + (c - b'0')) (n * 10 + (d - b'0')) s t hs
          (ground (arith, below, h.0)) (omega arith) in
      ground (arith, below, smaller)
  | inr above ↦ elim (Bool-cases (ltb d c)) [
    | inl larger ↦
        let smaller =
          value_of-below (n * 10 + (d - b'0')) (n * 10 + (c - b'0')) t s ks
            (ground (arith, larger, k.0)) (omega arith) in
        ground (arith, above, larger, smaller)
    | inr level ↦
        let heads : c ≡ d = ground (arith, above, level) in
        rw (above, level)
          (compare_text-value_of (n * 10 + (c - b'0')) s t hs ks (omega arith)
            ∙ ap
                (λ x.
                  order_of (value_of (n * 10 + (c - b'0')) s) (value_of (n * 10 + (x - b'0')) t))
                heads)
  ]
]

cut_digits : (s : Bytes) → All IsDigit s → cut point_byte s ≡ none
unfolding cut
cut_digits [] h = refl
cut_digits (c ∷ s) (h, hs) =
    let other : (c == point_byte) ≡ false = ground (arith, h.0) in rw (other, cut_digits s hs) refl

first_of-same : (o : Order) → first_of o same ≡ o
first_of-same less = refl
first_of-same same = refl
first_of-same greater = refl

shorter :
    (s t : Bytes)
    → All IsDigit s
    → HasLead s
    → HasLead t
    → length s < length t
    → value_of 0 s < value_of 0 t
unfolding value_of
shorter s [] h l k m = absurd k
shorter [] (d ∷ t) h l k m = absurd l
shorter (c ∷ s) (d ∷ []) h l k m = absurd (omega arith)
shorter (c ∷ s) (d ∷ e ∷ t) h l k m =
    value_of-below 0 (0 * 10 + (d - b'0')) (c ∷ s) (e ∷ t) h (omega (arith, k)) (omega arith)

-- The comparison of two magnitudes that are cut at the point.
abbrev of_parts : Bytes × Bytes × Bool → Bytes × Bytes × Bool → Order
of_parts a b =
    if length a.0 == length b.0
    then first_of (compare_text a.0 b.0) (compare_text a.1 b.1)
    else if ltb (length a.0) (length b.0)
    then less
    else greater

cut_or_digits : (s : Bytes) → All IsDigit s → cut_or point_byte s ≡ (s, [], false)
cut_or_digits s h = rw (cut_or, cut_digits s h) refl

of_parts-value_of :
    (s t : Bytes)
    → All IsDigit s
    → All IsDigit t
    → HasLead s
    → HasLead t
    → of_parts (s, [], false) (t, [], false) ≡ order_of (value_of 0 s) (value_of 0 t)
unfolding compare_text
of_parts-value_of s t hs ht ls lt = elim (Bool-cases (length s == length t)) [
  | inl level ↦ rw level (
      first_of-same (compare_text s t)
      ∙ compare_text-value_of 0 s t hs ht ((==_iff (length s) (length t)).0 level))
  | inr uneven ↦ elim (Bool-cases (ltb (length s) (length t))) [
    | inl short ↦
        let smaller = shorter s t hs ls lt (ground (arith, short)) in
        rw (uneven, short) (ground (arith, smaller))
    | inr long ↦
        let smaller = shorter t s ht lt ls (ground (arith, uneven, long)) in
        rw (uneven, long) (ground (arith, smaller))
  ]
]

compare_canonical_magnitudes-value_of :
    (s t : Bytes)
    → All IsDigit s
    → All IsDigit t
    → HasLead s
    → HasLead t
    → compare_canonical_magnitudes s t ≡ order_of (value_of 0 s) (value_of 0 t)
unfolding compare_canonical_magnitudes
compare_canonical_magnitudes-value_of s t hs ht ls lt =
    ap (λ a. of_parts a (cut_or point_byte t)) (cut_or_digits s hs)
    ∙ ap (of_parts (s, [], false)) (cut_or_digits t ht)
    ∙ of_parts-value_of s t hs ht ls lt

negated_digits : (s : Bytes) → All IsDigit s → negated s ≡ none
negated_digits [] h = refl
negated_digits (c ∷ s) (h, hs) =
    let other : (c == minus) ≡ false = ground (arith, h.0) in rw other refl

order_self : (a : ℤ) → order_ℤ a a ≡ same
order_self a = ground arith

signs :
    (x y : Bool) (s t : Bytes)
    → IsInteger x s
    → IsInteger y t
    → compare_signs (signed x s) (signed y t) (negated (signed x s)) (negated (signed y t))
      ≡ order_ℤ (number x s) (number y t)
signs true true s t h k =
    rw (compare_canonical_magnitudes-value_of s t h.digits k.digits h.lead k.lead) (ground arith)
signs true false s t h k = rw (negated_digits t k.digits) (ground (arith, h.signed_zero refl))
signs false true s t h k = rw (negated_digits s h.digits) (ground (arith, k.signed_zero refl))
signs false false s t h k =
    rw (negated_digits s h.digits, negated_digits t k.digits)
      (compare_canonical_magnitudes-value_of s t h.digits k.digits h.lead k.lead ∙ (ground arith))

same_number :
    (x y : Bool) (s t : Bytes)
    → All IsDigit s
    → All IsDigit t
    → signed x s ≡ signed y t
    → number x s ≡ number y t
same_number true true s t h k e = ap (number true) cc
same_number true false s [] h k e = absurd (cc)
same_number true false s (d ∷ t) h (k, ks) e =
    let first : minus ≡ d = cc in absurd (omega (arith, first, k.0))
same_number false true [] t h k e = absurd (cc)
same_number false true (c ∷ s) t (h, hs) k e =
    let first : c ≡ minus = cc in absurd (omega (arith, first, h.0))
same_number false false s t h k e = ap (number false) e

-- On canonical integers, which are digits without a zero in front, behind a minus where they are
-- negative and not zero, the comparison of the texts is the comparison of the integers that they
-- spell, whatever their lengths.
pub compare_canonical_decimals-number :
    (x y : Bool) (s t : Bytes)
    → IsInteger x s
    → IsInteger y t
    → compare_canonical_decimals (signed x s) (signed y t) ≡ order_ℤ (number x s) (number y t)
unfolding compare_canonical_decimals
compare_canonical_decimals-number x y s t h k =
    elim (Bool-cases (bytes_eq (signed x s) (signed y t))) [
      | inr differs ↦ rw differs (signs x y s t h k)
      | inl equal ↦ rw equal (
          let same_text : signed x s ≡ signed y t =
            (bytes_eq_iff (signed x s) (signed y t)).0 equal in
          sym (
            ap (λ n. order_ℤ n (number y t)) (same_number x y s t h.digits k.digits same_text)
            ∙ order_self (number y t)))
    ]
