-- ===== src/Policy/Evaluate/Clauses.antt =====
-- pkg/policy/policy.go: proofs about the entries of a filter and of a check that `Evaluate` refuses.
use wave_house.Prelude.{
  Option, ◌≡◌, some, true, Bool-cases, any, ◌↔◌, false, inl, ◌⊎◌, arith, inr, none, refl, All, Bool,
  List, ◌≢◌, ◌∷◌, [], ◌==◌, ◌||◌, ==_iff,
}
use wave_house.Prelude.Bytes.{Bytes}
use wave_house.Chsql.Quote.{bind_unsafe, question}
use wave_house.Policy.Types.{has_operator, is_set, Filter}
use wave_house.Policy.Evaluate.{
  bad_filter, bad_check, Option, some, true, any, false, Filter, bind_unsafe, has_operator, is_set,
}

-- The name of the column holds no placeholder.
abbrev pub IsBindable : Bytes → Type 0
IsBindable col = All (λ c. c ≢ question) col

-- At least one operator is there.
abbrev pub Restricts : Filter → Type 0
Restricts f =
    (tmpl : Bytes) × ((f.eq ≡ some tmpl)
      ⊎ (f.neq ≡ some tmpl)
      ⊎ (f.gt ≡ some tmpl)
      ⊎ (f.lt ≡ some tmpl)
      ⊎ (f.«in» ≡ some tmpl))

-- `_eq` or `_in` alone, one of them.
abbrev pub IsHonoured : Filter → Type 0
IsHonoured f =
    (f.neq ≡ none)
    × (f.gt ≡ none)
    × (f.lt ≡ none)
    × ((tmpl : Bytes) × (((f.eq ≡ some tmpl) × (f.«in» ≡ none))
          ⊎ ((f.eq ≡ none) × (f.«in» ≡ some tmpl))))

bind_unsafe_iff : (col : Bytes) → (bind_unsafe col ≡ false) ↔ IsBindable col
unfolding bind_unsafe
bind_unsafe_iff [] = (λ _. tt, λ _. refl)
bind_unsafe_iff (c ∷ s) = elim (Bool-cases (c == question)) [
  | inl e ↦ rw e (λ h. absurd (cc), λ h. absurd (h.0 ((==_iff c question).0 e)))
  | inr e ↦ rw e (
    λ h. (λ q. absurd (cc (e, (==_iff c question).1 q)), (bind_unsafe_iff s).0 h),
    λ h. (bind_unsafe_iff s).1 h.1,
  )
]

unset : (o : Option Bytes) → is_set o ≡ false → o ≡ none
unset none h = refl
unset (some t) h = absurd (cc)

set : (o : Option Bytes) → is_set o ≡ true → (t : Bytes) × (o ≡ some t)
set none h = absurd (cc)
set (some t) h = (t, refl)

has_operator-Restricts : (f : Filter) → has_operator f ≡ true → Restricts f
unfolding has_operator
has_operator-Restricts f h = by_fields f.eq f.neq f.gt f.lt f.«in» h
  where
    by_fields :
        (a b c d e : Option Bytes)
        → (is_set a || (is_set b || (is_set c || (is_set d || is_set e)))) ≡ true
        → (t : Bytes) × ((a ≡ some t) ⊎ (b ≡ some t) ⊎ (c ≡ some t) ⊎ (d ≡ some t) ⊎ (e ≡ some t))
    by_fields (some t) b c d e h = (t, inl refl)
    by_fields none (some t) c d e h = (t, inr (inl refl))
    by_fields none none (some t) d e h = (t, inr (inr (inl refl)))
    by_fields none none none (some t) e h = (t, inr (inr (inr (inl refl))))
    by_fields none none none none (some t) h = (t, inr (inr (inr (inr refl))))
    by_fields none none none none none h = absurd (cc)

Restricts-has_operator : (f : Filter) → Restricts f → has_operator f ≡ true
unfolding has_operator
Restricts-has_operator f (t, h) = elim h [
  | inl p ↦ let here : is_set f.eq ≡ true = rw p refl in ground arith
  | inr (inl p) ↦ let here : is_set f.neq ≡ true = rw p refl in ground arith
  | inr (inr (inl p)) ↦ let here : is_set f.gt ≡ true = rw p refl in ground arith
  | inr (inr (inr (inl p))) ↦ let here : is_set f.lt ≡ true = rw p refl in ground arith
  | inr (inr (inr (inr p))) ↦ let here : is_set f.«in» ≡ true = rw p refl in ground arith
]

pub bad_filter_iff :
    (e : Bytes × Filter) → (bad_filter e ≡ false) ↔ (IsBindable e.0 × Restricts e.1)
unfolding bad_filter
bad_filter_iff (col, f) = (
  λ h. ((bind_unsafe_iff col).0 (ground arith), has_operator-Restricts f (ground arith)),
  λ h. rw ((bind_unsafe_iff col).1 h.0, Restricts-has_operator f h.1) refl,
)

pub bad_check_iff : (e : Bytes × Filter) → (bad_check e ≡ false) ↔ (IsBindable e.0 × IsHonoured e.1)
unfolding bad_check has_operator
bad_check_iff (col, f) = (
  λ h. (
    (bind_unsafe_iff col).0 (ground arith),
    (unset f.neq (ground arith), unset f.gt (ground arith), unset f.lt (ground arith), one h),
  ),
  λ (safe, (n, g, l, (_, kept))). elim kept [
    | inl (e, i) ↦ rw ((bind_unsafe_iff col).1 safe, n, g, l, e, i) refl
    | inr (e, i) ↦ rw ((bind_unsafe_iff col).1 safe, n, g, l, e, i) refl
  ],
)
  where
    one :
        bad_check (col, f) ≡ false
        → (t : Bytes) × (((f.eq ≡ some t) × (f.«in» ≡ none)) ⊎ ((f.eq ≡ none) × (f.«in» ≡ some t)))
    one h = elim (Bool-cases (is_set f.eq)) [
      | inl e ↦ let (t, k) = set f.eq e in (t, inl (k, unset f.«in» (ground arith)))
      | inr e ↦ let (t, k) = set f.«in» (ground arith) in (t, inr (unset f.eq e, k))
    ]

pub any_none_iff :
    {A : Type 0} (bad : A → Bool) (P : A → Type 0)
    → ((x : A) → (bad x ≡ false) ↔ P x)
    → (xs : List A) → (any bad xs ≡ false) ↔ All P xs
any_none_iff bad P h [] = (λ _. tt, λ _. refl)
any_none_iff bad P h (x ∷ xs) = elim (Bool-cases (bad x)) [
  | inl e ↦ rw e (λ k. absurd (cc), λ k. absurd (cc (e, (h x).1 k.0)))
  | inr e ↦
      rw e (λ k. ((h x).0 e, (any_none_iff bad P h xs).0 k), λ k. (any_none_iff bad P h xs).1 k.1)
]
