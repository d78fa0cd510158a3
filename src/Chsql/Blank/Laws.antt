-- ===== src/Chsql/Blank/Laws.antt =====
-- pkg/chsql/scan.go: proofs about the loop over whitespace and comments.
use wave_house.Prelude.{
  ℕ, none, some, [], ◌∷◌, Option-cases, inl, inr, arith, Option, length, suc, ◌≡◌, drop, refl, ◌≤◌,
  ◌⊎◌, zero, ◌-◌,
}
use wave_house.Prelude.Bytes.{Bytes}
use wave_house.Chsql.Scan.Laws.{skip_comment-length}
use wave_house.Chsql.Blank.{
  skip_one, skip_blank, skip_space_and_comments, strip_leading_comments, sql_space_len,
}

drop-length : (n : ℕ) (s : Bytes) → length (drop n s) ≡ length s - n
drop-length zero s = omega arith
drop-length (suc n) [] = omega arith
drop-length (suc n) (c ∷ s) = omega (arith, drop-length n s)

skip_one-length : (c : ℕ) (s t : Bytes) → skip_one (c ∷ s) ≡ some t → length t ≤ length s
unfolding skip_one
skip_one-length c s t e =
    ground (arith, drop-length (sql_space_len (c ∷ s)) (c ∷ s), skip_comment-length c s t)

abbrev after_round : ℕ → Bytes → Option Bytes → Bytes
after_round fuel s none = s
after_round fuel s (some rest) = skip_blank fuel rest

skip_blank_step :
    (fuel c : ℕ) (s : Bytes)
    → skip_blank (suc fuel) (c ∷ s) ≡ after_round fuel (c ∷ s) (skip_one (c ∷ s))
unfolding skip_blank
skip_blank_step fuel c s = refl

after_round_same :
    (f g : ℕ) (s : Bytes) (o : Option Bytes)
    → ((t : Bytes) → o ≡ some t → skip_blank f t ≡ skip_blank g t)
    → after_round f s o ≡ after_round g s o
after_round_same f g s none h = refl
after_round_same f g s (some t) h = h t refl

pub skip_blank_fuel :
    (f g : ℕ) (s : Bytes) → length s ≤ f → length s ≤ g → skip_blank f s ≡ skip_blank g s
unfolding skip_blank
skip_blank_fuel zero zero s h k = refl
skip_blank_fuel zero (suc g) [] h k = refl
skip_blank_fuel zero (suc g) (c ∷ s) h k = absurd (omega arith)
skip_blank_fuel (suc f) zero [] h k = refl
skip_blank_fuel (suc f) zero (c ∷ s) h k = absurd (omega arith)
skip_blank_fuel (suc f) (suc g) [] h k = refl
skip_blank_fuel (suc f) (suc g) (c ∷ s) h k = after_round_same f g (c ∷ s) (skip_one (c ∷ s)) λ t e.
    skip_blank_fuel f g t (omega (arith, skip_one-length c s t e))
      (omega (arith, skip_one-length c s t e))

-- A whitespace character or a comment in front is stepped over as if it were not there.
pub strip_leading_comments-skip_one :
    (c : ℕ) (s rest : Bytes)
    → skip_one (c ∷ s) ≡ some rest
    → strip_leading_comments (c ∷ s) ≡ strip_leading_comments rest
unfolding strip_leading_comments skip_space_and_comments
strip_leading_comments-skip_one c s rest e =
    rw (skip_blank_step (length s) c s, e)
      (skip_blank_fuel (length s) (length rest) rest (skip_one-length c s rest e) (omega arith))

-- What the loop leaves: nothing, or a text where neither starts.
pub IsBare : Bytes → Type 0
IsBare s = (s ≡ []) ⊎ (skip_one s ≡ none)

skip_blank-IsBare : (f : ℕ) (s : Bytes) → length s ≤ f → IsBare (skip_blank f s)
unfolding skip_blank IsBare
skip_blank-IsBare zero [] h = inl refl
skip_blank-IsBare zero (c ∷ s) h = absurd (omega arith)
skip_blank-IsBare (suc f) [] h = inl refl
skip_blank-IsBare (suc f) (c ∷ s) h = elim (Option-cases (skip_one (c ∷ s))) [
  | inl stops ↦ rw (skip_blank_step f c s, stops) (inr stops)
  | inr (t, e) ↦
      rw (skip_blank_step f c s, e) (skip_blank-IsBare f t (omega (arith, skip_one-length c s t e)))
]

-- The text that is left starts with neither whitespace nor a comment, or is empty.
pub strip_leading_comments-IsBare : (s : Bytes) → IsBare (strip_leading_comments s)
unfolding strip_leading_comments skip_space_and_comments
strip_leading_comments-IsBare s = skip_blank-IsBare (length s) s (omega arith)
