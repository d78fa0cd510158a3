-- ===== src/Prelude/Maps.antt =====
-- Go's maps with string keys, as association lists: assignment and deletion.
use wave_house.Prelude.{
  if◌then◌else◌, ◌≡◌, some, Bool-cases, inl, inr, refl, Bool, false, none, Option, ◌∙◌, sym, true,
}
use mathlib.Core.List.{List, [], ◌∷◌}
use wave_house.Prelude.Bytes.{Bytes, bytes_eq, bytes_eq_iff, lookup}

false_of_both : (i j k : Bytes) → bytes_eq i k ≡ false → i ≡ j → ¬ (k ≡ j)
false_of_both i j k e x y = absurd (cc ((bytes_eq_iff i k).1 (x ∙ sym y), e))

module _ {ℓ} {A : Type ℓ} where
  unfoldable pub put : Bytes → A → List (Bytes × A) → List (Bytes × A)
  put k v [] = (k, v) ∷ []
  put k v ((j, w) ∷ m) = let rest = put k v m in if bytes_eq j k then (j, v) ∷ m else (j, w) ∷ rest

  unfoldable pub delete : Bytes → List (Bytes × A) → List (Bytes × A)
  delete k [] = []
  delete k ((j, w) ∷ m) = let rest = delete k m in if bytes_eq j k then rest else (j, w) ∷ rest

  by_test :
      (b : Bool) (x y z : Option A) → (if b then x else y) ≡ (if b then x else if b then z else y)
  by_test true x y z = refl
  by_test false x y z = refl

  apart :
      (b c : Bool) (x y z : Option A)
      → (b ≡ true → ¬ (c ≡ true))
      → (if b then x else if c then y else z) ≡ (if c then y else if b then x else z)
  apart true true x y z h = absurd (h refl refl)
  apart true false x y z h = refl
  apart false true x y z h = refl
  apart false false x y z h = refl

  pub lookup-put :
      (j k : Bytes) (v : A) (m : List (Bytes × A))
      → lookup j (put k v m) ≡ (if bytes_eq k j then some v else lookup j m)
  unfolding put lookup
  lookup-put j k v [] = refl
  lookup-put j k v ((i, w) ∷ m) = elim (Bool-cases (bytes_eq i k)) [
    | inl e ↦ rw (e, (bytes_eq_iff i k).0 e) (by_test (bytes_eq k j) _ _ _)
    | inr e ↦
        rw (e, lookup-put j k v m)
          (apart (bytes_eq i j) (bytes_eq k j) _ _ _
            (λ x y. false_of_both i j k e ((bytes_eq_iff i j).0 x) ((bytes_eq_iff k j).0 y)))
  ]

  either_way : (b : Bool) (o : Option A) → o ≡ (if b then o else o)
  either_way true o = refl
  either_way false o = refl

  pub lookup-delete :
      (j k : Bytes) (m : List (Bytes × A))
      → lookup j (delete k m) ≡ (if bytes_eq k j then none else lookup j m)
  unfolding delete lookup
  lookup-delete j k [] = either_way (bytes_eq k j) none
  lookup-delete j k ((i, w) ∷ m) = elim (Bool-cases (bytes_eq i k)) [
    | inl e ↦ rw (e, lookup-delete j k m, (bytes_eq_iff i k).0 e) (by_test (bytes_eq k j) _ _ _)
    | inr e ↦
        rw (e, lookup-delete j k m)
          (apart (bytes_eq i j) (bytes_eq k j) _ _ _
            (λ x y. false_of_both i j k e ((bytes_eq_iff i j).0 x) ((bytes_eq_iff k j).0 y)))
  ]
