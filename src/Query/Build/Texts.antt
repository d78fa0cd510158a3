-- ===== src/Query/Build/Texts.antt =====
-- The texts that `Build` joins, and the placeholders in them.
use wave_house.Prelude.Bytes.{
  contains, count, count_all, Bytes, bytes_eq, bytes_eq_iff, join_texts-count, codes, count-append,
}
use mathlib.Core.Path.{subst}
use wave_house.Prelude.{
  List, All, length, Bool-cases, map, ◌≡◌, false, is_empty, true, ◌∷◌, arith, inl, [], inr,
  length-append, refl, Bool, if◌then◌else◌, sym, ◌++◌,
}
use wave_house.Chsql.Quote.{question, quote_ident, quote_ident-count, bind_unsafe}
use wave_house.Policy.Values.{str}
use wave_house.Policy.Types.{ResolvedSelect}
use wave_house.Policy.Evaluate.RowSecurity.{BindsItsParams}
use wave_house.Query.Where.{Clause}
use wave_house.Query.Authorize.{aggregation_names}
use wave_house.Query.Build.{where_text, params_of, group_text, comma, policy_clause_of, star}
use wave_house.Query.Build.Placeholders.{IsBalanced}

-- The placeholders of quoted names: none.
abbrev pub AllSafe : List Bytes → Type 0
AllSafe cols = All (λ c. bind_unsafe c ≡ false) cols

pub quoted-count_all :
    (cols : List Bytes) → AllSafe cols → count_all question (map quote_ident cols) ≡ 0
unfolding count_all
quoted-count_all [] h = refl
quoted-count_all (c ∷ cs) h = omega (arith, quote_ident-count c h.0, quoted-count_all cs h.1)

pub group_text-count : (cols : List Bytes) → AllSafe cols → count question (group_text cols) ≡ 0
unfolding group_text count
group_text-count [] h = refl
group_text-count (c ∷ cs) h = omega (
  arith,
  join_texts-count question comma (map quote_ident (c ∷ cs)) (refl),
  quoted-count_all (c ∷ cs) h,
)

pub texts-count_all :
    (cs : List Clause)
    → All IsBalanced cs
    → count_all question (map (λ c. c.0) cs) ≡ length (params_of cs)
unfolding count_all
texts-count_all [] h = refl
texts-count_all (c ∷ cs) h =
    omega (arith, texts-count_all cs h.1, h.0, length-append c.1 (params_of cs))

pub where_text-count :
    (cs : List Clause) → All IsBalanced cs → count question (where_text cs) ≡ length (params_of cs)
unfolding where_text count
where_text-count [] h = refl
where_text-count (c ∷ cs) h = omega (
  arith,
  join_texts-count question (codes " AND ") (map (λ c. c.0) (c ∷ cs)) (refl),
  texts-count_all (c ∷ cs) h,
)

pub length-map : {A B : Type 0} (f : A → B) (xs : List A) → length (map f xs) ≡ length xs
length-map f [] = refl
length-map f (x ∷ xs) = omega (arith, length-map f xs)

pub policy_clause_of-IsBalanced :
    (s : ResolvedSelect) → BindsItsParams s → All IsBalanced (policy_clause_of s)
unfolding count
policy_clause_of-IsBalanced s h = elim (Bool-cases (is_empty s.where_clause)) [
  | inl e ↦ rw e tt
  | inr e ↦ rw e (
    omega
        (arith, h, count-append question s.where_clause (codes ")"), length-map str s.where_params),
    tt,
  )
]

pub contains-count :
    (x : Bytes) (xs : List Bytes)
    → All (λ y. count question y ≡ 0) xs
    → contains x xs ≡ true
    → count question x ≡ 0
unfolding contains
contains-count x [] h e = absurd (cc)
contains-count x (y ∷ ys) h e = elim (Bool-cases (bytes_eq y x)) [
  | inl same ↦ subst (λ z. count question z ≡ 0) ((bytes_eq_iff y x).0 same) h.0
  | inr other ↦ contains-count x ys h.1 (rw other at e)
]

pub names-count : All (λ y. count question y ≡ 0) aggregation_names
unfolding count
names-count = (
  refl,
  (
    refl,
    (
      refl,
      (
        refl,
        (
          refl,
          (
            refl,
            (
              refl,
              (
                refl,
                (
                  refl,
                  (
                    refl,
                    (refl, (refl, (refl, (refl, (refl, (refl, (refl, (refl, (refl, tt))))))))),
                  ),
                ),
              ),
            ),
          ),
        ),
      ),
    ),
  ),
)

pub argument-count :
    (col : Bytes)
    → (bytes_eq col star ≡ false → bind_unsafe col ≡ false)
    → count question (if bytes_eq col star then col else quote_ident col) ≡ 0
argument-count col h = elim (Bool-cases (bytes_eq col star)) [
  | inl e ↦
      rw e (
        subst (λ z. count question z ≡ 0) (sym ((bytes_eq_iff col star).0 e))
          (unfold count in refl))
  | inr e ↦ rw e (quote_ident-count col (h e))
]

pub alias-count :
    (name : Bytes)
    → bind_unsafe name ≡ false
    → count question (if is_empty name then [] else codes " AS " ++ quote_ident name) ≡ 0
unfolding count
alias-count [] h = refl
alias-count (c ∷ s) h = omega (arith, quote_ident-count (c ∷ s) h)

pub star_part-count : (b : Bool) → count_all question (if b then star ∷ [] else []) ≡ 0
unfolding count_all count
star_part-count true = refl
star_part-count false = refl
