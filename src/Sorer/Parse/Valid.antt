-- ===== src/Sorer/Parse/Valid.antt =====
-- Which rows is_valid_row of sorer/sorer_helper.h lets pass.
use swdev_proj.Prelude.{
  ℕ, zero, suc, ◌+◌, ◌≡◌, ◌≢◌, refl, sym, subst, List, [], ◌∷◌, ◌++◌, append_assoc, Bool, true,
  false, ltb, ◌==◌, if◌then◌else◌, Bool-cases, inl, inr, arith, length, length-append, ok, ◌>>=◌,
}
use swdev_proj.Utils.DataType.{DataType, rank}
use swdev_proj.Dataframe.Schema.{Schema}
use swdev_proj.Dataframe.Schema.Laws.{Describes, col_type-Describes}
use swdev_proj.Sorer.Parse.{valid_from, is_valid_row}

-- As many types, and none above the one at its place.
unfoldable pub at_most : List DataType → List DataType → Bool
at_most [] [] = true
at_most [] (u ∷ us) = false
at_most (t ∷ ts) [] = false
at_most (t ∷ ts) (u ∷ us) = if ltb (rank u) (rank t) then false else at_most ts us

valid_from-at_most :
    (ts us pre pre' : List DataType) (row scm : Schema) (n i : ℕ)
    → Describes row (pre ++ ts)
    → Describes scm (pre' ++ us)
    → i ≡ length pre
    → i ≡ length pre'
    → n ≡ length us
    → length ts ≡ length us
    → valid_from n i row scm ≡ ok (at_most ts us)
unfolding valid_from at_most
valid_from-at_most [] [] pre pre' row scm zero i d e a b m l = refl
valid_from-at_most [] [] pre pre' row scm (suc n) i d e a b m l = absurd (omega arith)
valid_from-at_most [] (u ∷ us) pre pre' row scm n i d e a b m l = absurd (omega arith)
valid_from-at_most (t ∷ ts) [] pre pre' row scm n i d e a b m l = absurd (omega arith)
valid_from-at_most (t ∷ ts) (u ∷ us) pre pre' row scm zero i d e a b m l = absurd (omega arith)
valid_from-at_most (t ∷ ts) (u ∷ us) pre pre' row scm (suc n) i d e a b m l =
    let rest =
      valid_from-at_most ts us (pre ++ t ∷ []) (pre' ++ u ∷ []) row scm n (i + 1)
        (subst (λ (w : List DataType). Describes row w) (sym (append_assoc pre (t ∷ []) ts)) d)
        (subst (λ (w : List DataType). Describes scm w) (sym (append_assoc pre' (u ∷ []) us)) e)
        (omega (arith, length-append pre (t ∷ []))) (omega (arith, length-append pre' (u ∷ [])))
        (omega arith) (omega arith) in
    rw (col_type-Describes row pre ts t i d a, ◌>>=◌, col_type-Describes scm pre' us u i e b)
      (elim (Bool-cases (ltb (rank u) (rank t))) [
        | inl above ↦ rw above refl
        | inr fits ↦ rw fits rest
      ])

other_length : (ts us : List DataType) → length ts ≢ length us → at_most ts us ≡ false
unfolding at_most
other_length [] [] differ = absurd (differ refl)
other_length [] (u ∷ us) differ = refl
other_length (t ∷ ts) [] differ = refl
other_length (t ∷ ts) (u ∷ us) differ = elim (Bool-cases (ltb (rank u) (rank t))) [
  | inl above ↦ rw above refl
  | inr fits ↦ rw fits (other_length ts us (λ e. differ (omega arith)))
]

-- is_valid_row returns, for every pair of schemas, and it is true exactly of a row with as many
-- fields as the schema has columns, and with no field of a type above that of its column. From the
-- lowest, the types are Field (an empty one), Boolean, Integer, Double and Str: a field of a lower
-- type than that of its column is accepted.
pub is_valid_row-at_most :
    (row scm : Schema) (ts us : List DataType)
    → Describes row ts
    → Describes scm us
    → is_valid_row row scm ≡ ok (at_most ts us)
unfolding is_valid_row
is_valid_row-at_most row scm ts us d e = elim (Bool-cases (row.num_cols == scm.num_cols)) [
  | inl wide ↦
      let same : length ts ≡ length us = ground (arith, d.counted, e.counted) in
      rw wide (valid_from-at_most ts us [] [] row scm scm.num_cols 0 d e refl refl e.counted same)
  | inr narrow ↦
      let differ : length ts ≢ length us = λ s. absurd (ground (arith, d.counted, e.counted)) in
      rw (narrow, other_length ts us differ) refl
]
