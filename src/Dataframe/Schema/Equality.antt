-- ===== src/Dataframe/Schema/Equality.antt =====
-- Schema::equals of dataframe/schema.h.
use swdev_proj.Prelude.{
  ℕ, zero, suc, ◌+◌, ◌≡◌, ◌↔◌, refl, sym, subst, ◌∙◌, List, [], ◌∷◌, ◌++◌, append_assoc, Bool, true,
  false, ◌&&◌, ◌==◌, if◌then◌else◌, Bool-cases, inl, inr, arith, length, length-append, ok, fault,
  undefined, ◌>>=◌,
}
use swdev_proj.Utils.DataType.{DataType, same_type, same_type-eq, same_type_refl}
use swdev_proj.Dataframe.Schema.{Schema, equals_from, equals}
use swdev_proj.Dataframe.Schema.Laws.{Describes, col_type-Describes, load-Describes}

-- Whether two sequences of types agree as far as the first goes.
unfoldable pub same_types : List DataType → List DataType → Bool
same_types [] us = true
same_types (t ∷ ts) [] = true
same_types (t ∷ ts) (u ∷ us) = same_type t u && same_types ts us

equals_from-same :
    (ts us pre pre' : List DataType) (s o : Schema) (n i : ℕ)
    → Describes s (pre ++ ts)
    → Describes o (pre' ++ us)
    → i ≡ length pre
    → i ≡ length pre'
    → n ≡ length ts
    → length ts ≡ length us
    → equals_from n i s o ≡ (if same_types ts us then fault undefined else ok false)
unfolding equals_from same_types
equals_from-same [] us pre pre' s o zero i d e a b l m = refl
equals_from-same [] us pre pre' s o (suc n) i d e a b l m = absurd (omega arith)
equals_from-same (t ∷ ts) us pre pre' s o zero i d e a b l m = absurd (omega arith)
equals_from-same (t ∷ ts) [] pre pre' s o (suc n) i d e a b l m = absurd (omega arith)
equals_from-same (t ∷ ts) (u ∷ us) pre pre' s o (suc n) i d e a b l m =
    let rest =
      equals_from-same ts us (pre ++ t ∷ []) (pre' ++ u ∷ []) s o n (i + 1)
        (subst (λ (w : List DataType). Describes s w) (sym (append_assoc pre (t ∷ []) ts)) d)
        (subst (λ (w : List DataType). Describes o w) (sym (append_assoc pre' (u ∷ []) us)) e)
        (omega (arith, length-append pre (t ∷ []))) (omega (arith, length-append pre' (u ∷ [])))
        (omega arith) (omega arith) in
    rw (load-Describes s pre ts t i d a, ◌>>=◌, col_type-Describes o pre' us u i e b)
      (elim (Bool-cases (same_type t u)) [
        | inl alike ↦ rw alike rest
        | inr differ ↦ rw differ refl
      ])

-- Where the loop ends without a difference, so does the function, without a return statement.
equals-differ :
    (s o : Schema) (ts us : List DataType)
    → Describes s ts
    → Describes o us
    → equals s o ≡ (
        if (s.num_cols == o.num_cols && (s.cap_cols == o.cap_cols && s.num_rows == o.num_rows))
          && same_types ts us
        then fault undefined
        else ok false)
unfolding equals
equals-differ s o ts us d e = elim (Bool-cases (s.num_cols == o.num_cols)) [
  | inr wider ↦ rw wider refl
  | inl cols ↦
      let compared : equals_from s.num_cols 0 s o
          ≡ (if same_types ts us then fault undefined else ok false) =
        equals_from-same ts us [] [] s o s.num_cols 0 d e refl refl d.counted
          (ground (arith, d.counted, e.counted)) in
      rw (cols, compared)
        (elim (Bool-cases (s.cap_cols == o.cap_cols)) [
          | inr caps ↦ rw caps refl
          | inl caps ↦ rw caps (elim (Bool-cases (s.num_rows == o.num_rows)) [
            | inr rows ↦ rw rows refl
            | inl rows ↦ rw rows refl
          ])
        ])
]

same_types_refl : (ts : List DataType) → same_types ts ts ≡ true
unfolding same_types
same_types_refl [] = refl
same_types_refl (t ∷ ts) = rw (same_type_refl t, same_types_refl ts) refl

same_types-eq : (ts us : List DataType) → length ts ≡ length us → same_types ts us ≡ true → ts ≡ us
unfolding same_types
same_types-eq [] [] l h = refl
same_types-eq [] (u ∷ us) l h = absurd (omega arith)
same_types-eq (t ∷ ts) [] l h = absurd (omega arith)
same_types-eq (t ∷ ts) (u ∷ us) l h =
    let first : same_type t u ≡ true = ground arith in
    let rest : same_types ts us ≡ true = ground arith in
    let e = same_type-eq t u first in let es = same_types-eq ts us (omega arith) rest in cc

-- What two schemas of the types `ts` and `us` have in common when no difference is to be found.
pub record Agree (s o : Schema) (ts us : List DataType) : Type 0 where
  pub same_cols : s.num_cols ≡ o.num_cols
  pub same_cap : s.cap_cols ≡ o.cap_cols
  pub same_rows : s.num_rows ≡ o.num_rows
  pub same_types : ts ≡ us

-- equals of two schemas that describe types returns false exactly if they differ: in the number of
-- their columns, the capacity, the number of rows, or the type of a column.
pub equals-false :
    (s o : Schema) (ts us : List DataType)
    → Describes s ts
    → Describes o us
    → (equals s o ≡ ok false) ↔ ¬ Agree s o ts us
equals-false s o ts us d e =
    let test =
      (s.num_cols == o.num_cols && (s.cap_cols == o.cap_cols && s.num_rows == o.num_rows))
      && same_types ts us in
    elim (Bool-cases test) [
      | inl agree ↦
          let ends : equals s o ≡ fault undefined = equals-differ s o ts us d e ∙ rw agree refl in
          let alike : Agree s o ts us = record {
            same_cols = ground arith;
            same_cap = ground arith;
            same_rows = ground arith;
            same_types = same_types-eq ts us (ground (arith, d.counted, e.counted)) (ground arith);
          } in
          (
            (λ h. absurd (let wrong : fault undefined ≡ ok false = sym ends ∙ h in cc)),
            λ n. absurd (n alike),
          )
      | inr differ ↦ (
        (λ _ a.
            let all_types : same_types ts us ≡ true =
              subst (λ (w : List DataType). same_types ts w ≡ true) a.same_types
                (same_types_refl ts) in
            absurd (ground (arith, a.same_cols, a.same_cap, a.same_rows))),
        λ _. equals-differ s o ts us d e ∙ rw differ refl,
      )
    ]
