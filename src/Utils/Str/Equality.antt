-- ===== src/Utils/Str/Equality.antt =====
-- String::equals and String::hash_me (utils/string.h).
use swdev_proj.Prelude.{
  ℕ, zero, suc, ◌<◌, ◌≡◌, ◌↔◌, refl, sym, ap, subst, ◌∙◌, List, [], ◌∷◌, ◌++◌, true, arith, length,
  All,
}
use swdev_proj.Utils.Str.{Str, IsWell, equals, strncmp_eq, hash_me}

strncmp_eq_refl : (n : ℕ) (a : List ℕ) → strncmp_eq n a a ≡ true
unfolding strncmp_eq
strncmp_eq_refl zero a = refl
strncmp_eq_refl (suc n) [] = refl
strncmp_eq_refl (suc n) (x ∷ a) = ground (arith, strncmp_eq_refl n a)

strncmp_eq_symm : (n : ℕ) (a b : List ℕ) → strncmp_eq n a b ≡ strncmp_eq n b a
unfolding strncmp_eq
strncmp_eq_symm zero a b = refl
strncmp_eq_symm (suc n) [] [] = refl
strncmp_eq_symm (suc n) [] (y ∷ b) = refl
strncmp_eq_symm (suc n) (x ∷ a) [] = refl
strncmp_eq_symm (suc n) (x ∷ a) (y ∷ b) = ground (arith, strncmp_eq_symm n a b)

strncmp_eq_trans :
    (n : ℕ) (a b c : List ℕ)
    → strncmp_eq n a b ≡ true
    → strncmp_eq n b c ≡ true
    → strncmp_eq n a c ≡ true
unfolding strncmp_eq
strncmp_eq_trans zero a b c p q = refl
strncmp_eq_trans (suc n) [] [] c p q = q
strncmp_eq_trans (suc n) [] (y ∷ b) c p q = cc
strncmp_eq_trans (suc n) (x ∷ a) [] c p q = cc
strncmp_eq_trans (suc n) (x ∷ a) (y ∷ b) [] p q = cc
strncmp_eq_trans (suc n) (x ∷ a) (y ∷ b) (z ∷ c) p q = ground (arith, strncmp_eq_trans n a b c)

pub equals_refl : (a : Str) → equals a a ≡ true
unfolding equals
equals_refl a = ground (arith, strncmp_eq_refl a.size a.cstr)

pub equals_symm : (a b : Str) → equals a b ≡ equals b a
unfolding equals
equals_symm a b = ground (arith, strncmp_eq_symm a.size a.cstr b.cstr)

pub equals_trans : (a b c : Str) → equals a b ≡ true → equals b c ≡ true → equals a c ≡ true
unfolding equals
equals_trans a b c p q = ground (arith, strncmp_eq_trans a.size a.cstr b.cstr c.cstr)

strncmp_eq-eq :
    (xs ys : List ℕ)
    → length xs ≡ length ys
    → All (λ c. 0 < c) xs
    → strncmp_eq (length xs) (xs ++ 0 ∷ []) (ys ++ 0 ∷ []) ≡ true
    → xs ≡ ys
unfolding strncmp_eq
strncmp_eq-eq [] [] l n h = refl
strncmp_eq-eq [] (y ∷ ys) l n h = absurd (omega arith)
strncmp_eq-eq (x ∷ xs) [] l n h = absurd (omega arith)
strncmp_eq-eq (x ∷ xs) (y ∷ ys) l n h = ground (arith, n.0, strncmp_eq-eq xs ys (omega arith) n.1)

equals_parts :
    (a b : Str) → equals a b ≡ true → (a.size ≡ b.size) × (strncmp_eq a.size a.cstr b.cstr ≡ true)
unfolding equals
equals_parts a b h = ground arith

Str-eq : (a b : Str) → a.size ≡ b.size → a.cstr ≡ b.cstr → a ≡ b
Str-eq a b p q = λ i. record { size = p i; cstr = q i }

equals-eq : (a b : Str) → IsWell a → IsWell b → equals a b ≡ true → a ≡ b
equals-eq a b v w h =
    let (sizes, same) = equals_parts a b h in
    let xs = v.cstring.chars in
    let ys = w.cstring.chars in
    let shown : strncmp_eq (length xs) (xs ++ 0 ∷ []) (ys ++ 0 ∷ []) ≡ true =
      rw (← v.sized, ← v.cstring.spelt, ← w.cstring.spelt) same in
    let e = strncmp_eq-eq xs ys (omega arith) v.cstring.nonzero shown in
    Str-eq a b sizes (v.cstring.spelt ∙ (ap (λ (z : List ℕ). z ++ 0 ∷ []) e ∙ sym w.cstring.spelt))

-- On well-formed strings equals is equality of the contents, in both directions.
pub equals_iff : (a b : Str) → IsWell a → IsWell b → (equals a b ≡ true) ↔ (a ≡ b)
equals_iff a b v w = (equals-eq a b v w, λ e. subst (λ x. equals a x ≡ true) e (equals_refl a))

-- Well-formed strings that equals takes for equal have the same hash, as the buckets of a map
-- require.
pub hash_me-equals : (a b : Str) → IsWell a → IsWell b → equals a b ≡ true → hash_me a ≡ hash_me b
hash_me-equals a b v w h = ap hash_me (equals-eq a b v w h)
