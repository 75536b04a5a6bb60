-- ===== src/Utils/Array/Search.antt =====
-- index_of and equals of utils/array.h.
use swdev_proj.Prelude.{
  ℕ, zero, suc, ◌+◌, ◌≡◌, refl, sym, ap, List, [], ◌∷◌, ◌++◌, append_assoc, Bool, true, false,
  arith, if◌then◌else◌, ◌==◌, length, length-append, ok, Bool-cases, inl, inr,
}
use swdev_proj.Prelude.Int.{ℤ, pos, negsuc}
use swdev_proj.Utils.Array.{Array, index_of, index_from, equals, equals_from}
use swdev_proj.Utils.Array.Laws.{Represents, get-Represents}

module _ {A : Type 0} where
  -- The position of the first item that passes the test, or -1.
  unfoldable pub first_index : (A → Bool) → ℕ → List A → ℤ
  first_index same i [] = negsuc 0
  first_index same i (x ∷ xs) =
      let rest = first_index same (i + 1) xs in if same x then pos i else rest

  index_from-first :
      (same : A → Bool) (a : Array A) (ys zs : List A) (n i : ℕ)
      → Represents a (ys ++ zs)
      → i ≡ length ys
      → n ≡ length zs
      → index_from same n i a ≡ ok (first_index same i zs)
  unfolding index_from first_index
  index_from-first same a ys [] zero i r h k = refl
  index_from-first same a ys [] (suc n) i r h k = absurd (omega arith)
  index_from-first same a ys (x ∷ zs) zero i r h k = absurd (omega arith)
  index_from-first same a ys (x ∷ zs) (suc n) i r h k =
      let got = get-Represents a r ys zs x i refl h in
      let moved : Represents a ((ys ++ x ∷ []) ++ zs) = record {
        spare = r.spare;
        shape = rw (append_assoc ys (x ∷ []) zs) r.shape;
        counted = rw (append_assoc ys (x ∷ []) zs) r.counted;
        sized = r.sized;
      } in
      let next =
        index_from-first same a (ys ++ x ∷ []) zs n (i + 1) moved
          (omega (arith, length-append ys (x ∷ []))) (omega arith) in
      ground (arith, got, next)

  -- index_of gives the position of the first object that equals the one sought, -1 if none does.
  pub index_of-first :
      (same : A → Bool) (a : Array A) (xs : List A)
      → Represents a xs
      → index_of same a ≡ ok (first_index same 0 xs)
  unfolding index_of
  index_of-first same a xs r = index_from-first same a [] xs a.len 0 r refl r.counted

  -- The comparison item by item.
  unfoldable pub same_items : (A → A → Bool) → List A → List A → Bool
  same_items same [] [] = true
  same_items same [] (y ∷ ys) = false
  same_items same (x ∷ xs) [] = false
  same_items same (x ∷ xs) (y ∷ ys) =
      let rest = same_items same xs ys in if same x y then rest else false

  advance :
      (a : Array A) (ys zs : List A) (x : A)
      → Represents a (ys ++ x ∷ zs)
      → Represents a ((ys ++ x ∷ []) ++ zs)
  advance a ys zs x r = record {
    spare = r.spare;
    shape = rw (append_assoc ys (x ∷ []) zs) r.shape;
    counted = rw (append_assoc ys (x ∷ []) zs) r.counted;
    sized = r.sized;
  }

  equals_from-same :
      (same : A → A → Bool) (a o : Array A) (ps qs xs ys : List A) (n i : ℕ)
      → Represents a (ps ++ xs)
      → Represents o (qs ++ ys)
      → i ≡ length ps
      → i ≡ length qs
      → n ≡ length xs
      → n ≡ length ys
      → equals_from same n i a o ≡ ok (same_items same xs ys)
  unfolding equals_from same_items
  equals_from-same same a o ps qs [] [] zero i r t h k l m = refl
  equals_from-same same a o ps qs [] ys (suc n) i r t h k l m = absurd (omega arith)
  equals_from-same same a o ps qs [] (y ∷ ys) zero i r t h k l m = absurd (omega arith)
  equals_from-same same a o ps qs (x ∷ xs) ys zero i r t h k l m = absurd (omega arith)
  equals_from-same same a o ps qs (x ∷ xs) [] (suc n) i r t h k l m = absurd (omega arith)
  equals_from-same same a o ps qs (x ∷ xs) (y ∷ ys) (suc n) i r t h k l m =
      let next =
        equals_from-same same a o (ps ++ x ∷ []) (qs ++ y ∷ []) xs ys n (i + 1)
          (advance a ps xs x r) (advance o qs ys y t) (omega (arith, length-append ps (x ∷ [])))
          (omega (arith, length-append qs (y ∷ []))) (omega arith) (omega arith) in
      ground (arith, get-Represents a r ps xs x i refl h, get-Represents o t qs ys y i refl k, next)

  same_items-length :
      (same : A → A → Bool) (xs ys : List A)
      → (length xs == length ys) ≡ false
      → same_items same xs ys ≡ false
  unfolding same_items
  same_items-length same [] [] h = cc
  same_items-length same [] (y ∷ ys) h = refl
  same_items-length same (x ∷ xs) [] h = refl
  same_items-length same (x ∷ xs) (y ∷ ys) h =
      ground (arith, same_items-length same xs ys (ground arith))

  -- equals on two arrays returns, and compares their lists item by item.
  pub equals-same :
      (same : A → A → Bool) (a o : Array A) (xs ys : List A)
      → Represents a xs
      → Represents o ys
      → equals same a o ≡ ok (same_items same xs ys)
  unfolding equals
  equals-same same a o xs ys r t = elim (Bool-cases (a.len == o.len)) [
    | inl e ↦ rw e (
        equals_from-same same a o [] [] xs ys a.len 0 r t refl refl r.counted
          (ground (arith, t.counted)))
    | inr e ↦
        rw e (ap ok (sym (same_items-length same xs ys (ground (arith, r.counted, t.counted)))))
  ]
