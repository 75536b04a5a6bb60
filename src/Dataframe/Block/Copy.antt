-- ===== src/Dataframe/Block/Copy.antt =====
-- clone and equals of the blocks in src/dataframe/block.
use swdev_proj.Prelude.{
  ℕ, zero, suc, ◌+◌, ◌≤◌, ◌≡◌, refl, sym, ap, subst, ◌∙◌, inl, inr, Bool-cases, List, [], ◌∷◌, ◌++◌,
  append_assoc, append-nil, Bool, Run, true, false, ltb, ◌==◌, ◌&&◌, arith, if◌then◌else◌, length,
  length-append, take, take_all, length-take, ok, ◌>>=◌, Returns,
}
use swdev_proj.Dataframe.Block.{Block, new, load, add, clone, clone_from, equals, equals_from}
use swdev_proj.Dataframe.Block.Laws.{Holds, new-Holds, get-Holds, add-Holds, add_full, load-append}

module _ {A : Type 0} where
  take-snoc : (n : ℕ) (ys : List A) (z : A) → n ≤ length ys → take n (ys ++ z ∷ []) ≡ take n ys
  take-snoc zero ys z h = refl
  take-snoc (suc n) [] z h = absurd (omega arith)
  take-snoc (suc n) (y ∷ ys) z h = ap (λ r. y ∷ r) (take-snoc n ys z (omega arith))

  -- One round of clone: the next item is added, or finds the copy full.
  clone_step :
      (out : Block A) (ys : List A) (z : A)
      → Holds out (take out.capacity ys)
      → Returns
          (add z out)
          (λ p. Holds p.1 (take out.capacity (ys ++ z ∷ [])) × (p.1.capacity ≡ out.capacity))
  clone_step out ys z h = elim (Bool-cases (ltb (length ys) out.capacity)) [
    | inl room ↦
        let all : take out.capacity ys ≡ ys = take_all out.capacity ys (ground arith) in
        let all' : take out.capacity (ys ++ z ∷ []) ≡ ys ++ z ∷ [] =
          take_all out.capacity (ys ++ z ∷ []) (ground (arith, length-append ys (z ∷ []))) in
        let (r, run, (rej, held, cap)) = add-Holds out (subst (Holds out) all h) z (ground arith) in
        (r, run, (subst (Holds r.1) (sym all') held, cap))
    | inr full ↦
        let len : length (take out.capacity ys) ≡ out.capacity =
          ground (arith, length-take out.capacity ys) in
        (
          (true, out),
          add_full out h z len,
          (subst (Holds out) (sym (take-snoc out.capacity ys z (ground arith))) h, refl),
        )
  ]

  clone_from-Holds :
      (b : Block A) (zs ys : List A) (n i c : ℕ) (out : Block A)
      → Holds b (ys ++ zs)
      → i ≡ length ys
      → n ≡ length zs
      → out.capacity ≡ c
      → Holds out (take c ys)
      → Returns (clone_from n i b out) (λ r. Holds r (take c (ys ++ zs)) × (r.capacity ≡ c))
  unfolding clone_from
  clone_from-Holds b [] ys zero i c out h a e cap held =
      (out, refl, (subst (λ w. Holds out (take c w)) (sym (append-nil ys)) held, cap))
  clone_from-Holds b [] ys (suc n) i c out h a e cap held = absurd (omega arith)
  clone_from-Holds b (z ∷ zs) ys zero i c out h a e cap held = absurd (omega arith)
  clone_from-Holds b (z ∷ zs) ys (suc n) i c out h a e cap held =
      let shift = append_assoc ys (z ∷ []) zs in
      let (r, run, (held', cap')) =
        clone_step out ys z (subst (λ k. Holds out (take k ys)) (sym cap) held) in
      let (t, run', q) =
        clone_from-Holds b zs (ys ++ z ∷ []) n (i + 1) c r.1 (subst (Holds b) (sym shift) h)
          (omega (arith, length-append ys (z ∷ []))) (omega arith) (cap' ∙ cap)
          (subst (λ k. Holds r.1 (take k (ys ++ z ∷ []))) cap held') in
      (
        t,
        rw (get-Holds b h ys zs z i refl a, ◌>>=◌, run) run',
        (subst (λ w. Holds t (take c w)) shift q.0, q.1),
      )

  -- clone makes a block of args.blockSize and copies the items that fit into it, whatever the
  -- capacity of the block that is cloned.
  pub clone-Holds :
      (initial : A) (block_size : ℕ) (b : Block A) (xs : List A)
      → Holds b xs
      → Returns
          (clone initial block_size b)
          (λ r. Holds r (take block_size xs) × (r.capacity ≡ block_size))
  unfolding clone new
  clone-Holds initial block_size b xs h =
      clone_from-Holds b xs [] b.size 0 block_size (new initial block_size) h refl h.counted refl
        (nothing_taken block_size)
    where
      nothing_taken : (n : ℕ) → Holds (new initial block_size) (take n [])
      nothing_taken zero = new-Holds initial block_size
      nothing_taken (suc n) = new-Holds initial block_size

  -- The items of two blocks of one length compared in order, up to the first that differ.
  unfoldable pub compare_items : (A → A → Run Bool) → List A → List A → Run Bool
  compare_items same [] ys = ok true
  compare_items same (x ∷ xs) [] = ok true
  compare_items same (x ∷ xs) (y ∷ ys) =
      let rest = compare_items same xs ys in same x y >>= λ alike. if alike then rest else ok false

  equals_from-same :
      (same : A → A → Run Bool) (b o : Block A) (pre qre us vs xs ys : List A) (n i : ℕ)
      → b.vals ≡ pre ++ (xs ++ us)
      → o.vals ≡ qre ++ (ys ++ vs)
      → i ≡ length pre
      → i ≡ length qre
      → n ≡ length xs
      → n ≡ length ys
      → equals_from same n i b o ≡ compare_items same xs ys
  unfolding equals_from compare_items
  equals_from-same same b o pre qre us vs [] [] zero i e f a c l m = refl
  equals_from-same same b o pre qre us vs [] ys (suc n) i e f a c l m = absurd (omega arith)
  equals_from-same same b o pre qre us vs [] (y ∷ ys) zero i e f a c l m = absurd (omega arith)
  equals_from-same same b o pre qre us vs (x ∷ xs) ys zero i e f a c l m = absurd (omega arith)
  equals_from-same same b o pre qre us vs (x ∷ xs) [] (suc n) i e f a c l m = absurd (omega arith)
  equals_from-same same b o pre qre us vs (x ∷ xs) (y ∷ ys) (suc n) i e f a c l m =
      let next =
        equals_from-same same b o (pre ++ x ∷ []) (qre ++ y ∷ []) us vs xs ys n (i + 1)
          (e ∙ sym (append_assoc pre (x ∷ []) (xs ++ us)))
          (f ∙ sym (append_assoc qre (y ∷ []) (ys ++ vs)))
          (omega (arith, length-append pre (x ∷ []))) (omega (arith, length-append qre (y ∷ [])))
          (omega arith) (omega arith) in
      let left : load i b.vals ≡ ok x = rw e (load-append pre (xs ++ us) x i a) in
      let right : load i o.vals ≡ ok y = rw f (load-append qre (ys ++ vs) y i c) in
      rw (left, ◌>>=◌, right, next) refl

  -- equals says false for two blocks of different lengths or capacities; otherwise it compares the
  -- items in order, up to the first two that differ, and reads no cell behind them.
  pub equals-items :
      (same : A → A → Run Bool) (b o : Block A) (xs ys : List A)
      → Holds b xs
      → Holds o ys
      → equals same b o ≡ (
          if length xs == length ys && b.capacity == o.capacity
          then compare_items same xs ys
          else ok false)
  unfolding equals
  equals-items same b o xs ys h k = elim (Bool-cases (length xs == length ys)) [
    | inl e ↦
        let items =
          equals_from-same same b o [] [] h.spare k.spare xs ys b.size 0 h.shape k.shape refl refl
            h.counted (ground (arith, h.counted)) in
        ground (arith, items, h.counted, k.counted)
    | inr e ↦ ground (arith, h.counted, k.counted)
  ]
