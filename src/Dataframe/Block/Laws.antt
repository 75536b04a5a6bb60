-- ===== src/Dataframe/Block/Laws.antt =====
-- A block of src/dataframe/block holds a list of at most its capacity.
use swdev_proj.Prelude.{
  ℕ, zero, suc, ◌+◌, ◌≤◌, ◌<◌, ◌≡◌, refl, sym, ap, ◌∙◌, List, [], ◌∷◌, ◌++◌, append_assoc, true,
  false, ltb, leb, arith, length, length-append, length-replicate, set-append, get_elem?-append_at,
  replicate, ok, fault, exits, ◌>>=◌, Returns,
}
use swdev_proj.Dataframe.Block.{Block, new, load, store, get, add, set_at, clear, wipe}

module _ {A : Type 0} where
  -- The block's first cells hold `xs`, the others anything.
  pub record Holds (b : Block A) (xs : List A) : Type 0 where
    pub spare : List A
    pub shape : b.vals ≡ xs ++ spare
    pub counted : b.size ≡ length xs
    pub sized : length b.vals ≡ b.capacity

  pub new-Holds : (initial : A) (n : ℕ) → Holds (new initial n) []
  unfolding new
  new-Holds initial n = record {
    spare = replicate n initial;
    shape = refl;
    counted = refl;
    sized = length-replicate n initial;
  }

  pub load-append : (xs ys : List A) (x : A) (i : ℕ) → i ≡ length xs → load i (xs ++ x ∷ ys) ≡ ok x
  unfolding load
  load-append xs ys x i e = rw (load, get_elem?-append_at xs ys x i e) refl

  pub store-append :
      (xs ys : List A) (x v : A) (i : ℕ)
      → i ≡ length xs
      → store i v (xs ++ x ∷ ys) ≡ ok (xs ++ v ∷ ys)
  unfolding store
  store-append xs ys x v i e =
      let inside : ltb i (length (xs ++ x ∷ ys)) ≡ true =
        ground (arith, length-append xs (x ∷ ys)) in
      rw (inside, set-append xs ys x v i e) refl

  module _ (b : Block A) {xs : List A} (h : Holds b xs) where
    pub fits : b.size + length h.spare ≡ b.capacity
    fits = omega (arith, ap length h.shape, length-append xs h.spare, h.counted, h.sized)

    -- get reads the list, and ends the process outside it.
    pub get-Holds :
        (ys zs : List A) (x : A) (i : ℕ) → xs ≡ ys ++ x ∷ zs → i ≡ length ys → get i b ≡ ok x
    unfolding get
    get-Holds ys zs x i e l =
        let inside : leb b.size i ≡ false =
          ground (arith, h.counted, ap length e, length-append ys (x ∷ zs)) in
        rw (inside, h.shape, e, append_assoc) (load-append ys (zs ++ h.spare) x i l)

    pub get_outside : (i : ℕ) → length xs ≤ i → get i b ≡ fault exits
    unfolding get
    get_outside i l = ground (arith, h.counted)

    -- set returns the old item and replaces it.
    pub set_at-Holds :
        (ys zs : List A) (x v : A) (i : ℕ)
        → xs ≡ ys ++ x ∷ zs
        → i ≡ length ys
        → Returns
            (set_at i v b)
            (λ p. (p.0 ≡ x) × Holds p.1 (ys ++ v ∷ zs) × (p.1.capacity ≡ b.capacity))
    unfolding set_at
    set_at-Holds ys zs x v i e l =
        let inside : leb b.size i ≡ false =
          ground (arith, h.counted, ap length e, length-append ys (x ∷ zs)) in
        let cells : b.vals ≡ ys ++ x ∷ (zs ++ h.spare) =
          h.shape ∙ (ap (λ (w : List A). w ++ h.spare) e ∙ append_assoc ys (x ∷ zs) h.spare) in
        (
          (x, record b { vals = ys ++ v ∷ (zs ++ h.spare) }),
          rw
              (
                inside,
                cells,
                load-append ys (zs ++ h.spare) x i l,
                ◌>>=◌,
                store-append ys (zs ++ h.spare) x v i l,
              )
              refl,
          (
            refl,
            record {
              spare = h.spare;
              shape = sym (append_assoc ys (v ∷ zs) h.spare);
              counted = omega (
                arith,
                h.counted,
                ap length e,
                length-append ys (x ∷ zs),
                length-append ys (v ∷ zs),
              );
              sized = omega (
                arith,
                h.sized,
                ap length cells,
                length-append ys (x ∷ (zs ++ h.spare)),
                length-append ys (v ∷ (zs ++ h.spare)),
              );
            },
            refl,
          ),
        )

    add_into :
        (n : A) (sp : List A)
        → h.spare ≡ sp
        → length xs < b.capacity
        → Returns
            (add n b)
            (λ p. (p.0 ≡ false) × Holds p.1 (xs ++ n ∷ []) × (p.1.capacity ≡ b.capacity))
    unfolding add
    add_into n [] e room = absurd (omega (arith, fits, h.counted, ap length e))
    add_into n (c ∷ cs) e room =
        let open_still : leb b.capacity b.size ≡ false = ground (arith, h.counted) in
        let cells : b.vals ≡ xs ++ c ∷ cs = h.shape ∙ ap (λ (w : List A). xs ++ w) e in
        (
          (false, record b { vals = xs ++ n ∷ cs; size = b.size + 1 }),
          rw (open_still, cells, store-append xs cs c n b.size h.counted) refl,
          (
            refl,
            record {
              spare = cs;
              shape = sym (append_assoc xs (n ∷ []) cs);
              counted = omega (arith, h.counted, length-append xs (n ∷ []));
              sized = omega (
                arith,
                h.sized,
                ap length cells,
                length-append xs (c ∷ cs),
                length-append xs (n ∷ cs),
              );
            },
            refl,
          ),
        )

    -- add to a block with room appends, and reports that it did.
    pub add-Holds :
        (n : A)
        → length xs < b.capacity
        → Returns
            (add n b)
            (λ p. (p.0 ≡ false) × Holds p.1 (xs ++ n ∷ []) × (p.1.capacity ≡ b.capacity))
    add-Holds n room = add_into n h.spare refl room

    pub add_full : (n : A) → length xs ≡ b.capacity → add n b ≡ ok (true, b)
    unfolding add
    add_full n e = ground (arith, h.counted)

  length-wipe : (initial : A) (n : ℕ) (vals : List A) → length (wipe initial n vals) ≡ length vals
  unfolding wipe
  length-wipe initial zero vals = refl
  length-wipe initial (suc n) [] = refl
  length-wipe initial (suc n) (v ∷ vals) = ap suc (length-wipe initial n vals)

  -- clear empties the block, however many cells memset reaches.
  pub clear-Holds :
      (initial : A) (wiped : ℕ) (b : Block A) (xs : List A)
      → Holds b xs
      → Holds (clear initial wiped b) []
  unfolding clear
  clear-Holds initial wiped b xs h = record {
    spare = wipe initial wiped b.vals;
    shape = refl;
    counted = refl;
    sized = length-wipe initial wiped b.vals ∙ h.sized;
  }
