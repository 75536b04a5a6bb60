-- ===== src/Utils/Array/Change.antt =====
-- add, set and remove of utils/array.h on the list that the array represents.
use swdev_proj.Prelude.{
  ℕ, zero, suc, ◌+◌, ◌-◌, ◌*◌, ◌≤◌, ◌<◌, ◌≡◌, refl, sym, ap, ◌∙◌, List, [], ◌∷◌, ◌++◌, append_assoc,
  Option, none, some, arith, if◌then◌else◌, leb, ◌==◌, length, set, take, get_elem?, replicate,
  length-append, length-set, length-take, length-replicate, set-append, get_elem?-append_at, ok,
  fault, exits, asserts, undefined, ◌>>=◌, Returns, Bool-cases, inl, inr,
}
use swdev_proj.Utils.Array.{
  Array, load, store, add, append_here, has_room_for_more_elems, expand_array, set_at, remove,
  shift,
}
use swdev_proj.Utils.Array.Laws.{
  cells, Represents, length-cells, cells-append, len-le, append_here-Represents,
  expand_array-Represents, get-Represents,
}

module _ {A : Type 0} where
  expanded-roomy :
      (a : Array A) {xs : List A} (r : Represents a xs)
      → 0 < a.capacity
      → (expand_array a).len < (expand_array a).capacity
  unfolding expand_array
  expanded-roomy a r pos = omega (arith, len-le a r)

  -- From any array whose capacity is not 0, add returns and appends the object, whether or not
  -- the allocation had to be doubled for it.
  pub add-Represents :
      (a : Array A) {xs : List A} (x : A)
      → Represents a xs
      → 0 < a.capacity
      → Returns (add x a) (λ b. Represents b (xs ++ x ∷ []) × (0 < b.capacity))
  unfolding add has_room_for_more_elems
  add-Represents a {xs} x r pos = elim (Bool-cases (leb (a.len + 1) a.capacity)) [
    | inl e ↦
        let (b, run, (q, same)) = append_here-Represents a r x (ground (arith, len-le a r)) in
        (b, rw e run, (q, omega arith))
    | inr e ↦
        let big = expand_array a in
        let r' = expand_array-Represents a r in
        let roomy = expanded-roomy a r pos in
        let (b, run, (q, same)) = append_here-Represents big r' x (omega (arith, len-le big r')) in
        (b, rw e run, (q, omega arith))
  ]

  -- An array without capacity never gets any: add then writes outside its allocation.
  pub add-no_capacity :
      (a : Array A) (x : A) → Represents a [] → a.capacity ≡ 0 → add x a ≡ fault undefined
  unfolding add append_here store has_room_for_more_elems expand_array
  add-no_capacity a x r e =
      let none_left =
        length-append (take a.len a.obj_list)
          (replicate (a.capacity * 2 - a.len) (let c : Option A = none in c)) in
      ground (
        arith,
        len-le a r,
        r.sized,
        none_left,
        length-take a.len a.obj_list,
        length-replicate (a.capacity * 2 - a.len) (let c : Option A = none in c),
      )

  module _ (a : Array A) {xs : List A} (r : Represents a xs) where
    cell_at :
        (ys zs : List A) (x : A) (i : ℕ)
        → xs ≡ ys ++ x ∷ zs
        → i ≡ length ys
        → a.obj_list ≡ cells ys ++ some x ∷ (cells zs ++ r.spare)
    cell_at ys zs x i e h = r.shape ∙ rw (e, cells-append, append_assoc) refl

    -- set returns the old object and replaces it.
    pub set_at-Represents :
        (ys zs : List A) (x v : A) (i : ℕ)
        → xs ≡ ys ++ x ∷ zs
        → i ≡ length ys
        → Returns
            (set_at i v a)
            (λ p. (p.0 ≡ x) × Represents p.1 (ys ++ v ∷ zs) × (p.1.capacity ≡ a.capacity))
    unfolding set_at load store
    set_at-Represents ys zs x v i e h =
        let shape = cell_at ys zs x i e h in
        let size : length xs ≡ length ys + suc (length zs) =
          ap length e ∙ length-append ys (x ∷ zs) in
        let found : get_elem? a.obj_list i ≡ some (some x) = rw shape (
          get_elem?-append_at (cells ys) (cells zs ++ r.spare) (some x) i
            (omega (arith, length-cells ys))) in
        (
          (x, record a { obj_list = set a.obj_list i (some v) }),
          ground (arith, found, r.counted, len-le a r, r.sized),
          (
            refl,
            record {
              spare = r.spare;
              shape =
                  ap (λ c. set c i (some v)) shape
                  ∙ (set-append (cells ys) (cells zs ++ r.spare) (some x) (some v) i
                        (omega (arith, length-cells ys))
                      ∙ (sym (append_assoc (cells ys) (cells (v ∷ zs)) r.spare)
                          ∙ ap (λ w. w ++ r.spare) (sym (cells-append ys (v ∷ zs)))));
              counted = omega (arith, r.counted, length-append ys (v ∷ zs));
              sized = length-set a.obj_list i (some v) ∙ r.sized;
            },
            refl,
          ),
        )

    -- At the length set fails an assertion, past it the process exits.
    pub set_at_outside :
        (i : ℕ) (v : A)
        → length xs ≤ i
        → set_at i v a ≡ fault (if i == length xs then asserts else exits)
    unfolding set_at
    set_at_outside i v h = ground (arith, r.counted)

  load-ok : (c : List (Option A)) (i : ℕ) (x : Option A) → get_elem? c i ≡ some x → load c i ≡ ok x
  unfolding load
  load-ok c i x h = rw (h, load) refl

  store-ok :
      (c : List (Option A)) (i : ℕ) (x : Option A) → i < length c → store c i x ≡ ok (set c i x)
  unfolding store
  store-ok c i x h = ground arith

  shift-moves :
      (pre zs rest : List (Option A)) (x : Option A) (i n : ℕ)
      → i ≡ length pre
      → n ≡ length zs
      → Returns
          (shift n i (pre ++ x ∷ (zs ++ rest)))
          (λ c. (y : Option A) × (c ≡ pre ++ (zs ++ y ∷ rest)))
  unfolding shift load store
  shift-moves pre [] rest x i zero h k = (pre ++ x ∷ rest, refl, (x, refl))
  shift-moves pre [] rest x i (suc n) h k = absurd (omega arith)
  shift-moves pre (z ∷ zs) rest x i zero h k = absurd (omega arith)
  shift-moves pre (z ∷ zs) rest x i (suc n) h k =
      let now = pre ++ x ∷ (z ∷ (zs ++ rest)) in
      let next_cell : get_elem? now (i + 1) ≡ some z =
        rw (← append_assoc pre (x ∷ []) (z ∷ (zs ++ rest))) (
          get_elem?-append_at (pre ++ x ∷ []) (zs ++ rest) z (i + 1)
            (omega (arith, length-append pre (x ∷ [])))) in
      let moved : set now i z ≡ (pre ++ z ∷ []) ++ z ∷ (zs ++ rest) =
        set-append pre (z ∷ (zs ++ rest)) x z i h
        ∙ sym (append_assoc pre (z ∷ []) (z ∷ (zs ++ rest))) in
      let (c, run, (y, e)) =
        shift-moves (pre ++ z ∷ []) zs rest z (i + 1) n (omega (arith, length-append pre (z ∷ [])))
          (omega arith) in
      let stored : store now i z ≡ ok ((pre ++ z ∷ []) ++ z ∷ (zs ++ rest)) =
        store-ok now i z (omega (arith, length-append pre (x ∷ (z ∷ (zs ++ rest)))))
        ∙ ap ok moved in
      (
        c,
        rw (load-ok now (i + 1) z next_cell, ◌>>=◌, stored) run,
        (y, e ∙ append_assoc pre (z ∷ []) (zs ++ y ∷ rest)),
      )

  rounds :
      (a : Array A) (ys zs : List A) (x : A) (i : ℕ)
      → Represents a (ys ++ x ∷ zs)
      → i ≡ length ys
      → a.len - 1 - i ≡ length (cells zs)
  rounds a ys zs x i r h = omega (arith, r.counted, length-append ys (x ∷ zs), length-cells zs)

  -- remove returns the object and closes the gap; the capacity stays.
  pub remove-Represents :
      (a : Array A) (ys zs : List A) (x : A) (i : ℕ)
      → Represents a (ys ++ x ∷ zs)
      → i ≡ length ys
      → Returns
          (remove i a)
          (λ p. (p.0 ≡ x) × Represents p.1 (ys ++ zs) × (p.1.capacity ≡ a.capacity))
  unfolding remove
  remove-Represents a ys zs x i r h =
      let size = r.counted ∙ length-append ys (x ∷ zs) in
      let (c, run, (y, e)) =
        shift-moves (cells ys) (cells zs) r.spare (some x) i (a.len - 1 - i)
          (omega (arith, length-cells ys)) (rounds a ys zs x i r h) in
      let shape = cell_at a r ys zs x i refl h in
      let got = get-Represents a r ys zs x i refl h in
      (
        (x, record a { obj_list = c; len = a.len - 1 }),
        ground (arith, got, ap (shift (a.len - 1 - i) i) shape, run),
        (
          refl,
          record {
            spare = y ∷ r.spare;
            shape =
                e
                ∙ (sym (append_assoc (cells ys) (cells zs) (y ∷ r.spare))
                    ∙ ap (λ w. w ++ y ∷ r.spare) (sym (cells-append ys zs)));
            counted = omega (arith, size, length-append ys zs);
            sized = omega (
              arith,
              ap length e,
              length-append (cells ys) (cells zs ++ y ∷ r.spare),
              length-append (cells zs) (y ∷ r.spare),
              ap length shape,
              length-append (cells ys) (some x ∷ (cells zs ++ r.spare)),
              length-append (cells zs) r.spare,
              r.sized,
            );
          },
          refl,
        ),
      )

  -- remove outside the array ends the process.
  pub remove_outside :
      (a : Array A) {xs : List A} (i : ℕ)
      → Represents a xs
      → length xs ≤ i
      → remove i a ≡ fault exits
  unfolding remove
  remove_outside a i r h = ground (arith, r.counted)
