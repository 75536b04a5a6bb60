-- ===== src/Utils/Array/Laws.antt =====
-- Array of utils/array.h implements a list: reading, appending, writing and removing.
use swdev_proj.Prelude.{
  ℕ, suc, ◌+◌, ◌-◌, ◌*◌, ◌≤◌, ◌<◌, ◌≡◌, refl, sym, ap, ◌∙◌, List, [], ◌∷◌, ◌++◌, append_assoc,
  Option, none, some, arith, length, set, take, get_elem?, replicate, length-append, length-set,
  length-replicate, take-append, set-append, get_elem?-append_at, ok, fault, exits, Returns,
}
use swdev_proj.Utils.Array.{Array, new, load, store, get, append_here, expand_array}

module _ {A : Type 0} where
  -- Cells that hold the items of a list.
  abbrev pub cells : List A → List (Option A)
  cells [] = []
  cells (x ∷ xs) = some x ∷ cells xs

  -- The array's first cells hold `xs`, and the rest of the allocation anything.
  pub record Represents (a : Array A) (xs : List A) : Type 0 where
    pub spare : List (Option A)
    pub shape : a.obj_list ≡ cells xs ++ spare
    pub counted : a.len ≡ length xs
    pub sized : length a.obj_list ≡ a.capacity

  pub length-cells : (xs : List A) → length (cells xs) ≡ length xs
  length-cells [] = refl
  length-cells (x ∷ xs) = ap suc (length-cells xs)

  pub cells-append : (xs ys : List A) → cells (xs ++ ys) ≡ cells xs ++ cells ys
  cells-append [] ys = refl
  cells-append (x ∷ xs) ys = ap (λ r. some x ∷ r) (cells-append xs ys)

  cells_injective :
      (xs ys : List A) (us vs : List (Option A))
      → cells xs ++ us ≡ cells ys ++ vs
      → length xs ≡ length ys
      → xs ≡ ys
  cells_injective [] [] us vs e l = refl
  cells_injective [] (y ∷ ys) us vs e l = absurd (omega arith)
  cells_injective (x ∷ xs) [] us vs e l = absurd (omega arith)
  cells_injective (x ∷ xs) (y ∷ ys) us vs e l =
      let heads : x ≡ y = cc in
      let tails : cells xs ++ us ≡ cells ys ++ vs = cc in
      rw (heads, cells_injective xs ys us vs tails (omega arith)) refl

  -- An array stands for one list only.
  pub Represents-unique :
      (a : Array A) (xs ys : List A) → Represents a xs → Represents a ys → xs ≡ ys
  Represents-unique a xs ys r q =
      cells_injective xs ys r.spare q.spare (sym r.shape ∙ q.shape)
        (omega (arith, r.counted, q.counted))

  pub new-Represents : (n : ℕ) → Represents (new n) []
  unfolding new
  new-Represents n = record {
    spare = replicate n none;
    shape = refl;
    counted = refl;
    sized = length-replicate n none;
  }

  module _ (a : Array A) {xs : List A} (r : Represents a xs) where
    pub len-le : a.len + length r.spare ≡ a.capacity
    len-le = omega (
      arith,
      ap length r.shape,
      length-append (cells xs) r.spare,
      length-cells xs,
      r.counted,
      r.sized,
    )

    -- get reads the list, and ends the process outside it.
    pub get-Represents :
        (ys zs : List A) (x : A) (i : ℕ) → xs ≡ ys ++ x ∷ zs → i ≡ length ys → get i a ≡ ok x
    unfolding get load
    get-Represents ys zs x i e h =
        let found : get_elem? a.obj_list i ≡ some (some x) =
          rw (r.shape, e, cells-append, append_assoc)
            (get_elem?-append_at (cells ys) (cells zs ++ r.spare) (some x) i
              (omega (arith, length-cells ys))) in
        let inside : i < a.len = omega (arith, r.counted, ap length e, length-append ys (x ∷ zs)) in
        ground (arith, found)

    pub get_outside : (i : ℕ) → length xs ≤ i → get i a ≡ fault exits
    unfolding get
    get_outside i h = ground (arith, r.counted)

    spare-cons : 0 < length r.spare → (c : Option A) × (cs : List (Option A)) × (r.spare ≡ c ∷ cs)
    spare-cons h = lem r.spare refl h
      where
        lem :
            (l : List (Option A))
            → r.spare ≡ l
            → 0 < length r.spare
            → (c : Option A) × (cs : List (Option A)) × (r.spare ≡ c ∷ cs)
        lem [] e h = absurd (omega (arith, ap length e))
        lem (c ∷ cs) e h = (c, cs, e)

    pub append_here-Represents :
        (x : A)
        → 0 < length r.spare
        → Returns (append_here x a) (λ b. Represents b (xs ++ x ∷ []) × (b.capacity ≡ a.capacity))
    unfolding append_here store
    append_here-Represents x h =
        let (c, cs, e) = spare-cons h in
        let room : a.len < length a.obj_list = omega (arith, len-le, r.sized) in
        let at : set a.obj_list a.len (some x) ≡ cells xs ++ some x ∷ cs =
          rw (r.shape, e)
            (set-append (cells xs) cs c (some x) a.len
              (omega (arith, length-cells xs, r.counted))) in
        (
          record a { obj_list = set a.obj_list a.len (some x); len = a.len + 1 },
          ground (arith, room),
          (
            record {
              spare = cs;
              shape =
                  at
                  ∙ (sym (append_assoc (cells xs) (some x ∷ []) cs)
                      ∙ ap (λ w. w ++ cs) (sym (cells-append xs (x ∷ []))));
              counted = omega (arith, r.counted, length-append xs (x ∷ []));
              sized = length-set a.obj_list a.len (some x) ∙ r.sized;
            },
            refl,
          ),
        )

    pub expand_array-Represents : Represents (expand_array a) xs
    unfolding expand_array
    expand_array-Represents =
        let kept : take a.len a.obj_list ≡ cells xs =
          rw r.shape
            (take-append (cells xs) r.spare a.len (omega (arith, length-cells xs, r.counted))) in
        record {
          spare = replicate (a.capacity * 2 - a.len) none;
          shape = ap (λ w. w ++ replicate (a.capacity * 2 - a.len) none) kept;
          counted = r.counted;
          sized = omega (
            arith,
            length-append (take a.len a.obj_list) (replicate (a.capacity * 2 - a.len) none),
            ap length kept,
            length-cells xs,
            length-replicate (a.capacity * 2 - a.len) (let e : Option A = none in e),
            r.counted,
            len-le,
          );
        }
