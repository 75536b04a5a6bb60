-- ===== src/Sorer/FieldArray/Laws.antt =====
-- A FieldArray of sorer/field_array.h holds the starts and ends of fields, pair by pair.
use swdev_proj.Prelude.{
  ℕ, ◌+◌, ◌-◌, ◌*◌, ◌≤◌, ◌<◌, ◌≡◌, refl, sym, ap, ◌∙◌, List, [], ◌∷◌, ◌++◌, append_assoc, subst,
  false, ◌==◌, Bool-cases, inl, inr, arith, length, length-append, length-take, length-replicate,
  take, take-append, replicate, map, length-map, map-snoc, ◌>>=◌, Returns,
}
use swdev_proj.Prelude.Int.{ℤ, pos}
use swdev_proj.Dataframe.Block.{store}
use swdev_proj.Dataframe.Block.Laws.{store-append}
use swdev_proj.Sorer.FieldArray.{FieldArray, new, resize, push_here, push_back}

-- One of the two allocations: its first cells are `xs`.
pub record Half (cells : List ℤ) (capacity : ℕ) (xs : List ℤ) : Type 0 where
  pub spare : List ℤ
  pub shape : cells ≡ xs ++ spare
  pub sized : length cells ≡ capacity

-- The pairs in order; both allocations are as long as the capacity.
pub record Fields (f : FieldArray) (ps : List (ℤ × ℤ)) : Type 0 where
  pub starts : Half f.starts f.capacity (map (λ p. p.0) ps)
  pub ends : Half f.ends f.capacity (map (λ p. p.1) ps)
  pub counted : f.size ≡ length ps
  pub positive : 0 < f.capacity

pub new-Fields : Fields new []
unfolding new
new-Fields = record {
  starts = record { spare = replicate 4 (pos 0); shape = refl; sized = refl };
  ends = record { spare = replicate 4 (pos 0); shape = refl; sized = refl };
  counted = refl;
  positive = omega arith;
}

grown :
    (cells xs : List ℤ) (capacity : ℕ)
    → Half cells capacity xs
    → length xs ≤ capacity
    → Half
        (take (length xs) cells ++ replicate (capacity * 2 - length xs) (pos 0))
        (capacity * 2)
        xs
grown cells xs capacity h l = record {
  spare = replicate (capacity * 2 - length xs) (pos 0);
  shape = rw (h.shape, take-append xs h.spare (length xs) refl) refl;
  sized = omega (
    arith,
    length-append (take (length xs) cells) (replicate (capacity * 2 - length xs) (pos 0)),
    length-take (length xs) cells,
    length-replicate (capacity * 2 - length xs) (pos 0),
    h.sized,
  );
}

fill :
    (cells xs : List ℤ) (capacity n : ℕ) (x : ℤ) (h : Half cells capacity xs) (sp : List ℤ)
    → h.spare ≡ sp
    → n ≡ length xs
    → length xs < capacity
    → Returns (store n x cells) (λ r. Half r capacity (xs ++ x ∷ []))
fill cells xs capacity n x h [] e a l =
    absurd (omega (arith, ap length h.shape, length-append xs h.spare, ap length e, h.sized))
fill cells xs capacity n x h (c ∷ sp) e a l =
    let shape : cells ≡ xs ++ c ∷ sp = h.shape ∙ ap (λ (w : List ℤ). xs ++ w) e in
    (
      xs ++ x ∷ sp,
      rw shape (store-append xs sp c x n a),
      record {
        spare = sp;
        shape = sym (append_assoc xs (x ∷ []) sp);
        sized =
            omega (
              arith,
              h.sized,
              ap length shape,
              length-append xs (c ∷ sp),
              length-append xs (x ∷ sp),
            );
      },
    )

push_here-Fields :
    (start end : ℤ) (f : FieldArray) (ps : List (ℤ × ℤ))
    → Fields f ps
    → f.size < f.capacity
    → Returns
        (push_here start end f)
        (λ r. Fields r (ps ++ (start, end) ∷ []) × (r.type_ ≡ f.type_))
unfolding push_here
push_here-Fields start end f ps h l =
    let n = length-map (λ (p : ℤ × ℤ). p.0) ps in
    let m = length-map (λ (p : ℤ × ℤ). p.1) ps in
    let (ss, run, a) =
      fill f.starts (map (λ p. p.0) ps) f.capacity f.size start h.starts h.starts.spare refl
        (h.counted ∙ sym n) (omega (arith, n, h.counted)) in
    let (es, run', b) =
      fill f.ends (map (λ p. p.1) ps) f.capacity f.size end h.ends h.ends.spare refl
        (h.counted ∙ sym m) (omega (arith, m, h.counted)) in
    (
      record f { starts = ss; ends = es; size = f.size + 1 },
      rw (run, ◌>>=◌, run') refl,
      (
        record {
          starts =
              subst (λ (w : List ℤ). Half ss f.capacity w)
                (sym (map-snoc (λ (p : ℤ × ℤ). p.0) ps (start, end))) a;
          ends =
              subst (λ (w : List ℤ). Half es f.capacity w)
                (sym (map-snoc (λ (p : ℤ × ℤ). p.1) ps (start, end))) b;
          counted = omega (arith, h.counted, length-append ps ((start, end) ∷ []));
          positive = h.positive;
        },
        refl,
      ),
    )

resize-Fields :
    (f : FieldArray) (ps : List (ℤ × ℤ)) → Fields f ps → f.size ≡ f.capacity → Fields (resize f) ps
unfolding resize
resize-Fields f ps h full =
    let n = length-map (λ (p : ℤ × ℤ). p.0) ps in
    let m = length-map (λ (p : ℤ × ℤ). p.1) ps in
    record {
      starts =
          subst
            (λ (k : ℕ).
              Half (take k f.starts ++ replicate (f.capacity * 2 - k) (pos 0)) (f.capacity * 2)
                (map (λ p. p.0) ps))
            (n ∙ sym h.counted)
            (grown f.starts (map (λ p. p.0) ps) f.capacity h.starts (omega (arith, n, h.counted)));
      ends =
          subst
            (λ (k : ℕ).
              Half (take k f.ends ++ replicate (f.capacity * 2 - k) (pos 0)) (f.capacity * 2)
                (map (λ p. p.1) ps))
            (m ∙ sym h.counted)
            (grown f.ends (map (λ p. p.1) ps) f.capacity h.ends (omega (arith, m, h.counted)));
      counted = h.counted;
      positive = omega (arith, h.positive);
    }

room_left :
    (f : FieldArray) (ps : List (ℤ × ℤ))
    → Fields f ps
    → f.size == f.capacity ≡ false
    → f.size < f.capacity
room_left f ps h e =
    let n = length-map (λ (p : ℤ × ℤ). p.0) ps in
    let total = length-append (map (λ (p : ℤ × ℤ). p.0) ps) h.starts.spare in
    let bound : f.size ≤ f.capacity =
      omega (arith, h.counted, n, total, ap length h.starts.shape, h.starts.sized) in
    ground arith

-- pushBack returns and puts the pair behind the others, whether or not the two allocations had to
-- be doubled; the type stays.
pub push_back-Fields :
    (start end : ℤ) (f : FieldArray) (ps : List (ℤ × ℤ))
    → Fields f ps
    → Returns
        (push_back start end f)
        (λ r. Fields r (ps ++ (start, end) ∷ []) × (r.type_ ≡ f.type_))
unfolding push_back
push_back-Fields start end f ps h = elim (Bool-cases (f.size == f.capacity)) [
  | inl full ↦
      let e : f.size ≡ f.capacity = ground arith in
      let (r, run, (q, same)) =
        push_here-Fields start end (resize f) ps (resize-Fields f ps h e)
          (unfold resize in omega (arith, h.positive)) in
      (r, rw full run, (q, unfold resize in same))
  | inr room ↦
      let (r, run, q) = push_here-Fields start end f ps h (room_left f ps h room) in
      (r, rw room run, q)
]
