-- ===== src/Dataframe/Schema/Laws.antt =====
-- A Schema of dataframe/schema.h describes the sequence of its columns' types.
use swdev_proj.Prelude.{
  ℕ, ◌+◌, ◌-◌, ◌*◌, ◌≤◌, ◌<◌, ◌≡◌, refl, sym, ap, ◌∙◌, List, [], ◌∷◌, ◌++◌, append_assoc, true,
  false, leb, ltb, if◌then◌else◌, Bool-cases, inl, inr, arith, length, length-append, length-take,
  length-replicate, take, take-append, replicate, ok, fault, undefined, ◌>>=◌, Returns,
}
use swdev_proj.Utils.DataType.{DataType, field, type_to_char}
use swdev_proj.Dataframe.Block.{load, store}
use swdev_proj.Dataframe.Block.Laws.{load-append, store-append}
use swdev_proj.Dataframe.Schema.{
  Schema, empty, grow_col_list, add_column, col_type, col_type_char, set_type,
}

-- The first cells hold the types `ts` of the columns, inside the allocation.
pub record Describes (s : Schema) (ts : List DataType) : Type 0 where
  pub spare : List DataType
  pub shape : s.types ≡ ts ++ spare
  pub counted : s.num_cols ≡ length ts
  pub sized : length s.types ≡ s.cap_cols

pub empty-Describes : (n : ℕ) → Describes (empty n) []
unfolding empty
empty-Describes n = record {
  spare = replicate n field;
  shape = refl;
  counted = refl;
  sized = length-replicate n field;
}

grow-Describes :
    (s : Schema) (ts : List DataType)
    → Describes s ts
    → s.num_cols ≤ s.cap_cols
    → Describes (grow_col_list s) ts
unfolding grow_col_list
grow-Describes s ts d l = record {
  spare = replicate (s.cap_cols * 2 - s.num_cols) field;
  shape = rw (d.shape, take-append ts d.spare s.num_cols d.counted) refl;
  counted = d.counted;
  sized = omega (
    arith,
    length-append (take s.num_cols s.types) (replicate (s.cap_cols * 2 - s.num_cols) field),
    length-take s.num_cols s.types,
    length-replicate (s.cap_cols * 2 - s.num_cols) field,
    d.sized,
  );
}

pub within : (s : Schema) (ts : List DataType) → Describes s ts → s.num_cols ≤ s.cap_cols
within s ts d = omega (arith, ap length d.shape, length-append ts d.spare, d.counted, d.sized)

-- What an added column does.
pub record Added (s : Schema) (ts : List DataType) (t : DataType) (r : Schema) : Type 0 where
  pub described : Describes r (ts ++ t ∷ [])
  pub same_rows : r.num_rows ≡ s.num_rows
  pub grown : r.cap_cols ≡ (if leb s.cap_cols s.num_cols then s.cap_cols * 2 else s.cap_cols)

-- the store behind the growth check, in a schema with a free cell
fill_cell :
    (g : Schema) (ts sp : List DataType) (t : DataType) (d : Describes g ts)
    → d.spare ≡ sp
    → g.num_cols < g.cap_cols
    → Returns
        (store g.num_cols t g.types >>= λ cells.
          ok (record g { types = cells; num_cols = g.num_cols + 1 }))
        (λ r. Describes r (ts ++ t ∷ []) × (r.num_rows ≡ g.num_rows) × (r.cap_cols ≡ g.cap_cols))
fill_cell g ts [] t d e l =
    absurd
      (omega (arith, ap length d.shape, length-append ts d.spare, ap length e, d.counted, d.sized))
fill_cell g ts (x ∷ sp) t d e l =
    let cells : g.types ≡ ts ++ x ∷ sp = d.shape ∙ ap (λ (w : List DataType). ts ++ w) e in
    (
      record g { types = ts ++ t ∷ sp; num_cols = g.num_cols + 1 },
      rw (cells, store-append ts sp x t g.num_cols d.counted) refl,
      (
        record {
          spare = sp;
          shape = sym (append_assoc ts (t ∷ []) sp);
          counted = omega (arith, d.counted, length-append ts (t ∷ []));
          sized = omega (
            arith,
            d.sized,
            ap length cells,
            length-append ts (x ∷ sp),
            length-append ts (t ∷ sp),
          );
        },
        refl,
        refl,
      ),
    )

-- add_column to a schema that has some capacity returns, appends the type, and doubles the
-- capacity exactly if it was used up; the rows stay.
pub add_column-Added :
    (t : DataType) (s : Schema) (ts : List DataType)
    → Describes s ts
    → 0 < s.cap_cols
    → Returns (add_column t s) (Added s ts t)
unfolding add_column grow_col_list
add_column-Added t s ts d c = elim (Bool-cases (leb s.cap_cols s.num_cols)) [
  | inl full ↦
      let g = grow-Describes s ts d (within s ts d) in
      let (r, run, (e, rows, cap)) =
        fill_cell (grow_col_list s) ts g.spare t g refl (ground (arith, within s ts d)) in
      (r, rw full run, record { described = e; same_rows = rows; grown = rw full cap })
  | inr room ↦
      let (r, run, (e, rows, cap)) = fill_cell s ts d.spare t d refl (ground arith) in
      (r, rw room run, record { described = e; same_rows = rows; grown = rw room cap })
]

-- A schema without capacity never gets any: add_column then writes outside its allocation.
pub add_column-no_capacity :
    (t : DataType) (s : Schema) → Describes s [] → s.cap_cols ≡ 0 → add_column t s ≡ fault undefined
unfolding add_column grow_col_list store
add_column-no_capacity t s d c =
    let full : leb s.cap_cols s.num_cols ≡ true = ground arith in
    let none_left : ltb s.num_cols
          (length (take s.num_cols s.types ++ replicate (s.cap_cols * 2 - s.num_cols) field))
        ≡ false =
      ground (
        arith,
        d.counted,
        d.sized,
        length-append (take s.num_cols s.types) (replicate (s.cap_cols * 2 - s.num_cols) field),
        length-take s.num_cols s.types,
        length-replicate (s.cap_cols * 2 - s.num_cols) field,
      ) in
    rw (full, none_left) refl

-- col_type reads the description, and ends the process outside it.
pub col_type-Describes :
    (s : Schema) (us vs : List DataType) (t : DataType) (i : ℕ)
    → Describes s (us ++ t ∷ vs)
    → i ≡ length us
    → col_type i s ≡ ok t
unfolding col_type
col_type-Describes s us vs t i d e =
    let inside : leb s.num_cols i ≡ false = ground (arith, d.counted, length-append us (t ∷ vs)) in
    rw (inside, d.shape, append_assoc) (load-append us (vs ++ d.spare) t i e)

pub load-Describes :
    (s : Schema) (us vs : List DataType) (t : DataType) (i : ℕ)
    → Describes s (us ++ t ∷ vs)
    → i ≡ length us
    → load i s.types ≡ ok t
load-Describes s us vs t i d e = rw (d.shape, append_assoc) (load-append us (vs ++ d.spare) t i e)

pub col_type_char-Describes :
    (s : Schema) (us vs : List DataType) (t : DataType) (i : ℕ)
    → Describes s (us ++ t ∷ vs)
    → i ≡ length us
    → col_type_char i s ≡ type_to_char t
unfolding col_type_char
col_type_char-Describes s us vs t i d e =
    let inside : leb s.num_cols i ≡ false = ground (arith, d.counted, length-append us (t ∷ vs)) in
    rw (inside, load-Describes s us vs t i d e, ◌>>=◌) refl

pub set_type-Describes :
    (s : Schema) (us vs : List DataType) (t v : DataType) (i : ℕ)
    → Describes s (us ++ t ∷ vs)
    → i ≡ length us
    → Returns (set_type i v s) (λ r. Describes r (us ++ v ∷ vs))
unfolding set_type
set_type-Describes s us vs t v i d e =
    let inside : leb s.num_cols i ≡ false = ground (arith, d.counted, length-append us (t ∷ vs)) in
    let cells : s.types ≡ us ++ t ∷ (vs ++ d.spare) = d.shape ∙ append_assoc us (t ∷ vs) d.spare in
    (
      record s { types = us ++ v ∷ (vs ++ d.spare) },
      rw (inside, cells, store-append us (vs ++ d.spare) t v i e) refl,
      record {
        spare = d.spare;
        shape = sym (append_assoc us (v ∷ vs) d.spare);
        counted = omega (arith, d.counted, length-append us (t ∷ vs), length-append us (v ∷ vs));
        sized = omega (
          arith,
          d.sized,
          ap length cells,
          length-append us (t ∷ (vs ++ d.spare)),
          length-append us (v ∷ (vs ++ d.spare)),
        );
      },
    )
