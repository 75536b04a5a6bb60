-- ===== src/Dataframe/Schema/Copy.antt =====
-- The loops of dataframe/schema.h over the columns: the constructors and getTypesChar.
use swdev_proj.Prelude.{
  ℕ, zero, suc, ◌+◌, ◌≤◌, ◌<◌, ◌≡◌, refl, sym, ap, subst, ◌∙◌, List, [], ◌∷◌, ◌++◌, map,
  append_assoc, append-nil, Bool, true, false, leb, ◌==◌, arith, length, length-append, length-map,
  All, some, Run, ok, ◌>>=◌, Returns,
}
use swdev_proj.Serial.{strlen}
use swdev_proj.Serial.Wire.Text.{strlen-append}
use swdev_proj.Utils.DataType.{
  DataType, field, boolean, integer, double, str, letter, IsColumnType, char_to_type-letter,
  type_to_char-letter,
}
use swdev_proj.Dataframe.Block.{load}
use swdev_proj.Dataframe.Block.Laws.{load-append}
use swdev_proj.Dataframe.Schema.{
  Schema, empty, add_column, add_column_char, add_chars, of_types, copy_cols, copy, col_type,
  chars_from, get_types_char,
}
use swdev_proj.Dataframe.Schema.Laws.{
  Describes, empty-Describes, add_column-Added, col_type-Describes, load-Describes,
}

letters_nonzero : (ts : List DataType) → All IsColumnType ts → All (λ c. 0 < c) (map letter ts)
letters_nonzero [] h = tt
letters_nonzero (field ∷ ts) h = absurd h.0
letters_nonzero (boolean ∷ ts) h = (omega arith, letters_nonzero ts h.1)
letters_nonzero (integer ∷ ts) h = (omega arith, letters_nonzero ts h.1)
letters_nonzero (double ∷ ts) h = (omega arith, letters_nonzero ts h.1)
letters_nonzero (str ∷ ts) h = (omega arith, letters_nonzero ts h.1)

-- A schema to which columns were added within its capacity.
pub record Filled (s : Schema) (ts : List DataType) (r : Schema) : Type 0 where
  pub described : Describes r ts
  pub same_rows : r.num_rows ≡ s.num_rows
  pub same_cap : r.cap_cols ≡ s.cap_cols

add_one :
    (t : DataType) (s : Schema) (us : List DataType)
    → Describes s us
    → length us < s.cap_cols
    → Returns (add_column t s) (Filled s (us ++ t ∷ []))
add_one t s us d l =
    let (r, run, a) = add_column-Added t s us d (omega arith) in
    let room : leb s.cap_cols s.num_cols ≡ false = ground (arith, d.counted) in
    (
      r,
      run,
      record {
        described = a.described;
        same_rows = a.same_rows;
        same_cap = a.grown ∙ rw room refl;
      },
    )

-- One more column, and then the rest.
add_next :
    (t : DataType) (s : Schema) (us ts : List DataType) (next : Schema → Run Schema)
    → Describes s us
    → length us < s.cap_cols
    → ((r : Schema)
        → Filled s (us ++ t ∷ []) r
        → Returns (next r) (Filled r ((us ++ t ∷ []) ++ ts)))
    → Returns (add_column t s >>= next) (Filled s (us ++ t ∷ ts))
add_next t s us ts next d l rest =
    let (r, run, f) = add_one t s us d l in
    let (q, run', g) = rest r f in
    (
      q,
      rw (run, ◌>>=◌) run',
      record {
        described =
            subst (λ (w : List DataType). Describes q w) (append_assoc us (t ∷ []) ts) g.described;
        same_rows = g.same_rows ∙ f.same_rows;
        same_cap = g.same_cap ∙ f.same_cap;
      },
    )

nothing_added : (s : Schema) (us : List DataType) → Describes s us → Filled s (us ++ []) s
nothing_added s us d = record {
  described = subst (λ (w : List DataType). Describes s w) (sym (append-nil us)) d;
  same_rows = refl;
  same_cap = refl;
}

add_chars-Filled :
    (ts us : List DataType) (pre rest mem : List ℕ) (n i : ℕ) (s : Schema)
    → mem ≡ pre ++ (map letter ts ++ rest)
    → i ≡ length pre
    → n ≡ length ts
    → All IsColumnType ts
    → Describes s us
    → length us + length ts ≤ s.cap_cols
    → Returns (add_chars n i mem s) (Filled s (us ++ ts))
unfolding add_chars add_column_char
add_chars-Filled [] us pre rest mem zero i s e a l v d c = (s, refl, nothing_added s us d)
add_chars-Filled [] us pre rest mem (suc n) i s e a l v d c = absurd (omega arith)
add_chars-Filled (t ∷ ts) us pre rest mem zero i s e a l v d c = absurd (omega arith)
add_chars-Filled (t ∷ ts) us pre rest mem (suc n) i s e a l v d c =
    let here : load i mem ≡ ok (letter t) =
      rw e (load-append pre (map letter ts ++ rest) (letter t) i a) in
    let (r, run, f) =
      add_next t s us ts (λ q. add_chars n (i + 1) mem q) d (omega arith)
        λ q f.
          add_chars-Filled ts (us ++ t ∷ []) (pre ++ letter t ∷ []) rest mem n (i + 1) q
            (e ∙ sym (append_assoc pre (letter t ∷ []) (map letter ts ++ rest)))
            (omega (arith, length-append pre (letter t ∷ []))) (omega arith) v.1 f.described
            (omega (arith, length-append us (t ∷ []), f.same_cap)) in
    (r, rw (here, ◌>>=◌, char_to_type-letter t v.0) run, f)

-- Schema(types) of a C string of the letters of `ts` returns, describes exactly these types, has
-- no rows, and has the capacity that they need.
pub of_types-Describes :
    (ts : List DataType) (rest : List ℕ)
    → All IsColumnType ts
    → Returns
        (of_types (map letter ts ++ 0 ∷ rest))
        (λ r. Describes r ts × (r.num_rows ≡ 0) × (r.cap_cols ≡ length ts))
unfolding of_types
of_types-Describes ts rest v =
    let len : strlen (map letter ts ++ 0 ∷ rest) ≡ some (length ts) =
      strlen-append (map letter ts) rest (letters_nonzero ts v) ∙ ap some (length-map letter ts) in
    let (r, run, f) =
      add_chars-Filled ts [] [] (0 ∷ rest) (map letter ts ++ 0 ∷ rest) (length ts) 0
        (empty (length ts)) refl refl refl v (empty-Describes (length ts))
        (unfold empty in omega arith) in
    (r, rw (len, of_types) run, (f.described, f.same_rows, f.same_cap))

copy_cols-Filled :
    (ts us pre : List DataType) (from : Schema) (n i : ℕ) (s : Schema)
    → Describes from (pre ++ ts)
    → i ≡ length pre
    → n ≡ length ts
    → Describes s us
    → length us + length ts ≤ s.cap_cols
    → Returns (copy_cols n i from s) (Filled s (us ++ ts))
unfolding copy_cols
copy_cols-Filled [] us pre from zero i s f a l d c = (s, refl, nothing_added s us d)
copy_cols-Filled [] us pre from (suc n) i s f a l d c = absurd (omega arith)
copy_cols-Filled (t ∷ ts) us pre from zero i s f a l d c = absurd (omega arith)
copy_cols-Filled (t ∷ ts) us pre from (suc n) i s f a l d c =
    let here : col_type i from ≡ ok t = col_type-Describes from pre ts t i f a in
    let (r, run, g) =
      add_next t s us ts (λ q. copy_cols n (i + 1) from q) d (omega arith)
        λ q g.
          copy_cols-Filled ts (us ++ t ∷ []) (pre ++ t ∷ []) from n (i + 1) q
            (subst (λ (w : List DataType). Describes from w) (sym (append_assoc pre (t ∷ []) ts)) f)
            (omega (arith, length-append pre (t ∷ []))) (omega arith) g.described
            (omega (arith, length-append us (t ∷ []), g.same_cap)) in
    (r, rw (here, ◌>>=◌) run, g)

-- The copying constructor returns a schema of the same types without rows, whatever copyRows says:
-- the row count is never copied.
pub copy-Describes :
    (copy_rows : Bool) (from : Schema) (ts : List DataType)
    → Describes from ts
    → Returns (copy copy_rows from) (λ r. Describes r ts × (r.num_rows ≡ 0) × (0 < r.cap_cols))
unfolding copy empty
copy-Describes copy_rows from [] d =
    let none_there : from.num_cols == 0 ≡ true = ground (arith, d.counted) in
    (empty 2, rw none_there refl, (empty-Describes 2, refl, omega arith))
copy-Describes copy_rows from (t ∷ ts) d =
    let some_there : from.num_cols == 0 ≡ false = ground (arith, d.counted) in
    let (r, run, f) =
      copy_cols-Filled (t ∷ ts) [] [] from from.num_cols 0 (empty from.num_cols) d refl d.counted
        (empty-Describes from.num_cols) (omega (arith, d.counted)) in
    let all : r.num_cols == r.cap_cols ≡ true =
      ground (arith, f.described.counted, f.same_cap, d.counted) in
    (
      r,
      rw (some_there, run, ◌>>=◌, all) refl,
      (f.described, f.same_rows, omega (arith, f.same_cap, d.counted)),
    )

chars_from-letters :
    (ts pre : List DataType) (s : Schema) (n i : ℕ)
    → Describes s (pre ++ ts)
    → i ≡ length pre
    → n ≡ length ts
    → All IsColumnType ts
    → chars_from n i s ≡ ok (map letter ts ++ 0 ∷ [])
unfolding chars_from
chars_from-letters [] pre s zero i d a l v = refl
chars_from-letters [] pre s (suc n) i d a l v = absurd (omega arith)
chars_from-letters (t ∷ ts) pre s zero i d a l v = absurd (omega arith)
chars_from-letters (t ∷ ts) pre s (suc n) i d a l v =
    let rest =
      chars_from-letters ts (pre ++ t ∷ []) s n (i + 1)
        (subst (λ (w : List DataType). Describes s w) (sym (append_assoc pre (t ∷ []) ts)) d)
        (omega (arith, length-append pre (t ∷ []))) (omega arith) v.1 in
    rw (load-Describes s pre ts t i d a, ◌>>=◌, type_to_char-letter t v.0, rest) refl

-- getTypesChar of a schema of column types is a C string of which Schema(types) makes a schema of
-- the same types again, without rows.
pub types_round_trip :
    (s : Schema) (ts : List DataType)
    → Describes s ts
    → All IsColumnType ts
    → Returns (get_types_char s >>= of_types) (λ r. Describes r ts × (r.num_rows ≡ 0))
unfolding get_types_char
types_round_trip s ts d v =
    let (r, run, q) = of_types-Describes ts [] v in
    (r, rw (chars_from-letters ts [] s s.num_cols 0 d refl d.counted v, ◌>>=◌) run, (q.0, q.1))
