-- ===== src/Sorer/Columnar.antt =====
-- make_columnar of sorer/sorer_helper.h, the columns of a Sorer (sorer/sorer.h).
use swdev_proj.Prelude.{
  ℕ, zero, suc, ◌+◌, ◌≡◌, ◌<◌, refl, List, [], ◌∷◌, true, ltb, ◌==◌, ◌||◌, if◌then◌else◌, length,
  Run, ok, fault, diverges, ◌>>=◌, arith,
}
use swdev_proj.Dataframe.Block.{load, store}
use swdev_proj.Dataframe.Schema
use swdev_proj.Dataframe.Schema.{Schema}
use swdev_proj.Sorer.FieldArray
use swdev_proj.Sorer.FieldArray.{FieldArray}
use swdev_proj.Sorer.Parse.{is_end, parse_row_schema, parse_row_fields, is_valid_row}

-- the columns with their types
unfoldable pub start_columns : ℕ → ℕ → Schema → Run (List FieldArray)
start_columns zero i schema = ok []
start_columns (suc n) i schema = do
  t ← Schema.col_type i schema
  rest ← start_columns n (i + 1) schema
  ok (FieldArray.set_type t FieldArray.new ∷ rest)

-- the fields of a valid row go to their columns, from column `i` on
unfoldable pub push_fields : ℕ → ℕ → FieldArray → List FieldArray → Run (List FieldArray)
push_fields zero i row columns = ok columns
push_fields (suc n) i row columns = do
  from ← FieldArray.get_start i row
  to ← FieldArray.get_end i row
  f ← load i columns
  g ← FieldArray.push_back from to f
  next ← store i g columns
  push_fields n (i + 1) row next

module _ (strtold_count : List ℕ → ℕ) (file : List ℕ) (schema : Schema) where
  -- one row: where the next one starts, and what is left of the arrays that are used again
  unfoldable pub add_row :
      ℕ → Schema → FieldArray → List FieldArray → Run (ℕ × Schema × FieldArray × List FieldArray)
  unfolding push_fields
  add_row start row_types row_fields columns = do
    (at_end, types) ← parse_row_schema strtold_count file start row_types
    valid ← is_valid_row types schema
    (fields, next) ←
        (if valid
          then (do
            (moved, fields) ← parse_row_fields file start row_fields
            next ← push_fields schema.num_cols 0 fields columns
            ok (FieldArray.clear fields, next))
          else ok (row_fields, columns))
    ok (at_end + 1, Schema.clear types, fields, next)

  -- the inner loop
  unfoldable pub add_rows :
      ℕ → ℕ → Schema → FieldArray → List FieldArray → Run (ℕ × List FieldArray)
  unfolding add_row
  add_rows zero start row_types row_fields columns = fault diverges
  add_rows (suc fuel) start row_types row_fields columns = load start file >>= λ c.
      let more =
        (add_row start row_types row_fields columns >>= λ r. add_rows fuel r.0 r.1 r.2 r.3) in
      if c == 10 || is_end c then ok (start, columns) else more

  -- the outer loop, with new arrays in each round
  unfoldable pub columnar_from : ℕ → ℕ → ℕ → List FieldArray → Run (List FieldArray)
  unfolding add_rows
  columnar_from zero start end columns = fault diverges
  columnar_from (suc fuel) start end columns =
      let more =
        (add_rows (suc (length file)) start Schema.new FieldArray.new columns >>= λ r.
        columnar_from fuel r.0 end r.1) in
      if ltb start end then more else ok columns

  unfoldable pub make_columnar : ℕ → ℕ → ℕ → Run (List FieldArray)
  unfolding start_columns columnar_from
  make_columnar fuel start end = do
    columns ← start_columns schema.num_cols 0 schema
    columnar_from fuel start end columns

  -- A line break at the start of a line, before the end: the inner loop does nothing, and the outer
  -- loop starts again at the same byte. No number of rounds ends it.
  pub columnar_from-blank_line :
      (fuel start end : ℕ) (columns : List FieldArray)
      → start < end
      → load start file ≡ ok 10
      → columnar_from fuel start end columns ≡ fault diverges
  unfolding columnar_from add_rows
  columnar_from-blank_line zero start end columns l h = refl
  columnar_from-blank_line (suc fuel) start end columns l h =
      let inside : ltb start end ≡ true = ground arith in
      rw (inside, h, ◌>>=◌) (columnar_from-blank_line fuel start end columns l h)
