-- ===== src/Sorer/Parse.antt =====
-- Rows and schemas of a SoR file (sorer/sorer_helper.h). Loops run on fuel: each round moves
-- forward in the file, and to read behind its memory is undefined.
pub mod Halts
pub mod Valid
use swdev_proj.Prelude.{
  ℕ, zero, suc, ◌+◌, List, [], ◌∷◌, Bool, true, false, not, ◌||◌, ltb, leb, ◌==◌, if◌then◌else◌,
  length, Run, ok, fault, asserts, diverges, ◌>>=◌,
}
use swdev_proj.Prelude.Int.{pos}
use swdev_proj.Utils.DataType.{DataType, rank}
use swdev_proj.Dataframe.Block.{load}
use swdev_proj.Dataframe.Schema
use swdev_proj.Dataframe.Schema.{Schema}
use swdev_proj.Sorer.FieldArray
use swdev_proj.Sorer.FieldArray.{FieldArray}
use swdev_proj.Sorer.Fields.{parse_field_type}

-- file[i] == EOF, as a signed char, or '\0'
abbrev pub is_end : ℕ → Bool
is_end c = c == 255 || c == 0

-- the loop that looks for the '>' of a field
unfoldable pub find_end : ℕ → ℕ → List ℕ → Run ℕ
find_end zero i file = fault diverges
find_end (suc fuel) i file = load i file >>= λ c.
    let rest = find_end fuel (i + 1) file in
    if c == b'>' then ok i else if c == 10 then fault asserts else rest

-- the loop that parse_row_schema and parse_row_fields share: `found` is told of each field
unfoldable pub scan_row : {S : Type 0} → (ℕ → ℕ → S → Run S) → ℕ → ℕ → List ℕ → S → Run (ℕ × S)
unfolding find_end
scan_row found zero start file s = fault diverges
scan_row found (suc fuel) start file s = load start file >>= λ c.
    let field =
      (find_end (suc (length file)) (start + 1) file >>= λ end.
      found start end s >>= λ t. scan_row found fuel (end + 1) file t) in
    let skip = scan_row found fuel (start + 1) file s in
    if c == 10 || is_end c then ok (start, s) else if c == b'<' then field else skip

module _ (strtold_count : List ℕ → ℕ) where
  -- parse_row_schema; the new value of *start comes first
  unfoldable pub parse_row_schema : List ℕ → ℕ → Schema → Run (ℕ × Schema)
  unfolding scan_row
  parse_row_schema file start row_schema =
      scan_row
        (λ from to s. parse_field_type strtold_count file from to >>= λ t. Schema.add_column t s)
        (suc (length file)) start file row_schema

  -- the loop of parse_schema that widens `result` by the row `curr`, from column `j` on
  unfoldable pub widen : ℕ → ℕ → ℕ → Schema → Schema → Run Schema
  widen zero j len curr result = ok result
  widen (suc n) j len curr result = Schema.col_type j curr >>= λ t.
      let added = Schema.add_column t result in
      let replaced =
        (Schema.col_type j result >>= λ u.
        if ltb (rank u) (rank t) then Schema.set_type j t result else ok result) in
      (if leb len j then added else replaced) >>= λ next. widen n (j + 1) len curr next

  -- the loop of parse_schema, with `n` rows of the first 500 left
  unfoldable pub parse_rows : ℕ → List ℕ → ℕ → Schema → Schema → Run Schema
  unfolding parse_row_schema widen
  parse_rows zero file start curr result = ok result
  parse_rows (suc n) file start curr result = load start file >>= λ c.
      let row = (do
        (at_end, types) ← parse_row_schema file start curr
        next ← widen types.num_cols 0 result.num_cols types result
        parse_rows n file (at_end + 1) (Schema.clear types) next) in
      if is_end c then ok result else row

  unfoldable pub parse_schema : List ℕ → Run Schema
  unfolding parse_rows
  parse_schema file = parse_rows 500 file 0 Schema.new Schema.new

unfoldable pub parse_row_fields : List ℕ → ℕ → FieldArray → Run (ℕ × FieldArray)
unfolding scan_row
parse_row_fields file start row =
    scan_row (λ from to r. FieldArray.push_back (pos from) (pos to) r) (suc (length file)) start
      file row

-- the loop of is_valid_row from column `i` on
unfoldable pub valid_from : ℕ → ℕ → Schema → Schema → Run Bool
valid_from zero i row_types schema = ok true
valid_from (suc n) i row_types schema = do
  t ← Schema.col_type i row_types
  u ← Schema.col_type i schema
  let rest = valid_from n (i + 1) row_types schema
  if ltb (rank u) (rank t) then ok false else rest

unfoldable pub is_valid_row : Schema → Schema → Run Bool
unfolding valid_from
is_valid_row row_types schema =
    let columns = valid_from schema.num_cols 0 row_types schema in
    if row_types.num_cols == schema.num_cols then columns else ok false
