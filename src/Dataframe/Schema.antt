-- ===== src/Dataframe/Schema.antt =====
-- The class Schema of dataframe/schema.h. `types` is the whole allocation.
pub mod Laws
pub mod Copy
pub mod Equality
pub mod Wire
mod Tests
use swdev_proj.Prelude.{
  ℕ, zero, suc, ◌+◌, ◌-◌, ◌*◌, List, [], ◌∷◌, ◌++◌, Bool, true, false, not, ◌||◌, leb, ltb, ◌==◌,
  if◌then◌else◌, length, take, replicate, Option, none, some, Run, ok, fault, exits, undefined,
  asserts, guard, ◌>>=◌, ◌>>◌,
}
use swdev_proj.Serial.{Serializer, strlen, write_size, read_size, write_char, read_char}
use swdev_proj.Utils.DataType.{DataType, field, char_to_type, type_to_char, same_type}
use swdev_proj.Dataframe.Block.{load, store, put_from, get_into}

pub record Schema : Type 0 where
  pub types : List DataType
  pub num_cols : ℕ
  pub cap_cols : ℕ
  pub num_rows : ℕ

-- A schema without columns; the cells of its allocation hold anything.
unfoldable pub empty : ℕ → Schema
empty cap = record { types = replicate cap field; num_cols = 0; cap_cols = cap; num_rows = 0 }

-- Schema()
unfoldable pub new : Schema
unfolding empty
new = empty 2

unfoldable pub grow_col_list : Schema → Schema
grow_col_list s = record s {
  types = take s.num_cols s.types ++ replicate (s.cap_cols * 2 - s.num_cols) field;
  cap_cols = s.cap_cols * 2;
}

-- add_column(DataType)
unfoldable pub add_column : DataType → Schema → Run Schema
unfolding grow_col_list
add_column typ s =
    let g = (if leb s.cap_cols s.num_cols then grow_col_list s else s) in
    do ts ← store g.num_cols typ g.types; ok (record g { types = ts; num_cols = g.num_cols + 1 })

-- add_column(char)
unfoldable pub add_column_char : ℕ → Schema → Run Schema
unfolding add_column
add_column_char typ s = do t ← char_to_type typ; add_column t s

-- the loop of Schema(types) from character `i` on, with `n` left
unfoldable pub add_chars : ℕ → ℕ → List ℕ → Schema → Run Schema
unfolding add_column_char
add_chars zero i types s = ok s
add_chars (suc n) i types s = do
  c ← load i types
  t ← add_column_char c s
  add_chars n (i + 1) types t

-- Schema(types)
unfoldable pub of_types : List ℕ → Run Schema
unfolding add_chars empty
of_types types = elim (strlen types) [
  | none ↦ fault undefined
  | some n ↦ add_chars n 0 types (empty n)
]

unfoldable pub col_type : ℕ → Schema → Run DataType
col_type idx s = if leb s.num_cols idx then fault exits else load idx s.types

unfoldable pub col_type_char : ℕ → Schema → Run ℕ
col_type_char idx s =
    if leb s.num_cols idx then fault exits else load idx s.types >>= λ t. type_to_char t

unfoldable pub set_type : ℕ → DataType → Schema → Run Schema
set_type idx type s =
    if leb s.num_cols idx
    then fault exits
    else do ts ← store idx type s.types; ok (record s { types = ts })

-- the loop of Schema(from, copyRows) from column `i` on, with `n` left
unfoldable pub copy_cols : ℕ → ℕ → Schema → Schema → Run Schema
unfolding col_type add_column
copy_cols zero i from s = ok s
copy_cols (suc n) i from s = do
  t ← col_type i from
  next ← add_column t s
  copy_cols n (i + 1) from next

-- Schema(from, copyRows), whatever copyRows is; Schema(from) calls it with true
unfoldable pub copy : Bool → Schema → Run Schema
unfolding empty copy_cols
copy copy_rows from = if from.num_cols == 0 then ok (empty 2) else do
  s ← copy_cols from.num_cols 0 from (empty from.num_cols)
  guard (s.num_cols == s.cap_cols) asserts
  ok s

unfoldable pub add_rows : ℕ → Schema → Schema
add_rows n s = record s { num_rows = s.num_rows + n }

unfoldable pub add_row : Schema → Schema
unfolding add_rows
add_row s = add_rows 1 s

unfoldable pub clear : Schema → Schema
unfolding empty
clear s = empty 2

-- the loop of equals; when no column differs the function ends without a return
unfoldable pub equals_from : ℕ → ℕ → Schema → Schema → Run Bool
unfolding col_type
equals_from zero i s o = fault undefined
equals_from (suc n) i s o = load i s.types >>= λ x. col_type i o >>= λ y.
    let rest = equals_from n (i + 1) s o in if same_type x y then rest else ok false

-- equals, with a schema
unfoldable pub equals : Schema → Schema → Run Bool
unfolding equals_from
equals s o =
    let columns = equals_from s.num_cols 0 s o in
    if not (s.num_cols == o.num_cols)
      || not (s.cap_cols == o.cap_cols)
      || not (s.num_rows == o.num_rows)
    then ok false
    else columns

-- the loop of getTypesChar
unfoldable pub chars_from : ℕ → ℕ → Schema → Run (List ℕ)
chars_from zero i s = ok (0 ∷ [])
chars_from (suc n) i s = do
  t ← load i s.types
  c ← type_to_char t
  cs ← chars_from n (i + 1) s
  ok (c ∷ cs)

unfoldable pub get_types_char : Schema → Run (List ℕ)
unfolding chars_from
get_types_char s = chars_from s.num_cols 0 s

-- how a type is written and read
unfoldable pub put_type : DataType → Serializer → Run Serializer
put_type t s = type_to_char t >>= λ c. write_char c s

unfoldable pub take_type : Serializer → Run (DataType × Serializer)
take_type s = read_char s >>= λ p. char_to_type p.0 >>= λ t. ok (t, p.1)

unfoldable pub serialize : Schema → Serializer → Run Serializer
unfolding put_type
serialize c s = do
  t ← write_size c.cap_cols s
  u ← write_size c.num_cols t
  v ← write_size c.num_rows u
  put_from put_type c.num_cols 0 c.types v

unfoldable pub deserialize : Serializer → Run (Schema × Serializer)
unfolding take_type
deserialize s = do
  (cap, t) ← read_size s
  (cols, u) ← read_size t
  (rows, v) ← read_size u
  (types, w) ← get_into take_type cols 0 (replicate cap field) v
  ok (record { types = types; num_cols = cols; cap_cols = cap; num_rows = rows }, w)
