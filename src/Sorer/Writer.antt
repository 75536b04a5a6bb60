-- ===== src/Sorer/Writer.antt =====
-- The class SorWriter of sorer/sorwriter.h, which fills rows from the fields of a SoR file.
use swdev_proj.Prelude.{
  ℕ, zero, suc, ◌+◌, ◌-◌, ◌*◌, ◌%◌, List, [], ◌∷◌, some, Bool, ltb, leb, ◌==◌, ◌&&◌, if◌then◌else◌,
  prev_size, drop, Run, ok, fault, asserts, guard, ◌>>=◌, ◌>>◌,
}
use swdev_proj.Prelude.Int.{ℤ, pos, negsuc, to_word, of_word}
use swdev_proj.Utils.DataType.{DataType, boolean, integer, double, str, field}
use swdev_proj.Utils.StrBuff
use swdev_proj.Utils.StrBuff.{StrBuff}
use swdev_proj.Utils.Str.{Str}
use swdev_proj.Dataframe.Block.{load}
use swdev_proj.Dataframe.Item.{Item, int_item, double_item, bool_item, string_item}
use swdev_proj.Dataframe.Schema
use swdev_proj.Dataframe.Schema.{Schema}
use swdev_proj.Dataframe.Row
use swdev_proj.Dataframe.Row.{Row}
use swdev_proj.Sorer.FieldArray
use swdev_proj.Sorer.FieldArray.{FieldArray}
use swdev_proj.Sorer.Fields.{isspace, triml, trimr}

-- the value of the digits that a text begins with
unfoldable pub digits_value : ℕ → List ℕ → ℕ
digits_value acc [] = acc
digits_value acc (c ∷ cs) =
    let more = digits_value (acc * 10 + (c - b'0')) cs in
    if leb b'0' c && leb c b'9' then more else acc

-- -n as a long long, which does not go below its least value
unfoldable pub minus : ℕ → ℤ
minus zero = pos 0
minus (suc n) = if ltb n 0x8000_0000_0000_0000 then negsuc n else negsuc 0x7fff_ffff_ffff_ffff

unfoldable pub plus : ℕ → ℤ
plus n = if ltb n 0x8000_0000_0000_0000 then pos n else pos 0x7fff_ffff_ffff_ffff

-- strtoll(s, nullptr, 10)
unfoldable pub strtoll : List ℕ → ℤ
unfolding isspace minus plus digits_value
strtoll [] = pos 0
strtoll (c ∷ cs) =
    let after = strtoll cs in
    if isspace c
    then after
    else if c == b'-'
    then minus (digits_value 0 cs)
    else plus (digits_value 0 (if c == b'+' then cs else c ∷ cs))

-- the conversion of a long long to int
unfoldable pub to_int : ℤ → ℤ
to_int z = of_word 0x8000_0000 (to_word 0x8000_0000_0000_0000 z % 0x1_0000_0000)

unfoldable pub get_int_field : List ℕ → ℕ → ℕ → Run ℤ
unfolding strtoll to_int
get_int_field file start end = do s ← triml file start end; ok (to_int (strtoll (drop s file)))

unfoldable pub get_bool_field : List ℕ → ℕ → ℕ → Run Bool
get_bool_field file start end = do s ← triml file start end; c ← load s file; ok (c == b'1')

-- `strtold` is the double that strtold gives, as its bits
unfoldable pub get_double_field : (List ℕ → ℕ) → List ℕ → ℕ → ℕ → Run ℕ
get_double_field strtold file start end = do s ← triml file start end; ok (strtold (drop s file))

-- the loop over the characters of a String
unfoldable pub add_chars : ℕ → ℕ → List ℕ → StrBuff → Run StrBuff
add_chars zero i file b = ok b
add_chars (suc n) i file b = do
  c ← load i file
  d ← StrBuff.c (c ∷ 0 ∷ []) b
  add_chars n (i + 1) file d

unfoldable pub get_string_field : List ℕ → ℕ → ℕ → Run Str
unfolding add_chars
get_string_field file start end = do
  s ← triml file start end
  e ← trimr file start end
  first ← load s file
  let s' = (if first == b'"' then s + 1 else s)
  last ← load e file
  let e' = (if last == b'"' then prev_size e else e)
  b ← add_chars (e' + 1 - s') s' file StrBuff.new
  (res, rest) ← StrBuff.get b
  ok res

pub record SorWriter : Type 0 where
  pub row : ℕ
  pub num_cols : ℕ
  pub num_rows : ℕ
  pub fa : List FieldArray
  pub types : Schema
  pub file : List ℕ
  pub seen : ℕ

-- SorWriter(fa, types, file); fa[0] of an empty array is undefined
unfoldable pub new : List FieldArray → Schema → List ℕ → Run SorWriter
new fa types file = do
  f ← load 0 fa
  ok (record {
    row = 0;
    num_cols = types.num_cols;
    num_rows = f.size;
    fa = fa;
    types = types;
    file = file;
    seen = 0;
  })

unfoldable pub is_done : SorWriter → Bool
is_done w = w.seen == w.num_rows * w.num_cols

-- a position, which is -1 outside the array, as a size_t
unfoldable pub position : ℤ → ℕ
position z = to_word 0x8000_0000_0000_0000 z

module _ (strtold : List ℕ → ℕ) where
  -- a field as the type of its column says
  unfoldable pub field_item : DataType → List ℕ → ℕ → ℕ → Run Item
  unfolding get_int_field get_bool_field get_double_field get_string_field
  field_item boolean file start end = do b ← get_bool_field file start end; ok (bool_item b)
  field_item integer file start end = do z ← get_int_field file start end; ok (int_item z)
  field_item double file start end = do
    d ← get_double_field strtold file start end
    ok (double_item d)
  field_item str file start end = do s ← get_string_field file start end; ok (string_item (some s))
  field_item field file start end = fault asserts

  -- a column of another type is reported and left as it is
  unfoldable pub set_field : DataType → ℕ → List ℕ → ℕ → ℕ → Row → Run Row
  unfolding field_item
  set_field field col file start end r = ok r
  set_field boolean col file start end r =
      field_item boolean file start end >>= λ v. Row.set col v r
  set_field integer col file start end r =
      field_item integer file start end >>= λ v. Row.set col v r
  set_field double col file start end r = field_item double file start end >>= λ v. Row.set col v r
  set_field str col file start end r = field_item str file start end >>= λ v. Row.set col v r

  -- the loop of visit from column `col` on
  unfoldable pub visit_cols : ℕ → ℕ → SorWriter → Row → Run Row
  unfolding position set_field
  visit_cols zero col w r = ok r
  visit_cols (suc n) col w r = do
    f ← load col w.fa
    from ← FieldArray.get_start w.row f
    to ← FieldArray.get_end w.row f
    guard (leb (position from) (position to)) asserts
    t ← Schema.col_type col w.types
    q ← set_field t col w.file (position from) (position to) r
    visit_cols n (col + 1) w q

  -- visit, with next
  unfoldable pub visit : Row → SorWriter → Run (Row × SorWriter)
  unfolding visit_cols
  visit r w = do
    q ← visit_cols w.num_cols 0 w r
    ok (q, record w { row = w.row + 1; seen = w.seen + w.num_cols })
