-- ===== src/Sorer/FieldArray.antt =====
-- The class FieldArray of sorer/field_array.h. `starts` and `ends` are the whole allocations; a
-- position is an int, and files are shorter than 2^31 bytes.
pub mod Laws
use swdev_proj.Prelude.{
  ℕ, ◌+◌, ◌-◌, ◌*◌, List, [], ◌++◌, Bool, ltb, leb, ◌==◌, if◌then◌else◌, take, replicate, Run, ok,
  ◌>>=◌,
}
use swdev_proj.Prelude.Int.{ℤ, pos, negsuc}
use swdev_proj.Utils.DataType.{DataType, field, same_type}
use swdev_proj.Dataframe.Block.{load, store}

pub record FieldArray : Type 0 where
  pub type_ : DataType
  pub size : ℕ
  pub capacity : ℕ
  pub starts : List ℤ
  pub ends : List ℤ

-- FieldArray()
unfoldable pub new : FieldArray
new = record {
  type_ = field;
  size = 0;
  capacity = 4;
  starts = replicate 4 (pos 0);
  ends = replicate 4 (pos 0);
}

unfoldable pub resize : FieldArray → FieldArray
resize f = record f {
  capacity = f.capacity * 2;
  starts = take f.size f.starts ++ replicate (f.capacity * 2 - f.size) (pos 0);
  ends = take f.size f.ends ++ replicate (f.capacity * 2 - f.size) (pos 0);
}

unfoldable pub push_here : ℤ → ℤ → FieldArray → Run FieldArray
push_here start end f = do
  ss ← store f.size start f.starts
  es ← store f.size end f.ends
  ok (record f { starts = ss; ends = es; size = f.size + 1 })

unfoldable pub push_back : ℤ → ℤ → FieldArray → Run FieldArray
unfolding resize push_here
push_back start end f = push_here start end (if f.size == f.capacity then resize f else f)

-- len is the field `size`
unfoldable pub get_start : ℕ → FieldArray → Run ℤ
get_start i f = if leb f.size i then ok (negsuc 0) else load i f.starts

unfoldable pub get_end : ℕ → FieldArray → Run ℤ
get_end i f = if leb f.size i then ok (negsuc 0) else load i f.ends

unfoldable pub clear : FieldArray → FieldArray
clear f = record f {
  starts = replicate f.capacity (pos 0);
  ends = replicate f.capacity (pos 0);
  size = 0;
}

unfoldable pub set_type : DataType → FieldArray → FieldArray
set_type t f = if same_type f.type_ field then record f { type_ = t } else f
