-- ===== src/Dataframe/Row.antt =====
-- The classes RowElement (dataframe/row/rowelement.h) and Row (dataframe/row/row.h). The overloads
-- of set and the getters differ in the type `t` of the item.
pub mod Laws
pub mod Start
mod Tests
use swdev_proj.Prelude.{
  ℕ, zero, suc, List, [], ◌∷◌, Bool, true, false, not, leb, ◌==◌, if◌then◌else◌, length, replicate,
  Run, ok, fault, exits, undefined, guard, ◌>>=◌, ◌>>◌,
}
use swdev_proj.Prelude.Int.{pos}
use swdev_proj.Utils.DataType.{DataType, str, same_type, letter}
use swdev_proj.Dataframe.Block.{load, store}
use swdev_proj.Dataframe.Item
use swdev_proj.Dataframe.Item.{Item, int_item, type_of}
use swdev_proj.Dataframe.Schema
use swdev_proj.Dataframe.Schema.{Schema}

-- `val` is the union with the member that was written last; new RowValue() writes zeros.
pub record RowElement : Type 0 where
  pub val : Item
  pub set_ : Bool
  pub is_str : Bool

-- RowElement()
unfoldable pub new_element : RowElement
new_element = record { val = int_item (pos 0); set_ = false; is_str = false }

-- the four overloads of RowElement::set; a String is cloned
unfoldable pub set_element : Item → RowElement → Run RowElement
set_element v e = do
  w ← Item.copy v
  ok (record {
    val = w;
    set_ = true;
    is_str = if same_type (type_of v) str then true else e.is_str;
  })

-- RowElement::getInt and the like: to read another member than the one written is undefined
unfoldable pub get_element : DataType → RowElement → Run Item
get_element t e = if same_type (type_of e.val) t then ok e.val else fault undefined

pub record Row : Type 0 where
  pub scm : Schema
  pub entries : List RowElement
  pub len : ℕ
  pub row_idx : ℕ

-- Row(scm)
unfoldable pub new : Schema → Run Row
unfolding new_element
new scm = do
  s ← Schema.copy true scm
  ok (record {
    scm = s;
    entries = replicate scm.num_cols new_element;
    len = scm.num_cols;
    row_idx = 0;
  })

unfoldable pub set_idx : ℕ → Row → Row
set_idx idx r = record r { row_idx = idx }

-- width and get_idx are the fields `len` and `row_idx`
unfoldable pub col_type : ℕ → Row → Run ℕ
col_type idx r = if leb r.len idx then fault exits else Schema.col_type_char idx r.scm

unfoldable pub exit_if_bad_set : ℕ → ℕ → Row → Run (Unit {0})
exit_if_bad_set idx expected r =
    if leb r.len idx
    then fault exits
    else do actual ← Schema.col_type_char idx r.scm; guard (actual == expected) exits

-- set(col, val), the overload of the type of `v`
unfoldable pub set : ℕ → Item → Row → Run Row
unfolding exit_if_bad_set set_element
set col v r = do
  exit_if_bad_set col (letter (type_of v)) r
  e ← load col r.entries
  e' ← set_element v e
  es ← store col e' r.entries
  ok (record r { entries = es })

-- get_int, get_bool, get_double, get_string
unfoldable pub get : DataType → ℕ → Row → Run Item
unfolding exit_if_bad_set get_element
get t col r = do
  exit_if_bad_set col (letter t) r
  e ← load col r.entries
  if e.set_ then get_element t e else fault exits

unfoldable pub clear : Row → Row
unfolding new_element
clear r = record r {
  entries = replicate r.scm.num_cols new_element;
  len = r.scm.num_cols;
  row_idx = 0;
}
