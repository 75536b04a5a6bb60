-- ===== src/Dataframe/ColumnArray.antt =====
-- The class ColumnArray of dataframe/column/columnarray.h: an Array of columns, and the key of the
-- dataframe. A column is changed in place, through its pointer.
pub mod Laws
pub mod Wire
use swdev_proj.Prelude.{ℕ, zero, suc, ◌+◌, List, Bool, ◌&&◌, Run, ok, ◌>>=◌}
use swdev_proj.Serial.{Serializer, write_size, read_size}
use swdev_proj.Utils.Array
use swdev_proj.Utils.Array.{Array}
use swdev_proj.Utils.DataType.{DataType}
use swdev_proj.Store.Key
use swdev_proj.Store.Key.{Key}
use swdev_proj.Store.KvStore.{KvStore}
use swdev_proj.Network.Await.{Await}
use swdev_proj.Dataframe.Item.{Item}
use swdev_proj.Dataframe.Column
use swdev_proj.Dataframe.Column.{Column}

pub record ColumnArray : Type 0 where
  pub col_list : Array Column
  pub df_key : Key

-- ColumnArray(store, k)
unfoldable pub new : Key → ColumnArray
new k = record { col_list = Array.new 2; df_key = k }

unfoldable pub length : ColumnArray → ℕ
length a = a.col_list.len

unfoldable pub get : ℕ → ColumnArray → Run Column
get index a = Array.get index a.col_list

-- add_column(c)
unfoldable pub add_column : Column → ColumnArray → Run ColumnArray
add_column c a = do l ← Array.add c a.col_list; ok (record a { col_list = l })

-- add_column(colType)
unfoldable pub add_column_char : ℕ → ColumnArray → Run ColumnArray
unfolding add_column length
add_column_char col_type a = do
  base ← Key.add_index (length a) a.df_key
  c ← Column.of_char base col_type
  add_column c a

-- a column after a call that changed it
unfoldable pub update : ℕ → Column → ColumnArray → Run ColumnArray
update index c a = do (old, l) ← Array.set_at index c a.col_list; ok (record a { col_list = l })

-- the loop of serialize from column `i` on
unfoldable pub put_from : ℕ → ℕ → ColumnArray → Serializer → Run Serializer
unfolding get
put_from zero i a s = ok s
put_from (suc n) i a s = do c ← get i a; t ← Column.serialize c s; put_from n (i + 1) a t

unfoldable pub serialize : ColumnArray → Serializer → Run Serializer
unfolding put_from length
serialize a s = do
  t ← write_size (length a) s
  u ← put_from (length a) 0 a t
  Key.serialize a.df_key u

-- the loop of deserialize
unfoldable pub add_columns : ℕ → Array Column → Serializer → Run (Array Column × Serializer)
add_columns zero l s = ok (l, s)
add_columns (suc n) l s = do
  (c, t) ← Column.deserialize s
  longer ← Array.add c l
  add_columns n longer t

unfoldable pub deserialize : ColumnArray → Serializer → Run (ColumnArray × Serializer)
unfolding add_columns
deserialize a s = do
  (len, t) ← read_size s
  (l, u) ← add_columns len (Array.clear a.col_list) t
  (k, v) ← Key.deserialize u
  ok (record { col_list = l; df_key = k }, v)

-- equals of two objects; `same` compares two columns
unfoldable pub equals : (Column → Column → Bool) → ColumnArray → ColumnArray → Run Bool
equals same a o = do
  columns ← Array.equals same a.col_list o.col_list
  ok (columns && Key.equals a.df_key o.df_key)

module _ (num_nodes block_size : ℕ) where
  -- add_column_fromarray, the overload of the type `t`
  unfoldable pub add_column_fromarray :
      DataType → ℕ → List Item → ColumnArray → KvStore → Run (ColumnArray × KvStore)
  unfolding add_column length
  add_column_fromarray t n elements a store = do
    base ← Key.add_index (length a) a.df_key
    c ← Column.new base t
    (d, next) ← Column.add_all num_nodes block_size t n elements (length a) c store
    b ← add_column d a
    ok (b, next)

  -- get_int, get_bool, get_double, get_string
  unfoldable pub get_item :
      DataType → ℕ → ℕ → ColumnArray → KvStore → Run (Await Item × ColumnArray × KvStore)
  unfolding update
  get_item t col row a store = do
    c ← Array.get col a.col_list
    (v, d, next) ← Column.get_item num_nodes block_size t row col c store
    b ← update col d a
    ok (v, b, next)
