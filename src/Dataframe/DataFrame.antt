-- ===== src/Dataframe/DataFrame.antt =====
-- The class DataFrame of dataframe/dataframe.h. key_ is the key object of the column array too.
pub mod Arrays
pub mod Wire
mod Tests
mod WireTests
use swdev_proj.Prelude.{
  ℕ, zero, suc, ◌+◌, List, [], ◌∷◌, Bool, false, not, ◌&&◌, ◌==◌, if◌then◌else◌, Run, ok, fault,
  exits, ◌>>=◌,
}
use swdev_proj.Serial.{Serializer}
use swdev_proj.Utils.DataType.{DataType, char_to_type, type_to_char}
use swdev_proj.Store.Key
use swdev_proj.Store.Key.{Key}
use swdev_proj.Store.KvStore.{KvStore}
use swdev_proj.Network.Await.{Await, waiting, done}
use swdev_proj.Dataframe.Block.{load, store}
use swdev_proj.Dataframe.Item.{Item}
use swdev_proj.Dataframe.Schema
use swdev_proj.Dataframe.Schema.{Schema}
use swdev_proj.Dataframe.Column
use swdev_proj.Dataframe.Column.{Column}
use swdev_proj.Dataframe.ColumnArray
use swdev_proj.Dataframe.ColumnArray.{ColumnArray}
use swdev_proj.Dataframe.Row
use swdev_proj.Dataframe.Row.{Row}

pub record DataFrame : Type 0 where
  pub columns : ColumnArray
  pub schema : Schema
  pub key : Key

-- DataFrame(k, kv)
unfoldable pub new : Key → DataFrame
new k = record { columns = ColumnArray.new k; schema = Schema.new; key = k }

-- the loop of DataFrame(scm, k, kv) from column `i` on
unfoldable pub add_empty : ℕ → ℕ → List ℕ → Key → ColumnArray → Run ColumnArray
add_empty zero i scm k a = ok a
add_empty (suc n) i scm k a = do
  base ← Key.clone k
  c ← load i scm
  col ← Column.of_char base c
  next ← ColumnArray.add_column col a
  add_empty n (i + 1) scm k next

-- DataFrame(scm, k, kv)
unfoldable pub of_schema : List ℕ → Key → Run DataFrame
unfolding add_empty
of_schema scm k = do
  s ← Schema.of_types scm
  columns ← add_empty s.num_cols 0 scm k (ColumnArray.new k)
  ok (record { columns = columns; schema = s; key = k })

unfoldable pub serialize : DataFrame → Serializer → Run Serializer
serialize d s = do
  t ← ColumnArray.serialize d.columns s
  u ← Schema.serialize d.schema t
  Key.serialize d.key u

-- The second key read is that of the column array too.
unfoldable pub deserialize : DataFrame → Serializer → Run (DataFrame × Serializer)
deserialize d s = do
  (columns, t) ← ColumnArray.deserialize d.columns s
  (schema, u) ← Schema.deserialize t
  (k, v) ← Key.deserialize u
  ok (record { columns = record columns { df_key = k }; schema = schema; key = k }, v)

-- add_column(col)
unfoldable pub add_column : Column → DataFrame → Run DataFrame
add_column col d = if not (col.size == d.schema.num_rows) then fault exits else do
  columns ← ColumnArray.add_column col d.columns
  l ← type_to_char col.type_
  s ← Schema.add_column_char l d.schema
  ok (record d { columns = columns; schema = s })

-- nrows and ncols
abbrev pub nrows : DataFrame → ℕ
nrows d = d.schema.num_rows

abbrev pub ncols : DataFrame → ℕ
ncols d = d.schema.num_cols

-- equals of two objects
unfoldable pub equals : (Column → Column → Bool) → DataFrame → DataFrame → Run Bool
equals same d o = ColumnArray.equals same d.columns o.columns >>= λ columns.
    let schemas = Schema.equals d.schema o.schema in
    if columns then (schemas >>= λ alike. ok (alike && Key.equals d.key o.key)) else ok false

module _ (num_nodes block_size : ℕ) where
  -- add_array, the overload of the type `t`
  unfoldable pub add_array :
      DataType → ℕ → List Item → DataFrame → KvStore → Run (DataFrame × KvStore)
  add_array t n elements d store = do
    (columns, next) ←
        ColumnArray.add_column_fromarray num_nodes block_size t n elements d.columns store
    l ← type_to_char t
    s ← Schema.add_column_char l d.schema
    ok (record d { columns = columns; schema = Schema.add_rows n s }, next)

  -- get_int, get_bool, get_double, get_string
  unfoldable pub get_item :
      DataType → ℕ → ℕ → DataFrame → KvStore → Run (Await Item × DataFrame × KvStore)
  get_item t col row d store = do
    (v, columns, next) ← ColumnArray.get_item num_nodes block_size t col row d.columns store
    ok (v, record d { columns = columns }, next)

  -- the loop of map and local_map over the columns of a row, with setRowValByColType_
  unfoldable pub fill_row :
      ℕ → ℕ → ℕ → Row → DataFrame → KvStore → Run (Await Row × DataFrame × KvStore)
  unfolding get_item
  fill_row zero col row_idx r d store = ok (done r, d, store)
  fill_row (suc n) col row_idx r d store = do
    l ← Schema.col_type_char col d.schema
    t ← char_to_type l
    (v, e, next) ← get_item t col row_idx d store
    elim v [
      | waiting ↦ ok (waiting, e, next)
      | done x ↦ Row.set col x r >>= λ q. fill_row n (col + 1) row_idx q e next
    ]

  -- createRow_
  unfoldable pub create_row : ℕ → DataFrame → KvStore → Run (Await Row × DataFrame × KvStore)
  unfolding fill_row
  create_row row_idx d store = do
    r ← Row.new d.schema
    let q = Row.set_idx row_idx r
    fill_row q.len 0 row_idx q d store

  -- the values that the rows `j` on of a chunk have in a column
  unfoldable pub column_values : ℕ → ℕ → DataType → ℕ → List Row → Run (List Item)
  column_values zero j t col rows = ok []
  column_values (suc n) j t col rows = do
    r ← load j rows
    v ← Row.get t col r
    vs ← column_values n (j + 1) t col rows
    ok (v ∷ vs)

  -- the loop of addRowChunk_ over the columns
  unfoldable pub add_values : ℕ → ℕ → List Row → ℕ → DataFrame → KvStore → Run (DataFrame × KvStore)
  unfolding column_values
  add_values zero col rows n d store = ok (d, store)
  add_values (suc m) col rows n d store = do
    l ← Schema.col_type_char col d.schema
    t ← char_to_type l
    vs ← column_values n 0 t col rows
    c ← ColumnArray.get col d.columns
    (c', next) ← Column.add_all num_nodes block_size t n vs col c store
    columns ← ColumnArray.update col c' d.columns
    add_values m (col + 1) rows n (record d { columns = columns }) next

  unfoldable pub add_row_chunk : List Row → ℕ → DataFrame → KvStore → Run (DataFrame × KvStore)
  unfolding add_values
  add_row_chunk rows n d store = do
    (e, next) ← add_values d.schema.num_cols 0 rows n d store
    ok (record e { schema = Schema.add_rows n e.schema }, next)
