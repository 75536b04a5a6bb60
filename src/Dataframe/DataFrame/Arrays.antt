-- ===== src/Dataframe/DataFrame/Arrays.antt =====
-- Frames made from arrays (add_array of dataframe/dataframe.h), and their getters.
use swdev_proj.Prelude.{
  ℕ, ◌+◌, ◌/◌, ◌%◌, ◌<◌, ◌≡◌, refl, sym, ap, ◌∙◌, List, [], ◌∷◌, ◌++◌, some, true, ◌==◌, length,
  get_elem?, All, ok, ◌>>=◌, Returns,
}
use swdev_proj.Serial.Wire.Scalars.{SizeT}
use swdev_proj.Utils.Str.{IsWell}
use swdev_proj.Utils.Array.Laws.{Represents}
use swdev_proj.Utils.DataType.{DataType, IsColumnType, type_to_char-letter, char_to_type-letter}
use swdev_proj.Store.KvStore.{KvStore}
use swdev_proj.Store.KvStore.Invariant.{IsSound}
use swdev_proj.Network.Await.{done}
use swdev_proj.Dataframe.Schema
use swdev_proj.Dataframe.Schema.Laws.{Describes, add_column-Added}
use swdev_proj.Dataframe.Item.{Item, IsItem}
use swdev_proj.Dataframe.Column.{Column}
use swdev_proj.Dataframe.ColumnArray
use swdev_proj.Dataframe.ColumnArray.Laws.{add_column_fromarray-NewColumn, get_item-found}
use swdev_proj.Dataframe.DataFrame.{DataFrame, add_array, get_item}

-- A frame with the columns `cs`, of the types `ts`, that can take more.
pub record IsFrame (d : DataFrame) (cs : List Column) (ts : List DataType) : Type 0 where
  pub columns : Represents d.columns.col_list cs
  pub some_columns : 0 < d.columns.col_list.capacity
  pub types : Describes d.schema ts
  pub some_types : 0 < d.schema.cap_cols
  pub base : IsWell d.columns.df_key.k_str

-- On a sound store, let a frame have the columns `cs` and the column types `ts`, neither its list of
-- columns nor the array of types of its schema have an allocation of 0, and its key a well-formed
-- string; let there be nodes, let the block size be positive, and let the block size, the number of
-- columns and that of the items fit a size_t. Then add_array of items of a column type that can be
-- sent (a string is not null) returns; the frame has one column more, of that type, and as many rows
-- more as the array has items; and the getter of the type gives each item back, from the new column
-- and the item's place, where its block belongs to this node.
pub add_array-get_item :
    (nodes size : ℕ) (t : DataType) (elements : List Item) (d : DataFrame) (cs : List Column)
    (ts : List DataType) (st : KvStore)
    → 0 < nodes
    → 0 < size
    → SizeT size
    → IsFrame d cs ts
    → IsSound st
    → SizeT (length cs)
    → SizeT (length elements)
    → IsColumnType t
    → All (IsItem t) elements
    → (i : ℕ) (v : Item) → get_elem? elements i ≡ some v
    → i / size % nodes == st.store_id ≡ true
    → Returns (add_array nodes size t (length elements) elements d st) (λ r.
      Describes r.0.schema (ts ++ t ∷ [])
      × (r.0.schema.num_rows ≡ d.schema.num_rows + length elements)
      × Returns (get_item nodes size t (length cs) i r.0 r.1) (λ q. q.0 ≡ done v))
unfolding add_array get_item Schema.add_column_char Schema.add_rows
add_array-get_item nodes size t elements d cs ts st pos some_size small f sound few many ct v i z e
      here =
    let (a, run, c) =
      add_column_fromarray-NewColumn nodes size pos some_size small t elements d.columns cs st
        f.columns f.some_columns f.base sound few many v in
    let (s, run', added) = add_column-Added t d.schema ts f.types f.some_types in
    let next : DataFrame = record d {
      columns = a.0;
      schema = Schema.add_rows (length elements) s;
    } in
    let here' : i / size % nodes == a.1.store_id ≡ true =
      ap (λ (k : ℕ). i / size % nodes == k) c.same_store ∙ here in
    let (q, found, (value, _)) =
      get_item-found nodes size pos some_size small a.0 cs [] c.column a.1 elements c.rep c.holds
        few c.few i z e here' in
    let read : ColumnArray.get_item nodes size t (length cs) i a.0 a.1 ≡ ok q =
      ap (λ (w : DataType). ColumnArray.get_item nodes size w (length cs) i a.0 a.1) (sym c.typed)
      ∙ found in
    (
      (next, a.1),
      rw (run, ◌>>=◌, type_to_char-letter t ct, char_to_type-letter t ct, run') refl,
      (
        record {
          spare = added.described.spare;
          shape = added.described.shape;
          counted = added.described.counted;
          sized = added.described.sized;
        },
        ap (λ (k : ℕ). k + length elements) added.same_rows,
        ((q.0, record next { columns = q.1 }, q.2), rw (read, ◌>>=◌) refl, value),
      ),
    )
