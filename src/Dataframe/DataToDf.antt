-- ===== src/Dataframe/DataToDf.antt =====
-- The static methods of dataframe/datatodf.h that make dataframes and put them into the store. They
-- give the frame that is returned, and the store.
use swdev_proj.Prelude.{ℕ, List, [], ◌∷◌, Run, ok, ◌>>=◌}
use swdev_proj.Serial
use swdev_proj.Utils.DataType.{DataType}
use swdev_proj.Store.Key
use swdev_proj.Store.Key.{Key}
use swdev_proj.Store.Value
use swdev_proj.Store.KvStore
use swdev_proj.Store.KvStore.{KvStore}
use swdev_proj.Dataframe.Item
use swdev_proj.Dataframe.Item.{Item}
use swdev_proj.Dataframe.Schema
use swdev_proj.Dataframe.DataFrame
use swdev_proj.Dataframe.DataFrame.{DataFrame}
use swdev_proj.Dataframe.Visit.{Writer, visit}
use swdev_proj.Sorer.Parse.{parse_schema}
use swdev_proj.Sorer.Columnar.{make_columnar}
use swdev_proj.Sorer.Writer as SorWriter

-- addDFToStore_
unfoldable pub add_df_to_store : DataFrame → KvStore → Run (DataFrame × KvStore)
add_df_to_store df kv = do
  s ← DataFrame.serialize df Serial.new
  v ← Value.of_data s.buffer s.num_bytes_written
  next ← KvStore.put df.key v kv
  ok (df, next)

module _ (num_nodes block_size : ℕ) where
  -- fromVisitor, for a writer that is done within `fuel` rows
  unfoldable pub from_visitor :
      {W : Type 0} → Writer W → ℕ → Key → KvStore → List ℕ → W → Run (DataFrame × KvStore)
  unfolding add_df_to_store
  from_visitor writer fuel k kv scm w = do
    key ← Key.clone k
    df ← DataFrame.of_schema scm key
    (d, next) ← visit num_nodes block_size writer fuel w df kv
    add_df_to_store d next

  -- fromArray, the overload of the type `t`
  unfoldable pub from_array : DataType → Key → KvStore → ℕ → List Item → Run (DataFrame × KvStore)
  unfolding add_df_to_store
  from_array t k kv n elems = do
    key ← Key.clone k
    (d, next) ← DataFrame.add_array num_nodes block_size t n elems (DataFrame.new key) kv
    add_df_to_store d next

  -- fromDouble, fromInt, fromBool and fromString, which clones its String
  unfoldable pub from_item : DataType → Key → KvStore → Item → Run (DataFrame × KvStore)
  unfolding from_array
  from_item t k kv elem = do v ← Item.copy elem; from_array t k kv 1 (v ∷ [])

  -- fromFile, for the memory that Sorer has mapped: `strtold_count` and `strtold` are what strtold
  -- consumes and gives
  unfoldable pub from_file :
      (List ℕ → ℕ) → (List ℕ → ℕ) → ℕ → List ℕ → ℕ → Key → KvStore → Run (DataFrame × KvStore)
  unfolding from_visitor
  from_file strtold_count strtold fuel file file_size k kv = do
    schema ← parse_schema strtold_count file
    fa ← make_columnar strtold_count file schema fuel 0 file_size
    w ← SorWriter.new fa schema file
    types ← Schema.get_types_char schema
    from_visitor (record { is_done = SorWriter.is_done; fill = SorWriter.visit strtold }) fuel k kv
        types w
