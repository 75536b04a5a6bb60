-- ===== src/Dataframe/DataFrame/Tests.antt =====
-- The theorem on frames made from arrays at a concrete array.
use swdev_proj.Prelude.{
  ◌+◌, ◌%◌, ◌/◌, ◌==◌, ◌≡◌, refl, List, [], ◌∷◌, ◌++◌, true, arith, length, All, Returns,
}
use swdev_proj.Prelude.Int.{pos, negsuc}
use swdev_proj.Utils.Array
use swdev_proj.Utils.Array.Laws.{new-Represents}
use swdev_proj.Utils.DataType.{integer}
use swdev_proj.Store.KvStore
use swdev_proj.Network.Await.{done}
use swdev_proj.Dataframe.Schema
use swdev_proj.Dataframe.Schema.Laws.{Describes, empty-Describes}
use swdev_proj.Dataframe.Item.{Item, int_item, IsItem, type_of}
use swdev_proj.Dataframe.ColumnArray
use swdev_proj.Dataframe.DataFrame
use swdev_proj.Dataframe.DataFrame.{DataFrame, add_array, get_item}
use swdev_proj.Dataframe.DataFrame.Arrays.{IsFrame, add_array-get_item}
use swdev_proj.Samples.{near, text-IsWell, store, store-IsSound}

abbrev frame : DataFrame
frame = DataFrame.new near

frame-IsFrame : IsFrame frame [] []
unfolding DataFrame.new ColumnArray.new Array.new Schema.new Schema.empty
frame-IsFrame = record {
  columns = new-Represents 2;
  some_columns = omega arith;
  types = empty-Describes _;
  some_types = omega arith;
  base = text-IsWell;
}

abbrev ints : List Item
ints = int_item (pos 5) ∷ int_item (negsuc 0) ∷ int_item (pos 7) ∷ []

ints-IsItem : All (IsItem integer) ints
unfolding type_of
ints-IsItem = (
  record { typed = refl; sendable = omega arith },
  (
    record { typed = refl; sendable = omega arith },
    (record { typed = refl; sendable = omega arith }, tt),
  ),
)

on_this_node : 2 / 2 % 1 == store.store_id ≡ true
unfolding KvStore.new
on_this_node = refl

-- Three ints in blocks of two on the only node, and the last of them read from the frame.
add_array-get_item_example : Returns (add_array 1 2 integer (length ints) ints frame store) (λ r.
    Describes r.0.schema ([] ++ integer ∷ [])
    × (r.0.schema.num_rows ≡ frame.schema.num_rows + length ints)
    × Returns (get_item 1 2 integer 0 2 r.0 r.1) (λ q. q.0 ≡ done (int_item (pos 7))))
add_array-get_item_example =
    add_array-get_item 1 2 integer ints frame [] [] store (omega arith) (omega arith) (omega arith)
      frame-IsFrame store-IsSound (omega arith) (omega arith) tt ints-IsItem 2 (int_item (pos 7))
      refl on_this_node
