-- ===== src/Dataframe/Column/Tests.antt =====
-- The theorems on columns at concrete columns and stores.
use swdev_proj.Prelude.{
  ℕ, ◌%◌, ◌==◌, All, List, ◌+◌, ◌*◌, ◌<◌, ◌≡◌, refl, [], ◌∷◌, ◌++◌, true, false, length, arith, ok,
  inl, Returns,
}
use swdev_proj.Prelude.Int.{pos, negsuc}
use swdev_proj.Utils.DataType.{integer}
use swdev_proj.Utils.Str
use swdev_proj.Store.Key.{Key}
use swdev_proj.Store.Key.Build.{spell, suffix, add_index-eq}
use swdev_proj.Network.Await.{done}
use swdev_proj.Utils.Array
use swdev_proj.Dataframe.KeyArr
use swdev_proj.Dataframe.Item.{Item, int_item, IsItem, type_of}
use swdev_proj.Dataframe.Column.{Column, gen_key, add_all, get_item}
use swdev_proj.Dataframe.Column.Distinct.{frame_keys-differ}
use swdev_proj.Dataframe.Column.Holds.{IsColumn}
use swdev_proj.Dataframe.Column.Mail.{Mailed}
use swdev_proj.Dataframe.Column.AddAll.{add_all-IsColumn}
use swdev_proj.Dataframe.Column.Read.{get_item-IsColumn}
use swdev_proj.Dataframe.Column.Start.{fresh, fresh-IsColumn}
use swdev_proj.Store.KvStore
use swdev_proj.Samples.{near, text-IsWell, store, store-IsSound}

abbrev column : Column
column = fresh near integer

abbrev ints : List Item
ints = int_item (pos 5) ∷ int_item (negsuc 0) ∷ int_item (pos 7) ∷ []

ints-IsItem : All (IsItem integer) ints
unfolding type_of
ints-IsItem = (
  record { typed = refl; sendable = omega arith },
  (
    record { typed = refl; sendable = omega arith },
    (record { typed = refl; sendable = omega arith }, tt),
  ),
)

no_keys : KeyArr.length column.blocks.keys ≡ 0
unfolding KeyArr.length Array.new
no_keys = refl

no_items : length {A = Item} [] ≡ KeyArr.length column.blocks.keys * 2
no_items = omega (arith, no_keys)

-- Three ints in blocks of two, the second of which goes to another node.
add_all-IsColumn_example : Returns (add_all 2 2 integer 3 ints 0 column store) (λ r.
    IsColumn 2 2 0 r.0 r.1 ([] ++ ints)
    × (KeyArr.length r.0.blocks.keys * 2 < length ([] ++ ints) + 2)
    × (r.0.type_ ≡ integer)
    × (r.1.store_id ≡ store.store_id)
    × Mailed 2 2 0 column store
        ([] ++ ints)
        (KeyArr.length column.blocks.keys)
        (KeyArr.length r.0.blocks.keys)
        r.1)
add_all-IsColumn_example =
    add_all-IsColumn 2 2 0 column store [] ints (omega arith) (omega arith) (omega arith)
      (omega arith) (fresh-IsColumn 2 2 0 near integer store text-IsWell store-IsSound) no_items
      (omega (arith, no_keys)) ints-IsItem

-- These ints, all on the only node.
added : Returns (add_all 1 2 integer 3 ints 0 column store) (λ r.
    IsColumn 1 2 0 r.0 r.1 ([] ++ ints)
    × (KeyArr.length r.0.blocks.keys * 2 < length ([] ++ ints) + 2)
    × (r.0.type_ ≡ integer)
    × (r.1.store_id ≡ store.store_id)
    × Mailed 1 2 0 column store
        ([] ++ ints)
        (KeyArr.length column.blocks.keys)
        (KeyArr.length r.0.blocks.keys)
        r.1)
added =
    add_all-IsColumn 1 2 0 column store [] ints (omega arith) (omega arith) (omega arith)
      (omega arith) (fresh-IsColumn 1 2 0 near integer store text-IsWell store-IsSound) no_items
      (omega (arith, no_keys)) ints-IsItem

abbrev filled : Column
filled = added.0.0

store_zero : store.store_id ≡ 0
unfolding KvStore.new
store_zero = refl

filled_here : 1 % 1 == added.0.1.store_id ≡ true
filled_here = ground (arith, added.2.3, store_zero)

filled_count : KeyArr.length filled.blocks.keys < 0x1_0000_0000_0000_0000
unfolding KeyArr.length
filled_count = omega (arith, added.2.1)

get_item-IsColumn_example :
    Returns
      (get_item 1 2 filled.type_ 2 0 filled added.0.1)
      (λ r. (r.0 ≡ done (int_item (pos 7))) × IsColumn 1 2 0 r.1 r.2 ints × (r.2 ≡ added.0.1))
get_item-IsColumn_example =
    get_item-IsColumn 1 2 0 filled added.0.1 ints (omega arith) (omega arith) (omega arith)
      (omega arith) added.2.0 filled_count 2 (int_item (pos 7)) refl filled_here

-- The key of the dataframe's column of the given number.
abbrev named : ℕ → Key
named n = record {
  k_str = spell (text-IsWell.cstring.chars ++ suffix n);
  home_node = near.home_node;
}

frame_keys-differ_example :
    (k : Key) × (k' : Key) × (gen_key 2 2 1 0 (fresh (named 0) integer) ≡ ok k)
    × (gen_key 2 2 1 1 (fresh (named 1) integer) ≡ ok k')
    × (Str.equals k.k_str k'.k_str ≡ false)
frame_keys-differ_example =
    frame_keys-differ 2 2 near (fresh (named 0) integer) (fresh (named 1) integer) 0 1 1 1
      text-IsWell (omega arith) (omega arith) (omega arith) (omega arith) (omega arith)
      (add_index-eq 0 near text-IsWell) (add_index-eq 1 near text-IsWell)
      (inl (λ e. absurd (omega arith)))
