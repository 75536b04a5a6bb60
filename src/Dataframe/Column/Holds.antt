-- ===== src/Dataframe/Column/Holds.antt =====
-- What it means that a Column of dataframe/column/column.h holds a sequence of items, as far as
-- its blocks live on this node.
use swdev_proj.Prelude.{
  ℕ, ◌+◌, ◌*◌, ◌≤◌, ◌<◌, ◌≡◌, sym, ◌∙◌, List, ◌++◌, some, length, get_elem?, All, arith,
  get_elem?-append_left, get_elem?-append_right,
}
use swdev_proj.Serial
use swdev_proj.Serial.Write.{Appends}
use swdev_proj.Serial.Wire.Scalars.{SizeT}
use swdev_proj.Utils.Str.{IsWell}
use swdev_proj.Utils.Map.Buckets.{view}
use swdev_proj.Utils.StrMap.{str_hashed}
use swdev_proj.Utils.Array.Laws.{Represents}
use swdev_proj.Utils.DataType.{DataType}
use swdev_proj.Store.Key.{Key, key_hashed}
use swdev_proj.Store.KvStore.{KvStore}
use swdev_proj.Store.KvStore.Invariant.{IsSound, IsLocal}
use swdev_proj.Dataframe.Block.{Block}
use swdev_proj.Dataframe.Block.Laws
use swdev_proj.Dataframe.Block.Wire.{bytes}
use swdev_proj.Dataframe.Cache.Laws.{IsCache}
use swdev_proj.Dataframe.Distributed.Laws.{value_of}
use swdev_proj.Dataframe.Item.{Item, IsItem, item_wire}
use swdev_proj.Dataframe.Column.{Column}
use swdev_proj.Dataframe.Column.GenKey.{block_key}

-- The items of block `n`, as far as `xs` goes, are those of `chunk`.
abbrev pub Agrees : ℕ → List Item → ℕ → List Item → Type 0
Agrees size xs n chunk =
    (i : ℕ) (z : Item)
    → i < size
    → get_elem? xs (n * size + i) ≡ some z
    → get_elem? chunk i ≡ some z

-- An item at its place in the block after the old ones.
pub Agrees-last :
    (size n : ℕ) (xs chunk : List Item) → length xs ≡ n * size → Agrees size (xs ++ chunk) n chunk
Agrees-last size n xs chunk e i z l h =
    sym (get_elem?-append_right xs chunk i (n * size + i) (omega arith)) ∙ h

-- The old blocks are full, so that new items change nothing in them.
pub Agrees-append :
    (size n count : ℕ) (xs ys chunk : List Item)
    → length xs ≡ count * size
    → n < count
    → Agrees size xs n chunk
    → Agrees size (xs ++ ys) n chunk
Agrees-append size n count xs ys chunk e l a i z small h =
    let inside : n * size + i < length xs = grind arith in
    a i z small (sym (get_elem?-append_left xs ys (n * size + i) inside) ∙ h)

-- The bytes of a block with these items stand in the store under the key.
pub record InStore (t : DataType) (size : ℕ) (st : KvStore) (k : Key) (chunk : List Item)
    : Type 0 where
  pub writer : Serial.Serializer
  pub there : view st.kv_map.helper k.k_str ≡ some (value_of writer)
  pub few : length chunk ≤ size
  pub valid : All (IsItem t) chunk
  pub wrote : Appends (bytes (item_wire t) size chunk) Serial.new writer

-- The blocks of the column hold `xs`: every block of this node stands in the store, and what the
-- cache has is right.
pub record Blocks (nodes size col : ℕ) (c : Column) (st : KvStore) (xs : List Item) : Type 0 where
  pub base : IsWell c.base_key.k_str
  pub sound : IsSound st
  pub keys : List Key
  pub rep : Represents c.blocks.keys.key_list keys
  pub room : 0 < c.blocks.keys.key_list.capacity
  pub enough : length xs ≤ length keys * size
  pub cached_keys : List Key
  pub cache : IsCache c.blocks.cache cached_keys
  pub stored :
      (n : ℕ)
      → n < length keys
      → IsLocal st (block_key nodes base.cstring.chars col n)
      → (chunk : List Item) × InStore c.type_ size st
          (block_key nodes base.cstring.chars col n)
          chunk
        × Agrees size xs n chunk
  pub cached :
      (n : ℕ) (b : Block Item)
      → SizeT n
      → view c.blocks.cache.blocks (block_key nodes base.cstring.chars col n) ≡ some b
      → (n < length keys) × (chunk : List Item) × Laws.Holds b chunk × Agrees size xs n chunk

-- The column holds `xs`, and counts them.
pub record IsColumn (nodes size col : ℕ) (c : Column) (st : KvStore) (xs : List Item) : Type 0 where
  pub blocks : Blocks nodes size col c st xs
  pub counted : c.size ≡ length xs
