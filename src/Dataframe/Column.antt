-- ===== src/Dataframe/Column.antt =====
-- The class Column of dataframe/column/column.h. The store is external and goes in and out;
-- `num_nodes` and `block_size` are those of the command line (args). The four overloads of add_all
-- and the four getters differ in the type `t` of their items.
pub mod GenKey
pub mod Distinct
pub mod Holds
pub mod Mail
pub mod Steps
pub mod Append
pub mod Rounds
pub mod AddAll
pub mod Read
pub mod Start
pub mod Wire
mod Tests
use swdev_proj.Prelude.{
  ℕ, zero, suc, ◌+◌, ◌-◌, ◌/◌, ◌%◌, List, [], ◌∷◌, Option, none, some, Bool, true, false, not, ◌&&◌,
  ltb, leb, ◌==◌, if◌then◌else◌, Run, ok, fault, exits, undefined, diverges, ◌>>=◌, guard, ◌>>◌,
}
use swdev_proj.Prelude.Int.{negsuc}
use swdev_proj.Serial
use swdev_proj.Serial.{Serializer, write_size, read_size, write_char, read_char}
use swdev_proj.Utils.StrBuff
use swdev_proj.Utils.StrBuff.{StrBuff}
use swdev_proj.Utils.DataType.{
  DataType, field, boolean, integer, double, str, same_type, char_to_type, type_to_char,
}
use swdev_proj.Store.Key
use swdev_proj.Store.Key.{Key, c_index}
use swdev_proj.Store.KvStore.{KvStore}
use swdev_proj.Network.Await.{Await, waiting, done}
use swdev_proj.Dataframe.KeyArr
use swdev_proj.Dataframe.Block
use swdev_proj.Dataframe.Block.{Block, load}
use swdev_proj.Dataframe.Item
use swdev_proj.Dataframe.Item.{Item, int_item, double_item, bool_item}
use swdev_proj.Dataframe.Distributed
use swdev_proj.Dataframe.Distributed.{DistributedArray, add_block_to_store}

pub record Column : Type 0 where
  pub size : ℕ
  pub blocks : DistributedArray Item
  pub type_ : DataType
  pub base_key : Key

-- Column(store, baseKey, t)
unfoldable pub new : Key → DataType → Run Column
new base t = do
  blocks ← Distributed.new
  ok (record { size = 0; blocks = blocks; type_ = t; base_key = base })

-- Column(store, baseKey, type)
unfoldable pub of_char : Key → ℕ → Run Column
unfolding new
of_char base type = do t ← char_to_type type; new base t

-- Column::equals of two objects; `same_blocks` is what equals of the distributed arrays says
unfoldable pub equals : Bool → Column → Column → Bool
equals same_blocks c o =
    c.size == o.size
    && (same_blocks && (same_type c.type_ o.type_ && Key.equals c.base_key o.base_key))

unfoldable pub proper_type : DataType → Column → Bool
proper_type t c = same_type c.type_ t

unfoldable pub serialize : Column → Serializer → Run Serializer
serialize c s = do
  t ← write_size c.size s
  u ← KeyArr.serialize c.blocks.keys t
  l ← type_to_char c.type_
  v ← write_char l u
  Key.serialize c.base_key v

-- deserialize into a Column()
unfoldable pub deserialize : Serializer → Run (Column × Serializer)
deserialize s = do
  blocks ← Distributed.new
  (size, t) ← read_size s
  (keys, u) ← KeyArr.deserialize t
  (l, v) ← read_char u
  t' ← char_to_type l
  (base, w) ← Key.deserialize v
  ok (
    record { size = size; blocks = record blocks { keys = keys }; type_ = t'; base_key = base },
    w,
  )

-- the loop of add_all over one block: items `i` on, `n` of them
unfoldable pub fill_block : ℕ → ℕ → List Item → Block Item → Run (Block Item)
fill_block zero i vals b = ok b
fill_block (suc n) i vals b = do
  v ← load i vals
  w ← Item.copy v
  (rejected, next) ← Block.add w b
  fill_block n (i + 1) vals next

-- what a getter gives, when the column has another type
unfoldable pub wrong_type : DataType → Run Item
wrong_type integer = ok (int_item (negsuc 0))
wrong_type double = ok (double_item 0xbff0_0000_0000_0000)
wrong_type boolean = ok (bool_item true)
wrong_type str = fault exits
wrong_type field = fault undefined

module _ (num_nodes block_size : ℕ) where
  -- x / args.blockSize and the like: division by zero is undefined
  abbrev divisible : ℕ → Run (Unit {0})
  divisible n = guard (not (n == 0)) undefined

  unfoldable pub gen_key : ℕ → ℕ → Column → Run Key
  gen_key block_num col_idx c = do
    a ← StrBuff.c_string c.base_key.k_str StrBuff.new
    b ← c_index col_idx a
    d ← c_index block_num b
    (s, rest) ← StrBuff.get d
    divisible num_nodes
    Key.new s (block_num % num_nodes)

  -- what one round of add_all does with the filled block
  unfoldable pub store_block : ℕ → ℕ → Block Item → Column → KvStore → Run (Column × KvStore)
  unfolding gen_key
  store_block key_idx col_idx b c store = do
    s ← Block.serialize Item.put b Serial.new
    k ← gen_key key_idx col_idx c
    (blocks, next) ← add_block_to_store s k c.blocks store
    ok (record c { blocks = blocks }, next)

  -- the loop of add_all, on fuel; the result is how many items were added
  unfoldable pub add_blocks :
      ℕ
      → DataType
      → ℕ
      → ℕ
      → ℕ
      → List Item
      → ℕ
      → Block Item
      → Column
      → KvStore
      → Run (ℕ × Column × KvStore)
  unfolding fill_block store_block
  add_blocks zero t len added before vals col_idx b c store = fault diverges
  add_blocks (suc fuel) t len added before vals col_idx b c store =
      let amount = (if ltb (len - added) block_size then len - added else block_size) in
      let more = (do
        filled ← fill_block amount added vals b
        divisible block_size
        (d, next) ← store_block (before + added / block_size) col_idx filled c store
        add_blocks fuel t len (added + amount) before vals col_idx
            (Block.clear (Item.initial t) (Item.wiped t filled.capacity) filled) d next) in
      if ltb added len then more else ok (added, c, store)

  -- add_all of the first `len` items of an array
  unfoldable pub add_all : DataType → ℕ → List Item → ℕ → Column → KvStore → Run (Column × KvStore)
  unfolding add_blocks
  add_all t len vals col_idx c store = if not (same_type c.type_ t) then fault exits else do
    (added, d, next) ←
        add_blocks (suc len) t len 0 (Distributed.length c.blocks) vals col_idx
          (Block.new (Item.initial t) block_size) c store
    ok (record d { size = d.size + added }, next)

  -- get_int, get_double, get_bool, get_string
  unfoldable pub get_item :
      DataType → ℕ → ℕ → Column → KvStore → Run (Await Item × Column × KvStore)
  unfolding wrong_type gen_key proper_type
  get_item t idx col_idx c store =
      if not (proper_type t c) then (wrong_type t >>= λ v. ok (done v, c, store)) else do
        divisible block_size
        k ← gen_key (idx / block_size) col_idx c
        (v, blocks, next) ←
            Distributed.get_item (Item.take_one t) (Item.initial t) k (idx % block_size) c.blocks
              store
        ok (v, record c { blocks = blocks }, next)
