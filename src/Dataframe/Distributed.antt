-- ===== src/Dataframe/Distributed.antt =====
-- The class DistributedArray of dataframe/column/distributedarray.h, for blocks over items `A`:
-- getInt, getBool, getDouble and getString are `get_item` at their class of blocks, and
-- get...BlockFromStore_ is `block_of`. The store is external and goes in and out. addBlockToStore_ of
-- dataframe/column/column.h, which fills the store, stands here too, for a key from genKey_.
pub mod Laws
pub mod Remote
use swdev_proj.Prelude.{
  ℕ, Option, none, some, Bool, true, false, ltb, Run, ok, fault, exits, undefined, ◌>>=◌,
}
use swdev_proj.Prelude.Int.{ℤ, pos, negsuc}
use swdev_proj.Serial.{Serializer, of_buffer}
use swdev_proj.Store.Key.{Key}
use swdev_proj.Store.Value
use swdev_proj.Store.Value.{Value}
use swdev_proj.Store.KvStore
use swdev_proj.Store.KvStore.{KvStore}
use swdev_proj.Network.Await.{Await, waiting, done}
use swdev_proj.Dataframe.KeyArr
use swdev_proj.Dataframe.KeyArr.{KeyArr}
use swdev_proj.Dataframe.Cache
use swdev_proj.Dataframe.Cache.{Cache}
use swdev_proj.Dataframe.Block
use swdev_proj.Dataframe.Block.{Block}

pub record DistributedArray (A : Type 0) : Type 0 where
  pub keys : KeyArr
  pub cache : Cache (Block A)

abbrev is_found : ℤ → Bool
is_found (pos n) = true
is_found (negsuc n) = false

module _ {A : Type 0} where
  unfoldable pub new : Run (DistributedArray A)
  new = do c ← Cache.new 15; ok (record { keys = KeyArr.new; cache = c })

  unfoldable pub contains_key : Key → DistributedArray A → Run Bool
  contains_key k d = do i ← KeyArr.index_of k d.keys; ok (is_found i)

  unfoldable pub add_key : Key → DistributedArray A → Run (DistributedArray A)
  add_key k d = do a ← KeyArr.add k d.keys; ok (record d { keys = a })

  unfoldable pub length : DistributedArray A → ℕ
  length d = KeyArr.length d.keys

  unfoldable pub add_block_to_store :
      Serializer → Key → DistributedArray A → KvStore → Run (DistributedArray A × KvStore)
  unfolding add_key
  add_block_to_store s k d store = do
    val ← Value.of_data s.buffer s.num_bytes_written
    t ← KvStore.put k val store
    e ← add_key k d
    ok (e, t)

module _ {A : Type 0} (take_one : Serializer → Run (A × Serializer)) (initial : A) where
  -- the block that a value holds
  unfoldable pub block_of : Value → Run (Block A)
  block_of val = do
    s ← of_buffer val.capacity val.val
    (b, t) ← Block.deserialize take_one initial s
    ok b

  abbrev from_cache :
      Key → ℕ → DistributedArray A → KvStore → Run (Await A × DistributedArray A × KvStore)
  from_cache k i d store = do
    found ← Cache.get_block k d.cache
    b ← elim found [ none ↦ fault exits | some b ↦ ok b ]
    x ← Block.get i b
    ok (done x, d, store)

  -- what follows the call of getValue, which blocks; a null value is dereferenced
  unfoldable pub with_value :
      Key
      → ℕ
      → DistributedArray A
      → Await (Option Value) × KvStore
      → Run (Await A × DistributedArray A × KvStore)
  unfolding block_of
  with_value k i d (waiting, store) = ok (waiting, d, store)
  with_value k i d (done none, store) = fault undefined
  with_value k i d (done (some val), store) = do
    b ← block_of val
    c ← Cache.put k b d.cache
    from_cache k i (record d { cache = c }) store

  unfoldable pub get_item :
      Key → ℕ → DistributedArray A → KvStore → Run (Await A × DistributedArray A × KvStore)
  unfolding with_value
  get_item k i d store = do
    there ← Cache.contains_key k d.cache
    elim there [
      | true ↦ from_cache k i d store
      | false ↦ KvStore.get_value k true store >>= with_value k i d
    ]
