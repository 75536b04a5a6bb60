-- ===== src/Dataframe/Cache.antt =====
-- The class Cache of dataframe/column/cache.h, over any class `B` of blocks.
pub mod Laws
pub mod Fifo
use swdev_proj.Prelude.{
  ℕ, Option, none, some, Bool, leb, ◌==◌, if◌then◌else◌, Run, ok, fault, exits, asserts, guard,
  ◌>>=◌, ◌>>◌,
}
use swdev_proj.Utils.Map
use swdev_proj.Utils.Map.{Map}
use swdev_proj.Utils.Queue
use swdev_proj.Utils.Queue.{Queue}
use swdev_proj.Store.Key.{Key, key_hashed}

pub record Cache (B : Type 0) : Type 0 where
  pub max_size : ℕ
  pub blocks : Map Key B
  pub key_order : Queue Key

module _ {B : Type 0} where
  -- Cache(max)
  unfoldable pub new : ℕ → Run (Cache B)
  new max =
      if max == 0
      then fault exits
      else ok (record { max_size = max; blocks = Map.new 4; key_order = Queue.new })

  unfoldable pub contains_key : Key → Cache B → Run Bool
  contains_key k c = Map.contains_key (some k) c.blocks

  unfoldable pub get_block : Key → Cache B → Run (Option B)
  get_block k c = Map.get (some k) c.blocks

  unfoldable pub is_full : Cache B → Bool
  is_full c = leb c.max_size c.blocks.size

  -- what follows the pop in removeFirstAddedElement_
  unfoldable pub remove_popped : Option Key → Cache B → Run (Option Key × Cache B)
  remove_popped none c = ok (none, c)
  remove_popped (some k) c = do
    (old, m) ← Map.remove (some k) c.blocks
    guard (m.size == c.key_order.len) asserts
    ok (some k, record c { blocks = m })

  unfoldable pub remove_first_added_element : Cache B → Run (Option Key × Cache B)
  unfolding remove_popped
  remove_first_added_element c = do
    (k, q) ← Queue.pop c.key_order
    remove_popped k (record c { key_order = q })

  -- what follows the eviction in put
  unfoldable pub add_block : Key → B → Cache B → Run (Cache B)
  add_block k val c = do
    (old, m) ← Map.put (some k) (some val) c.blocks
    q ← Queue.push (some k) c.key_order
    guard (m.size == q.len) asserts
    ok (record c { blocks = m; key_order = q })

  unfoldable pub put : Key → B → Cache B → Run (Cache B)
  unfolding is_full remove_first_added_element add_block
  put k val c = (if is_full c then remove_first_added_element c else ok (none, c)) >>= λ r.
      add_block k val r.1

  unfoldable pub clear : Cache B → Run (Cache B)
  clear c = do
    q ← Queue.clear c.key_order
    ok (record c { blocks = Map.clear c.blocks; key_order = q })
