-- ===== src/Samples.antt =====
-- Data on which the tests of the other modules run.
use swdev_proj.Prelude.{◌≡◌, refl, [], ◌∷◌, none, arith}
use swdev_proj.Utils.Str.{Str, IsWell}
use swdev_proj.Utils.Str.Wire
use swdev_proj.Utils.Map.Buckets.{view, new-view}
use swdev_proj.Utils.StrMap
use swdev_proj.Utils.StrMap.{str_hashed}
use swdev_proj.Utils.Array.{Array}
use swdev_proj.Store.Key
use swdev_proj.Store.Key.{Key, key_hashed}
use swdev_proj.Store.Value.{Value}
use swdev_proj.Store.KvStore
use swdev_proj.Store.KvStore.{KvStore}
use swdev_proj.Store.KvStore.Invariant.{IsSound, new-IsSound, IsLocal, IsRemote}
use swdev_proj.Network.Message.{Message}

abbrev pub text : Str
text = record { size = 1; cstr = b'a' ∷ 0 ∷ [] }

pub text-IsWell : IsWell text
text-IsWell = record {
  cstring = record { chars = b'a' ∷ []; spelt = refl; nonzero = (omega arith, tt) };
  sized = refl;
}

pub text-Sendable : Wire.Sendable text
text-Sendable = record { well = text-IsWell; small = omega arith }

-- A key of node 0, and one of node 1.
abbrev pub near : Key
near = record { k_str = text; home_node = 0 }

abbrev pub far : Key
far = record { k_str = text; home_node = 1 }

pub far-Sendable : Key.Wire.Sendable far
far-Sendable = record { str = text-Sendable; small = omega arith }

abbrev pub seven : Value
seven = record { val = 7 ∷ []; capacity = 1 }

abbrev pub eight : Value
eight = record { val = 8 ∷ 0 ∷ []; capacity = 2 }

abbrev pub store : KvStore
store = KvStore.new 0

pub store-IsSound : IsSound store
store-IsSound = new-IsSound 0

pub near-IsLocal : IsLocal store near
unfolding KvStore.new
near-IsLocal = refl

pub far-IsRemote : IsRemote store far
unfolding KvStore.new
far-IsRemote = refl

pub store_quiet : (k : Key) → view store.msg_cache k ≡ none
unfolding KvStore.new
store_quiet k = new-view {V = Array Message} 4 k

pub store_empty : (q : Str) → view store.kv_map.helper q ≡ none
unfolding KvStore.new StrMap.new
store_empty q = new-view {V = Value} 4 q
