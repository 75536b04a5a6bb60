-- ===== src/Dataframe/Tests.antt =====
-- The theorems on src/dataframe at concrete blocks and caches.
use swdev_proj.Prelude.{
  ok, ◌<◌, ◌≡◌, refl, [], ◌∷◌, ◌++◌, some, none, Option, take, ◌>>=◌, arith, Returns,
}
use swdev_proj.Serial.{new, of_buffer}
use swdev_proj.Utils.Str.{Str}
use swdev_proj.Store.Key.{key_hashed}
use swdev_proj.Store.Value.{Value}
use swdev_proj.Dataframe.Block.{Block, serialize, deserialize, clone}
use swdev_proj.Dataframe.Block.Laws.{Holds}
use swdev_proj.Dataframe.Block.Copy.{clone-Holds}
use swdev_proj.Dataframe.Block.Wire.{block_round_trip}
use swdev_proj.Dataframe.Block.Kinds.{put_string, take_string, string_cell_wire}
use swdev_proj.Dataframe.Cache
use swdev_proj.Dataframe.Cache.{Cache}
use swdev_proj.Dataframe.Cache.Laws.{IsCache, empty, empty-IsCache}
use swdev_proj.Dataframe.Cache.Fifo.{Put, kept, put-Put}
use swdev_proj.Dataframe.KeyArr
use swdev_proj.Dataframe.Distributed.{DistributedArray, add_block_to_store, get_item}
use swdev_proj.Dataframe.Distributed.Laws.{store-get_item}
use swdev_proj.Network.Await.{waiting, done}
use swdev_proj.Network.Message.{wait_and_get_msg, reply_data_msg}
use swdev_proj.Store.KvStore.{KvStore, add_reply, resume}
use swdev_proj.Serial.Write.{Appends}
use swdev_proj.Serial.Wire.{new-IsReady}
use swdev_proj.Dataframe.Distributed.Remote.{fetch_remote}
use swdev_proj.Dataframe.Distributed.Laws.{value_of}
use swdev_proj.Dataframe.Distributed.{with_value}
use swdev_proj.Dataframe.Block.Wire.{bytes, serialize-Appends}
use swdev_proj.Utils.Array
use swdev_proj.Utils.Array.Laws.{Represents, new-Represents}
use swdev_proj.Store.KvStore.Invariant.{IsSound}
use swdev_proj.Samples.{
  text, text-IsWell, text-Sendable, far, far-IsRemote, store_quiet, near, seven, store,
  store-IsSound, near-IsLocal,
}

-- A block of three strings that has room for more.
abbrev strings : Block (Option Str)
strings = record { capacity = 4; size = 3; vals = some text ∷ some text ∷ some text ∷ none ∷ [] }

strings-Holds : Holds strings (some text ∷ some text ∷ some text ∷ [])
strings-Holds = record { spare = none ∷ []; shape = refl; counted = refl; sized = refl }

block_round_trip_example :
    Returns
      (serialize put_string strings new >>= λ s.
        of_buffer s.num_bytes_written s.buffer >>= deserialize take_string none)
      (λ q. Holds q.0 (some text ∷ some text ∷ some text ∷ []) × (q.0.capacity ≡ 4))
block_round_trip_example =
    block_round_trip string_cell_wire none strings (some text ∷ some text ∷ some text ∷ [])
      strings-Holds (omega arith) (text-Sendable, (text-Sendable, (text-Sendable, tt)))

-- The copy has room for two items only.
clone-Holds_example :
    Returns
      (clone none 2 strings)
      (λ r. Holds r (take 2 (some text ∷ some text ∷ some text ∷ [])) × (r.capacity ≡ 2))
clone-Holds_example =
    clone-Holds none 2 strings (some text ∷ some text ∷ some text ∷ []) strings-Holds

abbrev cache : Cache Value
cache = empty 2

cache-IsCache : IsCache cache []
cache-IsCache = empty-IsCache 2 (omega arith)

put-Put_example :
    Returns (Cache.put near seven cache) (Put cache near seven (kept cache.max_size []))
put-Put_example = put-Put cache near seven [] cache-IsCache refl

abbrev array : DistributedArray (Option Str)
array = record { keys = KeyArr.new; cache = empty 15 }

array_keys : Represents array.keys.key_list []
unfolding KeyArr.new
array_keys = new-Represents 2

array_room : 0 < array.keys.key_list.capacity
unfolding KeyArr.new Array.new
array_room = omega arith

store-get_item_example :
    Returns
      (serialize put_string strings new >>= λ u.
        add_block_to_store u near array store >>= λ r. get_item take_string none near 1 r.0 r.1)
      (λ r.
        (r.0 ≡ done (some text))
        × IsCache r.1.cache (kept 15 [] ++ near ∷ [])
        × Represents r.1.keys.key_list ([] ++ near ∷ [])
        × IsSound r.2)
store-get_item_example =
    store-get_item string_cell_wire none near array [] [] strings
      (some text ∷ some text ∷ some text ∷ []) (some text ∷ []) (some text ∷ []) (some text) 1 store
      strings-Holds (omega arith) (text-Sendable, (text-Sendable, (text-Sendable, tt))) refl refl
      (empty-IsCache 15 (omega arith)) refl array_keys array_room store-IsSound near-IsLocal
      text-IsWell

-- What the other node wrote.
strings_sent :
    Returns
      (serialize put_string strings new)
      (Appends (bytes string_cell_wire 4 (some text ∷ some text ∷ some text ∷ [])) new)
strings_sent =
    serialize-Appends string_cell_wire strings (some text ∷ some text ∷ some text ∷ []) new
      strings-Holds (omega arith) (omega arith)
      (text-Sendable, (text-Sendable, (text-Sendable, tt))) new-IsReady

fetch_remote_example :
    (s₁ s₂ : KvStore) × (get_item take_string none far 1 array store ≡ ok (waiting, array, s₁))
    × (s₁.sent ≡ store.sent ++ wait_and_get_msg far store.store_id 1 ∷ [])
    × (add_reply far (reply_data_msg far (value_of strings_sent.0) 1 store.store_id) s₁ ≡ ok s₂)
    × Returns
        (resume far s₂ >>= with_value take_string none far 1 array)
        (λ r. (r.0 ≡ done (some text)) × IsCache r.1.cache (kept 15 [] ++ far ∷ []) × IsSound r.2)
fetch_remote_example =
    fetch_remote string_cell_wire none far array [] (some text ∷ some text ∷ some text ∷ [])
      (some text ∷ []) (some text ∷ []) (some text) 1 4 strings_sent.0 store refl refl
      (empty-IsCache 15 (omega arith)) refl store-IsSound far-IsRemote text-IsWell (store_quiet far)
      (omega arith) (omega arith) (text-Sendable, (text-Sendable, (text-Sendable, tt)))
      strings_sent.2
