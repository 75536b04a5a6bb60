-- ===== src/Store/Tests.antt =====
-- The theorems on src/store at concrete stores.
use swdev_proj.Prelude.{
  ◌≡◌, List, [], ◌∷◌, ◌++◌, none, some, true, false, ok, fault, diverges, Returns,
}
use swdev_proj.Utils.Str.{IsWell}
use swdev_proj.Utils.Map.Buckets.{view}
use swdev_proj.Utils.StrMap.{str_hashed}
use swdev_proj.Store.Key.{Key, key_hashed}
use swdev_proj.Store.Value.{Value}
use swdev_proj.Store.KvStore.{KvStore, get_value, put, add_reply, resume}
use swdev_proj.Store.KvStore.Invariant.{IsSound, IsLocal}
use swdev_proj.Store.KvStore.Put.{Pending, Stored, put_local}
use swdev_proj.Store.KvStore.Fetch.{get_value_keeps_lock, blocking_fetch}
use swdev_proj.Network.Await.{waiting, done}
use swdev_proj.Network.Message.{Message, wait_and_get_msg, reply_data_msg}
use swdev_proj.Samples.{
  text-IsWell, near, far, seven, store, store-IsSound, near-IsLocal, far-IsRemote, store_quiet,
}

put_local_example :
    Returns
      (put near seven store)
      (λ r. (msgs : List Message) × Pending store near msgs × Stored store near seven msgs r)
put_local_example = put_local store near seven store-IsSound near-IsLocal text-IsWell

get_value_keeps_lock_example :
    (r : KvStore) × (get_value far false store ≡ ok (done none, r))
    × ((q : Key) (msg : Message) → add_reply q msg r ≡ fault diverges)
    × ((q : Key) (v : Value) → IsLocal store q → IsWell q.k_str → put q v r ≡ fault diverges)
get_value_keeps_lock_example =
    get_value_keeps_lock far store store-IsSound far-IsRemote (store_quiet far)

blocking_fetch_example :
    (s₁ s₂ s₃ : KvStore) × (get_value far true store ≡ ok (waiting, s₁))
    × (s₁.sent ≡ store.sent ++ wait_and_get_msg far store.store_id 1 ∷ [])
    × (add_reply far (reply_data_msg far seven 1 store.store_id) s₁ ≡ ok s₂)
    × (resume far s₂ ≡ ok (done (some seven), s₃))
    × (view s₃.msg_cache far ≡ none)
    × IsSound s₃
blocking_fetch_example =
    blocking_fetch far seven store store-IsSound far-IsRemote text-IsWell (store_quiet far)
