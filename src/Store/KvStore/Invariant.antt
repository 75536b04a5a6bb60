-- ===== src/Store/KvStore/Invariant.antt =====
-- What holds of a KVStore of store/kvstore.h between calls.
use swdev_proj.Prelude.{
  ℕ, ◌<◌, ◌≡◌, ◌⊎◌, inl, refl, List, none, some, true, false, ◌==◌, arith, All,
}
use swdev_proj.Utils.Str.{IsWell}
use swdev_proj.Utils.Map.Buckets.{view, IsValid, new-IsValid, new-view}
use swdev_proj.Utils.StrMap.{str_hashed}
use swdev_proj.Utils.StrMap.Laws.{IsKept, new-IsKept}
use swdev_proj.Utils.Array.{Array}
use swdev_proj.Utils.Array.Laws.{Represents}
use swdev_proj.Store.Key.{Key, key_hashed}
use swdev_proj.Store.Value.{Value}
use swdev_proj.Network.Message.{Message, wait_and_get_body, reply_data_body}
use swdev_proj.Store.KvStore.{KvStore, new, send}

pub record IsWait (m : Message) : Type 0 where
  pub key : Key
  pub body : m.body ≡ wait_and_get_body key

pub record IsReply (m : Message) : Type 0 where
  pub key : Key
  pub value : Value
  pub body : m.body ≡ reply_data_body key value

-- The key's data lives on this node.
abbrev pub IsLocal : KvStore → Key → Type 0
IsLocal s k = k.home_node == s.store_id ≡ true

abbrev pub IsRemote : KvStore → Key → Type 0
IsRemote s k = k.home_node == s.store_id ≡ false

-- An array of the cache: requests under a key of this node, replies under any other.
pub record Entry (s : KvStore) (q : Key) (arr : Array Message) (msgs : List Message) : Type 0 where
  pub rep : Represents arr msgs
  pub room : 0 < arr.capacity
  pub waits : IsLocal s q → All IsWait msgs
  pub replies : IsRemote s q → All IsReply msgs

-- Nobody waits for a value that is there.
abbrev pub NoLostWait : KvStore → Key → Type 0
NoLostWait s q = (view s.msg_cache q ≡ none) ⊎ (view s.kv_map.helper q.k_str ≡ none)

pub record IsSound (s : KvStore) : Type 0 where
  pub kept : IsKept s.kv_map
  pub cache : IsValid s.msg_cache
  pub unlocked : s.locked ≡ false
  pub entries :
      (q : Key) (arr : Array Message)
      → view s.msg_cache q ≡ some arr
      → (msgs : List Message) × Entry s q arr msgs
  pub answered : (q : Key) → IsWell q.k_str → IsLocal s q → NoLostWait s q

-- A new store is sound.
pub new-IsSound : (id : ℕ) → IsSound (new id)
unfolding new
new-IsSound id = record {
  kept = new-IsKept;
  cache = new-IsValid 4 (omega arith);
  unlocked = refl;
  entries = λ q arr h. cc (new-view {V = Array Message} 4 q);
  answered = λ q w l. inl (new-view {V = Array Message} 4 q);
}

-- Sending a message keeps a store sound.
pub send-IsSound : (s : KvStore) (m : Message) → IsSound s → IsSound (send m s)
send-IsSound s m sound = record {
  kept = sound.kept;
  cache = sound.cache;
  unlocked = sound.unlocked;
  entries = λ q arr h.
      let (msgs, e) = sound.entries q arr h in
      (msgs, record { rep = e.rep; room = e.room; waits = e.waits; replies = e.replies });
  answered = sound.answered;
}
