-- ===== src/Store/KvStore.antt =====
-- The class KVStore of store/kvstore.h. `sent` is what was handed to node_->sendMsg, in order;
-- `locked` says whether some thread holds msgCacheLock_.
pub mod Invariant
pub mod Replies
pub mod Put
pub mod Cache
pub mod Fetch
pub mod Twice
use swdev_proj.Prelude.{
  ℕ, zero, suc, ◌+◌, List, [], ◌∷◌, ◌++◌, Option, none, some, Bool, true, false, not, ◌&&◌, ◌==◌,
  if◌then◌else◌, Run, ok, fault, undefined, diverges, asserts, ◌>>=◌, ◌>>◌, guard,
}
use swdev_proj.Utils.Str.{Str}
use swdev_proj.Utils.Map
use swdev_proj.Utils.Map.{Map}
use swdev_proj.Utils.StrMap
use swdev_proj.Utils.StrMap.{MapStrObj}
use swdev_proj.Utils.Array
use swdev_proj.Utils.Array.{Array}
use swdev_proj.Store.Key.{Key, key_hashed}
use swdev_proj.Store.Value.{Value}
use swdev_proj.Network.Await.{Await, waiting, done}
use swdev_proj.Network.Message.{
  Body, Message, get_data_msg, wait_and_get_msg, put_msg, reply_data_msg, wait_and_get_body,
  reply_data_body,
}

pub record KvStore : Type 0 where
  pub kv_map : MapStrObj Value
  pub store_id : ℕ
  pub msg_cache : Map Key (Array Message)
  pub locked : Bool
  pub sent : List Message

-- KVStore(id, net)
unfoldable pub new : ℕ → KvStore
new id = record {
  kv_map = StrMap.new;
  store_id = id;
  msg_cache = Map.new 4;
  locked = false;
  sent = [];
}

-- node_->sendMsg(m)
abbrev pub send : Message → KvStore → KvStore
send m s = record s { sent = s.sent ++ m ∷ [] }

-- A call that finds the lock held, when no thread is left to release it, never returns.
unfoldable pub lock : KvStore → Run KvStore
lock s = if s.locked then fault diverges else ok (record s { locked = true })

abbrev pub unlock : KvStore → KvStore
unlock s = record s { locked = false }

-- dynamic_cast<ReplyDataMsg *>, asserted, and its value
unfoldable pub reply_value : Message → Run Value
reply_value m = elim m.body [ reply_data_body k v ↦ ok v | _ ↦ fault asserts ]

-- dynamic_cast<WaitAndGetMsg *>, asserted, and its sender
unfoldable pub waiter : Message → Run ℕ
waiter m = elim m.body [ wait_and_get_body k ↦ ok m.sender | _ ↦ fault asserts ]

abbrev pub assert_array : Option (Array Message) → Run (Array Message)
assert_array none = fault asserts
assert_array (some a) = ok a

-- the end of getFromNetwork_, where the lock is held and the key is there
unfoldable pub collect : Key → KvStore → Run (Await (Option Value) × KvStore)
unfolding reply_value
collect k s = do
  (found, cache) ← Map.remove (some k) s.msg_cache
  arr ← assert_array found
  guard (arr.len == 1) asserts
  (msg, left) ← Array.remove 0 arr
  val ← reply_value msg
  ok (done (some val), record s { msg_cache = cache; locked = false })

-- the loop of getFromNetwork_ with the lock held: wait() releases the lock, the return that is not
-- blocking keeps it
unfoldable pub check_cache : Key → Bool → KvStore → Run (Await (Option Value) × KvStore)
unfolding collect
check_cache k should_block s = do
  there ← Map.contains_key (some k) s.msg_cache
  elim there [
    | true ↦ collect k s
    | false ↦ if should_block then ok (waiting, unlock s) else ok (done none, s)
  ]

unfoldable pub request : Key → Bool → ℕ → Message
request k should_block id =
    if should_block then wait_and_get_msg k id k.home_node else get_data_msg k id k.home_node

-- getFromNetwork_ up to its return or its wait
unfoldable pub get_from_network : Key → Bool → KvStore → Run (Await (Option Value) × KvStore)
unfolding request lock check_cache
get_from_network k should_block s = do
  t ← lock (send (request k should_block s.store_id) s)
  check_cache k should_block t

-- after a notify_all: the waiting thread has the lock again and tests its condition
unfoldable pub resume : Key → KvStore → Run (Await (Option Value) × KvStore)
unfolding lock check_cache
resume k s = do t ← lock s; check_cache k true t

-- a local lookup that blocks polls until the value is there
abbrev pub poll : Bool → Option Value → Await (Option Value)
poll should_block (some v) = done (some v)
poll should_block none = if should_block then waiting else done none

unfoldable pub get_value : Key → Bool → KvStore → Run (Await (Option Value) × KvStore)
unfolding get_from_network
get_value k should_block s =
    if k.home_node == s.store_id
    then (do val ← StrMap.get (some k.k_str) s.kv_map; ok (poll should_block val, s))
    else get_from_network k should_block s

-- the value of a reply is cloned, which a null pointer does not survive
unfoldable pub send_reply : Key → ℕ → Await (Option Value) → KvStore → Run KvStore
send_reply k sender waiting s = fault diverges
send_reply k sender (done none) s = fault undefined
send_reply k sender (done (some v)) s = ok (send (reply_data_msg k v s.store_id sender) s)

-- the loop of tryToHandleCache_ from message `i` on, with `n` rounds left
unfoldable pub reply_loop : ℕ → ℕ → Key → Array Message → KvStore → Run KvStore
unfolding waiter get_value send_reply
reply_loop zero i k arr s = ok s
reply_loop (suc n) i k arr s = do
  msg ← Array.get i arr
  sender ← waiter msg
  (val, t) ← get_value k false s
  u ← send_reply k sender val t
  reply_loop n (i + 1) k arr u

unfoldable pub answer : Key → KvStore → Run KvStore
unfolding reply_loop
answer k s = do
  (found, cache) ← Map.remove (some k) s.msg_cache
  arr ← assert_array found
  reply_loop arr.len 0 k arr (record s { msg_cache = cache })

unfoldable pub try_to_handle_cache : Key → KvStore → Run KvStore
unfolding lock answer
try_to_handle_cache k s = do
  t ← lock s
  there ← Map.contains_key (some k) t.msg_cache
  u ← elim there [ true ↦ answer k t | false ↦ ok t ]
  ok (unlock u)

unfoldable pub put : Key → Value → KvStore → Run KvStore
unfolding try_to_handle_cache
put k v s =
    if not (k.home_node == s.store_id) then ok (send (put_msg k v s.store_id k.home_node) s) else do
      (old, m) ← StrMap.put (some k.k_str) (some v) s.kv_map
      try_to_handle_cache k (record s { kv_map = m })

-- The array of messages under the key is changed in place, or made anew.
unfoldable pub cached_array : Key → KvStore → Run (Array Message)
cached_array k s = do
  there ← Map.contains_key (some k) s.msg_cache
  elim there [
    | true ↦ do found ← Map.get (some k) s.msg_cache; assert_array found
    | false ↦ ok (Array.new 2)
  ]

unfoldable pub add_to_cache : Key → Message → KvStore → Run KvStore
unfolding lock cached_array
add_to_cache k msg s = do
  t ← lock s
  arr ← cached_array k t
  longer ← Array.add msg arr
  (old, cache) ← Map.put (some k) (some longer) t.msg_cache
  ok (unlock (record t { msg_cache = cache }))

-- addMsgWaitingOn and addReply take the key out of the message
unfoldable pub add_msg_waiting_on : Key → Message → KvStore → Run KvStore
unfolding add_to_cache
add_msg_waiting_on k msg s = add_to_cache k msg s

unfoldable pub add_reply : Key → Message → KvStore → Run KvStore
unfolding add_to_cache
add_reply k msg s = add_to_cache k msg s
