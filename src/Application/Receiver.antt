-- ===== src/Application/Receiver.antt =====
-- The class ReceiverThread of application/thread/receiverthread.h. What the store and the
-- thread send goes through the one network of the node, so it is one list, `sent` of the store.
pub mod Handle
pub mod Loop
pub mod Order
use swdev_proj.Prelude.{
  ℕ, List, [], ◌∷◌, ◌++◌, Option, none, some, Bool, true, false, ◌==◌, if◌then◌else◌, Run, ok,
  fault, undefined, diverges, asserts, guard, ◌>>=◌, ◌>>◌,
}
use swdev_proj.Serial.Kind.{MsgKind}
use swdev_proj.Store.Key.{Key}
use swdev_proj.Store.Value.{Value}
use swdev_proj.Store.KvStore
use swdev_proj.Store.KvStore.{KvStore, send}
use swdev_proj.Network.Await.{Await, waiting, done}
use swdev_proj.Network.Message.{
  Message, Body, get_data_body, wait_and_get_body, put_body, reply_data_body, reply_data_msg,
}
use swdev_proj.Network.Members.{INetwork}

pub record Receiver (N : Type 0) : Type 0 where
  pub node_num : ℕ
  pub kv : KvStore
  pub net : N

-- The constructor of ReplyDataMsg clones the value, which may not be null.
unfoldable pub reply_to : Key → ℕ → ℕ → Await (Option Value) → KvStore → Run KvStore
reply_to k node_num sender waiting s = fault diverges
reply_to k node_num sender (done none) s = fault undefined
reply_to k node_num sender (done (some v)) s = ok (send (reply_data_msg k v node_num sender) s)

-- case GetData
unfoldable pub on_get_data : ℕ → Message → KvStore → Run KvStore
unfolding reply_to
on_get_data node_num m s = elim m.body [
  | get_data_body k ↦ KvStore.get_value k false s >>= λ r. reply_to k node_num m.sender r.0 r.1
  | _ ↦ fault undefined
]

-- the second half of case WaitAndGet
unfoldable pub reply_or_wait : Key → ℕ → Message → Await (Option Value) → KvStore → Run KvStore
reply_or_wait k node_num m waiting s = fault diverges
reply_or_wait k node_num m (done none) s = KvStore.add_msg_waiting_on k m s
reply_or_wait k node_num m (done (some v)) s = ok (send (reply_data_msg k v node_num m.sender) s)

-- case WaitAndGet
unfoldable pub on_wait_and_get : ℕ → Message → KvStore → Run KvStore
unfolding reply_or_wait
on_wait_and_get node_num m s = elim m.body [
  | wait_and_get_body k ↦ KvStore.get_value k false s >>= λ r. reply_or_wait k node_num m r.0 r.1
  | _ ↦ fault undefined
]

-- case ReplyData
unfoldable pub on_reply_data : Message → KvStore → Run KvStore
on_reply_data m s = elim m.body [
  | reply_data_body k v ↦ KvStore.add_reply k m s
  | _ ↦ fault undefined
]

-- case Put
unfoldable pub on_put : ℕ → Message → KvStore → Run KvStore
on_put node_num m s = elim m.body [
  | put_body k v ↦ guard (k.home_node == node_num) asserts >> KvStore.put k v s
  | _ ↦ fault undefined
]

module _ {N : Type 0} (network : INetwork N) where
  abbrev with_store : Receiver N → Run KvStore → Run (Bool × Receiver N)
  with_store r run = do s ← run; ok (false, record r { kv = s })

  abbrev with_net : Receiver N → Run (List Message × N) → Run (Bool × Receiver N)
  with_net r run = do
    (out, n) ← run
    ok (false, record r { kv = record r.kv { sent = r.kv.sent ++ out }; net = n })

  -- the switch of run; the result says whether the thread is done
  unfoldable pub handle : Message → Receiver N → Run (Bool × Receiver N)
  unfolding on_get_data on_wait_and_get on_reply_data on_put
  handle m r = elim m.kind [
    | MsgKind.get_data ↦ with_store r (on_get_data r.node_num m r.kv)
    | MsgKind.wait_and_get ↦ with_store r (on_wait_and_get r.node_num m r.kv)
    | MsgKind.reply_data ↦ with_store r (on_reply_data m r.kv)
    | MsgKind.put ↦ with_store r (on_put r.node_num m r.kv)
    | MsgKind.register ↦ with_net r (network.handle_register m r.net)
    | MsgKind.dir ↦ with_net r (network.handle_directory m r.net)
    | MsgKind.done ↦ with_net r (network.handle_done m r.net)
    | MsgKind.teardown ↦ ok (true, r)
  ]

  -- run, on the messages in the order in which they arrive: whether the thread has ended, what it
  -- left unread, and the node; with no message left it waits
  unfoldable pub run : List Message → Receiver N → Run (Bool × List Message × Receiver N)
  unfolding handle
  run [] r = ok (false, [], r)
  run (m ∷ ms) r =
      handle m r >>= λ b. let rest = run ms b.1 in if b.0 then ok (true, ms, b.1) else rest
