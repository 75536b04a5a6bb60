-- ===== src/Network/Pseudo.antt =====
-- src/network/pseudo: messagequeue.h, messagequeuearray.h and pseudonetwork.h, a network of queues
-- that all nodes of one process share. `arr` holds pointers, so a queue is changed in its cell.
pub mod Laws
use swdev_proj.Prelude.{
  ℕ, zero, suc, ◌+◌, List, [], ◌∷◌, Option, none, some, ltb, ◌==◌, if◌then◌else◌, set, Run, ok,
  fault, asserts, undefined, guard, ◌>>=◌, ◌>>◌,
}
use swdev_proj.Utils.Queue
use swdev_proj.Utils.Queue.{Queue}
use swdev_proj.Utils.Array
use swdev_proj.Utils.Array.{Array}
use swdev_proj.Network.Message.{Message}
use swdev_proj.Network.Await.{Await, waiting, done}

pub record MessageQueue : Type 0 where
  pub messages : Queue Message

unfoldable pub new_queue : MessageQueue
new_queue = record { messages = Queue.new }

unfoldable pub push : Message → MessageQueue → Run MessageQueue
push m q = do r ← Queue.push (some m) q.messages; ok (record { messages = r })

-- The loop around wait() ends as soon as there is a message.
unfoldable pub pop : MessageQueue → Run (Await (Option Message) × MessageQueue)
pop q =
    if q.messages.len == 0
    then ok (waiting, q)
    else do (m, r) ← Queue.pop q.messages; ok (done m, record { messages = r })

unfoldable pub size : MessageQueue → ℕ
size q = q.messages.len

pub record MsgQueueArr : Type 0 where
  pub arr : Array MessageQueue

-- the loop of the constructor
unfoldable pub add_queues : ℕ → Array MessageQueue → Run (Array MessageQueue)
unfolding new_queue
add_queues zero a = ok a
add_queues (suc n) a = Array.add new_queue a >>= add_queues n

unfoldable pub new : ℕ → Run MsgQueueArr
unfolding add_queues
new num_nodes = do a ← add_queues num_nodes (Array.new 2); ok (record { arr = a })

unfoldable pub get : ℕ → MsgQueueArr → Run MessageQueue
get idx a = guard (ltb idx a.arr.len) asserts >> Array.get idx a.arr

-- The object that the cell points to is changed.
unfoldable pub put_back : ℕ → MessageQueue → MsgQueueArr → MsgQueueArr
put_back idx q a = record { arr = record a.arr { obj_list = set a.arr.obj_list idx (some q) } }

-- PseudoNetwork::sendMsg
unfoldable pub send_msg : Message → MsgQueueArr → Run MsgQueueArr
unfolding get push put_back
send_msg m a = do q ← get m.target a; r ← push m q; ok (put_back m.target r a)

-- PseudoNetwork::receiveMsg of the node `id`
unfoldable pub receive_msg : ℕ → MsgQueueArr → Run (Await (Option Message) × MsgQueueArr)
unfolding get pop put_back
receive_msg id a = do q ← get id a; (m, r) ← pop q; ok (m, put_back id r a)
