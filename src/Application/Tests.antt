-- ===== src/Application/Tests.antt =====
-- The theorems on src/application at a concrete node.
use swdev_proj.Prelude.{◌≡◌, refl, [], ◌∷◌, ◌++◌, none, some, false, ok, Returns}
use swdev_proj.Utils.Map.Buckets.{view}
use swdev_proj.Utils.StrMap.{str_hashed}
use swdev_proj.Utils.Array.{Array}
use swdev_proj.Utils.Array.Laws.{Represents}
use swdev_proj.Store.Key.{key_hashed}
use swdev_proj.Store.KvStore
use swdev_proj.Store.KvStore.{KvStore}
use swdev_proj.Store.KvStore.Invariant.{IsSound}
use swdev_proj.Network.Await.{done}
use swdev_proj.Network.Message.{Message, wait_and_get_msg, put_msg, reply_data_msg}
use swdev_proj.Network.Members.{PseudoNetwork, new_pseudo, pseudo_network}
use swdev_proj.Application.Receiver.{Receiver, handle, run, reply_or_wait}
use swdev_proj.Application.Receiver.Handle.{expected_put, expected_wait, handle-IsSound}
use swdev_proj.Application.Receiver.Loop.{Served, served_all, served_next, run-IsSound}
use swdev_proj.Application.Receiver.Order.{either_order, lost_wakeup}
use swdev_proj.Samples.{
  text, text-IsWell, near, seven, store, store-IsSound, near-IsLocal, store_quiet, store_empty,
}

abbrev node : Receiver PseudoNetwork
node = record { node_num = 0; kv = store; net = new_pseudo 2 0 }

store_id_zero : node.node_num ≡ node.kv.store_id
unfolding KvStore.new
store_id_zero = refl

abbrev one_put : Message
one_put = put_msg near seven 1 0

abbrev one_wait : Message
one_wait = wait_and_get_msg near 1 0

one_wait-Served : Served pseudo_network node (one_wait ∷ [])
one_wait-Served =
    served_next node one_wait [] (expected_wait near 1 0 near-IsLocal text-IsWell)
      (λ s e. served_all s)

run-IsSound_example :
    Returns
      (run pseudo_network (one_wait ∷ []) node)
      (λ o. (o.0 ≡ false) × (o.1 ≡ []) × IsSound o.2.kv)
run-IsSound_example =
    run-IsSound pseudo_network node (one_wait ∷ []) one_wait-Served store-IsSound store_id_zero

handle-IsSound_example :
    Returns (handle pseudo_network one_put node) (λ b.
      (b.0 ≡ false) × IsSound b.1.kv × (b.1.node_num ≡ b.1.kv.store_id) × (b.1.net ≡ node.net))
handle-IsSound_example =
    handle-IsSound pseudo_network one_put node store-IsSound store_id_zero
      (expected_put near seven 1 0 near-IsLocal text-IsWell)

either_order_example :
    (r q : Receiver PseudoNetwork) × (run pseudo_network
        (one_wait ∷ one_put ∷ [])
        (record { node_num = store.store_id; kv = store; net = new_pseudo 2 0 })
      ≡ ok (false, [], r))
    × (run pseudo_network
          (one_put ∷ one_wait ∷ [])
          (record { node_num = store.store_id; kv = store; net = new_pseudo 2 0 })
        ≡ ok (false, [], q))
    × (r.kv.sent ≡ store.sent ++ reply_data_msg near seven store.store_id 1 ∷ [])
    × (q.kv.sent ≡ store.sent ++ reply_data_msg near seven store.store_id 1 ∷ [])
either_order_example =
    either_order near seven 1 0 store store-IsSound near-IsLocal text-IsWell (store_empty text)
      (store_quiet near) pseudo_network (new_pseudo 2 0)

lost_wakeup_example :
    (s₁ s₂ : KvStore) × (KvStore.get_value near false store ≡ ok (done none, store))
    × (KvStore.put near seven store ≡ ok s₁)
    × (reply_or_wait near store.store_id one_wait (done none) s₁ ≡ ok s₂)
    × (s₂.sent ≡ store.sent)
    × (view s₂.kv_map.helper text ≡ some seven)
    × ((arr : Array Message) × (view s₂.msg_cache near ≡ some arr) × Represents arr (one_wait ∷ []))
lost_wakeup_example =
    lost_wakeup near seven 1 0 store store-IsSound near-IsLocal text-IsWell (store_empty text)
      (store_quiet near)
