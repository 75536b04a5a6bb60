-- ===== src/Application/Receiver/Handle.antt =====
-- What run of application/thread/receiverthread.h does with one message.
use swdev_proj.Prelude.{
  ℕ, ◌≡◌, refl, sym, ◌∙◌, inl, inr, Option-cases, none, some, Bool, true, false, ◌==◌, ok, fault,
  undefined, ◌>>=◌, Returns,
}
use swdev_proj.Utils.Str.{IsWell}
use swdev_proj.Utils.Map.Buckets.{view}
use swdev_proj.Utils.StrMap.{str_hashed}
use swdev_proj.Store.Key.{Key}
use swdev_proj.Store.Value.{Value}
use swdev_proj.Store.KvStore
use swdev_proj.Store.KvStore.{KvStore, send}
use swdev_proj.Store.KvStore.Invariant.{send-IsSound, IsLocal, IsRemote, IsSound}
use swdev_proj.Store.KvStore.Put.{put_local, Stored-IsSound}
use swdev_proj.Store.KvStore.Cache.{MayCache, add_to_cache-Cached, Cached-IsSound}
use swdev_proj.Store.KvStore.Fetch.{get_value-local, reply_MayCache}
use swdev_proj.Network.Message.{Message, get_data_msg, wait_and_get_msg, put_msg, reply_data_msg}
use swdev_proj.Network.Members.{INetwork}
use swdev_proj.Application.Receiver.{
  Receiver, handle, run, on_get_data, on_wait_and_get, on_reply_data, on_put, reply_to,
  reply_or_wait,
}

-- The messages that a node of the store may get from the others: a request or a value for a key of
-- its own, a request for the value of a key that is there, or a reply about another node's key.
pub data Expected (s : KvStore) : Message → Type 0 where
  expected_get :
      (k : Key) (v : Value) (sender target : ℕ)
      → IsLocal s k
      → view s.kv_map.helper k.k_str ≡ some v
      → Expected s (get_data_msg k sender target)
  expected_wait :
      (k : Key) (sender target : ℕ)
      → IsLocal s k
      → IsWell k.k_str
      → Expected s (wait_and_get_msg k sender target)
  expected_put :
      (k : Key) (v : Value) (sender target : ℕ)
      → IsLocal s k
      → IsWell k.k_str
      → Expected s (put_msg k v sender target)
  expected_reply :
      (k : Key) (v : Value) (sender target : ℕ)
      → IsRemote s k
      → IsWell k.k_str
      → Expected s (reply_data_msg k v sender target)

get_data-IsSound :
    (n : ℕ) (k : Key) (v : Value) (sender target : ℕ) (s : KvStore)
    → IsSound s
    → IsLocal s k
    → view s.kv_map.helper k.k_str ≡ some v
    → on_get_data n (get_data_msg k sender target) s ≡ ok (send (reply_data_msg k v n sender) s)
unfolding on_get_data reply_to
get_data-IsSound n k v sender target s sound l e = rw (get_value-local k false s sound l, e) refl

pub wait_MayCache :
    (s : KvStore) (k : Key) (sender target : ℕ)
    → IsLocal s k
    → view s.kv_map.helper k.k_str ≡ none
    → MayCache s k (wait_and_get_msg k sender target)
wait_MayCache s k sender target l e = record {
  waits = λ _. record { key = k; body = refl };
  missing = λ _. e;
  replies = λ m. cc;
}

pub wait_there :
    (n : ℕ) (k : Key) (v : Value) (sender target : ℕ) (s : KvStore)
    → IsSound s
    → IsLocal s k
    → view s.kv_map.helper k.k_str ≡ some v
    → on_wait_and_get n (wait_and_get_msg k sender target) s
      ≡ ok (send (reply_data_msg k v n sender) s)
unfolding on_wait_and_get reply_or_wait
wait_there n k v sender target s sound l e = rw (get_value-local k false s sound l, e) refl

pub wait_missing :
    (n : ℕ) (k : Key) (sender target : ℕ) (s : KvStore)
    → IsSound s
    → IsLocal s k
    → view s.kv_map.helper k.k_str ≡ none
    → on_wait_and_get n (wait_and_get_msg k sender target) s
      ≡ KvStore.add_to_cache k (wait_and_get_msg k sender target) s
unfolding on_wait_and_get reply_or_wait KvStore.add_msg_waiting_on
wait_missing n k sender target s sound l e = rw (get_value-local k false s sound l, e) refl

wait-IsSound :
    (n : ℕ) (k : Key) (sender target : ℕ) (s : KvStore)
    → IsSound s
    → IsLocal s k
    → IsWell k.k_str
    → Returns
        (on_wait_and_get n (wait_and_get_msg k sender target) s)
        (λ r. IsSound r × (r.store_id ≡ s.store_id))
wait-IsSound n k sender target s sound l w = elim (Option-cases (view s.kv_map.helper k.k_str)) [
  | inl e ↦
      let m = wait_and_get_msg k sender target in
      let (r, run, c) = add_to_cache-Cached s k m sound in
      (
        r,
        wait_missing n k sender target s sound l e ∙ run,
        (Cached-IsSound s k m r sound w (wait_MayCache s k sender target l e) c, c.same_id),
      )
  | inr (v, e) ↦
      let reply = reply_data_msg k v n sender in
      (send reply s, wait_there n k v sender target s sound l e, (send-IsSound s reply sound, refl))
]

reply-IsSound :
    (k : Key) (v : Value) (sender target : ℕ) (s : KvStore)
    → IsSound s
    → IsRemote s k
    → IsWell k.k_str
    → Returns
        (on_reply_data (reply_data_msg k v sender target) s)
        (λ r. IsSound r × (r.store_id ≡ s.store_id))
unfolding on_reply_data KvStore.add_reply
reply-IsSound k v sender target s sound l w =
    let m = reply_data_msg k v sender target in
    let (r, run, c) = add_to_cache-Cached s k m sound in
    (r, run, (Cached-IsSound s k m r sound w (reply_MayCache k v s m l refl) c, c.same_id))

on_put-IsSound :
    (k : Key) (v : Value) (s : KvStore)
    → IsSound s
    → IsLocal s k
    → IsWell k.k_str
    → Returns (KvStore.put k v s) (λ r. IsSound r × (r.store_id ≡ s.store_id))
on_put-IsSound k v s sound l w =
    let (r, run, (msgs, pending, d)) = put_local s k v sound l w in
    (r, run, (Stored-IsSound s k v msgs r sound l d, d.same_id))

module _ {N : Type 0} (network : INetwork N) where
  with_kv : Receiver N → KvStore → Bool × Receiver N
  with_kv r s = (false, record r { kv = s })

  -- Whatever expected message comes next, the receiver thread of a sound store with its node
  -- number handles it, goes on, leaves the store sound and the number alike, and does not touch
  -- the network's own state.
  pub handle-IsSound :
      (m : Message) (r : Receiver N)
      → IsSound r.kv
      → r.node_num ≡ r.kv.store_id
      → Expected r.kv m
      → Returns (handle network m r) (λ b.
        (b.0 ≡ false) × IsSound b.1.kv × (b.1.node_num ≡ b.1.kv.store_id) × (b.1.net ≡ r.net))
  unfolding handle with_kv
  handle-IsSound m r sound same (expected_get k v sender target l e) =
      let reply = reply_data_msg k v r.node_num sender in
      (
        with_kv r (send reply r.kv),
        rw (get_data-IsSound r.node_num k v sender target r.kv sound l e, ◌>>=◌) refl,
        (refl, send-IsSound r.kv reply sound, same, refl),
      )
  handle-IsSound m r sound same (expected_wait k sender target l w) =
      let (s, run, (sound', id)) = wait-IsSound r.node_num k sender target r.kv sound l w in
      (with_kv r s, rw (run, ◌>>=◌) refl, (refl, sound', same ∙ sym id, refl))
  handle-IsSound m r sound same (expected_put k v sender target l w) =
      let (s, run, (sound', id)) = on_put-IsSound k v r.kv sound l w in
      let home : k.home_node == r.node_num ≡ true = rw same l in
      (
        with_kv r s,
        unfold on_put in rw home (rw (run, ◌>>=◌) refl),
        (refl, sound', same ∙ sym id, refl),
      )
  handle-IsSound m r sound same (expected_reply k v sender target l w) =
      let (s, run, (sound', id)) = reply-IsSound k v sender target r.kv sound l w in
      (with_kv r s, rw (run, ◌>>=◌) refl, (refl, sound', same ∙ sym id, refl))

  -- On a sound store, a request that does not wait, for a key of this node whose value is not
  -- there, is answered by dereferencing a null pointer.
  pub get_data_missing :
      (k : Key) (sender target : ℕ) (r : Receiver N)
      → IsSound r.kv
      → IsLocal r.kv k
      → view r.kv.kv_map.helper k.k_str ≡ none
      → handle network (get_data_msg k sender target) r ≡ fault undefined
  unfolding handle on_get_data reply_to
  get_data_missing k sender target r sound l e = rw (get_value-local k false r.kv sound l, e) refl
