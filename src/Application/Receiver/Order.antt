-- ===== src/Application/Receiver/Order.antt =====
-- The orders in which a request of the receiver thread of application/thread/receiverthread.h and
-- a put of the same key may come.
use swdev_proj.Prelude.{
  ℕ, ◌≡◌, refl, ap, subst, ◌∙◌, List, [], ◌∷◌, ◌++◌, append-nil, none, some, false, ok, ◌>>=◌,
}
use swdev_proj.Utils.Str.{IsWell}
use swdev_proj.Utils.Str.Equality.{equals_refl}
use swdev_proj.Utils.Map.Buckets.{view}
use swdev_proj.Utils.StrMap.{str_hashed}
use swdev_proj.Utils.Array.{Array}
use swdev_proj.Utils.Array.Laws.{Represents}
use swdev_proj.Store.Key.{Key, key_hashed, key_refl}
use swdev_proj.Store.Value.{Value}
use swdev_proj.Store.KvStore
use swdev_proj.Store.KvStore.{KvStore}
use swdev_proj.Store.KvStore.Invariant.{IsLocal, IsSound}
use swdev_proj.Store.KvStore.Put.{Stored-IsSound, put_local, Pending-none, Pending-some}
use swdev_proj.Store.KvStore.Replies.{replies}
use swdev_proj.Store.KvStore.Cache.{add_to_cache-Cached, Cached-IsSound}
use swdev_proj.Store.KvStore.Fetch.{get_value-local}
use swdev_proj.Network.Await.{done}
use swdev_proj.Network.Message.{Message, wait_and_get_msg, put_msg, reply_data_msg}
use swdev_proj.Network.Members.{INetwork}
use swdev_proj.Application.Receiver.{Receiver, handle, run, on_put, on_wait_and_get, reply_or_wait}
use swdev_proj.Application.Receiver.Handle.{wait_missing, wait_there, wait_MayCache}

module _ (k : Key) (v : Value) (sender target : ℕ) (s : KvStore) (sound : IsSound s)
    (l : IsLocal s k) (w : IsWell k.k_str) (missing : view s.kv_map.helper k.k_str ≡ none)
    (quiet : view s.msg_cache k ≡ none) where
  abbrev asks : Message
  asks = wait_and_get_msg k sender target

  abbrev answered : List Message
  answered = s.sent ++ reply_data_msg k v s.store_id sender ∷ []

  sent_one :
      (out before : List Message) (id : ℕ) (msgs : List Message)
      → out ≡ before ++ replies k v id msgs
      → before ≡ s.sent
      → id ≡ s.store_id
      → msgs ≡ asks ∷ []
      → out ≡ answered
  unfolding replies
  sent_one out before id msgs e b i m = e ∙ rw (b, i, m) refl

  sent_nothing :
      (out : List Message) (msgs : List Message)
      → out ≡ s.sent ++ replies k v s.store_id msgs
      → msgs ≡ []
      → out ≡ s.sent
  unfolding replies
  sent_nothing out msgs e m = e ∙ rw m (append-nil s.sent)

  wait_first :
      (s₁ s₂ : KvStore) × (on_wait_and_get s.store_id asks s ≡ ok s₁)
      × (KvStore.put k v s₁ ≡ ok s₂)
      × (s₂.sent ≡ answered)
  wait_first =
      let (s₁, run, c) = add_to_cache-Cached s k asks sound in
      let sound₁ =
        Cached-IsSound s k asks s₁ sound w (wait_MayCache s k sender target l missing) c in
      let (s₂, run', (msgs, pending, d)) = put_local s₁ k v sound₁ (rw c.same_id l) w in
      let there : view s₁.msg_cache k ≡ some c.arr = c.cached k ∙ rw (key_refl k) refl in
      let alone : c.before ++ asks ∷ [] ≡ asks ∷ [] =
        ap (λ (ms : List Message). ms ++ asks ∷ []) (Pending-none s k c.before quiet c.pending) in
      let found : msgs ≡ asks ∷ [] =
        Pending-some s₁ k c.arr (c.before ++ asks ∷ []) msgs there c.rep pending ∙ alone in
      (
        s₁,
        s₂,
        wait_missing s.store_id k sender target s sound l missing ∙ run,
        run',
        sent_one s₂.sent s₁.sent s₁.store_id msgs d.sent c.same_sent c.same_id found,
      )

  put_first :
      (s₁ s₂ : KvStore) × (KvStore.put k v s ≡ ok s₁)
      × (on_wait_and_get s.store_id asks s₁ ≡ ok s₂)
      × (s₂.sent ≡ answered)
  put_first =
      let (s₁, run, (msgs, pending, d)) = put_local s k v sound l w in
      let sound₁ = Stored-IsSound s k v msgs s₁ sound l d in
      let there : view s₁.kv_map.helper k.k_str ≡ some v =
        d.reads k.k_str w ∙ rw (equals_refl k.k_str) refl in
      (
        s₁,
        record s₁ { sent = s₁.sent ++ reply_data_msg k v s.store_id sender ∷ [] },
        run,
        wait_there s.store_id k v sender target s₁ sound₁ (rw d.same_id l) there,
        ap (λ (ms : List Message). ms ++ reply_data_msg k v s.store_id sender ∷ [])
            (sent_nothing s₁.sent msgs d.sent (Pending-none s k msgs quiet pending)),
      )

  -- On a sound store that has neither the value of a well-formed key of its own nor a request for
  -- it, the two threads of a node may interleave so: the receiver thread looks the key up and
  -- finds nothing, the application puts the value, the receiver thread adds the request to those
  -- that wait. Each call returns, but no reply is sent: the request waits for a value that is
  -- there.
  pub lost_wakeup :
      (s₁ s₂ : KvStore) × (KvStore.get_value k false s ≡ ok (done none, s))
      × (KvStore.put k v s ≡ ok s₁)
      × (reply_or_wait k s.store_id asks (done none) s₁ ≡ ok s₂)
      × (s₂.sent ≡ s.sent)
      × (view s₂.kv_map.helper k.k_str ≡ some v)
      × ((arr : Array Message) × (view s₂.msg_cache k ≡ some arr) × Represents arr (asks ∷ []))
  unfolding reply_or_wait KvStore.add_msg_waiting_on
  lost_wakeup =
      let (s₁, run, (msgs, pending, d)) = put_local s k v sound l w in
      let sound₁ = Stored-IsSound s k v msgs s₁ sound l d in
      let (s₂, run', c) = add_to_cache-Cached s₁ k asks sound₁ in
      let there : view s₁.kv_map.helper k.k_str ≡ some v =
        d.reads k.k_str w ∙ rw (equals_refl k.k_str) refl in
      let empty : view s₁.msg_cache k ≡ none = d.cached k ∙ rw (key_refl k) refl in
      let alone : Represents c.arr (asks ∷ []) =
        subst (λ ms. Represents c.arr (ms ++ asks ∷ []))
          (Pending-none s₁ k c.before empty c.pending) c.rep in
      (
        s₁,
        s₂,
        get_value-local k false s sound l ∙ rw missing refl,
        run,
        run',
        c.same_sent ∙ sent_nothing s₁.sent msgs d.sent (Pending-none s k msgs quiet pending),
        rw c.same_map there,
        (c.arr, c.cached k ∙ rw (key_refl k) refl, alone),
      )

  module _ {N : Type 0} (network : INetwork N) (net : N) where
    abbrev node : Receiver N
    node = record { node_num = s.store_id; kv = s; net = net }

    -- When a sound store has neither the value of a well-formed key of its own nor a request for
    -- it, then a request and a put of the key lead to the one reply, whichever of the two messages
    -- comes first.
    pub either_order :
        (r q : Receiver N) × (run network (asks ∷ put_msg k v sender target ∷ []) node
          ≡ ok (false, [], r))
        × (run network (put_msg k v sender target ∷ asks ∷ []) node ≡ ok (false, [], q))
        × (r.kv.sent ≡ answered)
        × (q.kv.sent ≡ answered)
    unfolding run handle on_put
    either_order =
        let (s₁, s₂, a, b, c) = wait_first in
        let (t₁, t₂, d, e, f) = put_first in
        (
          record { node_num = s.store_id; kv = s₂; net = net },
          record { node_num = s.store_id; kv = t₂; net = net },
          rw (a, ◌>>=◌, l, b) refl,
          rw (l, d, ◌>>=◌, e) refl,
          c,
          f,
        )
