-- ===== src/Store/KvStore/Twice.antt =====
-- getFromNetwork_ of store/kvstore.h when a key has been answered more than once.
use swdev_proj.Prelude.{
  ◌≡◌, ◌≢◌, sym, ap, ◌∙◌, refl, List, [], ◌∷◌, ◌++◌, length, length-append, some, true, arith, ok,
  fault, asserts,
}
use swdev_proj.Utils.Str.{IsWell}
use swdev_proj.Utils.Map.Buckets.{view}
use swdev_proj.Store.Key.{Key, key_hashed, key_refl}
use swdev_proj.Store.Value.{Value}
use swdev_proj.Network.Message.{Message, reply_data_msg}
use swdev_proj.Store.KvStore.{KvStore, add_reply, resume, lock}
use swdev_proj.Store.KvStore.Invariant.{IsRemote, IsSound}
use swdev_proj.Store.KvStore.Cache.{add_to_cache-Cached, Cached-IsSound}
use swdev_proj.Store.KvStore.Put.{Pending-some}
use swdev_proj.Store.KvStore.Fetch.{check_many, reply_MayCache}

at_least_two : (ys : List Message) (m n : Message) → length ((ys ++ m ∷ []) ++ n ∷ []) ≢ 1
at_least_two ys m n e =
    omega (arith, length-append (ys ++ m ∷ []) (n ∷ []), length-append ys (m ∷ []))

-- On a sound store, two replies about one well-formed key of another node that come in before the
-- waiting thread wakes up are both taken in, and the thread then fails its assertion that there is
-- one.
pub two_replies :
    (k : Key) (v u : Value) (s : KvStore)
    → IsSound s
    → IsRemote s k
    → IsWell k.k_str
    → (s₁ s₂ : KvStore) × (add_reply k (reply_data_msg k v k.home_node s.store_id) s ≡ ok s₁)
      × (add_reply k (reply_data_msg k u k.home_node s.store_id) s₁ ≡ ok s₂)
      × (resume k s₂ ≡ fault asserts)
unfolding add_reply resume lock
two_replies k v u s sound l w =
    let m = reply_data_msg k v k.home_node s.store_id in
    let n = reply_data_msg k u k.home_node s.store_id in
    let (s₁, run, c) = add_to_cache-Cached s k m sound in
    let sound₁ = Cached-IsSound s k m s₁ sound w (reply_MayCache k v s m l refl) c in
    let (s₂, run', d) = add_to_cache-Cached s₁ k n sound₁ in
    let here : view s₁.msg_cache k ≡ some c.arr = c.cached k ∙ rw (key_refl k) refl in
    let there : view s₂.msg_cache k ≡ some d.arr = d.cached k ∙ rw (key_refl k) refl in
    let before = Pending-some s₁ k c.arr (c.before ++ m ∷ []) d.before here c.rep d.pending in
    let two : length (d.before ++ n ∷ []) ≢ 1 = λ e.
      at_least_two c.before m n
        (ap (λ (ms : List Message). length (ms ++ n ∷ [])) (sym before) ∙ e) in
    (
      s₁,
      s₂,
      run,
      run',
      rw d.unlocked (
          check_many k true (record s₂ { locked = true }) d.cache d.arr there (d.before ++ n ∷ [])
            d.rep two),
    )
