-- ===== src/Dataframe/Distributed/Remote.antt =====
-- A getter of dataframe/column/distributedarray.h whose block lives on another node.
use swdev_proj.Prelude.{
  ℕ, ◌≤◌, ◌≡◌, refl, sym, subst, ◌∙◌, List, [], ◌∷◌, ◌++◌, none, false, length, All, Run, ok, ◌>>=◌,
  Returns,
}
use swdev_proj.Serial
use swdev_proj.Serial.{Serializer}
use swdev_proj.Serial.Write.{Appends}
use swdev_proj.Serial.Wire
use swdev_proj.Serial.Wire.Scalars.{SizeT}
use swdev_proj.Utils.Str.{IsWell}
use swdev_proj.Utils.Map.Buckets.{view}
use swdev_proj.Store.Key.{Key, key_hashed}
use swdev_proj.Store.KvStore.{KvStore, add_reply, resume}
use swdev_proj.Store.KvStore.Invariant.{IsRemote, IsSound}
use swdev_proj.Store.KvStore.Fetch.{blocking_fetch}
use swdev_proj.Network.Await.{waiting, done}
use swdev_proj.Network.Message.{wait_and_get_msg, reply_data_msg}
use swdev_proj.Dataframe.Cache.Laws.{IsCache, member}
use swdev_proj.Dataframe.Cache.Fifo.{kept}
use swdev_proj.Dataframe.Block.Wire.{bytes}
use swdev_proj.Dataframe.Distributed.{DistributedArray, with_value, get_item}
use swdev_proj.Dataframe.Distributed.Laws.{value_of, with_value-Found, get_item-asks}

module _ {A : Type 0} {put : A → Serializer → Run Serializer}
    {take_one : Serializer → Run (A × Serializer)} {Valid : A → Type 0}
    (wire : Wire.Wire put take_one Valid) (initial : A) where
  -- A getter asks for a block that is neither in the cache nor of this node: on a sound store with no
  -- message under the key it sends one request to the block's node and waits, and the array stays as
  -- it is. When the reply with the bytes of a block of `xs` has come in, it gives the item of `xs` at
  -- the place, the cache then has the key as its newest, and the store is sound.
  pub fetch_remote :
      (k : Key) (d : DistributedArray A) (ks : List Key) (xs ys zs : List A) (x : A) (i c : ℕ)
      (u : Serializer) (store : KvStore)
      → xs ≡ ys ++ x ∷ zs
      → i ≡ length ys
      → IsCache d.cache ks
      → member k ks ≡ false
      → IsSound store
      → IsRemote store k
      → IsWell k.k_str
      → view store.msg_cache k ≡ none
      → length xs ≤ c
      → SizeT c
      → All Valid xs
      → Appends (bytes wire c xs) Serial.new u
      → (s₁ s₂ : KvStore) × (get_item take_one initial k i d store ≡ ok (waiting, d, s₁))
        × (s₁.sent ≡ store.sent ++ wait_and_get_msg k store.store_id k.home_node ∷ [])
        × (add_reply k (reply_data_msg k (value_of u) k.home_node store.store_id) s₁ ≡ ok s₂)
        × Returns (resume k s₂ >>= with_value take_one initial k i d) (λ r.
          (r.0 ≡ done x) × IsCache r.1.cache (kept d.cache.max_size ks ++ k ∷ []) × IsSound r.2)
  unfolding with_value
  fetch_remote k d ks xs ys zs x i c u store e a v absent sound far w quiet few small valid app =
      let (s₁, s₂, s₃, asked, sent, came, woke, gone, sound₃) =
        blocking_fetch k (value_of u) store sound far w quiet in
      let (r, run, (item, cache, reads, same, keys)) =
        with_value-Found wire initial k d ks xs ys zs x i e a v c u s₃ absent few small valid app in
      (
        s₁,
        s₂,
        get_item-asks wire initial k d ks xs ys zs x i e a v store absent ∙ rw (asked, ◌>>=◌) refl,
        sent,
        came,
        (r, rw (woke, ◌>>=◌) run, (item, cache, subst IsSound (sym same) sound₃)),
      )
