-- ===== src/Dataframe/Distributed/Laws.antt =====
-- DistributedArray of dataframe/column/distributedarray.h gives back what was stored.
use swdev_proj.Prelude.{
  ℕ, ◌≤◌, ◌<◌, ◌≡◌, refl, sym, ap, subst, ◌∙◌, List, [], ◌∷◌, ◌++◌, Option, none, some,
  if◌then◌else◌, true, false, leb, arith, length, length-take, take, take_all, All, Run, ok, ◌>>=◌,
  Returns,
}
use swdev_proj.Serial.{Serializer, of_buffer}
use swdev_proj.Serial
use swdev_proj.Serial.Write.{Appends}
use swdev_proj.Serial.Wire
use swdev_proj.Serial.Wire.{reread, new-IsReady}
use swdev_proj.Serial.Wire.Scalars.{SizeT}
use swdev_proj.Utils.Str.{IsWell}
use swdev_proj.Utils.Str.Equality.{equals_refl}
use swdev_proj.Utils.Hashed.{◌=ᵏ◌}
use swdev_proj.Utils.Map.Chain.{is_some}
use swdev_proj.Utils.Map.Buckets.{view}
use swdev_proj.Utils.Map.Laws.{get-view, contains-view}
use swdev_proj.Utils.StrMap.{str_hashed}
use swdev_proj.Utils.Array.Laws.{Represents}
use swdev_proj.Utils.Array.Change.{add-Represents}
use swdev_proj.Store.Key.{Key, key_hashed, key_refl}
use swdev_proj.Store.Value
use swdev_proj.Store.Value.{Value}
use swdev_proj.Store.KvStore
use swdev_proj.Store.KvStore.{KvStore, poll}
use swdev_proj.Store.KvStore.Invariant.{IsLocal, IsSound}
use swdev_proj.Store.KvStore.Put.{put_local, Stored-IsSound}
use swdev_proj.Store.KvStore.Fetch.{get_value-local}
use swdev_proj.Network.Await.{Await, done}
use swdev_proj.Dataframe.KeyArr
use swdev_proj.Dataframe.Cache
use swdev_proj.Dataframe.Cache.{Cache}
use swdev_proj.Dataframe.Cache.Laws.{IsCache, member}
use swdev_proj.Dataframe.Cache.Fifo.{kept, put-Put}
use swdev_proj.Dataframe.Block.{Block, serialize}
use swdev_proj.Dataframe.Block.Laws.{Holds, fits, get-Holds}
use swdev_proj.Dataframe.Block.Wire.{
  bytes, loaded, loaded-Holds, serialize-Appends, deserialize-Took,
}
use swdev_proj.Dataframe.Distributed.{
  DistributedArray, add_block_to_store, add_key, block_of, with_value, get_item,
}

of_buffer-take :
    (n : ℕ) (mem : List ℕ) → n ≤ length mem → of_buffer n (take n mem) ≡ of_buffer n mem
unfolding of_buffer
of_buffer-take n mem l =
    let short : leb n (length (take n mem)) ≡ true = ground (arith, length-take n mem) in
    let long : leb n (length mem) ≡ true = ground arith in
    rw (short, long, take_all n (take n mem) (omega (arith, length-take n mem))) refl

-- What a Value takes over from a Serializer.
abbrev pub value_of : Serializer → Value
value_of s = record { val = take s.num_bytes_written s.buffer; capacity = s.num_bytes_written }

pub value_of-ok :
    (s : Serializer)
    → s.num_bytes_written ≤ length s.buffer
    → Value.of_data s.buffer s.num_bytes_written ≡ ok (value_of s)
unfolding Value.of_data
value_of-ok s l = ground arith

module _ {A : Type 0} (take_one : Serializer → Run (A × Serializer)) (initial : A) where
  -- An item of a block that a valid cache holds under the key is read from there; neither the
  -- array nor the store changes.
  pub get_item-cached :
      (k : Key) (d : DistributedArray A) (ks : List Key) (b : Block A) (xs ys zs : List A) (x : A)
      (i : ℕ) (store : KvStore)
      → IsCache d.cache ks
      → view d.cache.blocks k ≡ some b
      → Holds b xs
      → xs ≡ ys ++ x ∷ zs
      → i ≡ length ys
      → get_item take_one initial k i d store ≡ ok (done x, d, store)
  unfolding get_item Cache.contains_key Cache.get_block
  get_item-cached k d ks b xs ys zs x i store v there h e a =
      rw (contains-view d.cache.blocks k v.valid, ◌>>=◌, there, get-view d.cache.blocks k v.valid)
        (rw (there, ◌>>=◌, get-Holds b h ys zs x i e a) refl)

module _ {A : Type 0} {put : A → Serializer → Run Serializer}
    {take_one : Serializer → Run (A × Serializer)} {Valid : A → Type 0}
    (wire : Wire.Wire put take_one Valid) (initial : A) where
  block_of-value :
      (c : ℕ) (xs : List A) (u : Serializer)
      → length xs ≤ c
      → SizeT c
      → All Valid xs
      → Appends (bytes wire c xs) Serial.new u
      → block_of take_one initial (value_of u) ≡ ok (loaded wire initial c xs)
  unfolding block_of
  block_of-value c xs u l small v a =
      let (t, run, start) = reread (bytes wire c xs) u a in
      let (q, run', took) = deserialize-Took wire initial c xs [] t l small v start in
      rw (of_buffer-take u.num_bytes_written u.buffer a.ready.initialised, run, ◌>>=◌, run')
        (ap ok took.value)

  module _ (k : Key) (d : DistributedArray A) (ks : List Key) (xs ys zs : List A) (x : A) (i : ℕ)
      (e : xs ≡ ys ++ x ∷ zs) (a : i ≡ length ys) (v : IsCache d.cache ks) where
    -- The item was found in a block that came into the cache, and the store stays as it is.
    abbrev pub Found : ℕ → KvStore → Await A × DistributedArray A × KvStore → Type 0
    Found c store r =
        (r.0 ≡ done x)
        × IsCache r.1.cache (kept d.cache.max_size ks ++ k ∷ [])
        × ((q : Key)
            → view r.1.cache.blocks q ≡ (
                if k =ᵏ q
                then some (loaded wire initial c xs)
                else if member q (kept d.cache.max_size ks)
                then view d.cache.blocks q
                else none))
        × (r.2 ≡ store)
        × (r.1.keys ≡ d.keys)

    -- What a getter does with the bytes of a block that the cache does not hold.
    pub with_value-Found :
        (c : ℕ) (u : Serializer) (store : KvStore)
        → member k ks ≡ false
        → length xs ≤ c
        → SizeT c
        → All Valid xs
        → Appends (bytes wire c xs) Serial.new u
        → Returns
            (with_value take_one initial k i d (done (some (value_of u)), store))
            (Found c store)
    unfolding with_value Cache.get_block
    with_value-Found c u store absent few small valid ap' =
        let b = loaded wire initial c xs in
        let (cache, run, p) = put-Put d.cache k b ks v absent in
        let here : view cache.blocks k ≡ some b = p.reads k ∙ rw (key_refl k) refl in
        let item = get-Holds b (loaded-Holds wire initial c xs few) ys zs x i e a in
        (
          (done x, record d { cache = cache }, store),
          rw
              (
                block_of-value c xs u few small valid ap',
                ◌>>=◌,
                run,
                get-view cache.blocks k p.cache.valid,
              )
              (rw (here, ◌>>=◌, item) refl),
          (refl, p.cache, p.reads, refl, refl),
        )

    -- The cache does not hold the block: the store is asked.
    pub get_item-asks :
        (store : KvStore)
        → member k ks ≡ false
        → get_item take_one initial k i d store
          ≡ (KvStore.get_value k true store >>= with_value take_one initial k i d)
    unfolding get_item Cache.contains_key
    get_item-asks store absent =
        let missing : is_some (view d.cache.blocks k) ≡ false = v.holds k ∙ absent in
        rw (contains-view d.cache.blocks k v.valid, ◌>>=◌, missing) refl

    -- An item of a block whose bytes stand in the store under a key of this node: the block is read
    -- from there and comes into the cache, and the store stays as it is.
    pub get_item-stored :
        (c : ℕ) (u : Serializer) (store : KvStore)
        → member k ks ≡ false
        → IsSound store
        → IsLocal store k
        → view store.kv_map.helper k.k_str ≡ some (value_of u)
        → length xs ≤ c
        → SizeT c
        → All Valid xs
        → Appends (bytes wire c xs) Serial.new u
        → Returns (get_item take_one initial k i d store) (Found c store)
    get_item-stored c u store absent sound l there few small valid ap' =
        let got : KvStore.get_value k true store ≡ ok (done (some (value_of u)), store) =
          get_value-local k true store sound l
          ∙ ap (λ (o : Option Value). ok (poll true o, store)) there in
        let (r, run, q) = with_value-Found c u store absent few small valid ap' in
        (r, get_item-asks store absent ∙ rw (got, ◌>>=◌) run, q)

  -- On a sound store and an array with a valid cache and key list, a block whose items can be sent
  -- is serialized and stored under a well-formed key of this node that the cache does not hold;
  -- reading any item of it then returns that item, the cache holds the key as its newest, the
  -- array has the key behind those it had, and the store is sound.
  pub store-get_item :
      (k : Key) (d : DistributedArray A) (ks held : List Key) (b : Block A) (xs ys zs : List A)
      (x : A) (i : ℕ) (store : KvStore)
      → Holds b xs
      → SizeT b.capacity
      → All Valid xs
      → xs ≡ ys ++ x ∷ zs
      → i ≡ length ys
      → IsCache d.cache ks
      → member k ks ≡ false
      → Represents d.keys.key_list held
      → 0 < d.keys.key_list.capacity
      → IsSound store
      → IsLocal store k
      → IsWell k.k_str
      → Returns
          (serialize put b Serial.new >>= λ u.
            add_block_to_store u k d store >>= λ r. get_item take_one initial k i r.0 r.1)
          (λ r.
            (r.0 ≡ done x)
            × IsCache r.1.cache (kept d.cache.max_size ks ++ k ∷ [])
            × Represents r.1.keys.key_list (held ++ k ∷ [])
            × IsSound r.2)
  unfolding add_block_to_store add_key KeyArr.add
  store-get_item k d ks held b xs ys zs x i store h small valid e a v absent rep room sound l w =
      let few : length xs ≤ b.capacity = omega (arith, fits b h, h.counted) in
      let (u, run, app) =
        serialize-Appends wire b xs Serial.new h small (omega arith) valid new-IsReady in
      let (t, run', (msgs, pending, s)) = put_local store k (value_of u) sound l w in
      let sound' = Stored-IsSound store k (value_of u) msgs t sound l s in
      let there : view t.kv_map.helper k.k_str ≡ some (value_of u) =
        s.reads k.k_str w ∙ rw (equals_refl k.k_str) refl in
      let (longer, run'', (rep', room')) = add-Represents d.keys.key_list k rep room in
      let next : DistributedArray A = record d { keys = record { key_list = longer } } in
      let (r, got, q) =
        get_item-stored k next ks xs ys zs x i e a v b.capacity u t absent sound' (rw s.same_id l)
          there few small valid app in
      (
        r,
        rw (run, ◌>>=◌, value_of-ok u app.ready.initialised, run', run'') got,
        (
          q.0,
          q.1,
          subst (λ a. Represents a.key_list (held ++ k ∷ [])) (sym q.4) rep',
          subst IsSound (sym q.3) sound',
        ),
      )
