-- ===== src/Dataframe/Cache/Fifo.antt =====
-- put and clear of dataframe/column/cache.h: the cache forgets its oldest key first.
use swdev_proj.Prelude.{
  ℕ, suc, ◌≤◌, ◌<◌, ◌≡◌, refl, ap, ◌∙◌, inl, inr, Bool-cases, List, [], ◌∷◌, ◌++◌, Option, none,
  some, true, false, leb, ◌==◌, if◌then◌else◌, arith, map, length-map, length, length-append, drop,
  fault, asserts, ◌>>=◌, Returns,
}
use swdev_proj.Utils.Hashed.{◌=ᵏ◌}
use swdev_proj.Utils.Map
use swdev_proj.Utils.Map.Chain.{is_some}
use swdev_proj.Utils.Map.Buckets.{view, new-IsValid, new-view}
use swdev_proj.Utils.Map.Laws.{put-Writes, put-size}
use swdev_proj.Utils.Queue.Laws.{push-IsQueue, clear-IsQueue}
use swdev_proj.Store.Key.{Key, key_hashed}
use swdev_proj.Dataframe.Cache.{Cache, is_full, add_block, put, clear}
use swdev_proj.Dataframe.Cache.Laws.{
  member, member_congr, IsCache, Evicted, some_there, none_there, evict_first, add_new,
}

-- The keys that are left when one more has to fit.
abbrev pub kept : ℕ → List Key → List Key
kept max ks = if leb max (length ks) then drop 1 ks else ks

module _ {B : Type 0} where
  -- What a put of a new key leaves, when the keys `left` of the cache have stayed.
  pub record Put (c : Cache B) (k : Key) (val : B) (left : List Key) (r : Cache B) : Type 0 where
    pub cache : IsCache r (left ++ k ∷ [])
    pub same_max : r.max_size ≡ c.max_size
    pub reads :
        (q : Key)
        → view r.blocks q
          ≡ (if k =ᵏ q then some val else if member q left then view c.blocks q else none)

  reads_held :
      (c : Cache B) (ks : List Key) (q : Key)
      → IsCache c ks
      → view c.blocks q ≡ (if member q ks then view c.blocks q else none)
  reads_held c ks q v = elim (Bool-cases (member q ks)) [
    | inl e ↦ rw e refl
    | inr e ↦ rw e (none_there (view c.blocks q) (v.holds q ∙ e))
  ]

  reads_left :
      (c : Cache B) (x : Key) (ks : List Key) (r : Option Key × Cache B) (q : Key)
      → member x ks ≡ false
      → Evicted c x ks r
      → view r.1.blocks q ≡ (if member q ks then view c.blocks q else none)
  reads_left c x ks r q gone d = elim (Bool-cases (member q ks)) [
    | inl e ↦
        let other : (x =ᵏ q) ≡ false = elim (Bool-cases (x =ᵏ q)) [
          | inl same ↦ let moved = member_congr x q ks same in cc
          | inr f ↦ f
        ] in
        rw e (d.reads q ∙ rw other refl)
    | inr e ↦ rw e (none_there (view r.1.blocks q) (d.cache.holds q ∙ e))
  ]

  put_room :
      (c : Cache B) (k : Key) (val : B) (ks : List Key)
      → IsCache c ks
      → member k ks ≡ false
      → length ks < c.max_size
      → Returns (put k val c) (Put c k val ks)
  unfolding put is_full
  put_room c k val ks v e room =
      let open_still : leb c.max_size c.blocks.size ≡ false = ground (arith, v.counted) in
      let (s, run, a) = add_new c k val ks v e room in
      (
        s,
        rw (open_still, ◌>>=◌) run,
        record {
          cache = a.cache;
          same_max = a.same_max;
          reads = λ q.
              a.reads q
              ∙ ap (λ (o : Option B). if k =ᵏ q then some val else o) (reads_held c ks q v);
        },
      )

  put_full :
      (c : Cache B) (k x : Key) (val : B) (ks : List Key)
      → IsCache c (x ∷ ks)
      → member k ks ≡ false
      → c.max_size ≤ suc (length ks)
      → Returns (put k val c) (Put c k val ks)
  unfolding put is_full
  put_full c k x val ks v e full =
      let is_full : leb c.max_size c.blocks.size ≡ true = ground (arith, v.counted) in
      let (r, run, d) = evict_first c x ks v in
      let room : length ks < r.1.max_size = omega (arith, v.bounded, d.same_max) in
      let (s, run', a) = add_new r.1 k val ks d.cache e room in
      (
        s,
        rw (is_full, run, ◌>>=◌) run',
        record {
          cache = a.cache;
          same_max = a.same_max ∙ d.same_max;
          reads = λ q.
              a.reads q
              ∙ ap (λ (o : Option B). if k =ᵏ q then some val else o)
                  (reads_left c x ks r q v.distinct.0 d);
        },
      )

  -- put of a key that a valid cache does not hold returns, forgets the oldest key and its block if
  -- the cache was full, and none otherwise, and reads as the new block under the new key and as
  -- before under every key left.
  pub put-Put :
      (c : Cache B) (k : Key) (val : B) (ks : List Key)
      → IsCache c ks
      → member k ks ≡ false
      → Returns (put k val c) (Put c k val (kept c.max_size ks))
  put-Put c k val ks v e = elim (Bool-cases (leb c.max_size (length ks))) [
    | inr room ↦ rw room (put_room c k val ks v e (ground arith))
    | inl full ↦ rw full (oldest ks v e (ground arith))
  ]
    where
      oldest :
          (ks : List Key)
          → IsCache c ks
          → member k ks ≡ false
          → c.max_size ≤ length ks
          → Returns (put k val c) (Put c k val (drop 1 ks))
      oldest [] v e full = absurd (omega (arith, v.positive))
      oldest (x ∷ ks) v e full = put_full c k x val ks v (ground arith) full

  -- put of a key that a cache with room holds already fails its assertion.
  pub put_again :
      (c : Cache B) (k : Key) (val : B) (ks : List Key)
      → IsCache c ks
      → member k ks ≡ true
      → length ks < c.max_size
      → put k val c ≡ fault asserts
  unfolding put is_full add_block
  put_again c k val ks v e room =
      let open_still : leb c.max_size c.blocks.size ≡ false = ground (arith, v.counted) in
      let (b, there) = some_there (view c.blocks k) (v.holds k ∙ e) in
      let ((old, m), run, w) = put-Writes c.blocks k v.valid tt val in
      let size : m.size ≡ c.blocks.size =
        put-size c.blocks k v.valid tt val (old, m) run ∙ rw there refl in
      let (q, run', order) = push-IsQueue c.key_order (some k) (map some ks) v.order in
      let total = length-append (map some ks) (some k ∷ []) in
      let differ : m.size == q.len ≡ false =
        ground (arith, order.counted, size, v.counted, length-map some ks, total) in
      rw (open_still, ◌>>=◌, run, run', differ) refl

  clear-IsCache :
      (c : Cache B) (ks : List Key) → IsCache c ks → Returns (clear c) (λ r. IsCache r [])
  unfolding clear Map.clear
  clear-IsCache c ks v =
      let (q, run, order) = clear-IsQueue c.key_order (map some ks) v.order in
      (
        record c { blocks = Map.new 4; key_order = q },
        rw run refl,
        record {
          valid = new-IsValid 4 (omega arith);
          order = order;
          counted = unfold Map.new in refl;
          holds = λ q. ap is_some (new-view {V = B} 4 q);
          distinct = tt;
          positive = v.positive;
          bounded = omega arith;
        },
      )
