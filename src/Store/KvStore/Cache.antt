-- ===== src/Store/KvStore/Cache.antt =====
-- addToCache_ of store/kvstore.h, through which both addMsgWaitingOn and addReply go.
use swdev_proj.Prelude.{
  ◌<◌, ◌≡◌, inl, inr, refl, sym, subst, ◌∙◌, List, [], ◌∷◌, ◌++◌, none, some, true, false,
  if◌then◌else◌, arith, All, All-snoc, ◌>>=◌, Returns, Option-cases, Bool-cases,
}
use swdev_proj.Utils.Str
use swdev_proj.Utils.Str.{IsWell}
use swdev_proj.Utils.Hashed.{◌=ᵏ◌}
use swdev_proj.Utils.Map.Buckets.{view, IsValid, view_congr}
use swdev_proj.Utils.Map.Laws.{contains-view, get-view, put-Writes}
use swdev_proj.Utils.StrMap.{str_hashed}
use swdev_proj.Utils.Array
use swdev_proj.Utils.Array.{Array}
use swdev_proj.Utils.Array.Laws.{Represents, new-Represents}
use swdev_proj.Utils.Array.Change.{add-Represents}
use swdev_proj.Store.Key
use swdev_proj.Store.Key.{Key, key_hashed}
use swdev_proj.Network.Message.{Message}
use swdev_proj.Store.KvStore.{KvStore, lock, cached_array, add_to_cache}
use swdev_proj.Store.KvStore.Invariant.{
  IsWait, IsReply, IsLocal, IsRemote, Entry, IsSound, NoLostWait,
}
use swdev_proj.Store.KvStore.Put.{Pending}

-- What may be put into the cache under a key: a request for a value of this node that is not there,
-- or a reply about a key of another node.
pub record MayCache (s : KvStore) (k : Key) (msg : Message) : Type 0 where
  pub waits : IsLocal s k → IsWait msg
  pub missing : IsLocal s k → view s.kv_map.helper k.k_str ≡ none
  pub replies : IsRemote s k → IsReply msg

-- `r` is `s` with the message behind those that the cache held under the key.
pub record Cached (s : KvStore) (k : Key) (msg : Message) (r : KvStore) : Type 0 where
  pub before : List Message
  pub pending : Pending s k before
  pub waits : IsLocal s k → All IsWait before
  pub replies : IsRemote s k → All IsReply before
  pub arr : Array Message
  pub rep : Represents arr (before ++ msg ∷ [])
  pub room : 0 < arr.capacity
  pub cached : (q : Key) → view r.msg_cache q ≡ (if k =ᵏ q then some arr else view s.msg_cache q)
  pub same_map : r.kv_map ≡ s.kv_map
  pub same_id : r.store_id ≡ s.store_id
  pub same_sent : r.sent ≡ s.sent
  pub cache : IsValid r.msg_cache
  pub unlocked : r.locked ≡ false

-- The array that the message is added to.
record Found (s : KvStore) (k : Key) (arr : Array Message) : Type 0 where
  msgs : List Message
  rep : Represents arr msgs
  room : 0 < arr.capacity
  pending : Pending s k msgs
  waits : IsLocal s k → All IsWait msgs
  replies : IsRemote s k → All IsReply msgs

Found-array :
    (s : KvStore) (k : Key)
    → IsSound s
    → Returns (cached_array k (record s { locked = true })) (Found s k)
unfolding cached_array
Found-array s k sound = elim (Option-cases (view s.msg_cache k)) [
  | inl e ↦ (
    Array.new 2,
    rw (contains-view s.msg_cache k sound.cache, ◌>>=◌, e) refl,
    record {
      msgs = [];
      rep = new-Represents 2;
      room = unfold Array.new in omega arith;
      pending = inl (e, refl);
      waits = λ _. tt;
      replies = λ _. tt;
    },
  )
  | inr (arr, e) ↦
      let (msgs, entry) = sound.entries k arr e in
      (
        arr,
        rw (contains-view s.msg_cache k sound.cache, ◌>>=◌, e, get-view s.msg_cache k sound.cache)
            (rw e refl),
        record {
          msgs = msgs;
          rep = entry.rep;
          room = entry.room;
          pending = inr (arr, e, entry.rep);
          waits = entry.waits;
          replies = entry.replies;
        },
      )
]

-- On a sound store addToCache_ returns, puts the message behind the others under its key, and
-- changes neither another entry nor the values.
pub add_to_cache-Cached :
    (s : KvStore) (k : Key) (msg : Message)
    → IsSound s
    → Returns (add_to_cache k msg s) (Cached s k msg)
unfolding add_to_cache lock
add_to_cache-Cached s k msg sound =
    let (arr, run, f) = Found-array s k sound in
    let (longer, run', (rep, room)) = add-Represents arr msg f.rep f.room in
    let ((old, cache), run'', w) = put-Writes s.msg_cache k sound.cache tt longer in
    (
      record s { msg_cache = cache; locked = false },
      rw sound.unlocked (rw (run, ◌>>=◌, run', run'') refl),
      record {
        before = f.msgs;
        pending = f.pending;
        waits = f.waits;
        replies = f.replies;
        arr = longer;
        rep = rep;
        room = room;
        cached = λ q. w.reads q tt;
        same_map = refl;
        same_id = refl;
        same_sent = refl;
        cache = w.valid;
        unlocked = refl;
      },
    )

-- Equal keys have one home, and strings that a map does not tell apart.
same_home : (k q : Key) → (k =ᵏ q) ≡ true → k.home_node ≡ q.home_node
same_home k q e = unfold Key.equals in ground arith

same_str : (k q : Key) → (k =ᵏ q) ≡ true → Str.equals k.k_str q.k_str ≡ true
same_str k q e = unfold Key.equals in ground arith

module _ (s : KvStore) (k : Key) (msg : Message) (r : KvStore) (sound : IsSound s)
    (well : IsWell k.k_str) (may : MayCache s k msg) (c : Cached s k msg r) where
  IsLocal-back : (q : Key) → (k =ᵏ q) ≡ true → r.store_id ≡ s.store_id → IsLocal r q → IsLocal s k
  IsLocal-back q e h l = rw (same_home k q e, ← h) l

  IsRemote-back :
      (q : Key) → (k =ᵏ q) ≡ true → r.store_id ≡ s.store_id → IsRemote r q → IsRemote s k
  IsRemote-back q e h l = rw (same_home k q e, ← h) l

  Entry-here : (q : Key) → (k =ᵏ q) ≡ true → Entry r q c.arr (c.before ++ msg ∷ [])
  Entry-here q e = record {
    rep = c.rep;
    room = c.room;
    waits = λ l.
        let m = IsLocal-back q e c.same_id l in
        All-snoc IsWait c.before msg (c.waits m) (may.waits m);
    replies = λ l.
        let m = IsRemote-back q e c.same_id l in
        All-snoc IsReply c.before msg (c.replies m) (may.replies m);
  }

  Entry-there :
      (q : Key) (arr : Array Message)
      → view s.msg_cache q ≡ some arr
      → (msgs : List Message) × Entry r q arr msgs
  Entry-there q arr h =
      let (msgs, e) = sound.entries q arr h in
      (
        msgs,
        record {
          rep = e.rep;
          room = e.room;
          waits = λ l. e.waits (rw c.same_id at l);
          replies = λ l. e.replies (rw c.same_id at l);
        },
      )

  entries :
      (q : Key) (arr : Array Message)
      → view r.msg_cache q ≡ some arr
      → (msgs : List Message) × Entry r q arr msgs
  entries q arr h = elim (Bool-cases (k =ᵏ q)) [
    | inl e ↦
        let same : c.arr ≡ arr = ground (arith, c.cached q) in
        subst (λ a. (msgs : List Message) × Entry r q a msgs) same
          (c.before ++ msg ∷ [], Entry-here q e)
    | inr e ↦ Entry-there q arr (rw (c.cached q, e) at h)
  ]

  answered : (q : Key) → IsWell q.k_str → IsLocal r q → NoLostWait r q
  answered q w l = elim (Bool-cases (k =ᵏ q)) [
    | inl e ↦
        let gone = may.missing (IsLocal-back q e c.same_id l) in
        let there = view_congr s.kv_map.helper k.k_str q.k_str well w (same_str k q e) in
        inr (rw c.same_map (sym there ∙ gone))
    | inr e ↦ rw (c.cached q, e, c.same_map) (sound.answered q w (rw c.same_id at l))
  ]

  -- Under those conditions addToCache_ keeps the store sound.
  pub Cached-IsSound : IsSound r
  Cached-IsSound = record {
    kept = rw c.same_map sound.kept;
    cache = c.cache;
    unlocked = c.unlocked;
    entries = entries;
    answered = answered;
  }
