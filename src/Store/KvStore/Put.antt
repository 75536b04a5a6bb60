-- ===== src/Store/KvStore/Put.antt =====
-- KVStore::put and tryToHandleCache_ of store/kvstore.h.
use swdev_proj.Prelude.{
  ◌≡◌, ◌⊎◌, inl, inr, refl, sym, ap, subst, ◌∙◌, List, [], ◌++◌, append-nil, none, some, true,
  false, if◌then◌else◌, arith, ok, ◌>>=◌, Returns, Option-cases,
}
use swdev_proj.Utils.Str
use swdev_proj.Utils.Str.{IsWell}
use swdev_proj.Utils.Str.Equality.{equals_refl}
use swdev_proj.Utils.Hashed.{◌=ᵏ◌}
use swdev_proj.Utils.Map.Buckets.{view, IsValid, view_congr}
use swdev_proj.Utils.Map.Laws.{contains-view, remove-Writes}
use swdev_proj.Utils.StrMap
use swdev_proj.Utils.StrMap.{MapStrObj, str_hashed}
use swdev_proj.Utils.StrMap.Laws.{IsKept, put-IsKept, get-IsKept}
use swdev_proj.Utils.Array.{Array}
use swdev_proj.Utils.Array.Laws.{Represents, Represents-unique}
use swdev_proj.Store.Key
use swdev_proj.Store.Key.{Key, key_hashed}
use swdev_proj.Store.Value.{Value}
use swdev_proj.Network.Message.{Message, put_msg}
use swdev_proj.Store.KvStore.{KvStore, send, lock, answer, try_to_handle_cache, put}
use swdev_proj.Store.KvStore.Invariant.{IsLocal, IsRemote, IsSound}
use swdev_proj.Store.KvStore.Replies.{replies, reply_loop-sends}

-- What the cache holds under a key: nothing, or an array of messages.
abbrev pub Pending : KvStore → Key → List Message → Type 0
Pending s k msgs =
    ((view s.msg_cache k ≡ none) × (msgs ≡ []))
    ⊎ ((arr : Array Message) × (view s.msg_cache k ≡ some arr) × Represents arr msgs)

pub Pending-none :
    (s : KvStore) (k : Key) (msgs : List Message)
    → view s.msg_cache k ≡ none
    → Pending s k msgs
    → msgs ≡ []
Pending-none s k msgs e (inl (a, b)) = b
Pending-none s k msgs e (inr (arr, x, r)) = cc

-- The requests that a put finds are those that the array holds.
pub Pending-some :
    (s : KvStore) (k : Key) (arr : Array Message) (msgs found : List Message)
    → view s.msg_cache k ≡ some arr
    → Represents arr msgs
    → Pending s k found
    → found ≡ msgs
Pending-some s k arr msgs found e r (inl (a, b)) = cc
Pending-some s k arr msgs found e r (inr (arr', a, q)) =
    let same : arr' ≡ arr = cc in
    Represents-unique arr found msgs (subst (λ x. Represents x found) same q) r

-- `r` is `s` after the value was stored and the messages `msgs` were answered.
pub record Stored (s : KvStore) (k : Key) (v : Value) (msgs : List Message) (r : KvStore)
    : Type 0 where
  pub sent : r.sent ≡ s.sent ++ replies k v s.store_id msgs
  pub reads :
      (q : Str.Str)
      → IsWell q
      → view r.kv_map.helper q ≡ (if Str.equals k.k_str q then some v else view s.kv_map.helper q)
  pub cached : (q : Key) → view r.msg_cache q ≡ (if k =ᵏ q then none else view s.msg_cache q)
  pub same_id : r.store_id ≡ s.store_id
  pub kept : IsKept r.kv_map
  pub cache : IsValid r.msg_cache
  pub unlocked : r.locked ≡ false

-- Two keys of one node are equal exactly if their strings are.
local_equals :
    (s : KvStore) (k q : Key) → IsLocal s k → IsLocal s q → k =ᵏ q ≡ Str.equals k.k_str q.k_str
local_equals s k q l m = unfold Key.equals in ground arith

pub Stored-IsSound :
    (s : KvStore) (k : Key) (v : Value) (msgs : List Message) (r : KvStore)
    → IsSound s
    → IsLocal s k
    → Stored s k v msgs r
    → IsSound r
Stored-IsSound s k v msgs r sound l d = record {
  kept = d.kept;
  cache = d.cache;
  unlocked = d.unlocked;
  entries = λ q arr h.
      let old : view s.msg_cache q ≡ some arr = ground (arith, d.cached q) in
      let (ms, e) = sound.entries q arr old in
      (
        ms,
        record {
          rep = e.rep;
          room = e.room;
          waits = λ x. e.waits (rw d.same_id at x);
          replies = λ x. e.replies (rw d.same_id at x);
        },
      );
  answered = λ q w x.
      let y : IsLocal s q = rw d.same_id at x in
      ground (arith, d.cached q, d.reads q.k_str w, local_equals s k q l y, sound.answered q w y);
}

module _ (s : KvStore) (k : Key) (v : Value) (sound : IsSound s) (l : IsLocal s k)
    (well : IsWell k.k_str) where
  -- The store with the value in its map, before the cache is looked at.
  abbrev with_map : MapStrObj Value → KvStore
  with_map m = record s { kv_map = m; locked = true }

  module _ (m : MapStrObj Value) (kept : IsKept m)
      (reads : (q : Str.Str)
        → IsWell q
        → view m.helper q ≡ (if Str.equals k.k_str q then some v else view s.kv_map.helper q)) where
    stored : StrMap.get (some k.k_str) m ≡ ok (some v)
    stored = get-IsKept m k.k_str kept ∙ ap ok (reads k.k_str well ∙ rw (equals_refl k.k_str) refl)

    handle_nothing :
        view s.msg_cache k ≡ none
        → Returns
            (try_to_handle_cache k (record s { kv_map = m }))
            (λ r. (msgs : List Message) × Pending s k msgs × Stored s k v msgs r)
    unfolding try_to_handle_cache lock
    handle_nothing e = (
      record s { kv_map = m; locked = false },
      rw sound.unlocked (rw (contains-view s.msg_cache k sound.cache, ◌>>=◌, e) refl),
      (
        [],
        inl (e, refl),
        record {
          sent = unfold replies in sym (append-nil s.sent);
          reads = reads;
          cached = λ q. ground (arith, view_congr s.msg_cache k q tt tt);
          same_id = refl;
          kept = kept;
          cache = sound.cache;
          unlocked = refl;
        },
      ),
    )

    handle_waiting :
        (arr : Array Message)
        → view s.msg_cache k ≡ some arr
        → Returns
            (try_to_handle_cache k (record s { kv_map = m }))
            (λ r. (msgs : List Message) × Pending s k msgs × Stored s k v msgs r)
    unfolding try_to_handle_cache lock answer
    handle_waiting arr e =
        let (msgs, entry) = sound.entries k arr e in
        let ((o, cache), run, (same, w, size)) = remove-Writes s.msg_cache k sound.cache tt arr e in
        let sent = s.sent ++ replies k v s.store_id msgs in
        let loop =
          reply_loop-sends k v arr [] msgs arr.len 0 (record (with_map m) { msg_cache = cache })
            entry.rep refl entry.rep.counted (entry.waits l) l stored in
        (
          record s { kv_map = m; locked = false; msg_cache = cache; sent = sent },
          rw sound.unlocked
              (rw (contains-view s.msg_cache k sound.cache, ◌>>=◌, e, run, same, loop) refl),
          (
            msgs,
            inr (arr, e, entry.rep),
            record {
              sent = refl;
              reads = reads;
              cached = λ q. w.reads q tt;
              same_id = refl;
              kept = kept;
              cache = w.valid;
              unlocked = refl;
            },
          ),
        )

    handled :
        Returns
          (try_to_handle_cache k (record s { kv_map = m }))
          (λ r. (msgs : List Message) × Pending s k msgs × Stored s k v msgs r)
    handled = elim (Option-cases (view s.msg_cache k)) [
      | inl e ↦ handle_nothing e
      | inr (arr, e) ↦ handle_waiting arr e
    ]

  -- On a sound store, a put of a well-formed key of this node returns, stores the value, answers
  -- exactly the requests that waited for the key, in their order, and empties their entry; every
  -- other key and entry stays.
  pub put_local :
      Returns (put k v s) (λ r. (msgs : List Message) × Pending s k msgs × Stored s k v msgs r)
  unfolding put
  put_local =
      let ((old, m), run, (was, kept, reads)) = put-IsKept s.kv_map k.k_str v sound.kept well in
      let (r, run', d) = handled m kept reads in (r, rw l (rw (run, ◌>>=◌) run'), d)

-- A put of another node's key is passed on to that node and changes nothing here.
pub put_remote :
    (k : Key) (v : Value) (s : KvStore)
    → IsRemote s k
    → put k v s ≡ ok (send (put_msg k v s.store_id k.home_node) s)
unfolding put
put_remote k v s l = rw l refl

-- A put of a well-formed local key returns and keeps a sound store sound.
pub put-IsSound :
    (k : Key) (v : Value) (s : KvStore)
    → IsSound s
    → IsLocal s k
    → IsWell k.k_str
    → Returns (put k v s) IsSound
put-IsSound k v s sound l well =
    let (r, run, (msgs, pending, d)) = put_local s k v sound l well in
    (r, run, Stored-IsSound s k v msgs r sound l d)
