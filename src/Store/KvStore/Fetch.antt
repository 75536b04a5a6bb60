-- ===== src/Store/KvStore/Fetch.antt =====
-- getValue and getFromNetwork_ of store/kvstore.h.
use swdev_proj.Prelude.{
  ◌≡◌, ◌≢◌, inl, inr, refl, subst, ◌∙◌, Bool-cases, List, [], ◌∷◌, ◌++◌, length, none, some, Bool,
  true, false, ◌==◌, if◌then◌else◌, arith, ok, fault, asserts, diverges, ◌>>=◌,
}
use swdev_proj.Utils.Str.{IsWell}
use swdev_proj.Utils.Hashed.{◌=ᵏ◌}
use swdev_proj.Utils.Map.Buckets.{view, IsValid}
use swdev_proj.Utils.Map.Laws.{contains-view, remove-Writes}
use swdev_proj.Utils.StrMap.{str_hashed}
use swdev_proj.Utils.StrMap.Laws.{get-IsKept, put-IsKept}
use swdev_proj.Utils.Array.{Array}
use swdev_proj.Utils.Array.Laws.{Represents}
use swdev_proj.Utils.Array.Change.{remove-Represents}
use swdev_proj.Store.Key.{Key, key_hashed, key_refl}
use swdev_proj.Store.Value.{Value}
use swdev_proj.Network.Message.{Message, reply_data_body, wait_and_get_msg, reply_data_msg}
use swdev_proj.Network.Await.{waiting, done}
use swdev_proj.Store.KvStore.{
  KvStore, unlock, lock, poll, get_value, get_from_network, check_cache, collect, request, resume,
  reply_value, add_to_cache, add_reply, put, try_to_handle_cache,
}
use swdev_proj.Store.KvStore.Invariant.{IsLocal, IsRemote, IsSound}
use swdev_proj.Store.KvStore.Put.{Pending-none}
use swdev_proj.Store.KvStore.Cache.{MayCache, add_to_cache-Cached, Cached-IsSound}

-- A local lookup reads the map and changes nothing; only a blocking one waits for a missing value.
pub get_value-local :
    (k : Key) (should_block : Bool) (s : KvStore)
    → IsSound s
    → IsLocal s k
    → get_value k should_block s ≡ ok (poll should_block (view s.kv_map.helper k.k_str), s)
unfolding get_value
get_value-local k b s sound l = rw l (rw (get-IsKept s.kv_map k.k_str sound.kept, ◌>>=◌) refl)

-- What getFromNetwork_ finds when it has sent its request and holds the lock.
abbrev pub asked : Key → Bool → KvStore → KvStore
asked k should_block s = record s {
  sent = s.sent ++ request k should_block s.store_id ∷ [];
  locked = true;
}

get_value-remote :
    (k : Key) (should_block : Bool) (s : KvStore)
    → s.locked ≡ false
    → IsRemote s k
    → get_value k should_block s ≡ check_cache k should_block (asked k should_block s)
unfolding get_value get_from_network lock
get_value-remote k b s u l = rw l (rw u refl)

check_missing :
    (k : Key) (b : Bool) (t : KvStore)
    → IsValid t.msg_cache
    → view t.msg_cache k ≡ none
    → check_cache k b t ≡ ok (if b then (waiting, unlock t) else (done none, t))
unfolding check_cache
check_missing k true t c e = rw (contains-view t.msg_cache k c, ◌>>=◌, e) refl
check_missing k false t c e = rw (contains-view t.msg_cache k c, ◌>>=◌, e) refl

reply_value-ok :
    (m : Message) (k : Key) (v : Value) → m.body ≡ reply_data_body k v → reply_value m ≡ ok v
unfolding reply_value
reply_value-ok m k v e = rw (e, reply_value) refl

-- The waiting thread's end of a fetch: the one reply is taken out of the cache.
pub record Fetched (t : KvStore) (k : Key) (r : KvStore) : Type 0 where
  pub cache : IsValid r.msg_cache
  pub reads : (q : Key) → view r.msg_cache q ≡ (if k =ᵏ q then none else view t.msg_cache q)
  pub same_map : r.kv_map ≡ t.kv_map
  pub same_id : r.store_id ≡ t.store_id
  pub same_sent : r.sent ≡ t.sent
  pub unlocked : r.locked ≡ false

module _ (k : Key) (b : Bool) (t : KvStore) (c : IsValid t.msg_cache) (arr : Array Message)
    (e : view t.msg_cache k ≡ some arr) where
  check_one :
      (m : Message) (from : Key) (v : Value)
      → Represents arr (m ∷ [])
      → m.body ≡ reply_data_body from v
      → (r : KvStore) × (check_cache k b t ≡ ok (done (some v), r)) × Fetched t k r
  unfolding check_cache collect
  check_one m from v rep body =
      let ((o, cache), run, (same, w, size)) = remove-Writes t.msg_cache k c tt arr e in
      let ((x, left), run', (is_m, rep', cap)) = remove-Represents arr [] [] m 0 rep refl in
      let one : arr.len == 1 ≡ true = ground (arith, rep.counted) in
      (
        record t { msg_cache = cache; locked = false },
        rw
            (
              contains-view t.msg_cache k c,
              ◌>>=◌,
              e,
              run,
              same,
              one,
              run',
              is_m,
              reply_value-ok m from v body,
            )
            refl,
        record {
          cache = w.valid;
          reads = λ q. w.reads q tt;
          same_map = refl;
          same_id = refl;
          same_sent = refl;
          unlocked = refl;
        },
      )

  -- Two or more replies under one key end the process.
  pub check_many :
      (msgs : List Message)
      → Represents arr msgs
      → length msgs ≢ 1
      → check_cache k b t ≡ fault asserts
  unfolding check_cache collect
  check_many msgs rep h =
      let ((o, cache), run, (same, w, size)) = remove-Writes t.msg_cache k c tt arr e in
      let more : arr.len == 1 ≡ false = ground (arith, rep.counted) in
      rw (contains-view t.msg_cache k c, ◌>>=◌, e, run, same, more) refl

-- Only the messages sent differ.
pub sent-IsSound :
    (s : KvStore) (x : List Message) → IsSound s → IsSound (record s { sent = x; locked = false })
sent-IsSound s x sound = record {
  kept = sound.kept;
  cache = sound.cache;
  unlocked = refl;
  entries = λ q arr h.
      let (msgs, e) = sound.entries q arr h in
      (msgs, record { rep = e.rep; room = e.room; waits = e.waits; replies = e.replies });
  answered = sound.answered;
}

Fetched-IsSound :
    (t : KvStore) (k : Key) (r : KvStore) → IsSound (unlock t) → Fetched t k r → IsSound r
Fetched-IsSound t k r sound f = record {
  kept = rw f.same_map sound.kept;
  cache = f.cache;
  unlocked = f.unlocked;
  entries = λ q arr h.
      let old : view t.msg_cache q ≡ some arr = ground (arith, f.reads q) in
      let (msgs, e) = sound.entries q arr old in
      (
        msgs,
        record {
          rep = e.rep;
          room = e.room;
          waits = λ l. e.waits (rw f.same_id at l);
          replies = λ l. e.replies (rw f.same_id at l);
        },
      );
  answered = λ q w l. elim (Bool-cases (k =ᵏ q)) [
    | inl e ↦ inl (f.reads q ∙ rw e refl)
    | inr e ↦ rw (f.reads q, e, f.same_map) (sound.answered q w (rw f.same_id at l))
  ];
}

-- On a sound store, a fetch from another node that does not block and finds no reply returns null
-- with msgCacheLock_ still held: from then on no reply can be taken in and no put of a well-formed
-- local key returns.
pub get_value_keeps_lock :
    (k : Key) (s : KvStore)
    → IsSound s
    → IsRemote s k
    → view s.msg_cache k ≡ none
    → (r : KvStore) × (get_value k false s ≡ ok (done none, r))
      × ((q : Key) (msg : Message) → add_reply q msg r ≡ fault diverges)
      × ((q : Key) (v : Value) → IsLocal s q → IsWell q.k_str → put q v r ≡ fault diverges)
get_value_keeps_lock k s sound l e = (
  asked k false s,
  get_value-remote k false s sound.unlocked l
      ∙ check_missing k false (asked k false s) sound.cache e,
  (λ q msg. unfold add_reply add_to_cache lock in refl),
  λ q v m w.
      let ((old, map'), run, rest) = put-IsKept s.kv_map q.k_str v sound.kept w in
      unfold put try_to_handle_cache lock in rw m (rw (run, ◌>>=◌) refl),
)

pub reply_MayCache :
    (k : Key) (v : Value) (s : KvStore) (msg : Message)
    → IsRemote s k
    → msg.body ≡ reply_data_body k v
    → MayCache s k msg
reply_MayCache k v s msg l e = record {
  waits = λ m. cc;
  missing = λ m. cc;
  replies = λ _. record { key = k; value = v; body = e };
}

-- On a sound store whose cache has nothing under the key, a blocking fetch of a well-formed key of
-- another node sends one request to that node and waits with the lock released. When the reply has
-- come in, the fetch returns its value and takes the reply out of the cache, and the store is
-- sound again.
pub blocking_fetch :
    (k : Key) (v : Value) (s : KvStore)
    → IsSound s
    → IsRemote s k
    → IsWell k.k_str
    → view s.msg_cache k ≡ none
    → (s₁ s₂ s₃ : KvStore) × (get_value k true s ≡ ok (waiting, s₁))
      × (s₁.sent ≡ s.sent ++ wait_and_get_msg k s.store_id k.home_node ∷ [])
      × (add_reply k (reply_data_msg k v k.home_node s.store_id) s₁ ≡ ok s₂)
      × (resume k s₂ ≡ ok (done (some v), s₃))
      × (view s₃.msg_cache k ≡ none)
      × IsSound s₃
blocking_fetch k v s sound l w e =
    let s₁ = unlock (asked k true s) in
    let sound₁ = sent-IsSound s (s.sent ++ request k true s.store_id ∷ []) sound in
    let msg = reply_data_msg k v k.home_node s.store_id in
    let (s₂, run, c) = add_to_cache-Cached s₁ k msg sound₁ in
    let may = reply_MayCache k v s₁ msg l refl in
    let sound₂ = Cached-IsSound s₁ k msg s₂ sound₁ w may c in
    let there : view s₂.msg_cache k ≡ some c.arr = c.cached k ∙ rw (key_refl k) refl in
    let alone : Represents c.arr (msg ∷ []) =
      subst (λ ms. Represents c.arr (ms ++ msg ∷ [])) (Pending-none s₁ k c.before e c.pending)
        c.rep in
    let (s₃, run', f) =
      check_one k true (record s₂ { locked = true }) c.cache c.arr there msg k v alone refl in
    (
      s₁,
      s₂,
      s₃,
      get_value-remote k true s sound.unlocked l
          ∙ check_missing k true (asked k true s) sound.cache e,
      unfold request in refl,
      unfold add_reply in run,
      unfold resume lock in rw c.unlocked run',
      f.reads k ∙ rw (key_refl k) refl,
      Fetched-IsSound (record s₂ { locked = true }) k s₃ (sent-IsSound s₂ s₂.sent sound₂) f,
    )
