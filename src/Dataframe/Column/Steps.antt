-- ===== src/Dataframe/Column/Steps.antt =====
-- The steps of one round of add_all (dataframe/column/column.h): filling a block, and the put of
-- its value.
use swdev_proj.Prelude.{
  ℕ, zero, suc, ◌+◌, ◌≤◌, ◌≡◌, refl, sym, subst, ◌∙◌, List, [], ◌∷◌, ◌++◌, append_assoc, append-nil,
  some, false, ◌==◌, Bool-cases, inl, inr, arith, length, length-append, All, ok, ◌>>=◌, Returns,
}
use mathlib.Core.List.{Memᴰ}
use mathlib.Core.List.Memᴰ.{head}
use swdev_proj.Utils.Str
use swdev_proj.Utils.Str.{Str, IsWell}
use swdev_proj.Utils.Str.Equality.{equals_refl}
use swdev_proj.Utils.Map.Buckets.{view}
use swdev_proj.Utils.StrMap.{str_hashed}
use swdev_proj.Utils.DataType.{DataType}
use swdev_proj.Store.Key.{Key, key_hashed}
use swdev_proj.Store.Value.{Value}
use swdev_proj.Store.KvStore
use swdev_proj.Store.KvStore.{KvStore}
use swdev_proj.Store.KvStore.Invariant.{IsSound, IsLocal, IsRemote, send-IsSound}
use swdev_proj.Store.KvStore.Replies.{replies}
use swdev_proj.Network.Message.{Message, put_msg}
use swdev_proj.Store.KvStore.Put.{put_local, put_remote, Stored-IsSound}
use swdev_proj.Dataframe.Block.{Block, load}
use swdev_proj.Dataframe.Block.Laws
use swdev_proj.Dataframe.Block.Laws.{load-append, add-Holds, fits}
use swdev_proj.Dataframe.Item.{Item, IsItem, copy-same}
use swdev_proj.Dataframe.Column.{fill_block}

-- One round of add_all fills the block with the next items.
pub fill_block-Holds :
    (t : DataType) (xs ys pre rest vals : List Item) (n i : ℕ) (b : Block Item)
    → vals ≡ pre ++ (xs ++ rest)
    → i ≡ length pre
    → n ≡ length xs
    → All (IsItem t) xs
    → Laws.Holds b ys
    → length ys + length xs ≤ b.capacity
    → Returns (fill_block n i vals b) (λ r. Laws.Holds r (ys ++ xs) × (r.capacity ≡ b.capacity))
unfolding fill_block
fill_block-Holds t [] ys pre rest vals zero i b e a l v h c =
    (b, refl, (subst (λ (w : List Item). Laws.Holds b w) (sym (append-nil ys)) h, refl))
fill_block-Holds t [] ys pre rest vals (suc n) i b e a l v h c = absurd (omega arith)
fill_block-Holds t (x ∷ xs) ys pre rest vals zero i b e a l v h c = absurd (omega arith)
fill_block-Holds t (x ∷ xs) ys pre rest vals (suc n) i b e a l v h c =
    let here : load i vals ≡ ok x = rw e (load-append pre (xs ++ rest) x i a) in
    let (p, run, (acc, g, same)) = add-Holds b h x (omega arith) in
    let (r, run', (f, same')) =
      fill_block-Holds t xs (ys ++ x ∷ []) (pre ++ x ∷ []) rest vals n (i + 1) p.1
        (e ∙ sym (append_assoc pre (x ∷ []) (xs ++ rest)))
        (omega (arith, length-append pre (x ∷ []))) (omega arith) v.1 g
        (omega (arith, length-append ys (x ∷ []))) in
    (
      r,
      rw (here, ◌>>=◌, copy-same x v.0.sendable, run) run',
      (subst (λ (w : List Item). Laws.Holds r w) (append_assoc ys (x ∷ []) xs) f, same' ∙ same),
    )

-- What a put leaves and sends, whichever node is the key's home.
pub record Put (k : Key) (v : Value) (s r : KvStore) : Type 0 where
  pub sound : IsSound r
  pub same_id : r.store_id ≡ s.store_id
  pub here : IsLocal s k → view r.kv_map.helper k.k_str ≡ some v
  pub others :
      (q : Str)
      → IsWell q
      → Str.equals k.k_str q ≡ false
      → view r.kv_map.helper q ≡ view s.kv_map.helper q
  pub more : List Message
  pub sent : r.sent ≡ s.sent ++ more
  pub posts : IsRemote s k → Memᴰ (put_msg k v s.store_id k.home_node) more

pub put-Put :
    (k : Key) (v : Value) (s : KvStore)
    → IsSound s
    → IsWell k.k_str
    → Returns (KvStore.put k v s) (Put k v s)
put-Put k v s sound w = elim (Bool-cases (k.home_node == s.store_id)) [
  | inl l ↦
      let (r, run, (msgs, pending, d)) = put_local s k v sound l w in
      (
        r,
        run,
        record {
          sound = Stored-IsSound s k v msgs r sound l d;
          same_id = d.same_id;
          here = λ _. d.reads k.k_str w ∙ rw (equals_refl k.k_str) refl;
          others = λ q x e. d.reads q x ∙ rw e refl;
          more = replies k v s.store_id msgs;
          sent = d.sent;
          posts = λ far. absurd (ground (arith, l, far));
        },
      )
  | inr far ↦ (
    _,
    put_remote k v s far,
    record {
      sound = send-IsSound s _ sound;
      same_id = refl;
      here = λ l. cc;
      others = λ q x e. refl;
      more = put_msg k v s.store_id k.home_node ∷ [];
      sent = refl;
      posts = λ _. head refl;
    },
  )
]
