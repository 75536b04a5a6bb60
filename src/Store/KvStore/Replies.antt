-- ===== src/Store/KvStore/Replies.antt =====
-- The loop of tryToHandleCache_ in store/kvstore.h.
use swdev_proj.Prelude.{
  ℕ, zero, suc, ◌+◌, ◌≡◌, refl, sym, ap, subst, ◌∙◌, List, [], ◌∷◌, ◌++◌, append_assoc, append-nil,
  length, length-append, some, false, arith, All, ok, ◌>>=◌,
}
use swdev_proj.Utils.StrMap
use swdev_proj.Utils.StrMap.{MapStrObj, str_hashed}
use swdev_proj.Utils.Array.{Array}
use swdev_proj.Utils.Array.Laws.{Represents, get-Represents}
use swdev_proj.Store.Key.{Key, key_hashed}
use swdev_proj.Store.Value.{Value}
use swdev_proj.Network.Message.{Message, reply_data_msg}
use swdev_proj.Network.Await.{done}
use swdev_proj.Store.KvStore.{KvStore, send, waiter, get_value, send_reply, reply_loop}
use swdev_proj.Store.KvStore.Invariant.{IsWait, IsLocal}

-- The replies to the waiting requests, in the order in which these came.
unfoldable pub replies : Key → Value → ℕ → List Message → List Message
replies k v id [] = []
replies k v id (m ∷ ms) = reply_data_msg k v id m.sender ∷ replies k v id ms

waiter-ok : (m : Message) → IsWait m → waiter m ≡ ok m.sender
unfolding waiter
waiter-ok m w = rw (w.body, waiter) refl

get_value_local :
    (k : Key) (v : Value) (s : KvStore)
    → IsLocal s k
    → StrMap.get (some k.k_str) s.kv_map ≡ ok (some v)
    → get_value k false s ≡ ok (done (some v), s)
unfolding get_value
get_value_local k v s l h = ground (arith, h)

advance :
    {A : Type 0} (a : Array A) (ys zs : List A) (x : A)
    → Represents a (ys ++ x ∷ zs)
    → Represents a ((ys ++ x ∷ []) ++ zs)
advance a ys zs x r = subst (Represents a) (sym (append_assoc ys (x ∷ []) zs)) r

pub reply_loop-sends :
    (k : Key) (v : Value) (arr : Array Message) (ys zs : List Message) (n i : ℕ) (s : KvStore)
    → Represents arr (ys ++ zs)
    → i ≡ length ys
    → n ≡ length zs
    → All IsWait zs
    → IsLocal s k
    → StrMap.get (some k.k_str) s.kv_map ≡ ok (some v)
    → reply_loop n i k arr s ≡ ok (record s { sent = s.sent ++ replies k v s.store_id zs })
unfolding reply_loop replies send_reply
reply_loop-sends k v arr ys [] zero i s r a b w l g =
    ap (λ x. ok (record s { sent = x })) (sym (append-nil s.sent))
reply_loop-sends k v arr ys [] (suc n) i s r a b w l g = absurd (omega arith)
reply_loop-sends k v arr ys (z ∷ zs) zero i s r a b w l g = absurd (omega arith)
reply_loop-sends k v arr ys (z ∷ zs) (suc n) i s r a b w l g =
    let reply = reply_data_msg k v s.store_id z.sender in
    let next =
      reply_loop-sends k v arr (ys ++ z ∷ []) zs n (i + 1) (send reply s) (advance arr ys zs z r)
        (omega (arith, length-append ys (z ∷ []))) (omega arith) w.1 l g in
    rw (get-Represents arr r ys zs z i refl a, ◌>>=◌, waiter-ok z w.0, get_value_local k v s l g)
      (next
        ∙ ap (λ x. ok (record s { sent = x }))
            (append_assoc s.sent (reply ∷ []) (replies k v s.store_id zs)))
