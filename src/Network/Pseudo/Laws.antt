-- ===== src/Network/Pseudo/Laws.antt =====
-- The queues of src/network/pseudo deliver to each node its messages in the order they were sent.
use swdev_proj.Prelude.{
  ℕ, ◌≤◌, ◌<◌, ◌≡◌, ◌≢◌, refl, ◌∙◌, subst, inl, inr, Bool-cases, List, [], ◌∷◌, ◌++◌, some, true,
  false, ltb, ◌==◌, if◌then◌else◌, arith, map, map-snoc, length, get_elem?, length-set,
  get_elem?-set, get_elem?-set_self, ok, fault, asserts, ◌>>=◌, Returns,
}
use swdev_proj.Utils.Queue.Laws.{IsQueue, push-IsQueue, pop-IsQueue}
use swdev_proj.Utils.Array
use swdev_proj.Network.Message.{Message}
use swdev_proj.Network.Await.{waiting, done}
use swdev_proj.Network.Pseudo.{
  MessageQueue, MsgQueueArr, push, pop, get, put_back, send_msg, receive_msg,
}

-- In the cell of a node, a queue with these messages.
pub record Cell (a : MsgQueueArr) (i : ℕ) (ms : List Message) : Type 0 where
  pub queue : MessageQueue
  pub here : get_elem? a.arr.obj_list i ≡ some (some queue)
  pub holds : IsQueue queue.messages (map some ms)

-- A network of `n` nodes, with the messages on their way to each.
pub record IsNet (n : ℕ) (inbox : ℕ → List Message) (a : MsgQueueArr) : Type 0 where
  pub counted : a.arr.len ≡ n
  pub inside : n ≤ length a.arr.obj_list
  pub cells : (i : ℕ) → i < n → Cell a i (inbox i)

get_here :
    (a : MsgQueueArr) (i : ℕ) (q : MessageQueue)
    → i < a.arr.len
    → get_elem? a.arr.obj_list i ≡ some (some q)
    → Array.get i a.arr ≡ ok q
unfolding Array.get Array.load
get_here a i q l h = ground (arith, h)

get-ok :
    (n : ℕ) (inbox : ℕ → List Message) (a : MsgQueueArr) (i : ℕ) (net : IsNet n inbox a) (l : i < n)
    → get i a ≡ ok (net.cells i l).queue
unfolding get Array.get Array.load
get-ok n inbox a i net l =
    let c = net.cells i l in
    let e : ltb i a.arr.len ≡ true = ground (arith, net.counted) in
    rw e (get_here a i c.queue (omega (arith, net.counted)) c.here)

-- The inboxes after one of them was changed.
abbrev pub changed : ℕ → List Message → (ℕ → List Message) → ℕ → List Message
changed i ms inbox j = if j == i then ms else inbox j

module _ (n : ℕ) (inbox : ℕ → List Message) (a : MsgQueueArr) (net : IsNet n inbox a) (i : ℕ)
    (l : i < n) (q : MessageQueue) (ms : List Message) (h : IsQueue q.messages (map some ms)) where
  changed_cell : (j : ℕ) → j < n → Cell (put_back i q a) j (changed i ms inbox j)
  unfolding put_back
  changed_cell j m = elim (Bool-cases (j == i)) [
    | inl e ↦
        let same : j ≡ i = ground arith in
        rw (e, same)
          (record {
            queue = q;
            here = get_elem?-set_self a.arr.obj_list i (some q) (omega (arith, net.inside));
            holds = h;
          })
    | inr e ↦
        let c = net.cells j m in
        let other : i ≢ j = λ d. ground arith in
        rw e (record {
          queue = c.queue;
          here =
              get_elem?-set a.arr.obj_list i j (some q) (omega (arith, net.inside)) other ∙ c.here;
          holds = c.holds;
        })
  ]

  put_back-IsNet : IsNet n (changed i ms inbox) (put_back i q a)
  put_back-IsNet = record {
    counted = unfold put_back in net.counted;
    inside = unfold put_back in omega (arith, net.inside, length-set a.arr.obj_list i (some q));
    cells = changed_cell;
  }

-- sendMsg to a node of the network returns, puts the message behind the others of the node that it
-- names, and leaves the rest.
pub send_msg-IsNet :
    (n : ℕ) (inbox : ℕ → List Message) (a : MsgQueueArr) (m : Message)
    → IsNet n inbox a
    → m.target < n
    → Returns (send_msg m a) (IsNet n (changed m.target (inbox m.target ++ m ∷ []) inbox))
unfolding send_msg push
send_msg-IsNet n inbox a m net l =
    let c = net.cells m.target l in
    let (q, run, v) = push-IsQueue c.queue.messages (some m) (map some (inbox m.target)) c.holds in
    let ms = inbox m.target ++ m ∷ [] in
    (
      put_back m.target (record { messages = q }) a,
      rw (get-ok n inbox a m.target net l, ◌>>=◌, run) refl,
      put_back-IsNet n inbox a net m.target l (record { messages = q }) ms
          (rw (map-snoc some (inbox m.target) m) v),
    )

-- A message for a node that the network does not have ends the process.
pub send_msg_outside :
    (n : ℕ) (inbox : ℕ → List Message) (a : MsgQueueArr) (m : Message)
    → IsNet n inbox a
    → n ≤ m.target
    → send_msg m a ≡ fault asserts
unfolding send_msg get
send_msg_outside n inbox a m net l =
    let e : ltb m.target a.arr.len ≡ false = ground (arith, net.counted) in rw e refl

-- receiveMsg of a node that has messages returns the oldest of them and leaves the others in
-- order.
pub receive_msg-IsNet :
    (n : ℕ) (inbox : ℕ → List Message) (a : MsgQueueArr) (i : ℕ) (m : Message) (ms : List Message)
    → IsNet n inbox a
    → i < n
    → inbox i ≡ m ∷ ms
    → Returns (receive_msg i a) (λ r. (r.0 ≡ done (some m)) × IsNet n (changed i ms inbox) r.1)
unfolding receive_msg pop
receive_msg-IsNet n inbox a i m ms net l e =
    let c = net.cells i l in
    let holds : IsQueue c.queue.messages (some m ∷ map some ms) =
      subst (λ xs. IsQueue c.queue.messages (map some xs)) e c.holds in
    let ((o, q), run, (is_m, v)) = pop-IsQueue c.queue.messages (some m) (map some ms) holds in
    let more : c.queue.messages.len == 0 ≡ false = ground (arith, holds.counted) in
    (
      (done (some m), put_back i (record { messages = q }) a),
      rw (get-ok n inbox a i net l, ◌>>=◌, more, run, is_m) refl,
      (refl, put_back-IsNet n inbox a net i l (record { messages = q }) ms v),
    )

-- With no message on its way, the node waits and nothing changes for the others.
pub receive_msg_empty :
    (n : ℕ) (inbox : ℕ → List Message) (a : MsgQueueArr) (i : ℕ)
    → IsNet n inbox a
    → i < n
    → inbox i ≡ []
    → Returns (receive_msg i a) (λ r. (r.0 ≡ waiting) × IsNet n (changed i [] inbox) r.1)
unfolding receive_msg pop
receive_msg_empty n inbox a i net l e =
    let c = net.cells i l in
    let holds : IsQueue c.queue.messages [] =
      subst (λ xs. IsQueue c.queue.messages (map some xs)) e c.holds in
    let none_left : c.queue.messages.len == 0 ≡ true = ground (arith, holds.counted) in
    (
      (waiting, put_back i c.queue a),
      rw (get-ok n inbox a i net l, ◌>>=◌, none_left) refl,
      (refl, put_back-IsNet n inbox a net i l c.queue [] holds),
    )
