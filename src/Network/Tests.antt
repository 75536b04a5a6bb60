-- ===== src/Network/Tests.antt =====
-- The theorems on src/network at concrete messages.
use swdev_proj.Prelude.{
  ℕ, zero, suc, ◌<◌, ◌≡◌, refl, List, [], ◌∷◌, some, true, false, ok, arith, Returns,
}
use swdev_proj.Serial.{Serializer, new}
use swdev_proj.Serial.Wire.{new-IsReady}
use swdev_proj.Utils.Queue.Laws.{new-IsQueue}
use swdev_proj.Network.Message.{Message, wait_and_get_msg, done_msg}
use swdev_proj.Network.Message.Wire.{Sendable}
use swdev_proj.Network.Net.{IsSpent, send_msg, receive_msg, receive-send}
use swdev_proj.Network.Await.{waiting, done}
use swdev_proj.Network.Pseudo
use swdev_proj.Network.Pseudo.{MsgQueueArr, new_queue}
use swdev_proj.Network.Pseudo.Laws.{
  IsNet, Cell, changed, send_msg-IsNet, receive_msg-IsNet, receive_msg_empty,
}
use swdev_proj.Network.Members.{count_done}
use swdev_proj.Network.Members.Laws.{Counted, count_done-Counted}
use swdev_proj.Samples.{far, far-Sendable}

abbrev ask : Message
ask = wait_and_get_msg far 0 1

ask-Sendable : Sendable ask
ask-Sendable = record {
  kind = refl;
  sender = omega arith;
  target = omega arith;
  body = far-Sendable;
}

new-IsSpent : IsSpent new
unfolding new
new-IsSpent = record { ready = new-IsReady; spent = refl }

receive-send_example :
    (bytes : List ℕ) × (s' t' : Serializer) × (send_msg ask new ≡ ok (bytes, s'))
    × (receive_msg bytes new ≡ ok (ask, t'))
receive-send_example = receive-send ask new new ask-Sendable new-IsReady new-IsSpent

-- Two nodes, with nothing on the way.
abbrev pair_net : MsgQueueArr
pair_net = record {
  arr = record { obj_list = some new_queue ∷ some new_queue ∷ []; capacity = 2; len = 2 };
}

abbrev nothing : ℕ → List Message
nothing i = []

empty_cell : (i : ℕ) → i < 2 → Cell pair_net i []
unfolding new_queue
empty_cell zero l = record { queue = new_queue; here = refl; holds = new-IsQueue }
empty_cell (suc zero) l = record { queue = new_queue; here = refl; holds = new-IsQueue }
empty_cell (suc (suc n)) l = absurd (omega arith)

pair-IsNet : IsNet 2 nothing pair_net
pair-IsNet = record { counted = refl; inside = omega arith; cells = empty_cell }

send_msg-IsNet_example :
    Returns (Pseudo.send_msg ask pair_net) (IsNet 2 (changed 1 (ask ∷ []) nothing))
send_msg-IsNet_example = send_msg-IsNet 2 nothing pair_net ask pair-IsNet (omega arith)

receive_msg_empty_example :
    Returns
      (Pseudo.receive_msg 0 pair_net)
      (λ r. (r.0 ≡ waiting) × IsNet 2 (changed 0 [] nothing) r.1)
receive_msg_empty_example = receive_msg_empty 2 nothing pair_net 0 pair-IsNet (omega arith) refl

abbrev sent_net : MsgQueueArr
sent_net = (send_msg-IsNet 2 nothing pair_net ask pair-IsNet (omega arith)).0

sent-IsNet : IsNet 2 (changed 1 (ask ∷ []) nothing) sent_net
sent-IsNet = (send_msg-IsNet 2 nothing pair_net ask pair-IsNet (omega arith)).2

receive_msg-IsNet_example :
    Returns
      (Pseudo.receive_msg 1 sent_net)
      (λ r. (r.0 ≡ done (some ask)) × IsNet 2 (changed 1 [] (changed 1 (ask ∷ []) nothing)) r.1)
receive_msg-IsNet_example =
    receive_msg-IsNet 2 (changed 1 (ask ∷ []) nothing) sent_net 1 ask [] sent-IsNet (omega arith)
      refl

count_done-Counted_example :
    Returns
      (count_done 0 (done_msg 1 0) (true ∷ false ∷ []))
      (Counted 0 (done_msg 1 0) (true ∷ false ∷ []))
count_done-Counted_example = count_done-Counted 0 (done_msg 1 0) (true ∷ false ∷ []) (omega arith)
