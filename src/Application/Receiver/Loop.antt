-- ===== src/Application/Receiver/Loop.antt =====
-- The loop of run in application/thread/receiverthread.h, over a sequence of messages.
use swdev_proj.Prelude.{
  ◌≡◌, refl, ap, ◌∙◌, inl, inr, Bool-cases, >>=-eq-ok, List, [], ◌∷◌, ◌++◌, Bool, true, false, ok,
  ◌>>=◌, Returns,
}
use swdev_proj.Serial.Kind.{MsgKind}
use swdev_proj.Utils.StrMap.{str_hashed}
use swdev_proj.Store.KvStore.Invariant.{IsSound}
use swdev_proj.Network.Message.{Message}
use swdev_proj.Network.Members.{INetwork}
use swdev_proj.Application.Receiver.{Receiver, handle, run}
use swdev_proj.Application.Receiver.Handle.{Expected, handle-IsSound}

module _ {N : Type 0} (network : INetwork N) where
  -- Messages that are each expected in the state in which they find the node.
  pub data Served : Receiver N → List Message → Type 0 where
    served_all : (r : Receiver N) → Served r []
    served_next :
        (r : Receiver N) (m : Message) (ms : List Message)
        → Expected r.kv m
        → ((s : Receiver N) → handle network m r ≡ ok (false, s) → Served s ms)
        → Served r (m ∷ ms)

  -- From a sound store with the thread's node number, the thread reads all of a sequence of
  -- expected messages, then waits for more, and the store is sound in the end.
  pub run-IsSound :
      (r : Receiver N) (ms : List Message)
      → Served r ms
      → IsSound r.kv
      → r.node_num ≡ r.kv.store_id
      → Returns (run network ms r) (λ o. (o.0 ≡ false) × (o.1 ≡ []) × IsSound o.2.kv)
  unfolding run
  run-IsSound r [] (served_all _) sound same = ((false, [], r), refl, (refl, refl, sound))
  run-IsSound r (m ∷ ms) (served_next _ _ _ e later) sound same =
      let ((b, s), step, (on, sound', same', net)) = handle-IsSound network m r sound same e in
      let step' : handle network m r ≡ ok (false, s) = step ∙ ap (λ (x : Bool). ok (x, s)) on in
      let (o, go, result) = run-IsSound s ms (later s step') sound' same' in
      (o, rw (step', ◌>>=◌) go, result)

  stopped : (a b : Bool × List Message × Receiver N) → a.0 ≡ true → b.0 ≡ false → ok a ≡ ok b → ⊥
  stopped a b t f e =
      let same : a ≡ b = cc in
      let clash : a.0 ≡ b.0 = ap (λ (x : Bool × List Message × Receiver N). x.0) same in cc

  -- After messages that it reads to the end without stopping, the thread ends at a teardown
  -- message and leaves what comes after it unread.
  pub run-teardown :
      (ms later : List Message) (m : Message) (r s : Receiver N)
      → run network ms r ≡ ok (false, [], s)
      → m.kind ≡ MsgKind.teardown
      → run network (ms ++ m ∷ later) r ≡ ok (true, later, s)
  unfolding run handle
  run-teardown [] later m r s h e =
      let same : r ≡ s = cc in rw e (ap (λ (x : Receiver N). ok (true, later, x)) same)
  run-teardown (x ∷ ms) later m r s h e =
      let (b, step, next) = >>=-eq-ok (handle network x r) _ h in
      elim (Bool-cases b.0) [
        | inl stop ↦ absurd (stopped (true, ms, b.1) (false, [], s) refl refl (rw stop at next))
        | inr on ↦ rw (step, ◌>>=◌, on) (run-teardown ms later m b.1 s (rw on at next) e)
      ]
