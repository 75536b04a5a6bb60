-- ===== src/Utils/Queue/Equality.antt =====
-- equals of Node and Queue in utils/queue.h.
use swdev_proj.Prelude.{
  ℕ, zero, suc, ◌≤◌, ◌≡◌, refl, List, [], ◌∷◌, length, Option, some, Bool, true, false, arith,
  if◌then◌else◌, ok, ◌>>=◌,
}
use swdev_proj.Utils.Queue.{Heap, Queue, differ, node_equals, equals}
use swdev_proj.Utils.Queue.Shape.{first, Linked}
use swdev_proj.Utils.Queue.Laws.{IsQueue, deref-ok}

module _ {A : Type 0} (same : A → Option A → Bool) where
  -- Two lists of objects, compared in both directions item by item.
  unfoldable pub alike : List (Option A) → List (Option A) → Bool
  alike [] [] = true
  alike [] (y ∷ ys) = false
  alike (x ∷ xs) [] = false
  alike (x ∷ xs) (y ∷ ys) =
      let rest = alike xs ys in
      if differ same y x then false else if differ same x y then false else rest

  node_equals-alike :
      (n : ℕ) (h k : Heap A) (p q : ℕ) (ps qs : List ℕ) (x y : Option A) (xs ys : List (Option A))
      → Linked h (p ∷ ps) (x ∷ xs)
      → Linked k (q ∷ qs) (y ∷ ys)
      → length (x ∷ xs) ≤ n
      → node_equals same n h k (some p) (some q) ≡ ok (alike (x ∷ xs) (y ∷ ys))
  unfolding node_equals alike
  node_equals-alike zero h k p q ps qs x y xs ys l m f = absurd (omega arith)
  node_equals-alike (suc n) h k p q [] [] x y [] [] l m f =
      rw (deref-ok h (some p) p _ refl l.0, ◌>>=◌, deref-ok k (some q) q _ refl m.0) (ground arith)
  node_equals-alike (suc n) h k p q (a ∷ ps) [] x y (z ∷ xs) [] l m f =
      rw (deref-ok h (some p) p _ refl l.0, ◌>>=◌, deref-ok k (some q) q _ refl m.0) (ground arith)
  node_equals-alike (suc n) h k p q [] (b ∷ qs) x y [] (w ∷ ys) l m f =
      rw (deref-ok h (some p) p _ refl l.0, ◌>>=◌, deref-ok k (some q) q _ refl m.0) (ground arith)
  node_equals-alike (suc n) h k p q (a ∷ ps) (b ∷ qs) x y (z ∷ xs) (w ∷ ys) l m f =
      let next = node_equals-alike n h k a b ps qs z w xs ys l.1 m.1 (omega arith) in
      rw (deref-ok h (some p) p _ refl l.0, ◌>>=◌, deref-ok k (some q) q _ refl m.0)
        (ground (arith, next))
  node_equals-alike (suc n) h k p q [] qs x y (z ∷ xs) ys l m f = absurd l.1
  node_equals-alike (suc n) h k p q (a ∷ ps) qs x y [] ys l m f = absurd l.1
  node_equals-alike (suc n) h k p q ps [] x y xs (w ∷ ys) l m f = absurd m.1
  node_equals-alike (suc n) h k p q ps (b ∷ qs) x y xs [] l m f = absurd m.1

  -- equals on two queues that are not the same object returns, and says whether their sequences are
  -- of one length and agree item by item; the nodes of the first are rounds enough.
  pub equals-alike :
      (q o : Queue A) (xs ys : List (Option A))
      → IsQueue q xs
      → IsQueue o ys
      → equals same q o ≡ ok (alike xs ys)
  unfolding equals alike
  equals-alike q o xs ys v w = go v.addrs w.addrs xs ys v.linked w.linked v.front w.front v.counted
    where
      go :
          (ps qs : List ℕ) (xs ys : List (Option A))
          → Linked q.heap ps xs
          → Linked o.heap qs ys
          → q.front ≡ first ps
          → o.front ≡ first qs
          → q.len ≡ length xs
          → equals same q o ≡ ok (alike xs ys)
      go [] [] [] [] l m f g c = rw (f, g) refl
      go (p ∷ ps) [] (x ∷ xs) [] l m f g c = rw (f, g) refl
      go [] (b ∷ qs) [] (y ∷ ys) l m f g c = rw (f, g) refl
      go (p ∷ ps) (b ∷ qs) (x ∷ xs) (y ∷ ys) l m f g c =
          rw (f, g)
            (rw g (node_equals-alike q.len q.heap o.heap p b ps qs x y xs ys l m (omega arith)))
      go [] qs (x ∷ xs) ys l m f g c = absurd l
      go (p ∷ ps) qs [] ys l m f g c = absurd l
      go ps [] xs (y ∷ ys) l m f g c = absurd m
      go ps (b ∷ qs) xs [] l m f g c = absurd m
