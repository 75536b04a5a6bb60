-- ===== src/Utils/Queue/Laws.antt =====
-- Queue of utils/queue.h is a first-in first-out sequence.
use swdev_proj.Prelude.{
  ℕ, zero, suc, ◌+◌, ◌-◌, ◌≡◌, refl, sym, ap, List, [], ◌∷◌, ◌++◌, length-append, Option, none,
  some, false, arith, ◌==◌, length, ok, Returns,
}
use swdev_proj.Utils.Queue.{
  Node, Heap, Queue, update, new, push, pop, deref, free, clear, delete_chain, back_after,
}
use swdev_proj.Utils.Queue.Shape.{
  first, last, last_of, Ascends, Linked, Ascends-tail, last_of_bounds, Ascends-snoc, Linked-below,
  Linked-snoc,
}

last_of-snoc : (p : ℕ) (ps : List ℕ) (b : ℕ) → last_of p (ps ++ b ∷ []) ≡ b
last_of-snoc p [] b = refl
last_of-snoc p (q ∷ qs) b = last_of-snoc q qs b

back_after-last :
    (p : ℕ) (ps : List ℕ) (b : Option ℕ)
    → b ≡ some (last_of p ps)
    → back_after (first ps) b ≡ last ps
back_after-last p [] b e = refl
back_after-last p (q ∷ qs) b e = e

module _ {A : Type 0} where
  -- The queue holds the items, its front first.
  pub record IsQueue (q : Queue A) (xs : List (Option A)) : Type 0 where
    pub addrs : List ℕ
    pub linked : Linked q.heap addrs xs
    pub ascends : Ascends addrs q.fresh
    pub front : q.front ≡ first addrs
    pub back : q.back ≡ last addrs
    pub counted : q.len ≡ length xs

  pub new-IsQueue : IsQueue new []
  unfolding new
  new-IsQueue = record {
    addrs = [];
    linked = tt;
    ascends = tt;
    front = refl;
    back = refl;
    counted = refl;
  }

  pub deref-ok :
      (h : Heap A) (o : Option ℕ) (p : ℕ) (n : Node A)
      → o ≡ some p
      → h p ≡ some n
      → deref h o ≡ ok (p, n)
  unfolding deref
  deref-ok h o p n e at = rw e (rw (at, deref) refl)

  push_cases :
      (q : Queue A) (o : Option A) (ps : List ℕ) (xs : List (Option A))
      → Linked q.heap ps xs
      → Ascends ps q.fresh
      → q.front ≡ first ps
      → q.back ≡ last ps
      → q.len ≡ length xs
      → Returns (push o q) (λ r. IsQueue r (xs ++ o ∷ []))
  unfolding push deref
  push_cases q o [] (x ∷ xs) l s f b c = absurd l
  push_cases q o (p ∷ ps) [] l s f b c = absurd l
  push_cases q o [] [] l s f b c = (
    record {
      heap = update q.heap q.fresh (some (record { val = o; next = none }));
      fresh = q.fresh + 1;
      front = some q.fresh;
      back = some q.fresh;
      len = q.len + 1;
    },
    ground arith,
    record {
      addrs = q.fresh ∷ [];
      linked = (ground arith, tt);
      ascends = omega arith;
      front = refl;
      back = refl;
      counted = omega arith;
    },
  )
  push_cases q o (p ∷ ps) (x ∷ xs) l s f b c =
      let (v, at, rest) = Linked-snoc q.heap p ps (x ∷ xs) o q.fresh s l in
      let end = last_of p ps in
      let alloc = update q.heap q.fresh (some (record { val = o; next = none })) in
      let busy : q.len == 0 ≡ false = ground arith in
      let kept : alloc end ≡ some (record { val = v; next = none }) =
        ground (arith, at, last_of_bounds p ps q.fresh s) in
      (
        record {
          heap = update alloc end (some (record { val = v; next = some q.fresh }));
          fresh = q.fresh + 1;
          front = q.front;
          back = some q.fresh;
          len = q.len + 1;
        },
        rw (busy, deref-ok alloc q.back end (record { val = v; next = none }) b kept) refl,
        record {
          addrs = (p ∷ ps) ++ q.fresh ∷ [];
          linked = rest;
          ascends = Ascends-snoc (p ∷ ps) q.fresh s;
          front = f;
          back = ap some (sym (last_of-snoc p ps q.fresh));
          counted = omega (arith, length-append (x ∷ xs) (o ∷ []));
        },
      )

  -- push returns and puts the object at the end.
  pub push-IsQueue :
      (q : Queue A) (o : Option A) (xs : List (Option A))
      → IsQueue q xs
      → Returns (push o q) (λ r. IsQueue r (xs ++ o ∷ []))
  push-IsQueue q o xs v = push_cases q o v.addrs xs v.linked v.ascends v.front v.back v.counted

  pop_cases :
      (q : Queue A) (ps : List ℕ) (x : Option A) (xs : List (Option A))
      → Linked q.heap ps (x ∷ xs)
      → Ascends ps q.fresh
      → q.front ≡ first ps
      → q.back ≡ last ps
      → q.len ≡ suc (length xs)
      → Returns (pop q) (λ r. (r.0 ≡ x) × IsQueue r.1 xs)
  unfolding pop deref free
  pop_cases q [] x xs l s f b c = absurd l
  pop_cases q (p ∷ ps) x xs l s f b c =
      let cleared = update q.heap p (some (record { val = none; next = none })) in
      (
        (
          x,
          record q {
            heap = update cleared p none;
            front = first ps;
            back = back_after (first ps) q.back;
            len = q.len - 1;
          },
        ),
        ground (arith, l.0),
        (
          refl,
          record {
            addrs = ps;
            linked = Linked-below cleared p none ps xs q.fresh s (
                Linked-below q.heap p (some (record { val = none; next = none })) ps xs q.fresh s
                  l.1);
            ascends = Ascends-tail p ps q.fresh s;
            front = refl;
            back = back_after-last p ps q.back b;
            counted = omega arith;
          },
        ),
      )

  -- pop returns, takes the oldest object off a queue that has one, and leaves the others in order.
  pub pop-IsQueue :
      (q : Queue A) (x : Option A) (xs : List (Option A))
      → IsQueue q (x ∷ xs)
      → Returns (pop q) (λ r. (r.0 ≡ x) × IsQueue r.1 xs)
  pop-IsQueue q x xs v = pop_cases q v.addrs x xs v.linked v.ascends v.front v.back v.counted

  pub pop_empty : (q : Queue A) → IsQueue q [] → pop q ≡ ok (none, q)
  unfolding pop
  pop_empty q v = ground (arith, v.counted)

  -- The fuel of clear: one round for each node.
  delete_chain-total :
      (h : Heap A) (ps : List ℕ) (xs : List (Option A)) (b n : ℕ)
      → Linked h ps xs
      → Ascends ps b
      → n ≡ length xs
      → Returns (delete_chain n h (first ps)) (λ _. Unit {0})
  unfolding delete_chain
  delete_chain-total h [] [] b n l s c = (h, ground arith, tt)
  delete_chain-total h [] (x ∷ xs) b n l s c = absurd l
  delete_chain-total h (p ∷ ps) [] b n l s c = absurd l
  delete_chain-total h (p ∷ ps) (x ∷ xs) b zero l s c = absurd (omega arith)
  delete_chain-total h (p ∷ ps) (x ∷ xs) b (suc n) l s c =
      let (r, run, t) =
        delete_chain-total (update h p none) ps xs b n (Linked-below h p none ps xs b s l.1)
          (Ascends-tail p ps b s) (omega arith) in
      (r, rw (deref-ok h (some p) p _ refl l.0) run, tt)

  -- clear deletes every node once and leaves an empty queue.
  pub clear-IsQueue :
      (q : Queue A) (xs : List (Option A)) → IsQueue q xs → Returns (clear q) (λ r. IsQueue r [])
  unfolding clear
  clear-IsQueue q xs v =
      let (h, run, t) =
        delete_chain-total q.heap v.addrs xs q.fresh q.len v.linked v.ascends v.counted in
      (
        record q { heap = h; front = none; back = none; len = 0 },
        rw (v.front, run) refl,
        record { addrs = []; linked = tt; ascends = tt; front = refl; back = refl; counted = refl },
      )
