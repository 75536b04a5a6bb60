-- ===== src/Utils/Queue.antt =====
-- The classes Node and Queue of utils/queue.h: a singly linked list on an explicit heap, with
-- pointers to its first and last node. An address is never given out twice.
pub mod Shape
pub mod Laws
pub mod Equality
use swdev_proj.Prelude.{
  ℕ, zero, suc, ◌+◌, ◌-◌, List, [], ◌∷◌, Option, none, some, Bool, true, false, ◌==◌, if◌then◌else◌,
  prev_size, not, Run, ok, fault, undefined, diverges, ◌>>=◌,
}

pub record Node (A : Type 0) : Type 0 where
  pub val : Option A
  pub next : Option ℕ

abbrev pub Heap : Type 0 → Type 0
Heap A = ℕ → Option (Node A)

abbrev pub update : {A : Type 0} → Heap A → ℕ → Option (Node A) → Heap A
update h p c q = if p == q then c else h q

-- A Queue with the heap that its nodes stand in.
pub record Queue (A : Type 0) : Type 0 where
  pub heap : Heap A
  pub fresh : ℕ
  pub front : Option ℕ
  pub back : Option ℕ
  pub len : ℕ

-- back_ is null in a queue that has become empty
abbrev pub back_after : Option ℕ → Option ℕ → Option ℕ
back_after none back = none
back_after (some p) back = back

module _ {A : Type 0} where
  -- Queue()
  unfoldable pub new : Queue A
  new = record { heap = λ _. none; fresh = 0; front = none; back = none; len = 0 }

  -- *p, for a pointer that may be null or dangling
  unfoldable pub deref : Heap A → Option ℕ → Run (ℕ × Node A)
  deref h none = fault undefined
  deref h (some p) = elim (h p) [ none ↦ fault undefined | some n ↦ ok (p, n) ]

  unfoldable pub push : Option A → Queue A → Run (Queue A)
  unfolding deref
  push o q =
      let node = q.fresh in
      let allocated = update q.heap node (some (record { val = o; next = none })) in
      if q.len == 0
      then ok (record {
        heap = allocated;
        fresh = q.fresh + 1;
        front = some node;
        back = some node;
        len = q.len + 1;
      })
      else do
        (b, n) ← deref allocated q.back
        ok (record {
          heap = update allocated b (some (record n { next = some node }));
          fresh = q.fresh + 1;
          front = q.front;
          back = some node;
          len = q.len + 1;
        })

  -- setValue(nullptr), setNext(nullptr) and delete on the old front
  unfoldable pub free : Heap A → ℕ → Heap A
  free h p = update (update h p (some (record { val = none; next = none }))) p none

  unfoldable pub pop : Queue A → Run (Option A × Queue A)
  unfolding deref free
  pop q = if q.len == 0 then ok (none, q) else do
    (p, n) ← deref q.heap q.front
    ok (
      n.val,
      record q {
        heap = free q.heap p;
        front = n.next;
        back = back_after n.next q.back;
        len = prev_size q.len;
      },
    )

  -- Node's destructor deletes the rest of the chain, on fuel
  unfoldable pub delete_chain : ℕ → Heap A → Option ℕ → Run (Heap A)
  unfolding deref
  delete_chain fuel h none = ok h
  delete_chain zero h (some p) = fault diverges
  delete_chain (suc fuel) h (some p) =
      deref h (some p) >>= λ pn. delete_chain fuel (update h p none) pn.1.next

  unfoldable pub clear : Queue A → Run (Queue A)
  unfolding delete_chain
  clear q = do
    h ← delete_chain q.len q.heap q.front
    ok (record q { heap = h; front = none; back = none; len = 0 })

  -- the two tests of Node::equals on the values; `same` is equals, whose argument may be null
  abbrev pub differ : (A → Option A → Bool) → Option A → Option A → Bool
  differ same none other = false
  differ same (some v) other = not (same v other)

  -- Node::equals on distinct nodes, on fuel
  unfoldable pub node_equals :
      (A → Option A → Bool) → ℕ → Heap A → Heap A → Option ℕ → Option ℕ → Run Bool
  unfolding deref
  node_equals same zero h k p q = fault diverges
  node_equals same (suc fuel) h k p q = deref h p >>= λ pn. deref k q >>= λ qm.
      let rest = node_equals same fuel h k pn.1.next qm.1.next in
      if differ same qm.1.val pn.1.val
      then ok false
      else if differ same pn.1.val qm.1.val
      then ok false
      else elim pn.1.next [
        | none ↦ elim qm.1.next [ none ↦ ok true | some b ↦ ok false ]
        | some a ↦ elim qm.1.next [ none ↦ ok false | some b ↦ rest ]
      ]

  unfoldable pub equals : (A → Option A → Bool) → Queue A → Queue A → Run Bool
  unfolding node_equals
  equals same q o = elim q.front [
    | none ↦ elim o.front [ none ↦ ok true | some b ↦ ok false ]
    | some a ↦ elim o.front [
      | none ↦ ok false
      | some b ↦ node_equals same q.len q.heap o.heap q.front o.front
    ]
  ]
