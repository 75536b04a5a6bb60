-- ===== src/Utils/Queue/Shape.antt =====
-- The chain of nodes of a Queue of utils/queue.h, and what a write at one address leaves alone.
use swdev_proj.Prelude.{
  ℕ, ◌+◌, ◌≤◌, ◌<◌, ◌≡◌, ◌≢◌, ◌∙◌, List, [], ◌∷◌, ◌++◌, Option, none, some, arith,
}
use swdev_proj.Utils.Queue.{Node, Heap, update}

abbrev pub first : List ℕ → Option ℕ
first [] = none
first (p ∷ ps) = some p

-- The last of the addresses `p ∷ ps`.
abbrev pub last_of : ℕ → List ℕ → ℕ
last_of p [] = p
last_of p (q ∷ qs) = last_of q qs

abbrev pub last : List ℕ → Option ℕ
last [] = none
last (p ∷ ps) = some (last_of p ps)

-- The addresses ascend, and all stand below `b`.
abbrev pub Ascends : List ℕ → ℕ → Type 0
Ascends [] b = Unit
Ascends (p ∷ []) b = p < b
Ascends (p ∷ q ∷ qs) b = (p < q) × Ascends (q ∷ qs) b

module _ {A : Type 0} where
  -- The nodes at the addresses hold the items, and each points to the one behind it.
  abbrev pub Linked : Heap A → List ℕ → List (Option A) → Type 0
  Linked h [] [] = Unit
  Linked h [] (x ∷ xs) = ⊥
  Linked h (p ∷ ps) [] = ⊥
  Linked h (p ∷ ps) (x ∷ xs) = (h p ≡ some (record { val = x; next = first ps })) × Linked h ps xs

pub Ascends-tail : (p : ℕ) (ps : List ℕ) (b : ℕ) → Ascends (p ∷ ps) b → Ascends ps b
Ascends-tail p [] b h = tt
Ascends-tail p (q ∷ qs) b h = h.1

pub last_of_bounds :
    (p : ℕ) (ps : List ℕ) (b : ℕ) → Ascends (p ∷ ps) b → (p ≤ last_of p ps) × (last_of p ps < b)
last_of_bounds p [] b h = omega arith
last_of_bounds p (q ∷ qs) b h = omega (arith, last_of_bounds q qs b h.1, h.0)

pub Ascends-snoc : (ps : List ℕ) (b : ℕ) → Ascends ps b → Ascends (ps ++ b ∷ []) (b + 1)
Ascends-snoc [] b h = omega arith
Ascends-snoc (p ∷ []) b h = omega arith
Ascends-snoc (p ∷ q ∷ qs) b h = (h.0, Ascends-snoc (q ∷ qs) b h.1)

module _ {A : Type 0} where
  update_ne : (h : Heap A) (a p : ℕ) (c : Option (Node A)) → a ≢ p → update h a c p ≡ h p
  update_ne h a p c n = ground arith

  -- A write below the addresses, or at their bound, changes no node of the chain.
  pub Linked-below :
      (h : Heap A) (a : ℕ) (c : Option (Node A)) (ps : List ℕ) (xs : List (Option A)) (b : ℕ)
      → Ascends (a ∷ ps) b
      → Linked h ps xs
      → Linked (update h a c) ps xs
  Linked-below h a c [] [] b s l = tt
  Linked-below h a c [] (x ∷ xs) b s l = l
  Linked-below h a c (p ∷ ps) [] b s l = l
  Linked-below h a c (p ∷ []) (x ∷ []) b s l = (update_ne h a p c (omega arith) ∙ l.0, tt)
  Linked-below h a c (p ∷ []) (x ∷ y ∷ xs) b s l = absurd l.1
  Linked-below h a c (p ∷ q ∷ ps) (x ∷ xs) b s l = (
    update_ne h a p c (omega arith) ∙ l.0,
    Linked-below h a c (q ∷ ps) xs b (omega (arith, s.0, s.1.0), s.1.1) l.1,
  )

  -- push behind a chain that is not empty: the last node's `next` is set to the new node.
  pub Linked-snoc :
      (h : Heap A) (p : ℕ) (ps : List ℕ) (xs : List (Option A)) (o : Option A) (b : ℕ)
      → Ascends (p ∷ ps) b
      → Linked h (p ∷ ps) xs
      → (v : Option A) × (h (last_of p ps) ≡ some (record { val = v; next = none }))
        × Linked
            (update
              (update h b (some (record { val = o; next = none })))
              (last_of p ps)
              (some (record { val = v; next = some b })))
            ((p ∷ ps) ++ b ∷ [])
            (xs ++ o ∷ [])
  Linked-snoc h p [] [] o b s l = absurd l
  Linked-snoc h p [] (x ∷ []) o b s l = (x, l.0, (ground arith, (ground arith, tt)))
  Linked-snoc h p [] (x ∷ y ∷ xs) o b s l = absurd l.1
  Linked-snoc h p (q ∷ qs) [] o b s l = absurd l
  Linked-snoc h p (q ∷ qs) (x ∷ xs) o b s l =
      let (v, at, rest) = Linked-snoc h q qs xs o b s.1 l.1 in
      let bounds = last_of_bounds q qs b s.1 in (v, at, (ground (arith, l.0, bounds, s.0), rest))
