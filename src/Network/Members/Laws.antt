-- ===== src/Network/Members/Laws.antt =====
-- The end of a run: handleDoneMsg and sendTeardownMsgs_ of network/network.h and
-- network/pseudo/pseudonetwork.h.
use swdev_proj.Prelude.{
  ℕ, zero, suc, ◌+◌, ◌<◌, ◌≡◌, ◌≢◌, ◌⊎◌, inl, inr, refl, ap, ◌∙◌, Bool-cases, List, [], ◌∷◌, some,
  Bool, true, false, ltb, if◌then◌else◌, arith, length, get_elem?, set, length-set, get_elem?-set,
  get_elem?-set_self, Returns,
}
use swdev_proj.Network.Message.{Message, teardown_msg}
use swdev_proj.Network.Members.{mark, all_done, teardown_msgs, count_done}

-- all_done says whether every flag is set.
all_done-true :
    (flags : List Bool) (i : ℕ)
    → all_done flags ≡ true
    → i < length flags
    → get_elem? flags i ≡ some true
unfolding all_done
all_done-true [] i h l = absurd (omega arith)
all_done-true (true ∷ bs) zero h l = refl
all_done-true (true ∷ bs) (suc i) h l = all_done-true bs i h (omega arith)
all_done-true (false ∷ bs) i h l = cc

all_done-false :
    (flags : List Bool) → all_done flags ≡ false → (i : ℕ) × (get_elem? flags i ≡ some false)
unfolding all_done
all_done-false [] h = cc
all_done-false (true ∷ bs) h = let (i, e) = all_done-false bs h in (suc i, e)
all_done-false (false ∷ bs) h = (0, refl)

teardown_msgs-get :
    (index n i j k : ℕ)
    → k ≡ i + j
    → j < n
    → get_elem? (teardown_msgs index n i) j ≡ some (teardown_msg index k)
unfolding teardown_msgs
teardown_msgs-get index zero i j k e h = absurd (omega arith)
teardown_msgs-get index (suc n) i zero k e h =
    let same : i ≡ k = omega arith in ap (λ l. some (teardown_msg index l)) same
teardown_msgs-get index (suc n) i (suc j) k e h =
    teardown_msgs-get index n (i + 1) j k (omega arith) (omega arith)

length-teardown_msgs : (index n i : ℕ) → length (teardown_msgs index n i) ≡ n
unfolding teardown_msgs
length-teardown_msgs index zero i = refl
length-teardown_msgs index (suc n) i = omega (arith, length-teardown_msgs index n (i + 1))

-- What the server does when it has marked a node.
pub record Counted (index : ℕ) (m : Message) (flags : List Bool) (r : List Message × List Bool)
    : Type 0 where
  pub same_length : length r.1 ≡ length flags
  pub marked : get_elem? r.1 m.sender ≡ some true
  pub others : (i : ℕ) → m.sender ≢ i → get_elem? r.1 i ≡ get_elem? flags i
  pub decided :
      (((i : ℕ) → i < length flags → get_elem? r.1 i ≡ some true)
        × (length r.0 ≡ length flags)
        × ((j : ℕ) → j < length flags → get_elem? r.0 j ≡ some (teardown_msg index j)))
      ⊎ ((i : ℕ) × (get_elem? r.1 i ≡ some false) × (r.0 ≡ []))

-- A DoneMsg from a node of the network sets the flag of its sender and no other. When then every
-- node has finished, one teardown message goes to each node, in the order of the nodes; as long as
-- some node has not, nothing is sent.
pub count_done-Counted :
    (index : ℕ) (m : Message) (flags : List Bool)
    → m.sender < length flags
    → Returns (count_done index m flags) (Counted index m flags)
unfolding count_done mark
count_done-Counted index m flags l =
    let next = set flags m.sender true in
    let inside : ltb m.sender (length flags) ≡ true = ground arith in
    let size = length-set flags m.sender true in
    (
      (if all_done next then teardown_msgs index (length next) 0 else [], next),
      rw inside refl,
      record {
        same_length = size;
        marked = get_elem?-set_self flags m.sender true l;
        others = λ i d. get_elem?-set flags m.sender i true l d;
        decided = elim (Bool-cases (all_done next)) [
          | inl e ↦ inl (
            (λ i h. all_done-true next i e (omega arith)),
            rw e (length-teardown_msgs index (length next) 0 ∙ size),
            λ j h. rw e (teardown_msgs-get index (length next) 0 j j (omega arith) (omega arith)),
          )
          | inr e ↦ let (i, at) = all_done-false next e in inr (i, at, rw e refl)
        ];
      },
    )
