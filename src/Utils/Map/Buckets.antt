-- ===== src/Utils/Map/Buckets.antt =====
-- The bucket array of utils/map.h: the invariant of Map, and what a map means.
use swdev_proj.Prelude.{
  ℕ, zero, suc, ◌+◌, ◌%◌, ◌≤◌, ◌<◌, ◌≡◌, ◌≢◌, refl, List, [], ◌∷◌, Option, none, some, true, arith,
  if◌then◌else◌, ◌==◌, length, set, get_or, get_elem?, replicate, length-replicate, ok,
}
use swdev_proj.Utils.Hashed.{Hashed, ◌=ᵏ◌}
use swdev_proj.Utils.Map.{Map, Chain, new, slot, bucket, get_chain}
use swdev_proj.Utils.Map.Chain.{count, get_congr}

module _ {A : Type 0} where
  -- The number of entries in all buckets.
  unfoldable pub total : List (List A) → ℕ
  total [] = 0
  total (c ∷ cs) = length c + total cs

  pub total-set :
      (bs : List (List A)) (i : ℕ) (c : List A)
      → i < length bs
      → total (set bs i c) + length (get_or bs i []) ≡ total bs + length c
  unfolding total
  total-set [] i c h = absurd (omega arith)
  total-set (x ∷ bs) zero c h = omega arith
  total-set (x ∷ bs) (suc i) c h = omega (arith, total-set bs i c (omega arith))

  pub get_or-set :
      (bs : List A) (i j : ℕ) (c d : A)
      → i < length bs
      → get_or (set bs i c) j d ≡ (if i == j then c else get_or bs j d)
  get_or-set [] i j c d h = absurd (omega arith)
  get_or-set (x ∷ bs) zero zero c d h = refl
  get_or-set (x ∷ bs) zero (suc j) c d h = ground arith
  get_or-set (x ∷ bs) (suc i) zero c d h = ground arith
  get_or-set (x ∷ bs) (suc i) (suc j) c d h = ground (arith, get_or-set bs i j c d)

  pub get_elem?-get_or :
      (bs : List A) (i : ℕ) (d : A) → i < length bs → get_elem? bs i ≡ some (get_or bs i d)
  get_elem?-get_or [] i d h = absurd (omega arith)
  get_elem?-get_or (x ∷ bs) zero d h = refl
  get_elem?-get_or (x ∷ bs) (suc i) d h = get_elem?-get_or bs i d (omega arith)

  pub get_or-replicate : (n i : ℕ) (d : A) → get_or (replicate n d) i d ≡ d
  get_or-replicate zero i d = refl
  get_or-replicate (suc n) zero d = refl
  get_or-replicate (suc n) (suc i) d = get_or-replicate n i d

total-replicate : (A : Type 0) (n : ℕ) → total (replicate {A = List A} n []) ≡ 0
unfolding total
total-replicate A zero = refl
total-replicate A (suc n) = omega (arith, total-replicate A n)

module _ {K V : Type 0} ⦃hashed : Hashed K⦄ where
  abbrev pub chain_at : Map K V → ℕ → Chain K V
  chain_at m i = get_or m.buckets i []

  abbrev pub home : Map K V → K → ℕ
  home m q = hashed.hash q % m.capacity

  -- What the map holds under a key.
  unfoldable pub view : Map K V → K → Option V
  view m q = get_chain q (chain_at m (home m q))

  -- A key stands at most once in a bucket, and in no other bucket than its own.
  pub record IsValid (m : Map K V) : Type 0 where
    pub positive : 0 < m.capacity
    pub sized : length m.buckets ≡ m.capacity
    pub counted : total m.buckets ≡ m.size
    pub single : (q : K) (i : ℕ) → count q (chain_at m i) ≤ 1
    pub placed : (q : K) (i : ℕ) → hashed.Good q → home m q ≢ i → count q (chain_at m i) ≡ 0

  pub home-lt : (m : Map K V) (q : K) → IsValid m → home m q < length m.buckets
  home-lt m q v = omega arith

  pub slot-ok : (m : Map K V) (q : K) → IsValid m → slot m q ≡ ok (home m q)
  unfolding slot
  slot-ok m q v = ground arith

  pub bucket-ok : (m : Map K V) (i : ℕ) → i < length m.buckets → bucket m i ≡ ok (chain_at m i)
  unfolding bucket
  bucket-ok m i h = rw (get_elem?-get_or m.buckets i [] h, bucket) refl

  -- The constructor makes a valid empty map of any positive capacity.
  pub new-IsValid : (n : ℕ) → 0 < n → IsValid (new {K = K} {V = V} n)
  unfolding new
  new-IsValid n h = record {
    positive = h;
    sized = length-replicate n [];
    counted = total-replicate (K × V) n;
    single = λ q i. rw (get_or-replicate {A = Chain K V} n i []) (unfold count in omega arith);
    placed = λ q i g ne. rw (get_or-replicate {A = Chain K V} n i []) (unfold count in refl);
  }

  pub new-view : (n : ℕ) (q : K) → view (new {V = V} n) q ≡ none
  unfolding new view get_chain
  new-view n q = rw (get_or-replicate {A = Chain K V} n (hashed.hash q % n) [])

  -- Equal keys read the same entry.
  pub view_congr :
      (m : Map K V) (a b : K)
      → hashed.Good a
      → hashed.Good b
      → (a =ᵏ b) ≡ true
      → view m a ≡ view m b
  unfolding view
  view_congr m a b g h e =
      rw (hashed.hash-equals a b g h e) (get_congr a b (chain_at m (home m b)) e)
