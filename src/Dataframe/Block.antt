-- ===== src/Dataframe/Block.antt =====
-- src/dataframe/block: IntBlock, DoubleBlock, BoolBlock and StringBlock, which differ in the type
-- of an item, in how one is written and read, and in how two are compared. `vals` is the whole
-- allocation, `zero` what memset puts into a cell.
pub mod Laws
pub mod Copy
pub mod Wire
pub mod Kinds
use swdev_proj.Prelude.{
  ℕ, zero, suc, ◌+◌, List, [], ◌∷◌, Option, none, some, Bool, true, false, ltb, leb, ◌==◌,
  if◌then◌else◌, not, length, get_elem?, set, replicate, Run, ok, fault, exits, undefined, ◌>>=◌,
  ◌||◌,
}
use swdev_proj.Serial.{Serializer, write_size, read_size}

pub record Block (A : Type 0) : Type 0 where
  pub capacity : ℕ
  pub size : ℕ
  pub vals : List A

module _ {A : Type 0} where
  -- vals_[i] and vals_[i] = v, inside the allocation
  unfoldable pub load : ℕ → List A → Run A
  load i vals = elim (get_elem? vals i) [ none ↦ fault undefined | some v ↦ ok v ]

  unfoldable pub store : ℕ → A → List A → Run (List A)
  store i v vals = if ltb i (length vals) then ok (set vals i v) else fault undefined

  -- The constructor, for args.blockSize = capacity.
  unfoldable pub new : A → ℕ → Block A
  new initial capacity = record { capacity = capacity; size = 0; vals = replicate capacity initial }

  unfoldable pub get : ℕ → Block A → Run A
  unfolding load
  get index b = if leb b.size index then fault exits else load index b.vals

  -- add; whether it gave -1 for a full block
  unfoldable pub add : A → Block A → Run (Bool × Block A)
  unfolding store
  add n b =
      if leb b.capacity b.size
      then ok (true, b)
      else do vals ← store b.size n b.vals; ok (false, record b { vals = vals; size = b.size + 1 })

  -- set; the old value is returned
  unfoldable pub set_at : ℕ → A → Block A → Run (A × Block A)
  unfolding load store
  set_at index v b = if leb b.size index then fault exits else do
    old ← load index b.vals
    vals ← store index v b.vals
    ok (old, record b { vals = vals })

  -- the loop of equals from item `i` on, with `n` rounds left
  unfoldable pub equals_from : (A → A → Run Bool) → ℕ → ℕ → Block A → Block A → Run Bool
  unfolding load
  equals_from same zero i b o = ok true
  equals_from same (suc n) i b o = load i b.vals >>= λ x. load i o.vals >>= λ y.
      let rest = equals_from same n (i + 1) b o in
      same x y >>= λ alike. if alike then rest else ok false

  -- equals on two blocks that are not the same object
  unfoldable pub equals : (A → A → Run Bool) → Block A → Block A → Run Bool
  unfolding equals_from
  equals same b o =
      let items = equals_from same b.size 0 b o in
      if not (b.size == o.size) || not (b.capacity == o.capacity) then ok false else items

  -- clear; memset leaves zeros in the first `wiped` cells
  unfoldable pub wipe : A → ℕ → List A → List A
  wipe initial zero vals = vals
  wipe initial (suc n) [] = []
  wipe initial (suc n) (v ∷ vals) = initial ∷ wipe initial n vals

  unfoldable pub clear : A → ℕ → Block A → Block A
  unfolding wipe
  clear initial wiped b = record b { vals = wipe initial wiped b.vals; size = 0 }

  -- the loop of clone; what add gives back is not looked at
  unfoldable pub clone_from : ℕ → ℕ → Block A → Block A → Run (Block A)
  unfolding get add
  clone_from zero i b out = ok out
  clone_from (suc n) i b out = do
    v ← get i b
    (rejected, next) ← add v out
    clone_from n (i + 1) b next

  unfoldable pub clone : A → ℕ → Block A → Run (Block A)
  unfolding new clone_from
  clone initial block_size b = clone_from b.size 0 b (new initial block_size)

  -- the loop of serialize
  unfoldable pub put_from :
      (A → Serializer → Run Serializer) → ℕ → ℕ → List A → Serializer → Run Serializer
  unfolding load
  put_from put zero i vals s = ok s
  put_from put (suc n) i vals s = do v ← load i vals; t ← put v s; put_from put n (i + 1) vals t

  unfoldable pub serialize :
      (A → Serializer → Run Serializer) → Block A → Serializer → Run Serializer
  unfolding put_from
  serialize put b s = do
    t ← write_size b.capacity s
    u ← write_size b.size t
    put_from put b.size 0 b.vals u

  -- the loop of deserialize
  unfoldable pub get_into :
      (Serializer → Run (A × Serializer)) → ℕ → ℕ → List A → Serializer → Run (List A × Serializer)
  unfolding store
  get_into take_one zero i vals s = ok (vals, s)
  get_into take_one (suc n) i vals s = do
    (v, t) ← take_one s
    next ← store i v vals
    get_into take_one n (i + 1) next t

  unfoldable pub deserialize :
      (Serializer → Run (A × Serializer)) → A → Serializer → Run (Block A × Serializer)
  unfolding get_into
  deserialize take_one initial s = do
    (capacity, t) ← read_size s
    (size, u) ← read_size t
    (vals, w) ← get_into take_one size 0 (replicate capacity initial) u
    ok (record { capacity = capacity; size = size; vals = vals }, w)
