-- ===== src/Utils/Array.antt =====
-- The class Array of utils/array.h. A cell that was never written is `none`.
pub mod Laws
pub mod Change
pub mod Search
use swdev_proj.Prelude.{
  ℕ, zero, suc, ◌+◌, ◌-◌, ◌*◌, List, [], ◌∷◌, ◌++◌, Option, none, some, Bool, true, false, ltb, leb,
  ◌==◌, if◌then◌else◌, length, get_elem?, set, take, replicate, Run, ok, fault, undefined, exits,
  asserts, guard, ◌>>=◌, ◌>>◌,
}
use swdev_proj.Prelude.Int.{ℤ, pos, negsuc}

pub record Array (A : Type 0) : Type 0 where
  pub obj_list : List (Option A)
  pub capacity : ℕ
  pub len : ℕ

module _ {A : Type 0} where
  -- Array(initialCapacity)
  unfoldable pub new : ℕ → Array A
  new capacity = record { obj_list = replicate capacity none; capacity = capacity; len = 0 }

  -- objList_[i] and objList_[i] = o, inside the allocation
  unfoldable pub load : List (Option A) → ℕ → Run (Option A)
  load cells i = elim (get_elem? cells i) [ none ↦ fault undefined | some c ↦ ok c ]

  unfoldable pub store : List (Option A) → ℕ → Option A → Run (List (Option A))
  store cells i c = if ltb i (length cells) then ok (set cells i c) else fault undefined

  abbrev read_cell : Option A → Run A
  read_cell none = fault undefined
  read_cell (some a) = ok a

  unfoldable pub get : ℕ → Array A → Run A
  unfolding load
  get index a = if leb a.len index then fault exits else load a.obj_list index >>= read_cell

  unfoldable pub has_room_for_more_elems : ℕ → Array A → Bool
  has_room_for_more_elems n a = leb (a.len + n) a.capacity

  -- the copy of the first len_ cells into a new allocation
  unfoldable pub expand_array : Array A → Array A
  expand_array a = record a {
    obj_list = take a.len a.obj_list ++ replicate (a.capacity * 2 - a.len) none;
    capacity = a.capacity * 2;
  }

  unfoldable pub append_here : A → Array A → Run (Array A)
  unfolding store
  append_here o a = do
    cells ← store a.obj_list a.len (some o)
    ok (record a { obj_list = cells; len = a.len + 1 })

  unfoldable pub add : A → Array A → Run (Array A)
  unfolding has_room_for_more_elems expand_array append_here
  add o a = append_here o (if has_room_for_more_elems 1 a then a else expand_array a)

  -- set(index, o); at index == len_ it fails an assertion
  unfoldable pub set_at : ℕ → A → Array A → Run (A × Array A)
  unfolding load store
  set_at index o a = do
    if ltb a.len index then fault exits else ok tt
    if index == a.len then fault asserts else ok tt
    cell ← load a.obj_list index
    rep ← read_cell cell
    cells ← store a.obj_list index (some o)
    ok (rep, record a { obj_list = cells })

  -- for (i = index; i < len_; i++) objList_[i] = objList_[i + 1], on the rounds left
  unfoldable pub shift : ℕ → ℕ → List (Option A) → Run (List (Option A))
  unfolding load store
  shift zero i cells = ok cells
  shift (suc n) i cells = do c ← load cells (i + 1); next ← store cells i c; shift n (i + 1) next

  unfoldable pub remove : ℕ → Array A → Run (A × Array A)
  unfolding get shift
  remove index a = if leb a.len index then fault exits else do
    val ← get index a
    cells ← shift (a.len - 1 - index) index a.obj_list
    ok (val, record a { obj_list = cells; len = a.len - 1 })

  -- the loop of index_of from `i` on, with `n` rounds left
  unfoldable pub index_from : (A → Bool) → ℕ → ℕ → Array A → Run ℤ
  unfolding get
  index_from same zero i a = ok (negsuc 0)
  index_from same (suc n) i a =
      get i a >>= λ x. elim (same x) [ true ↦ ok (pos i) | false ↦ index_from same n (i + 1) a ]

  -- index_of; `same x` is x->equals(o)
  unfoldable pub index_of : (A → Bool) → Array A → Run ℤ
  unfolding index_from
  index_of same a = index_from same a.len 0 a

  unfoldable pub equals_from : (A → A → Bool) → ℕ → ℕ → Array A → Array A → Run Bool
  unfolding get
  equals_from same zero i a o = ok true
  equals_from same (suc n) i a o = do
    x ← get i a
    y ← get i o
    elim (same x y) [ true ↦ equals_from same n (i + 1) a o | false ↦ ok false ]

  -- equals on two distinct arrays
  unfoldable pub equals : (A → A → Bool) → Array A → Array A → Run Bool
  unfolding equals_from
  equals same a o = if a.len == o.len then equals_from same a.len 0 a o else ok false

  unfoldable pub clear : Array A → Array A
  unfolding new
  clear a = new 2
