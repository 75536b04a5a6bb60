-- ===== src/Utils/Map.antt =====
-- The classes Entry and Map of utils/map.h. A chain of Entry objects is a list of its pairs.
pub mod Chain
pub mod Buckets
pub mod Laws
pub mod Keys
pub mod Equality
use swdev_proj.Prelude.{
  ℕ, zero, suc, ◌+◌, ◌-◌, ◌%◌, List, [], ◌∷◌, ◌++◌, Option, none, some, Bool, true, false, ltb,
  ◌==◌, if◌then◌else◌, prev_size, length, get_elem?, set, replicate, Run, ok, fault, undefined,
  exits, asserts, ◌>>=◌,
}
use swdev_proj.Utils.Hashed.{Hashed, ◌=ᵏ◌}

abbrev pub Chain : Type 0 → Type 0 → Type 0
Chain K V = List (K × V)

-- Entry::getKey(idx), Entry::getValue(idx) on a chain that has at least one entry
unfoldable pub entry_at : {K V : Type 0} → Chain K V → ℕ → Run (K × V)
entry_at [] idx = fault exits
entry_at (e ∷ c) zero = ok e
entry_at (e ∷ c) (suc idx) = entry_at c idx

-- size_++ when there was no entry for the key
abbrev pub counted_in : {V : Type 0} → Option V → ℕ → ℕ
counted_in none n = n + 1
counted_in (some old) n = n

pub record Map (K V : Type 0) : Type 0 where
  pub buckets : List (Chain K V)
  pub capacity : ℕ
  pub size : ℕ

-- Map(capacity)
unfoldable pub new : {K V : Type 0} → ℕ → Map K V
new capacity = record { buckets = replicate capacity []; capacity = capacity; size = 0 }

-- assert(removedEntry)
abbrev pub assert_removed : {K V : Type 0} → Option V × Map K V → Run (Option V × Map K V)
assert_removed (none, m) = fault asserts
assert_removed (some v, m) = ok (some v, m)

module _ {K V : Type 0} ⦃hashed : Hashed K⦄ where
  -- the loops of insertIntoBucket_, getFromBucket_, removeFromBucket_ along one chain
  unfoldable pub insert_chain : K → V → Chain K V → Option V × Chain K V
  insert_chain key val [] = (none, (key, val) ∷ [])
  insert_chain key val (e ∷ c) =
      let rest = insert_chain key val c in
      if e.0 =ᵏ key then (some e.1, (e.0, val) ∷ c) else (rest.0, e ∷ rest.1)

  unfoldable pub get_chain : K → Chain K V → Option V
  get_chain key [] = none
  get_chain key (e ∷ c) = let rest = get_chain key c in if e.0 =ᵏ key then some e.1 else rest

  unfoldable pub remove_chain : K → Chain K V → Option (V × Chain K V)
  remove_chain key [] = none
  remove_chain key (e ∷ c) =
      let rest = remove_chain key c in
      if e.0 =ᵏ key then some (e.1, c) else elim rest [ none ↦ none | some p ↦ some (p.0, e ∷ p.1) ]

  unfoldable pub chain_contains_key : K → Chain K V → Bool
  chain_contains_key key [] = false
  chain_contains_key key (e ∷ c) =
      let rest = chain_contains_key key c in if e.0 =ᵏ key then true else rest

  -- key->hash() % capacity_
  unfoldable pub slot : Map K V → K → Run ℕ
  slot m key = if m.capacity == 0 then fault undefined else ok (hashed.hash key % m.capacity)

  -- buckets_[index]
  unfoldable pub bucket : Map K V → ℕ → Run (Chain K V)
  bucket m index = elim (get_elem? m.buckets index) [ none ↦ fault undefined | some c ↦ ok c ]

  unfoldable pub insert_into_bucket : ℕ → K → V → Map K V → Run (Option V × Map K V)
  unfolding bucket
  insert_into_bucket index key val m = do
    c ← bucket m index
    let r = insert_chain key val c
    ok (r.0, record m { buckets = set m.buckets index r.1; size = counted_in r.0 m.size })

  -- a null key or value changes nothing
  unfoldable pub put : Option K → Option V → Map K V → Run (Option V × Map K V)
  unfolding slot insert_into_bucket
  put none val m = ok (none, m)
  put (some key) none m = ok (none, m)
  put (some key) (some val) m = do index ← slot m key; insert_into_bucket index key val m

  unfoldable pub get : Option K → Map K V → Run (Option V)
  unfolding slot bucket
  get none m = ok none
  get (some key) m = do index ← slot m key; c ← bucket m index; ok (get_chain key c)

  unfoldable pub contains_key : Option K → Map K V → Run Bool
  unfolding slot bucket
  contains_key none m = ok false
  contains_key (some key) m = do
    index ← slot m key
    c ← bucket m index
    ok (chain_contains_key key c)

  unfoldable pub remove_from_bucket : ℕ → K → Map K V → Run (Option V × Map K V)
  unfolding bucket
  remove_from_bucket index key m = do
    c ← bucket m index
    elim (remove_chain key c) [
      | none ↦ ok (none, m)
      | some p ↦
          ok (some p.0, record m { buckets = set m.buckets index p.1; size = prev_size m.size })
    ]

  -- `assert(removedEntry)`: a key that is not there ends the process
  unfoldable pub remove : Option K → Map K V → Run (Option V × Map K V)
  unfolding slot remove_from_bucket
  remove none m = ok (none, m)
  remove (some key) m = do index ← slot m key; r ← remove_from_bucket index key m; assert_removed r

module _ {K V : Type 0} where
  unfoldable pub clear : Map K V → Map K V
  unfolding new
  clear m = new 4

  -- addKeysToArr and addValuesToArr write into an array of `room` slots, from slot `length arr` on
  unfoldable pub fill_chain : {A : Type 0} → (K × V → A) → ℕ → List A → Chain K V → Run (List A)
  fill_chain field room arr [] = ok arr
  fill_chain field room arr (e ∷ c) =
      let rest = fill_chain field room (arr ++ field e ∷ []) c in
      if ltb (length arr) room then rest else fault undefined

  unfoldable pub fill_buckets :
      {A : Type 0} → (K × V → A) → ℕ → List A → List (Chain K V) → Run (List A)
  unfolding fill_chain
  fill_buckets field room arr [] = ok arr
  fill_buckets field room arr (c ∷ cs) =
      fill_chain field room arr c >>= λ next. fill_buckets field room next cs

  unfoldable pub get_keys : Map K V → Run (List K)
  unfolding fill_buckets
  get_keys m = fill_buckets (λ e. e.0) m.size [] m.buckets

  unfoldable pub get_values : Map K V → Run (List V)
  unfolding fill_buckets
  get_values m = fill_buckets (λ e. e.1) m.size [] m.buckets
