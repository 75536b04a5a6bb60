-- ===== src/Utils/Map/Chain.antt =====
-- One bucket of utils/map.h: what the loops along a chain of entries do.
use swdev_proj.Prelude.{
  ℕ, ◌+◌, ◌≤◌, ◌≡◌, refl, [], ◌∷◌, Option, none, some, Bool, true, false, arith, if◌then◌else◌,
  length,
}
use swdev_proj.Utils.Hashed.{Hashed, ◌=ᵏ◌, =ᵏ_congr, =ᵏ_congr_right}
use swdev_proj.Utils.Map.{
  Chain, counted_in, insert_chain, get_chain, remove_chain, chain_contains_key,
}

abbrev pub to_nat : Bool → ℕ
to_nat true = 1
to_nat false = 0

abbrev pub is_some : {V : Type 0} → Option V → Bool
is_some none = false
is_some (some v) = true

module _ {K V : Type 0} ⦃hashed : Hashed K⦄ where
  -- How many entries have a key that equals `q`.
  unfoldable pub count : K → Chain K V → ℕ
  count q [] = 0
  count q (e ∷ c) = to_nat (e.0 =ᵏ q) + count q c

  pub contains-get : (q : K) (c : Chain K V) → chain_contains_key q c ≡ is_some (get_chain q c)
  unfolding chain_contains_key get_chain
  contains-get q [] = refl
  contains-get q (e ∷ c) = ground (arith, contains-get q c)

  pub get-eq-none : (q : K) (c : Chain K V) → count q c ≡ 0 → get_chain q c ≡ none
  unfolding count get_chain
  get-eq-none q [] h = refl
  get-eq-none q (e ∷ c) h = ground (arith, get-eq-none q c)

  pub insert_returns : (k : K) (v : V) (c : Chain K V) → (insert_chain k v c).0 ≡ get_chain k c
  unfolding insert_chain get_chain
  insert_returns k v [] = refl
  insert_returns k v (e ∷ c) = ground (arith, insert_returns k v c)

  pub length-insert :
      (k : K) (v : V) (c : Chain K V)
      → length (insert_chain k v c).1 ≡ counted_in (insert_chain k v c).0 (length c)
  unfolding insert_chain
  length-insert k v [] = omega arith
  length-insert k v (e ∷ c) = ground (arith, length-insert k v c)

  pub get-insert :
      (k q : K) (v : V) (c : Chain K V)
      → get_chain q (insert_chain k v c).1 ≡ (if k =ᵏ q then some v else get_chain q c)
  unfolding insert_chain get_chain
  get-insert k q v [] = refl
  get-insert k q v (e ∷ c) =
      ground (
        arith,
        get-insert k q v c,
        =ᵏ_congr e.0 k q,
        =ᵏ_congr_right k q e.0,
        hashed.equals_symm k q,
      )

  pub count-insert :
      (k q : K) (v : V) (c : Chain K V)
      → count q (insert_chain k v c).1 ≡ (
          if k =ᵏ q
          then (if is_some (get_chain k c) then count q c else count q c + 1)
          else count q c)
  unfolding insert_chain get_chain count
  count-insert k q v [] = ground arith
  count-insert k q v (e ∷ c) = ground (arith, count-insert k q v c)

  pub count-get_none :
      (k q : K) (c : Chain K V) → get_chain k c ≡ none → (k =ᵏ q) ≡ true → count q c ≡ 0
  unfolding get_chain count
  count-get_none k q [] h e = refl
  count-get_none k q (x ∷ c) h e = ground (arith, count-get_none k q c, =ᵏ_congr_right k q x.0)

  -- The chain after remove_chain, with the chain itself when the key is not there.
  abbrev pub without : K → Chain K V → Chain K V
  without k c = elim (remove_chain k c) [ none ↦ c | some p ↦ p.1 ]

  pub remove_returns :
      (k : K) (c : Chain K V) (v : V)
      → get_chain k c ≡ some v
      → remove_chain k c ≡ some (v, without k c)
  unfolding get_chain remove_chain
  remove_returns k [] v h = cc
  remove_returns k (e ∷ c) v h = ground (arith, remove_returns k c v)

  pub remove_missing : (k : K) (c : Chain K V) → get_chain k c ≡ none → remove_chain k c ≡ none
  unfolding get_chain remove_chain
  remove_missing k [] h = refl
  remove_missing k (e ∷ c) h = ground (arith, remove_missing k c)

  pub length-without :
      (k : K) (c : Chain K V) (v : V) → get_chain k c ≡ some v → length c ≡ length (without k c) + 1
  unfolding get_chain remove_chain
  length-without k [] v h = cc
  length-without k (e ∷ c) v h = ground (arith, length-without k c v)

  pub count-without : (k q : K) (c : Chain K V) → count q (without k c) ≤ count q c
  unfolding remove_chain count
  count-without k q [] = omega arith
  count-without k q (e ∷ c) = ground (arith, count-without k q c)

  pub get-without :
      (k q : K) (c : Chain K V)
      → count q c ≤ 1
      → get_chain q (without k c) ≡ (if k =ᵏ q then none else get_chain q c)
  unfolding get_chain remove_chain count
  get-without k q [] h = ground arith
  get-without k q (e ∷ c) h =
      ground (arith, get-without k q c, get-eq-none q c, =ᵏ_congr e.0 k q, =ᵏ_congr_right k q e.0)

  pub get_congr : (a b : K) (c : Chain K V) → (a =ᵏ b) ≡ true → get_chain a c ≡ get_chain b c
  unfolding get_chain
  get_congr a b [] e = refl
  get_congr a b (x ∷ c) e = ground (arith, get_congr a b c, =ᵏ_congr_right a b x.0)
