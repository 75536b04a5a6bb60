-- ===== src/Utils/Map/Keys.antt =====
-- get_keys and get_values of utils/map.h fill an array of size() slots exactly.
use swdev_proj.Prelude.{
  ℕ, zero, suc, ◌+◌, ◌≤◌, ◌≡◌, ◌≢◌, refl, sym, ap, ◌∙◌, List, [], ◌∷◌, ◌++◌, append_assoc,
  append-nil, arith, length, length-append, get_or, ok, ◌>>=◌,
}
use swdev_proj.Utils.Hashed.{Hashed, ◌=ᵏ◌}
use swdev_proj.Utils.Map.{Map, Chain, fill_chain, fill_buckets, get_keys, get_values, get_chain}
use swdev_proj.Utils.Map.Chain.{count, to_nat, is_some}
use swdev_proj.Utils.Map.Buckets.{total, chain_at, home, view, IsValid}

-- The keys, or the values, of all entries: bucket by bucket, each chain from its front.
module _ {E A : Type 0} (field : E → A) where
  unfoldable pub column : List E → List A
  column [] = []
  column (e ∷ c) = field e ∷ column c

  unfoldable pub columns : List (List E) → List A
  unfolding column
  columns [] = []
  columns (c ∷ cs) = column c ++ columns cs

  length-column : (c : List E) → length (column c) ≡ length c
  unfolding column
  length-column [] = refl
  length-column (e ∷ c) = ap suc (length-column c)

  pub length-columns : (cs : List (List E)) → length (columns cs) ≡ total cs
  unfolding columns total
  length-columns [] = refl
  length-columns (c ∷ cs) =
      omega (arith, length-append (column c) (columns cs), length-column c, length-columns cs)

module _ {K V A : Type 0} (field : K × V → A) (room : ℕ) where
  fill_chain-eq :
      (arr : List A) (c : Chain K V)
      → length arr + length c ≤ room
      → fill_chain field room arr c ≡ ok (arr ++ column field c)
  unfolding fill_chain column
  fill_chain-eq arr [] h = ap ok (sym (append-nil arr))
  fill_chain-eq arr (e ∷ c) h =
      let next =
        fill_chain-eq (arr ++ field e ∷ []) c (omega (arith, length-append arr (field e ∷ []))) in
      ground (arith, next, append_assoc arr (field e ∷ []) (column field c))

  pub fill_buckets-eq :
      (arr : List A) (cs : List (Chain K V))
      → length arr + total cs ≤ room
      → fill_buckets field room arr cs ≡ ok (arr ++ columns field cs)
  unfolding fill_buckets columns total
  fill_buckets-eq arr [] h = ap ok (sym (append-nil arr))
  fill_buckets-eq arr (c ∷ cs) h =
      let next =
        fill_buckets-eq (arr ++ column field c) cs
          (omega (arith, length-append arr (column field c), length-column field c)) in
      rw (fill_chain-eq arr c (omega arith), ◌>>=◌, next)
        (ap ok (append_assoc arr (column field c) (columns field cs)))

module _ {K : Type 0} ⦃hashed : Hashed K⦄ where
  -- How often a key stands in an array of keys.
  unfoldable pub occurs : K → List K → ℕ
  occurs q [] = 0
  occurs q (k ∷ ks) = to_nat (k =ᵏ q) + occurs q ks

  occurs-append : (q : K) (xs ys : List K) → occurs q (xs ++ ys) ≡ occurs q xs + occurs q ys
  unfolding occurs
  occurs-append q [] ys = omega arith
  occurs-append q (x ∷ xs) ys = omega (arith, occurs-append q xs ys)

module _ {K V : Type 0} ⦃hashed : Hashed K⦄ where
  abbrev key_of : K × V → K
  key_of e = e.0

  occurs-column : (q : K) (c : Chain K V) → occurs q (column key_of c) ≡ count q c
  unfolding column occurs count
  occurs-column q [] = refl
  occurs-column q (e ∷ c) = ap (λ (n : ℕ). to_nat (e.0 =ᵏ q) + n) (occurs-column q c)

  occurs_nowhere :
      (q : K) (cs : List (Chain K V))
      → ((i : ℕ) → count q (get_or cs i []) ≡ 0)
      → occurs q (columns key_of cs) ≡ 0
  unfolding columns occurs
  occurs_nowhere q [] h = refl
  occurs_nowhere q (c ∷ cs) h = omega (
    arith,
    occurs-append q (column key_of c) (columns key_of cs),
    occurs-column q c,
    h 0,
    occurs_nowhere q cs (λ i. h (suc i)),
  )

  occurs_only :
      (q : K) (cs : List (Chain K V)) (j : ℕ)
      → ((i : ℕ) → j ≢ i → count q (get_or cs i []) ≡ 0)
      → occurs q (columns key_of cs) ≡ count q (get_or cs j [])
  unfolding columns occurs count
  occurs_only q [] j h = refl
  occurs_only q (c ∷ cs) zero h = omega (
    arith,
    occurs-append q (column key_of c) (columns key_of cs),
    occurs-column q c,
    occurs_nowhere q cs (λ i. h (suc i) (omega arith)),
  )
  occurs_only q (c ∷ cs) (suc j) h = omega (
    arith,
    occurs-append q (column key_of c) (columns key_of cs),
    occurs-column q c,
    h 0 (omega arith),
    occurs_only q cs j (λ i n. h (suc i) (omega arith)),
  )

  count-is_some :
      (q : K) (c : Chain K V) → count q c ≤ 1 → count q c ≡ to_nat (is_some (get_chain q c))
  unfolding count get_chain
  count-is_some q [] h = refl
  count-is_some q (e ∷ c) h = ground (arith, count-is_some q c)

  -- On a valid map get_keys returns, without a write past the end of its array, an array of size()
  -- keys in which a key stands exactly once if the map holds something under it and not at all
  -- otherwise.
  pub get_keys-exact :
      (m : Map K V)
      → IsValid m
      → (keys : List K) × (get_keys m ≡ ok keys)
        × (length keys ≡ m.size)
        × ((q : K) → hashed.Good q → occurs q keys ≡ to_nat (is_some (view m q)))
  unfolding get_keys view
  get_keys-exact m v = (
    columns key_of m.buckets,
    fill_buckets-eq key_of m.size [] m.buckets (omega (arith, v.counted)),
    length-columns key_of m.buckets ∙ v.counted,
    λ q g.
        occurs_only q m.buckets (home m q) (λ i n. v.placed q i g n)
        ∙ count-is_some q (chain_at m (home m q)) (v.single q (home m q)),
  )

  -- get_values returns an array of size() values, one for each entry.
  pub get_values-exact :
      (m : Map K V)
      → IsValid m
      → (get_values m ≡ ok (columns (λ (e : K × V). e.1) m.buckets))
        × (length (columns (λ (e : K × V). e.1) m.buckets) ≡ m.size)
  unfolding get_values
  get_values-exact m v = (
    fill_buckets-eq (λ (e : K × V). e.1) m.size [] m.buckets (omega (arith, v.counted)),
    length-columns (λ (e : K × V). e.1) m.buckets ∙ v.counted,
  )
