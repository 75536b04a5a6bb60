-- ===== src/Utils/Map/Equality.antt =====
-- Map::equals of utils/map.h, of two objects. The arrays are values, and are not released.
use swdev_proj.Prelude.{
  ◌≡◌, refl, List, [], ◌∷◌, Bool, true, false, not, ◌==◌, if◌then◌else◌, ◌&&◌, Bool-cases, inl, inr,
  arith, Run, ok, ◌>>=◌, ◌↔◌, ap, ◌∙◌, ==_iff, Returns,
}
use mathlib.Core.List.{Memᴰ}
use mathlib.Core.List.Memᴰ.{head, tail}
use swdev_proj.Utils.Hashed.{Hashed}
use swdev_proj.Utils.Map.{Map, get_keys, get_values}
use swdev_proj.Utils.Map.Buckets.{IsValid}
use swdev_proj.Utils.Map.Keys.{columns, fill_buckets-eq}

-- isInArr_; `same x y` is x->equals(y)
unfoldable pub is_in_arr : {A : Type 0} → (A → A → Bool) → A → List A → Bool
is_in_arr same needle [] = false
is_in_arr same needle (x ∷ haystack) =
    let rest = is_in_arr same needle haystack in if same x needle then true else rest

-- the three loops of equals: every object of the first array is in the second
unfoldable pub all_in_arr : {A : Type 0} → (A → A → Bool) → List A → List A → Bool
unfolding is_in_arr
all_in_arr same [] ys = true
all_in_arr same (x ∷ xs) ys =
    let rest = all_in_arr same xs ys in if is_in_arr same x ys then rest else false

-- An array has an object that is equal to `x`.
abbrev pub Has : {A : Type 0} → (A → A → Bool) → A → List A → Type 0
Has {A} same x ys = (y : A) × Memᴰ y ys × (same y x ≡ true)

Has-cons :
    {A : Type 0} (same : A → A → Bool) (x y : A) (ys : List A) → Has same x ys → Has same x (y ∷ ys)
Has-cons same x y ys (z, m, e) = (z, tail m, e)

is_in_arr-Has :
    {A : Type 0} (same : A → A → Bool) (x : A) (ys : List A)
    → is_in_arr same x ys ≡ true
    → Has same x ys
unfolding is_in_arr
is_in_arr-Has same x [] h = absurd (ground arith)
is_in_arr-Has same x (y ∷ ys) h = elim (Bool-cases (same y x)) [
  | inl e ↦ (y, head refl, e)
  | inr e ↦ Has-cons same x y ys (is_in_arr-Has same x ys (ground arith))
]

Has-is_in_arr :
    {A : Type 0} (same : A → A → Bool) (x y : A) (ys : List A)
    → Memᴰ y ys
    → same y x ≡ true
    → is_in_arr same x ys ≡ true
unfolding is_in_arr
Has-is_in_arr same x y [] m e = elim m [ ]
Has-is_in_arr same x y (z ∷ zs) (head h) e = let here : same z x ≡ true = cc in rw here refl
Has-is_in_arr same x y (z ∷ zs) (tail m) e =
    let rest = Has-is_in_arr same x y zs m e in ground arith

all_in_arr-Has :
    {A : Type 0} (same : A → A → Bool) (xs ys : List A)
    → all_in_arr same xs ys ≡ true
    → (x : A) → Memᴰ x xs
    → Has same x ys
unfolding all_in_arr
all_in_arr-Has same [] ys h x m = elim m [ ]
all_in_arr-Has same (z ∷ zs) ys h x (head e) =
    is_in_arr-Has same x ys (ap (λ w. is_in_arr same w ys) e ∙ ground arith)
all_in_arr-Has same (z ∷ zs) ys h x (tail m) = all_in_arr-Has same zs ys (ground arith) x m

Has-all_in_arr :
    {A : Type 0} (same : A → A → Bool) (xs ys : List A)
    → ((x : A) → Memᴰ x xs → Has same x ys)
    → all_in_arr same xs ys ≡ true
unfolding all_in_arr
Has-all_in_arr same [] ys h = refl
Has-all_in_arr same (x ∷ xs) ys h =
    let (y, m, e) = h x (head refl) in
    let here = Has-is_in_arr same x y ys m e in
    let rest = Has-all_in_arr same xs ys (λ z n. h z (tail n)) in rw (here, rest) refl

abbrev pub key_of : {K V : Type 0} → K × V → K
key_of e = e.0

abbrev pub value_of : {K V : Type 0} → K × V → V
value_of e = e.1

module _ {K V : Type 0} ⦃hashed : Hashed K⦄ where
  unfoldable pub equals : (V → V → Bool) → Map K V → Map K V → Run Bool
  unfolding all_in_arr
  equals same m o = if not (m.size == o.size) then ok false else do
    this_keys ← get_keys m
    other_keys ← get_keys o
    if not (all_in_arr hashed.equals this_keys other_keys) then ok false else do
      this_values ← get_values m
      other_values ← get_values o
      ok (all_in_arr same this_values other_values && all_in_arr same other_values this_values)

  equals-arrays :
      (same : V → V → Bool) (m o : Map K V)
      → IsValid m
      → IsValid o
      → equals same m o
        ≡ ok (
            (m.size == o.size)
            && (all_in_arr hashed.equals (columns key_of m.buckets) (columns key_of o.buckets)
                && (all_in_arr same (columns value_of m.buckets) (columns value_of o.buckets)
                    && all_in_arr same (columns value_of o.buckets) (columns value_of m.buckets))))
  unfolding equals get_keys get_values
  equals-arrays same m o v w =
      let ks = fill_buckets-eq key_of m.size [] m.buckets (omega (arith, v.counted)) in
      let ls = fill_buckets-eq key_of o.size [] o.buckets (omega (arith, w.counted)) in
      let vs = fill_buckets-eq value_of m.size [] m.buckets (omega (arith, v.counted)) in
      let ws = fill_buckets-eq value_of o.size [] o.buckets (omega (arith, w.counted)) in
      elim (Bool-cases (m.size == o.size)) [
        | inr differ ↦ rw differ refl
        | inl size ↦
            rw (size, ks, ls, ◌>>=◌)
              (elim (Bool-cases
                (all_in_arr hashed.equals (columns key_of m.buckets) (columns key_of o.buckets))) [
                  | inr other ↦ rw other refl
                  | inl keys ↦ rw (keys, vs, ws, ◌>>=◌) refl
                ])
      ]

  -- When two maps are taken for equal; `same v w` is v->equals(w).
  pub record Alike (same : V → V → Bool) (m o : Map K V) : Type 0 where
    pub sizes : m.size ≡ o.size
    pub keys :
        (k : K) → Memᴰ k (columns key_of m.buckets) → Has hashed.equals k (columns key_of o.buckets)
    pub values :
        (v : V) → Memᴰ v (columns value_of m.buckets) → Has same v (columns value_of o.buckets)
    pub values_back :
        (v : V) → Memᴰ v (columns value_of o.buckets) → Has same v (columns value_of m.buckets)

  -- equals of two valid maps returns. It returns true exactly if they have as many entries, every key
  -- of the first is equal to some key of the second, every value of the first to some value of the
  -- second, and every value of the second to some value of the first, whatever keys they stand under.
  pub equals-Alike :
      (same : V → V → Bool) (m o : Map K V)
      → IsValid m
      → IsValid o
      → Returns (equals same m o) (λ b. (b ≡ true) ↔ Alike same m o)
  equals-Alike same m o v w =
      let size = m.size == o.size in
      let keys = all_in_arr hashed.equals (columns key_of m.buckets) (columns key_of o.buckets) in
      let values = all_in_arr same (columns value_of m.buckets) (columns value_of o.buckets) in
      let back = all_in_arr same (columns value_of o.buckets) (columns value_of m.buckets) in
      (
        size && (keys && (values && back)),
        equals-arrays same m o v w,
        (
          (λ h. record {
            sizes = (==_iff m.size o.size).0 (ground arith);
            keys = all_in_arr-Has _ _ _ (ground arith);
            values = all_in_arr-Has _ _ _ (ground arith);
            values_back = all_in_arr-Has _ _ _ (ground arith);
          }),
          (λ a.
              let e = (==_iff m.size o.size).1 a.sizes in
              let k = Has-all_in_arr _ _ _ a.keys in
              let x = Has-all_in_arr _ _ _ a.values in
              let y = Has-all_in_arr _ _ _ a.values_back in rw (e, k, x, y) refl),
        ),
      )
