-- ===== src/Prelude/Places.antt =====
-- Items of lists by their position.
use Prim.Native.Nat.{ℕ, zero, suc, ◌+◌, ◌<◌}
use mathlib.Core.Path.{◌≡◌, refl, ap}
use mathlib.Core.List.{List, [], ◌∷◌, ◌++◌}
use mathlib.Core.Option.{some}
use native.Mathlib.Omega.{arith}
use swdev_proj.Prelude.Lists.{length, get_elem?}

module _ {ℓ} {A : Type ℓ} where
  pub get_elem?-append_left :
      (xs ys : List A) (i : ℕ) → i < length xs → get_elem? (xs ++ ys) i ≡ get_elem? xs i
  get_elem?-append_left [] ys i h = elim h [ ]
  get_elem?-append_left (x ∷ xs) ys zero h = refl
  get_elem?-append_left (x ∷ xs) ys (suc i) h = get_elem?-append_left xs ys i (omega arith)

  pub get_elem?-append_right :
      (xs ys : List A) (i j : ℕ) → j ≡ length xs + i → get_elem? (xs ++ ys) j ≡ get_elem? ys i
  get_elem?-append_right [] ys i j h = let e : j ≡ i = omega arith in ap (λ k. get_elem? ys k) e
  get_elem?-append_right (x ∷ xs) ys i zero h = absurd (omega arith)
  get_elem?-append_right (x ∷ xs) ys i (suc j) h = get_elem?-append_right xs ys i j (omega arith)

  pub get_elem?-lt : (xs : List A) (i : ℕ) {z : A} → get_elem? xs i ≡ some z → i < length xs
  get_elem?-lt [] i h = cc
  get_elem?-lt (x ∷ xs) zero h = omega arith
  get_elem?-lt (x ∷ xs) (suc i) h = omega (arith, get_elem?-lt xs i h)

  -- The lists before and behind an item.
  pub get_elem?-split :
      (xs : List A) (i : ℕ) {z : A}
      → get_elem? xs i ≡ some z
      → (us : List A) × (vs : List A) × (xs ≡ us ++ z ∷ vs) × (i ≡ length us)
  get_elem?-split [] i h = cc
  get_elem?-split (x ∷ xs) zero {z} h = ([], xs, cc, refl)
  get_elem?-split (x ∷ xs) (suc i) {z} h =
      let (us, vs, e, l) = get_elem?-split xs i h in (x ∷ us, vs, ap (λ r. x ∷ r) e, omega arith)

  pub get_elem?-some : (xs : List A) (i : ℕ) → i < length xs → (z : A) × (get_elem? xs i ≡ some z)
  get_elem?-some [] i h = elim h [ ]
  get_elem?-some (x ∷ xs) zero h = (x, refl)
  get_elem?-some (x ∷ xs) (suc i) h = get_elem?-some xs i (omega arith)
