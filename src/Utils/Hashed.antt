-- ===== src/Utils/Hashed.antt =====
-- What utils/map.h asks of its keys: the virtual methods equals and hash of utils/object.h.
-- `Good` are the keys for which equal keys have equal hashes.
use swdev_proj.Prelude.{ℕ, Bool, true, ◌≡◌, arith}

pub record Hashed (K : Type 0) : Type 1 where
  pub equals : K → K → Bool
  pub hash : K → ℕ
  pub Good : K → Type 0
  pub equals_refl : (a : K) → equals a a ≡ true
  pub equals_symm : (a b : K) → equals a b ≡ equals b a
  pub equals_trans : (a b c : K) → equals a b ≡ true → equals b c ≡ true → equals a c ≡ true
  pub hash-equals : (a b : K) → Good a → Good b → equals a b ≡ true → hash a ≡ hash b

module _ {K : Type 0} ⦃hashed : Hashed K⦄ where
  infix 50 ◌=ᵏ◌
  abbrev pub ◌=ᵏ◌ : K → K → Bool
  a =ᵏ b = hashed.equals a b

  -- Equal keys compare alike with any third.
  pub =ᵏ_congr : (a b c : K) → (a =ᵏ b) ≡ true → a =ᵏ c ≡ b =ᵏ c
  =ᵏ_congr a b c e =
      ground (arith, hashed.equals_symm a b, hashed.equals_trans a b c, hashed.equals_trans b a c)

  pub =ᵏ_congr_right : (a b c : K) → (a =ᵏ b) ≡ true → c =ᵏ a ≡ c =ᵏ b
  =ᵏ_congr_right a b c e =
      ground (arith, hashed.equals_symm c a, hashed.equals_symm c b, =ᵏ_congr a b c)
