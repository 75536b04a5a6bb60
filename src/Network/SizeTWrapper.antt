-- ===== src/Network/SizeTWrapper.antt =====
-- The class SizeTWrapper of network/sizetwrapper.h: a size_t as a key of a Map.
use swdev_proj.Prelude.{ℕ, ◌+◌, ◌*◌, ◌%◌, Bool, true, ◌==◌, ◌≡◌, ap, arith, Run, ok, ◌>>=◌}
use swdev_proj.Serial.{Serializer, write_size, read_size}
use swdev_proj.Utils.Str.{size_mod}
use swdev_proj.Utils.Hashed.{Hashed}

pub record SizeTWrapper : Type 0 where
  pub val : ℕ

-- val_ + (val_ << 2) in 64 bits
unfoldable pub hash_me : SizeTWrapper → ℕ
hash_me w = (w.val + w.val * 4 % size_mod) % size_mod

unfoldable pub equals : SizeTWrapper → SizeTWrapper → Bool
equals a b = a.val == b.val

unfoldable pub serialize : SizeTWrapper → Serializer → Run Serializer
serialize w s = write_size w.val s

unfoldable pub deserialize : Serializer → Run (SizeTWrapper × Serializer)
deserialize s = do (n, t) ← read_size s; ok (record { val = n }, t)

pub wrapper_refl : (a : SizeTWrapper) → equals a a ≡ true
unfolding equals
wrapper_refl a = ground arith

pub wrapper_symm : (a b : SizeTWrapper) → equals a b ≡ equals b a
unfolding equals
wrapper_symm a b = ground arith

pub wrapper_trans :
    (a b c : SizeTWrapper) → equals a b ≡ true → equals b c ≡ true → equals a c ≡ true
unfolding equals
wrapper_trans a b c p q = ground arith

pub wrapper_hash : (a b : SizeTWrapper) → equals a b ≡ true → hash_me a ≡ hash_me b
unfolding equals
wrapper_hash a b e =
    let same : a.val ≡ b.val = ground arith in ap hash_me (λ i. record { val = same i })

instance abbrev pub wrapper_hashed : Hashed SizeTWrapper
wrapper_hashed = record {
  equals = equals;
  hash = hash_me;
  Good = λ _. Unit;
  equals_refl = wrapper_refl;
  equals_symm = wrapper_symm;
  equals_trans = wrapper_trans;
  hash-equals = λ a b _ _. wrapper_hash a b;
}
