-- ===== src/Store/Key.antt =====
-- The class Key of store/key.h.
pub mod Wire
pub mod Build
use swdev_proj.Prelude.{
  ℕ, ◌+◌, [], ◌∷◌, Bool, true, false, ◌&&◌, ◌==◌, Run, ok, ◌>>=◌, ◌≡◌, refl, arith,
}
use swdev_proj.Serial.{Serializer, write_size, read_size}
use swdev_proj.Utils.Str.{Str}
use swdev_proj.Utils.Str
use swdev_proj.Utils.Str.Equality.{equals_refl, equals_symm, equals_trans}
use swdev_proj.Utils.StrBuff
use swdev_proj.Utils.StrBuff.{StrBuff}
use swdev_proj.Utils.Hashed.{Hashed}

pub record Key : Type 0 where
  pub k_str : Str
  pub home_node : ℕ

-- Key(str, node) clones the string
unfoldable pub new : Str → ℕ → Run Key
new str node = do s ← Str.clone str; ok (record { k_str = s; home_node = node })

-- Key::clone goes through the constructor
unfoldable pub clone : Key → Run Key
unfolding new
clone k = new k.k_str k.home_node

unfoldable pub serialize : Key → Serializer → Run Serializer
serialize k s = do t ← Str.serialize k.k_str s; write_size k.home_node t

unfoldable pub deserialize : Serializer → Run (Key × Serializer)
deserialize s = do
  (str, t) ← Str.deserialize s
  (node, u) ← read_size t
  ok (record { k_str = str; home_node = node }, u)

-- addIndex: the string with a hyphen and the index behind it, on the same node
unfoldable pub c_index : ℕ → StrBuff → Run StrBuff
c_index idx b = do d ← StrBuff.c (b'-' ∷ 0 ∷ []) b; StrBuff.c_size idx d

unfoldable pub add_index : ℕ → Key → Run Key
unfolding new c_index
add_index idx k = do
  a ← StrBuff.c_string k.k_str StrBuff.new
  b ← c_index idx a
  (s, rest) ← StrBuff.get b
  new s k.home_node

unfoldable pub equals : Key → Key → Bool
equals k o = Str.equals k.k_str o.k_str && k.home_node == o.home_node

-- hash_me_ overrides nothing: Key has the hash_me of utils/object.h
abbrev pub hash : Key → ℕ
hash k = 1

pub key_refl : (a : Key) → equals a a ≡ true
unfolding equals
key_refl a = ground (arith, equals_refl a.k_str)

pub key_symm : (a b : Key) → equals a b ≡ equals b a
unfolding equals
key_symm a b = ground (arith, equals_symm a.k_str b.k_str)

pub key_trans : (a b c : Key) → equals a b ≡ true → equals b c ≡ true → equals a c ≡ true
unfolding equals
key_trans a b c p q = ground (arith, equals_trans a.k_str b.k_str c.k_str)

instance abbrev pub key_hashed : Hashed Key
key_hashed = record {
  equals = equals;
  hash = hash;
  Good = λ _. Unit;
  equals_refl = key_refl;
  equals_symm = key_symm;
  equals_trans = key_trans;
  hash-equals = λ a b _ _ _. refl;
}
