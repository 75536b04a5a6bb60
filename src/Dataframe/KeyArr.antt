-- ===== src/Dataframe/KeyArr.antt =====
-- The class KeyArr of dataframe/column/keyarr.h: an Array of Keys.
pub mod Wire
use swdev_proj.Prelude.{ℕ, zero, suc, ◌+◌, Bool, Run, ok, ◌>>=◌}
use swdev_proj.Prelude.Int.{ℤ}
use swdev_proj.Serial.{Serializer, write_size, read_size}
use swdev_proj.Utils.Array
use swdev_proj.Utils.Array.{Array}
use swdev_proj.Store.Key
use swdev_proj.Store.Key.{Key}

pub record KeyArr : Type 0 where
  pub key_list : Array Key

-- KeyArr(), on the default capacity of Array
unfoldable pub new : KeyArr
new = record { key_list = Array.new 2 }

unfoldable pub length : KeyArr → ℕ
length a = a.key_list.len

unfoldable pub get : ℕ → KeyArr → Run Key
get index a = Array.get index a.key_list

unfoldable pub add : Key → KeyArr → Run KeyArr
add k a = do l ← Array.add k a.key_list; ok (record { key_list = l })

unfoldable pub index_of : Key → KeyArr → Run ℤ
index_of k a = Array.index_of (λ o. Key.equals o k) a.key_list

unfoldable pub equals : KeyArr → KeyArr → Run Bool
equals a o = Array.equals Key.equals a.key_list o.key_list

-- the loop of serialize from key `i` on
unfoldable pub put_from : ℕ → ℕ → KeyArr → Serializer → Run Serializer
unfolding get
put_from zero i a s = ok s
put_from (suc n) i a s = do k ← get i a; t ← Key.serialize k s; put_from n (i + 1) a t

unfoldable pub serialize : KeyArr → Serializer → Run Serializer
unfolding put_from
serialize a s = do t ← write_size a.key_list.len s; put_from a.key_list.len 0 a t

-- the loop of deserialize
unfoldable pub add_keys : ℕ → KeyArr → Serializer → Run (KeyArr × Serializer)
unfolding add
add_keys zero a s = ok (a, s)
add_keys (suc n) a s = do (k, t) ← Key.deserialize s; next ← add k a; add_keys n next t

unfoldable pub deserialize : Serializer → Run (KeyArr × Serializer)
unfolding new add_keys
deserialize s = do (n, t) ← read_size s; add_keys n new t
