-- ===== src/Store/Key/Wire.antt =====
-- A Key of store/key.h survives serialize and deserialize.
use swdev_proj.Prelude.{ℕ, refl, List, ◌++◌, Returns}
use swdev_proj.Serial.{Serializer, write_size, read_size}
use swdev_proj.Serial.Room.{IsReady}
use swdev_proj.Serial.Write.{Appends}
use swdev_proj.Serial.Read.{Ahead, Took}
use swdev_proj.Serial.Wire
use swdev_proj.Serial.Wire.{Appends-seq, Took-seq, Ahead-assoc}
use swdev_proj.Serial.Wire.Scalars.{SizeT, size_wire}
use swdev_proj.Utils.Str
use swdev_proj.Utils.Str.Wire.{str_wire}
use swdev_proj.Store.Key.{Key, serialize, deserialize}

-- A key that can be sent.
pub record Sendable (k : Key) : Type 0 where
  pub str : Str.Wire.Sendable k.k_str
  pub small : SizeT k.home_node

bytes : Key → List ℕ
bytes k = str_wire.bytes k.k_str ++ size_wire.bytes k.home_node

puts :
    (a : Key) (s : Serializer)
    → Sendable a
    → IsReady s
    → Returns (serialize a s) (Appends (bytes a) s)
unfolding serialize bytes
puts a s v r =
    Appends-seq (Str.serialize a.k_str s) (write_size a.home_node) (size_wire.bytes a.home_node)
      (str_wire.puts a.k_str s v.str r) λ t h. size_wire.puts a.home_node t v.small h

gets :
    (a : Key) (rest : List ℕ) (s : Serializer)
    → Sendable a
    → Ahead (bytes a ++ rest) s
    → Returns (deserialize s) (Took a rest)
unfolding deserialize bytes
gets a rest s v h =
    Took-seq (Str.deserialize s) _
      (str_wire.gets a.k_str (size_wire.bytes a.home_node ++ rest) s v.str
        (Ahead-assoc (str_wire.bytes a.k_str) (size_wire.bytes a.home_node) rest s h))
      λ t ahead.
        Took-seq (read_size t) _ (size_wire.gets a.home_node rest t v.small ahead)
          λ u left. ((a, u), refl, record { value = refl; left = left })

pub key_wire : Wire.Wire serialize deserialize Sendable
key_wire = record { bytes = bytes; puts = puts; gets = gets }
