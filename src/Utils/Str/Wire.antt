-- ===== src/Utils/Str/Wire.antt =====
-- A well-formed String survives serialize and deserialize (utils/string.h).
use swdev_proj.Prelude.{ℕ, refl, List, ◌++◌, Returns}
use swdev_proj.Serial.{Serializer, write_size, write_cstr, read_size, read_string}
use swdev_proj.Serial.Room.{IsReady}
use swdev_proj.Serial.Write.{Appends}
use swdev_proj.Serial.Read.{Ahead, Took}
use swdev_proj.Serial.Wire
use swdev_proj.Serial.Wire.{Appends-seq, Took-seq, Ahead-assoc}
use swdev_proj.Serial.Wire.Scalars.{SizeT, size_wire}
use swdev_proj.Serial.Wire.Text.{IsCstr-wire}
use swdev_proj.Utils.Str.{Str, IsWell, serialize, deserialize}

-- A string that can be sent: well formed, and its size is a size_t.
pub record Sendable (s : Str) : Type 0 where
  pub well : IsWell s
  pub small : SizeT s.size

bytes : Str → List ℕ
bytes s = size_wire.bytes s.size ++ IsCstr-wire.bytes s.cstr

puts :
    (a : Str) (s : Serializer)
    → Sendable a
    → IsReady s
    → Returns (serialize a s) (Appends (bytes a) s)
unfolding serialize bytes
puts a s v r =
    Appends-seq (write_size a.size s) (write_cstr a.cstr) (IsCstr-wire.bytes a.cstr)
      (size_wire.puts a.size s v.small r) λ t h. IsCstr-wire.puts a.cstr t v.well.cstring h

gets :
    (a : Str) (rest : List ℕ) (s : Serializer)
    → Sendable a
    → Ahead (bytes a ++ rest) s
    → Returns (deserialize s) (Took a rest)
unfolding deserialize bytes
gets a rest s v h =
    Took-seq (read_size s) _
      (size_wire.gets a.size (IsCstr-wire.bytes a.cstr ++ rest) s v.small
        (Ahead-assoc (size_wire.bytes a.size) (IsCstr-wire.bytes a.cstr) rest s h))
      λ t ahead.
        Took-seq (read_string t) _ (IsCstr-wire.gets a.cstr rest t v.well.cstring ahead)
          λ u left. ((a, u), refl, record { value = refl; left = left })

pub str_wire : Wire.Wire serialize deserialize Sendable
str_wire = record { bytes = bytes; puts = puts; gets = gets }
