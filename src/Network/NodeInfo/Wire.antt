-- ===== src/Network/NodeInfo/Wire.antt =====
-- A NodeInfo of network/nodeInfo.h survives the detour over signed integers.
use swdev_proj.Prelude.{ℕ, ◌<◌, ◌≡◌, refl, arith, List, ◌++◌, Returns}
use swdev_proj.Prelude.Int.{pos, InRange, to_word, of_word}
use swdev_proj.Serial.{Serializer, write_short, write_long, read_short, read_long}
use swdev_proj.Serial.Room.{IsReady}
use swdev_proj.Serial.Write.{Appends}
use swdev_proj.Serial.Read.{Ahead, Took}
use swdev_proj.Serial.Wire
use swdev_proj.Serial.Wire.{Appends-seq, Took-seq, Ahead-assoc}
use swdev_proj.Serial.Wire.Scalars.{short_wire, long_wire}
use swdev_proj.Network.NodeInfo.{NodeInfo, as_short, as_u16, as_u32, serialize, deserialize}

-- The fields fit the C types.
pub record Fits (n : NodeInfo) : Type 0 where
  pub family : n.sin_family < 0x1_0000
  pub addr : n.s_addr < 0x1_0000_0000
  pub port : n.sin_port < 0x1_0000

as_short-InRange : (n : ℕ) → n < 0x1_0000 → InRange 0x8000 (as_short n)
unfolding of_word
as_short-InRange n h = ground arith

as_u16-as_short : (n : ℕ) → n < 0x1_0000 → as_u16 (as_short n) ≡ n
unfolding of_word to_word
as_u16-as_short n h = ground arith

as_u32-pos : (n : ℕ) → n < 0x1_0000_0000 → as_u32 (pos n) ≡ n
unfolding to_word
as_u32-pos n h = omega arith

bytes : NodeInfo → List ℕ
bytes n =
    short_wire.bytes (as_short n.sin_family)
    ++ (long_wire.bytes (pos n.s_addr) ++ short_wire.bytes (as_short n.sin_port))

puts :
    (a : NodeInfo) (s : Serializer)
    → Fits a
    → IsReady s
    → Returns (serialize a s) (Appends (bytes a) s)
unfolding serialize bytes
puts a s v r =
    Appends-seq (write_short (as_short a.sin_family) s) _ _
      (short_wire.puts (as_short a.sin_family) s (as_short-InRange a.sin_family v.family) r)
      λ t h.
        Appends-seq (write_long (pos a.s_addr) t) _ _
          (long_wire.puts (pos a.s_addr) t (omega (arith, v.addr)) h)
          λ u k. short_wire.puts (as_short a.sin_port) u (as_short-InRange a.sin_port v.port) k

back :
    (a : NodeInfo)
    → Fits a
    → record {
      sin_family = as_u16 (as_short a.sin_family);
      s_addr = as_u32 (pos a.s_addr);
      sin_port = as_u16 (as_short a.sin_port);
    }
      ≡ a
back a v = λ i. record {
  sin_family = as_u16-as_short a.sin_family v.family i;
  s_addr = as_u32-pos a.s_addr v.addr i;
  sin_port = as_u16-as_short a.sin_port v.port i;
}

gets :
    (a : NodeInfo) (rest : List ℕ) (s : Serializer)
    → Fits a
    → Ahead (bytes a ++ rest) s
    → Returns (deserialize s) (Took a rest)
unfolding deserialize bytes
gets a rest s v h =
    let f = short_wire.bytes (as_short a.sin_family) in
    let m = long_wire.bytes (pos a.s_addr) in
    let p = short_wire.bytes (as_short a.sin_port) in
    Took-seq (read_short s) _
      (short_wire.gets (as_short a.sin_family) ((m ++ p) ++ rest) s
        (as_short-InRange a.sin_family v.family) (Ahead-assoc f (m ++ p) rest s h))
      λ t x.
        Took-seq (read_long t) _
          (long_wire.gets (pos a.s_addr) (p ++ rest) t (omega (arith, v.addr))
            (Ahead-assoc m p rest t x))
          λ u y.
            Took-seq (read_short u) _
              (short_wire.gets (as_short a.sin_port) rest u (as_short-InRange a.sin_port v.port) y)
              λ w left. ((_, w), refl, record { value = back a v; left = left })

pub node_info_wire : Wire.Wire serialize deserialize Fits
node_info_wire = record { bytes = bytes; puts = puts; gets = gets }
