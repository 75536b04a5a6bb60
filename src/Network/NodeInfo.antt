-- ===== src/Network/NodeInfo.antt =====
-- The class NodeInfo of network/nodeInfo.h: a sockaddr_in, with sin_family and sin_port of 16
-- bits and s_addr of 32.
pub mod Wire
use swdev_proj.Prelude.{ℕ, ◌%◌, Bool, ◌&&◌, ◌==◌, Run, ok, ◌>>=◌}
use swdev_proj.Prelude.Int.{ℤ, pos, to_word, of_word}
use swdev_proj.Serial.{Serializer, write_short, write_long, read_short, read_long}

pub record NodeInfo : Type 0 where
  pub sin_family : ℕ
  pub s_addr : ℕ
  pub sin_port : ℕ

-- ntohl is one to one, so the comparison of the swapped fields is that of the fields
unfoldable pub equals : NodeInfo → NodeInfo → Bool
equals a b = a.sin_family == b.sin_family && (a.s_addr == b.s_addr && a.sin_port == b.sin_port)

-- (short) of an unsigned 16-bit field, and the conversions back
abbrev pub as_short : ℕ → ℤ
as_short n = of_word 0x8000 n

abbrev pub as_u16 : ℤ → ℕ
as_u16 z = to_word 0x8000 z % 0x1_0000

abbrev pub as_u32 : ℤ → ℕ
as_u32 z = to_word 0x8000_0000_0000_0000 z % 0x1_0000_0000

unfoldable pub serialize : NodeInfo → Serializer → Run Serializer
serialize n s = do
  t ← write_short (as_short n.sin_family) s
  u ← write_long (pos n.s_addr) t
  write_short (as_short n.sin_port) u

unfoldable pub deserialize : Serializer → Run (NodeInfo × Serializer)
deserialize s = do
  (f, t) ← read_short s
  (a, u) ← read_long t
  (p, v) ← read_short u
  ok (record { sin_family = as_u16 f; s_addr = as_u32 a; sin_port = as_u16 p }, v)
