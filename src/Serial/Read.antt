-- ===== src/Serial/Read.antt =====
-- The readers of src/serial/serial.h take back the bytes that the writers put.
use swdev_proj.Prelude.{
  ℕ, ◌+◌, ◌≤◌, ◌≡◌, refl, sym, ap, ◌∙◌, List, ◌++◌, arith, length, take, drop, length-append,
  length-drop, take-append, drop-append, drop-drop, Returns,
}
use swdev_proj.Serial.{Serializer, read_mem}
use swdev_proj.Serial.Room.{unread}

-- `d` is what is left to read.
pub record Ahead (d : List ℕ) (s : Serializer) : Type 0 where
  pub bytes : unread s ≡ d
  pub inside : s.num_bytes_read ≤ length s.buffer

-- `r` is what a reader returns when it takes `a` off the buffer and leaves `rest`.
pub record Took {A : Type 0} (a : A) (rest : List ℕ) (r : A × Serializer) : Type 0 where
  pub value : r.0 ≡ a
  pub left : Ahead rest r.1

pub read_mem-Took :
    (n : ℕ) (d rest : List ℕ) (s : Serializer)
    → length d ≡ n
    → Ahead (d ++ rest) s
    → Returns (read_mem n s) (Took d rest)
unfolding read_mem
read_mem-Took n d rest s e h =
    let len = ap length h.bytes in
    let inside : s.num_bytes_read + n ≤ length s.buffer =
      omega (arith, length-append d rest, length-drop s.num_bytes_read s.buffer, h.inside) in
    (
      (take n (drop s.num_bytes_read s.buffer), record s { num_bytes_read = s.num_bytes_read + n }),
      ground arith,
      record {
        value = rw h.bytes (take-append d rest n (sym e));
        left = record {
          bytes =
              sym (drop-drop s.num_bytes_read n (s.num_bytes_read + n) s.buffer refl)
              ∙ (ap (drop n) h.bytes ∙ drop-append d rest n (sym e));
          inside = inside;
        };
      },
    )
