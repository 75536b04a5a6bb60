-- ===== src/Serial/Write.antt =====
-- add_ in src/serial/serial.h appends, and all the overloads of write do so through it.
use swdev_proj.Prelude.{
  ℕ, ◌+◌, ◌≤◌, ◌≡◌, refl, ap, ◌∙◌, List, ◌++◌, append_assoc, arith, length, drop, length-append,
  length-take, length-drop, take-append, Returns,
}
use swdev_proj.Serial.{Serializer, copy_in, add}
use swdev_proj.Serial.Room.{written, IsReady, make_room-Grown}

pub length-written : (s : Serializer) → IsReady s → length (written s) ≡ s.num_bytes_written
length-written s v = omega (arith, length-take s.num_bytes_written s.buffer)

written-copy_in : (d : List ℕ) (s : Serializer) → IsReady s → written (copy_in d s) ≡ written s ++ d
unfolding copy_in
written-copy_in d s v = rw (← append_assoc) (
    take-append (written s ++ d) (drop (s.num_bytes_written + length d) s.buffer)
      (s.num_bytes_written + length d)
      (omega (arith, length-append (written s) d, length-written s v)))

copy_in-IsReady :
    (d : List ℕ) (s : Serializer)
    → IsReady s
    → s.num_bytes_written + length d ≤ s.capacity
    → IsReady (copy_in d s)
unfolding copy_in
copy_in-IsReady d s v h =
    let rest = drop (s.num_bytes_written + length d) s.buffer in
    let total : length (written s ++ (d ++ rest)) ≡ s.num_bytes_written + (length d + length rest) =
      omega
        (arith, length-append (written s) (d ++ rest), length-append d rest, length-written s v) in
    let left = length-drop (s.num_bytes_written + length d) s.buffer in
    record { has_room = v.has_room; initialised = omega arith; within = omega arith }

-- `r` is `s` after the bytes `d` were written.
pub record Appends (d : List ℕ) (s r : Serializer) : Type 0 where
  pub ready : IsReady r
  pub appended : written r ≡ written s ++ d
  pub counted : r.num_bytes_written ≡ s.num_bytes_written + length d
  pub same_read : r.num_bytes_read ≡ s.num_bytes_read

-- Whatever the number of bytes, from a buffer that has some capacity add_ returns, keeps what was
-- written and appends exactly the new bytes; the read position stays.
pub add-Appends : (d : List ℕ) (s : Serializer) → IsReady s → Returns (add d s) (Appends d s)
unfolding add
add-Appends d s v =
    let (r, run, g) =
      make_room-Grown (s.num_bytes_written + length d) (length d) s v (omega arith) in
    (
      copy_in d r,
      rw run refl,
      record {
        ready = copy_in-IsReady d r g.ready g.fits;
        appended = written-copy_in d r g.ready ∙ ap (λ (w : List ℕ). w ++ d) g.same_written;
        counted = unfold copy_in in omega (arith, g.same_count);
        same_read = unfold copy_in in g.same_read;
      },
    )

-- Two writes in a row.
pub Appends-trans :
    (d e : List ℕ) (s r t : Serializer) → Appends d s r → Appends e r t → Appends (d ++ e) s t
Appends-trans d e s r t p q = record {
  ready = q.ready;
  appended = q.appended ∙ (ap (λ (w : List ℕ). w ++ e) p.appended ∙ append_assoc (written s) d e);
  counted = omega (arith, length-append d e, p.counted, q.counted);
  same_read = q.same_read ∙ p.same_read;
}
