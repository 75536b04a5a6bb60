-- ===== src/Serial/Wire/Text.antt =====
-- The strings and raw blocks of src/serial/serial.h.
use swdev_proj.Prelude.{
  ℕ, suc, ◌<◌, ◌≡◌, refl, sym, ap, List, [], ◌∷◌, ◌++◌, append_assoc, arith, length, All, Returns,
  some, take_all, length-append,
}
use swdev_proj.Serial.{Serializer, add, strlen, write_cstr, read_string, write_mem, read_char_ptr}
use swdev_proj.Serial.Room.{unread, IsReady}
use swdev_proj.Serial.Write.{Appends, add-Appends}
use swdev_proj.Serial.Read.{Ahead, Took, read_mem-Took}
use swdev_proj.Serial.Wire.{Wire}

-- The memory of a C string: characters that are not null, and the terminator.
pub record IsCstr (mem : List ℕ) : Type 0 where
  pub chars : List ℕ
  pub spelt : mem ≡ chars ++ 0 ∷ []
  pub nonzero : All (λ c. 0 < c) chars

-- strlen stops at the terminator, whatever stands behind it.
pub strlen-append :
    (chars rest : List ℕ)
    → All (λ c. 0 < c) chars
    → strlen (chars ++ 0 ∷ rest) ≡ some (length chars)
unfolding strlen
strlen-append [] rest h = refl
strlen-append (c ∷ cs) rest h = ground (arith, strlen-append cs rest h.1)

pub write_mem-Appends :
    (mem : List ℕ) (n : ℕ) (s : Serializer)
    → n ≡ length mem
    → IsReady s
    → Returns (write_mem n mem s) (Appends mem s)
unfolding write_mem
write_mem-Appends mem n s e v =
    let (r, run, p) = add-Appends mem s v in
    (r, ground (arith, ap (λ (d : List ℕ). add d s) (take_all n mem (omega arith))), p)

pub read_char_ptr-Took :
    (mem : List ℕ) (n : ℕ) (rest : List ℕ) (s : Serializer)
    → n ≡ length mem
    → Ahead (mem ++ rest) s
    → Returns (read_char_ptr n s) (Took mem rest)
unfolding read_char_ptr
read_char_ptr-Took mem n rest s e h = read_mem-Took n mem rest s (sym e) h

cstr_puts :
    (mem : List ℕ) (s : Serializer)
    → IsCstr mem
    → IsReady s
    → Returns (write_cstr mem s) (Appends mem s)
unfolding write_cstr
cstr_puts mem s c v =
    let (r, run, p) =
      write_mem-Appends mem (suc (length c.chars)) s
        (rw c.spelt (omega (arith, length-append c.chars (0 ∷ [])))) v in
    let len : strlen mem ≡ some (length c.chars) =
      rw c.spelt (strlen-append c.chars [] c.nonzero) in
    (r, rw (len, write_cstr) run, p)

cstr_gets :
    (mem rest : List ℕ) (s : Serializer)
    → IsCstr mem
    → Ahead (mem ++ rest) s
    → Returns (read_string s) (Took mem rest)
unfolding read_string
cstr_gets mem rest s c h =
    let (r, run, p) =
      read_mem-Took (suc (length c.chars)) mem rest s
        (rw c.spelt (omega (arith, length-append c.chars (0 ∷ [])))) h in
    let len : strlen (unread s) ≡ some (length c.chars) =
      rw (h.bytes, c.spelt, append_assoc) (strlen-append c.chars rest c.nonzero) in
    (r, rw (len, read_string) run, p)

pub IsCstr-wire : Wire write_cstr read_string IsCstr
IsCstr-wire = record { bytes = λ mem. mem; puts = cstr_puts; gets = cstr_gets }
