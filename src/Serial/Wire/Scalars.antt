-- ===== src/Serial/Wire/Scalars.antt =====
-- The write and read of each scalar of src/serial/serial.h, as instances of the interface.
use swdev_proj.Prelude.{
  ℕ, ◌+◌, ◌^◌, ◌<◌, ◌≡◌, refl, ap, ◌∙◌, Bool, true, false, List, ◌++◌, length, Run, ok, ◌>>=◌,
  Returns,
}
use swdev_proj.Prelude.Int.{ℤ, InRange, to_word, of_word, of_word-to_word, to_word-lt}
use swdev_proj.Serial.{
  Serializer, read_mem, write_size, read_size, write_double, read_double, write_char, read_char,
  write_long, read_long, write_int, read_int, write_short, read_short, write_bool, read_bool,
  bool_of, bool_code,
}
use swdev_proj.Serial.Bytes.{to_bytes, of_bytes, length-to_bytes, of_bytes-to_bytes}
use swdev_proj.Serial.Write.{add-Appends}
use swdev_proj.Serial.Read.{Ahead, Took, read_mem-Took}
use swdev_proj.Serial.Wire.{Wire}

-- A reader that takes `w` bytes and decodes them.
decode_Took :
    {A : Type 0} (w : ℕ) (dec : List ℕ → Run A) (d : List ℕ) (a : A) (rest : List ℕ)
    (s : Serializer)
    → length d ≡ w
    → dec d ≡ ok a
    → Ahead (d ++ rest) s
    → Returns (read_mem w s >>= λ p. dec p.0 >>= λ x. ok (x, p.1)) (Took a rest)
decode_Took w dec d a rest s e h at_d =
    let (r, run, t) = read_mem-Took w d rest s e at_d in
    ((a, r.1), rw (run, ◌>>=◌, t.value, h) refl, record { value = refl; left = t.left })

abbrev pub SizeT : ℕ → Type 0
SizeT n = n < 0x1_0000_0000_0000_0000

pub size_wire : Wire write_size read_size SizeT
unfolding write_size read_size
size_wire = record {
  bytes = to_bytes 8;
  puts = λ a s v. add-Appends (to_bytes 8 a) s;
  gets = λ a rest s v.
      decode_Took 8 (λ d. ok (of_bytes d)) (to_bytes 8 a) a rest s (length-to_bytes 8 a)
        (ap ok (of_bytes-to_bytes 8 a v));
}

pub double_wire : Wire write_double read_double SizeT
unfolding write_double read_double
double_wire = record {
  bytes = to_bytes 8;
  puts = λ a s v. add-Appends (to_bytes 8 a) s;
  gets = λ a rest s v.
      decode_Took 8 (λ d. ok (of_bytes d)) (to_bytes 8 a) a rest s (length-to_bytes 8 a)
        (ap ok (of_bytes-to_bytes 8 a v));
}

abbrev pub Char : ℕ → Type 0
Char c = c < 256

pub Char-wire : Wire write_char read_char Char
unfolding write_char read_char
Char-wire = record {
  bytes = to_bytes 1;
  puts = λ a s v. add-Appends (to_bytes 1 a) s;
  gets = λ a rest s v.
      decode_Took 1 (λ d. ok (of_bytes d)) (to_bytes 1 a) a rest s (length-to_bytes 1 a)
        (ap ok (of_bytes-to_bytes 1 a v));
}

word_Took :
    (w half : ℕ) (z : ℤ) (rest : List ℕ) (s : Serializer)
    → half + half ≡ 256 ^ w
    → InRange half z
    → Ahead (to_bytes w (to_word half z) ++ rest) s
    → Returns (read_mem w s >>= λ p. ok (of_word half (of_bytes p.0), p.1)) (Took z rest)
word_Took w half z rest s e v =
    decode_Took w (λ d. ok (of_word half (of_bytes d))) (to_bytes w (to_word half z)) z rest s
      (length-to_bytes w (to_word half z))
      (ap ok (
        ap (of_word half) (of_bytes-to_bytes w (to_word half z) (rw (← e) (to_word-lt half z v)))
        ∙ of_word-to_word half z v))

pub long_wire : Wire write_long read_long (InRange 0x8000_0000_0000_0000)
unfolding write_long read_long
long_wire = record {
  bytes = λ z. to_bytes 8 (to_word 0x8000_0000_0000_0000 z);
  puts = λ z s v. add-Appends (to_bytes 8 (to_word 0x8000_0000_0000_0000 z)) s;
  gets = λ z rest s v. word_Took 8 0x8000_0000_0000_0000 z rest s refl v;
}

pub int_wire : Wire write_int read_int (InRange 0x8000_0000)
unfolding write_int read_int
int_wire = record {
  bytes = λ z. to_bytes 4 (to_word 0x8000_0000 z);
  puts = λ z s v. add-Appends (to_bytes 4 (to_word 0x8000_0000 z)) s;
  gets = λ z rest s v. word_Took 4 0x8000_0000 z rest s refl v;
}

pub short_wire : Wire write_short read_short (InRange 0x8000)
unfolding write_short read_short
short_wire = record {
  bytes = λ z. to_bytes 2 (to_word 0x8000 z);
  puts = λ z s v. add-Appends (to_bytes 2 (to_word 0x8000 z)) s;
  gets = λ z rest s v. word_Took 2 0x8000 z rest s refl v;
}

bool_code_of : (b : Bool) → bool_of (of_bytes (to_bytes 1 (bool_code b))) ≡ ok b
unfolding to_bytes of_bytes
bool_code_of true = refl
bool_code_of false = refl

pub bool_wire : Wire write_bool read_bool (λ _. Unit {0})
unfolding write_bool read_bool
bool_wire = record {
  bytes = λ b. to_bytes 1 (bool_code b);
  puts = λ b s v. add-Appends (to_bytes 1 (bool_code b)) s;
  gets = λ b rest s v.
      decode_Took 1 (λ d. bool_of (of_bytes d)) (to_bytes 1 (bool_code b)) b rest s
        (length-to_bytes 1 (bool_code b)) (bool_code_of b);
}
