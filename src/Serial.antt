-- ===== src/Serial.antt =====
-- src/serial/serial.h: the growing byte buffer. `buffer` holds the bytes that have been
-- initialised; the rest of the allocation, up to `capacity`, holds nothing that may be read.
pub mod Bytes
pub mod Room
pub mod Write
pub mod Read
pub mod Wire
pub mod Kind
use swdev_proj.Prelude.{
  ℕ, zero, suc, ◌+◌, ◌*◌, ◌≤◌, ◌<◌, List, [], ◌∷◌, ◌++◌, Option, none, some, Bool, true, false,
  ◌&&◌, ltb, leb, ◌==◌, if◌then◌else◌, length, take, drop, replicate, Run, ok, fault, undefined,
  diverges, ◌>>=◌,
}
use swdev_proj.Prelude.Int.{ℤ, to_word, of_word}
use Bytes.{to_bytes, of_bytes}

pub record Serializer : Type 0 where
  pub buffer : List ℕ
  pub capacity : ℕ
  pub num_bytes_written : ℕ
  pub num_bytes_read : ℕ

abbrev init_buffer_size : ℕ
init_buffer_size = 1024

-- Serializer()
unfoldable pub new : Serializer
new = record {
  buffer = replicate init_buffer_size 0;
  capacity = init_buffer_size;
  num_bytes_written = 0;
  num_bytes_read = 0;
}

-- Serializer(size, inp); `inp` is the memory that may be read from the pointer on
unfoldable pub of_buffer : ℕ → List ℕ → Run Serializer
of_buffer size inp =
    if leb size (length inp)
    then ok (record {
      buffer = take size inp;
      capacity = size;
      num_bytes_written = size;
      num_bytes_read = 0;
    })
    else fault undefined

-- strlen: the position of the first null byte
unfoldable pub strlen : List ℕ → Option ℕ
strlen [] = none
strlen (b ∷ bs) =
    if b == 0 then some 0 else elim (strlen bs) [ none ↦ none | some n ↦ some (suc n) ]

-- Serializer(inp)
unfoldable pub of_str : List ℕ → Run Serializer
of_str inp = elim (strlen inp) [ none ↦ fault undefined | some n ↦ of_buffer n inp ]

unfoldable pub grow : Serializer → Serializer
grow s = record s { buffer = take s.num_bytes_written s.buffer; capacity = s.capacity * 2 }

-- the loop of add_, on fuel
unfoldable pub make_room : ℕ → ℕ → Serializer → Run Serializer
make_room zero n s = fault diverges
make_room (suc fuel) n s =
    let rest = make_room fuel n (grow s) in
    if ltb s.capacity (s.num_bytes_written + n) then rest else ok s

-- memcpy of `d` to the end of what was written
unfoldable pub copy_in : List ℕ → Serializer → Serializer
copy_in d s = record s {
  buffer =
      take s.num_bytes_written s.buffer ++ (d ++ drop (s.num_bytes_written + length d) s.buffer);
  num_bytes_written = s.num_bytes_written + length d;
}

unfoldable pub add : List ℕ → Serializer → Run Serializer
unfolding copy_in make_room grow
add d s = do r ← make_room (suc (s.num_bytes_written + length d)) (length d) s; ok (copy_in d r)

-- The overloads of write: the object representation on a little-endian machine with 64-bit
-- size_t and long. A double is its bit pattern.
unfoldable pub write_size : ℕ → Serializer → Run Serializer
write_size n = add (to_bytes 8 n)

unfoldable pub write_double : ℕ → Serializer → Run Serializer
write_double d = add (to_bytes 8 d)

unfoldable pub write_char : ℕ → Serializer → Run Serializer
write_char c = add (to_bytes 1 c)

unfoldable pub write_long : ℤ → Serializer → Run Serializer
write_long z = add (to_bytes 8 (to_word 0x8000_0000_0000_0000 z))

unfoldable pub write_int : ℤ → Serializer → Run Serializer
write_int z = add (to_bytes 4 (to_word 0x8000_0000 z))

unfoldable pub write_short : ℤ → Serializer → Run Serializer
write_short z = add (to_bytes 2 (to_word 0x8000 z))

abbrev pub bool_code : Bool → ℕ
bool_code true = 1
bool_code false = 0

unfoldable pub write_bool : Bool → Serializer → Run Serializer
write_bool b = add (to_bytes 1 (bool_code b))

-- write(sz, str)
unfoldable pub write_mem : ℕ → List ℕ → Serializer → Run Serializer
write_mem sz mem s = if leb sz (length mem) then add (take sz mem) s else fault undefined

-- write(str)
unfoldable pub write_cstr : List ℕ → Serializer → Run Serializer
write_cstr mem s = elim (strlen mem) [ none ↦ fault undefined | some n ↦ write_mem (suc n) mem s ]

-- memcpy of `n` bytes out of the buffer, which the readers share
unfoldable pub read_mem : ℕ → Serializer → Run (List ℕ × Serializer)
read_mem n s =
    if leb (s.num_bytes_read + n) (length s.buffer)
    then ok (
      take n (drop s.num_bytes_read s.buffer),
      record s { num_bytes_read = s.num_bytes_read + n },
    )
    else fault undefined

unfoldable pub read_size : Serializer → Run (ℕ × Serializer)
read_size s = do (d, r) ← read_mem 8 s; ok (of_bytes d, r)

unfoldable pub read_double : Serializer → Run (ℕ × Serializer)
read_double s = do (d, r) ← read_mem 8 s; ok (of_bytes d, r)

unfoldable pub read_char : Serializer → Run (ℕ × Serializer)
read_char s = do (d, r) ← read_mem 1 s; ok (of_bytes d, r)

unfoldable pub read_long : Serializer → Run (ℤ × Serializer)
read_long s = do (d, r) ← read_mem 8 s; ok (of_word 0x8000_0000_0000_0000 (of_bytes d), r)

unfoldable pub read_int : Serializer → Run (ℤ × Serializer)
read_int s = do (d, r) ← read_mem 4 s; ok (of_word 0x8000_0000 (of_bytes d), r)

unfoldable pub read_short : Serializer → Run (ℤ × Serializer)
read_short s = do (d, r) ← read_mem 2 s; ok (of_word 0x8000 (of_bytes d), r)

-- a byte other than 0 and 1 is no bool
abbrev pub bool_of : ℕ → Run Bool
bool_of n = if n == 0 then ok false else if n == 1 then ok true else fault undefined

unfoldable pub read_bool : Serializer → Run (Bool × Serializer)
read_bool s = do (d, r) ← read_mem 1 s; b ← bool_of (of_bytes d); ok (b, r)

-- readString; the result has its terminator
unfoldable pub read_string : Serializer → Run (List ℕ × Serializer)
read_string s = elim (strlen (drop s.num_bytes_read s.buffer)) [
  | none ↦ fault undefined
  | some n ↦ read_mem (suc n) s
]

-- readCharPtr
unfoldable pub read_char_ptr : ℕ → Serializer → Run (List ℕ × Serializer)
read_char_ptr n s = read_mem n s

unfoldable pub clear : Serializer → Serializer
clear s = record s { buffer = replicate s.capacity 0; num_bytes_read = 0; num_bytes_written = 0 }
