-- ===== src/Store/Value/Wire.antt =====
-- A Value of store/value.h survives serialize and deserialize; equals compares contents.
use swdev_proj.Prelude.{
  ℕ, ◌≡◌, ◌↔◌, refl, subst, arith, List, [], ◌∷◌, ◌++◌, true, length, take_all, ok, Returns,
}
use swdev_proj.Serial.{Serializer, write_size, write_mem, read_size, read_char_ptr}
use swdev_proj.Serial.Room.{IsReady}
use swdev_proj.Serial.Write.{Appends}
use swdev_proj.Serial.Read.{Ahead, Took}
use swdev_proj.Serial.Wire
use swdev_proj.Serial.Wire.{Appends-seq, Took-seq, Ahead-assoc}
use swdev_proj.Serial.Wire.Scalars.{SizeT, size_wire}
use swdev_proj.Serial.Wire.Text.{write_mem-Appends, read_char_ptr-Took}
use swdev_proj.Store.Value.{
  Value, IsWell, of_data, clone, serialize, deserialize, equals, memcmp_eq,
}

pub record Sendable (v : Value) : Type 0 where
  pub well : IsWell v
  pub small : SizeT v.capacity

bytes : Value → List ℕ
bytes v = size_wire.bytes v.capacity ++ v.val

puts :
    (a : Value) (s : Serializer)
    → Sendable a
    → IsReady s
    → Returns (serialize a s) (Appends (bytes a) s)
unfolding serialize bytes
puts a s v r =
    Appends-seq (write_size a.capacity s) (write_mem a.capacity a.val) a.val
      (size_wire.puts a.capacity s v.small r) λ t h. write_mem-Appends a.val a.capacity t v.well h

gets :
    (a : Value) (rest : List ℕ) (s : Serializer)
    → Sendable a
    → Ahead (bytes a ++ rest) s
    → Returns (deserialize s) (Took a rest)
unfolding deserialize bytes
gets a rest s v h =
    Took-seq (read_size s) _
      (size_wire.gets a.capacity (a.val ++ rest) s v.small
        (Ahead-assoc (size_wire.bytes a.capacity) a.val rest s h))
      λ t ahead.
        Took-seq (read_char_ptr a.capacity t) _
          (read_char_ptr-Took a.val a.capacity rest t v.well ahead)
          λ u left. ((a, u), refl, record { value = refl; left = left })

pub value_wire : Wire.Wire serialize deserialize Sendable
value_wire = record { bytes = bytes; puts = puts; gets = gets }

-- clone of a value gives an equal value.
pub clone-eq : (v : Value) → IsWell v → clone v ≡ ok v
unfolding clone of_data
clone-eq v w = ground (arith, take_all v.capacity v.val)

memcmp_eq_refl : (a : List ℕ) → memcmp_eq (length a) a a ≡ true
unfolding memcmp_eq
memcmp_eq_refl [] = refl
memcmp_eq_refl (x ∷ a) = ground (arith, memcmp_eq_refl a)

memcmp_eq-eq : (a b : List ℕ) → length a ≡ length b → memcmp_eq (length a) a b ≡ true → a ≡ b
unfolding memcmp_eq
memcmp_eq-eq [] [] l h = refl
memcmp_eq-eq [] (y ∷ b) l h = absurd (omega arith)
memcmp_eq-eq (x ∷ a) [] l h = cc
memcmp_eq-eq (x ∷ a) (y ∷ b) l h = ground (arith, memcmp_eq-eq a b (omega arith))

equals-eq : (a b : Value) → IsWell a → IsWell b → equals a b ≡ true → a ≡ b
unfolding equals
equals-eq a b v w h = ground (arith, memcmp_eq-eq a.val b.val)

-- On values that the constructors build equals is equality of the contents.
pub equals_iff : (a b : Value) → IsWell a → IsWell b → (equals a b ≡ true) ↔ (a ≡ b)
unfolding equals
equals_iff a b v w = (
  equals-eq a b v w,
  λ e. subst (λ x. equals a x ≡ true) e (ground (arith, memcmp_eq_refl a.val)),
)
