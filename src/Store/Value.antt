-- ===== src/Store/Value.antt =====
-- The class Value of store/value.h: a block of bytes with its size.
pub mod Wire
use swdev_proj.Prelude.{
  ℕ, zero, suc, List, [], ◌∷◌, Bool, true, false, leb, ◌==◌, if◌then◌else◌, length, take, Run, ok,
  fault, undefined, ◌>>=◌, ◌≡◌,
}
use swdev_proj.Serial.{Serializer, write_size, write_mem, read_size, read_char_ptr}

pub record Value : Type 0 where
  pub val : List ℕ
  pub capacity : ℕ

-- Value()
unfoldable pub new : Value
new = record { val = 0 ∷ 0 ∷ []; capacity = 2 }

-- Value(data, cap)
unfoldable pub of_data : List ℕ → ℕ → Run Value
of_data d cap =
    if leb cap (length d) then ok (record { val = take cap d; capacity = cap }) else fault undefined

unfoldable pub clone : Value → Run Value
unfolding of_data
clone v = of_data v.val v.capacity

unfoldable pub serialize : Value → Serializer → Run Serializer
serialize v s = do t ← write_size v.capacity s; write_mem v.capacity v.val t

unfoldable pub deserialize : Serializer → Run (Value × Serializer)
deserialize s = do
  (cap, t) ← read_size s
  (mem, u) ← read_char_ptr cap t
  ok (record { val = mem; capacity = cap }, u)

-- memcmp(a, b, n) == 0
unfoldable pub memcmp_eq : ℕ → List ℕ → List ℕ → Bool
memcmp_eq zero a b = true
memcmp_eq (suc n) [] b = false
memcmp_eq (suc n) (x ∷ a) [] = false
memcmp_eq (suc n) (x ∷ a) (y ∷ b) = let rest = memcmp_eq n a b in if x == y then rest else false

unfoldable pub equals : Value → Value → Bool
unfolding memcmp_eq
equals v o = if v.capacity == o.capacity then memcmp_eq v.capacity v.val o.val else false

-- What the constructors establish.
abbrev pub IsWell : Value → Type 0
IsWell v = v.capacity ≡ length v.val
