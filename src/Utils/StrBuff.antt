-- ===== src/Utils/StrBuff.antt =====
-- The class StrBuff of utils/string.h. `val` is the whole allocation.
pub mod Laws
pub mod Take
use swdev_proj.Prelude.{
  ℕ, ◌+◌, ◌-◌, ◌*◌, List, [], ◌∷◌, ◌++◌, Option, none, some, true, ltb, leb, if◌then◌else◌, length,
  take, drop, set, replicate, Run, ok, fault, undefined, ◌>>=◌,
}
use swdev_proj.Serial.{strlen}
use swdev_proj.Utils.Str
use swdev_proj.Utils.Str.{Str}
use swdev_proj.Utils.Decimal.{to_string}

pub record StrBuff : Type 0 where
  pub val : List ℕ
  pub capacity : ℕ
  pub size : ℕ

-- StrBuff()
unfoldable pub new : StrBuff
new = record { val = replicate 10 0; capacity = 10; size = 0 }

-- grow_by_; memcpy takes the characters over, the rest of the new allocation holds anything
unfoldable pub enlarge : ℕ → StrBuff → StrBuff
enlarge capacity b = record b {
  val = take b.size b.val ++ replicate (capacity - b.size) 0;
  capacity = capacity;
}

unfoldable pub grow_by : ℕ → StrBuff → StrBuff
unfolding enlarge
grow_by step b =
    let doubled = b.capacity * 2 in
    if ltb (step + b.size) b.capacity
    then b
    else enlarge (if leb doubled (step + b.size) then doubled + step else doubled) b

-- memcpy(val_ + size_, str, step)
unfoldable pub copy_in : List ℕ → ℕ → StrBuff → Run StrBuff
copy_in str step b =
    if leb step (length str)
    then (if leb (b.size + step) (length b.val)
        then ok (record b {
          val = take b.size b.val ++ (take step str ++ drop (b.size + step) b.val);
          size = b.size + step;
        })
        else fault undefined)
    else fault undefined

-- c(str, step)
unfoldable pub c_len : List ℕ → ℕ → StrBuff → Run StrBuff
unfolding grow_by copy_in
c_len str step b = copy_in str step (grow_by step b)

-- c(str)
unfoldable pub c : List ℕ → StrBuff → Run StrBuff
unfolding c_len
c str b = elim (strlen str) [ none ↦ fault undefined | some n ↦ c_len str n b ]

-- c(String&)
unfoldable pub c_string : Str → StrBuff → Run StrBuff
unfolding c
c_string s b = c s.cstr b

-- c(size_t): std::to_string(v).c_str()
unfoldable pub c_size : ℕ → StrBuff → Run StrBuff
unfolding c
c_size v b = c (to_string v ++ 0 ∷ []) b

-- StrBuff(String*)
unfoldable pub of_string : Str → Run StrBuff
unfolding c_string
of_string s =
    c_string s (record { val = replicate (s.size + 1) 0; capacity = s.size + 1; size = 0 })

-- StrBuff(const char*)
unfoldable pub of_cstr : List ℕ → Run StrBuff
unfolding c
of_cstr str = elim (strlen str) [
  | none ↦ fault undefined
  | some n ↦ c str (record { val = replicate (n + 1) 0; capacity = n + 1; size = 0 })
]

-- get: the String takes the allocation over, and the buffer goes on with the same one
unfoldable pub get : StrBuff → Run (Str × StrBuff)
unfolding grow_by
get b =
    let g = grow_by 1 b in
    if ltb g.size (length g.val)
    then (do
      s ← Str.of_stolen true (set g.val g.size 0) g.size
      ok (s, record g { val = set g.val g.size 0; size = 0 }))
    else fault undefined
