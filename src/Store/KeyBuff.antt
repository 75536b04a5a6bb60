-- ===== src/Store/KeyBuff.antt =====
-- The class KeyBuff of store/keybuff.h.
pub mod Laws
mod Tests
use swdev_proj.Prelude.{
  ℕ, ◌+◌, List, none, some, ltb, if◌then◌else◌, Run, ok, fault, undefined, ◌>>=◌,
}
use swdev_proj.Serial.{strlen}
use swdev_proj.Utils.Str
use swdev_proj.Utils.Str.{Str}
use swdev_proj.Utils.StrBuff
use swdev_proj.Utils.StrBuff.{StrBuff}
use swdev_proj.Store.Key
use swdev_proj.Store.Key.{Key}

pub record KeyBuff : Type 0 where
  pub orig : Key
  pub buf : StrBuff

-- KeyBuff(orig)
unfoldable pub new : Key → Run KeyBuff
new orig = do
  k ← Key.clone orig
  b ← StrBuff.of_string orig.k_str
  ok (record { orig = k; buf = b })

-- c(String&), c(size_t), c(const char*)
unfoldable pub c_string : Str → KeyBuff → Run KeyBuff
c_string s kb = do b ← StrBuff.c_string s kb.buf; ok (record kb { buf = b })

unfoldable pub c_size : ℕ → KeyBuff → Run KeyBuff
c_size v kb = do b ← StrBuff.c_size v kb.buf; ok (record kb { buf = b })

unfoldable pub c : List ℕ → KeyBuff → Run KeyBuff
c v kb = do b ← StrBuff.c v kb.buf; ok (record kb { buf = b })

-- What grow_by_ would move away has been deleted: the string then points to nothing.
unfoldable pub kept_place : List ℕ → StrBuff → Run (Unit {0})
kept_place str b = elim (strlen str) [
  | none ↦ fault undefined
  | some n ↦ if ltb (n + b.size) b.capacity then ok tt else fault undefined
]

-- get: the buffer is filled again before the string, which shares its allocation, becomes a key
unfoldable pub get : KeyBuff → Run (Key × KeyBuff)
unfolding kept_place
get kb = do
  (s, b) ← StrBuff.get kb.buf
  stays ← kept_place kb.orig.k_str.cstr b
  d ← StrBuff.c kb.orig.k_str.cstr b
  str ← Str.of_cstr d.val
  k ← Key.new str kb.orig.home_node
  ok (k, record kb { buf = d })
