-- ===== src/Utils/StrMap.antt =====
-- MapStrObj and SIMap of utils/map.h: maps whose keys are Strings.
pub mod Laws
use swdev_proj.Prelude.{
  ℕ, Option, none, some, Bool, List, false, not, ◌==◌, if◌then◌else◌, Run, ok, fault, asserts,
  ◌>>=◌, ◌%◌, ap,
}
use swdev_proj.Utils.Str.{Str, IsWell}
use swdev_proj.Utils.Str
use swdev_proj.Utils.Str.Equality.{equals_refl, equals_symm, equals_trans, hash_me-equals}
use swdev_proj.Utils.Hashed.{Hashed}
use swdev_proj.Utils.Map
use swdev_proj.Utils.Map.{Map}
use swdev_proj.Utils.Map.Equality.{equals as equal_maps}

instance abbrev pub str_hashed : Hashed Str
str_hashed = record {
  equals = Str.equals;
  hash = Str.hash_me;
  Good = IsWell;
  equals_refl = equals_refl;
  equals_symm = equals_symm;
  equals_trans = equals_trans;
  hash-equals = hash_me-equals;
}

-- The map proper is helper_; of the inherited fields only size_ is ever written.
pub record MapStrObj (V : Type 0) : Type 0 where
  pub helper : Map Str V
  pub size : ℕ

module _ {V : Type 0} where
  -- MapStrObj()
  unfoldable pub new : MapStrObj V
  new = record { helper = Map.new 4; size = 0 }

  -- MapStrObj(capacity) does not use its argument
  unfoldable pub new_capacity : ℕ → MapStrObj V
  new_capacity capacity = record { helper = Map.new 4; size = 0 }

  unfoldable pub put : Option Str → Option V → MapStrObj V → Run (Option V × MapStrObj V)
  put key val m = do
    (prev, h) ← Map.put key val m.helper
    ok (prev, record { helper = h; size = h.size })

  unfoldable pub get : Option Str → MapStrObj V → Run (Option V)
  get key m = Map.get key m.helper

  -- equals of two objects; `same` compares two values
  unfoldable pub equals : (V → V → Bool) → MapStrObj V → MapStrObj V → Run Bool
  equals same m o = if not (m.size == o.size) then ok false else equal_maps same m.helper o.helper

  unfoldable pub remove : Option Str → MapStrObj V → Run (Option V × MapStrObj V)
  remove key m = do
    (removed, h) ← Map.remove key m.helper
    ok (removed, record { helper = h; size = h.size })

  unfoldable pub contains_key : Option Str → MapStrObj V → Run Bool
  contains_key key m = Map.contains_key key m.helper

  unfoldable pub get_keys : MapStrObj V → Run (List Str)
  get_keys m = Map.get_keys m.helper

  unfoldable pub get_values : MapStrObj V → Run (List V)
  get_values m = Map.get_values m.helper

  -- clear is inherited from Map and empties the inherited buckets, not helper_
  unfoldable pub clear : MapStrObj V → MapStrObj V
  clear m = record m { size = 0 }

-- SIMap::get and SIMap::set; set loses the value that it replaces
unfoldable pub get_num : {V : Type 0} → Str → Map Str V → Run (Option V)
get_num key m = Map.get (some key) m

unfoldable pub set_num : {V : Type 0} → Str → Option V → Map Str V → Run (Map Str V)
set_num key none m = fault asserts
set_num key (some v) m = do (old, n) ← Map.put (some key) (some v) m; ok n
