-- ===== src/Utils/StrMap/Laws.antt =====
-- MapStrObj of utils/map.h follows its helper map; its inherited clear does not.
use swdev_proj.Prelude.{◌≡◌, refl, some, ok, Returns, if◌then◌else◌}
use swdev_proj.Utils.Str.{Str, IsWell}
use swdev_proj.Utils.Str
use swdev_proj.Utils.Map
use swdev_proj.Utils.Map.{Map}
use swdev_proj.Utils.Map.Buckets.{view, IsValid, new-IsValid}
use swdev_proj.Utils.Map.Laws.{put-Writes, get-view}
use swdev_proj.Utils.StrMap.{MapStrObj, str_hashed, new, put, get, clear}
use swdev_proj.Prelude.{arith}

module _ {V : Type 0} where
  -- The size that is kept beside the helper map is the helper's.
  pub record IsKept (m : MapStrObj V) : Type 0 where
    pub valid : IsValid m.helper
    pub same_size : m.size ≡ m.helper.size

  -- put of a well-formed key stores the value under the key, leaves every other well-formed key,
  -- and keeps the size beside the helper map the helper's.
  pub put-IsKept :
      (m : MapStrObj V) (key : Str) (val : V)
      → IsKept m
      → IsWell key
      → Returns (put (some key) (some val) m) (λ r.
        (r.0 ≡ view m.helper key)
        × IsKept r.1
        × ((q : Str)
            → IsWell q
            → view r.1.helper q ≡ (if Str.equals key q then some val else view m.helper q)))
  unfolding put
  put-IsKept m key val k w =
      let ((o, h), run, p) = put-Writes m.helper key k.valid w val in
      (
        (o, record { helper = h; size = h.size }),
        rw run refl,
        (p.returns, record { valid = p.valid; same_size = refl }, p.reads),
      )

  pub get-IsKept :
      (m : MapStrObj V) (key : Str) → IsKept m → get (some key) m ≡ ok (view m.helper key)
  unfolding get
  get-IsKept m key k = get-view m.helper key k.valid

  -- After clear the map still gives every value that it held.
  pub get-clear :
      (m : MapStrObj V) (key : Str) → IsKept m → get (some key) (clear m) ≡ ok (view m.helper key)
  unfolding get clear
  get-clear m key k = get-view m.helper key k.valid

pub new-IsKept : {V : Type 0} → IsKept (new {V = V})
unfolding new
new-IsKept = record { valid = new-IsValid 4 (omega arith); same_size = unfold Map.new in refl }
