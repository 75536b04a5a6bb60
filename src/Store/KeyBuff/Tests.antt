-- ===== src/Store/KeyBuff/Tests.antt =====
-- The theorem on KeyBuff at a concrete buffer.
use swdev_proj.Prelude.{◌≡◌, refl, [], ◌∷◌, ◌++◌, arith, Returns}
use swdev_proj.Utils.Str.{IsWell}
use swdev_proj.Utils.StrBuff.Laws.{Holds}
use swdev_proj.Store.Key.Build.{spell}
use swdev_proj.Store.KeyBuff.{KeyBuff, get}
use swdev_proj.Store.KeyBuff.Laws.{get-key}
use swdev_proj.Samples.{near}

abbrev well : IsWell near.k_str
well = record {
  cstring = record { chars = b'a' ∷ []; spelt = refl; nonzero = (omega arith, tt) };
  sized = refl;
}

-- The key "a", with "7" behind it.
abbrev buff : KeyBuff
buff = record {
  orig = near;
  buf = record { val = b'a' ∷ b'7' ∷ 0 ∷ 0 ∷ []; capacity = 4; size = 2 };
}

buff-Holds : Holds buff.buf (well.cstring.chars ++ b'7' ∷ [])
buff-Holds = record {
  spare = 0 ∷ 0 ∷ [];
  shape = refl;
  sized = refl;
  room = refl;
  more = omega arith;
}

get-key_example : Returns (get buff) (λ r.
    (r.0 ≡ record { k_str = spell (well.cstring.chars ++ b'7' ∷ []); home_node = near.home_node })
    × Holds r.1.buf well.cstring.chars
    × (r.1.orig ≡ near))
get-key_example = get-key buff well (b'7' ∷ []) (omega arith, tt) buff-Holds
