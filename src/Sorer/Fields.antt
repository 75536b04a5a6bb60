-- ===== src/Sorer/Fields.antt =====
-- Fields of a SoR file (sorer/sorer_helper.h): trimming and the type of a field. `file` is the
-- memory that is mapped, with the null bytes behind the file.
pub mod Skip
pub mod Trim
use swdev_proj.Prelude.{
  ℕ, zero, suc, ◌+◌, ◌-◌, List, [], ◌∷◌, Bool, true, false, not, ◌&&◌, ◌||◌, ltb, leb, ◌==◌,
  if◌then◌else◌, drop, length, Run, ok, fault, asserts, guard, ◌>>=◌, ◌>>◌,
}
use swdev_proj.Utils.DataType.{DataType, boolean, integer, double, str}
use swdev_proj.Dataframe.Block.{load}

-- isspace in the C locale
unfoldable pub isspace : ℕ → Bool
isspace c = c == 32 || (leb 9 c && leb c 13)

-- the loop of triml from byte `i` on, with `n` rounds left
unfoldable pub triml_from : ℕ → ℕ → List ℕ → Run ℕ
unfolding isspace
triml_from zero i file = ok i
triml_from (suc n) i file =
    load i file >>= λ c. let rest = triml_from n (i + 1) file in if isspace c then rest else ok i

unfoldable pub triml : List ℕ → ℕ → ℕ → Run ℕ
unfolding triml_from
triml file start end = triml_from (end - (start + 1)) (start + 1) file

-- the loop of trimr from byte `start + n` down
unfoldable pub trimr_from : ℕ → ℕ → List ℕ → Run ℕ
unfolding isspace
trimr_from zero start file = ok start
trimr_from (suc n) start file = load (start + suc n) file >>= λ c.
    let rest = trimr_from n start file in if isspace c then rest else ok (start + suc n)

-- A loop that starts at or below `start` stops at once.
unfoldable pub trimr : List ℕ → ℕ → ℕ → Run ℕ
unfolding trimr_from
trimr file start end =
    if end == 0
    then fault asserts
    else if leb (end - 1) start
    then ok (end - 1)
    else trimr_from (end - 1 - start) start file

unfoldable pub digit_count : List ℕ → ℕ
digit_count [] = 0
digit_count (c ∷ cs) =
    let more = suc (digit_count cs) in if leb b'0' c && leb c b'9' then more else 0

-- how many characters strtoll(s, &endptr, 10) consumes: spaces, a sign, digits; none if there is no
-- digit
unfoldable pub signed_count : List ℕ → ℕ
unfolding digit_count
signed_count [] = 0
signed_count (c ∷ cs) =
    let n = digit_count cs in
    if c == b'-' || c == b'+' then (if n == 0 then 0 else suc n) else digit_count (c ∷ cs)

unfoldable pub strtoll_count : List ℕ → ℕ
unfolding isspace signed_count
strtoll_count [] = 0
strtoll_count (c ∷ cs) =
    let after = strtoll_count cs in
    if isspace c then (if after == 0 then 0 else suc after) else signed_count (c ∷ cs)

-- the loop over file[i], file[i + 1], ... that looks for a space
unfoldable pub has_space : ℕ → ℕ → List ℕ → Run Bool
has_space zero i file = ok false
has_space (suc n) i file =
    load i file >>= λ c. let rest = has_space n (i + 1) file in if isspace c then ok true else rest

-- `strtold_count` says how many characters strtold consumes.
module _ (strtold_count : List ℕ → ℕ) where
  -- the last branch of parse_field_type: a number, or text without quotes
  unfoldable pub plain_type : List ℕ → ℕ → ℕ → Run DataType
  unfolding strtoll_count has_space
  plain_type file start end =
      if strtoll_count (drop start file) == end - start + 1
      then ok integer
      else if strtold_count (drop start file) == end - start + 1
      then ok double
      else (do
        spaces ← has_space (end - start + 1) start file
        ok (if spaces then boolean else str))

  unfoldable pub trimmed_type : List ℕ → ℕ → ℕ → Run DataType
  unfolding plain_type
  trimmed_type file start end =
      if leb start end
      then (load start file >>= λ c.
          if c == b'"'
          then ok str
          else if end == start && (c == b'0' || c == b'1')
          then ok boolean
          else plain_type file start end)
      else ok boolean

  unfoldable pub parse_field_type : List ℕ → ℕ → ℕ → Run DataType
  unfolding trimmed_type triml trimr
  parse_field_type file start end = do
    s ← triml file start end
    e ← trimr file s end
    trimmed_type file s e
