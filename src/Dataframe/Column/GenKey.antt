-- ===== src/Dataframe/Column/GenKey.antt =====
-- The keys of a column's blocks: genKey_ of dataframe/column/column.h.
use swdev_proj.Prelude.{
  ℕ, ◌%◌, ◌<◌, ◌≡◌, ◌≢◌, refl, sym, ap, ◌∙◌, List, [], ◌∷◌, ◌++◌, append_assoc, true, false, ◌==◌,
  arith, All, ok, ◌>>=◌, Bool-cases, inl, inr,
}
use swdev_proj.Serial.Wire.Scalars.{SizeT}
use swdev_proj.Utils.Decimal.{to_string, to_string-IsDigit, to_string_injective, IsDigit}
use swdev_proj.Utils.Str
use swdev_proj.Utils.Str.{Str, IsWell}
use swdev_proj.Utils.Str.Equality.{equals_iff}
use swdev_proj.Utils.StrBuff
use swdev_proj.Utils.StrBuff.{StrBuff}
use swdev_proj.Utils.StrBuff.Laws.{new-Holds, c_string-Holds}
use swdev_proj.Utils.StrBuff.Take.{get-Taken}
use swdev_proj.Store.Key.{Key}
use swdev_proj.Store.Key.Build.{
  spell, spell-IsWell, suffix, suffix_nonzero, All-append, c_index-Holds, new-Taken,
}
use swdev_proj.Dataframe.Column.{Column, gen_key}

-- The text of the key of a block: the base, the column and the block, with hyphens between them.
abbrev pub key_text : List ℕ → ℕ → ℕ → List ℕ
key_text base col block = (base ++ suffix col) ++ suffix block

pub key_text_nonzero :
    (base : List ℕ) (col block : ℕ)
    → All (λ c. 0 < c) base
    → All (λ c. 0 < c) (key_text base col block)
key_text_nonzero base col block n =
    All-append (λ c. 0 < c) (base ++ suffix col) (suffix block)
      (All-append (λ c. 0 < c) base (suffix col) n (suffix_nonzero col)) (suffix_nonzero block)

-- The key of a block.
abbrev pub block_key : ℕ → List ℕ → ℕ → ℕ → Key
block_key nodes base col block = record {
  k_str = spell (key_text base col block);
  home_node = block % nodes;
}

-- genKey_ of a column whose base key has a well-formed string returns the key of the block, whose
-- home is the block's number modulo the number of nodes.
pub gen_key-eq :
    (nodes block_size block col : ℕ) (c : Column) (w : IsWell c.base_key.k_str)
    → 0 < nodes
    → gen_key nodes block_size block col c ≡ ok (block_key nodes w.cstring.chars col block)
unfolding gen_key
gen_key-eq nodes block_size block col c w pos =
    let base = w.cstring.chars in
    let (a, run, h) = c_string-Holds c.base_key.k_str [] StrBuff.new w new-Holds in
    let (b, run', g) = c_index-Holds col base a h in
    let (d, run'', f) = c_index-Holds block (base ++ suffix col) b g in
    let (p, run''', t) = get-Taken d (key_text base col block) f in
    let some_nodes : nodes == 0 ≡ false = ground arith in
    rw (run, ◌>>=◌, run', run'', run''', some_nodes)
      (new-Taken (key_text base col block) p (block % nodes) t)

-- Digits end at a hyphen.
pub split_digits :
    (ds es r q : List ℕ)
    → All IsDigit ds
    → All IsDigit es
    → ds ++ b'-' ∷ r ≡ es ++ b'-' ∷ q
    → (ds ≡ es) × (r ≡ q)
split_digits [] [] r q h k e = (refl, cc)
split_digits [] (x ∷ es) r q h k e = absurd (let same : b'-' ≡ x = cc in omega (arith, k.0.0))
split_digits (x ∷ ds) [] r q h k e = absurd (let same : x ≡ b'-' = cc in omega (arith, h.0.0))
split_digits (x ∷ ds) (y ∷ es) r q h k e =
    let (a, b) = split_digits ds es r q h.1 k.1 (cc) in (cc, b)

pub cancel : (xs ys zs : List ℕ) → xs ++ ys ≡ xs ++ zs → ys ≡ zs
cancel [] ys zs e = e
cancel (x ∷ xs) ys zs e = cancel xs ys zs (cc)

-- The two numbers can be read off the text.
pub key_text_injective :
    (base : List ℕ) (col block col' block' : ℕ)
    → SizeT col
    → SizeT block
    → SizeT col'
    → SizeT block'
    → key_text base col block ≡ key_text base col' block'
    → (col ≡ col') × (block ≡ block')
key_text_injective base col block col' block' a b a' b' e =
    let tails : suffix col ++ suffix block ≡ suffix col' ++ suffix block' =
      cancel base (suffix col ++ suffix block) (suffix col' ++ suffix block') (
        sym (append_assoc base (suffix col) (suffix block))
        ∙ (e ∙ append_assoc base (suffix col') (suffix block'))) in
    let (cols, blocks) =
      split_digits (to_string col) (to_string col') (to_string block) (to_string block')
        (to_string-IsDigit col) (to_string-IsDigit col') (cc) in
    (to_string_injective col col' a a' cols, to_string_injective block block' b b' blocks)

pub spell_equals :
    (xs ys : List ℕ)
    → All (λ c. 0 < c) xs
    → All (λ c. 0 < c) ys
    → Str.equals (spell xs) (spell ys) ≡ true
    → xs ≡ ys
spell_equals xs ys n m h =
    let e : spell xs ≡ spell ys =
      (equals_iff (spell xs) (spell ys) (spell-IsWell xs n) (spell-IsWell ys m)).0 h in
    cancel_last xs ys (ap (λ (s : Str). s.cstr) e)
  where
    cancel_last : (xs ys : List ℕ) → xs ++ 0 ∷ [] ≡ ys ++ 0 ∷ [] → xs ≡ ys
    cancel_last [] [] e = refl
    cancel_last [] (y ∷ []) e = cc
    cancel_last [] (y ∷ (z ∷ ys)) e = cc
    cancel_last (x ∷ []) [] e = cc
    cancel_last (x ∷ (z ∷ xs)) [] e = cc
    cancel_last (x ∷ xs) (y ∷ ys) e = let r = cancel_last xs ys (cc) in cc

-- Two blocks of one column have different keys.
pub block_keys_differ :
    (base : List ℕ) (col m n : ℕ)
    → All (λ c. 0 < c) base
    → SizeT col
    → SizeT m
    → SizeT n
    → m ≢ n
    → Str.equals (spell (key_text base col m)) (spell (key_text base col n)) ≡ false
block_keys_differ base col m n nz a b d ne =
    elim (Bool-cases (Str.equals (spell (key_text base col m)) (spell (key_text base col n)))) [
      | inr differ ↦ differ
      | inl same ↦ absurd (
          ne
            (key_text_injective base col m col n a b a d (
              spell_equals (key_text base col m) (key_text base col n)
                (key_text_nonzero base col m nz) (key_text_nonzero base col n nz) same)).1)
    ]
