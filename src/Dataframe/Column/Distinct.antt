-- ===== src/Dataframe/Column/Distinct.antt =====
-- The keys that the columns of a dataframe give their blocks: addIndex of store/key.h and genKey_ of
-- dataframe/column/column.h, as addColumnFromArray of dataframe/columnarray.h calls them.
use swdev_proj.Prelude.{
  ℕ, ◌<◌, ◌≡◌, ◌≢◌, refl, sym, ap, ◌∙◌, List, ◌++◌, append_assoc, All, false, ok, ◌⊎◌, inl, inr,
  Bool-cases,
}
use swdev_proj.Utils.Decimal.{to_string, to_string-IsDigit, to_string_injective}
use swdev_proj.Serial.Wire.Scalars.{SizeT}
use swdev_proj.Utils.Str
use swdev_proj.Utils.Str.{Str, IsWell}
use swdev_proj.Store.Key.{Key, add_index}
use swdev_proj.Store.Key.Build.{spell, suffix, suffix_nonzero, All-append, add_index-eq}
use swdev_proj.Dataframe.Column.{Column, gen_key}
use swdev_proj.Dataframe.Column.GenKey.{
  block_key, key_text, key_text_nonzero, gen_key-eq, split_digits, cancel, spell_equals,
}

apart :
    (base : List ℕ) (n m : ℕ)
    → key_text (base ++ suffix n) n m ≡ base ++ (suffix n ++ (suffix n ++ suffix m))
apart base n m =
    append_assoc (base ++ suffix n) (suffix n) (suffix m)
    ∙ append_assoc base (suffix n) (suffix n ++ suffix m)

-- The name of a column is the dataframe's with the number of the column; its blocks add that number
-- once more and their own.
two_columns :
    (base : List ℕ) (col block col' block' : ℕ)
    → SizeT col
    → SizeT block
    → SizeT col'
    → SizeT block'
    → key_text (base ++ suffix col) col block ≡ key_text (base ++ suffix col') col' block'
    → (col ≡ col') × (block ≡ block')
two_columns base col block col' block' a b a' b' e =
    let tails =
      cancel base (suffix col ++ (suffix col ++ suffix block))
        (suffix col' ++ (suffix col' ++ suffix block'))
        (sym (apart base col block) ∙ (e ∙ apart base col' block')) in
    let (cols, rest) =
      split_digits (to_string col) (to_string col') (to_string col ++ suffix block)
        (to_string col' ++ suffix block') (to_string-IsDigit col) (to_string-IsDigit col') (cc) in
    let (_, blocks) =
      split_digits (to_string col) (to_string col') (to_string block) (to_string block')
        (to_string-IsDigit col) (to_string-IsDigit col') rest in
    (to_string_injective col col' a a' cols, to_string_injective block block' b b' blocks)

-- The strings of keys of different texts are not taken for equal.
differ :
    (base base' : List ℕ) (col block col' block' : ℕ)
    → All (λ c. 0 < c) base
    → All (λ c. 0 < c) base'
    → key_text base col block ≢ key_text base' col' block'
    → Str.equals (spell (key_text base col block)) (spell (key_text base' col' block')) ≡ false
differ base base' col block col' block' n n' ne =
    elim (Bool-cases
      (Str.equals (spell (key_text base col block)) (spell (key_text base' col' block')))) [
        | inr other ↦ other
        | inl same ↦ absurd (
            ne (
              spell_equals (key_text base col block) (key_text base' col' block')
                (key_text_nonzero base col block n) (key_text_nonzero base' col' block' n') same))
      ]

name_nonzero :
    (df : Key) (w : IsWell df.k_str) (col : ℕ) → All (λ n. 0 < n) (w.cstring.chars ++ suffix col)
name_nonzero df w col =
    All-append (λ n. 0 < n) w.cstring.chars (suffix col) w.cstring.nonzero (suffix_nonzero col)

-- What genKey_ of a column with the key that addIndex has made returns.
made_key :
    (nodes size : ℕ) (df : Key) (w : IsWell df.k_str) (c : Column) (col block : ℕ)
    → 0 < nodes
    → add_index col df ≡ ok c.base_key
    → gen_key nodes size block col c
      ≡ ok (block_key nodes (w.cstring.chars ++ suffix col) col block)
unfolding gen_key
made_key nodes size df w c col block pos made =
    let named = w.cstring.chars ++ suffix col in
    let k : Key = record { k_str = spell named; home_node = df.home_node } in
    let same : c.base_key ≡ k = cc (add_index-eq col df w) in
    let well : IsWell k.k_str = record {
      cstring = record { chars = named; spelt = refl; nonzero = name_nonzero df w col };
      sized = refl;
    } in
    ap (λ (q : Key). gen_key nodes size block col (record c { base_key = q })) same
    ∙ gen_key-eq nodes size block col (record c { base_key = k }) well pos

-- Let a dataframe's key have a well-formed string, let two columns of it have the keys that addIndex
-- makes of it with the columns' numbers, and let the numbers of the columns and of two of their
-- blocks fit a size_t. If the numbers of the columns or those of the blocks differ, then genKey_
-- returns, for the two blocks, keys whose strings, by which a store looks its keys up, are taken for
-- different by String::equals.
pub frame_keys-differ :
    (nodes size : ℕ) (df : Key) (c c' : Column) (col block col' block' : ℕ)
    → IsWell df.k_str
    → 0 < nodes
    → SizeT col
    → SizeT block
    → SizeT col'
    → SizeT block'
    → add_index col df ≡ ok c.base_key
    → add_index col' df ≡ ok c'.base_key
    → (col ≢ col') ⊎ (block ≢ block')
    → (k : Key) × (k' : Key) × (gen_key nodes size block col c ≡ ok k)
      × (gen_key nodes size block' col' c' ≡ ok k')
      × (Str.equals k.k_str k'.k_str ≡ false)
frame_keys-differ nodes size df c c' col block col' block' w pos a b a' b' made made' other =
    let base = w.cstring.chars in
    (
      block_key nodes (base ++ suffix col) col block,
      block_key nodes (base ++ suffix col') col' block',
      made_key nodes size df w c col block pos made,
      made_key nodes size df w c' col' block' pos made',
      differ (base ++ suffix col) (base ++ suffix col') col block col' block'
          (name_nonzero df w col) (name_nonzero df w col')
          (λ e.
            let (cols, blocks) = two_columns base col block col' block' a b a' b' e in
            elim other [ inl ne ↦ ne cols | inr ne ↦ ne blocks ]),
    )
