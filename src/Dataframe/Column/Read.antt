-- ===== src/Dataframe/Column/Read.antt =====
-- The getters of dataframe/column/column.h.
use swdev_proj.Prelude.{
  ℕ, leb, ◌+◌, ◌*◌, ◌/◌, ◌%◌, ◌≤◌, ◌<◌, ◌≡◌, refl, sym, ap, subst, ◌∙◌, List, [], ◌∷◌, ◌++◌, Option,
  none, some, false, ◌==◌, ==_iff, if◌then◌else◌, Bool-cases, inl, inr, arith, length, get_elem?,
  get_elem?-lt, get_elem?-split, ok, ◌>>=◌, Returns,
}
use native.Mathlib.Nat.{div-add-mod', mod-lt, mul-le-mul_right}
use swdev_proj.Serial.Wire.Scalars.{SizeT}
use swdev_proj.Utils.Array.Laws.{Represents}
use swdev_proj.Dataframe.KeyArr
use swdev_proj.Dataframe.KeyArr.{KeyArr}
use swdev_proj.Utils.Hashed.{◌=ᵏ◌}
use swdev_proj.Utils.Map.Buckets.{view}
use swdev_proj.Utils.DataType.{same_type_refl}
use swdev_proj.Store.Key
use swdev_proj.Store.Key.{Key, key_hashed, key_refl}
use swdev_proj.Store.KvStore.{KvStore}
use swdev_proj.Store.KvStore.Invariant.{IsLocal}
use swdev_proj.Network.Await.{done}
use swdev_proj.Dataframe.Block.{Block}
use swdev_proj.Dataframe.Block.Laws
use swdev_proj.Dataframe.Block.Wire.{loaded, loaded-Holds}
use swdev_proj.Dataframe.Cache.Laws.{member, some_there}
use swdev_proj.Dataframe.Cache.Fifo.{kept}
use swdev_proj.Dataframe.Distributed
use swdev_proj.Dataframe.Distributed.Laws.{get_item-cached, get_item-stored}
use swdev_proj.Dataframe.Item
use swdev_proj.Dataframe.Item.{Item, item_wire}
use swdev_proj.Dataframe.Column.{Column, proper_type, get_item}
use swdev_proj.Dataframe.Column.GenKey.{block_key, gen_key-eq, block_keys_differ}
use swdev_proj.Dataframe.Column.Holds.{Agrees, IsColumn}

-- A block number is below the number of blocks.
block_lt : (n i size count held : ℕ) → n * size + i < held → held ≤ count * size → n < count
block_lt n i size count held l m = elim (Bool-cases (leb count n)) [
  | inr before ↦ ground arith
  | inl past ↦
      let over : count * size ≤ n * size = mul-le-mul_right size (ground arith) in
      absurd (omega arith)
]

module _ (nodes size col : ℕ) (c : Column) (st : KvStore) (xs : List Item) (pos : 0 < nodes)
    (some_size : 0 < size) (small : SizeT size) (few : SizeT col)
    (h : IsColumn nodes size col c st xs) (count : SizeT (KeyArr.length c.blocks.keys)) where
  abbrev key : ℕ → Key
  key m = block_key nodes h.blocks.base.cstring.chars col m

  few_blocks : SizeT (length h.blocks.keys)
  unfolding KeyArr.length
  few_blocks = omega (arith, h.blocks.rep.counted)

  -- The getter's own call, in a column of the type.
  get_item-calls :
      (idx : ℕ)
      → get_item nodes size c.type_ idx col c st ≡ (
          Distributed.get_item
            (Item.take_one c.type_)
            (Item.initial c.type_)
            (key (idx / size))
            (idx % size)
            c.blocks
            st
          >>= λ r. ok (r.0, record c { blocks = r.1 }, r.2))
  unfolding get_item proper_type
  get_item-calls idx =
      let divides : size == 0 ≡ false = ground arith in
      rw
        (
          same_type_refl c.type_,
          divides,
          gen_key-eq nodes size (idx / size) col c h.blocks.base pos,
          ◌>>=◌,
        )
        refl

  -- The cache after a block of the column was put into it.
  cached_after :
      (n : ℕ) (chunk : List Item) (cache : (q : Key) → Option (Block Item))
      → n < length h.blocks.keys
      → Agrees size xs n chunk
      → length chunk ≤ size
      → ((q : Key)
          → cache q ≡ (
              if key n =ᵏ q
              then some (loaded (item_wire c.type_) (Item.initial c.type_) size chunk)
              else if member q (kept c.blocks.cache.max_size h.blocks.cached_keys)
              then view c.blocks.cache.blocks q
              else none))
      → (m : ℕ) (b : Block Item) → SizeT m
      → cache (key m) ≡ some b
      → (m < length h.blocks.keys) × (d : List Item) × Laws.Holds b d × Agrees size xs m d
  cached_after n chunk cache l a fit reads m b s there = elim (Bool-cases (n == m)) [
    | inl same ↦
        let e : n ≡ m = (==_iff n m).0 same in
        let put_there : cache (key n)
            ≡ some (loaded (item_wire c.type_) (Item.initial c.type_) size chunk) =
          reads (key n) ∙ rw (key_refl (key n)) refl in
        let found : cache (key n) ≡ some b =
          subst (λ (j : ℕ). cache (key j) ≡ some b) (sym e) there in
        let block : loaded (item_wire c.type_) (Item.initial c.type_) size chunk ≡ b = cc in
        (
          omega arith,
          chunk,
          subst (λ (d : Block Item). Laws.Holds d chunk) block
              (loaded-Holds (item_wire c.type_) (Item.initial c.type_) size chunk fit),
          subst (λ (j : ℕ). Agrees size xs j chunk) e a,
        )
    | inr differ ↦
        let strings =
          block_keys_differ h.blocks.base.cstring.chars col n m h.blocks.base.cstring.nonzero few
            (omega (arith, few_blocks)) s (λ e. absurd (ground arith)) in
        let keys : (key n =ᵏ key m) ≡ false = unfold Key.equals in ground arith in
        let old : view c.blocks.cache.blocks (key m) ≡ some b =
          elim (Bool-cases (member (key m) (kept c.blocks.cache.max_size h.blocks.cached_keys))) [
            | inl stays ↦ sym (reads (key m) ∙ rw (keys, stays) refl) ∙ there
            | inr gone ↦
                let nothing : cache (key m) ≡ none = reads (key m) ∙ rw (keys, gone) refl in cc
          ] in
        h.blocks.cached m b s old
  ]

  -- A getter of the column's type, at a row whose block lives on this node, returns the item of
  -- the row, whether the block is in the cache or in the store; the store stays as it is, and the
  -- column, with its changed cache, still holds the same items.
  pub get_item-IsColumn :
      (idx : ℕ) (z : Item)
      → get_elem? xs idx ≡ some z
      → IsLocal st (key (idx / size))
      → Returns
          (get_item nodes size c.type_ idx col c st)
          (λ r. (r.0 ≡ done z) × IsColumn nodes size col r.1 r.2 xs × (r.2 ≡ st))
  get_item-IsColumn idx z e here =
      let n = idx / size in
      let i = idx % size in
      let k = key n in
      let place : n * size + i ≡ idx = div-add-mod' idx size in
      let inner : i < size = mod-lt idx some_size in
      let l : n < length h.blocks.keys =
        block_lt n i size (length h.blocks.keys) (length xs) (omega (arith, get_elem?-lt xs idx e))
          h.blocks.enough in
      let at_place : get_elem? xs (n * size + i) ≡ some z =
        ap (λ (j : ℕ). get_elem? xs j) place ∙ e in
      elim (Bool-cases (member k h.blocks.cached_keys)) [
        | inl held ↦
            let (b, there) =
              some_there (view c.blocks.cache.blocks k) (h.blocks.cache.holds k ∙ held) in
            let (_, chunk, g, a) = h.blocks.cached n b (omega (arith, few_blocks)) there in
            let (us, vs, split, before) = get_elem?-split chunk i (a i z inner at_place) in
            let run =
              get_item-cached (Item.take_one c.type_) (Item.initial c.type_) k c.blocks
                h.blocks.cached_keys b chunk us vs z i st h.blocks.cache there g split before in
            ((done z, c, st), get_item-calls idx ∙ rw (run, ◌>>=◌) refl, (refl, h, refl))
        | inr absent ↦
            let (chunk, s, a) = h.blocks.stored n l here in
            let (us, vs, split, before) = get_elem?-split chunk i (a i z inner at_place) in
            let (r, run, (got, cache, reads, same, keys)) =
              get_item-stored (item_wire c.type_) (Item.initial c.type_) k c.blocks
                h.blocks.cached_keys chunk us vs z i split before h.blocks.cache size s.writer st
                absent h.blocks.sound here s.there s.few small s.valid s.wrote in
            let d : Column = record c { blocks = r.1 } in
            let held : IsColumn nodes size col d st xs = record {
              blocks = record {
                base = h.blocks.base;
                sound = h.blocks.sound;
                keys = h.blocks.keys;
                rep =
                    subst (λ (a : KeyArr). Represents a.key_list h.blocks.keys) (sym keys)
                      h.blocks.rep;
                room = subst (λ (a : KeyArr). 0 < a.key_list.capacity) (sym keys) h.blocks.room;
                enough = h.blocks.enough;
                cached_keys = kept c.blocks.cache.max_size h.blocks.cached_keys ++ k ∷ [];
                cache = cache;
                stored = h.blocks.stored;
                cached = cached_after n chunk (λ q. view r.1.cache.blocks q) l a s.few reads;
              };
              counted = h.counted;
            } in
            (
              (r.0, d, r.2),
              get_item-calls idx ∙ rw (run, ◌>>=◌) refl,
              (got, subst (λ (q : KvStore). IsColumn nodes size col d q xs) (sym same) held, same),
            )
      ]
