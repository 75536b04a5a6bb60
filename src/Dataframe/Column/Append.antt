-- ===== src/Dataframe/Column/Append.antt =====
-- add_all of dataframe/column/column.h, one block at a time, on whatever nodes its blocks live.
use swdev_proj.Prelude.{
  ℕ, suc, ◌*◌, ◌%◌, ◌≤◌, ◌<◌, ◌≡◌, refl, sym, ap, subst, ◌∙◌, List, [], ◌∷◌, ◌++◌, true, ◌==◌,
  ==_iff, Bool-cases, inl, inr, arith, length, length-append, All, ok, ◌>>=◌, Returns,
}
use swdev_proj.Serial
use swdev_proj.Serial.Write.{Appends}
use swdev_proj.Serial.Wire.{new-IsReady}
use swdev_proj.Serial.Wire.Scalars.{SizeT}
use swdev_proj.Utils.StrMap.{str_hashed}
use swdev_proj.Utils.Array.Change.{add-Represents}
use swdev_proj.Store.Key.{Key, key_hashed}
use swdev_proj.Store.Key.Build.{spell-IsWell}
use swdev_proj.Store.KvStore.{KvStore}
use swdev_proj.Store.KvStore.Invariant.{IsLocal}
use swdev_proj.Dataframe.KeyArr
use swdev_proj.Dataframe.KeyArr.{KeyArr}
use swdev_proj.Dataframe.Block.{Block}
use swdev_proj.Dataframe.Block.Laws
use swdev_proj.Dataframe.Block.Laws.{load-append, add-Holds, fits}
use swdev_proj.Dataframe.Block.Wire.{bytes, serialize-Appends}
use swdev_proj.Dataframe.Distributed.{add_block_to_store, add_key}
use swdev_proj.Dataframe.Distributed.Laws.{value_of, value_of-ok}
use swdev_proj.Dataframe.Item.{Item, IsItem, item_wire}
use swdev_proj.Dataframe.Column.{Column, gen_key, store_block}
use swdev_proj.Dataframe.Column.GenKey.{
  block_key, key_text, key_text_nonzero, gen_key-eq, block_keys_differ,
}
use swdev_proj.Dataframe.Column.Holds.{Agrees, Agrees-last, Agrees-append, InStore, Blocks}
use swdev_proj.Dataframe.Column.Mail.{Mailed}
use swdev_proj.Dataframe.Column.Steps.{Put, put-Put}

-- What a round of add_all makes of the column and the store with a block of the items `chunk`.
pub record Stored (nodes size col : ℕ) (c : Column) (st : KvStore) (xs chunk : List Item)
    (r : Column × KvStore) : Type 0 where
  pub blocks : Blocks nodes size col r.0 r.1 (xs ++ chunk)
  pub longer : KeyArr.length r.0.blocks.keys ≡ suc (KeyArr.length c.blocks.keys)
  pub same_size : r.0.size ≡ c.size
  pub same_type : r.0.type_ ≡ c.type_
  pub same_id : r.1.store_id ≡ st.store_id
  pub same_base : r.0.base_key ≡ c.base_key
  pub mailed :
      Mailed nodes size col c st
        (xs ++ chunk)
        (KeyArr.length c.blocks.keys)
        (KeyArr.length r.0.blocks.keys)
        r.1

module _ (nodes size col : ℕ) (pos : 0 < nodes) (small : SizeT size) (few : SizeT col) where
  module _ (c : Column) (st : KvStore) (xs chunk : List Item) (old : Blocks nodes size col c st xs)
      (full : length xs ≡ length old.keys * size) (count : SizeT (length old.keys))
      (u : Serial.Serializer) (wrote : Appends (bytes (item_wire c.type_) size chunk) Serial.new u)
      (fit : length chunk ≤ size) (valid : All (IsItem c.type_) chunk) (r : KvStore)
      (p : Put
        (block_key nodes old.base.cstring.chars col (length old.keys))
        (value_of u)
        st
        r) where
    abbrev key : ℕ → Key
    key m = block_key nodes old.base.cstring.chars col m

    IsLocal-before : (m : ℕ) → IsLocal r (key m) → IsLocal st (key m)
    IsLocal-before m l = subst (λ (i : ℕ). m % nodes == i ≡ true) p.same_id l

    stored_last :
        IsLocal r (key (length old.keys))
        → (d : List Item) × InStore c.type_ size r (key (length old.keys)) d
          × Agrees size (xs ++ chunk) (length old.keys) d
    stored_last l = (
      chunk,
      record {
        writer = u;
        there = p.here (IsLocal-before (length old.keys) l);
        few = fit;
        valid = valid;
        wrote = wrote;
      },
      Agrees-last size (length old.keys) xs chunk full,
    )

    stored_old :
        (m : ℕ)
        → m < length old.keys
        → IsLocal r (key m)
        → (d : List Item) × InStore c.type_ size r (key m) d × Agrees size (xs ++ chunk) m d
    stored_old m l here =
        let (d, s, a) = old.stored m l (IsLocal-before m here) in
        let text = key_text_nonzero old.base.cstring.chars col m old.base.cstring.nonzero in
        let other =
          block_keys_differ old.base.cstring.chars col (length old.keys) m old.base.cstring.nonzero
            few count (omega arith) (λ e. absurd (omega arith)) in
        (
          d,
          record {
            writer = s.writer;
            there =
                p.others (key m).k_str (spell-IsWell (key_text old.base.cstring.chars col m) text)
                  other
                ∙ s.there;
            few = s.few;
            valid = s.valid;
            wrote = s.wrote;
          },
          Agrees-append size m (length old.keys) xs chunk d full l a,
        )

    stored_any :
        (m : ℕ)
        → m < suc (length old.keys)
        → IsLocal r (key m)
        → (d : List Item) × InStore c.type_ size r (key m) d × Agrees size (xs ++ chunk) m d
    stored_any m l here = elim (Bool-cases (m == length old.keys)) [
      | inl last ↦
          subst
            (λ (j : ℕ).
              IsLocal r (key j)
              → (d : List Item) × InStore c.type_ size r (key j) d × Agrees size (xs ++ chunk) j d)
            (sym ((==_iff m (length old.keys)).0 last)) stored_last here
      | inr before ↦ stored_old m (ground arith) here
    ]

  -- A round that puts a block behind full ones returns; the column then holds the new items too.
  pub store_block-Stored :
      (c : Column) (st : KvStore) (xs chunk : List Item) (b : Block Item)
      (old : Blocks nodes size col c st xs)
      → length xs ≡ length old.keys * size
      → SizeT (length old.keys)
      → Laws.Holds b chunk
      → b.capacity ≡ size
      → All (IsItem c.type_) chunk
      → (n : ℕ) → n ≡ KeyArr.length c.blocks.keys
      → Returns (store_block nodes size n col b c st) (Stored nodes size col c st xs chunk)
  unfolding store_block add_block_to_store add_key KeyArr.add KeyArr.length
  store_block-Stored c st xs chunk b old full count h cap valid n e =
      let base = old.base.cstring.chars in
      let at_end : n ≡ length old.keys = e ∙ old.rep.counted in
      let k = block_key nodes base col (length old.keys) in
      let fit : length chunk ≤ size = omega (arith, fits b h, h.counted) in
      let (u, run, app) =
        serialize-Appends (item_wire c.type_) b chunk Serial.new h (omega arith) (omega arith) valid
          new-IsReady in
      let wrote =
        subst (λ (m : ℕ). Appends (bytes (item_wire c.type_) m chunk) Serial.new u) cap app in
      let keyed : gen_key nodes size n col c ≡ ok k =
        ap (λ (m : ℕ). gen_key nodes size m col c) at_end
        ∙ gen_key-eq nodes size (length old.keys) col c old.base pos in
      let (r, run', p) = put-Put k (value_of u) st old.sound (
        spell-IsWell (key_text base col (length old.keys))
          (key_text_nonzero base col (length old.keys) old.base.cstring.nonzero)) in
      let (longer, run'', (rep', room')) =
        add-Represents c.blocks.keys.key_list k old.rep old.room in
      let more = length-append old.keys (k ∷ []) in
      (
        (record c { blocks = record c.blocks { keys = record { key_list = longer } } }, r),
        rw (run, ◌>>=◌, keyed, value_of-ok u app.ready.initialised, run', run'') refl,
        record {
          blocks = record {
            base = old.base;
            sound = p.sound;
            keys = old.keys ++ k ∷ [];
            rep = rep';
            room = room';
            enough = grind (arith, more, length-append xs chunk);
            cached_keys = old.cached_keys;
            cache = old.cache;
            stored = λ m l here.
                stored_any c st xs chunk old full count u wrote fit valid r p m (omega arith) here;
            cached = λ m d s there.
                let (l, ds, g, a) = old.cached m d s there in
                (omega arith, ds, g, Agrees-append size m (length old.keys) xs chunk ds full l a);
          };
          longer = omega (arith, rep'.counted, old.rep.counted);
          same_size = refl;
          same_type = refl;
          same_id = p.same_id;
          same_base = refl;
          mailed = record {
            more = p.more;
            sent = p.sent;
            letters = λ m low high far.
                let last : m ≡ length old.keys =
                  omega (arith, rep'.counted, old.rep.counted, more) in
                record {
                  key = k;
                  keyed = ap (λ i. gen_key nodes size i col c) (last ∙ sym at_end) ∙ keyed;
                  chunk = chunk;
                  writer = u;
                  posted = p.posts (ap (λ i. i % nodes == st.store_id) (sym last) ∙ far);
                  few = fit;
                  valid = valid;
                  wrote = wrote;
                  agrees =
                      subst (λ i. Agrees size (xs ++ chunk) i chunk) (sym last)
                        (Agrees-last size (length old.keys) xs chunk full);
                };
          };
        },
      )
