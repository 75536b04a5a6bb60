-- ===== src/Dataframe/Column/Rounds.antt =====
-- The rounds of the loop of add_all (dataframe/column/column.h).
use swdev_proj.Prelude.{
  ℕ, zero, suc, ◌+◌, ◌-◌, ◌*◌, ◌/◌, ◌≤◌, ◌<◌, ◌≡◌, refl, sym, ap, subst, ◌∙◌, List, [], ◌∷◌, ◌++◌,
  append_assoc, append-nil, true, false, ◌==◌, ltb, leb, if◌then◌else◌, Bool-cases, inl, inr, arith,
  length, length-append, length-take, length-drop, take, drop, take-append-drop, All, ok, ◌>>=◌,
  Returns,
}
use native.Mathlib.Nat.{mul-div_cancel}
use swdev_proj.Serial.Wire.Scalars.{SizeT}
use swdev_proj.Utils.DataType.{DataType}
use swdev_proj.Store.KvStore.{KvStore}
use swdev_proj.Dataframe.KeyArr
use swdev_proj.Dataframe.Block
use swdev_proj.Dataframe.Block.{Block}
use swdev_proj.Dataframe.Block.Laws
use swdev_proj.Dataframe.Block.Laws.{clear-Holds, new-Holds}
use swdev_proj.Dataframe.Item
use swdev_proj.Dataframe.Item.{Item, IsItem}
use swdev_proj.Dataframe.Column.{Column, fill_block, store_block, add_blocks}
use swdev_proj.Dataframe.Column.Holds.{Blocks}
use swdev_proj.Dataframe.Column.Mail.{Mailed, Mailed-none, Mailed-seq}
use swdev_proj.Dataframe.Column.Steps.{fill_block-Holds}
use swdev_proj.Dataframe.Column.Append.{Stored, store_block-Stored}

All-take {ℓ κ} : {A : Type ℓ} (P : A → Type κ) (n : ℕ) (xs : List A) → All P xs → All P (take n xs)
All-take P zero xs h = tt
All-take P (suc n) [] h = tt
All-take P (suc n) (x ∷ xs) h = (h.0, All-take P n xs h.1)

All-drop {ℓ κ} : {A : Type ℓ} (P : A → Type κ) (n : ℕ) (xs : List A) → All P xs → All P (drop n xs)
All-drop P zero xs h = h
All-drop P (suc n) [] h = tt
All-drop P (suc n) (x ∷ xs) h = All-drop P n xs h.1

-- What the loop leaves when it has added all the items `rest`.
pub record Grown (nodes size col len : ℕ) (c : Column) (st : KvStore) (xs rest : List Item)
    (r : ℕ × Column × KvStore) : Type 0 where
  pub total : r.0 ≡ len
  pub blocks : Blocks nodes size col r.1 r.2 (xs ++ rest)
  pub same_size : r.1.size ≡ c.size
  pub same_type : r.1.type_ ≡ c.type_
  pub same_id : r.2.store_id ≡ st.store_id
  pub same_base : r.1.base_key ≡ c.base_key
  pub tight : KeyArr.length r.1.blocks.keys * size < length xs + length rest + size
  pub mailed :
      Mailed nodes size col c st
        (xs ++ rest)
        (KeyArr.length c.blocks.keys)
        (KeyArr.length r.1.blocks.keys)
        r.2

module _ (nodes size col : ℕ) (pos : 0 < nodes) (some_size : 0 < size) (small : SizeT size)
    (few : SizeT col) (t : DataType) (vals : List Item) (len before : ℕ)
    (whole : len ≡ length vals) where
  stop :
      (fuel added : ℕ) (b : Block Item) (c : Column) (st : KvStore)
      → len ≤ added
      → add_blocks nodes size (suc fuel) t len added before vals col b c st ≡ ok (added, c, st)
  unfolding add_blocks
  stop fuel added b c st l = let over : ltb added len ≡ false = ground arith in rw over refl

  -- One round: `amount` items of the array go into the block, and the block into the store.
  record Round (amount added : ℕ) (c : Column) (st : KvStore) (xs chunk : List Item)
      (b : Block Item) : Type 0 where
    filled : Block Item
    fills : fill_block amount added vals b ≡ ok filled
    next : Column × KvStore
    stores : store_block nodes size (before + added / size) col filled c st ≡ ok next
    stored : Stored nodes size col c st xs chunk next
    cleared : Laws.Holds (Block.clear (Item.initial t) (Item.wiped t filled.capacity) filled) []
    capacity : filled.capacity ≡ size

  round :
      (m amount added : ℕ) (pre chunk rest xs : List Item) (b : Block Item) (c : Column)
      (st : KvStore) (old : Blocks nodes size col c st xs)
      → length xs ≡ length old.keys * size
      → length old.keys ≡ before + m
      → added ≡ m * size
      → SizeT (before + m)
      → Laws.Holds b []
      → b.capacity ≡ size
      → c.type_ ≡ t
      → vals ≡ pre ++ (chunk ++ rest)
      → added ≡ length pre
      → amount ≡ length chunk
      → length chunk ≤ size
      → All (IsItem t) chunk
      → Round amount added c st xs chunk b
  unfolding KeyArr.length
  round m amount added pre chunk rest xs b c st old full keys at_m count h wide ty e a l fit v =
      let (filled, run, (g, same)) =
        fill_block-Holds t chunk [] pre rest vals amount added b e a l v h (omega arith) in
      let number : before + added / size ≡ length old.keys =
        ap (λ (n : ℕ). before + n / size) at_m
        ∙ (ap (λ (n : ℕ). before + n) (mul-div_cancel m some_size) ∙ sym keys) in
      let (next, run', s) =
        store_block-Stored nodes size col pos small few c st xs chunk filled old full (omega arith)
          g (same ∙ wide) (subst (λ (u : DataType). All (IsItem u) chunk) (sym ty) v)
          (before + added / size) (number ∙ sym old.rep.counted) in
      record {
        filled = filled;
        fills = run;
        next = next;
        stores = run';
        stored = s;
        cleared = clear-Holds (Item.initial t) (Item.wiped t filled.capacity) filled chunk g;
        capacity = same ∙ wide;
      }

  one_more :
      (size old longer held n : ℕ)
      → longer ≡ suc old
      → held ≡ old * size
      → 0 < n
      → longer * size < held + n + size
  one_more size old longer held n e h l =
      let step : suc old * size ≡ old * size + size = grind arith in rw e (omega arith)

  still_full :
      (size old longer held n : ℕ)
      → longer ≡ suc old
      → held ≡ old * size
      → n ≡ held + size
      → n ≡ longer * size
  still_full size old longer held n e h l =
      let step : suc old * size ≡ old * size + size = grind arith in rw e (omega arith)

  advance :
      (fuel added amount : ℕ) (c : Column) (st : KvStore) (xs chunk : List Item) (b : Block Item)
      (r : Round amount added c st xs chunk b)
      → added < len
      → (if ltb (len - added) size then len - added else size) ≡ amount
      → add_blocks nodes size (suc fuel) t len added before vals col b c st
        ≡ add_blocks nodes size fuel t len
            (added + amount)
            before
            vals
            col
            (Block.clear (Item.initial t) (Item.wiped t r.filled.capacity) r.filled)
            r.next.0
            r.next.1
  unfolding add_blocks
  advance fuel added amount c st xs chunk b r l e =
      let inside : ltb added len ≡ true = ground arith in
      let divides : size == 0 ≡ false = ground arith in
      rw (inside, e, r.fills, ◌>>=◌, divides, r.stores) refl

  -- The round that takes all the items that are left.
  last_round :
      (fuel m added : ℕ) (pre rest xs : List Item) (b : Block Item) (c : Column) (st : KvStore)
      (old : Blocks nodes size col c st xs)
      → length xs ≡ length old.keys * size
      → length old.keys ≡ before + m
      → added ≡ m * size
      → SizeT (before + m + length rest)
      → Laws.Holds b []
      → b.capacity ≡ size
      → c.type_ ≡ t
      → vals ≡ pre ++ rest
      → added ≡ length pre
      → All (IsItem t) rest
      → 0 < length rest
      → length rest ≤ size
      → Returns
          (add_blocks nodes size (suc (suc fuel)) t len added before vals col b c st)
          (Grown nodes size col len c st xs rest)
  unfolding KeyArr.length
  last_round fuel m added pre rest xs b c st old full keys at_m count h wide ty e a v some_left
        fit =
      let n = length rest in
      let total : added + n ≡ len = omega (arith, ap length e, length-append pre rest) in
      let r =
        round m n added pre rest [] xs b c st old full keys at_m (omega arith) h wide ty
          (e ∙ ap (λ (w : List Item). pre ++ w) (sym (append-nil rest))) a refl fit v in
      (
        (added + n, r.next.0, r.next.1),
        advance (suc fuel) added n c st xs rest b r (omega arith) (ground arith)
            ∙ stop fuel (added + n) _ r.next.0 r.next.1 (omega arith),
        record {
          total = total;
          blocks = r.stored.blocks;
          same_size = r.stored.same_size;
          same_type = r.stored.same_type;
          same_id = r.stored.same_id;
          same_base = r.stored.same_base;
          mailed = r.stored.mailed;
          tight =
              one_more size (length old.keys) _ (length xs) n
                (r.stored.longer ∙ ap suc old.rep.counted) full (omega arith);
        },
      )

  pub grow :
      (fuel m added : ℕ) (pre rest xs : List Item) (b : Block Item) (c : Column) (st : KvStore)
      (old : Blocks nodes size col c st xs)
      → length xs ≡ length old.keys * size
      → length old.keys ≡ before + m
      → added ≡ m * size
      → SizeT (before + m + length rest)
      → Laws.Holds b []
      → b.capacity ≡ size
      → c.type_ ≡ t
      → vals ≡ pre ++ rest
      → added ≡ length pre
      → All (IsItem t) rest
      → length rest < fuel
      → Returns
          (add_blocks nodes size fuel t len added before vals col b c st)
          (Grown nodes size col len c st xs rest)
  unfolding KeyArr.length
  grow zero m added pre rest xs b c st old full keys at_m count h wide ty e a v f =
      absurd (omega arith)
  grow (suc fuel) m added pre [] xs b c st old full keys at_m count h wide ty e a v f = (
    (added, c, st),
    stop fuel added b c st (omega (arith, ap length e, length-append pre [])),
    record {
      total = omega (arith, ap length e, length-append pre []);
      blocks = subst (λ (w : List Item). Blocks nodes size col c st w) (sym (append-nil xs)) old;
      same_size = refl;
      same_type = refl;
      same_id = refl;
      same_base = refl;
      mailed = Mailed-none nodes size col c st (xs ++ []) (KeyArr.length c.blocks.keys);
      tight = grind (arith, old.rep.counted);
    },
  )
  grow (suc zero) m added pre (x ∷ rest) xs b c st old full keys at_m count h wide ty e a v f =
      absurd (omega arith)
  grow (suc (suc fuel)) m added pre (x ∷ rest) xs b c st old full keys at_m count h wide ty e a v
        f =
      elim (Bool-cases (leb (length (x ∷ rest)) size)) [
        | inl last ↦
            last_round fuel m added pre (x ∷ rest) xs b c st old full keys at_m count h wide ty e a
              v (omega arith) (ground arith)
        | inr more ↦
            let n = length (x ∷ rest) in
            let chunk = take size (x ∷ rest) in
            let left = drop size (x ∷ rest) in
            let parts : chunk ++ left ≡ x ∷ rest = take-append-drop size (x ∷ rest) in
            let large : size < n = ground arith in
            let cut : length chunk ≡ size = omega (arith, length-take size (x ∷ rest)) in
            let gone : length left ≡ n - size = length-drop size (x ∷ rest) in
            let total : added + n ≡ len =
              omega (arith, ap length e, length-append pre (x ∷ rest)) in
            let e' : vals ≡ pre ++ (chunk ++ left) =
              e ∙ ap (λ (w : List Item). pre ++ w) (sym parts) in
            let rejoined : (xs ++ chunk) ++ left ≡ xs ++ (x ∷ rest) =
              append_assoc xs chunk left ∙ ap (λ (w : List Item). xs ++ w) parts in
            let r =
              round m size added pre chunk left xs b c st old full keys at_m (omega arith) h wide ty
                e' a (sym cut) (omega arith) (All-take (IsItem t) size (x ∷ rest) v) in
            let longer : length r.stored.blocks.keys ≡ suc (length old.keys) =
              omega (arith, r.stored.longer, r.stored.blocks.rep.counted, old.rep.counted) in
            let (q, run, g) =
              grow (suc fuel) (suc m) (added + size) (pre ++ chunk) left (xs ++ chunk) _ r.next.0
                r.next.1 r.stored.blocks
                (still_full size (length old.keys) _ (length xs) _ longer full
                  (omega (arith, length-append xs chunk)))
                (omega arith) (grind arith) (omega arith) r.cleared
                (unfold Block.clear in r.capacity) (r.stored.same_type ∙ ty)
                (e' ∙ sym (append_assoc pre chunk left)) (omega (arith, length-append pre chunk))
                (All-drop (IsItem t) size (x ∷ rest) v) (omega arith) in
            (
              q,
              advance (suc fuel) added size c st xs chunk b r (omega arith) (ground arith) ∙ run,
              record {
                total = g.total;
                blocks =
                    subst (λ (w : List Item). Blocks nodes size col q.1 q.2 w) rejoined g.blocks;
                same_size = g.same_size ∙ r.stored.same_size;
                same_type = g.same_type ∙ r.stored.same_type;
                same_id = g.same_id ∙ r.stored.same_id;
                same_base = g.same_base ∙ r.stored.same_base;
                mailed =
                    subst
                      (λ (w : List Item).
                        Mailed nodes size col c st w (KeyArr.length c.blocks.keys)
                          (KeyArr.length q.1.blocks.keys) q.2)
                      rejoined
                      (Mailed-seq nodes size col c r.next.0 st r.next.1 q.2 (xs ++ chunk) left _ _ _
                        (still_full size (length old.keys) _ (length xs) _
                          (r.stored.longer ∙ ap suc old.rep.counted) full
                          (omega (arith, length-append xs chunk)))
                        r.stored.same_base r.stored.same_type r.stored.same_id r.stored.mailed
                        g.mailed);
                tight = omega (arith, g.tight, length-append xs chunk);
              },
            )
      ]
