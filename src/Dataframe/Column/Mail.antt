-- ===== src/Dataframe/Column/Mail.antt =====
-- What add_all of dataframe/column/column.h sends: the puts of the blocks whose home is another node.
use swdev_proj.Prelude.{
  ℕ, ◌*◌, ◌%◌, ◌≤◌, ◌<◌, ◌≡◌, refl, sym, ap, subst, ◌∙◌, List, [], ◌++◌, append_assoc, append-nil,
  false, ◌==◌, ltb, Bool-cases, inl, inr, arith, length, All, ok,
}
use mathlib.Core.List.{Memᴰ}
use mathlib.Core.List.Memᴰ
use swdev_proj.Serial
use swdev_proj.Serial.Write.{Appends}
use swdev_proj.Network.Message.{Message, put_msg}
use swdev_proj.Store.Key.{Key}
use swdev_proj.Store.KvStore.{KvStore}
use swdev_proj.Dataframe.Block.Wire.{bytes}
use swdev_proj.Dataframe.Distributed.Laws.{value_of}
use swdev_proj.Dataframe.Item.{Item, IsItem, item_wire}
use swdev_proj.Dataframe.Column.{Column, gen_key}
use swdev_proj.Dataframe.Column.Holds.{Agrees, Agrees-append}

-- Among the messages `more` is the put, from the node `id` to the key's home, of the bytes of the
-- items that belong to block `m` of the column.
pub record Letter (nodes size col : ℕ) (c : Column) (id : ℕ) (xs : List Item) (more : List Message)
    (m : ℕ) : Type 0 where
  pub key : Key
  pub keyed : gen_key nodes size m col c ≡ ok key
  pub chunk : List Item
  pub writer : Serial.Serializer
  pub posted : Memᴰ (put_msg key (value_of writer) id key.home_node) more
  pub few : length chunk ≤ size
  pub valid : All (IsItem c.type_) chunk
  pub wrote : Appends (bytes (item_wire c.type_) size chunk) Serial.new writer
  pub agrees : Agrees size xs m chunk

-- A run that starts at `st` and ends at `r` has sent `more`, and a letter for every block from `low`
-- on, below `high`, whose home is another node.
pub record Mailed (nodes size col : ℕ) (c : Column) (st : KvStore) (xs : List Item) (low high : ℕ)
    (r : KvStore) : Type 0 where
  pub more : List Message
  pub sent : r.sent ≡ st.sent ++ more
  pub letters :
      (m : ℕ)
      → low ≤ m
      → m < high
      → m % nodes == st.store_id ≡ false
      → Letter nodes size col c st.store_id xs more m

module _ (nodes size col : ℕ) where
  pub Mailed-none :
      (c : Column) (st : KvStore) (xs : List Item) (n : ℕ) → Mailed nodes size col c st xs n n st
  Mailed-none c st xs n = record {
    more = [];
    sent = sym (append-nil st.sent);
    letters = λ m low high far. absurd (omega arith);
  }

  -- The key of a block depends on the column's base key only.
  gen_key-base :
      (m : ℕ) (c d : Column)
      → d.base_key ≡ c.base_key
      → gen_key nodes size m col d ≡ gen_key nodes size m col c
  unfolding gen_key
  gen_key-base m c d e = rw e refl

  Letter-later :
      (c : Column) (id : ℕ) (xs ys : List Item) (more rest : List Message) (m count : ℕ)
      → length xs ≡ count * size
      → m < count
      → Letter nodes size col c id xs more m
      → Letter nodes size col c id (xs ++ ys) (more ++ rest) m
  Letter-later c id xs ys more rest m count full l a = record {
    key = a.key;
    keyed = a.keyed;
    chunk = a.chunk;
    writer = a.writer;
    posted = Memᴰ.append_left rest a.posted;
    few = a.few;
    valid = a.valid;
    wrote = a.wrote;
    agrees = Agrees-append size m count xs ys a.chunk full l a.agrees;
  }

  Letter-earlier :
      (c d : Column) (id : ℕ) (xs : List Item) (before more : List Message) (m : ℕ)
      → d.base_key ≡ c.base_key
      → d.type_ ≡ c.type_
      → Letter nodes size col d id xs more m
      → Letter nodes size col c id xs (before ++ more) m
  Letter-earlier c d id xs before more m base ty a = record {
    key = a.key;
    keyed = sym (gen_key-base m c d base) ∙ a.keyed;
    chunk = a.chunk;
    writer = a.writer;
    posted = Memᴰ.append_right before a.posted;
    few = a.few;
    valid = subst (λ t. All (IsItem t) a.chunk) ty a.valid;
    wrote = subst (λ t. Appends (bytes (item_wire t) size a.chunk) Serial.new a.writer) ty a.wrote;
    agrees = a.agrees;
  }

  -- What a round sends, and what the rounds after it send.
  pub Mailed-seq :
      (c d : Column) (st next r : KvStore) (xs ys : List Item) (low middle high : ℕ)
      → length xs ≡ middle * size
      → d.base_key ≡ c.base_key
      → d.type_ ≡ c.type_
      → next.store_id ≡ st.store_id
      → Mailed nodes size col c st xs low middle next
      → Mailed nodes size col d next (xs ++ ys) middle high r
      → Mailed nodes size col c st (xs ++ ys) low high r
  Mailed-seq c d st next r xs ys low middle high full base ty id a b = record {
    more = a.more ++ b.more;
    sent = b.sent ∙ (ap (λ w. w ++ b.more) a.sent ∙ append_assoc st.sent a.more b.more);
    letters = λ m l h far. elim (Bool-cases (ltb m middle)) [
      | inl first ↦
          Letter-later c st.store_id xs ys a.more b.more m middle full (ground arith)
            (a.letters m l (ground arith) far)
      | inr second ↦ Letter-earlier c d st.store_id (xs ++ ys) a.more b.more m base ty (
          subst (λ i. Letter nodes size col d i (xs ++ ys) b.more m) id
            (b.letters m (ground arith) h (ap (λ i. m % nodes == i) id ∙ far)))
    ];
  }
