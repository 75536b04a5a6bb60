-- ===== src/Dataframe/ColumnArray/Laws.antt =====
-- A ColumnArray of dataframe/column/columnarray.h: a column made from an array is read back.
use swdev_proj.Prelude.{
  ℕ, zero, suc, ◌+◌, ◌*◌, ◌/◌, ◌%◌, ◌≤◌, ◌<◌, ◌≡◌, refl, subst, List, [], ◌∷◌, ◌++◌, some, true,
  ◌==◌, arith, length, get_elem?, All, ◌>>=◌, Returns,
}
use native.Mathlib.Nat.{mul-le-mul_left}
use swdev_proj.Serial.Wire.Scalars.{SizeT}
use swdev_proj.Utils.Str.{IsWell}
use swdev_proj.Utils.Array
use swdev_proj.Utils.Array.Laws.{Represents, get-Represents}
use swdev_proj.Utils.Array.Change.{add-Represents, set_at-Represents}
use swdev_proj.Utils.DataType.{DataType}
use swdev_proj.Store.Key.{Key}
use swdev_proj.Store.Key.Build.{
  spell, spell-IsWell, suffix, suffix_nonzero, All-append, add_index-eq,
}
use swdev_proj.Store.KvStore.{KvStore}
use swdev_proj.Store.KvStore.Invariant.{IsSound}
use swdev_proj.Network.Await.{done}
use swdev_proj.Dataframe.KeyArr
use swdev_proj.Dataframe.Item.{Item, IsItem}
use swdev_proj.Dataframe.Column.{Column}
use swdev_proj.Dataframe.Column.Holds.{IsColumn}
use swdev_proj.Dataframe.Column.AddAll.{add_all-IsColumn}
use swdev_proj.Dataframe.Column.Read.{get_item-IsColumn}
use swdev_proj.Dataframe.Column.Start.{fresh, new-fresh, fresh-IsColumn}
use swdev_proj.Dataframe.ColumnArray
use swdev_proj.Dataframe.ColumnArray.{ColumnArray, add_column_fromarray, get_item}

-- The column behind the columns `cs`, which holds the items of an array.
pub record NewColumn (nodes size : ℕ) (t : DataType) (elements : List Item) (cs : List Column)
    (st : KvStore) (a : ColumnArray) (next : KvStore) : Type 0 where
  pub column : Column
  pub rep : Represents a.col_list (cs ++ column ∷ [])
  pub holds : IsColumn nodes size (length cs) column next elements
  pub typed : column.type_ ≡ t
  pub few : SizeT (KeyArr.length column.blocks.keys)
  pub same_store : next.store_id ≡ st.store_id

-- No more blocks than items.
few_keys : (k size n : ℕ) → 0 < size → k * size < n + size → k ≤ n
few_keys zero size n some_size l = omega arith
few_keys (suc k) size n some_size l =
    let at_least : k * 1 ≤ k * size = mul-le-mul_left k (omega arith) in
    omega (arith, (let e : suc k * size ≡ k * size + size = grind arith in e))

module _ (nodes size : ℕ) (pos : 0 < nodes) (some_size : 0 < size) (small : SizeT size) where
  pub add_column_fromarray-NewColumn :
      (t : DataType) (elements : List Item) (a : ColumnArray) (cs : List Column) (st : KvStore)
      → Represents a.col_list cs
      → 0 < a.col_list.capacity
      → IsWell a.df_key.k_str
      → IsSound st
      → SizeT (length cs)
      → SizeT (length elements)
      → All (IsItem t) elements
      → Returns
          (add_column_fromarray nodes size t (length elements) elements a st)
          (λ r. NewColumn nodes size t elements cs st r.0 r.1)
  unfolding add_column_fromarray ColumnArray.add_column ColumnArray.length KeyArr.length Array.new
  add_column_fromarray-NewColumn t elements a cs st rep room w sound few many v =
      let n = a.col_list.len in
      let few' : SizeT n = omega (arith, few, rep.counted) in
      let text = w.cstring.chars ++ suffix n in
      let key : Key = record { k_str = spell text; home_node = a.df_key.home_node } in
      let nonzero =
        All-append (λ c. 0 < c) w.cstring.chars (suffix n) w.cstring.nonzero (suffix_nonzero n) in
      let blank = fresh-IsColumn nodes size n key t st (spell-IsWell text nonzero) sound in
      let (q, run, (h, tight, typed, store, _)) =
        add_all-IsColumn nodes size n (fresh key t) st [] elements pos some_size small few' blank
          (omega arith) (omega arith) v in
      let (l, run', (rep', _)) = add-Represents a.col_list q.0 rep room in
      (
        (record a { col_list = l }, q.1),
        rw (add_index-eq n a.df_key w, ◌>>=◌, new-fresh key t, run, run') refl,
        record {
          column = q.0;
          rep = rep';
          holds = subst (λ (m : ℕ). IsColumn nodes size m q.0 q.1 elements) rep.counted h;
          typed = typed;
          few =
              (let l =
                  few_keys (KeyArr.length q.0.blocks.keys) size (length elements) some_size tight in
                omega arith);
          same_store = store;
        },
      )

  -- A getter reads the item from the column, and puts back the column with its changed cache.
  pub get_item-found :
      (a : ColumnArray) (us vs : List Column) (c : Column) (st : KvStore) (xs : List Item)
      → Represents a.col_list (us ++ c ∷ vs)
      → IsColumn nodes size (length us) c st xs
      → SizeT (length us)
      → SizeT (KeyArr.length c.blocks.keys)
      → (i : ℕ) (z : Item) → get_elem? xs i ≡ some z
      → i / size % nodes == st.store_id ≡ true
      → Returns (get_item nodes size c.type_ (length us) i a st) (λ r. (r.0 ≡ done z) × (r.2 ≡ st))
  unfolding get_item ColumnArray.update
  get_item-found a us vs c st xs rep h few count i z e here =
      let (q, run, (value, _, same)) =
        get_item-IsColumn nodes size (length us) c st xs pos some_size small few h count i z e
          here in
      let (p, run', _) = set_at-Represents a.col_list rep us vs c q.1 (length us) refl refl in
      (
        (q.0, record a { col_list = p.1 }, q.2),
        rw (get-Represents a.col_list rep us vs c (length us) refl refl, ◌>>=◌, run, run') refl,
        (value, same),
      )
