-- ===== src/Dataframe/Row/Laws.antt =====
-- A Row of dataframe/row/row.h holds what was set, and never reads a wrong member of a union.
use swdev_proj.Prelude.{
  ℕ, zero, suc, ◌<◌, ◌≡◌, ◌≢◌, refl, sym, ap, subst, ◌∙◌, List, [], ◌∷◌, ◌⊎◌, All, set as write,
  some, true, false, leb, ltb, ◌==◌, ==_iff, if◌then◌else◌, Bool-cases, inl, inr, arith, length,
  length-set, get_elem?, get_elem?-lt, get_elem?-some, get_elem?-split, get_elem?-set,
  get_elem?-set_self, ok, fault, exits, guard, ◌>>=◌, Returns,
}
use swdev_proj.Utils.DataType.{
  DataType, letter, letter_injective, IsColumnType, type_to_char-letter, same_type, same_type_refl,
  same_type-eq, str,
}
use swdev_proj.Dataframe.Block.{load, store}
use swdev_proj.Dataframe.Item.{Item, type_of, CanSend, copy-same}
use swdev_proj.Dataframe.Schema
use swdev_proj.Dataframe.Schema.{Schema}
use swdev_proj.Dataframe.Schema.Laws.{Describes, col_type_char-Describes}
use swdev_proj.Dataframe.Row.{Row, RowElement, set_element, get_element, exit_if_bad_set, set, get}

-- An entry of a column of type `t`.
abbrev pub Fits : DataType → RowElement → Type 0
Fits t e = e.set_ ≡ true → type_of e.val ≡ t

-- A row with columns of the types `ts`.
pub record IsRow (r : Row) (ts : List DataType) : Type 0 where
  pub described : Describes r.scm ts
  pub columns : All IsColumnType ts
  pub wide : r.len ≡ length ts
  pub sized : length r.entries ≡ length ts
  pub typed :
      (i : ℕ) (t : DataType) (e : RowElement)
      → get_elem? ts i ≡ some t
      → get_elem? r.entries i ≡ some e
      → Fits t e

All-at {ℓ κ} :
    {A : Type ℓ} (P : A → Type κ) (xs : List A) (i : ℕ) (x : A)
    → All P xs
    → get_elem? xs i ≡ some x
    → P x
All-at P [] i x h e = cc
All-at P (y ∷ ys) zero x h e = let same : y ≡ x = cc in subst P same h.0
All-at P (y ∷ ys) (suc i) x h e = All-at P ys i x h.1 e

load-at :
    (xs : List RowElement) (i : ℕ) (x : RowElement) → get_elem? xs i ≡ some x → load i xs ≡ ok x
unfolding load
load-at xs i x e = rw (e, load) refl

load-write :
    (xs : List RowElement) (i j : ℕ) (x : RowElement)
    → i < length xs
    → i ≢ j
    → load j (write xs i x) ≡ load j xs
unfolding load
load-write xs i j x l differ = rw (get_elem?-set xs i j x l differ, load) refl

module _ (r : Row) (ts : List DataType) (h : IsRow r ts) (col : ℕ) (t : DataType)
    (column : get_elem? ts col ≡ some t) where
  inside : leb r.len col ≡ false
  inside = ground (arith, h.wide, get_elem?-lt ts col column)

  -- The check lets exactly the letter of the column pass.
  checks : (c : ℕ) → exit_if_bad_set col c r ≡ guard (letter t == c) exits
  unfolding exit_if_bad_set
  checks c =
      let (us, vs, e, at) = get_elem?-split ts col column in
      let read : Schema.col_type_char col r.scm ≡ ok (letter t) =
        col_type_char-Describes r.scm us vs t col
          (subst (λ (w : List DataType). Describes r.scm w) e h.described) at
        ∙ type_to_char-letter t (All-at IsColumnType ts col t h.columns column) in
      rw (inside, read, ◌>>=◌) refl

  passes : exit_if_bad_set col (letter t) r ≡ ok tt
  passes = let same : letter t == letter t ≡ true = ground arith in checks (letter t) ∙ rw same refl

  stops : (u : DataType) → t ≢ u → exit_if_bad_set col (letter u) r ≡ fault exits
  stops u differ =
      let other : letter t == letter u ≡ false = elim (Bool-cases (letter t == letter u)) [
        | inr no_match ↦ no_match
        | inl match ↦
            absurd (differ (letter_injective t u ((==_iff (letter t) (letter u)).0 match)))
      ] in
      checks (letter u) ∙ rw other refl

  entry : (e : RowElement) × (get_elem? r.entries col ≡ some e)
  entry = get_elem?-some r.entries col (omega (arith, h.sized, get_elem?-lt ts col column))

  written :
      (e' : RowElement)
      → type_of e'.val ≡ t
      → (i : ℕ) (u : DataType) (e : RowElement) → get_elem? ts i ≡ some u
      → get_elem? (write r.entries col e') i ≡ some e
      → Fits u e
  written e' own i u e at_i there = elim (Bool-cases (col == i)) [
    | inl same ↦
        let here : col ≡ i = (==_iff col i).0 same in
        let found : get_elem? (write r.entries col e') i ≡ some e' =
          ap (λ (j : ℕ). get_elem? (write r.entries col e') j) (sym here)
          ∙ get_elem?-set_self r.entries col e' (get_elem?-lt r.entries col entry.1) in
        let same_entry : e' ≡ e = cc in
        let column' : get_elem? ts i ≡ some t =
          ap (λ (j : ℕ). get_elem? ts j) (sym here) ∙ column in
        let same_column : t ≡ u = cc in
        λ _. ap (λ (x : RowElement). type_of x.val) (sym same_entry) ∙ (own ∙ same_column)
    | inr differ ↦ h.typed i u e at_i (
        sym (
          get_elem?-set r.entries col i e' (get_elem?-lt r.entries col entry.1)
            (λ s. absurd (ground arith)))
        ∙ there)
  ]

  read_back :
      (e' : RowElement)
      → type_of e'.val ≡ t
      → e'.set_ ≡ true
      → (v : Item) → e'.val ≡ v
      → get t col (record r { entries = write r.entries col e' }) ≡ ok v
  unfolding get get_element exit_if_bad_set
  read_back e' own there v e =
      let at = get_elem?-set_self r.entries col e' (get_elem?-lt r.entries col entry.1) in
      let read : same_type (type_of e'.val) t ≡ true =
        ap (λ (w : DataType). same_type w t) own ∙ same_type_refl t in
      rw (passes, load-at (write r.entries col e') col e' at, ◌>>=◌, there, read) (ap ok e)

  untouched :
      (e' : RowElement) (j : ℕ)
      → col ≢ j
      → (u : DataType) → get u j (record r { entries = write r.entries col e' }) ≡ get u j r
  unfolding get get_element exit_if_bad_set
  untouched e' j differ u =
      rw (load-write r.entries col j e' (get_elem?-lt r.entries col entry.1) differ) refl

  -- set, at a column, of an item of its type that can be sent (a string is not null) returns and keeps the row well-formed; the getter of
  -- the type then gives the item, and every getter of every other column gives what it gave.
  pub set-IsRow :
      (v : Item) (j : ℕ) (u : DataType)
      → type_of v ≡ t
      → CanSend v
      → col ≢ j
      → Returns (set col v r) (λ q. IsRow q ts × (get t col q ≡ ok v) × (get u j q ≡ get u j r))
  unfolding set set_element
  set-IsRow v j u e sendable differ =
      let (old, at) = entry in
      let e' : RowElement = record {
        val = v;
        set_ = true;
        is_str = if same_type (type_of v) str then true else old.is_str;
      } in
      let l : col < length r.entries = get_elem?-lt r.entries col at in
      let room : ltb col (length r.entries) ≡ true = ground arith in
      let stored : store col e' r.entries ≡ ok (write r.entries col e') =
        unfold store in rw room refl in
      let q : Row = record r { entries = write r.entries col e' } in
      let check : exit_if_bad_set col (letter (type_of v)) r ≡ ok tt =
        ap (λ (u : DataType). exit_if_bad_set col (letter u) r) e ∙ passes in
      (
        q,
        rw (check, load-at r.entries col old at, ◌>>=◌, copy-same v sendable, stored) refl,
        (
          record {
            described = h.described;
            columns = h.columns;
            wide = h.wide;
            sized = length-set r.entries col e' ∙ h.sized;
            typed = written e' e;
          },
          read_back e' e refl v refl,
          untouched e' j differ u,
        ),
      )

  -- set of an item of another type ends the process.
  pub set_wrong : (v : Item) → t ≢ type_of v → set col v r ≡ fault exits
  unfolding set
  set_wrong v differ = rw (stops (type_of v) differ) refl

  -- Each getter of a well-formed row, at each of its columns, gives an item of the getter's own type
  -- or ends the process: no value is read as another type.
  pub get-typed :
      (u : DataType) → (get u col r ≡ fault exits) ⊎ Returns (get u col r) (λ v. type_of v ≡ u)
  unfolding get get_element
  get-typed u = elim (Bool-cases (same_type t u)) [
    | inr differ ↦ inl (
        rw (stops u (λ e. cc (subst (λ (w : DataType). same_type t w ≡ true) e (same_type_refl t))))
          refl)
    | inl same ↦
        let e : t ≡ u = same_type-eq t u same in
        let check : exit_if_bad_set col (letter u) r ≡ ok tt =
          ap (λ (w : DataType). exit_if_bad_set col (letter w) r) (sym e) ∙ passes in
        let (x, at) = entry in
        elim (Bool-cases x.set_) [
          | inr unset ↦ inl (rw (check, load-at r.entries col x at, ◌>>=◌, unset) refl)
          | inl there ↦
              let own : type_of x.val ≡ u = h.typed col t x column at there ∙ e in
              let read : same_type (type_of x.val) u ≡ true =
                ap (λ (w : DataType). same_type w u) own ∙ same_type_refl u in
              inr (x.val, rw (check, load-at r.entries col x at, ◌>>=◌, there, read) refl, own)
        ]
  ]
