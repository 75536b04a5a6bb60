-- ===== src/Dataframe/Visit/Local.antt =====
-- Which rows map and local_map of dataframe/dataframe.h visit.
use swdev_proj.Prelude.{
  ℕ, zero, suc, ◌+◌, ◌-◌, ◌*◌, ◌/◌, ◌%◌, ◌≤◌, ◌<◌, ◌≡◌, refl, sym, ap, subst, ◌∙◌, List, [], ◌∷◌,
  ◌⊎◌, Bool, true, false, ltb, ◌==◌, if◌then◌else◌, Bool-cases, inl, inr, arith, Run, ok, ◌>>=◌,
}
use native.Mathlib.Nat.{mul-add-div_right, div-eq_of_lt}
use swdev_proj.Store.KvStore.{KvStore}
use mathlib.Core.Path.{fun_ext}
use swdev_proj.Network.Await.{Await, done}
use swdev_proj.Dataframe.Row
use swdev_proj.Dataframe.Row.{Row}
use swdev_proj.Dataframe.DataFrame.{DataFrame}
use swdev_proj.Dataframe.Visit.{
  Scan, and_then, visit_row, map_from, map_rows, local_from, local_map,
}

-- The rows from `i` on, `n` of them, that a test lets pass.
unfoldable pub rows_from : (ℕ → Bool) → ℕ → ℕ → List ℕ
rows_from keep zero i = []
rows_from keep (suc n) i = let rest = rows_from keep n (i + 1) in if keep i then i ∷ rest else rest

module _ (nodes size : ℕ) {R : Type 0} (see : Row → R → Run R) where
  -- The visits of a list of rows, one after another, up to one that waits or fails.
  pub visits : List ℕ → Scan R → Run (Await (Scan R))
  visits [] s = ok (done s)
  visits (i ∷ is) s = visit_row nodes size see i s >>= λ a. and_then a (λ t. visits is t)

  -- The block of a row belongs to the node.
  abbrev pub mine : ℕ → ℕ → Bool
  mine id i = i / size % nodes == id

  module _ (some_size : 0 < size) (some_nodes : 0 < nodes) (id rows : ℕ) where
    in_block : (q m : ℕ) → m < size → (q * size + m) / size ≡ q
    in_block q m l =
        mul-add-div_right some_size q m ∙ (ap (λ (k : ℕ). q + k) (div-eq_of_lt l) ∙ omega arith)

    next_block : (q : ℕ) → suc q * size ≡ q * size + size
    next_block q = grind arith

    -- The rest of a block of another node has no row of this one.
    skip :
        (d q m n : ℕ)
        → q % nodes == id ≡ false
        → m + d ≡ size
        → rows_from (mine id) n (q * size + m) ≡ rows_from (mine id) (n - d) (suc q * size)
    unfolding rows_from
    skip zero q m n h l =
        let at_next : q * size + m ≡ suc q * size = omega (arith, next_block q) in
        let all : n ≡ n - 0 = omega arith in
        ap (λ (i : ℕ). rows_from (mine id) n i) at_next
        ∙ ap (λ (k : ℕ). rows_from (mine id) k (suc q * size)) all
    skip (suc d) q m zero h l =
        let none_left : 0 ≡ 0 - suc d = omega arith in
        ap (λ (k : ℕ). rows_from (mine id) k (suc q * size)) none_left
    skip (suc d) q m (suc n) h l =
        let other : mine id (q * size + m) ≡ false =
          ap (λ (b : ℕ). b % nodes == id) (in_block q m (omega arith)) ∙ h in
        let at_next : q * size + m + 1 ≡ q * size + suc m = omega arith in
        let less : n - d ≡ suc n - suc d = omega arith in
        rw other (
          ap (λ (i : ℕ). rows_from (mine id) n i) at_next
          ∙ (skip d q (suc m) n h (omega arith)
              ∙ ap (λ (k : ℕ). rows_from (mine id) k (suc q * size)) less))

    -- Where the loop stands: at the start of a block, or within one of this node.
    abbrev Standing : ℕ → ℕ → Type 0
    Standing q m = (m ≡ 0) ⊎ (q % nodes == id ≡ true)

    local_from-visits :
        (fuel q m n : ℕ) (s : Scan R)
        → m < size
        → Standing q m
        → n ≡ rows - (q * size + m)
        → n < fuel
        → local_from nodes size see fuel id rows (q * size + m) s
          ≡ visits (rows_from (mine id) n (q * size + m)) s
    unfolding local_from visits rows_from
    local_from-visits zero q m n s l at e f = absurd (omega arith)
    local_from-visits (suc fuel) q m zero s l at e f =
        let over : ltb (q * size + m) rows ≡ false = ground arith in rw over refl
    local_from-visits (suc fuel) q m (suc n) s l at e f =
        let inside : ltb (q * size + m) rows ≡ true = ground arith in
        let divides : size == 0 ≡ false = ground arith in
        let divides' : nodes == 0 ≡ false = ground arith in
        elim (Bool-cases (q % nodes == id)) [
          | inl own ↦
              let here : (q * size + m) / size % nodes == id ≡ true =
                ap (λ (b : ℕ). b % nodes == id) (in_block q m l) ∙ own in
              rw (inside, divides, divides', here)
                (ap (λ next. visit_row nodes size see (q * size + m) s >>= λ a. and_then a next)
                  (fun_ext λ t. elim (Bool-cases (ltb (suc m) size)) [
                    | inl within ↦
                        let next : q * size + suc m ≡ q * size + m + 1 = omega arith in
                        subst
                          (λ (i : ℕ).
                            local_from nodes size see fuel id rows i t
                            ≡ visits (rows_from (mine id) n i) t)
                          next
                          (local_from-visits fuel q (suc m) n t (ground arith) (inr own)
                            (omega arith) (omega arith))
                    | inr ends ↦
                        let next : suc q * size + 0 ≡ q * size + m + 1 =
                          let last : size ≤ suc m = ground arith in omega (arith, next_block q) in
                        subst
                          (λ (i : ℕ).
                            local_from nodes size see fuel id rows i t
                            ≡ visits (rows_from (mine id) n i) t)
                          next
                          (local_from-visits fuel (suc q) 0 n t some_size (inl refl) (omega arith)
                            (omega arith))
                  ]))
          | inr other ↦
              let there : (q * size + m) / size % nodes == id ≡ false =
                ap (λ (b : ℕ). b % nodes == id) (in_block q m l) ∙ other in
              let first : m ≡ 0 = elim at [ inl z ↦ z | inr own ↦ cc ] in
              let after : suc q * size + 0 ≡ q * size + m + (size - 1) + 1 =
                omega (arith, next_block q) in
              let left : n - (size - 1) ≡ rows - (suc q * size + 0) = omega (arith, next_block q) in
              let none_here : rows_from (mine id) n (q * size + m + 1)
                  ≡ rows_from (mine id) (n - (size - 1)) (suc q * size + 0) =
                (let e : q * size + m + 1 ≡ q * size + suc m = omega arith in
                  ap (λ (i : ℕ). rows_from (mine id) n i) e)
                ∙ (skip (size - 1) q (suc m) n other (omega arith)
                    ∙ (let e : suc q * size ≡ suc q * size + 0 = omega arith in
                        ap (λ (i : ℕ). rows_from (mine id) (n - (size - 1)) i) e)) in
              rw (inside, divides, divides', there)
                (ap (λ (i : ℕ). local_from nodes size see fuel id rows i s) (sym after)
                  ∙ (local_from-visits fuel (suc q) 0 (n - (size - 1)) s some_size (inl refl) left
                        (omega arith)
                      ∙ ap (λ (is : List ℕ). visits is s) (sym none_here)))
        ]

  map_from-visits :
      (n i : ℕ) (s : Scan R) → map_from nodes size see n i s ≡ visits (rows_from (λ _. true) n i) s
  unfolding map_from visits rows_from
  map_from-visits zero i s = refl
  map_from-visits (suc n) i s =
      ap (λ next. visit_row nodes size see i s >>= λ a. and_then a next)
        (fun_ext λ t. map_from-visits n (i + 1) t)

  local_visits :
      (id rows : ℕ) (s : Scan R)
      → 0 < size
      → 0 < nodes
      → local_from nodes size see (suc rows) id rows 0 s ≡ visits (rows_from (mine id) rows 0) s
  local_visits id rows s some_size some_nodes =
      let start : 0 * size + 0 ≡ 0 = omega arith in
      subst
        (λ (i : ℕ).
          local_from nodes size see (suc rows) id rows i s ≡ visits (rows_from (mine id) rows i) s)
        start
        (local_from-visits some_size some_nodes id rows (suc rows) 0 0 rows s some_size (inl refl)
          (omega arith) (omega arith))

  -- With blocks and nodes of some number, local_map visits exactly the rows of the frame whose
  -- block belongs to this node, each once and in increasing order, and ends; map of all rows visits
  -- every row in order.
  pub local_map-visits :
      (frame : DataFrame) (kv : KvStore) (reader : R)
      → 0 < size
      → 0 < nodes
      → (local_map nodes size see frame kv reader ≡ (
          Row.new frame.schema >>= λ row.
          visits
            (rows_from (mine kv.store_id) frame.schema.num_rows 0)
            (record { row = row; frame = frame; kv = kv; reader = reader })))
        × (map_rows nodes size see 0 frame.schema.num_rows frame kv reader ≡ (
            Row.new frame.schema >>= λ row.
            visits
              (rows_from (λ _. true) frame.schema.num_rows 0)
              (record { row = row; frame = frame; kv = kv; reader = reader })))
  unfolding local_map map_rows
  local_map-visits frame kv reader some_size some_nodes =
      let all : frame.schema.num_rows - 0 ≡ frame.schema.num_rows = omega arith in
      (
        ap (λ next. Row.new frame.schema >>= next)
            (fun_ext λ row.
              local_visits kv.store_id frame.schema.num_rows
                (record { row = row; frame = frame; kv = kv; reader = reader }) some_size
                some_nodes),
        ap (λ next. Row.new frame.schema >>= next)
            (fun_ext λ row.
              let s : Scan R = record { row = row; frame = frame; kv = kv; reader = reader } in
              ap (λ (n : ℕ). map_from nodes size see n 0 s) all
              ∙ map_from-visits frame.schema.num_rows 0 s),
      )
