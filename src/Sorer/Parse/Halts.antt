-- ===== src/Sorer/Parse/Halts.antt =====
-- The parsers of rows in sorer/sorer_helper.h come to an end on every memory.
use swdev_proj.Prelude.{
  ℕ, zero, suc, ◌+◌, ◌-◌, ◌≤◌, ◌<◌, ◌≡◌, ◌≢◌, refl, List, Bool, true, false, ◌||◌, ◌&&◌, ltb, leb,
  ◌==◌, if◌then◌else◌, Bool-cases, Option-cases, inl, inr, arith, length, get_elem?, get_elem?-lt,
  drop, Run, ok, fault, exits, asserts, undefined, diverges, ◌>>=◌, >>=-eq-ok,
}
use swdev_proj.Prelude.Int.{ℤ, pos}
use swdev_proj.Utils.DataType.{DataType, boolean, integer, double, str}
use swdev_proj.Dataframe.Block.{load, store}
use swdev_proj.Dataframe.Schema
use swdev_proj.Dataframe.Schema.{Schema}
use swdev_proj.Sorer.FieldArray
use swdev_proj.Sorer.FieldArray.{FieldArray}
use swdev_proj.Sorer.Fields.{
  triml_from, triml, trimr_from, trimr, has_space, strtoll_count, plain_type, trimmed_type,
  parse_field_type, isspace,
}
use swdev_proj.Sorer.Parse.{find_end, scan_row, parse_row_schema, parse_row_fields, is_end}

-- A call that does not run for ever.
abbrev pub Halts {ℓ} : {T : Type ℓ} → Run T → Type ℓ
Halts call = call ≢ fault diverges

module _ {ℓ κ} {T : Type ℓ} {B : Type κ} where
  pub Halts-bind :
      (call : Run T) (next : T → Run B)
      → Halts call
      → ((t : T) → call ≡ ok t → Halts (next t))
      → Halts (call >>= next)
  Halts-bind (fault exits) next h k = λ e. cc
  Halts-bind (fault asserts) next h k = λ e. cc
  Halts-bind (fault undefined) next h k = λ e. cc
  Halts-bind (fault diverges) next h k = absurd (h refl)
  Halts-bind (ok t) next h k = k t refl

pub Halts-ok {ℓ} : {T : Type ℓ} (t : T) → Halts (ok t)
Halts-ok t e = cc

pub Halts-if {ℓ} :
    {T : Type ℓ} (b : Bool) (x y : Run T) → Halts x → Halts y → Halts (if b then x else y)
Halts-if true x y h k = h
Halts-if false x y h k = k

pub Halts-load : {A : Type 0} (i : ℕ) (xs : List A) → Halts (load i xs)
unfolding load
Halts-load i xs = elim (Option-cases (get_elem? xs i)) [
  | inl nothing ↦ rw (nothing, load) (λ e. cc)
  | inr (x, there) ↦ rw (there, load) (λ e. cc)
]

Halts-store : {A : Type 0} (i : ℕ) (x : A) (xs : List A) → Halts (store i x xs)
unfolding store
Halts-store i x xs = Halts-if (ltb i (length xs)) _ _ (λ e. cc) (λ e. cc)

load-lt : (i : ℕ) (file : List ℕ) {c : ℕ} → load i file ≡ ok c → i < length file
unfolding load
load-lt i file h = elim (Option-cases (get_elem? file i)) [
  | inl nothing ↦ let bad : load i file ≡ fault undefined = rw (nothing, load) refl in cc
  | inr (x, there) ↦ get_elem?-lt file i there
]

find_end-Halts :
    (fuel i : ℕ) (file : List ℕ) → length file - i < fuel → Halts (find_end fuel i file)
unfolding find_end
find_end-Halts zero i file l = absurd (omega arith)
find_end-Halts (suc fuel) i file l = Halts-bind (load i file) _ (Halts-load i file) λ c e.
    Halts-if (c == b'>') _ _ (Halts-ok i) (
      Halts-if (c == 10) _ _ (λ e. cc)
        (find_end-Halts fuel (i + 1) file (omega (arith, load-lt i file e))))

find_end-le : (fuel i r : ℕ) (file : List ℕ) → find_end fuel i file ≡ ok r → i ≤ r
unfolding find_end
find_end-le zero i r file h = cc
find_end-le (suc fuel) i r file h =
    let (c, e, k) = >>=-eq-ok (load i file) _ h in
    elim (Bool-cases (c == b'>')) [
      | inl here ↦ let stop : i ≡ r = ground (arith, k) in omega arith
      | inr on ↦ elim (Bool-cases (c == 10)) [
        | inl line ↦ absurd (ground (arith, k))
        | inr further ↦
            let rest : find_end fuel (i + 1) file ≡ ok r = ground (arith, k) in
            omega (arith, find_end-le fuel (i + 1) r file rest)
      ]
    ]

scan_row-Halts :
    {S : Type 0} (found : ℕ → ℕ → S → Run S)
    → ((a b : ℕ) (s : S) → Halts (found a b s))
    → (fuel start : ℕ) (file : List ℕ) (s : S) → length file - start < fuel
    → Halts (scan_row found fuel start file s)
unfolding scan_row
scan_row-Halts found h zero start file s l = absurd (omega arith)
scan_row-Halts found h (suc fuel) start file s l =
    Halts-bind (load start file) _ (Halts-load start file) λ c e.
      let inside = load-lt start file e in
      Halts-if (c == 10 || is_end c) _ _ (Halts-ok (start, s)) (
        Halts-if (c == b'<') _ _
          (Halts-bind (find_end (suc (length file)) (start + 1) file) _
            (find_end-Halts (suc (length file)) (start + 1) file (omega arith))
            λ end at.
              let after = find_end-le (suc (length file)) (start + 1) end file at in
              Halts-bind (found start end s) _ (h start end s)
                λ t _. scan_row-Halts found h fuel (end + 1) file t (omega arith))
          (scan_row-Halts found h fuel (start + 1) file s (omega arith)))

triml_from-Halts : (n i : ℕ) (file : List ℕ) → Halts (triml_from n i file)
unfolding triml_from
triml_from-Halts zero i file = Halts-ok i
triml_from-Halts (suc n) i file =
    Halts-bind (load i file) _ (Halts-load i file)
      λ c _. Halts-if (isspace c) _ _ (triml_from-Halts n (i + 1) file) (Halts-ok i)

trimr_from-Halts : (n start : ℕ) (file : List ℕ) → Halts (trimr_from n start file)
unfolding trimr_from
trimr_from-Halts zero start file = Halts-ok start
trimr_from-Halts (suc n) start file =
    Halts-bind (load (start + suc n) file) _ (Halts-load (start + suc n) file)
      λ c _. Halts-if (isspace c) _ _ (trimr_from-Halts n start file) (Halts-ok (start + suc n))

trimr-Halts : (file : List ℕ) (start end : ℕ) → Halts (trimr file start end)
unfolding trimr
trimr-Halts file start end =
    Halts-if (end == 0) _ _ (λ e. cc)
      (Halts-if (leb (end - 1) start) _ _ (Halts-ok (end - 1))
        (trimr_from-Halts (end - 1 - start) start file))

has_space-Halts : (n i : ℕ) (file : List ℕ) → Halts (has_space n i file)
unfolding has_space
has_space-Halts zero i file = Halts-ok false
has_space-Halts (suc n) i file =
    Halts-bind (load i file) _ (Halts-load i file)
      λ c _. Halts-if (isspace c) _ _ (Halts-ok true) (has_space-Halts n (i + 1) file)

module _ (strtold_count : List ℕ → ℕ) where
  plain_type-Halts :
      (file : List ℕ) (start end : ℕ) → Halts (plain_type strtold_count file start end)
  unfolding plain_type
  plain_type-Halts file start end =
      Halts-if (strtoll_count (drop start file) == end - start + 1) _ _ (Halts-ok integer) (
        Halts-if (strtold_count (drop start file) == end - start + 1) _ _ (Halts-ok double) (
          Halts-bind (has_space (end - start + 1) start file) _
            (has_space-Halts (end - start + 1) start file)
            λ b _. Halts-ok (if b then boolean else str)))

  parse_field_type-Halts :
      (file : List ℕ) (start end : ℕ) → Halts (parse_field_type strtold_count file start end)
  unfolding parse_field_type trimmed_type triml
  parse_field_type-Halts file start end =
      Halts-bind (triml file start end) _ (triml_from-Halts (end - (start + 1)) (start + 1) file)
        λ s _. Halts-bind (trimr file s end) _ (trimr-Halts file s end) λ e _.
          Halts-if (leb s e) _ _
            (Halts-bind (load s file) _ (Halts-load s file) λ c _.
              Halts-if (c == b'"') _ _ (Halts-ok str) (
                Halts-if (e == s && (c == b'0' || c == b'1')) _ _ (Halts-ok boolean)
                  (plain_type-Halts file s e)))
            (Halts-ok boolean)

  add_column-Halts : (t : DataType) (s : Schema) → Halts (Schema.add_column t s)
  unfolding Schema.add_column
  add_column-Halts t s =
      let g = (if leb s.cap_cols s.num_cols then Schema.grow_col_list s else s) in
      Halts-bind (store g.num_cols t g.types) _ (Halts-store g.num_cols t g.types)
        λ ts _. Halts-ok (record g { types = ts; num_cols = g.num_cols + 1 })

  push_back-Halts : (a b : ℤ) (f : FieldArray) → Halts (FieldArray.push_back a b f)
  unfolding FieldArray.push_back FieldArray.push_here
  push_back-Halts a b f =
      let g = (if f.size == f.capacity then FieldArray.resize f else f) in
      Halts-bind (store g.size a g.starts) _ (Halts-store g.size a g.starts) λ ss _.
        Halts-bind (store g.size b g.ends) _ (Halts-store g.size b g.ends)
          λ es _. Halts-ok (record g { starts = ss; ends = es; size = g.size + 1 })

  -- On every memory and from every byte, parse_row_schema and parse_row_fields come to an end:
  -- they return, fail an assertion, or read outside the memory, but the rounds are enough.
  pub parse_row-Halts :
      (file : List ℕ) (start : ℕ) (types : Schema) (row : FieldArray)
      → Halts (parse_row_schema strtold_count file start types)
        × Halts (parse_row_fields file start row)
  unfolding parse_row_schema parse_row_fields
  parse_row-Halts file start types row = (
    scan_row-Halts _
        (λ a b s.
          Halts-bind (parse_field_type strtold_count file a b) _ (parse_field_type-Halts file a b)
            λ t _. add_column-Halts t s)
        (suc (length file)) start file types (omega arith),
    scan_row-Halts _ (λ a b r. push_back-Halts (pos a) (pos b) r) (suc (length file)) start file row
        (omega arith),
  )
