-- ===== src/Sorer/Fields/Skip.antt =====
-- The loops of triml and trimr (sorer/sorer_helper.h).
use swdev_proj.Prelude.{
  ℕ, zero, suc, ◌+◌, ◌-◌, ◌≤◌, ◌<◌, ◌≡◌, refl, sym, ap, ◌∙◌, List, true, false, leb, ◌==◌,
  Bool-cases, inl, inr, arith, length, get_elem?-some, ok, ◌>>=◌, Returns,
}
use swdev_proj.Dataframe.Block.{load}
use swdev_proj.Sorer.Fields.{isspace, triml_from, triml, trimr_from, trimr}

-- There is a space at the byte, or there is another character.
abbrev pub Space : List ℕ → ℕ → Type 0
Space file i = (c : ℕ) × (load i file ≡ ok c) × (isspace c ≡ true)

abbrev pub Text : List ℕ → ℕ → Type 0
Text file i = (c : ℕ) × (load i file ≡ ok c) × (isspace c ≡ false)

load_inside : (file : List ℕ) (i : ℕ) → i < length file → (c : ℕ) × (load i file ≡ ok c)
unfolding load
load_inside file i l = let (c, e) = get_elem?-some file i l in (c, rw (e, load) refl)

-- What a scan from `from` up to `limit` finds at `i`.
pub record Skipped (file : List ℕ) (from limit i : ℕ) : Type 0 where
  pub least : from ≤ i
  pub most : i ≤ limit
  pub spaces : (j : ℕ) → from ≤ j → j < i → Space file j
  pub stops : i < limit → Text file i

triml_from-Skipped :
    (n i limit : ℕ) (file : List ℕ)
    → i + n ≡ limit
    → limit ≤ length file
    → Returns (triml_from n i file) (Skipped file i limit)
unfolding triml_from
triml_from-Skipped zero i limit file e l = (
  i,
  refl,
  record {
    least = omega arith;
    most = omega arith;
    spaces = λ j a b. absurd (omega arith);
    stops = λ a. absurd (omega arith);
  },
)
triml_from-Skipped (suc n) i limit file e l =
    let (c, here) = load_inside file i (omega arith) in
    elim (Bool-cases (isspace c)) [
      | inr text ↦ (
        i,
        rw (here, ◌>>=◌, text) refl,
        record {
          least = omega arith;
          most = omega arith;
          spaces = λ j a b. absurd (omega arith);
          stops = λ _. (c, here, text);
        },
      )
      | inl space ↦
          let (r, run, s) = triml_from-Skipped n (i + 1) limit file (omega arith) l in
          (
            r,
            rw (here, ◌>>=◌, space) run,
            record {
              least = omega (arith, s.least);
              most = s.most;
              spaces = λ j a b. elim (Bool-cases (i == j)) [
                | inl same ↦
                    let e : i ≡ j = ground arith in
                    (c, ap (λ (k : ℕ). load k file) (sym e) ∙ here, space)
                | inr other ↦ s.spaces j (ground arith) b
              ];
              stops = s.stops;
            },
          )
    ]

-- triml of a field inside the memory returns a byte behind `start`, at most `end`; only spaces stand
-- before it, and none at it unless it is `end`.
pub triml-Skipped :
    (file : List ℕ) (start end : ℕ)
    → start < end
    → end ≤ length file
    → Returns (triml file start end) (Skipped file (start + 1) end)
unfolding triml
triml-Skipped file start end l m =
    triml_from-Skipped (end - (start + 1)) (start + 1) end file (omega arith) m

-- What a scan down from the byte before `end` to `from` finds at `i`.
pub record SkippedBack (file : List ℕ) (from end i : ℕ) : Type 0 where
  pub least : from ≤ i
  pub most : i < end
  pub spaces : (j : ℕ) → i < j → j < end → Space file j
  pub stops : from < i → Text file i

trimr_from-SkippedBack :
    (n start end : ℕ) (file : List ℕ)
    → suc (start + n) ≡ end
    → end ≤ length file
    → Returns (trimr_from n start file) (SkippedBack file start end)
unfolding trimr_from
trimr_from-SkippedBack zero start end file e l = (
  start,
  refl,
  record {
    least = omega arith;
    most = omega arith;
    spaces = λ j a b. absurd (omega arith);
    stops = λ a. absurd (omega arith);
  },
)
trimr_from-SkippedBack (suc n) start end file e l =
    let (c, here) = load_inside file (start + suc n) (omega arith) in
    elim (Bool-cases (isspace c)) [
      | inr text ↦ (
        start + suc n,
        rw (here, ◌>>=◌, text) refl,
        record {
          least = omega arith;
          most = omega arith;
          spaces = λ j a b. absurd (omega arith);
          stops = λ _. (c, here, text);
        },
      )
      | inl space ↦
          let (r, run, s) =
            trimr_from-SkippedBack n start (start + suc n) file (omega arith) (omega arith) in
          (
            r,
            rw (here, ◌>>=◌, space) run,
            record {
              least = s.least;
              most = omega (arith, s.most);
              spaces = λ j a b. elim (Bool-cases (start + suc n == j)) [
                | inl same ↦
                    let e : start + suc n ≡ j = ground arith in
                    (c, ap (λ (k : ℕ). load k file) (sym e) ∙ here, space)
                | inr other ↦ s.spaces j a (ground arith)
              ];
              stops = s.stops;
            },
          )
    ]

-- trimr of a text inside the memory that has at least one byte returns a byte from `start` on,
-- before `end`; only spaces stand behind it, and none at it unless it is `start`.
pub trimr-SkippedBack :
    (file : List ℕ) (start end : ℕ)
    → start < end
    → end ≤ length file
    → Returns (trimr file start end) (SkippedBack file start end)
unfolding trimr
trimr-SkippedBack file start end l m =
    let some_end : end == 0 ≡ false = ground arith in
    let (r, run, s) = trimr_from-SkippedBack (end - 1 - start) start end file (omega arith) m in
    elim (Bool-cases (leb (end - 1) start)) [
      | inr apart ↦ (r, rw (some_end, apart) run, s)
      | inl one ↦
          let e : end - 1 ≡ start = ground arith in
          (
            end - 1,
            rw (some_end, one) refl,
            record {
              least = omega arith;
              most = omega arith;
              spaces = λ j a b. absurd (omega arith);
              stops = λ a. absurd (omega arith);
            },
          )
    ]
