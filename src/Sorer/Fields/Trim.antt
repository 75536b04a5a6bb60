-- ===== src/Sorer/Fields/Trim.antt =====
-- triml and trimr of sorer/sorer_helper.h find the ends of a field's text.
use swdev_proj.Prelude.{
  ℕ, ◌⊎◌, ◌+◌, ◌-◌, ◌≤◌, ◌<◌, ◌≡◌, refl, sym, ap, ◌∙◌, List, true, false, leb, ◌==◌, Bool-cases,
  inl, inr, arith, length, ok, ◌>>=◌, Returns,
}
use swdev_proj.Dataframe.Block.{load}
use swdev_proj.Sorer.Fields.{triml, trimr}
use swdev_proj.Sorer.Fields.Skip.{Space, Text, triml-Skipped, SkippedBack, trimr-SkippedBack}

last-Text : (file : List ℕ) (s end e : ℕ) → Text file s → SkippedBack file s end e → Text file e
last-Text file s end e first right = elim (Bool-cases (s == e)) [
  | inl same ↦
      let eq : s ≡ e = ground arith in
      (first.0, ap (λ (k : ℕ). load k file) (sym eq) ∙ first.1, first.2)
  | inr other ↦ right.stops (let least = right.least in ground arith)
]

past_end : (file : List ℕ) (s end : ℕ) → end ≤ s → 0 < end → trimr file s end ≡ ok (end - 1)
unfolding trimr
past_end file s end l m =
    let some_end : end == 0 ≡ false = ground arith in
    let over : leb (end - 1) s ≡ true = ground arith in rw (some_end, over) refl

-- The two ends of a field between `<` at `start` and `>` at `end`, which has some character: only
-- spaces stand before the first end. In a blank field that is the byte `end`, and the last end is
-- the byte before. In any other, both ends are within the field and no spaces, and only spaces
-- stand behind the last.
pub record Trimmed (file : List ℕ) (start end first last : ℕ) : Type 0 where
  pub inside : start < first
  pub leading : (j : ℕ) → start < j → j < first → Space file j
  pub ends :
      ((first ≡ end) × (last ≡ end - 1))
      ⊎ ((first ≤ last)
          × (last < end)
          × Text file first
          × Text file last
          × ((j : ℕ) → last < j → j < end → Space file j))

-- Trimming a field from the left and then from the right returns the two ends of its text, if the
-- field has a character between its brackets at `start` and `end` and lies inside the memory: in
-- a blank field the byte `end` and the one before, in any other the first and the last byte that is
-- no space.
pub trim_both :
    (file : List ℕ) (start end : ℕ)
    → start + 1 < end
    → end ≤ length file
    → Returns {T = ℕ × ℕ}
        (triml file start end >>= λ s. trimr file s end >>= λ e. ok (s, e))
        (λ r. Trimmed file start end r.0 r.1)
trim_both file start end l m =
    let (s, run, left) = triml-Skipped file start end (omega arith) m in
    let leading = λ (j : ℕ) (a : start < j) (b : j < s). left.spaces j (omega arith) b in
    elim (Bool-cases (leb end s)) [
      | inl blank ↦ (
        (s, end - 1),
        rw (run, ◌>>=◌, past_end file s end (ground arith) (omega arith)) refl,
        record {
          inside = omega (arith, left.least);
          leading = leading;
          ends = inl (ground (arith, left.most), refl);
        },
      )
      | inr text ↦
          let (e, run', right) = trimr-SkippedBack file s end (ground arith) m in
          let first = left.stops (ground arith) in
          (
            (s, e),
            rw (run, ◌>>=◌, run') refl,
            record {
              inside = omega (arith, left.least);
              leading = leading;
              ends = inr (
                right.least,
                right.most,
                first,
                last-Text file s end e first right,
                right.spaces,
              );
            },
          )
    ]
