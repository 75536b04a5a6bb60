-- ===== src/Utils/Args/Laws.antt =====
-- The numbers that tryParseSizeT_ of utils/args.h reads.
use swdev_proj.Prelude.{
  ℕ, ◌+◌, ◌-◌, ◌*◌, ◌<◌, ◌≡◌, refl, ap, ◌∙◌, List, [], ◌∷◌, All, length, ltb, ◌==◌, some, true,
  false, leb, arith,
}
use swdev_proj.Utils.Decimal.{
  to_string, number, IsDigit, to_string-IsDigit, number-to_string, to_string-nonempty,
}
use swdev_proj.Sorer.Fields.{isspace}
use swdev_proj.Sorer.Writer.{digits_value}
use swdev_proj.Utils.Args.{scan_digits, scan_size}

digits_value-number : (cs : List ℕ) (acc : ℕ) → All IsDigit cs → digits_value acc cs ≡ number cs acc
unfolding digits_value number
digits_value-number [] acc v = refl
digits_value-number (c ∷ cs) acc v =
    let low : leb b'0' c ≡ true = ground (arith, v.0) in
    let high : leb c b'9' ≡ true = ground (arith, v.0) in
    rw (low, high) (digits_value-number cs (acc * 10 + (c - b'0')) v.1)

scan_digits-number :
    (c : ℕ) (cs : List ℕ)
    → All IsDigit (c ∷ cs)
    → number (c ∷ cs) 0 < 0x1_0000_0000_0000_0000
    → scan_size (c ∷ cs) ≡ some (number (c ∷ cs) 0)
unfolding scan_size scan_digits number
scan_digits-number c cs v small =
    let text : isspace c ≡ false = unfold isspace in ground (arith, v.0) in
    let unsigned : c == b'-' ≡ false = ground (arith, v.0) in
    let unsigned' : c == b'+' ≡ false = ground (arith, v.0) in
    let low : leb b'0' c ≡ true = ground (arith, v.0) in
    let high : leb c b'9' ≡ true = ground (arith, v.0) in
    let fits : ltb (number cs (0 * 10 + (c - b'0'))) 0x1_0000_0000_0000_0000 ≡ true =
      ground arith in
    let read = digits_value-number cs (0 * 10 + (c - b'0')) v.1 in
    rw (text, unsigned, unsigned', low, high, read, fits) refl

digits_read :
    (cs : List ℕ) (n : ℕ)
    → number cs 0 ≡ n
    → All IsDigit cs
    → n < 0x1_0000_0000_0000_0000
    → 0 < length cs
    → scan_size cs ≡ some n
digits_read [] n e v small some_digit = absurd (omega arith)
digits_read (c ∷ cs) n e v small some_digit = scan_digits-number c cs v (omega arith) ∙ ap some e

-- A size_t printed by std::to_string is read by sscanf as the same number.
pub scan_size-to_string : (n : ℕ) → n < 0x1_0000_0000_0000_0000 → scan_size (to_string n) ≡ some n
scan_size-to_string n small =
    digits_read (to_string n) n (number-to_string n small) (to_string-IsDigit n) small
      (to_string-nonempty n)
