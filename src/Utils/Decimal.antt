-- ===== src/Utils/Decimal.antt =====
-- std::to_string on a size_t, as the string buffer of utils/string.h uses it: decimal digits
-- without leading zeros.
use swdev_proj.Prelude.{
  ℕ, zero, suc, ◌+◌, ◌-◌, ◌*◌, ◌/◌, ◌%◌, ◌^◌, ◌≤◌, ◌<◌, ◌≡◌, refl, sym, ap, ◌∙◌, List, [], ◌∷◌,
  ◌++◌, ltb, if◌then◌else◌, arith, length, length-append, All, All-snoc, Bool-cases, inl, inr,
}
use native.Mathlib.Numerals.{unary_clauses}

-- The digits with `fuel` divisions at most; a size_t has 20 digits.
unfoldable pub digits : ℕ → ℕ → List ℕ
digits zero n = []
digits (suc fuel) n =
    let rest = digits fuel (n / 10) ++ (b'0' + n % 10) ∷ [] in
    if ltb n 10 then (b'0' + n) ∷ [] else rest

unfoldable pub to_string : ℕ → List ℕ
unfolding digits
to_string n = digits 20 n

-- The number that a text of digits stands for.
unfoldable pub number : List ℕ → ℕ → ℕ
number [] acc = acc
number (c ∷ cs) acc = number cs (acc * 10 + (c - b'0'))

number-append : (xs ys : List ℕ) (acc : ℕ) → number (xs ++ ys) acc ≡ number ys (number xs acc)
unfolding number
number-append [] ys acc = refl
number-append (x ∷ xs) ys acc = number-append xs ys (acc * 10 + (x - b'0'))

number-digits : (fuel n : ℕ) → n < 10 ^ fuel → number (digits fuel n) 0 ≡ n
unfolding number digits
number-digits zero n h = omega arith
number-digits (suc fuel) n h = elim (Bool-cases (ltb n 10)) [
  | inl one ↦ rw one (omega arith)
  | inr more ↦
      let power : 10 ^ suc fuel ≡ 10 * 10 ^ fuel = simp unary_clauses (omega arith) in
      let tenth : n / 10 < 10 ^ fuel = omega arith in
      rw
        (
          more,
          number-append (digits fuel (n / 10)) ((b'0' + n % 10) ∷ []) 0,
          number-digits fuel (n / 10) tenth,
        )
        (omega arith)
]

-- A digit is neither the terminator nor a hyphen.
abbrev pub IsDigit : ℕ → Type 0
IsDigit c = (b'0' ≤ c) × (c ≤ b'9')

digits-IsDigit : (fuel n : ℕ) → All IsDigit (digits fuel n)
unfolding digits
digits-IsDigit zero n = tt
digits-IsDigit (suc fuel) n = elim (Bool-cases (ltb n 10)) [
  | inl one ↦ rw one ((omega arith, ground arith), tt)
  | inr more ↦ rw more (
      All-snoc IsDigit (digits fuel (n / 10)) (b'0' + n % 10) (digits-IsDigit fuel (n / 10))
        (omega arith, omega arith))
]

pub to_string-IsDigit : (n : ℕ) → All IsDigit (to_string n)
unfolding to_string
to_string-IsDigit n = digits-IsDigit 20 n

digits-nonempty : (fuel n : ℕ) → 0 < length (digits (suc fuel) n)
unfolding digits
digits-nonempty fuel n = elim (Bool-cases (ltb n 10)) [
  | inl one ↦ rw one (omega arith)
  | inr more ↦ rw more (omega (arith, length-append (digits fuel (n / 10)) ((b'0' + n % 10) ∷ [])))
]

pub to_string-nonempty : (n : ℕ) → 0 < length (to_string n)
unfolding to_string
to_string-nonempty n = digits-nonempty 19 n

pub number-to_string : (n : ℕ) → n < 0x1_0000_0000_0000_0000 → number (to_string n) 0 ≡ n
unfolding to_string
number-to_string n h = number-digits 20 n (omega arith)

pub to_string_injective :
    (m n : ℕ)
    → m < 0x1_0000_0000_0000_0000
    → n < 0x1_0000_0000_0000_0000
    → to_string m ≡ to_string n
    → m ≡ n
to_string_injective m n h k e =
    sym (number-to_string m h) ∙ (ap (λ (d : List ℕ). number d 0) e ∙ number-to_string n k)
