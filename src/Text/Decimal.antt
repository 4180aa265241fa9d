-- ===== src/Text/Decimal.antt =====
-- Decimal numbers, as Lua's `..` writes the integer that INCR returns, and as Go's strconv
-- writes an int64 that is not negative.
use gfap.Base.{
  ℕ, zero, suc, ◌+◌, ◌-◌, ◌*◌, ◌/◌, ◌%◌, ◌<◌, ◌≤◌, ◌≡◌, ap, ◌∙◌, [], ◌∷◌, arith, ltb, if◌then◌else◌,
  Bool-cases, inl, inr, All, under_if,
}
use gfap.Text.{Text}

-- The digits of `n` before `rest`, on fuel that `n + 1` always covers.
digits_before : ℕ → ℕ → Text → Text
digits_before zero n rest = rest
digits_before (suc f) n rest =
    let more = digits_before f (n / 10) ((b'0' + n % 10) ∷ rest) in
    if ltb n 10 then (b'0' + n) ∷ rest else more

unfoldable pub itoa : ℕ → Text
unfolding digits_before
itoa n = digits_before (suc n) n []

-- The value of a run of digits behind a number already read.
abbrev pub value_from : ℕ → Text → ℕ
value_from acc [] = acc
value_from acc (c ∷ cs) = value_from (acc * 10 + (c - b'0')) cs

abbrev pub IsDigit : ℕ → Type 0
IsDigit c = (b'0' ≤ c) × (c ≤ b'9')

value-digits_before :
    (f n : ℕ) (rest : Text) → n < f → value_from 0 (digits_before f n rest) ≡ value_from n rest
unfolding digits_before
value-digits_before zero n rest h = elim h [ ]
value-digits_before (suc f) n rest h = elim (Bool-cases (ltb n 10)) [
  | inl one ↦ rw one (ap (λ k. value_from k rest) (omega arith))
  | inr more ↦ rw more (
      value-digits_before f (n / 10) ((b'0' + n % 10) ∷ rest) (ground arith)
      ∙ ap (λ k. value_from k rest) (omega arith))
]

digits_before-IsDigit :
    (f n : ℕ) (rest : Text) → All IsDigit rest → All IsDigit (digits_before f n rest)
unfolding digits_before
digits_before-IsDigit zero n rest h = h
digits_before-IsDigit (suc f) n rest h = elim (Bool-cases (ltb n 10)) [
  | inl one ↦ rw one (ground arith)
  | inr more ↦ rw more (digits_before-IsDigit f (n / 10) _ (omega arith, h))
]

-- Reading back the digits of a number gives the number.
pub value-itoa : (n : ℕ) → value_from 0 (itoa n) ≡ n
unfolding itoa
value-itoa n = value-digits_before (suc n) n [] (omega arith)

-- A number is written in digits.
pub itoa-IsDigit : (n : ℕ) → All IsDigit (itoa n)
unfolding itoa
itoa-IsDigit n = digits_before-IsDigit (suc n) n [] tt

-- The text is not empty.
abbrev pub IsCons : Text → Type 0
IsCons [] = ⊥
IsCons (c ∷ cs) = Unit

digits_before-IsCons : (f n : ℕ) (rest : Text) → IsCons rest → IsCons (digits_before f n rest)
unfolding digits_before
digits_before-IsCons zero n rest h = h
digits_before-IsCons (suc f) n rest h =
    under_if IsCons (ltb n 10) (λ one. tt) λ more. digits_before-IsCons f (n / 10) _ tt

-- A number has a digit.
pub itoa-IsCons : (n : ℕ) → IsCons (itoa n)
unfolding itoa digits_before
itoa-IsCons n = under_if IsCons (ltb n 10) (λ one. tt) λ more. digits_before-IsCons n (n / 10) _ tt
