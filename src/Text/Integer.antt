-- ===== src/Text/Integer.antt =====
-- Go's int on a 64-bit machine, and strconv.Atoi.
use gfap.Base.{
  ◌≡◌, ◌<◌, refl, sym, ap, ◌∙◌, arith, All, ℕ, zero, suc, ◌+◌, ◌-◌, ◌*◌, ◌^◌, ◌%◌, Bool, true,
  false, ◌==◌, ◌&&◌, leb, ltb, [], ◌∷◌, ◌++◌, if◌then◌else◌, Option, none, some,
}
use gfap.Text.{Text}
use gfap.Text.Decimal.{itoa, itoa-IsDigit, itoa-IsCons, value_from, value-itoa, IsDigit, IsCons}

pub data ℤ : Type 0 where
  pos negsuc : ℕ → ℤ

-- A value in two's complement, of 64 bits.
abbrev signed : ℕ → ℤ
signed u = if ltb u (2 ^ 63) then pos u else negsuc (2 ^ 64 - 1 - u)

-- What is left of a value in an int64.
unfoldable pub wrap : ℤ → ℤ
wrap (pos n) = signed (n % 2 ^ 64)
wrap (negsuc n) = signed (2 ^ 64 - 1 - n % 2 ^ 64)

abbrev pub times : ℤ → ℕ → ℤ
times (pos n) k = pos (n * k)
times (negsuc n) zero = pos 0
times (negsuc n) (suc k) = negsuc ((n + 1) * suc k - 1)

-- `a < b`
abbrev pub less : ℤ → ℤ → Bool
less (pos a) (pos b) = ltb a b
less (pos a) (negsuc b) = false
less (negsuc a) (pos b) = true
less (negsuc a) (negsuc b) = ltb b a

abbrev digits : ℕ → Text → Option ℕ
digits acc [] = some acc
digits acc (c ∷ s) =
    let rest = digits (acc * 10 + (c - 48)) s in if leb 48 c && leb c 57 then rest else none

abbrev magnitude : Text → Option ℕ
magnitude [] = none
magnitude (c ∷ s) = digits 0 (c ∷ s)

abbrev positive : Option ℕ → Option ℤ
positive none = none
positive (some n) = if ltb n (2 ^ 63) then some (pos n) else none

abbrev negative : Option ℕ → Option ℤ
negative none = none
negative (some zero) = some (pos 0)
negative (some (suc n)) = if ltb n (2 ^ 63) then some (negsuc n) else none

-- strconv.Atoi: an optional sign and at least one digit, in the range of int64; `none` is its error.
unfoldable pub atoi : Text → Option ℤ
atoi [] = none
atoi (c ∷ s) =
    if c == 45
    then negative (magnitude s)
    else (if c == 43 then positive (magnitude s) else positive (magnitude (c ∷ s)))

digits_value : (acc : ℕ) (s : Text) → All IsDigit s → digits acc s ≡ some (value_from acc s)
digits_value acc [] h = refl
digits_value acc (c ∷ s) (d, h) = ground (arith, digits_value (acc * 10 + (c - 48)) s h)

atoi_digits : (s : Text) → IsCons s → All IsDigit s → atoi s ≡ positive (some (value_from 0 s))
unfolding atoi
atoi_digits [] there h = absurd there
atoi_digits (c ∷ s) there h = rw (digits_value 0 (c ∷ s) h) (ground (arith, h.0))

-- Decimal digits are read back where the number is in range.
pub atoi-itoa-positive : (n : ℕ) → atoi (itoa n) ≡ positive (some n)
atoi-itoa-positive n =
    atoi_digits (itoa n) (itoa-IsCons n) (itoa-IsDigit n)
    ∙ ap (λ k. positive (some k)) (value-itoa n)

-- An int64 that is not negative is read back from its digits.
pub atoi-itoa : (n : ℕ) → n < 2 ^ 63 → atoi (itoa n) ≡ some (pos n)
atoi-itoa n fits = atoi-itoa-positive n ∙ ground (arith, fits)

pub atoi-itoa_lem : (n : ℕ) (z : ℤ) → atoi (itoa n) ≡ some z → z ≡ pos n
atoi-itoa_lem n z h = go (sym (atoi-itoa-positive n) ∙ h)
  where
    go : positive (some n) ≡ some z → z ≡ pos n
    go k = ground (arith, k)

digits_bar : (acc : ℕ) (s t : Text) → digits acc (s ++ b'|' ∷ t) ≡ none
digits_bar acc [] t = ground arith
digits_bar acc (c ∷ s) t = ground (arith, digits_bar (acc * 10 + (c - 48)) s t)

-- No number has a bar in it.
pub atoi_bar : (s t : Text) → atoi (s ++ b'|' ∷ t) ≡ none
unfolding atoi
atoi_bar [] t = refl
atoi_bar (c ∷ []) t = ground (arith, digits_bar 0 (c ∷ []) t)
atoi_bar (c ∷ d ∷ s) t = ground (arith, digits_bar 0 (c ∷ d ∷ s) t, digits_bar 0 (d ∷ s) t)
