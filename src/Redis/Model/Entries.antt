-- ===== src/Redis/Model/Entries.antt =====
-- Association lists in which the first entry of a key counts, and the keys whose values are due.
use gfap.Base.{
  ℕ, zero, suc, ◌≤◌, ◌<◌, ◌≡◌, refl, ap, Option, none, some, List, [], ◌∷◌, ite, length, take,
  count, arith, All, some,
}
use gfap.Base.{if◌then◌else◌, Bool}
use gfap.Text.{Text, dec_text}

abbrev pub Assoc : Type 0 → Type 0
Assoc V = List (Text × V)

module _ {V : Type 0} where
  unfoldable pub lookup : Assoc V → Text → Option V
  lookup [] x = none
  lookup ((k, v) ∷ z) x = ite (dec_text k x) (some v) (lookup z x)

  unfoldable pub put : Assoc V → Text → V → Assoc V
  put z k v = (k, v) ∷ z

  unfoldable pub delete : Assoc V → Text → Assoc V
  delete [] x = []
  delete ((k, v) ∷ z) x = let rest = delete z x in ite (dec_text k x) rest ((k, v) ∷ rest)

  pub lookup-put :
      (z : Assoc V) (k : Text) (v : V) (x : Text)
      → lookup (put z k v) x ≡ ite (dec_text k x) (some v) (lookup z x)
  unfolding lookup put
  lookup-put z k v x = refl

  pub lookup-delete :
      (z : Assoc V) (k x : Text) → lookup (delete z k) x ≡ ite (dec_text k x) none (lookup z x)
  unfolding lookup delete
  lookup-delete [] k x = ground arith
  lookup-delete ((j, v) ∷ z) k x = ground (arith, lookup-delete z k x)

-- Every occurrence of `k` taken out.
unfoldable pub without : Text → List Text → List Text
without k [] = []
without k (x ∷ xs) = let rest = without k xs in ite (dec_text k x) rest (x ∷ rest)

count-without :
    (k x : Text) (xs : List Text)
    → count dec_text x (without k xs) ≡ ite (dec_text k x) 0 (count dec_text x xs)
unfolding without count
count-without k x [] = ground arith
count-without k x (y ∷ ys) = ground (arith, count-without k x ys)

-- The keys whose first entry `keep` accepts, each once.
module _ {V : Type 0} (keep : V → Bool) where
  unfoldable pub keys_where : Assoc V → List Text
  unfolding without
  keys_where [] = []
  keys_where ((k, v) ∷ z) = let rest = without k (keys_where z) in if keep v then k ∷ rest else rest

  abbrev pub tally : Option V → ℕ
  tally none = 0
  tally (some v) = if keep v then 1 else 0

  pub count-keys_where :
      (z : Assoc V) (x : Text) → count dec_text x (keys_where z) ≡ tally (lookup z x)
  unfolding keys_where lookup count
  count-keys_where [] x = refl
  count-keys_where ((k, v) ∷ z) x =
      ground (arith, count-without k x (keys_where z), count-keys_where z x)

pub All-of_count {κ} :
    (P : Text → Type κ) (l : List Text) → ((m : Text) → 1 ≤ count dec_text m l → P m) → All P l
unfolding count
All-of_count P [] h = tt
All-of_count P (x ∷ xs) h =
    (h x (ground arith), All-of_count P xs (λ m once. h m (omega (arith, once))))

pub count-take-le :
    (n : ℕ) (x : Text) (l : List Text) → count dec_text x (take n l) ≤ count dec_text x l
unfolding count
count-take-le zero x l = omega arith
count-take-le (suc n) x [] = omega arith
count-take-le (suc n) x (y ∷ ys) = omega (arith, count-take-le n x ys)

pub length-take-le : (n : ℕ) (l : List Text) → length (take n l) ≤ n
length-take-le zero l = omega arith
length-take-le (suc n) [] = omega arith
length-take-le (suc n) (y ∷ ys) = omega (arith, length-take-le n ys)

pub take_all : (n : ℕ) (l : List Text) → length (take n l) < n → take n l ≡ l
take_all zero l h = elim h [ ]
take_all (suc n) [] h = refl
take_all (suc n) (y ∷ ys) h = ap (◌∷◌ y) (take_all n ys (omega arith))

pub length-zero_of_count : (l : List Text) → ((x : Text) → count dec_text x l ≡ 0) → length l ≡ 0
unfolding count
length-zero_of_count [] h = refl
length-zero_of_count (y ∷ ys) h = absurd (ground (arith, h y))

pub count-zero_of_length : (l : List Text) (x : Text) → length l ≡ 0 → count dec_text x l ≡ 0
unfolding count
count-zero_of_length [] x h = refl
count-zero_of_length (y ∷ ys) x h = absurd (omega arith)
