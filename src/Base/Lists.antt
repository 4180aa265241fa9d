-- ===== src/Base/Lists.antt =====
-- Lists measured by native numbers, under the library's names.
use Prim.Native.Nat.{ℕ, zero, suc, ◌+◌, ◌-◌, ◌≤◌}
use mathlib.Core.Path.{◌≡◌, refl, subst}
use mathlib.Core.List.{List, [], ◌∷◌, ◌++◌}
use mathlib.Core.Option.{Option, none, some, none-ne-some, some-injective}
use mathlib.Core.Logic.{ite, if_pos, if_neg}
use native.Mathlib.Omega.{arith}

module _ {ℓ} {A : Type ℓ} where
  abbrev pub length : List A → ℕ
  length [] = 0
  length (x ∷ xs) = suc (length xs)

  abbrev pub get_elem? : List A → ℕ → Option A
  get_elem? [] i = none
  get_elem? (x ∷ xs) zero = some x
  get_elem? (x ∷ xs) (suc i) = get_elem? xs i

  abbrev pub take : ℕ → List A → List A
  take zero xs = []
  take (suc n) [] = []
  take (suc n) (x ∷ xs) = x ∷ take n xs

  abbrev pub drop : ℕ → List A → List A
  drop zero xs = xs
  drop (suc n) [] = []
  drop (suc n) (x ∷ xs) = drop n xs

  -- The list without its element at an index.
  abbrev pub without : ℕ → List A → List A
  without n [] = []
  without zero (x ∷ xs) = xs
  without (suc n) (x ∷ xs) = x ∷ without n xs

  pub length-append : (xs ys : List A) → length (xs ++ ys) ≡ length xs + length ys
  length-append [] ys = omega arith
  length-append (x ∷ xs) ys = omega (arith, length-append xs ys)

  -- A predicate of every element.
  abbrev pub All {κ} : (A → Type κ) → List A → Type κ
  All P [] = Unit
  All P (x ∷ xs) = P x × All P xs

module _ {ℓ κ} {A : Type ℓ} (P : A → Type κ) where
  pub All-append : (xs ys : List A) → All P xs → All P ys → All P (xs ++ ys)
  All-append [] ys h k = k
  All-append (x ∷ xs) ys (h, hs) k = (h, All-append xs ys hs k)

  pub All-map : (Q : A → Type κ) (xs : List A) → ((x : A) → P x → Q x) → All P xs → All Q xs
  All-map Q [] f h = tt
  All-map Q (x ∷ xs) f (h, hs) = (f x h, All-map Q xs f hs)

  pub All-last : (xs : List A) (x : A) → All P (xs ++ x ∷ []) → All P xs × P x
  All-last [] x h = (tt, h.0)
  All-last (y ∷ xs) x (h, hs) = let (k, l) = All-last xs x hs in ((h, k), l)

  pub All-get_elem? : (xs : List A) (i : ℕ) (x : A) → All P xs → get_elem? xs i ≡ some x → P x
  All-get_elem? [] i x h e = absurd (none-ne-some x e)
  All-get_elem? (y ∷ xs) zero x (h, hs) e = subst P (some-injective y x e) h
  All-get_elem? (y ∷ xs) (suc i) x (h, hs) e = All-get_elem? xs i x hs e

module _ {ℓ} {A : Type ℓ} (dec : Discrete A) where
  -- How often `a` stands in a list.
  unfoldable pub count : A → List A → ℕ
  count a [] = 0
  count a (x ∷ xs) = ite (dec x a) 1 0 + count a xs

  -- The list without the first occurrence of `a`.
  unfoldable pub remove_first : A → List A → List A
  remove_first a [] = []
  remove_first a (x ∷ xs) = ite (dec x a) xs (x ∷ remove_first a xs)

  pub count-nil : (a : A) → count a [] ≡ 0
  unfolding count
  count-nil a = refl

  pub count-cons : (a x : A) (xs : List A) → count a (x ∷ xs) ≡ ite (dec x a) 1 0 + count a xs
  unfolding count
  count-cons a x xs = refl

  pub count-append : (a : A) (xs ys : List A) → count a (xs ++ ys) ≡ count a xs + count a ys
  unfolding count
  count-append a [] ys = omega arith
  count-append a (x ∷ xs) ys = omega (arith, count-append a xs ys)

  pub count-remove_first :
      (a b : A) (xs : List A) → count a (remove_first b xs) ≡ count a xs - ite (dec b a) 1 0
  unfolding count remove_first
  count-remove_first a b [] = omega arith
  count-remove_first a b (x ∷ xs) = elim (dec x b) [
    | yes same ↦ rw (if_pos _ same) (ground arith)
    | no other ↦ rw (if_neg _ other) (ground (arith, count-remove_first a b xs))
  ]

  -- An element that is counted has the property that all have.
  pub All-of_mem {κ} : (P : A → Type κ) (a : A) (xs : List A) → All P xs → 1 ≤ count a xs → P a
  unfolding count
  All-of_mem P a [] h l = absurd (omega arith)
  All-of_mem P a (x ∷ xs) h l = elim (dec x a) [
    | yes e ↦ subst P e h.0
    | no other ↦ All-of_mem P a xs h.1 (ground arith)
  ]
