-- ===== src/Redis/Model/Right.antt =====
-- The right end of a list: what LMOVE … RIGHT LEFT and LRANGE key -n -1 read.
use gfap.Base.{
  ℕ, zero, suc, ◌-◌, ◌≤◌, ◌<◌, ◌≡◌, refl, ap, Option, none, some, List, [], ◌∷◌, ◌++◌, length, take,
  drop, arith, Option-cases, inl, inr,
}
use gfap.Text.{Text}

-- The element at the right end, and the list before it.
unsnoc : List Text → Option (Text × List Text)
unsnoc [] = none
unsnoc (x ∷ xs) = elim (unsnoc xs) [ none ↦ some (x, []) | some (m, ys) ↦ some (m, x ∷ ys) ]

unfoldable pub move_right_left : List Text → List Text → Option (Text × List Text × List Text)
unfolding unsnoc
move_right_left s d = elim (unsnoc s) [ none ↦ none | some (m, s') ↦ some (m, s', m ∷ d) ]

unsnoc-none : (s : List Text) → unsnoc s ≡ none → s ≡ []
unfolding unsnoc
unsnoc-none [] e = refl
unsnoc-none (x ∷ xs) e = absurd (ground arith)

unsnoc-some :
    (s : List Text) (m : Text) (s' : List Text) → unsnoc s ≡ some (m, s') → s ≡ s' ++ m ∷ []
unfolding unsnoc
unsnoc-some [] m s' e = cc
unsnoc-some (x ∷ xs) m s' e = elim (Option-cases (unsnoc xs)) [
  | inl last ↦ ground (arith, unsnoc-none xs last)
  | inr (p, more) ↦ ground (arith, unsnoc-some xs p.0 p.1 more)
]

pub move_nil : (s d : List Text) → s ≡ [] → move_right_left s d ≡ none
unfolding move_right_left
move_nil s d e = rw e

pub move_none : (s d : List Text) → move_right_left s d ≡ none → s ≡ []
unfolding move_right_left
move_none s d e = unsnoc-none s (ground arith)

pub move_some :
    (s d : List Text) (m : Text) (s' d' : List Text)
    → move_right_left s d ≡ some (m, s', d')
    → (s ≡ s' ++ m ∷ []) × (d' ≡ m ∷ d)
unfolding move_right_left
move_some s d m s' d' e = (unsnoc-some s m s' (ground arith), ground arith)

unfoldable pub last : List Text → ℕ → List Text
last l n = drop (length l - n) l

take-append-drop : (n : ℕ) (l : List Text) → l ≡ take n l ++ drop n l
take-append-drop zero l = refl
take-append-drop (suc n) [] = refl
take-append-drop (suc n) (x ∷ xs) = ap (◌∷◌ x) (take-append-drop n xs)

length-drop : (n : ℕ) (l : List Text) → length (drop n l) ≡ length l - n
length-drop zero l = omega arith
length-drop (suc n) [] = omega arith
length-drop (suc n) (x ∷ xs) = omega (arith, length-drop n xs)

take_none : (n : ℕ) (l : List Text) → n ≡ 0 → take n l ≡ []
take_none n l e = rw e

pub last_lem :
    (l : List Text) (n : ℕ)
    → (front : List Text) × (l ≡ front ++ last l n)
      × (length (last l n) ≤ n)
      × (length (last l n) < n → front ≡ [])
unfolding last
last_lem l n = (
  take (length l - n) l,
  take-append-drop (length l - n) l,
  omega (arith, length-drop (length l - n) l),
  λ short. take_none (length l - n) l (omega (arith, length-drop (length l - n) l, short)),
)
