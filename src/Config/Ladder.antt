-- ===== src/Config/Ladder.antt =====
-- getEnvIntSlice: the back-off ladders.
use gfap.Base.{
  ℕ, suc, ◌≡◌, ◌≤◌, ◌⊎◌, inl, inr, refl, ap, none, some, arith, List, [], ◌∷◌, length, Bool-cases,
  Option-cases, ◌==◌,
}
use gfap.Text.{Text}
use gfap.Text.Integer.{ℤ, pos, atoi}
use gfap.Text.Search.{is_empty, split, add_char, trim_space}
use gfap.Config.{Env, comma, parse_parts, get_env_int_slice, load}

-- Every part is a number, and these are the numbers, in their order.
abbrev pub AllParsed : List Text → List ℤ → Type 0
AllParsed [] [] = Unit
AllParsed [] (n ∷ ns) = ⊥
AllParsed (p ∷ ps) [] = ⊥
AllParsed (p ∷ ps) (n ∷ ns) = (atoi (trim_space p) ≡ some n) × AllParsed ps ns

AllParsed-length : (ps : List Text) (ns : List ℤ) → AllParsed ps ns → length ns ≡ length ps
AllParsed-length [] [] h = refl
AllParsed-length [] (n ∷ ns) h = absurd h
AllParsed-length (p ∷ ps) [] h = absurd h
AllParsed-length (p ∷ ps) (n ∷ ns) (h, hs) = ap suc (AllParsed-length ps ns hs)

split_some : (sep : ℕ) (s : Text) → 1 ≤ length (split sep s)
unfolding split
split_some sep [] = omega arith
split_some sep (c ∷ s) = elim (Bool-cases (c == sep)) [
  | inl here ↦ rw here (omega arith)
  | inr not_here ↦ rw not_here (added c (split sep s))
]
  where
    added : (c : ℕ) (parts : List Text) → 1 ≤ length (add_char c parts)
    added c [] = omega arith
    added c (part ∷ parts) = omega arith

module _ (env : Env) where
  parsed :
      (ps : List Text)
      → (parse_parts ps ≡ none) ⊎ ((ns : List ℤ) × (parse_parts ps ≡ some ns) × AllParsed ps ns)
  unfolding parse_parts
  parsed [] = inr ([], refl, tt)
  parsed (p ∷ ps) = step (Option-cases (atoi (trim_space p))) (parsed ps)
    where
      step :
          (atoi (trim_space p) ≡ none) ⊎ ((n : ℤ) × (atoi (trim_space p) ≡ some n))
          → (parse_parts ps ≡ none) ⊎ ((ns : List ℤ) × (parse_parts ps ≡ some ns) × AllParsed ps ns)
          → (parse_parts (p ∷ ps) ≡ none)
            ⊎ ((ns : List ℤ) × (parse_parts (p ∷ ps) ≡ some ns) × AllParsed (p ∷ ps) ns)
      step (inl bad) rest = inl (rw bad refl)
      step (inr (n, e)) (inl bad) = inl (rw (e, bad) refl)
      step (inr (n, e)) (inr (ns, es, all)) = inr (n ∷ ns, rw (e, es) refl, (e, all))

  -- A list in the environment is taken whole, each part's number in its place, or the default is;
  -- and the list is never empty where the default is not.
  pub get_env_int_slice_correct :
      (key : Text) (def : List ℤ)
      → let out = get_env_int_slice env key def in
        ((out ≡ def) ⊎ AllParsed (split comma (env key)) out) × (1 ≤ length def → 1 ≤ length out)
  unfolding get_env_int_slice
  get_env_int_slice_correct key def = elim (Bool-cases (is_empty (env key))) [
    | inl unset ↦ rw unset (inl refl, λ h. h)
    | inr set ↦ elim (parsed (split comma (env key))) [
      | inl bad ↦ rw (set, bad) (inl refl, λ h. h)
      | inr (ns, e, all) ↦
          rw (set, e)
            (
              inr all,
              λ h. omega (
                arith,
                AllParsed-length (split comma (env key)) ns all,
                split_some comma (env key),
              ),
            )
    ]
  ]

  -- No environment makes a back-off ladder empty.
  pub load-ladders :
      (1 ≤ length (load env).rate_limit_backoff_sec) × (1 ≤ length (load env).strike_backoff_sec)
  unfolding load
  load-ladders = (
    (get_env_int_slice_correct _ (pos 300 ∷ pos 900 ∷ pos 2700 ∷ [])).1 (omega arith),
    (get_env_int_slice_correct _ (pos 60 ∷ pos 300 ∷ pos 1500 ∷ [])).1 (omega arith),
  )
