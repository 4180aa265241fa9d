-- ===== src/Frontier/Script/Loops.antt =====
-- Rules for the loops of the scripts when no command fails: an invariant of the items that are
-- still to come and the keyspace.
use gfap.Base.{ℕ, ◌+◌, ◌≡◌, refl, none, some, List, [], ◌∷◌, length, arith}
use gfap.Redis.{Redis}
use gfap.Frontier.{Store}
use gfap.Frontier.Script.{Script, sum_over}

module _ {R : Redis} {A : Type 0} where
  -- The script ends with `a` in the keyspace `t`.
  abbrev pub Ends : Script R A → Store R → A → Store R → Type 0
  Ends m s a t = m none s ≡ (some a, t, none)

module _ {R : Redis} {A : Type 0} (P : List A → Store R → Type 0) (f : A → Script R ℕ) where
  -- The loop ends where each round does.
  pub sum_over-Ends :
      ((x : A) (xs : List A) (s : Store R)
        → P (x ∷ xs) s
        → (k : ℕ) × (t : Store R) × Ends (f x) s k t × P xs t)
      → (xs : List A) (s : Store R) → P xs s
      → (n : ℕ) × (t : Store R) × Ends (sum_over f xs) s n t × P [] t
  unfolding sum_over
  sum_over-Ends round [] s p = (0, s, refl, p)
  sum_over-Ends round (x ∷ xs) s p =
      let (k, t, e, q) = round x xs s p in
      let (n, u, g, r) = sum_over-Ends round xs t q in (k + n, u, rw (e, g), r)

  -- Where each round counts 1, the loop counts its items.
  pub sum_over-length :
      ((x : A) (xs : List A) (s : Store R)
        → P (x ∷ xs) s
        → (t : Store R) × Ends (f x) s 1 t × P xs t)
      → (xs : List A) (s : Store R) → P xs s
      → (t : Store R) × Ends (sum_over f xs) s (length xs) t × P [] t
  unfolding sum_over
  sum_over-length round [] s p = (s, refl, p)
  sum_over-length round (x ∷ xs) s p =
      let (t, e, q) = round x xs s p in
      let (u, g, r) = sum_over-length round xs t q in (u, rw (e, g) (ground arith), r)
