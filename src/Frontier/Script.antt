-- ===== src/Frontier/Script.antt =====
-- Lua scripts (internal/storage/frontier.go) over the keyspace. Redis runs a script with nothing in between, but a command of it
-- may raise an error (a full Bloom filter, no memory), and then what it wrote before stays
-- written. So a script runs on a budget: `some n` lets `n` commands through and fails the next,
-- `none` fails none. Commands that read and write are counted alike.
pub mod Commands
pub mod Loops
pub mod Admit
pub mod Resolve
pub mod Reconcile
use gfap.Base.{ℕ, zero, suc, ◌+◌, Option, none, some, List, [], ◌∷◌}
use gfap.Redis.{Redis}
use gfap.Frontier.{Store}

-- The script's result if it ended, the keyspace, and the budget left.
abbrev pub Script : Redis → Type 0 → Type 0
Script R A = Option ℕ → Store R → Option A × Store R × Option ℕ

module _ {R : Redis} {A : Type 0} where
  abbrev pub pure : A → Script R A
  pure a b s = (some a, s, b)

  abbrev pub call : (Store R → A × Store R) → Script R A
  call f none s = let (a, s') = f s in (some a, s', none)
  call f (some zero) s = (none, s, some zero)
  call f (some (suc n)) s = let (a, s') = f s in (some a, s', some n)

module _ {R : Redis} {A B : Type 0} where
  abbrev pub continue : Option A → (A → Script R B) → Script R B
  continue none f b s = (none, s, b)
  continue (some a) f b s = f a b s

  infixl 5 ◌>>=◌ ◌>>◌
  abbrev pub ◌>>=◌ : Script R A → (A → Script R B) → Script R B
  ◌>>=◌ m f b s = let (r, s', b') = m b s in continue r f b' s'

  abbrev pub ◌>>◌ : Script R A → Script R B → Script R B
  m >> n = m >>= λ _. n

-- A command whose reply is not read.
abbrev pub write : {R : Redis} → (Store R → Store R) → Script R (Unit {0})
write f = call (λ s. (tt, f s))

-- A command that writes nothing.
abbrev pub read : {R : Redis} {A : Type 0} → (Store R → A) → Script R A
read f = call (λ s. (f s, s))

-- `for _, item in ipairs(items) do … n = n + … end`, with the sum of the `n`s.
unfoldable pub sum_over : {R : Redis} {A : Type 0} → (A → Script R ℕ) → List A → Script R ℕ
sum_over f [] = pure 0
sum_over f (item ∷ items) = do k ← f item; n ← sum_over f items; pure (k + n)
