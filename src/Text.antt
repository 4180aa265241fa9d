-- ===== src/Text.antt =====
-- Texts: the strings of Go, Lua and Redis, as their code points.
pub mod Decimal
pub mod Member
pub mod Search
pub mod Integer
use Prim.Native.Char.{code}
use gfap.Base.{ℕ, String, List, [], ◌∷◌, ℕ_discrete}

abbrev pub Text : Type 0
Text = List ℕ

-- The code points of a literal.
abbrev pub codes : String → Text
codes String.[] = []
codes (String.◌∷◌ c s) = code c ∷ codes s

unfoldable pub dec_text : Discrete Text
unfolding ℕ_discrete
dec_text = hlevel ℕ_discrete
