-- ===== src/Text/Search.antt =====
-- The searches of Go's strings package that the crawler calls, on code points.
use gfap.Base.{
  ℕ, ◌≡◌, refl, arith, Bool, true, false, ◌==◌, ◌&&◌, ◌||◌, leb, List, [], ◌∷◌, if◌then◌else◌,
}
use gfap.Text.{Text}

-- strings.HasPrefix(s, prefix)
abbrev pub has_prefix : Text → Text → Bool
has_prefix s [] = true
has_prefix [] (p ∷ ps) = false
has_prefix (c ∷ s) (p ∷ ps) = c == p && has_prefix s ps

-- strings.Contains(s, substr)
unfoldable pub contains : Text → Text → Bool
contains [] sub = has_prefix [] sub
contains (c ∷ s) sub = has_prefix (c ∷ s) sub || contains s sub

-- unicode.IsSpace
abbrev pub is_space : ℕ → Bool
is_space c =
    (leb 9 c && leb c 13)
    || c == 32
    || c == 133
    || c == 160
    || c == 5760
    || (leb 8192 c && leb c 8202)
    || c == 8232
    || c == 8233
    || c == 8239
    || c == 8287
    || c == 12288

abbrev pub trim_left : Text → Text
trim_left [] = []
trim_left (c ∷ s) = let rest = trim_left s in if is_space c then rest else c ∷ s

abbrev cut : ℕ → Text → Text
cut c [] = if is_space c then [] else c ∷ []
cut c (d ∷ s) = c ∷ d ∷ s

abbrev trim_right : Text → Text
trim_right [] = []
trim_right (c ∷ s) = cut c (trim_right s)

-- strings.TrimSpace
unfoldable pub trim_space : Text → Text
trim_space s = trim_right (trim_left s)

abbrev pub add_char : ℕ → List Text → List Text
add_char c [] = (c ∷ []) ∷ []
add_char c (part ∷ parts) = (c ∷ part) ∷ parts

-- strings.Split(s, sep) for a separator of one code point
unfoldable pub split : ℕ → Text → List Text
split sep [] = [] ∷ []
split sep (c ∷ s) = let rest = split sep s in if c == sep then [] ∷ rest else add_char c rest

abbrev pub is_empty : Text → Bool
is_empty [] = true
is_empty (c ∷ s) = false

abbrev pub equal : Text → Text → Bool
equal [] [] = true
equal [] (d ∷ t) = false
equal (c ∷ s) [] = false
equal (c ∷ s) (d ∷ t) = c == d && equal s t

-- strings.TrimSuffix(s, suffix)
unfoldable pub trim_suffix : Text → Text → Text
trim_suffix [] suffix = []
trim_suffix (c ∷ s) suffix =
    let rest = trim_suffix s suffix in if equal (c ∷ s) suffix then [] else c ∷ rest

pub equal_self : (s : Text) → equal s s ≡ true
equal_self [] = refl
equal_self (c ∷ s) = ground (arith, equal_self s)

pub equal-true : (s t : Text) → equal s t ≡ true → s ≡ t
equal-true [] [] h = refl
equal-true [] (d ∷ t) h = absurd (ground (arith, h))
equal-true (c ∷ s) [] h = absurd (ground (arith, h))
equal-true (c ∷ s) (d ∷ t) h = ground (arith, h, equal-true s t)
