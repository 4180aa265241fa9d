-- ===== src/Video.antt =====
-- internal/model/video.go: a video's record, and the rules that make it a target. What
-- unicode's tables and time.Parse say is the parameter `Library`.
pub mod Match
use gfap.Base.{
  ℕ, ◌≡◌, Bool, true, false, Option, none, some, List, [], ◌∷◌, ltb, leb, ◌&&◌, ◌||◌, if◌then◌else◌,
}
use gfap.Text.{Text, codes}
use gfap.Text.Integer.{ℤ, pos, negsuc, less}
use gfap.Text.Search.{is_empty}

-- The unicode tables by code point, and time.Parse(layout, value) in UTC, in seconds from the start
-- of the year 0, which is the first that it reads.
pub record Library : Type 0 where
  pub han : ℕ → Bool
  pub hiragana : ℕ → Bool
  pub katakana : ℕ → Bool
  pub hangul : ℕ → Bool
  pub letter : ℕ → Bool
  pub parse : Text → Text → Option ℕ

pub record Video : Type 0 where
  pub url : Text
  pub title : Text
  pub date : Text
  pub duration : ℤ
  pub match_date : Bool
  pub match_duration : Bool
  pub has_cjk_char : Bool
  pub has_non_english_char : Bool
  pub is_target : Bool

abbrev pub duration_threshold : ℤ
duration_threshold = pos 599

abbrev pub formats : List Text
formats = codes "Jan 2, 2006" ∷ codes "January 2, 2006" ∷ codes "2006-01-02" ∷ []

-- `return !t.After(cutoffDate)` of the first layout that parses.
abbrev pub not_after : ℕ → Option ℕ → Bool → Bool
not_after cutoff none rest = rest
not_after cutoff (some t) rest = leb t cutoff

abbrev pub is_cjk : Library → ℕ → Bool
is_cjk lib ch = lib.han ch || lib.hiragana ch || lib.katakana ch || lib.hangul ch

abbrev pub is_non_latin : Library → ℕ → Bool
is_non_latin lib ch = lib.letter ch && ltb 591 ch

-- `for _, ch := range title { if p(ch) { return true } }; return false`
unfoldable pub any : (ℕ → Bool) → Text → Bool
any p [] = false
any p (ch ∷ title) = p ch || any p title

unfoldable pub has_cjk : Library → Text → Bool
unfolding any
has_cjk lib title = any (is_cjk lib) title

unfoldable pub has_non_latin : Library → Text → Bool
unfolding any
has_non_latin lib title = any (is_non_latin lib) title

unfoldable pub try_formats : Library → ℕ → Text → List Text → Bool
try_formats lib cutoff date [] = false
try_formats lib cutoff date (format ∷ rest) =
    not_after cutoff (lib.parse format date) (try_formats lib cutoff date rest)

unfoldable pub matches_cutoff_date : Library → Video → ℕ → Bool
unfolding try_formats
matches_cutoff_date lib v cutoff =
    if is_empty v.date then false else try_formats lib cutoff v.date formats

-- Match, which sets the flags in place.
unfoldable pub match : Library → ℕ → Video → Video
unfolding matches_cutoff_date has_cjk has_non_latin
match lib cutoff v =
    let match_date = matches_cutoff_date lib v cutoff in
    let match_duration = less duration_threshold v.duration in
    let has_cjk_char = has_cjk lib v.title in
    let has_non_english_char = has_non_latin lib v.title in
    record v {
      match_date = match_date;
      match_duration = match_duration;
      has_cjk_char = has_cjk_char;
      has_non_english_char = has_non_english_char;
      is_target = match_date && match_duration && (has_cjk_char || has_non_english_char);
    }
