-- ===== src/Tests/Pages.antt =====
-- The theorems on videos, pages, failures and the configuration, at concrete inputs.
use gfap.Base.{
  ℕ, ◌≡◌, ◌≢◌, ◌≤◌, ◌↔◌, ◌⊎◌, [], ◌∷◌, List, Option, none, some, true, false, arith, length, ◌&&◌,
  leb, if◌then◌else◌,
}
use gfap.Text.{Text, codes}
use gfap.Text.Integer.{pos, less}
use gfap.Text.Search.{split, equal}
use gfap.Video.{Library, Video, formats, duration_threshold, is_cjk, is_non_latin, match}
use gfap.Video.Match.{Somewhere, InTime, match_correct, match_stable}
use gfap.Config.{Env, comma, get_env_int_slice, load}
use gfap.Config.Ladder.{AllParsed, get_env_int_slice_correct, load-ladders}
use gfap.Startup.Guards.{HostPort}
use gfap.Frontier.{default_frontier_config, fail_rate_limited}
use gfap.Crawler.{Settings, PageOutcome, page_cancelled, page_listing}
use gfap.Crawler.Page.{Response, Url, outcome, retryable, process, Fits, process-Fits}
use gfap.Crawler.Failures.{observed, rate_limit_streak, observed_correct}
use gfap.Tests.{video_url, user_url}

abbrev parse_one : Text → Text → Option ℕ
parse_one layout date = if equal date (codes "2006-01-02") then some 63303379200 else none

-- Some of the tables: the code points from U+4E00 to U+9FFF, and the letters of ASCII and above.
abbrev pub library : Library
library = record {
  han = λ ch. leb 19968 ch && leb ch 40959;
  hiragana = λ ch. leb 12353 ch && leb ch 12447;
  katakana = λ ch. leb 12449 ch && leb ch 12543;
  hangul = λ ch. leb 44032 ch && leb ch 55203;
  letter = λ ch. leb 65 ch;
  parse = parse_one;
}

abbrev pub scraped : Video
scraped = record {
  url = video_url;
  title = 20013 ∷ 25991 ∷ [];
  date = codes "2006-01-02";
  duration = pos 600;
  match_date = false;
  match_duration = false;
  has_cjk_char = false;
  has_non_english_char = false;
  is_target = false;
}

match_correct_example : ((match library 63871286399 scraped).is_target ≡ true) ↔ (
    (scraped.date ≢ [])
    × InTime library 63871286399 scraped.date formats
    × (less duration_threshold scraped.duration ≡ true)
    × (Somewhere (is_cjk library) scraped.title ⊎ Somewhere (is_non_latin library) scraped.title))
match_correct_example = match_correct library 63871286399 scraped

match_stable_example :
    let w = match library 63871286399 scraped in
    ((w.url ≡ scraped.url)
      × (w.title ≡ scraped.title)
      × (w.date ≡ scraped.date)
      × (w.duration ≡ scraped.duration))
    × (match library 63871286399 w ≡ w)
    × (w.is_target ≡ true → (match library 63871286400 w).is_target ≡ true)
match_stable_example = match_stable library 63871286399 63871286400 scraped (omega arith)

-- An environment in which every variable is the list "60, 300".
abbrev listed : Env
listed key = codes "60, 300"

abbrev malformed : Env
malformed key = codes "60,x"

get_env_int_slice_correct_example :
    let out = get_env_int_slice listed (codes "STRIKE_BACKOFF_SEC") (pos 1 ∷ []) in
    ((out ≡ pos 1 ∷ []) ⊎ AllParsed (split comma (listed (codes "STRIKE_BACKOFF_SEC"))) out)
    × (1 ≤ length (pos 1 ∷ []) → 1 ≤ length out)
get_env_int_slice_correct_example =
    get_env_int_slice_correct listed (codes "STRIKE_BACKOFF_SEC") (pos 1 ∷ [])

load-ladders_example :
    (1 ≤ length (load malformed).rate_limit_backoff_sec)
    × (1 ≤ length (load malformed).strike_backoff_sec)
load-ladders_example = load-ladders malformed

-- An environment without a variable, and parsers for addresses without brackets or a path.
abbrev unset : Env
unset key = []

abbrev pair : List Text → HostPort
pair (host ∷ port ∷ []) = some (host, port)
pair _ = none

abbrev split_plain : Text → HostPort
split_plain address = pair (split 58 address)

abbrev third : List Text → Option Text
third (scheme ∷ empty ∷ host ∷ _) = some host
third _ = none

abbrev host_of : Text → Option Text
host_of uri = third (split 47 uri)

abbrev pub settings : Settings
settings = record {
  library = library;
  to_lower = λ s. s;
  equal_fold = equal;
  canonicalize = λ s. s;
  base_url = codes "https://www.vidlii.com";
  video_pattern = codes "/watch?v=";
  title_suffix = codes " - VidLii";
  seeds = [];
  cutoff = 63871286399;
  quarantine = 604800;
  frontier = default_frontier_config;
}

abbrev home : Url
home = record { scheme = codes "https"; host = codes "www.vidlii.com"; path = codes "/user/rinko" }

-- A user's page with a link to the video.
abbrev pub user_page : Response
user_page = record {
  status = 200;
  request = home;
  location = none;
  body = some (record {
    title = codes "rinko - VidLii";
    hrefs = codes "/watch?v=abc" ∷ [];
    date = [];
    duration = none;
  });
}

process-Fits_example : Fits settings user_url (process settings false user_url (some user_page))
process-Fits_example = process-Fits settings user_url false (some user_page)

abbrev outcomes : List PageOutcome
outcomes =
    retryable fail_rate_limited (codes "http_429")
    ∷ outcome page_cancelled []
    ∷ retryable fail_rate_limited (codes "http_429")
    ∷ outcome page_listing []
    ∷ []

observed_correct_example :
    ((observed outcomes).consecutive_rate_limited ≡ rate_limit_streak outcomes)
    × ((observed outcomes).rate_limited ≤ (observed outcomes).consecutive)
    × ((observed outcomes).consecutive_rate_limited ≤ (observed outcomes).rate_limited)
observed_correct_example = observed_correct outcomes
