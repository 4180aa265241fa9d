-- ===== src/Crawler.antt =====
-- internal/crawler: what a worker knows of its settings and keeps of its work, and what a fetch
-- brings back. Crawler/Page is process, Crawler/Worker the loop and what it calls.
pub mod Page
pub mod Worker
pub mod Failures
pub mod Refinement
pub mod Stored
pub mod Released
use gfap.Base.{
  ℕ, zero, suc, ◌+◌, ◌≡◌, Bool, true, false, Option, none, some, List, [], ◌∷◌, ◌||◌, if◌then◌else◌,
}
use gfap.Text.{Text, codes}
use gfap.Text.Integer.{ℤ, pos}
use gfap.Text.Search.{contains, equal}
use gfap.Redis.{Redis}
use gfap.Video.{Video, Library}
use gfap.Frontier.{
  Store, FailClass, FrontierConfig, UrlClass, class_video, class_listing, class_seed,
}
use gfap.Frontier.Client.{Fault}

pub data PageKind : Type 0 where
  page_video page_listing page_not_found page_retryable page_unknown page_cancelled : PageKind
  page_invalid_response : PageKind

-- The zero value of model.Video.
abbrev pub zero_video : Video
zero_video = record {
  url = [];
  title = [];
  date = [];
  duration = pos 0;
  match_date = false;
  match_duration = false;
  has_cjk_char = false;
  has_non_english_char = false;
  is_target = false;
}

pub record PageOutcome : Type 0 where
  pub kind : PageKind
  pub video : Video  -- page_video
  pub links : List Text  -- page_video, page_listing
  pub reason : Text
  pub fail_class : FailClass  -- page_retryable

abbrev pub worker_rate_limit_stop : ℕ
worker_rate_limit_stop = 5

-- What the worker uses of its crawler. `canonicalize` is the method of that name (crawler.go),
-- whose URL parsing is not modelled; `to_lower` and `equal_fold` are those of Go's strings.
pub record Settings : Type 0 where
  pub library : Library
  pub to_lower : Text → Text
  pub equal_fold : Text → Text → Bool
  pub canonicalize : Text → Text
  pub base_url : Text
  pub video_pattern : Text
  pub title_suffix : Text
  pub seeds : List Text
  pub cutoff : ℕ
  pub quarantine : ℕ  -- QuarantineListingHours, in seconds
  pub frontier : FrontierConfig

abbrev pub is_in : Text → List Text → Bool
is_in url [] = false
is_in url (u ∷ seeds) = equal url u || is_in url seeds

-- NewURLClassifier
unfoldable pub new_url_classifier : Settings → Text → UrlClass
new_url_classifier c url =
    if contains url c.video_pattern
    then class_video
    else (if is_in url c.seeds then class_seed else class_listing)

-- What the net does to each request in turn, with the clock's seconds then.
abbrev pub Net : Type 0
Net = ℕ → Option Fault × ℕ

-- The keyspace and the collection of videos, and of the crawler: the requests made so far, `count`,
-- `targets`, and whether stopFn was called.
pub record World (R : Redis) : Type 0 where
  pub store : Store R
  pub collection : List Video
  pub requests : ℕ
  pub count : ℕ
  pub targets : List Video
  pub stopped : Bool
