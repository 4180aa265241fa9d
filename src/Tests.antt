-- ===== src/Tests.antt =====
-- Concrete keyspaces, jobs and settings, and the theorems at inputs that exercise the code.
mod Frontier
mod Policies
mod Reconcilers
mod Pages
mod Crawler
mod Backup
mod Filter
mod Ticks
use gfap.Base.{ℕ, [], ◌∷◌, Option, none, some, ltb}
use gfap.Text.{Text, codes}
use gfap.Redis.{Redis}
use gfap.Redis.Model.{model}
use gfap.Frontier.{Store, Job, pending_score, UrlClass, class_video, class_listing, class_seed}

-- A keyspace after FLUSHDB.
abbrev pub flushed : Store model
unfolding model
flushed = record {
  seq = 0;
  ready = [];
  processing = [];
  lease = [];
  delayed = [];
  dead = [];
  attempts = [];
  strikes = [];
  listing_next = [];
  listing_barren = [];
  bloom = [];
}

abbrev pub video_url : Text
video_url = codes "https://www.vidlii.com/watch?v=abc"

abbrev pub user_url : Text
user_url = codes "https://www.vidlii.com/user/rinko"

-- The job "1|…" of the video, and the keyspace where it is leased until 700.
abbrev pub video_job : Job
video_job = record {
  id = codes "1";
  url = video_url;
  class = class_video;
  member = codes "1|https://www.vidlii.com/watch?v=abc";
}

abbrev pub leased_store : Store model
unfolding model
leased_store = record flushed {
  seq = 1;
  processing = video_job.member ∷ [];
  lease = (video_job.member, 700) ∷ [];
}

abbrev pub listing_job : Job
listing_job = record {
  id = codes "1";
  url = user_url;
  class = class_listing;
  member = codes "1|https://www.vidlii.com/user/rinko";
}

abbrev pub listing_store : Store model
unfolding model
listing_store = record flushed {
  seq = 1;
  processing = listing_job.member ∷ [];
  lease = (listing_job.member, 700) ∷ [];
  listing_next = (user_url, pending_score) ∷ [];
}
