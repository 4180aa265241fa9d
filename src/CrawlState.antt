-- ===== src/CrawlState.antt =====
-- The crawl state that outlives Redis: internal/storage/crawl_state.go, which saves a record of
-- each URL in MongoDB, and crawl_state_restore.go, which brings the records back at startup.
pub mod Fields
pub mod Record
pub mod Codec
pub mod Dead
pub mod Session
pub mod Steps
pub mod Batch
pub mod Restore
pub mod Startup
pub mod Observe
pub mod Tuples
pub mod Checkpoint
pub mod Exact
pub mod Batches
pub mod Covered
pub mod Barrier
pub mod Kept
pub mod Footprint
pub mod Contained
pub mod Content
pub mod Healthy
pub mod Complete
pub mod Resume
pub mod Restart
use gfap.Base.{
  ℕ, ◌≡◌, Bool, true, false, Option, none, some, List, [], ◌∷◌, ◌||◌, ◌&&◌, not, if◌then◌else◌,
  is_some,
}
use gfap.Text.{Text, codes}
use gfap.Text.Integer.{ℤ, pos, negsuc, less}
use gfap.Text.Search.{equal}
use gfap.Frontier.{pending_score}

pub record MongoDeadRecord : Type 0 where
  pub reason : Text
  pub until : ℤ

pub record MongoCrawlRecord : Type 0 where
  pub url : Text
  pub schema : ℤ
  pub next_due : Option ℤ
  pub barren : ℤ
  pub dead : Option MongoDeadRecord

-- The errors of both files, those of Redis and MongoDB as `failed`.
pub data StateError : Type 0 where
  invalid_url invalid_schema invalid_next_due invalid_dead : StateError
  invalid_bson missing_or_extra duplicate_or_unknown invalid_types : StateError
  invalid_score invalid_barren malformed_dead malformed_scan : StateError
  invalid_marker marker_mismatch marker_appeared live_work unsafe_restore : StateError
  empty_source barrier_changed not_restored process_changed failed : StateError

pub data Checked (A : Type 0) : Type 0 where
  accepted : A → Checked A
  rejected : StateError → Checked A

infixl 5 ◌>>=◌ ◌>>◌
abbrev pub ◌>>=◌ : {A B : Type 0} → Checked A → (A → Checked B) → Checked B
accepted a >>= k = k a
rejected e >>= k = rejected e

abbrev pub ◌>>◌ : {A B : Type 0} → Checked A → Checked B → Checked B
m >> n = m >>= λ _. n

abbrev pub require : {A : Type 0} → StateError → Option A → Checked A
require e none = rejected e
require e (some a) = accepted a

-- `if test { return err }`, where the test has passed on the false branch.
abbrev pub unless : StateError → Bool → Checked (Unit {0})
unless e test = if test then rejected e else accepted tt

-- What url.Parse finds in a text that it accepts.
pub record UrlParts : Type 0 where
  pub scheme : Text
  pub hostname : Text
  pub has_user : Bool
  pub fragment : Text

abbrev pub UrlParser : Type 0
UrlParser = Text → Option UrlParts
