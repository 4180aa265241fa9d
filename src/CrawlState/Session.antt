-- ===== src/CrawlState/Session.antt =====
-- A run of CrawlStateStore against Redis and MongoDB (internal/storage/crawl_state.go): what each
-- request meets is given, and a step returns its result or error and the state that it leaves.
use gfap.Base.{
  ℕ, ◌+◌, Bool, false, Option, none, some, List, [], ◌∷◌, length, ◌||◌, ◌&&◌, ◌==◌, if◌then◌else◌,
}
use gfap.Text.{Text, codes}
use gfap.Text.Integer.{ℤ, pos}
use gfap.Text.Search.{equal, split, trim_space}
use gfap.Redis.{Redis}
use gfap.Frontier.{Store}
use gfap.Frontier.Client.{Fault}
use gfap.CrawlState.{
  StateError, Checked, accepted, rejected, failed, process_changed, invalid_marker, marker_mismatch,
}

pub record RestoreMarker : Type 0 where
  pub schema : ℤ
  pub phase : Text
  pub source : Text

-- The value of crawler:state:restore:v1: a marker as JSON, or a text that the decoder refuses.
pub data MarkerText : Type 0 where
  json : RestoreMarker → MarkerText
  malformed : MarkerText

-- The Redis server: the frontier's keys and the marker's.
pub record Server (R : Redis) : Type 0 where
  pub store : Store R
  pub marker : Option MarkerText

-- What a request meets: whether the context is done, the reply to INFO (`none` is an error), what
-- becomes of the commands, and the clock.
pub record Link : Type 0 where
  pub cancelled : Bool
  pub info : Option Text
  pub fault : Option Fault
  pub now : ℕ

abbrev pub Line : Type 0
Line = ℕ → Link

-- The process identity that was recorded at construction, and the collection's name.
pub record CrawlStateStore : Type 0 where
  pub redis_run_id : Text
  pub source : Text

pub record Session (R : Redis) : Type 0 where
  pub server : Server R
  pub requests : ℕ
  pub startup_complete : Bool

abbrev pub Step : Redis → Type 0 → Type 0
Step R A = Session R → Checked A × Session R

module _ {R : Redis} where
  abbrev pub return : {A : Type 0} → A → Step R A
  return a s = (accepted a, s)

  abbrev pub throw : {A : Type 0} → StateError → Step R A
  throw e s = (rejected e, s)

  abbrev pub continue : {A B : Type 0} → Checked A → (A → Step R B) → Step R B
  continue (accepted a) k s = k a s
  continue (rejected e) k s = (rejected e, s)

  infixl 5 ◌>>=◌ ◌>>◌
  abbrev pub ◌>>=◌ : {A B : Type 0} → Step R A → (A → Step R B) → Step R B
  ◌>>=◌ m k s = let (r, t) = m s in continue r k t

  abbrev pub ◌>>◌ : {A B : Type 0} → Step R A → Step R B → Step R B
  m >> n = m >>= λ _. n

  abbrev pub lift : {A : Type 0} → Checked A → Step R A
  lift r s = (r, s)

  abbrev pub next_request : Session R → Session R
  next_request s = record s { requests = s.requests + 1 }

  abbrev pub set_complete : Bool → Session R → Session R
  set_complete b s = record s { startup_complete = b }

-- strings.CutPrefix(s, prefix), where the rest is not empty.
abbrev drop_prefix : Text → Text → Option Text
drop_prefix [] [] = none
drop_prefix (c ∷ s) [] = some (c ∷ s)
drop_prefix [] (p ∷ prefix) = none
drop_prefix (c ∷ s) (p ∷ prefix) = let rest = drop_prefix s prefix in if c == p then rest else none

abbrev or_else : Option Text → Checked Text → Checked Text
or_else none rest = rest
or_else (some id) rest = accepted id

unfoldable pub find_run_id : List Text → Checked Text
find_run_id [] = rejected failed
find_run_id (line ∷ lines) =
    or_else (drop_prefix (trim_space line) (codes "run_id:")) (find_run_id lines)

abbrev pub read_info : Option Text → Checked Text
read_info none = rejected failed
read_info (some info) = find_run_id (split 10 info)

abbrev pub same_process : CrawlStateStore → Text → Checked (Unit {0})
same_process c id = if equal id c.redis_run_id then accepted tt else rejected process_changed

module _ {R : Redis} (line : Line) where
  unfoldable pub redis_identity : Step R Text
  unfolding find_run_id
  redis_identity s = (read_info (line s.requests).info, next_request s)

  module _ (c : CrawlStateStore) where
    unfoldable pub check_identity : Step R Unit
    unfolding redis_identity
    check_identity s =
        if (line s.requests).cancelled
        then (rejected failed, s)
        else (redis_identity >>= λ id. lift (same_process c id)) s

pub record RestoreState : Type 0 where
  pub listing_count : ℕ
  pub barren_count : ℕ
  pub dead_count : ℕ
  pub work_count : ℕ
  pub marker : Option RestoreMarker

abbrev pub restoring : Text
restoring = codes "restoring"

abbrev pub complete : Text
complete = codes "complete"

abbrev is_one : ℤ → Bool
is_one (pos n) = n == 1
is_one _ = false

abbrev pub is_known : Text → RestoreMarker → Bool
is_known source m =
    is_one m.schema && (equal m.phase restoring || equal m.phase complete) && equal m.source source

unfoldable pub decode_marker : Text → Option MarkerText → Checked (Option RestoreMarker)
decode_marker source none = accepted none
decode_marker source (some malformed) = rejected invalid_marker
decode_marker source (some (json m)) =
    if is_known source m then accepted (some m) else rejected marker_mismatch

module _ {R : Redis} where
  open R use {items, zcard, hlen}

  -- The keys of live work and of retries together.
  unfoldable pub work_count : Store R → ℕ
  work_count s =
      length (items s.ready)
      + length (items s.processing)
      + zcard s.delayed
      + zcard s.lease
      + hlen s.attempts
      + hlen s.strikes

  abbrev pub counted : Store R → Option RestoreMarker → RestoreState
  counted s marker = record {
    listing_count = zcard s.listing_next;
    barren_count = hlen s.listing_barren;
    dead_count = hlen s.dead;
    work_count = work_count s;
    marker = marker;
  }

  abbrev pub with_marker : Store R → Checked (Option RestoreMarker) → Checked RestoreState
  with_marker s (accepted m) = accepted (counted s m)
  with_marker s (rejected e) = rejected e

  abbrev pub inspect : Text → Server R → Option Fault → Checked RestoreState
  inspect source server none = with_marker server.store (decode_marker source server.marker)
  inspect source server (some fault) = rejected failed

  unfoldable pub read_startup_state : Line → CrawlStateStore → Step R RestoreState
  unfolding work_count decode_marker
  read_startup_state line c s = (inspect c.source s.server (line s.requests).fault, next_request s)
