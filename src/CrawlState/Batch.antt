-- ===== src/CrawlState/Batch.antt =====
-- restoreBatch and the restore marker (internal/storage/crawl_state_restore.go).
use gfap.Base.{
  without, ℕ, Bool, true, false, Option, none, some, List, [], ◌∷◌, ◌++◌, ◌&&◌, ◌==◌, ltb, leb,
  if◌then◌else◌,
}
use gfap.Text.{Text}
use gfap.Text.Integer.{ℤ, pos, negsuc}
use gfap.Text.Search.{equal}
use gfap.Redis.{Redis}
use gfap.Frontier.{Store, DeadEntry, pending_score}
use gfap.Frontier.Client.{Fault, refused, lost, raised}
use gfap.CrawlState.{
  MongoDeadRecord, MongoCrawlRecord, Checked, accepted, rejected, failed, marker_appeared,
  barrier_changed,
}
use gfap.CrawlState.Session.{
  Session, Step, Line, CrawlStateStore, RestoreMarker, MarkerText, json, restoring, complete,
  return, throw, ◌>>=◌, ◌>>◌, next_request, check_identity, read_startup_state,
}

abbrev pub crawl_state_batch_size : ℕ
crawl_state_batch_size = 100

-- An int64 that validate has found not to be negative.
abbrev pub to_nat : ℤ → ℕ
to_nat (pos n) = n
to_nat (negsuc n) = 0

-- A pending listing has lost its job, and is due.
abbrev pub due_again : Option ℤ → Option ℕ
due_again none = none
due_again (some n) = if to_nat n == pending_score then some 0 else some (to_nat n)

abbrev pub not_before : ℕ → Option ℕ → Option ℕ
not_before until none = none
not_before until (some n) = if ltb n until then some until else some n

-- The score and the dead entry that restoreBatch writes for a row, or `none` where it deletes.
unfoldable pub plan : ℕ → Option ℕ → Option MongoDeadRecord → Option ℕ × Option DeadEntry
plan now next none = (next, none)
plan now next (some d) =
    if to_nat d.until == 0
    then (none, some (record { reason = d.reason; until = 0 }))
    else (if leb (to_nat d.until) now then (next, none) else (
      not_before (to_nat d.until) next,
      some (record { reason = d.reason; until = to_nat d.until }),
    ))

abbrev pub is_blank : Option ℕ → Option DeadEntry → ℕ → Bool
is_blank none none barren = barren == 0
is_blank none (some d) barren = false
is_blank (some n) dead barren = false

module _ {R : Redis} where
  open R use {zadd, zrem, hset, hdel}

  abbrev pub set_next : Text → Option ℕ → Store R → Store R
  set_next url none s = record s { listing_next = zrem s.listing_next url }
  set_next url (some n) s = record s { listing_next = zadd s.listing_next url n }

  abbrev pub set_barren : Text → Bool → ℕ → Store R → Store R
  set_barren url true n s = record s { listing_barren = hdel s.listing_barren url }
  set_barren url false n s = record s { listing_barren = hset s.listing_barren url n }

  abbrev pub set_dead : Text → Option DeadEntry → Store R → Store R
  set_dead url none s = record s { dead = hdel s.dead url }
  set_dead url (some d) s = record s { dead = hset s.dead url d }

  abbrev pub row_commands :
      MongoCrawlRecord → Option ℕ × Option DeadEntry → List (Store R → Store R)
  row_commands row (next, dead) =
      set_next row.url next
      ∷ set_barren row.url (is_blank next dead (to_nat row.barren)) (to_nat row.barren)
      ∷ set_dead row.url dead
      ∷ []

  -- The commands of a batch's transaction.
  unfoldable pub batch_commands : ℕ → List MongoCrawlRecord → List (Store R → Store R)
  unfolding plan
  batch_commands now [] = []
  batch_commands now (row ∷ rows) =
      row_commands row (plan now (due_again row.next_due) row.dead) ++ batch_commands now rows

  unfoldable pub run_all : List (Store R → Store R) → Store R → Store R
  run_all [] s = s
  run_all (f ∷ fs) s = run_all fs (f s)

  -- `pipe.Exec` of a transaction, and the errors of its commands: Redis runs the ones after a command
  -- that fails.
  unfoldable pub exec :
      Option Fault → List (Store R → Store R) → Store R → Checked (Unit {0}) × Store R
  unfolding run_all
  exec none fs s = (accepted tt, run_all fs s)
  exec (some refused) fs s = (rejected failed, s)
  exec (some lost) fs s = (rejected failed, run_all fs s)
  exec (some (raised n)) fs s = (rejected failed, run_all (without n fs) s)

  abbrev pub with_store : Store R → Session R → Session R
  with_store t s = record s { server = record s.server { store = t } }

  abbrev pub with_mark : MarkerText → Session R → Session R
  with_mark m s = record s { server = record s.server { marker = some m } }

abbrev pub is_restoring : Option RestoreMarker → Bool
is_restoring none = false
is_restoring (some m) = equal m.phase restoring

abbrev pub is_complete : Option RestoreMarker → Bool
is_complete none = false
is_complete (some m) = equal m.phase complete

-- encodeRestoreMarker
abbrev pub mark : CrawlStateStore → Text → MarkerText
mark c phase = json (record { schema = pos 1; phase = phase; source = c.source })

module _ {R : Redis} (line : Line) (c : CrawlStateStore) where
  unfoldable pub check_restore_barrier : Step R Unit
  unfolding check_identity read_startup_state
  check_restore_barrier = do
    check_identity line c
    state ← read_startup_state line c
    if is_restoring state.marker && state.work_count == 0 then return tt else throw barrier_changed

  abbrev pub transact : List MongoCrawlRecord → Step R Unit
  transact rows s =
      let (r, t) =
        exec (line s.requests).fault (batch_commands (line s.requests).now rows) s.server.store in
      (r, with_store t (next_request s))

  unfoldable pub restore_batch : List MongoCrawlRecord → Step R Unit
  unfolding check_restore_barrier exec batch_commands
  restore_batch rows = do check_restore_barrier; transact rows; check_identity line c

  abbrev pub apply_marker : Option Fault → Text → Step R Unit
  apply_marker none phase s = (accepted tt, with_mark (mark c phase) s)
  apply_marker (some refused) phase s = (rejected failed, s)
  apply_marker (some lost) phase s = (rejected failed, with_mark (mark c phase) s)
  apply_marker (some (raised n)) phase s = (rejected failed, s)

  -- SET of the marker.
  abbrev pub set_marker : Text → Step R Unit
  set_marker phase s = apply_marker (line s.requests).fault phase (next_request s)

  -- SETNX of the marker, which is an error where there is one.
  abbrev pub set_marker_nx : Option MarkerText → Step R Unit
  set_marker_nx none s = set_marker restoring s
  set_marker_nx (some m) s = (rejected marker_appeared, next_request s)

  abbrev pub begin_marker : Option RestoreMarker → Step R Unit
  begin_marker none s = set_marker_nx s.server.marker s
  begin_marker (some m) s = set_marker restoring s

  -- What happens at the cursor's first document.
  unfoldable pub begin_restore : Bool → Option RestoreMarker → Step R Unit
  unfolding check_identity
  begin_restore resuming marker =
      check_identity line c >> (if resuming then return tt else begin_marker marker)
