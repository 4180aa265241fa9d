-- ===== src/CrawlState/Restore.antt =====
-- Restore (internal/storage/crawl_state_restore.go): the decision at startup, and the records that
-- are brought back in batches under a marker.
use gfap.Base.{
  ℕ, ◌+◌, Bool, true, false, not, Option, List, [], ◌∷◌, ◌++◌, length, ◌||◌, ◌&&◌, ◌==◌, ltb,
  if◌then◌else◌,
}
use gfap.Text.{Text}
use gfap.Redis.{Redis}
use gfap.CrawlState.{
  MongoCrawlRecord, Checked, accepted, rejected, failed, live_work, unsafe_restore, empty_source,
  UrlParser,
}
use gfap.CrawlState.Record.{Value, decode_mongo_crawl_record}
use gfap.CrawlState.Session.{
  Session, Step, Line, CrawlStateStore, RestoreMarker, RestoreState, complete, return, throw, ◌>>=◌,
  ◌>>◌, lift, set_complete, check_identity, read_startup_state,
}
use gfap.CrawlState.Batch.{
  crawl_state_batch_size, is_restoring, is_complete, check_restore_barrier, restore_batch,
  set_marker, begin_restore,
}

pub data Mode : Type 0 where
  empty preserved restored : Mode

pub record RestoreStats : Type 0 where
  pub mode : Mode
  pub rows : ℕ

abbrev pub preserves : RestoreState → Bool
preserves state =
    ltb 0 state.listing_count
    || (is_complete state.marker
        && state.work_count == 0
        && (ltb 0 state.barren_count || ltb 0 state.dead_count))

abbrev pub holds_state : RestoreState → Bool
holds_state state =
    not (state.work_count == 0) || not (state.barren_count == 0) || not (state.dead_count == 0)

-- The records of the collection: whether the cursor opens, the documents (`none` is one whose bytes
-- are broken), whether it ends with an error, and whether closing it fails.
pub record Source : Type 0 where
  pub opens : Bool
  pub documents : List (Option (List (Text × Value)))
  pub breaks : Bool
  pub close_fails : Bool

module _ {R : Redis} (line : Line) (c : CrawlStateStore) (parse : UrlParser) where
  -- The identity at the end, which decides whether startup is complete.
  abbrev pub finished : Mode → ℕ → Checked Unit × Session R → Checked RestoreStats × Session R
  finished mode rows (accepted u, t) =
      (accepted (record { mode = mode; rows = rows }), set_complete true t)
  finished mode rows (rejected e, t) = (rejected e, t)

  abbrev pub finish : Mode → ℕ → Step R RestoreStats
  finish mode rows s = finished mode rows (check_identity line c s)

  abbrev pub last_batch : List MongoCrawlRecord → ℕ → Step R ℕ
  last_batch [] n = return n
  last_batch (row ∷ rows) n = restore_batch line c (row ∷ rows) >> return (n + length (row ∷ rows))

  -- What follows the cursor's end.
  unfoldable pub close_restore :
      Bool → Bool → Bool → List MongoCrawlRecord → ℕ → Step R RestoreStats
  unfolding check_restore_barrier restore_batch
  close_restore true resuming started rows n = throw failed
  close_restore false true false rows n = throw empty_source
  close_restore false false false rows n = finish empty n
  close_restore false resuming true rows n = do
    total ← last_batch rows n
    check_restore_barrier line c
    set_marker line c complete
    finish restored total

  abbrev pub start : Bool → Bool → Option RestoreMarker → Step R Unit
  start true resuming marker = return tt
  start false resuming marker = begin_restore line c resuming marker

  abbrev pub collect :
      List MongoCrawlRecord
      → ℕ
      → (List MongoCrawlRecord → ℕ → Step R RestoreStats)
      → Step R RestoreStats
  collect rows n rest =
      if length rows == crawl_state_batch_size
      then (restore_batch line c rows >> rest [] (n + length rows))
      else rest rows n

  -- The loop over the cursor, with the rows that wait and the number of those written.
  unfoldable pub each_document :
      Bool
      → Bool
      → Option RestoreMarker
      → List (Option (List (Text × Value)))
      → Bool
      → List MongoCrawlRecord
      → ℕ
      → Step R RestoreStats
  unfolding close_restore begin_restore decode_mongo_crawl_record
  each_document breaks resuming marker [] started rows n =
      close_restore breaks resuming started rows n
  each_document breaks resuming marker (raw ∷ documents) started rows n = do
    start started resuming marker
    row ← lift (decode_mongo_crawl_record parse raw)
    collect (rows ++ row ∷ []) n (each_document breaks resuming marker documents true)

  -- The deferred close of the cursor.
  abbrev pub closing : Bool → Checked RestoreStats × Session R → Checked RestoreStats × Session R
  closing false r = r
  closing true (r, t) = (rejected failed, set_complete false t)

  unfoldable pub bring_back : Source → Bool → Option RestoreMarker → Step R RestoreStats
  unfolding each_document
  bring_back source resuming marker s =
      if source.opens
      then closing source.close_fails
          (each_document source.breaks resuming marker source.documents false [] 0 s)
      else (rejected failed, s)

  unfoldable pub decide : Source → RestoreState → Step R RestoreStats
  unfolding bring_back
  decide source state =
      if is_restoring state.marker
      then (if not (state.work_count == 0)
          then throw live_work
          else bring_back source true state.marker)
      else (if preserves state
          then finish preserved 0
          else (if holds_state state
              then throw unsafe_restore
              else bring_back source false state.marker))

  unfoldable pub restore : Source → Step R RestoreStats
  unfolding decide check_identity read_startup_state
  restore source s =
      (check_identity line c >> (read_startup_state line c >>= decide source))
        (set_complete false s)
