-- ===== src/CrawlState/Contained.antt =====
-- What Restore leaves alone from its first request to its last, and the marker at its end
-- (internal/storage/crawl_state_restore.go).
use gfap.Base.{
  ℕ, ◌+◌, ◌≡◌, ◌⊎◌, refl, Bool, true, false, not, Option, List, [], ◌∷◌, ◌++◌, length, ◌==◌,
  under_if,
}
use gfap.Text.{Text}
use gfap.Redis.{Redis}
use gfap.CrawlState.{MongoCrawlRecord, Checked, UrlParser}
use gfap.CrawlState.Record.{Value, decode_mongo_crawl_record}
use gfap.CrawlState.Session.{
  Session, Step, Line, CrawlStateStore, RestoreMarker, RestoreState, complete, return, ◌>>=◌, ◌>>◌,
  lift, set_complete, check_identity, read_startup_state,
}
use gfap.CrawlState.Batch.{
  is_restoring, check_restore_barrier, restore_batch, set_marker, crawl_state_batch_size,
}
use gfap.CrawlState.Restore.{
  RestoreStats, Mode, empty, preserved, restored, preserves, holds_state, Source, finish,
  last_batch, close_restore, start, collect, each_document, closing, bring_back, decide, restore,
}
use gfap.CrawlState.Startup.{read_startup_state-same, finish-same}
use gfap.CrawlState.Kept.{Kept}
use gfap.CrawlState.Footprint.{
  Touches, Standing, Touches-refl, of_same, Contained, bind-Contained, check_identity-Contained,
  check_restore_barrier-Contained, set_marker-Contained, begin_restore-Contained,
  restore_batch-Contained,
}

module _ {R : Redis} (line : Line) (c : CrawlStateStore) (parse : UrlParser) where
  finish-Contained : (mode : Mode) (n : ℕ) → Contained c (finish {R = R} line c parse mode n)
  finish-Contained mode n s =
      of_same c s (finish line c parse mode n s).1 (finish-same line c parse mode n s)

  last_batch-Contained :
      (rows : List MongoCrawlRecord) (n : ℕ) → Contained c (last_batch {R = R} line c parse rows n)
  last_batch-Contained [] n s = Touches-refl c s
  last_batch-Contained (row ∷ rows) n s =
      bind-Contained c (restore_batch line c (row ∷ rows)) (λ u. return (n + length (row ∷ rows)))
        (restore_batch-Contained line c (row ∷ rows)) (λ u t. Touches-refl c t) s

  close_restore-Contained :
      (breaks resuming started : Bool) (rows : List MongoCrawlRecord) (n : ℕ)
      → Contained c (close_restore {R = R} line c parse breaks resuming started rows n)
  unfolding close_restore
  close_restore-Contained true resuming started rows n s = Touches-refl c s
  close_restore-Contained false true false rows n s = Touches-refl c s
  close_restore-Contained false false false rows n s = finish-Contained empty n s
  close_restore-Contained false resuming true rows n s =
      bind-Contained c (last_batch line c parse rows n) closes (last_batch-Contained rows n)
        (λ total.
          bind-Contained c (check_restore_barrier line c) (λ u. marks total)
            (check_restore_barrier-Contained line c)
            λ u.
              bind-Contained c (set_marker line c complete)
                (λ v. finish line c parse restored total)
                (set_marker-Contained line c complete refl) (λ v. finish-Contained restored total))
        s
    where
      marks : ℕ → Step R RestoreStats
      marks total = set_marker line c complete >> finish line c parse restored total

      closes : ℕ → Step R RestoreStats
      closes total = check_restore_barrier line c >> marks total

  start-Contained :
      (started resuming : Bool) (marker : Option RestoreMarker)
      → Contained c (start {R = R} line c parse started resuming marker)
  start-Contained true resuming marker s = Touches-refl c s
  start-Contained false resuming marker s = begin_restore-Contained line c resuming marker s

  collect-Contained :
      (rows : List MongoCrawlRecord) (n : ℕ)
      (rest : List MongoCrawlRecord → ℕ → Step R RestoreStats)
      → ((qs : List MongoCrawlRecord) (m : ℕ) → Contained c (rest qs m))
      → Contained c (collect line c parse rows n rest)
  collect-Contained rows n rest h s =
      under_if (λ (m : Step R RestoreStats). Touches c s (m s).1)
        (length rows == crawl_state_batch_size)
        (λ k.
          bind-Contained c (restore_batch line c rows) (λ u. rest [] (n + length rows))
            (restore_batch-Contained line c rows) (λ u. h [] (n + length rows)) s)
        (λ k. h rows n s)

  each_document-Contained :
      (breaks resuming : Bool) (marker : Option RestoreMarker)
      (documents : List (Option (List (Text × Value)))) (started : Bool)
      (rows : List MongoCrawlRecord) (n : ℕ)
      → Contained c
          (each_document {R = R} line c parse breaks resuming marker documents started rows n)
  unfolding each_document
  each_document-Contained breaks resuming marker [] started rows n =
      close_restore-Contained breaks resuming started rows n
  each_document-Contained breaks resuming marker (raw ∷ documents) started rows n =
      bind-Contained c (start line c parse started resuming marker)
        (λ u. lift (decode_mongo_crawl_record parse raw) >>= adds)
        (start-Contained started resuming marker)
        λ u.
          bind-Contained c (lift (decode_mongo_crawl_record parse raw)) adds (Touches-refl c) λ row.
            collect-Contained (rows ++ row ∷ []) n
              (each_document line c parse breaks resuming marker documents true)
              (each_document-Contained breaks resuming marker documents true)
    where
      adds : MongoCrawlRecord → Step R RestoreStats
      adds row =
          collect line c parse (rows ++ row ∷ []) n
            (each_document line c parse breaks resuming marker documents true)

  bring_back-Contained :
      (source : Source) (resuming : Bool) (marker : Option RestoreMarker)
      → Contained c (bring_back {R = R} line c parse source resuming marker)
  unfolding bring_back
  bring_back-Contained source resuming marker s =
      under_if (λ (r : Checked RestoreStats × Session R). Touches c s r.1) source.opens
        (λ o.
          closes source.close_fails _
            (each_document-Contained source.breaks resuming marker source.documents false [] 0 s))
        (λ o. Touches-refl c s)
    where
      closes :
          (fails : Bool) (r : Checked RestoreStats × Session R)
          → Touches c s r.1
          → Touches c s (closing line c parse fails r).1
      closes false r h = h
      closes true (r, t) h = h

  decide-Contained :
      (source : Source) (state : RestoreState)
      → Contained c (decide {R = R} line c parse source state)
  unfolding decide
  decide-Contained source state s =
      under_if Q (is_restoring state.marker)
        (λ r.
          under_if Q (not (state.work_count == 0)) (λ w. Touches-refl c s)
            (λ w. bring_back-Contained source true state.marker s))
        λ r.
          under_if Q (preserves state) (λ p. finish-Contained preserved 0 s)
            λ p.
              under_if Q (holds_state state) (λ h. Touches-refl c s)
                (λ h. bring_back-Contained source false state.marker s)
    where
      Q : Step R RestoreStats → Type 0
      Q m = Touches c s (m s).1

  -- Whatever happens in it, Restore leaves every key of the frontier but the listing schedule, the
  -- barren counts and the dead ledger as it was; and unless it left those and the marker as they
  -- were too, a marker of this collection stands at its end, restoring or complete.
  pub restore_contained :
      (source : Source) (s : Session R)
      → let t = (restore line c parse source s).1 in
        Kept s.server.store t.server.store
        × ((t.server ≡ s.server) ⊎ Standing c.source t.server.marker)
  unfolding restore
  restore_contained source s =
      bind-Contained c (check_identity line c)
        (λ u. read_startup_state line c >>= decide line c parse source)
        (check_identity-Contained line c)
        (λ u.
          bind-Contained c (read_startup_state line c) (decide line c parse source)
            (λ t. of_same c t (read_startup_state line c t).1 (read_startup_state-same line c t).0)
            (decide-Contained source))
        (set_complete false s)
