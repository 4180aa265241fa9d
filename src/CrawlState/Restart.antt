-- ===== src/CrawlState/Restart.antt =====
-- A checkpoint and the Restore that follows it, together (internal/storage/crawl_state.go,
-- crawl_state_restore.go).
use gfap.Base.{
  ℕ, zero, suc, ◌≡◌, refl, ap, ◌∙◌, sym, subst, Option, some, List, [], ◌∷◌, map, length, get_elem?,
  All, ite,
}
use mathlib.Core.Option.{none-ne-some, some-injective}
use gfap.Text.{Text, dec_text}
use gfap.Text.Search.{split}
use gfap.Redis.{Redis}
use gfap.Frontier.{Store}
use gfap.CrawlState.{MongoCrawlRecord, accepted, UrlParser}
use gfap.CrawlState.Record.{validate}
use gfap.CrawlState.Session.{
  Session, CrawlStateStore, RestoreMarker, find_run_id, decode_marker, work_count,
}
use gfap.CrawlState.Restore.{restored, restore}
use gfap.CrawlState.Observe.{read_record}
use gfap.CrawlState.Exact.{IsExact}
use gfap.CrawlState.Content.{Observation, observation, Stamped, last_wins, wanted}
use gfap.CrawlState.Healthy.{healthy, checkpoint_of}
use gfap.CrawlState.Complete.{Cold, restore_correct}
use gfap.CrawlState.Resume.{resumed, resume_correct, read_record_lem}

module _ (G : Observation → Type 0) (url : Text) where
  -- Each record of the URL says so.
  abbrev Says : Stamped → Type 0
  Says ws = All (λ w. w.1.url ≡ url → G (wanted w.0 w.1)) ws

  step_keeps :
      (w : ℕ × MongoCrawlRecord) (o : Observation) (d : Dec (w.1.url ≡ url))
      → (w.1.url ≡ url → G (wanted w.0 w.1))
      → G o
      → G (ite d (wanted w.0 w.1) o)
  step_keeps w o (yes e) h g = h e
  step_keeps w o (no n) h g = g

  step_says :
      (w : ℕ × MongoCrawlRecord) (o : Observation) (d : Dec (w.1.url ≡ url))
      → (w.1.url ≡ url → G (wanted w.0 w.1))
      → w.1.url ≡ url
      → G (ite d (wanted w.0 w.1) o)
  step_says w o (yes e) h k = h e
  step_says w o (no n) h k = absurd (n k)

  last_wins_keeps : (ws : Stamped) (o : Observation) → Says ws → G o → G (last_wins ws url o)
  last_wins_keeps [] o h g = g
  last_wins_keeps (w ∷ ws) o (h, hs) g =
      last_wins_keeps ws _ hs (step_keeps w o (dec_text w.1.url url) h g)

  last_wins_says :
      (ws : Stamped) (o : Observation) (k : ℕ) (row : MongoCrawlRecord)
      → Says ws
      → get_elem? (map (λ w. w.1) ws) k ≡ some row
      → row.url ≡ url
      → G (last_wins ws url o)
  last_wins_says [] o k row h e u = absurd (none-ne-some row e)
  last_wins_says (w ∷ ws) o zero row (h, hs) e u = last_wins_keeps ws _ hs (
      step_says w o (dec_text w.1.url url) h
        (ap (λ (r : MongoCrawlRecord). r.url) (some-injective w.1 row e) ∙ u))
  last_wins_says (w ∷ ws) o (suc k) row (h, hs) e u = last_wins_says ws _ k row hs e u

module _ {R : Redis} (info : Text) (clock : ℕ → ℕ) (c : CrawlStateStore)
    (known : find_run_id (split 10 info) ≡ accepted c.redis_run_id) where
  says :
      (parse : UrlParser) (before : Store R) (url : Text) (ws : Stamped)
      → All (λ w. (i : ℕ) × (w.0 ≡ clock i)) ws
      → All (IsExact parse before) (map (λ w. w.1) ws)
      → Says (λ o. (i : ℕ) × (o ≡ resumed (clock i) (observation before url))) url ws
  says parse before url [] h k = tt
  says parse before url (w ∷ ws) ((i, e), h) (x, k) = (
    λ u. (
      i,
      ap (λ n. wanted n w.1) e
          ∙ resume_correct parse (clock i) before url w.1
              (subst (λ v. read_record parse before v ≡ accepted w.1) u x),
    ),
    says parse before url ws h k,
  )

  rows_valid :
      (parse : UrlParser) (before : Store R) (rows : List MongoCrawlRecord)
      → All (IsExact parse before) rows
      → All (λ q. validate parse q ≡ accepted q) rows
  rows_valid parse before [] h = tt
  rows_valid parse before (row ∷ rows) (x, h) =
      ((read_record_lem parse before row.url row x).1, rows_valid parse before rows h)

  -- The records that a checkpoint has read of one frontier, restored into an empty frontier or over
  -- a restore that has stopped, where Redis and MongoDB answer: Restore succeeds, and each URL that
  -- has a record is as a restart at some time of the clock leaves its state in that frontier.
  pub restart_correct :
      (parse : UrlParser) (before : Store R) (q : MongoCrawlRecord) (qs : List MongoCrawlRecord)
      (s : Session R) (marker : Option RestoreMarker) (k : ℕ) (row : MongoCrawlRecord)
      → All (IsExact parse before) (q ∷ qs)
      → decode_marker c.source s.server.marker ≡ accepted marker
      → work_count s.server.store ≡ 0
      → Cold info clock c known parse marker s.server.store
      → get_elem? (q ∷ qs) k ≡ some row
      → let r = restore (healthy info clock) c parse (checkpoint_of (q ∷ qs)) s in
        (r.0 ≡ accepted (record { mode = restored; rows = length (q ∷ qs) }))
        × ((i : ℕ) × (observation r.1.server.store row.url
              ≡ resumed (clock i) (observation before row.url)))
  restart_correct parse before q qs s marker k row exact d w cold e =
      let (done, ended, (ws, rows, times, after)) =
        restore_correct info clock c known parse q qs s marker
          (rows_valid parse before (q ∷ qs) exact) d w cold in
      let (i, f) =
        last_wins_says (λ o. (i : ℕ) × (o ≡ resumed (clock i) (observation before row.url))) row.url
          ws (observation s.server.store row.url) k row
          (says parse before row.url ws times (subst (All (IsExact parse before)) (sym rows) exact))
          (subst (λ xs. get_elem? xs k ≡ some row) (sym rows) e) refl in
      (done, (i, after row.url ∙ f))
