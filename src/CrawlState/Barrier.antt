-- ===== src/CrawlState/Barrier.antt =====
-- What Restore may change and when (internal/storage/crawl_state_restore.go): the flag that lets
-- the crawler start, the keys of the observations, and the marker.
use gfap.Base.{
  ℕ, ◌+◌, ◌≡◌, refl, ◌∙◌, Bool, true, false, not, Option, none, some, List, [], ◌∷◌, ◌++◌, length,
  ◌&&◌, ◌==◌, if◌then◌else◌, under_if,
}
use gfap.Text.{Text}
use gfap.Redis.{Redis}
use gfap.Frontier.Client.{Fault, refused, lost, raised}
use gfap.CrawlState.{MongoCrawlRecord, Checked, accepted, rejected, UrlParser, barrier_changed}
use gfap.CrawlState.Record.{Value, decode_mongo_crawl_record}
use gfap.CrawlState.Session.{
  Session, Step, Line, CrawlStateStore, RestoreMarker, RestoreState, MarkerText, restoring,
  complete, return, throw, ◌>>=◌, ◌>>◌, lift, next_request, set_complete, check_identity,
  read_startup_state,
}
use gfap.CrawlState.Steps.{bind-elim, Follows, bind-Follows}
use gfap.CrawlState.Batch.{
  is_restoring, check_restore_barrier, transact, restore_batch, set_marker, set_marker_nx,
  apply_marker, begin_marker, begin_restore, crawl_state_batch_size,
}
use gfap.CrawlState.Restore.{
  RestoreStats, Mode, empty, preserved, restored, preserves, holds_state, Source, finish, finished,
  last_batch, close_restore, start, collect, each_document, closing, bring_back, decide, restore,
}
use gfap.CrawlState.Startup.{check_identity-same, read_startup_state-same}

abbrev pub is_accepted : {A : Type 0} → Checked A → Bool
is_accepted (accepted a) = true
is_accepted (rejected e) = false

-- A step through which the flag stays as it is.
abbrev Quiet : {R : Redis} {A : Type 0} → Step R A → Type 0
Quiet m =
    Follows (λ s t. t.startup_complete ≡ s.startup_complete) (λ s. refl) (λ s t u e f. f ∙ e) m

-- A step that turns the flag on just where it succeeds.
abbrev Answers : {R : Redis} → Step R RestoreStats → Type 0
Answers {R} m =
    (s : Session R) → s.startup_complete ≡ false → (m s).1.startup_complete ≡ is_accepted (m s).0

module _ {R : Redis} where
  bind-Quiet :
      {A B : Type 0} (m : Step R A) (k : A → Step R B)
      → Quiet m
      → ((a : A) → Quiet (k a))
      → Quiet (m >>= k)
  bind-Quiet m k f g =
      bind-Follows (λ s t. t.startup_complete ≡ s.startup_complete) (λ s. refl) (λ s t u e f. f ∙ e)
        m k f g

  bind-Answers :
      {A : Type 0} (m : Step R A) (k : A → Step R RestoreStats)
      → Quiet m
      → ((a : A) → Answers (k a))
      → Answers (m >>= k)
  bind-Answers m k f g s off =
      bind-elim (λ r. r.1.startup_complete ≡ is_accepted r.0) m k s (λ e h. f s ∙ off)
        (λ a h. g a (m s).1 (f s ∙ off))

module _ {R : Redis} (line : Line) (c : CrawlStateStore) where
  check_identity-Quiet : Quiet (check_identity {R = R} line c)
  check_identity-Quiet s = (check_identity-same line c s).1

  check_restore_barrier-Quiet : Quiet (check_restore_barrier {R = R} line c)
  unfolding check_restore_barrier read_startup_state
  check_restore_barrier-Quiet =
      bind-Quiet (check_identity line c) (λ u. read_startup_state line c >>= λ state. passes state)
        check_identity-Quiet
        λ u. bind-Quiet (read_startup_state line c) passes (λ s. refl) passes-Quiet
    where
      passes : RestoreState → Step R Unit
      passes state =
          if is_restoring state.marker && state.work_count == 0
          then return tt
          else throw barrier_changed

      passes-Quiet : (state : RestoreState) → Quiet (passes state)
      passes-Quiet state s =
          under_if (λ (m : Step R Unit). (m s).1.startup_complete ≡ s.startup_complete)
            (is_restoring state.marker && state.work_count == 0) (λ h. refl) (λ h. refl)

  set_marker-Quiet : (phase : Text) → Quiet (set_marker {R = R} line c phase)
  set_marker-Quiet phase s = go (line s.requests).fault
    where
      go :
          (fault : Option Fault)
          → (apply_marker line c fault phase (next_request s)).1.startup_complete
            ≡ s.startup_complete
      go none = refl
      go (some refused) = refl
      go (some lost) = refl
      go (some (raised n)) = refl

  begin_restore-Quiet :
      (resuming : Bool) (marker : Option RestoreMarker)
      → Quiet (begin_restore {R = R} line c resuming marker)
  unfolding begin_restore
  begin_restore-Quiet resuming marker =
      bind-Quiet (check_identity line c)
        (λ u. if resuming then return tt else begin_marker line c marker) check_identity-Quiet
        λ u s.
          under_if (λ (m : Step R Unit). (m s).1.startup_complete ≡ s.startup_complete) resuming
            (λ h. refl) (λ h. begins marker s)
    where
      fresh :
          (m : Option MarkerText) (s : Session R)
          → (set_marker_nx line c m s).1.startup_complete ≡ s.startup_complete
      fresh none s = set_marker-Quiet restoring s
      fresh (some m) s = refl

      begins : (m : Option RestoreMarker) → Quiet (begin_marker {R = R} line c m)
      begins none s = fresh s.server.marker s
      begins (some m) s = set_marker-Quiet restoring s

  restore_batch-Quiet : (rows : List MongoCrawlRecord) → Quiet (restore_batch {R = R} line c rows)
  unfolding restore_batch
  restore_batch-Quiet rows =
      bind-Quiet (check_restore_barrier line c) (λ u. transact line c rows >> check_identity line c)
        check_restore_barrier-Quiet
        λ u.
          bind-Quiet (transact line c rows) (λ v. check_identity line c) (λ s. refl)
            λ v. check_identity-Quiet

  finish-Answers :
      (parse : UrlParser) (mode : Mode) (n : ℕ) → Answers (finish {R = R} line c parse mode n)
  finish-Answers parse mode n s off =
      go (check_identity line c s) ((check_identity-same line c s).1 ∙ off)
    where
      go :
          (r : Checked Unit × Session R)
          → r.1.startup_complete ≡ false
          → (finished line c parse mode n r).1.startup_complete
            ≡ is_accepted (finished line c parse mode n r).0
      go (accepted u, t) e = refl
      go (rejected x, t) e = e

module _ {R : Redis} (line : Line) (c : CrawlStateStore) (parse : UrlParser) where
  last_batch-Quiet :
      (rows : List MongoCrawlRecord) (n : ℕ) → Quiet (last_batch {R = R} line c parse rows n)
  last_batch-Quiet [] n s = refl
  last_batch-Quiet (row ∷ rows) n s =
      bind-Quiet (restore_batch line c (row ∷ rows)) (λ u. return (n + length (row ∷ rows)))
        (restore_batch-Quiet line c (row ∷ rows)) (λ u s. refl) s

  close_restore-Answers :
      (breaks resuming started : Bool) (rows : List MongoCrawlRecord) (n : ℕ)
      → Answers (close_restore {R = R} line c parse breaks resuming started rows n)
  unfolding close_restore
  close_restore-Answers true resuming started rows n s off = off
  close_restore-Answers false true false rows n s off = off
  close_restore-Answers false false false rows n s off = finish-Answers line c parse empty n s off
  close_restore-Answers false resuming true rows n s off =
      bind-Answers (last_batch line c parse rows n) (λ total. closes total)
        (last_batch-Quiet rows n)
        (λ total.
          bind-Answers (check_restore_barrier line c) (λ u. marks total)
            (check_restore_barrier-Quiet line c)
            λ u.
              bind-Answers (set_marker line c complete) (λ v. finish line c parse restored total)
                (set_marker-Quiet line c complete)
                (λ v. finish-Answers line c parse restored total))
        s off
    where
      marks : ℕ → Step R RestoreStats
      marks total = set_marker line c complete >> finish line c parse restored total

      closes : ℕ → Step R RestoreStats
      closes total = check_restore_barrier line c >> marks total

  start-Quiet :
      (started resuming : Bool) (marker : Option RestoreMarker)
      → Quiet (start {R = R} line c parse started resuming marker)
  start-Quiet true resuming marker s = refl
  start-Quiet false resuming marker s = begin_restore-Quiet line c resuming marker s

  collect-Answers :
      (rows : List MongoCrawlRecord) (n : ℕ)
      (rest : List MongoCrawlRecord → ℕ → Step R RestoreStats)
      → ((qs : List MongoCrawlRecord) (m : ℕ) → Answers (rest qs m))
      → Answers (collect line c parse rows n rest)
  collect-Answers rows n rest h s off =
      under_if (λ (m : Step R RestoreStats). (m s).1.startup_complete ≡ is_accepted (m s).0)
        (length rows == crawl_state_batch_size)
        (λ k.
          bind-Answers (restore_batch line c rows) (λ u. rest [] (n + length rows))
            (restore_batch-Quiet line c rows) (λ u. h [] (n + length rows)) s off)
        (λ k. h rows n s off)

  each_document-Answers :
      (breaks resuming : Bool) (marker : Option RestoreMarker)
      (documents : List (Option (List (Text × Value)))) (started : Bool)
      (rows : List MongoCrawlRecord) (n : ℕ)
      → Answers (each_document {R = R} line c parse breaks resuming marker documents started rows n)
  unfolding each_document
  each_document-Answers breaks resuming marker [] started rows n =
      close_restore-Answers breaks resuming started rows n
  each_document-Answers breaks resuming marker (raw ∷ documents) started rows n =
      bind-Answers (start line c parse started resuming marker)
        (λ u. lift (decode_mongo_crawl_record parse raw) >>= adds)
        (start-Quiet started resuming marker)
        λ u.
          bind-Answers (lift (decode_mongo_crawl_record parse raw)) adds (λ s. refl)
            λ row.
              collect-Answers (rows ++ row ∷ []) n
                (each_document line c parse breaks resuming marker documents true)
                (each_document-Answers breaks resuming marker documents true)
    where
      adds : MongoCrawlRecord → Step R RestoreStats
      adds row =
          collect line c parse (rows ++ row ∷ []) n
            (each_document line c parse breaks resuming marker documents true)

  closing-Answers :
      (fails : Bool) (r : Checked RestoreStats × Session R)
      → r.1.startup_complete ≡ is_accepted r.0
      → (closing line c parse fails r).1.startup_complete
        ≡ is_accepted (closing line c parse fails r).0
  closing-Answers false r e = e
  closing-Answers true (r, t) e = refl

  bring_back-Answers :
      (source : Source) (resuming : Bool) (marker : Option RestoreMarker)
      → Answers (bring_back {R = R} line c parse source resuming marker)
  unfolding bring_back
  bring_back-Answers source resuming marker s off =
      under_if (λ (r : Checked RestoreStats × Session R). r.1.startup_complete ≡ is_accepted r.0)
        source.opens
        (λ o.
          closing-Answers source.close_fails _
            (each_document-Answers source.breaks resuming marker source.documents false [] 0 s off))
        (λ o. off)

  decide-Answers :
      (source : Source) (state : RestoreState) → Answers (decide {R = R} line c parse source state)
  unfolding decide
  decide-Answers source state s off =
      under_if Q (is_restoring state.marker)
        (λ r.
          under_if Q (not (state.work_count == 0)) (λ w. off)
            (λ w. bring_back-Answers source true state.marker s off))
        λ r.
          under_if Q (preserves state) (λ p. finish-Answers line c parse preserved 0 s off)
            λ p.
              under_if Q (holds_state state) (λ h. off)
                (λ h. bring_back-Answers source false state.marker s off)
    where
      Q : Step R RestoreStats → Type 0
      Q m = (m s).1.startup_complete ≡ is_accepted (m s).0

  -- After Restore, startup is complete just where Restore reported no error, whatever it was
  -- before, and whatever Redis, MongoDB and the context did.
  pub restore_answers :
      (source : Source) (s : Session R)
      → (restore line c parse source s).1.startup_complete
        ≡ is_accepted (restore line c parse source s).0
  unfolding restore
  restore_answers source s =
      bind-Answers (check_identity line c)
        (λ u. read_startup_state line c >>= decide line c parse source)
        (check_identity-Quiet line c)
        (λ u.
          bind-Answers (read_startup_state line c) (decide line c parse source)
            (λ t. (read_startup_state-same line c t).1) (decide-Answers source))
        (set_complete false s) refl
