-- ===== src/Crawler/Worker.antt =====
-- The worker's loop and what it calls (internal/crawler/worker.go). A worker's turns and the net
-- are given: the response to each fetch, and what becomes of each request with the clock then.
use gfap.Base.{
  ℕ, ◌+◌, Bool, true, false, Option, none, some, List, [], ◌∷◌, ◌++◌, ◌||◌, ◌&&◌, leb, ltb, not,
  if◌then◌else◌,
}
use gfap.Text.{Text, codes}
use gfap.Text.Search.{contains, is_empty, equal}
use gfap.Redis.{Redis}
use gfap.Video.{Video}
use gfap.Frontier.{
  Store, Job, FailClass, fail_rate_limited, fail_strikeable, AdmitResult, suppressed, new,
  due_revisit, UrlClass, class_video, class_listing, class_seed,
}
use gfap.Frontier.Client.{
  Error, server, stale_lease, network, unexpected, Result, returns, fails, Fault, refused, lost,
  raised, Time, admit_video, admit_listing, lease, ack, nack, fail, terminal, complete_listing,
}
use gfap.Crawler.{
  PageKind, page_video, page_listing, page_not_found, page_retryable, page_unknown, page_cancelled,
  page_invalid_response, PageOutcome, Settings, World, Net, worker_rate_limit_stop,
  new_url_classifier,
}
use gfap.Crawler.Failures.{WorkerFailures, observe}
use gfap.Crawler.Page.{Response, process}

-- untilFor; `none` is the zero time.
unfoldable pub until_for : UrlClass → ℕ → ℕ → Time
until_for class_video quarantine now = none
until_for class_listing quarantine now = some (now + quarantine)
until_for class_seed quarantine now = some (now + quarantine)

-- Upsert (internal/storage/mongo.go): the document of the video's URL is replaced, or inserted.
unfoldable pub upsert : Video → List Video → List Video
upsert v [] = v ∷ []
upsert v (w ∷ ws) = let rest = upsert v ws in if equal w.url v.url then v ∷ ws else w ∷ rest

abbrev pub stored_by : Option Fault → Video → List Video → Bool × List Video
stored_by none v vs = (true, upsert v vs)
stored_by (some refused) v vs = (false, vs)
stored_by (some lost) v vs = (false, upsert v vs)
stored_by (some (raised n)) v vs = (false, vs)

abbrev pub count_new : AdmitResult → ℕ → ℕ
count_new new n = n + 1
count_new suppressed n = n
count_new due_revisit n = n

-- One turn of the loop as the worker finds it: whether the context is done when the turn begins,
-- whether the limiter's wait fails, whether the context is done when the fetch fails, and what the
-- fetch brings.
pub record Turn : Type 0 where
  pub cancelled : Bool
  pub limiter_fails : Bool
  pub cancelled_fetch : Bool
  pub response : Option Response

abbrev is_access_notice : PageKind → Text → Bool
is_access_notice page_invalid_response reason = equal reason (codes "uk_access_notice")
is_access_notice page_video reason = false
is_access_notice page_listing reason = false
is_access_notice page_not_found reason = false
is_access_notice page_retryable reason = false
is_access_notice page_unknown reason = false
is_access_notice page_cancelled reason = false

-- What a turn leaves: whether the loop goes on, the failures and the world.
abbrev pub After : Redis → Type 0
After R = Bool × WorkerFailures × World R

module _ {R : Redis} (net : Net) where
  -- A request to the frontier.
  abbrev pub request :
      {A : Type 0} → (Option Fault → ℕ → Store R → A × Store R) → World R → A × World R
  request op w =
      let (fault, now) = net w.requests in
      let (a, s) = op fault now w.store in (a, record w { store = s; requests = w.requests + 1 })

  -- Whether the video was stored without an error.
  abbrev pub mongo_upsert : Video → World R → Bool × World R
  mongo_upsert v w =
      let (ok, vs) = stored_by (net w.requests).0 v w.collection in
      (ok, record w { collection = vs; requests = w.requests + 1 })

  -- resolve, whose operation's error is only counted and logged.
  abbrev pub resolving :
      {A : Type 0} → (Option Fault → ℕ → Store R → A × Store R) → World R → World R
  resolving op w = (request op w).1

  -- maybeFatalAdmission
  unfoldable pub maybe_fatal_admission : Error → World R → World R
  maybe_fatal_admission server w = record w { stopped = true }
  maybe_fatal_admission network w = w
  maybe_fatal_admission stale_lease w = w
  maybe_fatal_admission unexpected w = w

  unfoldable pub record_video : Video → World R → World R
  record_video v w = record w {
    count = w.count + 1;
    targets = if v.is_target then w.targets ++ v ∷ [] else w.targets;
  }

  module _ (c : Settings) where
    unfoldable pub admit_url : Text → World R → Result AdmitResult × World R
    admit_url raw w =
        let url = c.canonicalize raw in
        if is_empty url
        then (returns suppressed, w)
        else (if contains url c.video_pattern
            then request (λ fault now. admit_video fault now url) w
            else request (λ fault now. admit_listing fault now url) w)

    abbrev pub go_on :
        ℕ
        → (ℕ → World R → ℕ × Option Error × World R)
        → Result AdmitResult
        → World R
        → ℕ × Option Error × World R
    go_on n rest (fails e) w = (n, some e, w)
    go_on n rest (returns res) w = rest (count_new res n) w

    -- The loop of enqueueChildren from a count on: the count, and the error that broke it off.
    unfoldable pub enqueue_children : List Text → ℕ → World R → ℕ × Option Error × World R
    unfolding admit_url
    enqueue_children [] n w = (n, none, w)
    enqueue_children (raw ∷ links) n w =
        let (res, t) = admit_url raw w in go_on n (enqueue_children links) res t

    module _ (j : Job) where
      abbrev pub nacking : World R → World R
      nacking = resolving (λ fault now. nack fault j)

      abbrev pub failing : FailClass → World R → World R
      failing class = resolving (λ fault now. fail c.frontier fault now j class)

      abbrev pub after_video : ℕ × Option Error × World R → Bool × World R
      after_video (n, none, w) = (true, resolving (λ fault now. ack fault j) w)
      after_video (n, some e, w) = (false, maybe_fatal_admission e (nacking w))

      abbrev pub after_listing : ℕ × Option Error × World R → Bool × World R
      after_listing (n, none, w) =
          (false, resolving (λ fault now. complete_listing c.frontier fault now j n) w)
      after_listing (n, some e, w) = (false, maybe_fatal_admission e (nacking w))

      abbrev pub after_upsert : Video → List Text → Bool × World R → Bool × World R
      after_upsert v links (false, w) = (false, nacking w)
      after_upsert v links (true, w) = after_video (enqueue_children links 0 (record_video v w))

      abbrev pub handle : PageKind → PageOutcome → World R → Bool × World R
      handle page_video out w = after_upsert out.video out.links (mongo_upsert out.video w)
      handle page_listing out w = after_listing (enqueue_children out.links 0 w)
      handle page_not_found out w = (
        false,
        resolving (λ fault now. terminal fault j out.reason (until_for j.class c.quarantine now)) w,
      )
      handle page_retryable out w = (false, failing out.fail_class w)
      handle page_invalid_response out w = (false, failing fail_rate_limited w)
      handle page_unknown out w = (false, failing fail_strikeable w)
      handle page_cancelled out w = (false, nacking w)

      -- handleOutcome
      unfoldable pub handle_outcome : PageOutcome → World R → Bool × World R
      unfolding enqueue_children maybe_fatal_admission record_video until_for
      handle_outcome out w = handle out.kind out w

    abbrev pub fetched : Turn → Job → WorkerFailures → World R → After R
    fetched turn j f w =
        let out = process c turn.cancelled_fetch j.url turn.response in
        let f' = observe out f in
        (
          not (
              is_access_notice out.kind out.reason
              || leb worker_rate_limit_stop f'.consecutive_rate_limited),
          f',
          (handle_outcome j out w).1,
        )

    abbrev pub leased : Turn → Job → WorkerFailures → World R → After R
    leased turn j f w =
        if is_empty (c.canonicalize j.url)
        then (true, f, resolving (λ fault now. ack fault j) w)
        else (if turn.limiter_fails
            then (false, f, resolving (λ fault now. nack fault j) w)
            else fetched turn j f w)

    abbrev pub after_lease : Turn → WorkerFailures → Result (Option Job) × World R → After R
    after_lease turn f (fails e, w) = (true, f, w)
    after_lease turn f (returns none, w) = (true, f, w)
    after_lease turn f (returns (some j), w) = leased turn j f w

    -- The body of workerLoop's loop; a limit of 0 is no limit.
    unfoldable pub worker_turn : ℕ → Turn → WorkerFailures → World R → After R
    unfolding handle_outcome
    worker_turn video_limit turn f w =
        if turn.cancelled || (ltb 0 video_limit && leb video_limit w.count)
        then (false, f, w)
        else after_lease turn f
            (request (λ fault now. lease c.frontier (some (new_url_classifier c)) fault now) w)

    abbrev pub go_round : (WorkerFailures → World R → World R) → After R → World R
    go_round rest (true, f, w) = rest f w
    go_round rest (false, f, w) = w

    -- workerLoop, from given failures on, through the turns that come.
    unfoldable pub worker_loop : ℕ → List Turn → WorkerFailures → World R → World R
    unfolding worker_turn
    worker_loop video_limit [] f w = w
    worker_loop video_limit (turn ∷ turns) f w =
        go_round (worker_loop video_limit turns) (worker_turn video_limit turn f w)
