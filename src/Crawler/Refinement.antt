-- ===== src/Crawler/Refinement.antt =====
-- A worker's loop (internal/crawler/worker.go) as a history of the frontier's calls.
use gfap.Base.{
  ℕ, ◌≡◌, ◌<◌, refl, ap, ◌∙◌, sym, subst, arith, Bool, true, false, Option, none, some, List, [],
  ◌∷◌, ◌++◌, Bool-cases, inl, inr, ltb, leb, ◌||◌, ◌&&◌,
}
use gfap.Text.{Text}
use gfap.Text.Member.{url_of}
use gfap.Text.Search.{contains, is_empty}
use gfap.Redis.{Redis}
use gfap.Frontier.{
  Store, Job, FailClass, fail_rate_limited, fail_strikeable, AdmitResult, UrlClass, class_video,
  class_listing, class_seed, pending_score,
}
use gfap.Frontier.Client.{
  Error, server, network, stale_lease, unexpected, Result, returns, fails, Fault, unix_or_zero,
  job_of, class_of, class-job_of, decode_lease, lease, terminal, run_script,
}
use gfap.Frontier.History.{
  Call, admits_video, admits_listing, acks, nacks, fails_job, terminates, completes, leases,
  IsClean, Allowed, AllAllowed, perform, run, is_video, video_class, IsFlushed, IsSound,
  run_correct,
}
use gfap.Crawler.{
  PageKind, page_video, page_listing, page_not_found, page_retryable, page_unknown, page_cancelled,
  page_invalid_response, PageOutcome, Settings, World, Net, new_url_classifier, is_in,
}
use gfap.Crawler.Page.{process, Fits, process-Fits}
use gfap.Crawler.Failures.{WorkerFailures}
use gfap.Crawler.Worker.{
  Turn, After, until_for, admit_url, enqueue_children, handle_outcome, handle, worker_turn,
  worker_loop, go_round, go_on, request, maybe_fatal_admission, nacking, failing, count_new,
  record_video, mongo_upsert, after_upsert, leased, after_lease, after_video, after_listing,
}

-- No command of a script fails, and the clock is before the pending score (the year 9999).
abbrev pub IsCleanNet : Net → Type 0
IsCleanNet net = (i : ℕ) → IsClean (net i).0 × ((net i).1 < pending_score)

module _ (R : Redis) (c : Settings) (net : Net) (clean : IsCleanNet net) where
  abbrev classify : Option (Text → UrlClass)
  classify = some (new_url_classifier c)

  -- Some history of allowed calls leads from one keyspace to the other.
  abbrev pub Calls : Store R → Store R → Type 0
  Calls s t =
      (cs : List (Option Fault × Call)) × AllAllowed R c.frontier classify cs
      × (run R c.frontier classify cs s ≡ t)

  no_call : (s : Store R) → Calls s s
  unfolding run
  no_call s = ([], tt, refl)

  one_call :
      (i : ℕ) (call : Call) (s : Store R)
      → Allowed R c.frontier classify call
      → Calls s (perform R c.frontier classify (net i).0 call s)
  unfolding run
  one_call i call s ok = (((net i).0, call) ∷ [], (((clean i).0, ok), tt), refl)

  run-append :
      (cs ds : List (Option Fault × Call)) (s : Store R)
      → run R c.frontier classify (cs ++ ds) s
        ≡ run R c.frontier classify ds (run R c.frontier classify cs s)
  unfolding run
  run-append [] ds s = refl
  run-append ((fault, call) ∷ cs) ds s =
      run-append cs ds (perform R c.frontier classify fault call s)

  all-append :
      (cs ds : List (Option Fault × Call))
      → AllAllowed R c.frontier classify cs
      → AllAllowed R c.frontier classify ds
      → AllAllowed R c.frontier classify (cs ++ ds)
  all-append [] ds a b = b
  all-append (call ∷ cs) ds (ok, a) b = (ok, all-append cs ds a b)

  then_call : (s t u : Store R) → Calls s t → Calls t u → Calls s u
  then_call s t u (cs, a, e) (ds, b, d) =
      (cs ++ ds, all-append cs ds a b, run-append cs ds s ∙ ap (run R c.frontier classify ds) e ∙ d)

  classified : (url : Text) → is_video R c.frontier classify url ≡ contains url c.video_pattern
  unfolding class_of new_url_classifier
  classified url = elim (Bool-cases (contains url c.video_pattern)) [
    | inl video ↦ rw video refl
    | inr other ↦ elim (Bool-cases (is_in url c.seeds)) [
      | inl seed ↦ rw (other, seed) refl
      | inr listing ↦ rw (other, listing) refl
    ]
  ]

  admit_url-Calls : (raw : Text) (w : World R) → Calls w.store (admit_url net c raw w).1.store
  unfolding admit_url perform
  admit_url-Calls raw w = elim (Bool-cases (is_empty (c.canonicalize raw))) [
    | inl nothing ↦ rw nothing (no_call w.store)
    | inr url ↦ elim (Bool-cases (contains (c.canonicalize raw) c.video_pattern)) [
      | inl video ↦
          rw (url, video)
            (one_call w.requests (admits_video (net w.requests).1 (c.canonicalize raw)) w.store
              (classified (c.canonicalize raw) ∙ video))
      | inr listing ↦
          rw (url, listing)
            (one_call w.requests (admits_listing (net w.requests).1 (c.canonicalize raw)) w.store
              (classified (c.canonicalize raw) ∙ listing, (clean w.requests).1))
    ]
  ]

  go_on-Calls :
      (n : ℕ) (rest : ℕ → World R → ℕ × Option Error × World R) (s : Store R)
      (res : Result AdmitResult) (w : World R)
      → ((k : ℕ) (v : World R) → Calls v.store (rest k v).2.store)
      → Calls s w.store
      → Calls s (go_on net c n rest res w).2.store
  go_on-Calls n rest s (fails e) w more so_far = so_far
  go_on-Calls n rest s (returns a) w more so_far =
      then_call s w.store _ so_far (more (count_new a n) w)

  enqueue_children-Calls :
      (links : List Text) (n : ℕ) (w : World R)
      → Calls w.store (enqueue_children net c links n w).2.store
  unfolding enqueue_children
  enqueue_children-Calls [] n w = no_call w.store
  enqueue_children-Calls (raw ∷ links) n w =
      go_on-Calls n (enqueue_children net c links) w.store (admit_url net c raw w).0
        (admit_url net c raw w).1 (enqueue_children-Calls links) (admit_url-Calls raw w)

  fatal-Calls : (e : Error) (w : World R) → (maybe_fatal_admission net e w).store ≡ w.store
  unfolding maybe_fatal_admission
  fatal-Calls server w = refl
  fatal-Calls network w = refl
  fatal-Calls stale_lease w = refl
  fatal-Calls unexpected w = refl

  module _ (m : Text) where
    abbrev j : Job
    j = job_of classify m

    nacking-Calls : (w : World R) → Calls w.store (nacking net c j w).store
    unfolding perform
    nacking-Calls w = one_call w.requests (nacks m) w.store tt

    failing-Calls :
        (class : FailClass) (w : World R) → Calls w.store (failing net c j class w).store
    unfolding perform
    failing-Calls class w = one_call w.requests (fails_job (net w.requests).1 m class) w.store tt

    after_video-Calls :
        (s : Store R) (r : ℕ × Option Error × World R)
        → Calls s r.2.store
        → Calls s (after_video net c j r).1.store
    unfolding perform
    after_video-Calls s (n, none, w) so_far =
        then_call s w.store _ so_far (one_call w.requests (acks m) w.store tt)
    after_video-Calls s (n, some e, w) so_far =
        subst (Calls s) (sym (fatal-Calls e (nacking net c j w)))
          (then_call s w.store _ so_far (nacking-Calls w))

    after_listing-Calls :
        (s : Store R) (r : ℕ × Option Error × World R)
        → is_video R c.frontier classify (url_of m) ≡ false
        → Calls s r.2.store
        → Calls s (after_listing net c j r).1.store
    unfolding perform
    after_listing-Calls s (n, none, w) listing so_far =
        then_call s w.store _ so_far
          (one_call w.requests (completes (net w.requests).1 m n) w.store listing)
    after_listing-Calls s (n, some e, w) listing so_far =
        subst (Calls s) (sym (fatal-Calls e (nacking net c j w)))
          (then_call s w.store _ so_far (nacking-Calls w))

    until_for-IsListing :
        (now : ℕ)
        → 0 < unix_or_zero (until_for j.class c.quarantine now)
        → is_video R c.frontier classify (url_of m) ≡ false
    unfolding until_for unix_or_zero
    until_for-IsListing now h = go j.class (class-job_of classify m) h
      where
        go :
            (class : UrlClass)
            → class ≡ class_of classify (url_of m)
            → 0 < unix_or_zero (until_for class c.quarantine now)
            → is_video R c.frontier classify (url_of m) ≡ false
        go class_video e l = absurd (omega (arith, l))
        go class_listing e l = sym (ap video_class e)
        go class_seed e l = sym (ap video_class e)

    -- Every outcome is handled by allowed calls, if it calls a listing's URL a listing.
    handle_outcome-Calls :
        (out : PageOutcome) (w : World R)
        → Fits c (url_of m) out
        → Calls w.store (handle_outcome net c j out w).1.store
    unfolding handle_outcome perform terminal
    handle_outcome-Calls out w fits = go out.kind refl
      where
        upserted :
            (r : Bool × World R)
            → r.1.store ≡ w.store
            → Calls w.store (after_upsert net c j out.video out.links r).1.store
        upserted (false, v) e = subst (λ s. Calls s (nacking net c j v).store) e (nacking-Calls v)
        upserted (true, v) e =
            subst (λ s. Calls s (after_upsert net c j out.video out.links (true, v)).1.store) e
              (after_video-Calls v.store
                (enqueue_children net c out.links 0 (record_video net out.video v))
                (enqueue_children-Calls out.links 0 (record_video net out.video v)))

        go : (kind : PageKind) → kind ≡ out.kind → Calls w.store (handle net c j kind out w).1.store
        go page_video e = upserted (mongo_upsert net out.video w) refl
        go page_listing e =
            after_listing-Calls w.store (enqueue_children net c out.links 0 w)
              (classified (url_of m) ∙ fits.0 (sym e)) (enqueue_children-Calls out.links 0 w)
        go page_not_found e =
            one_call w.requests
              (terminates m out.reason (until_for j.class c.quarantine (net w.requests).1)) w.store
              (until_for-IsListing (net w.requests).1)
        go page_retryable e = failing-Calls out.fail_class w
        go page_unknown e = failing-Calls fail_strikeable w
        go page_cancelled e = nacking-Calls w
        go page_invalid_response e = failing-Calls fail_rate_limited w

    leased-Calls :
        (turn : Turn) (f : WorkerFailures) (s : Store R) (w : World R)
        → Calls s w.store
        → Calls s (leased net c turn j f w).2.store
    unfolding perform url_of job_of
    leased-Calls turn f s w so_far = elim (Bool-cases (is_empty (c.canonicalize j.url))) [
      | inl excluded ↦
          rw excluded (then_call s w.store _ so_far (one_call w.requests (acks m) w.store tt))
      | inr crawled ↦ elim (Bool-cases turn.limiter_fails) [
        | inl failed ↦ rw (crawled, failed) (then_call s w.store _ so_far (nacking-Calls w))
        | inr waited ↦
            rw (crawled, waited)
              (then_call s w.store _ so_far (
                handle_outcome-Calls (process c turn.cancelled_fetch j.url turn.response) w
                  (process-Fits c j.url turn.cancelled_fetch turn.response)))
      ]
    ]

  after_lease-Calls :
      (turn : Turn) (f : WorkerFailures) (s : Store R) (r : Result (Option Text)) (w : World R)
      → Calls s w.store
      → Calls s (after_lease net c turn f (decode_lease classify r, w)).2.store
  after_lease-Calls turn f s (fails e) w so_far = so_far
  after_lease-Calls turn f s (returns none) w so_far = so_far
  after_lease-Calls turn f s (returns (some m)) w so_far = leased-Calls m turn f s w so_far

  worker_turn-Calls :
      (limit : ℕ) (turn : Turn) (f : WorkerFailures) (w : World R)
      → Calls w.store (worker_turn net c limit turn f w).2.store
  unfolding worker_turn lease perform
  worker_turn-Calls limit turn f w =
      elim (Bool-cases (turn.cancelled || (ltb 0 limit && leb limit w.count))) [
        | inl stops ↦ rw stops (no_call w.store)
        | inr goes ↦ rw goes (
            after_lease-Calls turn f w.store (run_script (net w.requests).0 _ w.store).0
              (request net (λ fault now. lease c.frontier classify fault now) w).1
              (one_call w.requests (leases (net w.requests).1) w.store tt))
      ]

  -- Whatever turns a worker's loop takes, what it does to the keyspace is a history of allowed
  -- calls.
  pub worker_loop-Calls :
      (limit : ℕ) (turns : List Turn) (f : WorkerFailures) (w : World R)
      → Calls w.store (worker_loop net c limit turns f w).store
  unfolding worker_loop
  worker_loop-Calls limit [] f w = no_call w.store
  worker_loop-Calls limit (turn ∷ turns) f w =
      rounds (worker_turn net c limit turn f w) (worker_turn-Calls limit turn f w)
        (worker_loop-Calls limit turns)
    where
      rounds :
          (r : After R)
          → Calls w.store r.2.store
          → ((g : WorkerFailures) (v : World R)
              → Calls v.store (worker_loop net c limit turns g v).store)
          → Calls w.store (go_round net c (worker_loop net c limit turns) r).store
      rounds (true, g, v) so_far rest = then_call w.store v.store _ so_far (rest g v)
      rounds (false, g, v) so_far rest = so_far

-- Where a history of allowed calls from a flushed keyspace came before, and through whatever turns a
-- worker's loop then takes, with requests refused and replies lost: no member stands in two places,
-- no URL has two live jobs, the members in processing are the ones with a lease, and a listing with
-- a live job has the pending score.
pub worker_loop_correct :
    (R : Redis) (c : Settings) (net : Net) (limit : ℕ) (turns : List Turn) (f : WorkerFailures)
    (w : World R) (before : List (Option Fault × Call)) (s : Store R)
    → IsCleanNet net
    → IsFlushed R c.frontier (some (new_url_classifier c)) s
    → AllAllowed R c.frontier (some (new_url_classifier c)) before
    → run R c.frontier (some (new_url_classifier c)) before s ≡ w.store
    → IsSound R c.frontier (some (new_url_classifier c)) (worker_loop net c limit turns f w).store
worker_loop_correct R c net limit turns f w before s clean flushed ok came =
    let (cs, allowed, same) =
      then_call R c net clean s w.store (worker_loop net c limit turns f w).store (before, ok, came)
        (worker_loop-Calls R c net clean limit turns f w) in
    subst (IsSound R c.frontier (some (new_url_classifier c))) same
      (run_correct R c.frontier (some (new_url_classifier c)) cs s allowed flushed)
