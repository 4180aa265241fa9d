-- ===== src/Tests/Crawler.antt =====
-- The worker's theorems at concrete inputs.
use gfap.Base.{◌≡◌, ◌⊎◌, refl, [], ◌∷◌, List, Option, none, some, false, arith, if◌then◌else◌}
use gfap.Text.Search.{contains}
use gfap.Redis.Model.{model}
use gfap.Video.{match}
use gfap.Frontier.Client.{Fault, class_of}
use gfap.Frontier.History.{IsSound, Call, admits_listing, run}
use gfap.Crawler.{World, Net, PageOutcome, page_video, new_url_classifier}
use gfap.Crawler.Page.{outcome}
use gfap.Crawler.Failures.{no_failures}
use gfap.Crawler.Worker.{Turn, worker_loop, handle_outcome}
use gfap.Crawler.Refinement.{worker_loop_correct}
use gfap.Crawler.Released.{handle_outcome_releases}
use gfap.Crawler.Stored.{find, handle_outcome-Counts}
use gfap.Tests.{flushed, leased_store, video_job, user_url}
use gfap.Tests.Frontier.{flushed-IsFlushed}
use gfap.Tests.Pages.{settings, user_page, library, scraped}

-- Every request goes well, one second after the other.
abbrev quiet : Net
quiet i = (none, 100)

abbrev seeded : List (Option Fault × Call)
seeded = (none, admits_listing 50 user_url) ∷ []

abbrev start : World model
start = record {
  store = run model settings.frontier (some (new_url_classifier settings)) seeded flushed;
  collection = [];
  requests = 0;
  count = 0;
  targets = [];
  stopped = false;
}

abbrev visit : Turn
visit = record {
  cancelled = false;
  limiter_fails = false;
  cancelled_fetch = false;
  response = some user_page;
}

worker_loop_correct_example :
    IsSound model settings.frontier
      (some (new_url_classifier settings))
      (worker_loop quiet settings 0 (visit ∷ visit ∷ []) no_failures start).store
unfolding class_of new_url_classifier contains
worker_loop_correct_example =
    worker_loop_correct model settings quiet 0 (visit ∷ visit ∷ []) no_failures start seeded flushed
      (λ i. (tt, omega arith))
      (flushed-IsFlushed settings.frontier (some (new_url_classifier settings)))
      ((tt, (refl, omega arith)), tt) refl

abbrev at_work : World model
at_work = record start { store = leased_store }

-- The video's page, with a link to the user.
abbrev found : PageOutcome
found = record (outcome page_video []) {
  video = match library settings.cutoff scraped;
  links = user_url ∷ [];
}

handle_outcome_releases_example :
    model.zscore
      (handle_outcome quiet settings video_job found at_work).1.store.lease
      video_job.member
    ≡ none
unfolding model
handle_outcome_releases_example =
    handle_outcome_releases model settings quiet (λ i. refl) video_job 700 found at_work refl

handle_outcome-Counts_example :
    let (stored, t) = handle_outcome quiet settings video_job found at_work in
    ((stored ≡ false) × (t.count ≡ 0) × (t.targets ≡ []))
    ⊎ ((page_video ≡ page_video)
        × (find found.video.url t.collection ≡ some found.video)
        × (t.count ≡ 1)
        × (t.targets ≡ (if found.video.is_target then found.video ∷ [] else [])))
handle_outcome-Counts_example = handle_outcome-Counts model settings quiet video_job found at_work
