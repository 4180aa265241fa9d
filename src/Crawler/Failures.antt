-- ===== src/Crawler/Failures.antt =====
-- workerFailures (internal/crawler/worker.go): what a worker counts of its own fetches.
use gfap.Base.{
  ℕ, ◌+◌, ◌≡◌, ◌≤◌, refl, arith, Bool, true, false, List, [], ◌∷◌, if◌then◌else◌, ap, ◌∙◌,
}
use gfap.Frontier.{FailClass, fail_rate_limited, fail_strikeable}
use gfap.Crawler.{
  PageKind, page_video, page_listing, page_not_found, page_retryable, page_unknown, page_cancelled,
  page_invalid_response, PageOutcome,
}

pub record WorkerFailures : Type 0 where
  pub consecutive : ℕ
  pub rate_limited : ℕ
  pub consecutive_rate_limited : ℕ

abbrev pub no_failures : WorkerFailures
no_failures = record { consecutive = 0; rate_limited = 0; consecutive_rate_limited = 0 }

abbrev pub is_rate_limited : PageKind → FailClass → Bool
is_rate_limited page_retryable fail_rate_limited = true
is_rate_limited page_retryable fail_strikeable = false
is_rate_limited page_video class = false
is_rate_limited page_listing class = false
is_rate_limited page_not_found class = false
is_rate_limited page_unknown class = false
is_rate_limited page_cancelled class = false
is_rate_limited page_invalid_response class = false

abbrev observe_rate_limit : PageOutcome → WorkerFailures → WorkerFailures
observe_rate_limit out f = record f {
  consecutive_rate_limited =
      if is_rate_limited out.kind out.fail_class then f.consecutive_rate_limited + 1 else 0;
}

abbrev succeeded : WorkerFailures → WorkerFailures
succeeded f = record f { consecutive = 0; rate_limited = 0 }

abbrev failed : PageOutcome → WorkerFailures → WorkerFailures
failed out f = record f {
  consecutive = f.consecutive + 1;
  rate_limited =
      if is_rate_limited out.kind out.fail_class then f.rate_limited + 1 else f.rate_limited;
}

abbrev observe_kind : PageKind → PageOutcome → WorkerFailures → WorkerFailures
observe_kind page_cancelled out f = f
observe_kind page_video out f = succeeded (observe_rate_limit out f)
observe_kind page_listing out f = succeeded (observe_rate_limit out f)
observe_kind page_not_found out f = succeeded (observe_rate_limit out f)
observe_kind page_retryable out f = failed out (observe_rate_limit out f)
observe_kind page_unknown out f = failed out (observe_rate_limit out f)
observe_kind page_invalid_response out f = failed out (observe_rate_limit out f)

unfoldable pub observe : PageOutcome → WorkerFailures → WorkerFailures
observe out f = observe_kind out.kind out f

-- The failures after outcomes, the last one first.
unfoldable pub observed : List PageOutcome → WorkerFailures
unfolding observe
observed [] = no_failures
observed (out ∷ before) = observe out (observed before)

pub data Verdict : Type 0 where
  passed_over extends breaks : Verdict

abbrev verdict : PageKind → FailClass → Verdict
verdict page_cancelled class = passed_over
verdict page_retryable fail_rate_limited = extends
verdict page_retryable fail_strikeable = breaks
verdict page_video class = breaks
verdict page_listing class = breaks
verdict page_not_found class = breaks
verdict page_unknown class = breaks
verdict page_invalid_response class = breaks

abbrev counting : Verdict → ℕ → ℕ
counting passed_over n = n
counting extends n = n + 1
counting breaks n = 0

-- The rate-limited pages at the end of a worker's outcomes, with the cancelled ones left out.
abbrev pub rate_limit_streak : List PageOutcome → ℕ
rate_limit_streak [] = 0
rate_limit_streak (out ∷ before) =
    counting (verdict out.kind out.fail_class) (rate_limit_streak before)

abbrev Ordered : WorkerFailures → Type 0
Ordered f = (f.rate_limited ≤ f.consecutive) × (f.consecutive_rate_limited ≤ f.rate_limited)

abbrev Steps : PageKind → FailClass → PageOutcome → WorkerFailures → Type 0
Steps kind class out f =
    let g = observe_kind kind out f in
    (g.consecutive_rate_limited ≡ counting (verdict kind class) f.consecutive_rate_limited)
    × Ordered g

step :
    (kind : PageKind) (class : FailClass) (out : PageOutcome) (f : WorkerFailures)
    → out.kind ≡ kind
    → out.fail_class ≡ class
    → Ordered f
    → Steps kind class out f
step page_video class out f e c (l, k) = rw e (refl, (omega arith, omega arith))
step page_listing class out f e c (l, k) = rw e (refl, (omega arith, omega arith))
step page_not_found class out f e c (l, k) = rw e (refl, (omega arith, omega arith))
step page_retryable fail_rate_limited out f e c (l, k) =
    rw (e, c) (refl, (omega (arith, l), omega (arith, k)))
step page_retryable fail_strikeable out f e c (l, k) =
    rw (e, c) (refl, (omega (arith, l), omega arith))
step page_unknown class out f e c (l, k) = rw e (refl, (omega (arith, l), omega arith))
step page_cancelled class out f e c (l, k) = (refl, (l, k))
step page_invalid_response class out f e c (l, k) = rw e (refl, (omega (arith, l), omega arith))

-- After any outcomes, the worker's count of rate limits is the length of the run of rate-limited
-- pages that they end in, which cancelled fetches do not break; it does not exceed the count of
-- rate-limited pages since the last success, nor that the count of failures.
pub observed_correct :
    (outs : List PageOutcome)
    → ((observed outs).consecutive_rate_limited ≡ rate_limit_streak outs)
      × ((observed outs).rate_limited ≤ (observed outs).consecutive)
      × ((observed outs).consecutive_rate_limited ≤ (observed outs).rate_limited)
unfolding observed observe
observed_correct [] = (refl, omega arith, omega arith)
observed_correct (out ∷ before) =
    let (same, l, k) = observed_correct before in
    let (counts, ordered) = step out.kind out.fail_class out (observed before) refl refl (l, k) in
    (counts ∙ ap (counting (verdict out.kind out.fail_class)) same, ordered.0, ordered.1)
