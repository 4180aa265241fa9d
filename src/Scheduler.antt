-- ===== src/Scheduler.antt =====
-- The scheduler's ticks (internal/scheduler/scheduler.go): the drain loop of the listing scheduler,
-- and the counts of the others.
pub mod Drain
use gfap.Base.{ℕ, zero, suc, ◌+◌, Option, none, some, ltb, if◌then◌else◌}
use gfap.Redis.{Redis}
use gfap.Frontier.{Store, FrontierConfig}
use gfap.Frontier.Client.{
  Fault, Result, returns, fails, run_listing_scheduler, promote, reap, sweep,
}

-- The counters that the reconcilers increase.
pub record Metrics : Type 0 where
  pub reconcile_errors : ℕ
  pub listings_admitted_total : ℕ
  pub promoted_total : ℕ
  pub reaped_total : ℕ
  pub swept_total : ℕ

abbrev pub count_error : Metrics → Metrics
count_error m = record m { reconcile_errors = m.reconcile_errors + 1 }

abbrev pub count_listings : ℕ → Metrics → Metrics
count_listings n m = record m { listings_admitted_total = m.listings_admitted_total + n }

-- A tick of a reconciler that runs once: its error, or its number.
abbrev pub counted : Result ℕ → (ℕ → Metrics → Metrics) → Metrics → Metrics
counted (fails e) add m = count_error m
counted (returns n) add m = add n m

module _ {R : Redis} (cfg : FrontierConfig) (limit : ℕ) (net : ℕ → Option Fault × ℕ) where
  -- The loop of a tick of runListingScheduler, from its i-th call on, or `none` where the fuel does
  -- not last.
  unfoldable pub drain : ℕ → ℕ → Metrics → Store R → Option Metrics × Store R
  unfolding run_listing_scheduler
  drain zero i m s = (none, s)
  drain (suc fuel) i m s =
      let (r, t) = run_listing_scheduler cfg (net i).0 (net i).1 s in
      elim r [
        | fails e ↦ (some (count_error m), t)
        | returns n ↦
            let rest = drain fuel (i + 1) (count_listings n m) t in
            if ltb n limit then (some (count_listings n m), t) else rest
      ]

  -- A tick of runPromoter, runReaper and runSweeper: the metrics and the keyspace after it.
  unfoldable pub promoter_tick : ℕ → Metrics → Store R → Metrics × Store R
  unfolding promote
  promoter_tick i m s =
      let (r, t) = promote (net i).0 (net i).1 s in
      (counted r (λ n m. record m { promoted_total = m.promoted_total + n }) m, t)

  unfoldable pub reaper_tick : ℕ → Metrics → Store R → Metrics × Store R
  unfolding reap
  reaper_tick i m s =
      let (r, t) = reap (net i).0 (net i).1 s in
      (counted r (λ n m. record m { reaped_total = m.reaped_total + n }) m, t)

  unfoldable pub sweeper_tick : ℕ → Metrics → Store R → Metrics × Store R
  unfolding sweep
  sweeper_tick i m s =
      let (r, t) = sweep (net i).0 s in
      (counted r (λ n m. record m { swept_total = m.swept_total + n }) m, t)
