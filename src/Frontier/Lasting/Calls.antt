-- ===== src/Frontier/Lasting/Calls.antt =====
-- A lasting property is kept by every history of calls (internal/storage/frontier.go).
use gfap.Base.{Option, none, some, List, [], ◌∷◌, is_some, under_if}
use gfap.Text.{Text}
use gfap.Redis.{Redis}
use gfap.Frontier.{Store, FrontierConfig, UrlClass}
use gfap.Frontier.Script.{Script}
use gfap.Frontier.Client.{
  Fault, refused, lost, raised, run_script, admit_video, admit_listing, seed_listing, zadd_next_nx,
  lease, ack, nack, fail, terminal, complete_listing, reap, sweep, promote, run_listing_scheduler,
}
use gfap.Frontier.History.{
  Call, admits_video, admits_listing, seeds, leases, acks, nacks, fails_job, terminates, completes,
  reaps, sweeps, promotes, schedules, perform, run,
}
use gfap.Frontier.Lasting.{Keeps, Lasting, call-Keeps}
use gfap.Frontier.Lasting.Scripts.{
  ack-Keeps, nack-Keeps, complete_listing-Keeps, terminal-Keeps, fail-Keeps, admit_video-Keeps,
  admit_listing-Keeps, listing_scheduler-Keeps, promote-Keeps, reap-Keeps, sweep-Keeps,
}

module _ {R : Redis} (P : Store R → Type 0) (l : Lasting P) where
  run_script-lasts :
      {A : Type 0} (fault : Option Fault) (m : Script R A) (s : Store R)
      → Keeps P m
      → P s
      → P (run_script fault m s).1
  unfolding run_script
  run_script-lasts none m s h p = h none s p
  run_script-lasts (some refused) m s h p = p
  run_script-lasts (some lost) m s h p = h none s p
  run_script-lasts (some (raised n)) m s h p = h (some n) s p

  seed-Keeps : (url : Text) → Keeps P (zadd_next_nx url 0)
  seed-Keeps url = call-Keeps P _ λ s p.
      under_if P (is_some (R.zscore s.listing_next url)) (λ h. p)
        (λ h.
          l.others s s.dead s.attempts s.strikes s.listing_barren (R.zadd s.listing_next url 0) p)

  module _ (cfg : FrontierConfig) (classify : Option (Text → UrlClass)) where
    perform-lasts :
        (fault : Option Fault) (c : Call) (s : Store R) → P s → P (perform R cfg classify fault c s)
    unfolding perform admit_video admit_listing seed_listing lease ack nack fail terminal
        complete_listing reap sweep promote run_listing_scheduler
    perform-lasts fault (admits_video now url) s p =
        run_script-lasts fault _ s (admit_video-Keeps P l url now) p
    perform-lasts fault (admits_listing now url) s p =
        run_script-lasts fault _ s (admit_listing-Keeps P l url now) p
    perform-lasts fault (seeds url) s p = run_script-lasts fault _ s (seed-Keeps url) p
    perform-lasts fault (leases now) s p =
        run_script-lasts fault _ s (l.leased now cfg.lease_timeout) p
    perform-lasts fault (acks m) s p = run_script-lasts fault _ s (ack-Keeps P l _ _) p
    perform-lasts fault (nacks m) s p = run_script-lasts fault _ s (nack-Keeps P l _ _) p
    perform-lasts fault (fails_job now m class) s p =
        run_script-lasts fault _ s (fail-Keeps P l _ _ _ _ _ _ _ _) p
    perform-lasts fault (terminates m reason until) s p =
        run_script-lasts fault _ s (terminal-Keeps P l _ _ _ _) p
    perform-lasts fault (completes now m k) s p =
        run_script-lasts fault _ s (complete_listing-Keeps P l _ _ _ _ _ _) p
    perform-lasts fault (reaps now) s p = run_script-lasts fault _ s (reap-Keeps P l now _) p
    perform-lasts fault sweeps s p = run_script-lasts fault _ s (sweep-Keeps P l _) p
    perform-lasts fault (promotes now) s p = run_script-lasts fault _ s (promote-Keeps P l now _) p
    perform-lasts fault (schedules now) s p =
        run_script-lasts fault _ s (listing_scheduler-Keeps P l now _) p

    -- Whatever calls come, and whatever becomes of their requests and scripts.
    pub run-lasts :
        (cs : List (Option Fault × Call)) (s : Store R) → P s → P (run R cfg classify cs s)
    unfolding run
    run-lasts [] s p = p
    run-lasts ((fault, c) ∷ cs) s p =
        run-lasts cs (perform R cfg classify fault c s) (perform-lasts fault c s p)
