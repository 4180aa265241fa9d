-- ===== src/Frontier/History.antt =====
-- Histories of the frontier: calls of its methods (internal/storage/frontier.go), in any order and
-- by any number of workers and reconcilers, as the crawler makes them. Redis runs one script at a
-- time, so a history is a sequence. A request may be refused or its reply lost; no command raises
-- an error inside a script here (Frontier/Loss is about those).
use gfap.Base.{
  ℕ, ◌≡◌, ◌≤◌, ◌<◌, refl, Bool, true, false, Option, none, some, arith, List, [], ◌∷◌, All, inl,
  inr, Option-cases,
}
use gfap.Text.{Text}
use gfap.Text.Member.{url_of}
use gfap.Redis.{Redis}
use gfap.Redis.Lists.{occurs}
use gfap.Frontier.{
  Store, FrontierConfig, FailClass, UrlClass, class_video, class_listing, class_seed, pending_score,
}
use gfap.Frontier.Live.{live, scored, scored-none}
use gfap.Frontier.Script.{Script}
use gfap.Frontier.Client.{
  Fault, refused, lost, raised, Time, run_script, class_of, job_of, quarantine_until, unix_or_zero,
  admit_video, admit_listing, seed_listing, lease, ack, nack, fail, terminal, complete_listing,
  reap, sweep, promote, run_listing_scheduler, zadd_next_nx, url-job_of, member-job_of,
  class-job_of,
}
use gfap.Frontier.Invariant.{Inv, moved-Inv, Claimed-of}
use gfap.Frontier.Invariant.Resolve.{
  ack-Inv, nack-Inv, complete_listing-Inv, terminal-Inv, fail-Inv, lease-Inv,
}
use gfap.Frontier.Invariant.Admit.{admit_video-Inv, admit_listing-Inv}
use gfap.Frontier.Invariant.Reap.{reap_correct}
use gfap.Frontier.Invariant.Promote.{promote_correct}
use gfap.Frontier.Invariant.Sweep.{sweep_idle}
use gfap.Frontier.Invariant.Schedule.{schedule_correct}

-- A call, with the clock's seconds. Jobs are named by the member that Lease returned.
pub data Call : Type 0 where
  admits_video admits_listing : ℕ → Text → Call
  seeds acks nacks : Text → Call
  leases reaps promotes schedules : ℕ → Call
  sweeps : Call
  fails_job : ℕ → Text → FailClass → Call
  terminates : Text → Text → Time → Call
  completes : ℕ → Text → ℕ → Call

-- What comes of a request when no command of a script fails.
abbrev pub IsClean : Option Fault → Type 0
IsClean none = Unit
IsClean (some refused) = Unit
IsClean (some lost) = Unit
IsClean (some (raised n)) = ⊥

abbrev pub video_class : UrlClass → Bool
video_class class_video = true
video_class class_listing = false
video_class class_seed = false

run_script-keeps :
    {R : Redis} {A : Type 0} (P : Store R → Type 0) (fault : Option Fault) (m : Script R A)
    (s : Store R)
    → IsClean fault
    → P s
    → P (m none s).1
    → P (run_script fault m s).1
unfolding run_script
run_script-keeps P none m s c before after = after
run_script-keeps P (some refused) m s c before after = before
run_script-keeps P (some lost) m s c before after = after
run_script-keeps P (some (raised n)) m s c before after = absurd c

module _ (R : Redis) (cfg : FrontierConfig) (classify : Option (Text → UrlClass)) where
  open R use {zscore, zadd, zscore-zadd}

  abbrev pub is_video : Text → Bool
  is_video url = video_class (class_of classify url)

  -- How the crawler calls: videos and listings each by their own admission, before the pending
  -- score; completion for listings; and an end of quarantine for listings only, as untilFor and
  -- quarantineUntil choose it.
  abbrev pub Allowed : Call → Type 0
  Allowed (admits_video now url) = is_video url ≡ true
  Allowed (admits_listing now url) = (is_video url ≡ false) × (now < pending_score)
  Allowed (seeds url) = is_video url ≡ false
  Allowed (schedules now) = now < pending_score
  Allowed (terminates m reason until) = 0 < unix_or_zero until → is_video (url_of m) ≡ false
  Allowed (completes now m new_children) = is_video (url_of m) ≡ false
  Allowed _ = Unit

  unfoldable pub perform : Option Fault → Call → Store R → Store R
  perform fault (admits_video now url) s = (admit_video fault now url s).1
  perform fault (admits_listing now url) s = (admit_listing fault now url s).1
  perform fault (seeds url) s = (seed_listing fault url s).1
  perform fault (leases now) s = (lease cfg classify fault now s).1
  perform fault (acks m) s = (ack fault (job_of classify m) s).1
  perform fault (nacks m) s = (nack fault (job_of classify m) s).1
  perform fault (fails_job now m class) s = (fail cfg fault now (job_of classify m) class s).1
  perform fault (terminates m reason until) s =
      (terminal fault (job_of classify m) reason until s).1
  perform fault (completes now m k) s = (complete_listing cfg fault now (job_of classify m) k s).1
  perform fault (reaps now) s = (reap fault now s).1
  perform fault sweeps s = (sweep fault s).1
  perform fault (promotes now) s = (promote fault now s).1
  perform fault (schedules now) s = (run_listing_scheduler cfg fault now s).1

  unfoldable pub run : List (Option Fault × Call) → Store R → Store R
  unfolding perform
  run [] s = s
  run ((fault, c) ∷ cs) s = run cs (perform fault c s)

  abbrev I : Store R → Type 0
  I = Inv R is_video

  seed-Inv :
      (url : Text) {s : Store R} → is_video url ≡ false → I s → I (zadd_next_nx url 0 none s).1
  unfolding live
  seed-Inv url {s} listing v = elim (Option-cases (zscore s.listing_next url)) [
    | inl absent ↦ rw absent (
        moved-Inv R is_video v
          (record {
            leased = v.leased;
            listed = λ u n h.
                ground (arith, zscore-zadd s.listing_next url 0 u, v.listed u n, listing, h);
          })
          (omega arith) (λ x. refl)
          (λ u.
            Claimed-of R is_video u s _ (λ h. h)
              (λ h. ground (arith, zscore-zadd s.listing_next url 0 u, h, absent))))
    | inr (n, there) ↦ rw there v
  ]

  quarantine-IsListing :
      (now : ℕ) (m : Text)
      → 0 < quarantine_until cfg (job_of classify m).class now
      → is_video (url_of m) ≡ false
  unfolding quarantine_until
  quarantine-IsListing now m h = ground (arith, class-job_of classify m)

  -- Every allowed call keeps the invariant, whether its request is refused, its reply lost, or all
  -- goes well.
  pub perform-Inv :
      (fault : Option Fault) (c : Call) (s : Store R)
      → IsClean fault
      → Allowed c
      → I s
      → I (perform fault c s)
  unfolding perform admit_video admit_listing seed_listing lease ack nack fail terminal
      complete_listing reap sweep promote run_listing_scheduler
  perform-Inv fault (admits_video now url) s clean a v =
      run_script-keeps I fault _ s clean v (admit_video-Inv R is_video url now a v)
  perform-Inv fault (admits_listing now url) s clean a v =
      run_script-keeps I fault _ s clean v (admit_listing-Inv R is_video url now a.0 a.1 v)
  perform-Inv fault (seeds url) s clean a v =
      run_script-keeps I fault _ s clean v (seed-Inv url a v)
  perform-Inv fault (leases now) s clean a v =
      run_script-keeps I fault _ s clean v (lease-Inv R is_video now cfg.lease_timeout v)
  perform-Inv fault (acks m) s clean a v =
      run_script-keeps I fault _ s clean v (ack-Inv R is_video _ _ v)
  perform-Inv fault (nacks m) s clean a v =
      run_script-keeps I fault _ s clean v (rw (url-job_of classify m) (nack-Inv R is_video _ v))
  perform-Inv fault (fails_job now m class) s clean a v = run_script-keeps I fault _ s clean v (
      rw (url-job_of classify m, member-job_of classify m)
        (fail-Inv R is_video m _ _ now _ _ _ (quarantine-IsListing now m) v))
  perform-Inv fault (terminates m reason until) s clean a v = run_script-keeps I fault _ s clean v (
      rw (url-job_of classify m, member-job_of classify m)
        (terminal-Inv R is_video m reason (unix_or_zero until) a v))
  perform-Inv fault (completes now m k) s clean a v = run_script-keeps I fault _ s clean v (
      rw (url-job_of classify m, member-job_of classify m)
        (complete_listing-Inv R is_video m k now _ _ a v))
  perform-Inv fault (reaps now) s clean a v =
      run_script-keeps I fault _ s clean v (reap_correct R is_video now _ s v).0
  perform-Inv fault sweeps s clean a v =
      run_script-keeps I fault _ s clean v (rw (sweep_idle R is_video _ s v) v)
  perform-Inv fault (promotes now) s clean a v =
      run_script-keeps I fault _ s clean v (promote_correct R is_video now _ s v).0
  perform-Inv fault (schedules now) s clean a v =
      run_script-keeps I fault _ s clean v (schedule_correct R is_video now _ s a v).0

  -- A keyspace with nothing in it but, perhaps, the last job id, dead entries and a filter.
  pub record IsFlushed (s : Store R) : Type 0 where
    pub no_jobs : (x : Text) → live R x s ≡ 0
    pub no_leases : (x : Text) → zscore s.lease x ≡ none
    pub no_schedule : (url : Text) → zscore s.listing_next url ≡ none

  flushed-Inv : (s : Store R) → IsFlushed s → I s
  unfolding live
  flushed-Inv s f = record {
    ids = λ x l. absurd (omega (arith, f.no_jobs x));
    once = λ x. omega (arith, f.no_jobs x);
    leased = λ x. omega (arith, f.no_jobs x, scored-none R x s.lease (f.no_leases x));
    sole = λ x y l k e. absurd (omega (arith, f.no_jobs x));
    claims = λ x l. absurd (omega (arith, f.no_jobs x));
    listed = λ u n h. absurd (ground (arith, f.no_schedule u, h));
  }

  abbrev pub AllAllowed : List (Option Fault × Call) → Type 0
  AllAllowed = All (λ c. IsClean c.0 × Allowed c.1)

  run_from-Inv :
      (cs : List (Option Fault × Call)) (s : Store R) → AllAllowed cs → I s → I (run cs s)
  unfolding run
  run_from-Inv [] s a v = v
  run_from-Inv ((fault, c) ∷ cs) s a v =
      run_from-Inv cs (perform fault c s) a.1 (perform-Inv fault c s a.0.0 a.0.1 v)

  -- What a history of allowed calls from a flushed keyspace reaches.
  pub reached-Inv :
      (cs : List (Option Fault × Call)) (s : Store R)
      → AllAllowed cs
      → IsFlushed s
      → Inv R is_video (run cs s)
  reached-Inv cs s a f = run_from-Inv cs s a (flushed-Inv s f)

  -- A member stands in one place at most, two live jobs of one URL are one, the members in
  -- processing are the ones with a lease, and a listing with a live job has the pending score.
  abbrev pub IsSound : Store R → Type 0
  IsSound t =
      ((x : Text) → live R x t ≤ 1)
      × ((x y : Text) → 1 ≤ live R x t → 1 ≤ live R y t → url_of x ≡ url_of y → x ≡ y)
      × ((x : Text) → scored R x t.lease ≡ occurs R x t.processing)
      × ((x : Text)
          → 1 ≤ live R x t
          → is_video (url_of x) ≡ false
          → zscore t.listing_next (url_of x) ≡ some pending_score)

  -- After any history of allowed calls from a flushed keyspace, whatever requests were refused and
  -- whatever replies lost, a member stands in one place at most, two live jobs of one URL are one,
  -- the members in processing are the ones with a lease, and a listing with a live job has the
  -- pending score.
  pub run_correct :
      (cs : List (Option Fault × Call)) (s : Store R)
      → AllAllowed cs
      → IsFlushed s
      → IsSound (run cs s)
  run_correct cs s a f =
      let v = reached-Inv cs s a f in (v.once, v.sole, v.leased, λ x l e. rw e at (v.claims x l))
