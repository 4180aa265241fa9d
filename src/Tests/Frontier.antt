-- ===== src/Tests/Frontier.antt =====
-- The frontier's theorems at concrete inputs: histories, lost commands and the fence.
use gfap.Base.{
  count-nil, count-cons, ◌≡◌, ◌⊎◌, refl, [], ◌∷◌, List, Option, none, some, true, arith,
}
use gfap.Text.{Text, codes, dec_text}
use gfap.Text.Member.{url_of, member}
use gfap.Redis.Model.{model}
use gfap.Redis.Lists.{occurs}
use gfap.Frontier.{Store, Job, class_listing, FrontierConfig, default_frontier_config, UrlClass}
use gfap.Frontier.Live.{live, scored-none}
use gfap.Frontier.Script.Admit.{lua_admit_listing}
use gfap.Frontier.Script.Resolve.{lua_lease, lua_nack, lua_fail, lua_terminal}
use gfap.Frontier.Script.Reconcile.{lua_reap, lua_sweep, lua_promote}
use gfap.Frontier.History.{
  run, is_video, reached-Inv, Call, admits_listing, leases, acks, reaps, AllAllowed, IsFlushed,
  IsSound, run_correct,
}
use gfap.Frontier.Loss.{HasJob, moves-HasJob}
use gfap.Frontier.Loss.Resolved.{terminal-HasJob, Buried}
use gfap.Frontier.Loss.Failed.{Resolved, fail-HasJob}
use gfap.Frontier.Fence.{resolve, acks, nacks, resolve_twice}
use gfap.Frontier.Invariant.{Inv}
use gfap.Frontier.Client.{
  lease, admit_listing, class_of, Fault, lost, refused, returns, fails, stale_lease,
}
use gfap.Tests.{flushed, user_url, video_url, video_job, leased_store}

abbrev pub history : List (Option Fault × Call)
history =
    (none, admits_listing 100 user_url)
    ∷ (some lost, admits_listing 101 user_url)
    ∷ (none, leases 102)
    ∷ (some refused, reaps 800)
    ∷ (none, reaps 801)
    ∷ []

pub flushed-IsFlushed :
    (cfg : FrontierConfig) (classify : Option (Text → UrlClass))
    → IsFlushed model cfg classify flushed
unfolding model live occurs
flushed-IsFlushed cfg classify = record {
  no_jobs = λ x. omega (arith, count-nil dec_text x, scored-none model x [] refl);
  no_leases = λ x. refl;
  no_schedule = λ x. refl;
}

pub history-AllAllowed : AllAllowed model default_frontier_config none history
unfolding class_of
history-AllAllowed =
    ((tt, (refl, omega arith)), ((tt, (refl, omega arith)), ((tt, tt), ((tt, tt), ((tt, tt), tt)))))

run_correct_example :
    IsSound model default_frontier_config none
      (run model default_frontier_config none history flushed)
run_correct_example =
    run_correct model default_frontier_config none history flushed history-AllAllowed
      (flushed-IsFlushed default_frontier_config none)

video-HasJob : HasJob model video_url leased_store
unfolding model live occurs url_of
video-HasJob = (
  video_job.member,
  ground (arith, count-cons dec_text video_job.member video_job.member []),
  refl,
)

moves-HasJob_example :
    HasJob model video_url (lua_lease 800 600 (some 1) leased_store).1
    × HasJob model video_url
        (lua_nack video_job.member (url_of video_job.member) (some 1) leased_store).1
    × HasJob model video_url (lua_reap 800 600 (some 1) leased_store).1
    × HasJob model video_url (lua_sweep 600 (some 1) leased_store).1
    × HasJob model video_url (lua_promote 800 600 (some 1) leased_store).1
moves-HasJob_example =
    moves-HasJob model video_url video_job.member 800 600 (some 1) leased_store video-HasJob

terminal-HasJob_example :
    let t =
      (lua_terminal video_job.member
        (url_of video_job.member)
        (codes "404")
        0
        (some 2)
        leased_store).1 in
    HasJob model video_url t ⊎ ((url_of video_job.member ≡ video_url) × Buried model video_url t)
terminal-HasJob_example =
    terminal-HasJob model video_url video_job.member (codes "404") 0 (some 2) leased_store
      video-HasJob

fail-HasJob_example :
    Resolved model video_url video_job.member
      (lua_fail video_job.member
        (url_of video_job.member)
        true
        5
        200
        (codes "x")
        0
        (60 ∷ [])
        (some 4)
        leased_store).1
fail-HasJob_example =
    fail-HasJob model video_url video_job.member true 5 200 (codes "x") 0 (60 ∷ []) (some 4)
      leased_store video-HasJob

-- The job of the listing after its admission and lease.
abbrev admitted_job : Job
admitted_job = record {
  id = codes "1";
  url = user_url;
  class = class_listing;
  member = codes "1|https://www.vidlii.com/user/rinko";
}

abbrev to_lease : List (Option Fault × Call)
to_lease = (none, admits_listing 100 user_url) ∷ (none, leases 102) ∷ []

abbrev leased_listing : Store model
leased_listing = run model default_frontier_config none to_lease flushed

leased_listing-Inv : Inv model (is_video model default_frontier_config none) leased_listing
unfolding class_of
leased_listing-Inv =
    reached-Inv model default_frontier_config none to_lease flushed
      ((tt, (refl, omega arith)), ((tt, tt), tt)) (flushed-IsFlushed default_frontier_config none)

-- Nack gives the URL back, and it is leased again before the second call.
resolve_twice_example :
    let first = resolve model default_frontier_config none 103 admitted_job nacks leased_listing in
    let t =
      run model default_frontier_config none
        ((some lost, reaps 801) ∷ (none, leases 802) ∷ [])
        first.1 in
    (first.0 ≡ returns tt)
    × (resolve model default_frontier_config none 803 admitted_job acks t
        ≡ (fails stale_lease, record t { lease = model.zrem t.lease admitted_job.member }))
unfolding model run lease lua_lease admit_listing lua_admit_listing member
resolve_twice_example =
    resolve_twice model default_frontier_config none 103 702 803 admitted_job nacks acks
      ((some lost, reaps 801) ∷ (none, leases 802) ∷ []) leased_listing leased_listing-Inv refl
