-- ===== src/Tests/Policies.antt =====
-- The theorems on single calls of the frontier, at concrete inputs.
use gfap.Base.{
  ℕ, ◌+◌, ◌*◌, ◌≡◌, ◌≤◌, ◌<◌, refl, [], ◌∷◌, none, some, true, arith, min, ap, zero, suc, inr,
  count-nil, List, Option,
}
use gfap.Text.{Text, codes, dec_text}
use gfap.Text.Member.{member}
use gfap.Redis.Model.{model}
use gfap.Frontier.{
  Store, DeadEntry, default_frontier_config, pending_score, fail_strikeable, fail_rate_limited,
  delayed, dead, suppressed, new, due_revisit,
}
use gfap.Frontier.Live.{live}
use gfap.Frontier.Script.Admit.{lua_admit_video}
use gfap.Frontier.Script.Resolve.{listing_ttl}
use gfap.Frontier.Client.{
  returns, fail, complete_listing, admit_video, admit_listing, idle, base_ttl, Fault, refused,
}
use gfap.Frontier.Policy.{
  wait, strikes_after, Buried, listing_ttl_correct, fail_delays, fail_buries,
  complete_listing_correct,
}
use gfap.Frontier.Ban.{ban_refuses}
use gfap.Frontier.Fence.{resolve, failed}
use gfap.Frontier.History.{run, Call, reaps, leases}
use gfap.Redis.Lists.{occurs}
use mathlib.Core.Option.{some-injective}
use gfap.Frontier.Admission.{admit_video_once, admit_listing_correct, idle_correct}
use gfap.Tests.{flushed, user_url, video_url, video_job, leased_store, listing_job, listing_store}

listing_ttl_correct_example :
    (listing_ttl 259200 1814400 2 ≤ 1814400)
    × (listing_ttl 259200 1814400 0 ≡ min 259200 1814400)
    × (listing_ttl 259200 1814400 3 ≡ min (2 * listing_ttl 259200 1814400 2) 1814400)
listing_ttl_correct_example = listing_ttl_correct 259200 1814400 2

fail_delays_example :
    let (r, t) = fail default_frontier_config none 200 video_job fail_rate_limited leased_store in
    (r ≡ returns delayed)
    × (model.zscore t.delayed (member (leased_store.seq + 1) video_url)
        ≡ some (200 + wait (300 ∷ 900 ∷ 2700 ∷ []) 1))
    × (model.hget t.attempts video_url ≡ some 1)
    × (model.hget t.strikes video_url
        ≡ strikes_after fail_rate_limited (model.hget leased_store.strikes video_url))
    × (t.processing ≡ model.lrem leased_store.processing video_job.member)
    × (t.ready ≡ leased_store.ready)
    × (t.dead ≡ leased_store.dead)
    × (t.listing_next ≡ leased_store.listing_next)
unfolding model
fail_delays_example =
    fail_delays model default_frontier_config 200 700 video_job leased_store fail_rate_limited refl
      (omega arith) refl

-- The listing's keyspace with four strikes.
abbrev struck_store : Store model
unfolding model
struck_store = record listing_store { strikes = (user_url, 4) ∷ [] }

fail_buries_example :
    let (r, t) = fail default_frontier_config none 200 listing_job fail_strikeable struck_store in
    (r ≡ returns dead)
    × Buried model default_frontier_config 200 700 listing_job struck_store listing_job.class t
    × (model.hget t.attempts user_url ≡ none)
    × (model.hget t.strikes user_url ≡ none)
    × (t.processing ≡ model.lrem struck_store.processing listing_job.member)
    × (t.ready ≡ struck_store.ready)
    × (t.delayed ≡ struck_store.delayed)
unfolding model
fail_buries_example =
    fail_buries model default_frontier_config 200 700 listing_job struck_store fail_strikeable
      (omega arith) refl refl

complete_listing_correct_example :
    let (r, t) = complete_listing default_frontier_config none 200 listing_job 0 listing_store in
    (r ≡ returns tt)
    × (model.zscore t.listing_next user_url
        ≡ some (200 + listing_ttl (base_ttl default_frontier_config listing_job.class) 1814400 1))
    × (model.hget t.listing_barren user_url ≡ some 1)
    × (model.hget t.dead user_url ≡ none)
    × (model.hget t.attempts user_url ≡ none)
    × (model.hget t.strikes user_url ≡ none)
    × (t.processing ≡ model.lrem listing_store.processing listing_job.member)
    × (t.ready ≡ listing_store.ready)
    × (t.delayed ≡ listing_store.delayed)
unfolding model
complete_listing_correct_example =
    complete_listing_correct model default_frontier_config 200 700 listing_job listing_store 0 refl

ban_refuses_example :
    let t =
      (resolve model default_frontier_config none 200 listing_job
        (failed fail_strikeable)
        struck_store).1 in
    (admit_video none 300 user_url t ≡ (returns suppressed, t))
    × (admit_listing none 300 user_url t ≡ (returns suppressed, t))
unfolding model
ban_refuses_example =
    ban_refuses model default_frontier_config 200 listing_job struck_store 700 605000 300
      (failed fail_strikeable) refl refl (inr (omega arith))

-- Calls of other clients: one that is refused, and a lease.
abbrev others : List (Option Fault × Call)
others = (some refused, reaps 350) ∷ (none, leases 360) ∷ []

admit_video_once_example :
    let t =
      run model default_frontier_config none others (admit_video none 300 video_url flushed).1 in
    let u = admit_video none 400 video_url t in
    (u.0 ≡ returns suppressed) × ((x : Text) → live model x u.1 ≡ live model x t)
unfolding model admit_video lua_admit_video
admit_video_once_example =
    admit_video_once model default_frontier_config none 300 400 video_url others flushed refl

-- A dead entry of the listing that ran out at 250, with the listing due.
abbrev over_store : Store model
unfolding model
over_store = record listing_store {
  dead = (user_url, record { reason = codes "404"; until = 250 }) ∷ [];
  listing_next = (user_url, 250) ∷ [];
}

over_entry :
    (d : DeadEntry) → model.hget over_store.dead user_url ≡ some d → (1 ≤ d.until) × (d.until ≤ 300)
unfolding model
over_entry d e =
    let until =
      ap DeadEntry.until (some-injective (record { reason = codes "404"; until = 250 }) d e) in
    (omega (arith, until), omega (arith, until))

admit_listing_correct_example :
    let (r, t) = admit_listing none 300 user_url over_store in
    let fresh = member 2 user_url in
    (model.hget t.dead user_url ≡ none)
    × ((n : ℕ)
        → model.zscore over_store.listing_next user_url ≡ some n
        → 300 < n
        → (r ≡ returns suppressed) × (t ≡ record over_store { dead = t.dead }))
    × ((n : ℕ)
        → model.zscore over_store.listing_next user_url ≡ some n
        → n ≤ 300
        → (r ≡ returns due_revisit)
          × (t.ready ≡ model.lpush over_store.ready fresh)
          × (model.zscore t.listing_next user_url ≡ some pending_score))
    × (model.zscore over_store.listing_next user_url ≡ none
        → (r ≡ returns new)
          × (t.ready ≡ model.lpush over_store.ready fresh)
          × (model.zscore t.listing_next user_url ≡ some pending_score))
unfolding model
admit_listing_correct_example = admit_listing_correct model 300 user_url over_store over_entry

-- The job is acked between the second read and the third.
abbrev acked_meanwhile : ℕ → Store model
acked_meanwhile zero = leased_store
acked_meanwhile (suc zero) = leased_store
acked_meanwhile (suc (suc i)) = flushed

idle_correct_example :
    (idle none acked_meanwhile ≡ returns true → (x : Text) → live model x flushed ≡ 0)
    × (((i : ℕ) (x : Text) → i < 3 → live model x (acked_meanwhile i) ≡ 0)
        → idle none acked_meanwhile ≡ returns true)
unfolding occurs model
idle_correct_example = idle_correct model acked_meanwhile ready_falls rest_falls
  where
    ready_falls :
        (i : ℕ) (x : Text)
        → i < 2
        → occurs model x (acked_meanwhile (i + 1)).ready ≤ occurs model x (acked_meanwhile i).ready
    ready_falls zero x l = omega arith
    ready_falls (suc zero) x l = omega arith
    ready_falls (suc (suc i)) x l = absurd (omega (arith, l))

    rest_falls :
        (i : ℕ) (x : Text)
        → i < 2
        → occurs model x (acked_meanwhile (i + 1)).ready
            + occurs model x (acked_meanwhile (i + 1)).processing
          ≤ occurs model x (acked_meanwhile i).ready + occurs model x (acked_meanwhile i).processing
    rest_falls zero x l = omega arith
    rest_falls (suc zero) x l = omega (arith, count-nil dec_text x)
    rest_falls (suc (suc i)) x l = absurd (omega (arith, l))
