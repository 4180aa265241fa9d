-- ===== src/Frontier/Policy.antt =====
-- Retry, strike and revisit policy: what Fail and CompleteListing do with a leased job.
use gfap.Base.{
  ℕ, zero, suc, ◌+◌, ◌-◌, ◌*◌, ◌^◌, ◌≡◌, ◌≤◌, ◌<◌, refl, Bool, true, false, Option, none, some,
  arith, List, [], ◌∷◌, leb, ltb, or_zero, Bool-cases, inl, inr, min, length, get_elem?,
}
use gfap.Text.{Text, codes}
use gfap.Text.Member.{member}
use gfap.Redis.{Redis}
use gfap.Frontier.{
  Store, Job, FrontierConfig, delayed, dead, FailClass, fail_rate_limited, fail_strikeable,
  UrlClass, class_video, class_listing, class_seed,
}
use gfap.Frontier.Script.Resolve.{
  count_barren, set_quarantine, count_strikes, bury, delay_job, lua_fail, lua_complete_listing,
  listing_ttl, backoff_at,
}
use gfap.Frontier.Client.{
  returns, run_script, fail, complete_listing, ladder, quarantine_until, base_ttl,
}

-- The last strike: a strikeable failure that brings the strikes to the maximum.
abbrev pub exhausted : FrontierConfig → FailClass → ℕ → Bool
exhausted cfg fail_rate_limited strikes = false
exhausted cfg fail_strikeable strikes = leb cfg.max_strikes (strikes + 1)

-- The strikes after a failure that is not the last strike.
abbrev pub strikes_after : FailClass → Option ℕ → Option ℕ
strikes_after fail_rate_limited strikes = strikes
strikes_after fail_strikeable strikes = some (or_zero strikes + 1)

-- The wait after the given number of attempts: the ladder's entries in order, then the last.
abbrev pub wait : List ℕ → ℕ → ℕ
wait steps attempts = or_zero (get_elem? steps (min attempts (length steps) - 1))

backoff-ladder :
    (until : ℕ) (steps : List ℕ) (attempts : ℕ)
    → 1 ≤ attempts
    → 1 ≤ length steps
    → backoff_at until steps (min attempts (length steps)) ≡ wait steps attempts
unfolding backoff_at
backoff-ladder until steps zero pos some_step = elim pos [ ]
backoff-ladder until [] (suc n) pos some_step = elim some_step [ ]
backoff-ladder until (step ∷ steps) (suc n) pos some_step =
    rw (min_suc n (length steps), pred_suc (min n (length steps))) refl
  where
    min_suc : (a b : ℕ) → min (suc a) (suc b) ≡ suc (min a b)
    min_suc a b = omega arith

    pred_suc : (a : ℕ) → suc a - 1 ≡ a
    pred_suc a = omega arith

pow_double : (base n : ℕ) → base * 2 ^ suc n ≡ 2 * (base * 2 ^ n)
pow_double base n = rw (double n) (omega arith)
  where
    double : (k : ℕ) → 2 ^ suc k ≡ 2 * 2 ^ k
    double k = omega arith

-- The interval between visits never exceeds the maximum, is the base interval (up to the maximum)
-- after a visit with new children, and doubles (up to the maximum) with each barren visit.
pub listing_ttl_correct :
    (base max barren : ℕ)
    → (listing_ttl base max barren ≤ max)
      × (listing_ttl base max 0 ≡ min base max)
      × (listing_ttl base max (suc barren) ≡ min (2 * listing_ttl base max barren) max)
unfolding listing_ttl
listing_ttl_correct base max barren =
    (ground arith, ground arith, ground (arith, pow_double base barren))

module _ (R : Redis) (cfg : FrontierConfig) (now n : ℕ) (j : Job) (s : Store R) where
  open R use {zscore, zscore-zadd, hget, hget-hset, hget-hdel, hset, hdel, zrem, lrem}

  abbrev attempts : ℕ
  attempts = or_zero (hget s.attempts j.url) + 1

  abbrev fresh : Text
  fresh = member (s.seq + 1) j.url

  -- With a ladder that is not empty, Fail on a leased job without a last strike delays it: the
  -- attempt is counted, and so is the strike of a strikeable failure, while a rate limit leaves the
  -- strikes; a fresh member waits for the ladder's entry of that attempt, the old one leaves
  -- processing, and the dead entries, the ready list and the schedule stay.
  pub fail_delays :
      (class : FailClass)
      → zscore s.lease j.member ≡ some n
      → 1 ≤ length (ladder cfg class)
      → exhausted cfg class (or_zero (hget s.strikes j.url)) ≡ false
      → let (r, t) = fail cfg none now j class s in
        (r ≡ returns delayed)
        × (zscore t.delayed fresh ≡ some (now + wait (ladder cfg class) attempts))
        × (hget t.attempts j.url ≡ some attempts)
        × (hget t.strikes j.url ≡ strikes_after class (hget s.strikes j.url))
        × (t.processing ≡ lrem s.processing j.member)
        × (t.ready ≡ s.ready)
        × (t.dead ≡ s.dead)
        × (t.listing_next ≡ s.listing_next)
  unfolding fail run_script lua_fail count_strikes delay_job bury
  fail_delays fail_rate_limited leased rungs alive = rw (leased) (
    refl,
    rw
        (backoff-ladder (quarantine_until cfg j.class now) (ladder cfg fail_rate_limited) attempts
          (omega arith) rungs)
        (ground (
          arith,
          zscore-zadd s.delayed fresh (now + wait (ladder cfg fail_rate_limited) attempts) fresh,
        )),
    ground (arith, hget-hset s.attempts j.url attempts j.url),
    refl,
    refl,
    refl,
    refl,
    refl,
  )
  fail_delays fail_strikeable leased rungs alive =
      rw (leased, alive)
        (
          refl,
          rw
              (backoff-ladder (quarantine_until cfg j.class now) (ladder cfg fail_strikeable)
                attempts (omega arith) rungs)
              (ground (
                arith,
                zscore-zadd s.delayed fresh (now + wait (ladder cfg fail_strikeable) attempts)
                    fresh,
              )),
          ground (arith, hget-hset s.attempts j.url attempts j.url),
          ground (arith, hget-hset s.strikes j.url (or_zero (hget s.strikes j.url) + 1) j.url),
          refl,
          refl,
          refl,
          refl,
        )

  -- What a burial does of a URL's schedule and dead entry, by its class: a video is dead forever and
  -- its schedule stays, a listing or a seed is dead, and not scheduled before, the end of the
  -- quarantine.
  abbrev pub Buried : UrlClass → Store R → Type 0
  Buried class_video t =
      (hget t.dead j.url ≡ some (record { reason = codes "strikes_exhausted"; until = 0 }))
      × (t.listing_next ≡ s.listing_next)
  Buried _ t =
      (hget t.dead j.url
        ≡ some
            (record { reason = codes "strikes_exhausted"; until = now + cfg.quarantine_listing }))
      × (zscore t.listing_next j.url ≡ some (now + cfg.quarantine_listing))

  buried :
      (class : UrlClass) (t : Store R)
      → 1 ≤ now
      → (hget t.dead j.url
          ≡ some (record {
            reason = codes "strikes_exhausted";
            until = quarantine_until cfg class now;
          }))
      → (quarantine_until cfg class now ≡ 0 → t.listing_next ≡ s.listing_next)
      → (0 < quarantine_until cfg class now
          → zscore t.listing_next j.url ≡ some (quarantine_until cfg class now))
      → Buried class t
  unfolding quarantine_until
  buried class_video t late d stays waits = (d, stays refl)
  buried class_listing t late d stays waits = (d, waits (omega (arith, late)))
  buried class_seed t late d stays waits = (d, waits (omega (arith, late)))

  -- Fail on a leased job with its last strike, not in the first second of 1970, buries it: a video is
  -- dead forever and its schedule stays; a listing or a seed is dead, and not scheduled before, the
  -- end of the quarantine of a listing from now. The job leaves processing, the counts are reset,
  -- and nothing is queued.
  pub fail_buries :
      (class : FailClass)
      → 1 ≤ now
      → zscore s.lease j.member ≡ some n
      → exhausted cfg class (or_zero (hget s.strikes j.url)) ≡ true
      → let (r, t) = fail cfg none now j class s in
        (r ≡ returns dead)
        × Buried j.class t
        × (hget t.attempts j.url ≡ none)
        × (hget t.strikes j.url ≡ none)
        × (t.processing ≡ lrem s.processing j.member)
        × (t.ready ≡ s.ready)
        × (t.delayed ≡ s.delayed)
  unfolding fail run_script lua_fail count_strikes delay_job bury set_quarantine
  fail_buries fail_rate_limited late leased last = absurd (ground arith)
  fail_buries fail_strikeable late leased last = elim (Bool-cases (ltb 0 until)) [
    | inl timed ↦
        rw (leased, last, timed)
          (
            refl,
            buried j.class _ late entry (λ e. absurd (ground (arith, e, timed)))
                (λ h. ground (arith, zscore-zadd s.listing_next j.url until j.url)),
            no_attempts,
            no_strikes,
            refl,
            refl,
            refl,
          )
    | inr forever ↦
        rw (leased, last, forever)
          (
            refl,
            buried j.class _ late entry (λ e. refl) (λ h. absurd (ground (arith, forever, h))),
            no_attempts,
            no_strikes,
            refl,
            refl,
            refl,
          )
  ]
    where
      until : ℕ
      until = quarantine_until cfg j.class now

      entry :
          hget
            (hset s.dead j.url (record { reason = codes "strikes_exhausted"; until = until }))
            j.url
          ≡ some (record { reason = codes "strikes_exhausted"; until = until })
      entry = ground (
        arith,
        hget-hset s.dead j.url (record { reason = codes "strikes_exhausted"; until = until }) j.url,
      )

      no_attempts : hget (hdel (hset s.attempts j.url attempts) j.url) j.url ≡ none
      no_attempts = ground (arith, hget-hdel (hset s.attempts j.url attempts) j.url j.url)

      no_strikes :
          hget (hdel (hset s.strikes j.url (or_zero (hget s.strikes j.url) + 1)) j.url) j.url ≡ none
      no_strikes =
          ground (
            arith,
            hget-hdel (hset s.strikes j.url (or_zero (hget s.strikes j.url) + 1)) j.url j.url,
          )

  -- The barren visits in a row after a visit that found `k` new children.
  abbrev pub barren : ℕ → ℕ
  barren zero = or_zero (hget s.listing_barren j.url) + 1
  barren (suc k) = 0

  -- CompleteListing on a leased job schedules the next visit after the interval for the barren
  -- visits so far, the base of a seed or of another listing; it forgets the dead entry and the
  -- counts, takes the job out of processing, and queues nothing.
  pub complete_listing_correct :
      (k : ℕ)
      → zscore s.lease j.member ≡ some n
      → let (r, t) = complete_listing cfg none now j k s in
        (r ≡ returns tt)
        × (zscore t.listing_next j.url
            ≡ some (now + listing_ttl (base_ttl cfg j.class) cfg.listing_max_ttl (barren k)))
        × (hget t.listing_barren j.url ≡ some (barren k))
        × (hget t.dead j.url ≡ none)
        × (hget t.attempts j.url ≡ none)
        × (hget t.strikes j.url ≡ none)
        × (t.processing ≡ lrem s.processing j.member)
        × (t.ready ≡ s.ready)
        × (t.delayed ≡ s.delayed)
  unfolding complete_listing run_script lua_complete_listing count_barren
  complete_listing_correct zero leased = rw leased (
    refl,
    ground (
      arith,
      zscore-zadd s.listing_next j.url
          (now + listing_ttl (base_ttl cfg j.class) cfg.listing_max_ttl (barren zero)) j.url,
    ),
    ground (arith, hget-hset s.listing_barren j.url (barren zero) j.url),
    ground (arith, hget-hdel s.dead j.url j.url),
    ground (arith, hget-hdel s.attempts j.url j.url),
    ground (arith, hget-hdel s.strikes j.url j.url),
    refl,
    refl,
    refl,
  )
  complete_listing_correct (suc k) leased =
      rw (leased, positive)
        (
          refl,
          ground (
            arith,
            zscore-zadd s.listing_next j.url
                (now + listing_ttl (base_ttl cfg j.class) cfg.listing_max_ttl 0) j.url,
          ),
          ground (arith, hget-hset s.listing_barren j.url 0 j.url),
          ground (arith, hget-hdel s.dead j.url j.url),
          ground (arith, hget-hdel s.attempts j.url j.url),
          ground (arith, hget-hdel s.strikes j.url j.url),
          refl,
          refl,
          refl,
        )
    where
      positive : ltb 0 (suc k) ≡ true
      positive = ground arith
