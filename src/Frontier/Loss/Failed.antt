-- ===== src/Frontier/Loss/Failed.antt =====
-- luaFail and luaCompleteListing, broken off by a command's error.
use gfap.Base.{
  ℕ, zero, suc, ◌+◌, ◌≡◌, ◌⊎◌, inl, inr, Bool, true, false, Option, none, some, arith, List, ◌==◌,
  ◌&&◌, leb, if◌then◌else◌, min, length,
}
use gfap.Text.{Text}
use gfap.Text.Member.{member, url_of, url_of-member}
use gfap.Redis.{Redis}
use gfap.Redis.Lists.{occurs-lrem}
use gfap.Frontier.{Store}
use gfap.Frontier.Live.{live, scored-zadd, scored-le}
use gfap.Frontier.Script.{Script, pure, ◌>>=◌, ◌>>◌}
use gfap.Frontier.Script.Commands.{zrem_lease, hincrby_attempts}
use gfap.Frontier.Script.Resolve.{
  backoff_at, Reply, stale, dead, bury, delay_job, count_strikes, lua_fail,
}
use gfap.Frontier.Loss.{HasJob, Covers, Covers-HasJob, bind-leads}
use gfap.Frontier.Loss.Resolved.{Buried, Buries-HasJob, bury-Buries}

module _ (R : Redis) where
  delay_job-Covers :
      (item : Text) (at : ℕ) (b : Option ℕ) (s : Store R)
      → Covers R item s (delay_job item (url_of item) at b s).1
  unfolding delay_job live
  delay_job-Covers item at (some zero) s = inl (λ x. omega arith)
  delay_job-Covers item at (some (suc zero)) s = inl (λ x. omega arith)
  delay_job-Covers item at (some (suc (suc zero))) s = inl (λ x. ground (
    arith,
    scored-zadd R x (member (s.seq + 1) (url_of item)) at s.delayed,
    scored-le R x s.delayed,
  ))
  delay_job-Covers item at b s = inr (
    member (s.seq + 1) (url_of item),
    url_of-member _ _,
    ground (
      arith,
      scored-zadd R (member (s.seq + 1) (url_of item)) (member (s.seq + 1) (url_of item)) at
          s.delayed,
    ),
    λ x. ground (
      arith,
      scored-zadd R x (member (s.seq + 1) (url_of item)) at s.delayed,
      occurs-lrem R x item s.processing,
      scored-le R x s.delayed,
    ),
  )

  module _ (url item : Text) where
    -- The URL has a live job, or it is the item's and has a dead entry.
    abbrev pub Resolved : Store R → Type 0
    Resolved t = HasJob R url t ⊎ ((url_of item ≡ url) × Buried R url t)

    zrem_lease-HasJob :
        (b : Option ℕ) (s : Store R) → HasJob R url s → HasJob R url (zrem_lease item b s).1
    unfolding live
    zrem_lease-HasJob none s h = h
    zrem_lease-HasJob (some zero) s h = h
    zrem_lease-HasJob (some (suc n)) s h = h

    hincrby_attempts-HasJob :
        (b : Option ℕ) (s : Store R)
        → HasJob R url s
        → HasJob R url (hincrby_attempts (url_of item) b s).1
    unfolding live
    hincrby_attempts-HasJob none s h = h
    hincrby_attempts-HasJob (some zero) s h = h
    hincrby_attempts-HasJob (some (suc n)) s h = h

    count_strikes-HasJob :
        (inc : Bool) (b : Option ℕ) (s : Store R)
        → HasJob R url s
        → HasJob R url (count_strikes (url_of item) inc b s).1
    unfolding count_strikes live
    count_strikes-HasJob true none s h = h
    count_strikes-HasJob true (some zero) s h = h
    count_strikes-HasJob true (some (suc zero)) s h = h
    count_strikes-HasJob true (some (suc (suc n))) s h = h
    count_strikes-HasJob false none s h = h
    count_strikes-HasJob false (some zero) s h = h
    count_strikes-HasJob false (some (suc n)) s h = h

    buried_dead :
        (reason : Text) (until : ℕ) (b : Option ℕ) (s : Store R)
        → HasJob R url s
        → Resolved ((bury item (url_of item) reason until >> pure dead) b s).1
    buried_dead reason until b s h =
        bind-leads Resolved Resolved (bury item (url_of item) reason until) _ b s (λ t g. g)
          (Buries-HasJob R url item s _ (bury-Buries R item (url_of item) reason until b s) h)
          (λ a c t g. g)

    judged :
        (test : Bool) (reason : Text) (until at : ℕ) (b : Option ℕ) (s : Store R)
        → HasJob R url s
        → Resolved
            ((if test
                then (bury item (url_of item) reason until >> pure dead)
                else delay_job item (url_of item) at)
              b s).1
    judged true reason until at b s h = buried_dead reason until b s h
    judged false reason until at b s h =
        inl (Covers-HasJob R item url s _ (delay_job-Covers item at b s) h)

    fenced :
        (removed : Bool) (m : Script R Reply) (b : Option ℕ) (s : Store R)
        → HasJob R url s
        → Resolved (m b s).1
        → Resolved ((if removed then pure stale else m) b s).1
    fenced true m b s h r = inl h
    fenced false m b s h r = r

    -- Whatever command of the failure script fails, a URL that had a live job has one afterwards,
    -- unless it is the job's own and has a dead entry.
    pub fail-HasJob :
        (inc : Bool) (max now : ℕ) (reason : Text) (until : ℕ) (ladder : List ℕ) (b : Option ℕ)
        (s : Store R)
        → HasJob R url s
        → Resolved (lua_fail item (url_of item) inc max now reason until ladder b s).1
    unfolding lua_fail
    fail-HasJob inc max now reason until ladder b s h =
        bind-leads (HasJob R url) Resolved (zrem_lease item)
          (λ removed. if removed == 0 then pure stale else counted) b s (λ t g. inl g)
          (zrem_lease-HasJob b s h)
          (λ removed c t g. fenced (removed == 0) counted c t g (go c t g))
      where
        judge : ℕ → ℕ → Script R Reply
        judge attempts strikes =
            if inc && leb max strikes
            then (bury item (url_of item) reason until >> pure dead)
            else delay_job item (url_of item)
                (now + backoff_at until ladder (min attempts (length ladder)))

        counted : Script R Reply
        counted = hincrby_attempts (url_of item) >>= λ attempts.
            count_strikes (url_of item) inc >>= judge attempts

        go : (c : Option ℕ) (t : Store R) → HasJob R url t → Resolved (counted c t).1
        go c t g =
            bind-leads (HasJob R url) Resolved (hincrby_attempts (url_of item))
              (λ attempts. count_strikes (url_of item) inc >>= judge attempts) c t (λ u k. inl k)
              (hincrby_attempts-HasJob c t g)
              λ attempts c' t' g'.
                bind-leads (HasJob R url) Resolved (count_strikes (url_of item) inc)
                  (judge attempts) c' t' (λ u k. inl k) (count_strikes-HasJob inc c' t' g')
                  λ strikes c'' t'' g''.
                    judged (inc && leb max strikes) reason until
                      (now + backoff_at until ladder (min attempts (length ladder))) c'' t'' g''
