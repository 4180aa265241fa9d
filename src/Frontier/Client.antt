-- ===== src/Frontier/Client.antt =====
-- The methods of redisFrontier (internal/storage/frontier.go), which run the scripts and decode
-- their replies. The clock's Unix seconds are the argument `now`; a method returns its result or
-- error and the keyspace. What the connection does is the argument `fault`.
use gfap.Base.{
  ℕ, ◌+◌, ◌-◌, ◌≡◌, refl, Option, none, some, List, Bool, true, false, is_some, length, ◌==◌, ◌&&◌,
  if◌then◌else◌,
}
use gfap.Text.{Text, codes}
use gfap.Text.Member.{split_member, url_of}
use gfap.Redis.{Redis}
use gfap.Frontier.{
  Store, Job, FrontierConfig, FrontierStats, AdmitResult, FailClass, fail_rate_limited,
  fail_strikeable, Disposition, UrlClass, class_video, class_listing, class_seed, pending_score,
  promote_batch_limit, reap_batch_limit, sweep_batch_limit,
}
use gfap.Frontier.Script.{Script, write}
use gfap.Frontier.Script.Admit.{lua_admit_video, lua_admit_listing, lua_listing_scheduler}
use gfap.Frontier.Script.Resolve.{
  Reply, stale, ok, dead, delayed, lua_lease, lua_ack, lua_complete_listing, lua_nack, lua_fail,
  lua_terminal,
}
use gfap.Frontier.Script.Reconcile.{lua_promote, lua_reap, lua_sweep}

-- `stale_lease` is ErrStaleLease; `server` is an error reply of Redis (redis.Error), `network` any
-- other; `unexpected` a reply that no script gives.
pub data Error : Type 0 where
  stale_lease server network unexpected : Error

pub data Result (A : Type 0) : Type 0 where
  returns : A → Result A
  fails : Error → Result A

-- The request does not arrive; the script runs and its reply is lost; the script raises an error
-- after some of its commands.
pub data Fault : Type 0 where
  refused lost : Fault
  raised : ℕ → Fault

abbrev pub replied : {A : Type 0} → Option A → Result A
replied none = fails server
replied (some a) = returns a

-- `scriptX.Run(ctx, f.client, …)`
unfoldable pub run_script :
    {R : Redis} {A : Type 0} → Option Fault → Script R A → Store R → Result A × Store R
run_script none m s = let (r, t, b) = m none s in (replied r, t)
run_script (some refused) m s = (fails network, s)
run_script (some lost) m s = let (r, t, b) = m none s in (fails network, t)
run_script (some (raised n)) m s = let (r, t, b) = m (some n) s in (replied r, t)

-- `if res == "STALE" { return ErrStaleLease }; return nil`
abbrev pub decode_ok : Result Reply → Result (Unit {0})
decode_ok (fails e) = fails e
decode_ok (returns stale) = fails stale_lease
decode_ok (returns _) = returns tt

-- The switch of Fail.
abbrev pub decode_fail : Result Reply → Result Disposition
decode_fail (fails e) = fails e
decode_fail (returns stale) = fails stale_lease
decode_fail (returns dead) = returns Disposition.dead
decode_fail (returns delayed) = returns Disposition.delayed
decode_fail (returns ok) = fails unexpected

-- A time.Time, by its Unix seconds; `none` is the zero time.
abbrev pub Time : Type 0
Time = Option ℕ

unfoldable pub unix_or_zero : Time → ℕ
unix_or_zero none = 0
unix_or_zero (some n) = n

unfoldable pub quarantine_until : FrontierConfig → UrlClass → ℕ → ℕ
quarantine_until cfg class_video now = 0
quarantine_until cfg class_listing now = now + cfg.quarantine_listing
quarantine_until cfg class_seed now = now + cfg.quarantine_listing

-- `class := ClassListing; if f.classify != nil { class = f.classify(url) }`
unfoldable pub class_of : Option (Text → UrlClass) → Text → UrlClass
class_of none url = class_listing
class_of (some classify) url = classify url

unfoldable pub job_of : Option (Text → UrlClass) → Text → Job
unfolding class_of
job_of classify m =
    let (id, url) = split_member m in
    record { id = id; url = url; class = class_of classify url; member = m }

-- Lease splits the member as the scripts do.
pub url-job_of :
    (classify : Option (Text → UrlClass)) (m : Text)
    → (job_of classify m).url ≡ url_of (job_of classify m).member
unfolding job_of url_of
url-job_of classify m = refl

pub member-job_of :
    (classify : Option (Text → UrlClass)) (m : Text) → (job_of classify m).member ≡ m
unfolding job_of
member-job_of classify m = refl

pub class-job_of :
    (classify : Option (Text → UrlClass)) (m : Text)
    → (job_of classify m).class ≡ class_of classify (url_of m)
unfolding job_of url_of
class-job_of classify m = refl

abbrev pub decode_lease : Option (Text → UrlClass) → Result (Option Text) → Result (Option Job)
decode_lease classify (fails e) = fails e
decode_lease classify (returns none) = returns none
decode_lease classify (returns (some m)) = returns (some (job_of classify m))

-- What Fail passes for a class: incStrike, the ladder and the reason.
abbrev pub inc_strike : FailClass → Bool
inc_strike fail_rate_limited = false
inc_strike fail_strikeable = true

abbrev pub ladder : FrontierConfig → FailClass → List ℕ
ladder cfg fail_rate_limited = cfg.rate_limit_backoff
ladder cfg fail_strikeable = cfg.strike_backoff

abbrev pub fail_reason : FailClass → Text
fail_reason fail_rate_limited = codes "rate_limited"
fail_reason fail_strikeable = codes "strikes_exhausted"

abbrev pub base_ttl : FrontierConfig → UrlClass → ℕ
base_ttl cfg class_seed = cfg.seed_ttl
base_ttl cfg _ = cfg.listing_base_ttl

unfoldable pub is_idle : Result FrontierStats → Result Bool
is_idle (fails e) = fails e
is_idle (returns st) = returns (st.ready == 0 && st.processing == 0 && st.delayed == 0)

module _ {R : Redis} where
  open R use {items, zscore, zadd, zcard, zcount, hlen}

  unfoldable pub admit_video : Option Fault → ℕ → Text → Store R → Result AdmitResult × Store R
  unfolding run_script
  admit_video fault now url s = run_script fault (lua_admit_video url now) s

  unfoldable pub admit_listing : Option Fault → ℕ → Text → Store R → Result AdmitResult × Store R
  unfolding run_script
  admit_listing fault now url s = run_script fault (lua_admit_listing url now) s

  -- ZADD NX
  abbrev pub zadd_next_nx : Text → ℕ → Script R Unit
  zadd_next_nx url n = write (λ s.
      if is_some (zscore s.listing_next url)
      then s
      else record s { listing_next = zadd s.listing_next url n })

  unfoldable pub seed_listing : Option Fault → Text → Store R → Result Unit × Store R
  unfolding run_script
  seed_listing fault url s = run_script fault (zadd_next_nx url 0) s

  unfoldable pub lease :
      FrontierConfig
      → Option (Text → UrlClass)
      → Option Fault
      → ℕ
      → Store R
      → Result (Option Job) × Store R
  unfolding run_script
  lease cfg classify fault now s =
      let (r, t) = run_script fault (lua_lease now cfg.lease_timeout) s in
      (decode_lease classify r, t)

  unfoldable pub ack : Option Fault → Job → Store R → Result Unit × Store R
  unfolding run_script
  ack fault j s = let (r, t) = run_script fault (lua_ack j.member j.url) s in (decode_ok r, t)

  unfoldable pub nack : Option Fault → Job → Store R → Result Unit × Store R
  unfolding run_script
  nack fault j s = let (r, t) = run_script fault (lua_nack j.member j.url) s in (decode_ok r, t)

  unfoldable pub fail :
      FrontierConfig → Option Fault → ℕ → Job → FailClass → Store R → Result Disposition × Store R
  unfolding run_script
  fail cfg fault now j class s =
      let (r, t) =
        run_script fault
          (lua_fail j.member j.url (inc_strike class) cfg.max_strikes now (fail_reason class)
            (quarantine_until cfg j.class now) (ladder cfg class))
          s in
      (decode_fail r, t)

  unfoldable pub terminal : Option Fault → Job → Text → Time → Store R → Result Unit × Store R
  unfolding run_script
  terminal fault j reason until s =
      let (r, t) = run_script fault (lua_terminal j.member j.url reason (unix_or_zero until)) s in
      (decode_ok r, t)

  unfoldable pub complete_listing :
      FrontierConfig → Option Fault → ℕ → Job → ℕ → Store R → Result Unit × Store R
  unfolding run_script
  complete_listing cfg fault now j new_children s =
      let (r, t) =
        run_script fault
          (lua_complete_listing j.member j.url new_children now (base_ttl cfg j.class)
            cfg.listing_max_ttl)
          s in
      (decode_ok r, t)

  unfoldable pub reap : Option Fault → ℕ → Store R → Result ℕ × Store R
  unfolding run_script
  reap fault now s = run_script fault (lua_reap now reap_batch_limit) s

  unfoldable pub sweep : Option Fault → Store R → Result ℕ × Store R
  unfolding run_script
  sweep fault s = run_script fault (lua_sweep sweep_batch_limit) s

  unfoldable pub promote : Option Fault → ℕ → Store R → Result ℕ × Store R
  unfolding run_script
  promote fault now s = run_script fault (lua_promote now promote_batch_limit) s

  unfoldable pub run_listing_scheduler :
      FrontierConfig → Option Fault → ℕ → Store R → Result ℕ × Store R
  unfolding run_script
  run_listing_scheduler cfg fault now s =
      run_script fault (lua_listing_scheduler now cfg.scheduler_batch_limit) s

  -- The pipeline of Stats, whose i-th command meets the keyspace `at i`: it is no transaction, so
  -- other clients' scripts may run between its commands. A failed Exec is an error.
  unfoldable pub stats : Option Error → (ℕ → Store R) → Result FrontierStats
  stats (some e) at = fails e
  stats none at = returns (record {
    ready = length (items (at 0).ready);
    processing = length (items (at 1).processing);
    delayed = zcard (at 2).delayed;
    dead = hlen (at 3).dead;
    strikes = hlen (at 4).strikes;
    listings_scheduled = zcount (at 5).listing_next 0 (pending_score - 1);
    listings_pending = zcount (at 6).listing_next pending_score pending_score;
  })

  unfoldable pub idle : Option Error → (ℕ → Store R) → Result Bool
  unfolding stats is_idle
  idle e at = is_idle (stats e at)
