-- ===== src/Frontier/Script/Admit.antt =====
-- luaAdmitVideo, luaAdmitListing and luaListingScheduler, and the ZADD NX of SeedListing.
use gfap.Base.{ℕ, ◌==◌, Option, none, some, Bool, true, false, ◌||◌, ltb, is_some, if◌then◌else◌}
use gfap.Text.{Text}
use gfap.Text.Member.{member}
use gfap.Redis.{Redis}
use gfap.Frontier.{DeadEntry, pending_score, AdmitResult, suppressed, new, due_revisit}
use gfap.Frontier.Script.{Script, pure, ◌>>=◌, ◌>>◌, sum_over}
use gfap.Frontier.Script.Commands.{
  incr_seq, lpush_ready, lrem_ready, hget_dead, hdel_dead, bf_add_url, zscore_next, zadd_next,
  zrem_next, range_next,
}

-- `prev and tonumber(prev) > now`
abbrev pub not_due : ℕ → Option ℕ → Bool
not_due now none = false
not_due now (some prev) = ltb now prev

module _ {R : Redis} where
  -- The dead check of both admissions: whether the URL is refused. An expired entry is deleted.
  unfoldable pub check_dead : Text → ℕ → Option DeadEntry → Script R Bool
  check_dead url now none = pure false
  check_dead url now (some d) =
      if d.until == 0 || ltb now d.until then pure true else (do hdel_dead url; pure false)

  -- A fresh job id, and its member pushed on the ready list.
  unfoldable pub push_job : Text → Script R Text
  push_job url = do n ← incr_seq; lpush_ready (member n url); pure (member n url)

  unfoldable pub lua_admit_video : Text → ℕ → Script R AdmitResult
  unfolding check_dead push_job
  lua_admit_video url now = do
    d ← hget_dead url
    refused ← check_dead url now d
    if refused then pure suppressed else do
      item ← push_job url
      added ← bf_add_url url
      if added == 0 then (do lrem_ready item; pure suppressed) else pure new

  unfoldable pub lua_admit_listing : Text → ℕ → Script R AdmitResult
  unfolding check_dead push_job
  lua_admit_listing url now = do
    d ← hget_dead url
    refused ← check_dead url now d
    if refused then pure suppressed else do
      prev ← zscore_next url
      if not_due now prev then pure suppressed else do
        push_job url
        zadd_next url pending_score
        if is_some prev then pure due_revisit else pure new

  unfoldable pub admit_due : Text → Script R ℕ
  unfolding push_job
  admit_due url = do push_job url; zadd_next url pending_score; pure 1

  -- One round of the scheduler's loop.
  unfoldable pub schedule_due : ℕ → Text → Option DeadEntry → Script R ℕ
  unfolding admit_due
  schedule_due now url none = admit_due url
  schedule_due now url (some d) =
      if d.until == 0
      then (do zrem_next url; pure 0)
      else (if ltb now d.until
          then (do zadd_next url d.until; pure 0)
          else (do hdel_dead url; admit_due url))

  unfoldable pub schedule_one : ℕ → Text → Script R ℕ
  unfolding schedule_due
  schedule_one now url = do d ← hget_dead url; schedule_due now url d

  unfoldable pub lua_listing_scheduler : ℕ → ℕ → Script R ℕ
  unfolding schedule_one sum_over
  lua_listing_scheduler now limit = do due ← range_next now limit; sum_over (schedule_one now) due
