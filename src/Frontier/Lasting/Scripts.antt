-- ===== src/Frontier/Lasting/Scripts.antt =====
-- A lasting property is kept by every script (internal/storage/frontier.go).
use gfap.Base.{
  ℕ, ◌+◌, ◌==◌, ◌&&◌, ◌||◌, leb, ltb, Bool, true, false, Option, none, some, List, is_some, or_zero,
  if◌then◌else◌,
}
use gfap.Text.{Text}
use gfap.Text.Member.{url_of}
use gfap.Redis.{Redis}
use gfap.Frontier.{Store, DeadEntry}
use gfap.Frontier.Script.{Script, pure, ◌>>=◌, ◌>>◌, sum_over}
use gfap.Frontier.Script.Commands.{
  lrem_ready, lrem_processing, zrem_lease, zrem_delayed, zadd_next, zrem_next, hset_dead, hdel_dead,
  hincrby_attempts, hdel_attempts, hget_strikes, hincrby_strikes, hdel_strikes, hset_barren,
  hincrby_barren, bf_add_url, hget_dead, zscore_next, range_next, range_delayed, range_lease,
  lrange_processing, zscore_lease,
}
use gfap.Frontier.Script.Admit.{
  check_dead, push_job, not_due, lua_admit_video, lua_admit_listing, schedule_due, schedule_one,
  admit_due, lua_listing_scheduler,
}
use gfap.Frontier.Script.Resolve.{
  lua_ack, count_barren, lua_complete_listing, lua_nack, set_quarantine, count_strikes, bury,
  lua_fail, lua_terminal, Reply,
}
use gfap.Frontier.Script.Reconcile.{
  promote_one, lua_promote, reap_one, lua_reap, sweep_one, lua_sweep,
}
use gfap.Frontier.Lasting.{Keeps, Lasting, call-Keeps, bind-Keeps, if-Keeps, sum_over-Keeps}

module _ {R : Redis} (P : Store R → Type 0) (l : Lasting P) where
  zrem_lease-Keeps : (m : Text) → Keeps P (zrem_lease m)
  zrem_lease-Keeps m = call-Keeps P _ λ s p. l.dropped_lease s m p

  lrem_processing-Keeps : (m : Text) → Keeps P (lrem_processing m)
  lrem_processing-Keeps m = call-Keeps P _ λ s p. l.dropped_processing s m p

  hdel_dead-Keeps : (url : Text) → Keeps P (hdel_dead url)
  hdel_dead-Keeps url =
      call-Keeps P _
        λ s p. l.others s (R.hdel s.dead url) s.attempts s.strikes s.listing_barren s.listing_next p

  zadd_next-Keeps : (url : Text) (n : ℕ) → Keeps P (zadd_next url n)
  zadd_next-Keeps url n =
      call-Keeps P _ λ s p.
        l.others s s.dead s.attempts s.strikes s.listing_barren (R.zadd s.listing_next url n) p

  -- The end of a resolving script.
  cleared-Keeps :
      (m url : Text) (r : Reply)
      → Keeps P (lrem_processing m >> (hdel_attempts url >> (hdel_strikes url >> pure r)))
  cleared-Keeps m url r = bind-Keeps P (lrem_processing m) _ (lrem_processing-Keeps m) λ u.
      bind-Keeps P (hdel_attempts url) _
        (call-Keeps P _ λ s p.
          l.others s s.dead (R.hdel s.attempts url) s.strikes s.listing_barren s.listing_next p)
        λ v.
          bind-Keeps P (hdel_strikes url) _
            (call-Keeps P _ λ s p.
              l.others s s.dead s.attempts (R.hdel s.strikes url) s.listing_barren s.listing_next p)
            λ w b s p. p

  -- A script behind the fence.
  fenced-Keeps :
      (m : Text) (k : Script R Reply)
      → Keeps P k
      → Keeps P (zrem_lease m >>= λ removed. if removed == 0 then pure Reply.stale else k)
  fenced-Keeps m k h =
      bind-Keeps P (zrem_lease m) _ (zrem_lease-Keeps m)
        λ removed. if-Keeps P (removed == 0) (pure Reply.stale) k (λ b s p. p) h

  pub ack-Keeps : (m url : Text) → Keeps P (lua_ack m url)
  unfolding lua_ack
  ack-Keeps m url = fenced-Keeps m _ (cleared-Keeps m url Reply.ok)

  pub nack-Keeps : (m url : Text) → Keeps P (lua_nack m url)
  unfolding lua_nack
  nack-Keeps m url = fenced-Keeps m _ (
      bind-Keeps P (push_job url) _ (l.pushed url)
        λ x. bind-Keeps P (lrem_processing m) _ (lrem_processing-Keeps m) λ u b s p. p)

  count_barren-Keeps : (url : Text) (k : ℕ) → Keeps P (count_barren url k)
  unfolding count_barren
  count_barren-Keeps url k =
      if-Keeps P (ltb 0 k) (hset_barren url 0 >> pure 0) (hincrby_barren url)
        (bind-Keeps P (hset_barren url 0) _
          (call-Keeps P _ λ s p.
            l.others s s.dead s.attempts s.strikes (R.hset s.listing_barren url 0) s.listing_next p)
          λ u b s p. p)
        (call-Keeps P _ λ s p.
          l.others s s.dead s.attempts s.strikes
            (R.hset s.listing_barren url (or_zero (R.hget s.listing_barren url) + 1)) s.listing_next
            p)

  pub complete_listing-Keeps :
      (m url : Text) (k now base max : ℕ) → Keeps P (lua_complete_listing m url k now base max)
  unfolding lua_complete_listing
  complete_listing-Keeps m url k now base max = fenced-Keeps m _ (
      bind-Keeps P (count_barren url k) _ (count_barren-Keeps url k) λ barren.
        bind-Keeps P (zadd_next url _) _ (zadd_next-Keeps url _) λ u.
          bind-Keeps P (hdel_dead url) _ (hdel_dead-Keeps url) λ v. cleared-Keeps m url Reply.ok)

  bury-Keeps : (m url reason : Text) (until : ℕ) → Keeps P (bury m url reason until)
  unfolding bury set_quarantine
  bury-Keeps m url reason until =
      bind-Keeps P (set_quarantine url until) _
        (if-Keeps P (ltb 0 until) (zadd_next url until) (pure tt) (zadd_next-Keeps url until)
          (λ b s p. p))
        λ u.
          bind-Keeps P (hset_dead url reason until) _
            (call-Keeps P _ λ s p.
              l.others s (R.hset s.dead url (record { reason = reason; until = until })) s.attempts
                s.strikes s.listing_barren s.listing_next p)
            λ v. cleared-Keeps m url Reply.ok

  pub terminal-Keeps : (m url reason : Text) (until : ℕ) → Keeps P (lua_terminal m url reason until)
  unfolding lua_terminal
  terminal-Keeps m url reason until = fenced-Keeps m _ (bury-Keeps m url reason until)

  count_strikes-Keeps : (url : Text) (inc : Bool) → Keeps P (count_strikes url inc)
  unfolding count_strikes
  count_strikes-Keeps url inc = bind-Keeps P (hget_strikes url) _ (call-Keeps P _ λ s p. p) λ n.
      if-Keeps P inc (hincrby_strikes url) (pure n)
        (call-Keeps P _ λ s p.
          l.others s s.dead s.attempts (R.hset s.strikes url (or_zero (R.hget s.strikes url) + 1))
            s.listing_barren s.listing_next p)
        (λ b s p. p)

  pub fail-Keeps :
      (m url : Text) (inc : Bool) (max now : ℕ) (reason : Text) (until : ℕ) (ladder : List ℕ)
      → Keeps P (lua_fail m url inc max now reason until ladder)
  unfolding lua_fail
  fail-Keeps m url inc max now reason until ladder = fenced-Keeps m _ (
      bind-Keeps P (hincrby_attempts url) _
        (call-Keeps P _ λ s p.
          l.others s s.dead (R.hset s.attempts url (or_zero (R.hget s.attempts url) + 1)) s.strikes
            s.listing_barren s.listing_next p)
        λ attempts. bind-Keeps P (count_strikes url inc) _ (count_strikes-Keeps url inc) λ strikes.
          if-Keeps P (inc && leb max strikes) _ _
            (bind-Keeps P (bury m url reason until) _ (bury-Keeps m url reason until) λ r b s p. p)
            (l.delays m url _))

  check_dead-Keeps : (url : Text) (now : ℕ) (d : Option DeadEntry) → Keeps P (check_dead url now d)
  unfolding check_dead
  check_dead-Keeps url now none b s p = p
  check_dead-Keeps url now (some d) b s p =
      if-Keeps P (d.until == 0 || ltb now d.until) (pure true) (hdel_dead url >> pure false)
        (λ b s p. p) (bind-Keeps P (hdel_dead url) _ (hdel_dead-Keeps url) λ u b s p. p) b s p

  pub admit_video-Keeps : (url : Text) (now : ℕ) → Keeps P (lua_admit_video url now)
  unfolding lua_admit_video
  admit_video-Keeps url now = bind-Keeps P (hget_dead url) _ (call-Keeps P _ λ s p. p) λ d.
      bind-Keeps P (check_dead url now d) _ (check_dead-Keeps url now d) λ refused.
        if-Keeps P refused _ _ (λ b s p. p)
          (bind-Keeps P (push_job url) _ (l.pushed url) λ item.
            bind-Keeps P (bf_add_url url) _ (call-Keeps P _ λ s p. l.filtered s url p) λ added.
              if-Keeps P (added == 0) _ _
                (bind-Keeps P (lrem_ready item) _ (call-Keeps P _ λ s p. l.dropped_ready s item p)
                  λ u b s p. p)
                (λ b s p. p))

  pub admit_listing-Keeps : (url : Text) (now : ℕ) → Keeps P (lua_admit_listing url now)
  unfolding lua_admit_listing
  admit_listing-Keeps url now = bind-Keeps P (hget_dead url) _ (call-Keeps P _ λ s p. p) λ d.
      bind-Keeps P (check_dead url now d) _ (check_dead-Keeps url now d) λ refused.
        if-Keeps P refused _ _ (λ b s p. p)
          (bind-Keeps P (zscore_next url) _ (call-Keeps P _ λ s p. p) λ prev.
            if-Keeps P (not_due now prev) _ _ (λ b s p. p)
              (bind-Keeps P (push_job url) _ (l.pushed url) λ item.
                bind-Keeps P (zadd_next url _) _ (zadd_next-Keeps url _)
                  λ u. if-Keeps P (is_some prev) _ _ (λ b s p. p) (λ b s p. p)))

  admit_due-Keeps : (url : Text) → Keeps P (admit_due url)
  unfolding admit_due
  admit_due-Keeps url =
      bind-Keeps P (push_job url) _ (l.pushed url)
        λ item. bind-Keeps P (zadd_next url _) _ (zadd_next-Keeps url _) λ u b s p. p

  schedule_due-Keeps :
      (now : ℕ) (url : Text) (d : Option DeadEntry) → Keeps P (schedule_due now url d)
  unfolding schedule_due
  schedule_due-Keeps now url none b s p = admit_due-Keeps url b s p
  schedule_due-Keeps now url (some d) b s p =
      if-Keeps P (d.until == 0) _ _
        (bind-Keeps P (zrem_next url) _
          (call-Keeps P _ λ s p.
            l.others s s.dead s.attempts s.strikes s.listing_barren (R.zrem s.listing_next url) p)
          λ u b s p. p)
        (if-Keeps P (ltb now d.until) _ _
          (bind-Keeps P (zadd_next url d.until) _ (zadd_next-Keeps url d.until) λ u b s p. p)
          (bind-Keeps P (hdel_dead url) _ (hdel_dead-Keeps url) λ u. admit_due-Keeps url))
        b s p

  schedule_one-Keeps : (now : ℕ) (url : Text) → Keeps P (schedule_one now url)
  unfolding schedule_one
  schedule_one-Keeps now url =
      bind-Keeps P (hget_dead url) _ (call-Keeps P _ λ s p. p) λ d. schedule_due-Keeps now url d

  pub listing_scheduler-Keeps : (now limit : ℕ) → Keeps P (lua_listing_scheduler now limit)
  unfolding lua_listing_scheduler
  listing_scheduler-Keeps now limit =
      bind-Keeps P (range_next now limit) _ (call-Keeps P _ λ s p. p)
        λ due. sum_over-Keeps P (schedule_one now) (schedule_one-Keeps now) due

  pub promote-Keeps : (now limit : ℕ) → Keeps P (lua_promote now limit)
  unfolding lua_promote promote_one
  promote-Keeps now limit =
      bind-Keeps P (range_delayed now limit) _ (call-Keeps P _ λ s p. p) λ due.
        bind-Keeps P (sum_over promote_one due) _
          (sum_over-Keeps P promote_one
            (λ item. bind-Keeps P (push_job (url_of item)) _ (l.pushed (url_of item)) λ x.
              bind-Keeps P (zrem_delayed item) _ (call-Keeps P _ λ s p. l.dropped_delayed s item p)
                λ u b s p. p)
            due)
          λ n b s p. p

  returned-Keeps :
      (item : Text) → Keeps P {A = ℕ} (push_job (url_of item) >> (lrem_processing item >> pure 1))
  returned-Keeps item =
      bind-Keeps P (push_job (url_of item)) _ (l.pushed (url_of item))
        λ x. bind-Keeps P (lrem_processing item) _ (lrem_processing-Keeps item) λ u b s p. p

  pub reap-Keeps : (now limit : ℕ) → Keeps P (lua_reap now limit)
  unfolding lua_reap reap_one
  reap-Keeps now limit = bind-Keeps P (range_lease now limit) _ (call-Keeps P _ λ s p. p) λ expired.
      sum_over-Keeps P reap_one
        (λ item.
          bind-Keeps P (zrem_lease item) _ (zrem_lease-Keeps item)
            λ removed. if-Keeps P (removed == 1) _ _ (returned-Keeps item) (λ b s p. p))
        expired

  pub sweep-Keeps : (limit : ℕ) → Keeps P (lua_sweep limit)
  unfolding lua_sweep sweep_one
  sweep-Keeps limit = bind-Keeps P (lrange_processing limit) _ (call-Keeps P _ λ s p. p) λ items.
      sum_over-Keeps P sweep_one
        (λ item.
          bind-Keeps P (zscore_lease item) _ (call-Keeps P _ λ s p. p)
            λ leased. if-Keeps P (is_some leased) _ _ (λ b s p. p) (returned-Keeps item))
        items
