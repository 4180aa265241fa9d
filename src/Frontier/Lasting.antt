-- ===== src/Frontier/Lasting.antt =====
-- What lasts through any history: a property of the keyspace that each group of commands of the
-- scripts keeps (internal/storage/frontier.go), wherever a script breaks off and whatever becomes
-- of the requests.
pub mod Scripts
pub mod Calls
pub mod Gone
use gfap.Base.{
  ℕ, zero, suc, ◌+◌, ◌==◌, ◌&&◌, ◌||◌, leb, ltb, min, length, Bool, true, false, Option, none, some,
  List, [], ◌∷◌, is_some, or_zero, if◌then◌else◌,
}
use gfap.Text.{Text}
use gfap.Text.Member.{url_of}
use gfap.Redis.{Redis}
use gfap.Frontier.{Store, FrontierConfig, UrlClass, DeadEntry}
use gfap.Frontier.Script.{Script, pure, call, continue, ◌>>=◌, ◌>>◌, sum_over}
use gfap.Frontier.Script.Commands.{
  lmove_ready_processing, lrem_ready, lrem_processing, zadd_lease, zrem_lease, zrem_delayed,
  zadd_next, zrem_next, hset_dead, hdel_dead, hincrby_attempts, hdel_attempts, hget_strikes,
  hincrby_strikes, hdel_strikes, hset_barren, hincrby_barren, bf_add_url, hget_dead, zscore_next,
  range_next, range_delayed, range_lease, lrange_processing, zscore_lease,
}
use gfap.Frontier.Script.Admit.{
  check_dead, push_job, not_due, lua_admit_video, lua_admit_listing, schedule_due, schedule_one,
  admit_due, lua_listing_scheduler,
}
use gfap.Frontier.Script.Resolve.{
  lua_lease, lua_ack, count_barren, lua_complete_listing, lua_nack, set_quarantine, count_strikes,
  bury, delay_job, lua_fail, lua_terminal, Reply,
}
use gfap.Frontier.Script.Reconcile.{
  promote_one, lua_promote, reap_one, lua_reap, sweep_one, lua_sweep,
}

module _ {R : Redis} (P : Store R → Type 0) where
  -- A script that keeps the property, whether it ends or breaks off at any command.
  abbrev pub Keeps : {A : Type 0} → Script R A → Type 0
  Keeps m = (b : Option ℕ) (s : Store R) → P s → P (m b s).1

  pub call-Keeps :
      {A : Type 0} (f : Store R → A × Store R) → ((s : Store R) → P s → P (f s).1) → Keeps (call f)
  call-Keeps f h none s p = h s p
  call-Keeps f h (some zero) s p = p
  call-Keeps f h (some (suc n)) s p = h s p

  pub bind-Keeps :
      {A B : Type 0} (m : Script R A) (f : A → Script R B)
      → Keeps m
      → ((a : A) → Keeps (f a))
      → Keeps (m >>= f)
  bind-Keeps {A} {B} m f h k b s p = go (m b s) (h b s p)
    where
      go : (r : Option A × Store R × Option ℕ) → P r.1 → P (continue r.0 f r.2 r.1).1
      go (none, t, c) q = q
      go (some a, t, c) q = k a c t q

  pub if-Keeps :
      {A : Type 0} (b : Bool) (m k : Script R A) → Keeps m → Keeps k → Keeps (if b then m else k)
  if-Keeps true m k h l = h
  if-Keeps false m k h l = l

  pub sum_over-Keeps :
      {A : Type 0} (f : A → Script R ℕ)
      → ((a : A) → Keeps (f a))
      → (xs : List A) → Keeps (sum_over f xs)
  unfolding sum_over
  sum_over-Keeps f h [] b s p = p
  sum_over-Keeps f h (x ∷ xs) b s p =
      bind-Keeps (f x) (λ k. sum_over f xs >>= λ n. pure (k + n)) (h x)
        (λ k. bind-Keeps (sum_over f xs) (λ n. pure (k + n)) (sum_over-Keeps f h xs) (λ n c t q. q))
        b s p

  -- The commands, in the groups in which the scripts use them.
  pub record Lasting : Type 0 where
    pub others :
        (s : Store R) (dead : R.Hash DeadEntry) (attempts strikes barren : R.Hash ℕ) (next : R.Zset)
        → P s
        → P (record s {
          dead = dead;
          attempts = attempts;
          strikes = strikes;
          listing_barren = barren;
          listing_next = next;
        })
    pub dropped_ready : (s : Store R) (m : Text) → P s → P (record s { ready = R.lrem s.ready m })
    pub dropped_processing :
        (s : Store R) (m : Text) → P s → P (record s { processing = R.lrem s.processing m })
    pub dropped_lease : (s : Store R) (m : Text) → P s → P (record s { lease = R.zrem s.lease m })
    pub dropped_delayed :
        (s : Store R) (m : Text) → P s → P (record s { delayed = R.zrem s.delayed m })
    pub filtered : (s : Store R) (url : Text) → P s → P (record s { bloom = R.bf_add s.bloom url })
    pub pushed : (url : Text) → Keeps (push_job url)
    pub delays : (item url : Text) (n : ℕ) → Keeps (delay_job item url n)
    pub leased : (now timeout : ℕ) → Keeps (lua_lease now timeout)
