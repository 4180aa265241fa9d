-- ===== src/Frontier/Script/Resolve.antt =====
-- luaLease, and the scripts that resolve a leased job: luaAck, luaCompleteListing, luaNack,
-- luaFail and luaTerminal. All of these begin with the fence, the ZREM of the lease.
use gfap.Base.{
  ℕ, ◌+◌, ◌*◌, ◌^◌, min, ◌==◌, Option, none, some, List, ◌∷◌, Bool, ◌&&◌, ltb, leb, or_zero,
  get_elem?, length, if◌then◌else◌,
}
use gfap.Text.{Text}
use gfap.Text.Member.{member}
use gfap.Redis.{Redis}
use gfap.Frontier.Script.{Script, pure, ◌>>=◌, ◌>>◌}
use gfap.Frontier.Script.Admit.{push_job}
use gfap.Frontier.Script.Commands.{
  incr_seq, lmove_ready_processing, lrem_processing, zadd_lease, zrem_lease, zadd_delayed,
  zadd_next, hset_dead, hdel_dead, hincrby_attempts, hdel_attempts, hget_strikes, hincrby_strikes,
  hdel_strikes, hset_barren, hincrby_barren,
}

-- What a script returns: 'STALE', 'OK', 'DEAD' or 'DELAYED'.
pub data Reply : Type 0 where
  stale ok dead delayed : Reply

-- The interval to the next visit: doubled for each barren one, up to the maximum.
unfoldable pub listing_ttl : ℕ → ℕ → ℕ → ℕ
listing_ttl base_ttl max_ttl barren =
    let ttl = base_ttl * 2 ^ barren in if ltb max_ttl ttl then max_ttl else ttl

-- ARGV[7 + i], where ARGV[7] is the quarantine's end and the ladder follows it.
unfoldable pub backoff_at : ℕ → List ℕ → ℕ → ℕ
backoff_at dead_until ladder i = or_zero (get_elem? (dead_until ∷ ladder) i)

module _ {R : Redis} where
  unfoldable pub grant : ℕ → ℕ → Option Text → Script R (Option Text)
  grant now timeout none = pure none
  grant now timeout (some item) = do zadd_lease item (now + timeout); pure (some item)

  unfoldable pub lua_lease : ℕ → ℕ → Script R (Option Text)
  unfolding grant
  lua_lease now timeout = do item ← lmove_ready_processing; grant now timeout item

  unfoldable pub lua_ack : Text → Text → Script R Reply
  lua_ack item url = do
    removed ← zrem_lease item
    if removed == 0
        then pure stale
        else do lrem_processing item; hdel_attempts url; hdel_strikes url; pure ok

  -- The barren count after a visit that found `new_children` new URLs.
  unfoldable pub count_barren : Text → ℕ → Script R ℕ
  count_barren url new_children =
      if ltb 0 new_children then (do hset_barren url 0; pure 0) else hincrby_barren url

  unfoldable pub lua_complete_listing : Text → Text → ℕ → ℕ → ℕ → ℕ → Script R Reply
  unfolding count_barren
  lua_complete_listing item url new_children now base_ttl max_ttl = do
    removed ← zrem_lease item
    if removed == 0 then pure stale else do
      barren ← count_barren url new_children
      zadd_next url (now + listing_ttl base_ttl max_ttl barren)
      hdel_dead url
      lrem_processing item
      hdel_attempts url
      hdel_strikes url
      pure ok

  unfoldable pub lua_nack : Text → Text → Script R Reply
  unfolding push_job
  lua_nack item url = do
    removed ← zrem_lease item
    if removed == 0 then pure stale else do push_job url; lrem_processing item; pure ok

  unfoldable pub set_quarantine : Text → ℕ → Script R Unit
  set_quarantine url until = if ltb 0 until then zadd_next url until else pure tt

  -- The strikes after this failure.
  unfoldable pub count_strikes : Text → Bool → Script R ℕ
  count_strikes url inc_strike = do
    strikes ← hget_strikes url
    if inc_strike then hincrby_strikes url else pure strikes

  unfoldable pub bury : Text → Text → Text → ℕ → Script R Reply
  unfolding set_quarantine
  bury item url reason until = do
    set_quarantine url until
    hset_dead url reason until
    lrem_processing item
    hdel_attempts url
    hdel_strikes url
    pure ok

  unfoldable pub delay_job : Text → Text → ℕ → Script R Reply
  delay_job item url next_attempt = do
    n ← incr_seq
    zadd_delayed (member n url) next_attempt
    lrem_processing item
    pure delayed

  unfoldable pub lua_fail : Text → Text → Bool → ℕ → ℕ → Text → ℕ → List ℕ → Script R Reply
  unfolding count_strikes bury delay_job
  lua_fail item url inc_strike max_strikes now reason dead_until ladder = do
    removed ← zrem_lease item
    if removed == 0 then pure stale else do
      attempts ← hincrby_attempts url
      strikes ← count_strikes url inc_strike
      if inc_strike && leb max_strikes strikes
          then (do bury item url reason dead_until; pure dead)
          else delay_job item url
              (now + backoff_at dead_until ladder (min attempts (length ladder)))

  unfoldable pub lua_terminal : Text → Text → Text → ℕ → Script R Reply
  unfolding bury
  lua_terminal item url reason until = do
    removed ← zrem_lease item
    if removed == 0 then pure stale else bury item url reason until
