-- ===== src/Frontier/Script/Commands.antt =====
-- The Redis commands of the scripts, each on the key that it is called with.
use gfap.Base.{ℕ, ◌+◌, Option, none, some, List, is_some, or_zero, if◌then◌else◌}
use gfap.Text.{Text}
use gfap.Redis.{Redis}
use gfap.Frontier.{Store, DeadEntry}
use gfap.Frontier.Script.{Script, call, write, read}

-- LMOVE on no element replies nil and leaves both lists.
abbrev moved : {R : Redis} → Store R → Option (Text × R.RList × R.RList) → Option Text × Store R
moved s none = (none, s)
moved s (some (m, from, to)) = (some m, record s { ready = from; processing = to })

module _ {R : Redis} where
  open R use {
    lpush, lrem, lmove, last_items, zscore, zadd, zrem, zrangebyscore, hget, hset, hdel, bf_exists,
    bf_add,
  }

  abbrev pub incr_seq : Script R ℕ
  incr_seq = call (λ s. (s.seq + 1, record s { seq = s.seq + 1 }))

  abbrev pub lpush_ready : Text → Script R Unit
  lpush_ready m = write (λ s. record s { ready = lpush s.ready m })

  abbrev pub lrem_ready : Text → Script R Unit
  lrem_ready m = write (λ s. record s { ready = lrem s.ready m })

  abbrev pub lmove_ready_processing : Script R (Option Text)
  lmove_ready_processing = call (λ s. moved s (lmove s.ready s.processing))

  abbrev pub lrem_processing : Text → Script R Unit
  lrem_processing m = write (λ s. record s { processing = lrem s.processing m })

  abbrev pub lrange_processing : ℕ → Script R (List Text)
  lrange_processing limit = read (λ s. last_items s.processing limit)

  abbrev pub zadd_lease : Text → ℕ → Script R Unit
  zadd_lease m n = write (λ s. record s { lease = zadd s.lease m n })

  abbrev pub zscore_lease : Text → Script R (Option ℕ)
  zscore_lease m = read (λ s. zscore s.lease m)

  -- The reply of ZREM is the number of members removed.
  abbrev pub zrem_lease : Text → Script R ℕ
  zrem_lease m =
      call (λ s. (if is_some (zscore s.lease m) then 1 else 0, record s { lease = zrem s.lease m }))

  abbrev pub range_lease : ℕ → ℕ → Script R (List Text)
  range_lease max limit = read (λ s. zrangebyscore s.lease max limit)

  abbrev pub zadd_delayed : Text → ℕ → Script R Unit
  zadd_delayed m n = write (λ s. record s { delayed = zadd s.delayed m n })

  abbrev pub zrem_delayed : Text → Script R Unit
  zrem_delayed m = write (λ s. record s { delayed = zrem s.delayed m })

  abbrev pub range_delayed : ℕ → ℕ → Script R (List Text)
  range_delayed max limit = read (λ s. zrangebyscore s.delayed max limit)

  abbrev pub zscore_next : Text → Script R (Option ℕ)
  zscore_next url = read (λ s. zscore s.listing_next url)

  abbrev pub zadd_next : Text → ℕ → Script R Unit
  zadd_next url n = write (λ s. record s { listing_next = zadd s.listing_next url n })

  abbrev pub zrem_next : Text → Script R Unit
  zrem_next url = write (λ s. record s { listing_next = zrem s.listing_next url })

  abbrev pub range_next : ℕ → ℕ → Script R (List Text)
  range_next max limit = read (λ s. zrangebyscore s.listing_next max limit)

  abbrev pub hget_dead : Text → Script R (Option DeadEntry)
  hget_dead url = read (λ s. hget s.dead url)

  abbrev pub hset_dead : Text → Text → ℕ → Script R Unit
  hset_dead url reason until =
      write (λ s. record s { dead = hset s.dead url (record { reason = reason; until = until }) })

  abbrev pub hdel_dead : Text → Script R Unit
  hdel_dead url = write (λ s. record s { dead = hdel s.dead url })

  -- HINCRBY counts from 0 where the field is missing, and replies with the new value.
  abbrev pub hincrby_attempts : Text → Script R ℕ
  hincrby_attempts url = call (λ s. (
    or_zero (hget s.attempts url) + 1,
    record s { attempts = hset s.attempts url (or_zero (hget s.attempts url) + 1) },
  ))

  abbrev pub hdel_attempts : Text → Script R Unit
  hdel_attempts url = write (λ s. record s { attempts = hdel s.attempts url })

  -- `tonumber(redis.call('HGET', …) or '0')`
  abbrev pub hget_strikes : Text → Script R ℕ
  hget_strikes url = read (λ s. or_zero (hget s.strikes url))

  abbrev pub hincrby_strikes : Text → Script R ℕ
  hincrby_strikes url = call (λ s. (
    or_zero (hget s.strikes url) + 1,
    record s { strikes = hset s.strikes url (or_zero (hget s.strikes url) + 1) },
  ))

  abbrev pub hdel_strikes : Text → Script R Unit
  hdel_strikes url = write (λ s. record s { strikes = hdel s.strikes url })

  abbrev pub hset_barren : Text → ℕ → Script R Unit
  hset_barren url n = write (λ s. record s { listing_barren = hset s.listing_barren url n })

  abbrev pub hincrby_barren : Text → Script R ℕ
  hincrby_barren url = call (λ s. (
    or_zero (hget s.listing_barren url) + 1,
    record s {
      listing_barren = hset s.listing_barren url (or_zero (hget s.listing_barren url) + 1);
    },
  ))

  -- The reply of BF.ADD is 0 if the filter held the text before.
  abbrev pub bf_add_url : Text → Script R ℕ
  bf_add_url url =
      call (λ s. (if bf_exists s.bloom url then 0 else 1, record s { bloom = bf_add s.bloom url }))
