-- ===== src/Frontier.antt =====
-- internal/storage/frontier.go: the keys of the crawl frontier in Redis, as one record, and the
-- types of its interface. The Lua scripts are in Frontier/Script and its children, the Go methods
-- that run them in Frontier/Client.
pub mod Script
pub mod Client
pub mod Live
pub mod Invariant
pub mod History
pub mod Lasting
pub mod Loss
pub mod Fence
pub mod Policy
pub mod Admission
pub mod Ban
use gfap.Base.{ℕ, zero, suc, ◌+◌, ◌*◌, Option, none, some, List, [], ◌∷◌, ◌≡◌, refl}
use gfap.Text.{Text, codes}
use gfap.Redis.{Redis}

-- A listing's score while a job of it is alive (9999-12-31).
abbrev pub pending_score : ℕ
pending_score = 253402300799

-- A value of the hash crawler:dead, whose text is "<reason>|<until>"; `until = 0` is forever.
pub record DeadEntry : Type 0 where
  pub reason : Text
  pub until : ℕ

-- The keyspace. `seq` is 0 before the first INCR.
pub record Store (R : Redis) : Type 0 where
  pub seq : ℕ  -- crawler:job:seq
  pub ready : R.RList  -- crawler:ready
  pub processing : R.RList  -- crawler:processing
  pub lease : R.Zset  -- crawler:lease, member -> expiry
  pub delayed : R.Zset  -- crawler:delayed, member -> next attempt
  pub dead : R.Hash DeadEntry  -- crawler:dead
  pub attempts : R.Hash ℕ  -- crawler:attempts
  pub strikes : R.Hash ℕ  -- crawler:strikes
  pub listing_next : R.Zset  -- crawler:listing:next, url -> due or pending
  pub listing_barren : R.Hash ℕ  -- crawler:listing:barren
  pub bloom : R.Bloom  -- crawler:bloom

pub data AdmitResult : Type 0 where
  suppressed new due_revisit : AdmitResult

pub data FailClass : Type 0 where
  fail_rate_limited fail_strikeable : FailClass

pub data Disposition : Type 0 where
  delayed dead : Disposition

pub data UrlClass : Type 0 where
  class_video class_listing class_seed : UrlClass

pub record Job : Type 0 where
  pub id : Text
  pub url : Text
  pub class : UrlClass
  pub member : Text

-- Durations in whole seconds.
pub record FrontierConfig : Type 0 where
  pub lease_timeout : ℕ
  pub max_strikes : ℕ
  pub rate_limit_backoff : List ℕ
  pub strike_backoff : List ℕ
  pub listing_base_ttl : ℕ
  pub seed_ttl : ℕ
  pub listing_max_ttl : ℕ
  pub quarantine_listing : ℕ
  pub scheduler_batch_limit : ℕ

abbrev pub hour : ℕ
hour = 3600

abbrev pub default_frontier_config : FrontierConfig
default_frontier_config = record {
  lease_timeout = 600;
  max_strikes = 5;
  rate_limit_backoff = 300 ∷ 900 ∷ 2700 ∷ [];
  strike_backoff = 60 ∷ 300 ∷ 1500 ∷ [];
  listing_base_ttl = 72 * hour;
  seed_ttl = 24 * hour;
  listing_max_ttl = 21 * 24 * hour;
  quarantine_listing = 7 * 24 * hour;
  scheduler_batch_limit = 100;
}

abbrev pub promote_batch_limit : ℕ
promote_batch_limit = 100

abbrev pub reap_batch_limit : ℕ
reap_batch_limit = 100

abbrev pub sweep_batch_limit : ℕ
sweep_batch_limit = 100

pub record FrontierStats : Type 0 where
  pub ready : ℕ
  pub processing : ℕ
  pub delayed : ℕ
  pub listings_scheduled : ℕ
  pub listings_pending : ℕ
  pub dead : ℕ
  pub strikes : ℕ
