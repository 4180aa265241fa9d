-- ===== src/Frontier/Live.antt =====
-- The frontier seen as a multiset of live jobs: how often a member stands in the ready list, the
-- processing list and the delayed set together, and what each command changes of that.
use gfap.Base.{ℕ, ◌+◌, ◌-◌, ◌≡◌, ◌≤◌, none, some, ite, is_some, if◌then◌else◌, arith}
use gfap.Text.{Text, dec_text}
use gfap.Redis.{Redis}
use gfap.Redis.Lists.{same, occurs}
use gfap.Frontier.{Store}

module _ (R : Redis) where
  open R use {RList, Zset, zscore, zadd, zscore-zadd, zrem, zscore-zrem}

  -- 1 if the member has a score, else 0.
  pub scored : Text → Zset → ℕ
  scored x z = if is_some (zscore z x) then 1 else 0

  pub scored-zadd :
      (x m : Text) (n : ℕ) (z : Zset) → scored x (zadd z m n) ≡ ite (dec_text m x) 1 (scored x z)
  unfolding scored
  scored-zadd x m n z = ground (arith, zscore-zadd z m n x)

  pub scored-zrem : (x m : Text) (z : Zset) → scored x (zrem z m) ≡ scored x z - same R m x
  unfolding scored
  scored-zrem x m z = ground (arith, zscore-zrem z m x)

  pub scored-le : (x : Text) (z : Zset) → scored x z ≤ 1
  unfolding scored
  scored-le x z = ground arith

  pub scored-some : (x : Text) (z : Zset) (n : ℕ) → zscore z x ≡ some n → scored x z ≡ 1
  unfolding scored
  scored-some x z n e = rw e

  pub scored-none : (x : Text) (z : Zset) → zscore z x ≡ none → scored x z ≡ 0
  unfolding scored
  scored-none x z e = rw e

  unfoldable pub live : Text → Store R → ℕ
  live x s = occurs R x s.ready + occurs R x s.processing + scored x s.delayed
