-- ===== src/Frontier/Script/Reconcile.antt =====
-- luaPromote, luaReap and luaSweep: jobs that wait for no worker go back to the ready list, each
-- under a fresh id.
use gfap.Base.{ℕ, ◌==◌, length, is_some, if◌then◌else◌}
use gfap.Text.{Text}
use gfap.Text.Member.{url_of}
use gfap.Redis.{Redis}
use gfap.Frontier.Script.{Script, pure, ◌>>=◌, ◌>>◌, sum_over}
use gfap.Frontier.Script.Admit.{push_job}
use gfap.Frontier.Script.Commands.{
  lrem_processing, lrange_processing, zscore_lease, zrem_lease, range_lease, zrem_delayed,
  range_delayed,
}

module _ {R : Redis} where
  unfoldable pub promote_one : Text → Script R ℕ
  unfolding push_job
  promote_one item = do push_job (url_of item); zrem_delayed item; pure 1

  -- `#due`, whatever the rounds add up to.
  unfoldable pub lua_promote : ℕ → ℕ → Script R ℕ
  unfolding promote_one sum_over
  lua_promote now limit = do
    due ← range_delayed now limit
    sum_over promote_one due
    pure (length due)

  unfoldable pub reap_one : Text → Script R ℕ
  unfolding push_job
  reap_one item = do
    removed ← zrem_lease item
    if removed == 1 then (do push_job (url_of item); lrem_processing item; pure 1) else pure 0

  unfoldable pub lua_reap : ℕ → ℕ → Script R ℕ
  unfolding reap_one sum_over
  lua_reap now limit = do expired ← range_lease now limit; sum_over reap_one expired

  unfoldable pub sweep_one : Text → Script R ℕ
  unfolding push_job
  sweep_one item = do
    leased ← zscore_lease item
    if is_some leased then pure 0 else (do push_job (url_of item); lrem_processing item; pure 1)

  unfoldable pub lua_sweep : ℕ → Script R ℕ
  unfolding sweep_one sum_over
  lua_sweep limit = do items ← lrange_processing limit; sum_over sweep_one items
