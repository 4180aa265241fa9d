-- ===== src/Tests/Reconcilers.antt =====
-- The theorems on the reconcilers, after a concrete history.
use gfap.Base.{ℕ, ◌≡◌, ◌≤◌, ◌<◌, none, some, arith, length, count}
use gfap.Text.{Text, dec_text}
use gfap.Redis.Model.{model}
use gfap.Frontier.{Store, default_frontier_config}
use gfap.Frontier.Script.Admit.{lua_listing_scheduler}
use gfap.Frontier.Script.Reconcile.{lua_reap, lua_promote}
use gfap.Frontier.History.{run, is_video, reached-Inv}
use gfap.Frontier.Invariant.{Inv}
use gfap.Frontier.Invariant.Reap.{reap_correct}
use gfap.Frontier.Invariant.Promote.{promote_correct}
use gfap.Frontier.Invariant.Schedule.{schedule_correct}
use gfap.Tests.{flushed}
use gfap.Tests.Frontier.{history, history-AllAllowed, flushed-IsFlushed}

abbrev reached : Store model
reached = run model default_frontier_config none history flushed

reached_well : Inv model (is_video model default_frontier_config none) reached
reached_well =
    reached-Inv model default_frontier_config none history flushed history-AllAllowed
      (flushed-IsFlushed default_frontier_config none)

reap_correct_example :
    let t = (lua_reap 900 100 none reached).1 in
    let due = model.zrangebyscore reached.lease 900 100 in
    Inv model (is_video model default_frontier_config none) t
    × ((lua_reap 900 100 none reached).0 ≡ some (length due))
    × ((x : Text) → 1 ≤ count dec_text x due → model.zscore t.lease x ≡ none)
    × ((x : Text) (n : ℕ)
        → model.zscore reached.lease x ≡ some n
        → 900 < n
        → model.zscore t.lease x ≡ some n)
    × (length due < 100 → (x : Text) (n : ℕ) → model.zscore t.lease x ≡ some n → 900 < n)
reap_correct_example =
    reap_correct model (is_video model default_frontier_config none) 900 100 reached reached_well

promote_correct_example :
    let t = (lua_promote 900 100 none reached).1 in
    let due = model.zrangebyscore reached.delayed 900 100 in
    Inv model (is_video model default_frontier_config none) t
    × ((lua_promote 900 100 none reached).0 ≡ some (length due))
    × ((x : Text) → 1 ≤ count dec_text x due → model.zscore t.delayed x ≡ none)
    × ((x : Text) (n : ℕ)
        → model.zscore reached.delayed x ≡ some n
        → 900 < n
        → model.zscore t.delayed x ≡ some n)
    × (length due < 100 → (x : Text) (n : ℕ) → model.zscore t.delayed x ≡ some n → 900 < n)
promote_correct_example =
    promote_correct model (is_video model default_frontier_config none) 900 100 reached reached_well

schedule_correct_example :
    let t = (lua_listing_scheduler 900 100 none reached).1 in
    let due = model.zrangebyscore reached.listing_next 900 100 in
    Inv model (is_video model default_frontier_config none) t
    × ((x : Text) (n : ℕ)
        → 1 ≤ count dec_text x due
        → model.zscore t.listing_next x ≡ some n
        → 900 < n)
    × ((x : Text)
        → count dec_text x due ≡ 0
        → model.zscore t.listing_next x ≡ model.zscore reached.listing_next x)
    × (length due < 100 → (x : Text) (n : ℕ) → model.zscore t.listing_next x ≡ some n → 900 < n)
schedule_correct_example =
    schedule_correct model (is_video model default_frontier_config none) 900 100 reached
      (omega arith) reached_well
