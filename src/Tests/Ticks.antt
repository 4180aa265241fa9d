-- ===== src/Tests/Ticks.antt =====
-- The drain loop of the listing scheduler at a concrete keyspace: the seed is due.
use gfap.Base.{Option, none, List, [], ◌∷◌}
use gfap.Redis.Model.{model}
use gfap.Frontier.{Store, default_frontier_config}
use gfap.Frontier.Client.{Fault}
use gfap.Frontier.History.{run, Call, seeds}
use gfap.Scheduler.{Metrics}
use gfap.Tests.{flushed, user_url}

abbrev seeding : List (Option Fault × Call)
seeding = (none, seeds user_url) ∷ []

abbrev seeded : Store model
seeded = run model default_frontier_config none seeding flushed

abbrev start : Metrics
start = record {
  reconcile_errors = 0;
  listings_admitted_total = 0;
  promoted_total = 0;
  reaped_total = 0;
  swept_total = 0;
}
