-- ===== src/Tests/Filter.antt =====
-- The reconciliation of the Bloom filter, at a concrete collection.
use gfap.Base.{ℕ, ◌≡◌, refl, Option, none, some, true, false, [], ◌∷◌, All}
use gfap.Text.{Text}
use gfap.Redis.Model.{model}
use gfap.Frontier.{suppressed}
use gfap.Frontier.Live.{live}
use gfap.Frontier.Client.{Fault, returns, admit_video}
use gfap.Startup.Bloom.{
  Cursor, Filed, reconcile_bloom_from_mongo, reconcile_correct, stored_video_suppressed,
}
use gfap.Tests.{flushed, video_url}

abbrev quiet : ℕ → Option Fault
quiet i = none

abbrev stored : Cursor
stored = record { documents = some video_url ∷ []; fails = false }

succeeds : (reconcile_bloom_from_mongo model quiet stored flushed.bloom).0 ≡ true
unfolding reconcile_bloom_from_mongo model
succeeds = refl

reconcile_correct_example :
    let c = (reconcile_bloom_from_mongo model quiet stored flushed.bloom).1.1 in
    All (Filed model quiet c) stored.documents
    × ((url : Text) → model.bf_exists flushed.bloom url ≡ true → model.bf_exists c url ≡ true)
reconcile_correct_example = reconcile_correct model quiet stored flushed.bloom succeeds

stored_video_suppressed_example :
    let t = record flushed {
      bloom = (reconcile_bloom_from_mongo model quiet stored flushed.bloom).1.1;
    } in
    ((admit_video none 100 video_url t).0 ≡ returns suppressed)
    × ((x : Text) → live model x (admit_video none 100 video_url t).1 ≡ live model x t)
stored_video_suppressed_example =
    stored_video_suppressed model quiet stored flushed 0 100 video_url succeeds refl
