-- ===== src/Tests/Backup.antt =====
-- The theorems on the backup of the crawl state, at concrete records and servers.
use gfap.Base.{
  ℕ, ◌+◌, ◌≡◌, ◌⊎◌, ◌≤◌, inl, inr, refl, arith, true, false, none, some, [], ◌∷◌, count, ◌||◌,
}
use gfap.Text.{Text, codes, dec_text}
use gfap.Text.Integer.{pos}
use gfap.Text.Search.{split, trim_space}
use gfap.Redis.Model.{model}
use gfap.Frontier.{Store, pending_score}
use gfap.CrawlState.{MongoCrawlRecord, accepted, UrlParser}
use gfap.CrawlState.Record.{validate, encode, decode_mongo_crawl_record, keys, record_names}
use gfap.CrawlState.Codec.{decode-encode, decode_sound, IsDocumentOf}
use gfap.CrawlState.Session.{Session, CrawlStateStore, find_run_id, decode_marker, work_count}
use gfap.CrawlState.Batch.{mark, run_all, batch_commands}
use gfap.CrawlState.Restore.{restored, restore}
use gfap.CrawlState.Startup.{restore_protects}
use gfap.CrawlState.Barrier.{restore_answers, is_accepted}
use gfap.CrawlState.Kept.{Kept}
use gfap.CrawlState.Footprint.{Standing}
use gfap.CrawlState.Contained.{restore_contained}
use gfap.CrawlState.Observe.{read_record}
use gfap.CrawlState.Checkpoint.{BulkOutcome, written, Pass, Scan, checkpoint, keys_of}
use gfap.CrawlState.Exact.{checkpoint_exact}
use gfap.CrawlState.Covered.{checkpoint_covers, in_scan}
use gfap.CrawlState.Content.{observation, wanted, last_wins, stamp, batch_correct}
use gfap.CrawlState.Healthy.{healthy, checkpoint_of, Written}
use gfap.CrawlState.Complete.{Cold, restore_correct}
use gfap.CrawlState.Resume.{resumed, resume_correct}
use gfap.CrawlState.Restart.{restart_correct}
use gfap.Tests.{flushed, user_url, leased_store}

abbrev info : Text
info = codes "run_id:a"

abbrev backup : CrawlStateStore
backup = record { redis_run_id = codes "a"; source = codes "gfap.crawler_state_v1" }

abbrev clock : ℕ → ℕ
clock i = 1000 + i

abbrev parse : UrlParser
parse url = some (record {
  scheme = codes "https";
  hostname = codes "www.vidlii.com";
  has_user = false;
  fragment = [];
})

-- A channel whose job is alive, after two barren visits, in quarantine until 5000.
abbrev channel : MongoCrawlRecord
channel = record {
  url = user_url;
  schema = pos 1;
  next_due = some (pos pending_score);
  barren = pos 2;
  dead = some (record { reason = codes "timeout"; until = pos 5000 });
}

abbrev before : Store model
unfolding model
before = record flushed {
  listing_next = (user_url, pending_score) ∷ [];
  listing_barren = (user_url, 2) ∷ [];
  dead = (user_url, record { reason = codes "timeout"; until = 5000 }) ∷ [];
}

abbrev started : Store model → Session model
started s = record {
  server = record { store = s; marker = none };
  requests = 0;
  startup_complete = false;
}

channel-IsExact : read_record parse before user_url ≡ accepted channel
unfolding model read_record
channel-IsExact = refl

channel_valid : validate parse channel ≡ accepted channel
unfolding validate
channel_valid = refl

known : find_run_id (split 10 info) ≡ accepted backup.redis_run_id
unfolding find_run_id split trim_space
known = refl

no_work : work_count (started flushed).server.store ≡ 0
unfolding work_count model
no_work = refl

no_marker : decode_marker backup.source none ≡ accepted none
unfolding decode_marker
no_marker = refl

cold : Cold info clock backup known parse none (started flushed).server.store
unfolding model
cold = inr (refl, refl, refl)

restart_correct_example :
    let r =
      restore (healthy info clock) backup parse (checkpoint_of (channel ∷ [])) (started flushed) in
    (r.0 ≡ accepted (record { mode = restored; rows = 1 }))
    × ((i : ℕ) × (observation r.1.server.store user_url
          ≡ resumed (clock i) (observation before user_url)))
restart_correct_example =
    restart_correct info clock backup known parse before channel [] (started flushed) none 0 channel
      (channel-IsExact, tt) no_marker no_work cold refl

restore_correct_example :
    let r =
      restore (healthy info clock) backup parse (checkpoint_of (channel ∷ [])) (started flushed) in
    (r.0 ≡ accepted (record { mode = restored; rows = 1 }))
    × (r.1.server.marker ≡ some (mark backup (codes "complete")))
    × Written info clock backup known (channel ∷ []) flushed r.1.server.store
restore_correct_example =
    restore_correct info clock backup known parse channel [] (started flushed) none
      (channel_valid, tt) no_marker no_work cold

leased_busy : 1 ≤ work_count leased_store
unfolding work_count model
leased_busy = omega arith

restore_protects_example :
    (restore
      (healthy info clock)
      backup
      parse
      (checkpoint_of (channel ∷ []))
      (started leased_store)).1.server
    ≡ (started leased_store).server
restore_protects_example =
    restore_protects (healthy info clock) backup parse (checkpoint_of (channel ∷ []))
      (started leased_store) (inl leased_busy)

restore_contained_example :
    let t =
      (restore
        (healthy info clock)
        backup
        parse
        (checkpoint_of (channel ∷ []))
        (started flushed)).1 in
    Kept flushed t.server.store
    × ((t.server ≡ (started flushed).server) ⊎ Standing backup.source t.server.marker)
restore_contained_example =
    restore_contained (healthy info clock) backup parse (checkpoint_of (channel ∷ []))
      (started flushed)

restore_answers_example :
    let r =
      restore
        (healthy info clock)
        backup
        parse
        (checkpoint_of (channel ∷ []))
        (started leased_store) in
    r.1.startup_complete ≡ is_accepted r.0
restore_answers_example =
    restore_answers (healthy info clock) backup parse (checkpoint_of (channel ∷ []))
      (started leased_store)

resume_correct_example : wanted 1000 channel ≡ resumed 1000 (observation before user_url)
resume_correct_example = resume_correct parse 1000 before user_url channel channel-IsExact

decode-encode_example : decode_mongo_crawl_record parse (some (encode channel)) ≡ accepted channel
decode-encode_example = decode-encode parse channel channel_valid

decode_sound_example :
    IsDocumentOf channel (encode channel)
    × (validate parse channel ≡ accepted channel)
    × ((x : Text) → count dec_text x (keys (encode channel)) ≡ count dec_text x record_names)
decode_sound_example = decode_sound parse (encode channel) channel decode-encode_example

-- One reply names the channel, and the bulk write goes well.
abbrev scan : Scan
scan = some (user_url ∷ codes "253402300799" ∷ []) ∷ []

abbrev all_written : ℕ → BulkOutcome
all_written i = written 1 0

abbrev pass : Pass model
pass = record {
  session = record (started before) { startup_complete = true };
  collection = λ url. none;
  stats = record { observed = 0; batches = 0; upserted = 0; modified = 0 };
}

scan_names_channel : (in_scan user_url scan || in_scan user_url [] || in_scan user_url []) ≡ true
unfolding keys_of
scan_names_channel = refl

pass_succeeds :
    (checkpoint (healthy info clock) backup parse (λ i. before) all_written scan [] [] pass).0
    ≡ accepted tt
unfolding checkpoint model split trim_space
pass_succeeds = refl

checkpoint_covers_example :
    (i : ℕ) × (row : MongoCrawlRecord) × ((checkpoint
          (healthy info clock)
          backup
          parse
          (λ i. before)
          all_written
          scan
          []
          []
          pass).1.collection
        user_url
      ≡ some row)
    × (read_record parse before user_url ≡ accepted row)
checkpoint_covers_example =
    checkpoint_covers (healthy info clock) backup parse (λ i. before) all_written user_url scan []
      [] pass scan_names_channel pass_succeeds

checkpoint_exact_example :
    let new =
      (checkpoint
        (healthy info clock)
        backup
        parse
        (λ i. before)
        all_written
        scan
        []
        []
        pass).1.collection in
    (new user_url ≡ none)
    ⊎ ((i : ℕ) × (row : MongoCrawlRecord) × (new user_url ≡ some row)
        × (read_record parse before user_url ≡ accepted row))
checkpoint_exact_example =
    checkpoint_exact (healthy info clock) backup parse (λ i. before) all_written scan [] [] pass
      user_url

batch_correct_example :
    observation (run_all (batch_commands 1000 (channel ∷ [])) flushed) user_url
    ≡ last_wins (stamp 1000 (channel ∷ [])) user_url (observation flushed user_url)
batch_correct_example = batch_correct 1000 (channel ∷ []) flushed user_url
