-- ===== src/CrawlState/Checkpoint.antt =====
-- Checkpoint (internal/storage/crawl_state.go): the scans of the three keys of the observations, and
-- the records that are saved in the collection batch by batch.
use gfap.Base.{
  ℕ, zero, suc, ◌+◌, Bool, false, Option, none, some, List, [], ◌∷◌, ite, if◌then◌else◌, ◌||◌,
  length, take, drop,
}
use gfap.Text.{Text, dec_text}
use gfap.Text.Search.{equal}
use gfap.Redis.{Redis}
use gfap.Frontier.{Store}
use gfap.CrawlState.{
  MongoCrawlRecord, Checked, accepted, rejected, UrlParser, failed, malformed_scan, not_restored,
}
use gfap.CrawlState.Session.{Session, Step, Line, CrawlStateStore, next_request, check_identity}
use gfap.CrawlState.Tuples.{read_redis_crawl_records}
use gfap.CrawlState.Batch.{crawl_state_batch_size}

pub record CheckpointStats : Type 0 where
  pub observed : ℕ
  pub batches : ℕ
  pub upserted : ℕ
  pub modified : ℕ

-- The collection, by `_id`.
abbrev pub Collection : Type 0
Collection = Text → Option MongoCrawlRecord

-- What an ordered BulkWrite comes to: all of its writes, or those before an error, and the numbers
-- that it reports.
pub data BulkOutcome : Type 0 where
  written : ℕ → ℕ → BulkOutcome
  stopped : ℕ → ℕ → ℕ → BulkOutcome

pub record Pass (R : Redis) : Type 0 where
  pub session : Session R
  pub collection : Collection
  pub stats : CheckpointStats

abbrev pub Act : Redis → Type 0 → Type 0
Act R A = Pass R → Checked A × Pass R

-- A scan's replies, the last with cursor 0: the keys and values in turn, or an error.
abbrev pub Scan : Type 0
Scan = List (Option (List Text))

-- ReplaceOne with upsert, and a number of such writes.
abbrev pub replace_one : MongoCrawlRecord → Collection → Collection
replace_one row stored url = ite (dec_text row.url url) (some row) (stored url)

unfoldable pub replace_all : List MongoCrawlRecord → Collection → Collection
replace_all [] stored = stored
replace_all (row ∷ rows) stored = replace_all rows (replace_one row stored)

module _ {R : Redis} where
  abbrev pub proceed : {A B : Type 0} → Checked A → (A → Act R B) → Act R B
  proceed (accepted a) k p = k a p
  proceed (rejected e) k p = (rejected e, p)

  infixl 5 ◌>>=◌ ◌>>◌
  abbrev pub ◌>>=◌ : {A B : Type 0} → Act R A → (A → Act R B) → Act R B
  ◌>>=◌ m k p = let (r, q) = m p in proceed r k q

  abbrev pub ◌>>◌ : {A B : Type 0} → Act R A → Act R B → Act R B
  m >> n = m >>= λ _. n

  abbrev pub done : Act R Unit
  done p = (accepted tt, p)

  abbrev pub on_session : {A : Type 0} → Step R A → Act R A
  on_session m p = let (r, s) = m p.session in (r, record p { session = s })

  abbrev pub count_observed : ℕ → Act R Unit
  count_observed n p =
      (accepted tt, record p { stats = record p.stats { observed = p.stats.observed + n } })

  abbrev pub count_batch : Act R Unit
  count_batch p =
      (accepted tt, record p { stats = record p.stats { batches = p.stats.batches + 1 } })

  abbrev pub saved : List MongoCrawlRecord → ℕ → ℕ → Pass R → Pass R
  saved rows upserted modified p = record p {
    session = next_request p.session;
    collection = replace_all rows p.collection;
    stats = record p.stats {
      upserted = p.stats.upserted + upserted;
      modified = p.stats.modified + modified;
    };
  }

  abbrev pub bulk_result : BulkOutcome → List MongoCrawlRecord → Act R Unit
  bulk_result (written upserted modified) rows p = (accepted tt, saved rows upserted modified p)
  bulk_result (stopped n upserted modified) rows p =
      (rejected failed, saved (take n rows) upserted modified p)

-- Whether a key has been met.
abbrev pub seen_in : Text → List Text → Bool
seen_in url [] = false
seen_in url (x ∷ seen) = equal x url || seen_in url seen

-- The keys of a batch, each once.
unfoldable pub distinct : List Text → List Text → List Text
distinct seen [] = []
distinct seen (url ∷ keys) =
    let rest = distinct (url ∷ seen) keys in if seen_in url seen then rest else url ∷ rest

-- The keys of a reply, or `none` where a value is missing.
unfoldable pub keys_of : List Text → Option (List Text)
keys_of [] = some []
keys_of (key ∷ []) = none
keys_of (key ∷ value ∷ pairs) = elim (keys_of pairs) [ none ↦ none | some keys ↦ some (key ∷ keys) ]

-- The batches of a reply's keys. Each takes one key at least, so the keys' number is enough fuel.
unfoldable pub batches_of : ℕ → List Text → List (List Text)
batches_of zero keys = []
batches_of (suc fuel) [] = []
batches_of (suc fuel) (key ∷ keys) =
    take crawl_state_batch_size (key ∷ keys)
    ∷ batches_of fuel (drop crawl_state_batch_size (key ∷ keys))

module _ {R : Redis} (line : Line) (c : CrawlStateStore) (parse : UrlParser) (at : ℕ → Store R)
    (bulk : ℕ → BulkOutcome) where
  abbrev pub bulk_write : List MongoCrawlRecord → Act R Unit
  bulk_write rows p = bulk_result (bulk p.session.requests) rows p

  unfoldable pub save_batch : List Text → Act R Unit
  unfolding distinct read_redis_crawl_records replace_all
  save_batch keys = do
    rows ← on_session (read_redis_crawl_records line c parse at (distinct [] keys))
    count_observed (length rows)
    bulk_write rows
    count_batch

  unfoldable pub save_batches : List (List Text) → Act R Unit
  unfolding save_batch
  save_batches [] = done
  save_batches (keys ∷ batches) = save_batch keys >> save_batches batches

  abbrev pub save_keys : Option (List Text) → Act R Unit
  save_keys none p = (rejected malformed_scan, p)
  save_keys (some keys) p = save_batches (batches_of (length keys) keys) p

  abbrev pub save_reply : Option (List Text) → Act R Unit
  save_reply none p = (rejected failed, p)
  save_reply (some pairs) p = save_keys (keys_of pairs) p

  -- The context is checked before each request of the scan.
  abbrev pub scan_request : Act R Unit
  scan_request p =
      if (line p.session.requests).cancelled
      then (rejected failed, p)
      else (accepted tt, record p { session = next_request p.session })

  unfoldable pub save_scan : Scan → Act R Unit
  unfolding save_batches batches_of keys_of
  save_scan [] = done
  save_scan (reply ∷ replies) = do scan_request; save_reply reply; save_scan replies

  unfoldable pub save_scans : List Scan → Act R Unit
  unfolding save_scan
  save_scans [] = done
  save_scans (scan ∷ scans) = save_scan scan >> save_scans scans

  -- Checkpoint, with the scans of the three keys in their order.
  unfoldable pub checkpoint : Scan → Scan → Scan → Act R Unit
  unfolding save_scans check_identity
  checkpoint next barren dead p =
      if p.session.startup_complete
      then (do
        on_session (check_identity line c)
        save_scans (next ∷ barren ∷ dead ∷ [])
        on_session (check_identity line c))
          p
      else (rejected not_restored, p)
