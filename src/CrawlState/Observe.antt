-- ===== src/CrawlState/Observe.antt =====
-- The records that readRedisCrawlRecords makes of the replies to one transaction
-- (internal/storage/crawl_state.go).
use gfap.Base.{ℕ, Option, none, some, List, [], ◌∷◌, if◌then◌else◌, ltb}
use gfap.Text.{Text}
use gfap.Text.Decimal.{itoa}
use gfap.Text.Integer.{ℤ, pos, atoi}
use gfap.Redis.{Redis}
use gfap.Frontier.{Store, DeadEntry, pending_score}
use gfap.CrawlState.{
  MongoDeadRecord, MongoCrawlRecord, Checked, accepted, rejected, require, unless, ◌>>=◌, ◌>>◌,
  UrlParser, invalid_score, invalid_barren,
}
use gfap.CrawlState.Record.{validate, is_negative}
use gfap.CrawlState.Dead.{dead_text, parse_dead}

-- The score of a listing; the program writes no score that is no whole number.
abbrev pub read_next : Option ℕ → Checked (Option ℤ)
read_next none = accepted none
read_next (some n) = if ltb pending_score n then rejected invalid_score else accepted (some (pos n))

-- The count's text as a number.
abbrev pub read_barren : Option ℕ → Checked ℤ
read_barren none = accepted (pos 0)
read_barren (some n) = do
  barren ← require invalid_barren (atoi (itoa n))
  unless invalid_barren (is_negative barren)
  accepted barren

abbrev pub read_dead : Option DeadEntry → Checked (Option MongoDeadRecord)
read_dead none = accepted none
read_dead (some d) = parse_dead (dead_text d) >>= λ dead. accepted (some dead)

module _ {R : Redis} (parse : UrlParser) where
  open R use {zscore, hget}

  unfoldable pub read_record : Store R → Text → Checked MongoCrawlRecord
  unfolding parse_dead dead_text validate itoa atoi
  read_record s url = do
    next ← read_next (zscore s.listing_next url)
    barren ← read_barren (hget s.listing_barren url)
    dead ← read_dead (hget s.dead url)
    validate parse
        (record { url = url; schema = pos 1; next_due = next; barren = barren; dead = dead })

  unfoldable pub read_records : Store R → List Text → Checked (List MongoCrawlRecord)
  unfolding read_record
  read_records s [] = accepted []
  read_records s (url ∷ urls) = do
    row ← read_record s url
    rows ← read_records s urls
    accepted (row ∷ rows)
