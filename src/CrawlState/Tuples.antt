-- ===== src/CrawlState/Tuples.antt =====
-- readRedisCrawlRecords (internal/storage/crawl_state.go): the records of a batch of URLs, as one
-- transaction of Redis finds them.
use gfap.Base.{ℕ, ◌≡◌, sym, subst, arith, Option, none, some, List}
use gfap.Text.{Text}
use gfap.Redis.{Redis}
use gfap.Frontier.{Store}
use gfap.Frontier.Client.{Fault}
use gfap.CrawlState.{MongoCrawlRecord, Checked, accepted, rejected, UrlParser, failed}
use gfap.CrawlState.Session.{
  Session, Step, Line, CrawlStateStore, next_request, lift, check_identity, ◌>>=◌, ◌>>◌,
}
use gfap.CrawlState.Codec.{accepted_inj}
use gfap.CrawlState.Steps.{bind-elim}
use gfap.CrawlState.Observe.{read_records}

-- The transaction's replies.
abbrev pub replies : {R : Redis} → Store R → Option Fault → Checked (Store R)
replies s none = accepted s
replies s (some fault) = rejected failed

-- `at` is what Redis holds when each request reaches it: the workers run on beside the checkpoint.
module _ {R : Redis} (line : Line) (c : CrawlStateStore) (parse : UrlParser)
    (at : ℕ → Store R) where
  abbrev pub tuples : Step R (Store R)
  tuples s = (replies (at s.requests) (line s.requests).fault, next_request s)

  unfoldable pub read_redis_crawl_records : List Text → Step R (List MongoCrawlRecord)
  unfolding check_identity read_records
  read_redis_crawl_records urls = do
    check_identity line c
    store ← tuples
    check_identity line c
    lift (read_records parse store urls)

module _ {R : Redis} (line : Line) (c : CrawlStateStore) (parse : UrlParser)
    (at : ℕ → Store R) where
  -- The records are those of the transaction's one moment.
  pub read_redis_crawl_records-observed :
      (urls : List Text) (s : Session R) (rows : List MongoCrawlRecord)
      → (read_redis_crawl_records line c parse at urls s).0 ≡ accepted rows
      → (i : ℕ) × (read_records parse (at i) urls ≡ accepted rows)
  unfolding read_redis_crawl_records
  read_redis_crawl_records-observed urls s rows =
      bind-elim Q (check_identity line c) (λ u. tuples line c parse at >>= reads) s
        (λ e h k. absurd (ground (arith, k)))
        λ u h.
          bind-elim Q (tuples line c parse at) reads (check_identity line c s).1
            (λ e k l. absurd (ground (arith, l)))
            λ store k.
              bind-elim Q (check_identity line c) (λ u. lift (read_records parse store urls)) _
                (λ e l j. absurd (ground (arith, j)))
                λ v l j. (
                  (check_identity line c s).1.requests,
                  subst (λ x. read_records parse x urls ≡ accepted rows)
                      (sym (same (check_identity line c s).1 store k)) j,
                )
    where
      Q : Checked (List MongoCrawlRecord) × Session R → Type 0
      Q r = r.0 ≡ accepted rows → (i : ℕ) × (read_records parse (at i) urls ≡ accepted rows)

      reads : Store R → Step R (List MongoCrawlRecord)
      reads store = check_identity line c >> lift (read_records parse store urls)

      same :
          (t : Session R) (store : Store R)
          → (tuples line c parse at t).0 ≡ accepted store
          → at t.requests ≡ store
      same t store k = go (line t.requests).fault k
        where
          go :
              (f : Option Fault)
              → replies (at t.requests) f ≡ accepted store
              → at t.requests ≡ store
          go none k = accepted_inj k
          go (some f) k = absurd (ground (arith, k))
