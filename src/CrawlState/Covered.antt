-- ===== src/CrawlState/Covered.antt =====
-- The URLs that a checkpoint covers (internal/storage/crawl_state.go).
use gfap.Base.{
  ℕ, ◌≡◌, inl, inr, refl, ◌∙◌, subst, arith, Bool, true, false, Option, none, some, List, [], ◌∷◌,
  if_pos, ◌||◌, length, under_if, Bool-cases,
}
use gfap.Text.{Text, dec_text}
use gfap.Text.Search.{equal, equal-true}
use gfap.Redis.{Redis}
use gfap.Frontier.{Store}
use gfap.CrawlState.{MongoCrawlRecord, Checked, accepted, UrlParser}
use gfap.CrawlState.Codec.{bind-accepted, accepted_inj}
use gfap.CrawlState.Observe.{read_record, read_records}
use gfap.CrawlState.Session.{Line, CrawlStateStore, check_identity}
use gfap.CrawlState.Tuples.{read_redis_crawl_records, read_redis_crawl_records-observed}
use gfap.CrawlState.Checkpoint.{
  Collection, BulkOutcome, written, stopped, Pass, Act, Scan, replace_one, replace_all, on_session,
  count_observed, count_batch, bulk_result, bulk_write, distinct, keys_of, batches_of, save_batch,
  save_batches, save_keys, save_reply, scan_request, save_scan, save_scans, checkpoint, ◌>>=◌, ◌>>◌,
  seen_in,
}
use gfap.CrawlState.Exact.{
  replace_all-Saves, read_records-IsExact, Observed, Saves, proceed-elim, url-read_record, Exactly,
  save_batches-Exactly, save_scan-Exactly, save_scans-Exactly,
}
use gfap.CrawlState.Batches.{seen_in-distinct, in_batches-batches_of, in_batches}

module _ {R : Redis} (parse : UrlParser) (at : ℕ → Store R) where
  still-Observed :
      (old new : Collection) (url : Text)
      → Saves parse at old new
      → Observed parse at old url
      → Observed parse at new url
  still-Observed old new url h (i, row, e, r) = elim (h url) [
    | inl same ↦ (i, row, same ∙ e, r)
    | inr o ↦ o
  ]

  replace_all-covers :
      (i : ℕ) (url : Text) (urls : List Text) (rows : List MongoCrawlRecord) (stored : Collection)
      → read_records parse (at i) urls ≡ accepted rows
      → seen_in url urls ≡ true
      → Observed parse at (replace_all rows stored) url
  unfolding read_records replace_all
  replace_all-covers i url [] rows stored e h = absurd (ground (arith, h))
  replace_all-covers i url (u ∷ urls) rows stored e h =
      let (row, e1, h1) = bind-accepted (read_record parse (at i) u) _ rows e in
      let (others, e2, h2) = bind-accepted (read_records parse (at i) urls) _ rows h1 in
      let same = url-read_record parse (at i) u row e1 in
      subst (λ rs. Observed parse at (replace_all rs stored) url) (accepted_inj h2)
        (elim (Bool-cases (equal u url)) [
          | inl k ↦
              let at_url = equal-true u url k in
              still-Observed (replace_one row stored) (replace_all others (replace_one row stored))
                url
                (replace_all-Saves parse at i others (replace_one row stored)
                  (read_records-IsExact parse (at i) urls others e2))
                (
                  i,
                  row,
                  if_pos (dec_text row.url url) (same ∙ at_url) (some row) (stored url),
                  subst (λ x. read_record parse (at i) x ≡ accepted row) at_url e1,
                )
          | inr k ↦
              replace_all-covers i url urls others (replace_one row stored) e2
                (ground (arith, k, h))
        ])

abbrev named : Text → Option (List Text) → Bool
named url none = false
named url (some keys) = seen_in url keys

-- Whether a scan's replies name a URL.
abbrev pub in_scan : Text → Scan → Bool
in_scan url [] = false
in_scan url (none ∷ replies) = in_scan url replies
in_scan url (some pairs ∷ replies) = named url (keys_of pairs) || in_scan url replies

module _ {R : Redis} (line : Line) (c : CrawlStateStore) (parse : UrlParser) (at : ℕ → Store R)
    (bulk : ℕ → BulkOutcome) (url : Text) where
  -- An act after which, where it succeeds, the collection's record of the URL is one of its requests'.
  abbrev Covers : {A : Type 0} → Act R A → Type 0
  Covers {A} m =
      (p : Pass R) (a : A) → (m p).0 ≡ accepted a → Observed parse at (m p).1.collection url

  bind_first :
      {A B : Type 0} (m : Act R A) (k : A → Act R B)
      → Covers m
      → ((a : A) → Exactly line c parse at bulk (k a))
      → Covers (m >>= k)
  bind_first m k f g p b =
      proceed-elim (λ r. r.0 ≡ accepted b → Observed parse at r.1.collection url) m k p
        (λ e h l. absurd (ground (arith, l)))
        λ a h l.
          still-Observed parse at (m p).1.collection (k a (m p).1).1.collection url (g a (m p).1)
            (f p a h)

  bind_second :
      {A B : Type 0} (m : Act R A) (k : A → Act R B) → ((a : A) → Covers (k a)) → Covers (m >>= k)
  bind_second m k f p b =
      proceed-elim (λ r. r.0 ≡ accepted b → Observed parse at r.1.collection url) m k p
        (λ e h l. absurd (ground (arith, l))) λ a h. f a (m p).1 b

  bulk_write-Covers :
      (urls : List Text) (rows : List MongoCrawlRecord) (i : ℕ)
      → read_records parse (at i) urls ≡ accepted rows
      → seen_in url urls ≡ true
      → Covers (bulk_write line c parse at bulk rows)
  bulk_write-Covers urls rows i e h p a = go (bulk p.session.requests)
    where
      go :
          (o : BulkOutcome)
          → (bulk_result o rows p).0 ≡ accepted a
          → Observed parse at (bulk_result o rows p).1.collection url
      go (written upserted modified) k =
          replace_all-covers parse at i url urls rows p.collection e h
      go (stopped n upserted modified) k = absurd (ground (arith, k))

  save_batch-Covers :
      (keys : List Text) → seen_in url keys ≡ true → Covers (save_batch line c parse at bulk keys)
  unfolding save_batch
  save_batch-Covers keys h p b =
      proceed-elim (λ r. r.0 ≡ accepted b → Observed parse at r.1.collection url) reads writes p
        (λ e k l. absurd (ground (arith, l)))
        λ rows k.
          (let (i, e) =
              read_redis_crawl_records-observed line c parse at (distinct [] keys) p.session rows
                k in
            bind_second (count_observed (length rows))
              (λ u. bulk_write line c parse at bulk rows >> count_batch)
              (λ u.
                bind_first (bulk_write line c parse at bulk rows) (λ v. count_batch)
                  (bulk_write-Covers (distinct [] keys) rows i e
                    (seen_in-distinct url [] keys h refl))
                  (λ v q x. inl refl))
              (reads p).1 b)
    where
      reads : Act R (List MongoCrawlRecord)
      reads = on_session (read_redis_crawl_records line c parse at (distinct [] keys))

      writes : List MongoCrawlRecord → Act R Unit
      writes rows =
          count_observed (length rows) >> (bulk_write line c parse at bulk rows >> count_batch)

  save_batches-Covers :
      (batches : List (List Text))
      → in_batches url batches ≡ true
      → Covers (save_batches line c parse at bulk batches)
  unfolding save_batches
  save_batches-Covers [] h p a k = absurd (ground (arith, h))
  save_batches-Covers (keys ∷ batches) h p a k = elim (Bool-cases (seen_in url keys)) [
    | inl e ↦
        bind_first (save_batch line c parse at bulk keys)
          (λ u. save_batches line c parse at bulk batches) (save_batch-Covers keys e)
          (λ u. save_batches-Exactly line c parse at bulk batches) p a k
    | inr e ↦
        bind_second (save_batch line c parse at bulk keys)
          (λ u. save_batches line c parse at bulk batches)
          (λ u. save_batches-Covers batches (ground (arith, e, h))) p a k
  ]

  save_keys-Covers :
      (keys : Option (List Text))
      → named url keys ≡ true
      → Covers (save_keys line c parse at bulk keys)
  save_keys-Covers none h p a k = absurd (ground (arith, h))
  save_keys-Covers (some keys) h p a k =
      save_batches-Covers (batches_of (length keys) keys)
        (in_batches-batches_of url (length keys) keys (omega arith) h) p a k

  save_scan-Covers :
      (scan : Scan) → in_scan url scan ≡ true → Covers (save_scan line c parse at bulk scan)
  unfolding save_scan
  save_scan-Covers [] h p a k = absurd (ground (arith, h))
  save_scan-Covers (none ∷ scan) h p a k =
      bind_second (scan_request line c parse at bulk)
        (λ u. save_reply line c parse at bulk none >> save_scan line c parse at bulk scan)
        (λ u.
          bind_second (save_reply line c parse at bulk none)
            (λ v. save_scan line c parse at bulk scan) (λ v. save_scan-Covers scan h))
        p a k
  save_scan-Covers (some pairs ∷ scan) h p a k =
      bind_second (scan_request line c parse at bulk)
        (λ u. save_keys line c parse at bulk (keys_of pairs) >> save_scan line c parse at bulk scan)
        (λ u. elim (Bool-cases (named url (keys_of pairs))) [
          | inl e ↦
              bind_first (save_reply line c parse at bulk (some pairs))
                (λ v. save_scan line c parse at bulk scan) (save_keys-Covers (keys_of pairs) e)
                (λ v. save_scan-Exactly line c parse at bulk scan)
          | inr e ↦
              bind_second (save_reply line c parse at bulk (some pairs))
                (λ v. save_scan line c parse at bulk scan)
                (λ v. save_scan-Covers scan (ground (arith, e, h)))
        ])
        p a k

  abbrev in_scans : List Scan → Bool
  in_scans [] = false
  in_scans (scan ∷ scans) = in_scan url scan || in_scans scans

  save_scans-Covers :
      (scans : List Scan) → in_scans scans ≡ true → Covers (save_scans line c parse at bulk scans)
  unfolding save_scans
  save_scans-Covers [] h p a k = absurd (ground (arith, h))
  save_scans-Covers (scan ∷ scans) h p a k = elim (Bool-cases (in_scan url scan)) [
    | inl e ↦
        bind_first (save_scan line c parse at bulk scan)
          (λ u. save_scans line c parse at bulk scans) (save_scan-Covers scan e)
          (λ u. save_scans-Exactly line c parse at bulk scans) p a k
    | inr e ↦
        bind_second (save_scan line c parse at bulk scan)
          (λ u. save_scans line c parse at bulk scans)
          (λ u. save_scans-Covers scans (ground (arith, e, h))) p a k
  ]

  -- After a checkpoint without an error, each URL that a scan of the three keys named has a record
  -- in the collection, and it is what Redis held of the URL when one of the requests met it.
  pub checkpoint_covers :
      (next barren dead : Scan) (p : Pass R)
      → (in_scan url next || in_scan url barren || in_scan url dead) ≡ true
      → (checkpoint line c parse at bulk next barren dead p).0 ≡ accepted tt
      → (i : ℕ) × (row : MongoCrawlRecord) × ((checkpoint line c parse at bulk next barren dead
              p).1.collection
            url
          ≡ some row)
        × (read_record parse (at i) url ≡ accepted row)
  unfolding checkpoint
  checkpoint_covers next barren dead p h =
      under_if
        (λ (r : Checked Unit × Pass R). r.0 ≡ accepted tt → Observed parse at r.1.collection url)
        p.session.startup_complete
        (λ on k.
          bind_second (on_session (check_identity line c))
            (λ u. scans >> on_session (check_identity line c))
            (λ u.
              bind_first scans (λ v. on_session (check_identity line c))
                (save_scans-Covers (next ∷ barren ∷ dead ∷ []) (named_by h)) (λ v q x. inl refl))
            p tt k)
        (λ off k. absurd (ground (arith, k)))
    where
      scans : Act R Unit
      scans = save_scans line c parse at bulk (next ∷ barren ∷ dead ∷ [])

      named_by :
          (in_scan url next || in_scan url barren || in_scan url dead) ≡ true
          → in_scans (next ∷ barren ∷ dead ∷ []) ≡ true
      named_by k = ground (arith, k)
