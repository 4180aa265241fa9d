-- ===== src/CrawlState/Exact.antt =====
-- What Checkpoint saves is what Redis held (internal/storage/crawl_state.go).
use gfap.Base.{
  ℕ, zero, suc, ◌≡◌, ◌⊎◌, inl, inr, refl, sym, ap, ◌∙◌, subst, Option, none, some, List, [], ◌∷◌,
  ite, length, take, All, under_if,
}
use gfap.Text.{Text, dec_text}
use gfap.Text.Integer.{pos}
use gfap.Redis.{Redis}
use gfap.Frontier.{Store}
use gfap.CrawlState.{MongoCrawlRecord, StateError, Checked, accepted, rejected, UrlParser}
use gfap.CrawlState.Codec.{bind-accepted, accepted_inj, validate_lem}
use gfap.CrawlState.Observe.{read_next, read_barren, read_dead, read_record, read_records}
use gfap.CrawlState.Session.{Line, CrawlStateStore, check_identity}
use gfap.CrawlState.Tuples.{read_redis_crawl_records, read_redis_crawl_records-observed}
use gfap.CrawlState.Checkpoint.{
  Collection, BulkOutcome, written, stopped, Pass, Act, Scan, replace_one, replace_all, proceed,
  on_session, count_observed, count_batch, bulk_result, bulk_write, distinct, keys_of, batches_of,
  save_batch, save_batches, save_keys, save_reply, scan_request, save_scan, save_scans, checkpoint,
  ◌>>=◌, ◌>>◌,
}

module _ {R : Redis} (parse : UrlParser) where
  -- The record that is read is that of its URL.
  pub url-read_record :
      (s : Store R) (url : Text) (row : MongoCrawlRecord)
      → read_record parse s url ≡ accepted row
      → row.url ≡ url
  unfolding read_record
  url-read_record s url row h =
      let (next, e1, h1) = bind-accepted (read_next (R.zscore s.listing_next url)) _ row h in
      let (barren, e2, h2) = bind-accepted (read_barren (R.hget s.listing_barren url)) _ row h1 in
      let (dead, e3, h3) = bind-accepted (read_dead (R.hget s.dead url)) _ row h2 in
      sym (
        ap (λ (r : MongoCrawlRecord). r.url)
          (validate_lem parse
            (record { url = url; schema = pos 1; next_due = next; barren = barren; dead = dead })
            row h3).0)

  -- A record of what a store holds of its URL.
  abbrev pub IsExact : Store R → MongoCrawlRecord → Type 0
  IsExact s row = read_record parse s row.url ≡ accepted row

  pub read_records-IsExact :
      (s : Store R) (urls : List Text) (rows : List MongoCrawlRecord)
      → read_records parse s urls ≡ accepted rows
      → All (IsExact s) rows
  unfolding read_records
  read_records-IsExact s [] rows h = subst (All (IsExact s)) (accepted_inj h) tt
  read_records-IsExact s (url ∷ urls) rows h =
      let (row, e1, h1) = bind-accepted (read_record parse s url) _ rows h in
      let (others, e2, h2) = bind-accepted (read_records parse s urls) _ rows h1 in
      subst (All (IsExact s)) (accepted_inj h2) (
        subst (λ u. read_record parse s u ≡ accepted row) (sym (url-read_record s url row e1)) e1,
        read_records-IsExact s urls others e2,
      )

  module _ (at : ℕ → Store R) where
    -- The collection's record of a URL is what Redis held of it at some request.
    abbrev pub Observed : Collection → Text → Type 0
    Observed stored url =
        (i : ℕ) × (row : MongoCrawlRecord) × (stored url ≡ some row)
        × (read_record parse (at i) url ≡ accepted row)

    -- Each record is the old one, or what Redis held of its URL at some request.
    abbrev pub Saves : Collection → Collection → Type 0
    Saves old new = (url : Text) → (new url ≡ old url) ⊎ Observed new url

    Saves-trans : (a b d : Collection) → Saves a b → Saves b d → Saves a d
    Saves-trans a b d h k url = go (h url) (k url)
      where
        go :
            (b url ≡ a url) ⊎ Observed b url
            → (d url ≡ b url) ⊎ Observed d url
            → (d url ≡ a url) ⊎ Observed d url
        go x (inr o) = inr o
        go (inl e) (inl f) = inl (f ∙ e)
        go (inr (i, row, e, r)) (inl f) = inr (i, row, f ∙ e, r)

    pub replace_one-Saves :
        (i : ℕ) (row : MongoCrawlRecord) (stored : Collection)
        → IsExact (at i) row
        → Saves stored (replace_one row stored)
    replace_one-Saves i row stored h url = go (dec_text row.url url)
      where
        go :
            (d : Dec (row.url ≡ url))
            → (ite d (some row) (stored url) ≡ stored url)
              ⊎ ((j : ℕ) × (r : MongoCrawlRecord) × (ite d (some row) (stored url) ≡ some r)
                  × (read_record parse (at j) url ≡ accepted r))
        go (yes e) = inr (i, row, refl, subst (λ u. read_record parse (at i) u ≡ accepted row) e h)
        go (no n) = inl refl

    pub replace_all-Saves :
        (i : ℕ) (rows : List MongoCrawlRecord) (stored : Collection)
        → All (IsExact (at i)) rows
        → Saves stored (replace_all rows stored)
    unfolding replace_all
    replace_all-Saves i [] stored h url = inl refl
    replace_all-Saves i (row ∷ rows) stored h url =
        Saves-trans stored (replace_one row stored) (replace_all rows (replace_one row stored))
          (replace_one-Saves i row stored h.0)
          (replace_all-Saves i rows (replace_one row stored) h.1) url

All-take : {A : Type 0} (P : A → Type 0) (n : ℕ) (xs : List A) → All P xs → All P (take n xs)
All-take P zero xs h = tt
All-take P (suc n) [] h = tt
All-take P (suc n) (x ∷ xs) h = (h.0, All-take P n xs h.1)

pub proceed-elim :
    {R : Redis} {A B : Type 0} (Q : Checked B × Pass R → Type 0) (m : Act R A) (k : A → Act R B)
    (p : Pass R)
    → ((e : StateError) → (m p).0 ≡ rejected e → Q (rejected e, (m p).1))
    → ((a : A) → (m p).0 ≡ accepted a → Q (k a (m p).1))
    → Q ((m >>= k) p)
proceed-elim {R} {A} {B} Q m k p = go (m p).0 (m p).1
  where
    go :
        (r : Checked A) (t : Pass R)
        → ((e : StateError) → r ≡ rejected e → Q (rejected e, t))
        → ((a : A) → r ≡ accepted a → Q (k a t))
        → Q (proceed r k t)
    go (accepted a) t f g = g a refl
    go (rejected e) t f g = f e refl

module _ {R : Redis} (line : Line) (c : CrawlStateStore) (parse : UrlParser) (at : ℕ → Store R)
    (bulk : ℕ → BulkOutcome) where
  abbrev pub Exactly : {A : Type 0} → Act R A → Type 0
  Exactly m = (p : Pass R) → Saves parse at p.collection (m p).1.collection

  pub bind-Exactly :
      {A B : Type 0} (m : Act R A) (k : A → Act R B)
      → Exactly m
      → ((a : A) → Exactly (k a))
      → Exactly (m >>= k)
  bind-Exactly m k f g p =
      proceed-elim (λ r. Saves parse at p.collection r.1.collection) m k p (λ e h. f p)
        λ a h.
          Saves-trans parse at p.collection (m p).1.collection (k a (m p).1).1.collection (f p)
            (g a (m p).1)

  pub bulk_write-Exactly :
      (i : ℕ) (rows : List MongoCrawlRecord)
      → All (IsExact parse (at i)) rows
      → Exactly (bulk_write line c parse at bulk rows)
  bulk_write-Exactly i rows h p = go (bulk p.session.requests)
    where
      go : (o : BulkOutcome) → Saves parse at p.collection (bulk_result o rows p).1.collection
      go (written upserted modified) = replace_all-Saves parse at i rows p.collection h
      go (stopped n upserted modified) =
          replace_all-Saves parse at i (take n rows) p.collection
            (All-take (IsExact parse (at i)) n rows h)

  pub save_batch-Exactly : (keys : List Text) → Exactly (save_batch line c parse at bulk keys)
  unfolding save_batch
  save_batch-Exactly keys p =
      proceed-elim (λ r. Saves parse at p.collection r.1.collection)
        (on_session (read_redis_crawl_records line c parse at (distinct [] keys))) writes p
        (λ e h url. inl refl)
        λ rows h.
          (let (i, e) =
              read_redis_crawl_records-observed line c parse at (distinct [] keys) p.session rows
                h in
            bind-Exactly (count_observed (length rows))
              (λ u. bulk_write line c parse at bulk rows >> count_batch) (λ q url. inl refl)
              (λ u.
                bind-Exactly (bulk_write line c parse at bulk rows) (λ v. count_batch)
                  (bulk_write-Exactly i rows
                    (read_records-IsExact parse (at i) (distinct [] keys) rows e))
                  (λ v q url. inl refl))
              (on_session (read_redis_crawl_records line c parse at (distinct [] keys)) p).1)
    where
      writes : List MongoCrawlRecord → Act R Unit
      writes rows =
          count_observed (length rows) >> (bulk_write line c parse at bulk rows >> count_batch)

  pub save_batches-Exactly :
      (batches : List (List Text)) → Exactly (save_batches line c parse at bulk batches)
  unfolding save_batches
  save_batches-Exactly [] p url = inl refl
  save_batches-Exactly (keys ∷ batches) p url =
      bind-Exactly (save_batch line c parse at bulk keys)
        (λ u. save_batches line c parse at bulk batches) (save_batch-Exactly keys)
        (λ u. save_batches-Exactly batches) p url

  pub save_reply-Exactly :
      (reply : Option (List Text)) → Exactly (save_reply line c parse at bulk reply)
  save_reply-Exactly none p url = inl refl
  save_reply-Exactly (some pairs) p url = go (keys_of pairs)
    where
      go :
          (keys : Option (List Text))
          → (λ (r : Checked Unit × Pass R).
                (r.1.collection url ≡ p.collection url) ⊎ Observed parse at r.1.collection url)
              (save_keys line c parse at bulk keys p)
      go none = inl refl
      go (some keys) = save_batches-Exactly (batches_of (length keys) keys) p url

  pub scan_request-Exactly : Exactly (scan_request line c parse at bulk)
  scan_request-Exactly p =
      under_if (λ (r : Checked Unit × Pass R). Saves parse at p.collection r.1.collection)
        (line p.session.requests).cancelled (λ h url. inl refl) (λ h url. inl refl)

  pub save_scan-Exactly : (scan : Scan) → Exactly (save_scan line c parse at bulk scan)
  unfolding save_scan
  save_scan-Exactly [] p url = inl refl
  save_scan-Exactly (reply ∷ scan) p url =
      bind-Exactly (scan_request line c parse at bulk)
        (λ u. save_reply line c parse at bulk reply >> save_scan line c parse at bulk scan)
        scan_request-Exactly
        (λ u.
          bind-Exactly (save_reply line c parse at bulk reply)
            (λ v. save_scan line c parse at bulk scan) (save_reply-Exactly reply)
            (λ v. save_scan-Exactly scan))
        p url

  pub save_scans-Exactly : (scans : List Scan) → Exactly (save_scans line c parse at bulk scans)
  unfolding save_scans
  save_scans-Exactly [] p url = inl refl
  save_scans-Exactly (scan ∷ scans) p url =
      bind-Exactly (save_scan line c parse at bulk scan)
        (λ u. save_scans line c parse at bulk scans) (save_scan-Exactly scan)
        (λ u. save_scans-Exactly scans) p url

  -- However a checkpoint ends, the collection's record of each URL is the one that was there before
  -- it or, exactly, what Redis held of the URL when one of the checkpoint's requests met it.
  pub checkpoint_exact :
      (next barren dead : Scan) (p : Pass R) (url : Text)
      → let new = (checkpoint line c parse at bulk next barren dead p).1.collection in
        (new url ≡ p.collection url)
        ⊎ ((i : ℕ) × (row : MongoCrawlRecord) × (new url ≡ some row)
            × (read_record parse (at i) url ≡ accepted row))
  unfolding checkpoint
  checkpoint_exact next barren dead p url =
      under_if
        (λ (r : Checked Unit × Pass R).
          (r.1.collection url ≡ p.collection url) ⊎ Observed parse at r.1.collection url)
        p.session.startup_complete
        (λ h.
          bind-Exactly (on_session (check_identity line c))
            (λ u. scans >> on_session (check_identity line c)) (λ q x. inl refl)
            (λ u.
              bind-Exactly scans (λ v. on_session (check_identity line c))
                (save_scans-Exactly (next ∷ barren ∷ dead ∷ [])) (λ v q x. inl refl))
            p url)
        (λ h. inl refl)
    where
      scans : Act R Unit
      scans = save_scans line c parse at bulk (next ∷ barren ∷ dead ∷ [])
