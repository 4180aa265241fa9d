-- ===== src/Startup/Bloom.antt =====
-- The Bloom filter at startup: BloomAddBatch (internal/storage/redis.go), EachVideoURL
-- (internal/storage/mongo.go) and reconcileBloomFromMongo (cmd/crawler/main.go).
use gfap.Base.{
  without, ℕ, ◌+◌, ◌≡◌, refl, arith, Bool, true, false, Option, none, some, List, [], ◌∷◌, ◌++◌,
  length, leb, if◌then◌else◌, All, All-map, All-last, All-get_elem?, get_elem?, under_if,
}
use gfap.Text.{Text}
use gfap.Redis.{Redis}
use gfap.Frontier.{Store, suppressed}
use gfap.Frontier.Live.{live}
use gfap.Frontier.Admission.{held}
use gfap.Frontier.Client.{Fault, refused, lost, raised, returns, admit_video}

abbrev pub bloom_reconcile_batch : ℕ
bloom_reconcile_batch = 5000

module _ (R : Redis) where
  open R use {Bloom, bf_exists, bf_add, bf_exists-bf_add_self, bf_exists-bf_add}

  unfoldable pub add_all : List Text → Bloom → Bloom
  add_all [] b = b
  add_all (url ∷ urls) b = add_all urls (bf_add b url)

  -- BloomAddBatch: whether Exec has no error, and the filter. Redis runs the commands
  -- after one that fails.
  unfoldable pub bloom_add_batch : Option Fault → List Text → Bloom → Bool × Bloom
  unfolding add_all
  bloom_add_batch none urls b = (true, add_all urls b)
  bloom_add_batch (some refused) urls b = (false, b)
  bloom_add_batch (some lost) urls b = (false, add_all urls b)
  bloom_add_batch (some (raised n)) urls b = (false, add_all (without n urls) b)

-- What the cursor yields: each document's URL, or a document that does not decode; and whether the
-- cursor ends with an error.
pub record Cursor : Type 0 where
  pub documents : List (Option Text)
  pub fails : Bool

module _ {S : Type 0} (batch : ℕ) (fn : List Text → S → Bool × S) where
  abbrev and_then : (S → Bool × S) → Bool × S → Bool × S
  and_then k (true, s) = k s
  and_then k (false, s) = (false, s)

  -- The end of EachVideoURL.
  abbrev end_cursor : Bool → List Text → S → Bool × S
  end_cursor true urls s = (false, s)
  end_cursor false [] s = (true, s)
  end_cursor false (url ∷ urls) s = fn (url ∷ urls) s

  -- The loop of EachVideoURL, with the URLs that wait for the next call.
  unfoldable pub each_from : Bool → List (Option Text) → List Text → S → Bool × S
  each_from broken [] urls s = end_cursor broken urls s
  each_from broken (none ∷ documents) urls s = (false, s)
  each_from broken (some url ∷ documents) urls s =
      let more = urls ++ url ∷ [] in
      let flush = and_then (each_from broken documents []) (fn more s) in
      let wait = each_from broken documents more s in
      if leb batch (length more) then flush else wait

  unfoldable pub each_video_url : Cursor → S → Bool × S
  unfolding each_from
  each_video_url cursor s = each_from cursor.fails cursor.documents [] s

module _ (R : Redis) (net : ℕ → Option Fault) where
  -- The filter, behind the number of batches sent.
  abbrev pub Progress : Type 0
  Progress = ℕ × R.Bloom

  abbrev pub send : List Text → Progress → Bool × Progress
  send urls (n, b) = let (ok, c) = bloom_add_batch R (net n) urls b in (ok, (n + 1, c))

  -- reconcileBloomFromMongo, which ends the program where this is false.
  unfoldable pub reconcile_bloom_from_mongo : Cursor → R.Bloom → Bool × Progress
  unfolding each_video_url bloom_add_batch
  reconcile_bloom_from_mongo cursor b = each_video_url bloom_reconcile_batch send cursor (0, b)

  -- The filter holds a URL.
  abbrev Holds : R.Bloom → Text → Type 0
  Holds b url = R.bf_exists b url ≡ true

  -- One filter holds whatever the other does.
  abbrev Extends : R.Bloom → R.Bloom → Type 0
  Extends b c = (url : Text) → Holds b url → Holds c url

  Extends-add_all : (urls : List Text) (b : R.Bloom) → Extends b (add_all R urls b)
  unfolding add_all
  Extends-add_all [] b url h = h
  Extends-add_all (u ∷ urls) b url h =
      Extends-add_all urls (R.bf_add b u) url (R.bf_exists-bf_add b u url h)

  Holds-add_all : (urls : List Text) (b : R.Bloom) → All (Holds (add_all R urls b)) urls
  unfolding add_all
  Holds-add_all [] b = tt
  Holds-add_all (u ∷ urls) b = (
    Extends-add_all urls (R.bf_add b u) u (R.bf_exists-bf_add_self b u),
    Holds-add_all urls (R.bf_add b u),
  )

  send-Extends : (urls : List Text) (p : Progress) → Extends p.1 (send urls p).1.1
  unfolding bloom_add_batch
  send-Extends urls (n, b) = go (net n)
    where
      go : (fault : Option Fault) → Extends b (bloom_add_batch R fault urls b).1
      go none = Extends-add_all urls b
      go (some refused) = λ url h. h
      go (some lost) = Extends-add_all urls b
      go (some (raised k)) = Extends-add_all (without k urls) b

  send-Holds :
      (urls : List Text) (p : Progress)
      → (send urls p).0 ≡ true
      → All (Holds (send urls p).1.1) urls
  unfolding bloom_add_batch
  send-Holds urls (n, b) = go (net n)
    where
      go :
          (fault : Option Fault)
          → (bloom_add_batch R fault urls b).0 ≡ true
          → All (Holds (bloom_add_batch R fault urls b).1) urls
      go none h = Holds-add_all urls b
      go (some refused) h = absurd (ground (arith, h))
      go (some lost) h = absurd (ground (arith, h))
      go (some (raised k)) h = absurd (ground (arith, h))

  -- The document was read, and the filter holds its URL.
  abbrev pub Filed : R.Bloom → Option Text → Type 0
  Filed b none = ⊥
  Filed b (some url) = Holds b url

  abbrev Reconciled : List (Option Text) → List Text → Progress → Bool × Progress → Type 0
  Reconciled documents urls p r =
      r.0 ≡ true → All (Filed r.1.1) documents × All (Holds r.1.1) urls × Extends p.1 r.1.1

  end_cursor-Reconciled :
      (broken : Bool) (urls : List Text) (p : Progress)
      → Reconciled [] urls p (end_cursor bloom_reconcile_batch send broken urls p)
  end_cursor-Reconciled true urls p h = absurd (ground (arith, h))
  end_cursor-Reconciled false [] p h = (tt, tt, λ url k. k)
  end_cursor-Reconciled false (u ∷ urls) p h =
      (tt, send-Holds (u ∷ urls) p h, send-Extends (u ∷ urls) p)

  flush-Reconciled :
      (url : Text) (documents : List (Option Text)) (urls : List Text) (p : Progress)
      (rest : Progress → Bool × Progress)
      → ((q : Progress) → Reconciled documents [] q (rest q))
      → Reconciled
          (some url ∷ documents)
          urls
          p
          (and_then bloom_reconcile_batch send rest (send (urls ++ url ∷ []) p))
  flush-Reconciled url documents urls p rest step =
      go (send (urls ++ url ∷ []) p) (send-Holds (urls ++ url ∷ []) p)
        (send-Extends (urls ++ url ∷ []) p)
    where
      go :
          (r : Bool × Progress)
          → (r.0 ≡ true → All (Holds r.1.1) (urls ++ url ∷ []))
          → Extends p.1 r.1.1
          → Reconciled (some url ∷ documents) urls p (and_then bloom_reconcile_batch send rest r)
      go (false, q) holds more h = absurd (ground (arith, h))
      go (true, q) holds more h =
          let (docs, none_wait, further) = step q h in
          let (old, new) =
            All-last (Holds _) urls url
              (All-map (Holds _) (Holds _) (urls ++ url ∷ []) further (holds refl)) in
          ((new, docs), old, λ u k. further u (more u k))

  each_from-Reconciled :
      (broken : Bool) (documents : List (Option Text)) (urls : List Text) (p : Progress)
      → Reconciled documents urls p (each_from bloom_reconcile_batch send broken documents urls p)
  unfolding each_from
  each_from-Reconciled broken [] urls p = end_cursor-Reconciled broken urls p
  each_from-Reconciled broken (none ∷ documents) urls p = λ h. absurd (ground (arith, h))
  each_from-Reconciled broken (some url ∷ documents) urls p =
      under_if (Reconciled (some url ∷ documents) urls p)
        (leb bloom_reconcile_batch (length (urls ++ url ∷ [])))
        (λ full.
          flush-Reconciled url documents urls p
            (each_from bloom_reconcile_batch send broken documents [])
            (each_from-Reconciled broken documents []))
        λ room h.
          let (docs, all, further) = each_from-Reconciled broken documents (urls ++ url ∷ []) p h in
          let (old, new) = All-last (Holds _) urls url all in ((new, docs), old, further)

  -- Where the reconciliation ends without an error, the filter holds the URL of every document of
  -- the cursor, and all that it held before.
  pub reconcile_correct :
      (cursor : Cursor) (b : R.Bloom)
      → (reconcile_bloom_from_mongo cursor b).0 ≡ true
      → let c = (reconcile_bloom_from_mongo cursor b).1.1 in
        All (Filed c) cursor.documents
        × ((url : Text) → R.bf_exists b url ≡ true → R.bf_exists c url ≡ true)
  unfolding reconcile_bloom_from_mongo each_video_url
  reconcile_correct cursor b h =
      let (docs, none_wait, more) =
        each_from-Reconciled cursor.fails cursor.documents [] (0, b) h in
      (docs, more)

  -- After a reconciliation that ends without an error no video that the collection holds is
  -- admitted: the admission replies that it is suppressed, and no job comes or goes.
  pub stored_video_suppressed :
      (cursor : Cursor) (s : Store R) (i now : ℕ) (url : Text)
      → (reconcile_bloom_from_mongo cursor s.bloom).0 ≡ true
      → get_elem? cursor.documents i ≡ some (some url)
      → let t = record s { bloom = (reconcile_bloom_from_mongo cursor s.bloom).1.1 } in
        ((admit_video none now url t).0 ≡ returns suppressed)
        × ((x : Text) → live R x (admit_video none now url t).1 ≡ live R x t)
  stored_video_suppressed cursor s i now url ok stored = held R now url _ (
      All-get_elem? (Filed _) cursor.documents i (some url) (reconcile_correct cursor s.bloom ok).0
        stored)
