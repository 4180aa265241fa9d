-- ===== src/Crawler/Stored.antt =====
-- What a worker counts and stores, and that it gives every job back.
use gfap.Base.{
  ℕ, ◌+◌, ◌≡◌, ◌⊎◌, refl, ap, ◌∙◌, arith, Bool, true, false, Option, none, some, List, [], ◌∷◌,
  ◌++◌, Bool-cases, inl, inr, if◌then◌else◌,
}
use gfap.Text.{Text}
use gfap.Text.Search.{contains, is_empty, equal}
use gfap.Redis.{Redis}
use gfap.Video.{Video}
use gfap.Frontier.{Job, AdmitResult}
use gfap.Frontier.Client.{
  Error, server, network, stale_lease, unexpected, Result, returns, fails, Fault, refused, lost,
  raised,
}
use gfap.Crawler.{
  PageKind, page_video, page_listing, page_not_found, page_retryable, page_unknown, page_cancelled,
  page_invalid_response, PageOutcome, Settings, World, Net,
}
use gfap.Crawler.Worker.{
  upsert, admit_url, enqueue_children, handle_outcome, handle, go_on, maybe_fatal_admission,
  nacking, count_new, record_video, mongo_upsert, stored_by, after_upsert, after_video,
  after_listing,
}

-- The stored video of a URL.
abbrev pub find : Text → List Video → Option Video
find url [] = none
find url (v ∷ vs) = if equal v.url url then some v else find url vs

equal_self : (s : Text) → equal s s ≡ true
equal_self [] = refl
equal_self (c ∷ s) = ground (arith, equal_self s)

-- Upsert stores the video under its URL, in place of the one that was there.
pub find-upsert : (v : Video) (vs : List Video) → find v.url (upsert v vs) ≡ some v
unfolding upsert
find-upsert v [] = rw (equal_self v.url) refl
find-upsert v (w ∷ ws) = elim (Bool-cases (equal w.url v.url)) [
  | inl same ↦ rw (same, equal_self v.url) refl
  | inr other ↦ rw (other, other) (find-upsert v ws)
]

module _ (R : Redis) (c : Settings) (net : Net) where
  -- A step that stores and counts nothing.
  abbrev Idle : World R → World R → Type 0
  Idle w t = (t.collection ≡ w.collection) × (t.count ≡ w.count) × (t.targets ≡ w.targets)

  Idle-then : (u v w : World R) → Idle u v → Idle v w → Idle u w
  Idle-then u v w (a, b, e) (a', b', e') = (a' ∙ a, b' ∙ b, e' ∙ e)

  admit_url-Idle : (raw : Text) (w : World R) → Idle w (admit_url net c raw w).1
  unfolding admit_url
  admit_url-Idle raw w = elim (Bool-cases (is_empty (c.canonicalize raw))) [
    | inl nothing ↦ rw nothing (refl, refl, refl)
    | inr url ↦ elim (Bool-cases (contains (c.canonicalize raw) c.video_pattern)) [
      | inl video ↦ rw (url, video) (refl, refl, refl)
      | inr listing ↦ rw (url, listing) (refl, refl, refl)
    ]
  ]

  go_on-Idle :
      (n : ℕ) (rest : ℕ → World R → ℕ × Option Error × World R) (s : World R)
      (res : Result AdmitResult) (w : World R)
      → ((k : ℕ) (v : World R) → Idle v (rest k v).2)
      → Idle s w
      → Idle s (go_on net c n rest res w).2
  go_on-Idle n rest s (fails e) w more so_far = so_far
  go_on-Idle n rest s (returns a) w more so_far =
      Idle-then s w (rest (count_new a n) w).2 so_far (more (count_new a n) w)

  enqueue_children-Idle :
      (links : List Text) (n : ℕ) (w : World R) → Idle w (enqueue_children net c links n w).2
  unfolding enqueue_children
  enqueue_children-Idle [] n w = (refl, refl, refl)
  enqueue_children-Idle (raw ∷ links) n w =
      go_on-Idle n (enqueue_children net c links) w (admit_url net c raw w).0
        (admit_url net c raw w).1 (enqueue_children-Idle links) (admit_url-Idle raw w)

  fatal-Idle : (e : Error) (w : World R) → Idle w (maybe_fatal_admission net e w)
  unfolding maybe_fatal_admission
  fatal-Idle server w = (refl, refl, refl)
  fatal-Idle network w = (refl, refl, refl)
  fatal-Idle stale_lease w = (refl, refl, refl)
  fatal-Idle unexpected w = (refl, refl, refl)

  module _ (j : Job) where
    after_video-Idle :
        (w : World R) (r : ℕ × Option Error × World R)
        → Idle w r.2
        → Idle w (after_video net c j r).1
    after_video-Idle w (n, none, t) h = h
    after_video-Idle w (n, some e, t) h =
        Idle-then w t (maybe_fatal_admission net e (nacking net c j t)) h
          (fatal-Idle e (nacking net c j t))

    after_listing-Idle :
        (w : World R) (r : ℕ × Option Error × World R)
        → Idle w r.2
        → Idle w (after_listing net c j r).1 × ((after_listing net c j r).0 ≡ false)
    after_listing-Idle w (n, none, t) h = (h, refl)
    after_listing-Idle w (n, some e, t) h = (
      Idle-then w t (maybe_fatal_admission net e (nacking net c j t)) h
          (fatal-Idle e (nacking net c j t)),
      refl,
    )

    abbrev Counts : PageKind → PageOutcome → World R → Bool × World R → Type 0
    Counts kind out w r =
        ((r.0 ≡ false) × (r.1.count ≡ w.count) × (r.1.targets ≡ w.targets))
        ⊎ ((kind ≡ page_video)
            × (find out.video.url r.1.collection ≡ some out.video)
            × (r.1.count ≡ w.count + 1)
            × (r.1.targets
                ≡ (if out.video.is_target then w.targets ++ out.video ∷ [] else w.targets)))

    stored_by-upsert :
        (fault : Option Fault) (v : Video) (vs : List Video)
        → (stored_by fault v vs).0 ≡ true
        → (stored_by fault v vs).1 ≡ upsert v vs
    stored_by-upsert none v vs h = refl
    stored_by-upsert (some lost) v vs h = refl
    stored_by-upsert (some refused) v vs h = absurd (ground (arith, h))
    stored_by-upsert (some (raised n)) v vs h = absurd (ground (arith, h))

    after_upsert-Counts :
        (out : PageOutcome) (w : World R) (r : Bool × World R)
        → r.1.count ≡ w.count
        → r.1.targets ≡ w.targets
        → (r.0 ≡ true → r.1.collection ≡ upsert out.video w.collection)
        → Counts page_video out w (after_upsert net c j out.video out.links r)
    unfolding record_video
    after_upsert-Counts out w (false, t) n ts stored = inl (refl, n, ts)
    after_upsert-Counts out w (true, t) n ts stored =
        let (vs, k, us) =
          after_video-Idle (record_video net out.video t)
            (enqueue_children net c out.links 0 (record_video net out.video t))
            (enqueue_children-Idle out.links 0 (record_video net out.video t)) in
        inr (
          refl,
          ap (find out.video.url) (vs ∙ stored refl) ∙ find-upsert out.video w.collection,
          k ∙ ap (λ m. m + 1) n,
          us ∙ ap (λ l. if out.video.is_target then l ++ out.video ∷ [] else l) ts,
        )

    handle-Counts :
        (out : PageOutcome) (kind : PageKind) (w : World R)
        → Counts kind out w (handle net c j kind out w)
    handle-Counts out page_video w =
        after_upsert-Counts out w (mongo_upsert net out.video w) refl refl
          (stored_by-upsert (net w.requests).0 out.video w.collection)
    handle-Counts out page_listing w =
        let ((vs, k, us), e) =
          after_listing-Idle w (enqueue_children net c out.links 0 w)
            (enqueue_children-Idle out.links 0 w) in
        inl (e, k, us)
    handle-Counts out page_not_found w = inl (refl, refl, refl)
    handle-Counts out page_retryable w = inl (refl, refl, refl)
    handle-Counts out page_unknown w = inl (refl, refl, refl)
    handle-Counts out page_cancelled w = inl (refl, refl, refl)
    handle-Counts out page_invalid_response w = inl (refl, refl, refl)

    -- Whatever the net does, an outcome is counted and may become a target only if it is a video
    -- that the collection holds from then on; and only such an outcome is reported as stored.
    pub handle_outcome-Counts :
        (out : PageOutcome) (w : World R) → Counts out.kind out w (handle_outcome net c j out w)
    unfolding handle_outcome
    handle_outcome-Counts out w = handle-Counts out out.kind w
