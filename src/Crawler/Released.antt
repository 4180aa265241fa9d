-- ===== src/Crawler/Released.antt =====
-- That a worker gives every job back, when the net is quiet.
use gfap.Base.{
  ℕ, ◌≡◌, refl, ap, ◌∙◌, Bool, true, false, Option, none, some, List, [], ◌∷◌, Bool-cases,
  Option-cases, inl, inr, ltb,
}
use gfap.Text.{Text}
use gfap.Text.Search.{contains, is_empty}
use gfap.Redis.{Redis}
use gfap.Video.{Video}
use gfap.Frontier.{Store, Job, AdmitResult, fail_rate_limited, fail_strikeable}
use gfap.Frontier.Script.Admit.{lua_admit_video, lua_admit_listing, check_dead, push_job}
use gfap.Frontier.Client.{
  Error, server, network, stale_lease, unexpected, Result, returns, fails, run_script, admit_video,
  admit_listing, terminal,
}
use gfap.Frontier.Fence.{Resolution, acks, nacks, failed, ends, completes, resolve, resolve_leased}
use gfap.Frontier.Admission.{refuses}
use gfap.Crawler.{
  PageKind, page_video, page_listing, page_not_found, page_retryable, page_unknown, page_cancelled,
  page_invalid_response, PageOutcome, Settings, World, Net,
}
use gfap.Crawler.Worker.{
  until_for, admit_url, enqueue_children, handle_outcome, handle, go_on, maybe_fatal_admission,
  nacking, count_new, record_video, mongo_upsert, after_upsert, after_video, after_listing,
}

module _ (R : Redis) where
  open R use {zscore, bf_exists}

  admit_video-lease :
      (now : ℕ) (url : Text) (s : Store R) → (admit_video none now url s).1.lease ≡ s.lease
  unfolding admit_video run_script lua_admit_video check_dead push_job
  admit_video-lease now url s = elim (Option-cases (R.hget s.dead url)) [
    | inl absent ↦ elim (Bool-cases (bf_exists s.bloom url)) [
      | inl known ↦ rw (absent, known) refl
      | inr unknown ↦ rw (absent, unknown) refl
    ]
    | inr (d, entry) ↦ elim (Bool-cases (refuses now d)) [
      | inl refused ↦ rw (entry, refused) refl
      | inr over ↦ elim (Bool-cases (bf_exists s.bloom url)) [
        | inl known ↦ rw (entry, over, known) refl
        | inr unknown ↦ rw (entry, over, unknown) refl
      ]
    ]
  ]

  scheduled-lease :
      (now : ℕ) (url : Text) (s : Store R)
      → R.hget s.dead url ≡ none
      → (admit_listing none now url s).1.lease ≡ s.lease
  unfolding admit_listing run_script lua_admit_listing check_dead push_job
  scheduled-lease now url s absent = elim (Option-cases (zscore s.listing_next url)) [
    | inl unseen ↦ rw (absent, unseen) refl
    | inr (n, e) ↦ elim (Bool-cases (ltb now n)) [
      | inl early ↦ rw (absent, e, early) refl
      | inr due ↦ rw (absent, e, due) refl
    ]
  ]

  admit_listing-lease :
      (now : ℕ) (url : Text) (s : Store R) → (admit_listing none now url s).1.lease ≡ s.lease
  unfolding admit_listing run_script lua_admit_listing check_dead push_job
  admit_listing-lease now url s = elim (Option-cases (R.hget s.dead url)) [
    | inl absent ↦ scheduled-lease now url s absent
    | inr (d, entry) ↦ elim (Bool-cases (refuses now d)) [
      | inl refused ↦ rw (entry, refused) refl
      | inr over ↦ elim (Option-cases (zscore s.listing_next url)) [
        | inl unseen ↦ rw (entry, over, unseen) refl
        | inr (n, e) ↦ elim (Bool-cases (ltb now n)) [
          | inl early ↦ rw (entry, over, e, early) refl
          | inr due ↦ rw (entry, over, e, due) refl
        ]
      ]
    ]
  ]

module _ (R : Redis) (c : Settings) (net : Net) (quiet : (i : ℕ) → (net i).0 ≡ none) where
  open R use {zscore}

  admit_url-lease :
      (raw : Text) (w : World R) → (admit_url net c raw w).1.store.lease ≡ w.store.lease
  unfolding admit_url
  admit_url-lease raw w = elim (Bool-cases (is_empty (c.canonicalize raw))) [
    | inl nothing ↦ rw nothing refl
    | inr url ↦ elim (Bool-cases (contains (c.canonicalize raw) c.video_pattern)) [
      | inl video ↦
          rw (url, video, quiet w.requests)
            (admit_video-lease R (net w.requests).1 (c.canonicalize raw) w.store)
      | inr listing ↦
          rw (url, listing, quiet w.requests)
            (admit_listing-lease R (net w.requests).1 (c.canonicalize raw) w.store)
    ]
  ]

  go_on-lease :
      (n : ℕ) (rest : ℕ → World R → ℕ × Option Error × World R) (s : World R)
      (res : Result AdmitResult) (w : World R)
      → ((k : ℕ) (v : World R) → (rest k v).2.store.lease ≡ v.store.lease)
      → w.store.lease ≡ s.store.lease
      → (go_on net c n rest res w).2.store.lease ≡ s.store.lease
  go_on-lease n rest s (fails e) w more so_far = so_far
  go_on-lease n rest s (returns a) w more so_far = more (count_new a n) w ∙ so_far

  enqueue_children-lease :
      (links : List Text) (n : ℕ) (w : World R)
      → (enqueue_children net c links n w).2.store.lease ≡ w.store.lease
  unfolding enqueue_children
  enqueue_children-lease [] n w = refl
  enqueue_children-lease (raw ∷ links) n w =
      go_on-lease n (enqueue_children net c links) w (admit_url net c raw w).0
        (admit_url net c raw w).1 (enqueue_children-lease links) (admit_url-lease raw w)

  fatal-lease : (e : Error) (w : World R) → (maybe_fatal_admission net e w).store ≡ w.store
  unfolding maybe_fatal_admission
  fatal-lease server w = refl
  fatal-lease network w = refl
  fatal-lease stale_lease w = refl
  fatal-lease unexpected w = refl

  module _ (j : Job) (n : ℕ) where
    abbrev Leased : World R → Type 0
    Leased w = zscore w.store.lease j.member ≡ some n

    abbrev Free : World R → Type 0
    Free w = zscore w.store.lease j.member ≡ none

    frees :
        (r : Resolution) (w : World R)
        → Leased w
        → zscore
            (resolve R c.frontier (net w.requests).0 (net w.requests).1 j r w.store).1.lease
            j.member
          ≡ none
    frees r w leased =
        rw (quiet w.requests)
          (resolve_leased R c.frontier (net w.requests).1 n j r w.store leased).1

    nacking-Free : (w : World R) → Leased w → Free (nacking net c j w)
    unfolding resolve
    nacking-Free w leased = frees nacks w leased

    after_video-Free :
        (r : ℕ × Option Error × World R) → Leased r.2 → Free (after_video net c j r).1
    unfolding resolve
    after_video-Free (k, none, w) leased = frees acks w leased
    after_video-Free (k, some e, w) leased =
        rw (fatal-lease e (nacking net c j w)) (nacking-Free w leased)

    after_listing-Free :
        (r : ℕ × Option Error × World R) → Leased r.2 → Free (after_listing net c j r).1
    unfolding resolve
    after_listing-Free (k, none, w) leased = frees (completes k) w leased
    after_listing-Free (k, some e, w) leased =
        rw (fatal-lease e (nacking net c j w)) (nacking-Free w leased)

    still-Leased :
        (links : List Text) (w : World R) → Leased w → Leased (enqueue_children net c links 0 w).2
    still-Leased links w leased =
        ap (λ z. zscore z j.member) (enqueue_children-lease links 0 w) ∙ leased

    upserted :
        (v : Video) (links : List Text) (r : Bool × World R)
        → Leased r.1
        → Free (after_upsert net c j v links r).1
    unfolding record_video
    upserted v links (false, w) leased = nacking-Free w leased
    upserted v links (true, w) leased =
        after_video-Free (enqueue_children net c links 0 (record_video net v w))
          (still-Leased links (record_video net v w) leased)

    -- Where no request fails, the worker gives back every job that it handles: whatever the
    -- outcome, a job that was leased before is not leased afterwards.
    pub handle_outcome_releases :
        (out : PageOutcome) (w : World R) → Leased w → Free (handle_outcome net c j out w).1
    unfolding handle_outcome terminal resolve
    handle_outcome_releases out w leased = go out.kind
      where
        go : (kind : PageKind) → Free (handle net c j kind out w).1
        go page_video = upserted out.video out.links (mongo_upsert net out.video w) leased
        go page_listing =
            after_listing-Free (enqueue_children net c out.links 0 w)
              (still-Leased out.links w leased)
        go page_not_found =
            frees (ends out.reason (until_for j.class c.quarantine (net w.requests).1)) w leased
        go page_retryable = frees (failed out.fail_class) w leased
        go page_unknown = frees (failed fail_strikeable) w leased
        go page_cancelled = nacking-Free w leased
        go page_invalid_response = frees (failed fail_rate_limited) w leased
