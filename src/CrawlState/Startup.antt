-- ===== src/CrawlState/Startup.antt =====
-- What Restore leaves alone, and when it lets the crawler start
-- (internal/storage/crawl_state_restore.go).
use gfap.Base.{
  ℕ, ◌≡◌, ◌≤◌, ◌⊎◌, inl, inr, refl, sym, ap, ◌∙◌, subst, arith, Bool, true, false, not, Option,
  none, some, ◌==◌, under_if,
}
use gfap.Text.{Text}
use gfap.Text.Search.{equal}
use gfap.Redis.{Redis}
use gfap.Frontier.Client.{Fault}
use gfap.CrawlState.{Checked, accepted, rejected, marker_mismatch, UrlParser}
use gfap.CrawlState.Codec.{accepted_inj}
use gfap.CrawlState.Session.{
  Session, Server, Step, Line, CrawlStateStore, RestoreMarker, RestoreState, MarkerText, json,
  malformed, restoring, is_known, ◌>>=◌, lift, set_complete, check_identity, redis_identity,
  same_process, read_startup_state, work_count, counted, with_marker, inspect, decode_marker,
}
use gfap.CrawlState.Steps.{bind-elim}
use gfap.CrawlState.Batch.{is_restoring}
use gfap.CrawlState.Restore.{
  RestoreStats, Mode, preserved, preserves, holds_state, Source, finish, finished, decide, restore,
}

-- A marker of a restore that has not ended.
abbrev pub unfinished : Option MarkerText → Bool
unfinished (some (json m)) = equal m.phase restoring
unfinished _ = false

is_restoring-decode_marker :
    (source : Text) (text : Option MarkerText) (m : Option RestoreMarker)
    → decode_marker source text ≡ accepted m
    → is_restoring m ≡ unfinished text
unfolding decode_marker
is_restoring-decode_marker source none m h = ap is_restoring (sym (accepted_inj h))
is_restoring-decode_marker source (some malformed) m h = absurd (ground (arith, h))
is_restoring-decode_marker source (some (json x)) m h =
    under_if
      (λ (r : Checked (Option RestoreMarker)).
        r ≡ accepted m → is_restoring m ≡ unfinished (some (json x)))
      (is_known source x) {x = accepted (some x)} {y = rejected marker_mismatch}
      (λ k e. ap is_restoring (sym (accepted_inj e))) (λ k e. absurd (ground (arith, e))) h

module _ {R : Redis} (line : Line) (c : CrawlStateStore) where
  -- The check of the identity, and the look at the keys, change no key.
  pub check_identity-same :
      (s : Session R)
      → ((check_identity line c s).1.server ≡ s.server)
        × ((check_identity line c s).1.startup_complete ≡ s.startup_complete)
  unfolding check_identity redis_identity
  check_identity-same s =
      under_if
        (λ (r : Checked Unit × Session R).
          (r.1.server ≡ s.server) × (r.1.startup_complete ≡ s.startup_complete))
        (line s.requests).cancelled (λ done. (refl, refl))
        λ live.
          bind-elim
            (λ (r : Checked Unit × Session R).
              (r.1.server ≡ s.server) × (r.1.startup_complete ≡ s.startup_complete))
            (redis_identity line) (λ id. lift (same_process c id)) s (λ e h. (refl, refl))
            (λ id h. (refl, refl))

  pub read_startup_state-same :
      (s : Session R)
      → ((read_startup_state line c s).1.server ≡ s.server)
        × ((read_startup_state line c s).1.startup_complete ≡ s.startup_complete)
  unfolding read_startup_state
  read_startup_state-same s = (refl, refl)

  -- What the look at the keys replies.
  pub read_startup_state-counted :
      (s : Session R) (state : RestoreState)
      → (read_startup_state line c s).0 ≡ accepted state
      → (m : Option RestoreMarker) × (decode_marker c.source s.server.marker ≡ accepted m)
        × (state ≡ counted s.server.store m)
  unfolding read_startup_state
  read_startup_state-counted s state h = go (line s.requests).fault h
    where
      found :
          (r : Checked (Option RestoreMarker))
          → with_marker s.server.store r ≡ accepted state
          → (m : Option RestoreMarker) × (r ≡ accepted m) × (state ≡ counted s.server.store m)
      found (accepted m) k = (m, refl, sym (accepted_inj k))
      found (rejected e) k = absurd (ground (arith, k))

      go :
          (fault : Option Fault)
          → inspect c.source s.server fault ≡ accepted state
          → (m : Option RestoreMarker) × (decode_marker c.source s.server.marker ≡ accepted m)
            × (state ≡ counted s.server.store m)
      go none k = found (decode_marker c.source s.server.marker) k
      go (some fault) k = absurd (ground (arith, k))

module _ {R : Redis} (line : Line) (c : CrawlStateStore) (parse : UrlParser) where
  pub finish-same :
      (mode : Mode) (n : ℕ) (s : Session R) → (finish line c parse mode n s).1.server ≡ s.server
  finish-same mode n s = go (check_identity line c s) (check_identity-same line c s).0
    where
      go :
          (r : Checked Unit × Session R)
          → r.1.server ≡ s.server
          → (finished line c parse mode n r).1.server ≡ s.server
      go (accepted u, t) e = e
      go (rejected x, t) e = e

  -- What the start of Restore decides for a frontier that stays as it is.
  decide_keeps :
      (source : Source) (state : RestoreState) (s : Session R)
      → (1 ≤ state.work_count) ⊎ ((is_restoring state.marker ≡ false) × (1 ≤ state.listing_count))
      → (decide line c parse source state s).1.server ≡ s.server
  unfolding decide
  decide_keeps source state s busy =
      under_if Q (is_restoring state.marker)
        (λ r. under_if Q (not (state.work_count == 0)) (λ w. refl) (λ w. absurd (resumes busy r w)))
        λ r.
          under_if Q (preserves state) (λ p. finish-same preserved 0 s)
            λ p. under_if Q (holds_state state) (λ h. refl) (λ h. absurd (passes busy p h))
    where
      Q : Step R RestoreStats → Type 0
      Q m = (m s).1.server ≡ s.server

      resumes :
          (1 ≤ state.work_count) ⊎ ((is_restoring state.marker ≡ false) × (1 ≤ state.listing_count))
          → is_restoring state.marker ≡ true
          → not (state.work_count == 0) ≡ false
          → ⊥
      resumes (inl w) r h = ground (arith, w, h)
      resumes (inr (m, l)) r h = ground (arith, m, r)

      passes :
          (1 ≤ state.work_count) ⊎ ((is_restoring state.marker ≡ false) × (1 ≤ state.listing_count))
          → preserves state ≡ false
          → holds_state state ≡ false
          → ⊥
      passes (inl w) p h = ground (arith, w, h)
      passes (inr (m, l)) p h = ground (arith, l, p)

  -- Restore changes no key where there is live work, or where listings are scheduled and no
  -- earlier restore is unfinished.
  pub restore_protects :
      (source : Source) (s : Session R)
      → (1 ≤ work_count s.server.store)
        ⊎ ((unfinished s.server.marker ≡ false) × (1 ≤ R.zcard s.server.store.listing_next))
      → (restore line c parse source s).1.server ≡ s.server
  unfolding restore
  restore_protects source s busy =
      bind-elim Q (check_identity line c)
        (λ u. read_startup_state line c >>= decide line c parse source) t
        (λ e h. (check_identity-same line c t).0)
        λ u h.
          bind-elim Q (read_startup_state line c) (decide line c parse source)
            (check_identity line c t).1 (λ e k. (check_identity-same line c t).0)
            λ state k. after (check_identity line c t).1 (check_identity-same line c t).0 state k
    where
      t : Session R
      t = set_complete false s

      Q : Checked RestoreStats × Session R → Type 0
      Q r = r.1.server ≡ s.server

      still :
          (v : Server R) (m : Option RestoreMarker)
          → decode_marker c.source v.marker ≡ accepted m
          → (1 ≤ work_count v.store)
            ⊎ ((unfinished v.marker ≡ false) × (1 ≤ R.zcard v.store.listing_next))
          → (1 ≤ work_count v.store)
            ⊎ ((is_restoring m ≡ false) × (1 ≤ R.zcard v.store.listing_next))
      still v m d (inl w) = inl w
      still v m d (inr (f, l)) = inr (is_restoring-decode_marker c.source v.marker m d ∙ f, l)

      after :
          (v : Session R)
          → v.server ≡ s.server
          → (state : RestoreState) → (read_startup_state line c v).0 ≡ accepted state
          → Q (decide line c parse source state (read_startup_state line c v).1)
      after v e state k =
          let (m, d, q) = read_startup_state-counted line c v state k in
          let busy_v =
            subst
              (λ (x : Server R).
                (1 ≤ work_count x.store)
                ⊎ ((unfinished x.marker ≡ false) × (1 ≤ R.zcard x.store.listing_next)))
              (sym e) busy in
          decide_keeps source state (read_startup_state line c v).1 (
            subst
              (λ (x : RestoreState).
                (1 ≤ x.work_count) ⊎ ((is_restoring x.marker ≡ false) × (1 ≤ x.listing_count)))
              (sym q) (still v.server m d busy_v))
          ∙ (read_startup_state-same line c v).0
          ∙ e
