-- ===== src/CrawlState/Footprint.antt =====
-- The keys that Restore writes, and the marker it leaves (internal/storage/crawl_state_restore.go).
use gfap.Base.{
  ◌≡◌, ◌⊎◌, inl, inr, refl, sym, ap, ◌∙◌, subst, arith, Bool, true, Option, none, some, List, ◌&&◌,
  ◌||◌, ◌==◌, if◌then◌else◌, under_if,
}
use gfap.Text.{Text}
use gfap.Text.Integer.{pos}
use gfap.Text.Search.{equal, equal_self}
use gfap.Redis.{Redis}
use gfap.Frontier.Client.{Fault, refused, lost, raised}
use gfap.CrawlState.{
  MongoCrawlRecord, Checked, accepted, rejected, barrier_changed, marker_mismatch,
}
use gfap.CrawlState.Codec.{accepted_inj}
use gfap.CrawlState.Session.{
  Session, Server, Step, Line, CrawlStateStore, RestoreMarker, RestoreState, counted, MarkerText,
  json, malformed, restoring, complete, is_known, return, throw, ◌>>=◌, ◌>>◌, next_request,
  check_identity, read_startup_state, work_count, decode_marker,
}
use gfap.CrawlState.Steps.{bind-elim, Follows, bind-Follows}
use gfap.CrawlState.Batch.{
  is_restoring, check_restore_barrier, transact, restore_batch, mark, set_marker, set_marker_nx,
  apply_marker, begin_marker, begin_restore,
}
use gfap.CrawlState.Startup.{check_identity-same, read_startup_state-counted}
use gfap.CrawlState.Kept.{Kept, Kept-trans, batch_commands-Narrow, exec-Kept}

-- A marker that this collection's Restore accepts.
abbrev pub Standing : Text → Option MarkerText → Type 0
Standing source text = (m : RestoreMarker) × (text ≡ some (json m)) × (is_known source m ≡ true)

-- From one session to a later one: the keys other than the observations are as they were, and where
-- any key has changed a marker stands.
abbrev pub Touches : {R : Redis} → CrawlStateStore → Session R → Session R → Type 0
Touches c s t =
    Kept s.server.store t.server.store × ((t.server ≡ s.server) ⊎ Standing c.source t.server.marker)

module _ {R : Redis} (c : CrawlStateStore) where
  pub Touches-refl : (s : Session R) → Touches c s s
  Touches-refl s = (refl, inl refl)

  pub Touches-trans : (s t u : Session R) → Touches c s t → Touches c t u → Touches c s u
  Touches-trans s t u (e, h) (f, k) =
      (Kept-trans s.server.store t.server.store u.server.store e f, later h k)
    where
      later :
          (t.server ≡ s.server) ⊎ Standing c.source t.server.marker
          → (u.server ≡ t.server) ⊎ Standing c.source u.server.marker
          → (u.server ≡ s.server) ⊎ Standing c.source u.server.marker
      later h (inr m) = inr m
      later (inl e) (inl f) = inl (f ∙ e)
      later (inr m) (inl f) = inr (subst (λ (v : Server R). Standing c.source v.marker) (sym f) m)

  pub of_same : (s t : Session R) → t.server ≡ s.server → Touches c s t
  of_same s t e = (subst (λ (v : Server R). Kept s.server.store v.store) (sym e) refl, inl e)

  abbrev pub Contained : {A : Type 0} → Step R A → Type 0
  Contained m = Follows (Touches c) Touches-refl Touches-trans m

  pub bind-Contained :
      {A B : Type 0} (m : Step R A) (k : A → Step R B)
      → Contained m
      → ((a : A) → Contained (k a))
      → Contained (m >>= k)
  bind-Contained m k f g = bind-Follows (Touches c) Touches-refl Touches-trans m k f g

no_marker : (m : Option RestoreMarker) → none ≡ m → is_restoring m ≡ true → ⊥
no_marker none e r = ground (arith, r)
no_marker (some x) e r = ground (arith, e)

Standing-decode_marker :
    (source : Text) (text : Option MarkerText) (m : Option RestoreMarker)
    → decode_marker source text ≡ accepted m
    → is_restoring m ≡ true
    → Standing source text
unfolding decode_marker
Standing-decode_marker source none m h r = absurd (no_marker m (accepted_inj h) r)
Standing-decode_marker source (some malformed) m h r = absurd (ground (arith, h))
Standing-decode_marker source (some (json x)) m h r =
    under_if
      (λ (d : Checked (Option RestoreMarker)). d ≡ accepted m → Standing source (some (json x)))
      (is_known source x) {x = accepted (some x)} {y = rejected marker_mismatch}
      (λ k e. (x, refl, k)) (λ k e. absurd (ground (arith, e))) h

module _ {R : Redis} (line : Line) (c : CrawlStateStore) where
  pub check_restore_barrier-same :
      (s : Session R) → (check_restore_barrier line c s).1.server ≡ s.server
  unfolding check_restore_barrier read_startup_state
  check_restore_barrier-same s =
      bind-elim Q (check_identity line c) (λ u. read_startup_state line c >>= λ state. passes state)
        s (λ e h. (check_identity-same line c s).0)
        λ u h.
          bind-elim Q (read_startup_state line c) passes (check_identity line c s).1
            (λ e k. (check_identity-same line c s).0)
            λ state k.
              under_if
                (λ (m : Step R Unit).
                  Q (m (read_startup_state line c (check_identity line c s).1).1))
                (is_restoring state.marker && state.work_count == 0)
                (λ p. (check_identity-same line c s).0) (λ p. (check_identity-same line c s).0)
    where
      Q : Checked Unit × Session R → Type 0
      Q r = r.1.server ≡ s.server

      passes : RestoreState → Step R Unit
      passes state =
          if is_restoring state.marker && state.work_count == 0
          then return tt
          else throw barrier_changed

  -- Where the barrier is passed, the marker of an unfinished restore stands and no work is live.
  pub check_restore_barrier_lem :
      (s : Session R) (u : Unit)
      → (check_restore_barrier line c s).0 ≡ accepted u
      → Standing c.source s.server.marker × (work_count s.server.store ≡ 0)
  unfolding check_restore_barrier
  check_restore_barrier_lem s u =
      bind-elim Q (check_identity line c) (λ u. read_startup_state line c >>= λ state. passes state)
        s (λ e h k. absurd (ground (arith, k)))
        λ v h.
          bind-elim Q (read_startup_state line c) passes (check_identity line c s).1
            (λ e k l. absurd (ground (arith, l)))
            λ state k.
              under_if
                (λ (m : Step R Unit).
                  Q (m (read_startup_state line c (check_identity line c s).1).1))
                (is_restoring state.marker && state.work_count == 0)
                (λ p l.
                  found state p (check_identity line c s).1 (check_identity-same line c s).0 k)
                (λ p l. absurd (ground (arith, l)))
    where
      Q : Checked Unit × Session R → Type 0
      Q r = r.0 ≡ accepted u → Standing c.source s.server.marker × (work_count s.server.store ≡ 0)

      passes : RestoreState → Step R Unit
      passes state =
          if is_restoring state.marker && state.work_count == 0
          then return tt
          else throw barrier_changed

      found :
          (state : RestoreState)
          → (is_restoring state.marker && state.work_count == 0) ≡ true
          → (t : Session R) → t.server ≡ s.server
          → (read_startup_state line c t).0 ≡ accepted state
          → Standing c.source s.server.marker × (work_count s.server.store ≡ 0)
      found state p t e k =
          let (m, d, q) = read_startup_state-counted line c t state k in
          subst (λ (v : Server R). Standing c.source v.marker × (work_count v.store ≡ 0)) e
            (
              Standing-decode_marker c.source t.server.marker m d (barrier m t q).0,
              (barrier m t q).1,
            )
        where
          barrier :
              (m : Option RestoreMarker) (t : Session R)
              → state ≡ counted t.server.store m
              → (is_restoring m ≡ true) × (work_count t.server.store ≡ 0)
          barrier m t q = both (
              subst (λ (x : RestoreState). (is_restoring x.marker && x.work_count == 0) ≡ true) q p)
            where
              both :
                  (is_restoring m && work_count t.server.store == 0) ≡ true
                  → (is_restoring m ≡ true) × (work_count t.server.store ≡ 0)
              both h = (ground (arith, h), ground (arith, h))

pub is_known_self :
    (source : Text) (phase : Text)
    → (equal phase restoring || equal phase complete) ≡ true
    → is_known source (record { schema = pos 1; phase = phase; source = source }) ≡ true
is_known_self source phase h = ap (λ b. b && equal source source) h ∙ equal_self source

module _ {R : Redis} (line : Line) (c : CrawlStateStore) where
  pub check_identity-Contained : Contained c (check_identity {R = R} line c)
  check_identity-Contained s =
      of_same c s (check_identity line c s).1 (check_identity-same line c s).0

  pub check_restore_barrier-Contained : Contained c (check_restore_barrier {R = R} line c)
  check_restore_barrier-Contained s =
      of_same c s (check_restore_barrier line c s).1 (check_restore_barrier-same line c s)

  pub set_marker-Contained :
      (phase : Text)
      → (equal phase restoring || equal phase complete) ≡ true
      → Contained c (set_marker {R = R} line c phase)
  set_marker-Contained phase h s = go (line s.requests).fault
    where
      stands : Standing c.source (some (mark c phase))
      stands = (_, refl, is_known_self c.source phase h)

      go : (fault : Option Fault) → Touches c s (apply_marker line c fault phase (next_request s)).1
      go none = (refl, inr stands)
      go (some refused) = (refl, inl refl)
      go (some lost) = (refl, inr stands)
      go (some (raised n)) = (refl, inl refl)

  pub begin_restore-Contained :
      (resuming : Bool) (marker : Option RestoreMarker)
      → Contained c (begin_restore {R = R} line c resuming marker)
  unfolding begin_restore
  begin_restore-Contained resuming marker =
      bind-Contained c (check_identity line c)
        (λ u. if resuming then return tt else begin_marker line c marker) check_identity-Contained
        λ u s.
          under_if (λ (m : Step R Unit). Touches c s (m s).1) resuming (λ h. Touches-refl c s)
            (λ h. begins marker s)
    where
      fresh : (m : Option MarkerText) (s : Session R) → Touches c s (set_marker_nx line c m s).1
      fresh none s = set_marker-Contained restoring refl s
      fresh (some m) s = Touches-refl c s

      begins : (m : Option RestoreMarker) → Contained c (begin_marker {R = R} line c m)
      begins none s = fresh s.server.marker s
      begins (some m) s = set_marker-Contained restoring refl s

  pub restore_batch-Contained :
      (rows : List MongoCrawlRecord) → Contained c (restore_batch {R = R} line c rows)
  unfolding restore_batch
  restore_batch-Contained rows s =
      bind-elim (λ (r : Checked Unit × Session R). Touches c s r.1) (check_restore_barrier line c)
        (λ u. transact line c rows >> check_identity line c) s
        (λ e h. check_restore_barrier-Contained s)
        λ u h.
          bind-elim (λ (r : Checked Unit × Session R). Touches c s r.1) (transact line c rows)
            (λ v. check_identity line c) b (λ e k. written u h)
            (λ v k.
              Touches-trans c s (transact line c rows b).1
                (check_identity line c (transact line c rows b).1).1 (written u h)
                (check_identity-Contained (transact line c rows b).1))
    where
      b : Session R
      b = (check_restore_barrier line c s).1

      written :
          (u : Unit)
          → (check_restore_barrier line c s).0 ≡ accepted u
          → Touches c s (transact line c rows b).1
      written u h =
          Touches-trans c s b (transact line c rows b).1 (check_restore_barrier-Contained s) (
            exec-Kept (line b.requests).fault _ (batch_commands-Narrow R (line b.requests).now rows)
                b.server.store,
            inr (
                subst (λ (v : Server R). Standing c.source v.marker)
                  (sym (check_restore_barrier-same line c s))
                  (check_restore_barrier_lem line c s u h).0),
          )
