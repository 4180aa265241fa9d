-- ===== src/CrawlState/Healthy.antt =====
-- The requests of Restore where Redis and MongoDB answer (internal/storage/crawl_state_restore.go).
use gfap.Base.{
  ℕ, ◌+◌, ◌≡◌, refl, sym, ap, ◌∙◌, subst, arith, Bool, true, false, Option, none, some, List, [],
  ◌∷◌, ◌++◌, map, All, All-append, if◌then◌else◌, under_if, ◌==◌, ◌&&◌,
}
use mathlib.Core.List.{map-append}
use gfap.Text.{Text}
use gfap.Text.Search.{equal, equal_self, split}
use gfap.Redis.{Redis}
use gfap.Frontier.{Store}
use gfap.CrawlState.{
  MongoCrawlRecord, Checked, accepted, rejected, barrier_changed, marker_mismatch,
}
use gfap.CrawlState.Record.{encode}
use gfap.CrawlState.Codec.{accepted_inj}
use gfap.CrawlState.Session.{
  Session, Server, Step, Line, CrawlStateStore, RestoreMarker, RestoreState, MarkerText, json,
  malformed, restoring, is_known, find_run_id, redis_identity, return, throw, ◌>>=◌, ◌>>◌,
  next_request, check_identity, read_startup_state, work_count, counted, decode_marker,
}
use gfap.CrawlState.Steps.{bind-accepts, Ensures}
use gfap.CrawlState.Batch.{
  is_restoring, check_restore_barrier, batch_commands, run_all, exec, transact, restore_batch,
  with_store,
}
use gfap.CrawlState.Restore.{Source}
use gfap.CrawlState.Content.{
  observation, Stamped, stamp, last_wins, last_wins-append, batch_correct,
}
use gfap.CrawlState.Kept.{run_all-Kept, batch_commands-Narrow}

-- Requests that all succeed: what Redis replies to INFO, and the clock.
abbrev pub healthy : Text → (ℕ → ℕ) → Line
healthy info clock i = record { cancelled = false; info = some info; fault = none; now = clock i }

-- The start of a restore is marked, and no work is live.
abbrev pub Ready : {R : Redis} → CrawlStateStore → Server R → Type 0
Ready c v =
    (m : RestoreMarker) × (v.marker ≡ some (json m))
    × (is_known c.source m ≡ true)
    × (equal m.phase restoring ≡ true)
    × (work_count v.store ≡ 0)

stamped :
    (clock : ℕ → ℕ) (i : ℕ) (rows : List MongoCrawlRecord)
    → (map (λ w. w.1) (stamp (clock i) rows) ≡ rows)
      × All (λ w. (j : ℕ) × (w.0 ≡ clock j)) (stamp (clock i) rows)
stamped clock i [] = (refl, tt)
stamped clock i (row ∷ rows) =
    let (e, h) = stamped clock i rows in (ap (λ x. row ∷ x) e, ((i, refl), h))

pub never : (b : Bool) → (b && true && false) ≡ false
never true = refl
never false = refl

abbrev pub marked : Option RestoreMarker → Option MarkerText
marked none = none
marked (some m) = some (json m)

abbrev pub is_ours : Text → Option RestoreMarker → Bool
is_ours source none = true
is_ours source (some m) = is_known source m

pub decode_marker_lem :
    (source : Text) (text : Option MarkerText) (m : Option RestoreMarker)
    → decode_marker source text ≡ accepted m
    → (text ≡ marked m) × (is_ours source m ≡ true)
unfolding decode_marker
decode_marker_lem source none m h =
    subst (λ m. (none ≡ marked m) × (is_ours source m ≡ true)) (accepted_inj h) (refl, refl)
decode_marker_lem source (some malformed) m h = absurd (ground (arith, h))
decode_marker_lem source (some (json x)) m h =
    under_if
      (λ (d : Checked (Option RestoreMarker)).
        d ≡ accepted m → (some (json x) ≡ marked m) × (is_ours source m ≡ true))
      (is_known source x) {x = accepted (some x)} {y = rejected marker_mismatch}
      (λ k e.
        subst (λ m. (some (json x) ≡ marked m) × (is_ours source m ≡ true)) (accepted_inj e)
          (refl, k))
      (λ k e. absurd (ground (arith, e))) h

-- A collection of records, whose cursor is read to its end.
abbrev pub checkpoint_of : List MongoCrawlRecord → Source
checkpoint_of rows = record {
  opens = true;
  documents = map (λ row. some (encode row)) rows;
  breaks = false;
  close_fails = false;
}

module _ {R : Redis} (info : Text) (clock : ℕ → ℕ) (c : CrawlStateStore)
    (known : find_run_id (split 10 info) ≡ accepted c.redis_run_id) where
  pub check_identity-healthy :
      (s : Session R) → check_identity (healthy info clock) c s ≡ (accepted tt, next_request s)
  unfolding check_identity redis_identity
  check_identity-healthy s = rw (known, equal_self c.redis_run_id) refl

  pub read_startup_state-healthy :
      (s : Session R) (m : Option RestoreMarker)
      → decode_marker c.source s.server.marker ≡ accepted m
      → read_startup_state (healthy info clock) c s
        ≡ (accepted (counted s.server.store m), next_request s)
  unfolding read_startup_state
  read_startup_state-healthy s m d = rw d refl

  Ready-decode_marker :
      (v : Server R) (r : Ready c v) → decode_marker c.source v.marker ≡ accepted (some r.0)
  unfolding decode_marker
  Ready-decode_marker v (m, e, k, p, w) = rw (e, k) refl

  pub check_restore_barrier-healthy :
      (s : Session R)
      → Ready c s.server
      → check_restore_barrier (healthy info clock) c s
        ≡ (accepted tt, next_request (next_request s))
  unfolding check_restore_barrier
  check_restore_barrier-healthy s r =
      bind-accepts (check_identity (healthy info clock) c)
        (λ u. read_startup_state (healthy info clock) c >>= passes) s tt (next_request s)
        (check_identity-healthy s)
      ∙ bind-accepts (read_startup_state (healthy info clock) c) passes (next_request s)
          (counted s.server.store (some r.0)) (next_request (next_request s))
          (read_startup_state-healthy (next_request s) (some r.0) (Ready-decode_marker s.server r))
      ∙ rw (r.3, r.4) refl
    where
      passes : RestoreState → Step R Unit
      passes state =
          if is_restoring state.marker && state.work_count == 0
          then return tt
          else throw barrier_changed

  -- From one store to a later one, the records have been written, each at a time of the clock.
  abbrev pub Written : List MongoCrawlRecord → Store R → Store R → Type 0
  Written rows s t =
      (ws : Stamped) × (map (λ w. w.1) ws ≡ rows)
      × All (λ w. (i : ℕ) × (w.0 ≡ clock i)) ws
      × ((url : Text) → observation t url ≡ last_wins ws url (observation s url))

  pub Written-refl : (s : Store R) → Written [] s s
  Written-refl s = ([], refl, tt, λ url. refl)

  pub Written-trans :
      (rows qs : List MongoCrawlRecord) (s t u : Store R)
      → Written rows s t
      → Written qs t u
      → Written (rows ++ qs) s u
  Written-trans rows qs s t u (vs, e, a, f) (ws, d, b, g) = (
    vs ++ ws,
    map-append (λ w. w.1) vs ws ∙ ap (λ x. x ++ map (λ w. w.1) ws) e ∙ ap (λ x. rows ++ x) d,
    All-append _ vs ws a b,
    λ url.
        g url
        ∙ ap (last_wins ws url) (f url)
        ∙ sym (last_wins-append vs ws url (observation s url)),
  )

  Written-batch :
      (i : ℕ) (rows : List MongoCrawlRecord) (s : Store R)
      → Written rows s (run_all (batch_commands (clock i) rows) s)
  Written-batch i rows s =
      let (e, h) = stamped clock i rows in
      (stamp (clock i) rows, e, h, batch_correct (clock i) rows s)

  Ready-run_all :
      (i : ℕ) (rows : List MongoCrawlRecord) (v : Server R)
      → Ready c v
      → Ready c (record v { store = run_all (batch_commands (clock i) rows) v.store })
  unfolding work_count
  Ready-run_all i rows v (m, e, k, p, w) = (
    m,
    e,
    k,
    p,
    ap work_count (
          run_all-Kept (batch_commands (clock i) rows) (batch_commands-Narrow R (clock i) rows)
            v.store)
        ∙ w,
  )

  pub restore_batch-healthy :
      (rows : List MongoCrawlRecord) (s : Session R)
      → Ready c s.server
      → Ensures
          (restore_batch (healthy info clock) c rows)
          s
          (λ u t. Ready c t.server × Written rows s.server.store t.server.store)
  unfolding restore_batch exec
  restore_batch-healthy rows s r =
      let i = s.requests + 1 + 1 in
      let v = next_request (next_request s) in
      let w =
        next_request (with_store (run_all (batch_commands (clock i) rows) s.server.store) v) in
      (
        tt,
        next_request w,
        bind-accepts (check_restore_barrier (healthy info clock) c)
              (λ u. transact (healthy info clock) c rows >> check_identity (healthy info clock) c) s
              tt v (check_restore_barrier-healthy s r)
            ∙ bind-accepts (transact (healthy info clock) c rows)
                (λ u. check_identity (healthy info clock) c) v tt w refl
            ∙ check_identity-healthy w,
        (Ready-run_all i rows s.server r, Written-batch i rows s.server.store),
      )
