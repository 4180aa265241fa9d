-- ===== src/CrawlState/Complete.antt =====
-- Restore as a whole where Redis and MongoDB answer (internal/storage/crawl_state_restore.go).
use gfap.Base.{
  ℕ, ◌+◌, ◌≡◌, ◌⊎◌, inl, inr, refl, sym, ap, ◌∙◌, subst, arith, Bool, true, false, Option, none,
  some, List, [], ◌∷◌, ◌++◌, map, length, length-append, All, if◌then◌else◌, under_if, ◌==◌,
}
use mathlib.Core.List.{append-nil, append_assoc}
use gfap.Text.{Text}
use gfap.Text.Search.{split}
use gfap.Redis.{Redis}
use gfap.Frontier.{Store}
use gfap.CrawlState.{MongoCrawlRecord, Checked, accepted, UrlParser}
use gfap.CrawlState.Record.{decode_mongo_crawl_record, validate, encode}
use gfap.CrawlState.Codec.{decode-encode}
use gfap.CrawlState.Session.{
  Session, Step, CrawlStateStore, RestoreMarker, restoring, complete, find_run_id, return, ◌>>=◌,
  ◌>>◌, lift, next_request, set_complete, check_identity, read_startup_state, work_count, counted,
  decode_marker,
}
use gfap.CrawlState.Steps.{bind-accepts, Ensures, bind-Ensures, ensures_to, weaken}
use gfap.CrawlState.Batch.{
  is_restoring, is_complete, check_restore_barrier, restore_batch, set_marker, set_marker_nx,
  begin_marker, begin_restore, crawl_state_batch_size, mark, with_mark,
}
use gfap.CrawlState.Restore.{
  RestoreStats, Mode, restored, Source, finish, finished, last_batch, close_restore, collect,
  each_document, bring_back, decide, restore,
}
use gfap.CrawlState.Footprint.{is_known_self}
use gfap.CrawlState.Healthy.{
  healthy, Ready, marked, is_ours, decode_marker_lem, checkpoint_of, never, Written,
  check_identity-healthy, read_startup_state-healthy, check_restore_barrier-healthy,
  restore_batch-healthy, Written-trans, Written-refl,
}

module _ {R : Redis} (info : Text) (clock : ℕ → ℕ) (c : CrawlStateStore)
    (known : find_run_id (split 10 info) ≡ accepted c.redis_run_id) where
  module _ (parse : UrlParser) where
    finish-healthy :
        (mode : Mode) (n : ℕ) (s : Session R)
        → finish (healthy info clock) c parse mode n s
          ≡ (accepted (record { mode = mode; rows = n }), set_complete true (next_request s))
    finish-healthy mode n s =
        ap (finished (healthy info clock) c parse mode n)
          (check_identity-healthy info clock c known s)

    -- What is known after the last record.
    abbrev Restored : List MongoCrawlRecord → ℕ → Session R → RestoreStats → Session R → Type 0
    Restored rows n s stats t =
        (stats ≡ record { mode = restored; rows = n })
        × (t.server.marker ≡ some (mark c complete))
        × Written info clock c known rows s.server.store t.server.store

    last_batch-healthy :
        (rows : List MongoCrawlRecord) (n : ℕ) (s : Session R)
        → Ready c s.server
        → Ensures (last_batch (healthy info clock) c parse rows n) s (λ total t.
          (total ≡ n + length rows)
          × Ready c t.server
          × Written info clock c known rows s.server.store t.server.store)
    last_batch-healthy [] n s r =
        (n, s, refl, (omega arith, r, Written-refl info clock c known s.server.store))
    last_batch-healthy (row ∷ rows) n s r =
        bind-Ensures (restore_batch (healthy info clock) c (row ∷ rows))
          (λ u. return (n + length (row ∷ rows))) s
          (λ u t.
            Ready c t.server
            × Written info clock c known (row ∷ rows) s.server.store t.server.store)
          _ (restore_batch-healthy info clock c known (row ∷ rows) s r)
          λ u t h. (n + length (row ∷ rows), t, refl, (refl, h.0, h.1))

    close_restore-healthy :
        (resuming : Bool) (rows : List MongoCrawlRecord) (n : ℕ) (s : Session R)
        → Ready c s.server
        → Ensures
            (close_restore (healthy info clock) c parse false resuming true rows n)
            s
            (Restored rows (n + length rows) s)
    unfolding close_restore
    close_restore-healthy resuming rows n s r =
        bind-Ensures (last_batch (healthy info clock) c parse rows n) closes s
          (λ total t.
            (total ≡ n + length rows)
            × Ready c t.server
            × Written info clock c known rows s.server.store t.server.store)
          (Restored rows (n + length rows) s) (last_batch-healthy rows n s r)
          λ total t h. (
            record { mode = restored; rows = total },
            closed t,
            bind-accepts (check_restore_barrier (healthy info clock) c) (λ u. marks total) t tt
                  (next_request (next_request t))
                  (check_restore_barrier-healthy info clock c known t h.1)
                ∙ finish-healthy restored total
                    (with_mark (mark c complete) (next_request (next_request (next_request t)))),
            (ap (λ k. record { mode = restored; rows = k }) h.0, refl, h.2),
          )
      where
        marks : ℕ → Step R RestoreStats
        marks total =
            set_marker (healthy info clock) c complete
            >> finish (healthy info clock) c parse restored total

        closes : ℕ → Step R RestoreStats
        closes total = check_restore_barrier (healthy info clock) c >> marks total

        closed : Session R → Session R
        closed t = set_complete true (
            next_request
              (with_mark (mark c complete) (next_request (next_request (next_request t)))))

    Restored-after :
        (rows qs : List MongoCrawlRecord) (n : ℕ) (s t : Session R) (stats : RestoreStats)
        (u : Session R)
        → Written info clock c known rows s.server.store t.server.store
        → Restored qs (n + length rows + length qs) t stats u
        → Restored (rows ++ qs) (n + length (rows ++ qs)) s stats u
    Restored-after rows qs n s t stats u w (e, m, v) = (
      e ∙ ap (λ k. record { mode = restored; rows = k }) (omega (arith, length-append rows qs)),
      m,
      Written-trans info clock c known rows qs s.server.store t.server.store u.server.store w v,
    )

    -- The records that the cursor still gives, after those that wait.
    each_document-healthy :
        (resuming : Bool) (marker : Option RestoreMarker) (qs rows : List MongoCrawlRecord) (n : ℕ)
        (s : Session R)
        → All (λ q. validate parse q ≡ accepted q) qs
        → Ready c s.server
        → Ensures
            (each_document
              (healthy info clock)
              c
              parse
              false
              resuming
              marker
              (map (λ q. some (encode q)) qs)
              true
              rows
              n)
            s
            (Restored (rows ++ qs) (n + length (rows ++ qs)) s)
    unfolding each_document
    each_document-healthy resuming marker [] rows n s h r =
        subst
          (λ xs.
            Ensures (close_restore (healthy info clock) c parse false resuming true rows n) s
              (Restored xs (n + length xs) s))
          (sym (append-nil rows)) (close_restore-healthy resuming rows n s r)
    each_document-healthy resuming marker (q ∷ qs) rows n s (v, h) r =
        ensures_to (lift (decode_mongo_crawl_record parse (some (encode q))) >>= adds) (adds q) s s
          (Restored (rows ++ q ∷ qs) (n + length (rows ++ q ∷ qs)) s)
          (bind-accepts (lift (decode_mongo_crawl_record parse (some (encode q)))) adds s q s
            (ap (λ d. (d, s)) (decode-encode parse q v)))
          (subst (λ xs. Ensures (adds q) s (Restored xs (n + length xs) s))
            (append_assoc rows (q ∷ []) qs)
            (under_if
              (λ m.
                Ensures m s
                  (Restored ((rows ++ q ∷ []) ++ qs) (n + length ((rows ++ q ∷ []) ++ qs)) s))
              (length (rows ++ q ∷ []) == crawl_state_batch_size)
              (λ full.
                bind-Ensures (restore_batch (healthy info clock) c (rows ++ q ∷ []))
                  (λ u. rest [] (n + length (rows ++ q ∷ []))) s
                  (λ u t.
                    Ready c t.server
                    × Written info clock c known (rows ++ q ∷ []) s.server.store t.server.store)
                  _ (restore_batch-healthy info clock c known (rows ++ q ∷ []) s r)
                  λ u t k.
                    weaken (rest [] (n + length (rows ++ q ∷ []))) t
                      (Restored qs (n + length (rows ++ q ∷ []) + length qs) t) _
                      (λ stats u l. Restored-after (rows ++ q ∷ []) qs n s t stats u k.1 l)
                      (each_document-healthy resuming marker qs [] (n + length (rows ++ q ∷ [])) t h
                        k.0))
              (λ more. each_document-healthy resuming marker qs (rows ++ q ∷ []) n s h r)))
      where
        rest : List MongoCrawlRecord → ℕ → Step R RestoreStats
        rest =
            each_document (healthy info clock) c parse false resuming marker
              (map (λ q. some (encode q)) qs) true

        adds : MongoCrawlRecord → Step R RestoreStats
        adds row = collect (healthy info clock) c parse (rows ++ row ∷ []) n rest

    begin_restore-healthy :
        (marker : Option RestoreMarker) (s : Session R)
        → (s.server.marker ≡ marked marker) × (is_ours c.source marker ≡ true)
        → work_count s.server.store ≡ 0
        → Ensures
            (begin_restore (healthy info clock) c (is_restoring marker) marker)
            s
            (λ u t. Ready c t.server × (t.server.store ≡ s.server.store))
    unfolding begin_restore
    begin_restore-healthy marker s (e, k) w =
        ensures_to
          (check_identity (healthy info clock) c
            >> (if is_restoring marker
                then return tt
                else begin_marker (healthy info clock) c marker))
          (if is_restoring marker then return tt else begin_marker (healthy info clock) c marker) s
          (next_request s) Q
          (bind-accepts (check_identity (healthy info clock) c) _ s tt (next_request s)
            (check_identity-healthy info clock c known s))
          (under_if (λ m. Ensures m (next_request s) Q) (is_restoring marker)
            (λ h. (tt, next_request s, refl, (stands marker e k h, refl))) (λ h. begins marker e))
      where
        Q : Unit {0} → Session R → Type 0
        Q u t = Ready c t.server × (t.server.store ≡ s.server.store)

        stands :
            (m : Option RestoreMarker)
            → s.server.marker ≡ marked m
            → is_ours c.source m ≡ true
            → is_restoring m ≡ true
            → Ready c s.server
        stands none e k h = absurd (ground (arith, h))
        stands (some m) e k h = (m, e, k, h, w)

        ours : Ready c (record s.server { marker = some (mark c restoring) })
        ours = (_, refl, is_known_self c.source restoring refl, refl, w)

        marks : Session R
        marks = with_mark (mark c restoring) (next_request (next_request s))

        begins :
            (m : Option RestoreMarker)
            → s.server.marker ≡ marked m
            → Ensures (begin_marker (healthy info clock) c m) (next_request s) Q
        begins none e = (
          tt,
          marks,
          ap (λ x. set_marker_nx (healthy info clock) c x (next_request s)) e,
          (ours, refl),
        )
        begins (some m) e = (tt, marks, refl, (ours, refl))

    -- The keys of an empty frontier, or those of a restore that has stopped.
    abbrev pub Cold : Option RestoreMarker → Store R → Type 0
    Cold marker s =
        (is_restoring marker ≡ true)
        ⊎ ((R.zcard s.listing_next ≡ 0) × (R.hlen s.listing_barren ≡ 0) × (R.hlen s.dead ≡ 0))

    decide-Cold :
        (source : Source) (marker : Option RestoreMarker) (s t : Session R)
        → work_count s.server.store ≡ 0
        → Cold marker s.server.store
        → decide (healthy info clock) c parse source (counted s.server.store marker) t
          ≡ bring_back (healthy info clock) c parse source (is_restoring marker) marker t
    unfolding decide
    decide-Cold source marker s t w (inl r) = rw (r, w) refl
    decide-Cold source marker s t w (inr (l, b, d)) =
        under_if
          (λ (m : Step R RestoreStats).
            m t ≡ bring_back (healthy info clock) c parse source (is_restoring marker) marker t)
          (is_restoring marker) (λ r. rw (r, w) refl)
          (λ r. rw (w, l, b, d, r, never (is_complete marker)) refl)

    bring_back-healthy :
        (q : MongoCrawlRecord) (qs : List MongoCrawlRecord) (marker : Option RestoreMarker)
        (s : Session R)
        → All (λ q. validate parse q ≡ accepted q) (q ∷ qs)
        → (s.server.marker ≡ marked marker) × (is_ours c.source marker ≡ true)
        → work_count s.server.store ≡ 0
        → Ensures
            (bring_back
              (healthy info clock)
              c
              parse
              (checkpoint_of (q ∷ qs))
              (is_restoring marker)
              marker)
            s
            (Restored (q ∷ qs) (length (q ∷ qs)) s)
    unfolding bring_back each_document
    bring_back-healthy q qs marker s valid e w =
        bind-Ensures (begin_restore (healthy info clock) c (is_restoring marker) marker)
          (λ u.
            each_document (healthy info clock) c parse false (is_restoring marker) marker
              (map (λ q. some (encode q)) (q ∷ qs)) true [] 0)
          s (λ u t. Ready c t.server × (t.server.store ≡ s.server.store))
          (Restored (q ∷ qs) (length (q ∷ qs)) s) (begin_restore-healthy marker s e w)
          λ u t h.
            weaken
              (each_document (healthy info clock) c parse false (is_restoring marker) marker
                (map (λ q. some (encode q)) (q ∷ qs)) true [] 0)
              t (Restored (q ∷ qs) (0 + length (q ∷ qs)) t) (Restored (q ∷ qs) (length (q ∷ qs)) s)
              (λ stats v l. (
                l.0 ∙ ap (λ k. record { mode = restored; rows = k }) (omega arith),
                l.1,
                subst (λ x. Written info clock c known (q ∷ qs) x v.server.store) h.1 l.2,
              ))
              (each_document-healthy (is_restoring marker) marker (q ∷ qs) [] 0 t valid h.0)

    -- Where every request succeeds, the records are valid and at least one, no work is live, and the
    -- frontier has no observations or an earlier restore of this collection has stopped, Restore
    -- reports the records' number, leaves the marker complete, and has written the records in their
    -- order, each at a time of the clock.
    pub restore_correct :
        (q : MongoCrawlRecord) (qs : List MongoCrawlRecord) (s : Session R)
        (marker : Option RestoreMarker)
        → All (λ q. validate parse q ≡ accepted q) (q ∷ qs)
        → decode_marker c.source s.server.marker ≡ accepted marker
        → work_count s.server.store ≡ 0
        → Cold marker s.server.store
        → let r = restore (healthy info clock) c parse (checkpoint_of (q ∷ qs)) s in
          (r.0 ≡ accepted (record { mode = restored; rows = length (q ∷ qs) }))
          × (r.1.server.marker ≡ some (mark c complete))
          × Written info clock c known (q ∷ qs) s.server.store r.1.server.store
    unfolding restore
    restore_correct q qs s marker valid d w cold =
        let t = set_complete false s in
        let v = next_request (next_request t) in
        let source = checkpoint_of (q ∷ qs) in
        let e : restore (healthy info clock) c parse source s
            ≡ bring_back (healthy info clock) c parse source (is_restoring marker) marker v =
          bind-accepts (check_identity (healthy info clock) c)
            (λ u.
              read_startup_state (healthy info clock) c
              >>= decide (healthy info clock) c parse source)
            t tt (next_request t) (check_identity-healthy info clock c known t)
          ∙ bind-accepts (read_startup_state (healthy info clock) c)
              (decide (healthy info clock) c parse source) (next_request t)
              (counted s.server.store marker) v
              (read_startup_state-healthy info clock c known (next_request t) marker d)
          ∙ decide-Cold source marker s v w cold in
        let (stats, u, f, g) =
          bring_back-healthy q qs marker v valid
            (decode_marker_lem c.source s.server.marker marker d) w in
        (
          ap (λ r. r.0) (e ∙ f) ∙ ap accepted g.0,
          ap (λ r. r.1.server.marker) (e ∙ f) ∙ g.1,
          subst
              (λ (r : Checked RestoreStats × Session R).
                Written info clock c known (q ∷ qs) s.server.store r.1.server.store)
              (sym (e ∙ f)) g.2,
        )
