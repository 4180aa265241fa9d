-- ===== src/Frontier/Admission.antt =====
-- What AdmitVideo and AdmitListing promise their callers, and Idle.
use gfap.Base.{
  ℕ, ◌+◌, ◌≡◌, ◌≤◌, ◌<◌, ◌↔◌, refl, Bool, true, false, Option, none, some, arith, List, [], ◌∷◌,
  ltb, ◌==◌, ◌||◌, ◌&&◌, ap, Option-cases, Bool-cases, inl, inr, length, count, count-cons,
  count-nil,
}
use gfap.Text.{Text, dec_text}
use gfap.Text.Member.{member}
use gfap.Redis.{Redis}
use gfap.Redis.Lists.{occurs, occurs-lpush, occurs-lrem}
use gfap.Frontier.{
  Store, FrontierConfig, UrlClass, DeadEntry, suppressed, new, due_revisit, pending_score,
}
use gfap.Frontier.Live.{live, scored, scored-none, scored-some}
use gfap.Frontier.History.{Call, run}
use gfap.Frontier.Lasting.{Lasting, Keeps, call-Keeps, bind-Keeps}
use gfap.Frontier.Lasting.Calls.{run-lasts}
use gfap.Frontier.Script.Resolve.{delay_job, lua_lease, grant}
use gfap.Frontier.Script.Commands.{
  incr_seq, lpush_ready, zadd_delayed, lrem_processing, zadd_lease, lmove_ready_processing,
}
use gfap.Frontier.Script.Admit.{lua_admit_video, lua_admit_listing, check_dead, push_job}
use gfap.Frontier.Client.{
  Fault, Result, returns, fails, run_script, admit_video, admit_listing, idle, stats, is_idle,
}

-- Whether a dead entry still refuses at a time.
abbrev pub refuses : ℕ → DeadEntry → Bool
refuses now d = d.until == 0 || ltb now d.until

module _ (R : Redis) where
  open R use {
    zcard, zcard_zero, zcard_none, RList, items, zscore, zadd, zscore-zadd, hget, hdel, hget-hdel,
    lpush, lrem, bf_exists, bf_add, bf_exists-bf_add_self,
  }

  -- A URL whose dead entry is forever or not yet over is refused by both admissions, which change
  -- nothing.
  pub admit_dead :
      (now : ℕ) (url : Text) (d : DeadEntry) (s : Store R)
      → hget s.dead url ≡ some d
      → refuses now d ≡ true
      → (admit_video none now url s ≡ (returns suppressed, s))
        × (admit_listing none now url s ≡ (returns suppressed, s))
  unfolding admit_video admit_listing run_script lua_admit_video lua_admit_listing check_dead
  admit_dead now url d s entry held = (rw (entry, held) refl, rw (entry, held) refl)

  -- A video that the filter holds is refused, and no job comes or goes.
  pub held :
      (now : ℕ) (url : Text) (s : Store R)
      → bf_exists s.bloom url ≡ true
      → ((admit_video none now url s).0 ≡ returns suppressed)
        × ((x : Text) → live R x (admit_video none now url s).1 ≡ live R x s)
  unfolding admit_video run_script lua_admit_video check_dead push_job live
  held now url s known = elim (Option-cases (hget s.dead url)) [
    | inl absent ↦ rw (absent, known) (refl, λ x. back x)
    | inr (d, entry) ↦ elim (Bool-cases (refuses now d)) [
      | inl refused ↦ rw (entry, refused) (refl, λ x. refl)
      | inr over ↦ rw (entry, over, known) (refl, λ x. back x)
    ]
  ]
    where
      back :
          (x : Text)
          → live R x (record s {
            ready = lrem (lpush s.ready (member (s.seq + 1) url)) (member (s.seq + 1) url);
          })
            ≡ live R x s
      back x = omega (
        arith,
        occurs-lrem R x (member (s.seq + 1) url) (lpush s.ready (member (s.seq + 1) url)),
        occurs-lpush R x (member (s.seq + 1) url) s.ready,
      )

  filtered :
      (now : ℕ) (url : Text) (s : Store R)
      → (admit_video none now url s).0 ≡ returns new
      → bf_exists (admit_video none now url s).1.bloom url ≡ true
  unfolding admit_video run_script lua_admit_video check_dead push_job
  filtered now url s = elim (Option-cases (hget s.dead url)) [
    | inl absent ↦ elim (Bool-cases (bf_exists s.bloom url)) [
      | inl known ↦ rw (absent, known) (λ h. bf_exists-bf_add_self s.bloom url)
      | inr unknown ↦ rw (absent, unknown) (λ h. bf_exists-bf_add_self s.bloom url)
    ]
    | inr (d, entry) ↦ elim (Bool-cases (refuses now d)) [
      | inl refused ↦ rw (entry, refused) (λ h. absurd (ground (arith, h)))
      | inr over ↦ elim (Bool-cases (bf_exists s.bloom url)) [
        | inl known ↦ rw (entry, over, known) (λ h. bf_exists-bf_add_self s.bloom url)
        | inr unknown ↦ rw (entry, over, unknown) (λ h. bf_exists-bf_add_self s.bloom url)
      ]
    ]
  ]

  -- The filter forgets nothing, whatever a script does.
  abbrev Filters : Text → Store R → Type 0
  Filters url s = bf_exists s.bloom url ≡ true

  grant-Keeps :
      (url : Text) (now timeout : ℕ) (item : Option Text)
      → Keeps (Filters url) (grant now timeout item)
  unfolding grant
  grant-Keeps url now timeout none b s p = p
  grant-Keeps url now timeout (some item) b s p =
      bind-Keeps (Filters url) (zadd_lease item (now + timeout)) _
        (call-Keeps (Filters url) _ λ s p. p) (λ u b s p. p) b s p

  Filters-Lasting : (url : Text) → Lasting (Filters url)
  unfolding push_job delay_job lua_lease grant
  Filters-Lasting url = record {
    others = λ s dead attempts strikes barren next p. p;
    dropped_ready = λ s x p. p;
    dropped_processing = λ s x p. p;
    dropped_lease = λ s x p. p;
    dropped_delayed = λ s x p. p;
    filtered = λ s x p. R.bf_exists-bf_add s.bloom x url p;
    pushed = λ x. bind-Keeps (Filters url) incr_seq _ (call-Keeps (Filters url) _ λ s p. p) λ n.
        bind-Keeps (Filters url) (lpush_ready (member n x)) _ (call-Keeps (Filters url) _ λ s p. p)
          λ u b s p. p;
    delays = λ item x k.
        bind-Keeps (Filters url) incr_seq _ (call-Keeps (Filters url) _ λ s p. p) λ n.
          bind-Keeps (Filters url) (zadd_delayed (member n x) k) _
            (call-Keeps (Filters url) _ λ s p. p)
            λ u.
              bind-Keeps (Filters url) (lrem_processing item) _
                (call-Keeps (Filters url) _ λ s p. p) λ v b s p. p;
    leased = λ now timeout.
        bind-Keeps (Filters url) lmove_ready_processing _
          (call-Keeps (Filters url) _ λ s p. elim (Option-cases (R.lmove s.ready s.processing)) [
            | inl e ↦ rw e p
            | inr ((x, from, to), e) ↦ rw e p
          ])
          λ item. grant-Keeps url now timeout item;
  }

  -- A video that was admitted as new is never admitted again: whatever calls come in between, and
  -- whatever becomes of their requests and scripts, another admission of it that goes through
  -- replies that it is suppressed, and no job comes or goes.
  pub admit_video_once :
      (cfg : FrontierConfig) (classify : Option (Text → UrlClass)) (now later : ℕ) (url : Text)
      (cs : List (Option Fault × Call)) (s : Store R)
      → (admit_video none now url s).0 ≡ returns new
      → let t = run R cfg classify cs (admit_video none now url s).1 in
        let u = admit_video none later url t in
        (u.0 ≡ returns suppressed) × ((x : Text) → live R x u.1 ≡ live R x t)
  admit_video_once cfg classify now later url cs s admitted = held later url _ (
      run-lasts (Filters url) (Filters-Lasting url) cfg classify cs (admit_video none now url s).1
        (filtered now url s admitted))

  -- What an admission of a listing does by its schedule where its URL has no dead entry, or one that
  -- has run out, which it deletes: nothing else while the listing is pending or not yet due; and
  -- otherwise it admits the listing, as new without a schedule and as due for a revisit with one, one
  -- job is pushed, and the listing is pending.
  pub admit_listing_correct :
      (now : ℕ) (url : Text) (s : Store R)
      → ((d : DeadEntry) → hget s.dead url ≡ some d → (1 ≤ d.until) × (d.until ≤ now))
      → let (r, t) = admit_listing none now url s in
        let fresh = member (s.seq + 1) url in
        (hget t.dead url ≡ none)
        × ((n : ℕ)
            → zscore s.listing_next url ≡ some n
            → now < n
            → (r ≡ returns suppressed) × (t ≡ record s { dead = t.dead }))
        × ((n : ℕ)
            → zscore s.listing_next url ≡ some n
            → n ≤ now
            → (r ≡ returns due_revisit)
              × (t.ready ≡ lpush s.ready fresh)
              × (zscore t.listing_next url ≡ some pending_score))
        × (zscore s.listing_next url ≡ none
            → (r ≡ returns new)
              × (t.ready ≡ lpush s.ready fresh)
              × (zscore t.listing_next url ≡ some pending_score))
  unfolding admit_listing run_script lua_admit_listing check_dead push_job
  admit_listing_correct now url s over = elim (Option-cases (hget s.dead url)) [
    | inl absent ↦ (
      elim (Option-cases (zscore s.listing_next url)) [
        | inl e ↦ rw (absent, e) absent
        | inr (n, e) ↦ elim (Bool-cases (ltb now n)) [
          | inl early ↦ rw (absent, e, early) absent
          | inr due ↦ rw (absent, e, due) absent
        ]
      ],
      (λ n e early. rw (absent, e, is_early n early) (refl, refl)),
      (λ n e due. rw (absent, e, is_due n due) (refl, refl, pends)),
      λ e. rw (absent, e) (refl, refl, pends),
    )
    | inr (d, entry) ↦
        let out = run_out d (over d entry) in
        (
          elim (Option-cases (zscore s.listing_next url)) [
            | inl e ↦ rw (entry, out, e) cleared
            | inr (n, e) ↦ elim (Bool-cases (ltb now n)) [
              | inl early ↦ rw (entry, out, e, early) cleared
              | inr due ↦ rw (entry, out, e, due) cleared
            ]
          ],
          (λ n e early. rw (entry, out, e, is_early n early) (refl, refl)),
          (λ n e due. rw (entry, out, e, is_due n due) (refl, refl, pends)),
          λ e. rw (entry, out, e) (refl, refl, pends),
        )
  ]
    where
      is_early : (n : ℕ) → now < n → ltb now n ≡ true
      is_early n early = ground arith

      is_due : (n : ℕ) → n ≤ now → ltb now n ≡ false
      is_due n due = ground arith

      run_out : (d : DeadEntry) → (1 ≤ d.until) × (d.until ≤ now) → refuses now d ≡ false
      run_out d (some_end, past) = ground (arith, some_end, past)

      pends : zscore (zadd s.listing_next url pending_score) url ≡ some pending_score
      pends = ground (arith, zscore-zadd s.listing_next url pending_score url)

      cleared : hget (hdel s.dead url) url ≡ none
      cleared = ground (arith, hget-hdel s.dead url url)

  no_items : (x : Text) (xs : List Text) → count dec_text x (x ∷ xs) ≡ 0 → ⊥
  no_items x xs none_there = absurd (ground (arith, count-cons dec_text x x xs))

  vacant : (l : RList) → ((x : Text) → occurs R x l ≡ 0) ↔ (length (items l) ≡ 0)
  unfolding occurs
  vacant l = go (items l)
    where
      go : (xs : List Text) → ((x : Text) → count dec_text x xs ≡ 0) ↔ (length xs ≡ 0)
      go [] = ((λ h. refl), λ h x. count-nil dec_text x)
      go (x ∷ xs) = ((λ h. absurd (no_items x xs (h x))), λ h. absurd (omega (arith, h)))

  -- The three reads of Idle decide: no job is ready at the first, in processing at the second and
  -- delayed at the third.
  idle_reads :
      (at : ℕ → Store R)
      → (idle none at ≡ returns true) ↔ (
          (x : Text)
          → (occurs R x (at 0).ready ≡ 0)
            × (occurs R x (at 1).processing ≡ 0)
            × (scored R x (at 2).delayed ≡ 0))
  unfolding idle is_idle stats
  idle_reads at = (
    λ e x. (
      (vacant (at 0).ready).1 (zero_counts e).0 x,
      (vacant (at 1).processing).1 (zero_counts e).1 x,
      scored-none R x (at 2).delayed (zcard_zero (at 2).delayed (zero_counts e).2 x),
    ),
    λ h. ap returns (
        zeros _ _ _ ((vacant (at 0).ready).0 (λ x. (h x).0))
          ((vacant (at 1).processing).0 (λ x. (h x).1))
          (zcard_none (at 2).delayed (λ x. unscored x (h x).2))),
  )
    where
      reply : Result Bool → Bool
      reply (returns b) = b
      reply (fails e) = true

      said : {b : Bool} → returns b ≡ returns true → b ≡ true
      said e = ap reply e

      all_zero : (a b c : ℕ) → (a == 0 && b == 0 && c == 0) ≡ true → (a ≡ 0) × (b ≡ 0) × (c ≡ 0)
      all_zero a b c e = (ground (arith, e), ground (arith, e), ground (arith, e))

      zero_counts :
          idle none at ≡ returns true
          → (length (items (at 0).ready) ≡ 0)
            × (length (items (at 1).processing) ≡ 0)
            × (zcard (at 2).delayed ≡ 0)
      zero_counts e =
          all_zero (length (items (at 0).ready)) (length (items (at 1).processing))
            (zcard (at 2).delayed) (said e)

      zeros : (a b c : ℕ) → a ≡ 0 → b ≡ 0 → c ≡ 0 → (a == 0 && b == 0 && c == 0) ≡ true
      zeros a b c ea eb ec = ground arith

      unscored : (x : Text) → scored R x (at 2).delayed ≡ 0 → zscore (at 2).delayed x ≡ none
      unscored x h = elim (Option-cases (zscore (at 2).delayed x)) [
        | inl absent ↦ absent
        | inr (n, there) ↦ absurd (omega (arith, h, scored-some R x (at 2).delayed n there))
      ]

  -- Other clients' scripts may run between the reads of Idle, whose keyspaces are `at 0`, `at 1` and
  -- so on. Where between its first three reads no member goes to the ready list, and none comes into
  -- processing but from there, Idle replies true only if no job is live at its third read; and it
  -- replies true if no job is live at its first three reads.
  pub idle_correct :
      (at : ℕ → Store R)
      → ((i : ℕ) (x : Text) → i < 2 → occurs R x (at (i + 1)).ready ≤ occurs R x (at i).ready)
      → ((i : ℕ) (x : Text)
          → i < 2
          → occurs R x (at (i + 1)).ready + occurs R x (at (i + 1)).processing
            ≤ occurs R x (at i).ready + occurs R x (at i).processing)
      → (idle none at ≡ returns true → (x : Text) → live R x (at 2) ≡ 0)
        × (((i : ℕ) (x : Text) → i < 3 → live R x (at i) ≡ 0) → idle none at ≡ returns true)
  unfolding live
  idle_correct at ready_falls rest_falls = (
    λ e x.
        let (r, p, d) = (idle_reads at).0 e x in
        omega (
          arith,
          r,
          p,
          d,
          ready_falls 0 x (omega arith),
          ready_falls 1 x (omega arith),
          rest_falls 1 x (omega arith),
        ),
    λ h. (idle_reads at).1 λ x. (
      omega (arith, h 0 x (omega arith)),
      omega (arith, h 1 x (omega arith)),
      omega (arith, h 2 x (omega arith)),
    ),
  )
