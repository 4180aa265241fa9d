-- ===== src/Frontier/Invariant/Schedule.antt =====
-- luaListingScheduler (internal/storage/frontier.go): what becomes of the listings that it meets.
use gfap.Base.{
  ℕ, ◌+◌, ◌≡◌, ◌≢◌, ◌≤◌, ◌<◌, refl, subst, Bool, Option, none, some, arith, dec_le, List, [], ◌∷◌,
  count, count-cons, count-nil, length, All-of_mem, Option-cases, Bool-cases, inl, inr, ltb, ◌==◌,
}
use gfap.Text.{Text, dec_text}
use gfap.Redis.{Redis}
use gfap.Frontier.{Store, DeadEntry, pending_score}
use gfap.Frontier.Live.{live}
use gfap.Frontier.Script.Admit.{schedule_one, lua_listing_scheduler}
use gfap.Frontier.Script.Loops.{Ends, sum_over-Ends}
use gfap.Frontier.Invariant.{Claimed-of, Inv, fresh, moved-Inv}
use gfap.Frontier.Invariant.Admit.{listing_added}

module _ (R : Redis) (is_video : Text → Bool) where
  open R use {
    zscore, zadd, zscore-zadd, zrem, zscore-zrem, lpush, hget, hdel, zrangebyscore,
    zrangebyscore_due, zrangebyscore_once, zrangebyscore_all,
  }

  -- What a round leaves of the score of its URL: nothing, or one that is later.
  abbrev Later : ℕ → Option ℕ → Type 0
  Later now none = Unit
  Later now (some n) = now < n

  -- One round: the invariant, the new score of its URL, and all other scores.
  record Round (now : ℕ) (url : Text) (s t : Store R) : Type 0 where
    inv : Inv R is_video t
    later : Later now (zscore t.listing_next url)
    others : (u : Text) → url ≢ u → zscore t.listing_next u ≡ zscore s.listing_next u

  module _ (now : ℕ) (early : now < pending_score) (url : Text) {s : Store R} (v : Inv R is_video s)
      {n : ℕ} (e : zscore s.listing_next url ≡ some n) (is_due : n ≤ now) where
    admitted :
        (d : R.Hash DeadEntry)
        → Round now url s (record s {
          seq = s.seq + 1;
          ready = lpush s.ready (fresh R is_video url s);
          dead = d;
          listing_next = zadd s.listing_next url pending_score;
        })
    admitted d = record {
      inv =
          listing_added R is_video url v now _
            (record { seq = refl; ready = refl; processing = refl; lease = refl; delayed = refl })
            refl refl (v.listed url n e) early (rw e (ground arith));
      later = rw (zscore-zadd s.listing_next url pending_score url) (ground arith);
      others = λ u ne. ground (arith, zscore-zadd s.listing_next url pending_score u, ne);
    }

    removed : Round now url s (record s { listing_next = zrem s.listing_next url })
    unfolding live
    removed = record {
      inv =
          moved-Inv R is_video v
            (record {
              leased = v.leased;
              listed = λ u k h. ground (arith, zscore-zrem s.listing_next url u, v.listed u k, h);
            })
            (omega arith) (λ x. refl)
            (λ u.
              Claimed-of R is_video u s _ (λ h. h)
                (λ h. ground (arith, zscore-zrem s.listing_next url u, h, e, is_due, early)));
      later = rw (zscore-zrem s.listing_next url url) (ground arith);
      others = λ u ne. ground (arith, zscore-zrem s.listing_next url u, ne);
    }

    postponed :
        (until : ℕ)
        → now < until
        → Round now url s (record s { listing_next = zadd s.listing_next url until })
    unfolding live
    postponed until lt = record {
      inv =
          moved-Inv R is_video v
            (record {
              leased = v.leased;
              listed = λ u k h.
                  ground (
                    arith,
                    zscore-zadd s.listing_next url until u,
                    v.listed u k,
                    v.listed u n,
                    e,
                    h,
                  );
            })
            (omega arith) (λ x. refl)
            (λ u.
              Claimed-of R is_video u s _ (λ h. h)
                (λ h. ground (arith, zscore-zadd s.listing_next url until u, h, e, is_due, early)));
      later = rw (zscore-zadd s.listing_next url until url) (ground arith);
      others = λ u ne. ground (arith, zscore-zadd s.listing_next url until u, ne);
    }

    schedule_one-Ends :
        (k : ℕ) × (t : Store R) × Ends (schedule_one now url) s k t × Round now url s t
    unfolding schedule_one
    schedule_one-Ends = elim (Option-cases (hget s.dead url)) [
      | inl absent ↦ (1, _, rw absent, admitted s.dead)
      | inr (d, found) ↦ elim (Bool-cases (d.until == 0)) [
        | inl forever ↦ (0, _, rw (found, forever), removed)
        | inr timed ↦ elim (Bool-cases (ltb now d.until)) [
          | inl later ↦ (0, _, rw (found, timed, later), postponed d.until (ground arith))
          | inr over ↦ (1, _, rw (found, timed, over), admitted (hdel s.dead url))
        ]
      ]
    ]

  -- A scheduler that has `todo` left of the URLs that it found due, from `s` on.
  record Scheduling (now : ℕ) (s : Store R) (all todo : List Text) (t : Store R) : Type 0 where
    inv : Inv R is_video t
    once : (x : Text) → count dec_text x todo ≤ 1
    among : (x : Text) → count dec_text x todo ≤ count dec_text x all
    waiting :
        (x : Text)
        → 1 ≤ count dec_text x todo
        → (n : ℕ) × (zscore t.listing_next x ≡ some n) × (n ≤ now)
    later :
        (x : Text)
        → 1 ≤ count dec_text x all
        → count dec_text x todo ≡ 0
        → Later now (zscore t.listing_next x)
    kept : (x : Text) → count dec_text x all ≡ 0 → zscore t.listing_next x ≡ zscore s.listing_next x

  schedule_round :
      (now : ℕ)
      → now < pending_score
      → (s : Store R) (all : List Text) (x : Text) (xs : List Text) (t : Store R)
      → Scheduling now s all (x ∷ xs) t
      → (k : ℕ) × (u : Store R) × Ends (schedule_one now x) t k u × Scheduling now s all xs u
  schedule_round now early s all x xs t r =
      let (n, e, le) = r.waiting x (ground (arith, count-cons dec_text x x xs)) in
      let (k, u, ends, round) = schedule_one-Ends now early x r.inv e le in
      (
        k,
        u,
        ends,
        record {
          inv = round.inv;
          once = λ y. omega (arith, r.once y, count-cons dec_text y x xs);
          among = λ y. omega (arith, r.among y, count-cons dec_text y x xs);
          waiting = λ y l.
              let (j, w, small) = r.waiting y (omega (arith, count-cons dec_text y x xs)) in
              (j, ground (arith, round.others y, w, r.once y, count-cons dec_text y x xs), small);
          later = λ y l z. elim (dec_text x y) [
            | yes same ↦ subst (λ y. Later now (zscore u.listing_next y)) same round.later
            | no other ↦
                rw (round.others y other) (r.later y l (ground (arith, count-cons dec_text y x xs)))
          ];
          kept = λ y z.
              ground (arith, count-cons dec_text y x xs, r.kept y z, r.among y, round.others y);
        },
      )

  due_waiting :
      (s : Store R) (max limit : ℕ) (x : Text)
      → 1 ≤ count dec_text x (zrangebyscore s.listing_next max limit)
      → (n : ℕ) × (zscore s.listing_next x ≡ some n) × (n ≤ max)
  due_waiting s max limit x l =
      All-of_mem dec_text _ x (zrangebyscore s.listing_next max limit)
        (zrangebyscore_due s.listing_next max limit) l

  schedule-Ends :
      (now limit : ℕ) (s : Store R)
      → now < pending_score
      → Inv R is_video s
      → (k : ℕ) × (t : Store R) × Ends (lua_listing_scheduler now limit) s k t
        × Scheduling now s (zrangebyscore s.listing_next now limit) [] t
  unfolding lua_listing_scheduler
  schedule-Ends now limit s early v =
      let due = zrangebyscore s.listing_next now limit in
      sum_over-Ends (Scheduling now s due) (schedule_one now) (schedule_round now early s due) due s
        (record {
          inv = v;
          once = zrangebyscore_once s.listing_next now limit;
          among = λ x. omega arith;
          waiting = λ x l. due_waiting s now limit x l;
          later = λ x l z. absurd (omega (arith, l, z));
          kept = λ x z. refl;
        })

  Later-lt : (now : ℕ) (o : Option ℕ) (n : ℕ) → Later now o → o ≡ some n → now < n
  Later-lt now none n l e = cc
  Later-lt now (some k) n l e = ground arith

  -- With no failing command, and before the pending score, the scheduler keeps the invariant,
  -- makes no listing that it met due again at `now`, leaves the score of every other URL, and,
  -- where it met fewer than its limit, leaves no due listing.
  pub schedule_correct :
      (now limit : ℕ) (s : Store R)
      → now < pending_score
      → Inv R is_video s
      → let t = (lua_listing_scheduler now limit none s).1 in
        let due = zrangebyscore s.listing_next now limit in
        Inv R is_video t
        × ((x : Text) (n : ℕ)
            → 1 ≤ count dec_text x due
            → zscore t.listing_next x ≡ some n
            → now < n)
        × ((x : Text)
            → count dec_text x due ≡ 0
            → zscore t.listing_next x ≡ zscore s.listing_next x)
        × (length due < limit → (x : Text) (n : ℕ) → zscore t.listing_next x ≡ some n → now < n)
  schedule_correct now limit s early v =
      let (k, t, e, r) = schedule-Ends now limit s early v in
      rw e (
        r.inv,
        (λ x n l e'. Later-lt now _ n (r.later x l (count-nil dec_text x)) e'),
        (λ x z. r.kept x z),
        (λ short x n e'.
            elim (dec_le 1 (count dec_text x (zrangebyscore s.listing_next now limit))) [
              | yes l ↦ Later-lt now _ n (r.later x l (count-nil dec_text x)) e'
              | no l ↦
                  ground (arith, e', r.kept x, zrangebyscore_all s.listing_next now limit x n short)
            ]),
      )
