-- ===== src/Frontier/Invariant/Resolve.antt =====
-- luaLease, luaAck, luaNack, luaCompleteListing, luaFail and luaTerminal keep the invariant.
use gfap.Base.{
  ℕ, ◌+◌, ◌≡◌, ◌≢◌, ◌≤◌, ◌<◌, refl, ap, Bool, true, false, none, some, arith, Option-cases,
  Bool-cases, inl, inr, List, ltb, leb, or_zero,
}
use gfap.Text.{Text, dec_text}
use gfap.Text.Member.{url_of}
use gfap.Redis.{Redis}
use gfap.Redis.Lists.{same, occurs, occurs-lpush, occurs-lrem, occurs-lmove}
use gfap.Frontier.{Store}
use gfap.Frontier.Live.{live, scored, scored-zadd, scored-zrem, scored-some, scored-none}
use gfap.Frontier.Script.Resolve.{
  lua_lease, lua_ack, lua_nack, lua_complete_listing, lua_fail, lua_terminal,
}
use gfap.Frontier.Invariant.{
  Claimed-of, Inv, fresh, live-fresh, moved-Inv, dropped-Inv, requeued-Inv,
}

module _ (R : Redis) (is_video : Text → Bool) where
  open R use {zscore, zadd, zrem, zscore-zadd, lrem, lpush}

  module _ (item : Text) {s : Store R} (v : Inv R is_video s) where
    -- The keyspace after a fence that found no lease.
    unleased-Inv :
        zscore s.lease item ≡ none → Inv R is_video (record s { lease = zrem s.lease item })
    unfolding live
    unleased-Inv e =
        moved-Inv R is_video v
          (record {
            leased = λ x.
                ground
                  (arith, scored-zrem R x item s.lease, v.leased x, scored-none R item s.lease e);
            listed = v.listed;
          })
          (omega arith) (λ x. refl) (λ u. Claimed-of R is_video u s _ (λ h. h) (λ h. h))

    -- The score of no other URL than the item's changes, and that of a listing only.
    pub record Scheduled (t : Store R) : Type 0 where
      pub others : (u : Text) → u ≢ url_of item → zscore t.listing_next u ≡ zscore s.listing_next u
      pub listed : (u : Text) (n : ℕ) → zscore t.listing_next u ≡ some n → is_video u ≡ false

    unscheduled : (t : Store R) → t.listing_next ≡ s.listing_next → Scheduled t
    unscheduled t e = record {
      others = λ u ne. ap (λ z. zscore z u) e;
      listed = λ u n h. v.listed u n (rw e at h);
    }

    rescheduled :
        (t : Store R) (url : Text) (n : ℕ)
        → url ≡ url_of item
        → is_video url ≡ false
        → t.listing_next ≡ zadd s.listing_next url n
        → Scheduled t
    rescheduled t url n same_url listing e = record {
      others =
          λ u ne. rw (e, same_url) (ground (arith, zscore-zadd s.listing_next (url_of item) n u));
      listed = λ u k h. ground (arith, zscore-zadd s.listing_next url n u, v.listed u k, e);
    }

    module _ {n : ℕ} (e : zscore s.lease item ≡ some n) where
      in_processing : occurs R item s.processing ≡ 1
      in_processing = omega (arith, scored-some R item s.lease n e, v.leased item)

      item-live : 1 ≤ live R item s
      unfolding live
      item-live = omega (arith, in_processing)

      -- The job is gone from the lease and from the processing list, and from nowhere else.
      pub finished-Inv :
          (t : Store R)
          → t.lease ≡ zrem s.lease item
          → t.processing ≡ lrem s.processing item
          → t.ready ≡ s.ready
          → t.delayed ≡ s.delayed
          → t.seq ≡ s.seq
          → t.bloom ≡ s.bloom
          → Scheduled t
          → Inv R is_video t
      unfolding live
      finished-Inv t el ep er ed es eb c =
          dropped-Inv R is_video v
            (record {
              leased = λ x.
                  rw (el, ep)
                    (omega (
                      arith,
                      scored-zrem R x item s.lease,
                      v.leased x,
                      occurs-lrem R x item s.processing,
                    ));
              listed = c.listed;
            })
            item (omega arith) item-live
            (λ x.
              rw (er, ep, ed) (ground (arith, in_processing, occurs-lrem R x item s.processing)))
            (λ u ne. Claimed-of R is_video u s t (λ h. rw eb h) (λ h. rw (c.others u ne) h))

      -- The job is back under a fresh id, in the ready list or the delayed set.
      pub back-Inv :
          (t : Store R)
          → t.lease ≡ zrem s.lease item
          → t.processing ≡ lrem s.processing item
          → t.seq ≡ s.seq + 1
          → t.bloom ≡ s.bloom
          → t.listing_next ≡ s.listing_next
          → ((x : Text)
              → occurs R x t.ready + scored R x t.delayed
                ≡ occurs R x s.ready
                  + scored R x s.delayed
                  + same R (fresh R is_video (url_of item) s) x)
          → Inv R is_video t
      unfolding live
      back-Inv t el ep es eb en h =
          requeued-Inv R is_video v
            (record {
              leased = λ x.
                  rw (el, ep)
                    (omega (
                      arith,
                      scored-zrem R x item s.lease,
                      v.leased x,
                      occurs-lrem R x item s.processing,
                    ));
              listed = λ u k k_next. v.listed u k (rw en at k_next);
            })
            item es item-live
            (λ x. rw ep (ground (arith, h x, in_processing, occurs-lrem R x item s.processing)))
            (λ u. Claimed-of R is_video u s t (λ b. rw eb b) (λ k. rw en k))

  pub ack-Inv :
      (item url : Text) {s : Store R}
      → Inv R is_video s
      → Inv R is_video (lua_ack item url none s).1
  unfolding lua_ack
  ack-Inv item url {s} v = elim (Option-cases (zscore s.lease item)) [
    | inl e ↦ rw e (unleased-Inv item v e)
    | inr (n, e) ↦
        rw e (finished-Inv item v e _ refl refl refl refl refl refl (unscheduled item v _ refl))
  ]

  pub nack-Inv :
      (item : Text) {s : Store R}
      → Inv R is_video s
      → Inv R is_video (lua_nack item (url_of item) none s).1
  unfolding lua_nack
  nack-Inv item {s} v = elim (Option-cases (zscore s.lease item)) [
    | inl e ↦ rw e (unleased-Inv item v e)
    | inr (n, e) ↦ rw e (
        back-Inv item v e _ refl refl refl refl refl
          (λ x. omega (arith, occurs-lpush R x (fresh R is_video (url_of item) s) s.ready)))
  ]

  pub complete_listing-Inv :
      (item : Text) (new_children now base_ttl max_ttl : ℕ) {s : Store R}
      → is_video (url_of item) ≡ false
      → Inv R is_video s
      → Inv R is_video
          (lua_complete_listing item (url_of item) new_children now base_ttl max_ttl none s).1
  unfolding lua_complete_listing
  complete_listing-Inv item k now base_ttl max_ttl {s} listing v =
      elim (Option-cases (zscore s.lease item)) [
        | inl e ↦ rw e (unleased-Inv item v e)
        | inr (n, e) ↦ elim (Bool-cases (ltb 0 k)) [
          | inl some_new ↦
              rw (e, some_new)
                (finished-Inv item v e _ refl refl refl refl refl refl
                  (rescheduled item v _ (url_of item) _ refl listing refl))
          | inr barren ↦
              rw (e, barren)
                (finished-Inv item v e _ refl refl refl refl refl refl
                  (rescheduled item v _ (url_of item) _ refl listing refl))
        ]
      ]

  pub terminal-Inv :
      (item reason : Text) (until : ℕ) {s : Store R}
      → (0 < until → is_video (url_of item) ≡ false)
      → Inv R is_video s
      → Inv R is_video (lua_terminal item (url_of item) reason until none s).1
  unfolding lua_terminal
  terminal-Inv item reason until {s} listing v = elim (Option-cases (zscore s.lease item)) [
    | inl e ↦ rw e (unleased-Inv item v e)
    | inr (n, e) ↦ elim (Bool-cases (ltb 0 until)) [
      | inl later ↦
          rw (e, later)
            (finished-Inv item v e _ refl refl refl refl refl refl
              (rescheduled item v _ (url_of item) _ refl (listing (ground arith)) refl))
      | inr forever ↦
          rw (e, forever)
            (finished-Inv item v e _ refl refl refl refl refl refl (unscheduled item v _ refl))
    ]
  ]

  -- A fresh member was not in the delayed set.
  scored-fresh :
      (url x : Text) (at : ℕ) {s : Store R}
      → Inv R is_video s
      → scored R x (zadd s.delayed (fresh R is_video url s) at)
        ≡ scored R x s.delayed + same R (fresh R is_video url s) x
  unfolding live
  scored-fresh url x at {s} v = elim (dec_text (fresh R is_video url s) x) [
    | yes new ↦ ground (
      arith,
      scored-zadd R x (fresh R is_video url s) at s.delayed,
      live-fresh R is_video s url x new v,
    )
    | no old ↦ ground (arith, scored-zadd R x (fresh R is_video url s) at s.delayed)
  ]

  -- A failure's next attempt or burial, whatever the class and the ladder.
  pub fail-Inv :
      (item : Text) (inc : Bool) (max now : ℕ) (reason : Text) (until : ℕ) (ladder : List ℕ)
      {s : Store R}
      → (0 < until → is_video (url_of item) ≡ false)
      → Inv R is_video s
      → Inv R is_video (lua_fail item (url_of item) inc max now reason until ladder none s).1
  unfolding lua_fail
  fail-Inv item true max now reason until ladder {s} listing v =
      elim (Option-cases (zscore s.lease item)) [
        | inl e ↦ rw e (unleased-Inv item v e)
        | inr (n, e) ↦ elim (Bool-cases (leb max (or_zero (R.hget s.strikes (url_of item)) + 1))) [
          | inl struck ↦ elim (Bool-cases (ltb 0 until)) [
            | inl later ↦
                rw (e, struck, later)
                  (finished-Inv item v e _ refl refl refl refl refl refl
                    (rescheduled item v _ (url_of item) _ refl (listing (ground arith)) refl))
            | inr forever ↦
                rw (e, struck, forever)
                  (finished-Inv item v e _ refl refl refl refl refl refl
                    (unscheduled item v _ refl))
          ]
          | inr spared ↦
              rw (e, spared)
                (back-Inv item v e _ refl refl refl refl refl
                  (λ x. omega (arith, scored-fresh (url_of item) x _ v)))
        ]
      ]
  fail-Inv item false max now reason until ladder {s} listing v =
      elim (Option-cases (zscore s.lease item)) [
        | inl e ↦ rw e (unleased-Inv item v e)
        | inr (n, e) ↦ rw e (
            back-Inv item v e _ refl refl refl refl refl
              (λ x. omega (arith, scored-fresh (url_of item) x _ v)))
      ]

  pub lease-Inv :
      (now timeout : ℕ) {s : Store R}
      → Inv R is_video s
      → Inv R is_video (lua_lease now timeout none s).1
  unfolding lua_lease live
  lease-Inv now timeout {s} v = elim (Option-cases (R.lmove s.ready s.processing)) [
    | inl e ↦ rw e v
    | inr ((m, from, to), e) ↦ rw e (
        moved-Inv R is_video v
          (record {
            leased = λ x. ground (
              arith,
              scored-zadd R x m (now + timeout) s.lease,
              v.leased x,
              v.once x,
              occurs-lmove R x s.ready s.processing m from to e,
            );
            listed = v.listed;
          })
          (omega arith) (λ x. omega (arith, occurs-lmove R x s.ready s.processing m from to e))
          (λ u. Claimed-of R is_video u s _ (λ h. h) (λ h. h)))
  ]
