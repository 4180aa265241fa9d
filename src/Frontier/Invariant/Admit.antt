-- ===== src/Frontier/Invariant/Admit.antt =====
-- luaAdmitVideo, luaAdmitListing, the ZADD NX of SeedListing and luaListingScheduler keep the
-- invariant.
use gfap.Base.{
  ℕ, ◌+◌, ◌≡◌, ◌≤◌, ◌<◌, refl, Bool, true, false, none, is_some, arith, Option-cases, Bool-cases,
  inl, inr, ltb, ◌==◌, ◌||◌, subst,
}
use gfap.Text.{Text}
use gfap.Text.Member.{url_of}
use gfap.Redis.{Redis}
use gfap.Redis.Lists.{same, occurs-lpush, occurs-lrem}
use gfap.Frontier.{Store, DeadEntry, pending_score}
use gfap.Frontier.Live.{live}
use gfap.Frontier.Script.Admit.{lua_admit_video, lua_admit_listing, not_due}
use gfap.Frontier.Invariant.{Claimed, Claimed-of, Inv, fresh, moved-Inv, added-Inv}

module _ (R : Redis) (is_video : Text → Bool) where
  open R use {
    zscore, zadd, zscore-zadd, lrem, lpush, bf_exists, bf_add, bf_exists-bf_add_self,
    bf_exists-bf_add,
  }

  -- A URL with a live job shows its claim.
  claimed :
      (url : Text) {s : Store R}
      → Inv R is_video s
      → (x : Text) → 1 ≤ live R x s
      → url_of x ≡ url
      → Claimed R is_video url s
  claimed url {s} v x l e = subst (λ u. Claimed R is_video u s) e (v.claims x l)

  -- The dead hash does not count.
  undead :
      {d : R.Hash DeadEntry} {s : Store R}
      → Inv R is_video s
      → Inv R is_video (record s { dead = d })
  unfolding live
  undead v = record {
    ids = v.ids;
    once = v.once;
    leased = v.leased;
    sole = v.sole;
    claims = λ x l. Claimed-of R is_video (url_of x) _ _ (λ h. h) (λ h. h) (v.claims x l);
    listed = v.listed;
  }

  module _ (url : Text) {s : Store R} (v : Inv R is_video s) where
    -- The fresh member is in the ready list, and nothing else moved.
    pub record Pushed (t : Store R) : Type 0 where
      pub seq : t.seq ≡ s.seq + 1
      pub ready : t.ready ≡ lpush s.ready (fresh R is_video url s)
      pub processing : t.processing ≡ s.processing
      pub lease : t.lease ≡ s.lease
      pub delayed : t.delayed ≡ s.delayed

    Pushed-live :
        (t : Store R)
        → Pushed t
        → (x : Text) → live R x t ≡ live R x s + same R (fresh R is_video url s) x
    unfolding live
    Pushed-live t p x =
        rw (p.ready, p.processing, p.delayed)
          (omega (arith, occurs-lpush R x (fresh R is_video url s) s.ready))

    video_added :
        (t : Store R)
        → Pushed t
        → t.listing_next ≡ s.listing_next
        → t.bloom ≡ bf_add s.bloom url
        → is_video url ≡ true
        → bf_exists s.bloom url ≡ false
        → Inv R is_video t
    video_added t p en eb video unseen =
        added-Inv R is_video v
          (record {
            leased = λ x. rw (p.lease, p.processing) (v.leased x);
            listed = λ u k h. v.listed u k (rw en at h);
          })
          url p.seq (λ x l e. absurd (ground (arith, claimed url v x l e, video, unseen)))
          (Pushed-live t p) (rw (video, eb) (bf_exists-bf_add_self s.bloom url))
          (λ u.
            Claimed-of R is_video u s t (λ h. rw eb (bf_exists-bf_add s.bloom url u h))
              (λ h. rw en h))

    -- The fresh member was pushed and taken out again.
    video_duplicate :
        (t : Store R)
        → t.seq ≡ s.seq + 1
        → t.ready ≡ lrem (lpush s.ready (fresh R is_video url s)) (fresh R is_video url s)
        → t.processing ≡ s.processing
        → t.lease ≡ s.lease
        → t.delayed ≡ s.delayed
        → t.listing_next ≡ s.listing_next
        → t.bloom ≡ bf_add s.bloom url
        → Inv R is_video t
    unfolding live
    video_duplicate t es er ep el ed en eb =
        moved-Inv R is_video v
          (record {
            leased = λ x. rw (el, ep) (v.leased x);
            listed = λ u k h. v.listed u k (rw en at h);
          })
          (omega (arith, es))
          (λ x.
            rw (er, ep, ed)
              (omega (
                arith,
                occurs-lrem R x (fresh R is_video url s) (lpush s.ready (fresh R is_video url s)),
                occurs-lpush R x (fresh R is_video url s) s.ready,
              )))
          (λ u.
            Claimed-of R is_video u s t (λ h. rw eb (bf_exists-bf_add s.bloom url u h))
              (λ h. rw en h))

    pub listing_added :
        (now : ℕ) (t : Store R)
        → Pushed t
        → t.listing_next ≡ zadd s.listing_next url pending_score
        → t.bloom ≡ s.bloom
        → is_video url ≡ false
        → now < pending_score
        → not_due now (zscore s.listing_next url) ≡ false
        → Inv R is_video t
    listing_added now t p en eb listing early is_due =
        added-Inv R is_video v
          (record {
            leased = λ x. rw (p.lease, p.processing) (v.leased x);
            listed = λ u k h. ground (
              arith,
              zscore-zadd s.listing_next url pending_score u,
              v.listed u k,
              en,
              listing,
              h,
            );
          })
          url p.seq (λ x l e. absurd (ground (arith, claimed url v x l e, listing, is_due, early)))
          (Pushed-live t p)
          (rw (listing, en) (ground (arith, zscore-zadd s.listing_next url pending_score url)))
          (λ u.
            Claimed-of R is_video u s t (λ h. rw eb h)
              (λ h. ground (arith, zscore-zadd s.listing_next url pending_score u, h, en)))

  pub admit_video-Inv :
      (url : Text) (now : ℕ) {s : Store R}
      → is_video url ≡ true
      → Inv R is_video s
      → Inv R is_video (lua_admit_video url now none s).1
  unfolding lua_admit_video
  admit_video-Inv url now {s} video v = elim (Option-cases (R.hget s.dead url)) [
    | inl e ↦ elim (Bool-cases (bf_exists s.bloom url)) [
      | inl seen ↦ rw (e, seen) (video_duplicate url v _ refl refl refl refl refl refl refl)
      | inr unseen ↦
          rw (e, unseen)
            (video_added url v _
              (record { seq = refl; ready = refl; processing = refl; lease = refl; delayed = refl })
              refl refl video unseen)
    ]
    | inr (d, e) ↦ elim (Bool-cases (d.until == 0 || ltb now d.until)) [
      | inl refused ↦ rw (e, refused) v
      | inr expired ↦ elim (Bool-cases (bf_exists s.bloom url)) [
        | inl seen ↦
            rw (e, expired, seen) (video_duplicate url v _ refl refl refl refl refl refl refl)
        | inr unseen ↦
            rw (e, expired, unseen)
              (video_added url v _
                (record {
                  seq = refl;
                  ready = refl;
                  processing = refl;
                  lease = refl;
                  delayed = refl;
                })
                refl refl video unseen)
      ]
    ]
  ]

  pub admit_listing-Inv :
      (url : Text) (now : ℕ) {s : Store R}
      → is_video url ≡ false
      → now < pending_score
      → Inv R is_video s
      → Inv R is_video (lua_admit_listing url now none s).1
  unfolding lua_admit_listing
  admit_listing-Inv url now {s} listing early v = elim (Option-cases (R.hget s.dead url)) [
    | inl e ↦ elim (Bool-cases (not_due now (zscore s.listing_next url))) [
      | inl wait ↦ rw (e, wait) v
      | inr is_due ↦ elim (Bool-cases (is_some (zscore s.listing_next url))) [
        | inl again ↦
            rw (e, is_due, again)
              (listing_added url v now _
                (record {
                  seq = refl;
                  ready = refl;
                  processing = refl;
                  lease = refl;
                  delayed = refl;
                })
                refl refl listing early is_due)
        | inr first ↦
            rw (e, is_due, first)
              (listing_added url v now _
                (record {
                  seq = refl;
                  ready = refl;
                  processing = refl;
                  lease = refl;
                  delayed = refl;
                })
                refl refl listing early is_due)
      ]
    ]
    | inr (d, e) ↦ elim (Bool-cases (d.until == 0 || ltb now d.until)) [
      | inl refused ↦ rw (e, refused) v
      | inr expired ↦ elim (Bool-cases (not_due now (zscore s.listing_next url))) [
        | inl wait ↦ rw (e, expired, wait) (undead v)
        | inr is_due ↦ elim (Bool-cases (is_some (zscore s.listing_next url))) [
          | inl again ↦
              rw (e, expired, is_due, again)
                (listing_added url v now _
                  (record {
                    seq = refl;
                    ready = refl;
                    processing = refl;
                    lease = refl;
                    delayed = refl;
                  })
                  refl refl listing early is_due)
          | inr first ↦
              rw (e, expired, is_due, first)
                (listing_added url v now _
                  (record {
                    seq = refl;
                    ready = refl;
                    processing = refl;
                    lease = refl;
                    delayed = refl;
                  })
                  refl refl listing early is_due)
        ]
      ]
    ]
  ]
