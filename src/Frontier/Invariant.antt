-- ===== src/Frontier/Invariant.antt =====
-- What holds of the keyspace between two scripts, and the four ways in which a script changes the
-- live jobs: it takes one away, puts one back under a fresh id, adds one, or only moves them.
pub mod Resolve
pub mod Admit
pub mod Reap
pub mod Promote
pub mod Sweep
pub mod Schedule
use gfap.Base.{
  ℕ, ◌+◌, ◌≤◌, ◌≡◌, ◌≢◌, dec_le, subst, ap, sym, ◌∙◌, Bool, true, false, some, ite, arith, ◌⊎◌, inl,
  inr,
}
use gfap.Text.{Text, dec_text}
use gfap.Text.Member.{member, url_of, id_of, url_of-member, id_of-member}
use gfap.Redis.{Redis}
use gfap.Redis.Lists.{same, occurs}
use gfap.Frontier.{Store, pending_score}
use gfap.Frontier.Live.{live, scored}

module _ (R : Redis) (is_video : Text → Bool) where
  open R use {zscore, bf_exists}

  -- What bars a second admission of a URL.
  abbrev ClaimedBy : Bool → Text → Store R → Type 0
  ClaimedBy true url s = bf_exists s.bloom url ≡ true
  ClaimedBy false url s = zscore s.listing_next url ≡ some pending_score

  ClaimedBy-of :
      (b : Bool) (url : Text) (s t : Store R)
      → (bf_exists s.bloom url ≡ true → bf_exists t.bloom url ≡ true)
      → (zscore s.listing_next url ≡ some pending_score
          → zscore t.listing_next url ≡ some pending_score)
      → ClaimedBy b url s
      → ClaimedBy b url t
  ClaimedBy-of true url s t b n c = b c
  ClaimedBy-of false url s t b n c = n c

  abbrev pub Claimed : Text → Store R → Type 0
  Claimed url s = ClaimedBy (is_video url) url s

  -- A claim rests on the filter and on the URL's own score.
  pub Claimed-of :
      (url : Text) (s t : Store R)
      → (bf_exists s.bloom url ≡ true → bf_exists t.bloom url ≡ true)
      → (zscore s.listing_next url ≡ some pending_score
          → zscore t.listing_next url ≡ some pending_score)
      → Claimed url s
      → Claimed url t
  Claimed-of url s t b n c = ClaimedBy-of (is_video url) url s t b n c

  -- Ids were handed out, a member is in one place, leases are on the members in processing, a URL
  -- has one live job, which its claim shows, and only listings are scheduled.
  pub record Inv (s : Store R) : Type 0 where
    pub ids : (x : Text) → 1 ≤ live R x s → id_of x ≤ s.seq
    pub once : (x : Text) → live R x s ≤ 1
    pub leased : (x : Text) → scored R x s.lease ≡ occurs R x s.processing
    pub sole : (x y : Text) → 1 ≤ live R x s → 1 ≤ live R y s → url_of x ≡ url_of y → x ≡ y
    pub claims : (x : Text) → 1 ≤ live R x s → Claimed (url_of x) s
    pub listed : (url : Text) (n : ℕ) → zscore s.listing_next url ≡ some n → is_video url ≡ false

  abbrev pub fresh : Text → Store R → Text
  fresh url s = member (s.seq + 1) url

  module _ (s : Store R) (url x : Text) (e : fresh url s ≡ x) where
    id-fresh : id_of x ≡ s.seq + 1
    id-fresh = ap id_of (sym e) ∙ id_of-member (s.seq + 1) url

    url-fresh : url_of x ≡ url
    url-fresh = ap url_of (sym e) ∙ url_of-member (s.seq + 1) url

    pub live-fresh : Inv s → live R x s ≡ 0
    live-fresh v = elim (dec_le 1 (live R x s)) [
      | yes l ↦ absurd (omega (arith, v.ids x l, id-fresh))
      | no l ↦ omega arith
    ]

  -- The parts that a change of the live jobs leaves to its script.
  pub record Kept (s t : Store R) : Type 0 where
    pub leased : (x : Text) → scored R x t.lease ≡ occurs R x t.processing
    pub listed : (url : Text) (n : ℕ) → zscore t.listing_next url ≡ some n → is_video url ≡ false

  module _ {s t : Store R} (v : Inv s) (k : Kept s t) where
    pub moved-Inv :
        s.seq ≤ t.seq
        → ((x : Text) → live R x t ≡ live R x s)
        → ((url : Text) → Claimed url s → Claimed url t)
        → Inv t
    moved-Inv q h c = record {
      ids = λ x l. omega (arith, v.ids x (omega (arith, h x)));
      once = λ x. omega (arith, h x, v.once x);
      leased = k.leased;
      sole = λ x y lx ly e. v.sole x y (omega (arith, h x)) (omega (arith, h y)) e;
      claims = λ x l. c (url_of x) (v.claims x (omega (arith, h x)));
      listed = k.listed;
    }

    -- `m` is gone.
    pub dropped-Inv :
        (m : Text)
        → s.seq ≤ t.seq
        → 1 ≤ live R m s
        → ((x : Text) → live R x t + same R m x ≡ live R x s)
        → ((url : Text) → url ≢ url_of m → Claimed url s → Claimed url t)
        → Inv t
    dropped-Inv m q lm h c = record {
      ids = λ x l. omega (arith, v.ids x (omega (arith, h x)));
      once = λ x. omega (arith, h x, v.once x);
      leased = k.leased;
      sole = λ x y lx ly e. v.sole x y (omega (arith, h x)) (omega (arith, h y)) e;
      claims = λ x l.
          c (url_of x) (λ e. other x l (v.sole m x lm (omega (arith, h x)) (sym e)))
            (v.claims x (omega (arith, h x)));
      listed = k.listed;
    }
      where
        other : (x : Text) → 1 ≤ live R x t → m ≢ x
        other x l e = ground (arith, h x, v.once x)

    -- A job of `url` under a fresh id is new, and no job of `url` was there.
    module _ (url : Text) (q : t.seq ≡ s.seq + 1)
        (none_before : (x : Text) → 1 ≤ live R x s → url_of x ≢ url)
        (h : (x : Text) → live R x t ≡ live R x s + same R (fresh url s) x) (cu : Claimed url t)
        (c : (u : Text) → Claimed u s → Claimed u t) where
      added_or_old : (x : Text) → 1 ≤ live R x t → (1 ≤ live R x s) ⊎ (fresh url s ≡ x)
      added_or_old x l = ground (arith, h x)

      added_sole : (x y : Text) → 1 ≤ live R x t → 1 ≤ live R y t → url_of x ≡ url_of y → x ≡ y
      added_sole x y lx ly e = elim (added_or_old x lx) [
        | inl old ↦ elim (added_or_old y ly) [
          | inl old' ↦ v.sole x y old old' e
          | inr new' ↦ absurd (none_before x old (e ∙ url-fresh s url y new'))
        ]
        | inr new ↦ elim (added_or_old y ly) [
          | inl old' ↦ absurd (none_before y old' (sym e ∙ url-fresh s url x new))
          | inr new' ↦ sym new ∙ new'
        ]
      ]

      pub added-Inv : Inv t
      added-Inv = record {
        ids = λ x l. elim (added_or_old x l) [
          | inl old ↦ omega (arith, v.ids x old)
          | inr new ↦ omega (arith, id-fresh s url x new)
        ];
        once = λ x. ground (arith, h x, v.once x, λ (g : fresh url s ≡ x). live-fresh s url x g v);
        leased = k.leased;
        sole = added_sole;
        claims = λ x l. elim (added_or_old x l) [
          | inl old ↦ c (url_of x) (v.claims x old)
          | inr new ↦ subst (λ u. Claimed u t) (sym (url-fresh s url x new)) cu
        ];
        listed = k.listed;
      }

    -- `m` is gone, and a job of its URL is there under a fresh id.
    module _ (m : Text) (q : t.seq ≡ s.seq + 1) (lm : 1 ≤ live R m s)
        (h : (x : Text) → live R x t + same R m x ≡ live R x s + same R (fresh (url_of m) s) x)
        (c : (u : Text) → Claimed u s → Claimed u t) where
      requeued_or_old :
          (x : Text) → 1 ≤ live R x t → ((1 ≤ live R x s) × (m ≢ x)) ⊎ (fresh (url_of m) s ≡ x)
      requeued_or_old x l =
          ground
            (arith, h x, v.once x, λ (g : fresh (url_of m) s ≡ x). live-fresh s (url_of m) x g v)

      requeued_sole : (x y : Text) → 1 ≤ live R x t → 1 ≤ live R y t → url_of x ≡ url_of y → x ≡ y
      requeued_sole x y lx ly e = elim (requeued_or_old x lx) [
        | inl old ↦ elim (requeued_or_old y ly) [
          | inl old' ↦ v.sole x y old.0 old'.0 e
          | inr new' ↦
              absurd (old.1 (v.sole m x lm old.0 (sym (e ∙ url-fresh s (url_of m) y new'))))
        ]
        | inr new ↦ elim (requeued_or_old y ly) [
          | inl old' ↦
              absurd (old'.1 (v.sole m y lm old'.0 (sym (sym e ∙ url-fresh s (url_of m) x new))))
          | inr new' ↦ sym new ∙ new'
        ]
      ]

      pub requeued-Inv : Inv t
      requeued-Inv = record {
        ids = λ x l. elim (requeued_or_old x l) [
          | inl old ↦ omega (arith, v.ids x old.0)
          | inr new ↦ omega (arith, id-fresh s (url_of m) x new)
        ];
        once = λ x.
            ground
              (arith, h x, v.once x, λ (g : fresh (url_of m) s ≡ x). live-fresh s (url_of m) x g v);
        leased = k.leased;
        sole = requeued_sole;
        claims = λ x l. elim (requeued_or_old x l) [
          | inl old ↦ c (url_of x) (v.claims x old.0)
          | inr new ↦
              subst (λ u. Claimed u t) (sym (url-fresh s (url_of m) x new))
                (c (url_of m) (v.claims m lm))
        ];
        listed = k.listed;
      }
