-- ===== src/Frontier/Invariant/Promote.antt =====
-- luaPromote (internal/storage/frontier.go): what becomes of the delayed jobs that it meets.
use gfap.Base.{
  ℕ, ◌+◌, ◌≡◌, ◌≤◌, ◌<◌, refl, ◌∙◌, Bool, none, some, arith, dec_le, List, [], ◌∷◌, count,
  count-cons, count-nil, length, All-of_mem,
}
use gfap.Text.{Text, dec_text}
use gfap.Text.Member.{url_of}
use gfap.Redis.{Redis}
use gfap.Redis.Lists.{occurs-lpush}
use gfap.Frontier.{Store}
use gfap.Frontier.Live.{live, scored-some, scored-zrem}
use gfap.Frontier.Script.Loops.{Ends, sum_over-length}
use gfap.Frontier.Script.Reconcile.{promote_one, lua_promote}
use gfap.Frontier.Invariant.{Claimed-of, Inv, fresh, requeued-Inv}

module _ (R : Redis) (is_video : Text → Bool) where
  open R use {
    zscore, zrem, zscore-zrem, lpush, zrangebyscore, zrangebyscore_due, zrangebyscore_once,
    zrangebyscore_all,
  }

  -- One round of the promoter.
  promoted : Text → Store R → Store R
  promoted item s = record s {
    seq = s.seq + 1;
    ready = lpush s.ready (fresh R is_video (url_of item) s);
    delayed = zrem s.delayed item;
  }

  promote_one-Ends : (item : Text) (s : Store R) → Ends (promote_one item) s 1 (promoted item s)
  unfolding promote_one promoted
  promote_one-Ends item s = refl

  promoted-Inv :
      (item : Text) (s : Store R) {n : ℕ}
      → zscore s.delayed item ≡ some n
      → Inv R is_video s
      → Inv R is_video (promoted item s)
  unfolding promoted live
  promoted-Inv item s {n} e v =
      requeued-Inv R is_video v (record { leased = v.leased; listed = v.listed }) item refl
        (omega (arith, scored-some R item s.delayed n e))
        (λ x. ground (
          arith,
          scored-zrem R x item s.delayed,
          scored-some R item s.delayed n e,
          occurs-lpush R x (fresh R is_video (url_of item) s) s.ready,
        ))
        (λ u. Claimed-of R is_video u s _ (λ h. h) (λ h. h))

  -- A promoter that has `todo` left of the members that it found due, from `s` on.
  record Promoting (s : Store R) (all todo : List Text) (t : Store R) : Type 0 where
    inv : Inv R is_video t
    once : (x : Text) → count dec_text x todo ≤ 1
    among : (x : Text) → count dec_text x todo ≤ count dec_text x all
    waiting : (x : Text) → 1 ≤ count dec_text x todo → (n : ℕ) × (zscore t.delayed x ≡ some n)
    gone :
        (x : Text)
        → 1 ≤ count dec_text x all
        → count dec_text x todo ≡ 0
        → zscore t.delayed x ≡ none
    kept : (x : Text) → count dec_text x all ≡ 0 → zscore t.delayed x ≡ zscore s.delayed x

  promote_round :
      (s : Store R) (all : List Text) (x : Text) (xs : List Text) (t : Store R)
      → Promoting s all (x ∷ xs) t
      → (u : Store R) × Ends (promote_one x) t 1 u × Promoting s all xs u
  unfolding promoted
  promote_round s all x xs t r =
      let (n, e) = r.waiting x (ground (arith, count-cons dec_text x x xs)) in
      (
        promoted x t,
        promote_one-Ends x t,
        record {
          inv = promoted-Inv x t e r.inv;
          once = λ y. omega (arith, r.once y, count-cons dec_text y x xs);
          among = λ y. omega (arith, r.among y, count-cons dec_text y x xs);
          waiting = λ y l.
              let (k, w) = r.waiting y (omega (arith, count-cons dec_text y x xs)) in
              (
                k,
                ground (arith, zscore-zrem t.delayed x y, w, r.once y, count-cons dec_text y x xs),
              );
          gone = λ y l z.
              ground (arith, count-cons dec_text y x xs, r.gone y l, zscore-zrem t.delayed x y);
          kept = λ y z.
              ground (
                arith,
                count-cons dec_text y x xs,
                r.kept y z,
                r.among y,
                zscore-zrem t.delayed x y,
              );
        },
      )

  due_waiting :
      (s : Store R) (max limit : ℕ) (x : Text)
      → 1 ≤ count dec_text x (zrangebyscore s.delayed max limit)
      → (n : ℕ) × (zscore s.delayed x ≡ some n) × (n ≤ max)
  due_waiting s max limit x l =
      All-of_mem dec_text _ x (zrangebyscore s.delayed max limit)
        (zrangebyscore_due s.delayed max limit) l

  -- What is due later is not in the range.
  later-count :
      (s : Store R) (now limit : ℕ) (x : Text) (n : ℕ)
      → zscore s.delayed x ≡ some n
      → now < n
      → count dec_text x (zrangebyscore s.delayed now limit) ≡ 0
  later-count s now limit x n e lt =
      elim (dec_le 1 (count dec_text x (zrangebyscore s.delayed now limit))) [
        | yes l ↦
            let (k, e', le) = due_waiting s now limit x l in absurd (ground (arith, e, e', le, lt))
        | no l ↦ omega arith
      ]

  promote-Ends :
      (now limit : ℕ) (s : Store R)
      → Inv R is_video s
      → let due = zrangebyscore s.delayed now limit in
        (t : Store R) × Ends (lua_promote now limit) s (length due) t × Promoting s due [] t
  unfolding lua_promote
  promote-Ends now limit s v =
      let due = zrangebyscore s.delayed now limit in
      let (t, e, r) =
        sum_over-length (Promoting s due) promote_one (promote_round s due) due s (record {
          inv = v;
          once = zrangebyscore_once s.delayed now limit;
          among = λ x. omega arith;
          waiting = λ x l. let (n, g, le) = due_waiting s now limit x l in (n, g);
          gone = λ x l z. absurd (omega (arith, l, z));
          kept = λ x z. refl;
        }) in
      (t, rw e, r)

  -- With no failing command the promoter keeps the invariant, counts the jobs that it takes out of
  -- the delayed set, takes out only due ones, and, where it met fewer than its limit, leaves no
  -- due one.
  pub promote_correct :
      (now limit : ℕ) (s : Store R)
      → Inv R is_video s
      → let t = (lua_promote now limit none s).1 in
        let due = zrangebyscore s.delayed now limit in
        Inv R is_video t
        × ((lua_promote now limit none s).0 ≡ some (length due))
        × ((x : Text) → 1 ≤ count dec_text x due → zscore t.delayed x ≡ none)
        × ((x : Text) (n : ℕ) → zscore s.delayed x ≡ some n → now < n → zscore t.delayed x ≡ some n)
        × (length due < limit → (x : Text) (n : ℕ) → zscore t.delayed x ≡ some n → now < n)
  promote_correct now limit s v =
      let (t, e, r) = promote-Ends now limit s v in
      rw e (
        r.inv,
        refl,
        (λ x l. r.gone x l (count-nil dec_text x)),
        (λ x n e' lt. r.kept x (later-count s now limit x n e' lt) ∙ e'),
        (λ short x n e'. ground (
          arith,
          e',
          r.gone x,
          r.kept x,
          count-nil dec_text x,
          zrangebyscore_all s.delayed now limit x n short,
        )),
      )
