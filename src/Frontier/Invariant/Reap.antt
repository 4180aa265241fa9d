-- ===== src/Frontier/Invariant/Reap.antt =====
-- luaReap (internal/storage/frontier.go): what becomes of the leases that it meets.
use gfap.Base.{
  ℕ, ◌+◌, ◌≡◌, ◌≤◌, ◌<◌, refl, ◌∙◌, Bool, none, some, arith, dec_le, List, [], ◌∷◌, count,
  count-cons, count-nil, length,
}
use gfap.Text.{Text, dec_text}
use gfap.Text.Member.{url_of}
use gfap.Redis.{Redis}
use gfap.Base.{All-of_mem}
use gfap.Redis.Lists.{occurs-lpush}
use gfap.Frontier.{Store}
use gfap.Frontier.Script.Loops.{Ends, sum_over-length}
use gfap.Frontier.Script.Reconcile.{reap_one, lua_reap}
use gfap.Frontier.Invariant.{Inv, fresh}
use gfap.Frontier.Invariant.Resolve.{back-Inv}

module _ (R : Redis) (is_video : Text → Bool) where
  open R use {
    zscore, zrem, zscore-zrem, lrem, lpush, zrangebyscore, zrangebyscore_due, zrangebyscore_once,
    zrangebyscore_all,
  }

  -- One round of the reaper on a leased member is a requeue.
  requeued : Text → Store R → Store R
  requeued item s = record s {
    seq = s.seq + 1;
    ready = lpush s.ready (fresh R is_video (url_of item) s);
    processing = lrem s.processing item;
    lease = zrem s.lease item;
  }

  reap_one-Ends :
      (item : Text) (s : Store R) (n : ℕ)
      → zscore s.lease item ≡ some n
      → Ends (reap_one item) s 1 (requeued item s)
  unfolding reap_one requeued
  reap_one-Ends item s n e = rw e

  requeued-Inv' :
      (item : Text) (s : Store R) {n : ℕ}
      → zscore s.lease item ≡ some n
      → Inv R is_video s
      → Inv R is_video (requeued item s)
  unfolding requeued
  requeued-Inv' item s e v =
      back-Inv R is_video item v e _ refl refl refl refl refl
        (λ x. omega (arith, occurs-lpush R x (fresh R is_video (url_of item) s) s.ready))

  -- A reaper that has `todo` left of the members that it found expired, from `s` on.
  record Reaping (s : Store R) (all todo : List Text) (t : Store R) : Type 0 where
    inv : Inv R is_video t
    once : (x : Text) → count dec_text x todo ≤ 1
    among : (x : Text) → count dec_text x todo ≤ count dec_text x all
    waiting : (x : Text) → 1 ≤ count dec_text x todo → (n : ℕ) × (zscore t.lease x ≡ some n)
    reaped :
        (x : Text) → 1 ≤ count dec_text x all → count dec_text x todo ≡ 0 → zscore t.lease x ≡ none
    kept : (x : Text) → count dec_text x all ≡ 0 → zscore t.lease x ≡ zscore s.lease x

  reap_round :
      (s : Store R) (all : List Text) (x : Text) (xs : List Text) (t : Store R)
      → Reaping s all (x ∷ xs) t
      → (u : Store R) × Ends (reap_one x) t 1 u × Reaping s all xs u
  unfolding requeued
  reap_round s all x xs t r =
      let (n, e) = r.waiting x (ground (arith, count-cons dec_text x x xs)) in
      (
        requeued x t,
        reap_one-Ends x t n e,
        record {
          inv = requeued-Inv' x t e r.inv;
          once = λ y. omega (arith, r.once y, count-cons dec_text y x xs);
          among = λ y. omega (arith, r.among y, count-cons dec_text y x xs);
          waiting = λ y l.
              let (k, w) = r.waiting y (omega (arith, count-cons dec_text y x xs)) in
              (k, ground (arith, zscore-zrem t.lease x y, w, r.once y, count-cons dec_text y x xs));
          reaped = λ y l z.
              ground (arith, count-cons dec_text y x xs, r.reaped y l, zscore-zrem t.lease x y);
          kept = λ y z.
              ground
                (arith, count-cons dec_text y x xs, r.kept y z, r.among y, zscore-zrem t.lease x y);
        },
      )

  due_waiting :
      (s : Store R) (max limit : ℕ) (x : Text)
      → 1 ≤ count dec_text x (zrangebyscore s.lease max limit)
      → (n : ℕ) × (zscore s.lease x ≡ some n) × (n ≤ max)
  due_waiting s max limit x l =
      All-of_mem dec_text _ x (zrangebyscore s.lease max limit)
        (zrangebyscore_due s.lease max limit) l

  -- What expires later is not in the range.
  later-count :
      (s : Store R) (now limit : ℕ) (x : Text) (n : ℕ)
      → zscore s.lease x ≡ some n
      → now < n
      → count dec_text x (zrangebyscore s.lease now limit) ≡ 0
  later-count s now limit x n e lt =
      elim (dec_le 1 (count dec_text x (zrangebyscore s.lease now limit))) [
        | yes l ↦
            let (k, e', le) = due_waiting s now limit x l in absurd (ground (arith, e, e', le, lt))
        | no l ↦ omega arith
      ]

  reap-Ends :
      (now limit : ℕ) (s : Store R)
      → Inv R is_video s
      → let due = zrangebyscore s.lease now limit in
        (t : Store R) × Ends (lua_reap now limit) s (length due) t × Reaping s due [] t
  unfolding lua_reap
  reap-Ends now limit s v =
      let due = zrangebyscore s.lease now limit in
      sum_over-length (Reaping s due) reap_one (reap_round s due) due s (record {
        inv = v;
        once = zrangebyscore_once s.lease now limit;
        among = λ x. omega arith;
        waiting = λ x l. let (n, e, le) = due_waiting s now limit x l in (n, e);
        reaped = λ x l z. absurd (omega (arith, l, z));
        kept = λ x z. refl;
      })

  -- With no failing command the reaper keeps the invariant, counts the leases that it ends, ends
  -- only expired ones, and, where it met fewer than its limit, leaves no expired one.
  pub reap_correct :
      (now limit : ℕ) (s : Store R)
      → Inv R is_video s
      → let t = (lua_reap now limit none s).1 in
        let due = zrangebyscore s.lease now limit in
        Inv R is_video t
        × ((lua_reap now limit none s).0 ≡ some (length due))
        × ((x : Text) → 1 ≤ count dec_text x due → zscore t.lease x ≡ none)
        × ((x : Text) (n : ℕ) → zscore s.lease x ≡ some n → now < n → zscore t.lease x ≡ some n)
        × (length due < limit → (x : Text) (n : ℕ) → zscore t.lease x ≡ some n → now < n)
  reap_correct now limit s v =
      let (t, e, r) = reap-Ends now limit s v in
      rw e (
        r.inv,
        refl,
        (λ x l. r.reaped x l (count-nil dec_text x)),
        (λ x n e' lt. r.kept x (later-count s now limit x n e' lt) ∙ e'),
        (λ short x n e'. ground (
          arith,
          e',
          r.reaped x,
          r.kept x,
          count-nil dec_text x,
          zrangebyscore_all s.lease now limit x n short,
        )),
      )
