-- ===== src/Frontier/Fence.antt =====
-- The fence of the resolving methods: Ack, Nack, Fail, Terminal and CompleteListing take the
-- job's lease first, and the one that gets it resolves the job.
use gfap.Base.{
  ℕ, ◌+◌, ◌≡◌, ◌≤◌, ◌⊎◌, refl, sym, ap, ◌∙◌, Option, none, some, List, arith, Option-cases,
  Bool-cases, inl, inr, leb, ltb, or_zero, if_pos,
}
use gfap.Text.{Text, dec_text}
use gfap.Text.Member.{member, id_of}
use gfap.Redis.{Redis}
use gfap.Redis.Lists.{occurs, occurs-lpush, occurs-lrem}
use gfap.Frontier.{
  Store, Job, FrontierConfig, UrlClass, FailClass, fail_rate_limited, fail_strikeable,
}
use gfap.Frontier.Live.{live, scored, scored-some}
use gfap.Frontier.Invariant.{Inv}
use gfap.Frontier.History.{Call, is_video, run}
use gfap.Frontier.Lasting.Calls.{run-lasts}
use gfap.Frontier.Lasting.Gone.{Gone, Gone-Lasting, same-fresh, unscored-zadd, fresh_other}
use gfap.Frontier.Script.Admit.{push_job}
use gfap.Frontier.Script.Resolve.{
  count_barren, set_quarantine, count_strikes, bury, delay_job, lua_ack, lua_nack, lua_fail,
  lua_terminal, lua_complete_listing,
}
use gfap.Frontier.Client.{
  stale_lease, Result, returns, fails, Fault, Time, quarantine_until, unix_or_zero, run_script, ack,
  nack, fail, terminal, complete_listing,
}

-- A call that resolves a job, with its arguments.
pub data Resolution : Type 0 where
  acks nacks : Resolution
  failed : FailClass → Resolution
  ends : Text → Time → Resolution
  completes : ℕ → Resolution

abbrev pub no_value : {A : Type 0} → Result A → Result (Unit {0})
no_value (returns a) = returns tt
no_value (fails e) = fails e

module _ (R : Redis) (cfg : FrontierConfig) where
  open R use {zscore, zrem, zscore-zrem, hget, lpush, lrem, zadd}

  unfoldable pub resolve :
      Option Fault → ℕ → Job → Resolution → Store R → Result (Unit {0}) × Store R
  resolve fault now j acks s = ack fault j s
  resolve fault now j nacks s = nack fault j s
  resolve fault now j (failed class) s =
      let (r, t) = fail cfg fault now j class s in (no_value r, t)
  resolve fault now j (ends reason until) s = terminal fault j reason until s
  resolve fault now j (completes n) s = complete_listing cfg fault now j n s

  -- A call on a job that holds no lease replies that the lease is stale, and only removes a member
  -- from the leases that is not in them.
  pub resolve_stale :
      (now : ℕ) (j : Job) (r : Resolution) (s : Store R)
      → zscore s.lease j.member ≡ none
      → resolve none now j r s ≡ (fails stale_lease, record s { lease = zrem s.lease j.member })
  unfolding resolve ack nack fail terminal complete_listing run_script lua_ack lua_nack lua_fail
      lua_terminal lua_complete_listing
  resolve_stale now j acks s e = rw e refl
  resolve_stale now j nacks s e = rw e refl
  resolve_stale now j (failed class) s e = rw e refl
  resolve_stale now j (ends reason until) s e = rw e refl
  resolve_stale now j (completes n) s e = rw e refl

  -- A call on a job that holds a lease succeeds, and its lease is gone.
  pub resolve_leased :
      (now n : ℕ) (j : Job) (r : Resolution) (s : Store R)
      → zscore s.lease j.member ≡ some n
      → ((resolve none now j r s).0 ≡ returns tt)
        × (zscore (resolve none now j r s).1.lease j.member ≡ none)
  unfolding resolve ack nack fail terminal complete_listing run_script lua_ack lua_nack lua_fail
      lua_terminal lua_complete_listing count_barren set_quarantine count_strikes bury delay_job
  resolve_leased now n j acks s e =
      (rw e (ground arith), rw e (ground (arith, zscore-zrem s.lease j.member j.member)))
  resolve_leased now n j nacks s e =
      (rw e (ground arith), rw e (ground (arith, zscore-zrem s.lease j.member j.member)))
  resolve_leased now n j (failed fail_rate_limited) s e =
      (rw e (ground arith), rw e (ground (arith, zscore-zrem s.lease j.member j.member)))
  resolve_leased now n j (failed fail_strikeable) s e =
      (rw e (ground arith), rw e (ground (arith, zscore-zrem s.lease j.member j.member)))
  resolve_leased now n j (ends reason until) s e =
      (rw e (ground arith), rw e (ground (arith, zscore-zrem s.lease j.member j.member)))
  resolve_leased now n j (completes k) s e =
      (rw e (ground arith), rw e (ground (arith, zscore-zrem s.lease j.member j.member)))

  -- A call on a job that holds a lease takes it out of processing, and queues at most a fresh one.
  resolved_parts :
      (now n : ℕ) (j : Job) (r : Resolution) (s : Store R)
      → zscore s.lease j.member ≡ some n
      → let t = (resolve none now j r s).1 in
        (s.seq ≤ t.seq)
        × (t.processing ≡ lrem s.processing j.member)
        × (t.lease ≡ zrem s.lease j.member)
        × ((t.ready ≡ s.ready) ⊎ (t.ready ≡ lpush s.ready (member (s.seq + 1) j.url)))
        × ((t.delayed ≡ s.delayed)
            ⊎ ((k : ℕ) × (t.delayed ≡ zadd s.delayed (member (s.seq + 1) j.url) k)))
  unfolding resolve ack nack fail terminal complete_listing run_script lua_ack lua_nack lua_fail
      lua_terminal lua_complete_listing count_barren set_quarantine count_strikes bury delay_job
      push_job
  resolved_parts now n j acks s e = rw e (omega arith, refl, refl, inl refl, inl refl)
  resolved_parts now n j nacks s e = rw e (omega arith, refl, refl, inr refl, inl refl)
  resolved_parts now n j (failed fail_rate_limited) s e =
      rw e (omega arith, refl, refl, inl refl, inr (_, refl))
  resolved_parts now n j (failed fail_strikeable) s e =
      elim (Bool-cases (leb cfg.max_strikes (or_zero (hget s.strikes j.url) + 1))) [
        | inl last ↦ elim (Bool-cases (ltb 0 (quarantine_until cfg j.class now))) [
          | inl timed ↦ rw (e, last, timed) (omega arith, refl, refl, inl refl, inl refl)
          | inr forever ↦ rw (e, last, forever) (omega arith, refl, refl, inl refl, inl refl)
        ]
        | inr alive ↦ rw (e, alive) (omega arith, refl, refl, inl refl, inr (_, refl))
      ]
  resolved_parts now n j (ends reason until) s e = elim (Bool-cases (ltb 0 (unix_or_zero until))) [
    | inl timed ↦ rw (e, timed) (omega arith, refl, refl, inl refl, inl refl)
    | inr forever ↦ rw (e, forever) (omega arith, refl, refl, inl refl, inl refl)
  ]
  resolved_parts now n j (completes k) s e = elim (Bool-cases (ltb 0 k)) [
    | inl found ↦ rw (e, found) (omega arith, refl, refl, inl refl, inl refl)
    | inr barren ↦ rw (e, barren) (omega arith, refl, refl, inl refl, inl refl)
  ]

  unscored : (x : Text) (z : R.Zset) → scored R x z ≡ 0 → zscore z x ≡ none
  unscored x z h = elim (Option-cases (zscore z x)) [
    | inl absent ↦ absent
    | inr (n, there) ↦ absurd (omega (arith, h, scored-some R x z n there))
  ]

  ready-fresh :
      (m url : Text) (n : ℕ) (l t : R.RList)
      → id_of m ≤ n
      → (t ≡ l) ⊎ (t ≡ lpush l (member (n + 1) url))
      → occurs R m t ≡ occurs R m l
  ready-fresh m url n l t old (inl e) = ap (occurs R m) e
  ready-fresh m url n l t old (inr e) =
      ap (occurs R m) e
      ∙ omega (arith, occurs-lpush R m (member (n + 1) url) l, same-fresh R m url n old)

  delayed-fresh :
      (m url : Text) (n : ℕ) (z t : R.Zset)
      → id_of m ≤ n
      → (t ≡ z) ⊎ ((k : ℕ) × (t ≡ zadd z (member (n + 1) url) k))
      → zscore t m ≡ zscore z m
  delayed-fresh m url n z t old (inl e) = ap (λ y. zscore y m) e
  delayed-fresh m url n z t old (inr (k, e)) =
      ap (λ y. zscore y m) e
      ∙ unscored-zadd R m z (member (n + 1) url) k (fresh_other R m url n old)

  module _ (classify : Option (Text → UrlClass)) where
    -- After a call that resolves a leased job, the job's member is gone.
    resolved-Gone :
        (now n : ℕ) (j : Job) (r : Resolution) (s : Store R)
        → Inv R (is_video R cfg classify) s
        → zscore s.lease j.member ≡ some n
        → Gone R j.member (resolve none now j r s).1
    unfolding live
    resolved-Gone now n j r s v leased =
        let (later, processing, lease, ready, delayed) = resolved_parts now n j r s leased in
        let m = j.member in
        let held : occurs R m s.processing ≡ 1 =
          sym (v.leased m) ∙ scored-some R m s.lease n leased in
        let none_ready : occurs R m s.ready ≡ 0 = omega (arith, v.once m, held) in
        let none_delayed : zscore s.delayed m ≡ none =
          unscored m s.delayed (omega (arith, v.once m, held)) in
        let old : id_of m ≤ s.seq = v.ids m (omega (arith, held)) in
        (
          omega (arith, old, later),
          ready-fresh m j.url s.seq s.ready _ old ready ∙ none_ready,
          ap (occurs R m) processing
              ∙ omega (
                arith,
                occurs-lrem R m m s.processing,
                held,
                if_pos {C = ℕ} (dec_text m m) refl 1 0,
              ),
          delayed-fresh m j.url s.seq s.delayed _ old delayed ∙ none_delayed,
          ap (λ z. zscore z m) lease ∙ ground (arith, zscore-zrem s.lease m m),
        )

    -- In a store that keeps the invariant, once a call has resolved a leased job, every later call
    -- that would resolve it replies that the lease is stale, and only removes a member from the
    -- leases that is not in them: whatever calls come in between, and whatever becomes of their
    -- requests and scripts.
    pub resolve_twice :
        (now n later : ℕ) (j : Job) (first second : Resolution) (cs : List (Option Fault × Call))
        (s : Store R)
        → Inv R (is_video R cfg classify) s
        → zscore s.lease j.member ≡ some n
        → let t = run R cfg classify cs (resolve none now j first s).1 in
          ((resolve none now j first s).0 ≡ returns tt)
          × (resolve none later j second t
              ≡ (fails stale_lease, record t { lease = zrem t.lease j.member }))
    resolve_twice now n later j first second cs s v leased =
        let t = run R cfg classify cs (resolve none now j first s).1 in
        let gone =
          run-lasts (Gone R j.member) (Gone-Lasting R j.member) cfg classify cs
            (resolve none now j first s).1 (resolved-Gone now n j first s v leased) in
        ((resolve_leased now n j first s leased).0, resolve_stale later j second t gone.4)
