-- ===== src/Frontier/Lasting/Gone.antt =====
-- A member that has left the keyspace never comes back: every job that a script queues has a fresh
-- id (internal/storage/frontier.go).
use gfap.Base.{
  ℕ, zero, suc, ◌+◌, ◌≡◌, ◌≢◌, ◌≤◌, ap, ◌∙◌, arith, Option, none, some, Option-cases, inl, inr,
  if_neg, if_pos,
}
use gfap.Text.{Text, dec_text}
use gfap.Text.Member.{member, id_of, id_of-member}
use gfap.Redis.{Redis}
use gfap.Redis.Lists.{same, occurs, occurs-lpush, occurs-lrem, occurs-lmove}
use gfap.Frontier.{Store}
use gfap.Frontier.Script.Admit.{push_job}
use gfap.Frontier.Script.Resolve.{delay_job, lua_lease, grant}
use gfap.Frontier.Lasting.{Keeps, Lasting}

module _ (R : Redis) (m : Text) where
  open R use {zscore, zadd, zscore-zadd, zrem, zscore-zrem, lpush, lrem, lmove}

  -- Its id has been handed out, and it stands in none of the keys of the jobs.
  abbrev pub Gone : Store R → Type 0
  Gone s =
      (id_of m ≤ s.seq)
      × (occurs R m s.ready ≡ 0)
      × (occurs R m s.processing ≡ 0)
      × (zscore s.delayed m ≡ none)
      × (zscore s.lease m ≡ none)

  pub fresh_other : (url : Text) (n : ℕ) → id_of m ≤ n → member (n + 1) url ≢ m
  fresh_other url n old e = absurd (omega (arith, old, ap id_of e, id_of-member (n + 1) url))

  pub same-fresh : (url : Text) (n : ℕ) → id_of m ≤ n → same R (member (n + 1) url) m ≡ 0
  same-fresh url n old =
      if_neg {C = ℕ} (dec_text (member (n + 1) url) m) (fresh_other url n old) 1 0

  pub unscored-zadd : (z : R.Zset) (x : Text) (n : ℕ) → x ≢ m → zscore (zadd z x n) m ≡ zscore z m
  unscored-zadd z x n other =
      zscore-zadd z x n m ∙ if_neg (dec_text x m) other (some n) (zscore z m)

  pub unscored-zrem : (z : R.Zset) (x : Text) → zscore z m ≡ none → zscore (zrem z x) m ≡ none
  unscored-zrem z x e = ground (arith, zscore-zrem z x m, e)

  pushed-Gone : (url : Text) → Keeps Gone (push_job url)
  unfolding push_job
  pushed-Gone url none s (i, r, p, d, l) = (
    omega (arith, i),
    omega (arith, occurs-lpush R m (member (s.seq + 1) url) s.ready, r, same-fresh url s.seq i),
    p,
    d,
    l,
  )
  pushed-Gone url (some zero) s g = g
  pushed-Gone url (some (suc zero)) s (i, r, p, d, l) = (omega (arith, i), r, p, d, l)
  pushed-Gone url (some (suc (suc n))) s (i, r, p, d, l) = (
    omega (arith, i),
    omega (arith, occurs-lpush R m (member (s.seq + 1) url) s.ready, r, same-fresh url s.seq i),
    p,
    d,
    l,
  )

  delays-Gone : (item url : Text) (n : ℕ) → Keeps Gone (delay_job item url n)
  unfolding delay_job
  delays-Gone item url n b s (i, r, p, d, l) = go b
    where
      after : zscore (zadd s.delayed (member (s.seq + 1) url) n) m ≡ none
      after = unscored-zadd s.delayed (member (s.seq + 1) url) n (fresh_other url s.seq i) ∙ d

      dropped : occurs R m (lrem s.processing item) ≡ 0
      dropped = omega (arith, occurs-lrem R m item s.processing, p)

      go : (b : Option ℕ) → Gone (delay_job item url n b s).1
      go none = (omega (arith, i), r, dropped, after, l)
      go (some zero) = (i, r, p, d, l)
      go (some (suc zero)) = (omega (arith, i), r, p, d, l)
      go (some (suc (suc zero))) = (omega (arith, i), r, p, after, l)
      go (some (suc (suc (suc k)))) = (omega (arith, i), r, dropped, after, l)

  leased-Gone : (now timeout : ℕ) → Keeps Gone (lua_lease now timeout)
  unfolding lua_lease grant
  leased-Gone now timeout b s (i, r, p, d, l) = elim (Option-cases (lmove s.ready s.processing)) [
    | inl e ↦ nothing e b
    | inr ((x, from, to), e) ↦
        let (left, came) = occurs-lmove R m s.ready s.processing x from to e in
        granted x from to e (omega (arith, left, r)) (omega (arith, left, came, r, p))
          (unscored-zadd s.lease x (now + timeout) (differs x (omega (arith, left, r))) ∙ l) b
  ]
    where
      differs : (x : Text) → same R x m ≡ 0 → x ≢ m
      differs x zero_same e = absurd (omega (arith, zero_same, if_pos {C = ℕ} (dec_text x m) e 1 0))

      nothing :
          lmove s.ready s.processing ≡ none → (b : Option ℕ) → Gone (lua_lease now timeout b s).1
      nothing e none = rw e (i, r, p, d, l)
      nothing e (some zero) = (i, r, p, d, l)
      nothing e (some (suc k)) = rw e (i, r, p, d, l)

      granted :
          (x : Text) (from to : R.RList)
          → lmove s.ready s.processing ≡ some (x, from, to)
          → occurs R m from ≡ 0
          → occurs R m to ≡ 0
          → zscore (zadd s.lease x (now + timeout)) m ≡ none
          → (b : Option ℕ) → Gone (lua_lease now timeout b s).1
      granted x from to e f t g none = rw e (i, f, t, d, g)
      granted x from to e f t g (some zero) = (i, r, p, d, l)
      granted x from to e f t g (some (suc zero)) = rw e (i, f, t, d, l)
      granted x from to e f t g (some (suc (suc k))) = rw e (i, f, t, d, g)

  pub Gone-Lasting : Lasting Gone
  Gone-Lasting = record {
    others = λ s dead attempts strikes barren next p. p;
    dropped_ready = λ s x g. (g.0, omega (arith, occurs-lrem R m x s.ready, g.1), g.2, g.3, g.4);
    dropped_processing =
        λ s x g. (g.0, g.1, omega (arith, occurs-lrem R m x s.processing, g.2), g.3, g.4);
    dropped_lease = λ s x g. (g.0, g.1, g.2, g.3, unscored-zrem s.lease x g.4);
    dropped_delayed = λ s x g. (g.0, g.1, g.2, unscored-zrem s.delayed x g.3, g.4);
    filtered = λ s url g. g;
    pushed = pushed-Gone;
    delays = delays-Gone;
    leased = leased-Gone;
  }
