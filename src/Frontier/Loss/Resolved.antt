-- ===== src/Frontier/Loss/Resolved.antt =====
-- The scripts that end a job, broken off by a command's error: the job is not taken out of the
-- processing list before the record that replaces it is written.
use gfap.Base.{
  ℕ, zero, suc, ◌+◌, ◌≡◌, ◌≤◌, ◌⊎◌, inl, inr, refl, ap, ◌∙◌, subst, true, false, Option, none, some,
  arith, Option-cases, Bool-cases, ltb,
}
use gfap.Text.{Text, dec_text}
use gfap.Text.Member.{url_of}
use gfap.Redis.{Redis}
use gfap.Redis.Lists.{same, occurs-lrem}
use gfap.Frontier.{Store, DeadEntry}
use gfap.Frontier.Live.{live}
use gfap.Frontier.Script.Resolve.{bury, lua_terminal}
use gfap.Frontier.Loss.{HasJob}

abbrev entry : Text → ℕ → DeadEntry
entry reason until = record { reason = reason; until = until }

module _ (R : Redis) where
  open R use {zscore, zscore-zadd, hget, hget-hset}

  -- At most one `item` goes.
  abbrev pub Drops : Text → Store R → Store R → Type 0
  Drops item s t = (x : Text) → live R x s ≤ live R x t + same R item x

  abbrev pub Buried : Text → Store R → Type 0
  Buried url t = (d : DeadEntry) × (hget t.dead url ≡ some d)

  -- The job is there, or the dead entry is.
  abbrev pub Buries : Text → Text → Store R → Store R → Type 0
  Buries item url s t = ((x : Text) → live R x s ≤ live R x t) ⊎ (Drops item s t × Buried url t)

  -- What holds from the HSET of the dead entry on, whether or not the LREM is reached.
  buried :
      (item url reason : Text) (until : ℕ) (s t : Store R)
      → t.ready ≡ s.ready
      → (t.processing ≡ s.processing) ⊎ (t.processing ≡ R.lrem s.processing item)
      → t.delayed ≡ s.delayed
      → t.dead ≡ R.hset s.dead url (entry reason until)
      → Buries item url s t
  unfolding live
  buried item url reason until s t er ep ed edead = inr (
    (λ x. drop x ep),
    (entry reason until, rw (edead, hget-hset s.dead url (entry reason until) url) (ground arith)),
  )
    where
      drop :
          (x : Text)
          → (t.processing ≡ s.processing) ⊎ (t.processing ≡ R.lrem s.processing item)
          → live R x s ≤ live R x t + same R item x
      drop x (inl e) = rw (er, e, ed) (omega arith)
      drop x (inr e) = rw (er, e, ed) (omega (arith, occurs-lrem R x item s.processing))

  pub untouched :
      (item url : Text) (s t : Store R)
      → t.ready ≡ s.ready
      → t.processing ≡ s.processing
      → t.delayed ≡ s.delayed
      → Buries item url s t
  unfolding live
  untouched item url s t er ep ed = inl (λ x. rw (er, ep, ed) (omega arith))

  -- The lease does not count.
  from_unleased :
      (item url : Text) (s t : Store R) (z : R.Zset)
      → Buries item url (record s { lease = z }) t
      → Buries item url s t
  unfolding live
  from_unleased item url s t z h = h

  bury_forever :
      (item url reason : Text) (until : ℕ) (b : Option ℕ) (s : Store R)
      → ltb 0 until ≡ false
      → Buries item url s (bury item url reason until b s).1
  unfolding bury
  bury_forever item url reason until (some zero) s e = rw e (untouched item url s _ refl refl refl)
  bury_forever item url reason until (some (suc zero)) s e =
      rw e (buried item url reason until s _ refl (inl refl) refl refl)
  bury_forever item url reason until (some (suc (suc zero))) s e =
      rw e (buried item url reason until s _ refl (inr refl) refl refl)
  bury_forever item url reason until (some (suc (suc (suc zero)))) s e =
      rw e (buried item url reason until s _ refl (inr refl) refl refl)
  bury_forever item url reason until b s e =
      rw e (buried item url reason until s _ refl (inr refl) refl refl)

  bury_timed :
      (item url reason : Text) (until : ℕ) (b : Option ℕ) (s : Store R)
      → ltb 0 until ≡ true
      → Buries item url s (bury item url reason until b s).1
  unfolding bury
  bury_timed item url reason until (some zero) s e = rw e (untouched item url s _ refl refl refl)
  bury_timed item url reason until (some (suc zero)) s e =
      rw e (untouched item url s _ refl refl refl)
  bury_timed item url reason until (some (suc (suc zero))) s e =
      rw e (buried item url reason until s _ refl (inl refl) refl refl)
  bury_timed item url reason until (some (suc (suc (suc zero)))) s e =
      rw e (buried item url reason until s _ refl (inr refl) refl refl)
  bury_timed item url reason until (some (suc (suc (suc (suc zero))))) s e =
      rw e (buried item url reason until s _ refl (inr refl) refl refl)
  bury_timed item url reason until b s e =
      rw e (buried item url reason until s _ refl (inr refl) refl refl)

  pub bury-Buries :
      (item url reason : Text) (until : ℕ) (b : Option ℕ) (s : Store R)
      → Buries item url s (bury item url reason until b s).1
  bury-Buries item url reason until b s = elim (Bool-cases (ltb 0 until)) [
    | inl later ↦ bury_timed item url reason until b s later
    | inr forever ↦ bury_forever item url reason until b s forever
  ]

  -- The fence before it changes neither the live jobs nor the dead entries.
  pub terminal-Buries :
      (item url reason : Text) (until : ℕ) (b : Option ℕ) (s : Store R)
      → Buries item url s (lua_terminal item url reason until b s).1
  unfolding lua_terminal
  terminal-Buries item url reason until (some zero) s = untouched item url s s refl refl refl
  terminal-Buries item url reason until (some (suc n)) s =
      elim (Option-cases (zscore s.lease item)) [
        | inl stale ↦ rw stale (untouched item url s _ refl refl refl)
        | inr (e, leased) ↦
            rw leased (from_unleased item url s _ _ (bury-Buries item url reason until (some n) _))
      ]
  terminal-Buries item url reason until none s = elim (Option-cases (zscore s.lease item)) [
    | inl stale ↦ rw stale (untouched item url s _ refl refl refl)
    | inr (e, leased) ↦
        rw leased (from_unleased item url s _ _ (bury-Buries item url reason until none _))
  ]

  pub Buries-HasJob :
      (url item : Text) (s t : Store R)
      → Buries item (url_of item) s t
      → HasJob R url s
      → HasJob R url t ⊎ ((url_of item ≡ url) × Buried url t)
  Buries-HasJob url item s t (inl more) (x, l, e) = inl (x, omega (arith, more x, l), e)
  Buries-HasJob url item s t (inr (drops, there)) (x, l, e) = elim (dec_text item x) [
    | yes gone ↦ inr (ap url_of gone ∙ e, subst (λ u. Buried u t) (ap url_of gone ∙ e) there)
    | no other ↦ inl (x, ground (arith, drops x, l), e)
  ]

  -- Whatever command of the terminal script fails, a URL that had a live job has one afterwards,
  -- unless it is the job's own and has a dead entry.
  pub terminal-HasJob :
      (url item reason : Text) (until : ℕ) (b : Option ℕ) (s : Store R)
      → HasJob R url s
      → let t = (lua_terminal item (url_of item) reason until b s).1 in
        HasJob R url t ⊎ ((url_of item ≡ url) × Buried url t)
  terminal-HasJob url item reason until b s h =
      Buries-HasJob url item s _ (terminal-Buries item (url_of item) reason until b s) h
