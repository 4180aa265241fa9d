-- ===== src/Frontier/Loss.antt =====
-- Scripts that a command's error breaks off (internal/storage/frontier.go, "destination is always
-- written before source is removed, so failure means duplicate, not loss"): a URL with a live job
-- keeps one through the scripts that move jobs, on any budget.
pub mod Resolved
pub mod Failed
use gfap.Base.{
  ℕ, zero, suc, ◌+◌, ◌-◌, ◌≡◌, ◌≤◌, ◌⊎◌, inl, inr, refl, ap, sym, ◌∙◌, Bool, Option, none, some,
  List, [], ◌∷◌, arith, ite, Option-cases, is_some, length, if◌then◌else◌, subst,
}
use gfap.Text.{Text, dec_text}
use gfap.Text.Member.{member, url_of, url_of-member}
use gfap.Redis.{Redis}
use gfap.Redis.Lists.{same, occurs, occurs-lpush, occurs-lrem, occurs-lmove}
use gfap.Frontier.{Store}
use gfap.Frontier.Live.{live, scored, scored-zrem, scored-zadd}
use gfap.Frontier.Script.{Script, sum_over, call, continue, pure, ◌>>=◌}
use gfap.Frontier.Script.Resolve.{lua_lease, lua_nack}
use gfap.Frontier.Script.Reconcile.{
  reap_one, lua_reap, sweep_one, lua_sweep, promote_one, lua_promote,
}

module _ (R : Redis) where
  -- The URL has a live job.
  abbrev pub HasJob : Text → Store R → Type 0
  HasJob url s = (x : Text) × (1 ≤ live R x s) × (url_of x ≡ url)

  -- No job goes, or one goes and another of its URL comes.
  abbrev pub Covers : Text → Store R → Store R → Type 0
  Covers item s t =
      ((x : Text) → live R x s ≤ live R x t)
      ⊎ ((m : Text) × (url_of m ≡ url_of item)
          × (1 ≤ live R m t)
          × ((x : Text) → live R x s ≤ live R x t + same R item x))

  pub Covers-HasJob :
      (item url : Text) (s t : Store R) → Covers item s t → HasJob url s → HasJob url t
  Covers-HasJob item url s t (inl more) (x, l, e) = (x, omega (arith, more x, l), e)
  Covers-HasJob item url s t (inr (m, same_url, there, more)) (x, l, e) = elim (dec_text item x) [
    | yes gone ↦ (m, there, same_url ∙ ap url_of gone ∙ e)
    | no other ↦ (x, ground (arith, more x, l), e)
  ]

module _ {R : Redis} (P : Store R → Type 0) where
  pub continue-keeps :
      {A B : Type 0} (r : Option A) (f : A → Script R B) (b : Option ℕ) (s : Store R)
      → P s
      → ((a : A) (b : Option ℕ) (s : Store R) → P s → P (f a b s).1)
      → P (continue r f b s).1
  continue-keeps none f b s h k = h
  continue-keeps (some a) f b s h k = k a b s h

  -- A command that keeps `P`, run or not.
  pub call-keeps :
      {A : Type 0} (f : Store R → A × Store R) (b : Option ℕ) (s : Store R)
      → P s
      → P (f s).1
      → P (call f b s).1
  call-keeps f none s h k = k
  call-keeps f (some zero) s h k = h
  call-keeps f (some (suc n)) s h k = k

  -- What each round keeps, broken off or not, the loop keeps.
  pub sum_over-keeps :
      {A : Type 0} (f : A → Script R ℕ)
      → ((item : A) (b : Option ℕ) (s : Store R) → P s → P (f item b s).1)
      → (items : List A) (b : Option ℕ) (s : Store R) → P s
      → P (sum_over f items b s).1
  unfolding sum_over
  sum_over-keeps f keep [] b s h = h
  sum_over-keeps f keep (x ∷ xs) b s h =
      continue-keeps (f x b s).0 _ (f x b s).2 (f x b s).1 (keep x b s h) λ k b' s' h'.
        continue-keeps (sum_over f xs b' s').0 _ (sum_over f xs b' s').2 (sum_over f xs b' s').1
          (sum_over-keeps f keep xs b' s' h') (λ n b'' s'' h''. h'')

-- A script that ends or breaks off where `P` holds, followed by one that leads from `P` to `Q`.
pub bind-leads :
    {R : Redis} {A B : Type 0} (P Q : Store R → Type 0) (m : Script R A) (f : A → Script R B)
    (b : Option ℕ) (s : Store R)
    → ((t : Store R) → P t → Q t)
    → P (m b s).1
    → ((a : A) (c : Option ℕ) (t : Store R) → P t → Q (f a c t).1)
    → Q ((m >>= f) b s).1
bind-leads {R} {A} {B} P Q m f b s weaker h k = go (m b s).0 (m b s).2 (m b s).1 h
  where
    go : (r : Option A) (c : Option ℕ) (t : Store R) → P t → Q (continue r f c t).1
    go none c t p = weaker t p
    go (some a) c t p = k a c t p

module _ (R : Redis) where
  abbrev next_member : Text → Store R → Text
  next_member item s = member (s.seq + 1) (url_of item)

  nack-Covers :
      (item : Text) (b : Option ℕ) (s : Store R)
      → Covers R item s (lua_nack item (url_of item) b s).1
  unfolding lua_nack live
  nack-Covers item (some zero) s = inl (λ x. omega arith)
  nack-Covers item (some (suc zero)) s = inl (λ x. ground arith)
  nack-Covers item (some (suc (suc zero))) s = inl (λ x. ground arith)
  nack-Covers item (some (suc (suc (suc zero)))) s =
      inl (λ x. ground (arith, occurs-lpush R x (next_member item s) s.ready))
  nack-Covers item b s = elim (Option-cases (R.zscore s.lease item)) [
    | inl stale ↦ inl (λ x. ground arith)
    | inr (n, leased) ↦ inr (
      next_member item s,
      url_of-member _ _,
      ground (arith, occurs-lpush R (next_member item s) (next_member item s) s.ready),
      λ x.
          ground (
            arith,
            occurs-lpush R x (next_member item s) s.ready,
            occurs-lrem R x item s.processing,
          ),
    )
  ]

  reap_one-Covers :
      (item : Text) (b : Option ℕ) (s : Store R) → Covers R item s (reap_one item b s).1
  unfolding reap_one live
  reap_one-Covers item (some zero) s = inl (λ x. omega arith)
  reap_one-Covers item (some (suc zero)) s = inl (λ x. ground arith)
  reap_one-Covers item (some (suc (suc zero))) s = inl (λ x. ground arith)
  reap_one-Covers item (some (suc (suc (suc zero)))) s =
      inl (λ x. ground (arith, occurs-lpush R x (next_member item s) s.ready))
  reap_one-Covers item b s = elim (Option-cases (R.zscore s.lease item)) [
    | inl stale ↦ inl (λ x. ground arith)
    | inr (n, leased) ↦ inr (
      next_member item s,
      url_of-member _ _,
      ground (arith, occurs-lpush R (next_member item s) (next_member item s) s.ready),
      λ x.
          ground (
            arith,
            occurs-lpush R x (next_member item s) s.ready,
            occurs-lrem R x item s.processing,
          ),
    )
  ]

  sweep_one-Covers :
      (item : Text) (b : Option ℕ) (s : Store R) → Covers R item s (sweep_one item b s).1
  unfolding sweep_one live
  sweep_one-Covers item (some zero) s = inl (λ x. omega arith)
  sweep_one-Covers item (some (suc zero)) s = inl (λ x. ground arith)
  sweep_one-Covers item (some (suc (suc zero))) s = inl (λ x. ground arith)
  sweep_one-Covers item (some (suc (suc (suc zero)))) s =
      inl (λ x. ground (arith, occurs-lpush R x (next_member item s) s.ready))
  sweep_one-Covers item b s = elim (Option-cases (R.zscore s.lease item)) [
    | inr (n, leased) ↦ inl (λ x. ground arith)
    | inl orphan ↦ inr (
      next_member item s,
      url_of-member _ _,
      ground (arith, occurs-lpush R (next_member item s) (next_member item s) s.ready),
      λ x.
          ground (
            arith,
            occurs-lpush R x (next_member item s) s.ready,
            occurs-lrem R x item s.processing,
          ),
    )
  ]

  promote_one-Covers :
      (item : Text) (b : Option ℕ) (s : Store R) → Covers R item s (promote_one item b s).1
  unfolding promote_one live
  promote_one-Covers item (some zero) s = inl (λ x. omega arith)
  promote_one-Covers item (some (suc zero)) s = inl (λ x. omega arith)
  promote_one-Covers item (some (suc (suc zero))) s =
      inl (λ x. omega (arith, occurs-lpush R x (next_member item s) s.ready))
  promote_one-Covers item b s = inr (
    next_member item s,
    url_of-member _ _,
    ground (arith, occurs-lpush R (next_member item s) (next_member item s) s.ready),
    λ x.
        ground
          (arith, occurs-lpush R x (next_member item s) s.ready, scored-zrem R x item s.delayed),
  )

  lease-live :
      (now timeout : ℕ) (x : Text) (b : Option ℕ) (s : Store R)
      → live R x (lua_lease now timeout b s).1 ≡ live R x s
  unfolding lua_lease live
  lease-live now timeout x (some zero) s = refl
  lease-live now timeout x (some (suc zero)) s =
      elim (Option-cases (R.lmove s.ready s.processing)) [
        | inl e ↦ rw e
        | inr ((m, from, to), e) ↦
            rw e (omega (arith, occurs-lmove R x s.ready s.processing m from to e))
      ]
  lease-live now timeout x b s = elim (Option-cases (R.lmove s.ready s.processing)) [
    | inl e ↦ rw e
    | inr ((m, from, to), e) ↦
        rw e (omega (arith, occurs-lmove R x s.ready s.processing m from to e))
  ]

  reap-HasJob :
      (url : Text) (now limit : ℕ) (b : Option ℕ) (s : Store R)
      → HasJob R url s
      → HasJob R url (lua_reap now limit b s).1
  unfolding lua_reap
  reap-HasJob url now limit (some zero) s h = h
  reap-HasJob url now limit (some (suc n)) s h =
      sum_over-keeps (HasJob R url) reap_one
        (λ item c t. Covers-HasJob R item url t _ (reap_one-Covers item c t))
        (R.zrangebyscore s.lease now limit) (some n) s h
  reap-HasJob url now limit none s h =
      sum_over-keeps (HasJob R url) reap_one
        (λ item c t. Covers-HasJob R item url t _ (reap_one-Covers item c t))
        (R.zrangebyscore s.lease now limit) none s h

  sweep-HasJob :
      (url : Text) (limit : ℕ) (b : Option ℕ) (s : Store R)
      → HasJob R url s
      → HasJob R url (lua_sweep limit b s).1
  unfolding lua_sweep
  sweep-HasJob url limit (some zero) s h = h
  sweep-HasJob url limit (some (suc n)) s h =
      sum_over-keeps (HasJob R url) sweep_one
        (λ item c t. Covers-HasJob R item url t _ (sweep_one-Covers item c t))
        (R.last_items s.processing limit) (some n) s h
  sweep-HasJob url limit none s h =
      sum_over-keeps (HasJob R url) sweep_one
        (λ item c t. Covers-HasJob R item url t _ (sweep_one-Covers item c t))
        (R.last_items s.processing limit) none s h

  promote_rest :
      (url : Text) (due : List Text) (b : Option ℕ) (s : Store R)
      → HasJob R url s
      → HasJob R url ((sum_over promote_one due >>= λ _. pure (length due)) b s).1
  promote_rest url due b s h =
      continue-keeps (HasJob R url) (sum_over promote_one due b s).0 _
        (sum_over promote_one due b s).2 (sum_over promote_one due b s).1
        (sum_over-keeps (HasJob R url) promote_one
          (λ item c t. Covers-HasJob R item url t _ (promote_one-Covers item c t)) due b s h)
        (λ n c t g. g)

  promote-HasJob :
      (url : Text) (now limit : ℕ) (b : Option ℕ) (s : Store R)
      → HasJob R url s
      → HasJob R url (lua_promote now limit b s).1
  unfolding lua_promote
  promote-HasJob url now limit (some zero) s h = h
  promote-HasJob url now limit (some (suc n)) s h =
      promote_rest url (R.zrangebyscore s.delayed now limit) (some n) s h
  promote-HasJob url now limit none s h =
      promote_rest url (R.zrangebyscore s.delayed now limit) none s h

  -- Whatever command of a lease, a nack or a reconciler's pass fails, a URL that had a live job has
  -- one afterwards.
  pub moves-HasJob :
      (url item : Text) (now limit : ℕ) (b : Option ℕ) (s : Store R)
      → HasJob R url s
      → HasJob R url (lua_lease now limit b s).1
        × HasJob R url (lua_nack item (url_of item) b s).1
        × HasJob R url (lua_reap now limit b s).1
        × HasJob R url (lua_sweep limit b s).1
        × HasJob R url (lua_promote now limit b s).1
  moves-HasJob url item now limit b s h = (
    (h.0, omega (arith, lease-live now limit h.0 b s, h.1), h.2),
    Covers-HasJob R item url s _ (nack-Covers item b s) h,
    reap-HasJob url now limit b s h,
    sweep-HasJob url limit b s h,
    promote-HasJob url now limit b s h,
  )
