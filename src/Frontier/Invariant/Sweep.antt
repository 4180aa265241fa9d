-- ===== src/Frontier/Invariant/Sweep.antt =====
-- luaSweep (internal/storage/frontier.go) where no command has failed: there is nothing to sweep.
use gfap.Base.{
  ℕ, ◌≡◌, ◌≤◌, refl, Bool, none, some, Option-cases, inl, inr, arith, List, [], ◌∷◌, count,
  count-cons, count-append, ap,
}
use gfap.Text.{Text, dec_text}
use gfap.Redis.{Redis}
use gfap.Redis.Lists.{occurs}
use gfap.Frontier.{Store}
use gfap.Frontier.Live.{scored, scored-none}
use gfap.Frontier.Script.{sum_over}
use gfap.Frontier.Script.Loops.{Ends}
use gfap.Frontier.Script.Reconcile.{sweep_one, lua_sweep}
use gfap.Frontier.Invariant.{Inv}

module _ (R : Redis) (is_video : Text → Bool) where
  open R use {zscore, items, last_items, last_items_lem}

  all_leased :
      (items : List Text) (s : Store R)
      → ((x : Text) → 1 ≤ count dec_text x items → 1 ≤ scored R x s.lease)
      → Ends (sum_over sweep_one items) s 0 s
  unfolding sum_over sweep_one
  all_leased [] s h = refl
  all_leased (x ∷ xs) s h = elim (Option-cases (zscore s.lease x)) [
    | inl e ↦ absurd (ground (arith, h x, count-cons dec_text x x xs, scored-none R x s.lease e))
    | inr (n, e) ↦
        rw e (rw (all_leased xs s (λ y l. h y (omega (arith, count-cons dec_text y x xs)))))
  ]

  -- In a keyspace that satisfies the invariant the sweeper finds no orphan and changes nothing.
  pub sweep_idle :
      (limit : ℕ) (s : Store R) → Inv R is_video s → lua_sweep limit none s ≡ (some 0, s, none)
  unfolding lua_sweep occurs
  sweep_idle limit s v =
      let (front, e, short, whole) = last_items_lem s.processing limit in
      all_leased (last_items s.processing limit) s λ x l. omega (
        arith,
        v.leased x,
        ap (count dec_text x) e,
        count-append dec_text x front (last_items s.processing limit),
        l,
      )
