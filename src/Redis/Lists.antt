-- ===== src/Redis/Lists.antt =====
-- How often a member stands in a LIST, after each command on it.
use gfap.Base.{
  ℕ, ◌+◌, ◌-◌, ◌≡◌, ap, ◌∙◌, some, [], ◌∷◌, ite, count, count-cons, count-append,
  count-remove_first, count-nil, arith,
}
use gfap.Text.{Text, dec_text}
use gfap.Redis.{Redis}

module _ (R : Redis) where
  open R use {RList, items, lpush, items-lpush, lrem, items-lrem, lmove, lmove_some}

  -- 1 if the texts are the same, else 0.
  abbrev pub same : Text → Text → ℕ
  same m x = ite (dec_text m x) 1 0

  unfoldable pub occurs : Text → RList → ℕ
  occurs x l = count dec_text x (items l)

  pub occurs-lpush : (x m : Text) (l : RList) → occurs x (lpush l m) ≡ same m x + occurs x l
  unfolding occurs
  occurs-lpush x m l = rw (items-lpush l m) (count-cons dec_text x m (items l))

  pub occurs-lrem : (x m : Text) (l : RList) → occurs x (lrem l m) ≡ occurs x l - same m x
  unfolding occurs
  occurs-lrem x m l = rw (items-lrem l m) (count-remove_first dec_text x m (items l))

  pub occurs-lmove :
      (x : Text) (s d : RList) (m : Text) (s' d' : RList)
      → lmove s d ≡ some (m, s', d')
      → (occurs x s ≡ occurs x s' + same m x) × (occurs x d' ≡ same m x + occurs x d)
  unfolding occurs
  occurs-lmove x s d m s' d' e =
      let (from, to) = lmove_some s d m s' d' e in
      (
        ap (count dec_text x) from
            ∙ omega (
              arith,
              count-append dec_text x (items s') (m ∷ []),
              count-cons dec_text x m [],
              count-nil dec_text x,
            ),
        ap (count dec_text x) to ∙ count-cons dec_text x m (items d),
      )
