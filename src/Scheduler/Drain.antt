-- ===== src/Scheduler/Drain.antt =====
-- The drain loop of the listing scheduler ends (internal/scheduler/scheduler.go).
use gfap.Base.{ℕ, ◌+◌, ◌≡◌, ◌≤◌, Bool, Option, none, some, List, [], ◌∷◌, count, leb, if◌then◌else◌}
use gfap.Text.{Text, dec_text}
use gfap.Redis.{Redis}
use gfap.Frontier.{Store}

-- 1 for the score of a listing that is due.
abbrev is_due : ℕ → Option ℕ → ℕ
is_due now none = 0
is_due now (some n) = if leb n now then 1 else 0

module _ {R : Redis} (is_video : Text → Bool) (now : ℕ) where
  open R use {zscore, zrangebyscore, zrangebyscore_due}

  -- How many entries of a list of URLs are due.
  abbrev due_among : List Text → Store R → ℕ
  due_among [] s = 0
  due_among (url ∷ urls) s = is_due now (zscore s.listing_next url) + due_among urls s

  -- Every due listing is in the list.
  abbrev pub Lists : List Text → Store R → Type 0
  Lists urls s =
      (x : Text) (n : ℕ) → zscore s.listing_next x ≡ some n → n ≤ now → 1 ≤ count dec_text x urls
