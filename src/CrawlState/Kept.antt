-- ===== src/CrawlState/Kept.antt =====
-- The commands of a batch change the observations only (internal/storage/crawl_state_restore.go).
use gfap.Base.{
  without, ℕ, zero, suc, ◌≡◌, refl, ap, ◌∙◌, Bool, true, false, Option, none, some, List, [], ◌∷◌,
  All,
}
use gfap.Text.{Text}
use gfap.Redis.{Redis}
use gfap.Frontier.{Store, DeadEntry}
use gfap.Frontier.Client.{Fault, refused, lost, raised}
use gfap.CrawlState.{MongoCrawlRecord}
use gfap.CrawlState.Batch.{
  plan, due_again, to_nat, is_blank, set_next, set_barren, set_dead, batch_commands, run_all, exec,
}

module _ {R : Redis} where
  -- The frontier `s` with the observations of `t`.
  abbrev pub with_observations : Store R → Store R → Store R
  with_observations t s = record s {
    listing_next = t.listing_next;
    listing_barren = t.listing_barren;
    dead = t.dead;
  }

  abbrev pub Kept : Store R → Store R → Type 0
  Kept s t = t ≡ with_observations t s

  pub Kept-trans : (s t u : Store R) → Kept s t → Kept t u → Kept s u
  Kept-trans s t u e f = f ∙ ap (with_observations u) e

  -- A command that changes the observations only.
  abbrev pub Narrow : (Store R → Store R) → Type 0
  Narrow f = (s : Store R) → Kept s (f s)

  All-without : (n : ℕ) (fs : List (Store R → Store R)) → All Narrow fs → All Narrow (without n fs)
  All-without n [] h = tt
  All-without zero (f ∷ fs) h = h.1
  All-without (suc n) (f ∷ fs) h = (h.0, All-without n fs h.1)

  pub run_all-Kept :
      (fs : List (Store R → Store R)) → All Narrow fs → (s : Store R) → Kept s (run_all fs s)
  unfolding run_all
  run_all-Kept [] h s = refl
  run_all-Kept (f ∷ fs) h s =
      Kept-trans s (f s) (run_all fs (f s)) (h.0 s) (run_all-Kept fs h.1 (f s))

  set_next-Narrow : (url : Text) (next : Option ℕ) → Narrow (set_next {R = R} url next)
  set_next-Narrow url none s = refl
  set_next-Narrow url (some n) s = refl

  set_barren-Narrow : (url : Text) (blank : Bool) (n : ℕ) → Narrow (set_barren {R = R} url blank n)
  set_barren-Narrow url true n s = refl
  set_barren-Narrow url false n s = refl

  set_dead-Narrow : (url : Text) (d : Option DeadEntry) → Narrow (set_dead {R = R} url d)
  set_dead-Narrow url none s = refl
  set_dead-Narrow url (some d) s = refl

  pub exec-Kept :
      (fault : Option Fault) (fs : List (Store R → Store R))
      → All Narrow fs
      → (s : Store R) → Kept s (exec fault fs s).1
  unfolding exec
  exec-Kept none fs h s = run_all-Kept fs h s
  exec-Kept (some refused) fs h s = refl
  exec-Kept (some lost) fs h s = run_all-Kept fs h s
  exec-Kept (some (raised n)) fs h s = run_all-Kept (without n fs) (All-without n fs h) s

module _ (R : Redis) where
  pub batch_commands-Narrow :
      (now : ℕ) (rows : List MongoCrawlRecord)
      → All (Narrow {R = R}) (batch_commands {R = R} now rows)
  unfolding batch_commands
  batch_commands-Narrow now [] = tt
  batch_commands-Narrow now (row ∷ rows) =
      let (next, dead) = plan now (due_again row.next_due) row.dead in
      (
        set_next-Narrow row.url next,
        (
          set_barren-Narrow row.url (is_blank next dead (to_nat row.barren)) (to_nat row.barren),
          (set_dead-Narrow row.url dead, batch_commands-Narrow now rows),
        ),
      )
