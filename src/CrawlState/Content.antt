-- ===== src/CrawlState/Content.antt =====
-- What a batch of restoreBatch leaves at each URL (internal/storage/crawl_state_restore.go).
use gfap.Base.{
  ℕ, ◌≡◌, refl, ap, ◌∙◌, Bool, true, false, Option, none, some, List, [], ◌∷◌, ◌++◌, ite,
}
use gfap.Text.{Text, dec_text}
use gfap.Redis.{Redis}
use gfap.Frontier.{Store, DeadEntry}
use gfap.CrawlState.{MongoCrawlRecord}
use gfap.CrawlState.Batch.{
  plan, due_again, to_nat, is_blank, set_next, set_barren, set_dead, row_commands, batch_commands,
  run_all,
}

-- A URL's score, barren count and dead entry.
abbrev pub Observation : Type 0
Observation = Option ℕ × Option ℕ × Option DeadEntry

abbrev pub observation : {R : Redis} → Store R → Text → Observation
observation {R} s url =
    (R.zscore s.listing_next url, R.hget s.listing_barren url, R.hget s.dead url)

abbrev pub kept_barren : Bool → ℕ → Option ℕ
kept_barren true n = none
kept_barren false n = some n

abbrev pub observed : Option ℕ × Option DeadEntry → ℕ → Observation
observed (next, dead) barren = (next, kept_barren (is_blank next dead barren) barren, dead)

-- What a record says of its URL at a time.
abbrev pub wanted : ℕ → MongoCrawlRecord → Observation
wanted now row = observed (plan now (due_again row.next_due) row.dead) (to_nat row.barren)

-- Records with the times of their writes.
abbrev pub Stamped : Type 0
Stamped = List (ℕ × MongoCrawlRecord)

-- A URL after the records: the last that names it decides.
abbrev pub last_wins : Stamped → Text → Observation → Observation
last_wins [] url before = before
last_wins (w ∷ ws) url before =
    last_wins ws url (ite (dec_text w.1.url url) (wanted w.0 w.1) before)

pub last_wins-append :
    (vs ws : Stamped) (url : Text) (before : Observation)
    → last_wins (vs ++ ws) url before ≡ last_wins ws url (last_wins vs url before)
last_wins-append [] ws url before = refl
last_wins-append (v ∷ vs) ws url before = last_wins-append vs ws url _

abbrev pub stamp : ℕ → List MongoCrawlRecord → Stamped
stamp now [] = []
stamp now (row ∷ rows) = (now, row) ∷ stamp now rows

-- An observation in its three parts, where each is one of two.
observed_if :
    {P : Type 0} (d : Dec P) (o p q : Observation)
    → o.0 ≡ ite d p.0 q.0
    → o.1 ≡ ite d p.1 q.1
    → o.2 ≡ ite d p.2 q.2
    → o ≡ ite d p q
observed_if (yes h) o p q e f g = λ i. (e i, f i, g i)
observed_if (no h) o p q e f g = λ i. (e i, f i, g i)

module _ {R : Redis} where
  open R use {zscore-zadd, zscore-zrem, hget-hset, hget-hdel, zscore, hget}

  next_after :
      (url : Text) (next : Option ℕ) (s : Store R) (x : Text)
      → zscore (set_next url next s).listing_next x
        ≡ ite (dec_text url x) next (zscore s.listing_next x)
  next_after url none s x = zscore-zrem s.listing_next url x
  next_after url (some n) s x = zscore-zadd s.listing_next url n x

  barren_after :
      (url : Text) (blank : Bool) (n : ℕ) (s : Store R) (x : Text)
      → hget (set_barren url blank n s).listing_barren x
        ≡ ite (dec_text url x) (kept_barren blank n) (hget s.listing_barren x)
  barren_after url true n s x = hget-hdel s.listing_barren url x
  barren_after url false n s x = hget-hset s.listing_barren url n x

  dead_after :
      (url : Text) (d : Option DeadEntry) (s : Store R) (x : Text)
      → hget (set_dead url d s).dead x ≡ ite (dec_text url x) d (hget s.dead x)
  dead_after url none s x = hget-hdel s.dead url x
  dead_after url (some d) s x = hget-hset s.dead url d x

  -- A command leaves the two other keys alone.
  next_frame :
      (url : Text) (next : Option ℕ) (s : Store R)
      → ((set_next url next s).listing_barren ≡ s.listing_barren)
        × ((set_next url next s).dead ≡ s.dead)
  next_frame url none s = (refl, refl)
  next_frame url (some n) s = (refl, refl)

  barren_frame :
      (url : Text) (blank : Bool) (n : ℕ) (s : Store R)
      → ((set_barren url blank n s).listing_next ≡ s.listing_next)
        × ((set_barren url blank n s).dead ≡ s.dead)
  barren_frame url true n s = (refl, refl)
  barren_frame url false n s = (refl, refl)

  dead_frame :
      (url : Text) (d : Option DeadEntry) (s : Store R)
      → ((set_dead url d s).listing_next ≡ s.listing_next)
        × ((set_dead url d s).listing_barren ≡ s.listing_barren)
  dead_frame url none s = (refl, refl)
  dead_frame url (some d) s = (refl, refl)

  three_after :
      (url : Text) (next : Option ℕ) (dead : Option DeadEntry) (blank : Bool) (barren : ℕ)
      (s : Store R) (x : Text)
      → observation (set_dead url dead (set_barren url blank barren (set_next url next s))) x
        ≡ ite (dec_text url x) (next, kept_barren blank barren, dead) (observation s x)
  three_after url next dead blank barren s x =
      let a = set_next url next s in
      let b = set_barren url blank barren a in
      observed_if (dec_text url x) (observation (set_dead url dead b) x)
        (next, kept_barren blank barren, dead) (observation s x)
        (ap (λ z. zscore z x) ((dead_frame url dead b).0 ∙ (barren_frame url blank barren a).0)
          ∙ next_after url next s x)
        (ap (λ h. hget h x) (dead_frame url dead b).1
          ∙ barren_after url blank barren a x
          ∙ ap (λ h. ite (dec_text url x) (kept_barren blank barren) (hget h x))
              (next_frame url next s).0)
        (dead_after url dead b x
          ∙ ap (λ h. ite (dec_text url x) dead (hget h x))
              ((barren_frame url blank barren a).1 ∙ (next_frame url next s).1))

  row_after :
      (now : ℕ) (row : MongoCrawlRecord) (s : Store R) (x : Text)
      → observation (run_all (row_commands row (plan now (due_again row.next_due) row.dead)) s) x
        ≡ ite (dec_text row.url x) (wanted now row) (observation s x)
  unfolding run_all
  row_after now row s x =
      let (next, dead) = plan now (due_again row.next_due) row.dead in
      three_after row.url next dead (is_blank next dead (to_nat row.barren)) (to_nat row.barren) s x

  -- After a batch the last record of each URL decides what Redis holds of it, and a URL without a
  -- record is as it was.
  pub batch_correct :
      (now : ℕ) (rows : List MongoCrawlRecord) (s : Store R) (url : Text)
      → observation (run_all (batch_commands now rows) s) url
        ≡ last_wins (stamp now rows) url (observation s url)
  unfolding run_all batch_commands
  batch_correct now [] s url = refl
  batch_correct now (row ∷ rows) s url =
      batch_correct now rows
        (run_all (row_commands row (plan now (due_again row.next_due) row.dead)) s) url
      ∙ ap (last_wins (stamp now rows) url) (row_after now row s url)
