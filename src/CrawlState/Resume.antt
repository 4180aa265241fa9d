-- ===== src/CrawlState/Resume.antt =====
-- From a checkpoint to the restart: what Restore writes of a record that Checkpoint has read
-- (internal/storage/crawl_state.go, crawl_state_restore.go).
use gfap.Base.{
  ℕ, zero, suc, ◌≡◌, refl, sym, ap, ◌∙◌, subst, arith, false, Option, none, some, if◌then◌else◌,
  under_if, ◌==◌, leb, ltb, Bool-cases, inl, inr,
}
use gfap.Text.{Text}
use gfap.Text.Decimal.{itoa}
use gfap.Text.Integer.{ℤ, pos, atoi, atoi-itoa_lem}
use gfap.Redis.{Redis}
use gfap.Frontier.{Store, DeadEntry, pending_score}
use gfap.CrawlState.{
  MongoCrawlRecord, MongoDeadRecord, Checked, accepted, rejected, require, unless, ◌>>◌, UrlParser,
  invalid_barren, invalid_score,
}
use gfap.CrawlState.Record.{validate, is_negative}
use gfap.CrawlState.Codec.{accepted_inj, bind-accepted, validate_lem}
use gfap.CrawlState.Dead.{dead_text, parse_dead, parse_dead_lem}
use gfap.CrawlState.Observe.{read_next, read_barren, read_dead, read_record}
use gfap.CrawlState.Batch.{plan, due_again, is_blank, not_before}
use gfap.CrawlState.Content.{Observation, observation, wanted, observed, kept_barren}

-- A dead entry that is in force at a time: it is forever, or has not run out.
abbrev in_force : ℕ → Option DeadEntry → Option DeadEntry
in_force now none = none
in_force now (some d) = if d.until == 0 then some d else (if leb d.until now then none else some d)

-- A listing whose job is lost is due at once.
abbrev due : Option ℕ → Option ℕ
due none = none
due (some n) = if n == pending_score then some 0 else some n

-- A URL is not due while its quarantine lasts, and never where it is dead forever.
abbrev held_back : Option DeadEntry → Option ℕ → Option ℕ
held_back none next = next
held_back (some d) next = if d.until == 0 then none else not_before d.until next

abbrev pub count_of : Option ℕ → ℕ
count_of none = 0
count_of (some n) = n

abbrev barren_after : Option ℕ → Option DeadEntry → ℕ → Option ℕ
barren_after none none barren = if barren == 0 then none else some barren
barren_after none (some d) barren = some barren
barren_after (some n) dead barren = some barren

-- What is left of a URL's state after a restart at a time.
unfoldable pub resumed : ℕ → Observation → Observation
resumed now (next, barren, dead) =
    let ban = in_force now dead in
    let score = held_back ban (due next) in (score, barren_after score ban (count_of barren), ban)

abbrev pub as_due : Option ℕ → Option ℤ
as_due none = none
as_due (some n) = some (pos n)

read_next_lem : (n : Option ℕ) (next : Option ℤ) → read_next n ≡ accepted next → next ≡ as_due n
read_next_lem none next h = sym (accepted_inj h)
read_next_lem (some n) next h =
    under_if (λ (r : Checked (Option ℤ)). r ≡ accepted next → next ≡ some (pos n))
      (ltb pending_score n) {x = rejected invalid_score} {y = accepted (some (pos n))}
      (λ k e. absurd (ground (arith, e))) (λ k e. sym (accepted_inj e)) h

read_barren_lem : (n : Option ℕ) (b : ℤ) → read_barren n ≡ accepted b → b ≡ pos (count_of n)
read_barren_lem none b h = sym (accepted_inj h)
read_barren_lem (some n) b h =
    let (z, e, k) =
      bind-accepted (require invalid_barren (atoi (itoa n)))
        (λ z. unless invalid_barren (is_negative z) >> accepted z) b h in
    let (u, f, l) = bind-accepted (unless invalid_barren (is_negative z)) (λ u. accepted z) b k in
    sym (accepted_inj l) ∙ atoi-itoa_lem n z (required (atoi (itoa n)) z e)
  where
    required : (o : Option ℤ) (z : ℤ) → require invalid_barren o ≡ accepted z → o ≡ some z
    required none z h = absurd (ground (arith, h))
    required (some y) z h = ap some (accepted_inj h)

abbrev pub as_record : Option DeadEntry → Option MongoDeadRecord
as_record none = none
as_record (some d) = some (record { reason = d.reason; until = pos d.until })

read_dead_lem :
    (d : Option DeadEntry) (x : Option MongoDeadRecord) → read_dead d ≡ accepted x → x ≡ as_record d
read_dead_lem none x h = sym (accepted_inj h)
read_dead_lem (some d) x h =
    let (y, e, k) = bind-accepted (parse_dead (dead_text d)) (λ y. accepted (some y)) x h in
    sym (accepted_inj k) ∙ ap some (parse_dead_lem d y e)

due_again-as_due : (n : Option ℕ) → due_again (as_due n) ≡ due n
due_again-as_due none = refl
due_again-as_due (some n) = refl

plan-as_record :
    (now : ℕ) (next : Option ℕ) (d : Option DeadEntry)
    → plan now next (as_record d) ≡ (held_back (in_force now d) next, in_force now d)
unfolding plan
plan-as_record now next none = refl
plan-as_record now next (some d) = go d.until
  where
    go :
        (u : ℕ)
        → plan now next (as_record (some (record { reason = d.reason; until = u }))) ≡ (
          held_back (in_force now (some (record { reason = d.reason; until = u }))) next,
          in_force now (some (record { reason = d.reason; until = u })),
        )
    go zero = refl
    go (suc u) =
        let lasting : (suc u == 0) ≡ false = ground arith in
        elim (Bool-cases (leb (suc u) now)) [
          | inl f ↦ rw (lasting, f) refl
          | inr f ↦ rw (lasting, f, lasting) refl
        ]

kept_barren-is_blank :
    (next : Option ℕ) (d : Option DeadEntry) (n : ℕ)
    → kept_barren (is_blank next d n) n ≡ barren_after next d n
kept_barren-is_blank none none n = elim (Bool-cases (n == 0)) [
  | inl e ↦ rw e refl
  | inr e ↦ rw e refl
]
kept_barren-is_blank none (some d) n = refl
kept_barren-is_blank (some m) d n = refl

module _ {R : Redis} (parse : UrlParser) where
  -- The record is that of the URL's whole state.
  pub read_record_lem :
      (s : Store R) (url : Text) (row : MongoCrawlRecord)
      → read_record parse s url ≡ accepted row
      → (row ≡ record {
        url = url;
        schema = pos 1;
        next_due = as_due (R.zscore s.listing_next url);
        barren = pos (count_of (R.hget s.listing_barren url));
        dead = as_record (R.hget s.dead url);
      })
        × (validate parse row ≡ accepted row)
  unfolding read_record
  read_record_lem s url row h =
      let (next, e1, h1) = bind-accepted (read_next (R.zscore s.listing_next url)) _ row h in
      let (barren, e2, h2) = bind-accepted (read_barren (R.hget s.listing_barren url)) _ row h1 in
      let (dead, e3, h3) = bind-accepted (read_dead (R.hget s.dead url)) _ row h2 in
      let built =
        (validate_lem parse
          (record { url = url; schema = pos 1; next_due = next; barren = barren; dead = dead }) row
          h3).0 in
      (
        sym built ∙ (λ i. record {
          url = url;
          schema = pos 1;
          next_due = read_next_lem (R.zscore s.listing_next url) next e1 i;
          barren = read_barren_lem (R.hget s.listing_barren url) barren e2 i;
          dead = read_dead_lem (R.hget s.dead url) dead e3 i;
        }),
        subst (λ r. validate parse r ≡ accepted row) built h3,
      )

  -- What Restore writes of a record that Checkpoint has read is the URL's score, barren count and
  -- dead entry again, but for what a restart changes: a listing whose job was alive is due, an
  -- expired entry is dropped, a quarantine that lasts puts the score off, and a URL that is dead
  -- forever has no score.
  pub resume_correct :
      (now : ℕ) (s : Store R) (url : Text) (row : MongoCrawlRecord)
      → read_record parse s url ≡ accepted row
      → wanted now row ≡ resumed now (observation s url)
  unfolding resumed
  resume_correct now s url row h =
      let next = R.zscore s.listing_next url in
      let dead = R.hget s.dead url in
      let barren = count_of (R.hget s.listing_barren url) in
      ap (wanted now) (read_record_lem s url row h).0
      ∙ ap (λ x. observed (plan now x (as_record dead)) barren) (due_again-as_due next)
      ∙ ap (λ x. observed x barren) (plan-as_record now (due next) dead)
      ∙ (λ i. (
        held_back (in_force now dead) (due next),
        kept_barren-is_blank (held_back (in_force now dead) (due next)) (in_force now dead) barren
            i,
        in_force now dead,
      ))
