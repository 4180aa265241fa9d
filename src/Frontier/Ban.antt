-- ===== src/Frontier/Ban.antt =====
-- From the end of a job to the next admission of its URL: what Fail and Terminal write in the dead
-- entries is what AdmitVideo and AdmitListing refuse by (internal/storage/frontier.go).
use gfap.Base.{
  ℕ, ◌+◌, ◌≡◌, ◌<◌, ◌⊎◌, refl, ◌∙◌, true, Option, none, some, arith, or_zero, if◌then◌else◌, ltb,
  Bool-cases, inl, inr, under_if,
}
use mathlib.Core.Option.{none-ne-some, some-injective}
use gfap.Text.{Text, codes}
use gfap.Redis.{Redis}
use gfap.Frontier.{
  Store, Job, DeadEntry, FrontierConfig, fail_rate_limited, fail_strikeable, UrlClass, class_video,
  class_listing, class_seed, suppressed,
}
use gfap.Frontier.Script.Resolve.{
  lua_fail, lua_terminal, count_strikes, bury, set_quarantine, delay_job,
}
use gfap.Frontier.Client.{
  returns, run_script, fail, terminal, admit_video, admit_listing, Time, unix_or_zero,
  quarantine_until,
}
use gfap.Frontier.Fence.{Resolution, acks, nacks, failed, ends, completes, resolve}
use gfap.Frontier.Policy.{exhausted}
use gfap.Frontier.Admission.{refuses, admit_dead}

-- How long a failure keeps a URL out: a video for ever, which is 0, a listing or a seed for the
-- quarantine.
abbrev pub ban_of_class : FrontierConfig → UrlClass → ℕ → ℕ
ban_of_class cfg class_video now = 0
ban_of_class cfg class_listing now = now + cfg.quarantine_listing
ban_of_class cfg class_seed now = now + cfg.quarantine_listing

-- The ban that a call puts on the URL of a job with so many strikes, by its end.
abbrev pub ban : FrontierConfig → ℕ → UrlClass → ℕ → Resolution → Option ℕ
ban cfg now class strikes (ends reason until) = some (unix_or_zero until)
ban cfg now class strikes (failed c) =
    if exhausted cfg c strikes then some (ban_of_class cfg class now) else none
ban cfg now class strikes acks = none
ban cfg now class strikes nacks = none
ban cfg now class strikes (completes k) = none

module _ (R : Redis) (cfg : FrontierConfig) (now : ℕ) (j : Job) (s : Store R) where
  open R use {zscore, hget, hset, hget-hset}

  until_of_class : (class : UrlClass) → quarantine_until cfg class now ≡ ban_of_class cfg class now
  unfolding quarantine_until
  until_of_class class_video = refl
  until_of_class class_listing = refl
  until_of_class class_seed = refl

  terminal_entry :
      (n : ℕ) (reason : Text) (until : Time)
      → zscore s.lease j.member ≡ some n
      → hget (terminal none j reason until s).1.dead j.url
        ≡ some (record { reason = reason; until = unix_or_zero until })
  unfolding terminal run_script lua_terminal bury set_quarantine
  terminal_entry n reason until leased = elim (Bool-cases (ltb 0 (unix_or_zero until))) [
    | inl timed ↦ rw (leased, timed) written
    | inr forever ↦ rw (leased, forever) written
  ]
    where
      written :
          hget (hset s.dead j.url (record { reason = reason; until = unix_or_zero until })) j.url
          ≡ some (record { reason = reason; until = unix_or_zero until })
      written = ground (
        arith,
        hget-hset s.dead j.url (record { reason = reason; until = unix_or_zero until }) j.url,
      )

  fail_entry :
      (n : ℕ)
      → zscore s.lease j.member ≡ some n
      → exhausted cfg fail_strikeable (or_zero (hget s.strikes j.url)) ≡ true
      → hget (fail cfg none now j fail_strikeable s).1.dead j.url
        ≡ some (record {
          reason = codes "strikes_exhausted";
          until = quarantine_until cfg j.class now;
        })
  unfolding fail run_script lua_fail count_strikes bury set_quarantine delay_job
  fail_entry n leased last = elim (Bool-cases (ltb 0 (quarantine_until cfg j.class now))) [
    | inl timed ↦ rw (leased, last, timed) written
    | inr forever ↦ rw (leased, last, forever) written
  ]
    where
      written :
          hget
            (hset s.dead j.url (record {
              reason = codes "strikes_exhausted";
              until = quarantine_until cfg j.class now;
            }))
            j.url
          ≡ some (record {
            reason = codes "strikes_exhausted";
            until = quarantine_until cfg j.class now;
          })
      written = ground (
        arith,
        hget-hset s.dead j.url
            (record {
              reason = codes "strikes_exhausted";
              until = quarantine_until cfg j.class now;
            })
            j.url,
      )

  -- The entry that a ban leaves.
  ban_entry :
      (n until : ℕ) (r : Resolution)
      → zscore s.lease j.member ≡ some n
      → ban cfg now j.class (or_zero (hget s.strikes j.url)) r ≡ some until
      → (d : DeadEntry) × (hget (resolve R cfg none now j r s).1.dead j.url ≡ some d)
        × (d.until ≡ until)
  unfolding resolve
  ban_entry n until acks leased e = absurd (none-ne-some until e)
  ban_entry n until nacks leased e = absurd (none-ne-some until e)
  ban_entry n until (completes k) leased e = absurd (none-ne-some until e)
  ban_entry n until (ends reason time) leased e =
      (_, terminal_entry n reason time leased, some-injective (unix_or_zero time) until e)
  ban_entry n until (failed fail_rate_limited) leased e = absurd (none-ne-some until e)
  ban_entry n until (failed fail_strikeable) leased e =
      under_if
        (λ o.
          o ≡ some until
          → (d : DeadEntry) × (hget (fail cfg none now j fail_strikeable s).1.dead j.url ≡ some d)
            × (d.until ≡ until))
        (exhausted cfg fail_strikeable (or_zero (hget s.strikes j.url)))
        {x = some (ban_of_class cfg j.class now)} {y = none}
        (λ last e. (_, fail_entry n leased last, until_of_class j.class ∙ some-injective _ until e))
        (λ alive e. absurd (none-ne-some until e)) e

  -- Where Terminal, or Fail with the last strike, has ended a leased job and no other call has come
  -- since, both admissions refuse its URL and change nothing until the end of the ban: at any time
  -- after a Terminal without an end and after the failure of a video, and until the quarantine is
  -- over after the failure of a listing or a seed.
  pub ban_refuses :
      (n until later : ℕ) (r : Resolution)
      → zscore s.lease j.member ≡ some n
      → ban cfg now j.class (or_zero (hget s.strikes j.url)) r ≡ some until
      → (until ≡ 0) ⊎ (later < until)
      → let t = (resolve R cfg none now j r s).1 in
        (admit_video none later j.url t ≡ (returns suppressed, t))
        × (admit_listing none later j.url t ≡ (returns suppressed, t))
  ban_refuses n until later r leased e lasts =
      let (d, entry, end) = ban_entry n until r leased e in
      admit_dead R later j.url d (resolve R cfg none now j r s).1 entry (in_force d end lasts)
    where
      in_force :
          (d : DeadEntry) → d.until ≡ until → (until ≡ 0) ⊎ (later < until) → refuses later d ≡ true
      in_force d end (inl e) = ground (arith, end, e)
      in_force d end (inr l) = ground (arith, end, l)
