-- ===== src/CrawlState/Dead.antt =====
-- The values of crawler:dead as text: "<reason>|<until>", as the scripts and restoreBatch write them
-- and readRedisCrawlRecords reads them (internal/storage/crawl_state.go).
use gfap.Base.{
  ◌≡◌, ◌⊎◌, inl, inr, sym, ap, ◌∙◌, ◌==◌, Option, none, some, Bool-cases, ◌<◌, ◌^◌, refl, arith,
  false, [], ◌∷◌, ◌++◌,
}
use gfap.Text.{Text}
use gfap.Text.Decimal.{itoa}
use gfap.Text.Integer.{ℤ, pos, atoi, atoi-itoa, atoi-itoa_lem, atoi_bar}
use gfap.Text.Member.{bar, split_first}
use gfap.Frontier.{DeadEntry}
use gfap.CrawlState.{MongoDeadRecord, Checked, accepted, require, malformed_dead, ◌>>=◌}
use gfap.CrawlState.Record.{contains_any}
use gfap.CrawlState.Codec.{accepted_inj}

unfoldable pub dead_text : DeadEntry → Text
unfolding itoa
dead_text d = d.reason ++ bar ∷ itoa d.until

-- strings.Cut(dead, "|") and strconv.ParseInt. With no bar the number is empty, which is an error
-- too.
unfoldable pub parse_dead : Text → Checked MongoDeadRecord
unfolding atoi split_first
parse_dead t = do
  let (reason, raw) = split_first bar t
  until ← require malformed_dead (atoi raw)
  accepted (record { reason = reason; until = until })

split_first-append :
    (s t : Text) → contains_any s (bar ∷ []) ≡ false → split_first bar (s ++ bar ∷ t) ≡ (s, t)
unfolding contains_any split_first
split_first-append [] t h = refl
split_first-append (c ∷ s) t h = ground (arith, h, split_first-append s t)

-- An entry whose reason has no bar is read back from its text.
pub parse_dead-dead_text :
    (d : DeadEntry)
    → contains_any d.reason (bar ∷ []) ≡ false
    → d.until < 2 ^ 63
    → parse_dead (dead_text d) ≡ accepted (record { reason = d.reason; until = pos d.until })
unfolding parse_dead dead_text
parse_dead-dead_text d clean fits =
    rw (split_first-append d.reason (itoa d.until) clean, atoi-itoa d.until fits) refl

split_first-cases :
    (s t : Text)
    → (split_first bar (s ++ bar ∷ t) ≡ (s, t))
      ⊎ ((v : Text) × ((split_first bar (s ++ bar ∷ t)).1 ≡ v ++ bar ∷ t))
unfolding split_first
split_first-cases [] t = inl refl
split_first-cases (c ∷ s) t = elim (Bool-cases (c == bar)) [
  | inl e ↦ inr (s, ground (arith, e))
  | inr e ↦ elim (split_first-cases s t) [
    | inl f ↦ inl (ground (arith, e, f))
    | inr (v, f) ↦ inr (v, ground (arith, e, f))
  ]
]

-- What is read of an entry's text is the entry: with a bar in the reason it is refused.
pub parse_dead_lem :
    (d : DeadEntry) (x : MongoDeadRecord)
    → parse_dead (dead_text d) ≡ accepted x
    → x ≡ record { reason = d.reason; until = pos d.until }
unfolding parse_dead dead_text
parse_dead_lem d x = elim (split_first-cases d.reason (itoa d.until)) [
  | inl e ↦ rw e (read (atoi (itoa d.until)) refl)
  | inr (v, e) ↦ λ h. absurd (
      refused (split_first bar (d.reason ++ bar ∷ itoa d.until)).0 _
        (ap atoi e ∙ atoi_bar v (itoa d.until)) h)
]
  where
    refused :
        (reason : Text) (n : Option ℤ)
        → n ≡ none
        → (require malformed_dead n >>= λ until.
            accepted (record { reason = reason; until = until }))
          ≡ accepted x
        → ⊥
    refused reason none e h = ground (arith, h)
    refused reason (some z) e h = ground (arith, e)

    read :
        (n : Option ℤ)
        → atoi (itoa d.until) ≡ n
        → (require malformed_dead n >>= λ until.
            accepted (record { reason = d.reason; until = until }))
          ≡ accepted x
        → x ≡ record { reason = d.reason; until = pos d.until }
    read none e h = absurd (ground (arith, h))
    read (some z) e h =
        sym (accepted_inj h)
        ∙ ap (λ z. record { reason = d.reason; until = z }) (atoi-itoa_lem d.until z e)
