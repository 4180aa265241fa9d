-- ===== src/Video/Match.antt =====
-- What Match decides.
use gfap.Base.{
  ℕ, ◌≡◌, ◌≤◌, ◌<◌, ◌≢◌, ◌↔◌, refl, Bool, true, false, none, some, arith, List, [], ◌∷◌, ◌⊎◌, inl,
  inr, ◌&&◌, ◌||◌, Option-cases, if◌then◌else◌, Bool-cases, subst, get_elem?, zero, suc,
}
use mathlib.Core.Option.{some-injective}
use gfap.Text.{Text}
use gfap.Text.Integer.{less}
use gfap.Text.Search.{is_empty}
use gfap.Video.{
  Library, Video, formats, duration_threshold, is_cjk, is_non_latin, any, has_cjk, has_non_latin,
  try_formats, matches_cutoff_date, match,
}

-- Some character of the title has the property.
abbrev pub Somewhere : (ℕ → Bool) → Text → Type 0
Somewhere p title = (i ch : ℕ) × (get_elem? title i ≡ some ch) × (p ch ≡ true)

any-Somewhere : (p : ℕ → Bool) (title : Text) → any p title ≡ true → Somewhere p title
unfolding any
any-Somewhere p [] h = absurd (ground (arith, h))
any-Somewhere p (c ∷ title) h = elim (Bool-cases (p c)) [
  | inl here ↦ (0, c, refl, here)
  | inr not_here ↦
      let (i, ch, e, k) = any-Somewhere p title (ground (arith, h, not_here)) in (suc i, ch, e, k)
]

Somewhere-any : (p : ℕ → Bool) (title : Text) → Somewhere p title → any p title ≡ true
unfolding any
Somewhere-any p [] (i, ch, e, h) = absurd (ground (arith, e))
Somewhere-any p (c ∷ title) (zero, ch, e, h) = ground (arith, e, h)
Somewhere-any p (c ∷ title) (suc i, ch, e, h) = ground (arith, Somewhere-any p title (i, ch, e, h))

module _ (lib : Library) (cutoff : ℕ) where
  -- The first of the layouts by which the date parses gives a time that is not after the cutoff.
  abbrev pub InTime : Text → List Text → Type 0
  InTime date layouts =
      (i t : ℕ) × (format : Text) × (get_elem? layouts i ≡ some format)
      × (lib.parse format date ≡ some t)
      × ((j : ℕ) (other : Text)
          → j < i
          → get_elem? layouts j ≡ some other
          → lib.parse other date ≡ none)
      × (t ≤ cutoff)

  earlier :
      (date format : Text) (rest : List Text) (i : ℕ)
      → ((j : ℕ) (other : Text)
          → j < i
          → get_elem? rest j ≡ some other
          → lib.parse other date ≡ none)
      → lib.parse format date ≡ none
      → (j : ℕ) (other : Text) → j < suc i
      → get_elem? (format ∷ rest) j ≡ some other
      → lib.parse other date ≡ none
  earlier date format rest i before unread zero g l m =
      subst (λ f. lib.parse f date ≡ none) (some-injective _ _ m) unread
  earlier date format rest i before unread (suc j) g l m = before j g (omega (arith, l)) m

  try_formats-InTime :
      (date : Text) (layouts : List Text)
      → try_formats lib cutoff date layouts ≡ true
      → InTime date layouts
  unfolding try_formats
  try_formats-InTime date [] h = absurd (ground (arith, h))
  try_formats-InTime date (format ∷ rest) h = elim (Option-cases (lib.parse format date)) [
    | inl unread ↦
        let (i, t, f, e, k, before, le) =
          try_formats-InTime date rest (ground (arith, h, unread)) in
        (suc i, t, f, e, k, earlier date format rest i before unread, le)
    | inr (t, read) ↦
        (0, t, format, refl, read, (λ j g l m. absurd (omega (arith, l))), ground (arith, h, read))
  ]

  InTime-try_formats :
      (date : Text) (layouts : List Text)
      → InTime date layouts
      → try_formats lib cutoff date layouts ≡ true
  unfolding try_formats
  InTime-try_formats date [] (i, t, f, e, k, before, le) = absurd (ground (arith, e))
  InTime-try_formats date (format ∷ rest) (zero, t, f, e, k, before, le) = ground (arith, e, k, le)
  InTime-try_formats date (format ∷ rest) (suc i, t, f, e, k, before, le) = ground (
    arith,
    before 0 format (omega arith) refl,
    InTime-try_formats date rest
        (i, t, f, e, k, (λ j g l m. before (suc j) g (omega (arith, l)) m), le),
  )

  and_true :
      (a b c d : Bool)
      → (a && b && (c || d)) ≡ true
      → (a ≡ true) × (b ≡ true) × ((c ≡ true) ⊎ (d ≡ true))
  and_true true true true d h = (refl, refl, inl refl)
  and_true true true false true h = (refl, refl, inr refl)
  and_true true true false false h = absurd (ground (arith, h))
  and_true true false c d h = absurd (ground (arith, h))
  and_true false b c d h = absurd (ground (arith, h))

  dated :
      (date : Text) (b : Bool)
      → (if is_empty date then false else b) ≡ true
      → (date ≢ []) × (b ≡ true)
  dated [] b h = absurd (ground (arith, h))
  dated (c ∷ date) b h = ((λ e. absurd (ground (arith, e))), h)

  undated :
      (date : Text) (b : Bool) → date ≢ [] → b ≡ true → (if is_empty date then false else b) ≡ true
  undated [] b there h = absurd (there refl)
  undated (c ∷ date) b there h = h

  -- Match makes a video a target exactly when its date is there and in time, it lasts at least ten
  -- minutes, and its title has a character of the four scripts or a letter beyond the Latin blocks.
  pub match_correct :
      (v : Video)
      → ((match lib cutoff v).is_target ≡ true) ↔ (
          (v.date ≢ [])
          × InTime v.date formats
          × (less duration_threshold v.duration ≡ true)
          × (Somewhere (is_cjk lib) v.title ⊎ Somewhere (is_non_latin lib) v.title))
  unfolding match matches_cutoff_date has_cjk has_non_latin
  match_correct v = (
    (λ h.
        let (in_time, long, script) = and_true (matches_cutoff_date lib v cutoff) _ _ _ h in
        let (there, tried) = dated v.date _ in_time in
        (there, try_formats-InTime v.date formats tried, long, either script)),
    λ (there, in_time, long, script).
        rw (undated v.date _ there (InTime-try_formats v.date formats in_time), long)
          (elim script [
            | inl cjk ↦ rw (Somewhere-any (is_cjk lib) v.title cjk) refl
            | inr other ↦ rw (Somewhere-any (is_non_latin lib) v.title other) (ground arith)
          ]),
  )
    where
      either :
          (has_cjk lib v.title ≡ true) ⊎ (has_non_latin lib v.title ≡ true)
          → Somewhere (is_cjk lib) v.title ⊎ Somewhere (is_non_latin lib) v.title
      either (inl h) = inl (any-Somewhere (is_cjk lib) v.title h)
      either (inr h) = inr (any-Somewhere (is_non_latin lib) v.title h)

-- Match keeps what was scraped, decides the same when it runs again, and a later cutoff keeps every
-- target.
pub match_stable :
    (lib : Library) (cutoff later : ℕ) (v : Video)
    → cutoff ≤ later
    → let w = match lib cutoff v in
      ((w.url ≡ v.url) × (w.title ≡ v.title) × (w.date ≡ v.date) × (w.duration ≡ v.duration))
      × (match lib cutoff w ≡ w)
      × (w.is_target ≡ true → (match lib later w).is_target ≡ true)
unfolding match matches_cutoff_date
match_stable lib cutoff later v le = (
  (refl, refl, refl, refl),
  refl,
  λ h.
      let (there, (i, t, f, e, k, before, due), long, script) = (match_correct lib cutoff v).0 h in
      (match_correct lib later (match lib cutoff v)).1
        (there, (i, t, f, e, k, before, omega (arith, due, le)), long, script),
)
