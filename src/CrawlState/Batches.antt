-- ===== src/CrawlState/Batches.antt =====
-- The batches of a scan's reply, and the distinct keys of a batch, leave no key out
-- (internal/storage/crawl_state.go).
use gfap.Base.{
  ℕ, zero, suc, ◌≡◌, ◌⊎◌, ◌≤◌, inl, inr, refl, ap, subst, arith, Bool, true, false, List, [], ◌∷◌,
  ◌||◌, length, take, drop, under_if, Bool-cases,
}
use gfap.Text.{Text}
use gfap.Text.Search.{equal, equal-true}
use gfap.CrawlState.Batch.{crawl_state_batch_size}
use gfap.CrawlState.Checkpoint.{distinct, batches_of, seen_in}

-- Each key of a batch is among the distinct ones.
pub seen_in-distinct :
    (url : Text) (seen keys : List Text)
    → seen_in url keys ≡ true
    → seen_in url seen ≡ false
    → seen_in url (distinct seen keys) ≡ true
unfolding distinct
seen_in-distinct url seen [] h n = h
seen_in-distinct url seen (key ∷ keys) h n =
    let later : equal key url ≡ false → seen_in url (distinct (key ∷ seen) keys) ≡ true =
      λ e. seen_in-distinct url (key ∷ seen) keys (ground (arith, e, h)) (ground (arith, e, n)) in
    under_if (λ (xs : List Text). seen_in url xs ≡ true) (seen_in key seen)
      {x = distinct (key ∷ seen) keys} {y = key ∷ distinct (key ∷ seen) keys}
      (λ k. elim (Bool-cases (equal key url)) [
        | inl e ↦
            absurd (ground (arith, subst (λ x. seen_in x seen ≡ true) (equal-true key url e) k, n))
        | inr e ↦ later e
      ])
      (λ k. elim (Bool-cases (equal key url)) [
        | inl e ↦ ground (arith, e)
        | inr e ↦ ground (arith, later e)
      ])

or_right : (a b : Bool) → b ≡ true → (a || b) ≡ true
or_right true b h = refl
or_right false b h = h

-- A key is in the first part of a list or in the rest of it.
pub seen_in-split :
    (url : Text) (n : ℕ) (keys : List Text)
    → seen_in url keys ≡ true
    → (seen_in url (take n keys) ≡ true) ⊎ (seen_in url (drop n keys) ≡ true)
seen_in-split url zero keys h = inr h
seen_in-split url (suc n) [] h = inr h
seen_in-split url (suc n) (key ∷ keys) h = elim (Bool-cases (equal key url)) [
  | inl e ↦ inl (ground (arith, e))
  | inr e ↦ elim (seen_in-split url n keys (ground (arith, e, h))) [
    | inl f ↦ inl (ground (arith, f))
    | inr f ↦ inr f
  ]
]

abbrev pub in_batches : Text → List (List Text) → Bool
in_batches url [] = false
in_batches url (keys ∷ batches) = seen_in url keys || in_batches url batches

length-drop : (n : ℕ) (keys : List Text) → length (drop n keys) ≤ length keys
length-drop zero keys = omega arith
length-drop (suc n) [] = omega arith
length-drop (suc n) (key ∷ keys) = omega (arith, length-drop n keys)

-- The fuel is enough: no key is left out of the batches.
pub in_batches-batches_of :
    (url : Text) (fuel : ℕ) (keys : List Text)
    → length keys ≤ fuel
    → seen_in url keys ≡ true
    → in_batches url (batches_of fuel keys) ≡ true
unfolding batches_of
in_batches-batches_of url zero [] l h = h
in_batches-batches_of url zero (key ∷ keys) l h = absurd (omega arith)
in_batches-batches_of url (suc fuel) [] l h = h
in_batches-batches_of url (suc fuel) (key ∷ keys) l h =
    elim (seen_in-split url crawl_state_batch_size (key ∷ keys) h) [
      | inl first ↦
          ap (λ b. b || in_batches url (batches_of fuel (drop crawl_state_batch_size (key ∷ keys))))
            first
      | inr later ↦ or_right (seen_in url (take crawl_state_batch_size (key ∷ keys))) _ (
          in_batches-batches_of url fuel (drop crawl_state_batch_size (key ∷ keys))
            (omega (arith, length-drop 99 keys)) later)
    ]
