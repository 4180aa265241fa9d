-- ===== src/CrawlState/Fields.antt =====
-- validateMongoFields (internal/storage/crawl_state.go): the fields of a document are the named
-- ones, each once.
use gfap.Base.{
  ℕ, suc, ◌≡◌, ◌≤◌, ◌↔◌, refl, arith, ite, Bool, true, false, List, [], ◌∷◌, length, count,
  count-cons, count-nil, count-remove_first, remove_first, if◌then◌else◌, ◌==◌, Bool-cases, inl,
  inr,
}
use gfap.Text.{Text, dec_text}
use gfap.CrawlState.{Checked, accepted, rejected, missing_or_extra, duplicate_or_unknown}

-- `remaining`, a Go map to true.
abbrev Remaining : Type 0
Remaining = Text → Bool

abbrev named : List Text → Remaining
named [] key = false
named (name ∷ names) key = ite (dec_text name key) true (named names key)

-- `delete(remaining, key)`
abbrev delete : Text → Remaining → Remaining
delete gone remaining key = ite (dec_text gone key) false (remaining key)

unfoldable pub check_keys : List Text → Remaining → Checked (Unit {0})
check_keys [] remaining = accepted tt
check_keys (key ∷ keys) remaining =
    let rest = check_keys keys (delete key remaining) in
    if remaining key then rest else rejected duplicate_or_unknown

-- The keys of a document against the names.
unfoldable pub validate_mongo_fields : List Text → List Text → Checked (Unit {0})
unfolding check_keys
validate_mongo_fields keys names =
    if length keys == length names then check_keys keys (named names) else rejected missing_or_extra

-- 1 if the key remains, else 0.
abbrev left : Remaining → Text → ℕ
left remaining x = if remaining x then 1 else 0

check_keys_sound :
    (keys : List Text) (remaining : Remaining)
    → check_keys keys remaining ≡ accepted tt
    → (x : Text) → count dec_text x keys ≤ left remaining x
unfolding check_keys
check_keys_sound [] remaining h x = omega (arith, count-nil dec_text x)
check_keys_sound (key ∷ keys) remaining h x = elim (Bool-cases (remaining key)) [
  | inl there ↦ ground (
    arith,
    there,
    count-cons dec_text x key keys,
    check_keys_sound keys (delete key remaining) (rw there at h) x,
  )
  | inr gone ↦ absurd (ground (arith, gone, h))
]

check_keys_complete :
    (keys : List Text) (remaining : Remaining)
    → ((x : Text) → count dec_text x keys ≤ left remaining x)
    → check_keys keys remaining ≡ accepted tt
unfolding check_keys
check_keys_complete [] remaining h = refl
check_keys_complete (key ∷ keys) remaining h = elim (Bool-cases (remaining key)) [
  | inl there ↦ rw there (
      check_keys_complete keys (delete key remaining)
        λ x. ground (arith, there, count-cons dec_text x key keys, h x))
  | inr gone ↦ absurd (ground (arith, gone, count-cons dec_text key key keys, h key))
]

left-named-le : (names : List Text) (x : Text) → left (named names) x ≤ count dec_text x names
left-named-le [] x = omega arith
left-named-le (name ∷ names) x =
    ground (arith, count-cons dec_text x name names, left-named-le names x)

named_of_count : (names : List Text) (x : Text) → 1 ≤ count dec_text x names → named names x ≡ true
named_of_count [] x h = absurd (omega (arith, count-nil dec_text x))
named_of_count (name ∷ names) x h =
    ground (arith, count-cons dec_text x name names, named_of_count names x)

length-remove_first :
    (x : Text) (ys : List Text)
    → 1 ≤ count dec_text x ys
    → length ys ≡ suc (length (remove_first dec_text x ys))
unfolding remove_first
length-remove_first x [] h = absurd (omega (arith, count-nil dec_text x))
length-remove_first x (y ∷ ys) h =
    ground (arith, count-cons dec_text x y ys, length-remove_first x ys)

-- A list that holds no text more often than another of its length holds all as often.
pigeonhole :
    (xs ys : List Text)
    → length xs ≡ length ys
    → ((x : Text) → count dec_text x xs ≤ count dec_text x ys)
    → (x : Text) → count dec_text x xs ≡ count dec_text x ys
pigeonhole [] [] e h x = refl
pigeonhole [] (y ∷ ys) e h x = absurd (omega (arith, e))
pigeonhole (k ∷ xs) ys e h x =
    let there : 1 ≤ count dec_text k ys = ground (arith, count-cons dec_text k k xs, h k) in
    let rest =
      pigeonhole xs (remove_first dec_text k ys) (omega (arith, e, length-remove_first k ys there))
        (λ z. ground (arith, count-cons dec_text z k xs, h z, count-remove_first dec_text z k ys))
        x in
    ground (arith, rest, there, count-cons dec_text x k xs, count-remove_first dec_text x k ys)

same_length :
    (xs ys : List Text)
    → ((x : Text) → count dec_text x xs ≡ count dec_text x ys)
    → length xs ≡ length ys
same_length [] [] h = refl
same_length [] (y ∷ ys) h =
    absurd (ground (arith, count-cons dec_text y y ys, count-nil dec_text y, h y))
same_length (k ∷ xs) ys h =
    let there : 1 ≤ count dec_text k ys = ground (arith, count-cons dec_text k k xs, h k) in
    let rest =
      same_length xs (remove_first dec_text k ys) (λ z.
        ground (arith, count-cons dec_text z k xs, h z, count-remove_first dec_text z k ys)) in
    omega (arith, rest, length-remove_first k ys there)

-- Names that pass against themselves are distinct.
pub distinct_names :
    (names : List Text)
    → validate_mongo_fields names names ≡ accepted tt
    → (x : Text) → count dec_text x names ≤ 1
unfolding validate_mongo_fields
distinct_names names h x = elim (Bool-cases (length names == length names)) [
  | inl same ↦ ground (arith, check_keys_sound names (named names) (rw same at h) x)
  | inr other ↦ absurd (ground (arith, other, h))
]

-- Where no name is repeated, the check passes exactly the documents whose keys are the names, each
-- once, in any order.
pub validate_mongo_fields_correct :
    (keys names : List Text)
    → ((x : Text) → count dec_text x names ≤ 1)
    → (validate_mongo_fields keys names ≡ accepted tt)
      ↔ ((x : Text) → count dec_text x keys ≡ count dec_text x names)
unfolding validate_mongo_fields
validate_mongo_fields_correct keys names distinct = (
  λ h. elim (Bool-cases (length keys == length names)) [
    | inl same ↦ pigeonhole keys names (ground (arith, same)) λ x.
        omega (arith, left-named-le names x, check_keys_sound keys (named names) (rw same at h) x)
    | inr other ↦ absurd (ground (arith, other, h))
  ],
  λ h. rw (equal_length (same_length keys names h)) (
      check_keys_complete keys (named names)
        λ x. ground (arith, h x, distinct x, named_of_count names x)),
)
  where
    equal_length : length keys ≡ length names → (length keys == length names) ≡ true
    equal_length e = ground (arith, e)
