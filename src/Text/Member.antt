-- ===== src/Text/Member.antt =====
-- Members of the frontier's lists and sorted sets: the text "<jobID>|<url>" that the scripts of
-- internal/storage/frontier.go build by `..` and take apart at the first '|', as splitMember does.
use gfap.Base.{ℕ, ◌≡◌, refl, ap, ◌∙◌, [], ◌∷◌, ◌++◌, arith, ◌==◌, if◌then◌else◌, All}
use gfap.Text.{Text}
use gfap.Text.Decimal.{itoa, itoa-IsDigit, value_from, value-itoa, IsDigit}

abbrev pub bar : ℕ
bar = b'|'

-- What stands before the first `sep`, and behind it; with no `sep` all of it and nothing.
unfoldable pub split_first : ℕ → Text → Text × Text
split_first sep [] = ([], [])
split_first sep (c ∷ cs) =
    let rest = split_first sep cs in if c == sep then ([], cs) else (c ∷ rest.0, rest.1)

-- `splitMember`: the job id and the URL of a member.
unfoldable pub split_member : Text → Text × Text
unfolding split_first
split_member m = split_first bar m

-- The URL of a member, `string.sub(item, string.find(item, '|', 1, true) + 1)`.
unfoldable pub url_of : Text → Text
unfolding split_member
url_of m = (split_member m).1

-- The number that a member's job id stands for.
unfoldable pub id_of : Text → ℕ
unfolding split_member
id_of m = value_from 0 (split_member m).0

-- `redis.call('INCR', …) .. '|' .. url` where INCR returned `n`.
unfoldable pub member : ℕ → Text → Text
unfolding itoa
member n url = itoa n ++ bar ∷ url

split_first-append :
    (ds url : Text) → All IsDigit ds → split_first bar (ds ++ bar ∷ url) ≡ (ds, url)
unfolding split_first
split_first-append [] url h = refl
split_first-append (c ∷ cs) url h = ground (arith, split_first-append cs url h.1)

-- Splitting a member gives back the id's digits and the URL, whatever bytes the URL holds.
pub split_member-member : (n : ℕ) (url : Text) → split_member (member n url) ≡ (itoa n, url)
unfolding split_member member
split_member-member n url = split_first-append (itoa n) url (itoa-IsDigit n)

pub url_of-member : (n : ℕ) (url : Text) → url_of (member n url) ≡ url
unfolding url_of
url_of-member n url = ap (λ (p : Text × Text). p.1) (split_member-member n url)

pub id_of-member : (n : ℕ) (url : Text) → id_of (member n url) ≡ n
unfolding id_of
id_of-member n url =
    ap (λ (p : Text × Text). value_from 0 p.0) (split_member-member n url) ∙ value-itoa n
