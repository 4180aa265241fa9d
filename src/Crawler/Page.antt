-- ===== src/Crawler/Page.antt =====
-- process (internal/crawler/worker.go): one fetch, and what kind of page it brought.
use gfap.Base.{
  ℕ, ◌≡◌, arith, Bool, true, false, not, Option, none, some, List, [], ◌∷◌, ◌++◌, map, ◌||◌, ◌&&◌,
  ◌==◌, if◌then◌else◌, under_if,
}
use gfap.Text.{Text, codes}
use gfap.Text.Decimal.{itoa}
use gfap.Text.Integer.{ℤ, pos, negsuc, atoi}
use gfap.Text.Search.{
  contains, equal, has_prefix, is_empty, is_space, trim_left, trim_space, trim_suffix,
}
use gfap.Video.{match}
use gfap.Frontier.{FailClass, fail_rate_limited, fail_strikeable}
use gfap.Crawler.{
  PageKind, page_video, page_listing, page_not_found, page_retryable, page_cancelled,
  page_invalid_response, PageOutcome, zero_video, Settings,
}

pub record Url : Type 0 where
  pub scheme : Text
  pub host : Text
  pub path : Text

-- What goquery finds: the title's text, the hrefs, the first date's text and the duration's content.
pub record Document : Type 0 where
  pub title : Text
  pub hrefs : List Text
  pub date : Text
  pub duration : Option Text

pub record Response : Type 0 where
  pub status : ℕ
  pub request : Url
  pub location : Option Url  -- resp.Location(); `none` is its error
  pub body : Option Document  -- `none` if the body cannot be read

abbrev add_space : Text → Text
add_space [] = []
add_space (d ∷ s) = if d == 32 then d ∷ s else 32 ∷ d ∷ s

abbrev squeeze : Text → Text
squeeze [] = []
squeeze (c ∷ s) = let rest = squeeze s in if is_space c then add_space rest else c ∷ rest

-- strings.Join(strings.Fields(s), " ")
unfoldable pub join_fields : Text → Text
join_fields s = squeeze (trim_left s)

-- strings.TrimRight(s, "/")
abbrev trim_slash : Text → Text
trim_slash [] = []
trim_slash (c ∷ s) = let rest = trim_slash s in if c == 47 && is_empty rest then [] else c ∷ rest

unfoldable pub is_rate_limit_title : Settings → Text → Bool
unfolding join_fields
is_rate_limit_title c title =
    let t = c.to_lower (join_fields title) in
    contains t (codes "rate limited")
    || contains t (codes "rate limiting")
    || contains t (codes "rate limit exceeded")
    || contains t (codes "too many requests")

abbrev absolute : Text → Text → Text
absolute base href =
    if has_prefix href (codes "/") && not (has_prefix href (codes "//")) then base ++ href else href

unfoldable pub extract_links : Text → List Text → List Text
extract_links base hrefs = map (absolute base) hrefs

-- An outcome with the zero values of the fields that it does not name.
abbrev pub outcome : PageKind → Text → PageOutcome
outcome kind reason = record {
  kind = kind;
  video = zero_video;
  links = [];
  reason = reason;
  fail_class = fail_rate_limited;
}

abbrev pub retryable : FailClass → Text → PageOutcome
retryable class reason = record (outcome page_retryable reason) { fail_class = class }

abbrev access_notice : Settings → Url → Url → Bool
access_notice c request location =
    equal location.scheme request.scheme
    && c.equal_fold location.host request.host
    && equal (trim_slash location.path) (codes "/ukinfo")

unfoldable pub redirect : Settings → Url → Option Url → PageOutcome
redirect c request none = outcome page_invalid_response (codes "redirect_rejected")
redirect c request (some location) = outcome page_invalid_response (
    if access_notice c request location
    then codes "uk_access_notice"
    else codes "redirect_rejected")

abbrev invalid_metadata : PageOutcome
invalid_metadata = outcome page_invalid_response (codes "invalid_video_metadata")

-- The video of a page whose duration is a number.
abbrev video_page : Settings → Text → Document → Text → ℤ → PageOutcome
video_page c url doc date (negsuc n) = invalid_metadata
video_page c url doc date (pos n) = record (outcome page_video []) {
  links = extract_links c.base_url doc.hrefs;
  video = match c.library c.cutoff (record {
    url = url;
    title = trim_suffix doc.title c.title_suffix;
    date = date;
    duration = pos n;
    match_date = false;
    match_duration = false;
    has_cjk_char = false;
    has_non_english_char = false;
    is_target = false;
  });
}

abbrev timed_page : Settings → Text → Document → Text → Option ℤ → PageOutcome
timed_page c url doc date none = invalid_metadata
timed_page c url doc date (some dur) = video_page c url doc date dur

abbrev content_page : Settings → Text → Document → Text → Option Text → PageOutcome
content_page c url doc date none = invalid_metadata
content_page c url doc date (some dur) = timed_page c url doc date (atoi (trim_space dur))

unfoldable pub read_page : Settings → Text → Document → PageOutcome
unfolding is_rate_limit_title extract_links
read_page c url doc =
    let page_title = trim_space (trim_suffix doc.title c.title_suffix) in
    let date = trim_space doc.date in
    if is_rate_limit_title c doc.title
    then retryable fail_rate_limited (codes "http_200_rate_limit_title")
    else (if c.equal_fold page_title (codes "Important Information for UK Users")
        then outcome page_invalid_response (codes "uk_access_notice")
        else (if not (contains url c.video_pattern)
            then record (outcome page_listing []) { links = extract_links c.base_url doc.hrefs }
            else (if is_empty page_title || is_empty date
                then invalid_metadata
                else content_page c url doc date doc.duration)))

abbrev body_page : Settings → Bool → Text → Option Document → PageOutcome
body_page c cancelled url none =
    if cancelled
    then outcome page_cancelled []
    else outcome page_invalid_response (codes "parse_failed")
body_page c cancelled url (some doc) = read_page c url doc

abbrev is_redirect : ℕ → Bool
is_redirect status =
    status == 301 || status == 302 || status == 303 || status == 307 || status == 308

-- `cancelled` is `ctx.Err() != nil` where an error is looked into; no response is an error of Get.
unfoldable pub process : Settings → Bool → Text → Option Response → PageOutcome
unfolding redirect read_page
process c cancelled url none =
    if cancelled
    then outcome page_cancelled []
    else retryable fail_strikeable (codes "request_failed")
process c cancelled url (some r) =
    if r.status == 429
    then retryable fail_rate_limited (codes "http_429")
    else (if r.status == 404 || r.status == 410
        then outcome page_not_found (itoa r.status)
        else (if r.status == 200
            then body_page c cancelled url r.body
            else (if is_redirect r.status
                then redirect c r.request r.location
                else retryable fail_strikeable (codes "http_" ++ itoa r.status))))

-- A page is a listing only where its URL is no video's, and a video only where it is one's.
abbrev pub Fits : Settings → Text → PageOutcome → Type 0
Fits c url out =
    (out.kind ≡ page_listing → contains url c.video_pattern ≡ false)
    × (out.kind ≡ page_video → contains url c.video_pattern ≡ true)

module _ (c : Settings) (url : Text) where
  invalid-Fits : (reason : Text) → Fits c url (outcome page_invalid_response reason)
  invalid-Fits reason = ((λ h. absurd (ground (arith, h))), λ h. absurd (ground (arith, h)))

  cancelled-Fits : Fits c url (outcome page_cancelled [])
  cancelled-Fits = ((λ h. absurd (ground (arith, h))), λ h. absurd (ground (arith, h)))

  retryable-Fits : (class : FailClass) (reason : Text) → Fits c url (retryable class reason)
  retryable-Fits class reason = ((λ h. absurd (ground (arith, h))), λ h. absurd (ground (arith, h)))

  not_found-Fits : (reason : Text) → Fits c url (outcome page_not_found reason)
  not_found-Fits reason = ((λ h. absurd (ground (arith, h))), λ h. absurd (ground (arith, h)))

  video_page-Fits :
      (doc : Document) (date : Text) (dur : ℤ)
      → contains url c.video_pattern ≡ true
      → Fits c url (video_page c url doc date dur)
  video_page-Fits doc date (negsuc n) video = invalid-Fits (codes "invalid_video_metadata")
  video_page-Fits doc date (pos n) video = ((λ h. absurd (ground (arith, h))), λ h. video)

  content_page-Fits :
      (doc : Document) (date : Text) (dur : Option Text)
      → contains url c.video_pattern ≡ true
      → Fits c url (content_page c url doc date dur)
  content_page-Fits doc date none video = invalid-Fits (codes "invalid_video_metadata")
  content_page-Fits doc date (some dur) video = timed (atoi (trim_space dur))
    where
      timed : (n : Option ℤ) → Fits c url (timed_page c url doc date n)
      timed none = invalid-Fits (codes "invalid_video_metadata")
      timed (some n) = video_page-Fits doc date n video

  read_page-Fits : (doc : Document) → Fits c url (read_page c url doc)
  unfolding read_page
  read_page-Fits doc =
      under_if (Fits c url) (is_rate_limit_title c doc.title)
        (λ h. retryable-Fits fail_rate_limited (codes "http_200_rate_limit_title"))
        λ h.
          under_if (Fits c url) (c.equal_fold _ _) (λ h. invalid-Fits (codes "uk_access_notice"))
            λ h.
              under_if (Fits c url) (not (contains url c.video_pattern))
                (λ listing. ((λ h. ground (arith, listing)), λ h. absurd (ground (arith, h))))
                λ video.
                  under_if (Fits c url)
                    (is_empty (trim_space (trim_suffix doc.title c.title_suffix))
                      || is_empty (trim_space doc.date))
                    (λ h. invalid-Fits (codes "invalid_video_metadata"))
                    λ h.
                      content_page-Fits doc (trim_space doc.date) doc.duration
                        (ground (arith, video))

  redirect-Fits : (request : Url) (location : Option Url) → Fits c url (redirect c request location)
  unfolding redirect
  redirect-Fits request none = invalid-Fits (codes "redirect_rejected")
  redirect-Fits request (some location) = invalid-Fits (
      if access_notice c request location
      then codes "uk_access_notice"
      else codes "redirect_rejected")

  body_page-Fits :
      (cancelled : Bool) (body : Option Document) → Fits c url (body_page c cancelled url body)
  body_page-Fits true none = cancelled-Fits
  body_page-Fits false none = invalid-Fits (codes "parse_failed")
  body_page-Fits cancelled (some doc) = read_page-Fits doc

  -- Whatever a fetch brings, process calls the page a listing only where its URL is no video's,
  -- and a video only where it is one's.
  pub process-Fits :
      (cancelled : Bool) (r : Option Response) → Fits c url (process c cancelled url r)
  unfolding process
  process-Fits true none = cancelled-Fits
  process-Fits false none = retryable-Fits fail_strikeable (codes "request_failed")
  process-Fits cancelled (some r) =
      under_if (Fits c url) (r.status == 429)
        (λ h. retryable-Fits fail_rate_limited (codes "http_429"))
        λ h.
          under_if (Fits c url) (r.status == 404 || r.status == 410)
            (λ h. not_found-Fits (itoa r.status))
            λ h.
              under_if (Fits c url) (r.status == 200) (λ h. body_page-Fits cancelled r.body)
                λ h.
                  under_if (Fits c url) (is_redirect r.status)
                    (λ h. redirect-Fits r.request r.location)
                    λ h. retryable-Fits fail_strikeable (codes "http_" ++ itoa r.status)
