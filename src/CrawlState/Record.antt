-- ===== src/CrawlState/Record.antt =====
-- A record and its BSON document (internal/storage/crawl_state.go): validate and
-- decodeMongoCrawlRecord. The driver's BSON is a list of fields.
use gfap.Base.{ℕ, Bool, true, false, Option, none, some, List, [], ◌∷◌, ◌||◌, ◌==◌, not, ite, map}
use gfap.Text.{Text, codes, dec_text}
use gfap.Text.Integer.{ℤ, pos, negsuc, less}
use gfap.Text.Search.{equal, is_empty}
use gfap.Frontier.{pending_score}
use gfap.CrawlState.{
  MongoDeadRecord, MongoCrawlRecord, Checked, accepted, rejected, ◌>>=◌, ◌>>◌, require, unless,
  UrlParser, UrlParts, invalid_url, invalid_schema, invalid_next_due, invalid_dead, invalid_bson,
  invalid_types,
}
use gfap.CrawlState.Fields.{validate_mongo_fields}

-- strings.ContainsAny(s, chars)
abbrev pub is_among : ℕ → Text → Bool
is_among c [] = false
is_among c (d ∷ chars) = c == d || is_among c chars

unfoldable pub contains_any : Text → Text → Bool
contains_any [] chars = false
contains_any (c ∷ s) chars = is_among c chars || contains_any s chars

-- `|`, carriage return, newline, and then tab and space.
abbrev pub line_breaks : Text
line_breaks = b'|' ∷ 13 ∷ 10 ∷ []

abbrev pub blanks : Text
blanks = b'|' ∷ 13 ∷ 10 ∷ 9 ∷ 32 ∷ []

abbrev pub pending : ℤ
pending = pos pending_score

-- `n < 0`
abbrev pub is_negative : ℤ → Bool
is_negative n = less n (pos 0)

abbrev pub bad_parts : Text → Option UrlParts → Bool
bad_parts url none = true
bad_parts url (some u) =
    is_empty u.hostname
    || not (equal u.scheme (codes "http") || equal u.scheme (codes "https"))
    || u.has_user
    || not (is_empty u.fragment)
    || contains_any url blanks

abbrev pub bad_due : Option ℤ → Bool
bad_due none = false
bad_due (some n) = is_negative n || less pending n

abbrev pub bad_dead : Option MongoDeadRecord → Bool
bad_dead none = false
bad_dead (some d) =
    is_empty d.reason
    || contains_any d.reason line_breaks
    || is_negative d.until
    || not (less d.until pending)

abbrev pub is_one : ℤ → Bool
is_one (pos n) = n == 1
is_one (negsuc n) = false

-- validate, which returns the record where it has no error.
unfoldable pub validate : UrlParser → MongoCrawlRecord → Checked MongoCrawlRecord
unfolding contains_any
validate parse row = do
  unless invalid_url (bad_parts row.url (parse row.url))
  unless invalid_schema (not (is_one row.schema) || is_negative row.barren)
  unless invalid_next_due (bad_due row.next_due)
  unless invalid_dead (bad_dead row.dead)
  accepted row

-- A field's value. The fields of `dead` are read as scalars; a value that no field may have is
-- `other`. A document whose bytes are broken has no elements.
pub data Scalar : Type 0 where
  string : Text → Scalar
  int32 int64 : ℤ → Scalar
  null other : Scalar

pub data Value : Type 0 where
  scalar : Scalar → Value
  document : Option (List (Text × Scalar)) → Value

-- raw.Lookup(key): the first element of the key.
abbrev pub look_up : {V : Type 0} → List (Text × V) → Text → Option V
look_up [] key = none
look_up ((k, v) ∷ fields) key = ite (dec_text k key) (some v) (look_up fields key)

abbrev pub keys : {V : Type 0} → List (Text × V) → List Text
keys fields = map (λ field. field.0) fields

abbrev pub get_string : Scalar → Option Text
get_string (string s) = some s
get_string (int32 n) = none
get_string (int64 n) = none
get_string null = none
get_string other = none

abbrev pub get_int32 : Scalar → Option ℤ
get_int32 (int32 n) = some n
get_int32 (string s) = none
get_int32 (int64 n) = none
get_int32 null = none
get_int32 other = none

abbrev pub get_int64 : Scalar → Option ℤ
get_int64 (int64 n) = some n
get_int64 (string s) = none
get_int64 (int32 n) = none
get_int64 null = none
get_int64 other = none

-- A nullable int64.
abbrev pub get_nullable : Scalar → Option (Option ℤ)
get_nullable null = some none
get_nullable (int64 n) = some (some n)
get_nullable (string s) = none
get_nullable (int32 n) = none
get_nullable other = none

-- A scalar under a key.
abbrev pub typed : {A : Type 0} → (Scalar → Option A) → Option Scalar → Checked A
typed get none = rejected invalid_types
typed get (some s) = require invalid_types (get s)

abbrev pub as_scalar : Option Value → Option Scalar
as_scalar none = none
as_scalar (some (scalar s)) = some s
as_scalar (some (document fields)) = none

abbrev pub dead_names : List Text
dead_names = codes "reason" ∷ codes "until" ∷ []

unfoldable pub decode_dead_fields : List (Text × Scalar) → Checked MongoDeadRecord
decode_dead_fields fields = do
  validate_mongo_fields (keys fields) dead_names
  reason ← typed get_string (look_up fields (codes "reason"))
  until ← typed get_int64 (look_up fields (codes "until"))
  accepted (record { reason = reason; until = until })

unfoldable pub decode_dead : Option Value → Checked (Option MongoDeadRecord)
unfolding decode_dead_fields
decode_dead none = rejected invalid_types
decode_dead (some (scalar null)) = accepted none
decode_dead (some (scalar (string s))) = rejected invalid_types
decode_dead (some (scalar (int32 n))) = rejected invalid_types
decode_dead (some (scalar (int64 n))) = rejected invalid_types
decode_dead (some (scalar other)) = rejected invalid_types
decode_dead (some (document none)) = rejected invalid_bson
decode_dead (some (document (some fields))) = do d ← decode_dead_fields fields; accepted (some d)

abbrev pub record_names : List Text
record_names = codes "_id" ∷ codes "schema" ∷ codes "next_due" ∷ codes "barren" ∷ codes "dead" ∷ []

unfoldable pub decode_fields : UrlParser → List (Text × Value) → Checked MongoCrawlRecord
unfolding decode_dead validate
decode_fields parse fields = do
  validate_mongo_fields (keys fields) record_names
  url ← typed get_string (as_scalar (look_up fields (codes "_id")))
  schema ← typed get_int32 (as_scalar (look_up fields (codes "schema")))
  barren ← typed get_int64 (as_scalar (look_up fields (codes "barren")))
  next_due ← typed get_nullable (as_scalar (look_up fields (codes "next_due")))
  dead ← decode_dead (look_up fields (codes "dead"))
  validate parse
      (record { url = url; schema = schema; next_due = next_due; barren = barren; dead = dead })

-- decodeMongoCrawlRecord
unfoldable pub decode_mongo_crawl_record :
    UrlParser → Option (List (Text × Value)) → Checked MongoCrawlRecord
unfolding decode_fields
decode_mongo_crawl_record parse none = rejected invalid_bson
decode_mongo_crawl_record parse (some fields) = decode_fields parse fields

-- The document that the driver writes for a record, by the struct's tags.
abbrev pub nullable : Option ℤ → Value
nullable none = scalar null
nullable (some n) = scalar (int64 n)

abbrev pub encode_dead : Option MongoDeadRecord → Value
encode_dead none = scalar null
encode_dead (some d) =
    document (some ((codes "reason", string d.reason) ∷ (codes "until", int64 d.until) ∷ []))

unfoldable pub encode : MongoCrawlRecord → List (Text × Value)
encode row =
    (codes "_id", scalar (string row.url))
    ∷ (codes "schema", scalar (int32 row.schema))
    ∷ (codes "next_due", nullable row.next_due)
    ∷ (codes "barren", scalar (int64 row.barren))
    ∷ (codes "dead", encode_dead row.dead)
    ∷ []
