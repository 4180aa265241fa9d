-- ===== src/CrawlState/Codec.antt =====
-- Records and their documents: decodeMongoCrawlRecord reads what was written, and only that.
use gfap.Base.{
  subst, ◌≡◌, ◌≤◌, refl, sym, ap, ◌∙◌, arith, Bool, true, false, not, ◌||◌, Option, none, some,
  List, count,
}
use mathlib.Core.Option.{some-injective, none-ne-some}
use gfap.Text.{Text, codes, dec_text}
use gfap.Text.Integer.{ℤ}
use gfap.CrawlState.{
  MongoDeadRecord, MongoCrawlRecord, StateError, Checked, accepted, rejected, ◌>>=◌, require,
  unless, invalid_types, invalid_url, invalid_schema, invalid_next_due, invalid_dead, UrlParser,
}
use gfap.CrawlState.Fields.{
  check_keys, distinct_names, validate_mongo_fields, validate_mongo_fields_correct,
}
use gfap.CrawlState.Record.{
  bad_parts, is_one, is_negative, bad_due, bad_dead, validate, Scalar, string, int32, int64, null,
  other, Value, scalar, document, look_up, keys, get_string, get_int32, get_int64, get_nullable,
  typed, as_scalar, decode_dead_fields, decode_dead, dead_names, record_names, decode_fields,
  decode_mongo_crawl_record, nullable, encode_dead, encode,
}

decode_dead-encode_dead :
    (d : Option MongoDeadRecord) → decode_dead (some (encode_dead d)) ≡ accepted d
unfolding decode_dead decode_dead_fields validate_mongo_fields check_keys dec_text
decode_dead-encode_dead none = refl
decode_dead-encode_dead (some d) = refl

get_nullable-nullable :
    (n : Option ℤ) → typed get_nullable (as_scalar (some (nullable n))) ≡ accepted n
get_nullable-nullable none = refl
get_nullable-nullable (some n) = refl

-- Every record that validate takes is read back from its document.
pub decode-encode :
    (parse : UrlParser) (row : MongoCrawlRecord)
    → validate parse row ≡ accepted row
    → decode_mongo_crawl_record parse (some (encode row)) ≡ accepted row
unfolding decode_mongo_crawl_record decode_fields encode validate_mongo_fields check_keys dec_text
decode-encode parse row valid =
    rw (get_nullable-nullable row.next_due, decode_dead-encode_dead row.dead) valid

abbrev value_or : {A : Type 0} → A → Checked A → A
value_or a (accepted b) = b
value_or a (rejected r) = a

pub accepted_inj : {A : Type 0} {a b : A} → accepted a ≡ accepted b → a ≡ b
accepted_inj {A} {a} {b} e = ap (value_or a) e

module _ {A B : Type 0} where
  -- What follows from a chain that accepts.
  pub bind-accepted :
      (m : Checked A) (k : A → Checked B) (b : B)
      → (m >>= k) ≡ accepted b
      → (a : A) × (m ≡ accepted a) × (k a ≡ accepted b)
  bind-accepted (accepted a) k b h = (a, refl, h)
  bind-accepted (rejected e) k b h = absurd (ground (arith, h))

pub unless-false : (e : StateError) (b : Bool) → unless e b ≡ accepted tt → b ≡ false
unless-false e true h = absurd (ground (arith, h))
unless-false e false h = refl

get_string_lem : (s : Scalar) (a : Text) → get_string s ≡ some a → s ≡ string a
get_string_lem (string s) a h = ap string (some-injective s a h)
get_string_lem (int32 n) a h = absurd (none-ne-some a h)
get_string_lem (int64 n) a h = absurd (none-ne-some a h)
get_string_lem null a h = absurd (none-ne-some a h)
get_string_lem other a h = absurd (none-ne-some a h)

get_int32_lem : (s : Scalar) (n : ℤ) → get_int32 s ≡ some n → s ≡ int32 n
get_int32_lem (string s) n h = absurd (none-ne-some n h)
get_int32_lem (int32 m) n h = ap int32 (some-injective m n h)
get_int32_lem (int64 m) n h = absurd (none-ne-some n h)
get_int32_lem null n h = absurd (none-ne-some n h)
get_int32_lem other n h = absurd (none-ne-some n h)

get_int64_lem : (s : Scalar) (n : ℤ) → get_int64 s ≡ some n → s ≡ int64 n
get_int64_lem (string s) n h = absurd (none-ne-some n h)
get_int64_lem (int32 m) n h = absurd (none-ne-some n h)
get_int64_lem (int64 m) n h = ap int64 (some-injective m n h)
get_int64_lem null n h = absurd (none-ne-some n h)
get_int64_lem other n h = absurd (none-ne-some n h)

get_nullable_lem : (s : Scalar) (n : Option ℤ) → get_nullable s ≡ some n → scalar s ≡ nullable n
get_nullable_lem (string s) n h = absurd (none-ne-some n h)
get_nullable_lem (int32 m) n h = absurd (none-ne-some n h)
get_nullable_lem (int64 m) n h = ap nullable (some-injective (some m) n h)
get_nullable_lem null n h = ap nullable (some-injective none n h)
get_nullable_lem other n h = absurd (none-ne-some n h)

typed_lem :
    {A : Type 0} (get : Scalar → Option A) (o : Option Scalar) (a : A)
    → typed get o ≡ accepted a
    → (s : Scalar) × (o ≡ some s) × (get s ≡ some a)
typed_lem get none a h = absurd (ground (arith, h))
typed_lem {A} get (some s) a h = (s, refl, go (get s) h)
  where
    go : (o : Option A) → require invalid_types o ≡ accepted a → o ≡ some a
    go none k = absurd (ground (arith, k))
    go (some b) k = ap some (accepted_inj k)

as_scalar_lem : (v : Option Value) (s : Scalar) → as_scalar v ≡ some s → v ≡ some (scalar s)
as_scalar_lem none s h = absurd (none-ne-some s h)
as_scalar_lem (some (scalar t)) s h = ap (λ u. some (scalar u)) (some-injective t s h)
as_scalar_lem (some (document fields)) s h = absurd (none-ne-some s h)

-- The field `dead` holds what was read from it.
abbrev pub DeadField : Option Value → Option MongoDeadRecord → Type 0
DeadField v none = v ≡ some (scalar null)
DeadField v (some d) =
    (fields : List (Text × Scalar)) × (v ≡ some (document (some fields)))
    × (look_up fields (codes "reason") ≡ some (string d.reason))
    × (look_up fields (codes "until") ≡ some (int64 d.until))

decode_dead_fields_lem :
    (fields : List (Text × Scalar)) (d : MongoDeadRecord)
    → decode_dead_fields fields ≡ accepted d
    → (look_up fields (codes "reason") ≡ some (string d.reason))
      × (look_up fields (codes "until") ≡ some (int64 d.until))
unfolding decode_dead_fields
decode_dead_fields_lem fields d h =
    let (u, checked, h1) = bind-accepted (validate_mongo_fields (keys fields) dead_names) _ d h in
    let (reason, er, h2) =
      bind-accepted (typed get_string (look_up fields (codes "reason"))) _ d h1 in
    let (until, eu, h3) = bind-accepted (typed get_int64 (look_up fields (codes "until"))) _ d h2 in
    let (s, fs, gs) = typed_lem get_string (look_up fields (codes "reason")) reason er in
    let (t, ft, gt) = typed_lem get_int64 (look_up fields (codes "until")) until eu in
    let same : record { reason = reason; until = until } ≡ d = accepted_inj h3 in
    (
      fs
          ∙ ap some (get_string_lem s reason gs)
          ∙ ap (λ (d : MongoDeadRecord). some (string d.reason)) same,
      ft
          ∙ ap some (get_int64_lem t until gt)
          ∙ ap (λ (d : MongoDeadRecord). some (int64 d.until)) same,
    )

decode_dead_lem :
    (v : Option Value) (d : Option MongoDeadRecord) → decode_dead v ≡ accepted d → DeadField v d
unfolding decode_dead
decode_dead_lem none d h = absurd (ground (arith, h))
decode_dead_lem (some (scalar (string s))) d h = absurd (ground (arith, h))
decode_dead_lem (some (scalar (int32 n))) d h = absurd (ground (arith, h))
decode_dead_lem (some (scalar (int64 n))) d h = absurd (ground (arith, h))
decode_dead_lem (some (scalar other)) d h = absurd (ground (arith, h))
decode_dead_lem (some (scalar null)) d h =
    subst (DeadField (some (scalar null))) (accepted_inj h) refl
decode_dead_lem (some (document none)) d h = absurd (ground (arith, h))
decode_dead_lem (some (document (some fields))) d h =
    let (e, decoded, h1) = bind-accepted (decode_dead_fields fields) _ d h in
    let (reason, until) = decode_dead_fields_lem fields e decoded in
    subst (DeadField (some (document (some fields)))) (accepted_inj h1)
      (fields, refl, reason, until)

names_distinct : (x : Text) → count dec_text x record_names ≤ 1
unfolding validate_mongo_fields check_keys dec_text
names_distinct = distinct_names record_names refl

-- The fields of a document hold a record.
pub record IsDocumentOf (row : MongoCrawlRecord) (fields : List (Text × Value)) : Type 0 where
  pub url : look_up fields (codes "_id") ≡ some (scalar (string row.url))
  pub schema : look_up fields (codes "schema") ≡ some (scalar (int32 row.schema))
  pub next_due : look_up fields (codes "next_due") ≡ some (nullable row.next_due)
  pub barren : look_up fields (codes "barren") ≡ some (scalar (int64 row.barren))
  pub dead : DeadField (look_up fields (codes "dead")) row.dead

typed_field :
    {A : Type 0} (get : Scalar → Option A) (v : Option Value) (a : A)
    → typed get (as_scalar v) ≡ accepted a
    → (s : Scalar) × (v ≡ some (scalar s)) × (get s ≡ some a)
typed_field get v a h =
    let (s, e, g) = typed_lem get (as_scalar v) a h in (s, as_scalar_lem v s e, g)

-- What validate has checked.
pub record IsValid (parse : UrlParser) (row : MongoCrawlRecord) : Type 0 where
  pub parts : bad_parts row.url (parse row.url) ≡ false
  pub counts : (not (is_one row.schema) || is_negative row.barren) ≡ false
  pub due : bad_due row.next_due ≡ false
  pub dead : bad_dead row.dead ≡ false

pub validate_lem :
    (parse : UrlParser) (row out : MongoCrawlRecord)
    → validate parse row ≡ accepted out
    → (row ≡ out) × IsValid parse row
unfolding validate
validate_lem parse row out h =
    let (u1, e1, h1) =
      bind-accepted (unless invalid_url (bad_parts row.url (parse row.url))) _ out h in
    let (u2, e2, h2) =
      bind-accepted (unless invalid_schema (not (is_one row.schema) || is_negative row.barren)) _
        out h1 in
    let (u3, e3, h3) = bind-accepted (unless invalid_next_due (bad_due row.next_due)) _ out h2 in
    let (u4, e4, h4) = bind-accepted (unless invalid_dead (bad_dead row.dead)) _ out h3 in
    (
      accepted_inj h4,
      record {
        parts = unless-false invalid_url _ e1;
        counts = unless-false invalid_schema _ e2;
        due = unless-false invalid_next_due _ e3;
        dead = unless-false invalid_dead _ e4;
      },
    )

-- A document that is accepted has the five fields and no other, each once, holds the record that is
-- read in them, and the record passes validate: no field that is missing or of another type becomes
-- a zero value.
pub decode_sound :
    (parse : UrlParser) (fields : List (Text × Value)) (row : MongoCrawlRecord)
    → decode_mongo_crawl_record parse (some fields) ≡ accepted row
    → IsDocumentOf row fields
      × (validate parse row ≡ accepted row)
      × ((x : Text) → count dec_text x (keys fields) ≡ count dec_text x record_names)
unfolding decode_mongo_crawl_record decode_fields
decode_sound parse fields row h =
    let (u, checked, h1) =
      bind-accepted (validate_mongo_fields (keys fields) record_names) _ row h in
    let (url, eu, h2) =
      bind-accepted (typed get_string (as_scalar (look_up fields (codes "_id")))) _ row h1 in
    let (schema, es, h3) =
      bind-accepted (typed get_int32 (as_scalar (look_up fields (codes "schema")))) _ row h2 in
    let (barren, eb, h4) =
      bind-accepted (typed get_int64 (as_scalar (look_up fields (codes "barren")))) _ row h3 in
    let (next_due, en, h5) =
      bind-accepted (typed get_nullable (as_scalar (look_up fields (codes "next_due")))) _ row h4 in
    let (dead, ed, h6) = bind-accepted (decode_dead (look_up fields (codes "dead"))) _ row h5 in
    let read : MongoCrawlRecord = record {
      url = url;
      schema = schema;
      next_due = next_due;
      barren = barren;
      dead = dead;
    } in
    let (s1, f1, g1) = typed_field get_string (look_up fields (codes "_id")) url eu in
    let (s2, f2, g2) = typed_field get_int32 (look_up fields (codes "schema")) schema es in
    let (s3, f3, g3) = typed_field get_int64 (look_up fields (codes "barren")) barren eb in
    let (s4, f4, g4) = typed_field get_nullable (look_up fields (codes "next_due")) next_due en in
    subst
      (λ r.
        IsDocumentOf r fields
        × (validate parse r ≡ accepted r)
        × ((x : Text) → count dec_text x (keys fields) ≡ count dec_text x record_names))
      (validate_lem parse read row h6).0
      (
        record {
          url = f1 ∙ ap (λ s. some (scalar s)) (get_string_lem s1 url g1);
          schema = f2 ∙ ap (λ s. some (scalar s)) (get_int32_lem s2 schema g2);
          next_due = f4 ∙ ap some (get_nullable_lem s4 next_due g4);
          barren = f3 ∙ ap (λ s. some (scalar s)) (get_int64_lem s3 barren g3);
          dead = decode_dead_lem (look_up fields (codes "dead")) dead ed;
        },
        h6 ∙ sym (ap accepted (validate_lem parse read row h6).0),
        (validate_mongo_fields_correct (keys fields) record_names names_distinct).0 checked,
      )
