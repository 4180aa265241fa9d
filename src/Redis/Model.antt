-- ===== src/Redis/Model.antt =====
-- Values for the fields of `Redis`, which show that its laws can be met and which the examples
-- run on: lists, association lists in which the first entry of a key counts, and a set for the
-- Bloom filter.
mod Entries
mod Right
use gfap.Base.{
  ℕ, ◌+◌, ◌-◌, ◌≤◌, ◌<◌, ◌≡◌, refl, ap, ◌∙◌, Bool, true, false, Option, none, some, List, [], ◌∷◌,
  ◌++◌, ite, length, take, drop, count, remove_first, arith, All, leb, ltb, if◌then◌else◌,
  Option-cases, inl, inr, ◌&&◌,
}
use gfap.Text.{Text, dec_text}
use gfap.Redis.{Redis}
use Entries.{
  Assoc, lookup, put, delete, lookup-put, lookup-delete, keys_where, tally, count-keys_where,
  All-of_count, count-take-le, length-take-le, take_all, length-zero_of_count, count-zero_of_length,
}
use Right.{move_right_left, move_nil, move_none, move_some, last, last_lem}

abbrev pub due : Assoc ℕ → ℕ → ℕ → List Text
due z max limit = take limit (keys_where (λ n. leb n max) z)

IsDue_of_tally :
    (max : ℕ) (o : Option ℕ) → 1 ≤ tally (λ n. leb n max) o → (n : ℕ) × (o ≡ some n) × (n ≤ max)
IsDue_of_tally max none h = absurd (omega arith)
IsDue_of_tally max (some n) h = (n, refl, ground arith)

pub due-due :
    (z : Assoc ℕ) (max limit : ℕ)
    → All (λ m. (n : ℕ) × (lookup z m ≡ some n) × (n ≤ max)) (due z max limit)
due-due z max limit = All-of_count _ (due z max limit) λ m once. IsDue_of_tally max (lookup z m) (
    omega (
      arith,
      once,
      count-take-le limit m (keys_where (λ n. leb n max) z),
      count-keys_where (λ n. leb n max) z m,
    ))

tally-le : (keep : ℕ → Bool) (o : Option ℕ) → tally keep o ≤ 1
tally-le keep none = omega arith
tally-le keep (some n) = ground arith

pub due_once : (z : Assoc ℕ) (max limit : ℕ) (m : Text) → count dec_text m (due z max limit) ≤ 1
due_once z max limit m = omega (
  arith,
  count-take-le limit m (keys_where (λ n. leb n max) z),
  count-keys_where (λ n. leb n max) z m,
  tally-le (λ n. leb n max) (lookup z m),
)

pub due_all :
    (z : Assoc ℕ) (max limit : ℕ) (m : Text) (n : ℕ)
    → length (due z max limit) < limit
    → lookup z m ≡ some n
    → n ≤ max
    → count dec_text m (due z max limit) ≡ 1
due_all z max limit m n short e le =
    rw (take_all limit (keys_where (λ n. leb n max) z) short)
      (count-keys_where (λ n. leb n max) z m ∙ rw e (ground arith))

unfoldable pub zcard : {V : Type 0} → Assoc V → ℕ
zcard z = length (keys_where (λ _. true) z)

tally-zero : {V : Type 0} (o : Option V) → tally (λ _. true) o ≡ 0 → o ≡ none
tally-zero none h = refl
tally-zero (some v) h = absurd (omega arith)

pub zcard_zero : {V : Type 0} (z : Assoc V) → zcard z ≡ 0 → (x : Text) → lookup z x ≡ none
unfolding zcard
zcard_zero z h x = tally-zero (lookup z x) (
    omega (
      arith,
      count-zero_of_length (keys_where (λ _. true) z) x h,
      count-keys_where (λ _. true) z x,
    ))

pub zcard_none : {V : Type 0} (z : Assoc V) → ((x : Text) → lookup z x ≡ none) → zcard z ≡ 0
unfolding zcard
zcard_none z h =
    length-zero_of_count (keys_where (λ _. true) z) λ x. count-keys_where (λ _. true) z x ∙ rw (h x)

abbrev pub contains : List Text → Text → Bool
contains [] x = false
contains (y ∷ ys) x = ite (dec_text y x) true (contains ys x)

pub contains_self : (ys : List Text) (x : Text) → contains (x ∷ ys) x ≡ true
contains_self ys x = ground arith

pub contains_more :
    (ys : List Text) (y x : Text) → contains ys x ≡ true → contains (y ∷ ys) x ≡ true
contains_more ys y x h = ground arith

unfoldable pub model : Redis
unfolding move_right_left last lookup put delete keys_where zcard dec_text remove_first
model = record {
  RList = List Text;
  items = λ l. l;
  lpush = λ l m. m ∷ l;
  items-lpush = λ l m. refl;
  lrem = λ l m. remove_first dec_text m l;
  items-lrem = λ l m. refl;
  lmove = move_right_left;
  lmove_nil = move_nil;
  lmove_none = move_none;
  lmove_some = move_some;
  last_items = last;
  last_items_lem = last_lem;
  Zset = Assoc ℕ;
  zscore = lookup;
  zadd = put;
  zscore-zadd = lookup-put;
  zrem = delete;
  zscore-zrem = lookup-delete;
  zrangebyscore = due;
  zrangebyscore_due = due-due;
  zrangebyscore_once = due_once;
  zrangebyscore_limit = λ z max limit. length-take-le limit (keys_where (λ n. leb n max) z);
  zrangebyscore_all = due_all;
  zcard = zcard;
  zcard_zero = zcard_zero;
  zcard_none = zcard_none;
  zcount = λ z low high. length (keys_where (λ n. leb low n && leb n high) z);
  Hash = Assoc;
  hget = lookup;
  hset = put;
  hget-hset = lookup-put;
  hdel = delete;
  hget-hdel = lookup-delete;
  hlen = zcard;
  hlen_zero = zcard_zero;
  Bloom = List Text;
  bf_exists = contains;
  bf_add = λ b x. x ∷ b;
  bf_exists-bf_add_self = contains_self;
  bf_exists-bf_add = contains_more;
}
