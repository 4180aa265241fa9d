-- ===== src/Redis.antt =====
-- The Redis server, which the frontier keeps all of its state in. It is no code of this
-- repository: the types of its values and its commands are the fields of a record, and what the
-- frontier relies on are the laws beside them, as Redis documents the commands. Scores are whole
-- numbers: the program writes no others.
pub mod Lists
pub mod Model
use gfap.Base.{
  ℕ, suc, ◌+◌, ◌≤◌, ◌<◌, ◌≡◌, Bool, true, false, Option, none, some, List, [], ◌∷◌, ◌++◌, ite,
  length, count, remove_first, is_some, All,
}
use gfap.Text.{Text, dec_text}

pub record Redis : Type 1 where
  -- LIST values; `items` is LRANGE 0 -1, the left end first.
  pub RList : Type 0
  pub items : RList → List Text
  -- LPUSH
  pub lpush : RList → Text → RList
  pub items-lpush : (l : RList) (m : Text) → items (lpush l m) ≡ m ∷ items l
  -- LREM key 1 m
  pub lrem : RList → Text → RList
  pub items-lrem : (l : RList) (m : Text) → items (lrem l m) ≡ remove_first dec_text m (items l)
  -- LMOVE source destination RIGHT LEFT: the element moved, and both lists after it
  pub lmove : RList → RList → Option (Text × RList × RList)
  pub lmove_nil : (s d : RList) → items s ≡ [] → lmove s d ≡ none
  pub lmove_none : (s d : RList) → lmove s d ≡ none → items s ≡ []
  pub lmove_some :
      (s d : RList) (m : Text) (s' d' : RList)
      → lmove s d ≡ some (m, s', d')
      → (items s ≡ items s' ++ m ∷ []) × (items d' ≡ m ∷ items d)
  -- LRANGE key -n -1, the last n elements
  pub last_items : RList → ℕ → List Text
  pub last_items_lem :
      (l : RList) (n : ℕ)
      → (front : List Text) × (items l ≡ front ++ last_items l n)
        × (length (last_items l n) ≤ n)
        × (length (last_items l n) < n → front ≡ [])
  -- ZSET values; `zscore` is ZSCORE.
  pub Zset : Type 0
  pub zscore : Zset → Text → Option ℕ
  -- ZADD key score m
  pub zadd : Zset → Text → ℕ → Zset
  pub zscore-zadd :
      (z : Zset) (m : Text) (n : ℕ) (x : Text)
      → zscore (zadd z m n) x ≡ ite (dec_text m x) (some n) (zscore z x)
  -- ZREM key m; the reply is 1 exactly when ZSCORE was there
  pub zrem : Zset → Text → Zset
  pub zscore-zrem :
      (z : Zset) (m x : Text) → zscore (zrem z m) x ≡ ite (dec_text m x) none (zscore z x)
  -- ZRANGEBYSCORE key -inf max LIMIT 0 limit
  pub zrangebyscore : Zset → ℕ → ℕ → List Text
  pub zrangebyscore_due :
      (z : Zset) (max limit : ℕ)
      → All (λ m. (n : ℕ) × (zscore z m ≡ some n) × (n ≤ max)) (zrangebyscore z max limit)
  pub zrangebyscore_once :
      (z : Zset) (max limit : ℕ) (m : Text) → count dec_text m (zrangebyscore z max limit) ≤ 1
  pub zrangebyscore_limit : (z : Zset) (max limit : ℕ) → length (zrangebyscore z max limit) ≤ limit
  pub zrangebyscore_all :
      (z : Zset) (max limit : ℕ) (m : Text) (n : ℕ)
      → length (zrangebyscore z max limit) < limit
      → zscore z m ≡ some n
      → n ≤ max
      → count dec_text m (zrangebyscore z max limit) ≡ 1
  -- ZCARD key, and ZCOUNT key min max
  pub zcard : Zset → ℕ
  pub zcard_zero : (z : Zset) → zcard z ≡ 0 → (x : Text) → zscore z x ≡ none
  pub zcard_none : (z : Zset) → ((x : Text) → zscore z x ≡ none) → zcard z ≡ 0
  pub zcount : Zset → ℕ → ℕ → ℕ
  -- HASH values with fields of one type; `hget` is HGET.
  pub Hash : Type 0 → Type 0
  pub hget : {V : Type 0} → Hash V → Text → Option V
  -- HSET key k v
  pub hset : {V : Type 0} → Hash V → Text → V → Hash V
  pub hget-hset :
      {V : Type 0} (h : Hash V) (k : Text) (v : V) (x : Text)
      → hget (hset h k v) x ≡ ite (dec_text k x) (some v) (hget h x)
  -- HDEL key k
  pub hdel : {V : Type 0} → Hash V → Text → Hash V
  pub hget-hdel :
      {V : Type 0} (h : Hash V) (k x : Text)
      → hget (hdel h k) x ≡ ite (dec_text k x) none (hget h x)
  -- HLEN key
  pub hlen : {V : Type 0} → Hash V → ℕ
  pub hlen_zero : {V : Type 0} (h : Hash V) → hlen h ≡ 0 → (x : Text) → hget h x ≡ none
  -- The Bloom filter: BF.EXISTS and BF.ADD, whose reply is 0 exactly when BF.EXISTS held before.
  -- It may hold texts that were never added, and never forgets one that was.
  pub Bloom : Type 0
  pub bf_exists : Bloom → Text → Bool
  pub bf_add : Bloom → Text → Bloom
  pub bf_exists-bf_add_self : (b : Bloom) (x : Text) → bf_exists (bf_add b x) x ≡ true
  pub bf_exists-bf_add :
      (b : Bloom) (y x : Text) → bf_exists b x ≡ true → bf_exists (bf_add b y) x ≡ true
