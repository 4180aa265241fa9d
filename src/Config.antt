-- ===== src/Config.antt =====
-- internal/config/config.go: the configuration from the environment. `env` is os.Getenv after
-- godotenv.Load, which gives the empty text for a variable that is not set.
pub mod Ladder
use gfap.Base.{
  ℕ, zero, suc, ◌+◌, ◌*◌, ◌≡◌, Bool, true, false, Option, none, some, List, [], ◌∷◌, if◌then◌else◌,
}
use gfap.Text.{Text, codes}
use gfap.Text.Integer.{ℤ, pos, negsuc, less, times, wrap, atoi}
use gfap.Text.Search.{is_empty, split, trim_space}

abbrev pub Env : Type 0
Env = Text → Text

-- A time.Duration: nanoseconds in an int64.
abbrev pub second : ℕ
second = 1000000000

-- The cutoff date in seconds of Unix.
pub record Config : Type 0 where
  pub workers : ℤ
  pub base_url : Text
  pub test_url : Text
  pub video_pattern : Text
  pub title_suffix : Text
  pub output_file : Text
  pub rate_limit : ℤ
  pub cutoff_date : ℕ
  pub redis_addr : Text
  pub mongo_uri : Text
  pub mongo_db : Text
  pub mongo_col : Text
  pub login_url : Text
  pub username : Text
  pub password : Text
  pub metrics_port : Text
  pub static_proxy_urls : List Text
  pub rotating_proxy_url : Text
  pub lease_timeout_sec : ℤ
  pub max_strikes : ℤ
  pub scheduler_batch_limit : ℤ
  pub rate_limit_backoff_sec : List ℤ
  pub strike_backoff_sec : List ℤ
  pub listing_base_ttl_hours : ℤ
  pub seed_ttl_hours : ℤ
  pub listing_max_ttl_hours : ℤ
  pub quarantine_listing_hours : ℤ

abbrev pub or_default : {A : Type 0} → Option A → A → A
or_default none def = def
or_default (some a) def = a

abbrev pub comma : ℕ
comma = 44

abbrev cons : ℤ → Option (List ℤ) → Option (List ℤ)
cons n none = none
cons n (some ns) = some (n ∷ ns)

abbrev cons_if : Option ℤ → Option (List ℤ) → Option (List ℤ)
cons_if none rest = none
cons_if (some n) rest = cons n rest

-- The loop of getEnvIntSlice; `none` where it returns the default.
unfoldable pub parse_parts : List Text → Option (List ℤ)
parse_parts [] = some []
parse_parts (p ∷ parts) = cons_if (atoi (trim_space p)) (parse_parts parts)

abbrev pub slowest : ℤ → ℤ
slowest d = if less d (pos (30 * second)) then pos (30 * second) else d

module _ (env : Env) where
  unfoldable pub get_env_str : Text → Text → Text
  get_env_str key def = if is_empty (env key) then def else env key

  unfoldable pub get_env_int : Text → ℤ → ℤ
  get_env_int key def = if is_empty (env key) then def else or_default (atoi (env key)) def

  unfoldable pub get_env_int_slice : Text → List ℤ → List ℤ
  unfolding parse_parts
  get_env_int_slice key def =
      if is_empty (env key) then def else or_default (parse_parts (split comma (env key))) def

  unfoldable pub load : Config
  unfolding get_env_str get_env_int get_env_int_slice
  load = record {
    workers = get_env_int (codes "WORKERS") (pos 20);
    base_url = codes "https://www.vidlii.com";
    test_url = get_env_str (codes "TEST_URL") (codes "https://www.vidlii.com/user/rinkomania");
    video_pattern = codes "/watch?v=";
    title_suffix = codes " - VidLii";
    output_file = codes "targets.json";
    rate_limit = wrap (times (get_env_int (codes "RATE_LIMIT_SEC") (pos 15)) second);
    cutoff_date = 1704067199;
    redis_addr = get_env_str (codes "REDIS_ADDR") (codes "localhost:6379");
    mongo_uri = get_env_str (codes "MONGO_URI") (codes "mongodb://localhost:27017");
    mongo_db = codes "vidlii";
    mongo_col = codes "videos";
    login_url = codes "https://www.vidlii.com/login";
    username = env (codes "VIDLII_USERNAME");
    password = env (codes "VIDLII_PASSWORD");
    metrics_port = codes "2112";
    static_proxy_urls =
        let raw = env (codes "STATIC_PROXY_URLS") in if is_empty raw then [] else split comma raw;
    rotating_proxy_url = env (codes "ROTATING_PROXY_URL");
    lease_timeout_sec = get_env_int (codes "LEASE_TIMEOUT_SEC") (pos 600);
    max_strikes = get_env_int (codes "MAX_STRIKES") (pos 5);
    scheduler_batch_limit = get_env_int (codes "SCHEDULER_BATCH_LIMIT") (pos 100);
    rate_limit_backoff_sec =
        get_env_int_slice (codes "RATE_LIMIT_BACKOFF_SEC") (pos 300 ∷ pos 900 ∷ pos 2700 ∷ []);
    strike_backoff_sec =
        get_env_int_slice (codes "STRIKE_BACKOFF_SEC") (pos 60 ∷ pos 300 ∷ pos 1500 ∷ []);
    listing_base_ttl_hours = get_env_int (codes "LISTING_BASE_TTL_HOURS") (pos 72);
    seed_ttl_hours = get_env_int (codes "SEED_TTL_HOURS") (pos 24);
    listing_max_ttl_hours = get_env_int (codes "LISTING_MAX_TTL_HOURS") (pos (21 * 24));
    quarantine_listing_hours = get_env_int (codes "QUARANTINE_LISTING_HOURS") (pos (7 * 24));
  }

  unfoldable pub load_test : Config
  unfolding load
  load_test = record load {
    redis_addr = codes "127.0.0.1:16379";
    mongo_uri = codes "mongodb://127.0.0.1:37017";
    mongo_db = codes "gfap_test";
    metrics_port = codes "2113";
    output_file = codes "targets.test.json";
    workers = pos 100;
    rate_limit = slowest load.rate_limit;
  }
