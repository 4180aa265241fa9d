-- ===== src/Startup/Guards.antt =====
-- What main checks before a production run (cmd/crawler/main.go), and the seeds that it reads.
-- net.SplitHostPort and url.Parse are parameters.
use gfap.Base.{
  ◌≡◌, refl, arith, Bool, true, false, Option, none, some, List, [], ◌∷◌, ◌||◌, ◌==◌, if◌then◌else◌,
}
use gfap.Text.{Text, codes}
use gfap.Text.Search.{equal, is_empty, split, trim_space}
use gfap.Config.{Config, comma}

-- The line that main dies with, or the start of the run.
pub data Guard : Type 0 where
  starts invalid_redis_address test_storage invalid_mongo_uri test_mongo_port : Guard

-- strings.TrimLeft(port, "0")
unfoldable pub trim_zeros : Text → Text
trim_zeros [] = []
trim_zeros (c ∷ s) = let rest = trim_zeros s in if c == b'0' then rest else c ∷ s

-- `host` and `port`, where the address has both.
abbrev pub HostPort : Type 0
HostPort = Option (Text × Text)

abbrev pub has_port : Text → HostPort → Bool
has_port port none = false
has_port port (some (host, p)) = equal (trim_zeros p) port

module _ (split_host_port : Text → HostPort) where
  abbrev pub any_host : Text → List Text → Bool
  any_host port [] = false
  any_host port (host ∷ hosts) = has_port port (split_host_port host) || any_host port hosts

  abbrev pub check_hosts : Option Text → Guard
  check_hosts none = invalid_mongo_uri
  check_hosts (some hosts) =
      if is_empty hosts
      then invalid_mongo_uri
      else (if any_host (codes "37017") (split comma hosts) then test_mongo_port else starts)

  abbrev check_redis : HostPort → Text → Guard → Guard
  check_redis none db rest = invalid_redis_address
  check_redis (some (host, port)) db rest =
      if equal (trim_zeros port) (codes "16379") || equal db (codes "gfap_test")
      then test_storage
      else rest

  -- `parse_host` is the Host of url.Parse, where the URI is one.
  unfoldable pub production_guard : (Text → Option Text) → Config → Guard
  unfolding trim_zeros split
  production_guard parse_host cfg =
      check_redis (split_host_port cfg.redis_addr) cfg.mongo_db
        (check_hosts (parse_host cfg.mongo_uri))

  -- A production run that starts has neither the test database nor, in its address of Redis, the
  -- test port, and its hosts of Mongo have passed the check.
  pub production_guard_lem :
      (parse_host : Text → Option Text) (cfg : Config)
      → production_guard parse_host cfg ≡ starts
      → (equal cfg.mongo_db (codes "gfap_test") ≡ false)
        × (has_port (codes "16379") (split_host_port cfg.redis_addr) ≡ false)
        × (check_hosts (parse_host cfg.mongo_uri) ≡ starts)
  unfolding production_guard
  production_guard_lem parse_host cfg = go (split_host_port cfg.redis_addr)
    where
      decided :
          (a b : Bool) (rest : Guard)
          → (if a || b then test_storage else rest) ≡ starts
          → (b ≡ false) × (a ≡ false) × (rest ≡ starts)
      decided true b rest h = absurd (ground (arith, h))
      decided false true rest h = absurd (ground (arith, h))
      decided false false rest h = (refl, refl, h)

      go :
          (r : HostPort)
          → check_redis r cfg.mongo_db (check_hosts (parse_host cfg.mongo_uri)) ≡ starts
          → (equal cfg.mongo_db (codes "gfap_test") ≡ false)
            × (has_port (codes "16379") r ≡ false)
            × (check_hosts (parse_host cfg.mongo_uri) ≡ starts)
      go none h = absurd (ground (arith, h))
      go (some (host, port)) h =
          decided (equal (trim_zeros port) (codes "16379")) (equal cfg.mongo_db (codes "gfap_test"))
            (check_hosts (parse_host cfg.mongo_uri)) h

abbrev seed_lines : List Text → List Text
seed_lines [] = []
seed_lines (line ∷ lines) =
    let rest = seed_lines lines in
    if is_empty (trim_space line) then rest else trim_space line ∷ rest

-- readSeedURLs, where `none` is a file that cannot be read.
unfoldable pub read_seed_urls : Option Text → Text → List Text
read_seed_urls none base_url = base_url ∷ []
read_seed_urls (some text) base_url = base_url ∷ seed_lines (split 10 text)
