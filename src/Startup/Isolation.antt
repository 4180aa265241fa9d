-- ===== src/Startup/Isolation.antt =====
-- LoadTest against the production runs that the guards of main let start
-- (internal/config/config.go, cmd/crawler/main.go).
use gfap.Base.{◌≢◌}
use gfap.Text.{Text}
use gfap.Config.{Config}

-- The parts of a configuration that say where a run stores its work.
abbrev pub storage : Config → Text × Text × Text × Text × Text
storage c = (c.redis_addr, c.mongo_uri, c.mongo_db, c.metrics_port, c.output_file)

-- That two runs share none of them.
abbrev pub Apart : Config → Config → Type 0
Apart c d =
    (c.redis_addr ≢ d.redis_addr)
    × (c.mongo_uri ≢ d.mongo_uri)
    × (c.mongo_db ≢ d.mongo_db)
    × (c.metrics_port ≢ d.metrics_port)
    × (c.output_file ≢ d.output_file)
