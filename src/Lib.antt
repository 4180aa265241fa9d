-- ===== src/Lib.antt =====
-- Verification of gfap, a crawler for one video site. Workers lease jobs from a frontier in
-- Redis, fetch the page, store a video in MongoDB, admit the links that they find, and resolve
-- the job; reconcilers put back jobs whose lease ran out, promote delayed ones, and schedule
-- listings that are due again.
--
-- Frontier (internal/storage/frontier.go). `Store` is the keyspace, one field for each key. The
-- Lua scripts are in Frontier/Script, a function for each, in the commands' order, with the
-- loops as structural recursion. Redis runs a script with nothing in between, but does not undo
-- what a script wrote before a command of it failed; so a script runs on a budget of commands,
-- and `none` fails none. Frontier/Client has the methods of redisFrontier, which run the scripts
-- and decode the replies; a fault says what becomes of the request. Stats sends its commands one
-- by one, so it meets a keyspace for each. Live counts the places in which a member stands;
-- Invariant, History, Loss, Fence, Policy, Admission and Ban have the theorems. Lasting carries
-- a property of the keyspace through any call, whatever becomes of its request and its script:
-- that the Bloom filter holds a URL, or that a member is gone.
--
-- Redis itself is a record of operations and laws (Redis.antt): lists, sorted sets, hashes and
-- the Bloom filter, which may hold what was never added and forgets nothing. Redis/Model fills
-- it with lists, so that the laws can be met, and the examples run on that.
--
-- Crawler (internal/crawler/worker.go). `process` is Crawler/Page, the loop with all that it
-- calls Crawler/Worker, workerFailures Crawler/Failures. A worker's turns are a list (what each
-- fetch brings, whether the context is done), and the net says of each request what becomes of
-- it and the clock then. Mongo.Upsert (internal/storage/mongo.go) is part of the world that a
-- worker changes. Refinement relates a worker's loop to the histories of Frontier/History;
-- Stored and Released are about the handling of one outcome.
--
-- Video is internal/model/video.go, Config internal/config/config.go. Text has strings as code
-- points, with the parts of Go's strings and strconv that the source calls; Base the shared
-- names and tests.
--
-- Crawl state (internal/storage/crawl_state.go, crawl_state_restore.go). CrawlState has the
-- types; Fields, Record and Codec the BSON documents, validate and decodeMongoCrawlRecord; Dead
-- the text of a dead entry. A run against Redis and MongoDB is a Step in Session: a line says
-- what each request meets (a done context, the reply to INFO, a fault, the clock), and a step
-- returns a result or an error and the session after it. Batch and Restore are the transcription
-- of crawl_state_restore.go; Startup, Barrier, Kept, Footprint and Contained say what Restore
-- may change, Content what a batch leaves at each URL, Healthy and Complete what happens where
-- every request succeeds. Checkpoint, with Observe and Tuples, is the scan and its bulk writes,
-- beside a keyspace that may differ at every request; Exact, Batches and Covered are its
-- theorems. Resume and Restart put the two directions together.
--
-- Scheduler has the ticks of internal/scheduler/scheduler.go: the drain loop of the listing
-- scheduler, on fuel for its calls (Scheduler/Drain has the bound), and those of the promoter,
-- the reaper and the sweeper, with the counters of internal/metrics.
--
-- Startup/Bloom is the rebuilding of the Bloom filter: reconcileBloomFromMongo
-- (cmd/crawler/main.go), EachVideoURL (internal/storage/mongo.go) and BloomAddBatch
-- (internal/storage/redis.go). Startup/Guards has main's checks of a production run's addresses,
-- and readSeedURLs; Startup/Isolation sets them against LoadTest. net.SplitHostPort and
-- url.Parse are parameters.
--
-- Chosen bounds. Times and durations of the frontier are whole seconds in the natural numbers,
-- as the scripts pass them; the configuration's int and Duration are 64 bits and wrap. Job ids
-- are printed in decimal in full; Lua prints a number with 14 digits, so ids agree below 10 to
-- the 14. A dead entry is a record of reason and end, which the scripts join with a bar; the
-- reasons have no bar. The batches of a scan's reply are cut on fuel, their keys' number, which
-- is enough because each batch takes a key at least; the drain loop runs on fuel for its calls,
-- and no other recursion does.
--
-- Not modelled. canonicalize (internal/crawler/crawler.go) is a parameter, as are Unicode's
-- tables, time.Parse, letter case, and what goquery finds in a page. The net's HTTP client,
-- login, metrics, tickers, the goroutines' start, the debug records, and the set-up of Redis and
-- MongoDB are left out. BSON is a list of fields, JSON of the marker a record or a text that
-- does not decode, and the driver's url.Parse a parameter.
pub mod Base
pub mod Text
pub mod Redis
pub mod Frontier
pub mod Video
pub mod Config
pub mod Crawler
pub mod CrawlState
pub mod Startup
pub mod Scheduler
pub mod Tests
