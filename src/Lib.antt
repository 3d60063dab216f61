-- ===== src/Lib.antt =====
-- A model of audistro-provider, the Go program that serves HLS assets from a directory or an
-- origin and announces them to a catalog, with the theorems about it.
--
-- The program scans a directory of assets into a SQLite database (internal/scanner,
-- internal/repository, internal/jobs/rescan_job.go), announces the active assets to the catalog
-- with a back-off for each (internal/jobs/announce_sweep.go, internal/jobs/backoff.go,
-- internal/catalog), marks announcements past their expiry (internal/jobs/cleanup_job.go), and
-- serves requests behind a limiter and a bound on upstream requests (internal/assets,
-- internal/proxyguard).
--
-- Prelude holds what the other files share: texts as lists of bytes, list functions and their
-- lemmas over the native numbers. Go holds what the source uses of the language and its standard
-- library: int64 with its wrap-around (Go.Int64), instants in nanoseconds since year 1 and
-- durations (Go.Time), maps with text keys (Go.Map), functions of package strings and formatting
-- (Go.Strings), the parsing of numbers (Go.Strconv), clean paths (Go.Filepath), and the library of
-- addresses and URLs as a record of functions (Go.Net).
--
-- Repository.Db has the two tables by their primary key and a list of what the coming calls of the
-- driver meet; Repository.Assets and Repository.Announcements are the functions of assets_repo.go
-- and announcements_repo.go, each a function from a database to a result, where none is an error,
-- and a database. A transaction restores the tables when its body or its commit fails.
-- Repository.Migration is Migrate of internal/db/db.go on a schema. Scanner is
-- scanner.go: Scan and scanAssetDir over an argument that answers for the file system. Jobs.Rescan
-- is RunRescanJob and RunRescan, Jobs.Cleanup RunCleanupJob, Jobs.Backoff the methods of
-- BackoffState, Jobs.Sweep RunAnnounceSweep, ClassifyError and needsReannounce. Catalog.Client is
-- the reading of a catalog answer, Catalog.Signing is BuildAnnouncement. Assets.Paths is
-- validate.go with parseAssetPath and parseRequest of handler.go, a directory being its absolute,
-- clean path as a list of elements; Assets.Serve is the dispatch of serveHTTP with TryServeLocal,
-- ServeProxy and the limits that initProxy installs; Assets.Cors is cors.go. Assets.RateLimit is
-- ipRateLimiter, Assets.BodyLimit maxBytesReadCloser of handler.go, and Proxyguard the semaphore
-- of limit.go with the requests that share it as a step relation. Assets.Upstream is what
-- initProxy makes of a request to the origin and of the headers of its answer.
--
-- Httpserver is routeLabel and the validation of requests in internal/httpserver, Httpserver.Routing
-- the routes of its mux, Httpserver.Middleware the chain of middleware that server.go puts around the
-- mux, a handler being a function from a request to what it has done when it returns or panics.
--
-- Config holds the settings, Config.Load is Load over an environment as a function from a name to an
-- optional text, and Config.Validate is Validate, whose checks of directories, files, URLs and
-- networks are answered by an argument (internal/config). Envcheck is the check of the variables that
-- the environment sets. Program has the helpers of cmd/audistro-provider/main.go and the readiness
-- checker, Health the handlers of internal/health, Identity the identity file of internal/identity
-- with Save as a sequence of calls that may each fail, Fssecure internal/fssecure, where the file
-- system may change between two calls, Originauth internal/originauth, and Catalog.HealthState
-- healthstate.go.
--
-- Internalapi.Allowlist, Internalapi.Announce and Internalapi.Rescan are the files of
-- internal/internalapi. Jobs.Runner is runner.go: each of its three loops as a function of the events
-- that it waits for, and a round of each as a function on the runner's state. Jobs.Effects and
-- Repository.Changes take a job as a sequence of repository calls, of which each stores an announcement
-- only for an asset that has a row.
--
-- What is not under the repository's control is an argument: the draws of math/rand, SHA-256 and
-- the Schnorr signature, the answers of the catalog, the file system, the clock, the pieces in
-- which a body arrives. Mutexes make each method one step. Times in the database are whole
-- seconds, which is what their RFC 3339 text holds; in announcements, the text of a time from year
-- 10000 on is one that does not parse. The limiter counts tokens in units of 10 ^ -9
-- without the rounding of float64. Letter case is that of ASCII. The loop that doubles a delay
-- runs as often as the count of failures says, which is its number of rounds; a number is written
-- with fuel for 20 digits, which 64 bits fill at most, and so is the year of such a time cut to its
-- first four digits; no other recursion is on fuel.
--
-- Not modelled: the metrics collectors, the API documents, the logger and the build information, the
-- opening of the database, the transport to the origin with its error handler, the making of the
-- catalog client and its URLs, the schema file of the environment check, and the order in which
-- cmd/audistro-provider starts and stops the parts.
pub mod Prelude
pub mod Go
pub mod Jobs
pub mod Httpserver
pub mod Health
pub mod Internalapi
pub mod Identity
pub mod Catalog
pub mod Config
pub mod Envcheck
pub mod Repository
pub mod Scanner
pub mod Assets
pub mod Fssecure
pub mod Proxyguard
pub mod Program
pub mod Originauth
pub mod Tests
