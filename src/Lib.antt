-- ===== src/Lib.antt =====
-- A verification library for the Go program file_search: a local file indexer with a web
-- interface, full-text and semantic search. Paths are from the repository's root.
--
-- Base holds what the modules share: Boolean tests, list functions, byte texts, Go's maps as
-- association lists, integers, and results with Go's wrapped error texts.
-- Cache models file_search/internal/cache/cache.go, the LRU cache of search results, with its
-- entries on a heap and its pointers as numbers: `New` is `new`, `Get` is `get`, `Set` is `set`,
-- `Flush` is `flush`, `InvalidateByPath` is `invalidate_by_path`, `pushFront`, `moveToFront`,
-- `evict`, `remove` and `unlink` are `push_front`, `move_to_front`, `evict`, `remove_entry` and
-- `unlink`. Cache/Spec is the cache as a list of slots; Cache/Links, Layout, Holds, Edits, Moves,
-- Insertion, Views, Filled and Represents carry the proof that the heap implements it.
-- Server models file_search/internal/server: Server/Limiter the token buckets of middleware.go
-- and their eviction, Server/Access the middleware chain.
-- Db models file_search/internal/db over a record of SQL statements (Db/Engine): Db/Index the
-- writes `UpsertWithMtime`, `Upsert` and `Delete` of db.go, Db/Vectors the encoding of embeddings
-- in vectors.go. Db/Memory is an engine in memory that meets what is asked of SQLite.
-- Indexer models file_search/internal/indexer/indexer.go: Indexer/Policy the tables of names and
-- the verdicts on directories and files, Indexer/Walk the walk of `Run` with its statistics and
-- workers, Indexer/Extract the extraction of text, Indexer/File `IndexFile` over Db/Index.
-- Watcher models file_search/internal/watcher/watcher.go: the event loop as steps, its batches,
-- and `flush`, which works on the database and on Cache. Config models
-- file_search/internal/config/config.go over a record of file-system calls. Server/Search is
-- `handleSearch` and Server/Settings `handleSettings` of file_search/internal/server/server.go,
-- the first over Cache, the second over Config.
-- Security models `ValidatePath` of file_search/internal/security/path.go and the check of
-- `handleOpen`; Embedder models file_search/internal/embedder: `New`, `Embed` and a round of the
-- background indexer.
-- Db/Query models the queries of db.go: `sanitizeQuery` is `sanitize_query`, `filterClauses` is
-- `filter_clauses`, `Search` and `Count` are `search` and `count` over an engine that answers a
-- statement with rows (Db/Rows). Db/Audit models audit.go, with a reader of CSV for the text of
-- `AuditCSV` in Db/Audit/Csv. Db/Schema models `New`, `applyPragmas` and `migrate` of db.go as
-- sequences of commands; Db/Schema/Migrated follows them one by one, Db/Schema/Ready puts them
-- together, Db/Schema/Column follows the column mtime.
-- Server/Search/Composed puts `handleSearch` on the `Search` and `Count` of Db/Query.
-- Server/Semantic is `handleSemanticSearch` with the similarity of Embedder/Similarity;
-- Server/Status has the handlers that report on the server, and `logTail`. Watcher/Reached is the
-- relation of the states that the event loop reaches.
-- Logger models the rotating writer of file_search/internal/logger/logger.go, DataPaths
-- file_search/internal/paths/paths.go, Hardware the files hardware.go and hardware_linux.go of
-- file_search/internal/hardware, and Startup the decisions of file_search/cmd/server/main.go: the
-- paths, the check of the port and `waitForServer`.
-- Bounds: times are counts of nanoseconds without bound, in Startup of milliseconds, and the
-- limiter's tokens are counted in billionths, where the source has float64; the vectors stored
-- so far are a field of the embedder's progress, where the source reads them again in each round;
-- the floating-point
-- numbers of the similarity are a parameter. `wait_for_server` runs on fuel, for which one round
-- for each 100 ms up to the deadline and one more are enough; every other loop is structural.
-- Not modelled: net/http, SQLite, the JSON and ZIP encoders, the file system, other programs and
-- Ollama are parameters or left out. Of file_search/cmd/server the start of the goroutines, the
-- browser and the signals are left out, and file_search/cmd/check prints a query; the probes of
-- Windows and macOS in file_search/internal/hardware call those systems. handleDiagnosticsBundle
-- writes an archive of what the other handlers report; file_search/benchmarks makes random files.
pub mod Base
pub mod Cache
pub mod Config
pub mod DataPaths
pub mod Db
pub mod Embedder
pub mod Hardware
pub mod Indexer
pub mod Logger
pub mod Security
pub mod Server
pub mod Startup
pub mod Watcher
