-- ===== src/Lib.antt =====
-- Verification of homesink, a self-hosted photo backup: the server's store, pairing, tokens,
-- library of files and configuration.
--
-- The server (backend/internal) keeps all its state in one SQLite database, written through
-- store.SQLite in transactions that the single writer handle serialises, and in a map of failed
-- pairing attempts that auth.Pairer guards with a mutex. A device pairs with a six-digit code,
-- gets a token, uploads blobs and places items; background jobs work on a queue in the database.
--
-- Base holds what the parts share: Boolean tests, lists, text as lists of runes, a SQL table as
-- the list of its rows with SELECT, UPDATE and DELETE, integers, ORDER BY and decimal digits.
-- Paths of source files below are from backend/internal, those of migrations from backend.
-- Core/Errors and Core/Types are core/errors.go and core/types.go.
-- Store is store/sqlite.go: the tables, the results of a call and the transaction, which keeps
-- what its body did only if body and driver succeed. Each method of store.SQLite is a function
-- named after it (InsertItem is insert_item); its first argument says whether the driver fails
-- it, and the body of its transaction is the function with the suffix _tx.
--   Store/Devices and Store/Codes are store/devices.go, Store/Jobs is store/jobs.go,
--   Store/Blobs is store/blobs.go, Store/Items is store/items.go, Store/Stats is store/stats.go,
--   and Store/Meta is Meta and SetMeta of store/migrate.go.
--   The constraints of migrations/0001_init.sql stand where a statement relies on them. The string
--   types MediaType and BlobState are texts, with the CHECKs of the table as is_media_type and
--   is_blob_state; the kinds of jobs and variants and the states of jobs are enumerations, so that
--   a value that their CHECKs refuse does not occur.
-- Auth/Token is auth/token.go, with the generation of codes from auth/pairing.go; Auth/Limiter is
-- the rate limiter, Auth/Issue is IssueCode, Auth/ServerId is EnsureServerID and Auth/Pairing is
-- Pair, all of auth/pairing.go. Auth/Middleware is auth/middleware.go.
--   Clocks, random bytes and driver faults are the record PairEnv or IssueEnv; SHA-256 in
--   hexadecimal is the parameter sha256_hex, of which nothing is assumed.
-- Library is backend/internal/library. Library/Clusters and Library/Sanitize are sanitize.go;
-- Library/Calendar (yearMonth, and the calendar of package time that it calls) and Library/Paths are
-- paths.go; Library/Files is the file system, with the calls of the operating system,
-- Library/Install is install and linkCanonical, and Library/Place the rest of place.go.
--   Normal form C is the parameter nfc and the grapheme clusters of uniseg are the parameter extra,
--   of which nothing is assumed. The file system is a list of files with their inodes; Faults says
--   which calls fail. Place reads the tables of Store through ItemByPath and BlobByHash, and its
--   caller stores the item it returns with InsertItem.
-- Config is Load of config/config.go; Config/Address has the checks that ask the process, whose
-- environment is the record Host, and Config/Parse the parsers.
-- Http is httpapi/handlers_pair.go and the helpers of httpapi/middleware.go: what a handler answers
-- and leaves in the store.
-- MemStore is testutil/memstore.go, in MemStore/Blobs, Items, Jobs and Pairing; MemStore/Maps is
-- Go's map, as a list of entries.
-- Tests holds concrete databases, requests, placements and settings.
--
-- Concurrency: a transaction is one step and one critical section of the limiter is one step, so
-- an interleaving is a sequence of steps.
-- Fuel: the loops over grapheme clusters have one round more than the text has runes, and each
-- round takes a rune at least; the search for the year has 400 rounds, the years of a cycle.
-- Loops: IssueCode has the three rounds of issueRetries; GeneratePairingCode recurs on the supply
-- of random draws, and ends without a result where the supply does.
-- Numbers: sizes, counts, priorities, limits and server clocks are natural numbers, as no caller
-- makes them negative; version codes of the app, capture times, years and the counters of album_stats are integers. None of
-- them wraps: they are far from 64 bits.
--
-- Text is its runes, so bytes that are no UTF-8 do not occur.
--
-- Not modelled: certificates (auth/tlscert.go), the opening of the database, migrations and
-- backups, HTTP routing and logging, the server's life cycle, the fsync of a directory, the command line and the client.
pub mod Base
pub mod Core
pub mod Store
pub mod Auth
pub mod Library
pub mod Config
pub mod MemStore
pub mod Http
pub mod Tests
