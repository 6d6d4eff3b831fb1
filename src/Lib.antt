-- ===== src/Lib.antt =====
-- Stonr, a Nostr relay that keeps its events in plain files: a model of the relay's stores, of the
-- sessions that read and write them, and of the settings.
--
-- The relay takes signed events from websocket sessions, HTTP requests and upstream relays, checks
-- them, writes each into a file of its own under a root directory, and answers filters from index
-- files beside them. Delete events leave tombstones that hide other events, expiration tags and
-- retention limits take events away, and pinned authors and events are exempt. The parts:
--
-- + Base: lists, texts, results and sorting, over native numbers.
-- + Event, Crypto: shared/nostr-shared/src/event.rs and crypto.rs. An event's id is the hash of its
--   other fields; `verify_event` and `sign_event` are the code's.
-- + Query: the filter `Query` of stonr/src/storage.rs, and `event_matches_query` of stonr/src/ws.rs,
--   the test that the live subscriptions use.
-- + Store: `Store` of stonr/src/storage.rs. `Disk` is the root directory: `events` the files under
--   `events/` in the order in which the directory walk gives them, `index` the lines of the files
--   under `index/`, `latest`, `mirror`, the two tombstone directories, the log, the cached counts and
--   the retention status.
--   - Store/Index: `event_path`, `index_event`, `append_index`, `write_mirror_links`.
--   - Store/Tombstones: `apply_delete_event_locked` and `write_tombstone`.
--   - Store/Visibility: `event_visible` and `event_is_retention_protected`.
--   - Store/Read: `query_with_policy` with its candidates, filter, order, addresses and limit.
--   - Store/Status: the status file and the cached counts.
--   - Store/Ingest: `init`, `ingest_locked`, `ingest_with_policy`.
--   - Store/Retention: `rebuild_metadata` (a reindex) and `enforce_retention_locked`;
--     Store/Retention/Background: `enforce_retention_background` and `refresh_stats_cache`.
--   - Store/System: the steps between which the mutation lock is free, in any order. A background
--     pass is a step where nobody changed the directory since its walk; Tests/Passes has a run in
--     which an ingestion came in between.
--   - Store/Lock: the mutation lock itself, `acquire_mutation_lock_once` and the lock's `drop` as calls
--     of threads in any order. The lock's path is a value, and so is what a call is told of it.
-- + Filter: shared/nostr-shared/src/filter.rs, over JSON values as a data type.
-- + Policy: stonr/src/policy.rs. `validate_event`, `apply_query_policy`, and `enforce_rate_limit` with
--   the counter files of `runtime/rate-limit` as a function from action, bucket and actor.
-- + Nip42, Nip98: shared/nostr-shared/src/nip42.rs and nip98.rs. The session's keys and the check of
--   its AUTH event, and the header of an HTTP request, built and checked.
-- + Files: stonr/src/files.rs, with the upload rules of stonr/src/config.rs. `FileDisk` is the
--   directory `files/`: the documents in the order of the walk, the blobs by hash, and which
--   reference files are there. The temporary file of an upload is given by its content.
--   - Files/Blobs: `store_upload`, `load_meta`, `write_meta`, `remove_blob`, `owner_usage`.
--   - Files/References: `referenced_hashes`, `add_reference`, `rebuild_references`.
--   - Files/Removal: `delete_for_owner` and `prune`; Files/Metadata: `list`, `nip94_tags`,
--     `validate_metadata_event`; Files/System: the operations in any order.
-- + Config: stonr/src/config.rs. The settings in the groups that the parts read; Config/Parse the
--   lines of the environment file, lists and denylists; Config/Load `from_env` field by field.
--   - Config/Profiles: stonr/src/autoconfig.rs. The settings of a support profile, normalized, and
--     Config/Profiles/Merge: the locks that the profiles of a list come to.
-- + Blossom: stonr/src/blossom.rs. The authorization event of a request to the blob API, and the
--   blobs that it is good for.
-- + Session: stonr/src/ws.rs. A session's keys and subscriptions, and what it does with the frames
--   REQ, COUNT, CLOSE and AUTH of `handle_text`, with `snapshot_events` and `fan_out_live_event`. The
--   map of subscriptions is a list, and the frames are taken apart already. Session/Publish: the
--   frame EVENT and `publish_event`, over the event store and the blob store together.
-- + Tests: a concrete hash and signature check, runs, and the theorems at concrete inputs.
--
-- How the code is carried over. A function that writes files takes a `Disk` and gives the one after
-- it. `Result` is a value, an error with its message, or a panic; a slice of a text that is too
-- short, or that cuts a character, panics. An operation that fails gives no disk, so nothing is said
-- of what a failure half way leaves. The clock is an argument `now`, read once for an operation.
-- Sums of sizes are taken modulo 2 ^ 64; a debug build panics there instead. `saturating_sub` is the
-- subtraction of ℕ, and saturating additions are bounded by the largest `u64`; `usize` is taken to
-- have 64 bits. Every loop of the code is over a list, and is a recursion on it: no fuel is needed.
--
-- Parameters. The record `External` stands for the crates: SHA-256 and SHA-1, the Schnorr signature,
-- the JSON encoder's length and the case tables. The named hypotheses on them are that signing with
-- a key gives signatures that check under its public key, and for a query that none of the values it
-- asks a tag for has the SHA-1 of another tag value of a stored event. `AuthCrates` stands for URL parsing, base64,
-- JSON and hex in authentication, of which it is assumed that a header's event is read back.
-- `BlossomCrates` decodes the event of the blob API's header. `FileCrates` is the SHA-256 of a
-- file's bytes; the quota assumes that contents of different lengths have different hashes.
--
-- What is not modelled: failures of the file system, and files changed by other programs during an
-- operation; names with separators or line breaks in keys that become file names; the number of
-- lines that a text with line breaks adds to an index file; JSON; the lock of a rate limit's counter,
-- which is free for requests one after another.
-- The loop of a session, the HTTP server with its upload and blob API, the mirror of upstream
-- relays, the YAML reader of the support profiles and the command line are not part of it.
pub mod Base
pub mod Event
pub mod External
pub mod Crypto
pub mod Query
pub mod Store
pub mod Files
pub mod Filter
pub mod Policy
pub mod Nip42
pub mod Nip98
pub mod Blossom
pub mod Session
pub mod Config
pub mod Tests
