-- ===== src/Lib.antt =====
-- canvas-fuse: the synchronisation core of the mirror.
--
-- A mirror keeps a real folder and a workspace on a hub the same. The session thread (the file system
-- layer) changes the folder and the ledger and queues jobs; the engine thread sends the jobs to the hub,
-- follows the hub's change feed, and decides for each key from three digests: what is here, what was
-- last agreed, and what the hub has.
--
-- Reconcile models src/mirror/reconcile.rs: `decide` and its actions.
-- Paths models the keys: `under` and `overlaps` of src/mirror/store.rs, and the key functions, ignore rules
-- and conflict names of src/mirror/mod.rs. A text is the list of its code points.
-- Hub holds the data and the errors of src/mirror/hub.rs. The messages of errors are dropped.
-- Protection models src/mirror/protection.rs.
-- Store models src/mirror/store.rs: one table of the database is a field of `Store`. Store.Ledger has the
-- rows, Store.Queue the jobs, Store.Move the ledger's side of a directory move. A table is in the order of
-- insertion, where the database goes through it in the order of keys. A failing database is
-- not modelled, and of its bytes nothing: a row is the value that it encodes.
-- Local is the folder of src/mirror/local.rs as the engine sees it: the file system is a parameter, a record of
-- operations on an unknown state.
-- Mirror models the state of `Mirror` and `Runtime` in src/mirror/sync.rs and its small operations;
-- Mirror.Writes the local writes and deletes, Mirror.Moves the renames of files and directories on the disk
-- and in the ledger, Mirror.Recover `recover_jobs`. Mirror.Accounted is the account of the work that the
-- hub is owed, Mirror.Frame, Mirror.Quiet and Mirror.Grows are about what a step leaves alone.
-- Mirror.Calls is about each call of the session thread, and Mirror.Session has them as a step relation.
-- Engine models the engine thread of src/mirror/sync.rs. Engine.Select is the choice of the next job,
-- Engine.Scan the folder scan, Engine.Pull the landing of downloads and the recording of conflicts,
-- Engine.Reconcile `reconcile_key`, Engine.Requests and Engine.Run.Conflicts the requests, and
-- Engine.Run what becomes of a job, and the pass over the queue. Engine.Feed applies the changes and
-- renames of the hub, Engine.Cycle is the listing and the following of the feed, Engine.Pass the cycle, the
-- housekeeping and the loop over the messages.
-- Http models the HTTP client of src/mirror/hub.rs: Http.Values JSON and the texts of numbers, Http.Urls the
-- paths of keys, Http.Messages what is read from answers, Http.Calls the requests. Http and the decoding
-- of percent codes in src/render.rs are about a library for HTTP that is a parameter, `Transport`; lowercase
-- and RFC 3339 are one as well, `Codecs`.
-- Blobs models src/blobs.rs, the cache of contents of the document tree: Blobs.Served and Blobs.Waiting are
-- about the answers to reads, and Blobs.Threads has the threads as a step relation.
-- Writes models the buffers of src/writes.rs: the states of open files, the pending creates, and the bytes of
-- a write: Writes.Bytes is about contents and handles, Writes.Owned about the names of pending
-- creates. A map of the code is a function there; a negative offset counts as 0, as in the code.
-- Render models src/render.rs: Render.Names the name of a document, Render.Content its bytes. Libraries is what
-- Unicode, the writer of JSON and the one of dates compute. A text that the code cuts inside a character stops it:
-- that is `none`. Render.Safe, Filed and Answers are about names, Render.Headers about the lines of a message.
-- Tree models the tree of nodes of src/state.rs: Tree has the nodes and the operations that the others are made
-- of, Tree.Roots the tree of a new mount, Tree.Home and Tree.Home.Moves the drive of the workspace by keys.
-- Tree.Links, Tree.Linked and Tree.Alike are about how nodes and names agree, Tree.Subtree about removals, Tree.Moved and
-- Tree.Renames about moves, Tree.Routes about paths; Tree.Home.Keys, Walk, Ensure, Upsert and Found follow a key to its
-- file; Tree.Documents has how the documents of a context get their names, Tree.Documents.Views what becomes of
-- the context's directory, Tree.Documents.Groups its folders by kinds and the whole view, and its other modules what
-- is there in the end; Tree.Session has the calls as a step relation.
-- Examples has concrete values of the interfaces, and runs the theorems on them.
--
-- Concurrency: an operation runs under the lock of the mirror. Where the engine gives the lock up, to talk to
-- the hub or to read a file, the step is an operation of the interface `Engine.Client`, which answers
-- with a result and with any state that the other threads may have left. In Blobs and Writes what a
-- thread does under a lock is a step of a step relation.
--
-- Fuel: `inherit` follows earlier jobs for as many rounds as the number of its candidate, and each round has a
-- smaller number; `record_dirs_for`, `parents_from` and `protected_download_allowed` go up the parents of a
-- key for as many rounds as the key has characters, and each parent is shorter; `trim_weak` has as many
-- rounds as its text has characters, and each takes two; a number is printed with 20 digits at most, which
-- 64 bits need; `remove_subtree` and `rekey_home_subtree` go down so many levels, and enough are those that there
-- are; `path_of` has the 256 links of the code, `prune_up` a round for each directory above; `drain_jobs` and
-- `with_retries` have the budget of the code. The listing and the feed end
-- when the hub says so: they run for a number of rounds, with `none` if those did not do. Other loops
-- go through lists.
--
-- Numbers: times, sizes and sequence numbers are natural numbers, without the bound of 64 bits that the code
-- has for them: clocks and counters do not come near it.
--
-- Not modelled: opening and converting the database and the mirror, the watcher, the status file and the
-- logs, `get_range` (nothing calls it), and the parts of the program beside the mirror (the set of contexts and the trees of a workspace, the flushing of buffers, the worker, the
-- command line). Http.Calls and the interface `Engine.Client` stand side by side: the engine's operations also read
-- and write files, which are a parameter.
pub mod Prelude
pub mod Reconcile
pub mod Paths
pub mod Hub
pub mod Http
pub mod Blobs
pub mod Writes
pub mod Render
pub mod Tree
pub mod Protection
pub mod Store
pub mod Local
pub mod Mirror
pub mod Engine
pub mod Examples
