-- ===== src/Lib.antt =====
-- filesentry: a file watcher that keeps a picture of the watched directories.
--
-- A backend (inotify on linux, FSEvents on macOS, `ReadDirectoryChangesW` on windows) turns what the
-- kernel reports into a queue of changed paths. A worker thread waits for that queue, looks at the
-- paths with `lstat`, compares them with an in-memory tree and collects an event for each file that
-- differs. When nothing has changed for a while, the events, one for each path, go to the handlers of
-- the user.
--
-- The files and what they model:
--   * Common: tests on bytes, lists over the native numbers, and `Option` as a result or a panic.
--   * Path (src/path.rs): `CannonicalPath` is its bytes with the NUL terminator, `CanonicalPathBuf` a
--     record of them. `cmp`, `rank`, `strip_nul`, `is_parent_of`, `parent`, `join`, `push` and `pop`
--     have the names of the code. Path/Strings has the C strings that system calls get. Path/Bytes,
--     Order, Subtree and Names hold the lemmas.
--   * HashTable: the part of hashbrown's `HashTable` and `DefaultHashBuilder` that the crate calls, as
--     the record `Hashing` with what the documentation says. A search calls its closure on some of the
--     stored indices, all of those with the hash among them. HashTable/Index and Keyed show that a table
--     of indices into a list finds the index of a path; the debouncer, the queue and the tree share it.
--   * Events (src/events.rs): `EventDebouncer`, with the match of `add` as `merge`.
--   * Pending (src/pending.rs): `PendingChanges`, with the method `recrawl` as `start_recrawl`, and in
--     Pending/Lock the waits of `PendingChangesLock`.
--   * Config (src/config.rs): `Filter::ignore_path_rec` and the filter `()`.
--   * Metadata (src/metadata.rs): `Metadata::for_path` on unix, from the result of `lstat`, and in
--     Metadata/Windows on windows.
--   * Tree (src/tree.rs): `FileTree`. Tree/Change is `apply_change`, with its branches as `refresh`,
--     `vanish` and `discover`, and Tree/Change/Total all of them; Tree/Roots `add`; Tree/Delete
--     `delete_rec`; Tree/Crawl `crawl` and `crawl_root`; Tree/Transaction `apply_transaction`.
--     Tree/Valid is the invariant, Tree/Grow how it is kept when a node is added, and the Sizes files
--     by how much an operation may grow the tree. Tree/Crawl/Leaving, Entering, Visited, Ends and RootEnds
--     follow a crawl, Tree/Change/Parents the search for a parent.
--   * Worker (src/worker.rs): `process_notifications`, and one round of the loop of `run`. Worker/Orderly
--     is what the worker keeps in order, Notified and Examined the halves of a round, Roots and
--     Sorted the order of the roots.
--   * Watcher (src/lib.rs, src/worker.rs): the state that the threads share, the calls of the user, and
--     `wait_for_changes`. `wait_step` is one step of a wait at the queue's condition variable, so that
--     other threads' calls can fall between two of them; a wake-up without a cause, which the system may
--     make, and the end of a timed wait are not steps. Watcher/Wakeup has the lemmas.
--   * Backend (src/backend.rs): the trait as a record of operations and laws, with the calls that the
--     watcher and its drop guard make; Backend/Native has the three backends as such records.
--   * Inotify (src/inotify.rs, src/inotify/sys.rs): `handle_event` and `watch_dir`; Inotify/EventLoop is
--     `event_loop` with its closures, one round at a time, `shutdown` and `refresh_config`.
--   * FsEvent (src/fsevent.rs): `rebuild_stream` in its parts, `watch_dir`, `shutdown`, `Drop` and the
--     callback. FsEvent/Streams and Life follow what is taken from the system, Roots and Covered what the
--     stream covers, Batches and Separators what a batch of events makes pending.
--   * Windows (src/windows.rs): `watch_dir`, `shutdown`, `Drop` and a round of `completion_loop`;
--     Windows/Records is `handle_records` down to the bytes. Windows/Handles and Life follow the handles,
--     Keys and Completions the reads.
--   * Resources: calls on what the operating system hands out, in order if nothing is used or given back
--     that is not held. Pending/Batches is a run of `add_watcher` calls, which the backends share.
-- The Sample files instantiate the parameters, and the Examples files apply the results to inputs.
--
-- Conventions. A function that can panic returns an `Option`, and `none` is the panic: an index out of
-- range, a failed assertion or an `unwrap`. The closures `emit_event` and `add_watch` are lists of what
-- they are called with, in order. Ids are natural numbers, with `none_id` for `u32::MAX` and the bounds
-- of the casts to `u32` written out. Each `lstat` call is one value of a parameter, numbered by a clock,
-- so other processes may change the files between any two calls.
--
-- Loops. `ignore_path_rec` runs on the length of the path, since a parent is shorter. The crawls
-- run on `remaining` of the walk, which each `next` makes smaller; the loop of a transaction on the
-- number of its changes, of which each round takes at least one (Tree/Crawl/Rounds and
-- Tree/Transaction/Rounds). `delete_rec` runs on the entries of the directories of its nodes
-- (Tree/Delete/Ends). `handle_records` runs on the length of the buffer, since each round moves on
-- by a byte at least. The event loop and the life of a watcher run on the list of what happens.
--
-- The backends. What a system call answers is an argument, so each way in which it can fail is
-- covered, and the calls on handles, streams, strings and boxes are a list of what is acquired,
-- used and released. What the kernel writes into a read buffer comes with the completion of the
-- read.
--
-- Not modelled: the threads of src/lib.rs and the stubs for platforms without a backend, logging, the
-- command line example, and of src/path.rs for windows what its backend does not use. The crates memchr,
-- hashbrown, papaya, walkdir, rustix, mio and the bindings of the operating systems enter as parameters or
-- as the answers of their calls.
pub mod Common
pub mod Resources
pub mod Path
pub mod HashTable
pub mod Events
pub mod Pending
pub mod Config
pub mod Metadata
pub mod Tree
pub mod Worker
pub mod Watcher
pub mod Backend
pub mod Inotify
pub mod FsEvent
pub mod Windows
