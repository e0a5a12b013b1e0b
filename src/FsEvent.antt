-- ===== src/FsEvent.antt =====
-- src/fsevent.rs: the backend over one FSEvents stream. What the system calls answer are arguments; the
-- calls that are made on what the system hands out (queue, streams, strings, arrays) and on the boxed
-- `CallbackInfo` are a list. A released stream calls `release_callback`, which frees the box.
pub mod Streams
pub mod Life
pub mod Batches
pub mod Roots
pub mod Separators
pub mod Covered
mod Examples
use filesentry.Common.{
  ℕ, Bool, true, false, not, ◌&&◌, ◌||◌, Option, none, some, List, [], ◌∷◌, ◌++◌, ◌%◌, ◌==◌, ◌>>=◌,
  if◌then◌else◌, get_last?, drop_last, map,
}
use filesentry.Path.{
  CanonicalPathBuf, path_eq, is_parent_of, as_bytes, assert_canonicalized, path_separator,
}
use filesentry.Config.{Filter, ignore_path_rec}
use filesentry.HashTable.{Hashing}
use filesentry.Pending
use filesentry.Pending.{PendingChanges, add_watcher, start_recrawl}
use filesentry.Resources.{Use, acquired, used, released}

-- A stream that runs: its reference, the box that it owns, the paths and the id that it was made with.
pub record Stream : Type 0 where
  pub ref : ℕ
  pub info : ℕ
  pub paths : List CanonicalPathBuf
  pub since_when : ℕ

pub record FsEventWatcher : Type 0 where
  pub is_shutdown : Bool
  pub roots : List CanonicalPathBuf
  pub stream : Option Stream
  pub queue : ℕ
  pub last_event_id : ℕ

-- `FsEventWatcher::new`, with the dispatch queue that was created.
unfoldable pub new : ℕ → FsEventWatcher
new queue = record {
  is_shutdown = false;
  roots = [];
  stream = none;
  queue = queue;
  last_event_id = 0;
}

-- The strings of `cf_paths`: `string` is what `CFStringCreateWithBytes` answers for a path, and there
-- is none for a path that is not UTF-8.
unfoldable pub cf_strings :
    (CanonicalPathBuf → Option ℕ) → List CanonicalPathBuf → List (CanonicalPathBuf × ℕ)
cf_strings string [] = []
cf_strings string (p ∷ paths) =
    let rest = cf_strings string paths in elim (string p) [ none ↦ rest | some s ↦ (p, s) ∷ rest ]

abbrev pub each : (ℕ → Use) → List (CanonicalPathBuf × ℕ) → List Use
each use' strings = map (λ (x : CanonicalPathBuf × ℕ). use' x.1) strings

-- `cf_paths`: the paths in the array, and the calls; `array` is the array that is created.
unfoldable pub cf_paths :
    (CanonicalPathBuf → Option ℕ) → ℕ → List CanonicalPathBuf → List CanonicalPathBuf × List Use
unfolding cf_strings
cf_paths string array paths =
    let strings = cf_strings string paths in
    (
      map (λ (x : CanonicalPathBuf × ℕ). x.0) strings,
      each acquired strings ++ (each used strings ++ (acquired array ∷ each released strings)),
    )

-- What the calls of one `rebuild_stream` answer: the strings, the array, the current event id, the box,
-- the stream, and whether it starts.
pub record Answers : Type 0 where
  pub string : CanonicalPathBuf → Option ℕ
  pub array : ℕ
  pub current_id : ℕ
  pub info : ℕ
  pub created : Option ℕ
  pub started : Bool

-- Stop, invalidate and release. To invalidate a stream takes it off its dispatch queue.
unfoldable pub stop_stream : ℕ → Option Stream → List Use
stop_stream queue none = []
stop_stream queue (some s) =
    used s.ref ∷ used s.ref ∷ used queue ∷ released s.ref ∷ released s.info ∷ []

unfoldable pub no_roots : List CanonicalPathBuf → Bool
no_roots [] = true
no_roots (r ∷ roots) = false

unfoldable pub resume_id : ℕ → ℕ → ℕ
resume_id last current = if last == 0 then current else last

-- The calls of `rebuild_stream` up to the creation of the stream, and those after it.
unfoldable pub creating : FsEventWatcher → Answers → List Use → List Use
unfolding cf_paths
creating self answers rest =
    (cf_paths answers.string answers.array self.roots).1
    ++ (acquired answers.info ∷ used answers.array ∷ rest)

unfoldable pub starting : FsEventWatcher → Answers → ℕ → List Use → List Use
starting self answers ref rest =
    acquired ref ∷ released answers.array ∷ used ref ∷ used self.queue ∷ used ref ∷ rest

-- The stream over all roots, from `cf_paths` on. The result is whether it is `Ok`.
unfoldable pub create_stream : FsEventWatcher → Answers → FsEventWatcher × Bool × List Use
unfolding cf_paths resume_id creating starting
create_stream self answers =
    let since_when = resume_id self.last_event_id answers.current_id in
    let resumed = record self { last_event_id = since_when } in
    elim answers.created [
      | none ↦ (
        resumed,
        false,
        creating self answers (released answers.array ∷ released answers.info ∷ []),
      )
      | some ref ↦
          if answers.started
          then (
            record resumed {
              stream = some (record {
                ref = ref;
                info = answers.info;
                paths = (cf_paths answers.string answers.array self.roots).0;
                since_when = since_when;
              });
            },
            true,
            creating self answers (starting self answers ref []),
          )
          else (
            resumed,
            false,
            creating self answers (
                starting self answers ref
                  (used ref ∷ used self.queue ∷ released ref ∷ released answers.info ∷ [])),
          )
    ]

unfoldable pub rebuild_stream : FsEventWatcher → Answers → FsEventWatcher × Bool × List Use
unfolding stop_stream no_roots create_stream
rebuild_stream self answers =
    let stopped = record self { stream = none } in
    let stop = stop_stream self.queue self.stream in
    if no_roots self.roots
    then (stopped, true, stop)
    else (let (made, ok, calls) = create_stream stopped answers in (made, ok, stop ++ calls))

unfoldable pub covers : CanonicalPathBuf → List CanonicalPathBuf → Bool
covers path [] = false
covers path (r ∷ roots) = (is_parent_of r.buf path.buf || path_eq r path) || covers path roots

unfoldable pub watch_dir :
    FsEventWatcher → CanonicalPathBuf → Answers → FsEventWatcher × Bool × List Use
unfolding covers rebuild_stream
watch_dir self path answers =
    if self.is_shutdown
    then (self, true, [])
    else if covers path self.roots
    then (self, true, [])
    else rebuild_stream (record self { roots = self.roots ++ path ∷ [] }) answers

unfoldable pub shutdown : FsEventWatcher → FsEventWatcher × List Use
unfolding stop_stream
shutdown self =
    (record self { is_shutdown = true; stream = none }, stop_stream self.queue self.stream)

-- `Drop`
unfoldable pub drop : FsEventWatcher → List Use
unfolding shutdown
drop self = (if self.is_shutdown then [] else (shutdown self).1) ++ released self.queue ∷ []

-- An event of the callback: the path, the flags and the id.
pub record Event : Type 0 where
  pub path : List ℕ
  pub flags : ℕ
  pub id : ℕ

-- `flag & K_FS_EVENT_STREAM_EVENT_FLAG_MUST_SCAN_SUBDIRS`, which is the lowest bit.
unfoldable pub must_scan : Event → Bool
must_scan event = not (event.flags % 2 == 0)

-- `ids.iter().rev().find(|&&id| id != 0)`
unfoldable pub newest_id : List Event → Option ℕ
newest_id [] = none
newest_id (event ∷ events) =
    let later = newest_id events in
    elim later [ some id ↦ some id | none ↦ if event.id == 0 then none else some event.id ]

unfoldable pub strip_trailing_sep : List ℕ → List ℕ
strip_trailing_sep [] = []
strip_trailing_sep (b ∷ []) = b ∷ []
strip_trailing_sep (b ∷ c ∷ path) = elim (get_last? (b ∷ c ∷ path)) [
  | none ↦ b ∷ c ∷ path
  | some last ↦ if last == path_separator then drop_last (b ∷ c ∷ path) else b ∷ c ∷ path
]

module _ (H : Hashing) (filter : Filter) where
  -- The loop of `process_events`; `none` is a panic.
  unfoldable pub process_events : PendingChanges H → List Event → Option (PendingChanges H)
  unfolding must_scan strip_trailing_sep
  process_events changes [] = some changes
  process_events changes (event ∷ events) =
      if must_scan event
      then some (start_recrawl H changes)
      else (let path = assert_canonicalized (strip_trailing_sep event.path) in
          if ignore_path_rec filter (as_bytes path.buf) (some true)
          then process_events changes events
          else (do
            changes' ←
                add_watcher H changes path
                  (record (Pending.empty) { needs_non_recursive_crawl = true })
            process_events changes' events))

  -- What the callback touches of the watcher, through the `CallbackInfo`.
  pub record Shared : Type 0 where
    pub changes : PendingChanges H
    pub last_event_id : ℕ
    pub notified : Bool

  unfoldable pub callback : Shared → List Event → Option Shared
  unfolding newest_id process_events
  callback info [] = some info
  callback info (event ∷ events) =
      let id : ℕ = elim (newest_id (event ∷ events)) [ none ↦ info.last_event_id | some id ↦ id ] in
      do
        changes ← process_events info.changes (event ∷ events)
        some (record { changes = changes; last_event_id = id; notified = true })
