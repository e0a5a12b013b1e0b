-- ===== src/Windows.antt =====
-- src/windows.rs: the backend over `ReadDirectoryChangesW`. What the system calls answer are arguments;
-- the calls that are made on handles are a list. The read buffers are the kernel's until a read is done,
-- and enter with its completion.
pub mod Records
pub mod Handles
pub mod Life
pub mod Completions
pub mod Keys
mod Examples
use filesentry.Common.{
  ℕ, Bool, true, false, not, ◌&&◌, ◌||◌, Option, none, some, List, [], ◌∷◌, ◌++◌, length, get_elem?,
  ◌>>=◌, ◌==◌, if◌then◌else◌,
}
use filesentry.Path.{CanonicalPathBuf, path_eq}
use filesentry.Path.Windows.{is_parent_of}
use filesentry.Config.{Filter}
use filesentry.HashTable.{Hashing}
use filesentry.Pending.{PendingChanges, start_recrawl}
use filesentry.Pending.Batches.{add_all}
use filesentry.Resources.{Use, acquired, used, released}
use Records.{Actions, Reports, handle_records}

pub record Root : Type 0 where
  pub path : CanonicalPathBuf
  pub handle : ℕ
  pub event : ℕ
  pub recursive : Bool

pub record WindowsWatcher : Type 0 where
  pub is_shutdown : Bool
  pub iocp : ℕ
  pub roots : List Root

-- `WindowsWatcher::new`, with the completion port that was created.
unfoldable pub new : ℕ → WindowsWatcher
new iocp = record { is_shutdown = false; iocp = iocp; roots = [] }

unfoldable pub covers : CanonicalPathBuf → List Root → Bool
covers path [] = false
covers path (r ∷ roots) =
    (path_eq r.path path || (r.recursive && is_parent_of r.path.buf path.buf)) || covers path roots

-- What the calls of one `watch_dir` answer: the directory's handle, whether it could be bound to the
-- port, the event, and whether the first read could be issued.
pub record Answers : Type 0 where
  pub file : Option ℕ
  pub bound : Bool
  pub event : Option ℕ
  pub read : Bool

-- The key that `watch_dir` binds the next directory with.
abbrev pub key_of : WindowsWatcher → ℕ
key_of self = length self.roots

-- `issue_read`
unfoldable pub issue_read : Root → List Use
issue_read root = used root.handle ∷ used root.event ∷ []

-- A path that is not covered, from the opened directory on. The result is whether it is `Ok`.
unfoldable pub open_root :
    WindowsWatcher → CanonicalPathBuf → Bool → Answers → ℕ → WindowsWatcher × Bool × List Use
unfolding issue_read
open_root self path recursive answers handle =
    let opened = acquired handle ∷ used handle ∷ used self.iocp ∷ [] in
    if not answers.bound
    then (self, false, opened ++ released handle ∷ [])
    else elim answers.event [
      | none ↦ (self, false, opened ++ released handle ∷ [])
      | some event ↦
          let root : Root = record {
            path = path;
            handle = handle;
            event = event;
            recursive = recursive;
          } in
          let armed = opened ++ (acquired event ∷ issue_read root) in
          if answers.read
          then (record self { roots = self.roots ++ root ∷ [] }, true, armed)
          else (self, false, armed ++ released handle ∷ released event ∷ [])
    ]

unfoldable pub watch_dir :
    WindowsWatcher → CanonicalPathBuf → Bool → Answers → WindowsWatcher × Bool × List Use
unfolding covers open_root
watch_dir self path recursive answers =
    if covers path self.roots then (self, true, []) else elim answers.file [
      | none ↦ (self, false, [])
      | some handle ↦ open_root self path recursive answers handle
    ]

-- `cancelled` says for a root whether `CancelIoEx` found a read to cancel, which is then waited for.
unfoldable pub close_roots : List Root → (Root → Bool) → List Use
close_roots [] cancelled = []
close_roots (r ∷ roots) cancelled =
    let closed = released r.handle ∷ released r.event ∷ close_roots roots cancelled in
    used r.handle ∷ (if cancelled r then used r.handle ∷ used r.event ∷ closed else closed)

unfoldable pub shutdown : WindowsWatcher → (Root → Bool) → WindowsWatcher × List Use
unfolding close_roots
shutdown self cancelled = if self.is_shutdown then (self, []) else (
  record self { is_shutdown = true; roots = [] },
  used self.iocp ∷ (close_roots self.roots cancelled ++ released self.iocp ∷ []),
)

-- `Drop`
unfoldable pub drop : WindowsWatcher → (Root → Bool) → WindowsWatcher × List Use
unfolding shutdown
drop self cancelled = if self.is_shutdown then (self, []) else shutdown self cancelled

-- What `GetQueuedCompletionStatus` reports: a failure, with or without the read that failed, or the
-- key of a root and the bytes that were written into its buffer.
pub data Completion : Type 0 where
  failed : Bool → Completion
  completed : ℕ → List ℕ → Completion

unfoldable pub is_overflow : List ℕ → Bool
is_overflow [] = true
is_overflow (b ∷ bytes) = false

-- The root is read again if it is still there.
unfoldable pub rearm : List Root → ℕ → List Use
unfolding issue_read
rearm roots key = elim (get_elem? roots key) [ none ↦ [] | some root ↦ issue_read root ]

module _ (H : Hashing) where
  -- What a round of `completion_loop` leaves: whether the loop goes on, the pending changes, whether the
  -- worker was woken, and the calls on handles after the wait at the port (`Life.round_calls` has both).
  pub record Round : Type 0 where
    pub goes_on : Bool
    pub changes : PendingChanges H
    pub notified : Bool
    pub calls : List Use

  unfoldable pub idle : Bool → PendingChanges H → Round
  idle goes_on changes = record {
    goes_on = goes_on;
    changes = changes;
    notified = false;
    calls = [];
  }

  unfoldable pub recrawls : PendingChanges H → List Use → Round
  recrawls changes calls = record {
    goes_on = true;
    changes = start_recrawl H changes;
    notified = true;
    calls = calls;
  }

  -- One round of `completion_loop`; `none` is a panic. While the records are handled the roots are not
  -- locked: `later` are the roots after that.
  unfoldable pub completion_round :
      Actions → Filter → WindowsWatcher → List Root → PendingChanges H → Completion → Option Round
  unfolding idle recrawls rearm is_overflow
  completion_round actions filter self later changes (failed has_read) = some (
      if self.is_shutdown
      then idle false changes
      else if has_read
      then recrawls changes []
      else idle true changes)
  completion_round actions filter self later changes (completed key bytes) =
      if self.is_shutdown then some (idle false changes) else elim (get_elem? self.roots key) [
        | none ↦ some (idle true changes)
        | some root ↦
            if is_overflow bytes then some (recrawls changes (rearm self.roots key)) else (do
              reports ← handle_records actions filter root.path bytes
              changes' ← add_all H changes reports
              some (record {
                goes_on = true;
                changes = changes';
                notified = true;
                calls = rearm later key;
              }))
      ]
