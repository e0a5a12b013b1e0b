-- ===== src/Worker.antt =====
-- src/worker.rs: the thread that owns the tree. One round of its loop is a function of what it finds:
-- how the wait ended, the shutdown flag, the new roots and the filter. `none` is a panic.
pub mod Roots
pub mod Known
pub mod Sorted
pub mod Orderly
pub mod Notified
pub mod Examined
pub mod Rounds
mod Examples
mod RoundExample
use filesentry.Common.{
  ℕ, ◌+◌, Bool, true, false, Option, none, some, List, [], ◌∷◌, ◌++◌, ◌>>=◌, if◌then◌else◌,
  Ordering,
}
use filesentry.Path.{CanonicalPathBuf, Memrchr, cmp, is_parent_of, as_bytes}
use filesentry.HashTable.{Hashing}
use filesentry.Config.{Filter, ignore_path_rec}
use filesentry.Events
use filesentry.Events.{Event, EventDebouncer}
use filesentry.Events.Lifecycle.{add_all}
use filesentry.Metadata.{for_path}
use filesentry.Pending
use filesentry.Pending.{PendingChanges}
use filesentry.Tree
use filesentry.Tree.{FileTree, at_id}
use filesentry.Tree.Roots.{add_root}
use filesentry.Tree.Crawl.{Walker, Stats, Crawling, crawl, crawl_root}
use filesentry.Tree.Transaction.{apply_transaction}

-- `lib.rs`: a root to add. The callback is called with what `Worker.notified` says.
pub record AddRoot : Type 0 where
  pub path : CanonicalPathBuf
  pub recursive : Bool

-- The roots: a node and whether it is watched recursively.
abbrev pub Roots : Type 0
Roots = List (ℕ × Bool)

unfoldable pub is_lt : Ordering → Bool
is_lt Ordering.lt = true
is_lt other = false

module _ (H : Hashing) where
  pub record Worker : Type 0 where
    pub pending_changes : PendingChanges H
    pub events : EventDebouncer H
    pub files : Crawling H
    pub roots : Roots
    -- the handlers that are left, by number
    pub handlers : List ℕ
    -- the calls of the roots' callbacks
    pub notified : List (CanonicalPathBuf × Bool)

  -- `Worker::new`
  unfoldable pub new : List ℕ → Worker
  unfolding Events.new
  new handlers = record {
    pending_changes = Pending.new H;
    events = Events.new H;
    files = record { tree = Tree.new H; work_stack = []; emitted = []; watches = []; clock = 0 };
    roots = [];
    handlers = handlers;
    notified = [];
  }

  -- `partition_point`: the roots whose path is before the new one, and the others. The standard library
  -- asks for roots that are partitioned so, as sorted ones are, and its result is unspecified for others;
  -- here the first root that is not before the new one splits them.
  unfoldable pub split_roots : FileTree H → CanonicalPathBuf → Roots → Option (Roots × Roots)
  unfolding at_id is_lt
  split_roots tree path [] = some ([], [])
  split_roots tree path ((id, recursive) ∷ roots) = do
    node ← at_id tree.nodes id
    if is_lt (cmp node.path.buf path.buf)
        then (do
          (before, others) ← split_roots tree path roots
          some ((id, recursive) ∷ before, others))
        else some ([], (id, recursive) ∷ roots)

  -- Of the roots right behind the new recursive one, those below it go, unless they are ignored.
  unfoldable pub prune_roots : FileTree H → Filter → CanonicalPathBuf → Roots → Option Roots
  unfolding at_id
  prune_roots tree filter path [] = some []
  prune_roots tree filter path ((id, recursive) ∷ roots) = do
    node ← at_id tree.nodes id
    if is_parent_of path.buf node.path.buf
        then (do
          kept ← prune_roots tree filter path roots
          some (
              if ignore_path_rec filter (as_bytes node.path.buf) (some true)
              then (id, recursive) ∷ kept
              else kept))
        else some ((id, recursive) ∷ roots)

  unfoldable pub insert_root :
      FileTree H → Filter → CanonicalPathBuf → Bool → ℕ → Roots → Option Roots
  unfolding split_roots prune_roots
  insert_root tree filter path recursive id roots = do
    (before, others) ← split_roots tree path roots
    kept ← if recursive then prune_roots tree filter path others else some others
    some (before ++ (id, recursive) ∷ kept)

-- `watch_ok` is whether `watch_dir` of the backend succeeds; `handle` is what the handler of a number
-- returns for some events.
module _ (H : Hashing) (m : Memrchr) (W : Walker) (stats : Stats)
    (watch_ok : CanonicalPathBuf → Bool → Bool) (handle : ℕ → List Event → Bool) where
  unfoldable pub process_root : Filter → Worker H → AddRoot → Option (Worker H)
  unfolding add_root crawl_root insert_root for_path
  process_root filter self root = do
    (tree, added) ←
        add_root H m self.files.tree root.path root.recursive
          (for_path (stats self.files.clock root.path))
    let looked : Crawling H = record (self.files) { tree = tree; clock = self.files.clock + 1 }
    elim added [
      | none ↦
          some (record self { files = looked; notified = self.notified ++ (root.path, true) ∷ [] })
      | some node ↦ do
        let watched : Crawling H = record looked { watches = looked.watches ++ root.path ∷ [] }
        if watch_ok root.path root.recursive
            then (do
              files ← crawl_root H m W stats filter watched node root.recursive
              roots ← insert_root H files.tree filter root.path root.recursive node self.roots
              some (record self {
                files = files;
                roots = roots;
                notified = self.notified ++ (root.path, true) ∷ [];
              }))
            else some (record self {
              files = watched;
              notified = self.notified ++ (root.path, false) ∷ [];
            })
    ]

  unfoldable pub process_notifications : Filter → Worker H → List AddRoot → Option (Worker H)
  unfolding process_root
  process_notifications filter self [] = some self
  process_notifications filter self (root ∷ roots) = do
    self' ← process_root filter self root
    process_notifications filter self' roots

  unfoldable pub retain : List Event → List ℕ → List ℕ
  retain events [] = []
  retain events (h ∷ handlers) =
      let rest = retain events handlers in if handle h events then h ∷ rest else rest

  unfoldable pub crawl_roots : Filter → Crawling H → Roots → Option (Crawling H)
  unfolding crawl
  crawl_roots filter files [] = some files
  crawl_roots filter files ((id, recursive) ∷ roots) = do
    files' ← crawl H m W stats filter files id
    crawl_roots filter files' roots

  -- The closure `|path, ty| self.events.add(path, ty)`, over all that was emitted.
  unfoldable pub deliver : Worker H → Crawling H → PendingChanges H → Option (Worker H)
  unfolding add_all
  deliver self files left = do
    events ← add_all H self.events files.emitted
    some (record self {
      events = events;
      files = record files { emitted = [] };
      pending_changes = left;
    })

  -- What a round without a timeout does to the files: all roots are crawled, or the pending changes are
  -- applied.
  unfoldable pub examine : Filter → Worker H → Option (Crawling H × PendingChanges H)
  unfolding crawl_roots apply_transaction Pending.take_recrawl
  examine filter self =
      let (recrawl, left) = Pending.take_recrawl H self.pending_changes in
      if recrawl
      then (do files ← crawl_roots filter self.files self.roots; some (files, left))
      else apply_transaction H m W stats filter self.files left

  -- What a round does after the wait, if there is no shutdown. The wait has swapped the pending
  -- changes in; `settled` says that it timed out. The worker, and the events for the handlers.
  unfoldable pub round :
      Filter → Bool → List AddRoot → Worker H → Option (Worker H × Option (List Event))
  unfolding process_notifications retain examine deliver Events.take
  round filter settled notifications self = do
    ready ← process_notifications filter self notifications
    let (events, emptied) = Events.take H ready.events
    if settled
        then some (
          record ready { events = emptied; handlers = retain events ready.handlers },
          some events,
        )
        else (do
          (files, left) ← examine filter ready
          done ← deliver ready files left
          some (done, none))
