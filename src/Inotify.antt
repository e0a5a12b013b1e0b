-- ===== src/Inotify.antt =====
-- src/inotify.rs: from an inotify event to a pending change.
-- The watches are a map of the papaya crate; `Watches` is the part of it that the code relies on.
pub mod Reports
pub mod EventLoop
pub mod Rounds
pub mod Sample
mod Examples
use filesentry.Common.{
  ℕ, ◌≡◌, Bool, true, false, not, ◌&&◌, ◌||◌, Option, none, some, List, [], ◌∷◌, ◌++◌, ◌>>=◌,
  if◌then◌else◌, ◌==◌,
}
use filesentry.Path.{CanonicalPathBuf, join, as_bytes}
use filesentry.HashTable.{Hashing}
use filesentry.Config.{Filter}
use filesentry.Pending
use filesentry.Pending.{PendingChanges, add_watcher, start_recrawl}
use filesentry.Metadata.{ℤ, pos, negsuc}

-- `rustix::fs::inotify::ReadFlags`, the bits that the code reads.
pub record EventFlags : Type 0 where
  pub queue_overflow : Bool
  pub move_self : Bool
  pub ignored : Bool
  pub delete_self : Bool
  pub unmount : Bool
  pub isdir : Bool
  pub create : Bool
  pub delete : Bool

abbrev pub Watch : Type 0
Watch = ℤ

unfoldable pub is_invalid : Watch → Bool
is_invalid (pos n) = false
is_invalid (negsuc n) = true

pub record InotifyEvent : Type 0 where
  pub wd : Watch
  pub child : List ℕ
  pub flags : EventFlags

pub record WatchMap : Type 1 where
  pub Map : Type 0
  pub get : Map → Watch → Option CanonicalPathBuf
  pub insert : Map → Watch → CanonicalPathBuf → Map
  pub remove : Map → Watch → Map
  pub get-insert_self : (t : Map) (w : Watch) (p : CanonicalPathBuf) → get (insert t w p) w ≡ some p
  pub get-remove_self : (t : Map) (w : Watch) → get (remove t w) w ≡ none

unfoldable pub no_bytes : List ℕ → Bool
no_bytes [] = true
no_bytes (c ∷ cs) = false

unfoldable pub watch_deleted : EventFlags → Bool
watch_deleted flags = flags.ignored || (flags.move_self || (flags.delete_self || flags.unmount))

module _ (H : Hashing) (M : WatchMap) where
  pub record InotifyWatcher : Type 0 where
    pub watches : M.Map
    pub changes : PendingChanges H

  -- An event of a watch that the map does not have.
  unknown_watch : InotifyWatcher → InotifyEvent → InotifyWatcher
  unfolding is_invalid
  unknown_watch self event =
      if is_invalid event.wd || (event.flags.move_self || event.flags.ignored)
      then record self { changes = start_recrawl H self.changes }
      else self

  -- An event of the watched directory itself.
  directory_event : InotifyWatcher → InotifyEvent → CanonicalPathBuf → Option InotifyWatcher
  directory_event self event dir = do
    changes ←
        add_watcher H self.changes dir (record (Pending.empty) { needs_recursive_crawl = true })
    some (record {
      watches = if event.flags.ignored then M.remove self.watches event.wd else self.watches;
      changes = changes;
    })

  -- An event of an entry of the directory.
  child_event : Filter → InotifyWatcher → InotifyEvent → CanonicalPathBuf → Option InotifyWatcher
  child_event filter self event dir =
      let path = join dir.buf event.child in
      if filter (as_bytes path.buf) (some event.flags.isdir) then some self else (do
        changes ← add_watcher H self.changes path (record (Pending.empty) {
          needs_recursive_crawl = event.flags.create || event.flags.delete;
        })
        some (record self { changes = changes }))

  unfoldable pub handle_event : Filter → InotifyWatcher → InotifyEvent → Option InotifyWatcher
  unfolding unknown_watch directory_event child_event watch_deleted no_bytes
  handle_event filter self event =
      if event.flags.queue_overflow
      then some (record self { changes = start_recrawl H self.changes })
      else elim (M.get self.watches event.wd) [
        | none ↦ some (unknown_watch self event)
        | some dir ↦
            if no_bytes event.child || watch_deleted event.flags
            then directory_event self event dir
            else child_event filter self event dir
      ]

  -- `watch_dir`, by what `add_directory_watch` returns: `none` is an error.
  unfoldable pub watch_dir :
      InotifyWatcher → CanonicalPathBuf → Option Watch → InotifyWatcher × Bool
  watch_dir self path none = (self, false)
  watch_dir self path (some watch) =
      (record self { watches = M.insert self.watches watch path }, true)
