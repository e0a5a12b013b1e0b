-- ===== src/Inotify/Reports.antt =====
-- What the worker learns of an inotify event.
use filesentry.Common.{
  ◌≡◌, ◌<◌, ◌^◌, Bool, true, false, ◌||◌, none, some, arith, length, if◌then◌else◌, inl, inr,
  Bool-cases, Option-cases, ◌≤◌, ◌+◌,
}
use filesentry.Path.{CanonicalPathBuf, join, path_eq, as_bytes}
use filesentry.HashTable.{Hashing}
use filesentry.Config.{Filter}
use filesentry.Pending
use filesentry.Pending.{PendingChanges, add_watcher, start_recrawl}
use filesentry.Pending.View
use filesentry.Pending.View.{start_recrawl-IsValid, add_watcher_lem, pending, report}
use filesentry.Inotify.{
  InotifyEvent, InotifyWatcher, WatchMap, handle_event, watch_deleted, no_bytes, is_invalid,
}

module _ (H : Hashing) (M : WatchMap) where
  -- The events after which the backend cannot say what changed: the kernel dropped events, or the
  -- event is of an unknown watch that is invalid, moved or removed.
  unfoldable pub loses_track : InotifyWatcher H M → InotifyEvent → Bool
  unfolding is_invalid
  loses_track w event = event.flags.queue_overflow || elim (M.get w.watches event.wd) [
    | none ↦ is_invalid event.wd || (event.flags.move_self || event.flags.ignored)
    | some dir ↦ false
  ]

module _ (H : Hashing) (M : WatchMap) (filter : Filter) (w : InotifyWatcher H M)
    (v : View.IsValid H w.changes) (event : InotifyEvent) where
  unknown :
      event.flags.queue_overflow ≡ false
      → M.get w.watches event.wd ≡ none
      → (w' : InotifyWatcher H M) × (handle_event H M filter w event ≡ some w')
        × View.IsValid H w'.changes
        × (w'.changes.recrawl ≡ (loses_track H M w event || w.changes.recrawl))
        × (length w'.changes.changes ≤ length w.changes.changes + 1)
  unfolding handle_event loses_track start_recrawl
  unknown q e =
      elim (Bool-cases (is_invalid event.wd || (event.flags.move_self || event.flags.ignored))) [
        | inl lost ↦ (
          record w { changes = start_recrawl H w.changes },
          ground arith,
          start_recrawl-IsValid H w.changes,
          ground arith,
          omega arith,
        )
        | inr stale ↦ (w, ground arith, v, ground arith, omega arith)
      ]

  known :
      (dir : CanonicalPathBuf)
      → event.flags.queue_overflow ≡ false
      → M.get w.watches event.wd ≡ some dir
      → length w.changes.changes < 2 ^ 32
      → (w' : InotifyWatcher H M) × (handle_event H M filter w event ≡ some w')
        × View.IsValid H w'.changes
        × (w'.changes.recrawl ≡ (loses_track H M w event || w.changes.recrawl))
        × (length w'.changes.changes ≤ length w.changes.changes + 1)
  unfolding handle_event loses_track
  known dir q e small = elim (Bool-cases (no_bytes event.child || watch_deleted event.flags)) [
    | inl own ↦
        let (c, added, valid, keeps, few, _) =
          add_watcher_lem H w.changes v dir
            (record (Pending.empty) { needs_recursive_crawl = true }) small in
        (
          record {
            watches = if event.flags.ignored then M.remove w.watches event.wd else w.watches;
            changes = c;
          },
          ground (arith, added),
          valid,
          ground (arith, keeps),
          few,
        )
    | inr child ↦
        let path = join dir.buf event.child in
        elim (Bool-cases (filter (as_bytes path.buf) (some event.flags.isdir))) [
          | inl ignored ↦ (w, ground arith, v, ground arith, omega arith)
          | inr seen ↦
              let (c, added, valid, keeps, few, _) =
                add_watcher_lem H w.changes v path
                  (record (Pending.empty) {
                    needs_recursive_crawl = event.flags.create || event.flags.delete;
                  })
                  small in
              (record w { changes = c }, ground (arith, added), valid, ground (arith, keeps), few)
        ]
  ]

  -- Whatever the event, on a valid queue of fewer than 2^32 changes `handle_event` does not panic and
  -- keeps the queue valid. Afterwards a recrawl is pending exactly if one was before or the event is
  -- one after which the backend has lost track. It adds at most one change.
  pub handle_event-IsValid :
      length w.changes.changes < 2 ^ 32
      → (w' : InotifyWatcher H M) × (handle_event H M filter w event ≡ some w')
        × View.IsValid H w'.changes
        × (w'.changes.recrawl ≡ (loses_track H M w event || w.changes.recrawl))
        × (length w'.changes.changes ≤ length w.changes.changes + 1)
  unfolding handle_event loses_track start_recrawl
  handle_event-IsValid small = elim (Bool-cases event.flags.queue_overflow) [
    | inl q ↦ (
      record w { changes = start_recrawl H w.changes },
      ground arith,
      start_recrawl-IsValid H w.changes,
      ground arith,
      omega arith,
    )
    | inr q ↦ elim (Option-cases (M.get w.watches event.wd)) [
      | inl e ↦ unknown q e
      | inr (dir, e) ↦ known dir q e small
    ]
  ]

  -- An event of an entry of a watched directory that is not ignored, with no recrawl pending, makes
  -- the entry's path pending, from the watcher, and asks for a crawl of it if the entry was created or
  -- deleted. No other path's flags change.
  pub handle_event_child :
      (dir : CanonicalPathBuf)
      → length w.changes.changes < 2 ^ 32
      → event.flags.queue_overflow ≡ false
      → M.get w.watches event.wd ≡ some dir
      → no_bytes event.child ≡ false
      → watch_deleted event.flags ≡ false
      → filter (as_bytes (join dir.buf event.child).buf) (some event.flags.isdir) ≡ false
      → w.changes.recrawl ≡ false
      → (w' : InotifyWatcher H M) × (handle_event H M filter w event ≡ some w')
        × ((q : CanonicalPathBuf)
            → pending q w'.changes.changes ≡ (
                if path_eq (join dir.buf event.child) q
                then some (
                    report
                      (pending (join dir.buf event.child) w.changes.changes)
                      (record (Pending.empty) {
                        needs_recursive_crawl = event.flags.create || event.flags.delete;
                      }))
                else pending q w.changes.changes))
  unfolding handle_event
  handle_event_child dir small q e named live seen quiet =
      let (c, added, valid, keeps, _, view) =
        add_watcher_lem H w.changes v (join dir.buf event.child)
          (record (Pending.empty) {
            needs_recursive_crawl = event.flags.create || event.flags.delete;
          })
          small in
      (record w { changes = c }, ground (arith, added), λ r. ground (arith, view r))
