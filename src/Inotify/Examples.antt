-- ===== src/Inotify/Examples.antt =====
-- Events of src/inotify.rs, with the watches in a list.
use filesentry.Common.{◌≡◌, refl, true, false, ◌||◌, some, List, [], ◌∷◌, arith, length, ◌≤◌}
use filesentry.Path.{terminated}
use filesentry.HashTable.Sample.{sample}
use filesentry.Config.{ignore_git}
use filesentry.Metadata.{pos, negsuc}
use filesentry.Pending
use filesentry.Pending.{PendingChanges}
use filesentry.Pending.View
use filesentry.Pending.View.{pending, report, new-IsValid}
use filesentry.Inotify.{EventFlags, InotifyEvent, InotifyWatcher, handle_event}
use filesentry.Inotify.EventLoop.{
  Token, inotify, message, ready, Reads, Round, running, stopped, Loop, handle_events, polled_round,
  event_loop, shutdown,
}
use filesentry.Inotify.Rounds.{reads_events, polled_round-IsValid, shutdown-event_loop}
use filesentry.Inotify.Sample.{watch_list}
use filesentry.Inotify.Reports.{loses_track, handle_event-IsValid}

abbrev no_event_flags : EventFlags
no_event_flags = record {
  queue_overflow = false;
  move_self = false;
  ignored = false;
  delete_self = false;
  unmount = false;
  isdir = false;
  create = false;
  delete = false;
}

abbrev watcher : InotifyWatcher sample watch_list
watcher = record {
  watches = (pos 1, terminated (47 ∷ 100 ∷ [])) ∷ [];
  changes = Pending.new sample;
}

abbrev created : InotifyEvent
created = record { wd = pos 1; child = 97 ∷ []; flags = record no_event_flags { create = true } }

-- The queue of the kernel overflowed.
abbrev overflow : InotifyEvent
overflow = record {
  wd = negsuc 0;
  child = [];
  flags = record no_event_flags { queue_overflow = true };
}

handle_event-IsValid_example :
    (w : InotifyWatcher sample watch_list) × (handle_event sample watch_list ignore_git watcher
        overflow
      ≡ some w)
    × View.IsValid sample w.changes
    × (w.changes.recrawl ≡ (loses_track sample watch_list watcher overflow || false))
    × (length w.changes.changes ≤ 1)
handle_event-IsValid_example =
    handle_event-IsValid sample watch_list ignore_git watcher (new-IsValid sample) overflow
      (omega arith)

-- The event, and a message, in a round; the configuration has the filter for git.
abbrev loop : Loop sample watch_list
loop = record {
  watcher = watcher;
  is_shutdown = false;
  filter = λ path is_dir. true;
  woken = true;
  notified = false;
}

abbrev reads : Reads
reads = record { events = created ∷ []; fails = false }

abbrev tokens : List Token
tokens = message ∷ inotify ∷ []

abbrev round : Round
round = record { polled = ready tokens; config_filter = ignore_git; reads = reads }

polled_round-IsValid_example :
    (loop' : Loop sample watch_list) × (polled_round sample watch_list loop round tokens
      ≡ some (running, loop'))
    × View.IsValid sample loop'.watcher.changes
    × (reads_events sample watch_list loop round tokens ≡ true
        → handle_events sample watch_list ignore_git watcher (created ∷ []) ≡ some loop'.watcher)
    × (reads_events sample watch_list loop round tokens ≡ false → loop'.watcher ≡ watcher)
    × (reads_events sample watch_list loop round tokens ≡ true
        → false ≡ false
        → loop'.notified ≡ true)
polled_round-IsValid_example =
    polled_round-IsValid sample watch_list loop round tokens (new-IsValid sample) tt (omega arith)

shutdown-event_loop_example :
    (loop' : Loop sample watch_list) × (event_loop sample watch_list
        (shutdown sample watch_list loop)
        (round ∷ round ∷ [])
      ≡ some (stopped, loop'))
    × (loop'.notified ≡ true)
    × (loop'.is_shutdown ≡ true)
    × (loop'.watcher ≡ watcher)
shutdown-event_loop_example =
    shutdown-event_loop sample watch_list loop tokens ignore_git reads (round ∷ []) tt
      (λ woken. refl)
