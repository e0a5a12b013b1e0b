-- ===== src/Backend/Examples.antt =====
-- A stream of FSEvents, shut down by a guard.
use filesentry.Common.{◌≡◌, ◌↔◌, ◌⊎◌, In, true, some, List, [], ◌∷◌}
use filesentry.Path.{terminated}
use filesentry.Watcher.{shutdown_guard}
use filesentry.FsEvent
use filesentry.Backend.{Call, watch, guard_dropped, run}
use filesentry.Backend.Native.{fsevent, Stops, macos, native-is_shutdown}
use filesentry.HashTable.Sample.{sample}
use filesentry.Inotify.Sample.{watch_list}

abbrev answers : FsEvent.Answers
answers = record {
  string = λ path. some 20;
  array = 30;
  current_id = 5;
  info = 40;
  created = some 50;
  started = true;
}

abbrev calls : List (Call fsevent)
calls =
    watch (terminated (47 ∷ 100 ∷ [])) true answers
    ∷ guard_dropped shutdown_guard true answers
    ∷ watch (terminated (47 ∷ 101 ∷ [])) true answers
    ∷ []

native-is_shutdown_example : ((run fsevent (FsEvent.new 1) calls).is_shutdown ≡ true) ↔ (
    ((FsEvent.new 1).is_shutdown ≡ true)
    ⊎ ((c : Call fsevent) × In c calls × Stops sample watch_list macos c))
native-is_shutdown_example = native-is_shutdown sample watch_list macos (FsEvent.new 1) calls
