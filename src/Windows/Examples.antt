-- ===== src/Windows/Examples.antt =====
-- The backend of src/windows.rs with two roots, one of which cannot be watched.
use filesentry.Common.{
  ℕ, ◌≡◌, ◌≤◌, refl, true, false, ◌||◌, Bool, none, some, List, [], ◌∷◌, arith, length,
}
use filesentry.Path.{CanonicalPathBuf, path_eq}
use filesentry.HashTable.Sample.{sample}
use filesentry.Config.{ignore_git}
use filesentry.Pending
use filesentry.Pending.{PendingChanges}
use filesentry.Pending.View
use filesentry.Pending.View.{pending, new-IsValid}
use filesentry.Pending.Batches.{reported}
use filesentry.Resources.{InOrder}
use filesentry.Windows.{
  Root, WindowsWatcher, Answers, completed, Round, watch_dir, covers, completion_round, rearm,
}
use filesentry.Path.Windows.{is_parent_of}
use filesentry.Windows.Handles.{held, nothing}
use filesentry.Windows.Life
use filesentry.Windows.Life.{
  Step, completes, watch_all, Watch, handle_life, handle_life-InOrder, late_watch-InOrder,
}
use filesentry.Windows.Completions.{loses_track, completion_round-IsValid}
use filesentry.Windows.Keys.{succeeds, watched-reported}
use filesentry.Windows.Records.{Actions, Reports, handle_records}
use filesentry.Windows.Records.Bounds.{handle_records_in_range}
use filesentry.Windows.Records.Layout.{
  Record, layout, reports_of, handle_records-layout, entry, head_bytes, name_bytes,
}

abbrev actions : Actions
actions = record {
  added = 1;
  removed = 2;
  modified = 3;
  renamed_old_name = 4;
  renamed_new_name = 5;
}

-- `C:\d`
abbrev d : CanonicalPathBuf
d = record { buf = 67 ∷ 58 ∷ 92 ∷ 100 ∷ [] }

-- A file `a` was created, and a file `b` was written.
abbrev file_a : Record
file_a = record { action = 1; name = 97 ∷ []; padding = 0 ∷ 0 ∷ [] }

abbrev file_b : Record
file_b = record { action = 3; name = 98 ∷ []; padding = [] }

handle_records-layout_example :
    handle_records actions ignore_git d (layout (file_a ∷ file_b ∷ []))
    ≡ some (reports_of actions ignore_git d (file_a ∷ file_b ∷ []))
handle_records-layout_example = handle_records-layout actions ignore_git d (file_a ∷ file_b ∷ [])

-- A record with a name of 255 bytes, of which two are in the buffer.
abbrev cut_off : List ℕ
cut_off = 0 ∷ 0 ∷ 0 ∷ 0 ∷ 1 ∷ 0 ∷ 0 ∷ 0 ∷ 255 ∷ 0 ∷ 0 ∷ 0 ∷ 97 ∷ 0 ∷ []

handle_records_in_range_example :
    (r : Reports) × (handle_records actions ignore_git d cut_off ≡ some r) × (length r ≤ 14)
handle_records_in_range_example = handle_records_in_range actions ignore_git d cut_off

abbrev answered : Answers
answered = record { file = some 8; bound = true; event = some 9; read = true }

-- The directory is opened, but the read cannot be issued.
abbrev unread : Answers
unread = record { file = some 10; bound = true; event = some 11; read = false }

abbrev watches : List Watch
watches = (d, true, answered) ∷ (record { buf = 67 ∷ 58 ∷ 92 ∷ 101 ∷ [] }, true, unread) ∷ []

-- Both are watched; the thread reads the first again, and gives up on a key that is not there.
abbrev steps : List Step
steps =
    Life.watches (d, true, answered)
    ∷ completes (some 0)
    ∷ Life.watches (record { buf = 67 ∷ 58 ∷ 92 ∷ 101 ∷ [] }, true, unread)
    ∷ completes none
    ∷ []

abbrev all_pending : Root → Bool
all_pending r = true

handle_life-InOrder_example :
    InOrder (handle_life 7 steps all_pending (all_pending ∷ [])) nothing nothing
handle_life-InOrder_example = handle_life-InOrder 7 steps all_pending (all_pending ∷ [])

abbrev root_d : Root
root_d = record { path = d; handle = 8; event = 9; recursive = true }

abbrev watcher : WindowsWatcher
watcher = record { is_shutdown = false; iocp = 7; roots = root_d ∷ [] }

abbrev down : WindowsWatcher
down = record { is_shutdown = true; iocp = 7; roots = [] }

late_watch-InOrder_example : ¬ InOrder (watch_dir down d true answered).2 (held down) nothing
late_watch-InOrder_example =
    late_watch-InOrder down d true answered 8 nothing refl (unfold covers in refl) refl
      (λ e. ground arith)

completion_round-IsValid_example :
    (r : Round sample) × (completion_round sample actions ignore_git watcher
        (root_d ∷ [])
        (Pending.new sample)
        (completed 0 [])
      ≡ some r)
    × View.IsValid sample r.changes
    × (r.goes_on ≡ true)
    × (r.changes.recrawl ≡ (loses_track watcher (completed 0 []) || false))
completion_round-IsValid_example =
    completion_round-IsValid sample actions ignore_git watcher (root_d ∷ []) (Pending.new sample)
      (new-IsValid sample) (completed 0 []) (omega arith)

watched-reported_example :
    (r : Round sample) × (completion_round sample actions ignore_git
        (watch_all
          (watch_dir watcher (record { buf = 67 ∷ 58 ∷ 92 ∷ 101 ∷ [] }) true (succeeds 10 11)).0
          watches).0
        []
        (Pending.new sample)
        (completed 1 (layout (file_a ∷ file_b ∷ [])))
      ≡ some r)
    × ((q : CanonicalPathBuf)
        → pending q r.changes.changes
          ≡ reported q (pending q []) (
              reports_of actions ignore_git
                (record { buf = 67 ∷ 58 ∷ 92 ∷ 101 ∷ [] })
                (file_a ∷ file_b ∷ [])))
    × (r.notified ≡ true)
    × (r.calls ≡ rearm [] 1)
watched-reported_example =
    watched-reported watcher (record { buf = 67 ∷ 58 ∷ 92 ∷ 101 ∷ [] }) true 10 11 watches sample
      actions ignore_git [] (Pending.new sample) (new-IsValid sample) file_a (file_b ∷ []) refl
      (unfold covers path_eq is_parent_of in refl) refl
      (unfold layout entry head_bytes name_bytes in omega arith)
