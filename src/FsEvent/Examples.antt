-- ===== src/FsEvent/Examples.antt =====
-- The backend of src/fsevent.rs with a root and a second one for which no stream starts.
use filesentry.Common.{◌≡◌, refl, true, false, none, some, List, [], ◌∷◌, arith, ◌||◌, inl}
use filesentry.Path.{CanonicalPathBuf, terminated}
use filesentry.HashTable.Sample.{sample}
use filesentry.Config.{ignore_git}
use filesentry.Pending
use filesentry.Pending.{PendingChanges}
use filesentry.Pending.View
use filesentry.Pending.View.{pending, new-IsValid}
use filesentry.Pending.Batches.{reported}
use filesentry.Resources.{InOrder}
use filesentry.FsEvent.{
  Stream, new, FsEventWatcher, Answers, Event, Shared, watch_dir, covers, process_events,
  rebuild_stream, create_stream,
}
use filesentry.FsEvent.Life.{Call, watches, shuts_down, stream_life, stream_life-InOrder}
use filesentry.FsEvent.Batches.{scans, reports_of, process_events_lem}
use filesentry.FsEvent.Covered.{Watches, watch_all, CoveredBy, watched_covered}
use filesentry.FsEvent.Roots.{watch_dir_failed}

-- `/d` and `/e`
abbrev d : CanonicalPathBuf
d = terminated (47 ∷ 100 ∷ [])

abbrev e : CanonicalPathBuf
e = terminated (47 ∷ 101 ∷ [])

abbrev answered : Answers
answered = record {
  string = λ p. some 3;
  array = 4;
  current_id = 1000;
  info = 5;
  created = some 6;
  started = true;
}

abbrev refused : Answers
refused = record answered { created = some 7; started = false }

abbrev fresh : FsEventWatcher
fresh = record { is_shutdown = false; roots = []; stream = none; queue = 2; last_event_id = 0 }

abbrev calls : List Call
calls = watches d answered ∷ watches e refused ∷ shuts_down ∷ watches e answered ∷ []

stream_life-InOrder_example : InOrder (stream_life 2 calls) (λ h. 0) (λ h. 0)
stream_life-InOrder_example = stream_life-InOrder 2 calls

-- `/d`, then `/e`, for which another stream is made.
abbrev asked : Watches
asked = (d, answered) ∷ (e, record answered { created = some 8 }) ∷ []

watched_covered_example :
    (s : Stream) × ((watch_all (new 2) asked).stream ≡ some s) × CoveredBy s.paths d
watched_covered_example =
    watched_covered 2 asked d
      (
        ((λ p n. ground arith), (λ n. ground arith), refl),
        (((λ p n. ground arith), (λ n. ground arith), refl), tt),
      )
      (inl refl)

watch_dir_failed_example :
    ((watch_dir fresh d refused).0.stream ≡ none)
    × (watch_dir (watch_dir fresh d refused).0 d answered
        ≡ ((watch_dir fresh d refused).0, true, []))
watch_dir_failed_example =
    watch_dir_failed fresh d refused refl (unfold covers in refl) answered
      (unfold covers watch_dir rebuild_stream create_stream in refl)

-- `/d/` changed, then a synthetic event.
abbrev changed : Event
changed = record { path = 47 ∷ 100 ∷ 47 ∷ []; flags = 0; id = 1001 }

abbrev history_done : Event
history_done = record { path = 47 ∷ []; flags = 16; id = 0 }

process_events_lem_example :
    (c : PendingChanges sample) × (process_events sample ignore_git
        (Pending.new sample)
        (changed ∷ history_done ∷ [])
      ≡ some c)
    × View.IsValid sample c
    × (c.recrawl ≡ (scans (changed ∷ history_done ∷ []) || false))
    × (c.recrawl ≡ false
        → (q : CanonicalPathBuf)
        → pending q c.changes
          ≡ reported q (pending q []) (reports_of ignore_git (changed ∷ history_done ∷ [])))
process_events_lem_example =
    process_events_lem sample ignore_git (Pending.new sample) (changed ∷ history_done ∷ [])
      (new-IsValid sample) (omega arith)

abbrev shared : Shared sample ignore_git
shared = record { changes = Pending.new sample; last_event_id = 1000; notified = false }
