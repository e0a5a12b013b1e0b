-- ===== src/FsEvent/Batches.antt =====
-- The callback of src/fsevent.rs: what the worker and the next stream learn of a batch of events.
use filesentry.Common.{
  ℕ, ◌≡◌, ◌≢◌, ◌≤◌, ◌+◌, ◌^◌, refl, Bool, true, false, ◌||◌, none, some, List, [], ◌∷◌, ◌++◌, arith,
  length, if◌then◌else◌, inl, inr, Bool-cases, Option-cases,
}
use filesentry.HashTable.{Hashing}
use filesentry.Path.{CanonicalPathBuf, as_bytes, assert_canonicalized}
use filesentry.Config.{Filter, ignore_path_rec}
use filesentry.Pending
use filesentry.Pending.{PendingChanges, add_watcher, start_recrawl}
use filesentry.Pending.View
use filesentry.Pending.View.{add_watcher_lem, start_recrawl-IsValid, pending}
use filesentry.Pending.Batches.{Reports, reported, add_all, add_all_lem}
use filesentry.FsEvent.{
  Event, must_scan, strip_trailing_sep, process_events, newest_id, resume_id, Shared, callback,
}

abbrev pub scans : List Event → Bool
scans [] = false
scans (event ∷ events) = must_scan event || scans events

abbrev pub canonical : Event → CanonicalPathBuf
canonical event = assert_canonicalized (strip_trailing_sep event.path)

module _ (filter : Filter) where
  abbrev pub ignored : CanonicalPathBuf → Bool
  ignored path = ignore_path_rec filter (as_bytes path.buf) (some true)

  -- What the events report, where none asks for a scan: each path that is not ignored is to be crawled.
  abbrev pub reports_of : List Event → Reports
  reports_of [] = []
  reports_of (event ∷ events) =
      if ignored (canonical event)
      then reports_of events
      else (canonical event, record (Pending.empty) { needs_non_recursive_crawl = true })
        ∷ reports_of events

  length-reports_of : (events : List Event) → length (reports_of events) ≤ length events
  length-reports_of [] = omega arith
  length-reports_of (event ∷ events) = ground (arith, length-reports_of events)

module _ (H : Hashing) (filter : Filter) where
  process_events-add_all :
      (c : PendingChanges H) (events : List Event)
      → scans events ≡ false
      → process_events H filter c events ≡ add_all H c (reports_of filter events)
  unfolding process_events add_all
  process_events-add_all c [] quiet = refl
  process_events-add_all c (event ∷ events) quiet =
      elim (Bool-cases (ignored filter (canonical event))) [
        | inl skipped ↦ ground (arith, process_events-add_all c events)
        | inr seen ↦
            elim (Option-cases (
              add_watcher H c (canonical event)
                (record (Pending.empty) { needs_non_recursive_crawl = true }))) [
                  | inl panics ↦ ground arith
                  | inr (c', e) ↦ ground (arith, process_events-add_all c' events)
                ]
      ]

  process_events-IsValid :
      (c : PendingChanges H) (events : List Event)
      → View.IsValid H c
      → length c.changes + length events ≤ 2 ^ 32
      → (c' : PendingChanges H) × (process_events H filter c events ≡ some c')
        × View.IsValid H c'
        × (c'.recrawl ≡ (scans events || c.recrawl))
  unfolding process_events start_recrawl
  process_events-IsValid c [] v room = (c, refl, v, refl)
  process_events-IsValid c (event ∷ events) v room = elim (Bool-cases (must_scan event)) [
    | inl full ↦ (start_recrawl H c, ground arith, start_recrawl-IsValid H c, ground arith)
    | inr one ↦ elim (Bool-cases (ignored filter (canonical event))) [
      | inl skipped ↦
          let (c', e, v', r) = process_events-IsValid c events v (omega (arith, room)) in
          (c', ground arith, v', ground arith)
      | inr seen ↦
          let (c1, e1, v1, r1, l1, _) =
            add_watcher_lem H c v (canonical event)
              (record (Pending.empty) { needs_non_recursive_crawl = true }) (omega (arith, room)) in
          let (c2, e2, v2, r2) = process_events-IsValid c1 events v1 (omega (arith, l1, room)) in
          (c2, ground arith, v2, ground arith)
    ]
  ]

  -- On a valid queue with room for the events, `process_events` does not panic and keeps the queue valid.
  -- Afterwards a recrawl is pending exactly if one was before or an event asks for a scan. If neither is
  -- so, every path has, on top of the flags it had, a crawl that is not recursive if an event is of it and
  -- it is not ignored.
  pub process_events_lem :
      (c : PendingChanges H) (events : List Event)
      → View.IsValid H c
      → length c.changes + length events ≤ 2 ^ 32
      → (c' : PendingChanges H) × (process_events H filter c events ≡ some c')
        × View.IsValid H c'
        × (c'.recrawl ≡ (scans events || c.recrawl))
        × (c'.recrawl ≡ false
            → (q : CanonicalPathBuf)
            → pending q c'.changes ≡ reported q (pending q c.changes) (reports_of filter events))
  process_events_lem c events v room =
      let (c', e, v', r) = process_events-IsValid c events v room in
      let (d, f, _, _, _, view) =
        add_all_lem H c (reports_of filter events) v
          (omega (arith, room, length-reports_of filter events)) in
      (c', e, v', r, λ quiet q. ground (arith, view q, process_events-add_all c events))

-- No event has an id.
abbrev pub NoIds : List Event → Type 0
NoIds [] = Unit
NoIds (event ∷ events) = (event.id ≡ 0) × NoIds events

newest_id-none : (events : List Event) → NoIds events → newest_id events ≡ none
unfolding newest_id
newest_id-none [] h = refl
newest_id-none (event ∷ events) h = ground (arith, h.0, newest_id-none events h.1)

newest_id_lem :
    (before : List Event) (event : Event) (after : List Event)
    → event.id ≢ 0
    → NoIds after
    → newest_id (before ++ event ∷ after) ≡ some event.id
unfolding newest_id
newest_id_lem [] event after some_id none_later = ground (arith, newest_id-none after none_later)
newest_id_lem (e ∷ before) event after some_id none_later =
    ground (arith, newest_id_lem before event after some_id none_later)

callback-some :
    (H : Hashing) (filter : Filter) (info : Shared H filter) (events : List Event) (id : ℕ)
    (c : PendingChanges H)
    → newest_id events ≡ some id
    → process_events H filter info.changes events ≡ some c
    → callback H filter info events
      ≡ some (record { changes = c; last_event_id = id; notified = true })
unfolding callback newest_id
callback-some H filter info [] id c n e = ground arith
callback-some H filter info (event ∷ events) id c n e = ground arith

-- On a valid queue with room for it, a batch of events, the last of which with an id is `event`,
-- wakes the worker, makes pending what `process_events` does, and the next stream resumes at that
-- event's id.
pub callback_resumes :
    (H : Hashing) (filter : Filter) (info : Shared H filter) (before : List Event) (event : Event)
    (after : List Event) (current : ℕ)
    → View.IsValid H info.changes
    → length info.changes.changes + length (before ++ event ∷ after) ≤ 2 ^ 32
    → event.id ≢ 0
    → NoIds after
    → (info' : Shared H filter) × (callback H filter info (before ++ event ∷ after) ≡ some info')
      × (info'.notified ≡ true)
      × (process_events H filter info.changes (before ++ event ∷ after) ≡ some info'.changes)
      × (resume_id info'.last_event_id current ≡ event.id)
unfolding resume_id
callback_resumes H filter info before event after current v room some_id none_later =
    let (c, e, _, _) =
      process_events-IsValid H filter info.changes (before ++ event ∷ after) v room in
    (
      record { changes = c; last_event_id = event.id; notified = true },
      callback-some H filter info (before ++ event ∷ after) event.id c
          (newest_id_lem before event after some_id none_later) e,
      refl,
      e,
      ground arith,
    )
