-- ===== src/Events/Examples.antt =====
-- Calls of the debouncer of src/events.rs.
use filesentry.HashTable.Index.{Indexes-empty, index_of}
use filesentry.HashTable.Keyed.{insert_item}
use filesentry.Common.{
  ◌≡◌, ◌≤◌, ◌+◌, refl, false, some, List, [], ◌∷◌, arith, length, if◌then◌else◌,
}
use filesentry.Path.{CanonicalPathBuf, terminated, path_eq}
use filesentry.HashTable.Sample.{sample}
use filesentry.Events.{
  EventType, create, delete, modified, EventDebouncer, Event, new, add, get, hash_path, item_hash,
  event_path,
}
use filesentry.Events.View.{held, coalesce, IsValid, new-IsValid, add_lem}
use filesentry.Events.Lifecycle.{replay, net, history_of, happens, add_all, settled_event}

abbrev a_txt : CanonicalPathBuf
a_txt = terminated (47 ∷ 97 ∷ [])

abbrev b_txt : CanonicalPathBuf
b_txt = terminated (47 ∷ 98 ∷ [])

abbrev calls : List (CanonicalPathBuf × EventType)
calls = (a_txt, create) ∷ (b_txt, modified) ∷ (a_txt, modified) ∷ (a_txt, delete) ∷ []

settled_event_example :
    (d : EventDebouncer sample) × (add_all sample (new sample) calls ≡ some d)
    × (get sample d a_txt ≡ some (some (net false false)))
settled_event_example =
    settled_event sample calls a_txt false false create (modified ∷ delete ∷ []) (omega arith)
      (unfold history_of path_eq in refl) (unfold replay happens in refl)

add_lem_example :
    (d : EventDebouncer sample) × (add sample (new sample) a_txt create ≡ some d)
    × IsValid sample d
    × (length d.events ≤ length (new sample).events + 1)
    × ((q : CanonicalPathBuf)
        → held q d.events ≡ (
            if path_eq a_txt q
            then some (coalesce (held a_txt (new sample).events) create)
            else held q (new sample).events))
add_lem_example =
    add_lem sample (new sample) (new-IsValid sample) a_txt create (unfold new in omega arith)

abbrev one : Event
one = record { path = a_txt; ty = create }

-- A debouncer that holds one event.
abbrev busy : EventDebouncer sample
busy = record {
  table = sample.insert sample.empty (hash_path sample a_txt) 0 (item_hash sample event_path []);
  events = one ∷ [];
}

busy-IsValid : IsValid sample busy
busy-IsValid = record {
  indexed =
      insert_item event_path sample sample.empty [] (Indexes-empty sample) one
        (unfold index_of in refl) (omega arith);
}
