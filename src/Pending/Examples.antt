-- ===== src/Pending/Examples.antt =====
-- The queue of src/pending.rs and its lock.
use filesentry.Common.{
  ◌≡◌, ◌⊎◌, ◌≤◌, ◌+◌, refl, true, false, not, Bool, none, some, List, [], ◌∷◌, arith, length,
  if◌then◌else◌, ◌++◌,
}
use filesentry.Path.{CanonicalPathBuf, terminated, path_eq}
use filesentry.HashTable.{hash_path}
use filesentry.HashTable.Sample.{sample}
use filesentry.HashTable.Index.{Indexes-empty, index_of}
use filesentry.HashTable.Keyed.{item_hash, insert_item}
use filesentry.Pending.{
  PendingChange, PendingChanges, change_path, empty, new, is_empty, add_watcher, drain,
}
use mathlib.Core.List.{Perm}
use filesentry.Pending.View.{IsValid, add_watcher_lem, pending, report}
use filesentry.Pending.Drain.{IsAscending, drain_lem}
use filesentry.Pending.Lock.{AllIdle, take, take_wakes}

abbrev d_a : CanonicalPathBuf
d_a = terminated (47 ∷ 100 ∷ 47 ∷ 97 ∷ [])

abbrev written : PendingChange
written = record { path = d_a; flags = record empty { origin_watcher = true } }

abbrev queue : PendingChanges sample
queue = record {
  path_set = sample.insert sample.empty (hash_path sample d_a) 0 (item_hash sample change_path []);
  changes = written ∷ [];
  recrawl = false;
}

queue-IsValid : IsValid sample queue
queue-IsValid = record {
  indexed =
      insert_item change_path sample sample.empty [] (Indexes-empty sample) written
        (unfold index_of in refl) (omega arith);
  from_watcher = (refl, tt);
  recrawl_only = λ h. ground arith;
}

add_watcher_lem_example :
    (c : PendingChanges sample) × (add_watcher sample queue d_a empty ≡ some c)
    × IsValid sample c
    × (c.recrawl ≡ false)
    × (length c.changes ≤ length queue.changes + 1)
    × ((q : CanonicalPathBuf)
        → pending q c.changes ≡ (
            if queue.recrawl
            then none
            else if path_eq d_a q
            then some (report (pending d_a queue.changes) empty)
            else pending q queue.changes))
add_watcher_lem_example = add_watcher_lem sample queue queue-IsValid d_a empty (omega arith)

drain_lem_example :
    IsAscending (drain sample queue).0
    × Perm (drain sample queue).0 queue.changes
    × IsValid sample (drain sample queue).1
    × (is_empty sample (drain sample queue).1 ≡ not queue.recrawl)
drain_lem_example = drain_lem sample queue queue-IsValid ((47 ∷ 100 ∷ 47 ∷ 97 ∷ [], refl), tt)

-- The worker looks twice: at an empty queue, and at one with a change.
abbrev looks : List (PendingChanges sample × Bool)
looks = (new sample, false) ∷ (queue, false) ∷ []

take_wakes_example :
    (take sample looks (new sample) ≡ none) × AllIdle sample looks
    ⊎ ((idle later : List (PendingChanges sample × Bool)) × (guard : PendingChanges sample)
        × (exit : Bool) × (take sample looks (new sample) ≡ some (guard, new sample))
        × (looks ≡ idle ++ (guard, exit) ∷ later)
        × AllIdle sample idle
        × ((is_empty sample guard ≡ false) ⊎ (exit ≡ true)))
take_wakes_example = take_wakes sample looks (new sample)
