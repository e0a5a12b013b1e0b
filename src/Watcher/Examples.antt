-- ===== src/Watcher/Examples.antt =====
-- A root `/d` and a filter, on a new watcher.
use filesentry.Common.{ℕ, ◌≢◌, ◌↔◌, ◌≡◌, refl, true, false, some, List, [], ◌∷◌, bytes_eq}
use filesentry.Path.{assert_canonicalized}
use filesentry.HashTable.Sample.{sample}
use filesentry.Config.{ignore_git, ignore_path_rec, path_parent, last_separator}
use filesentry.Pending
use filesentry.Pending.{PendingChanges, add_watcher}
use filesentry.Watcher
use filesentry.Watcher.{
  Phase, parked, deciding, awake, wait_steps, add_root, should_wakeup, take_notifications,
}
use filesentry.Watcher.Wakeup.{add_root_wakes}

abbrev d : List ℕ
d = 47 ∷ 100 ∷ []

abbrev idle : Watcher.Watcher sample
idle = record {
  filter = ignore_git;
  settle_time = 200;
  handlers = [];
  roots = [];
  has_notifications = false;
  changes = Pending.new sample;
  is_shutdown = false;
  notified = false;
}

add_root_wakes_example :
    (w : Watcher.Watcher sample) × (add_root sample idle (some d) true ≡ (w, true))
    × (((wait_steps sample 7 (parked, w)).0 ≡ awake) ↔ (parked ≢ deciding))
    × ((take_notifications sample w).0
        ≡ record { path = assert_canonicalized d; recursive = true } ∷ [])
    × (should_wakeup sample (take_notifications sample w).1 ≡ false)
add_root_wakes_example =
    add_root_wakes sample idle d true parked 5
      (unfold ignore_path_rec ignore_git path_parent last_separator bytes_eq in refl)
