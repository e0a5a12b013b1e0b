-- ===== src/Watcher.antt =====
-- src/lib.rs: the interface of the crate, and how the worker of src/worker.rs is woken by it. The state
-- that the threads share is a record; what is done under a lock is one step.
pub mod Wakeup
mod Examples
use filesentry.Common.{
  ℕ, zero, suc, Bool, true, false, ◌||◌, Option, none, some, List, [], ◌∷◌, ◌++◌, if◌then◌else◌,
  ◌&&◌,
}
use filesentry.Path.{assert_canonicalized}
use filesentry.HashTable.{Hashing}
use filesentry.Config.{Filter, ignore_git, ignore_path_rec}
use filesentry.Events
use filesentry.Events.{EventDebouncer}
use filesentry.Pending
use filesentry.Pending.{PendingChanges, start_recrawl}
use filesentry.Pending.Lock
use filesentry.Worker.{AddRoot}

-- `ShutdownOnDrop`: whether it still refers to the watcher's backend.
pub record ShutdownOnDrop : Type 0 where
  pub is_linked : Bool

unfoldable pub shutdown_guard : ShutdownOnDrop
shutdown_guard = record { is_linked = true }

unfoldable pub cancel : ShutdownOnDrop → ShutdownOnDrop
cancel self = record { is_linked = false }

-- Where the worker is in `wait_while`: about to look at the condition, about to park since it did not
-- hold, parked, or done.
pub data Phase : Type 0 where
  looking deciding parked awake : Phase

module _ (H : Hashing) where
  pub record Watcher : Type 0 where
    -- `Config`, with the handlers by number
    pub filter : Filter
    pub settle_time : ℕ
    pub handlers : List ℕ
    -- `Notifications`
    pub roots : List AddRoot
    pub has_notifications : Bool
    -- of the backend
    pub changes : PendingChanges H
    pub is_shutdown : Bool
    -- whether the queue's condition variable was notified since the worker went to sleep at it
    pub notified : Bool

  -- `Watcher::new`, with the settle time in milliseconds
  unfoldable pub new : Watcher
  new = record {
    filter = ignore_git;
    settle_time = 200;
    handlers = [];
    roots = [];
    has_notifications = false;
    changes = Pending.new H;
    is_shutdown = false;
    notified = false;
  }

  -- The argument is what `canonicalize` returns, `none` for an error; the result is whether it is `Ok`.
  unfoldable pub add_root : Watcher → Option (List ℕ) → Bool → Watcher × Bool
  add_root self none recursive = (self, false)
  add_root self (some root) recursive =
      if ignore_path_rec self.filter root none then (self, true) else (
        record self {
          roots =
              self.roots ++ record { path = assert_canonicalized root; recursive = recursive } ∷ [];
          has_notifications = true;
          notified = true;
        },
        true,
      )

  unfoldable pub set_filter : Watcher → Filter → Bool → Watcher
  set_filter self filter recrawl =
      if recrawl
      then record self { filter = filter; changes = start_recrawl H self.changes; notified = true }
      else record self { filter = filter }

  unfoldable pub set_settle_time : Watcher → ℕ → Watcher
  set_settle_time self settle_time = record self { settle_time = settle_time }

  unfoldable pub add_handler : Watcher → ℕ → Watcher
  add_handler self handler = record self { handlers = self.handlers ++ handler ∷ [] }

  unfoldable pub shutdown : Watcher → Watcher
  shutdown self = record self { is_shutdown = true; notified = true }

  -- The guard is dropped; `upgrades` is whether the backend is still there.
  unfoldable pub drop_guard : ShutdownOnDrop → Bool → Watcher → Watcher
  unfolding shutdown
  drop_guard self upgrades watcher =
      if self.is_linked && upgrades then shutdown watcher else watcher

  unfoldable pub should_wakeup : Watcher → Bool
  should_wakeup self = self.has_notifications || self.is_shutdown

  -- One step of the worker's `wait_while`. It holds the queue's lock while it looks and until it is
  -- parked; what it looks for besides the queue is not behind that lock. A parked worker looks again when
  -- it is notified.
  unfoldable pub wait_step : Phase × Watcher → Phase × Watcher
  unfolding should_wakeup Lock.must_wait
  wait_step (looking, self) =
      if Lock.must_wait H self.changes (should_wakeup self) then (deciding, self) else (awake, self)
  wait_step (deciding, self) = (parked, record self { notified = false })
  wait_step (parked, self) = if self.notified then (looking, self) else (parked, self)
  wait_step (awake, self) = (awake, self)

  unfoldable pub wait_steps : ℕ → Phase × Watcher → Phase × Watcher
  unfolding wait_step
  wait_steps zero state = state
  wait_steps (suc n) state = wait_steps n (wait_step state)

  -- What the worker sees at each look.
  unfoldable pub looks_of : List Watcher → List (PendingChanges H × Bool)
  unfolding should_wakeup
  looks_of [] = []
  looks_of (w ∷ ws) = (w.changes, should_wakeup w) ∷ looks_of ws

  -- The worker's changes and the queue's after the wait, and whether it has settled. The looks end
  -- where the settle time is up, with the queue at that point; without a time limit, `none` is a wait
  -- that outlasts the looks.
  unfoldable pub wait_for_changes :
      EventDebouncer H
      → PendingChanges H
      → List Watcher
      → PendingChanges H
      → Option (PendingChanges H × PendingChanges H × Bool)
  unfolding looks_of Events.is_empty Lock.take Lock.take_timeout
  wait_for_changes events pending_changes looks last =
      if Events.is_empty H events
      then elim (Lock.take H (looks_of looks) pending_changes) [
        | none ↦ none
        | some (guard, left) ↦ some (guard, left, false)
      ]
      else some (Lock.take_timeout H (looks_of looks) last pending_changes)

  -- The roots that `process_notifications` takes.
  unfoldable pub take_notifications : Watcher → List AddRoot × Watcher
  take_notifications self =
      if self.has_notifications
      then (self.roots, record self { roots = []; has_notifications = false })
      else ([], self)
