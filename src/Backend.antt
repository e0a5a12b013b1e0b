-- ===== src/Backend.antt =====
-- src/backend.rs: what the rest of the crate needs of a backend. `Native` has the three that there are.
-- Its queue is not part of the interface here: it is modelled with the lock in `Pending` and filled by
-- each backend's own module.
pub mod Native
mod Examples
use filesentry.Common.{
  ◌≡◌, ◌∙◌, refl, Bool, true, false, ◌||◌, ◌&&◌, List, [], ◌∷◌, arith, if◌then◌else◌, inl, inr,
  Bool-cases,
}
use filesentry.Path.{CanonicalPathBuf}
use filesentry.Watcher.{ShutdownOnDrop}

-- `Answers` is what the system answers during one call.
pub record Backend : Type 1 where
  pub State : Type 0
  pub Answers : Type 0
  pub watch_dir : State → CanonicalPathBuf → Bool → Answers → State × Bool
  pub shutdown : State → Answers → State
  pub is_shutdown : State → Bool
  pub refresh_config : State → State
  pub shutdown-is_shutdown :
      (self : State) (answers : Answers) → is_shutdown (shutdown self answers) ≡ true
  pub watch_dir-is_shutdown :
      (self : State) (path : CanonicalPathBuf) (recursive : Bool) (answers : Answers)
      → is_shutdown ((watch_dir self path recursive answers).0) ≡ is_shutdown self
  pub refresh_config-is_shutdown :
      (self : State) → is_shutdown (refresh_config self) ≡ is_shutdown self

module _ (B : Backend) where
  -- What the worker, the watcher and a guard do to the backend. `upgrades` is whether the backend is
  -- still there when the guard is dropped.
  pub data Call : Type 0 where
    watch : CanonicalPathBuf → Bool → B.Answers → Call
    stop : B.Answers → Call
    guard_dropped : ShutdownOnDrop → Bool → B.Answers → Call
    refresh : Call

  unfoldable pub call : B.State → Call → B.State
  call self (watch path recursive answers) = (B.watch_dir self path recursive answers).0
  call self (stop answers) = B.shutdown self answers
  call self (guard_dropped guard upgrades answers) =
      if guard.is_linked && upgrades then B.shutdown self answers else self
  call self refresh = B.refresh_config self

  unfoldable pub run : B.State → List Call → B.State
  unfolding call
  run self [] = self
  run self (c ∷ calls) = run (call self c) calls

  -- Whether some call asks for the shutdown.
  unfoldable pub asks : Call → Bool
  asks (stop answers) = true
  asks (guard_dropped guard upgrades answers) = guard.is_linked && upgrades
  asks c = false

  unfoldable pub asked : List Call → Bool
  unfolding asks
  asked [] = false
  asked (c ∷ calls) = asks c || asked calls

  call-is_shutdown :
      (self : B.State) (c : Call) → B.is_shutdown (call self c) ≡ (B.is_shutdown self || asks c)
  unfolding call asks
  call-is_shutdown self (watch path recursive answers) =
      ground (arith, B.watch_dir-is_shutdown self path recursive answers)
  call-is_shutdown self (stop answers) = ground (arith, B.shutdown-is_shutdown self answers)
  call-is_shutdown self refresh = ground (arith, B.refresh_config-is_shutdown self)
  call-is_shutdown self (guard_dropped guard upgrades answers) =
      elim (Bool-cases (guard.is_linked && upgrades)) [
        | inl linked ↦ ground (arith, B.shutdown-is_shutdown self answers)
        | inr loose ↦ ground arith
      ]

  or_assoc : (a b c : Bool) → ((a || b) || c) ≡ (a || (b || c))
  or_assoc true b c = refl
  or_assoc false b c = refl

  -- For every backend that implements the interface and every sequence of calls: it is shut down after
  -- them exactly if it was before, or if one of them was a shutdown or the drop of a guard that was not
  -- cancelled while the backend was still there. No later call takes a shutdown back.
  pub run-is_shutdown :
      (self : B.State) (calls : List Call)
      → B.is_shutdown (run self calls) ≡ (B.is_shutdown self || asked calls)
  unfolding run asked
  run-is_shutdown self [] = ground arith
  run-is_shutdown self (c ∷ calls) =
      run-is_shutdown (call self c) calls
      ∙ rw (call-is_shutdown self c) (or_assoc (B.is_shutdown self) (asks c) (asked calls))
