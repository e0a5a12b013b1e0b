-- ===== src/Watcher/Wakeup.antt =====
-- Calls of the interface wake the worker.
use filesentry.Common.{
  ℕ, zero, suc, ◌≡◌, ◌≢◌, ◌↔◌, ◌∙◌, ap, refl, Bool, true, false, not, ◌&&◌, none, some, List, [],
  ◌∷◌, ◌++◌, arith,
}
use filesentry.Path.{CanonicalPathBuf, assert_canonicalized}
use filesentry.HashTable.{Hashing}
use filesentry.Config.{Filter, ignore_path_rec}
use filesentry.Events.{EventDebouncer}
use filesentry.Pending.{PendingChanges, Flags, start_recrawl, add, add_watcher, is_empty}
use filesentry.Pending.Lock
use filesentry.Worker.{AddRoot}
use filesentry.Watcher
use filesentry.Watcher.{
  Phase, looking, deciding, parked, awake, wait_step, wait_steps, add_root, set_filter,
  should_wakeup, looks_of, wait_for_changes, take_notifications,
}

module _ (H : Hashing) where
  -- A wait ends at a look that finds a change or a reason to wake up.
  wait_ends :
      (events : EventDebouncer H) (mine last : PendingChanges H) (w : Watcher.Watcher H)
      (looks : List (Watcher.Watcher H))
      → (is_empty H w.changes && not (should_wakeup H w)) ≡ false
      → wait_for_changes H events mine (w ∷ looks) last ≡ some (w.changes, mine, false)
  unfolding wait_for_changes looks_of Lock.take Lock.take_timeout Lock.wait_while Lock.must_wait
  wait_ends events mine last w looks h = ground arith

  stays_awake : (n : ℕ) (w : Watcher.Watcher H) → wait_steps H n (awake, w) ≡ (awake, w)
  unfolding wait_steps wait_step
  stays_awake zero w = refl
  stays_awake (suc n) w = stays_awake n w

  stays_parked :
      (n : ℕ) (w : Watcher.Watcher H)
      → w.notified ≡ false
      → wait_steps H n (parked, w) ≡ (parked, w)
  unfolding wait_steps wait_step
  stays_parked zero w quiet = refl
  stays_parked (suc n) w quiet = ground (arith, stays_parked n w quiet)

  looks_once :
      (n : ℕ) (w : Watcher.Watcher H)
      → should_wakeup H w ≡ true
      → wait_steps H (suc n) (looking, w) ≡ (awake, w)
  unfolding wait_steps wait_step Lock.must_wait
  looks_once n w wakes = ground (arith, stays_awake n w)

  notified_looks :
      (n : ℕ) (w : Watcher.Watcher H)
      → w.notified ≡ true
      → wait_steps H (suc n) (parked, w) ≡ wait_steps H n (looking, w)
  unfolding wait_steps wait_step
  notified_looks n w told = rw told refl

  parks :
      (n : ℕ) (w : Watcher.Watcher H)
      → wait_steps H (suc n) (deciding, w) ≡ (parked, record w { notified = false })
  unfolding wait_steps wait_step
  parks n w = stays_parked n (record w { notified = false }) refl

  woken_iff :
      (n : ℕ) (w : Watcher.Watcher H) (phase : Phase)
      → should_wakeup H w ≡ true
      → w.notified ≡ true
      → ((wait_steps H (suc (suc n)) (phase, w)).0 ≡ awake) ↔ (phase ≢ deciding)
  woken_iff n w looking wakes told = (
    λ e f. ground arith,
    λ f. ap (λ (x : Phase × Watcher.Watcher H). x.0) (looks_once (suc n) w wakes),
  )
  woken_iff n w deciding wakes told = (λ e f. ground (arith, parks (suc n) w), λ f. absurd (f refl))
  woken_iff n w parked wakes told = (
    λ e f. ground arith,
    λ f.
        ap (λ (x : Phase × Watcher.Watcher H). x.0)
          (notified_looks (suc n) w told ∙ looks_once n w wakes),
  )
  woken_iff n w awake wakes told = (
    λ e f. ground arith,
    λ f. ap (λ (x : Phase × Watcher.Watcher H). x.0) (stays_awake (suc (suc n)) w),
  )

  -- A canonical root that is not ignored: `add_root` succeeds, and the worker's wait ends, after at most two
  -- more steps, exactly if the worker is not between its look at the condition and its sleep, which
  -- `add_root` does not wait for. In between, the wake-up is lost: the worker sleeps on, until something
  -- else wakes it. A worker that takes the new roots takes this one, last of those that were added; then
  -- only a shutdown would wake it up again.
  pub add_root_wakes :
      (w : Watcher.Watcher H) (root : List ℕ) (recursive : Bool) (phase : Phase) (n : ℕ)
      → ignore_path_rec w.filter root none ≡ false
      → (w' : Watcher.Watcher H) × (add_root H w (some root) recursive ≡ (w', true))
        × (((wait_steps H (suc (suc n)) (phase, w')).0 ≡ awake) ↔ (phase ≢ deciding))
        × ((take_notifications H w').0
            ≡ w.roots ++ record { path = assert_canonicalized root; recursive = recursive } ∷ [])
        × (should_wakeup H (take_notifications H w').1 ≡ w.is_shutdown)
  unfolding add_root should_wakeup take_notifications
  add_root_wakes w root recursive phase n kept =
      let new : AddRoot = record { path = assert_canonicalized root; recursive = recursive } in
      let w' : Watcher.Watcher H = record w {
        roots = w.roots ++ new ∷ [];
        has_notifications = true;
        notified = true;
      } in
      (w', ground arith, woken_iff n w' phase (ground arith) refl, refl, refl)

  -- A new filter with a recrawl wakes the worker: its wait ends at the next look, and it gets a queue
  -- in which the recrawl is pending and to which no single change is added until it is taken.
  pub set_filter_recrawls :
      (w : Watcher.Watcher H) (filter : Filter) (events : EventDebouncer H)
      (mine last : PendingChanges H) (looks : List (Watcher.Watcher H)) (p : CanonicalPathBuf)
      (flags : Flags)
      → (q : PendingChanges H) × (wait_for_changes H events mine
            (set_filter H w filter true ∷ looks)
            last
          ≡ some (q, mine, false))
        × (q.recrawl ≡ true)
        × (add_watcher H q p flags ≡ some q)
  unfolding set_filter start_recrawl add_watcher add
  set_filter_recrawls w filter events mine last looks p flags =
      let w' : Watcher.Watcher H = set_filter H w filter true in
      (
        start_recrawl H w.changes,
        wait_ends events mine last w' looks (unfold is_empty in ground arith),
        refl,
        refl,
      )
