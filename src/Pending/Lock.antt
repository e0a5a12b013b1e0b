-- ===== src/Pending/Lock.antt =====
-- `PendingChangesLock`: how the worker waits for changes. What other threads do is a list of what the
-- worker sees each time that it looks at the queue under the lock: the queue, and whether `exit()` holds.
-- When it looks, and how it sleeps in between, is `wait_step` in Watcher.antt.
use filesentry.Common.{
  ◌≡◌, refl, Bool, true, false, not, ◌&&◌, Option, none, some, List, [], ◌∷◌, arith, if◌then◌else◌,
  ◌++◌, ap, ◌⊎◌, inl, inr, Bool-cases, ◌∙◌,
}
use filesentry.HashTable.{Hashing}
use filesentry.Pending.{PendingChanges, is_empty}

module _ (H : Hashing) where
  -- the condition of `wait_while`
  unfoldable pub must_wait : PendingChanges H → Bool → Bool
  must_wait changes exit = is_empty H changes && not exit

  -- `Condvar::wait_while`: the queue with which the wait ends; `none`: not within these looks.
  unfoldable pub wait_while : List (PendingChanges H × Bool) → Option (PendingChanges H)
  unfolding must_wait
  wait_while [] = none
  wait_while ((changes, exit) ∷ looks) =
      if must_wait changes exit then wait_while looks else some changes

  -- The new contents of `dst` and of the lock.
  unfoldable pub take :
      List (PendingChanges H × Bool)
      → PendingChanges H
      → Option (PendingChanges H × PendingChanges H)
  unfolding wait_while
  take looks dst = elim (wait_while looks) [ none ↦ none | some guard ↦ some (guard, dst) ]

  -- The looks end where the time is up. `last` is the queue at that point. The new contents of `dst`
  -- and of the lock, and whether the wait timed out.
  unfoldable pub take_timeout :
      List (PendingChanges H × Bool)
      → PendingChanges H
      → PendingChanges H
      → PendingChanges H × PendingChanges H × Bool
  unfolding wait_while
  take_timeout looks last dst = elim (wait_while looks) [
    | none ↦ (dst, last, true)
    | some guard ↦ (guard, dst, false)
  ]

  abbrev pub AllIdle : List (PendingChanges H × Bool) → Type 0
  AllIdle [] = Unit
  AllIdle ((changes, exit) ∷ looks) = (is_empty H changes ≡ true) × (exit ≡ false) × AllIdle looks

  take_waits :
      (changes : PendingChanges H) (exit : Bool) (looks : List (PendingChanges H × Bool))
      (dst : PendingChanges H)
      → must_wait changes exit ≡ true
      → (take ((changes, exit) ∷ looks) dst ≡ take looks dst)
        × (is_empty H changes ≡ true)
        × (exit ≡ false)
  unfolding take
  take_waits changes exit looks dst w = ground arith

  take_returns :
      (changes : PendingChanges H) (exit : Bool) (looks : List (PendingChanges H × Bool))
      (dst : PendingChanges H)
      → must_wait changes exit ≡ false
      → take ((changes, exit) ∷ looks) dst ≡ some (changes, dst)
  unfolding take
  take_returns changes exit looks dst w = ground arith

  wakes :
      (changes : PendingChanges H) (exit : Bool)
      → must_wait changes exit ≡ false
      → (is_empty H changes ≡ false) ⊎ (exit ≡ true)
  unfolding must_wait
  wakes changes exit n = ground arith

  -- A wait goes on exactly while each look finds nothing pending and no `exit()`. One that ends, at a
  -- look that finds something pending or `exit()`, swaps the queue of that look with `dst`, and the looks
  -- before it found neither.
  pub take_wakes :
      (looks : List (PendingChanges H × Bool)) (dst : PendingChanges H)
      → (take looks dst ≡ none) × AllIdle looks
        ⊎ ((idle later : List (PendingChanges H × Bool)) × (guard : PendingChanges H)
            × (exit : Bool) × (take looks dst ≡ some (guard, dst))
            × (looks ≡ idle ++ (guard, exit) ∷ later)
            × AllIdle idle
            × ((is_empty H guard ≡ false) ⊎ (exit ≡ true)))
  take_wakes [] dst = inl (unfold take in refl, tt)
  take_wakes ((changes, exit) ∷ looks) dst = elim (Bool-cases (must_wait changes exit)) [
    | inl w ↦
        let (same, idle, stay) = take_waits changes exit looks dst w in
        elim (take_wakes looks dst) [
          | inl (e, rest) ↦ inl (same ∙ e, (idle, stay, rest))
          | inr (before, later, g, x, e, m, all, n) ↦ inr (
            (changes, exit) ∷ before,
            later,
            g,
            x,
            same ∙ e,
            ap (λ (l : List (PendingChanges H × Bool)). (changes, exit) ∷ l) m,
            (idle, stay, all),
            n,
          )
        ]
    | inr n ↦ inr (
      [],
      looks,
      changes,
      exit,
      take_returns changes exit looks dst n,
      refl,
      tt,
      wakes changes exit n,
    )
  ]

  -- `take_timeout` times out, with nothing swapped, exactly when `take` would still be waiting; else
  -- it swaps as `take` does.
  pub take_timeout-take :
      (looks : List (PendingChanges H × Bool)) (last dst : PendingChanges H)
      → take_timeout looks last dst ≡ elim (take looks dst) [
        | none ↦ (dst, last, true)
        | some (guard, left) ↦ (guard, left, false)
      ]
  unfolding take take_timeout
  take_timeout-take looks last dst = ground arith
