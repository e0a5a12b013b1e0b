-- ===== src/Windows/Life.antt =====
-- The handles of the windows backend over its life.
use filesentry.Common.{
  ℕ, ◌≡◌, refl, Bool, true, false, some, List, [], ◌∷◌, ◌++◌, arith, Bool-cases, Option-cases, inl,
  inr, ◌≢◌, sym, subst, Option, none, zero, suc, ◌<◌, ◌≤◌, get_elem?,
}
use filesentry.Path.{CanonicalPathBuf}
use filesentry.Resources.{Use, acquired, used, count, InOrder, InOrder-from, InOrder-append, more}
use filesentry.HashTable.{Hashing}
use filesentry.Config.{Filter}
use filesentry.Pending.{PendingChanges}
use filesentry.Windows.Records.{Actions}
use filesentry.Windows.{
  Completion, failed, completed, Round, completion_round, idle, recrawls, Root, WindowsWatcher,
  Answers, new, rearm, issue_read, watch_dir, open_root, covers, shutdown, drop,
}
use filesentry.Windows.Handles.{held, handles, nothing, watch_dir-InOrder, shutdown-InOrder}

-- The calls of a watcher's clients: `watch_dir` with what the system answers, in this order.
abbrev pub Watch : Type 0
Watch = CanonicalPathBuf × Bool × Answers

unfoldable pub watch_all : WindowsWatcher → List Watch → WindowsWatcher × List Use
watch_all w [] = (w, [])
watch_all w ((path, recursive, answers) ∷ watches) =
    let now = watch_dir w path recursive answers in
    let rest = watch_all now.0 watches in (rest.0, now.2 ++ rest.1)

-- What happens to a watcher before its shutdown: a path is watched, or the completion thread makes a
-- round, with the key of the directory that it reads again, if any.
pub data Step : Type 0 where
  watches : Watch → Step
  completes : Option ℕ → Step

-- The calls of a round of the completion thread: it waits at the port, and may read a directory again.
unfoldable pub round_calls : WindowsWatcher → Option ℕ → List Use
unfolding rearm
round_calls w none = used w.iocp ∷ []
round_calls w (some key) = used w.iocp ∷ rearm w.roots key

-- A round of `completion_loop` makes these calls, behind its wait, if no root is added meanwhile.
completion_round-round_calls :
    (H : Hashing) (actions : Actions) (filter : Filter) (w : WindowsWatcher)
    (changes : PendingChanges H) (completion : Completion) (r : Round H)
    → completion_round H actions filter w w.roots changes completion ≡ some r
    → (key : Option ℕ) × (used w.iocp ∷ r.calls ≡ round_calls w key)
unfolding completion_round round_calls idle recrawls
completion_round-round_calls H actions filter w changes (failed has_read) r e = (none, ground arith)
completion_round-round_calls H actions filter w changes (completed key bytes) r e =
    elim (Bool-cases w.is_shutdown) [
      | inl down ↦ (none, ground arith)
      | inr alive ↦ elim (Option-cases (get_elem? w.roots key)) [
        | inl gone ↦ (none, ground arith)
        | inr (root, there) ↦ (some key, ground arith)
      ]
    ]

unfoldable pub run_steps : WindowsWatcher → List Step → WindowsWatcher × List Use
unfolding round_calls
run_steps w [] = (w, [])
run_steps w (watches (path, recursive, answers) ∷ steps) =
    let now = watch_dir w path recursive answers in
    let rest = run_steps now.0 steps in (rest.0, now.2 ++ rest.1)
run_steps w (completes key ∷ steps) =
    let rest = run_steps w steps in (rest.0, round_calls w key ++ rest.1)

root_open :
    (roots : List Root) (key : ℕ) (root : Root)
    → get_elem? roots key ≡ some root
    → (0 < count root.handle (handles roots)) × (0 < count root.event (handles roots))
root_open [] key root e = ground arith
root_open (r ∷ roots) zero root e = ground arith
root_open (r ∷ roots) (suc key) root e = ground (arith, root_open roots key root e)

rearm-none : (roots : List Root) (key : ℕ) → get_elem? roots key ≡ none → rearm roots key ≡ []
unfolding rearm
rearm-none roots key gone = ground arith

rearm-some :
    (roots : List Root) (key : ℕ) (root : Root)
    → get_elem? roots key ≡ some root
    → rearm roots key ≡ used root.handle ∷ used root.event ∷ []
unfolding rearm issue_read
rearm-some roots key root there = ground arith

rearm-InOrder :
    (roots : List Root) (key : ℕ) (c : ℕ → ℕ)
    → ((h : ℕ) → count h (handles roots) ≤ c h)
    → InOrder (rearm roots key) c c
rearm-InOrder roots key c enough = elim (Option-cases (get_elem? roots key)) [
  | inl gone ↦
      subst (λ (us : List Use). InOrder us c c) (sym (rearm-none roots key gone)) (λ k. refl)
  | inr (root, there) ↦
      let (handle, event) = root_open roots key root there in
      subst (λ (us : List Use). InOrder us c c) (sym (rearm-some roots key root there))
        (
          omega (arith, handle, enough root.handle),
          (omega (arith, event, enough root.event), λ k. refl),
        )
]

round_calls-InOrder :
    (w : WindowsWatcher) (key : Option ℕ)
    → w.is_shutdown ≡ false
    → InOrder (round_calls w key) (held w) (held w)
unfolding round_calls
round_calls-InOrder w none alive = (ground arith, λ k. refl)
round_calls-InOrder w (some key) alive =
    (ground arith, rearm-InOrder w.roots key (held w) (λ h. ground arith))

run_steps-InOrder :
    (w : WindowsWatcher) (steps : List Step)
    → w.is_shutdown ≡ false
    → InOrder (run_steps w steps).1 (held w) (held (run_steps w steps).0)
unfolding run_steps
run_steps-InOrder w [] alive = λ k. refl
run_steps-InOrder w (watches (path, recursive, answers) ∷ steps) alive =
    let now = watch_dir-InOrder w alive path recursive answers in
    let next = (watch_dir w path recursive answers).0 in
    InOrder-append (watch_dir w path recursive answers).2 (run_steps next steps).1 (held w)
      (held next) (held (run_steps next steps).0) now.0 (run_steps-InOrder next steps now.1)
run_steps-InOrder w (completes key ∷ steps) alive =
    InOrder-append (round_calls w key) (run_steps w steps).1 (held w) (held w)
      (held (run_steps w steps).0) (round_calls-InOrder w key alive)
      (run_steps-InOrder w steps alive)

-- A watcher that is shut down makes no call any more, however often it is shut down again.
shut_down_all : WindowsWatcher → List (Root → Bool) → WindowsWatcher × List Use
shut_down_all w [] = (w, [])
shut_down_all w (cancelled ∷ more') =
    let now = shutdown w cancelled in
    let rest = shut_down_all now.0 more' in (rest.0, now.1 ++ rest.1)

shutdown_again :
    (w : WindowsWatcher) (cancelled : Root → Bool)
    → w.is_shutdown ≡ true
    → shutdown w cancelled ≡ (w, [])
unfolding shutdown
shutdown_again w cancelled down = simp (down)

shut_down_all_again :
    (w : WindowsWatcher) (again : List (Root → Bool))
    → w.is_shutdown ≡ true
    → shut_down_all w again ≡ (w, [])
unfolding shut_down_all
shut_down_all_again w [] down = refl
shut_down_all_again w (cancelled ∷ again) down =
    simp (shutdown_again w cancelled down, shut_down_all_again w again down)

drop_again :
    (w : WindowsWatcher) (cancelled : Root → Bool)
    → w.is_shutdown ≡ true
    → drop w cancelled ≡ (w, [])
unfolding drop
drop_again w cancelled down = simp (down)

-- The calls on the handles: a watcher is made, paths are watched and the completion thread makes rounds,
-- it is shut down, perhaps again, and dropped.
unfoldable pub handle_life : ℕ → List Step → (Root → Bool) → List (Root → Bool) → List Use
unfolding new run_steps shutdown shut_down_all drop
handle_life iocp steps cancelled again =
    let watched = run_steps (new iocp) steps in
    let down = shutdown watched.0 cancelled in
    let downs = shut_down_all down.0 again in
    acquired iocp ∷ (watched.1 ++ (down.1 ++ (downs.1 ++ (drop downs.0 cancelled).1)))

-- Every handle that a watcher opens, it closes once, and it uses none that is closed, whatever the system
-- calls answer (on the error paths of `watch_dir` as well), and however often it is shut down. In the
-- end nothing is open. This is said of the calls of its clients, who watch paths before the shutdown
-- only, and of the rounds of the completion thread up to the shutdown, in any order; the thread's last
-- wait, which the shutdown ends, and which may come after the port was closed, is not among them.
pub handle_life-InOrder :
    (iocp : ℕ) (steps : List Step) (cancelled : Root → Bool) (again : List (Root → Bool))
    → InOrder (handle_life iocp steps cancelled again) nothing nothing
unfolding handle_life new
handle_life-InOrder iocp steps cancelled again =
    let watched = run_steps (new iocp) steps in
    let closing = shutdown-InOrder watched.0 cancelled in
    let down = (shutdown watched.0 cancelled).0 in
    let calls = (shutdown watched.0 cancelled).1 in
    simp (shut_down_all_again down again closing.1, drop_again down cancelled closing.1)
      (InOrder-from (watched.1 ++ (calls ++ [])) (held (new iocp)) (more iocp nothing) nothing
        (λ k. ground arith)
        (InOrder-append watched.1 (calls ++ []) (held (new iocp)) (held watched.0) nothing
          (run_steps-InOrder (new iocp) steps refl)
          (InOrder-append calls [] (held watched.0) nothing nothing closing.0 (λ k. refl))))

-- For a path that no root covers and whose directory opens, with another handle than that of the
-- closed port, the calls of `watch_dir` on a watcher that is shut down are not in order, whatever
-- else the system answers: it does not ask whether the watcher is shut down, and uses the port.
pub late_watch-InOrder :
    (w : WindowsWatcher) (path : CanonicalPathBuf) (recursive : Bool) (answers : Answers)
    (handle : ℕ) (d : ℕ → ℕ)
    → w.is_shutdown ≡ true
    → covers path w.roots ≡ false
    → answers.file ≡ some handle
    → handle ≢ w.iocp
    → ¬ InOrder (watch_dir w path recursive answers).2 (held w) d
unfolding watch_dir open_root
late_watch-InOrder w path recursive answers handle d down fresh e other =
    elim (Bool-cases answers.bound) [
      | inr unbound ↦ rw (fresh, e, unbound) (λ h. ground arith)
      | inl bound ↦ elim (Option-cases answers.event) [
        | inl no_event ↦ rw (fresh, e, bound, no_event) (λ h. ground arith)
        | inr (event, f) ↦ elim (Bool-cases answers.read) [
          | inl read ↦ rw (fresh, e, bound, f, read) (λ h. ground arith)
          | inr unread ↦ rw (fresh, e, bound, f, unread) (λ h. ground arith)
        ]
      ]
    ]
