-- ===== src/FsEvent/Life.antt =====
-- What the FSEvents backend takes from the system over its life: it gives each of them back once, and
-- uses none that it gave back.
use filesentry.Common.{
  ℕ, ◌≡◌, refl, true, false, none, List, [], ◌∷◌, ◌++◌, arith, Bool-cases, inl, inr,
}
use filesentry.Path.{CanonicalPathBuf}
use filesentry.Resources.{Use, acquired, released, InOrder, InOrder-from, InOrder-append, more}
use filesentry.FsEvent.{
  FsEventWatcher, Answers, new, create_stream, stop_stream, rebuild_stream, covers, watch_dir,
  shutdown, drop,
}
use filesentry.FsEvent.Streams.{held, stopped, stop_stream-InOrder, rebuild_stream-InOrder}

pub rebuild_stream-alive :
    (w : FsEventWatcher) (answers : Answers)
    → (rebuild_stream w answers).0.is_shutdown ≡ w.is_shutdown
unfolding rebuild_stream create_stream
rebuild_stream-alive w answers = ground arith

-- The calls of a watcher's clients, in any order and number.
pub data Call : Type 0 where
  watches : CanonicalPathBuf → Answers → Call
  shuts_down : Call

unfoldable pub run : FsEventWatcher → List Call → FsEventWatcher × List Use
unfolding watch_dir shutdown
run w [] = (w, [])
run w (watches path answers ∷ calls) =
    let (next, ok, now) = watch_dir w path answers in
    let (end, rest) = run next calls in (end, now ++ rest)
run w (shuts_down ∷ calls) =
    let (next, now) = shutdown w in let (end, rest) = run next calls in (end, now ++ rest)

-- A watcher that is shut down has no stream, and none is made for it.
abbrev Stopped : FsEventWatcher → Type 0
Stopped w = w.is_shutdown ≡ true → w.stream ≡ none

pub watch_dir_stopped :
    (w : FsEventWatcher) (path : CanonicalPathBuf) (answers : Answers)
    → w.is_shutdown ≡ true
    → watch_dir w path answers ≡ (w, true, [])
unfolding watch_dir
watch_dir_stopped w path answers down = ground arith

pub watch_dir_covered :
    (w : FsEventWatcher) (path : CanonicalPathBuf) (answers : Answers)
    → covers path w.roots ≡ true
    → watch_dir w path answers ≡ (w, true, [])
unfolding watch_dir
watch_dir_covered w path answers covered = ground arith

pub watch_dir_fresh :
    (w : FsEventWatcher) (path : CanonicalPathBuf) (answers : Answers)
    → w.is_shutdown ≡ false
    → covers path w.roots ≡ false
    → watch_dir w path answers ≡ rebuild_stream (record w { roots = w.roots ++ path ∷ [] }) answers
unfolding watch_dir
watch_dir_fresh w path answers alive fresh = ground arith

watch_dir-InOrder :
    (w : FsEventWatcher) (path : CanonicalPathBuf) (answers : Answers)
    → Stopped w
    → InOrder (watch_dir w path answers).2 (held w) (held (watch_dir w path answers).0)
      × Stopped (watch_dir w path answers).0
watch_dir-InOrder w path answers none' = elim (Bool-cases w.is_shutdown) [
  | inl down ↦ rw (watch_dir_stopped w path answers down) ((λ h. refl), none')
  | inr alive ↦ elim (Bool-cases (covers path w.roots)) [
    | inl covered ↦ rw (watch_dir_covered w path answers covered) ((λ h. refl), none')
    | inr fresh ↦
        let w' = record w { roots = w.roots ++ path ∷ [] } in
        rw (watch_dir_fresh w path answers alive fresh)
          (rebuild_stream-InOrder w' answers, λ e. ground (arith, rebuild_stream-alive w' answers))
  ]
]

shutdown-InOrder :
    (w : FsEventWatcher)
    → InOrder (shutdown w).1 (held w) (held (shutdown w).0) × Stopped (shutdown w).0
unfolding shutdown
shutdown-InOrder w = (
  stop_stream-InOrder w.queue w.stream (held w) (held (stopped w)) (λ h. ground arith)
      (ground arith),
  λ e. refl,
)

run-InOrder :
    (w : FsEventWatcher) (calls : List Call)
    → Stopped w
    → InOrder (run w calls).1 (held w) (held (run w calls).0) × Stopped (run w calls).0
unfolding run
run-InOrder w [] s = ((λ h. refl), s)
run-InOrder w (watches path answers ∷ calls) s =
    let (now, s') = watch_dir-InOrder w path answers s in
    let next = (watch_dir w path answers).0 in
    let (rest, s'') = run-InOrder next calls s' in
    (
      InOrder-append (watch_dir w path answers).2 (run next calls).1 (held w) (held next)
          (held (run next calls).0) now rest,
      s'',
    )
run-InOrder w (shuts_down ∷ calls) s =
    let (now, s') = shutdown-InOrder w in
    let next = (shutdown w).0 in
    let (rest, s'') = run-InOrder next calls s' in
    (
      InOrder-append (shutdown w).1 (run next calls).1 (held w) (held next)
          (held (run next calls).0) now rest,
      s'',
    )

-- All calls on what the system handed out, from `new` to `Drop`.
unfoldable pub stream_life : ℕ → List Call → List Use
unfolding new run drop
stream_life queue calls =
    let (end, made) = run (new queue) calls in acquired queue ∷ (made ++ drop end)

drop-InOrder : (w : FsEventWatcher) → Stopped w → InOrder (drop w) (held w) (λ h. 0)
unfolding drop shutdown
drop-InOrder w s = elim (Bool-cases w.is_shutdown) [
  | inl down ↦ simp (down) (ground (arith, s down), λ k. ground (arith, s down))
  | inr alive ↦ simp (alive) (
      InOrder-append (stop_stream w.queue w.stream) (released w.queue ∷ []) (held w)
        (held (stopped w)) (λ h. 0)
        (stop_stream-InOrder w.queue w.stream (held w) (held (stopped w)) (λ h. ground arith)
          (ground arith))
        (ground arith, λ k. ground arith))
]

-- Over the whole life of a watcher, whatever its clients call in whatever order and whatever the system
-- answers, the queue, every stream with its box, every array and every string is given back once and
-- not used afterwards. A stream uses the dispatch queue until it is invalidated, so the queue outlives
-- the streams.
pub stream_life-InOrder :
    (queue : ℕ) (calls : List Call) → InOrder (stream_life queue calls) (λ h. 0) (λ h. 0)
unfolding stream_life new
stream_life-InOrder queue calls =
    let (made, s) = run-InOrder (new queue) calls (λ e. refl) in
    let end = (run (new queue) calls).0 in
    InOrder-append (run (new queue) calls).1 (drop end) (more queue (λ h. 0)) (held end) (λ h. 0)
      (InOrder-from (run (new queue) calls).1 (held (new queue)) (more queue (λ h. 0)) (held end)
        (λ k. ground arith) made)
      (drop-InOrder end s)
