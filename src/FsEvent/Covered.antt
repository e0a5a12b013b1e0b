-- ===== src/FsEvent/Covered.antt =====
-- The paths that src/fsevent.rs was asked to watch are covered by its stream.
use filesentry.Common.{
  ℕ, ◌≡◌, ◌≢◌, ◌∙◌, refl, true, false, ◌||◌, none, some, List, [], ◌∷◌, ◌++◌, arith, In,
  In-append_left, subst, sym, inl, inr, Bool-cases, Option-cases,
}
use filesentry.Path.{CanonicalPathBuf, path_eq, is_parent_of}
use filesentry.FsEvent.{
  Stream, FsEventWatcher, Answers, create_stream, rebuild_stream, covers, watch_dir, new,
}
use filesentry.FsEvent.Life.{watch_dir_covered, watch_dir_fresh, rebuild_stream-alive}
use filesentry.FsEvent.Roots.{watch_dir_ok, covers-append}

-- The system calls of a rebuild succeed, and every path is UTF-8.
abbrev pub Healthy : Answers → Type 0
Healthy answers =
    ((p : CanonicalPathBuf) → answers.string p ≢ none)
    × (answers.created ≢ none)
    × (answers.started ≡ true)

abbrev pub Watches : Type 0
Watches = List (CanonicalPathBuf × Answers)

abbrev pub AllHealthy : Watches → Type 0
AllHealthy [] = Unit
AllHealthy ((p, answers) ∷ watches) = Healthy answers × AllHealthy watches

abbrev pub paths_of : Watches → List CanonicalPathBuf
paths_of [] = []
paths_of ((p, answers) ∷ watches) = p ∷ paths_of watches

unfoldable pub watch_all : FsEventWatcher → Watches → FsEventWatcher
watch_all w [] = w
watch_all w ((p, answers) ∷ watches) = watch_all (watch_dir w p answers).0 watches

-- A path of the list is the path, or an ancestor of it.
abbrev pub CoveredBy : List CanonicalPathBuf → CanonicalPathBuf → Type 0
CoveredBy paths p =
    (r : CanonicalPathBuf) × In r paths × ((is_parent_of r.buf p.buf || path_eq r p) ≡ true)

covers-CoveredBy :
    (p : CanonicalPathBuf) (roots : List CanonicalPathBuf)
    → covers p roots ≡ true
    → CoveredBy roots p
unfolding covers
covers-CoveredBy p [] h = ground arith
covers-CoveredBy p (r ∷ roots) h =
    let rest = covers-CoveredBy p roots in
    elim (Bool-cases (is_parent_of r.buf p.buf || path_eq r p)) [
      | inl own ↦ (r, inl refl, own)
      | inr other ↦ let (q, at, e) = rest (ground arith) in (q, inr at, e)
    ]

-- The watcher runs, and a stream has every root.
abbrev Streams : FsEventWatcher → Type 0
Streams w =
    (w.is_shutdown ≡ false)
    × ((p : CanonicalPathBuf) → In p w.roots → (s : Stream) × (w.stream ≡ some s) × In p s.paths)

rebuild_stream-roots :
    (w : FsEventWatcher) (answers : Answers) → (rebuild_stream w answers).0.roots ≡ w.roots
unfolding rebuild_stream create_stream
rebuild_stream-roots w answers = ground arith

rebuild_stream_ok :
    (w : FsEventWatcher) (answers : Answers) → Healthy answers → (rebuild_stream w answers).1 ≡ true
unfolding rebuild_stream create_stream
rebuild_stream_ok w answers (_, created, started) = elim (Option-cases answers.created) [
  | inl e ↦ absurd (created e)
  | inr (ref, e) ↦ ground arith
]

module _ (w : FsEventWatcher) (path : CanonicalPathBuf) (answers : Answers)
    (healthy : Healthy answers) (streams : Streams w) where
  watch_dir-Streams :
      Streams (watch_dir w path answers).0
      × ((q : CanonicalPathBuf) → In q w.roots → In q (watch_dir w path answers).0.roots)
      × CoveredBy (watch_dir w path answers).0.roots path
  watch_dir-Streams = elim (Bool-cases (covers path w.roots)) [
    | inl covered ↦
        rw (watch_dir_covered w path answers covered)
          (streams, (λ q h. h), covers-CoveredBy path w.roots covered)
    | inr fresh ↦
        let w' = record w { roots = w.roots ++ path ∷ [] } in
        let e = watch_dir_fresh w path answers (streams.0) fresh in
        let roots : (watch_dir w path answers).0.roots ≡ w.roots ++ path ∷ [] =
          rw e (rebuild_stream-roots w' answers) in
        let alive : (watch_dir w path answers).0.is_shutdown ≡ false =
          rw e (rebuild_stream-alive w' answers ∙ streams.0) in
        let ok : (watch_dir w path answers).1 ≡ true =
          rw e (rebuild_stream_ok w' answers healthy) in
        let (s, running, exact, _) = watch_dir_ok w path answers (streams.0) fresh ok in
        (
          (alive, λ p h. (s, running, (exact p).1 (subst (λ x. In p x) roots h, healthy.0 p))),
          (λ q h. subst (λ x. In q x) (sym roots) (In-append_left q w.roots (path ∷ []) h)),
          subst (λ x. CoveredBy x path) (sym roots)
              (covers-CoveredBy path (w.roots ++ path ∷ []) (covers-append path w.roots)),
        )
  ]

watch_all-Streams :
    (w : FsEventWatcher) (watches : Watches)
    → AllHealthy watches
    → Streams w
    → Streams (watch_all w watches)
      × ((q : CanonicalPathBuf) → In q w.roots → In q (watch_all w watches).roots)
      × ((p : CanonicalPathBuf) → In p (paths_of watches) → CoveredBy (watch_all w watches).roots p)
unfolding watch_all
watch_all-Streams w [] healthy streams = (streams, (λ q h. h), λ p h. absurd h)
watch_all-Streams w ((path, answers) ∷ watches) healthy streams =
    let (now, kept, covered) = watch_dir-Streams w path answers healthy.0 streams in
    let (end, later, others) =
      watch_all-Streams (watch_dir w path answers).0 watches healthy.1 now in
    (
      end,
      (λ q h. later q (kept q h)),
      λ p h. elim h [
        | inl same ↦ let (r, at, e) = covered in (r, later r at, rw same e)
        | inr other ↦ others p other
      ],
    )

-- Where the system calls succeed and the paths are UTF-8, every path that a new watcher is asked to watch,
-- in whatever order and with whatever repetitions and overlaps, is in the end covered by the one stream:
-- it or an ancestor of it is among the paths that the stream was made with.
pub watched_covered :
    (queue : ℕ) (watches : Watches) (p : CanonicalPathBuf)
    → AllHealthy watches
    → In p (paths_of watches)
    → (s : Stream) × ((watch_all (new queue) watches).stream ≡ some s) × CoveredBy s.paths p
unfolding new
watched_covered queue watches p healthy asked =
    let ((_, streamed), _, covered) =
      watch_all-Streams (new queue) watches healthy (refl, λ q h. absurd h) in
    let (r, at, e) = covered p asked in
    let (s, running, there) = streamed r at in (s, running, (r, there, e))
