-- ===== src/FsEvent/Streams.antt =====
-- `rebuild_stream` gives back what it takes from the system, but for the stream that runs in the end.
use filesentry.Common.{
  ℕ, ◌≡◌, ◌<◌, ◌+◌, refl, Option, none, some, List, [], ◌∷◌, ◌++◌, arith, Bool-cases, Option-cases,
  inl, inr, map, ◌≤◌,
}
use filesentry.Path.{CanonicalPathBuf}
use filesentry.Resources.{
  Use, acquired, used, released, count, InOrder, InOrder-from, InOrder-append, more, fewer,
}
use filesentry.FsEvent.{
  Stream, FsEventWatcher, Answers, cf_strings, cf_paths, each, stop_stream, create_stream, creating,
  starting, rebuild_stream, no_roots,
}

abbrev pub handles : Option Stream → List ℕ
handles none = []
handles (some s) = s.ref ∷ s.info ∷ []

-- What the watcher has to give back: its queue, and its stream with the box of it.
abbrev pub held : FsEventWatcher → ℕ → ℕ
held w h = count h (w.queue ∷ handles w.stream)

abbrev refs : List (CanonicalPathBuf × ℕ) → List ℕ
refs strings = map (λ (x : CanonicalPathBuf × ℕ). x.1) strings

each-acquired :
    (strings : List (CanonicalPathBuf × ℕ)) (c d : ℕ → ℕ)
    → ((h : ℕ) → d h ≡ count h (refs strings) + c h)
    → InOrder (each acquired strings) c d
each-acquired [] c d e = λ h. omega (arith, e h)
each-acquired ((p, s) ∷ strings) c d e =
    each-acquired strings (more s c) d (λ h. ground (arith, e h))

each-used :
    (strings : List (CanonicalPathBuf × ℕ)) (c : ℕ → ℕ)
    → ((h : ℕ) → count h (refs strings) ≤ c h)
    → InOrder (each used strings) c c
each-used [] c enough = λ h. refl
each-used ((p, s) ∷ strings) c enough =
    (ground (arith, enough s), each-used strings c (λ h. ground (arith, enough h)))

each-released :
    (strings : List (CanonicalPathBuf × ℕ)) (c d : ℕ → ℕ)
    → ((h : ℕ) → c h ≡ count h (refs strings) + d h)
    → InOrder (each released strings) c d
each-released [] c d e = λ h. omega (arith, e h)
each-released ((p, s) ∷ strings) c d e =
    (ground (arith, e s), each-released strings (fewer s c) d (λ h. ground (arith, e h)))

-- `cf_paths` gives its strings back, and leaves the array.
cf_paths-InOrder :
    (string : CanonicalPathBuf → Option ℕ) (array : ℕ) (paths : List CanonicalPathBuf) (c : ℕ → ℕ)
    → InOrder (cf_paths string array paths).1 c (more array c)
unfolding cf_paths
cf_paths-InOrder string array paths c =
    let strings = cf_strings string paths in
    let both : ℕ → ℕ = λ h. count h (refs strings) + c h in
    InOrder-append (each acquired strings)
      (each used strings ++ (acquired array ∷ each released strings)) c both (more array c)
      (each-acquired strings c both (λ h. refl))
      (InOrder-append (each used strings) (acquired array ∷ each released strings) both both
        (more array c) (each-used strings both (λ h. omega arith))
        (each-released strings (more array both) (more array c) (λ h. ground arith)))

pub stop_stream-InOrder :
    (queue : ℕ) (stream : Option Stream) (c d : ℕ → ℕ)
    → ((h : ℕ) → c h ≡ count h (handles stream) + d h)
    → 0 < d queue
    → InOrder (stop_stream queue stream) c d
unfolding stop_stream
stop_stream-InOrder queue none c d e open' = λ h. omega (arith, e h)
stop_stream-InOrder queue (some s) c d e open' = (
  ground (arith, e s.ref),
  (
    ground (arith, e s.ref),
    (
      omega (arith, e queue, open'),
      (ground (arith, e s.ref), (ground (arith, e s.info), λ h. ground (arith, e h))),
    ),
  ),
)

abbrev pub stopped : FsEventWatcher → FsEventWatcher
stopped w = record w { stream = none }

module _ (w : FsEventWatcher) (answers : Answers) where
  creating-InOrder :
      (rest : List Use) (d : ℕ → ℕ)
      → InOrder rest (more answers.array (more answers.info (held w))) d
      → InOrder (creating w answers rest) (held w) d
  unfolding creating
  creating-InOrder rest d h =
      InOrder-append (cf_paths answers.string answers.array w.roots).1
        (acquired answers.info ∷ used answers.array ∷ rest) (held w) (more answers.array (held w)) d
        (cf_paths-InOrder answers.string answers.array w.roots (held w))
        (
          ground arith,
          InOrder-from rest (more answers.array (more answers.info (held w)))
              (more answers.info (more answers.array (held w))) d (λ k. ground arith) h,
        )

  starting-InOrder :
      (ref : ℕ) (rest : List Use) (c d : ℕ → ℕ)
      → 0 < c w.queue
      → InOrder rest (more ref c) d
      → InOrder (starting w answers ref rest) (more answers.array c) d
  unfolding starting
  starting-InOrder ref rest c d queue h = (
    ground arith,
    (
      ground arith,
      (
        ground (arith, queue),
        (
          ground arith,
          InOrder-from rest (more ref c) (fewer answers.array (more ref (more answers.array c))) d
              (λ k. ground arith) h,
        ),
      ),
    ),
  )

module _ (w : FsEventWatcher) (answers : Answers) where
  create_stream-InOrder :
      InOrder
        (create_stream (stopped w) answers).2
        (held (stopped w))
        (held (create_stream (stopped w) answers).0)
  unfolding create_stream
  create_stream-InOrder = elim (Option-cases answers.created) [
    | inl failed ↦ rw failed (
        creating-InOrder (stopped w) answers (released answers.array ∷ released answers.info ∷ [])
          (held (stopped w)) (ground arith, (ground arith, λ k. ground arith)))
    | inr (ref, made) ↦
        let boxed = more answers.info (held (stopped w)) in
        elim (Bool-cases answers.started) [
          | inl runs ↦
              rw (made, runs)
                (creating-InOrder (stopped w) answers (starting (stopped w) answers ref [])
                  (λ k. count k (w.queue ∷ ref ∷ answers.info ∷ []))
                  (starting-InOrder (stopped w) answers ref [] boxed
                    (λ k. count k (w.queue ∷ ref ∷ answers.info ∷ [])) (ground arith)
                    (λ k. ground arith)))
          | inr refused ↦
              let undo = used ref ∷ used w.queue ∷ released ref ∷ released answers.info ∷ [] in
              rw (made, refused)
                (creating-InOrder (stopped w) answers (starting (stopped w) answers ref undo)
                  (held (stopped w))
                  (starting-InOrder (stopped w) answers ref undo boxed (held (stopped w))
                    (ground arith)
                    (
                      ground arith,
                      (ground arith, (ground arith, (ground arith, λ k. ground arith))),
                    )))
        ]
  ]

  pub rebuild_stream-InOrder :
      InOrder (rebuild_stream w answers).2 (held w) (held (rebuild_stream w answers).0)
  unfolding rebuild_stream
  rebuild_stream-InOrder = elim (Bool-cases (no_roots w.roots)) [
    | inl empty ↦ rw empty (
        stop_stream-InOrder w.queue w.stream (held w) (held (stopped w)) (λ h. ground arith)
          (ground arith))
    | inr some_roots ↦ rw some_roots (
        InOrder-append (stop_stream w.queue w.stream) (create_stream (stopped w) answers).2 (held w)
          (held (stopped w)) (held (create_stream (stopped w) answers).0)
          (stop_stream-InOrder w.queue w.stream (held w) (held (stopped w)) (λ h. ground arith)
            (ground arith))
          create_stream-InOrder)
  ]
