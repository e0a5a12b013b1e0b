-- ===== src/FsEvent/Roots.antt =====
-- `watch_dir` of src/fsevent.rs: what the stream is made with, and what is left when there is none.
use filesentry.Common.{
  ℕ, ◌≡◌, refl, true, false, Option, none, some, List, [], ◌∷◌, ◌++◌, arith, In, map, inl, inr,
  Bool-cases, Option-cases, ◌↔◌, ◌≢◌, ◌⊎◌, ap, subst, sym,
}
use filesentry.Path.{CanonicalPathBuf}
use filesentry.Path.Bytes.{path_eq_refl}
use filesentry.FsEvent.{
  Stream, FsEventWatcher, Answers, cf_strings, cf_paths, create_stream, rebuild_stream, covers,
  no_roots, resume_id, watch_dir,
}
use filesentry.FsEvent.Life.{watch_dir_covered, watch_dir_fresh}

pub covers-append :
    (path : CanonicalPathBuf) (roots : List CanonicalPathBuf)
    → covers path (roots ++ path ∷ []) ≡ true
unfolding covers
covers-append path [] = ground (arith, path_eq_refl path)
covers-append path (r ∷ roots) = ground (arith, covers-append path roots)

pub no_roots-append :
    (path : CanonicalPathBuf) (roots : List CanonicalPathBuf)
    → no_roots (roots ++ path ∷ []) ≡ false
unfolding no_roots
no_roots-append path [] = refl
no_roots-append path (r ∷ roots) = refl

abbrev strings_of : (CanonicalPathBuf → Option ℕ) → List CanonicalPathBuf → List CanonicalPathBuf
strings_of string paths = map (λ (x : CanonicalPathBuf × ℕ). x.0) (cf_strings string paths)

strings_of-none :
    (string : CanonicalPathBuf → Option ℕ) (x : CanonicalPathBuf) (ps : List CanonicalPathBuf)
    → string x ≡ none
    → strings_of string (x ∷ ps) ≡ strings_of string ps
unfolding cf_strings
strings_of-none string x ps e = ground arith

strings_of-some :
    (string : CanonicalPathBuf → Option ℕ) (x : CanonicalPathBuf) (ps : List CanonicalPathBuf)
    (s : ℕ)
    → string x ≡ some s
    → strings_of string (x ∷ ps) ≡ x ∷ strings_of string ps
unfolding cf_strings
strings_of-some string x ps s e = ground arith

In-strings_of :
    (string : CanonicalPathBuf → Option ℕ) (paths : List CanonicalPathBuf) (p : CanonicalPathBuf)
    → In p (strings_of string paths) ↔ (In p paths × (string p ≢ none))
unfolding cf_strings
In-strings_of string paths p = (fwd paths, λ h. bwd paths h.0 h.1)
  where
    fwd : (ps : List CanonicalPathBuf) → In p (strings_of string ps) → In p ps × (string p ≢ none)
    fwd [] h = absurd h
    fwd (x ∷ ps) h =
        let rest = fwd ps in
        elim (Option-cases (string x)) [
          | inl skipped ↦
              let (there, utf8) = rest (subst (In p) (strings_of-none string x ps skipped) h) in
              (inr there, utf8)
          | inr (s, e) ↦ elim (subst (In p) (strings_of-some string x ps s e) h) [
            | inl same ↦ (inl same, λ n. ground (arith, ap string same))
            | inr later ↦ (inr (rest later).0, (rest later).1)
          ]
        ]

    bwd : (ps : List CanonicalPathBuf) → In p ps → string p ≢ none → In p (strings_of string ps)
    bwd [] h n = absurd h
    bwd (x ∷ ps) h n =
        let rest = bwd ps in
        elim (Option-cases (string x)) [
          | inl skipped ↦ subst (In p) (sym (strings_of-none string x ps skipped)) (elim h [
            | inl same ↦ absurd (n (ground (arith, ap string same)))
            | inr later ↦ rest later n
          ])
          | inr (s, e) ↦
              subst (In p) (sym (strings_of-some string x ps s e))
                (elim h [ inl same ↦ inl same | inr later ↦ inr (rest later n) ])
        ]

-- The stream that `create_stream` leaves when it succeeds.
abbrev made : FsEventWatcher → Answers → ℕ → Stream
made w answers ref = record {
  ref = ref;
  info = answers.info;
  paths = strings_of answers.string w.roots;
  since_when = resume_id w.last_event_id answers.current_id;
}

create_stream-cases :
    (w : FsEventWatcher) (answers : Answers)
    → (((create_stream w answers).1 ≡ true)
        × (ref : ℕ) × ((create_stream w answers).0.stream ≡ some (made w answers ref)))
      ⊎ (((create_stream w answers).1 ≡ false)
          × ((create_stream w answers).0.stream ≡ w.stream)
          × ((create_stream w answers).0.roots ≡ w.roots))
unfolding create_stream cf_paths
create_stream-cases w answers = elim (Option-cases answers.created) [
  | inl failed ↦ inr (ground arith, ground arith, ground arith)
  | inr (ref, e) ↦ elim (Bool-cases answers.started) [
    | inl runs ↦ inl (ground arith, ref, ground arith)
    | inr refused ↦ inr (ground arith, ground arith, ground arith)
  ]
]

module _ (w : FsEventWatcher) (path : CanonicalPathBuf) (answers : Answers)
    (alive : w.is_shutdown ≡ false) (fresh : covers path w.roots ≡ false) where
  rebuilt :
      (((watch_dir w path answers).1 ≡ true)
        × (ref : ℕ) × ((watch_dir w path answers).0.stream
            ≡ some (made (record w { roots = w.roots ++ path ∷ [] }) answers ref)))
      ⊎ (((watch_dir w path answers).1 ≡ false)
          × ((watch_dir w path answers).0.stream ≡ none)
          × ((watch_dir w path answers).0.roots ≡ w.roots ++ path ∷ []))
  unfolding rebuild_stream
  rebuilt = rw (watch_dir_fresh w path answers alive fresh) (
      rw (no_roots-append path w.roots)
        (create_stream-cases (record w { roots = w.roots ++ path ∷ []; stream = none }) answers))

  -- When a path that no root covers is watched and the watcher is not shut down, and the result
  -- is `Ok`, there is a stream, of every root old and new whose path is UTF-8 and of nothing else, which
  -- resumes from the newest id that was seen, or from the current one.
  pub watch_dir_ok :
      (watch_dir w path answers).1 ≡ true
      → (s : Stream) × ((watch_dir w path answers).0.stream ≡ some s)
        × ((p : CanonicalPathBuf)
            → In p s.paths ↔ (In p (w.roots ++ path ∷ []) × (answers.string p ≢ none)))
        × (s.since_when ≡ resume_id w.last_event_id answers.current_id)
  watch_dir_ok ok = elim rebuilt [
    | inl (e, ref, there) ↦ (
      made (record w { roots = w.roots ++ path ∷ [] }) answers ref,
      there,
      λ p. In-strings_of answers.string (w.roots ++ path ∷ []) p,
      refl,
    )
    | inr (e, _, _) ↦ absurd (ground (arith, ok, e))
  ]

  -- When a path that no root covers is watched, the watcher is not shut down, and the result is an
  -- error, the old roots have no stream any more, and the path is a root nevertheless: to watch it
  -- again is `Ok`, makes no call, and leaves it without a stream.
  pub watch_dir_failed :
      (again : Answers)
      → (watch_dir w path answers).1 ≡ false
      → ((watch_dir w path answers).0.stream ≡ none)
        × (watch_dir (watch_dir w path answers).0 path again
            ≡ ((watch_dir w path answers).0, true, []))
  watch_dir_failed again failed = elim rebuilt [
    | inl (e, _, _) ↦ absurd (ground (arith, failed, e))
    | inr (e, none', roots) ↦ (
      none',
      watch_dir_covered (watch_dir w path answers).0 path again
          (rw roots (covers-append path w.roots)),
    )
  ]
