-- ===== src/Windows/Keys.antt =====
-- The key that src/windows.rs binds a directory with is the place of its root, for as long as it runs.
use filesentry.Common.{
  ℕ, ◌≡◌, ◌≤◌, ◌+◌, ◌^◌, ◌∙◌, refl, Bool, true, false, some, List, [], ◌∷◌, ◌++◌, arith, length,
  get_elem?, get_elem?-append_left, get_elem?_lt, inl, inr, Bool-cases, Option-cases,
}
use filesentry.HashTable.{Hashing}
use filesentry.Path.{CanonicalPathBuf}
use filesentry.Config.{Filter}
use filesentry.Pending.{PendingChanges}
use filesentry.Pending.View
use filesentry.Pending.View.{pending}
use filesentry.Pending.Batches.{reported}
use filesentry.Windows.{
  Root, WindowsWatcher, Answers, open_root, covers, watch_dir, Round, completed, completion_round,
  rearm, key_of,
}
use filesentry.Windows.Handles.{watch_dir-InOrder}
use filesentry.Windows.Life.{Watch, watch_all}
use filesentry.Windows.Completions.{completion_round-layout}
use filesentry.Windows.Records.{Actions}
use filesentry.Windows.Records.Layout.{Record, layout, reports_of}

get_elem?_last :
    (roots : List Root) (r : Root) → get_elem? (roots ++ r ∷ []) (length roots) ≡ some r
get_elem?_last [] r = refl
get_elem?_last (x ∷ roots) r = get_elem?_last roots r

-- No root moves when a path is watched.
watch_dir-get_elem? :
    (w : WindowsWatcher) (path : CanonicalPathBuf) (recursive : Bool) (answers : Answers) (i : ℕ)
    (r : Root)
    → get_elem? w.roots i ≡ some r
    → get_elem? (watch_dir w path recursive answers).0.roots i ≡ some r
unfolding watch_dir open_root
watch_dir-get_elem? w path recursive answers i r at =
    let kept : (x : Root) → get_elem? (w.roots ++ x ∷ []) i ≡ some r =
      λ x. get_elem?-append_left w.roots (x ∷ []) i (get_elem?_lt w.roots i at) ∙ at in
    elim (Bool-cases (covers path w.roots)) [
      | inl covered ↦ ground (arith, at)
      | inr fresh ↦ elim (Option-cases answers.file) [
        | inl no_file ↦ ground (arith, at)
        | inr (handle, e) ↦ elim (Option-cases answers.event) [
          | inl no_event ↦ ground (arith, at)
          | inr (event, f) ↦ ground (
            arith,
            at,
            kept (record { path = path; handle = handle; event = event; recursive = recursive }),
          )
        ]
      ]
    ]

watch_all-get_elem? :
    (w : WindowsWatcher) (watches : List Watch) (i : ℕ) (r : Root)
    → w.is_shutdown ≡ false
    → get_elem? w.roots i ≡ some r
    → (get_elem? (watch_all w watches).0.roots i ≡ some r)
      × ((watch_all w watches).0.is_shutdown ≡ false)
unfolding watch_all
watch_all-get_elem? w [] i r alive at = (at, alive)
watch_all-get_elem? w ((path, recursive, answers) ∷ watches) i r alive at =
    watch_all-get_elem? (watch_dir w path recursive answers).0 watches i r
      ((watch_dir-InOrder w alive path recursive answers).1)
      (watch_dir-get_elem? w path recursive answers i r at)

-- Every call of `watch_dir` succeeds.
abbrev pub succeeds : ℕ → ℕ → Answers
succeeds handle event = record { file = some handle; bound = true; event = some event; read = true }

module _ (w : WindowsWatcher) (path : CanonicalPathBuf) (recursive : Bool) (handle event : ℕ) where
  watch_dir_last :
      covers path w.roots ≡ false
      → get_elem? (watch_dir w path recursive (succeeds handle event)).0.roots (length w.roots)
        ≡ some (record { path = path; handle = handle; event = event; recursive = recursive })
  unfolding watch_dir open_root
  watch_dir_last fresh = ground (
    arith,
    get_elem?_last w.roots
        (record { path = path; handle = handle; event = event; recursive = recursive }),
  )

  -- Take a directory that no root covers and that is watched with success on a watcher that is not shut
  -- down. A read that completes with its key and with records, after whatever other
  -- paths were watched, on a valid queue with room and no recrawl pending, reports the records below that
  -- directory's path: no other root is taken for it.
  pub watched-reported :
      (watches : List Watch) (H : Hashing) (actions : Actions) (filter : Filter) (later : List Root)
      (c : PendingChanges H) (v : View.IsValid H c) (r : Record) (rs : List Record)
      → w.is_shutdown ≡ false
      → covers path w.roots ≡ false
      → c.recrawl ≡ false
      → length c.changes + length (layout (r ∷ rs)) ≤ 2 ^ 32
      → (round : Round H) × (completion_round H actions filter
            (watch_all (watch_dir w path recursive (succeeds handle event)).0 watches).0
            later
            c
            (completed (key_of w) (layout (r ∷ rs)))
          ≡ some round)
        × ((q : CanonicalPathBuf)
            → pending q round.changes.changes
              ≡ reported q (pending q c.changes) (reports_of actions filter path (r ∷ rs)))
        × (round.notified ≡ true)
        × (round.calls ≡ rearm later (key_of w))
  watched-reported watches H actions filter later c v r rs alive fresh quiet room =
      let w1 = (watch_dir w path recursive (succeeds handle event)).0 in
      let (at, alive') =
        watch_all-get_elem? w1 watches (length w.roots)
          (record { path = path; handle = handle; event = event; recursive = recursive })
          ((watch_dir-InOrder w alive path recursive (succeeds handle event)).1)
          (watch_dir_last fresh) in
      completion_round-layout H actions filter (watch_all w1 watches).0 later c v (length w.roots)
        (record { path = path; handle = handle; event = event; recursive = recursive }) r rs alive'
        at quiet room
