-- ===== src/Windows/Handles.antt =====
-- The handles of the windows backend: what `watch_dir` leaves open, `shutdown` closes.
use filesentry.Common.{
  ℕ, ◌≡◌, ◌+◌, refl, Bool, true, false, List, [], ◌∷◌, ◌++◌, arith, if◌then◌else◌, Bool-cases,
  Option-cases, inl, inr,
}
use filesentry.Path.{CanonicalPathBuf}
use filesentry.Resources.{Use, released, count, InOrder, InOrder-from, InOrder-append, fewer}
use filesentry.Windows.{
  Root, WindowsWatcher, Answers, watch_dir, open_root, covers, close_roots, shutdown, issue_read,
}

abbrev pub handles : List Root → List ℕ
handles [] = []
handles (r ∷ roots) = r.handle ∷ r.event ∷ handles roots

-- What the watcher has to close.
abbrev pub held : WindowsWatcher → ℕ → ℕ
held w h = if w.is_shutdown then 0 else count h (w.iocp ∷ handles w.roots)

count-handles_append :
    (h : ℕ) (xs : List Root) (r : Root)
    → count h (handles (xs ++ r ∷ [])) ≡ count h (handles xs) + count h (r.handle ∷ r.event ∷ [])
count-handles_append h [] r = omega arith
count-handles_append h (x ∷ xs) r = ground (arith, count-handles_append h xs r)

module _ (w : WindowsWatcher) (alive : w.is_shutdown ≡ false) where
  open_root-InOrder :
      (path : CanonicalPathBuf) (recursive : Bool) (answers : Answers) (handle : ℕ)
      → InOrder
          (open_root w path recursive answers handle).2
          (held w)
          (held (open_root w path recursive answers handle).0)
        × ((open_root w path recursive answers handle).0.is_shutdown ≡ false)
  unfolding open_root issue_read
  open_root-InOrder path recursive answers handle = elim (Bool-cases answers.bound) [
    | inr unbound ↦
        rw unbound ((ground arith, (ground arith, (ground arith, λ k. ground arith))), alive)
    | inl bound ↦ elim (Option-cases answers.event) [
      | inl no_event ↦
          rw (bound, no_event)
            ((ground arith, (ground arith, (ground arith, λ k. ground arith))), alive)
      | inr (event, e) ↦ elim (Bool-cases answers.read) [
        | inl read ↦
            let root : Root = record {
              path = path;
              handle = handle;
              event = event;
              recursive = recursive;
            } in
            rw (bound, e, read)
              (
                (
                  ground arith,
                  (
                    ground arith,
                    (
                      ground arith,
                      (ground arith, λ k. ground (arith, count-handles_append k w.roots root)),
                    ),
                  ),
                ),
                alive,
              )
        | inr unread ↦
            rw (bound, e, unread)
              (
                (
                  ground arith,
                  (
                    ground arith,
                    (
                      ground arith,
                      (ground arith, (ground arith, (ground arith, λ k. ground arith))),
                    ),
                  ),
                ),
                alive,
              )
      ]
    ]
  ]

  -- Whether `watch_dir` succeeds or fails at any of its calls, it uses and closes only what is open,
  -- and what it leaves open is what the watcher holds.
  pub watch_dir-InOrder :
      (path : CanonicalPathBuf) (recursive : Bool) (answers : Answers)
      → InOrder
          (watch_dir w path recursive answers).2
          (held w)
          (held (watch_dir w path recursive answers).0)
        × ((watch_dir w path recursive answers).0.is_shutdown ≡ false)
  unfolding watch_dir
  watch_dir-InOrder path recursive answers = elim (Bool-cases (covers path w.roots)) [
    | inl covered ↦ rw covered ((λ k. refl), alive)
    | inr open' ↦ elim (Option-cases answers.file) [
      | inl no_file ↦ rw (open', no_file) ((λ k. refl), alive)
      | inr (handle, e) ↦ rw (open', e) (open_root-InOrder path recursive answers handle)
    ]
  ]

-- A root's two handles are closed before the roots after it are.
close_one-InOrder :
    (r : Root) (roots : List Root) (rest : List Use) (c : ℕ → ℕ)
    → InOrder rest (λ k. count k (handles roots) + c k) c
    → InOrder
        (released r.handle ∷ released r.event ∷ rest)
        (λ k. count k (handles (r ∷ roots)) + c k)
        c
close_one-InOrder r roots rest c h = (
  ground arith,
  (
    ground arith,
    InOrder-from rest (λ k. count k (handles roots) + c k)
        (fewer r.event (fewer r.handle (λ k. count k (handles (r ∷ roots)) + c k))) c
        (λ k. ground arith) h,
  ),
)

close_roots-InOrder :
    (roots : List Root) (cancelled : Root → Bool) (c : ℕ → ℕ)
    → InOrder (close_roots roots cancelled) (λ k. count k (handles roots) + c k) c
unfolding close_roots
close_roots-InOrder [] cancelled c = λ k. omega arith
close_roots-InOrder (r ∷ roots) cancelled c =
    let rest =
      close_one-InOrder r roots (close_roots roots cancelled) c
        (close_roots-InOrder roots cancelled c) in
    elim (Bool-cases (cancelled r)) [
      | inl waits ↦ rw waits (ground arith, (ground arith, (ground arith, rest)))
      | inr none_pending ↦ rw none_pending (ground arith, rest)
    ]

abbrev pub nothing : ℕ → ℕ
nothing h = 0

pub shutdown-InOrder :
    (w : WindowsWatcher) (cancelled : Root → Bool)
    → InOrder (shutdown w cancelled).1 (held w) nothing
      × ((shutdown w cancelled).0.is_shutdown ≡ true)
unfolding shutdown
shutdown-InOrder w cancelled = elim (Bool-cases w.is_shutdown) [
  | inl down ↦ rw down ((λ k. refl), refl)
  | inr alive ↦ rw alive ((ground arith, closing), refl)
]
  where
    port : ℕ → ℕ
    port k = count k (w.iocp ∷ [])

    open' : ℕ → ℕ
    open' k = count k (w.iocp ∷ handles w.roots)

    closing : InOrder (close_roots w.roots cancelled ++ released w.iocp ∷ []) open' nothing
    closing =
        InOrder-append (close_roots w.roots cancelled) (released w.iocp ∷ []) open' port nothing
          (InOrder-from (close_roots w.roots cancelled) (λ k. count k (handles w.roots) + port k)
            open' port (λ k. ground arith) (close_roots-InOrder w.roots cancelled port))
          (ground arith, λ k. ground arith)
