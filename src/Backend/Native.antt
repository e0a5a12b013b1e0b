-- ===== src/Backend/Native.antt =====
-- `NativeBackend`: the backends of Linux, macOS and Windows, as implementations of the interface.
use filesentry.Common.{
  ℕ, ◌≡◌, refl, Bool, Option, none, [], ◌∷◌, arith, inl, inr, ◌↔◌, ◌⊎◌, List, In, subst, true,
  false, Bool-cases, Option-cases, ◌++◌,
}
use filesentry.Path.{CanonicalPathBuf}
use filesentry.HashTable.{Hashing}
use filesentry.Backend.{
  Backend, Call, watch, stop, guard_dropped, refresh, run, asks, asked, run-is_shutdown,
}
use filesentry.Windows
use filesentry.FsEvent
use filesentry.Inotify.{WatchMap, Watch}
use filesentry.Inotify
use filesentry.Inotify.EventLoop
use filesentry.Inotify.EventLoop.{Loop}

windows_open :
    (self : Windows.WindowsWatcher) (path : CanonicalPathBuf) (recursive : Bool)
    (answers : Windows.Answers) (handle : ℕ)
    → (Windows.open_root self path recursive answers handle).0.is_shutdown ≡ self.is_shutdown
unfolding Windows.open_root
windows_open self path recursive answers handle = elim (Option-cases answers.event) [
  | inl n ↦ ground arith
  | inr (event, e) ↦ ground arith
]

pub windows_watch :
    (self : Windows.WindowsWatcher) (path : CanonicalPathBuf) (recursive : Bool)
    (answers : Windows.Answers)
    → (Windows.watch_dir self path recursive answers).0.is_shutdown ≡ self.is_shutdown
unfolding Windows.watch_dir
windows_watch self path recursive answers = elim (Option-cases answers.file) [
  | inl n ↦ ground arith
  | inr (handle, e) ↦ ground (arith, windows_open self path recursive answers handle)
]

pub windows_shutdown :
    (self : Windows.WindowsWatcher) (cancelled : Windows.Root → Bool)
    → (Windows.shutdown self cancelled).0.is_shutdown ≡ true
unfolding Windows.shutdown
windows_shutdown self cancelled = ground arith

-- The handle of the completion port and the roots; an answer is that of `watch_dir` and of the
-- cancellations of a shutdown.
abbrev pub windows : Backend
windows = record {
  State = Windows.WindowsWatcher;
  Answers = Windows.Answers × (Windows.Root → Bool);
  watch_dir = λ self path recursive answers.
      let (watcher, ok, calls) = Windows.watch_dir self path recursive answers.0 in (watcher, ok);
  shutdown = λ self answers. (Windows.shutdown self answers.1).0;
  is_shutdown = λ self. self.is_shutdown;
  refresh_config = λ self. self;
  shutdown-is_shutdown = λ self answers. windows_shutdown self answers.1;
  watch_dir-is_shutdown =
      λ self path recursive answers. windows_watch self path recursive answers.0;
  refresh_config-is_shutdown = λ self. refl;
}

fsevent_create :
    (self : FsEvent.FsEventWatcher) (answers : FsEvent.Answers)
    → (FsEvent.create_stream self answers).0.is_shutdown ≡ self.is_shutdown
unfolding FsEvent.create_stream
fsevent_create self answers = elim (Option-cases answers.created) [
  | inl failed ↦ ground arith
  | inr (stream, made) ↦ elim (Bool-cases answers.started) [
    | inl runs ↦ ground arith
    | inr stands ↦ ground arith
  ]
]

fsevent_rebuild :
    (self : FsEvent.FsEventWatcher) (answers : FsEvent.Answers)
    → (FsEvent.rebuild_stream self answers).0.is_shutdown ≡ self.is_shutdown
unfolding FsEvent.rebuild_stream
fsevent_rebuild self answers = elim (Bool-cases (FsEvent.no_roots self.roots)) [
  | inl bare ↦ ground arith
  | inr some_roots ↦ ground (arith, fsevent_create (record self { stream = none }) answers)
]

pub fsevent_watch :
    (self : FsEvent.FsEventWatcher) (path : CanonicalPathBuf) (answers : FsEvent.Answers)
    → (FsEvent.watch_dir self path answers).0.is_shutdown ≡ self.is_shutdown
unfolding FsEvent.watch_dir
fsevent_watch self path answers = elim (Bool-cases self.is_shutdown) [
  | inl down ↦ ground arith
  | inr up ↦ elim (Bool-cases (FsEvent.covers path self.roots)) [
    | inl covered ↦ ground arith
    | inr new ↦
        ground (arith, fsevent_rebuild (record self { roots = self.roots ++ path ∷ [] }) answers)
  ]
]

pub fsevent_shutdown :
    (self : FsEvent.FsEventWatcher) → (FsEvent.shutdown self).0.is_shutdown ≡ true
unfolding FsEvent.shutdown
fsevent_shutdown self = refl

abbrev pub fsevent : Backend
fsevent = record {
  State = FsEvent.FsEventWatcher;
  Answers = FsEvent.Answers;
  watch_dir = λ self path recursive answers.
      let (watcher, ok, calls) = FsEvent.watch_dir self path answers in (watcher, ok);
  shutdown = λ self answers. (FsEvent.shutdown self).0;
  is_shutdown = λ self. self.is_shutdown;
  refresh_config = λ self. self;
  shutdown-is_shutdown = λ self answers. fsevent_shutdown self;
  watch_dir-is_shutdown = λ self path recursive answers. fsevent_watch self path answers;
  refresh_config-is_shutdown = λ self. refl;
}

module _ (H : Hashing) (M : WatchMap) where
  pub inotify_shutdown : (self : Loop H M) → (EventLoop.shutdown H M self).is_shutdown ≡ true
  unfolding EventLoop.shutdown
  inotify_shutdown self = refl

  pub inotify_refresh :
      (self : Loop H M) → (EventLoop.refresh_config H M self).is_shutdown ≡ self.is_shutdown
  unfolding EventLoop.refresh_config
  inotify_refresh self = refl

  -- An answer is the watch that `inotify_add_watch` returns.
  abbrev pub inotify : Backend
  inotify = record {
    State = Loop H M;
    Answers = Option Watch;
    watch_dir = λ self path recursive answer.
        let (watcher, ok) = Inotify.watch_dir H M (self.watcher) path answer in
        (record self { watcher = watcher }, ok);
    shutdown = λ self answer. EventLoop.shutdown H M self;
    is_shutdown = λ self. self.is_shutdown;
    refresh_config = λ self. EventLoop.refresh_config H M self;
    shutdown-is_shutdown = λ self answer. inotify_shutdown self;
    watch_dir-is_shutdown = λ self path recursive answer. refl;
    refresh_config-is_shutdown = λ self. inotify_refresh self;
  }

  -- The targets that have a backend.
  pub data Target : Type 0 where
    linux macos windows_os : Target

  abbrev pub native : Target → Backend
  native linux = inotify
  native macos = fsevent
  native windows_os = windows

  -- The calls that ask for a shutdown.
  abbrev pub Stops : (target : Target) → Call (native target) → Type 0
  Stops target (watch path recursive answers) = false ≡ true
  Stops target (stop answers) = Unit
  Stops target (guard_dropped guard upgrades answers) = (guard.is_linked ≡ true) × (upgrades ≡ true)
  Stops target refresh = false ≡ true

  asks_iff :
      (target : Target) (c : Call (native target))
      → (asks (native target) c ≡ true) ↔ Stops target c
  unfolding asks
  asks_iff target (watch path recursive answers) = ground arith
  asks_iff target (stop answers) = (λ e. tt, λ s. refl)
  asks_iff target (guard_dropped guard upgrades answers) = ground arith
  asks_iff target refresh = ground arith

  asked_iff :
      (target : Target) (calls : List (Call (native target)))
      → (asked (native target) calls ≡ true)
        ↔ ((c : Call (native target)) × In c calls × Stops target c)
  unfolding asked
  asked_iff target [] = (λ e. ground arith, λ (c, i, s). absurd i)
  asked_iff target (c ∷ calls) =
      let rest = asked_iff target calls in
      (
        λ e. elim (Bool-cases (asks (native target) c)) [
          | inl now ↦ (c, inl refl, (asks_iff target c).0 now)
          | inr not_now ↦ let (d, i, s) = rest.0 (ground (arith, e, not_now)) in (d, inr i, s)
        ],
        λ (d, i, s). elim i [
          | inl same ↦
              let now : asks (native target) c ≡ true =
                (asks_iff target c).1
                  (subst (λ (x : Call (native target)). Stops target x) same s) in
              ground (arith, now)
          | inr there ↦ ground (arith, rest.1 (d, there, s))
        ],
      )

  -- On each target, whatever the system answers: after any calls of the worker, the watcher and its guards,
  -- the backend is shut down exactly if it was before, or if one of the calls was a shutdown, or the drop
  -- of a guard that was not cancelled while the backend was still there. No watch of a path and no new
  -- configuration takes a shutdown back, also where it fails.
  pub native-is_shutdown :
      (target : Target) (self : (native target).State) (calls : List (Call (native target)))
      → ((native target).is_shutdown (run (native target) self calls) ≡ true) ↔ (
          ((native target).is_shutdown self ≡ true)
          ⊎ ((c : Call (native target)) × In c calls × Stops target c))
  native-is_shutdown target self calls =
      let e = run-is_shutdown (native target) self calls in
      let a = asked_iff target calls in
      rw e (
        λ h. elim (Bool-cases ((native target).is_shutdown self)) [
          | inl before ↦ inl before
          | inr up ↦ inr (a.0 (ground (arith, h, up)))
        ],
        λ h. elim h [ inl before ↦ rw before refl | inr later ↦ ground (arith, a.1 later) ],
      )
