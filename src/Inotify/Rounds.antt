-- ===== src/Inotify/Rounds.antt =====
-- What the event loop of src/inotify/sys.rs does in a round, and when it ends.
use filesentry.Common.{
  ◌≡◌, ◌≤◌, ◌+◌, ◌^◌, refl, Bool, true, false, not, ◌&&◌, some, List, [], ◌∷◌, arith, length,
  if◌then◌else◌, inl, inr, Bool-cases,
}
use filesentry.HashTable.{Hashing}
use filesentry.Config.{Filter}
use filesentry.Pending.View
use filesentry.Pending.View.{add_watcher_lem}
use filesentry.Inotify.{InotifyEvent, InotifyWatcher, WatchMap}
use filesentry.Inotify.Reports.{handle_event-IsValid}
use filesentry.Inotify.EventLoop.{
  Token, inotify, message, other, ready, Reads, Round, Status, running, stopped, error, Loop,
  read_tokens, polled_round, handle_events, read_events, event_round, event_loop, shutdown,
}

-- The loop has registered no other token.
abbrev pub Known : List Token → Type 0
Known [] = Unit
Known (inotify ∷ tokens) = Known tokens
Known (message ∷ tokens) = Known tokens
Known (other n ∷ tokens) = ⊥

abbrev pub has_message : List Token → Bool
has_message [] = false
has_message (message ∷ tokens) = true
has_message (token ∷ tokens) = has_message tokens

abbrev pub has_inotify : List Token → Bool
has_inotify [] = false
has_inotify (inotify ∷ tokens) = true
has_inotify (token ∷ tokens) = has_inotify tokens

read_tokens_lem :
    (tokens : List Token)
    → Known tokens
    → read_tokens tokens ≡ some (has_message tokens, has_inotify tokens)
unfolding read_tokens
read_tokens_lem [] known = refl
read_tokens_lem (inotify ∷ tokens) known = ground (arith, read_tokens_lem tokens known)
read_tokens_lem (message ∷ tokens) known = ground (arith, read_tokens_lem tokens known)
read_tokens_lem (other n ∷ tokens) known = absurd known

module _ (H : Hashing) (M : WatchMap) where
  handle_events-IsValid :
      (filter : Filter) (w : InotifyWatcher H M) (events : List InotifyEvent)
      → View.IsValid H w.changes
      → length w.changes.changes + length events ≤ 2 ^ 32
      → (w' : InotifyWatcher H M) × (handle_events H M filter w events ≡ some w')
        × View.IsValid H w'.changes
  unfolding handle_events
  handle_events-IsValid filter w [] v room = (w, refl, v)
  handle_events-IsValid filter w (event ∷ events) v room =
      let (w1, e1, v1, _, l1) = handle_event-IsValid H M filter w v event (omega (arith, room)) in
      let (w2, e2, v2) = handle_events-IsValid filter w1 events v1 (omega (arith, l1, room)) in
      (w2, rw e1 e2, v2)

  read_events-IsValid :
      (self : Loop H M) (reads : Reads)
      → View.IsValid H self.watcher.changes
      → length self.watcher.changes.changes + length reads.events ≤ 2 ^ 32
      → (status : Status) × (self' : Loop H M) × (read_events H M self reads ≡ some (status, self'))
        × View.IsValid H self'.watcher.changes
        × (status ≡ (if reads.fails then error else running))
        × (reads.fails ≡ false → self'.notified ≡ true)
        × (handle_events H M self.filter self.watcher reads.events ≡ some self'.watcher)
  unfolding read_events
  read_events-IsValid self reads v room =
      let (w, e, v') = handle_events-IsValid self.filter self.watcher reads.events v room in
      elim (Bool-cases reads.fails) [
        | inl fails ↦ (
          error,
          record self { watcher = w },
          ground (arith, e),
          v',
          ground arith,
          λ h. ground arith,
          e,
        )
        | inr drained ↦ (
          running,
          record self { watcher = w; notified = true },
          ground (arith, e),
          v',
          ground arith,
          λ h. refl,
          e,
        )
      ]

  module _ (self : Loop H M) (round : Round) where
    -- The loop's state after it has read the message of a round.
    abbrev pub told : List Token → Loop H M
    told tokens =
        if has_message tokens
        then record self { filter = round.config_filter; woken = false }
        else self

    -- Whether the loop reads events, and what a round ends with.
    abbrev pub reads_events : List Token → Bool
    reads_events tokens = not (has_message tokens && self.is_shutdown) && has_inotify tokens

    abbrev pub status_of : List Token → Status
    status_of tokens =
        if has_message tokens && self.is_shutdown
        then stopped
        else if has_inotify tokens && round.reads.fails
        then error
        else running

    -- On a valid queue with room for the events of a round whose tokens are known, the round after `poll`
    -- does not panic and keeps the queue valid. The loop ends with `Ok` exactly if a message comes when
    -- the watcher is shut down, and else with an error exactly if a read fails. The events that are read
    -- are handled one after the other, by the filter of the configuration if a message came in the same
    -- round, and the worker is woken after them unless a read failed.
    pub polled_round-IsValid :
        (tokens : List Token)
        → View.IsValid H self.watcher.changes
        → Known tokens
        → length self.watcher.changes.changes + length round.reads.events ≤ 2 ^ 32
        → (self' : Loop H M) × (polled_round H M self round tokens ≡ some (status_of tokens, self'))
          × View.IsValid H self'.watcher.changes
          × (reads_events tokens ≡ true
              → handle_events H M (told tokens).filter self.watcher round.reads.events
                ≡ some self'.watcher)
          × (reads_events tokens ≡ false → self'.watcher ≡ self.watcher)
          × (reads_events tokens ≡ true → round.reads.fails ≡ false → self'.notified ≡ true)
    unfolding polled_round
    polled_round-IsValid tokens v known room = elim (Bool-cases (reads_events tokens)) [
      | inl reads ↦
          let (status, self', e, v', s, notified, handled) =
            read_events-IsValid (told tokens) round.reads (rw same v) (rw same room) in
          (
            self',
            ground (arith, e, s, read_tokens_lem tokens known),
            v',
            λ h. ground (arith, handled, same),
            λ h. ground arith,
            λ h. notified,
          )
      | inr idle ↦ (
        told tokens,
        ground (arith, read_tokens_lem tokens known),
        rw same v,
        λ h. ground arith,
        λ h. same,
        λ h. ground arith,
      )
    ]
      where
        same : (told tokens).watcher ≡ self.watcher
        same = ground arith

  -- The waker of mio: if it was woken, the next `poll` that returns events reports its token.
  abbrev pub Reported : Loop H M → List Token → Type 0
  Reported self tokens = self.woken ≡ true → has_message tokens ≡ true

  -- A shutdown ends the loop: if the next `poll` reports that the loop was woken, if it was, and known
  -- tokens only, the loop ends in that round with `Ok`, whatever events can be read in it and whatever
  -- rounds come after it. The worker has been notified, and no event was handled.
  pub shutdown-event_loop :
      (self : Loop H M) (tokens : List Token) (filter : Filter) (reads : Reads)
      (rounds : List Round)
      → Known tokens
      → Reported (shutdown H M self) tokens
      → (self' : Loop H M) × (event_loop H M
            (shutdown H M self)
            (record { polled = ready tokens; config_filter = filter; reads = reads } ∷ rounds)
          ≡ some (stopped, self'))
        × (self'.notified ≡ true)
        × (self'.is_shutdown ≡ true)
        × (self'.watcher ≡ self.watcher)
  unfolding event_loop event_round polled_round shutdown
  shutdown-event_loop self tokens filter reads rounds known reported = (
    record (shutdown H M self) { filter = filter; woken = false },
    ground (arith, reported refl, read_tokens_lem tokens known),
    refl,
    refl,
    refl,
  )
