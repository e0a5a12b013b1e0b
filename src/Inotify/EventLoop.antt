-- ===== src/Inotify/EventLoop.antt =====
-- `Inotify::event_loop` of src/inotify/sys.rs with the closures that `InotifyWatcher::new` gives it. What the
-- calls of mio and rustix answer in a round is an argument.
use filesentry.Common.{
  ℕ, Bool, true, false, ◌&&◌, Option, none, some, List, [], ◌∷◌, ◌>>=◌, ◌⊎◌, inl, inr,
  if◌then◌else◌,
}
use filesentry.HashTable.{Hashing}
use filesentry.Config.{Filter}
use filesentry.Inotify.{InotifyEvent, InotifyWatcher, Watch, WatchMap, handle_event}

pub data Token : Type 0 where
  inotify message : Token
  other : ℕ → Token

-- What `poll` answers. When a signal interrupts it, there are no events.
pub data Polled : Type 0 where
  interrupted failed : Polled
  ready : List Token → Polled

-- What `reader.next()` answers in a round: events, then that there are no more for now, or an error.
pub record Reads : Type 0 where
  pub events : List InotifyEvent
  pub fails : Bool

-- A round: the answers, and the filter of the configuration at that time.
pub record Round : Type 0 where
  pub polled : Polled
  pub config_filter : Filter
  pub reads : Reads

-- How the loop stands after a round: it goes on, has ended with `Ok`, or with an error.
pub data Status : Type 0 where
  running stopped error : Status

-- Whether the tokens contain `MESSAGE`, and whether they contain `INOTIFY`; `none` for any other token.
unfoldable pub read_tokens : List Token → Option (Bool × Bool)
read_tokens [] = some (false, false)
read_tokens (token ∷ tokens) = do
  (has_message, has_inotify) ← read_tokens tokens
  elim token [
    | inotify ↦ some (has_message, true)
    | message ↦ some (true, has_inotify)
    | other n ↦ none
  ]

-- The result of `inotify::add_watch`, and that of `add_directory_watch` with a message of its own.
pub data Errno : Type 0 where
  nospc : Errno
  errno : ℕ → Errno

pub data WatchError : Type 0 where
  exhausted : WatchError
  os_error : ℕ → WatchError

unfoldable pub map_error : Errno → WatchError
map_error nospc = exhausted
map_error (errno n) = os_error n

unfoldable pub add_directory_watch : Errno ⊎ Watch → WatchError ⊎ Watch
unfolding map_error
add_directory_watch (inl err) = inl (map_error err)
add_directory_watch (inr watch) = inr watch

module _ (H : Hashing) (M : WatchMap) where
  unfoldable pub handle_events :
      Filter → InotifyWatcher H M → List InotifyEvent → Option (InotifyWatcher H M)
  handle_events filter self [] = some self
  handle_events filter self (event ∷ events) = do
    self' ← handle_event H M filter self event
    handle_events filter self' events

  -- The watcher with its flag, the filter that the thread uses, whether `poll` is to be woken with a
  -- message, and whether the worker was notified.
  pub record Loop : Type 0 where
    pub watcher : InotifyWatcher H M
    pub is_shutdown : Bool
    pub filter : Filter
    pub woken : Bool
    pub notified : Bool

  -- `InotifyWatcher::shutdown`
  unfoldable pub shutdown : Loop → Loop
  shutdown self = record self { is_shutdown = true; woken = true; notified = true }

  -- `InotifyWatcher::refresh_config`
  unfoldable pub refresh_config : Loop → Loop
  refresh_config self = record self { woken = true }

  -- Reading the events, and `event_stream_done`.
  unfoldable pub read_events : Loop → Reads → Option (Status × Loop)
  unfolding handle_events
  read_events self reads = do
    watcher ← handle_events self.filter self.watcher reads.events
    let read = record self { watcher = watcher }
    some (if reads.fails then (error, read) else (running, record read { notified = true }))

  -- A round after `poll`; `none` is a panic. `handle_message` takes the filter of the configuration.
  unfoldable pub polled_round : Loop → Round → List Token → Option (Status × Loop)
  unfolding read_tokens read_events
  polled_round self round tokens = do
    (has_message, has_inotify) ← read_tokens tokens
    let told =
        if has_message then record self { filter = round.config_filter; woken = false } else self
    if has_message && self.is_shutdown
        then some (stopped, told)
        else (if has_inotify then read_events told round.reads else some (running, told))

  unfoldable pub event_round : Loop → Round → Option (Status × Loop)
  unfolding polled_round
  event_round self round = elim round.polled [
    | failed ↦ some (error, self)
    | interrupted ↦ polled_round self round []
    | ready tokens ↦ polled_round self round tokens
  ]

  unfoldable pub event_loop : Loop → List Round → Option (Status × Loop)
  unfolding event_round
  event_loop self [] = some (running, self)
  event_loop self (round ∷ rounds) = do
    (status, self') ← event_round self round
    elim status [ running ↦ event_loop self' rounds | ended ↦ some (ended, self') ]
