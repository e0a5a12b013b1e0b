-- ===== src/Worker/Rounds.antt =====
-- A round of the worker returns, and keeps what the worker holds in order.
use filesentry.Common.{
  ℕ, ◌≡◌, ◌≤◌, ◌+◌, ◌*◌, ◌^◌, refl, ap, Bool, true, false, none, some, Option, List, [],
  if◌then◌else◌, arith, length,
}
use native.Mathlib.Nat.{mul-le-mul_right}
use filesentry.Path.{CanonicalPathBuf, Memrchr}
use filesentry.HashTable.{Hashing}
use filesentry.Config.{Filter}
use filesentry.Events
use filesentry.Events.{Event}
use filesentry.Events.View
use filesentry.Events.Lifecycle.{add_all, add_all_lem}
use filesentry.Pending.{PendingChanges}
use filesentry.Tree.Crawl.{Walker, Stats, Crawling}
use filesentry.Worker.{retain, Worker, AddRoot, process_notifications, examine, deliver, round}
use filesentry.Worker.Known.{AllKnown-le}
use filesentry.Worker.Orderly.{IsOrderly, Room, Room-Grows}
use filesentry.Worker.Notified.{NotificationsApart, process_notifications-IsOrderly}
use filesentry.Worker.Examined.{ExamineApart, examine-IsSound}

module _ (H : Hashing) (m : Memrchr) (W : Walker) (stats : Stats)
    (watch_ok : CanonicalPathBuf → Bool → Bool) (handle : ℕ → List Event → Bool) (most : ℕ)
    (bounded : (root : List ℕ) (depth : Option ℕ) → W.remaining (W.start root depth) ≤ most)
    (filter : Filter) where
  deliver_step :
      (self : Worker H) (files : Crawling H) (left : PendingChanges H)
      (events : Events.EventDebouncer H)
      → add_all H self.events files.emitted ≡ some events
      → deliver H m W stats watch_ok handle self files left
        ≡ some (record self {
          events = events;
          files = record files { emitted = [] };
          pending_changes = left;
        })
  unfolding deliver
  deliver_step self files left events adds = rw adds refl

  round_settled :
      (self ready : Worker H) (notifications : List AddRoot)
      → process_notifications H m W stats watch_ok handle filter self notifications ≡ some ready
      → (self' : Worker H) × (round H m W stats watch_ok handle filter true notifications self
          ≡ some (self', some (ready.events.events)))
        × (self'.files ≡ ready.files)
        × (self'.roots ≡ ready.roots)
        × (self'.pending_changes ≡ ready.pending_changes)
        × (self'.events ≡ Events.new H)
  unfolding round Events.take Events.new
  round_settled self ready notifications e = (
    record ready {
      events = Events.new H;
      handlers = retain H m W stats watch_ok handle (ready.events.events) ready.handlers;
    },
    rw e refl,
    refl,
    refl,
    refl,
    refl,
  )

  round_examined :
      (self ready done : Worker H) (notifications : List AddRoot) (files : Crawling H)
      (left : PendingChanges H)
      → process_notifications H m W stats watch_ok handle filter self notifications ≡ some ready
      → examine H m W stats watch_ok handle filter ready ≡ some (files, left)
      → deliver H m W stats watch_ok handle ready files left ≡ some done
      → round H m W stats watch_ok handle filter false notifications self ≡ some (done, none)
  unfolding round Events.take
  round_examined self ready done notifications files left e f g = rw e (rw f (rw g refl))

  -- What a round emits fits into the debouncer, which counts with 32 bits.
  abbrev pub Fits : Worker H → List AddRoot → Type 0
  Fits self notifications =
      (ready : Worker H) (files : Crawling H) (left : PendingChanges H)
      → process_notifications H m W stats watch_ok handle filter self notifications ≡ some ready
      → examine H m W stats watch_ok handle filter ready ≡ some (files, left)
      → length self.events.events + length files.emitted ≤ 2 ^ 32

  -- In this round no search for the parent of a new path meets the id that was just inserted.
  abbrev pub RoundApart : Bool → List AddRoot → Worker H → Type 0
  RoundApart settled notifications self =
      NotificationsApart H m W stats watch_ok handle most bounded filter self notifications
      × ((ready : Worker H)
          → settled ≡ false
          → process_notifications H m W stats watch_ok handle filter self notifications ≡ some ready
          → ExamineApart H m W stats watch_ok handle most bounded filter ready)

  -- One round of the worker, whether it settles, crawls its roots or applies the pending changes: with room
  -- for the walks that it may have to do, it returns and keeps the worker orderly. The handlers are called
  -- exactly if it settles, with the events held before the round. This is so provided that what is emitted
  -- fits into the debouncer, no walk yields more than `most` entries, and in this round no search for the
  -- parent of a new path meets the id that was just inserted.
  pub round-IsOrderly :
      (settled : Bool) (notifications : List AddRoot) (self : Worker H) (o : IsOrderly H self)
      → RoundApart settled notifications self
      → Room H
          (length notifications * (most + 1)
            + ((length self.roots + length notifications) * (most + 1)
                + length self.pending_changes.changes * (most + 1)))
          self.files.tree
      → Fits self notifications
      → (self' : Worker H) × (out : Option (List Event)) × (round H m W stats watch_ok handle filter
            settled notifications self
          ≡ some (self', out))
        × IsOrderly H self'
        × (out ≡ (if settled then some (self.events.events) else none))
  round-IsOrderly true notifications self o t room fits =
      let (ready, e, o', p, q, _, _) =
        process_notifications-IsOrderly H m W stats watch_ok handle most bounded filter self o
          notifications t.0 (omega (arith, room.0), omega (arith, room.1)) in
      let (self', returns, f, r, c, d) = round_settled self ready notifications e in
      (
        self',
        some (ready.events.events),
        returns,
        record {
          files = rw f o'.files;
          known = rw (f, r) o'.known;
          events = rw d (Events.View.new-IsValid H);
          terminated_paths = rw c o'.terminated_paths;
        },
        ap (λ (x : Events.EventDebouncer H). some (x.events)) q,
      )
  round-IsOrderly false notifications self o t room fits =
      let k = most + 1 in
      let (ready, e, o', p, q, r, g) =
        process_notifications-IsOrderly H m W stats watch_ok handle most bounded filter self o
          notifications t.0 (omega (arith, room.0), omega (arith, room.1)) in
      let later =
        Room-Grows H (length notifications * k)
          ((length self.roots + length notifications) * k + length self.pending_changes.changes * k)
          room g (omega arith) in
      let fewer = mul-le-mul_right k r in
      let same = ap (λ (x : PendingChanges H). length (x.changes) * k) p in
      let (files, left, f, s, more, terminates) =
        examine-IsSound H m W stats watch_ok handle most bounded filter ready o' (t.1 ready refl e)
          (omega (arith, later.0, fewer, same), omega (arith, later.1, fewer, same)) in
      let fit = fits ready files left e f in
      let held = ap (λ (x : Events.EventDebouncer H). length (x.events)) q in
      let (events, adds, v, _) =
        add_all_lem H files.emitted (ready.events) o'.events (omega (arith, fit, held)) in
      let done : Worker H = record ready {
        events = events;
        files = record files { emitted = [] };
        pending_changes = left;
      } in
      (
        done,
        none,
        round_examined self ready done notifications files left e f
            (deliver_step ready files left events adds),
        record {
          files = record { valid = s.valid; framed = s.framed };
          known =
              AllKnown-le (length ready.files.tree.nodes) (length files.tree.nodes) ready.roots more
                o'.known;
          events = v;
          terminated_paths = terminates;
        },
        refl,
      )
