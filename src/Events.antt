-- ===== src/Events.antt =====
-- src/events.rs: the debouncer that coalesces the events of a settle period, path by path.
-- `EcoVec` is a list; `none` is a panic (an index out of bounds).
pub mod View
pub mod Lifecycle
mod Examples
use filesentry.HashTable.Keyed.{item_eq, item_hash}
use filesentry.Common.{
  ℕ, ◌%◌, ◌^◌, Bool, true, false, Option, none, some, List, [], ◌∷◌, ◌++◌, length, get_elem?, set,
  ◌>>=◌,
}
use filesentry.Path.{CanonicalPathBuf, path_eq}
use filesentry.HashTable.{Hashing, find, hash_path}

pub data EventType : Type 0 where
  create delete modified tempfile : EventType

pub record Event : Type 0 where
  pub path : CanonicalPathBuf
  pub ty : EventType

-- The `match (event.ty, ty)` of `add`: what becomes of the event that the table holds. The last
-- clause is the branch that only logs.
unfoldable pub merge : EventType → EventType → EventType
merge create delete = tempfile
merge old delete = delete
merge delete create = modified
merge tempfile create = create
merge old new = old

-- `is_empty` of a vector.
unfoldable pub no_events : List Event → Bool
no_events [] = true
no_events (e ∷ es) = false

abbrev pub event_path : Event → CanonicalPathBuf
event_path e = e.path

module _ (H : Hashing) where
  pub record EventDebouncer : Type 0 where
    pub table : H.Table
    pub events : List Event

  unfoldable pub new : EventDebouncer
  new = record { table = H.empty; events = [] }

  unfoldable pub add : EventDebouncer → CanonicalPathBuf → EventType → Option EventDebouncer
  add self path ty = do
    entry ← find H self.table (hash_path H path) (item_eq event_path self.events path)
    elim entry [
      | some i ↦ do
        event ← get_elem? self.events i
        some (record self { events = set self.events i (record event { ty = merge event.ty ty }) })
      | none ↦ some (record {
        table =
            H.insert self.table (hash_path H path) (length self.events % 2 ^ 32)
              (item_hash H event_path self.events);
        events = self.events ++ record { path = path; ty = ty } ∷ [];
      })
    ]

  -- The events, and the debouncer that is left.
  unfoldable pub take : EventDebouncer → List Event × EventDebouncer
  take self = (self.events, record { table = H.empty; events = [] })

  unfoldable pub is_empty : EventDebouncer → Bool
  unfolding no_events
  is_empty self = no_events self.events

  unfoldable pub get : EventDebouncer → CanonicalPathBuf → Option (Option EventType)
  get self path = do
    entry ← find H self.table (hash_path H path) (item_eq event_path self.events path)
    elim entry [
      | some i ↦ do event ← get_elem? self.events i; some (some event.ty)
      | none ↦ some none
    ]
