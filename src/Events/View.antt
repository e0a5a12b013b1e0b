-- ===== src/Events/View.antt =====
-- The debouncer as a map from paths to event types.
use filesentry.Common.{
  ℕ, ◌≡◌, ◌<◌, ◌≤◌, ◌+◌, ◌%◌, ◌^◌, refl, ap, true, Option, none, some, List, [], ◌∷◌, ◌++◌, arith,
  length, length-append, length-set, get_elem?, set, map, if◌then◌else◌, get_elem?-map, ◌∙◌,
}
use filesentry.Path.{CanonicalPathBuf, path_eq}
use filesentry.HashTable.{Hashing, find, hash_path}
use filesentry.HashTable.Index.{Indexes, Indexes-empty, index_of}
use filesentry.HashTable.Keyed.{
  item_eq, item_hash, lookup, lookup_vacant, occupied, lookup-append, lookup-set, find_item,
  insert_item, set_item,
}
use filesentry.Events.{
  Event, EventType, EventDebouncer, event_path, merge, new, add, get, take, is_empty,
}

abbrev type_of : Option Event → Option EventType
type_of none = none
type_of (some e) = some e.ty

-- What the list holds for a path.
unfoldable pub held : CanonicalPathBuf → List Event → Option EventType
held q es = type_of (lookup event_path q es)

-- What a path has after one more event.
unfoldable pub coalesce : Option EventType → EventType → EventType
coalesce none ty = ty
coalesce (some old) ty = merge old ty

pub held-nil : (q : CanonicalPathBuf) → held q [] ≡ none
unfolding held lookup
held-nil q = refl

module _ (H : Hashing) where
  -- The table indexes the events by their paths, so no path has two.
  pub record IsValid (d : EventDebouncer H) : Type 0 where
    pub indexed : Indexes H d.table (map event_path d.events)

  pub new-IsValid : IsValid (new H)
  unfolding new
  new-IsValid = record { indexed = Indexes-empty H }

  module _ (d : EventDebouncer H) (v : IsValid d) (p : CanonicalPathBuf) where
    event-find :
        find H d.table (hash_path H p) (item_eq event_path d.events p)
        ≡ some (index_of p (map event_path d.events))
    event-find = find_item event_path H d.table d.events v.indexed p

    -- `get` is the view, and does not panic.
    pub get-held : get H d p ≡ some (held p d.events)
    unfolding get held
    get-held = by_entry (index_of p (map event_path d.events)) refl
      where
        by_entry :
            (o : Option ℕ)
            → index_of p (map event_path d.events) ≡ o
            → get H d p ≡ some (held p d.events)
        by_entry none e = rw event-find (rw e (rw (lookup_vacant event_path d.events p e) refl))
        by_entry (some i) e =
            let (x, at, _, there) = occupied event_path d.events p i e in
            rw event-find (rw e (rw there (rw at refl)))

    -- On a valid debouncer of fewer than 2^32 events `add` does not panic and keeps it valid. It
    -- adds at most one event, and changes the view at the one path, by `coalesce`.
    pub add_lem :
        (t : EventType)
        → length d.events < 2 ^ 32
        → (d' : EventDebouncer H) × (add H d p t ≡ some d')
          × IsValid d'
          × (length d'.events ≤ length d.events + 1)
          × ((q : CanonicalPathBuf)
              → held q d'.events
                ≡ (if path_eq p q then some (coalesce (held p d.events) t) else held q d.events))
    unfolding add held coalesce
    add_lem t small = by_entry (index_of p (map event_path d.events)) refl
      where
        by_entry :
            (o : Option ℕ)
            → index_of p (map event_path d.events) ≡ o
            → (d' : EventDebouncer H) × (add H d p t ≡ some d')
              × IsValid d'
              × (length d'.events ≤ length d.events + 1)
              × ((q : CanonicalPathBuf)
                  → held q d'.events ≡ (
                      if path_eq p q then some (coalesce (held p d.events) t) else held q d.events))
        by_entry none fresh =
            let e : Event = record { path = p; ty = t } in
            (
              record {
                table =
                    H.insert d.table (hash_path H p) (length d.events % 2 ^ 32)
                      (item_hash H event_path d.events);
                events = d.events ++ e ∷ [];
              },
              rw event-find (rw fresh refl),
              record {
                indexed = insert_item event_path H d.table d.events v.indexed e fresh small;
              },
              omega (arith, length-append {0} d.events (e ∷ [])),
              λ q. ground (
                arith,
                lookup-append event_path d.events e q fresh,
                lookup_vacant event_path d.events p fresh,
              ),
            )
        by_entry (some i) there =
            let (old, at, same, found) = occupied event_path d.events p i there in
            let e : Event = record old { ty = merge old.ty t } in
            (
              record d { events = set d.events i e },
              rw event-find (rw there (rw at refl)),
              record { indexed = set_item event_path H d.table d.events v.indexed i old e at refl },
              omega (arith, length-set {0} d.events i e),
              λ q.
                  let placed : index_of old.path (map event_path d.events) ≡ some i =
                    rw same there in
                  ground (arith, lookup-set event_path d.events e i q placed),
            )

  -- `take` hands out the events that were held, no path twice, and leaves a valid empty debouncer.
  pub take_lem :
      (d : EventDebouncer H) (v : IsValid d) (i j : ℕ) (e f : Event)
      → get_elem? (take H d).0 i ≡ some e
      → get_elem? (take H d).0 j ≡ some f
      → e.path ≡ f.path
      → ((take H d).0 ≡ d.events)
        × (i ≡ j)
        × IsValid (take H d).1
        × (is_empty H (take H d).1 ≡ true)
  unfolding take is_empty
  take_lem d v i j e f p q s = (
    refl,
    v.indexed.distinct i j f.path (get_elem?-map event_path d.events i p ∙ ap some s)
        (get_elem?-map event_path d.events j q),
    record { indexed = Indexes-empty H },
    refl,
  )
