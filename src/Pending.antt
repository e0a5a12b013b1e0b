-- ===== src/Pending.antt =====
-- src/pending.rs: the queue of changes between a backend and the worker, and its lock.
-- A bitflags value is its named bits.
pub mod View
pub mod Drain
pub mod Sorted
pub mod Lock
pub mod Batches
mod Examples
use filesentry.Common.{
  ℕ, ◌%◌, ◌^◌, Bool, true, false, not, ◌&&◌, ◌||◌, Option, none, some, List, [], ◌∷◌, ◌++◌, length,
  get_elem?, set, ◌>>=◌, Ordering, if◌then◌else◌,
}
use filesentry.Path.{CanonicalPathBuf, cmp}
use filesentry.HashTable.{Hashing, find, hash_path}
use filesentry.HashTable.Keyed.{item_eq, item_hash}

pub record Flags : Type 0 where
  pub needs_recursive_crawl : Bool
  pub needs_non_recursive_crawl : Bool
  pub mark_recursive : Bool
  pub origin_watcher : Bool

abbrev pub empty : Flags
empty = record {
  needs_recursive_crawl = false;
  needs_non_recursive_crawl = false;
  mark_recursive = false;
  origin_watcher = false;
}

-- `a | b`, and what `a.insert(b)` leaves in `a`
abbrev pub union : Flags → Flags → Flags
union a b = record {
  needs_recursive_crawl = a.needs_recursive_crawl || b.needs_recursive_crawl;
  needs_non_recursive_crawl = a.needs_non_recursive_crawl || b.needs_non_recursive_crawl;
  mark_recursive = a.mark_recursive || b.mark_recursive;
  origin_watcher = a.origin_watcher || b.origin_watcher;
}

pub record PendingChange : Type 0 where
  pub path : CanonicalPathBuf
  pub flags : Flags

abbrev pub change_path : PendingChange → CanonicalPathBuf
change_path c = c.path

unfoldable pub consolidate : PendingChange → Flags → PendingChange
consolidate self new = record self {
  flags = union self.flags (record new { origin_watcher = false });
}

unfoldable pub no_changes : List PendingChange → Bool
no_changes [] = true
no_changes (c ∷ cs) = false

-- `sort_unstable_by(|a, b| a.path.cmp(&b.path))`
unfoldable pub insert_sorted : PendingChange → List PendingChange → List PendingChange
insert_sorted c [] = c ∷ []
insert_sorted c (x ∷ xs) =
    let rest = insert_sorted c xs in
    elim (cmp c.path.buf x.path.buf) [ Ordering.gt ↦ x ∷ rest | _ ↦ c ∷ x ∷ xs ]

unfoldable pub sort_by_path : List PendingChange → List PendingChange
unfolding insert_sorted
sort_by_path [] = []
sort_by_path (c ∷ cs) = insert_sorted c (sort_by_path cs)

module _ (H : Hashing) where
  pub record PendingChanges : Type 0 where
    pub path_set : H.Table
    pub changes : List PendingChange
    pub recrawl : Bool

  -- `PendingChanges::default`
  abbrev pub new : PendingChanges
  new = record { path_set = H.empty; changes = []; recrawl = false }

  unfoldable pub is_empty : PendingChanges → Bool
  unfolding no_changes
  is_empty self = no_changes self.changes && not self.recrawl

  unfoldable pub start_recrawl : PendingChanges → PendingChanges
  start_recrawl self = record { path_set = H.empty; changes = []; recrawl = true }

  unfoldable pub add : PendingChanges → PendingChange → Option PendingChanges
  unfolding consolidate
  add self change = if self.recrawl then some self else do
    entry ←
        find H self.path_set (hash_path H change.path)
          (item_eq change_path self.changes change.path)
    elim entry [
      | some i ↦ do
        old ← get_elem? self.changes i
        some (record self { changes = set self.changes i (consolidate old change.flags) })
      | none ↦ some (record self {
        path_set =
            H.insert self.path_set (hash_path H change.path) (length self.changes % 2 ^ 32)
              (item_hash H change_path self.changes);
        changes = self.changes ++ change ∷ [];
      })
    ]

  unfoldable pub add_watcher : PendingChanges → CanonicalPathBuf → Flags → Option PendingChanges
  unfolding add
  add_watcher self path flags =
      add self (record { path = path; flags = record flags { origin_watcher = true } })

  -- The flag, and the changes with the flag taken.
  unfoldable pub take_recrawl : PendingChanges → Bool × PendingChanges
  take_recrawl self = (self.recrawl, record self { recrawl = false })

  -- What the iterator hands out, and the changes when it is done.
  unfoldable pub drain : PendingChanges → List PendingChange × PendingChanges
  unfolding sort_by_path
  drain self = (sort_by_path self.changes, record self { path_set = H.empty; changes = [] })
