-- ===== src/Pending/View.antt =====
-- The queue as a map from paths to flags.
use filesentry.Common.{
  ℕ, ◌≡◌, ◌<◌, ◌≤◌, ◌+◌, ◌%◌, ◌^◌, refl, true, false, Option, none, some, List, [], ◌∷◌, ◌++◌,
  arith, length, length-append, length-set, get_elem?, set, map, if◌then◌else◌, suc, Bool-cases,
  inl, inr, zero,
}
use filesentry.Path.{CanonicalPathBuf, path_eq}
use filesentry.HashTable.{Hashing, find, hash_path}
use filesentry.HashTable.Index.{Indexes, Indexes-empty, index_of}
use filesentry.HashTable.Keyed.{
  item_eq, item_hash, lookup, lookup_vacant, occupied, lookup-append, lookup-set, find_item,
  insert_item, set_item,
}
use filesentry.Pending.{
  Flags, PendingChange, PendingChanges, change_path, consolidate, new, add_watcher, start_recrawl,
  take_recrawl, union,
}

abbrev flags_of : Option PendingChange → Option Flags
flags_of none = none
flags_of (some c) = some c.flags

-- The flags that are pending for a path.
unfoldable pub pending : CanonicalPathBuf → List PendingChange → Option Flags
pending q cs = flags_of (lookup change_path q cs)

-- The flags of a path after one more report of a watcher: those of every report so far.
unfoldable pub report : Option Flags → Flags → Flags
report none new = record new { origin_watcher = true }
report (some old) new = record (union old new) { origin_watcher = true }

abbrev pub FromWatcher : List PendingChange → Type 0
FromWatcher [] = Unit
FromWatcher (c ∷ cs) = (c.flags.origin_watcher ≡ true) × FromWatcher cs

FromWatcher-append :
    (cs : List PendingChange) (c : PendingChange)
    → FromWatcher cs
    → c.flags.origin_watcher ≡ true
    → FromWatcher (cs ++ c ∷ [])
FromWatcher-append [] c h o = (o, tt)
FromWatcher-append (x ∷ cs) c h o = (h.0, FromWatcher-append cs c h.1 o)

FromWatcher-set :
    (cs : List PendingChange) (i : ℕ) (c : PendingChange)
    → FromWatcher cs
    → c.flags.origin_watcher ≡ true
    → FromWatcher (set cs i c)
FromWatcher-set [] i c h o = tt
FromWatcher-set (x ∷ cs) zero c h o = (o, h.1)
FromWatcher-set (x ∷ cs) (suc i) c h o = (h.0, FromWatcher-set cs i c h.1 o)

FromWatcher-get :
    (cs : List PendingChange) (i : ℕ) {c : PendingChange}
    → FromWatcher cs
    → get_elem? cs i ≡ some c
    → c.flags.origin_watcher ≡ true
FromWatcher-get [] i h e = ground arith
FromWatcher-get (x ∷ cs) zero h e = ground arith
FromWatcher-get (x ∷ cs) (suc i) h e = FromWatcher-get cs i h.1 e

module _ (H : Hashing) where
  -- The table indexes the changes by their paths, each change comes from a watcher, and a pending
  -- recrawl leaves no single changes.
  pub record IsValid (c : PendingChanges H) : Type 0 where
    pub indexed : Indexes H c.path_set (map change_path c.changes)
    pub from_watcher : FromWatcher c.changes
    pub recrawl_only : c.recrawl ≡ true → c.changes ≡ []

  pub new-IsValid : IsValid (new H)
  new-IsValid = record { indexed = Indexes-empty H; from_watcher = tt; recrawl_only = λ h. refl }

  -- A recrawl forgets the single changes, and is valid whatever was pending.
  pub start_recrawl-IsValid : (c : PendingChanges H) → IsValid (start_recrawl H c)
  unfolding start_recrawl
  start_recrawl-IsValid c = record {
    indexed = Indexes-empty H;
    from_watcher = tt;
    recrawl_only = λ h. refl;
  }

  pub take_recrawl-IsValid : (c : PendingChanges H) → IsValid c → IsValid (take_recrawl H c).1
  unfolding take_recrawl
  take_recrawl-IsValid c v = record {
    indexed = v.indexed;
    from_watcher = v.from_watcher;
    recrawl_only = λ h. ground arith;
  }

  module _ (c : PendingChanges H) (v : IsValid c) (p : CanonicalPathBuf) where
    change-find :
        find H c.path_set (hash_path H p) (item_eq change_path c.changes p)
        ≡ some (index_of p (map change_path c.changes))
    change-find = find_item change_path H c.path_set c.changes v.indexed p

    -- On a valid queue of fewer than 2^32 changes `add_watcher` does not panic and keeps it valid.
    -- While a recrawl is pending it changes nothing; else it adds at most one change, and changes
    -- the flags of the one path, by `report`.
    pub add_watcher_lem :
        (f : Flags)
        → length c.changes < 2 ^ 32
        → (c' : PendingChanges H) × (add_watcher H c p f ≡ some c')
          × IsValid c'
          × (c'.recrawl ≡ c.recrawl)
          × (length c'.changes ≤ length c.changes + 1)
          × ((q : CanonicalPathBuf)
              → pending q c'.changes ≡ (
                  if c.recrawl
                  then none
                  else if path_eq p q
                  then some (report (pending p c.changes) f)
                  else pending q c.changes))
    unfolding add_watcher pending report lookup
    add_watcher_lem f small = elim (Bool-cases c.recrawl) [
      | inl on ↦ (c, rw on refl, v, refl, omega arith, λ q. rw on (rw (v.recrawl_only on) refl))
      | inr off ↦ by_entry off (index_of p (map change_path c.changes)) refl
    ]
      where
        by_entry :
            c.recrawl ≡ false
            → (o : Option ℕ) → index_of p (map change_path c.changes) ≡ o
            → (c' : PendingChanges H) × (add_watcher H c p f ≡ some c')
              × IsValid c'
              × (c'.recrawl ≡ c.recrawl)
              × (length c'.changes ≤ length c.changes + 1)
              × ((q : CanonicalPathBuf)
                  → pending q c'.changes ≡ (
                      if c.recrawl
                      then none
                      else if path_eq p q
                      then some (report (pending p c.changes) f)
                      else pending q c.changes))
        by_entry off none fresh =
            let e : PendingChange = record {
              path = p;
              flags = record f { origin_watcher = true };
            } in
            (
              record c {
                path_set =
                    H.insert c.path_set (hash_path H p) (length c.changes % 2 ^ 32)
                      (item_hash H change_path c.changes);
                changes = c.changes ++ e ∷ [];
              },
              ground (arith, change-find),
              record {
                indexed = insert_item change_path H c.path_set c.changes v.indexed e fresh small;
                from_watcher = FromWatcher-append c.changes e v.from_watcher refl;
                recrawl_only = λ h. ground arith;
              },
              refl,
              omega (arith, length-append {0} c.changes (e ∷ [])),
              λ q. ground (
                arith,
                lookup-append change_path c.changes e q fresh,
                lookup_vacant change_path c.changes p fresh,
              ),
            )
        by_entry off (some i) there =
            let (old, at, same, found) = occupied change_path c.changes p i there in
            let e : PendingChange = consolidate old (record f { origin_watcher = true }) in
            let own = FromWatcher-get c.changes i v.from_watcher at in
            let origin : e.flags.origin_watcher ≡ true = ground arith in
            (
              record c { changes = set c.changes i e },
              ground (arith, change-find),
              record {
                indexed = set_item change_path H c.path_set c.changes v.indexed i old e at refl;
                from_watcher = FromWatcher-set c.changes i e v.from_watcher origin;
                recrawl_only = λ h. ground arith;
              },
              refl,
              omega (arith, length-set {0} c.changes i e),
              λ q.
                  let placed : index_of old.path (map change_path c.changes) ≡ some i =
                    rw same there in
                  ground (arith, lookup-set change_path c.changes e i q placed),
            )
