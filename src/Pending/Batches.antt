-- ===== src/Pending/Batches.antt =====
-- A run of `add_watcher` calls, as the backends make them for one batch of events.
use filesentry.Common.{
  ◌≡◌, ◌≤◌, ◌+◌, ◌^◌, refl, Option, none, some, List, [], ◌∷◌, arith, length, ◌>>=◌, if◌then◌else◌,
  inl, inr, Bool-cases, ap,
}
use filesentry.Path.{CanonicalPathBuf, path_eq}
use filesentry.Path.Bytes.{path_eq→≡}
use filesentry.HashTable.Keyed.{lookup}
use filesentry.HashTable.{Hashing}
use filesentry.Pending.{Flags, PendingChanges, add_watcher}
use filesentry.Pending.View
use filesentry.Pending.View.{add_watcher_lem, pending, report}

abbrev pub Reports : Type 0
Reports = List (CanonicalPathBuf × Flags)

-- The flags of a path after the reports of a batch.
unfoldable pub reported : CanonicalPathBuf → Option Flags → Reports → Option Flags
unfolding report
reported q old [] = old
reported q old ((p, f) ∷ reports) =
    reported q (if path_eq p q then some (report old f) else old) reports

module _ (H : Hashing) where
  unfoldable pub add_all : PendingChanges H → Reports → Option (PendingChanges H)
  add_all changes [] = some changes
  add_all changes ((path, flags) ∷ reports) = do
    changes' ← add_watcher H changes path flags
    add_all changes' reports

  -- On a valid queue with room for them all, the calls do not panic and keep it valid. While a recrawl
  -- is pending they change nothing.
  pub add_all_lem :
      (c : PendingChanges H) (reports : Reports)
      → View.IsValid H c
      → length c.changes + length reports ≤ 2 ^ 32
      → (c' : PendingChanges H) × (add_all c reports ≡ some c')
        × View.IsValid H c'
        × (c'.recrawl ≡ c.recrawl)
        × (length c'.changes ≤ length c.changes + length reports)
        × ((q : CanonicalPathBuf)
            → pending q c'.changes
              ≡ (if c.recrawl then none else reported q (pending q c.changes) reports))
  unfolding add_all reported pending lookup
  add_all_lem c [] v small = (
    c,
    refl,
    v,
    refl,
    omega arith,
    λ q. elim (Bool-cases c.recrawl) [
      | inl on ↦ rw (on, v.recrawl_only on) refl
      | inr off ↦ rw off refl
    ],
  )
  add_all_lem c ((p, f) ∷ reports) v small =
      let (c1, e1, v1, r1, l1, view1) = add_watcher_lem H c v p f (omega (arith, small)) in
      let (c2, e2, v2, r2, l2, view2) = add_all_lem c1 reports v1 (omega (arith, l1, small)) in
      (
        c2,
        rw e1 e2,
        v2,
        rw r2 r1,
        omega (arith, l1, l2),
        λ q. elim (Bool-cases c.recrawl) [
          | inl on ↦ ground (arith, view2 q)
          | inr off ↦ elim (Bool-cases (path_eq p q)) [
            | inl same ↦
                let e : pending q c1.changes ≡ some (report (pending q c.changes) f) = ground (
                  arith,
                  view1 q,
                  ap (λ (x : CanonicalPathBuf). pending x c.changes) (path_eq→≡ p q same),
                ) in
                ground (arith, view2 q, e)
            | inr other ↦ ground (arith, view1 q, view2 q)
          ]
        ],
      )
