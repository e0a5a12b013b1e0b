-- ===== src/Windows/Completions.antt =====
-- `completion_loop`: what the worker learns of a completed or a failed read.
use filesentry.Common.{
  ℕ, refl, ◌≡◌, ◌≤◌, ◌+◌, ◌^◌, Bool, true, false, not, ◌&&◌, ◌||◌, none, some, List, [], ◌∷◌, arith,
  length, get_elem?, inl, inr, Bool-cases, Option-cases,
}
use filesentry.HashTable.{Hashing}
use filesentry.Config.{Filter}
use filesentry.Pending.{PendingChanges, start_recrawl}
use filesentry.Pending.View
use filesentry.Pending.View.{start_recrawl-IsValid, pending}
use filesentry.Pending.Batches.{add_all_lem, reported}
use filesentry.Windows.{
  Root, WindowsWatcher, Completion, failed, completed, Round, completion_round, is_overflow, rearm,
  idle, recrawls, CanonicalPathBuf,
}
use filesentry.Windows.Records.{Actions}
use filesentry.Windows.Records.Bounds.{handle_records_in_range}
use filesentry.Windows.Records.Layout.{
  Record, layout, reports_of, handle_records-layout, entry, head_bytes,
}

-- The completions after which the backend cannot say what changed: a read failed, or the changes of a
-- root did not fit into its buffer.
unfoldable pub loses_track : WindowsWatcher → Completion → Bool
unfolding is_overflow
loses_track w (failed has_read) = has_read
loses_track w (completed key bytes) = elim (get_elem? w.roots key) [
  | none ↦ false
  | some root ↦ is_overflow bytes
]

abbrev bytes_of : Completion → ℕ
bytes_of (failed has_read) = 0
bytes_of (completed key bytes) = length bytes

layout_some : (r : Record) (rs : List Record) → is_overflow (layout (r ∷ rs)) ≡ false
unfolding is_overflow layout entry head_bytes
layout_some r [] = refl
layout_some r (s ∷ rs) = refl

module _ (H : Hashing) (actions : Actions) (filter : Filter) (w : WindowsWatcher)
    (later : List Root) (c : PendingChanges H) (v : View.IsValid H c) where
  -- Whatever is reported and whatever bytes are in the buffer, on a valid queue with room for them a round
  -- does not panic, and keeps the queue valid. The loop ends exactly if the watcher is shut down; else a
  -- recrawl is pending afterwards exactly if one was before or the backend has lost track.
  pub completion_round-IsValid :
      (completion : Completion)
      → length c.changes + bytes_of completion ≤ 2 ^ 32
      → (r : Round H) × (completion_round H actions filter w later c completion ≡ some r)
        × View.IsValid H r.changes
        × (r.goes_on ≡ not w.is_shutdown)
        × (r.changes.recrawl ≡ ((not w.is_shutdown && loses_track w completion) || c.recrawl))
  unfolding completion_round loses_track idle recrawls start_recrawl
  completion_round-IsValid (failed has_read) room = elim (Bool-cases w.is_shutdown) [
    | inl down ↦ (idle H false c, ground arith, v, ground arith, ground arith)
    | inr alive ↦ elim (Bool-cases has_read) [
      | inl lost ↦
          (recrawls H c [], ground arith, start_recrawl-IsValid H c, ground arith, ground arith)
      | inr woken ↦ (idle H true c, ground arith, v, ground arith, ground arith)
    ]
  ]
  completion_round-IsValid (completed key bytes) room = elim (Bool-cases w.is_shutdown) [
    | inl down ↦ (idle H false c, ground arith, v, ground arith, ground arith)
    | inr alive ↦ elim (Option-cases (get_elem? w.roots key)) [
      | inl unknown ↦ (idle H true c, ground arith, v, ground arith, ground arith)
      | inr (root, e) ↦ elim (Bool-cases (is_overflow bytes)) [
        | inl full ↦ (
          recrawls H c (rearm w.roots key),
          ground arith,
          start_recrawl-IsValid H c,
          ground arith,
          ground arith,
        )
        | inr read ↦
            let (reports, handled, few) = handle_records_in_range actions filter root.path bytes in
            let (c', added, valid, keeps, _, _) =
              add_all_lem H c reports v (omega (arith, room, few)) in
            (
              record { goes_on = true; changes = c'; notified = true; calls = rearm later key },
              ground (arith, handled, added),
              valid,
              ground arith,
              ground (arith, keeps),
            )
      ]
    ]
  ]

  -- When the read of a root of a watcher that is not shut down completes with at least one record, as
  -- the kernel lays them out, on a valid queue with room for the bytes, and no recrawl is pending,
  -- then every path has the flags that the records report for it on top of those it had, the worker
  -- is woken, and the root's next read is issued if the root is still there.
  pub completion_round-layout :
      (key : ℕ) (root : Root) (r : Record) (rs : List Record)
      → w.is_shutdown ≡ false
      → get_elem? w.roots key ≡ some root
      → c.recrawl ≡ false
      → length c.changes + length (layout (r ∷ rs)) ≤ 2 ^ 32
      → (round : Round H) × (completion_round H actions filter w later c
            (completed key (layout (r ∷ rs)))
          ≡ some round)
        × ((q : CanonicalPathBuf)
            → pending q round.changes.changes
              ≡ reported q (pending q c.changes) (reports_of actions filter root.path (r ∷ rs)))
        × (round.notified ≡ true)
        × (round.calls ≡ rearm later key)
  unfolding completion_round
  completion_round-layout key root r rs alive e quiet room =
      let bytes = layout (r ∷ rs) in
      let (reports, handled, few) = handle_records_in_range actions filter root.path bytes in
      let laid : reports ≡ reports_of actions filter root.path (r ∷ rs) =
        ground (arith, handled, handle_records-layout actions filter root.path (r ∷ rs)) in
      let (c', added, _, _, _, view) = add_all_lem H c reports v (omega (arith, room, few)) in
      (
        record { goes_on = true; changes = c'; notified = true; calls = rearm later key },
        ground (arith, handled, added, layout_some r rs),
        λ q. ground (arith, view q, laid),
        refl,
        refl,
      )
