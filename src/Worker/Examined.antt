-- ===== src/Worker/Examined.antt =====
-- The files of a round: all roots are crawled, or the pending changes are applied.
use filesentry.Common.{
  ℕ, ◌≡◌, ◌≤◌, ◌+◌, ◌*◌, ◌∙◌, refl, Bool, true, false, none, some, Option, List, [], ◌∷◌,
  if◌then◌else◌, arith, length, inl, inr, Bool-cases, get_elem?, get_elem?_of_lt,
}
use native.Mathlib.Nat.{suc-mul}
use filesentry.Path.{CanonicalPathBuf, Memrchr, as_bytes}
use filesentry.HashTable.{Hashing}
use filesentry.Config.{Filter}
use filesentry.Events.{Event}
use filesentry.Pending
use filesentry.Pending.{PendingChanges}
use filesentry.Pending.Drain.{AllTerminated}
use filesentry.Tree.{FsNode, contains_recursive}
use filesentry.Tree.Grow.Sizes.{Grows-weaken}
use filesentry.Tree.Crawl.{Walker, Stats, Crawling, crawl}
use filesentry.Tree.Crawl.Entering.{IsSound}
use filesentry.Tree.Crawl.Ends.{CrawlApart, crawl-IsSound}
use filesentry.Tree.Transaction.{apply_transaction}
use filesentry.Tree.Transaction.Ends.{TransactionApart, apply_transaction-IsSound}
use filesentry.Worker
use filesentry.Worker.{
  retain, Worker, AddRoot, process_root, process_notifications, crawl_roots, examine, deliver,
  round, insert_root,
}
use filesentry.Worker.Known.{AllKnown, AllKnown-le}
use filesentry.Worker.Orderly.{IsOrderly, Room, Room-Grows}

module _ (H : Hashing) (m : Memrchr) (W : Walker) (stats : Stats)
    (watch_ok : CanonicalPathBuf → Bool → Bool) (handle : ℕ → List Event → Bool) (most : ℕ)
    (bounded : (root : List ℕ) (depth : Option ℕ) → W.remaining (W.start root depth) ≤ most)
    (filter : Filter) where
  roots_step :
      (st st' : Crawling H) (id : ℕ) (recursive : Bool) (roots : Worker.Roots)
      → crawl H m W stats filter st id ≡ some st'
      → crawl_roots H m W stats watch_ok handle filter st ((id, recursive) ∷ roots)
        ≡ crawl_roots H m W stats watch_ok handle filter st' roots
  unfolding crawl_roots
  roots_step st st' id recursive roots one = rw one refl

  -- In no crawl of the roots, each with the state that there then is, a search for a parent meets the id
  -- that was just inserted.
  abbrev pub RootsApart : Crawling H → Worker.Roots → Type 0
  RootsApart st [] = Unit
  RootsApart st ((id, recursive) ∷ roots) =
      ((node : FsNode)
        → get_elem? st.tree.nodes id ≡ some node
        → CrawlApart H m W stats filter st id node)
      × ((st1 : Crawling H) → crawl H m W stats filter st id ≡ some st1 → RootsApart st1 roots)

  -- Nor in what the worker examines.
  abbrev pub ExamineApart : Worker H → Type 0
  ExamineApart self =
      (self.pending_changes.recrawl ≡ true → RootsApart (self.files) self.roots)
      × (self.pending_changes.recrawl ≡ false
          → TransactionApart H m W stats filter most bounded (self.files)
              (record (self.pending_changes) { recrawl = false }))

  crawl_roots-IsSound :
      (st : Crawling H) (s : IsSound H st) (roots : Worker.Roots)
      → AllKnown (length st.tree.nodes) roots
      → RootsApart st roots
      → Room H (length roots * (most + 1)) st.tree
      → (st' : Crawling H) × (crawl_roots H m W stats watch_ok handle filter st roots ≡ some st')
        × IsSound H st'
        × (length st.tree.nodes ≤ length st'.tree.nodes)
  unfolding crawl_roots
  crawl_roots-IsSound st s [] known apart room = (st, refl, s, omega arith)
  crawl_roots-IsSound st s ((id, recursive) ∷ roots) known apart room =
      let more = suc-mul (length roots) (most + 1) in
      let (node, at) = get_elem?_of_lt st.tree.nodes id known.0 in
      let few =
        bounded (as_bytes node.path.buf) (if contains_recursive node.flags then none else some 1) in
      let (st1, one, s1, g1) =
        crawl-IsSound H m W stats filter st s id node at (apart.0 node at)
          (omega (arith, room.0, more, few)) (omega (arith, room.1, more, few)) in
      let wide =
        Grows-weaken H {k = most + 1} {e = 2 * (most + 1)} g1 (omega (arith, few))
          (omega (arith, few)) in
      let (st2, rest, s2, grown) =
        crawl_roots-IsSound st1 s1 roots
          (AllKnown-le (length st.tree.nodes) (length st1.tree.nodes) roots g1.more_nodes known.1)
          (apart.1 st1 one)
          (Room-Grows H (most + 1) (length roots * (most + 1))
            (omega (arith, room.0, more), omega (arith, room.1, more)) wide (omega arith)) in
      (
        st2,
        roots_step st st1 id recursive roots one ∙ rest,
        s2,
        omega (arith, g1.more_nodes, grown),
      )

  examine_roots :
      (self : Worker H) (files : Crawling H)
      → self.pending_changes.recrawl ≡ true
      → crawl_roots H m W stats watch_ok handle filter (self.files) self.roots ≡ some files
      → examine H m W stats watch_ok handle filter self
        ≡ some (files, record (self.pending_changes) { recrawl = false })
  unfolding examine Pending.take_recrawl
  examine_roots self files recrawls done = rw recrawls (rw done refl)

  examine_changes :
      (self : Worker H)
      → self.pending_changes.recrawl ≡ false
      → examine H m W stats watch_ok handle filter self
        ≡ apply_transaction H m W stats filter
            (self.files)
            (record (self.pending_changes) { recrawl = false })
  unfolding examine Pending.take_recrawl
  examine_changes self plain = rw plain refl

  -- Whether all roots are to be crawled or the pending changes to be applied: with room for either, that
  -- ends without a panic in a sound state.
  pub examine-IsSound :
      (self : Worker H) (o : IsOrderly H self)
      → ExamineApart self
      → Room H
          (length self.roots * (most + 1) + length self.pending_changes.changes * (most + 1))
          self.files.tree
      → (files : Crawling H) × (left : PendingChanges H) × (examine H m W stats watch_ok handle
            filter self
          ≡ some (files, left))
        × IsSound H files
        × (length self.files.tree.nodes ≤ length files.tree.nodes)
        × AllTerminated left.changes
  examine-IsSound self o apart room = elim (Bool-cases self.pending_changes.recrawl) [
    | inl recrawls ↦
        let (files, done, s, more) =
          crawl_roots-IsSound (self.files) o.files self.roots o.known (apart.0 recrawls)
            (omega (arith, room.0), omega (arith, room.1)) in
        (
          files,
          record (self.pending_changes) { recrawl = false },
          examine_roots self files recrawls done,
          s,
          more,
          o.terminated_paths,
        )
    | inr plain ↦
        let (files, left, done, s, none_left, more) =
          apply_transaction-IsSound H m W stats filter most bounded (self.files) o.files
            (record (self.pending_changes) { recrawl = false }) (apart.1 plain)
            (omega (arith, room.0)) (omega (arith, room.1)) in
        (files, left, examine_changes self plain ∙ done, s, more, rw none_left tt)
  ]
