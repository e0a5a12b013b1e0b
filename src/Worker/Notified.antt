-- ===== src/Worker/Notified.antt =====
-- The new roots of a round: each is added, watched and crawled.
use filesentry.Common.{
  ℕ, ◌≡◌, ◌≤◌, ◌+◌, ◌*◌, ◌∙◌, refl, ap, Bool, true, false, none, some, Option, List, [], ◌∷◌, ◌++◌,
  arith, length, inl, inr, Bool-cases, Option-cases,
}
use native.Mathlib.Nat.{suc-mul}
use filesentry.Path.{CanonicalPathBuf, Memrchr}
use filesentry.HashTable.{Hashing}
use filesentry.Config.{Filter}
use filesentry.Events.{Event}
use filesentry.Metadata.{for_path}
use filesentry.Tree.{FileTree}
use filesentry.Tree.Grow.Sizes.{Grows, Grows-refl, Grows-trans, Grows-weaken}
use filesentry.Tree.Change.Parents.{SearchApart}
use filesentry.Tree.Roots.{add_root}
use filesentry.Tree.Roots.Total.{add_total, add-Grows}
use filesentry.Tree.Crawl.{Walker, Stats, Crawling, crawl_root}
use filesentry.Tree.Crawl.Leaving.{Framed-Grows}
use filesentry.Tree.Crawl.Entering.{IsSound}
use filesentry.Tree.Crawl.RootEnds.{CrawlRootApart, crawl_root-IsSound}
use filesentry.Worker
use filesentry.Worker.{
  retain, Worker, AddRoot, process_root, process_notifications, crawl_roots, examine, deliver,
  round, insert_root,
}
use filesentry.Worker.Known.{AllKnown-le, insert_root_known}
use filesentry.Worker.Orderly.{IsOrderly, Room, Room-Grows, looked, watched}

module _ (H : Hashing) (m : Memrchr) (W : Walker) (stats : Stats)
    (watch_ok : CanonicalPathBuf → Bool → Bool) (handle : ℕ → List Event → Bool) (most : ℕ)
    (bounded : (root : List ℕ) (depth : Option ℕ) → W.remaining (W.start root depth) ≤ most)
    (filter : Filter) where
  module _ (self : Worker H) (root : AddRoot) (tree : FileTree H) where
    abbrev AddedBy : Option ℕ → Type 0
    AddedBy added =
        add_root H m self.files.tree root.path root.recursive
          (for_path (stats self.files.clock root.path))
        ≡ some (tree, added)

    abbrev result : Option (Worker H)
    result = process_root H m W stats watch_ok handle filter self root

    refused_step :
        AddedBy none
        → result
          ≡ some (record self {
            files = looked H (self.files) tree;
            notified = self.notified ++ (root.path, true) ∷ [];
          })
    unfolding process_root
    refused_step added = rw added refl

    failed_step :
        (node : ℕ)
        → AddedBy (some node)
        → watch_ok root.path root.recursive ≡ false
        → result
          ≡ some (record self {
            files = watched H (self.files) tree root.path;
            notified = self.notified ++ (root.path, false) ∷ [];
          })
    unfolding process_root
    failed_step node added fails = rw added (rw fails refl)

    crawled_step :
        (node : ℕ) (files : Crawling H) (roots : Worker.Roots)
        → AddedBy (some node)
        → watch_ok root.path root.recursive ≡ true
        → crawl_root H m W stats filter (watched H (self.files) tree root.path) node root.recursive
          ≡ some files
        → insert_root H files.tree filter root.path root.recursive node self.roots ≡ some roots
        → result
          ≡ some (record self {
            files = files;
            roots = roots;
            notified = self.notified ++ (root.path, true) ∷ [];
          })
    unfolding process_root
    crawled_step node files roots added watches crawls inserts =
        rw added (rw watches (rw crawls (rw inserts refl)))

  -- It returns an orderly worker with the same changes and events, at most so many roots and nodes more.
  abbrev pub Keeps : ℕ → ℕ → Worker H → Option (Worker H) → Type 0
  Keeps r n self result =
      (self' : Worker H) × (result ≡ some self')
      × IsOrderly H self'
      × (self'.pending_changes ≡ self.pending_changes)
      × (self'.events ≡ self.events)
      × (length self'.roots ≤ length self.roots + r)
      × Grows H n (2 * n) self.files.tree self'.files.tree

  -- A root is added, and looked at; it is not among the roots yet.
  module _ (self : Worker H) (o : IsOrderly H self) (tree : FileTree H) (files : Crawling H)
      (s : IsSound H files) (notified : List (CanonicalPathBuf × Bool))
      (g : Grows H (most + 1) (2 * (most + 1)) self.files.tree files.tree) where
    moved : IsOrderly H (record self { files = files; notified = notified })
    moved = record {
      files = s;
      known =
          AllKnown-le (length self.files.tree.nodes) (length files.tree.nodes) self.roots
            g.more_nodes o.known;
      events = o.events;
      terminated_paths = o.terminated_paths;
    }

  -- While a root is added and crawled, no search for a parent meets the id that was just inserted.
  abbrev pub RootApart : Worker H → AddRoot → Type 0
  RootApart self root =
      SearchApart H m self.files.tree root.path (for_path (stats self.files.clock root.path))
      × ((tree : FileTree H) (node : ℕ)
          → AddedBy self root tree (some node)
          → watch_ok root.path root.recursive ≡ true
          → CrawlRootApart H m W stats filter root.recursive (watched H (self.files) tree root.path)
              node)

  -- That is so of each new root, with the worker as it then is.
  abbrev pub NotificationsApart : Worker H → List AddRoot → Type 0
  NotificationsApart self [] = Unit
  NotificationsApart self (root ∷ roots) =
      RootApart self root
      × ((self1 : Worker H)
          → process_root H m W stats watch_ok handle filter self root ≡ some self1
          → NotificationsApart self1 roots)

  process_root-IsOrderly :
      (self : Worker H) (o : IsOrderly H self) (root : AddRoot)
      → RootApart self root
      → Room H (most + 1) self.files.tree
      → Keeps 1 (most + 1) self (process_root H m W stats watch_ok handle filter self root)
  unfolding add_root
  process_root-IsOrderly self o root apart room =
      let t = self.files.tree in
      let fs_meta = for_path (stats self.files.clock root.path) in
      let (tree, added, adds, v, has_node) =
        add_total H m t o.files.valid root.path root.recursive true fs_meta apart.0
          (omega (arith, room.0)) (omega (arith, room.1)) in
      let g =
        add-Grows H m root.path root.recursive true t tree fs_meta added adds
          (omega (arith, room.1)) in
      let framed = Framed-Grows H t tree self.files.work_stack g o.files.framed in
      let wide : Grows H (most + 1) (2 * (most + 1)) t tree =
        Grows-weaken H g (omega arith) (omega arith) in
      elim (Option-cases added) [
        | inl refused ↦ (
          record self {
            files = looked H (self.files) tree;
            notified = self.notified ++ (root.path, true) ∷ [];
          },
          refused_step self root tree (adds' adds refused),
          moved self o tree (looked H (self.files) tree) (record { valid = v; framed = framed }) _
              wide,
          refl,
          refl,
          omega arith,
          wide,
        )
        | inr (node, accepted) ↦
            let st = watched H (self.files) tree root.path in
            let s : IsSound H st = record { valid = v; framed = framed } in
            elim (Bool-cases (watch_ok root.path root.recursive)) [
              | inr fails ↦ (
                record self { files = st; notified = self.notified ++ (root.path, false) ∷ [] },
                failed_step self root tree node (adds' adds accepted) fails,
                moved self o tree st s _ wide,
                refl,
                refl,
                omega arith,
                wide,
              )
              | inl watches ↦
                  let small = has_node node accepted in
                  let (files, crawls, s', g') =
                    crawl_root-IsSound H m W stats filter root.recursive st s node most small
                      (apart.1 tree node (adds' adds accepted) watches) bounded
                      (omega (arith, room.0, g.few_more_nodes))
                      (omega (arith, room.1, g.few_more_dirs)) in
                  let grown : Grows H (most + 1) (2 * (most + 1)) t files.tree =
                    Grows-weaken H (Grows-trans H g g') (omega arith) (omega arith) in
                  let known =
                    AllKnown-le (length t.nodes) (length files.tree.nodes) self.roots
                      grown.more_nodes o.known in
                  let (roots, inserts, all, more) =
                    insert_root_known H files.tree s'.valid filter root.path root.recursive node
                      self.roots (omega (arith, small, g'.more_nodes)) known in
                  (
                    record self {
                      files = files;
                      roots = roots;
                      notified = self.notified ++ (root.path, true) ∷ [];
                    },
                    crawled_step self root tree node files roots (adds' adds accepted) watches
                        crawls inserts,
                    record {
                      files = s';
                      known = all;
                      events = o.events;
                      terminated_paths = o.terminated_paths;
                    },
                    refl,
                    refl,
                    more,
                    grown,
                  )
            ]
      ]
    where
      adds' :
          {t' : FileTree H} {x y : Option ℕ}
          → add_root H m self.files.tree root.path root.recursive
              (for_path (stats self.files.clock root.path))
            ≡ some (t', x)
          → x ≡ y
          → add_root H m self.files.tree root.path root.recursive
              (for_path (stats self.files.clock root.path))
            ≡ some (t', y)
      adds' {t'} h q = h ∙ ap (λ z. some (t', z)) q

  notifications_step :
      (self self' : Worker H) (root : AddRoot) (roots : List AddRoot)
      → process_root H m W stats watch_ok handle filter self root ≡ some self'
      → process_notifications H m W stats watch_ok handle filter self (root ∷ roots)
        ≡ process_notifications H m W stats watch_ok handle filter self' roots
  unfolding process_notifications
  notifications_step self self' root roots one = rw one refl

  pub process_notifications-IsOrderly :
      (self : Worker H) (o : IsOrderly H self) (roots : List AddRoot)
      → NotificationsApart self roots
      → Room H (length roots * (most + 1)) self.files.tree
      → Keeps
          (length roots)
          (length roots * (most + 1))
          self
          (process_notifications H m W stats watch_ok handle filter self roots)
  unfolding process_notifications
  process_notifications-IsOrderly self o [] t room = (
    self,
    refl,
    o,
    refl,
    refl,
    omega arith,
    Grows-weaken H (Grows-refl H self.files.tree) (omega arith) (omega arith),
  )
  process_notifications-IsOrderly self o (root ∷ roots) t room =
      let more = suc-mul (length roots) (most + 1) in
      let (self1, one, o1, p1, e1, r1, g1) =
        process_root-IsOrderly self o root t.0
          (omega (arith, room.0, more), omega (arith, room.1, more)) in
      let (self2, rest, o2, p2, e2, r2, g2) =
        process_notifications-IsOrderly self1 o1 roots (t.1 self1 one) (
          Room-Grows H (most + 1) (length roots * (most + 1))
            (omega (arith, room.0, more), omega (arith, room.1, more)) g1 (omega arith)) in
      (
        self2,
        notifications_step self self1 root roots one ∙ rest,
        o2,
        p2 ∙ p1,
        e2 ∙ e1,
        omega (arith, r1, r2),
        Grows-weaken H (Grows-trans H g1 g2) (omega (arith, more)) (omega (arith, more)),
      )
