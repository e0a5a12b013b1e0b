-- ===== src/Tree/Crawl/Ends.antt =====
-- A crawl ends without a panic and keeps the tree valid.
use filesentry.Common.{
  ℕ, zero, suc, ◌≡◌, ◌≤◌, ◌<◌, ◌∙◌, ◌+◌, ◌*◌, refl, Bool, true, false, none, some, List, [], ◌∷◌,
  ◌++◌, if◌then◌else◌, arith, get_elem?, inl, inr, Bool-cases, Option-cases, length, ◌==◌,
  get_elem?_lt, ◌||◌,
}
use filesentry.Tree.Crawl.Rounds.{crawl_item_le}
use filesentry.Path.{Memrchr, assert_canonicalized, as_bytes}
use filesentry.HashTable.{Hashing}
use filesentry.Config.{Filter}
use filesentry.Metadata.{for_path}
use filesentry.Tree.{FileTree, FsNode, Emitted, at_id, none_id, contains_recursive}
use filesentry.Tree.Valid.{at_id_of_lt}
use filesentry.Tree.Grow.Sizes.{Grows, Grows-refl, Grows-trans, Grows-weaken}
use filesentry.Tree.Change.Parents.{SearchApart}
use filesentry.Tree.Crawl.{
  WalkItem, failed, entry, Walker, Stats, Crawling, leave, enter, visit, crawl_item, crawl_rounds,
  crawl,
}
use filesentry.Tree.Crawl.Leaving.{leave-IsValid}
use filesentry.Tree.Crawl.Entering.{IsSound, enter-IsSound}
use filesentry.Tree.Crawl.Visited.{Sound, visit-IsSound}

module _ (H : Hashing) (m : Memrchr) (W : Walker) (stats : Stats) (filter : Filter)
    (recursive : Bool) where
  item_stays :
      (st : Crawling H) (path : List ℕ) (depth : ℕ) (directory : Bool) (it : W.Iter)
      → ((depth == 0) || filter path (some directory)) ≡ true
      → (it' : W.Iter) × (crawl_item H m W stats filter recursive st (entry path depth directory) it
          ≡ some (st, it'))
  unfolding crawl_item
  item_stays st path depth directory it skips = elim (Bool-cases (depth == 0)) [
    | inl root ↦ (it, ground arith)
    | inr below ↦ ((if directory then W.skip_current_dir it else it), ground arith)
  ]

  item_visits :
      (st st' : Crawling H) (path : List ℕ) (depth : ℕ) (directory : Bool) (it : W.Iter)
      → ((depth == 0) || filter path (some directory)) ≡ false
      → visit H m W stats filter recursive st (assert_canonicalized path) depth ≡ some st'
      → crawl_item H m W stats filter recursive st (entry path depth directory) it ≡ some (st', it)
  unfolding crawl_item
  item_visits st st' path depth directory it kept visits = ground arith

  -- If an entry is not ignored, the search for its parent does not meet the id that was just inserted.
  abbrev pub ItemApart : Crawling H → WalkItem → Type 0
  ItemApart st failed = Unit
  ItemApart st (entry path depth directory) =
      ((depth == 0) || filter path (some directory)) ≡ false
      → SearchApart H m st.tree (assert_canonicalized path)
          (for_path (stats st.clock (assert_canonicalized path)))

  -- That is so of each entry that the walk yields, in the tree that the crawl then has.
  abbrev pub RoundsApart : ℕ → Crawling H → W.Iter → Type 0
  RoundsApart zero st it = Unit
  RoundsApart (suc n) st it =
      (item : WalkItem) (it' : W.Iter)
      → W.next it ≡ some (item, it')
      → ItemApart st item
        × ((st1 : Crawling H) (it1 : W.Iter)
            → crawl_item H m W stats filter recursive st item it' ≡ some (st1, it1)
            → RoundsApart n st1 it1)

  crawl_item-IsSound :
      (st : Crawling H) (s : IsSound H st) (item : WalkItem) (it : W.Iter)
      → ItemApart st item
      → length st.tree.nodes < none_id
      → length st.tree.dirs + 1 < none_id
      → (st' : Crawling H) × (it' : W.Iter) × (crawl_item H m W stats filter recursive st item it
          ≡ some (st', it'))
        × IsSound H st'
        × Grows H 1 2 st.tree st'.tree
  crawl_item-IsSound st s failed it apart room space = (
    st,
    it,
    unfold crawl_item in refl,
    s,
    Grows-weaken H (Grows-refl H st.tree) (omega arith) (omega arith),
  )
  crawl_item-IsSound st s (entry path depth directory) it apart room space =
      elim (Bool-cases ((depth == 0) || filter path (some directory))) [
        | inl skips ↦
            let (it', stays) = item_stays st path depth directory it skips in
            (st, it', stays, s, Grows-weaken H (Grows-refl H st.tree) (omega arith) (omega arith))
        | inr kept ↦
            let (st', visits, s', g) =
              visit-IsSound H m W stats filter recursive st s (assert_canonicalized path) depth
                (apart kept) room space in
            (st', it, item_visits st st' path depth directory it kept visits, s', g)
      ]

  rounds_end :
      (n : ℕ) (st : Crawling H) (it : W.Iter)
      → W.next it ≡ none
      → crawl_rounds H m W stats filter n recursive st it ≡ some st
  unfolding crawl_rounds
  rounds_end zero st it e = ground arith
  rounds_end (suc n) st it e = ground arith

  rounds_next :
      (n : ℕ) (st st' : Crawling H) (item : WalkItem) (it it' it'' : W.Iter)
      → W.next it ≡ some (item, it')
      → crawl_item H m W stats filter recursive st item it' ≡ some (st', it'')
      → crawl_rounds H m W stats filter (suc n) recursive st it
        ≡ crawl_rounds H m W stats filter n recursive st' it''
  unfolding crawl_rounds
  rounds_next n st st' item it it' it'' e one = ground arith

  crawl_rounds-IsSound :
      (n : ℕ) (st : Crawling H) (s : IsSound H st) (it : W.Iter)
      → W.remaining it ≤ n
      → RoundsApart n st it
      → length st.tree.nodes + n ≤ none_id
      → length st.tree.dirs + 2 * n ≤ none_id
      → Sound H m W stats filter recursive n
          (2 * n)
          st
          (crawl_rounds H m W stats filter n recursive st it)
  crawl_rounds-IsSound zero st s it enough apart room space = elim (Option-cases (W.next it)) [
    | inl e ↦ (st, rounds_end 0 st it e, s, Grows-refl H st.tree)
    | inr ((item, it'), e) ↦ absurd (omega (arith, enough, W.remaining-next it it' item e))
  ]
  crawl_rounds-IsSound (suc n) st s it enough apart room space = elim (Option-cases (W.next it)) [
    | inl e ↦ (
      st,
      rounds_end (suc n) st it e,
      s,
      Grows-weaken H (Grows-refl H st.tree) (omega arith) (omega arith),
    )
    | inr ((item, it'), e) ↦
        let fewer = W.remaining-next it it' item e in
        let away = apart item it' e in
        let (st1, it1, one, s1, g1) =
          crawl_item-IsSound st s item it' away.0 (omega (arith, room)) (omega (arith, space)) in
        let less = crawl_item_le H m W stats filter recursive st st1 item it' it1 one in
        let (st2, more, s2, g2) =
          crawl_rounds-IsSound n st1 s1 it1 (omega (arith, enough, fewer, less))
            (away.1 st1 it1 one) (omega (arith, room, g1.few_more_nodes))
            (omega (arith, space, g1.few_more_dirs)) in
        (
          st2,
          rounds_next n st st1 item it it' it1 e one ∙ more,
          s2,
          Grows-weaken H (Grows-trans H g1 g2) (omega arith) (omega arith),
        )
  ]

module _ (H : Hashing) (m : Memrchr) (W : Walker) (stats : Stats) (filter : Filter) where
  -- The walk of a crawl of a node.
  abbrev pub walk_of : FsNode → W.Iter
  walk_of node =
      W.start (as_bytes node.path.buf) (if contains_recursive node.flags then none else some 1)

  -- In this crawl, no search for the parent of a path that the walk yields meets the id that was just
  -- inserted for the path.
  abbrev pub CrawlApart : Crawling H → ℕ → FsNode → Type 0
  CrawlApart st root node =
      (entered : Crawling H)
      → enter H (record st { watches = st.watches ++ node.path ∷ [] }) root 0 ≡ some entered
      → RoundsApart H m W stats filter (contains_recursive node.flags) (W.remaining (walk_of node))
          entered (walk_of node)

  crawl_step :
      (st entered walked : Crawling H) (root : ℕ) (node : FsNode) (tree : FileTree H)
      (emitted : Emitted) (stack : List (ℕ × ℕ))
      → at_id st.tree.nodes root ≡ some node
      → enter H (record st { watches = st.watches ++ node.path ∷ [] }) root 0 ≡ some entered
      → crawl_rounds H m W stats filter
          (W.remaining (walk_of node))
          (contains_recursive node.flags)
          entered
          (walk_of node)
        ≡ some walked
      → leave H walked.tree walked.emitted walked.work_stack 0 ≡ some (tree, emitted, stack)
      → crawl H m W stats filter st root
        ≡ some (record walked { tree = tree; emitted = emitted; work_stack = stack })
  unfolding crawl
  crawl_step st entered walked root node tree emitted stack at begins walks ends = ground arith

  -- A crawl of a node, on a valid tree with a stack of directories and with room for all that the walk may
  -- still yield, ends without a panic, in a valid tree with a stack of directories: provided that in this
  -- crawl no search for the parent of a new path meets the id that was just inserted.
  pub crawl-IsSound :
      (st : Crawling H) (s : IsSound H st) (root : ℕ) (node : FsNode)
      → get_elem? st.tree.nodes root ≡ some node
      → CrawlApart st root node
      → length st.tree.nodes + W.remaining (walk_of node) ≤ none_id
      → length st.tree.dirs + 2 * W.remaining (walk_of node) ≤ none_id
      → (st' : Crawling H) × (crawl H m W stats filter st root ≡ some st')
        × IsSound H st'
        × Grows H (W.remaining (walk_of node)) (2 * W.remaining (walk_of node)) st.tree st'.tree
  crawl-IsSound st s root node at apart room space =
      let it = walk_of node in
      let recursive = contains_recursive node.flags in
      let (entered, begins, s1, g1) =
        enter-IsSound H (record st { watches = st.watches ++ node.path ∷ [] })
          (record { valid = s.valid; framed = s.framed }) root 0
          (get_elem?_lt st.tree.nodes root at) in
      let (walked, walks, s2, g2) =
        crawl_rounds-IsSound H m W stats filter recursive (W.remaining it) entered s1 it
          (omega arith) (apart entered begins) (omega (arith, room, g1.few_more_nodes))
          (omega (arith, space, g1.few_more_dirs)) in
      let (tree, emitted, stack, ends, v, g3, framed) =
        leave-IsValid H walked.tree s2.valid walked.emitted walked.work_stack 0 s2.framed in
      (
        record walked { tree = tree; emitted = emitted; work_stack = stack },
        crawl_step st entered walked root node tree emitted stack
            (at_id_of_lt st.tree.nodes root s.valid.few_nodes ∙ at) begins walks ends,
        record { valid = v; framed = framed },
        Grows-weaken H (Grows-trans H g1 (Grows-trans H g2 g3)) (omega arith) (omega arith),
      )
