-- ===== src/Tree/Crawl/RootEnds.antt =====
-- The crawl of a new root ends without a panic and keeps the tree valid.
use filesentry.Common.{
  ℕ, zero, suc, ◌≡◌, ◌≤◌, ◌<◌, ◌∙◌, ◌+◌, ◌*◌, ◌⊎◌, refl, ap, Bool, true, false, none, some, Option,
  List, [], ◌∷◌, ◌++◌, ◌&&◌, if◌then◌else◌, arith, get_elem?_of_lt, inl, inr, Bool-cases,
  Option-cases, length, ◌==◌, get_elem?,
}
use filesentry.Path.{Memrchr, CanonicalPathBuf, assert_canonicalized, as_bytes}
use filesentry.HashTable.{Hashing}
use filesentry.Config.{Filter}
use filesentry.Metadata.{for_path}
use filesentry.Tree.{FileTree, FsNode, at_id, none_id, is_dir}
use filesentry.Tree.Valid.{at_id_of_lt}
use filesentry.Tree.Grow.Sizes.{Grows, Grows-refl, Grows-trans, Grows-weaken}
use filesentry.Tree.Change.Parents.{SearchApart}
use filesentry.Tree.Roots.{add}
use filesentry.Tree.Roots.Total.{add_total, add-Grows}
use filesentry.Tree.Crawl.{
  WalkItem, failed, entry, Walker, Stats, Crawling, root_item, root_rounds, crawl_root,
}
use filesentry.Tree.Crawl.Leaving.{Framed-Grows}
use filesentry.Tree.Crawl.Entering.{IsSound}

module _ (H : Hashing) (m : Memrchr) (W : Walker) (stats : Stats) (filter : Filter)
    (recursive : Bool) where
  -- An entry has been looked at.
  abbrev pub looked : Crawling H → FileTree H → Crawling H
  looked st tree = record st { tree = tree; clock = st.clock + 1 }

  abbrev watched : Crawling H → FileTree H → FsNode → Crawling H
  watched st tree node =
      if is_dir node.meta && recursive
      then record (looked st tree) { watches = st.watches ++ node.path ∷ [] }
      else looked st tree

  skips_le :
      (b : Bool) (it : W.Iter)
      → W.remaining (if b then W.skip_current_dir it else it) ≤ W.remaining it
  skips_le true it = W.remaining-skip it
  skips_le false it = omega arith

  module _ (st : Crawling H) (path : List ℕ) (depth : ℕ) (directory : Bool) (it : W.Iter)
      (tree : FileTree H) where
    abbrev one_step : Option (Crawling H × W.Iter)
    one_step = root_item H m W stats filter recursive st (entry path depth directory) it

    abbrev child : CanonicalPathBuf
    child = assert_canonicalized path

    root_step :
        (then_do : Option (Crawling H × W.Iter))
        → ((depth == 0) ≡ false → filter path (some directory) ≡ false → one_step ≡ then_do)
        → (one_step ≡ then_do)
          ⊎ ((it' : W.Iter) × (one_step ≡ some (st, it')) × (W.remaining it' ≤ W.remaining it))
    unfolding root_item
    root_step then_do h = elim (Bool-cases (depth == 0)) [
      | inl root ↦ inr (it, ground arith, omega arith)
      | inr below ↦ elim (Bool-cases (filter path (some directory))) [
        | inl ignored ↦
            inr (
              (if directory then W.skip_current_dir it else it),
              ground arith,
              skips_le directory it,
            )
        | inr kept ↦ inl (h below kept)
      ]
    ]

    root_known :
        add H m st.tree child recursive false (for_path (stats st.clock child)) ≡ some (tree, none)
        → (depth == 0) ≡ false
        → filter path (some directory) ≡ false
        → one_step ≡ some (looked st tree, W.skip_current_dir it)
    unfolding root_item
    root_known added below kept = ground arith

    root_new :
        (id : ℕ) (node : FsNode)
        → add H m st.tree child recursive false (for_path (stats st.clock child))
          ≡ some (tree, some id)
        → at_id tree.nodes id ≡ some node
        → (depth == 0) ≡ false
        → filter path (some directory) ≡ false
        → one_step ≡ some (watched st tree node, it)
    unfolding root_item
    root_new id node added at below kept = ground arith

  -- Sound, and not much larger.
  abbrev Stands : ℕ → ℕ → Crawling H → Crawling H → Type 0
  Stands n d st st' = IsSound H st' × Grows H n d st.tree st'.tree

  watched-Stands :
      {n d : ℕ} (st : Crawling H) (tree : FileTree H) (node : FsNode)
      → Stands n d st (looked st tree)
      → Stands n d st (watched st tree node)
  watched-Stands st tree node (s, g) = elim (Bool-cases (is_dir node.meta && recursive)) [
    | inl adds ↦ rw adds (record { valid = s.valid; framed = s.framed }, g)
    | inr plain ↦ rw plain (s, g)
  ]

  looked_at-Stands :
      (st : Crawling H) (s : IsSound H st) (path : List ℕ) (depth : ℕ) (directory : Bool)
      (it : W.Iter)
      → SearchApart H m st.tree
          (assert_canonicalized path)
          (for_path (stats st.clock (assert_canonicalized path)))
      → length st.tree.nodes < none_id
      → length st.tree.dirs + 1 < none_id
      → (st' : Crawling H) × (it' : W.Iter) × (root_item H m W stats filter recursive st
            (entry path depth directory)
            it
          ≡ some (st', it'))
        × Stands 1 2 st st'
        × (W.remaining it' ≤ W.remaining it)
  looked_at-Stands st s path depth directory it apart room space =
      let child = assert_canonicalized path in
      let fs_meta = for_path (stats st.clock child) in
      let (tree, added, e, v, has_node) =
        add_total H m st.tree s.valid child recursive false fs_meta apart room space in
      let g =
        add-Grows H m child recursive false st.tree tree fs_meta added e (omega (arith, space)) in
      let s1 : IsSound H (looked st tree) = record {
        valid = v;
        framed = Framed-Grows H st.tree tree st.work_stack g s.framed;
      } in
      let stays : Stands 1 2 st st =
        (s, Grows-weaken H (Grows-refl H st.tree) (omega arith) (omega arith)) in
      elim (Option-cases added) [
        | inl known ↦
            elim (root_step st path depth directory it tree
              (some (looked st tree, W.skip_current_dir it))
              (root_known st path depth directory it tree (e ∙ ap (λ o. some (tree, o)) known))) [
                | inl moves ↦
                    (looked st tree, W.skip_current_dir it, moves, (s1, g), W.remaining-skip it)
                | inr (it', still, less) ↦ (st, it', still, stays, less)
              ]
        | inr (id, new) ↦
            let (node, at) = get_elem?_of_lt tree.nodes id (has_node id new) in
            elim (root_step st path depth directory it tree (some (watched st tree node, it)) (
              root_new st path depth directory it tree id node (e ∙ ap (λ o. some (tree, o)) new)
                (at_id_of_lt tree.nodes id v.few_nodes ∙ at))) [
                  | inl moves ↦ (
                    watched st tree node,
                    it,
                    moves,
                    watched-Stands st tree node (s1, g),
                    omega arith,
                  )
                  | inr (it', still, less) ↦ (st, it', still, stays, less)
                ]
      ]

  -- If an entry is not ignored, the search for its parent does not meet the id that was just inserted.
  abbrev pub LookApart : Crawling H → WalkItem → Type 0
  LookApart st failed = Unit
  LookApart st (entry path depth directory) =
      (depth == 0) ≡ false
      → filter path (some directory) ≡ false
      → SearchApart H m st.tree (assert_canonicalized path)
          (for_path (stats st.clock (assert_canonicalized path)))

  -- That is so of each entry that the walk yields, in the tree that the crawl then has.
  abbrev pub RootRoundsApart : ℕ → Crawling H → W.Iter → Type 0
  RootRoundsApart zero st it = Unit
  RootRoundsApart (suc n) st it =
      (item : WalkItem) (it' : W.Iter)
      → W.next it ≡ some (item, it')
      → LookApart st item
        × ((st1 : Crawling H) (it1 : W.Iter)
            → root_item H m W stats filter recursive st item it' ≡ some (st1, it1)
            → RootRoundsApart n st1 it1)

  root_item-Stands :
      (st : Crawling H) (s : IsSound H st) (item : WalkItem) (it : W.Iter)
      → LookApart st item
      → length st.tree.nodes < none_id
      → length st.tree.dirs + 1 < none_id
      → (st' : Crawling H) × (it' : W.Iter) × (root_item H m W stats filter recursive st item it
          ≡ some (st', it'))
        × Stands 1 2 st st'
        × (W.remaining it' ≤ W.remaining it)
  root_item-Stands st s failed it apart room space = (
    st,
    it,
    unfold root_item in refl,
    (s, Grows-weaken H (Grows-refl H st.tree) (omega arith) (omega arith)),
    omega arith,
  )
  root_item-Stands st s (entry path depth directory) it apart room space =
      let stays : Stands 1 2 st st =
        (s, Grows-weaken H (Grows-refl H st.tree) (omega arith) (omega arith)) in
      elim (Bool-cases (depth == 0)) [
        | inl root ↦
            elim (root_step st path depth directory it st.tree (some (st, it))
              (λ below kept. ground arith)) [
                | inl still ↦ (st, it, still, stays, omega arith)
                | inr (it', still, less) ↦ (st, it', still, stays, less)
              ]
        | inr below ↦ elim (Bool-cases (filter path (some directory))) [
          | inl ignored ↦
              elim (root_step st path depth directory it st.tree (some (st, it))
                (λ deep kept. ground arith)) [
                  | inl still ↦ (st, it, still, stays, omega arith)
                  | inr (it', still, less) ↦ (st, it', still, stays, less)
                ]
          | inr kept ↦ looked_at-Stands st s path depth directory it (apart below kept) room space
        ]
      ]

  root_end :
      (n : ℕ) (st : Crawling H) (it : W.Iter)
      → W.next it ≡ none
      → root_rounds H m W stats filter n recursive st it ≡ some st
  unfolding root_rounds
  root_end zero st it e = ground arith
  root_end (suc n) st it e = ground arith

  root_next :
      (n : ℕ) (st st' : Crawling H) (item : WalkItem) (it it' it'' : W.Iter)
      → W.next it ≡ some (item, it')
      → root_item H m W stats filter recursive st item it' ≡ some (st', it'')
      → root_rounds H m W stats filter (suc n) recursive st it
        ≡ root_rounds H m W stats filter n recursive st' it''
  unfolding root_rounds
  root_next n st st' item it it' it'' e one = ground arith

  root_rounds-Stands :
      (n : ℕ) (st : Crawling H) (s : IsSound H st) (it : W.Iter)
      → W.remaining it ≤ n
      → RootRoundsApart n st it
      → length st.tree.nodes + n ≤ none_id
      → length st.tree.dirs + 2 * n ≤ none_id
      → (st' : Crawling H) × (root_rounds H m W stats filter n recursive st it ≡ some st')
        × Stands n (2 * n) st st'
  root_rounds-Stands zero st s it enough apart room space = elim (Option-cases (W.next it)) [
    | inl e ↦ (st, root_end 0 st it e, (s, Grows-refl H st.tree))
    | inr ((item, it'), e) ↦ absurd (omega (arith, enough, W.remaining-next it it' item e))
  ]
  root_rounds-Stands (suc n) st s it enough apart room space = elim (Option-cases (W.next it)) [
    | inl e ↦ (
      st,
      root_end (suc n) st it e,
      (s, Grows-weaken H (Grows-refl H st.tree) (omega arith) (omega arith)),
    )
    | inr ((item, it'), e) ↦
        let fewer = W.remaining-next it it' item e in
        let away = apart item it' e in
        let (st1, it1, one, (s1, g1), less) =
          root_item-Stands st s item it' away.0 (omega (arith, room)) (omega (arith, space)) in
        let (st2, more, (s2, g2)) =
          root_rounds-Stands n st1 s1 it1 (omega (arith, enough, fewer, less)) (away.1 st1 it1 one)
            (omega (arith, room, g1.few_more_nodes)) (omega (arith, space, g1.few_more_dirs)) in
        (
          st2,
          root_next n st st1 item it it' it1 e one ∙ more,
          (s2, Grows-weaken H (Grows-trans H g1 g2) (omega arith) (omega arith)),
        )
  ]

  -- In the crawl of a root no search for a parent meets the id that was just inserted.
  abbrev pub CrawlRootApart : Crawling H → ℕ → Type 0
  CrawlRootApart st root =
      (node : FsNode)
      → get_elem? st.tree.nodes root ≡ some node
      → RootRoundsApart
          (W.remaining (W.start (as_bytes node.path.buf) (if recursive then none else some 1))) st
          (W.start (as_bytes node.path.buf) (if recursive then none else some 1))

  -- A root that is in the tree is crawled, with room for its walk: on a sound state that ends without a
  -- panic, in a sound state.
  pub crawl_root-IsSound :
      (st : Crawling H) (s : IsSound H st) (root most : ℕ)
      → root < length st.tree.nodes
      → CrawlRootApart st root
      → ((path : List ℕ) (depth : Option ℕ) → W.remaining (W.start path depth) ≤ most)
      → length st.tree.nodes + most ≤ none_id
      → length st.tree.dirs + 2 * most ≤ none_id
      → (st' : Crawling H) × (crawl_root H m W stats filter st root recursive ≡ some st')
        × IsSound H st'
        × Grows H most (2 * most) st.tree st'.tree
  crawl_root-IsSound st s root most small apart bounded room space =
      let (node, here) = get_elem?_of_lt st.tree.nodes root small in
      let it = W.start (as_bytes node.path.buf) (if recursive then none else some 1) in
      let few = bounded (as_bytes node.path.buf) (if recursive then none else some 1) in
      let (st', done, (s', g)) =
        root_rounds-Stands (W.remaining it) st s it (omega arith) (apart node here)
          (omega (arith, room, few)) (omega (arith, space, few)) in
      (
        st',
        unfold crawl_root in (rw (at_id_of_lt st.tree.nodes root s.valid.few_nodes ∙ here) done),
        s',
        Grows-weaken H g few (omega (arith, few)),
      )
