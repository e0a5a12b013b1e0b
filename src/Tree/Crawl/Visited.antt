-- ===== src/Tree/Crawl/Visited.antt =====
-- A visit of an entry that is not ignored ends without a panic and keeps the tree valid.
use filesentry.Common.{
  ℕ, ◌≡◌, ◌<◌, ◌∙◌, ◌+◌, refl, Bool, true, false, some, Option, List, [], ◌∷◌, ◌++◌, ◌&&◌,
  if◌then◌else◌, arith, get_elem?_of_lt, inl, inr, Bool-cases, length,
}
use filesentry.Path.{Memrchr, CanonicalPathBuf}
use filesentry.HashTable.{Hashing}
use filesentry.Config.{Filter}
use filesentry.Metadata.{for_path}
use filesentry.Pending.{PendingChange}
use filesentry.Tree.{FileTree, FsNode, Emitted, at_id, is_some_id, none_id, is_dir}
use filesentry.Tree.Valid.{at_id_of_lt}
use filesentry.Tree.Grow.Sizes.{Grows, Grows-trans}
use filesentry.Tree.Change.{Applied, apply_change}
use filesentry.Tree.Change.Total.{apply_change_total}
use filesentry.Tree.Change.Sizes.{apply_change-Grows}
use filesentry.Tree.Change.Parents.{SearchApart, Searched_of_apart}
use filesentry.Tree.Crawl.{
  Walker, Stats, Crawling, crawl_flags, unset_maybe_deleted, leave, enter, visit,
}
use filesentry.Tree.Crawl.Leaving.{leave-IsValid, Framed-Grows}
use filesentry.Tree.Crawl.Entering.{seen, IsSound, unset_maybe_deleted-IsValid, enter-IsSound}

module _ (H : Hashing) (m : Memrchr) (W : Walker) (stats : Stats) (filter : Filter)
    (recursive : Bool) where
  abbrev visited : Crawling H → CanonicalPathBuf → PendingChange
  visited st path = record { path = path; flags = crawl_flags H recursive }

  module _ (st : Crawling H) (path : CanonicalPathBuf) (depth : ℕ) (r : Applied H)
      (applied : apply_change H m st.tree (visited st path) (for_path (stats st.clock path))
        ≡ some r) where
    visit_ignored :
        is_some_id r.node ≡ false
        → visit H m W stats filter recursive st path depth ≡ some (seen H st r)
    unfolding visit
    visit_ignored no_node = ground arith

    visit_step :
        (t1 t2 : FileTree H) (e2 : Emitted) (stack : List (ℕ × ℕ)) (node : FsNode)
        → is_some_id r.node ≡ true
        → unset_maybe_deleted H r.tree r.node ≡ some t1
        → leave H t1 (st.emitted ++ r.emitted) st.work_stack depth ≡ some (t2, e2, stack)
        → at_id t2.nodes r.node ≡ some node
        → visit H m W stats filter recursive st path depth ≡ (
            let left : Crawling H = record (seen H st r) {
              tree = t2;
              emitted = e2;
              work_stack = stack;
            } in
            if is_dir node.meta && recursive
            then enter H (record left { watches = left.watches ++ path ∷ [] }) r.node depth
            else some left)
    unfolding visit
    visit_step t1 t2 e2 stack node has_node unset left at = ground arith

  -- It returns a sound state, with a tree that has at most so many nodes and directories more.
  abbrev pub Sound : ℕ → ℕ → Crawling H → Option (Crawling H) → Type 0
  Sound n d st result =
      (st' : Crawling H) × (result ≡ some st') × IsSound H st' × Grows H n d st.tree st'.tree

  pub visit-IsSound :
      (st : Crawling H) (s : IsSound H st) (path : CanonicalPathBuf) (depth : ℕ)
      → SearchApart H m st.tree path (for_path (stats st.clock path))
      → length st.tree.nodes < none_id
      → length st.tree.dirs + 1 < none_id
      → Sound 1 2 st (visit H m W stats filter recursive st path depth)
  visit-IsSound st s path depth apart room space =
      let change = visited st path in
      let searched =
        Searched_of_apart H m st.tree s.valid change (for_path (stats st.clock path)) apart in
      let (r, applied, v, has_node) =
        apply_change_total H m st.tree s.valid change (for_path (stats st.clock path)) room space
          searched in
      let g =
        apply_change-Grows H m st.tree change (for_path (stats st.clock path)) r applied
          (omega (arith, space)) in
      let framed = Framed-Grows H st.tree r.tree st.work_stack g s.framed in
      elim (Bool-cases (is_some_id r.node)) [
        | inr no_node ↦ (
          seen H st r,
          visit_ignored st path depth r applied no_node,
          record { valid = v; framed = framed },
          g,
        )
        | inl is_node ↦
            let (node, at) = get_elem?_of_lt r.tree.nodes r.node (has_node is_node) in
            let (t1, unset, v1, g1) = unset_maybe_deleted-IsValid H r.tree v r.node node at in
            let (t2, e2, stack, left, v2, g2, framed2) =
              leave-IsValid H t1 v1 (st.emitted ++ r.emitted) st.work_stack depth
                (Framed-Grows H r.tree t1 st.work_stack g1 framed) in
            let small : r.node < length t2.nodes =
              omega (arith, has_node is_node, g1.more_nodes, g2.more_nodes) in
            let (node2, at2) = get_elem?_of_lt t2.nodes r.node small in
            let step =
              visit_step st path depth r applied t1 t2 e2 stack node2 is_node unset left
                (at_id_of_lt t2.nodes r.node v2.few_nodes ∙ at2) in
            let so_far = Grows-trans H g (Grows-trans H g1 g2) in
            let here = record (seen H st r) { tree = t2; emitted = e2; work_stack = stack } in
            elim (Bool-cases (is_dir node2.meta && recursive)) [
              | inr no_dir ↦
                  (here, step ∙ rw no_dir refl, record { valid = v2; framed = framed2 }, so_far)
              | inl enters ↦
                  let (st', entered, s', g3) =
                    enter-IsSound H (record here { watches = here.watches ++ path ∷ [] })
                      (record { valid = v2; framed = framed2 }) r.node depth small in
                  (st', step ∙ rw enters entered, s', Grows-trans H so_far g3)
            ]
      ]
