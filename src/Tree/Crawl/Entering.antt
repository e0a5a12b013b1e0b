-- ===== src/Tree/Crawl/Entering.antt =====
-- When a crawl enters a directory: its children are tagged, and the tree stays valid.
use filesentry.Tree.Crawl.Leaving.{Framed-Grows}
use filesentry.Common.{
  ℕ, ◌≡◌, ◌<◌, ◌∙◌, refl, sym, true, false, some, List, [], ◌∷◌, ◌++◌, arith, get_elem?,
  get_elem?_of_lt, inl, inr, Bool-cases, length, In, set, ◌+◌,
}
use filesentry.HashTable.{Hashing}
use filesentry.Tree.{FileTree, FsNode, at_id, is_some_id, set_node}
use filesentry.Tree.Valid.{IsValid, at_id_of_lt, set_node-IsValid}
use filesentry.Tree.Grow.Sizes.{Grows, Grows-refl, Grows-trans, set_node-Grows}
use filesentry.Tree.Delete.Frames.{Framed}
use filesentry.Tree.Delete.Weight.{children_at_node}
use filesentry.Tree.Change.{Applied}
use filesentry.Tree.Crawl.{Crawling, mark_ids, enter, unset_maybe_deleted}

module _ (H : Hashing) where
  tagged : FsNode → FsNode
  tagged node = record node { flags = record node.flags { maybe_deleted = true } }

  -- The flags of a node are written.
  flagged-IsValid :
      (t : FileTree H) (v : IsValid H t) (id : ℕ) (node new : FsNode)
      → get_elem? t.nodes id ≡ some node
      → new.path ≡ node.path
      → new.children ≡ node.children
      → (set_node H t id new ≡ some (record t { nodes = set t.nodes id new }))
        × IsValid H (record t { nodes = set t.nodes id new })
        × Grows H 0 0 t (record t { nodes = set t.nodes id new })
  flagged-IsValid t v id node new at path kids =
      let (wrote, valid) =
        set_node-IsValid H t v id node new at path
          (λ s. rw kids (v.has_dir id node at (rw kids at s))) in
      (
        wrote,
        valid,
        set_node-Grows H t _ id new wrote (kids ∙ sym (children_at_node t.nodes id at)),
      )

  mark_step :
      (nodes : List FsNode) (id : ℕ) (ids : List ℕ) (node : FsNode)
      → at_id nodes id ≡ some node
      → mark_ids nodes (id ∷ ids) ≡ mark_ids (set nodes id (tagged node)) ids
  unfolding mark_ids tagged
  mark_step nodes id ids node at = rw at refl

  mark_ids-IsValid :
      (t : FileTree H) (v : IsValid H t) (ids : List ℕ)
      → ((i : ℕ) → In i ids → i < length t.nodes)
      → (nodes : List FsNode) × (mark_ids t.nodes ids ≡ some nodes)
        × IsValid H (record t { nodes = nodes })
        × Grows H 0 0 t (record t { nodes = nodes })
  unfolding mark_ids
  mark_ids-IsValid t v [] small = (t.nodes, refl, v, Grows-refl H t)
  mark_ids-IsValid t v (id ∷ ids) small =
      let (node, at) = get_elem?_of_lt t.nodes id (small id (inl refl)) in
      let (_, v1, g1) =
        flagged-IsValid t v id node (tagged node) at (unfold tagged in refl)
          (unfold tagged in refl) in
      let t1 = record t { nodes = set t.nodes id (tagged node) } in
      let (nodes, marked, v2, g2) =
        mark_ids-IsValid t1 v1 ids (λ i m. omega (arith, g1.more_nodes, small i (inr m))) in
      (
        nodes,
        mark_step t.nodes id ids node (at_id_of_lt t.nodes id v.few_nodes ∙ at) ∙ marked,
        v2,
        Grows-trans H g1 g2,
      )

  unset_step :
      (t : FileTree H) (id : ℕ) (node : FsNode)
      → at_id t.nodes id ≡ some node
      → unset_maybe_deleted H t id
        ≡ set_node H t id (record node { flags = record node.flags { maybe_deleted = false } })
  unfolding unset_maybe_deleted
  unset_step t id node at = rw at refl

  pub unset_maybe_deleted-IsValid :
      (t : FileTree H) (v : IsValid H t) (id : ℕ) (node : FsNode)
      → get_elem? t.nodes id ≡ some node
      → (t' : FileTree H) × (unset_maybe_deleted H t id ≡ some t') × IsValid H t' × Grows H 0 0 t t'
  unset_maybe_deleted-IsValid t v id node at =
      let new = record node { flags = record node.flags { maybe_deleted = false } } in
      let (wrote, v1, g) = flagged-IsValid t v id node new at refl refl in
      (
        record t { nodes = set t.nodes id new },
        unset_step t id node (at_id_of_lt t.nodes id v.few_nodes ∙ at) ∙ wrote,
        v1,
        g,
      )

  enter_leaf :
      (st : Crawling H) (id depth : ℕ) (node : FsNode)
      → at_id st.tree.nodes id ≡ some node
      → is_some_id node.children ≡ false
      → enter H st id depth ≡ some st
  unfolding enter
  enter_leaf st id depth node at leaf = ground arith

  enter_dir :
      (st : Crawling H) (id depth : ℕ) (node : FsNode) (ids : List ℕ) (nodes : List FsNode)
      → at_id st.tree.nodes id ≡ some node
      → is_some_id node.children ≡ true
      → at_id st.tree.dirs node.children ≡ some ids
      → mark_ids st.tree.nodes ids ≡ some nodes
      → enter H st id depth
        ≡ some (record st {
          tree = record (st.tree) { nodes = nodes };
          work_stack = (id, depth) ∷ st.work_stack;
        })
  unfolding enter
  enter_dir st id depth node ids nodes at kids listed marked = ground arith

  -- A change has been applied, after one `lstat`.
  abbrev pub seen : Crawling H → Applied H → Crawling H
  seen st r = record st { tree = r.tree; emitted = st.emitted ++ r.emitted; clock = st.clock + 1 }

  -- A crawl whose tree is valid and whose stack has directories.
  pub record IsSound (st : Crawling H) : Type 0 where
    pub valid : IsValid H st.tree
    pub framed : Framed H st.tree st.work_stack

  pub enter-IsSound :
      (st : Crawling H) (s : IsSound st) (id depth : ℕ)
      → id < length st.tree.nodes
      → (st' : Crawling H) × (enter H st id depth ≡ some st')
        × IsSound st'
        × Grows H 0 0 st.tree st'.tree
  enter-IsSound st s id depth small =
      let (node, here) = get_elem?_of_lt st.tree.nodes id small in
      let at = at_id_of_lt st.tree.nodes id s.valid.few_nodes ∙ here in
      elim (Bool-cases (is_some_id node.children)) [
        | inr leaf ↦ (st, enter_leaf st id depth node at leaf, s, Grows-refl H st.tree)
        | inl kids ↦
            let in_dirs = s.valid.has_dir id node here kids in
            let (ids, there) = get_elem?_of_lt st.tree.dirs node.children in_dirs in
            let listed = at_id_of_lt st.tree.dirs node.children s.valid.few_dirs ∙ there in
            let (nodes, marked, v, g) =
              mark_ids-IsValid st.tree s.valid ids
                (λ i m. s.valid.has_node node.children i ids there m) in
            (
              record st {
                tree = record (st.tree) { nodes = nodes };
                work_stack = (id, depth) ∷ st.work_stack;
              },
              enter_dir st id depth node ids nodes at kids listed marked,
              record {
                valid = v;
                framed = (
                  g.still id (omega (arith, in_dirs, children_at_node st.tree.nodes id here)),
                  Framed-Grows H st.tree _ st.work_stack g s.framed,
                );
              },
              g,
            )
      ]
