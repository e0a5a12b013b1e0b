-- ===== src/Tree/Change/Sizes.antt =====
-- `apply_change` adds at most one node and two directories.
use filesentry.Tree.Grow.{pushed}
use filesentry.Common.{
  ℕ, ◌≡◌, ◌≤◌, ◌<◌, ◌∙◌, ap, sym, true, false, none, some, Option, [], ◌&&◌, not, ◌==◌, ◌>>=◌,
  if◌then◌else◌, arith, inl, inr, Option-cases, subst, >>=-then, length, Bool,
}
use filesentry.Path.{Memrchr}
use filesentry.HashTable.{Hashing, find, hash_path}
use filesentry.Pending.{PendingChange}
use filesentry.Metadata.{Metadata}
use filesentry.Tree.{
  FileTree, FsNode, NodeMeta, Emitted, at_id, is_some_id, none_id, deleted, dir, file, set_node,
  reserve_dir, node_meta, node_eq, add_child, id_from, node_hash,
}
use filesentry.Tree.Delete.Sizes.{delete_rec-Grows}
use filesentry.Tree.Delete.Weight.{children_at_node, children_at}
use filesentry.Tree.Grow.Sizes.{
  Grows, Grows-refl, Grows-trans, Grows-weaken, set_node-Grows, reserve_dir-Grows, pushed-Grows,
  add_child-Grows, get_elem?_of_at_id,
}
use filesentry.Tree.Change.{
  Applied, refresh, gone, vanish, find_parent, discover, apply_found, apply_change, marked,
}
use filesentry.Tree.Change.Discovered.{inherits, fresh_node}
use filesentry.Tree.Change.Known.{marked-same}

module _ (H : Hashing) where
  pub Grows-of_same : {t t' : FileTree H} → t ≡ t' → Grows H 0 0 t t'
  Grows-of_same {t} e = subst (Grows H 0 0 t) e (Grows-refl H t)

  -- The path table does not count.
  pub retabled-Grows :
      (t : FileTree H) (table : H.Table) → Grows H 0 0 t (record t { path_table = table })
  retabled-Grows t table = record {
    more_nodes = omega arith;
    few_more_nodes = omega arith;
    more_dirs = omega arith;
    few_more_dirs = omega arith;
    still = λ j h. h;
  }

  Grows-of_result : (a r : Applied H) → some a ≡ some r → Grows H 0 0 a.tree r.tree
  Grows-of_result a r e =
      let same : a ≡ r = ground arith in Grows-of_same (ap (λ (x : Applied H). x.tree) same)

  -- A directory is reserved, or not.
  pub maybe_reserved-Grows :
      (b : Bool) (t t' : FileTree H) (id : ℕ)
      → (if b then (reserve_dir H t id >>= λ r. some (r.0)) else some t) ≡ some t'
      → Grows H 0 1 t t'
  maybe_reserved-Grows true t t' id h = >>=-then (reserve_dir H t id) _ h λ r made same.
      Grows-trans H (reserve_dir-Grows H t r.0 id r.1 made) (Grows-of_same (ground arith))
  maybe_reserved-Grows false t t' id h =
      Grows-weaken H (Grows-of_same (ground arith)) (omega arith) (omega arith)

  refresh-Grows :
      (t : FileTree H) (change : PendingChange) (id : ℕ) (node : FsNode) (fs_meta : Metadata)
      (r : Applied H)
      → refresh H t change id node fs_meta ≡ some r
      → node.children ≡ children_at t.nodes id
      → Grows H 0 1 t r.tree
  unfolding refresh
  refresh-Grows t change id node fs_meta r h kids =
      >>=-then (set_node H t id (record node { meta = node_meta fs_meta; inode = fs_meta.inode })) _
        h
        λ u wrote rest.
          >>=-then
            (if fs_meta.is_dir
                && (not (is_some_id node.children)
                    && (not (fs_meta.size == 0) && node.flags.watch_children))
              then (reserve_dir H u id >>= λ r. some (r.0))
              else some u)
            _ rest
            λ w made last.
              Grows-trans H
                (set_node-Grows H t u id
                  (record node { meta = node_meta fs_meta; inode = fs_meta.inode }) wrote kids)
                (Grows-trans H (maybe_reserved-Grows _ u w id made) (Grows-of_result _ r last))

  gone-Grows :
      (t t' : FileTree H) (change : PendingChange) (id : ℕ) (meta : NodeMeta) (emitted : Emitted)
      → gone H t change id meta ≡ some (t', emitted)
      → Grows H 0 0 t t'
  unfolding gone
  gone-Grows t t' change id dir emitted h = delete_rec-Grows H t t' id [] emitted h
  gone-Grows t t' change id (file mtime size) emitted h = Grows-of_same (ground arith)
  gone-Grows t t' change id deleted emitted h = Grows-of_same (ground arith)

  vanish-Grows :
      (t : FileTree H) (change : PendingChange) (id : ℕ) (node : FsNode) (r : Applied H)
      → vanish H t change id node ≡ some r
      → node.children ≡ children_at t.nodes id
      → Grows H 0 0 t r.tree
  unfolding vanish
  vanish-Grows t change id node r h kids =
      >>=-then (set_node H t id (record node { meta = deleted })) _ h λ u wrote rest.
        >>=-then (gone H u change id node.meta) _ rest λ w went last.
          Grows-trans H (set_node-Grows H t u id (record node { meta = deleted }) wrote kids) (
            Grows-trans H (gone-Grows u w.0 change id node.meta w.1 went)
              (Grows-of_result _ r last))

module _ (H : Hashing) (m : Memrchr) where
  discover-Grows :
      (t : FileTree H) (change : PendingChange) (fs_meta : Metadata) (r : Applied H)
      → discover H m t change fs_meta ≡ some r
      → length t.dirs < none_id
      → Grows H 1 2 t r.tree
  unfolding discover
  discover-Grows t change fs_meta r h few = >>=-then (id_from (length t.nodes)) _ h λ id small rest.
      let t1 : FileTree H = record t {
        path_table = H.insert t.path_table (hash_path H change.path) id (node_hash H t.nodes);
      } in
      >>=-then (find_parent H m t1.path_table t.nodes change.path) _ rest λ up searched rest'.
        elim (Option-cases up) [
          | inl no_parent ↦
              Grows-weaken H
                (Grows-trans H (retabled-Grows H t _)
                  (Grows-of_result H _ r (rw no_parent at rest')))
                (omega arith) (omega arith)
          | inr (parent_id, found) ↦
              >>=-then (add_child H t1 parent_id id) _ (rw found at rest') λ linked added rest1.
                >>=-then (at_id linked.nodes parent_id) _ rest1 λ parent_node at rest2.
                  let n = fresh_node change fs_meta parent_node in
                  let g = add_child-Grows H t1 linked parent_id id added in
                  let room : length linked.dirs ≤ none_id = omega (arith, g.few_more_dirs, few) in
                  let grown = pushed H linked n in
                  >>=-then
                    (if fs_meta.is_dir && (inherits change parent_node && not (fs_meta.size == 0))
                      then (reserve_dir H grown id >>= λ r. some (r.0))
                      else some grown)
                    _ rest2
                    λ w made last.
                      Grows-trans H (Grows-trans H (retabled-Grows H t t1.path_table) g) (
                        Grows-trans H (pushed-Grows H linked n room) (
                          Grows-trans H (maybe_reserved-Grows H _ grown w id made)
                            (Grows-of_result H _ r last)))
        ]

  apply_found-Grows :
      (t : FileTree H) (change : PendingChange) (fs_meta : Option Metadata) (entry : Option ℕ)
      (r : Applied H)
      → apply_found H m t change fs_meta entry ≡ some r
      → length t.dirs < none_id
      → Grows H 1 2 t r.tree
  unfolding apply_found
  apply_found-Grows t change (some fs_meta) none r h few = discover-Grows t change fs_meta r h few
  apply_found-Grows t change none none r h few =
      Grows-weaken H (Grows-of_result H _ r h) (omega arith) (omega arith)
  apply_found-Grows t change none (some id) r h few =
      >>=-then (at_id t.nodes id) _ h λ node at rest.
        Grows-weaken H
          (vanish-Grows H t change id (marked H change node) r rest (
            (marked-same H change node).1
            ∙ sym (children_at_node t.nodes id (get_elem?_of_at_id t.nodes id at))))
          (omega arith) (omega arith)
  apply_found-Grows t change (some fs_meta) (some id) r h few =
      >>=-then (at_id t.nodes id) _ h λ node at rest.
        Grows-weaken H
          (refresh-Grows H t change id (marked H change node) fs_meta r rest (
            (marked-same H change node).1
            ∙ sym (children_at_node t.nodes id (get_elem?_of_at_id t.nodes id at))))
          (omega arith) (omega arith)

  -- Whenever `apply_change` returns, the tree has at most one node and two directories more, and a node
  -- that had a directory still has one.
  pub apply_change-Grows :
      (t : FileTree H) (change : PendingChange) (fs_meta : Option Metadata) (r : Applied H)
      → apply_change H m t change fs_meta ≡ some r
      → length t.dirs < none_id
      → Grows H 1 2 t r.tree
  unfolding apply_change
  apply_change-Grows t change fs_meta r h few =
      >>=-then (find H t.path_table (hash_path H change.path) (node_eq t.nodes change.path)) _ h
        λ entry searched rest. apply_found-Grows t change fs_meta entry r rest few
