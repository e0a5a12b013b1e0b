-- ===== src/Tree/Change/Total.antt =====
-- `apply_change` of any change, whatever the file system has.
use filesentry.Tree.Change.Sizes.{apply_change-Grows}
use filesentry.Common.{
  ℕ, ◌≡◌, ◌<◌, ◌+◌, ◌∙◌, refl, ap, Option, none, some, [], ◌∷◌, arith, length, get_elem?, set, map,
  inl, inr, Option-cases, get_elem?_of_lt, get_elem?-set_self, get_elem?_lt, true, ◌>>=◌,
}
use mathlib.Core.Path.{fun_ext}
use filesentry.Path.{Memrchr}
use filesentry.HashTable.{Hashing, hash_path}
use filesentry.HashTable.Index.{index_of}
use filesentry.HashTable.Keyed.{remove_item, item_hash, occupied}
use filesentry.Pending.{PendingChange}
use filesentry.Metadata.{Metadata}
use filesentry.Events.{delete}
use filesentry.Tree.{
  FileTree, FsNode, NodeMeta, Emitted, node_path, node_hash, dir, file, deleted, none_id, set_node,
  id_from, is_some_id,
}
use filesentry.Tree.Valid.{IsValid, node_find, at_id_of_lt, set_node-IsValid}
use filesentry.Tree.Grow.{entered}
use filesentry.Tree.Delete.Ends.{delete_rec-IsValid}
use filesentry.Tree.Change.{
  Applied, apply_change, vanish, marked, apply_found, gone, discover, find_parent,
}
use filesentry.Tree.Change.Known.{marked-same, apply_change_known}
use filesentry.Tree.Change.Discovered.{apply_change_discovered}

module _ (H : Hashing) (m : Memrchr) (t : FileTree H) (v : IsValid H t)
    (change : PendingChange) where
  -- The table entry of a path whose parent is not there is taken out again.
  unfoldable pub rejected : FileTree H
  rejected = record t {
    path_table =
        H.remove (entered H t change.path).path_table (hash_path H change.path) (length t.nodes);
  }

  pub rejected-IsValid : IsValid H rejected
  unfolding rejected
  rejected-IsValid =
      let same : node_hash H t.nodes ≡ item_hash H node_path t.nodes = fun_ext λ i.
        ap (λ o. o >>= λ node. some (hash_path H (node_path node)))
          (at_id_of_lt t.nodes i v.few_nodes) in
      record {
        indexed = rw same (remove_item node_path H t.path_table t.nodes v.indexed change.path);
        few_nodes = v.few_nodes;
        few_dirs = v.few_dirs;
        has_dir = v.has_dir;
        has_node = v.has_node;
      }

  discover_rejected :
      (fs_meta : Metadata)
      → length t.nodes < none_id
      → find_parent H m (entered H t change.path).path_table t.nodes change.path ≡ some none
      → (r : Applied H) × (discover H m t change fs_meta ≡ some r)
        × IsValid H r.tree
        × (r.node ≡ none_id)
  unfolding discover id_from rejected
  discover_rejected fs_meta room searched = (
    record { tree = rejected; emitted = []; node = none_id; recurse = true },
    ground arith,
    rejected-IsValid,
    refl,
  )

  gone-IsValid :
      (t1 : FileTree H) (v1 : IsValid H t1) (id : ℕ) (node : FsNode) (meta : NodeMeta)
      → get_elem? t1.nodes id ≡ some node
      → (t' : FileTree H) × (emitted : Emitted) × (gone H t1 change id meta ≡ some (t', emitted))
        × IsValid H t'
  unfolding gone
  gone-IsValid t1 v1 id node dir at = delete_rec-IsValid H t1 v1 id node [] at
  gone-IsValid t1 v1 id node (file mtime size) at = (t1, (change.path, delete) ∷ [], refl, v1)
  gone-IsValid t1 v1 id node deleted at = (t1, [], refl, v1)

  vanishes :
      (t1 t' : FileTree H) (id : ℕ) (node : FsNode) (emitted : Emitted)
      → set_node H t id (record node { meta = deleted }) ≡ some t1
      → gone H t1 change id node.meta ≡ some (t', emitted)
      → vanish H t change id node
        ≡ some (record { tree = t'; emitted = emitted; node = id; recurse = true })
  unfolding vanish
  vanishes t1 t' id node emitted wrote ended = rw wrote (rw ended refl)

  vanish-IsValid :
      (id : ℕ) (old : FsNode)
      → get_elem? t.nodes id ≡ some old
      → (r : Applied H) × (vanish H t change id (marked H change old) ≡ some r)
        × IsValid H r.tree
        × (r.node ≡ id)
  vanish-IsValid id old at =
      let node = marked H change old in
      let (path, children, _, _) = marked-same H change old in
      let (wrote, v1) =
        set_node-IsValid H t v id old (record node { meta = deleted }) at path
          (λ s. rw children (v.has_dir id old at (rw children at s))) in
      let t1 = record t { nodes = set t.nodes id (record node { meta = deleted }) } in
      let here =
        get_elem?-set_self t.nodes id (record node { meta = deleted })
          (get_elem?_lt t.nodes id at) in
      let (t', emitted, ended, v') =
        gone-IsValid t1 v1 id (record node { meta = deleted }) node.meta here in
      (
        record { tree = t'; emitted = emitted; node = id; recurse = true },
        vanishes t1 t' id node emitted wrote ended,
        v',
        refl,
      )

  -- The search for the parent of a new path does not panic, and comes to a node or to none.
  abbrev pub Searched : Type 0
  Searched =
      (up : Option ℕ) × (find_parent H m (entered H t change.path).path_table t.nodes change.path
        ≡ some up)
      × ((p : ℕ) → up ≡ some p → p < length t.nodes)

  -- The id that is returned, if there is one, is that of a node.
  abbrev pub HasNode : Applied H → Type 0
  HasNode r = is_some_id r.node ≡ true → r.node < length r.tree.nodes

  discover-IsValid :
      (fs_meta : Metadata)
      → index_of change.path (map node_path t.nodes) ≡ none
      → length t.nodes < none_id
      → length t.dirs + 1 < none_id
      → Searched
      → (r : Applied H) × (apply_change H m t change (some fs_meta) ≡ some r)
        × IsValid H r.tree
        × HasNode r
  unfolding apply_change apply_found
  discover-IsValid fs_meta fresh room space (none, searched, _) =
      let (r, e, w, no_node) = discover_rejected fs_meta room searched in
      (r, rw (node_find H t v change.path) (rw fresh e), w, λ s. ground arith)
  discover-IsValid fs_meta fresh room space (some p, searched, in_range) =
      let (parent, at) = get_elem?_of_lt t.nodes p (in_range p refl) in
      let (r, e, w, id, _, _, ((_, here, _, _, _, _), _)) =
        apply_change_discovered H m t v change fs_meta p parent fresh at searched room space in
      (r, e, w, λ s. rw id (get_elem?_lt r.tree.nodes (length t.nodes) here))

  pub apply_change_total :
      (fs_meta : Option Metadata)
      → length t.nodes < none_id
      → length t.dirs + 1 < none_id
      → ((found : Metadata)
          → fs_meta ≡ some found
          → index_of change.path (map node_path t.nodes) ≡ none
          → Searched)
      → (r : Applied H) × (apply_change H m t change fs_meta ≡ some r)
        × IsValid H r.tree
        × HasNode r
  unfolding apply_change apply_found
  apply_change_total (some fs_meta) room space searched =
      elim (Option-cases (index_of change.path (map node_path t.nodes))) [
        | inl fresh ↦ discover-IsValid fs_meta fresh room space (searched fs_meta refl fresh)
        | inr (id, there) ↦
            let (_, r, _, _, e, w, same, _, (_, here, _, _, _, _)) =
              apply_change_known H m t v change id fs_meta there (omega (arith, space)) in
            (r, e, w, λ s. rw same (get_elem?_lt r.tree.nodes id here))
      ]
  apply_change_total none room space searched =
      elim (Option-cases (index_of change.path (map node_path t.nodes))) [
        | inl unknown ↦ (
          record { tree = t; emitted = []; node = none_id; recurse = true },
          rw (node_find H t v change.path) (rw unknown refl),
          v,
          λ s. ground arith,
        )
        | inr (id, there) ↦
            let (old, at, _, _) = occupied node_path t.nodes change.path id there in
            let found = at_id_of_lt t.nodes id v.few_nodes ∙ at in
            let (r, e, w, same) = vanish-IsValid id old at in
            let done : apply_change H m t change none ≡ some r =
              rw (node_find H t v change.path) (rw there (rw found e)) in
            let g = apply_change-Grows H m t change none r done (omega (arith, space)) in
            (r, done, w, λ s. omega (arith, same, get_elem?_lt t.nodes id at, g.more_nodes))
      ]

  -- On a valid tree with room for a node and two directories `apply_change` does not panic and keeps the
  -- tree valid, whatever the change, whether or not the tree knows its path, and whatever the file system
  -- has there: provided the search for the parent of a new path does not panic and comes to a node, or to
  -- none.
  pub apply_change-IsValid :
      (fs_meta : Option Metadata)
      → length t.nodes < none_id
      → length t.dirs + 1 < none_id
      → ((found : Metadata)
          → fs_meta ≡ some found
          → index_of change.path (map node_path t.nodes) ≡ none
          → Searched)
      → (r : Applied H) × (apply_change H m t change fs_meta ≡ some r) × IsValid H r.tree
  apply_change-IsValid fs_meta room space searched =
      let (r, e, w, _) = apply_change_total fs_meta room space searched in (r, e, w)
