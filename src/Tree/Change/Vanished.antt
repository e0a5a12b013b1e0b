-- ===== src/Tree/Change/Vanished.antt =====
-- A change whose path the file system no longer has, and the search for a parent.
use filesentry.Common.{
  ℕ, ◌≡◌, ◌≢◌, ◌<◌, refl, ◌∙◌, true, none, some, [], ◌∷◌, arith, length, get_elem?, set, map,
  if◌then◌else◌, get_elem?-set_self, get_elem?_lt,
}
use filesentry.Path.{Memrchr}
use filesentry.HashTable.{Hashing}
use filesentry.HashTable.Index.{index_of}
use filesentry.Pending.{PendingChange}
use filesentry.Events.{delete}
use filesentry.Tree.{
  FileTree, FsNode, NodeMeta, node_path, at_id, dir, file, deleted, is_file, is_some_id, set_node,
}
use filesentry.Tree.Valid.{IsValid, node_find, at_id_of_lt, set_node-IsValid}
use filesentry.Tree.Change.{Applied, apply_change, vanish, marked, apply_found, gone}
use filesentry.Tree.Change.Known.{marked-same}

-- A known path, other than a directory's, that the file system no longer has: on a valid tree
-- `apply_change` does not panic, keeps the tree valid and marks the node as deleted. It emits one
-- deletion if the node was a file, and nothing if it was deleted before.
pub apply_change_vanished :
    (H : Hashing) (m : Memrchr) (t : FileTree H) (v : IsValid H t) (change : PendingChange) (id : ℕ)
    (old : FsNode)
    → index_of change.path (map node_path t.nodes) ≡ some id
    → get_elem? t.nodes id ≡ some old
    → old.meta ≢ dir
    → (r : Applied H) × (apply_change H m t change none ≡ some r)
      × IsValid H r.tree
      × (r.node ≡ id)
      × (r.emitted ≡ (if is_file old.meta then (change.path, delete) ∷ [] else []))
      × ((n : FsNode) × (get_elem? r.tree.nodes id ≡ some n)
          × (n.path ≡ old.path)
          × (n.meta ≡ deleted))
unfolding apply_change apply_found vanish gone is_file
apply_change_vanished H m t v change id old there at n = by_meta old.meta refl
  where
    node : FsNode
    node = marked H change old

    gone_node : FsNode
    gone_node = record node { meta = deleted }

    t₁ : FileTree H
    t₁ = record t { nodes = set t.nodes id gone_node }

    dir_ok : is_some_id gone_node.children ≡ true → gone_node.children < length t.dirs
    dir_ok s =
        rw ((marked-same H change old).1)
          (v.has_dir id old at (rw ((marked-same H change old).1) at s))

    written : (set_node H t id gone_node ≡ some t₁) × IsValid H t₁
    written = set_node-IsValid H t v id old gone_node at ((marked-same H change old).0) dir_ok

    found : at_id t.nodes id ≡ some old
    found = at_id_of_lt t.nodes id v.few_nodes ∙ at

    here : get_elem? t₁.nodes id ≡ some gone_node
    here = get_elem?-set_self t.nodes id gone_node (get_elem?_lt t.nodes id at)

    by_meta :
        (meta : NodeMeta)
        → old.meta ≡ meta
        → (r : Applied H) × (apply_change H m t change none ≡ some r)
          × IsValid H r.tree
          × (r.node ≡ id)
          × (r.emitted ≡ (if is_file meta then (change.path, delete) ∷ [] else []))
          × ((n : FsNode) × (get_elem? r.tree.nodes id ≡ some n)
              × (n.path ≡ old.path)
              × (n.meta ≡ deleted))
    by_meta dir e = absurd (n e)
    by_meta (file mtime size) e = (
      record { tree = t₁; emitted = (change.path, delete) ∷ []; node = id; recurse = true },
      rw (node_find H t v change.path)
          (rw there (rw found (ground (arith, written.0, (marked-same H change old).2, e)))),
      written.1,
      refl,
      refl,
      (gone_node, here, (marked-same H change old).0, refl),
    )
    by_meta deleted e = (
      record { tree = t₁; emitted = []; node = id; recurse = true },
      rw (node_find H t v change.path)
          (rw there (rw found (ground (arith, written.0, (marked-same H change old).2, e)))),
      written.1,
      refl,
      refl,
      (gone_node, here, (marked-same H change old).0, refl),
    )
