-- ===== src/Tree/Change/Known.antt =====
-- A change of a path that the tree knows.
use filesentry.HashTable.Keyed.{occupied}
use filesentry.HashTable.Index.{index_of}
use filesentry.Tree.Change.{
  Applied, refresh, event_of, needs_crawl, is_create, marked, apply_change, Memrchr, apply_found,
}
use filesentry.Tree.Valid.{IsValid, set_node-IsValid, reserve_dir-IsValid, at_id_of_lt, node_find}
use filesentry.Pending.{PendingChange}
use filesentry.Common.{
  inl, inr, ℕ, ◌≡◌, refl, Bool, true, Option, some, arith, get_elem?, not, length, ◌<◌, ◌==◌, ◌||◌,
  ◌&&◌, set, get_elem?-set_self, get_elem?_lt, Bool-cases, map, ◌∙◌, ap, sym, sym,
}
use filesentry.Metadata.{Metadata}
use filesentry.Events.{EventType}
use filesentry.Tree.{
  change_type, Hashing, FsNode, FileTree, node_meta, none_id, is_some_id, set_node, node_path,
}
use filesentry.Tree.Change.Seen.{shown, on_disk, Reports, change_type-Reports, shown-node_meta}

-- The event of a change, and whether it asks for a crawl.
abbrev pub seen_change : PendingChange → FsNode → Metadata → Option EventType
seen_change change old fs_meta =
    change_type old.meta (node_meta fs_meta)
      (not (fs_meta.inode == old.inode) || change.flags.origin_watcher)

module _ (H : Hashing) (t : FileTree H) (v : IsValid H t) (change : PendingChange) (id : ℕ)
    (old : FsNode) (at : get_elem? t.nodes id ≡ some old) (fs_meta : Metadata)
    (room : length t.dirs < none_id) where
  -- What the node is after the change, but for its directory.
  abbrev refreshed : FsNode → FsNode
  refreshed node = record node { meta = node_meta fs_meta; inode = fs_meta.inode }

  abbrev Refreshed : FsNode → Applied H → Type 0
  Refreshed node r =
      IsValid H r.tree
      × (r.node ≡ id)
      × (r.emitted ≡ event_of change.path (seen_change change node fs_meta))
      × ((n : FsNode) × (get_elem? r.tree.nodes id ≡ some n)
          × (n.path ≡ old.path)
          × (n.meta ≡ node_meta fs_meta)
          × (n.inode ≡ fs_meta.inode)
          × (n.flags ≡ node.flags))

  abbrev needs_dir : FsNode → Bool
  needs_dir node =
      fs_meta.is_dir
      && (not (is_some_id node.children) && (not (fs_meta.size == 0) && node.flags.watch_children))

  refresh_lem :
      (node : FsNode)
      → node.path ≡ old.path
      → node.children ≡ old.children
      → (r : Applied H) × (refresh H t change id node fs_meta ≡ some r) × Refreshed node r
  unfolding refresh
  refresh_lem node same kids = elim (Bool-cases (needs_dir node)) [
    | inl reserve ↦
        let (t', reserved, v'', nodes', _, _) = reserve_dir-IsValid H t₁ v' id node' here room in
        (
          result t',
          ground (arith, written, reserved),
          (
            v'',
            refl,
            refl,
            (
              record node' { children = length t.dirs },
              rw nodes' (get_elem?-set_self (set t.nodes id node') id _ in_range),
              same,
              refl,
              refl,
              refl,
            ),
          ),
        )
    | inr keep ↦ (
      result t₁,
      ground (arith, written),
      (v', refl, refl, (node', here, same, refl, refl, refl)),
    )
  ]
    where
      node' : FsNode
      node' = refreshed node

      t₁ : FileTree H
      t₁ = record t { nodes = set t.nodes id node' }

      here : get_elem? (set t.nodes id node') id ≡ some node'
      here = get_elem?-set_self t.nodes id node' (get_elem?_lt t.nodes id at)

      in_range : id < length (set t.nodes id node')
      in_range = get_elem?_lt (set t.nodes id node') id here

      dir_ok : is_some_id node'.children ≡ true → node'.children < length t.dirs
      dir_ok s = rw kids (v.has_dir id old at (rw kids at s))

      written : set_node H t id node' ≡ some t₁
      written = (set_node-IsValid H t v id old node' at same dir_ok).0

      v' : IsValid H t₁
      v' = (set_node-IsValid H t v id old node' at same dir_ok).1

      result : FileTree H → Applied H
      result tree = record {
        tree = tree;
        emitted = event_of change.path (seen_change change node fs_meta);
        node = id;
        recurse =
            ((needs_crawl H change || not (fs_meta.inode == node.inode))
              || is_create (seen_change change node fs_meta))
            && node.flags.watch_children;
      }

pub marked-same :
    (H : Hashing) (change : PendingChange) (node : FsNode)
    → ((marked H change node).path ≡ node.path)
      × ((marked H change node).children ≡ node.children)
      × ((marked H change node).meta ≡ node.meta)
      × ((marked H change node).inode ≡ node.inode)
marked-same H change node = ground arith

-- A change of a path that the tree knows and the file system still has: on a valid tree with room for
-- a directory, `apply_change` does not panic, keeps the tree valid and returns the known node. The
-- node then has the metadata and the inode of the file system and, if the change asks for it, is marked
-- recursive. What is emitted is the difference between what the node showed of a file and what the file
-- system has: creation, deletion or modification, or nothing if neither has a file, or if the time and
-- the size are the same, the inode too, and the change is not from the watcher.
pub apply_change_known :
    (H : Hashing) (m : Memrchr) (t : FileTree H) (v : IsValid H t) (change : PendingChange) (id : ℕ)
    (fs_meta : Metadata)
    → index_of change.path (map node_path t.nodes) ≡ some id
    → length t.dirs < none_id
    → (old : FsNode) × (r : Applied H) × (get_elem? t.nodes id ≡ some old)
      × (old.path ≡ change.path)
      × (apply_change H m t change (some fs_meta) ≡ some r)
      × IsValid H r.tree
      × (r.node ≡ id)
      × Reports change.path
          (shown old.meta)
          (on_disk fs_meta)
          (not (fs_meta.inode == old.inode) || change.flags.origin_watcher)
          r.emitted
      × ((n : FsNode) × (get_elem? r.tree.nodes id ≡ some n)
          × (n.path ≡ old.path)
          × (n.meta ≡ node_meta fs_meta)
          × (n.inode ≡ fs_meta.inode)
          × (n.flags ≡ (marked H change old).flags))
unfolding apply_change apply_found
apply_change_known H m t v change id fs_meta there room =
    let (old, at, same, _) = occupied node_path t.nodes change.path id there in
    let (p, c, k, i) = marked-same H change old in
    let (r, e, post) = refresh_lem H t v change id old at fs_meta room (marked H change old) p c in
    let found = at_id_of_lt t.nodes id v.few_nodes ∙ at in
    (
      old,
      r,
      at,
      same,
      rw (node_find H t v change.path) (rw there (rw found e)),
      post.0,
      post.1,
      rw (post.2 ∙ ap (event_of change.path) (same_event (marked H change old) old k i)) (
          rw (sym (shown-node_meta fs_meta)) (
            change_type-Reports change.path old.meta (node_meta fs_meta)
              (not (fs_meta.inode == old.inode) || change.flags.origin_watcher))),
      post.3,
    )
  where
    same_event :
        (a b : FsNode)
        → a.meta ≡ b.meta
        → a.inode ≡ b.inode
        → seen_change change a fs_meta ≡ seen_change change b fs_meta
    same_event a b p q = cc
