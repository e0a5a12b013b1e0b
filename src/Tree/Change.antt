-- ===== src/Tree/Change.antt =====
-- `FileTree::apply_change`: one pending change against one `lstat` of its path. What the code hands to
-- `emit_event` is the list `emitted`, in order.
pub mod Seen
pub mod Known
pub mod Discovered
pub mod Vanished
pub mod Unborn
pub mod Total
pub mod Sizes
pub mod Parents
mod Examples
use filesentry.Common.{
  ℕ, Bool, true, false, not, ◌&&◌, ◌||◌, Option, none, some, List, [], ◌∷◌, ◌++◌, length, get_elem?,
  ◌>>=◌, if◌then◌else◌, ◌==◌,
}
use filesentry.Path.{CanonicalPathBuf, Memrchr, parent, eq_os_str}
use filesentry.HashTable.{Hashing, find, hash_path}
use filesentry.Events.{EventType, create, delete}
use filesentry.Metadata.{Metadata}
use filesentry.Pending.{PendingChange}
use filesentry.Tree.{
  FileTree, FsNode, NodeMeta, Flags, Emitted, at_id, id_from, is_some_id, none_id, set_node,
  reserve_dir, add_child, node_meta, change_type, node_eq, node_hash, insert_recursive,
  contains_recursive, recursive_flags, no_flags, dir, file, deleted,
}
use filesentry.Tree.Delete.{delete_rec}

pub is_create : Option EventType → Bool
is_create (some create) = true
is_create other = false

pub event_of : CanonicalPathBuf → Option EventType → Emitted
event_of path none = []
event_of path (some ty) = (path, ty) ∷ []

module _ (H : Hashing) where
  -- What a call returns: the tree, what it emitted, the id of the node, and whether to crawl.
  pub record Applied : Type 0 where
    pub tree : FileTree H
    pub emitted : Emitted
    pub node : ℕ
    pub recurse : Bool

  -- `change.flags.intersects(NEEDS_RECURSIVE_CRAWL | NEEDS_NON_RECURSIVE_CRAWL)`
  abbrev pub needs_crawl : PendingChange → Bool
  needs_crawl change = change.flags.needs_recursive_crawl || change.flags.needs_non_recursive_crawl

  abbrev pub marked : PendingChange → FsNode → FsNode
  marked change node =
      if change.flags.mark_recursive
      then record node { flags = insert_recursive node.flags }
      else node

  -- An entry that the file system still has. `node` has its flags already.
  unfoldable pub refresh : FileTree H → PendingChange → ℕ → FsNode → Metadata → Option Applied
  unfolding node_meta change_type is_create event_of set_node reserve_dir
  refresh tree change id node fs_meta =
      let meta = node_meta fs_meta in
      let inode_changed = not (fs_meta.inode == node.inode) in
      let changed = change_type node.meta meta (inode_changed || change.flags.origin_watcher) in
      let recursive = (needs_crawl change || inode_changed) || is_create changed in
      let watch_children = node.flags.watch_children in
      do
        tree' ← set_node H tree id (record node { meta = meta; inode = fs_meta.inode })
        tree'' ←
            if fs_meta.is_dir
              && (not (is_some_id node.children) && (not (fs_meta.size == 0) && watch_children))
            then (do (reserved, dir_id) ← reserve_dir H tree' id; some reserved)
            else some tree'
        some (record {
          tree = tree'';
          emitted = event_of change.path changed;
          node = id;
          recurse = recursive && watch_children;
        })

  gone : FileTree H → PendingChange → ℕ → NodeMeta → Option (FileTree H × Emitted)
  unfolding delete_rec
  gone tree change id dir = delete_rec H tree id []
  gone tree change id (file mtime size) = some (tree, (change.path, delete) ∷ [])
  gone tree change id deleted = some (tree, [])

  -- An entry that the file system no longer has.
  unfoldable pub vanish : FileTree H → PendingChange → ℕ → FsNode → Option Applied
  unfolding gone set_node
  vanish tree change id node = do
    tree' ← set_node H tree id (record node { meta = deleted })
    (tree'', emitted) ← gone tree' change id node.meta
    some (record { tree = tree''; emitted = emitted; node = id; recurse = true })

module _ (H : Hashing) (m : Memrchr) where
  -- The search for the parent's node. It runs after `entry.insert(id)` and before the node is pushed, so
  -- its closure may be called on an id that has no node yet.
  unfoldable pub find_parent : H.Table → List FsNode → CanonicalPathBuf → Option (Option ℕ)
  unfolding at_id
  find_parent table nodes path = elim (parent m path.buf) [
    | none ↦ some none
    | some up ↦
        find H table (H.hash_one up)
          (λ id. at_id nodes id >>= λ node. some (eq_os_str node.path up))
  ]

  -- A path that is new to the tree.
  unfoldable pub discover : FileTree H → PendingChange → Metadata → Option (Applied H)
  unfolding find_parent id_from node_meta add_child reserve_dir
  discover tree change fs_meta = do
    id ← id_from (length tree.nodes)
    let hash = hash_path H change.path
    let table = H.insert tree.path_table hash id (node_hash H tree.nodes)
    up ← find_parent table tree.nodes change.path
    elim up [
      | none ↦ some (record {
        tree = record tree { path_table = H.remove table hash id };
        emitted = [];
        node = none_id;
        recurse = true;
      })
      | some parent_id ↦ do
        linked ← add_child H (record tree { path_table = table }) parent_id id
        parent_node ← at_id linked.nodes parent_id
        let recursive = change.flags.mark_recursive || contains_recursive parent_node.flags
        let pushed : FileTree H = record linked {
          nodes =
              linked.nodes
              ++ record {
                path = change.path;
                meta = node_meta fs_meta;
                inode = fs_meta.inode;
                flags = if recursive then recursive_flags else no_flags;
                children = none_id;
              }
                ∷ [];
        }
        tree' ←
            if fs_meta.is_dir && (recursive && not (fs_meta.size == 0))
            then (do (reserved, dir_id) ← reserve_dir H pushed id; some reserved)
            else some pushed
        some (record {
          tree = tree';
          emitted = if fs_meta.is_dir then [] else (change.path, create) ∷ [];
          node = id;
          recurse = recursive;
        })
    ]

  unfoldable pub apply_found :
      FileTree H → PendingChange → Option Metadata → Option ℕ → Option (Applied H)
  apply_found tree change (some fs_meta) (some id) = do
    node ← at_id tree.nodes id
    refresh H tree change id (marked H change node) fs_meta
  apply_found tree change none (some id) = do
    node ← at_id tree.nodes id
    vanish H tree change id (marked H change node)
  apply_found tree change (some fs_meta) none = discover tree change fs_meta
  apply_found tree change none none =
      some (record { tree = tree; emitted = []; node = none_id; recurse = true })

  -- `fs_meta` is `Metadata::for_path(&change.path)` at the time of the call.
  unfoldable pub apply_change : FileTree H → PendingChange → Option Metadata → Option (Applied H)
  apply_change tree change fs_meta = do
    entry ← find H tree.path_table (hash_path H change.path) (node_eq tree.nodes change.path)
    apply_found tree change fs_meta entry
