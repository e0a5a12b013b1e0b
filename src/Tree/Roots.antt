-- ===== src/Tree/Roots.antt =====
-- `FileTree::add`, `add_root` and `crawl_root`: how roots and what is below them come into the tree.
pub mod Added
pub mod Total
use filesentry.Common.{
  ℕ, Bool, true, false, not, ◌&&◌, ◌||◌, Option, none, some, [], ◌∷◌, ◌++◌, length, ◌>>=◌,
  if◌then◌else◌, ◌==◌,
}
use filesentry.Path.{CanonicalPathBuf, Memrchr}
use filesentry.HashTable.{Hashing, find, hash_path}
use filesentry.Metadata.{Metadata}
use filesentry.Tree.{
  FileTree, at_id, id_from, none_id, set_node, reserve_dir, add_child, node_meta, node_eq,
  node_hash, insert_recursive, contains_recursive, recursive_flags, no_flags, is_dir, Flags,
}
use filesentry.Tree.Change.{find_parent}

abbrev pub added_flags : Bool → Bool → Flags
added_flags recursive root =
    if recursive then recursive_flags else record no_flags { watch_children = root }

module _ (H : Hashing) where
  -- A path that the tree has: only a recursive watch of a node that is not yet recursive succeeds.
  unfoldable pub rewatch : FileTree H → Bool → Bool → ℕ → Option (FileTree H × Option ℕ)
  unfolding at_id is_dir set_node
  rewatch tree recursive root id = if not recursive then some (tree, none) else do
    node ← at_id tree.nodes id
    if (root && not (is_dir node.meta)) || contains_recursive node.flags
        then some (tree, none)
        else (do
          tree' ← set_node H tree id (record node { flags = insert_recursive node.flags })
          some (tree', some id))

module _ (H : Hashing) (m : Memrchr) where
  unfoldable pub link : FileTree H → ℕ → Option ℕ → Option (FileTree H)
  link tree id none = some tree
  link tree id (some parent_id) = add_child H tree parent_id id

  unfoldable pub is_linked : Option ℕ → Bool
  is_linked none = false
  is_linked (some parent_id) = true

  -- A path that is new to the tree.
  unfoldable pub insert_added :
      FileTree H → CanonicalPathBuf → Bool → Bool → Metadata → Option (FileTree H × Option ℕ)
  unfolding find_parent id_from node_meta add_child reserve_dir link is_linked
  insert_added tree path recursive root fs_meta = do
    id ← id_from (length tree.nodes)
    let hash = hash_path H path
    let table = H.insert tree.path_table hash id (node_hash H tree.nodes)
    up ← find_parent H m table tree.nodes path
    if not (is_linked up) && not root
        then some (record tree { path_table = H.remove table hash id }, none)
        else (do
          linked ← link (record tree { path_table = table }) id up
          let pushed : FileTree H = record linked {
            nodes =
                linked.nodes
                ++ record {
                  path = path;
                  meta = node_meta fs_meta;
                  inode = fs_meta.inode;
                  flags = added_flags recursive root;
                  children = none_id;
                }
                  ∷ [];
          }
          tree' ←
              if fs_meta.is_dir && ((recursive || root) && not (fs_meta.size == 0))
              then (do (reserved, dir_id) ← reserve_dir H pushed id; some reserved)
              else some pushed
          some (tree', some id))

  unfoldable pub add_found :
      FileTree H
      → CanonicalPathBuf
      → Bool
      → Bool
      → Option Metadata
      → Option ℕ
      → Option (FileTree H × Option ℕ)
  unfolding rewatch insert_added
  add_found tree path recursive root fs_meta (some id) = rewatch H tree recursive root id
  add_found tree path recursive root (some fs_meta) none =
      insert_added tree path recursive root fs_meta
  add_found tree path recursive root none none = some (tree, none)

  -- `fs_meta` is `Metadata::for_path(&path)` at the time of the call. The tree, and the id if added.
  unfoldable pub add :
      FileTree H → CanonicalPathBuf → Bool → Bool → Option Metadata → Option (FileTree H × Option ℕ)
  unfolding add_found
  add tree path recursive root fs_meta = do
    entry ← find H tree.path_table (hash_path H path) (node_eq tree.nodes path)
    add_found tree path recursive root fs_meta entry

  unfoldable pub add_root :
      FileTree H → CanonicalPathBuf → Bool → Option Metadata → Option (FileTree H × Option ℕ)
  unfolding add
  add_root tree root recursive fs_meta = add tree root recursive true fs_meta
