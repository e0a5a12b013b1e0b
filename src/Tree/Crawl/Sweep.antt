-- ===== src/Tree/Crawl/Sweep.antt =====
-- What a crawl does to the entries that it did not meet.
pub mod Siblings
use filesentry.Common.{
  ℕ, ◌≡◌, ◌≢◌, ◌<◌, ◌+◌, ◌-◌, ◌^◌, refl, ◌∙◌, Bool, true, false, not, ◌&&◌, ◌||◌, Option, none,
  some, List, [], ◌∷◌, ◌++◌, arith, length, get_elem?, set, ◌>>=◌, if◌then◌else◌, ◌==◌,
  get_elem?-set_self, get_elem?_lt,
}
use filesentry.HashTable.{Hashing}
use filesentry.Metadata.{SystemTime, Metadata, time_eq}
use filesentry.Events.{delete, modified}
use filesentry.Pending.{PendingChange}
use filesentry.Tree.{
  FileTree, FsNode, NodeMeta, Emitted, file, at_id, none_id, node_meta, is_file, change_type,
  set_node, none_id,
}
use filesentry.Tree.Delete.{delete_rec}
use filesentry.Tree.Change.{Applied, refresh, event_of}
use filesentry.Tree.Crawl.{sweep_child}

module _ (H : Hashing) (tree : FileTree H) (emitted : Emitted) (id : ℕ) (node : FsNode) where
  -- A file that a crawl did not meet is reported as deleted, but its node keeps the file's metadata
  -- and its tag: nothing in the tree changes. A second sweep therefore reports the deletion again.
  pub sweep_child-file :
      (mtime : SystemTime) (size : ℕ)
      → at_id tree.nodes id ≡ some node
      → node.flags.maybe_deleted ≡ true
      → node.meta ≡ file mtime size
      → node.children ≡ none_id
      → sweep_child H tree emitted id ≡ some (tree, emitted ++ (node.path, delete) ∷ [])
  unfolding sweep_child is_file delete_rec
  sweep_child-file mtime size at tagged is leaf = ground arith

  -- For a file that a crawl tagged and did not meet, the sweep emits the deletion and leaves the tree as
  -- it is. When the file is back and the watcher reports it, `refresh` of the node that the tree then
  -- has emits `modified`, and not `create`.
  pub swept_file_returns :
      (mtime : SystemTime) (size : ℕ) (change : PendingChange) (fs_meta : Metadata)
      → at_id tree.nodes id ≡ some node
      → node.flags.maybe_deleted ≡ true
      → node.meta ≡ file mtime size
      → node.children ≡ none_id
      → change.flags.origin_watcher ≡ true
      → fs_meta.is_dir ≡ false
      → (swept : FileTree H) × (left : FsNode) × (r : Applied H) × (sweep_child H tree emitted id
          ≡ some (swept, emitted ++ (node.path, delete) ∷ []))
        × (swept ≡ tree)
        × (at_id swept.nodes id ≡ some left)
        × (refresh H swept change id left fs_meta ≡ some r)
        × (r.emitted ≡ (change.path, modified) ∷ [])
  unfolding refresh
  swept_file_returns mtime size change fs_meta at tagged is leaf origin plain = (
    tree,
    node,
    record {
      tree = record tree {
        nodes = set tree.nodes id (record node { meta = node_meta fs_meta; inode = fs_meta.inode });
      };
      emitted = (change.path, modified) ∷ [];
      node = id;
      recurse =
          (((change.flags.needs_recursive_crawl || change.flags.needs_non_recursive_crawl)
              || not (fs_meta.inode == node.inode))
            || false)
          && node.flags.watch_children;
    },
    sweep_child-file mtime size at tagged is leaf,
    refl,
    at,
    ground arith,
    refl,
  )
