-- ===== src/Tree/Change/Examples.antt =====
-- A new file in a directory that is watched recursively.
use filesentry.Common.{
  ℕ, List, In, ◌≡◌, ◌<◌, refl, true, false, not, ◌==◌, some, [], ◌∷◌, arith, get_elem?, zero, suc,
}
use filesentry.Path.{CanonicalPathBuf, terminated, path_eq, parent, eq_os_str}
use filesentry.Path.Sample.{last_index}
use filesentry.HashTable.{hash_path, find, find_in}
use filesentry.HashTable.Sample.{oldest_first}
use filesentry.HashTable.Index.{Indexes-empty, index_of}
use filesentry.HashTable.Keyed.{item_hash, insert_item}
use filesentry.Metadata.{Metadata, after}
use filesentry.Events.{create}
use filesentry.Pending
use filesentry.Pending.{PendingChange}
use filesentry.Tree.{
  Emitted, file, no_flags, FileTree, FsNode, node_path, none_id, dir, recursive_flags, at_id,
}
use filesentry.Tree.Valid.{IsValid}
use filesentry.Tree.Change.{Applied, apply_change, find_parent}
use filesentry.Tree.Delete.{delete_rec}
use filesentry.Tree.Delete.Ends.{delete_rec-IsValid}
use filesentry.Tree.Change.Discovered.{apply_change_discovered, inherits, IsListed}

abbrev d : CanonicalPathBuf
d = terminated (47 ∷ 100 ∷ [])

abbrev d_b : CanonicalPathBuf
d_b = terminated (47 ∷ 100 ∷ 47 ∷ 98 ∷ [])

abbrev home : FsNode
home = record { path = d; meta = dir; inode = 2; flags = recursive_flags; children = none_id }

abbrev one_dir : FileTree oldest_first
one_dir = record {
  path_table =
      oldest_first.insert oldest_first.empty (hash_path oldest_first d) 0
        (item_hash oldest_first node_path []);
  nodes = home ∷ [];
  dirs = [];
}

one_dir-IsValid : IsValid oldest_first one_dir
one_dir-IsValid = record {
  indexed =
      insert_item node_path oldest_first oldest_first.empty [] (Indexes-empty oldest_first) home
        (unfold index_of in refl) (omega arith);
  few_nodes = omega arith;
  few_dirs = omega arith;
  has_dir = no_children;
  has_node = λ k i ids e m. ground arith;
}
  where
    no_children :
        (i : ℕ) (node : FsNode)
        → get_elem? one_dir.nodes i ≡ some node
        → not (node.children == none_id) ≡ true
        → node.children < 0
    no_children zero node e s = ground arith
    no_children (suc i) node e s = ground arith

abbrev appeared : PendingChange
appeared = record { path = d_b; flags = record (Pending.empty) { origin_watcher = true } }

abbrev a_file : Metadata
a_file = record { is_dir = false; mtime = after 6; size = 4; inode = 7 }

apply_change_discovered_example :
    (r : Applied oldest_first) × (apply_change oldest_first last_index one_dir appeared
        (some a_file)
      ≡ some r)
    × IsValid oldest_first r.tree
    × (r.node ≡ 1)
    × (r.emitted ≡ (d_b, create) ∷ [])
    × (r.recurse ≡ inherits appeared home)
    × IsListed oldest_first last_index one_dir one_dir-IsValid appeared a_file 0 home r.tree
apply_change_discovered_example =
    apply_change_discovered oldest_first last_index one_dir one_dir-IsValid appeared a_file 0 home
      (unfold index_of path_eq in refl) refl
      (unfold find_parent find find_in at_id parent eq_os_str in refl) (omega arith) (omega arith)

-- The directory with a file in it.
abbrev listed_home : FsNode
listed_home = record home { children = 0 }

abbrev leaf : FsNode
leaf = record {
  path = d_b;
  meta = file (after 5) 3;
  inode = 7;
  flags = no_flags;
  children = none_id;
}

abbrev one_file : FileTree oldest_first
one_file = record {
  path_table =
      oldest_first.insert one_dir.path_table (hash_path oldest_first d_b) 1
        (item_hash oldest_first node_path (listed_home ∷ []));
  nodes = listed_home ∷ leaf ∷ [];
  dirs = (1 ∷ []) ∷ [];
}

one_file-IsValid : IsValid oldest_first one_file
one_file-IsValid = record {
  indexed =
      insert_item node_path oldest_first one_dir.path_table (listed_home ∷ [])
        (insert_item node_path oldest_first oldest_first.empty [] (Indexes-empty oldest_first)
          listed_home (unfold index_of in refl) (omega arith))
        leaf (unfold index_of path_eq in refl) (omega arith);
  few_nodes = omega arith;
  few_dirs = omega arith;
  has_dir = children;
  has_node = members;
}
  where
    children :
        (i : ℕ) (node : FsNode)
        → get_elem? one_file.nodes i ≡ some node
        → not (node.children == none_id) ≡ true
        → node.children < 1
    children zero node e s = ground arith
    children (suc zero) node e s = ground arith
    children (suc (suc i)) node e s = ground arith

    members : (k i : ℕ) (ids : List ℕ) → get_elem? one_file.dirs k ≡ some ids → In i ids → i < 2
    members zero i ids e mem = ground arith
    members (suc k) i ids e mem = ground arith

delete_rec-IsValid_example :
    (t : FileTree oldest_first) × (emitted : Emitted) × (delete_rec oldest_first one_file 0 []
      ≡ some (t, emitted))
    × IsValid oldest_first t
delete_rec-IsValid_example =
    delete_rec-IsValid oldest_first one_file one_file-IsValid 0 listed_home [] refl
