-- ===== src/Tree/Examples.antt =====
-- Operations of src/tree.rs on a tree of one file.
use filesentry.Config.{ignore_git, last_separator}
use filesentry.Common.{
  ℕ, ◌≡◌, ◌<◌, refl, true, false, Option, none, some, List, [], ◌∷◌, ◌++◌, arith, length, get_elem?,
  map, not, ◌==◌, suc, zero, bytes_eq, ◌||◌,
}
use filesentry.Path.{CanonicalPathBuf, terminated, assert_canonicalized, parent, cmp, path_eq}
use filesentry.Path.Sample.{last_index}
use filesentry.HashTable.{hash_path}
use filesentry.HashTable.Sample.{sample}
use filesentry.HashTable.Index.{Indexes-empty, index_of}
use filesentry.HashTable.Keyed.{item_hash, insert_item}
use filesentry.Metadata.{Metadata, after, no_ent, for_path}
use filesentry.Events.{delete, modified}
use filesentry.Pending
use filesentry.Pending.{PendingChange}
use filesentry.Tree.{FileTree, FsNode, node_path, none_id, file, no_flags, node_meta, at_id}
use filesentry.Tree.Valid.{IsValid}
use filesentry.Tree.Change.{Applied, apply_change, marked, refresh}
use filesentry.Tree.Change.Known.{apply_change_known}
use filesentry.Tree.Change.Seen.{Reports, shown, on_disk}
use filesentry.Tree.Change.Unborn.{apply_change_panics}
use filesentry.Tree.Crawl.{Walker, WalkItem, Crawling, entry, sweep_child, crawl_item, root_item}
use filesentry.Tree.Crawl.Sweep.{swept_file_returns}
use filesentry.Tree.Crawl.Sweep.Siblings.{crawl_root_skips_siblings}
use filesentry.Tree.Transaction.{skip_below}
use filesentry.Tree.Transaction.Covered.{AllBelow, NoneBelow, skip_below_lem}

abbrev d_a : CanonicalPathBuf
d_a = terminated (47 ∷ 100 ∷ 47 ∷ 97 ∷ [])

abbrev d_b : CanonicalPathBuf
d_b = terminated (47 ∷ 100 ∷ 47 ∷ 98 ∷ [])

abbrev leaf : FsNode
leaf = record {
  path = d_a;
  meta = file (after 5) 3;
  inode = 7;
  flags = no_flags;
  children = none_id;
}

abbrev small : FileTree sample
small = record {
  path_table = sample.insert sample.empty (hash_path sample d_a) 0 (item_hash sample node_path []);
  nodes = leaf ∷ [];
  dirs = [];
}

small-IsValid : IsValid sample small
small-IsValid = record {
  indexed =
      insert_item node_path sample sample.empty [] (Indexes-empty sample) leaf
        (unfold index_of in refl) (omega arith);
  few_nodes = omega arith;
  few_dirs = omega arith;
  has_dir = λ i node e s. no_children i node e s;
  has_node = λ d i ids e m. ground arith;
}
  where
    no_children :
        (i : ℕ) (node : FsNode)
        → get_elem? small.nodes i ≡ some node
        → not (node.children == none_id) ≡ true
        → node.children < 0
    no_children zero node e s = ground arith
    no_children (suc i) node e s = ground arith

abbrev written : PendingChange
written = record { path = d_a; flags = record (Pending.empty) { origin_watcher = true } }

abbrev appeared : PendingChange
appeared = record { path = d_b; flags = record (Pending.empty) { origin_watcher = true } }

abbrev bigger : Metadata
bigger = record { is_dir = false; mtime = after 6; size = 4; inode = 7 }

there : index_of d_a (map node_path small.nodes) ≡ some 0
there = unfold index_of path_eq in refl

apply_change_known_example :
    (old : FsNode) × (r : Applied sample) × (get_elem? small.nodes 0 ≡ some old)
    × (old.path ≡ d_a)
    × (apply_change sample last_index small written (some bigger) ≡ some r)
    × IsValid sample r.tree
    × (r.node ≡ 0)
    × Reports d_a (shown old.meta) (on_disk bigger) (not (7 == old.inode) || true) r.emitted
    × ((n : FsNode) × (get_elem? r.tree.nodes 0 ≡ some n)
        × (n.path ≡ old.path)
        × (n.meta ≡ node_meta bigger)
        × (n.inode ≡ 7)
        × (n.flags ≡ (marked sample written old).flags))
apply_change_known_example =
    apply_change_known sample last_index small small-IsValid written 0 bigger there (omega arith)

apply_change_panics_example : apply_change sample last_index small appeared (some bigger) ≡ none
apply_change_panics_example =
    apply_change_panics sample last_index small small-IsValid appeared bigger (47 ∷ 100 ∷ [])
      (0 ∷ []) (unfold index_of path_eq in refl) (omega arith) (unfold parent in refl) refl

abbrev tagged : FsNode
tagged = record leaf { flags = record no_flags { maybe_deleted = true } }

abbrev half_swept : FileTree sample
half_swept = record small { nodes = tagged ∷ [] }

swept_file_returns_example :
    (swept : FileTree sample) × (left : FsNode) × (r : Applied sample) × (sweep_child sample
        half_swept [] 0
      ≡ some (swept, [] ++ (d_a, delete) ∷ []))
    × (swept ≡ half_swept)
    × (at_id swept.nodes 0 ≡ some left)
    × (refresh sample swept written 0 left bigger ≡ some r)
    × (r.emitted ≡ (d_a, modified) ∷ [])
swept_file_returns_example =
    swept_file_returns sample half_swept [] 0 tagged (after 5) 3 written bigger
      (unfold at_id in refl) refl refl refl refl refl

abbrev on_d : PendingChange
on_d = record { path = terminated (47 ∷ 100 ∷ []); flags = Pending.empty }

abbrev on_e : PendingChange
on_e = record { path = terminated (47 ∷ 101 ∷ []); flags = Pending.empty }

skip_below_lem_example :
    (skipped : List PendingChange) × (written ∷ on_e ∷ []
      ≡ skipped ++ skip_below on_d (written ∷ on_e ∷ []))
    × AllBelow on_d skipped
    × NoneBelow on_d (skip_below on_d (written ∷ on_e ∷ []))
skip_below_lem_example =
    skip_below_lem on_d (written ∷ on_e ∷ [])
      ((unfold cmp in refl, (unfold cmp in refl, tt)), ((unfold cmp in refl, tt), (tt, tt)))
      ((47 ∷ 100 ∷ [], refl), ((47 ∷ 100 ∷ 47 ∷ 97 ∷ [], refl), ((47 ∷ 101 ∷ [], refl), tt)))

-- The walk of a list of entries; to leave the directory is to drop them all.
next_item : List WalkItem → Option (WalkItem × List WalkItem)
next_item [] = none
next_item (item ∷ items) = some (item, items)

next_item_lt :
    (it it' : List WalkItem) (item : WalkItem)
    → next_item it ≡ some (item, it')
    → length it' < length it
unfolding next_item
next_item_lt [] it' item e = ground arith
next_item_lt (x ∷ it) it' item e = ground arith

abbrev listed : Walker
listed = record {
  Iter = List WalkItem;
  start = λ root max_depth. [];
  next = next_item;
  skip_current_dir = λ it. [];
  remaining = λ it. length it;
  remaining-next = next_item_lt;
  remaining-skip = λ it. omega arith;
}

abbrev start : Crawling sample
start = record { tree = small; work_stack = []; emitted = []; watches = []; clock = 0 }

-- `/d/b` is gone when it is looked at; `/d/c` is what the walk still has.
abbrev b_bytes : List ℕ
b_bytes = 47 ∷ 100 ∷ 47 ∷ 98 ∷ []

abbrev sibling : WalkItem
sibling = entry (47 ∷ 100 ∷ 47 ∷ 99 ∷ []) 1 false

crawl_root_skips_siblings_example :
    (crawl_item sample last_index listed
        (λ n p. no_ent)
        ignore_git
        true
        start
        (entry b_bytes 1 false)
        (sibling ∷ [])
      ≡ some (record start { clock = 1 }, sibling ∷ []))
    × (root_item sample last_index listed
          (λ n p. no_ent)
          ignore_git
          true
          start
          (entry b_bytes 1 false)
          (sibling ∷ [])
        ≡ some (record start { clock = 1 }, []))
crawl_root_skips_siblings_example =
    crawl_root_skips_siblings sample last_index listed (λ n p. no_ent) ignore_git true start
      small-IsValid b_bytes 0 (sibling ∷ []) (unfold ignore_git bytes_eq last_separator in refl)
      (unfold index_of path_eq assert_canonicalized in refl) (unfold for_path in refl)
