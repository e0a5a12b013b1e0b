-- ===== src/Tree/Crawl.antt =====
-- `FileTree::crawl` and `FileTree::crawl_root`: the tree against a walk of the directory.
-- The walk is the walkdir crate's iterator, a parameter; `remaining` bounds what it still yields. What
-- other processes do to the files meanwhile is free: the walk yields what it yields, and the result of
-- the n-th `lstat` call is that of the parameter `stats` at n.
pub mod Sweep
pub mod Rounds
pub mod Sample
pub mod Leaving
pub mod Entering
pub mod Visited
pub mod Ends
pub mod RootEnds
use filesentry.Common.{
  ℕ, zero, suc, ◌+◌, ◌<◌, ◌≤◌, ◌≡◌, Bool, true, false, not, ◌&&◌, ◌||◌, Option, none, some, List,
  [], ◌∷◌, ◌++◌, length, get_elem?, ◌>>=◌, if◌then◌else◌, ◌==◌, leb, set,
}
use filesentry.Path.{CanonicalPathBuf, CannonicalPath, Memrchr, assert_canonicalized, as_bytes}
use filesentry.HashTable.{Hashing}
use filesentry.Config.{Filter}
use filesentry.Events.{delete}
use filesentry.Metadata.{Lstat, for_path}
use filesentry.Pending
use filesentry.Tree.{
  FileTree, FsNode, Emitted, at_id, is_some_id, set_node, contains_recursive, is_dir, is_file,
}
use filesentry.Tree.Delete.{delete_rec}
use filesentry.Tree.Change.{Applied, apply_change}
use filesentry.Tree.Roots.{add}

-- A directory entry: its path, its depth below the root of the walk, and whether it is a directory.
pub data WalkItem : Type 0 where
  failed : WalkItem
  entry : List ℕ → ℕ → Bool → WalkItem

-- `WalkDir::new(root)` with links not followed, on one file system, and `max_depth` if given.
pub record Walker : Type 1 where
  pub Iter : Type 0
  pub start : List ℕ → Option ℕ → Iter
  pub next : Iter → Option (WalkItem × Iter)
  pub skip_current_dir : Iter → Iter
  pub remaining : Iter → ℕ
  pub remaining-next :
      (it it' : Iter) (item : WalkItem) → next it ≡ some (item, it') → remaining it' < remaining it
  pub remaining-skip : (it : Iter) → remaining (skip_current_dir it) ≤ remaining it

abbrev pub Stats : Type 0
Stats = ℕ → CanonicalPathBuf → Lstat

-- `set_maybe_deleted_flag` on the nodes of some ids.
unfoldable pub mark_ids : List FsNode → List ℕ → Option (List FsNode)
unfolding at_id
mark_ids nodes [] = some nodes
mark_ids nodes (id ∷ ids) = do
  node ← at_id nodes id
  mark_ids (set nodes id (record node { flags = record node.flags { maybe_deleted = true } })) ids

module _ (H : Hashing) where
  -- The tree, the work stack (top first), what was emitted and watched, and the count of `lstat` calls.
  pub record Crawling : Type 0 where
    pub tree : FileTree H
    pub work_stack : List (ℕ × ℕ)
    pub emitted : Emitted
    pub watches : List CanonicalPathBuf
    pub clock : ℕ

  -- One child of a directory that is left: if it was not visited, it is deleted.
  unfoldable pub sweep_child : FileTree H → Emitted → ℕ → Option (FileTree H × Emitted)
  unfolding at_id is_file delete_rec
  sweep_child tree emitted id = do
    child ← at_id tree.nodes id
    if child.flags.maybe_deleted
        then delete_rec H tree id
            (if is_file child.meta then emitted ++ (child.path, delete) ∷ [] else emitted)
        else some (tree, emitted)

  unfoldable pub sweep_ids : FileTree H → Emitted → List ℕ → Option (FileTree H × Emitted)
  unfolding sweep_child
  sweep_ids tree emitted [] = some (tree, emitted)
  sweep_ids tree emitted (id ∷ ids) = do
    (tree', emitted') ← sweep_child tree emitted id
    sweep_ids tree' emitted' ids

  -- One directory that is left.
  unfoldable pub sweep : FileTree H → Emitted → ℕ → Option (FileTree H × Emitted)
  unfolding sweep_ids
  sweep tree emitted id = do
    node ← at_id tree.nodes id
    ids ← at_id tree.dirs node.children
    sweep_ids tree emitted ids

  -- The inner `while`: leaves the directories of at least a depth, and with depth 0 all of them.
  unfoldable pub leave :
      FileTree H → Emitted → List (ℕ × ℕ) → ℕ → Option (FileTree H × Emitted × List (ℕ × ℕ))
  unfolding sweep
  leave tree emitted [] depth = some (tree, emitted, [])
  leave tree emitted ((id, level) ∷ stack) depth =
      if leb depth level
      then (do (tree', emitted') ← sweep tree emitted id; leave tree' emitted' stack depth)
      else some (tree, emitted, (id, level) ∷ stack)

  -- A directory is entered: its children are tagged as not visited.
  unfoldable pub enter : Crawling → ℕ → ℕ → Option Crawling
  unfolding mark_ids at_id
  enter st id depth = do
    node ← at_id st.tree.nodes id
    if is_some_id node.children
        then (do
          ids ← at_id st.tree.dirs node.children
          nodes ← mark_ids st.tree.nodes ids
          some (record st {
            tree = record (st.tree) { nodes = nodes };
            work_stack = (id, depth) ∷ st.work_stack;
          }))
        else some st

  unfoldable pub unset_maybe_deleted : FileTree H → ℕ → Option (FileTree H)
  unfolding at_id set_node
  unset_maybe_deleted tree id = do
    node ← at_id tree.nodes id
    set_node H tree id (record node { flags = record node.flags { maybe_deleted = false } })

  unfoldable pub crawl_flags : Bool → Pending.Flags
  crawl_flags recursive = record (Pending.empty) {
    needs_recursive_crawl = true;
    mark_recursive = recursive;
  }

module _ (H : Hashing) (m : Memrchr) (W : Walker) (stats : Stats) (filter : Filter) where
  -- An entry that is not ignored.
  unfoldable pub visit : Bool → Crawling H → CanonicalPathBuf → ℕ → Option (Crawling H)
  unfolding crawl_flags apply_change unset_maybe_deleted leave enter for_path is_dir
  visit recursive st path depth = do
    applied ←
        apply_change H m st.tree (record { path = path; flags = crawl_flags H recursive })
          (for_path (stats st.clock path))
    let seen : Crawling H = record st {
      tree = applied.tree;
      emitted = st.emitted ++ applied.emitted;
      clock = st.clock + 1;
    }
    if is_some_id applied.node
        then (do
          tree ← unset_maybe_deleted H seen.tree applied.node
          (tree', emitted', stack) ← leave H tree seen.emitted seen.work_stack depth
          let left : Crawling H = record seen {
            tree = tree';
            emitted = emitted';
            work_stack = stack;
          }
          node ← at_id tree'.nodes applied.node
          if is_dir node.meta && recursive
              then enter H (record left { watches = left.watches ++ path ∷ [] }) applied.node depth
              else some left)
        else some seen

  -- One item of the walk: the state and the iterator for the next.
  unfoldable pub crawl_item : Bool → Crawling H → WalkItem → W.Iter → Option (Crawling H × W.Iter)
  unfolding visit assert_canonicalized
  crawl_item recursive st failed it = some (st, it)
  crawl_item recursive st (entry path depth directory) it =
      if depth == 0
      then some (st, it)
      else if filter path (some directory)
      then some (st, if directory then W.skip_current_dir it else it)
      else (do st' ← visit recursive st (assert_canonicalized path) depth; some (st', it))

  unfoldable pub crawl_rounds : ℕ → Bool → Crawling H → W.Iter → Option (Crawling H)
  unfolding crawl_item
  crawl_rounds zero recursive st it = elim (W.next it) [ none ↦ some st | some (item, it') ↦ none ]
  crawl_rounds (suc fuel) recursive st it = elim (W.next it) [
    | none ↦ some st
    | some (item, it') ↦ do
      (st', it'') ← crawl_item recursive st item it'
      crawl_rounds fuel recursive st' it''
  ]

  unfoldable pub crawl : Crawling H → ℕ → Option (Crawling H)
  unfolding crawl_rounds
  crawl st root = do
    node ← at_id st.tree.nodes root
    let recursive = contains_recursive node.flags
    entered ← enter H (record st { watches = st.watches ++ node.path ∷ [] }) root 0
    let it = W.start (as_bytes node.path.buf) (if recursive then none else some 1)
    walked ← crawl_rounds (W.remaining it) recursive entered it
    (tree, emitted, stack) ← leave H walked.tree walked.emitted walked.work_stack 0
    some (record walked { tree = tree; emitted = emitted; work_stack = stack })

  -- One item of the walk of `crawl_root`.
  unfoldable pub root_item : Bool → Crawling H → WalkItem → W.Iter → Option (Crawling H × W.Iter)
  unfolding assert_canonicalized add for_path is_dir at_id
  root_item recursive st failed it = some (st, it)
  root_item recursive st (entry path depth directory) it =
      if depth == 0
      then some (st, it)
      else if filter path (some directory)
      then some (st, if directory then W.skip_current_dir it else it)
      else (do
        let child = assert_canonicalized path
        (tree, added) ← add H m st.tree child recursive false (for_path (stats st.clock child))
        let seen : Crawling H = record st { tree = tree; clock = st.clock + 1 }
        elim added [
          | none ↦ some (seen, W.skip_current_dir it)
          | some id ↦ do
            node ← at_id tree.nodes id
            some (
              (if is_dir node.meta && recursive
                  then record seen { watches = seen.watches ++ node.path ∷ [] }
                  else seen),
              it,
            )
        ])

  unfoldable pub root_rounds : ℕ → Bool → Crawling H → W.Iter → Option (Crawling H)
  unfolding root_item
  root_rounds zero recursive st it = elim (W.next it) [ none ↦ some st | some (item, it') ↦ none ]
  root_rounds (suc fuel) recursive st it = elim (W.next it) [
    | none ↦ some st
    | some (item, it') ↦ do
      (st', it'') ← root_item recursive st item it'
      root_rounds fuel recursive st' it''
  ]

  unfoldable pub crawl_root : Crawling H → ℕ → Bool → Option (Crawling H)
  unfolding root_rounds at_id
  crawl_root st root recursive = do
    node ← at_id st.tree.nodes root
    let it = W.start (as_bytes node.path.buf) (if recursive then none else some 1)
    root_rounds (W.remaining it) recursive st it
