-- ===== src/Tree/Delete.antt =====
-- `FileTree::delete_rec`: marks what is below a node as deleted, and emits the deletions of the files.
pub mod Weight
pub mod Frames
pub mod Ends
pub mod Sizes
use filesentry.Common.{
  ℕ, zero, suc, ◌+◌, ◌&&◌, Option, none, some, List, [], ◌∷◌, ◌++◌, length, get_elem?, ◌>>=◌,
  if◌then◌else◌,
}
use filesentry.HashTable.{Hashing}
use filesentry.Events.{delete}
use filesentry.Tree.{
  FileTree, FsNode, Emitted, at_id, is_some_id, set_node, is_dir, is_file, deleted,
}

abbrev pub dir_length : List (List ℕ) → ℕ → ℕ
dir_length dirs id = elim (get_elem? dirs id) [ none ↦ 0 | some ids ↦ length ids ]

-- Rounds for the children of a directory: one for each entry, and one to leave it.
abbrev pub entries : List (List ℕ) → FsNode → ℕ
entries dirs node = if is_dir node.meta then suc (dir_length dirs node.children) else 0

abbrev pub all_entries : List (List ℕ) → List FsNode → ℕ
all_entries dirs [] = 0
all_entries dirs (node ∷ nodes) = entries dirs node + all_entries dirs nodes

module _ (H : Hashing) where
  -- Rounds for the directory itself and for every other one below, each of which is entered once.
  abbrev pub delete_fuel : FileTree H → FsNode → ℕ
  delete_fuel tree node = dir_length tree.dirs node.children + all_entries tree.dirs tree.nodes + 2

  unfoldable pub set_deleted : FileTree H → ℕ → Option (FileTree H)
  unfolding set_node at_id
  set_deleted tree id = do
    node ← at_id tree.nodes id
    set_node H tree id (record node { meta = deleted })

  -- The event and the stack entry of one child.
  unfoldable pub deletion : FsNode → Emitted
  unfolding is_file
  deletion child = if is_file child.meta then (child.path, delete) ∷ [] else []

  unfoldable pub descent : ℕ → FsNode → List (ℕ × ℕ)
  unfolding is_dir
  descent child_id child =
      if is_dir child.meta && is_some_id child.children then (child_id, 0) ∷ [] else []

  -- The `while` loop, on the part of the work stack above `start_len`, top first. Fuel counts rounds.
  unfoldable pub delete_loop :
      ℕ → FileTree H → List (ℕ × ℕ) → Emitted → Option (FileTree H × Emitted)
  unfolding set_deleted deletion descent
  delete_loop zero tree stack emitted = none
  delete_loop (suc fuel) tree [] emitted = some (tree, emitted)
  delete_loop (suc fuel) tree ((id, child) ∷ stack) emitted = do
    node ← at_id tree.nodes id
    ids ← at_id tree.dirs node.children
    elim (get_elem? ids child) [
      | none ↦ do tree' ← set_deleted tree id; delete_loop fuel tree' stack emitted
      | some child_id ↦ do
        c ← at_id tree.nodes child_id
        tree' ← set_deleted tree child_id
        delete_loop fuel tree' (descent child_id c ++ (id, child + 1) ∷ stack)
            (emitted ++ deletion c)
    ]

  unfoldable pub delete_rec : FileTree H → ℕ → Emitted → Option (FileTree H × Emitted)
  unfolding delete_loop
  delete_rec tree id emitted = do
    node ← at_id tree.nodes id
    if is_some_id node.children
        then (do
          tree' ← set_deleted tree id
          delete_loop (delete_fuel tree node) tree' ((id, 0) ∷ []) emitted)
        else some (tree, emitted)
