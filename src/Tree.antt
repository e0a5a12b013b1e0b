-- ===== src/Tree.antt =====
-- src/tree.rs: the in-memory picture of the watched directories. This file has the types and the
-- helpers; `Change` and `Roots` the two ways in which nodes are added, `Delete`, `Crawl` and `Transaction` the rest.
-- `none` is a panic: a failed assertion or an index out of bounds.
pub mod Valid
pub mod Grow
pub mod Delete
pub mod Change
pub mod Roots
pub mod Crawl
pub mod Transaction
pub mod Sample
mod Examples
use filesentry.Common.{
  ℕ, ◌+◌, ◌-◌, ◌^◌, Bool, true, false, not, ◌&&◌, ◌||◌, Option, none, some, List, [], ◌∷◌, ◌++◌,
  length, get_elem?, set, ◌>>=◌, ◌>>◌, assert, ltb, ◌==◌, if◌then◌else◌,
}
use filesentry.Path.{CanonicalPathBuf, path_eq}
use filesentry.HashTable.{Hashing, hash_path}
use filesentry.Events.{EventType, create, delete, modified}
use filesentry.Metadata.{Metadata, SystemTime, time_eq}

pub data NodeMeta : Type 0 where
  dir : NodeMeta
  file : SystemTime → ℕ → NodeMeta
  deleted : NodeMeta

unfoldable pub is_dir : NodeMeta → Bool
is_dir dir = true
is_dir meta = false

unfoldable pub is_file : NodeMeta → Bool
is_file (file mtime size) = true
is_file meta = false

-- `NodeMeta::new`
unfoldable pub node_meta : Metadata → NodeMeta
node_meta meta = if meta.is_dir then dir else file meta.mtime meta.size

unfoldable pub change_type : NodeMeta → NodeMeta → Bool → Option EventType
change_type (file mtime size) (file nmtime nsize) skip_check =
    if not skip_check && (time_eq mtime nmtime && (size == nsize)) then none else some modified
change_type (file mtime size) new skip_check = some delete
change_type old (file mtime size) skip_check = some create
change_type old new skip_check = none

-- `DirId::NONE` and `NodeId::NONE`, `u32::MAX`
abbrev pub none_id : ℕ
none_id = 2 ^ 32 - 1

abbrev pub is_some_id : ℕ → Bool
is_some_id id = not (id == none_id)

-- `DirId::from` and `NodeId::from`
unfoldable pub id_from : ℕ → Option ℕ
id_from value = do assert (ltb value none_id); some value

-- The bits of the flags: `WATCH_CHILDREN` is 0b10, `RECURSIVE` is 0b110.
pub record Flags : Type 0 where
  pub maybe_deleted : Bool
  pub watch_children : Bool
  pub third_bit : Bool

abbrev pub no_flags : Flags
no_flags = record { maybe_deleted = false; watch_children = false; third_bit = false }

abbrev pub recursive_flags : Flags
recursive_flags = record { maybe_deleted = false; watch_children = true; third_bit = true }

-- `flags |= RECURSIVE` and `contains(RECURSIVE)`
abbrev pub insert_recursive : Flags → Flags
insert_recursive flags = record flags { watch_children = true; third_bit = true }

abbrev pub contains_recursive : Flags → Bool
contains_recursive flags = flags.watch_children && flags.third_bit

pub record FsNode : Type 0 where
  pub path : CanonicalPathBuf
  pub meta : NodeMeta
  pub inode : ℕ
  pub flags : Flags
  pub children : ℕ

abbrev pub node_path : FsNode → CanonicalPathBuf
node_path node = node.path

abbrev pub Emitted : Type 0
Emitted = List (CanonicalPathBuf × EventType)

-- `self.nodes[id.idx()]` and `self.dirs[id.idx()]`
unfoldable pub at_id : {A : Type 0} → List A → ℕ → Option A
at_id items id = do assert (is_some_id id); get_elem? items id

-- The closures that a search of the path table is given.
abbrev pub node_eq : List FsNode → CanonicalPathBuf → ℕ → Option Bool
node_eq nodes path id = at_id nodes id >>= λ node. some (path_eq node.path path)

module _ (H : Hashing) where
  abbrev pub node_hash : List FsNode → ℕ → Option ℕ
  node_hash nodes id = at_id nodes id >>= λ node. some (hash_path H node.path)

  pub record FileTree : Type 0 where
    pub path_table : H.Table
    pub nodes : List FsNode
    pub dirs : List (List ℕ)

  -- `FileTree::new`
  abbrev pub new : FileTree
  new = record { path_table = H.empty; nodes = []; dirs = [] }

  -- `self[id] = node`
  unfoldable pub set_node : FileTree → ℕ → FsNode → Option FileTree
  set_node self id node = do
    old ← at_id self.nodes id
    some (record self { nodes = set self.nodes id node })

  -- The tree, and the id of the new directory.
  unfoldable pub reserve_dir : FileTree → ℕ → Option (FileTree × ℕ)
  unfolding id_from at_id set_node
  reserve_dir self id = do
    dir_id ← id_from (length self.dirs)
    node ← at_id self.nodes id
    self' ← set_node self id (record node { children = dir_id })
    some (record self' { dirs = self'.dirs ++ [] ∷ [] }, dir_id)

  -- The directory of a node's children, reserved if there is none.
  unfoldable pub dir_of : FileTree → ℕ → FsNode → Option (FileTree × ℕ)
  unfolding reserve_dir
  dir_of self id node =
      if is_some_id node.children then some (self, node.children) else reserve_dir self id

  unfoldable pub add_child : FileTree → ℕ → ℕ → Option FileTree
  unfolding dir_of
  add_child self id child = do
    node ← at_id self.nodes id
    (self', dir_id) ← dir_of self id node
    ids ← at_id self'.dirs dir_id
    some (record self' { dirs = set self'.dirs dir_id (ids ++ child ∷ []) })
