-- ===== src/Tree/Roots/Added.antt =====
-- `add`: what `add_root` and the crawl of a root make of the tree.
use filesentry.Common.{
  ℕ, ◌≡◌, ◌<◌, ◌+◌, refl, ◌∙◌, Bool, true, false, not, ◌&&◌, ◌||◌, Option, none, some, [], ◌∷◌,
  ◌++◌, arith, length, get_elem?, map, ◌>>=◌, if◌then◌else◌, ◌==◌, inl, inr, Bool-cases,
  get_elem?-set_self, get_elem?_lt, ◌≤◌, set,
}
use filesentry.Path.{CanonicalPathBuf, Memrchr}
use filesentry.HashTable.{Hashing}
use filesentry.HashTable.Index.{index_of}
use filesentry.Metadata.{Metadata}
use filesentry.Tree.{
  FileTree, FsNode, node_path, node_meta, none_id, at_id, reserve_dir, id_from, contains_recursive,
  is_dir, insert_recursive, set_node,
}
use filesentry.Tree.Valid.{IsValid, node_find, reserve_dir-IsValid, at_id_of_lt, set_node-IsValid}
use filesentry.Tree.Grow.{pushed, entered, get_elem?_end, pushed-IsValid}
use filesentry.Tree.Grow.Linked.{Linked-IsValid}
use filesentry.Tree.Change.{find_parent}
use filesentry.Tree.Roots.{added_flags, add, add_found, insert_added, rewatch, link, is_linked}

abbrev pub added_node : CanonicalPathBuf → Bool → Bool → Metadata → FsNode
added_node path recursive root fs_meta = record {
  path = path;
  meta = node_meta fs_meta;
  inode = fs_meta.inode;
  flags = added_flags recursive root;
  children = none_id;
}

module _ (H : Hashing) (m : Memrchr) (t : FileTree H) (v : IsValid H t) (path : CanonicalPathBuf)
    (recursive root : Bool) (fs_meta : Metadata) where
  abbrev reserves : Bool
  reserves = fs_meta.is_dir && ((recursive || root) && not (fs_meta.size == 0))

  insert_added_lem :
      (up : Option ℕ) (t' : FileTree H)
      → length t.nodes < none_id
      → find_parent H m (entered H t path).path_table t.nodes path ≡ some up
      → (not (is_linked H m up) && not root) ≡ false
      → link H m (entered H t path) (length t.nodes) up ≡ some t'
      → insert_added H m t path recursive root fs_meta ≡ (
          (if reserves
            then (reserve_dir H
                  (pushed H t' (added_node path recursive root fs_meta))
                  (length t.nodes)
                >>= λ r. some (r.0))
            else some (pushed H t' (added_node path recursive root fs_meta)))
          >>= λ tree. some (tree, some (length t.nodes)))
  unfolding insert_added id_from
  insert_added_lem up t' room searched kept linked = ground arith

  -- The search comes to the parent's node, or to none, for a root.
  abbrev pub InPlace : Option ℕ → Type 0
  InPlace none = root ≡ true
  InPlace (some p) = (parent : FsNode) × (get_elem? t.nodes p ≡ some parent)

  kept : (up : Option ℕ) → InPlace up → (not (is_linked H m up) && not root) ≡ false
  unfolding is_linked
  kept none is_root = ground arith
  kept (some p) is_node = refl

  link-IsValid :
      (up : Option ℕ)
      → index_of path (map node_path t.nodes) ≡ none
      → length t.nodes < none_id
      → length t.dirs < none_id
      → InPlace up
      → (t' : FileTree H) × (link H m (entered H t path) (length t.nodes) up ≡ some t')
        × IsValid H (pushed H t' (added_node path recursive root fs_meta))
        × (length t'.nodes ≡ length t.nodes)
        × (length t'.dirs ≤ length t.dirs + 1)
  unfolding link
  link-IsValid none fresh room space is_node = (
    entered H t path,
    refl,
    pushed-IsValid H t v (added_node path recursive root fs_meta) fresh room refl,
    refl,
    omega arith,
  )
  link-IsValid (some p) fresh room space (parent, at) =
      let (t', (linked, v', same_nodes, few, _)) =
        Linked-IsValid H t v (added_node path recursive root fs_meta) p parent fresh room space refl
          at in
      (t', linked, v', same_nodes, few)

  -- When the file system has a path that the tree does not know, and the search for its parent does
  -- not panic and comes to a node, or to none for a root: on a valid tree with room, `add` does not
  -- panic, keeps the tree valid and returns the new node. It has the metadata of the file system, is
  -- recursive if that is asked for, and else watches its children if it is a root.
  pub add_fresh :
      (up : Option ℕ)
      → index_of path (map node_path t.nodes) ≡ none
      → length t.nodes < none_id
      → length t.dirs + 1 < none_id
      → find_parent H m (entered H t path).path_table t.nodes path ≡ some up
      → InPlace up
      → (t' : FileTree H) × (add H m t path recursive root (some fs_meta)
          ≡ some (t', some (length t.nodes)))
        × IsValid H t'
        × ((n : FsNode) × (get_elem? t'.nodes (length t.nodes) ≡ some n)
            × (n.path ≡ path)
            × (n.meta ≡ node_meta fs_meta)
            × (n.inode ≡ fs_meta.inode)
            × (n.flags ≡ added_flags recursive root))
  unfolding add add_found
  add_fresh up fresh room space searched is_node =
      let (t', linked, v', same_nodes, few) =
        link-IsValid up fresh room (omega (arith, space)) is_node in
      let found = insert_added_lem up t' room searched (kept up is_node) linked in
      let last =
        rw same_nodes at (get_elem?_end t'.nodes (added_node path recursive root fs_meta)) in
      elim (Bool-cases reserves) [
        | inr keep ↦ (
          pushed H t' (added_node path recursive root fs_meta),
          rw (node_find H t v path) (rw fresh (found ∙ rw keep refl)),
          v',
          ((added_node path recursive root fs_meta), last, refl, refl, refl, refl),
        )
        | inl reserve ↦
            let (r, reserved, w, nodes', dirs', _) =
              reserve_dir-IsValid H (pushed H t' (added_node path recursive root fs_meta)) v'
                (length t.nodes) (added_node path recursive root fs_meta) last
                (omega (arith, few, space)) in
            (
              r,
              rw (node_find H t v path) (rw fresh (found ∙ rw (reserve, reserved) refl)),
              w,
              (
                record (added_node path recursive root fs_meta) { children = length t'.dirs },
                rw nodes' (
                    get_elem?-set_self (t'.nodes ++ (added_node path recursive root fs_meta) ∷ [])
                      (length t.nodes) _
                      (get_elem?_lt (t'.nodes ++ (added_node path recursive root fs_meta) ∷ [])
                        (length t.nodes) last)),
                refl,
                refl,
                refl,
                refl,
              ),
            )
      ]

-- Whether `add` makes a node that the tree has recursive.
abbrev pub upgrades : Bool → Bool → FsNode → Bool
upgrades recursive root node =
    recursive && (not (contains_recursive node.flags) && (not root || is_dir node.meta))

rewatch_lem :
    (H : Hashing) (t : FileTree H) (recursive root : Bool) (id : ℕ) (node : FsNode)
    → at_id t.nodes id ≡ some node
    → rewatch H t recursive root id ≡ (
        if upgrades recursive root node
        then (set_node H t id (record node { flags = insert_recursive node.flags }) >>= λ tree.
            some (tree, some id))
        else some (t, none))
unfolding rewatch
rewatch_lem H t false root id node at = refl
rewatch_lem H t true root id node at = ground arith

module _ (H : Hashing) (m : Memrchr) (t : FileTree H) (v : IsValid H t) (path : CanonicalPathBuf)
    (fs_meta : Option Metadata) where
  -- When a path that the tree has is added, on a valid tree `add` does not panic and keeps the tree
  -- valid. It succeeds exactly if a recursive watch is asked for, the node is not yet recursive, and,
  -- for a root, it is a directory; then the node is recursive, and else nothing changes.
  pub add_again :
      (recursive root : Bool) (id : ℕ) (node : FsNode)
      → index_of path (map node_path t.nodes) ≡ some id
      → get_elem? t.nodes id ≡ some node
      → (t' : FileTree H) × (add H m t path recursive root fs_meta
          ≡ some (t', (if upgrades recursive root node then some id else none)))
        × IsValid H t'
        × (t' ≡ (
            if upgrades recursive root node
            then record t {
              nodes = set t.nodes id (record node { flags = insert_recursive node.flags });
            }
            else t))
  unfolding add add_found
  add_again recursive root id node there at =
      let at' = at_id_of_lt t.nodes id v.few_nodes ∙ at in
      let found = rewatch_lem H t recursive root id node at' in
      elim (Bool-cases (upgrades recursive root node)) [
        | inl up ↦
            let node' = record node { flags = insert_recursive node.flags } in
            let (wrote, valid) =
              set_node-IsValid H t v id node node' at refl (v.has_dir id node at) in
            (
              record t { nodes = set t.nodes id node' },
              rw (node_find H t v path) (rw there (found ∙ rw (up, wrote) refl)),
              valid,
              rw up refl,
            )
        | inr same ↦
            (t, rw (node_find H t v path) (rw there (found ∙ rw same refl)), v, rw same refl)
      ]
