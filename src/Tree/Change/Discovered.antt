-- ===== src/Tree/Change/Discovered.antt =====
-- A change of a path that the tree does not know, where the search for the parent succeeds.
use filesentry.Common.{
  ℕ, ◌≡◌, ◌<◌, ◌+◌, refl, ◌∙◌, Bool, not, ◌&&◌, ◌||◌, none, some, List, [], ◌∷◌, ◌++◌, arith,
  length, get_elem?, map, ◌>>=◌, if◌then◌else◌, ◌==◌, inl, inr, Bool-cases, get_elem?-set_self,
  get_elem?_lt,
}
use filesentry.Path.{Memrchr}
use filesentry.HashTable.{Hashing}
use filesentry.HashTable.Index.{index_of}
use filesentry.Pending.{PendingChange}
use filesentry.Events.{create}
use filesentry.Metadata.{Metadata}
use filesentry.Tree.{
  FileTree, FsNode, node_path, node_meta, none_id, no_flags, recursive_flags, contains_recursive,
  at_id, reserve_dir, add_child, id_from,
}
use filesentry.Tree.Valid.{IsValid, node_find, reserve_dir-IsValid}
use filesentry.Tree.Grow.{pushed, entered, get_elem?_end, get_elem?-set_other, get_elem?-append_one}
use filesentry.Tree.Grow.Linked.{Linked-IsValid}
use filesentry.Tree.Change.{Applied, apply_change, apply_found, discover, find_parent}

get_elem?_of_at_id :
    {A : Type 0} (items : List A) (id : ℕ) {a : A}
    → at_id items id ≡ some a
    → get_elem? items id ≡ some a
unfolding at_id
get_elem?_of_at_id items id h = ground arith

-- A new node is recursive if the change asks for it or its parent is.
abbrev pub inherits : PendingChange → FsNode → Bool
inherits change parent = change.flags.mark_recursive || contains_recursive parent.flags

abbrev pub fresh_node : PendingChange → Metadata → FsNode → FsNode
fresh_node change fs_meta parent = record {
  path = change.path;
  meta = node_meta fs_meta;
  inode = fs_meta.inode;
  flags = if inherits change parent then recursive_flags else no_flags;
  children = none_id;
}

module _ (H : Hashing) (m : Memrchr) (t : FileTree H) (v : IsValid H t) (change : PendingChange)
    (fs_meta : Metadata) (p : ℕ) (parent : FsNode) where
  abbrev reserves : Bool
  reserves = fs_meta.is_dir && (inherits change parent && not (fs_meta.size == 0))

  discover_lem :
      length t.nodes < none_id
      → find_parent H m (entered H t change.path).path_table t.nodes change.path ≡ some (some p)
      → (t' : FileTree H) → add_child H (entered H t change.path) p (length t.nodes) ≡ some t'
      → (q : FsNode) → at_id t'.nodes p ≡ some q
      → q.flags ≡ parent.flags
      → discover H m t change fs_meta ≡ (
          (if reserves
            then (reserve_dir H (pushed H t' (fresh_node change fs_meta parent)) (length t.nodes)
                >>= λ r. some (r.0))
            else some (pushed H t' (fresh_node change fs_meta parent)))
          >>= λ tree. some (record {
            tree = tree;
            emitted = if fs_meta.is_dir then [] else (change.path, create) ∷ [];
            node = length t.nodes;
            recurse = inherits change parent;
          }))
  unfolding discover id_from
  discover_lem room searched t' linked q there same = ground arith

  -- The new node is in the tree, and last in the directory of its parent.
  abbrev pub IsListed : FileTree H → Type 0
  IsListed tree =
      ((n : FsNode) × (get_elem? tree.nodes (length t.nodes) ≡ some n)
        × (n.path ≡ change.path)
        × (n.meta ≡ node_meta fs_meta)
        × (n.inode ≡ fs_meta.inode)
        × (n.flags ≡ (if inherits change parent then recursive_flags else no_flags)))
      × ((q : FsNode) × (ids : List ℕ) × (get_elem? tree.nodes p ≡ some q)
          × (q.path ≡ parent.path)
          × (get_elem? tree.dirs q.children ≡ some (ids ++ length t.nodes ∷ [])))

  -- A change of a path that the tree does not know and that the file system has, where the search for
  -- the parent comes to a node: on a valid tree with room, `apply_change` does not panic, keeps the tree
  -- valid and returns the new node, which has the metadata of the file system and stands last in the
  -- directory of its parent. It is recursive, and to be crawled, if the change asks for it or the
  -- parent is recursive. A creation is emitted unless it is a directory.
  pub apply_change_discovered :
      index_of change.path (map node_path t.nodes) ≡ none
      → get_elem? t.nodes p ≡ some parent
      → find_parent H m (entered H t change.path).path_table t.nodes change.path ≡ some (some p)
      → length t.nodes < none_id
      → length t.dirs + 1 < none_id
      → (r : Applied H) × (apply_change H m t change (some fs_meta) ≡ some r)
        × IsValid H r.tree
        × (r.node ≡ length t.nodes)
        × (r.emitted ≡ (if fs_meta.is_dir then [] else (change.path, create) ∷ []))
        × (r.recurse ≡ inherits change parent)
        × IsListed r.tree
  unfolding apply_change apply_found
  apply_change_discovered fresh at searched room space =
      let n : FsNode = fresh_node change fs_meta parent in
      let (t', (linked, v', same_nodes, few, (d, ids, there, listed))) =
        Linked-IsValid H t v n p parent fresh room (omega (arith, space)) refl at in
      let found =
        discover_lem room searched t' linked (record parent { children = d }) there refl in
      let there' = get_elem?_of_at_id t'.nodes p there in
      let last = rw same_nodes at (get_elem?_end t'.nodes n) in
      let result : FileTree H → Applied H = λ tree. record {
        tree = tree;
        emitted = if fs_meta.is_dir then [] else (change.path, create) ∷ [];
        node = length t.nodes;
        recurse = inherits change parent;
      } in
      elim (Bool-cases reserves) [
        | inr keep ↦ (
          result (pushed H t' n),
          rw (node_find H t v change.path) (rw fresh (found ∙ rw keep refl)),
          v',
          refl,
          refl,
          refl,
          (
            (n, last, refl, refl, refl, refl),
            (
              record parent { children = d },
              ids,
              get_elem?-append_one t'.nodes p n there',
              refl,
              listed,
            ),
          ),
        )
        | inl reserve ↦
            let (r, reserved, w, nodes', dirs', _) =
              reserve_dir-IsValid H (pushed H t' n) v' (length t.nodes) n last
                (omega (arith, few, space)) in
            (
              result r,
              rw (node_find H t v change.path) (rw fresh (found ∙ rw (reserve, reserved) refl)),
              w,
              refl,
              refl,
              refl,
              (
                (
                  record n { children = length t'.dirs },
                  rw nodes' (
                      get_elem?-set_self (t'.nodes ++ n ∷ []) (length t.nodes) _
                        (get_elem?_lt (t'.nodes ++ n ∷ []) (length t.nodes) last)),
                  refl,
                  refl,
                  refl,
                  refl,
                ),
                (
                  record parent { children = d },
                  ids,
                  rw nodes' (
                      get_elem?-set_other (t'.nodes ++ n ∷ []) (length t.nodes) p _
                        (omega (arith, get_elem?_lt t.nodes p at))
                      ∙ get_elem?-append_one t'.nodes p n there'),
                  refl,
                  rw dirs' (get_elem?-append_one t'.dirs d [] listed),
                ),
              ),
            )
      ]
