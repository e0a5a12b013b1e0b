-- ===== src/Tree/Grow/Linked.antt =====
-- A new node with its table entry and its place in the directory of its parent.
use filesentry.Common.{
  ℕ, ◌≡◌, ◌<◌, ◌≤◌, ◌+◌, refl, ap, ◌∙◌, sym, true, false, none, some, List, [], ◌∷◌, ◌++◌, arith,
  length, get_elem?, set, map, length-append, length-set, get_elem?_lt, Bool-cases, inl, inr, ◌⊎◌,
  get_elem?_of_lt, get_elem?-set_self,
}
use filesentry.HashTable.{Hashing}
use filesentry.HashTable.Index.{index_of}
use filesentry.Tree.{FileTree, FsNode, node_path, at_id, none_id, is_some_id, add_child}
use filesentry.Tree.Valid.{IsValid, at_id_of_lt, reserve_dir-IsValid}
use filesentry.Tree.Grow.{
  get_elem?_end, get_elem?-append_one, set-append_left, at_id_small, pushed, entered,
  pushed-IsValid, listed-IsValid, add_child-listed, add_child-first,
}

module _ (H : Hashing) where
  -- The tree in which the next id is listed under the node `p`, last in its directory, and nothing
  -- else of that node differs; with the node `n` pushed it is valid.
  abbrev pub Linked : FileTree H → FsNode → ℕ → FsNode → FileTree H → Type 0
  Linked t n p node t' =
      (add_child H (entered H t n.path) p (length t.nodes) ≡ some t')
      × IsValid H (pushed H t' n)
      × (length t'.nodes ≡ length t.nodes)
      × (length t'.dirs ≤ length t.dirs + 1)
      × ((d : ℕ) × (ids : List ℕ) × (at_id t'.nodes p ≡ some (record node { children = d }))
          × (get_elem? t'.dirs d ≡ some (ids ++ length t.nodes ∷ [])))

  -- A new path is entered, listed in the directory of a node, and pushed: on a valid tree with room
  -- for a node and a directory nothing panics and the result is valid.
  pub Linked-IsValid :
      (t : FileTree H) (v : IsValid H t) (n : FsNode) (p : ℕ) (node : FsNode)
      → index_of n.path (map node_path t.nodes) ≡ none
      → length t.nodes < none_id
      → length t.dirs < none_id
      → n.children ≡ none_id
      → get_elem? t.nodes p ≡ some node
      → (t' : FileTree H) × Linked t n p node t'
  Linked-IsValid t v n p node fresh room space leaf at =
      by_dir (Bool-cases (is_some_id node.children))
    where
      at' : at_id t.nodes p ≡ some node
      at' = at_id_of_lt t.nodes p v.few_nodes ∙ at

      v' : IsValid H (pushed H (entered H t n.path) n)
      v' = pushed-IsValid H t v n fresh room leaf

      in_range : length t.nodes < length (t.nodes ++ n ∷ [])
      in_range = omega (arith, length-append {0} t.nodes (n ∷ []))

      by_dir :
          (is_some_id node.children ≡ true) ⊎ (is_some_id node.children ≡ false)
          → (t' : FileTree H) × Linked t n p node t'
      by_dir (inl kids) =
          let (ids, here) = get_elem?_of_lt t.dirs node.children (v.has_dir p node at kids) in
          let here' = at_id_of_lt t.dirs node.children v.few_dirs ∙ here in
          let listed = ids ++ length t.nodes ∷ [] in
          (
            record (entered H t n.path) { dirs = set t.dirs node.children listed },
            (
              add_child-listed H (entered H t n.path) p (length t.nodes) node ids at' kids here',
              listed-IsValid H (pushed H (entered H t n.path) n) v' node.children (length t.nodes)
                  ids here in_range,
              refl,
              omega (arith, length-set {0} t.dirs node.children listed),
              (
                node.children,
                ids,
                at',
                get_elem?-set_self t.dirs node.children listed
                    (get_elem?_lt t.dirs node.children here),
              ),
            ),
          )
      by_dir (inr none_yet) =
          let node' : FsNode = record node { children = length t.dirs } in
          let (r, _, w, nodes', dirs', table') =
            reserve_dir-IsValid H (pushed H (entered H t n.path) n) v' p node
              (get_elem?-append_one t.nodes p n at) space in
          let empty_dir = get_elem?_end t.dirs [] in
          let more = length-append {0} t.dirs ([] ∷ []) in
          let bound : length (t.nodes ++ n ∷ []) ≡ length r.nodes =
            sym (ap length nodes' ∙ length-set {0} (t.nodes ++ n ∷ []) p node') in
          let full =
            listed-IsValid H r w (length t.dirs) (length t.nodes) [] (rw dirs' empty_dir)
              (omega (arith, bound, in_range)) in
          let inside = get_elem?_lt t.nodes p at in
          (
            record (entered H t n.path) {
              nodes = set t.nodes p node';
              dirs = set (t.dirs ++ [] ∷ []) (length t.dirs) (length t.nodes ∷ []);
            },
            (
              add_child-first H (entered H t n.path) p (length t.nodes) node at' none_yet space
                  (at_id_small (t.dirs ++ [] ∷ []) (length t.dirs) [] space empty_dir),
              rw (set-append_left t.nodes p n node' inside) at (rw (nodes', dirs', table') at full),
              length-set {0} t.nodes p node',
              omega (
                arith,
                more,
                length-set {0} (t.dirs ++ [] ∷ []) (length t.dirs) (length t.nodes ∷ []),
              ),
              (
                length t.dirs,
                [],
                at_id_of_lt (set t.nodes p node') p
                      (omega (arith, length-set {0} t.nodes p node', v.few_nodes))
                    ∙ get_elem?-set_self t.nodes p node' inside,
                get_elem?-set_self (t.dirs ++ [] ∷ []) (length t.dirs) (length t.nodes ∷ [])
                    (omega (arith, more)),
              ),
            ),
          )
