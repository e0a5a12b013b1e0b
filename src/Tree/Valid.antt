-- ===== src/Tree/Valid.antt =====
-- The invariant of the tree, and the helpers that keep it.
use mathlib.Core.Path.{fun_ext}
use filesentry.Common.{
  ℕ, zero, suc, ◌≡◌, ◌<◌, ◌≤◌, refl, ap, ◌∙◌, true, ◌⊎◌, inl, inr, some, List, [], ◌∷◌, ◌++◌, arith,
  length, get_elem?, set, map, In, ◌>>=◌, ◌==◌, get_elem?_lt, length-set, length-append, Bool-cases,
  Option-cases, get_elem?-append_cases, subst,
}
use filesentry.Path.{CanonicalPathBuf, path_eq}
use filesentry.HashTable.{Hashing, find, hash_path}
use filesentry.HashTable.Index.{Indexes, index_of, Indexes-empty}
use filesentry.HashTable.Keyed.{item_eq, find_item, set_item}
use filesentry.Tree.{
  FileTree, FsNode, node_path, at_id, is_some_id, none_id, node_eq, set_node, reserve_dir,
}

-- An index below `u32::MAX` is an id.
pub at_id_of_lt :
    {A : Type 0} (items : List A) (id : ℕ)
    → length items ≤ none_id
    → at_id items id ≡ get_elem? items id
unfolding at_id
at_id_of_lt items id small = elim (Bool-cases (id == none_id)) [
  | inl e ↦ elim (Option-cases (get_elem? items id)) [
    | inl n ↦ ground arith
    | inr (a, s) ↦ absurd (ground (arith, get_elem?_lt items id s))
  ]
  | inr e ↦ ground arith
]

pub get_elem?-set_cases :
    {A : Type 0} (xs : List A) (i j : ℕ) (v : A) {a : A}
    → get_elem? (set xs i v) j ≡ some a
    → (get_elem? xs j ≡ some a) ⊎ ((a ≡ v) × (i ≡ j))
get_elem?-set_cases [] i j v h = inl h
get_elem?-set_cases (x ∷ xs) zero zero v h = ground arith
get_elem?-set_cases (x ∷ xs) zero (suc j) v h = inl h
get_elem?-set_cases (x ∷ xs) (suc i) zero v h = inl h
get_elem?-set_cases (x ∷ xs) (suc i) (suc j) v h = elim (get_elem?-set_cases xs i j v h) [
  | inl e ↦ inl e
  | inr (e, q) ↦ inr (e, ap suc q)
]

module _ (H : Hashing) where
  -- The table indexes the nodes by their paths; a node's directory and a directory's entries exist; the
  -- ids fit.
  pub record IsValid (t : FileTree H) : Type 0 where
    pub indexed : Indexes H t.path_table (map node_path t.nodes)
    pub few_nodes : length t.nodes ≤ none_id
    pub few_dirs : length t.dirs ≤ none_id
    pub has_dir :
        (i : ℕ) (node : FsNode)
        → get_elem? t.nodes i ≡ some node
        → is_some_id node.children ≡ true
        → node.children < length t.dirs
    pub has_node :
        (d i : ℕ) (ids : List ℕ) → get_elem? t.dirs d ≡ some ids → In i ids → i < length t.nodes

  pub new-IsValid : IsValid (record { path_table = H.empty; nodes = []; dirs = [] })
  new-IsValid = record {
    indexed = Indexes-empty H;
    few_nodes = omega arith;
    few_dirs = omega arith;
    has_dir = λ i node e s. ground arith;
    has_node = λ d i ids e m. ground arith;
  }

  module _ (t : FileTree H) (v : IsValid t) where
    -- The search of the path table gives the node of a path, and does not panic.
    pub node_find :
        (p : CanonicalPathBuf)
        → find H t.path_table (hash_path H p) (node_eq t.nodes p)
          ≡ some (index_of p (map node_path t.nodes))
    node_find p =
        let e : node_eq t.nodes p ≡ item_eq node_path t.nodes p = fun_ext λ i.
          ap (λ o. o >>= λ node. some (path_eq (node_path node) p))
            (at_id_of_lt t.nodes i v.few_nodes) in
        rw e (find_item node_path H t.path_table t.nodes v.indexed p)

    -- A write of a node with the same path, whose directory exists.
    pub set_node-IsValid :
        (id : ℕ) (old node : FsNode)
        → get_elem? t.nodes id ≡ some old
        → node.path ≡ old.path
        → (is_some_id node.children ≡ true → node.children < length t.dirs)
        → (set_node H t id node ≡ some (record t { nodes = set t.nodes id node }))
          × IsValid (record t { nodes = set t.nodes id node })
    unfolding set_node
    set_node-IsValid id old node at same dir_ok = (
      rw (at_id_of_lt t.nodes id v.few_nodes) (rw at refl),
      record {
        indexed = set_item node_path H t.path_table t.nodes v.indexed id old node at same;
        few_nodes = omega (arith, length-set {0} t.nodes id node, v.few_nodes);
        few_dirs = v.few_dirs;
        has_dir = λ i n e s. elim (get_elem?-set_cases t.nodes id i node e) [
          | inl there ↦ v.has_dir i n there s
          | inr (q, _) ↦ ground (arith, dir_ok)
        ];
        has_node =
            λ d i ids e m. omega (arith, length-set {0} t.nodes id node, v.has_node d i ids e m);
      },
    )

    -- A new directory for a node.
    pub reserve_dir-IsValid :
        (id : ℕ) (node : FsNode)
        → get_elem? t.nodes id ≡ some node
        → length t.dirs < none_id
        → (t' : FileTree H) × (reserve_dir H t id ≡ some (t', length t.dirs))
          × IsValid t'
          × (t'.nodes ≡ set t.nodes id (record node { children = length t.dirs }))
          × (t'.dirs ≡ t.dirs ++ [] ∷ [])
          × (t'.path_table ≡ t.path_table)
    unfolding reserve_dir
    reserve_dir-IsValid id node at room =
        let node' : FsNode = record node { children = length t.dirs } in
        let longer = length-append {0} t.dirs ([] ∷ []) in
        let t' : FileTree H = record t { nodes = set t.nodes id node'; dirs = t.dirs ++ [] ∷ [] } in
        let at' = at_id_of_lt t.nodes id v.few_nodes ∙ at in
        (
          t',
          ground (arith, at'),
          record {
            indexed = set_item node_path H t.path_table t.nodes v.indexed id node node' at refl;
            few_nodes = omega (arith, length-set {0} t.nodes id node', v.few_nodes);
            few_dirs = omega (arith, longer);
            has_dir = λ i n e s. elim (get_elem?-set_cases t.nodes id i node' e) [
              | inl there ↦ omega (arith, longer, v.has_dir i n there s)
              | inr (q, _) ↦
                  let c : n.children ≡ length t.dirs = ap (λ (x : FsNode). x.children) q in
                  omega (arith, longer, c)
            ];
            has_node = λ d i ids e m. elim (get_elem?-append_cases t.dirs [] d e) [
              | inl there ↦
                  omega (arith, length-set {0} t.nodes id node', v.has_node d i ids there m)
              | inr (_, q) ↦ absurd (subst (λ (xs : List ℕ). In i xs) q m)
            ];
          },
          refl,
          refl,
          refl,
        )
