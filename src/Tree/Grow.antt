-- ===== src/Tree/Grow.antt =====
-- How the tree grows by a node: the push of a node with its table entry, and `add_child`.
pub mod Linked
pub mod Sizes
use filesentry.Common.{
  ℕ, zero, suc, ◌≡◌, ◌<◌, ◌≤◌, ◌+◌, ◌-◌, ◌^◌, ◌%◌, refl, ap, ◌∙◌, sym, Bool, true, false, not,
  Option, none, some, List, [], ◌∷◌, ◌++◌, arith, length, get_elem?, set, map, In, ◌>>=◌,
  if◌then◌else◌, ◌==◌, length-append, length-set, subst, get_elem?-append_cases, get_elem?_lt,
  Bool-cases, In-append_one, inl, inr, ◌⊎◌, get_elem?_of_lt, get_elem?-set_self,
}
use filesentry.Path.{CanonicalPathBuf}
use filesentry.HashTable.{Hashing, hash_path}
use filesentry.HashTable.Index.{index_of, Indexes}
use mathlib.Core.Path.{fun_ext}
use filesentry.HashTable.Keyed.{insert_item, item_hash}
use filesentry.Tree.{
  FileTree, FsNode, node_path, node_hash, at_id, none_id, is_some_id, set_node, reserve_dir,
  add_child, dir_of, id_from,
}
use filesentry.Tree.Valid.{IsValid, at_id_of_lt, reserve_dir-IsValid, get_elem?-set_cases}

pub get_elem?_end :
    {A : Type 0} (xs : List A) (x : A) → get_elem? (xs ++ x ∷ []) (length xs) ≡ some x
get_elem?_end [] x = refl
get_elem?_end (y ∷ xs) x = get_elem?_end xs x

pub get_elem?-set_other :
    {A : Type 0} (xs : List A) (i j : ℕ) (v : A) → j < i → get_elem? (set xs i v) j ≡ get_elem? xs j
get_elem?-set_other [] i j v l = refl
get_elem?-set_other (x ∷ xs) zero j v l = absurd (omega (arith, l))
get_elem?-set_other (x ∷ xs) (suc i) zero v l = refl
get_elem?-set_other (x ∷ xs) (suc i) (suc j) v l = get_elem?-set_other xs i j v (omega (arith, l))

pub get_elem?-append_one :
    {A : Type 0} (xs : List A) (i : ℕ) (x : A) {a : A}
    → get_elem? xs i ≡ some a
    → get_elem? (xs ++ x ∷ []) i ≡ some a
get_elem?-append_one [] i x h = ground arith
get_elem?-append_one (y ∷ xs) zero x h = h
get_elem?-append_one (y ∷ xs) (suc i) x h = get_elem?-append_one xs i x h

pub set-append_left :
    {A : Type 0} (xs : List A) (i : ℕ) (x v : A)
    → i < length xs
    → set (xs ++ x ∷ []) i v ≡ set xs i v ++ x ∷ []
set-append_left [] i x v l = absurd (omega (arith, l))
set-append_left (y ∷ xs) zero x v l = refl
set-append_left (y ∷ xs) (suc i) x v l = ap (◌∷◌ y) (set-append_left xs i x v (omega (arith, l)))

pub at_id_small :
    {A : Type 0} (items : List A) (i : ℕ) (a : A)
    → i < none_id
    → get_elem? items i ≡ some a
    → at_id items i ≡ some a
unfolding at_id
at_id_small items i a l h = ground arith

module _ (H : Hashing) where
  -- The push of a node.
  abbrev pub pushed : FileTree H → FsNode → FileTree H
  pushed t n = record t { nodes = t.nodes ++ n ∷ [] }

  -- The entry of the next node in the path table.
  abbrev pub entered : FileTree H → CanonicalPathBuf → FileTree H
  entered t p = record t {
    path_table = H.insert t.path_table (hash_path H p) (length t.nodes) (node_hash H t.nodes);
  }

  -- A new path, with its entry and its node.
  pub pushed-IsValid :
      (t : FileTree H) (v : IsValid H t) (n : FsNode)
      → index_of n.path (map node_path t.nodes) ≡ none
      → length t.nodes < none_id
      → n.children ≡ none_id
      → IsValid H (pushed (entered t n.path) n)
  pushed-IsValid t v n fresh room leaf = record {
    indexed = entry;
    few_nodes = omega (arith, length-append {0} t.nodes (n ∷ []), room);
    few_dirs = v.few_dirs;
    has_dir = λ i m e s. elim (get_elem?-append_cases t.nodes n i e) [
      | inl there ↦ v.has_dir i m there s
      | inr (_, q) ↦ ground arith
    ];
    has_node =
        λ d i ids e m. omega (arith, length-append {0} t.nodes (n ∷ []), v.has_node d i ids e m);
  }
    where
      exact : length t.nodes % 2 ^ 32 ≡ length t.nodes
      exact = omega (arith, room)

      same : node_hash H t.nodes ≡ item_hash H node_path t.nodes
      same = fun_ext λ i.
          ap (λ o. o >>= λ node. some (hash_path H (node_path node)))
            (at_id_of_lt t.nodes i v.few_nodes)

      entry :
          Indexes H
            (H.insert t.path_table (hash_path H n.path) (length t.nodes) (node_hash H t.nodes))
            (map node_path (t.nodes ++ n ∷ []))
      entry = rw same (
          rw exact at
            (insert_item node_path H t.path_table t.nodes v.indexed n fresh (omega (arith, room))))

  -- One more entry in a directory.
  pub listed-IsValid :
      (t : FileTree H) (v : IsValid H t) (d child : ℕ) (ids : List ℕ)
      → get_elem? t.dirs d ≡ some ids
      → child < length t.nodes
      → IsValid H (record t { dirs = set t.dirs d (ids ++ child ∷ []) })
  listed-IsValid t v d child ids at small = record {
    indexed = v.indexed;
    few_nodes = v.few_nodes;
    few_dirs = omega (arith, length-set {0} t.dirs d (ids ++ child ∷ []), v.few_dirs);
    has_dir =
        λ i m e s. omega (arith, length-set {0} t.dirs d (ids ++ child ∷ []), v.has_dir i m e s);
    has_node = λ k i js e m. elim (get_elem?-set_cases t.dirs d k (ids ++ child ∷ []) e) [
      | inl there ↦ v.has_node k i js there m
      | inr (q, _) ↦ elim (In-append_one ids child i (subst (λ (xs : List ℕ). In i xs) q m)) [
        | inl old ↦ v.has_node d i ids at old
        | inr new ↦ rw new small
      ]
    ];
  }

  pub add_child-listed :
      (t : FileTree H) (p child : ℕ) (node : FsNode) (ids : List ℕ)
      → at_id t.nodes p ≡ some node
      → is_some_id node.children ≡ true
      → at_id t.dirs node.children ≡ some ids
      → add_child H t p child
        ≡ some (record t { dirs = set t.dirs node.children (ids ++ child ∷ []) })
  unfolding add_child dir_of
  add_child-listed t p child node ids at kids here = ground arith

  pub add_child-first :
      (t : FileTree H) (p child : ℕ) (node : FsNode)
      → at_id t.nodes p ≡ some node
      → is_some_id node.children ≡ false
      → length t.dirs < none_id
      → at_id (t.dirs ++ [] ∷ []) (length t.dirs) ≡ some []
      → add_child H t p child
        ≡ some (record t {
          nodes = set t.nodes p (record node { children = length t.dirs });
          dirs = set (t.dirs ++ [] ∷ []) (length t.dirs) (child ∷ []);
        })
  unfolding add_child dir_of reserve_dir id_from set_node
  add_child-first t p child node at kids room here = ground arith
