-- ===== src/Tree/Change/Parents.antt =====
-- The search for a parent, when it does not meet the entry that was just put in.
use filesentry.HashTable.Index.{index_of}
use filesentry.Common.{
  ℕ, ◌≡◌, ◌∙◌, refl, Bool, none, some, Option, List, [], ◌∷◌, ◌>>=◌, arith, get_elem?,
  get_elem?_of_lt, inl, inr, Option-cases, Bool-cases, get_elem?_lt, get_elem?-map_bind, length,
  map, In, length-map, subst, sym,
}
use filesentry.Path.{Memrchr, CanonicalPathBuf, parent, eq_os_str}
use filesentry.HashTable.{Hashing, find, find_in, hash_path}
use filesentry.Metadata.{Metadata}
use filesentry.Pending.{PendingChange}
use filesentry.Tree.{FileTree, FsNode, node_path, node_hash, at_id}
use filesentry.Tree.Valid.{IsValid, at_id_of_lt}
use filesentry.Tree.Grow.{entered}
use filesentry.Tree.Change.{find_parent}
use filesentry.Tree.Change.Total.{Searched}

find_in_total :
    (vs : List ℕ) (eq : ℕ → Option Bool)
    → ((v : ℕ) → In v vs → (hit : Bool) × (eq v ≡ some hit))
    → (found : Option ℕ) × (find_in vs eq ≡ some found) × ((p : ℕ) → found ≡ some p → In p vs)
unfolding find_in
find_in_total [] eq h = (none, refl, λ p e. ground arith)
find_in_total (v ∷ vs) eq h =
    let (found, e, inside) = find_in_total vs eq (λ w m. h w (inr m)) in
    let (hit, f) = h v (inl refl) in
    elim (Bool-cases hit) [
      | inl here ↦ (some v, ground arith, λ p q. inl (ground arith))
      | inr there ↦ (found, ground arith, λ p q. inr (inside p q))
    ]

module _ (H : Hashing) (m : Memrchr) where
  -- If the file system has a path and the tree does not know it, the search for its parent does not call
  -- the closure on the id that was just inserted for the path. Else there is no search.
  abbrev pub SearchApart : FileTree H → CanonicalPathBuf → Option Metadata → Type 0
  SearchApart t p fs_meta =
      (found : Metadata)
      → fs_meta ≡ some found
      → index_of p (map node_path t.nodes) ≡ none
      → (up : List ℕ) → parent m p.buf ≡ some up
      → ¬ In (length t.nodes) (H.probe (entered H t p).path_table (H.hash_one up))

  module _ (t : FileTree H) (v : IsValid H t) where
    keyed :
        (node : FsNode) (k : CanonicalPathBuf) (i : ℕ)
        → get_elem? t.nodes i ≡ some node
        → get_elem? (map node_path t.nodes) i ≡ some k
        → node.path ≡ k
    keyed node k i at e = ground (arith, get_elem?-map_bind node_path some t.nodes i)

    indexed_node :
        (g i : ℕ)
        → In {A = ℕ × ℕ} (g, i) (H.stored t.path_table)
        → (node : FsNode) × (at_id t.nodes i ≡ some node) × (node_hash H t.nodes i ≡ some g)
    indexed_node g i mem =
        let (k, e, q) = v.indexed.in_range g i mem in
        let (node, at) =
          get_elem?_of_lt t.nodes i (
            omega
              (arith, length-map node_path t.nodes, get_elem?_lt (map node_path t.nodes) i e)) in
        let here = at_id_of_lt t.nodes i v.few_nodes ∙ at in
        (node, here, (rw here (ground (arith, q, keyed node k i at e))))

    probed :
        (p : CanonicalPathBuf) (h i : ℕ)
        → In i (H.probe (entered H t p).path_table h)
        → ¬ (i ≡ length t.nodes)
        → (node : FsNode) × (at_id t.nodes i ≡ some node)
    probed p h i mem other =
        let (g, s) = H.probe_stored (entered H t p).path_table h i mem in
        elim (H.insert_only t.path_table (hash_path H p) (length t.nodes) (node_hash H t.nodes)
          (λ f w k. (indexed_node f w k).2) g i s) [
            | inl (_, q) ↦ absurd (other q)
            | inr old ↦ ((indexed_node g i old).0, (indexed_node g i old).1)
          ]

    probed_node :
        (change : PendingChange) (up : List ℕ) (i : ℕ)
        → ¬ In (length t.nodes) (H.probe (entered H t change.path).path_table (H.hash_one up))
        → In i (H.probe (entered H t change.path).path_table (H.hash_one up))
        → (node : FsNode) × (get_elem? t.nodes i ≡ some node)
    probed_node change up i away mem =
        let (node, at) = probed change.path (H.hash_one up) i mem (λ q. away (
          subst (λ x. In x (H.probe (entered H t change.path).path_table (H.hash_one up))) q
            mem)) in
        (node, sym (at_id_of_lt t.nodes i v.few_nodes) ∙ at)

    searched_none :
        (change : PendingChange)
        → parent m change.path.buf ≡ none
        → find_parent H m (entered H t change.path).path_table t.nodes change.path ≡ some none
    unfolding find_parent
    searched_none change e = ground arith

    searched_up :
        (change : PendingChange) (up : List ℕ) (found : Option ℕ)
        → parent m change.path.buf ≡ some up
        → find_in
            (H.probe (entered H t change.path).path_table (H.hash_one up))
            (λ id. at_id t.nodes id >>= λ node. some (eq_os_str node.path up))
          ≡ some found
        → find_parent H m (entered H t change.path).path_table t.nodes change.path ≡ some found
    unfolding find_parent find
    searched_up change up found e f = ground arith

    -- Then the search for the parent returns, and what it finds is a node.
    pub Searched_of_apart :
        (change : PendingChange) (fs_meta : Option Metadata)
        → SearchApart t change.path fs_meta
        → (found : Metadata) → fs_meta ≡ some found
        → index_of change.path (map node_path t.nodes) ≡ none
        → Searched H m t v change
    Searched_of_apart change fs_meta apart found met fresh =
        elim (Option-cases (parent m change.path.buf)) [
          | inl no_parent ↦ (none, searched_none change no_parent, λ p q. ground arith)
          | inr (up, has_parent) ↦
              let away : ¬ In (length t.nodes)
                  (H.probe (entered H t change.path).path_table (H.hash_one up)) =
                apart found met fresh up has_parent in
              let (found, e1, inside) =
                find_in_total (H.probe (entered H t change.path).path_table (H.hash_one up))
                  (λ id. at_id t.nodes id >>= λ node. some (eq_os_str node.path up))
                  (λ i mem.
                    let (node, at) = probed_node change up i away mem in
                    (eq_os_str node.path up, rw (at_id_of_lt t.nodes i v.few_nodes ∙ at) refl)) in
              (
                found,
                searched_up change up found has_parent e1,
                λ p q. get_elem?_lt t.nodes p (probed_node change up p away (inside p q)).1,
              )
        ]
