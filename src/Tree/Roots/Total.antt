-- ===== src/Tree/Roots/Total.antt =====
-- `add` of any path, whatever the file system has.
use filesentry.Common.{
  ℕ, ◌≡◌, ◌<◌, ◌≤◌, ◌+◌, refl, sym, Bool, true, false, not, ◌&&◌, ◌||◌, Option, none, some, ◌>>=◌,
  if◌then◌else◌, ◌==◌, arith, length, get_elem?_of_lt, get_elem?_lt, map, inl, inr, Option-cases,
  Bool-cases, >>=-then,
}
use filesentry.Path.{Memrchr, CanonicalPathBuf}
use filesentry.HashTable.{Hashing, find, hash_path}
use filesentry.HashTable.Index.{index_of}
use filesentry.HashTable.Keyed.{occupied}
use filesentry.Pending
use filesentry.Pending.{PendingChange}
use filesentry.Metadata.{Metadata}
use filesentry.Tree.{
  FileTree, at_id, id_from, none_id, set_node, reserve_dir, node_path, node_eq, node_hash,
  insert_recursive, contains_recursive, is_dir,
}
use filesentry.Tree.Valid.{IsValid, node_find}
use filesentry.Tree.Grow.{entered, pushed}
use filesentry.Tree.Grow.Sizes.{
  Grows, Grows-trans, Grows-weaken, set_node-Grows, pushed-Grows, add_child-Grows,
  get_elem?_of_at_id,
}
use filesentry.Tree.Delete.Weight.{children_at_node}
use filesentry.Tree.Change.{find_parent}
use filesentry.Tree.Change.Sizes.{Grows-of_same, retabled-Grows, maybe_reserved-Grows}
use filesentry.Tree.Change.Total.{rejected, rejected-IsValid}
use filesentry.Tree.Change.Parents.{SearchApart, Searched_of_apart}
use filesentry.Tree.Roots.{add, add_found, insert_added, rewatch, link, is_linked}
use filesentry.Tree.Roots.Added.{added_node, add_fresh, add_again, upgrades, InPlace}

module _ (H : Hashing) (m : Memrchr) where
  Grows-of_pair :
      {A : Type 0} (t t' : FileTree H) (a b : A)
      → ◌≡◌ {A = Option (FileTree H × A)} (some (t, a)) (some (t', b))
      → Grows H 0 0 t t'
  Grows-of_pair t t' a b e = let same : t ≡ t' = ground arith in Grows-of_same H same

  rewatch-Grows :
      (t t' : FileTree H) (recursive root : Bool) (id : ℕ) (added : Option ℕ)
      → rewatch H t recursive root id ≡ some (t', added)
      → Grows H 0 0 t t'
  unfolding rewatch
  rewatch-Grows t t' false root id added h = Grows-of_pair t t' none added h
  rewatch-Grows t t' true root id added h = >>=-then (at_id t.nodes id) _ h λ node at rest.
      elim (Bool-cases ((root && not (is_dir node.meta)) || contains_recursive node.flags)) [
        | inl refused ↦ Grows-of_pair t t' none added (rw refused at rest)
        | inr accepted ↦
            let node' = record node { flags = insert_recursive node.flags } in
            >>=-then (set_node H t id node') _ (rw accepted at rest) λ u wrote last.
              Grows-trans H
                (set_node-Grows H t u id node' wrote
                  (sym (children_at_node t.nodes id (get_elem?_of_at_id t.nodes id at))))
                (Grows-of_pair u t' (some id) added last)
      ]

  link-Grows :
      (t t' : FileTree H) (id : ℕ) (up : Option ℕ) → link H m t id up ≡ some t' → Grows H 0 1 t t'
  unfolding link
  link-Grows t t' id none h =
      Grows-weaken H (Grows-of_same H (ground arith)) (omega arith) (omega arith)
  link-Grows t t' id (some p) h = add_child-Grows H t t' p id h

  module _ (path : CanonicalPathBuf) (recursive root : Bool) where
    insert_added-Grows :
        (t t' : FileTree H) (fs_meta : Metadata) (added : Option ℕ)
        → insert_added H m t path recursive root fs_meta ≡ some (t', added)
        → length t.dirs < none_id
        → Grows H 1 2 t t'
    unfolding insert_added
    insert_added-Grows t t' fs_meta added h few =
        >>=-then (id_from (length t.nodes)) _ h λ id small rest.
          let t1 : FileTree H = record t {
            path_table = H.insert t.path_table (hash_path H path) id (node_hash H t.nodes);
          } in
          >>=-then (find_parent H m t1.path_table t.nodes path) _ rest λ up searched rest'.
            elim (Bool-cases (not (is_linked H m up) && not root)) [
              | inl refused ↦
                  Grows-weaken H
                    (Grows-trans H (retabled-Grows H t _) (
                      Grows-of_pair
                        (record t { path_table = H.remove t1.path_table (hash_path H path) id }) t'
                        none added (rw refused at rest')))
                    (omega arith) (omega arith)
              | inr accepted ↦
                  >>=-then (link H m t1 id up) _ (rw accepted at rest') λ linked done rest1.
                    let n = added_node path recursive root fs_meta in
                    let g = link-Grows t1 linked id up done in
                    let room : length linked.dirs ≤ none_id = omega (arith, g.few_more_dirs, few) in
                    let grown = pushed H linked n in
                    >>=-then
                      (if fs_meta.is_dir && ((recursive || root) && not (fs_meta.size == 0))
                        then (reserve_dir H grown id >>= λ r. some (r.0))
                        else some grown)
                      _ rest1
                      λ w made last.
                        Grows-trans H (Grows-trans H (retabled-Grows H t t1.path_table) g) (
                          Grows-trans H (pushed-Grows H linked n room) (
                            Grows-trans H (maybe_reserved-Grows H _ grown w id made)
                              (Grows-of_pair w t' (some id) added last)))
            ]

    add_found-Grows :
        (t t' : FileTree H) (fs_meta : Option Metadata) (entry added : Option ℕ)
        → add_found H m t path recursive root fs_meta entry ≡ some (t', added)
        → length t.dirs < none_id
        → Grows H 1 2 t t'
    unfolding add_found
    add_found-Grows t t' fs_meta (some id) added h few =
        Grows-weaken H (rewatch-Grows t t' recursive root id added h) (omega arith) (omega arith)
    add_found-Grows t t' (some fs_meta) none added h few =
        insert_added-Grows t t' fs_meta added h few
    add_found-Grows t t' none none added h few =
        Grows-weaken H (Grows-of_pair t t' none added h) (omega arith) (omega arith)

    pub add-Grows :
        (t t' : FileTree H) (fs_meta : Option Metadata) (added : Option ℕ)
        → add H m t path recursive root fs_meta ≡ some (t', added)
        → length t.dirs < none_id
        → Grows H 1 2 t t'
    unfolding add
    add-Grows t t' fs_meta added h few =
        >>=-then (find H t.path_table (hash_path H path) (node_eq t.nodes path)) _ h
          λ entry searched rest. add_found-Grows t t' fs_meta entry added rest few

module _ (H : Hashing) (m : Memrchr) (t : FileTree H) (v : IsValid H t) (path : CanonicalPathBuf)
    (recursive root : Bool) where
  abbrev at_path : PendingChange
  at_path = record { path = path; flags = Pending.empty }

  -- It returns a valid tree; the id, if there is one, is that of a node.
  abbrev Adds : Option (FileTree H × Option ℕ) → Type 0
  Adds result =
      (t' : FileTree H) × (added : Option ℕ) × (result ≡ some (t', added))
      × IsValid H t'
      × ((id : ℕ) → added ≡ some id → id < length t'.nodes)

  refused_lem :
      (fs_meta : Metadata)
      → length t.nodes < none_id
      → find_parent H m (entered H t path).path_table t.nodes path ≡ some none
      → root ≡ false
      → insert_added H m t path recursive root fs_meta ≡ some (rejected H m t v at_path, none)
  unfolding insert_added id_from is_linked rejected
  refused_lem fs_meta room searched no_root = ground arith

  fresh_total :
      (fs_meta : Metadata) (up : Option ℕ)
      → index_of path (map node_path t.nodes) ≡ none
      → length t.nodes < none_id
      → length t.dirs + 1 < none_id
      → find_parent H m (entered H t path).path_table t.nodes path ≡ some up
      → InPlace H m t v path recursive root fs_meta up
      → Adds (add H m t path recursive root (some fs_meta))
  fresh_total fs_meta up fresh room space searched in_place =
      let (t', e, w, (_, here, _, _, _, _)) =
        add_fresh H m t v path recursive root fs_meta up fresh room space searched in_place in
      (
        t',
        some (length t.nodes),
        e,
        w,
        λ id q. ground (arith, get_elem?_lt t'.nodes (length t.nodes) here),
      )

  new_total :
      (fs_meta : Metadata)
      → index_of path (map node_path t.nodes) ≡ none
      → length t.nodes < none_id
      → length t.dirs + 1 < none_id
      → (up : Option ℕ) → find_parent H m (entered H t path).path_table t.nodes path ≡ some up
      → ((p : ℕ) → up ≡ some p → p < length t.nodes)
      → Adds (add H m t path recursive root (some fs_meta))
  unfolding add add_found
  new_total fs_meta fresh room space (some p) searched in_range =
      fresh_total fs_meta (some p) fresh room space searched
        (get_elem?_of_lt t.nodes p (in_range p refl))
  new_total fs_meta fresh room space none searched in_range = elim (Bool-cases root) [
    | inl is_root ↦ fresh_total fs_meta none fresh room space searched is_root
    | inr no_root ↦ (
      rejected H m t v at_path,
      none,
      rw (node_find H t v path) (rw fresh (refused_lem fs_meta room searched no_root)),
      rejected-IsValid H m t v at_path,
      λ id q. ground arith,
    )
  ]

  which : (b : Bool) (id k : ℕ) → (if b then some id else none) ≡ some k → k ≡ id
  which true id k h = ground arith
  which false id k h = ground arith

  -- `add` of a terminated path returns on a valid tree with room, whatever the tree and the file system have.
  pub add_total :
      (fs_meta : Option Metadata)
      → SearchApart H m t path fs_meta
      → length t.nodes < none_id
      → length t.dirs + 1 < none_id
      → Adds (add H m t path recursive root fs_meta)
  unfolding add add_found
  add_total fs_meta apart room space = elim (Option-cases (index_of path (map node_path t.nodes))) [
    | inr (id, there) ↦
        let (old, at, _, _) = occupied node_path t.nodes path id there in
        let (t', e, w, same) = add_again H m t v path fs_meta recursive root id old there at in
        let grows = add-Grows H m path recursive root t t' fs_meta _ e (omega (arith, space)) in
        (
          t',
          (if upgrades recursive root old then some id else none),
          e,
          w,
          λ k q. omega (
            arith,
            which (upgrades recursive root old) id k q,
            get_elem?_lt t.nodes id at,
            grows.more_nodes,
          ),
        )
    | inl fresh ↦ by_meta fs_meta apart fresh
  ]
    where
      by_meta :
          (o : Option Metadata)
          → SearchApart H m t path o
          → index_of path (map node_path t.nodes) ≡ none
          → Adds (add H m t path recursive root o)
      by_meta none away fresh =
          (t, none, rw (node_find H t v path) (rw fresh refl), v, λ id q. ground arith)
      by_meta (some meta) away fresh =
          let (up, searched, in_range) =
            Searched_of_apart H m t v at_path (some meta) away meta refl fresh in
          new_total meta fresh room space up searched in_range
