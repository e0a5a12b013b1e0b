-- ===== src/Tree/Grow/Sizes.antt =====
-- By how much an operation may grow the tree, and that no node loses its directory.
use filesentry.Common.{
  ℕ, zero, suc, ◌≡◌, ◌<◌, ◌≤◌, ◌+◌, ◌∙◌, refl, ap, some, List, [], ◌∷◌, ◌++◌, arith, length,
  get_elem?, set, inl, inr, ◌⊎◌, >>=-then, length-set, length-append, Bool-cases, Option-cases,
  subst,
}
use filesentry.HashTable.{Hashing}
use filesentry.Tree.{
  FileTree, FsNode, at_id, id_from, is_some_id, none_id, set_node, reserve_dir, dir_of, add_child,
}
use filesentry.Tree.Delete.Weight.{children_at}

children_at-set_cases :
    (nodes : List FsNode) (i j : ℕ) (new : FsNode)
    → (children_at (set nodes i new) j ≡ children_at nodes j)
      ⊎ ((i ≡ j) × (children_at (set nodes i new) j ≡ new.children))
children_at-set_cases [] i j new = inl refl
children_at-set_cases (n ∷ nodes) zero zero new = inr (refl, refl)
children_at-set_cases (n ∷ nodes) zero (suc j) new = inl refl
children_at-set_cases (n ∷ nodes) (suc i) zero new = inl refl
children_at-set_cases (n ∷ nodes) (suc i) (suc j) new = elim (children_at-set_cases nodes i j new) [
  | inl e ↦ inl e
  | inr (e, q) ↦ inr (ap suc e, q)
]

children_at-append :
    (nodes : List FsNode) (n : FsNode) (j : ℕ)
    → children_at nodes j < none_id
    → children_at (nodes ++ n ∷ []) j ≡ children_at nodes j
children_at-append [] n j h = absurd (omega (arith, h))
children_at-append (x ∷ nodes) n zero h = refl
children_at-append (x ∷ nodes) n (suc j) h = children_at-append nodes n j h

pub get_elem?_of_at_id :
    {A : Type 0} (items : List A) (id : ℕ) {a : A}
    → at_id items id ≡ some a
    → get_elem? items id ≡ some a
unfolding at_id
get_elem?_of_at_id items id h = ground arith

module _ (H : Hashing) where
  -- At most `n` nodes and `d` directories more; a node that has a directory still has one.
  pub record Grows (n d : ℕ) (t t' : FileTree H) : Type 0 where
    pub more_nodes : length t.nodes ≤ length t'.nodes
    pub few_more_nodes : length t'.nodes ≤ length t.nodes + n
    pub more_dirs : length t.dirs ≤ length t'.dirs
    pub few_more_dirs : length t'.dirs ≤ length t.dirs + d
    pub still :
        (id : ℕ) → children_at t.nodes id < length t.dirs → children_at t'.nodes id < length t'.dirs

  pub Grows-refl : (t : FileTree H) → Grows 0 0 t t
  Grows-refl t = record {
    more_nodes = omega arith;
    few_more_nodes = omega arith;
    more_dirs = omega arith;
    few_more_dirs = omega arith;
    still = λ id h. h;
  }

  pub Grows-trans :
      {n d k e : ℕ} {t u w : FileTree H} → Grows n d t u → Grows k e u w → Grows (n + k) (d + e) t w
  Grows-trans a b = record {
    more_nodes = omega (arith, a.more_nodes, b.more_nodes);
    few_more_nodes = omega (arith, a.few_more_nodes, b.few_more_nodes);
    more_dirs = omega (arith, a.more_dirs, b.more_dirs);
    few_more_dirs = omega (arith, a.few_more_dirs, b.few_more_dirs);
    still = λ id h. b.still id (a.still id h);
  }

  pub Grows-weaken :
      {n d k e : ℕ} {t u : FileTree H} → Grows n d t u → n ≤ k → d ≤ e → Grows k e t u
  Grows-weaken a p q = record {
    more_nodes = a.more_nodes;
    few_more_nodes = omega (arith, a.few_more_nodes, p);
    more_dirs = a.more_dirs;
    few_more_dirs = omega (arith, a.few_more_dirs, q);
    still = a.still;
  }

  -- A node is written; it keeps its directory or gets one that is there.
  pub written-Grows :
      {d : ℕ} (t t' : FileTree H) (id : ℕ) (new : FsNode)
      → t'.nodes ≡ set t.nodes id new
      → length t.dirs ≤ length t'.dirs
      → length t'.dirs ≤ length t.dirs + d
      → (new.children ≡ children_at t.nodes id) ⊎ (new.children < length t'.dirs)
      → Grows 0 d t t'
  written-Grows {d} t t' id new nodes more few kids =
      let same : length t'.nodes ≡ length t.nodes =
        ap length nodes ∙ length-set {0} t.nodes id new in
      record {
        more_nodes = omega (arith, same);
        few_more_nodes = omega (arith, same);
        more_dirs = more;
        few_more_dirs = few;
        still = λ j h.
            let moved = ap (λ ns. children_at ns j) nodes in
            elim (children_at-set_cases t.nodes id j new) [
              | inl e ↦ omega (arith, moved, e, h, more)
              | inr (e, q) ↦ elim kids [
                | inl k ↦ omega (arith, moved, q, k, ap (children_at t.nodes) e, h, more)
                | inr l ↦ omega (arith, moved, q, l)
              ]
            ];
      }

  pub set_node-eq :
      (t t' : FileTree H) (id : ℕ) (node : FsNode)
      → set_node H t id node ≡ some t'
      → t' ≡ record t { nodes = set t.nodes id node }
  unfolding set_node
  set_node-eq t t' id node h = ground arith

  pub set_node-Grows :
      (t t' : FileTree H) (id : ℕ) (node : FsNode)
      → set_node H t id node ≡ some t'
      → node.children ≡ children_at t.nodes id
      → Grows 0 0 t t'
  set_node-Grows t t' id node h kids =
      let e = set_node-eq t t' id node h in
      let same : length t'.dirs ≡ length t.dirs = ap (λ (x : FileTree H). length (x.dirs)) e in
      written-Grows t t' id node (ap (λ (x : FileTree H). x.nodes) e) (omega (arith, same))
        (omega (arith, same)) (inl kids)

  reserve_dir-eq :
      (t t' : FileTree H) (id dir_id : ℕ)
      → reserve_dir H t id ≡ some (t', dir_id)
      → (node : FsNode) × (t'.nodes ≡ set t.nodes id (record node { children = length t.dirs }))
        × (t'.dirs ≡ t.dirs ++ [] ∷ [])
  unfolding reserve_dir set_node id_from
  reserve_dir-eq t t' id dir_id h = elim (Option-cases (at_id t.nodes id)) [
    | inl e ↦ absurd (ground arith)
    | inr (node, e) ↦ (node, ground arith, ground arith)
  ]

  pub reserve_dir-Grows :
      (t t' : FileTree H) (id dir_id : ℕ) → reserve_dir H t id ≡ some (t', dir_id) → Grows 0 1 t t'
  reserve_dir-Grows t t' id dir_id h =
      let (node, nodes, dirs) = reserve_dir-eq t t' id dir_id h in
      let longer = ap length dirs ∙ length-append {0} t.dirs ([] ∷ []) in
      written-Grows t t' id (record node { children = length t.dirs }) nodes (omega (arith, longer))
        (omega (arith, longer)) (inr (omega (arith, longer)))

  -- An entry is added to a directory.
  listed-Grows :
      (t t' : FileTree H) (d : ℕ) (ids : List ℕ)
      → t' ≡ record t { dirs = set t.dirs d ids }
      → Grows 0 0 t t'
  listed-Grows t t' d ids e =
      let nodes : t'.nodes ≡ t.nodes = ap (λ (x : FileTree H). x.nodes) e in
      let same : length t'.dirs ≡ length t.dirs =
        ap (λ (x : FileTree H). length (x.dirs)) e ∙ length-set {0} t.dirs d ids in
      record {
        more_nodes = omega (arith, ap length nodes);
        few_more_nodes = omega (arith, ap length nodes);
        more_dirs = omega (arith, same);
        few_more_dirs = omega (arith, same);
        still = λ j h. omega (arith, same, h, ap (λ ns. children_at ns j) nodes);
      }

  dir_of-Grows :
      (t t' : FileTree H) (id : ℕ) (node : FsNode) (dir_id : ℕ)
      → dir_of H t id node ≡ some (t', dir_id)
      → Grows 0 1 t t'
  unfolding dir_of
  dir_of-Grows t t' id node dir_id h = elim (Bool-cases (is_some_id node.children)) [
    | inl kids ↦
        let same : t ≡ t' = ground arith in
        subst (Grows 0 1 t) same (Grows-weaken (Grows-refl t) (omega arith) (omega arith))
    | inr none' ↦ reserve_dir-Grows t t' id dir_id (ground arith)
  ]

  pub pushed-Grows :
      (t : FileTree H) (n : FsNode)
      → length t.dirs ≤ none_id
      → Grows 1 0 t (record t { nodes = t.nodes ++ n ∷ [] })
  pushed-Grows t n few =
      let longer = length-append {0} t.nodes (n ∷ []) in
      record {
        more_nodes = omega (arith, longer);
        few_more_nodes = omega (arith, longer);
        more_dirs = omega arith;
        few_more_dirs = omega arith;
        still = λ j h. omega (arith, h, children_at-append t.nodes n j (omega (arith, h, few)));
      }

  pub add_child-Grows :
      (t t' : FileTree H) (id child : ℕ) → add_child H t id child ≡ some t' → Grows 0 1 t t'
  unfolding add_child dir_of
  add_child-Grows t t' id child h = >>=-then (at_id t.nodes id) _ h λ node at rest.
      >>=-then (dir_of H t id node) _ rest λ r made rest'.
        >>=-then (at_id r.0.dirs r.1) _ rest' λ ids there last.
          Grows-trans (dir_of-Grows t r.0 id node r.1 made)
            (listed-Grows r.0 t' r.1 (ids ++ child ∷ []) (ground arith))
