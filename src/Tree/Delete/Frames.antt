-- ===== src/Tree/Delete/Frames.antt =====
-- The stack of `delete_rec` on a valid tree, and its weight when a node is deleted or entered.
use filesentry.Common.{
  ℕ, zero, suc, ◌≡◌, ◌<◌, ◌≤◌, ◌+◌, ◌∙◌, refl, ◌&&◌, none, some, List, [], ◌∷◌, ◌++◌, arith, length,
  get_elem?, set, In, inl, inr, Option-cases, Bool-cases, if◌then◌else◌, get_elem?_of_lt, sym, ap,
}
use filesentry.HashTable.{Hashing}
use filesentry.Tree.{FileTree, FsNode, is_some_id, none_id, is_dir, deleted}
use filesentry.Tree.Valid.{IsValid, at_id_of_lt, set_node-IsValid}
use filesentry.Tree.Delete.{dir_length, entries, all_entries, set_deleted, descent}
use filesentry.Tree.Delete.Weight.{
  children_at, children_at_node, children_at-set, all_entries-set, stack_weight, stack_weight-set,
}

children_at-none :
    (nodes : List FsNode) (id : ℕ) → get_elem? nodes id ≡ none → children_at nodes id ≡ none_id
children_at-none [] id h = refl
children_at-none (n ∷ nodes) zero h = ground arith
children_at-none (n ∷ nodes) (suc id) h = children_at-none nodes id h

pub In-get : (xs : List ℕ) (i : ℕ) {a : ℕ} → get_elem? xs i ≡ some a → In a xs
In-get [] i h = ground arith
In-get (x ∷ xs) zero h = inl (ground arith)
In-get (x ∷ xs) (suc i) h = inr (In-get xs i h)

module _ (H : Hashing) where
  -- The tree in which a node is deleted.
  abbrev pub without : FileTree H → ℕ → FsNode → FileTree H
  without t id node = record t { nodes = set t.nodes id (record node { meta = deleted }) }

  pub set_deleted-IsValid :
      (t : FileTree H) (v : IsValid H t) (id : ℕ) (node : FsNode)
      → get_elem? t.nodes id ≡ some node
      → (set_deleted H t id ≡ some (without t id node)) × IsValid H (without t id node)
  unfolding set_deleted
  set_deleted-IsValid t v id node at =
      let (wrote, valid) =
        set_node-IsValid H t v id node (record node { meta = deleted }) at refl
          (v.has_dir id node at) in
      (rw (at_id_of_lt t.nodes id v.few_nodes) (rw at refl), valid)

  -- The nodes on the stack have directories.
  abbrev pub Framed : FileTree H → List (ℕ × ℕ) → Type 0
  Framed t [] = Unit
  Framed t ((id, child) ∷ stack) = (children_at t.nodes id < length t.dirs) × Framed t stack

  pub Framed-without :
      (t : FileTree H) (id : ℕ) (node : FsNode) (stack : List (ℕ × ℕ))
      → get_elem? t.nodes id ≡ some node
      → Framed t stack
      → Framed (without t id node) stack
  Framed-without t id node [] at h = tt
  Framed-without t id node ((j, child) ∷ stack) at h =
      let same =
        children_at-set t.nodes id j (record node { meta = deleted })
          (sym (children_at_node t.nodes id at)) in
      (rw same h.0, Framed-without t id node stack at h.1)

  abbrev pub weight : FileTree H → List (ℕ × ℕ) → ℕ
  weight t stack = all_entries t.dirs t.nodes + stack_weight t.dirs t.nodes stack

  -- A node is deleted: its own entries are gone, and the stack keeps its weight.
  pub weight-without :
      (t : FileTree H) (id : ℕ) (node : FsNode) (stack : List (ℕ × ℕ))
      → get_elem? t.nodes id ≡ some node
      → weight (without t id node) stack + entries t.dirs node ≡ weight t stack
  weight-without t id node stack at = omega (
    arith,
    all_entries-set t.dirs t.nodes id node at,
    stack_weight-set t.dirs t.nodes id (record node { meta = deleted }) stack
        (sym (children_at_node t.nodes id at)),
  )

  -- The node of a frame and its directory.
  pub frame_node :
      (t : FileTree H) (v : IsValid H t) (id : ℕ)
      → children_at t.nodes id < length t.dirs
      → (node : FsNode) × (ids : List ℕ) × (get_elem? t.nodes id ≡ some node)
        × (get_elem? t.dirs node.children ≡ some ids)
  frame_node t v id h = elim (Option-cases (get_elem? t.nodes id)) [
    | inl e ↦ absurd (omega (arith, h, v.few_dirs, children_at-none t.nodes id e))
    | inr (node, e) ↦
        let (ids, f) =
          get_elem?_of_lt t.dirs node.children (omega (arith, h, children_at_node t.nodes id e)) in
        (node, ids, e, f)
  ]

  -- The stack after a child: its directory is entered, if it is one.
  descends :
      (child_id : ℕ) (c : FsNode) (frames : List (ℕ × ℕ))
      → descent H child_id c ++ frames
        ≡ (if is_dir c.meta && is_some_id c.children then (child_id, 0) ∷ frames else frames)
  unfolding descent
  descends child_id c frames = ground arith

  pub enters :
      (t : FileTree H) (v : IsValid H t) (child_id : ℕ) (c : FsNode) (frames : List (ℕ × ℕ))
      → get_elem? t.nodes child_id ≡ some c
      → Framed t frames
      → Framed (without t child_id c) (descent H child_id c ++ frames)
        × (weight (without t child_id c) (descent H child_id c ++ frames) ≤ weight t frames)
  enters t v child_id c frames here framed =
      let framed1 = Framed-without t child_id c frames here framed in
      let spent = weight-without t child_id c frames here in
      let own = children_at_node t.nodes child_id here in
      let kept =
        children_at-set t.nodes child_id child_id (record c { meta = deleted }) (sym own) in
      rw (descends child_id c frames) (elim (Bool-cases (is_dir c.meta && is_some_id c.children)) [
        | inr leaf ↦ rw leaf (framed1, omega (arith, spent))
        | inl below ↦ rw below (
          (omega (arith, kept, own, v.has_dir child_id c here (ground arith)), framed1),
          ground (arith, spent, ap (dir_length t.dirs) (kept ∙ own)),
        )
      ])
