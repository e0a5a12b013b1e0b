-- ===== src/Worker/Known.antt =====
-- The roots of the worker are nodes of the tree, also when a root is inserted.
use filesentry.Common.{
  ℕ, ◌≡◌, ◌<◌, ◌≤◌, ◌∙◌, refl, Bool, true, some, [], ◌∷◌, ◌++◌, if◌then◌else◌, arith, length,
  get_elem?_of_lt, inl, inr, Bool-cases, ◌+◌, length-append,
}
use filesentry.Path.{CanonicalPathBuf, cmp, is_parent_of, as_bytes}
use filesentry.HashTable.{Hashing}
use filesentry.Config.{Filter, ignore_path_rec}
use filesentry.Tree.{FileTree, FsNode, at_id}
use filesentry.Tree.Valid.{IsValid, at_id_of_lt}
use filesentry.Worker
use filesentry.Worker.{split_roots, prune_roots, insert_root, is_lt}

-- The ids of the roots are below the number of nodes.
abbrev pub AllKnown : ℕ → Worker.Roots → Type 0
AllKnown n [] = Unit
AllKnown n ((id, recursive) ∷ roots) = (id < n) × AllKnown n roots

pub AllKnown-le : (n k : ℕ) (roots : Worker.Roots) → n ≤ k → AllKnown n roots → AllKnown k roots
AllKnown-le n k [] l a = tt
AllKnown-le n k ((id, recursive) ∷ roots) l a = (omega (arith, l, a.0), AllKnown-le n k roots l a.1)

AllKnown-append :
    (n : ℕ) (xs ys : Worker.Roots) → AllKnown n xs → AllKnown n ys → AllKnown n (xs ++ ys)
AllKnown-append n [] ys a b = b
AllKnown-append n ((id, recursive) ∷ xs) ys a b = (a.0, AllKnown-append n xs ys a.1 b)

module _ (H : Hashing) (t : FileTree H) (filter : Filter) (path : CanonicalPathBuf) where
  -- One root of `split_roots` and of `prune_roots`.
  pub split_step :
      (id : ℕ) (recursive : Bool) (roots before others : Worker.Roots) (node : FsNode)
      → at_id t.nodes id ≡ some node
      → split_roots H t path roots ≡ some (before, others)
      → split_roots H t path ((id, recursive) ∷ roots) ≡ (
          if is_lt (cmp node.path.buf path.buf)
          then some ((id, recursive) ∷ before, others)
          else some ([], (id, recursive) ∷ roots))
  unfolding split_roots
  split_step id recursive roots before others node at rest = ground arith

  pub prune_step :
      (id : ℕ) (recursive : Bool) (roots kept : Worker.Roots) (node : FsNode)
      → at_id t.nodes id ≡ some node
      → prune_roots H t filter path roots ≡ some kept
      → prune_roots H t filter path ((id, recursive) ∷ roots) ≡ (
          if is_parent_of path.buf node.path.buf
          then some (
              if ignore_path_rec filter (as_bytes node.path.buf) (some true)
              then (id, recursive) ∷ kept
              else kept)
          else some ((id, recursive) ∷ roots))
  unfolding prune_roots
  prune_step id recursive roots kept node at rest = ground arith

module _ (H : Hashing) (t : FileTree H) (v : IsValid H t) (filter : Filter)
    (path : CanonicalPathBuf) where
  split_roots_known :
      (roots : Worker.Roots)
      → AllKnown (length t.nodes) roots
      → (before others : Worker.Roots) × (split_roots H t path roots ≡ some (before, others))
        × AllKnown (length t.nodes) before
        × AllKnown (length t.nodes) others
        × (length before + length others ≡ length roots)
  unfolding split_roots
  split_roots_known [] a = ([], [], refl, tt, tt, refl)
  split_roots_known ((id, recursive) ∷ roots) a =
      let (node, here) = get_elem?_of_lt t.nodes id a.0 in
      let (before, others, rest, b, o, n) = split_roots_known roots a.1 in
      let step =
        split_step H t filter path id recursive roots before others node
          (at_id_of_lt t.nodes id v.few_nodes ∙ here) rest in
      elim (Bool-cases (is_lt (cmp node.path.buf path.buf))) [
        | inl earlier ↦ (
          (id, recursive) ∷ before,
          others,
          step ∙ rw earlier refl,
          (a.0, b),
          o,
          omega (arith, n),
        )
        | inr later ↦ ([], (id, recursive) ∷ roots, step ∙ rw later refl, tt, a, omega arith)
      ]

  prune_roots_known :
      (roots : Worker.Roots)
      → AllKnown (length t.nodes) roots
      → (kept : Worker.Roots) × (prune_roots H t filter path roots ≡ some kept)
        × AllKnown (length t.nodes) kept
        × (length kept ≤ length roots)
  unfolding prune_roots
  prune_roots_known [] a = ([], refl, tt, omega arith)
  prune_roots_known ((id, recursive) ∷ roots) a =
      let (node, here) = get_elem?_of_lt t.nodes id a.0 in
      let (kept, rest, k, fewer) = prune_roots_known roots a.1 in
      let step =
        prune_step H t filter path id recursive roots kept node
          (at_id_of_lt t.nodes id v.few_nodes ∙ here) rest in
      elim (Bool-cases (is_parent_of path.buf node.path.buf)) [
        | inr over ↦ ((id, recursive) ∷ roots, step ∙ rw over refl, a, omega arith)
        | inl below ↦
            elim (Bool-cases (ignore_path_rec filter (as_bytes node.path.buf) (some true))) [
              | inl ignored ↦ (
                (id, recursive) ∷ kept,
                step ∙ rw (below, ignored) refl,
                (a.0, k),
                omega (arith, fewer),
              )
              | inr seen ↦ (kept, step ∙ rw (below, seen) refl, k, omega (arith, fewer))
            ]
      ]

  -- A root that is a node goes among roots that are: that does not panic, and all are nodes.
  pub insert_root_known :
      (recursive : Bool) (id : ℕ) (roots : Worker.Roots)
      → id < length t.nodes
      → AllKnown (length t.nodes) roots
      → (roots' : Worker.Roots) × (insert_root H t filter path recursive id roots ≡ some roots')
        × AllKnown (length t.nodes) roots'
        × (length roots' ≤ length roots + 1)
  unfolding insert_root
  insert_root_known recursive id roots small a =
      let (before, others, split, b, o, n) = split_roots_known roots a in
      let (kept, pruned, k, fewer) = prune_roots_known others o in
      elim (Bool-cases recursive) [
        | inl all ↦ (
          before ++ (id, recursive) ∷ kept,
          rw split (rw all (rw pruned refl)),
          AllKnown-append (length t.nodes) before ((id, recursive) ∷ kept) b (small, k),
          omega (arith, length-append {0} before ((id, recursive) ∷ kept), n, fewer),
        )
        | inr one ↦ (
          before ++ (id, recursive) ∷ others,
          rw split (rw one refl),
          AllKnown-append (length t.nodes) before ((id, recursive) ∷ others) b (small, o),
          omega (arith, length-append {0} before ((id, recursive) ∷ others), n),
        )
      ]
