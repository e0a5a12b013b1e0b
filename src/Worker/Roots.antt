-- ===== src/Worker/Roots.antt =====
-- The roots that a new recursive root replaces.
use filesentry.Common.{
  ℕ, ◌≡◌, refl, ap, Bool, true, false, not, ◌&&◌, none, some, List, [], ◌∷◌, arith, length,
  length-append, if◌then◌else◌, inl, inr, Bool-cases,
}
use Prim.Native.Nat.Ordering.{lt, eq}
use filesentry.Path.{CanonicalPathBuf, path_separator, cmp, is_parent_of, terminated, as_bytes}
use filesentry.Path.Order.{cmp_trans, cmp-eq_iff}
use filesentry.Path.Subtree.{subtree_contiguous, is_parent_of_iff}
use filesentry.HashTable.{Hashing}
use filesentry.Config.{Filter, ignore_path_rec}
use filesentry.Tree.{FileTree, FsNode, at_id}
use filesentry.Worker
use filesentry.Worker.{prune_roots, insert_root, split_roots, is_lt}

module _ (H : Hashing) (tree : FileTree H) (filter : Filter) where
  -- Whether a root is below a path and not ignored.
  abbrev replaces : CanonicalPathBuf → FsNode → Bool
  replaces path node =
      is_parent_of path.buf node.path.buf
      && not (ignore_path_rec filter (as_bytes node.path.buf) (some true))

  -- All roots but those that a recursive root at the path makes redundant.
  unfoldable pub remaining : CanonicalPathBuf → Worker.Roots → Worker.Roots
  remaining path [] = []
  remaining path ((id, recursive) ∷ roots) =
      let rest = remaining path roots in
      elim (at_id tree.nodes id) [
        | none ↦ rest
        | some node ↦ if replaces path node then rest else (id, recursive) ∷ rest
      ]

  -- The roots have nodes, and their paths come after the path, in tree order.
  abbrev pub Follow : CanonicalPathBuf → Worker.Roots → Type 0
  Follow path [] = Unit
  Follow path ((id, recursive) ∷ roots) =
      (node : FsNode) × (b : List ℕ) × (at_id tree.nodes id ≡ some node)
      × (node.path ≡ terminated b)
      × (cmp path.buf node.path.buf ≡ lt)
      × Follow node.path roots

  Follow-earlier :
      (p q : CanonicalPathBuf) (roots : Worker.Roots)
      → cmp p.buf q.buf ≡ lt
      → Follow q roots
      → Follow p roots
  Follow-earlier p q [] h s = tt
  Follow-earlier p q ((id, recursive) ∷ roots) h (node, c, at, g, k, later) =
      (node, c, at, g, cmp_trans p.buf q.buf node.path.buf h k, later)

  not_below_later :
      (p q r : CanonicalPathBuf) (a b c : List ℕ)
      → p ≡ terminated a
      → q ≡ terminated b
      → r ≡ terminated c
      → cmp p.buf q.buf ≡ lt
      → cmp q.buf r.buf ≡ lt
      → is_parent_of p.buf q.buf ≡ false
      → is_parent_of p.buf r.buf ≡ false
  not_below_later p q r a b c e f g h k n = elim (Bool-cases (is_parent_of p.buf r.buf)) [
    | inr apart ↦ apart
    | inl under ↦
        let between =
          subtree_contiguous a b c (rw e at (rw g at under)) (rw e at (rw f at h))
            (rw f at (rw g at k)) in
        let over : is_parent_of p.buf q.buf ≡ true = rw e (rw f between) in ground arith
  ]

  remaining_all :
      (p q : CanonicalPathBuf) (a b : List ℕ) (roots : Worker.Roots)
      → p ≡ terminated a
      → q ≡ terminated b
      → cmp p.buf q.buf ≡ lt
      → is_parent_of p.buf q.buf ≡ false
      → Follow q roots
      → remaining p roots ≡ roots
  unfolding remaining
  remaining_all p q a b [] e f h n s = refl
  remaining_all p q a b ((id, recursive) ∷ roots) e f h n (node, c, at, g, k, later) =
      let apart = not_below_later p q node.path a b c e f g h k n in
      let same =
        remaining_all p node.path a c roots e g (cmp_trans p.buf q.buf node.path.buf h k) apart
          later in
      ground arith

  -- The loop that stops at the first root that is not below the new one comes to all of them: among
  -- roots in tree order, all after the path of a new recursive root, exactly those below it that are
  -- not ignored go. The removal does not panic.
  pub prune_roots_lem :
      (path : CanonicalPathBuf) (a : List ℕ) (roots : Worker.Roots)
      → path ≡ terminated a
      → Follow path roots
      → prune_roots H tree filter path roots ≡ some (remaining path roots)
  unfolding prune_roots remaining
  prune_roots_lem path a [] e s = refl
  prune_roots_lem path a ((id, recursive) ∷ roots) e (node, b, at, f, k, later) =
      elim (Bool-cases (is_parent_of path.buf node.path.buf)) [
        | inl under ↦
            let rest =
              prune_roots_lem path a roots e (Follow-earlier path node.path roots k later) in
            ground arith
        | inr over ↦
            let same = remaining_all path node.path a b roots e f k over later in ground arith
      ]

  not_below_itself : (a : List ℕ) → is_parent_of (terminated a).buf (terminated a).buf ≡ false
  not_below_itself a = elim (Bool-cases (is_parent_of (terminated a).buf (terminated a).buf)) [
    | inr apart ↦ apart
    | inl under ↦
        let (rest, e) = (is_parent_of_iff a a).0 under in
        absurd (omega (arith, ap length e, length-append {0} a (path_separator ∷ rest)))
  ]

  -- When a root that is there already is added again, as a recursive one, its old entry is not before
  -- it and not below it, so the removal stops there: the node is among the roots twice, and the roots
  -- below it stay. (Said of the first root; those before it only stand in front.)
  pub insert_root_again :
      (id : ℕ) (recursive : Bool) (node : FsNode) (a : List ℕ) (roots : Worker.Roots)
      → at_id tree.nodes id ≡ some node
      → node.path ≡ terminated a
      → insert_root H tree filter node.path true id ((id, recursive) ∷ roots)
        ≡ some ((id, true) ∷ (id, recursive) ∷ roots)
  unfolding insert_root split_roots prune_roots is_lt
  insert_root_again id recursive node a roots at e =
      let itself : is_parent_of node.path.buf node.path.buf ≡ false = rw e (not_below_itself a) in
      let level : cmp node.path.buf node.path.buf ≡ eq =
        (cmp-eq_iff node.path.buf node.path.buf).1 refl in
      ground arith
