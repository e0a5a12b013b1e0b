-- ===== src/Worker/Sorted.antt =====
-- The roots stay in tree order.
use Prim.Native.Nat.{Ordering}
use filesentry.Common.{
  ℕ, ◌≡◌, ◌≢◌, refl, ◌∙◌, Bool, true, false, some, [], ◌∷◌, ◌++◌, arith, inl, inr, Bool-cases, ap,
  subst,
}
use Prim.Native.Nat.Ordering.{lt, eq, gt}
use filesentry.Path.{CanonicalPathBuf, cmp, is_parent_of, as_bytes}
use filesentry.Path.Order.{cmp_le_trans, cmp_swap}
use filesentry.HashTable.{Hashing}
use filesentry.Config.{Filter, ignore_path_rec}
use filesentry.Tree.{FileTree, FsNode, at_id}
use filesentry.Worker
use filesentry.Worker.Known.{split_step, prune_step}
use filesentry.Worker.{split_roots, prune_roots, insert_root, is_lt}

module _ (H : Hashing) (t : FileTree H) where
  -- The roots have nodes, whose paths do not sort before a path.
  abbrev pub NotBefore : CanonicalPathBuf → Worker.Roots → Type 0
  NotBefore path [] = Unit
  NotBefore path ((id, recursive) ∷ roots) =
      ((node : FsNode) × (at_id t.nodes id ≡ some node) × (cmp path.buf node.path.buf ≢ gt))
      × NotBefore path roots

  -- The roots have nodes, whose paths do not sort after a path.
  abbrev pub NotAfter : CanonicalPathBuf → Worker.Roots → Type 0
  NotAfter path [] = Unit
  NotAfter path ((id, recursive) ∷ roots) =
      ((node : FsNode) × (at_id t.nodes id ≡ some node) × (cmp node.path.buf path.buf ≢ gt))
      × NotAfter path roots

  -- The paths of the roots are in tree order.
  abbrev pub AreSorted : Worker.Roots → Type 0
  AreSorted [] = Unit
  AreSorted ((id, recursive) ∷ roots) =
      ((node : FsNode) × (at_id t.nodes id ≡ some node) × NotBefore node.path roots)
      × AreSorted roots

  NotBefore-trans :
      (p q : CanonicalPathBuf) (roots : Worker.Roots)
      → cmp p.buf q.buf ≢ gt
      → NotBefore q roots
      → NotBefore p roots
  NotBefore-trans p q [] h n = tt
  NotBefore-trans p q ((id, recursive) ∷ roots) h ((node, at, k), n) =
      ((node, at, cmp_le_trans p.buf q.buf node.path.buf h k), NotBefore-trans p q roots h n)

  is_lt_of : (o : Ordering) → is_lt o ≡ true → o ≡ lt
  unfolding is_lt
  is_lt_of lt e = refl
  is_lt_of eq e = ground arith
  is_lt_of gt e = ground arith

  later : (p q : CanonicalPathBuf) → is_lt (cmp p.buf q.buf) ≡ false → cmp q.buf p.buf ≢ gt
  unfolding is_lt
  later p q e h = by_order (cmp p.buf q.buf) refl
    where
      by_order : (o : Ordering) → cmp p.buf q.buf ≡ o → ⊥
      by_order lt f = ground arith
      by_order eq f = ground (arith, cmp_swap q.buf p.buf)
      by_order gt f = ground (arith, cmp_swap q.buf p.buf)

  module _ (filter : Filter) (path : CanonicalPathBuf) where
    -- What is split off has paths up to the new one, and the rest paths from it on.
    split_roots-AreSorted :
        (roots : Worker.Roots)
        → AreSorted roots
        → (before others : Worker.Roots) × (split_roots H t path roots ≡ some (before, others))
          × (roots ≡ before ++ others)
          × NotAfter path before
          × NotBefore path others
    unfolding split_roots
    split_roots-AreSorted [] s = ([], [], refl, refl, tt, tt)
    split_roots-AreSorted ((id, recursive) ∷ roots) ((node, at, n), s) =
        let (before, others, split, same, b, o) = split_roots-AreSorted roots s in
        let step = split_step H t filter path id recursive roots before others node at split in
        elim (Bool-cases (is_lt (cmp node.path.buf path.buf))) [
          | inl earlier ↦
              let less = is_lt_of (cmp node.path.buf path.buf) earlier in
              (
                (id, recursive) ∷ before,
                others,
                step ∙ rw earlier refl,
                ap (◌∷◌ (id, recursive)) same,
                ((node, at, λ q. ground arith), b),
                o,
              )
          | inr other ↦
              let from = later node.path path other in
              (
                [],
                (id, recursive) ∷ roots,
                step ∙ rw other refl,
                refl,
                tt,
                ((node, at, from), NotBefore-trans path node.path roots from n),
              )
        ]

    -- What pruning keeps: in order, and nothing that was not there.
    prune_roots-AreSorted :
        (roots : Worker.Roots)
        → AreSorted roots
        → (kept : Worker.Roots) × (prune_roots H t filter path roots ≡ some kept)
          × AreSorted kept
          × ((q : CanonicalPathBuf) → NotBefore q roots → NotBefore q kept)
    unfolding prune_roots
    prune_roots-AreSorted [] s = ([], refl, tt, λ q n. n)
    prune_roots-AreSorted ((id, recursive) ∷ roots) ((node, at, n), s) =
        let (kept, pruned, k, fewer) = prune_roots-AreSorted roots s in
        let step = prune_step H t filter path id recursive roots kept node at pruned in
        elim (Bool-cases (is_parent_of path.buf node.path.buf)) [
          | inr over ↦ ((id, recursive) ∷ roots, step ∙ rw over refl, ((node, at, n), s), λ q m. m)
          | inl below ↦
              elim (Bool-cases (ignore_path_rec filter (as_bytes node.path.buf) (some true))) [
                | inl ignored ↦ (
                  (id, recursive) ∷ kept,
                  step ∙ rw (below, ignored) refl,
                  ((node, at, fewer node.path n), k),
                  λ q m. (m.0, fewer q m.1),
                )
                | inr seen ↦ (kept, step ∙ rw (below, seen) refl, k, λ q m. fewer q m.1)
              ]
        ]

  NotBefore-insert :
      (q : CanonicalPathBuf) (before after : Worker.Roots) (id : ℕ) (recursive : Bool)
      (node : FsNode)
      → at_id t.nodes id ≡ some node
      → cmp q.buf node.path.buf ≢ gt
      → NotBefore q (before ++ after)
      → NotBefore q (before ++ (id, recursive) ∷ after)
  NotBefore-insert q [] after id recursive node at h n = ((node, at, h), n)
  NotBefore-insert q ((k, r) ∷ before) after id recursive node at h (first, n) =
      (first, NotBefore-insert q before after id recursive node at h n)

  inserted :
      (before after : Worker.Roots) (id : ℕ) (recursive : Bool) (node : FsNode)
      → at_id t.nodes id ≡ some node
      → AreSorted (before ++ after)
      → NotAfter node.path before
      → NotBefore node.path after
      → AreSorted (before ++ (id, recursive) ∷ after)
  inserted [] after id recursive node at s b a = ((node, at, a), s)
  inserted ((k, r) ∷ before) after id recursive node at ((here, there, n), s)
        ((here', there', less), b) a =
      let same : here' ≡ here = ground arith in
      (
        (
          here,
          there,
          NotBefore-insert here.path before after id recursive node at (rw same at less) n,
        ),
        inserted before after id recursive node at s b a,
      )

  -- Some of the roots at the end go.
  NotBefore-fewer :
      (q : CanonicalPathBuf) (before after kept : Worker.Roots)
      → (NotBefore q after → NotBefore q kept)
      → NotBefore q (before ++ after)
      → NotBefore q (before ++ kept)
  NotBefore-fewer q [] after kept fewer n = fewer n
  NotBefore-fewer q ((k, r) ∷ before) after kept fewer (first, n) =
      (first, NotBefore-fewer q before after kept fewer n)

  AreSorted-fewer :
      (before after kept : Worker.Roots)
      → AreSorted kept
      → ((q : CanonicalPathBuf) → NotBefore q after → NotBefore q kept)
      → AreSorted (before ++ after)
      → AreSorted (before ++ kept)
  AreSorted-fewer [] after kept k fewer s = k
  AreSorted-fewer ((i, r) ∷ before) after kept k fewer ((here, there, n), s) = (
    (here, there, NotBefore-fewer here.path before after kept (fewer here.path) n),
    AreSorted-fewer before after kept k fewer s,
  )

  AreSorted-right : (before after : Worker.Roots) → AreSorted (before ++ after) → AreSorted after
  AreSorted-right [] after s = s
  AreSorted-right (root ∷ before) after s = AreSorted-right before after s.1

  insert_all :
      (filter : Filter) (path : CanonicalPathBuf) (id : ℕ) (roots before others kept : Worker.Roots)
      → split_roots H t path roots ≡ some (before, others)
      → prune_roots H t filter path others ≡ some kept
      → insert_root H t filter path true id roots ≡ some (before ++ (id, true) ∷ kept)
  unfolding insert_root
  insert_all filter path id roots before others kept split pruned = rw split (rw pruned refl)

  insert_one :
      (filter : Filter) (path : CanonicalPathBuf) (id : ℕ) (roots before others : Worker.Roots)
      → split_roots H t path roots ≡ some (before, others)
      → insert_root H t filter path false id roots ≡ some (before ++ (id, false) ∷ others)
  unfolding insert_root
  insert_one filter path id roots before others split = rw split refl

  -- A root with a node goes among roots that are in tree order: that does not panic, and the roots are in
  -- tree order again, whether or not it is recursive and replaces roots below it.
  pub insert_root-AreSorted :
      (filter : Filter) (recursive : Bool) (id : ℕ) (node : FsNode) (roots : Worker.Roots)
      → at_id t.nodes id ≡ some node
      → AreSorted roots
      → (roots' : Worker.Roots) × (insert_root H t filter node.path recursive id roots
          ≡ some roots')
        × AreSorted roots'
  insert_root-AreSorted filter true id node roots at s =
      let (before, others, split, same, b, o) = split_roots-AreSorted filter node.path roots s in
      let whole : AreSorted (before ++ others) = subst AreSorted same s in
      let (kept, pruned, k, fewer) =
        prune_roots-AreSorted filter node.path others (AreSorted-right before others whole) in
      (
        before ++ (id, true) ∷ kept,
        insert_all filter node.path id roots before others kept split pruned,
        inserted before kept id true node at (AreSorted-fewer before others kept k fewer whole) b
            (fewer node.path o),
      )
  insert_root-AreSorted filter false id node roots at s =
      let (before, others, split, same, b, o) = split_roots-AreSorted filter node.path roots s in
      (
        before ++ (id, false) ∷ others,
        insert_one filter node.path id roots before others split,
        inserted before others id false node at (subst AreSorted same s) b o,
      )
