-- ===== src/Tree/Crawl/Leaving.antt =====
-- When a crawl leaves a directory: what it did not meet is deleted, and the tree stays valid.
use filesentry.Common.{
  ℕ, ◌≡◌, ◌<◌, ◌∙◌, refl, some, Option, List, [], ◌∷◌, ◌++◌, if◌then◌else◌, arith, get_elem?_of_lt,
  inl, inr, Bool-cases, length, In, leb,
}
use filesentry.HashTable.{Hashing}
use filesentry.Events.{delete}
use filesentry.Tree.{FileTree, FsNode, Emitted, at_id, is_file}
use filesentry.Tree.Valid.{IsValid, at_id_of_lt}
use filesentry.Tree.Grow.Sizes.{Grows, Grows-refl, Grows-trans}
use filesentry.Tree.Delete.{delete_rec}
use filesentry.Tree.Delete.Ends.{delete_rec-IsValid}
use filesentry.Tree.Delete.Sizes.{delete_rec-Grows}
use filesentry.Tree.Delete.Frames.{Framed, frame_node}
use filesentry.Tree.Crawl.{sweep_child, sweep_ids, sweep, leave}

module _ (H : Hashing) where
  pub Framed-Grows :
      {n d : ℕ} (t t' : FileTree H) (stack : List (ℕ × ℕ))
      → Grows H n d t t'
      → Framed H t stack
      → Framed H t' stack
  Framed-Grows t t' [] g framed = tt
  Framed-Grows t t' ((id, level) ∷ stack) g framed =
      (g.still id framed.0, Framed-Grows t t' stack g framed.1)

  -- It returns, on a tree that is valid and of the same size.
  abbrev Settles : FileTree H → Option (FileTree H × Emitted) → Type 0
  Settles t result =
      (t' : FileTree H) × (emitted : Emitted) × (result ≡ some (t', emitted))
      × IsValid H t'
      × Grows H 0 0 t t'

  child_step :
      (t : FileTree H) (emitted : Emitted) (id : ℕ) (child : FsNode)
      → at_id t.nodes id ≡ some child
      → sweep_child H t emitted id ≡ (
          if child.flags.maybe_deleted
          then delete_rec H t id
              (if is_file child.meta then emitted ++ (child.path, delete) ∷ [] else emitted)
          else some (t, emitted))
  unfolding sweep_child
  child_step t emitted id child at = rw at refl

  sweep_child-IsValid :
      (t : FileTree H) (v : IsValid H t) (emitted : Emitted) (id : ℕ)
      → id < length t.nodes
      → Settles t (sweep_child H t emitted id)
  sweep_child-IsValid t v emitted id small =
      let (child, here) = get_elem?_of_lt t.nodes id small in
      let at = at_id_of_lt t.nodes id v.few_nodes ∙ here in
      let before = if is_file child.meta then emitted ++ (child.path, delete) ∷ [] else emitted in
      elim (Bool-cases child.flags.maybe_deleted) [
        | inr met ↦ (t, emitted, child_step t emitted id child at ∙ rw met refl, v, Grows-refl H t)
        | inl missed ↦
            let (t', after, done, v') = delete_rec-IsValid H t v id child before here in
            (
              t',
              after,
              child_step t emitted id child at ∙ rw missed done,
              v',
              delete_rec-Grows H t t' id before after done,
            )
      ]

  sweep_ids-IsValid :
      (t : FileTree H) (v : IsValid H t) (emitted : Emitted) (ids : List ℕ)
      → ((i : ℕ) → In i ids → i < length t.nodes)
      → Settles t (sweep_ids H t emitted ids)
  unfolding sweep_ids
  sweep_ids-IsValid t v emitted [] small = (t, emitted, refl, v, Grows-refl H t)
  sweep_ids-IsValid t v emitted (id ∷ ids) small =
      let (t1, e1, done, v1, g1) = sweep_child-IsValid t v emitted id (small id (inl refl)) in
      let (t2, e2, rest, v2, g2) =
        sweep_ids-IsValid t1 v1 e1 ids (λ i m. omega (arith, g1.more_nodes, small i (inr m))) in
      (t2, e2, rw done rest, v2, Grows-trans H g1 g2)

  sweep-IsValid :
      (t : FileTree H) (v : IsValid H t) (emitted : Emitted) (id level : ℕ)
      → Framed H t ((id, level) ∷ [])
      → Settles t (sweep H t emitted id)
  unfolding sweep
  sweep-IsValid t v emitted id level framed =
      let (node, ids, at, listed) = frame_node H t v id framed.0 in
      let at' = at_id_of_lt t.nodes id v.few_nodes ∙ at in
      let listed' = at_id_of_lt t.dirs node.children v.few_dirs ∙ listed in
      let (t', e', done, v', g) =
        sweep_ids-IsValid t v emitted ids (λ i m. v.has_node node.children i ids listed m) in
      (t', e', rw at' (rw listed' done), v', g)

  -- On a valid tree, with a stack of nodes that have directories, the directories of at least a depth
  -- are left without a panic; the tree stays valid, and what remains of the stack has directories.
  pub leave-IsValid :
      (t : FileTree H) (v : IsValid H t) (emitted : Emitted) (stack : List (ℕ × ℕ)) (depth : ℕ)
      → Framed H t stack
      → (t' : FileTree H) × (emitted' : Emitted) × (stack' : List (ℕ × ℕ)) × (leave H t emitted
            stack depth
          ≡ some (t', emitted', stack'))
        × IsValid H t'
        × Grows H 0 0 t t'
        × Framed H t' stack'
  unfolding leave
  leave-IsValid t v emitted [] depth framed = (t, emitted, [], refl, v, Grows-refl H t, tt)
  leave-IsValid t v emitted ((id, level) ∷ stack) depth framed =
      elim (Bool-cases (leb depth level)) [
        | inr stays ↦ (t, emitted, (id, level) ∷ stack, rw stays refl, v, Grows-refl H t, framed)
        | inl leaves ↦
            let (t1, e1, done, v1, g1) = sweep-IsValid t v emitted id level (framed.0, tt) in
            let (t2, e2, left, rest, v2, g2, framed2) =
              leave-IsValid t1 v1 e1 stack depth (Framed-Grows t t1 stack g1 framed.1) in
            (t2, e2, left, rw leaves (rw done rest), v2, Grows-trans H g1 g2, framed2)
      ]
