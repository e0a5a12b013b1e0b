-- ===== src/Tree/Delete/Ends.antt =====
-- `delete_rec` ends on every valid tree, and keeps it valid.
use filesentry.Common.{
  ℕ, zero, suc, ◌≡◌, ◌<◌, ◌+◌, ◌∙◌, refl, true, false, none, some, List, [], ◌∷◌, ◌++◌, arith,
  length, get_elem?, inl, inr, Option-cases, Bool-cases, get_elem?_lt, get_elem?_of_lt, sym, ap,
}
use filesentry.HashTable.{Hashing}
use filesentry.Tree.{FileTree, FsNode, Emitted, at_id, is_some_id, deleted}
use filesentry.Tree.Valid.{IsValid, at_id_of_lt}
use filesentry.Tree.Delete.{
  dir_length, delete_fuel, set_deleted, deletion, descent, delete_loop, delete_rec,
}
use filesentry.Tree.Delete.Weight.{children_at_node, children_at-set, all_entries-set}
use filesentry.Tree.Delete.Frames.{
  In-get, without, set_deleted-IsValid, Framed, Framed-without, weight, weight-without, frame_node,
  enters,
}

module _ (H : Hashing) where
  module _ (fuel : ℕ) (t t1 : FileTree H) (id child : ℕ) (stack : List (ℕ × ℕ)) (emitted : Emitted)
      (node : FsNode) (ids : List ℕ) (at : at_id t.nodes id ≡ some node)
      (listed : at_id t.dirs node.children ≡ some ids) where
    leaves :
        get_elem? ids child ≡ none
        → set_deleted H t id ≡ some t1
        → delete_loop H (suc fuel) t ((id, child) ∷ stack) emitted
          ≡ delete_loop H fuel t1 stack emitted
    unfolding delete_loop
    leaves done wrote = ground arith

    visits :
        (child_id : ℕ) (c : FsNode)
        → get_elem? ids child ≡ some child_id
        → at_id t.nodes child_id ≡ some c
        → set_deleted H t child_id ≡ some t1
        → delete_loop H (suc fuel) t ((id, child) ∷ stack) emitted
          ≡ delete_loop H fuel t1
              (descent H child_id c ++ (id, child + 1) ∷ stack)
              (emitted ++ deletion H c)
    unfolding delete_loop
    visits child_id c more here wrote = ground arith

  dir_length_of :
      (dirs : List (List ℕ)) (d : ℕ) (ids : List ℕ)
      → get_elem? dirs d ≡ some ids
      → dir_length dirs d ≡ length ids
  dir_length_of dirs d ids h = ground arith

  loop_ends :
      (fuel : ℕ) (t : FileTree H) (v : IsValid H t) (stack : List (ℕ × ℕ)) (emitted : Emitted)
      → Framed H t stack
      → weight H t stack < fuel
      → (t' : FileTree H) × (emitted' : Emitted) × (delete_loop H fuel t stack emitted
          ≡ some (t', emitted'))
        × IsValid H t'
  loop_ends zero t v stack emitted framed less = absurd (omega (arith, less))
  loop_ends (suc fuel) t v [] emitted framed less = (t, emitted, unfold delete_loop in refl, v)
  loop_ends (suc fuel) t v ((id, child) ∷ stack) emitted framed less =
      let (node, ids, at, listed) = frame_node H t v id framed.0 in
      let at' = at_id_of_lt t.nodes id v.few_nodes ∙ at in
      let listed' = at_id_of_lt t.dirs node.children v.few_dirs ∙ listed in
      let size =
        ap (dir_length t.dirs) (children_at_node t.nodes id at)
        ∙ dir_length_of t.dirs node.children ids listed in
      elim (Option-cases (get_elem? ids child)) [
        | inl done ↦
            let (wrote, v1) = set_deleted-IsValid H t v id node at in
            let (t', e', ended, v') =
              loop_ends fuel (without H t id node) v1 stack emitted
                (Framed-without H t id node stack at framed.1)
                (omega (arith, less, weight-without H t id node stack at)) in
            (
              t',
              e',
              leaves fuel t (without H t id node) id child stack emitted node ids at' listed' done
                    wrote
                  ∙ ended,
              v',
            )
        | inr (child_id, more) ↦
            let (c, here) =
              get_elem?_of_lt t.nodes child_id
                (v.has_node node.children child_id ids listed (In-get ids child more)) in
            let here' = at_id_of_lt t.nodes child_id v.few_nodes ∙ here in
            let (wrote, v1) = set_deleted-IsValid H t v child_id c here in
            let t1 = without H t child_id c in
            let frames = (id, child + 1) ∷ stack in
            let (framed1, lighter) = enters H t v child_id c frames here framed in
            let (t', e', ended, v') =
              loop_ends fuel t1 v1 (descent H child_id c ++ frames) (emitted ++ deletion H c)
                framed1 (omega (arith, less, lighter, get_elem?_lt ids child more, size)) in
            (
              t',
              e',
              visits fuel t t1 id child stack emitted node ids at' listed' child_id c more here'
                    wrote
                  ∙ ended,
              v',
            )
      ]

  deletes :
      (t t1 : FileTree H) (id : ℕ) (node : FsNode) (emitted : Emitted)
      → at_id t.nodes id ≡ some node
      → is_some_id node.children ≡ true
      → set_deleted H t id ≡ some t1
      → delete_rec H t id emitted ≡ delete_loop H (delete_fuel H t node) t1 ((id, 0) ∷ []) emitted
  unfolding delete_rec
  deletes t t1 id node emitted at kids wrote = ground arith

  childless :
      (t : FileTree H) (id : ℕ) (node : FsNode) (emitted : Emitted)
      → at_id t.nodes id ≡ some node
      → is_some_id node.children ≡ false
      → delete_rec H t id emitted ≡ some (t, emitted)
  unfolding delete_rec
  childless t id node emitted at kids = ground arith

  -- On every valid tree, also one in which directories are shared or contain themselves, `delete_rec` of
  -- a node ends within its bound and does not panic, and the tree stays valid.
  pub delete_rec-IsValid :
      (t : FileTree H) (v : IsValid H t) (id : ℕ) (node : FsNode) (emitted : Emitted)
      → get_elem? t.nodes id ≡ some node
      → (t' : FileTree H) × (emitted' : Emitted) × (delete_rec H t id emitted ≡ some (t', emitted'))
        × IsValid H t'
  delete_rec-IsValid t v id node emitted at =
      let at' = at_id_of_lt t.nodes id v.few_nodes ∙ at in
      elim (Bool-cases (is_some_id node.children)) [
        | inr none' ↦ (t, emitted, childless t id node emitted at' none', v)
        | inl kids ↦
            let (wrote, v1) = set_deleted-IsValid H t v id node at in
            let same =
              children_at-set t.nodes id id (record node { meta = deleted })
                (sym (children_at_node t.nodes id at))
              ∙ children_at_node t.nodes id at in
            let (t', e', ended, v') =
              loop_ends (delete_fuel H t node) (without H t id node) v1 ((id, 0) ∷ []) emitted
                (omega (arith, same, v.has_dir id node at kids), tt)
                (omega (
                  arith,
                  all_entries-set t.dirs t.nodes id node at,
                  ap (dir_length t.dirs) same,
                )) in
            (t', e', deletes t (without H t id node) id node emitted at' kids wrote ∙ ended, v')
      ]
