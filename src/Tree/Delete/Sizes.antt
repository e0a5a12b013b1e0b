-- ===== src/Tree/Delete/Sizes.antt =====
-- `delete_rec` adds no node and no directory, and takes none away.
use filesentry.Common.{
  ℕ, zero, suc, ◌≡◌, sym, some, List, [], ◌∷◌, ◌++◌, arith, get_elem?, inl, inr, Option-cases,
  Bool-cases, subst, >>=-then, ◌+◌,
}
use filesentry.HashTable.{Hashing}
use filesentry.Tree.{FileTree, Emitted, at_id, is_some_id, deleted}
use filesentry.Tree.Delete.{set_deleted, descent, deletion, delete_loop, delete_rec, delete_fuel}
use filesentry.Tree.Delete.Weight.{children_at_node}
use filesentry.Tree.Grow.Sizes.{Grows, Grows-refl, Grows-trans, set_node-Grows, get_elem?_of_at_id}

module _ (H : Hashing) where
  set_deleted-Grows : (t t' : FileTree H) (id : ℕ) → set_deleted H t id ≡ some t' → Grows H 0 0 t t'
  unfolding set_deleted
  set_deleted-Grows t t' id h = >>=-then (at_id t.nodes id) _ h λ node at wrote.
      set_node-Grows H t t' id (record node { meta = deleted }) wrote
        (sym (children_at_node t.nodes id (get_elem?_of_at_id t.nodes id at)))

  delete_loop-Grows :
      (fuel : ℕ) (t t' : FileTree H) (stack : List (ℕ × ℕ)) (emitted emitted' : Emitted)
      → delete_loop H fuel t stack emitted ≡ some (t', emitted')
      → Grows H 0 0 t t'
  unfolding delete_loop
  delete_loop-Grows zero t t' stack emitted emitted' h = ground arith
  delete_loop-Grows (suc fuel) t t' [] emitted emitted' h =
      let same : t ≡ t' = ground arith in subst (Grows H 0 0 t) same (Grows-refl H t)
  delete_loop-Grows (suc fuel) t t' ((id, child) ∷ stack) emitted emitted' h =
      >>=-then (at_id t.nodes id) _ h λ node at rest.
        >>=-then (at_id t.dirs node.children) _ rest λ ids listed rest'.
          elim (Option-cases (get_elem? ids child)) [
            | inl done ↦ >>=-then (set_deleted H t id) _ (rw done at rest') λ u wrote last.
                Grows-trans H (set_deleted-Grows t u id wrote)
                  (delete_loop-Grows fuel u t' stack emitted emitted' last)
            | inr (child_id, more) ↦
                >>=-then (at_id t.nodes child_id) _ (rw more at rest') λ c here rest''.
                  >>=-then (set_deleted H t child_id) _ rest'' λ u wrote last.
                    Grows-trans H (set_deleted-Grows t u child_id wrote) (
                      delete_loop-Grows fuel u t' (descent H child_id c ++ (id, child + 1) ∷ stack)
                        (emitted ++ deletion H c) emitted' last)
          ]

  pub delete_rec-Grows :
      (t t' : FileTree H) (id : ℕ) (emitted emitted' : Emitted)
      → delete_rec H t id emitted ≡ some (t', emitted')
      → Grows H 0 0 t t'
  unfolding delete_rec
  delete_rec-Grows t t' id emitted emitted' h = >>=-then (at_id t.nodes id) _ h λ node at rest.
      elim (Bool-cases (is_some_id node.children)) [
        | inr leaf ↦ let same : t ≡ t' = ground arith in subst (Grows H 0 0 t) same (Grows-refl H t)
        | inl kids ↦ >>=-then (set_deleted H t id) _ (rw kids at rest) λ u wrote last.
            Grows-trans H (set_deleted-Grows t u id wrote)
              (delete_loop-Grows (delete_fuel H t node) u t' ((id, 0) ∷ []) emitted emitted' last)
      ]
