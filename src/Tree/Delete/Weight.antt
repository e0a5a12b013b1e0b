-- ===== src/Tree/Delete/Weight.antt =====
-- What `delete_rec` still has to do, as a number that each round makes smaller.
use filesentry.Common.{
  ℕ, zero, suc, ◌≡◌, ◌+◌, ◌-◌, refl, some, List, [], ◌∷◌, arith, get_elem?, set,
}
use filesentry.Tree.{FsNode, none_id, deleted, is_dir}
use filesentry.Tree.Delete.{dir_length, entries, all_entries}

abbrev pub children_at : List FsNode → ℕ → ℕ
children_at [] id = none_id
children_at (node ∷ nodes) zero = node.children
children_at (node ∷ nodes) (suc id) = children_at nodes id

pub children_at_node :
    (nodes : List FsNode) (id : ℕ) {node : FsNode}
    → get_elem? nodes id ≡ some node
    → children_at nodes id ≡ node.children
children_at_node [] id h = ground arith
children_at_node (n ∷ nodes) zero h = ground arith
children_at_node (n ∷ nodes) (suc id) h = children_at_node nodes id h

-- A node is written with the same directory.
pub children_at-set :
    (nodes : List FsNode) (i j : ℕ) (new : FsNode)
    → new.children ≡ children_at nodes i
    → children_at (set nodes i new) j ≡ children_at nodes j
children_at-set [] i j new e = refl
children_at-set (n ∷ nodes) zero zero new e = e
children_at-set (n ∷ nodes) zero (suc j) new e = refl
children_at-set (n ∷ nodes) (suc i) zero new e = refl
children_at-set (n ∷ nodes) (suc i) (suc j) new e = children_at-set nodes i j new e

-- A node that is deleted has no entries to visit any more.
pub all_entries-set :
    (dirs : List (List ℕ)) (nodes : List FsNode) (i : ℕ) (node : FsNode)
    → get_elem? nodes i ≡ some node
    → all_entries dirs (set nodes i (record node { meta = deleted })) + entries dirs node
      ≡ all_entries dirs nodes
unfolding is_dir
all_entries-set dirs [] i node h = ground arith
all_entries-set dirs (n ∷ nodes) zero node h = ground arith
all_entries-set dirs (n ∷ nodes) (suc i) node h = omega (arith, all_entries-set dirs nodes i node h)

-- What is left of the directories on the stack.
abbrev pub stack_weight : List (List ℕ) → List FsNode → List (ℕ × ℕ) → ℕ
stack_weight dirs nodes [] = 0
stack_weight dirs nodes ((id, child) ∷ stack) =
    suc (dir_length dirs (children_at nodes id) - child) + stack_weight dirs nodes stack

pub stack_weight-set :
    (dirs : List (List ℕ)) (nodes : List FsNode) (i : ℕ) (new : FsNode) (stack : List (ℕ × ℕ))
    → new.children ≡ children_at nodes i
    → stack_weight dirs (set nodes i new) stack ≡ stack_weight dirs nodes stack
stack_weight-set dirs nodes i new [] e = refl
stack_weight-set dirs nodes i new ((id, child) ∷ stack) e =
    let same = children_at-set nodes i id new e in
    rw same (ground (arith, stack_weight-set dirs nodes i new stack e))
