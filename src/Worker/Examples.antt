-- ===== src/Worker/Examples.antt =====
-- Roots `/d`, `/d/a` and `/e` of the worker.
use filesentry.Common.{ℕ, ◌≡◌, refl, true, false, some, List, [], ◌∷◌, arith}
use filesentry.Path.{terminated, cmp}
use filesentry.HashTable.Sample.{sample}
use filesentry.Config.{ignore_git}
use filesentry.Tree.{FileTree, FsNode, none_id, dir, recursive_flags, at_id}
use filesentry.Worker
use filesentry.Worker.{prune_roots, insert_root}
use filesentry.Worker.Sorted.{AreSorted, insert_root-AreSorted}
use filesentry.Worker.Roots.{remaining, prune_roots_lem, insert_root_again}

abbrev d : List ℕ
d = 47 ∷ 100 ∷ []

abbrev d_a : List ℕ
d_a = 47 ∷ 100 ∷ 47 ∷ 97 ∷ []

abbrev e : List ℕ
e = 47 ∷ 101 ∷ []

abbrev directory : List ℕ → FsNode
directory path = record {
  path = terminated path;
  meta = dir;
  inode = 1;
  flags = recursive_flags;
  children = none_id;
}

abbrev three : FileTree sample
three = record {
  path_table = [];
  nodes = directory d ∷ directory d_a ∷ directory e ∷ [];
  dirs = [];
}

abbrev below_and_behind : Worker.Roots
below_and_behind = (1, true) ∷ (2, true) ∷ []

prune_roots_lem_example :
    prune_roots sample three ignore_git (terminated d) below_and_behind
    ≡ some (remaining sample three ignore_git (terminated d) below_and_behind)
prune_roots_lem_example =
    prune_roots_lem sample three ignore_git (terminated d) d below_and_behind refl (
      directory d_a,
      d_a,
      unfold at_id in refl,
      refl,
      unfold cmp in refl,
      (directory e, e, unfold at_id in refl, refl, unfold cmp in refl, tt),
    )

insert_root_again_example :
    insert_root sample three ignore_git (terminated d) true 0 ((0, false) ∷ (1, true) ∷ [])
    ≡ some ((0, true) ∷ (0, false) ∷ (1, true) ∷ [])
insert_root_again_example =
    insert_root_again sample three ignore_git 0 false (directory d) d ((1, true) ∷ [])
      (unfold at_id in refl) refl

in_order : AreSorted sample three ((0, true) ∷ (2, true) ∷ [])
in_order = (
  (
    directory d,
    unfold at_id in refl,
    ((directory e, unfold at_id in refl, unfold cmp in λ q. ground arith), tt),
  ),
  ((directory e, unfold at_id in refl, tt), tt),
)

insert_root-AreSorted_example :
    (roots : Worker.Roots) × (insert_root sample three ignore_git
        (terminated d_a)
        true
        1
        ((0, true) ∷ (2, true) ∷ [])
      ≡ some roots)
    × AreSorted sample three roots
insert_root-AreSorted_example =
    insert_root-AreSorted sample three ignore_git true 1 (directory d_a)
      ((0, true) ∷ (2, true) ∷ []) (unfold at_id in refl) in_order
