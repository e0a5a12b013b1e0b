-- ===== src/Pending/Sorted.antt =====
-- As many changes are drained as were pending.
use filesentry.Common.{suc, ◌≡◌, ◌∙◌, refl, ap, List, [], ◌∷◌, arith, length}
use filesentry.Pending.{PendingChange, insert_sorted, sort_by_path}

length-insert_sorted :
    (c : PendingChange) (xs : List PendingChange) → length (insert_sorted c xs) ≡ suc (length xs)
unfolding insert_sorted
length-insert_sorted c [] = refl
length-insert_sorted c (x ∷ xs) = ground (arith, length-insert_sorted c xs)

pub length-sort : (xs : List PendingChange) → length (sort_by_path xs) ≡ length xs
unfolding sort_by_path
length-sort [] = refl
length-sort (x ∷ xs) = length-insert_sorted x (sort_by_path xs) ∙ ap suc (length-sort xs)
