-- ===== src/HashTable/Examples.antt =====
-- Two paths of the same length, in the sample table.
use filesentry.Common.{◌≡◌, ◌↔◌, true, List, [], ◌∷◌, ℕ}
use Prim.Native.Nat.Ordering.{eq}
use filesentry.Path.{cmp, path_eq, eq_os_str, terminated}
use filesentry.HashTable.{hash_path}
use filesentry.HashTable.Sample.{exact}
use filesentry.HashTable.Consistent.{eq_ord_hash}

abbrev d_a : List ℕ
d_a = 47 ∷ 100 ∷ 47 ∷ 97 ∷ []

abbrev d_b : List ℕ
d_b = 47 ∷ 100 ∷ 47 ∷ 98 ∷ []

eq_ord_hash_example :
    ((cmp (terminated d_a).buf (terminated d_b).buf ≡ eq)
      ↔ (path_eq (terminated d_a) (terminated d_b) ≡ true))
    × (path_eq (terminated d_a) (terminated d_b) ≡ eq_os_str (terminated d_a) d_b)
    × (eq_os_str (terminated d_a) d_b ≡ true
        → hash_path exact (terminated d_a) ≡ exact.hash_one d_b)
eq_ord_hash_example = eq_ord_hash exact d_a d_b
