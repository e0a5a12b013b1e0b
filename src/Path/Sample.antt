-- ===== src/Path/Sample.antt =====
-- A `memrchr` that meets the interface, for the examples.
use filesentry.Common.{
  ℕ, zero, suc, ◌≡◌, ◌≢◌, ◌<◌, Option, none, some, List, [], ◌∷◌, get_elem?, ◌==◌, if◌then◌else◌,
  arith,
}
use filesentry.Path.{Memrchr}

abbrev rindex : ℕ → List ℕ → Option ℕ
rindex c [] = none
rindex c (x ∷ xs) = elim (rindex c xs) [
  | some i ↦ some (suc i)
  | none ↦ if x == c then some 0 else none
]

pub rindex-none : (c : ℕ) (xs : List ℕ) (i : ℕ) → rindex c xs ≡ none → get_elem? xs i ≢ some c
rindex-none c [] i h = ground arith
rindex-none c (x ∷ xs) zero h = ground arith
rindex-none c (x ∷ xs) (suc i) h = ground (arith, rindex-none c xs i)

pub rindex_at : (c : ℕ) (xs : List ℕ) (i : ℕ) → rindex c xs ≡ some i → get_elem? xs i ≡ some c
rindex_at c [] i h = ground arith
rindex_at c (x ∷ xs) zero h = ground arith
rindex_at c (x ∷ xs) (suc i) h = ground (arith, rindex_at c xs i)

pub rindex_last :
    (c : ℕ) (xs : List ℕ) (i j : ℕ) → rindex c xs ≡ some i → i < j → get_elem? xs j ≢ some c
rindex_last c [] i j h l = ground arith
rindex_last c (x ∷ xs) i zero h l = elim l [ ]
rindex_last c (x ∷ xs) zero (suc j) h l = ground (arith, rindex-none c xs j)
rindex_last c (x ∷ xs) (suc i) (suc j) h l = ground (arith, rindex_last c xs i j)

abbrev pub last_index : Memrchr
last_index = record {
  memrchr = rindex;
  at_index = rindex_at;
  is_last = rindex_last;
  if_none = rindex-none;
}
