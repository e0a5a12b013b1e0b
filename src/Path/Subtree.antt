-- ===== src/Path/Subtree.antt =====
-- Tree order: `is_parent_of` on bytes, and where `cmp` puts a directory's descendants.
use filesentry.Common.{
  ℕ, ◌≡◌, refl, Bool, true, ◌&&◌, List, [], ◌∷◌, ◌++◌, arith, length, get_elem?, ◌↔◌,
}
use Prim.Native.Nat.Ordering.{lt}
use filesentry.Path.{path_separator, rank, cmp, is_parent_of, starts_with, is_separator, terminated}
use filesentry.Path.Bytes.{as_bytes-terminated, len-terminated}
use filesentry.Path.Order.{lex, cmp-terminated}

-- The test of `is_parent_of` on the bodies of two terminated paths.
below : List ℕ → List ℕ → Bool
below other self =
    starts_with other self && is_separator (get_elem? (other ++ 0 ∷ []) (length self))

is_parent_of-below : (d b : List ℕ) → is_parent_of (terminated d).buf (terminated b).buf ≡ below b d
unfolding is_parent_of below
is_parent_of-below d b =
    rw (as_bytes-terminated d) (rw (as_bytes-terminated b) (rw (len-terminated d)))

below_append : (d rest : List ℕ) → below (d ++ path_separator ∷ rest) d ≡ true
unfolding below starts_with is_separator
below_append [] rest = refl
below_append (x ∷ d) rest = ground (arith, below_append d rest)

below_rest : (b d : List ℕ) → below b d ≡ true → (rest : List ℕ) × (b ≡ d ++ path_separator ∷ rest)
unfolding below starts_with is_separator
below_rest [] [] h = ground arith
below_rest (y ∷ b) [] h = (b, ground arith)
below_rest [] (x ∷ d) h = ground arith
below_rest (y ∷ b) (x ∷ d) h = let (rest, e) = below_rest b d (ground arith) in (rest, ground arith)

-- `is_parent_of` holds exactly between a path and its descendants at any depth: those that
-- continue it with a separator.
pub is_parent_of_iff :
    (d b : List ℕ)
    → (is_parent_of (terminated d).buf (terminated b).buf ≡ true)
      ↔ ((rest : List ℕ) × (b ≡ d ++ path_separator ∷ rest))
is_parent_of_iff d b = (
  λ h. below_rest b d (rw (is_parent_of-below d b) at h),
  λ w. rw (is_parent_of-below d b) (rw (w.1) (below_append d w.0)),
)

lex-below : (d rest : List ℕ) → lex d (d ++ path_separator ∷ rest) ≡ lt
unfolding lex
lex-below [] rest = refl
lex-below (x ∷ d) rest = ground (arith, lex-below d rest)

-- A directory sorts before each of its descendants.
pub cmp-is_parent_of :
    (d b : List ℕ)
    → is_parent_of (terminated d).buf (terminated b).buf ≡ true
    → cmp (terminated d).buf (terminated b).buf ≡ lt
cmp-is_parent_of d b h =
    let (rest, e) = (is_parent_of_iff d b).0 h in rw cmp-terminated (rw e (lex-below d rest))

lex_between :
    (d c rest : List ℕ) → lex d c ≡ lt → lex c (d ++ path_separator ∷ rest) ≡ lt → below c d ≡ true
unfolding lex below starts_with is_separator rank
lex_between [] [] rest h k = ground arith
lex_between [] (y ∷ c) rest h k = ground arith
lex_between (x ∷ d) [] rest h k = ground arith
lex_between (x ∷ d) (y ∷ c) rest h k = ground (arith, lex_between d c rest)

-- What sorts between a directory and one of its descendants is a descendant of it too: the
-- subtree of a directory is a contiguous run, right behind the directory.
pub subtree_contiguous :
    (d c b : List ℕ)
    → is_parent_of (terminated d).buf (terminated b).buf ≡ true
    → cmp (terminated d).buf (terminated c).buf ≡ lt
    → cmp (terminated c).buf (terminated b).buf ≡ lt
    → is_parent_of (terminated d).buf (terminated c).buf ≡ true
subtree_contiguous d c b h k l =
    let (rest, e) = (is_parent_of_iff d b).0 h in
    rw (is_parent_of-below d c)
      (lex_between d c rest (rw cmp-terminated at k) (rw e at (rw cmp-terminated at l)))
