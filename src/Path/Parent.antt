-- ===== src/Path/Parent.antt =====
-- The parent of a path is shorter than the path.
use filesentry.Common.{
  ℕ, zero, suc, ◌≡◌, ◌<◌, ◌≤◌, ap, some, List, [], ◌∷◌, ◌++◌, arith, length, get_elem?, take,
  Option-cases, inl, inr, length-append, get_elem?_lt, get_elem?-append_end, subst,
}
use filesentry.Path.{Memrchr, parent, path_separator, terminated}

length-take_le : (n : ℕ) (xs : List ℕ) → length (take n xs) ≤ n
length-take_le zero xs = omega arith
length-take_le (suc n) [] = omega arith
length-take_le (suc n) (x ∷ xs) = omega (arith, length-take_le n xs)

-- Whatever search for the last separator: the parent of a terminated path is shorter than its body.
pub parent-shorter :
    (m : Memrchr) (a up : List ℕ) → parent m (terminated a).buf ≡ some up → length up < length a
unfolding parent
parent-shorter m a up e = elim (Option-cases (m.memrchr path_separator (terminated a).buf)) [
  | inl n ↦ absurd (ground arith)
  | inr (i, at) ↦
      let here = m.at_index path_separator (a ++ 0 ∷ []) i at in
      let inside = get_elem?_lt (a ++ 0 ∷ []) i here in
      let same : take i (a ++ 0 ∷ []) ≡ up = ground arith in
      let last : ¬ (i ≡ length a) = λ q. ground (
        arith,
        subst (λ k. get_elem? (a ++ 0 ∷ []) k ≡ some path_separator) q here,
        get_elem?-append_end a 0,
      ) in
      omega (
        arith,
        inside,
        length-append {0} a (0 ∷ []),
        last,
        ap length same,
        length-take_le i (a ++ 0 ∷ []),
      )
]
