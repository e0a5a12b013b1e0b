-- ===== src/Path/Windows.antt =====
-- src/path.rs as it is compiled for windows: another separator, and no terminator.
use filesentry.Common.{
  ℕ, ◌≡◌, ◌↔◌, refl, Bool, true, ◌&&◌, List, [], ◌∷◌, ◌++◌, arith, length, get_elem?, ◌==◌, none,
  some, Option, if◌then◌else◌, ◌≢◌, false, subst, sym,
}
use filesentry.Path.{CannonicalPath, CanonicalPathBuf, is_empty, starts_with}

abbrev pub path_separator : ℕ
path_separator = b'\\'

-- `EMPTY` is a dot.
unfoldable pub as_bytes : CannonicalPath → List ℕ
as_bytes [] = b'.' ∷ []
as_bytes (c ∷ cs) = c ∷ cs

unfoldable pub is_separator : Option ℕ → Bool
is_separator none = false
is_separator (some c) = c == path_separator

unfoldable pub is_parent_of : CannonicalPath → CannonicalPath → Bool
unfolding as_bytes is_separator starts_with
is_parent_of self other =
    starts_with (as_bytes other) (as_bytes self) && is_separator (get_elem? other (length self))

unfoldable pub first_is_separator : List ℕ → Bool
first_is_separator [] = false
first_is_separator (c ∷ cs) = c == path_separator

unfoldable pub push : CanonicalPathBuf → List ℕ → CanonicalPathBuf
unfolding first_is_separator
push self src = record {
  buf = self.buf ++ (if first_is_separator src then src else path_separator ∷ src);
}

unfoldable pub join : CannonicalPath → List ℕ → CanonicalPathBuf
unfolding push is_empty
join self other =
    if is_empty self then push (record { buf = [] }) other else push (record { buf = self }) other

below_rest :
    (d b : List ℕ)
    → (starts_with b d && is_separator (get_elem? b (length d))) ≡ true
    → (rest : List ℕ) × (b ≡ d ++ path_separator ∷ rest)
unfolding starts_with is_separator
below_rest [] [] h = ground arith
below_rest [] (y ∷ b) h = (b, ground arith)
below_rest (x ∷ d) [] h = ground arith
below_rest (x ∷ d) (y ∷ b) h = let (rest, e) = below_rest d b (ground arith) in (rest, ground arith)

below_append :
    (d rest : List ℕ)
    → (starts_with (d ++ path_separator ∷ rest) d
        && is_separator (get_elem? (d ++ path_separator ∷ rest) (length d)))
      ≡ true
unfolding starts_with is_separator
below_append [] rest = refl
below_append (x ∷ d) rest = ground (arith, below_append d rest)

-- `is_parent_of` holds exactly between a path that is not empty and what continues it with a separator.
pub is_parent_of_iff :
    (d b : List ℕ)
    → d ≢ []
    → (is_parent_of d b ≡ true) ↔ ((rest : List ℕ) × (b ≡ d ++ path_separator ∷ rest))
unfolding is_parent_of as_bytes is_separator
is_parent_of_iff [] b n = absurd (n refl)
is_parent_of_iff (c ∷ d) [] n = (λ h. ground arith, λ w. ground arith)
is_parent_of_iff (c ∷ d) (y ∷ b) n = (
  below_rest (c ∷ d) (y ∷ b),
  λ w. subst (λ (x : List ℕ). is_parent_of (c ∷ d) x ≡ true) (sym w.1) (below_append (c ∷ d) w.0),
)
