-- ===== src/Path/Order.antt =====
-- `cmp` is a total order on canonical paths: the lexicographic order over the ranks.
use filesentry.Common.{
  ℕ, ◌≡◌, ◌↔◌, refl, List, [], ◌∷◌, arith, compare, Ordering, ◌==◌, if◌then◌else◌, length, none,
  some, ◌↔◌, ◌≢◌, ◌∙◌, ap, sym,
}
use Prim.Native.Nat.Ordering.{lt, eq, gt}
use filesentry.Path.{rank, cmp, cmp_common, strip_nul, terminated}
use filesentry.Path.Bytes.{strip_nul-terminated}

-- The reference: a prefix comes first, and else the first difference decides by rank.
unfoldable pub lex : List ℕ → List ℕ → Ordering
lex [] [] = eq
lex [] (r ∷ rhs) = lt
lex (l ∷ lhs) [] = gt
lex (l ∷ lhs) (r ∷ rhs) = if l == r then lex lhs rhs else compare (rank l) (rank r)

lex-cmp_common :
    (lhs rhs : List ℕ)
    → lex lhs rhs
      ≡ elim (cmp_common lhs rhs) [ some o ↦ o | none ↦ compare (length lhs) (length rhs) ]
unfolding lex cmp_common
lex-cmp_common [] [] = refl
lex-cmp_common [] (r ∷ rhs) = ground arith
lex-cmp_common (l ∷ lhs) [] = ground arith
lex-cmp_common (l ∷ lhs) (r ∷ rhs) = ground (arith, lex-cmp_common lhs rhs)

pub cmp-lex : (lhs rhs : List ℕ) → cmp lhs rhs ≡ lex (strip_nul lhs) (strip_nul rhs)
unfolding cmp
cmp-lex lhs rhs = ground (arith, lex-cmp_common (strip_nul lhs) (strip_nul rhs))

pub rank-injective : (a b : ℕ) → rank a ≡ rank b → a ≡ b
unfolding rank
rank-injective a b h = ground arith

pub lex_refl : (a : List ℕ) → lex a a ≡ eq
unfolding lex
lex_refl [] = refl
lex_refl (x ∷ a) = ground (arith, lex_refl a)

eq_of_lex : (a b : List ℕ) → lex a b ≡ eq → a ≡ b
unfolding lex
eq_of_lex [] [] h = refl
eq_of_lex [] (y ∷ b) h = ground arith
eq_of_lex (x ∷ a) [] h = ground arith
eq_of_lex (x ∷ a) (y ∷ b) h = ground (arith, eq_of_lex a b, rank-injective x y)

abbrev pub reverse_ordering : Ordering → Ordering
reverse_ordering lt = gt
reverse_ordering eq = eq
reverse_ordering gt = lt

lex_swap : (a b : List ℕ) → lex a b ≡ reverse_ordering (lex b a)
unfolding lex
lex_swap [] [] = refl
lex_swap [] (y ∷ b) = refl
lex_swap (x ∷ a) [] = refl
lex_swap (x ∷ a) (y ∷ b) = ground (arith, lex_swap a b, rank-injective x y)

lex_trans : (a b c : List ℕ) → lex a b ≡ lt → lex b c ≡ lt → lex a c ≡ lt
unfolding lex
lex_trans [] [] c h k = ground arith
lex_trans [] (y ∷ b) [] h k = ground arith
lex_trans [] (y ∷ b) (z ∷ c) h k = refl
lex_trans (x ∷ a) [] c h k = ground arith
lex_trans (x ∷ a) (y ∷ b) [] h k = ground arith
lex_trans (x ∷ a) (y ∷ b) (z ∷ c) h k =
    ground (arith, lex_trans a b c, rank-injective x y, rank-injective y z)

-- Two buffers compare as equal exactly when they have the same bytes before the terminator.
pub cmp-eq_iff : (a b : List ℕ) → (cmp a b ≡ eq) ↔ (strip_nul a ≡ strip_nul b)
cmp-eq_iff a b = (
  λ h. eq_of_lex (strip_nul a) (strip_nul b) (rw cmp-lex at h),
  λ e. rw cmp-lex (rw e (lex_refl (strip_nul b))),
)

-- Swapping the arguments of `cmp` reverses the result.
pub cmp_swap : (a b : List ℕ) → cmp a b ≡ reverse_ordering (cmp b a)
cmp_swap a b = simp cmp-lex (lex_swap (strip_nul a) (strip_nul b))

-- "Sorts before" is transitive.
pub cmp_trans : (a b c : List ℕ) → cmp a b ≡ lt → cmp b c ≡ lt → cmp a c ≡ lt
cmp_trans a b c h k =
    rw cmp-lex
      (lex_trans (strip_nul a) (strip_nul b) (strip_nul c) (rw cmp-lex at h) (rw cmp-lex at k))

pub cmp-terminated : (a b : List ℕ) → cmp (terminated a).buf (terminated b).buf ≡ lex a b
cmp-terminated a b = rw cmp-lex (simp strip_nul-terminated)

cmp_left : (a b c : List ℕ) → strip_nul a ≡ strip_nul b → cmp a c ≡ cmp b c
cmp_left a b c e = cmp-lex a c ∙ ap (λ x. lex x (strip_nul c)) e ∙ sym (cmp-lex b c)

cmp_right : (a b c : List ℕ) → strip_nul b ≡ strip_nul c → cmp a b ≡ cmp a c
cmp_right a b c e = cmp-lex a b ∙ ap (lex (strip_nul a)) e ∙ sym (cmp-lex a c)

-- "Does not sort after" is transitive.
pub cmp_le_trans : (a b c : List ℕ) → cmp a b ≢ gt → cmp b c ≢ gt → cmp a c ≢ gt
cmp_le_trans a b c h k = by_order (cmp a b) (cmp b c) refl refl
  where
    by_order : (o p : Ordering) → cmp a b ≡ o → cmp b c ≡ p → cmp a c ≢ gt
    by_order gt p e f = absurd (h e)
    by_order lt gt e f = absurd (k f)
    by_order eq gt e f = absurd (k f)
    by_order lt lt e f = λ q. ground (arith, cmp_trans a b c e f)
    by_order lt eq e f = λ q. ground (arith, cmp_right a b c ((cmp-eq_iff b c).0 f))
    by_order eq lt e f = λ q. ground (arith, cmp_left a b c ((cmp-eq_iff a b).0 e))
    by_order eq eq e f = λ q. ground (arith, cmp_left a b c ((cmp-eq_iff a b).0 e))
