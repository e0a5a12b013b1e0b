-- ===== src/Tree/Transaction/Covered.antt =====
-- The changes that a transaction skips.
use filesentry.Common.{
  ℕ, ◌≡◌, refl, ap, true, false, List, [], ◌∷◌, ◌++◌, arith, inl, inr, Bool-cases,
}
use Prim.Native.Nat.Ordering.{lt}
use filesentry.Path.{cmp, is_parent_of, terminated}
use filesentry.Path.Subtree.{subtree_contiguous}
use filesentry.Pending.{PendingChange}
use filesentry.Pending.Drain.{Before, IsAscending, AllTerminated}
use filesentry.Tree.Transaction.{skip_below}

-- All changes of a list are below a path, and none is.
abbrev pub AllBelow : PendingChange → List PendingChange → Type 0
AllBelow c [] = Unit
AllBelow c (x ∷ xs) = (is_parent_of c.path.buf x.path.buf ≡ true) × AllBelow c xs

abbrev pub NoneBelow : PendingChange → List PendingChange → Type 0
NoneBelow c [] = Unit
NoneBelow c (x ∷ xs) = (is_parent_of c.path.buf x.path.buf ≡ false) × NoneBelow c xs

-- In tree order, once a path is not below `c`, no later path is.
none_later :
    (c x y : PendingChange) (a b d : List ℕ)
    → c.path ≡ terminated a
    → x.path ≡ terminated b
    → y.path ≡ terminated d
    → cmp c.path.buf x.path.buf ≡ lt
    → cmp x.path.buf y.path.buf ≡ lt
    → is_parent_of c.path.buf x.path.buf ≡ false
    → is_parent_of c.path.buf y.path.buf ≡ false
none_later c x y a b d p q r h k n = elim (Bool-cases (is_parent_of c.path.buf y.path.buf)) [
  | inr apart ↦ apart
  | inl under ↦
      let between =
        subtree_contiguous a b d (rw p at (rw r at under)) (rw p at (rw q at h))
          (rw q at (rw r at k)) in
      let over : is_parent_of c.path.buf x.path.buf ≡ true = rw p (rw q between) in ground arith
]

NoneBelow-later :
    (c x : PendingChange) (xs : List PendingChange) (a b : List ℕ)
    → c.path ≡ terminated a
    → x.path ≡ terminated b
    → cmp c.path.buf x.path.buf ≡ lt
    → is_parent_of c.path.buf x.path.buf ≡ false
    → Before x xs
    → AllTerminated xs
    → NoneBelow c xs
NoneBelow-later c x [] a b p q h n s t = tt
NoneBelow-later c x (y ∷ xs) a b p q h n s t =
    (none_later c x y a b t.0.0 p q t.0.1 h s.0 n, NoneBelow-later c x xs a b p q h n s.1 t.1)

-- When a change has been crawled, what is skipped is exactly what is below it: the changes behind it, in tree
-- order, are some that are all below it and then the rest, of which none is.
pub skip_below_lem :
    (c : PendingChange) (xs : List PendingChange)
    → IsAscending (c ∷ xs)
    → AllTerminated (c ∷ xs)
    → (skipped : List PendingChange) × (xs ≡ skipped ++ skip_below c xs)
      × AllBelow c skipped
      × NoneBelow c (skip_below c xs)
unfolding skip_below
skip_below_lem c [] s t = ([], refl, tt, tt)
skip_below_lem c (x ∷ xs) s t = elim (Bool-cases (is_parent_of c.path.buf x.path.buf)) [
  | inl under ↦
      let (skipped, e, all, rest) = skip_below_lem c xs (s.0.1, s.1.1) (t.0, t.1.1) in
      (x ∷ skipped, rw under (ap (◌∷◌ x) e), (under, all), rw under rest)
  | inr over ↦ (
    [],
    rw over refl,
    tt,
    rw over (over, NoneBelow-later c x xs t.0.0 t.1.0.0 t.0.1 t.1.0.1 s.0.0 over s.1.0 t.1.1),
  )
]
