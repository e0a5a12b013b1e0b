-- ===== src/Pending/Drain.antt =====
-- `drain` hands the changes out in tree order.
use filesentry.Path.Bytes.{strip_nul-terminated}
use filesentry.HashTable.Index.{Indexes-empty}
use Prim.Native.Nat.{Ordering, suc}
use mathlib.Core.List.{Perm}
use mathlib.Core.List.Perm
use mathlib.Core.Path.{subst₂}
use filesentry.Common.{
  ℕ, ◌≡◌, ◌≢◌, refl, ap, some, List, [], ◌∷◌, arith, get_elem?, map, not, sym, ◌∙◌,
}
use Prim.Native.Nat.Ordering.{lt, eq, gt}
use filesentry.Path.{CanonicalPathBuf, cmp, terminated}
use filesentry.Path.Order.{cmp_swap, cmp_trans, cmp-eq_iff}
use filesentry.HashTable.{Hashing}
use filesentry.Pending.{
  PendingChange, PendingChanges, change_path, insert_sorted, sort_by_path, drain, is_empty,
}
use filesentry.Pending.View.{IsValid}

-- `c` sorts strictly before all of a list.
abbrev pub Before : PendingChange → List PendingChange → Type 0
Before c [] = Unit
Before c (x ∷ xs) = (cmp c.path.buf x.path.buf ≡ lt) × Before c xs

abbrev pub IsAscending : List PendingChange → Type 0
IsAscending [] = Unit
IsAscending (x ∷ xs) = Before x xs × IsAscending xs

-- No path of the list compares as equal to that of `c`.
abbrev Apart : PendingChange → List PendingChange → Type 0
Apart c [] = Unit
Apart c (x ∷ xs) = (cmp c.path.buf x.path.buf ≢ eq) × Apart c xs

abbrev AllApart : List PendingChange → Type 0
AllApart [] = Unit
AllApart (x ∷ xs) = Apart x xs × AllApart xs

Before-trans :
    (c d : PendingChange) (xs : List PendingChange)
    → cmp c.path.buf d.path.buf ≡ lt
    → Before d xs
    → Before c xs
Before-trans c d [] h b = tt
Before-trans c d (x ∷ xs) h b =
    (cmp_trans c.path.buf d.path.buf x.path.buf h b.0, Before-trans c d xs h b.1)

Before-insert_sorted :
    (d c : PendingChange) (xs : List PendingChange)
    → cmp d.path.buf c.path.buf ≡ lt
    → Before d xs
    → Before d (insert_sorted c xs)
unfolding insert_sorted
Before-insert_sorted d c [] h b = (h, tt)
Before-insert_sorted d c (x ∷ xs) h b = ground (arith, Before-insert_sorted d c xs h)

insert_sorted-IsAscending :
    (c : PendingChange) (xs : List PendingChange)
    → Apart c xs
    → IsAscending xs
    → IsAscending (insert_sorted c xs)
unfolding insert_sorted
insert_sorted-IsAscending c [] n s = (tt, tt)
insert_sorted-IsAscending c (x ∷ xs) n s = ground (
  arith,
  insert_sorted-IsAscending c xs,
  Before-trans c x xs,
  Before-insert_sorted x c xs,
  cmp_swap c.path.buf x.path.buf,
)

Apart-insert_sorted :
    (d c : PendingChange) (xs : List PendingChange)
    → cmp d.path.buf c.path.buf ≢ eq
    → Apart d xs
    → Apart d (insert_sorted c xs)
unfolding insert_sorted
Apart-insert_sorted d c [] h b = (h, tt)
Apart-insert_sorted d c (x ∷ xs) h b = ground (arith, Apart-insert_sorted d c xs h)

Apart-sort : (c : PendingChange) (xs : List PendingChange) → Apart c xs → Apart c (sort_by_path xs)
unfolding sort_by_path
Apart-sort c [] n = tt
Apart-sort c (x ∷ xs) n = Apart-insert_sorted c x (sort_by_path xs) n.0 (Apart-sort c xs n.1)

sort-IsAscending : (xs : List PendingChange) → AllApart xs → IsAscending (sort_by_path xs)
unfolding sort_by_path
sort-IsAscending [] n = tt
sort-IsAscending (x ∷ xs) n =
    insert_sorted-IsAscending x (sort_by_path xs) (Apart-sort x xs n.0) (sort-IsAscending xs n.1)

insert_sorted-perm :
    (c : PendingChange) (xs : List PendingChange) → Perm (insert_sorted c xs) (c ∷ xs)
unfolding insert_sorted
insert_sorted-perm c [] = Perm.refl _
insert_sorted-perm c (x ∷ xs) =
    by_order (cmp c.path.buf x.path.buf)
      (Perm.trans (Perm.cons x (insert_sorted-perm c xs)) (Perm.swap c x xs))
  where
    by_order :
        (o : Ordering)
        → Perm (x ∷ insert_sorted c xs) (c ∷ x ∷ xs)
        → Perm
            (elim o as (λ _. List PendingChange) [ gt ↦ x ∷ insert_sorted c xs | _ ↦ c ∷ x ∷ xs ])
            (c ∷ x ∷ xs)
    by_order gt later = later
    by_order lt later = Perm.refl _
    by_order eq later = Perm.refl _

sort-perm : (xs : List PendingChange) → Perm (sort_by_path xs) xs
unfolding sort_by_path
sort-perm [] = Perm.refl _
sort-perm (x ∷ xs) =
    Perm.trans (insert_sorted-perm x (sort_by_path xs)) (Perm.cons x (sort-perm xs))

-- Each path of a list ends in its terminator.
abbrev pub AllTerminated : List PendingChange → Type 0
AllTerminated [] = Unit
AllTerminated (c ∷ cs) = ((b : List ℕ) × (c.path ≡ terminated b)) × AllTerminated cs

cmp-eq-terminated :
    (p q : CanonicalPathBuf) (a b : List ℕ)
    → p ≡ terminated a
    → q ≡ terminated b
    → cmp p.buf q.buf ≡ eq
    → p ≡ q
cmp-eq-terminated p q a b e f h =
    let same : a ≡ b =
      sym (strip_nul-terminated a)
      ∙ (cmp-eq_iff (terminated a).buf (terminated b).buf).0
          (subst₂ (λ x y. cmp x.buf y.buf ≡ eq) e f h)
      ∙ strip_nul-terminated b in
    e ∙ ap terminated same ∙ sym f

Apart-of_distinct :
    (x : PendingChange) (xs : List PendingChange) (a : List ℕ)
    → x.path ≡ terminated a
    → AllTerminated xs
    → ((i : ℕ) → get_elem? (map change_path xs) i ≢ some x.path)
    → Apart x xs
Apart-of_distinct x [] a e t n = tt
Apart-of_distinct x (y ∷ xs) a e t n = (
  λ h. n 0 (ap some (sym (cmp-eq-terminated x.path y.path a t.0.0 e t.0.1 h))),
  Apart-of_distinct x xs a e t.1 (λ i. n (suc i)),
)

AllApart-of_distinct :
    (xs : List PendingChange)
    → AllTerminated xs
    → ((i j : ℕ) (k : CanonicalPathBuf)
        → get_elem? (map change_path xs) i ≡ some k
        → get_elem? (map change_path xs) j ≡ some k
        → i ≡ j)
    → AllApart xs
AllApart-of_distinct [] t d = tt
AllApart-of_distinct (x ∷ xs) t d = (
  Apart-of_distinct x xs t.0.0 t.0.1 t.1 (λ i h. absurd (omega (arith, d 0 (suc i) x.path refl h))),
  AllApart-of_distinct xs t.1 (λ i j k e f. omega (arith, d (suc i) (suc j) k e f)),
)

-- On a valid queue whose paths are terminated, `drain` hands out the changes, each once, in strictly
-- ascending order of their paths, and leaves a valid queue, which is empty unless a recrawl is pending.
pub drain_lem :
    (H : Hashing) (c : PendingChanges H)
    → IsValid H c
    → AllTerminated c.changes
    → IsAscending (drain H c).0
      × Perm (drain H c).0 c.changes
      × IsValid H (drain H c).1
      × (is_empty H (drain H c).1 ≡ not c.recrawl)
unfolding drain is_empty
drain_lem H c v t = (
  sort-IsAscending c.changes (AllApart-of_distinct c.changes t v.indexed.distinct),
  sort-perm c.changes,
  record { indexed = Indexes-empty H; from_watcher = tt; recrawl_only = λ h. refl },
  ground arith,
)
