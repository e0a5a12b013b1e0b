-- ===== src/Tree/Transaction/Rounds.antt =====
-- The rounds of a transaction: each takes at least one change, so as many rounds as changes are enough.
use filesentry.Common.{
  ℕ, zero, suc, ◌≡◌, ◌≤◌, refl, Bool, true, false, List, [], ◌∷◌, arith, length, if◌then◌else◌, inl,
  inr, Option-cases, Bool-cases,
}
use filesentry.Path.{Memrchr, is_parent_of}
use filesentry.HashTable.{Hashing}
use filesentry.Config.{Filter}
use filesentry.Pending.{PendingChange}
use filesentry.Tree.Crawl.{Walker, Stats, Crawling}
use filesentry.Tree.Transaction.{skip_below, apply_one, apply_rounds}

length-skip_below_le :
    (change : PendingChange) (rest : List PendingChange)
    → length (skip_below change rest) ≤ length rest
unfolding skip_below
length-skip_below_le change [] = omega arith
length-skip_below_le change (next ∷ rest) =
    let shorter = length-skip_below_le change rest in
    elim (Bool-cases (is_parent_of change.path.buf next.path.buf)) [
      | inl under ↦ rw under (omega (arith, shorter))
      | inr over ↦ rw over (omega arith)
    ]

abbrev pub left_over : Bool → PendingChange → List PendingChange → List PendingChange
left_over recurse change rest = if recurse then skip_below change rest else rest

pub left_over_le :
    (recurse : Bool) (change : PendingChange) (rest : List PendingChange)
    → length (left_over recurse change rest) ≤ length rest
left_over_le true change rest = length-skip_below_le change rest
left_over_le false change rest = omega arith

module _ (H : Hashing) (m : Memrchr) (W : Walker) (stats : Stats) (filter : Filter) where
  -- The bound on the rounds does not show: with any two bounds that are not below the number of changes
  -- the loop of a transaction ends the same way, so it never ends for want of rounds.
  pub apply_rounds_enough :
      (n k : ℕ) (st : Crawling H) (changes : List PendingChange)
      → length changes ≤ n
      → length changes ≤ k
      → apply_rounds H m W stats filter n st changes ≡ apply_rounds H m W stats filter k st changes
  unfolding apply_rounds
  apply_rounds_enough zero zero st changes h l = refl
  apply_rounds_enough zero (suc k) st [] h l = refl
  apply_rounds_enough (suc n) zero st [] h l = refl
  apply_rounds_enough (suc n) (suc k) st [] h l = refl
  apply_rounds_enough zero (suc k) st (change ∷ rest) h l = absurd (omega (arith, h))
  apply_rounds_enough (suc n) zero st (change ∷ rest) h l = absurd (omega (arith, l))
  apply_rounds_enough (suc n) (suc k) st (change ∷ rest) h l =
      elim (Option-cases (apply_one H m W stats filter st change)) [
        | inl e ↦ rw e refl
        | inr ((st', recurse), e) ↦
            let fewer = left_over_le recurse change rest in
            rw e (
              apply_rounds_enough n k st' (left_over recurse change rest) (omega (arith, h, fewer))
                (omega (arith, l, fewer)))
      ]
