-- ===== src/Tree/Crawl/Rounds.antt =====
-- The rounds of the crawls: what the walk still has bounds them.
use filesentry.Common.{ℕ, zero, suc, ◌≡◌, ◌≤◌, refl, Bool, some, arith, inl, inr, Option-cases, ◌⊎◌}
use filesentry.Path.{Memrchr, assert_canonicalized}
use filesentry.HashTable.{Hashing}
use filesentry.Config.{Filter}
use filesentry.Tree.Crawl.{
  WalkItem, failed, entry, Walker, Stats, Crawling, visit, crawl_item, crawl_rounds,
}

module _ (H : Hashing) (m : Memrchr) (W : Walker) (stats : Stats) (filter : Filter)
    (recursive : Bool) where
  -- An entry leaves the walk where it is, or leaves the directory.
  crawl_item_walk :
      (st st' : Crawling H) (item : WalkItem) (it it' : W.Iter)
      → crawl_item H m W stats filter recursive st item it ≡ some (st', it')
      → (it' ≡ it) ⊎ (it' ≡ W.skip_current_dir it)
  unfolding crawl_item
  crawl_item_walk st st' failed it it' e = inl (ground arith)
  crawl_item_walk st st' (entry path depth directory) it it' e =
      elim (Option-cases
        (visit H m W stats filter recursive st (assert_canonicalized path) depth)) [
          | inl n ↦ ground arith
          | inr (s, v) ↦ ground arith
        ]

  pub crawl_item_le :
      (st st' : Crawling H) (item : WalkItem) (it it' : W.Iter)
      → crawl_item H m W stats filter recursive st item it ≡ some (st', it')
      → W.remaining it' ≤ W.remaining it
  crawl_item_le st st' item it it' e = elim (crawl_item_walk st st' item it it' e) [
    | inl same ↦ rw same (omega arith)
    | inr skipped ↦ rw skipped (W.remaining-skip it)
  ]

  -- The bound on the rounds does not show: with any two bounds that are not below what the walk still
  -- has, the loop of a crawl ends the same way, so it never ends for want of rounds.
  pub crawl_rounds_enough :
      (n k : ℕ) (st : Crawling H) (it : W.Iter)
      → W.remaining it ≤ n
      → W.remaining it ≤ k
      → crawl_rounds H m W stats filter n recursive st it
        ≡ crawl_rounds H m W stats filter k recursive st it
  unfolding crawl_rounds
  crawl_rounds_enough zero zero st it h l = refl
  crawl_rounds_enough zero (suc k) st it h l = elim (Option-cases (W.next it)) [
    | inl e ↦ ground arith
    | inr ((item, it'), e) ↦ absurd (omega (arith, h, W.remaining-next it it' item e))
  ]
  crawl_rounds_enough (suc n) zero st it h l = elim (Option-cases (W.next it)) [
    | inl e ↦ ground arith
    | inr ((item, it'), e) ↦ absurd (omega (arith, l, W.remaining-next it it' item e))
  ]
  crawl_rounds_enough (suc n) (suc k) st it h l = elim (Option-cases (W.next it)) [
    | inl e ↦ ground arith
    | inr ((item, it'), e) ↦
        let fewer = W.remaining-next it it' item e in
        elim (Option-cases (crawl_item H m W stats filter recursive st item it')) [
          | inl p ↦ ground arith
          | inr ((st', it''), p) ↦
              let less = crawl_item_le st st' item it' it'' p in
              let rest =
                crawl_rounds_enough n k st' it'' (omega (arith, h, fewer, less))
                  (omega (arith, l, fewer, less)) in
              ground arith
        ]
  ]
