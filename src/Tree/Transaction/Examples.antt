-- ===== src/Tree/Transaction/Examples.antt =====
-- A watched directory, crawled: the walk yields a new file.
use filesentry.Tree.Sample.{d}
use filesentry.Tree.Sample.{
  one_entry, a_file, idle, watched, exact-CrawlApart, exact-OneApart, idle-IsSound, home,
}
use filesentry.Common.{◌≡◌, ◌≤◌, refl, true, false, some, [], ◌∷◌, arith, length}
use filesentry.Path.Sample.{last_index}
use filesentry.HashTable.Sample.{exact}
use filesentry.Config.{ignore_git}
use filesentry.Metadata.{ok}
use filesentry.Pending
use filesentry.Pending.{PendingChange, PendingChanges, sort_by_path, insert_sorted}
use filesentry.Tree.Grow.Sizes.{Grows}
use filesentry.Tree.Crawl.{Crawling, crawl}
use filesentry.Tree.Crawl.Entering.{IsSound}
use filesentry.Tree.Crawl.Ends.{crawl-IsSound}
use filesentry.Tree.Transaction.{apply_transaction}
use filesentry.Tree.Transaction.Ends.{TransactionApart, apply_transaction-IsSound}

crawl-IsSound_example :
    (st : Crawling exact) × (crawl exact last_index one_entry (λ n p. ok a_file) ignore_git idle 0
      ≡ some st)
    × IsSound exact st
    × Grows exact 1 2 watched st.tree
crawl-IsSound_example =
    crawl-IsSound exact last_index one_entry (λ n p. ok a_file) ignore_git idle idle-IsSound 0 home
      refl (exact-CrawlApart (λ n p. ok a_file) ignore_git idle idle-IsSound 0 home (omega arith))
      (omega arith) (omega arith)

abbrev changed : PendingChanges exact
changed = record {
  path_set = [];
  changes =
      record { path = d; flags = record (Pending.empty) { needs_recursive_crawl = true } } ∷ [];
  recrawl = false;
}

changed-Apart :
    TransactionApart exact last_index one_entry
      (λ n p. ok a_file)
      ignore_git
      1
      (λ root depth. omega arith)
      idle
      changed
unfolding sort_by_path insert_sorted
changed-Apart = (
  exact-OneApart (λ n p. ok a_file) ignore_git idle idle-IsSound
      (record { path = d; flags = record (Pending.empty) { needs_recursive_crawl = true } })
      (47 ∷ 100 ∷ []) refl (omega arith) (omega arith),
  λ st1 recurse one. tt,
)

apply_transaction-IsSound_example :
    (st : Crawling exact) × (left : PendingChanges exact) × (apply_transaction exact last_index
        one_entry
        (λ n p. ok a_file)
        ignore_git
        idle
        changed
      ≡ some (st, left))
    × IsSound exact st
    × (left.changes ≡ [])
    × (1 ≤ length st.tree.nodes)
apply_transaction-IsSound_example =
    apply_transaction-IsSound exact last_index one_entry (λ n p. ok a_file) ignore_git 1
      (λ root depth. omega arith) idle idle-IsSound changed changed-Apart (omega arith)
      (omega arith)
