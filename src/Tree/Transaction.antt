-- ===== src/Tree/Transaction.antt =====
-- `FileTree::apply_transaction`: the drained changes, in tree order, each applied or covered by a crawl.
pub mod Covered
pub mod Rounds
mod Examples
pub mod Ends
use filesentry.Common.{
  ℕ, zero, suc, ◌+◌, Bool, true, false, not, ◌&&◌, ◌||◌, Option, none, some, List, [], ◌∷◌, ◌++◌,
  length, get_elem?, ◌>>=◌, if◌then◌else◌,
}
use filesentry.Path.{Memrchr, is_parent_of, as_bytes}
use filesentry.HashTable.{Hashing}
use filesentry.Config.{Filter}
use filesentry.Metadata.{for_path}
use filesentry.Pending.{PendingChange, PendingChanges, drain}
use filesentry.Tree.{FileTree, at_id, is_some_id, is_dir}
use filesentry.Tree.Change.{Applied, apply_change}
use filesentry.Tree.Crawl.{Walker, Stats, Crawling, crawl}

-- `while transaction.next_if(|next| change.path.is_parent_of(&next.path)).is_some() {}`
unfoldable pub skip_below : PendingChange → List PendingChange → List PendingChange
skip_below change [] = []
skip_below change (next ∷ rest) =
    let later = skip_below change rest in
    if is_parent_of change.path.buf next.path.buf then later else next ∷ rest

module _ (H : Hashing) (m : Memrchr) (W : Walker) (stats : Stats) (filter : Filter) where
  -- The crawl of a directory that is not ignored.
  unfoldable pub crawl_changed : Crawling H → PendingChange → ℕ → Option (Crawling H)
  unfolding crawl at_id is_dir
  crawl_changed st change id =
      if is_some_id id
      then (do
        node ← at_id st.tree.nodes id
        if is_dir node.meta && not (filter (as_bytes change.path.buf) (some true))
            then crawl H m W stats filter st id
            else some st)
      else some st

  -- One change: the state, and whether the changes below it are to be skipped.
  unfoldable pub apply_one : Crawling H → PendingChange → Option (Crawling H × Bool)
  unfolding crawl_changed apply_change for_path
  apply_one st change = do
    applied ← apply_change H m st.tree change (for_path (stats st.clock change.path))
    let seen : Crawling H = record st {
      tree = applied.tree;
      emitted = st.emitted ++ applied.emitted;
      clock = st.clock + 1;
    }
    if applied.recurse
        then (do st' ← crawl_changed seen change applied.node; some (st', true))
        else some (seen, false)

  unfoldable pub apply_rounds : ℕ → Crawling H → List PendingChange → Option (Crawling H)
  unfolding apply_one skip_below
  apply_rounds zero st [] = some st
  apply_rounds zero st (change ∷ rest) = none
  apply_rounds (suc fuel) st [] = some st
  apply_rounds (suc fuel) st (change ∷ rest) = do
    (st', recurse) ← apply_one st change
    apply_rounds fuel st' (if recurse then skip_below change rest else rest)

  -- The state, and the pending changes, drained.
  unfoldable pub apply_transaction :
      Crawling H → PendingChanges H → Option (Crawling H × PendingChanges H)
  unfolding apply_rounds drain
  apply_transaction st transaction = do
    let (changes, left) = drain H transaction
    st' ← apply_rounds (length changes) st changes
    some (st', left)
