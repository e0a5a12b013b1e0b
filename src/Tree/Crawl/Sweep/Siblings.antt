-- ===== src/Tree/Crawl/Sweep/Siblings.antt =====
-- An entry that `lstat` gives no metadata for, in the two kinds of crawl.
use filesentry.Common.{ℕ, suc, ◌≡◌, ◌+◌, Bool, false, none, some, List, arith, map}
use mathlib.Core.List.{append-nil}
use filesentry.Path.{Memrchr, assert_canonicalized}
use filesentry.HashTable.{Hashing}
use filesentry.HashTable.Index.{index_of}
use filesentry.Config.{Filter}
use filesentry.Metadata.{for_path}
use filesentry.Tree.{node_path}
use filesentry.Tree.Valid.{IsValid, node_find}
use filesentry.Tree.Change.{apply_change, apply_found}
use filesentry.Tree.Roots.{add}
use filesentry.Tree.Crawl.{Walker, Stats, Crawling, entry, crawl_item, root_item}

-- Take an entry that is no directory, is not ignored and not in the (valid) tree, and that is a link,
-- a socket or gone, so that it has no metadata. `crawl` leaves the walk as it is and goes on with its
-- siblings; `crawl_root` leaves the directory that it is in, and so never comes to the rest of it.
pub crawl_root_skips_siblings :
    (H : Hashing) (m : Memrchr) (W : Walker) (stats : Stats) (filter : Filter) (recursive : Bool)
    (st : Crawling H) (v : IsValid H st.tree) (path : List ℕ) (depth : ℕ) (it : W.Iter)
    → filter path (some false) ≡ false
    → index_of (assert_canonicalized path) (map node_path st.tree.nodes) ≡ none
    → for_path (stats st.clock (assert_canonicalized path)) ≡ none
    → (crawl_item H m W stats filter recursive st (entry path (suc depth) false) it
        ≡ some (record st { clock = st.clock + 1 }, it))
      × (root_item H m W stats filter recursive st (entry path (suc depth) false) it
          ≡ some (record st { clock = st.clock + 1 }, W.skip_current_dir it))
crawl_root_skips_siblings H m W stats filter recursive st v path depth it kept fresh no_meta = (
  unfold crawl_item apply_change apply_found in
      ground (arith, node_find H st.tree v (assert_canonicalized path), append-nil st.emitted),
  unfold root_item add in ground (arith, node_find H st.tree v (assert_canonicalized path)),
)
