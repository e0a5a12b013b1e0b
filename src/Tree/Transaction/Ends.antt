-- ===== src/Tree/Transaction/Ends.antt =====
-- A transaction ends without a panic and keeps the tree valid.
use filesentry.Common.{
  ℕ, zero, suc, ◌≡◌, ◌≤◌, ◌<◌, ◌∙◌, ◌+◌, ◌*◌, refl, Bool, true, false, none, some, Option, List, [],
  ◌∷◌, ◌>>=◌, ◌&&◌, not, if◌then◌else◌, arith, get_elem?, get_elem?_of_lt, inl, inr, Bool-cases,
  length,
}
use filesentry.Path.{Memrchr, as_bytes}
use filesentry.HashTable.{Hashing}
use filesentry.Config.{Filter}
use filesentry.Metadata.{for_path}
use filesentry.Pending.{PendingChange, PendingChanges, drain, sort_by_path}
use filesentry.Pending.Sorted.{length-sort}
use filesentry.Tree.{FsNode, at_id, is_some_id, none_id, is_dir, contains_recursive}
use filesentry.Tree.Valid.{at_id_of_lt}
use filesentry.Tree.Grow.Sizes.{Grows, Grows-refl, Grows-trans, Grows-weaken}
use filesentry.Tree.Change.{Applied, apply_change}
use filesentry.Tree.Change.Total.{apply_change_total}
use filesentry.Tree.Change.Sizes.{apply_change-Grows}
use filesentry.Tree.Change.Parents.{SearchApart, Searched_of_apart}
use filesentry.Tree.Crawl.{Walker, Stats, Crawling, crawl}
use filesentry.Tree.Crawl.Leaving.{Framed-Grows}
use filesentry.Tree.Crawl.Entering.{IsSound, seen}
use filesentry.Tree.Crawl.Ends.{CrawlApart, crawl-IsSound}
use filesentry.Tree.Transaction.Rounds.{left_over_le}
use filesentry.Tree.Transaction.{
  skip_below, crawl_changed, apply_one, apply_rounds, apply_transaction,
}
use native.Mathlib.Nat.{suc-mul}

module _ (H : Hashing) (m : Memrchr) (W : Walker) (stats : Stats) (filter : Filter) (most : ℕ)
    (bounded : (root : List ℕ) (depth : Option ℕ) → W.remaining (W.start root depth) ≤ most) where
  abbrev Sound : ℕ → ℕ → Crawling H → Option (Crawling H) → Type 0
  Sound n d st result =
      (st' : Crawling H) × (result ≡ some st') × IsSound H st' × Grows H n d st.tree st'.tree

  crawl_changed_step :
      (st : Crawling H) (change : PendingChange) (id : ℕ) (node : FsNode)
      → is_some_id id ≡ true
      → at_id st.tree.nodes id ≡ some node
      → crawl_changed H m W stats filter st change id ≡ (
          if is_dir node.meta && not (filter (as_bytes change.path.buf) (some true))
          then crawl H m W stats filter st id
          else some st)
  unfolding crawl_changed
  crawl_changed_step st change id node is_node at = ground arith

  crawl_changed_none :
      (st : Crawling H) (change : PendingChange) (id : ℕ)
      → is_some_id id ≡ false
      → crawl_changed H m W stats filter st change id ≡ some st
  unfolding crawl_changed
  crawl_changed_none st change id no_node = ground arith

  -- In the crawl of a changed directory, if there is one, no search for a parent meets the id that was just
  -- inserted.
  abbrev pub ChangedApart : Crawling H → PendingChange → ℕ → Type 0
  ChangedApart st change id =
      (node : FsNode)
      → get_elem? st.tree.nodes id ≡ some node
      → (is_dir node.meta && not (filter (as_bytes change.path.buf) (some true))) ≡ true
      → CrawlApart H m W stats filter st id node

  -- No search for a parent that the change itself calls for does, nor one of its crawl.
  abbrev pub OneApart : Crawling H → PendingChange → Type 0
  OneApart st change =
      SearchApart H m st.tree change.path (for_path (stats st.clock change.path))
      × ((r : Applied H)
          → apply_change H m st.tree change (for_path (stats st.clock change.path)) ≡ some r
          → r.recurse ≡ true
          → ChangedApart (seen H st r) change r.node)

  -- That is so of each change that is applied, in the tree that there then is.
  abbrev pub ChangesApart : ℕ → Crawling H → List PendingChange → Type 0
  ChangesApart zero st changes = Unit
  ChangesApart (suc n) st [] = Unit
  ChangesApart (suc n) st (change ∷ rest) =
      OneApart st change
      × ((st1 : Crawling H) (recurse : Bool)
          → apply_one H m W stats filter st change ≡ some (st1, recurse)
          → ChangesApart n st1 (if recurse then skip_below change rest else rest))

  crawl_changed-IsSound :
      (st : Crawling H) (s : IsSound H st) (change : PendingChange) (id : ℕ)
      → ChangedApart st change id
      → (is_some_id id ≡ true → id < length st.tree.nodes)
      → length st.tree.nodes + most ≤ none_id
      → length st.tree.dirs + 2 * most ≤ none_id
      → Sound most (2 * most) st (crawl_changed H m W stats filter st change id)
  crawl_changed-IsSound st s change id apart small room space = elim (Bool-cases (is_some_id id)) [
    | inr no_node ↦ (
      st,
      crawl_changed_none st change id no_node,
      s,
      Grows-weaken H (Grows-refl H st.tree) (omega arith) (omega arith),
    )
    | inl is_node ↦
        let (node, at) = get_elem?_of_lt st.tree.nodes id (small is_node) in
        let step =
          crawl_changed_step st change id node is_node
            (at_id_of_lt st.tree.nodes id s.valid.few_nodes ∙ at) in
        let few =
          bounded (as_bytes node.path.buf)
            (if contains_recursive node.flags then none else some 1) in
        elim (Bool-cases
          (is_dir node.meta && not (filter (as_bytes change.path.buf) (some true)))) [
            | inr skips ↦ (
              st,
              step ∙ rw skips refl,
              s,
              Grows-weaken H (Grows-refl H st.tree) (omega arith) (omega arith),
            )
            | inl crawls ↦
                let (st', done, s', g) =
                  crawl-IsSound H m W stats filter st s id node at (apart node at crawls)
                    (omega (arith, room, few)) (omega (arith, space, few)) in
                (st', step ∙ rw crawls done, s', Grows-weaken H g few (omega (arith, few)))
          ]
  ]

  apply_one_step :
      (st : Crawling H) (change : PendingChange) (r : Applied H)
      → apply_change H m st.tree change (for_path (stats st.clock change.path)) ≡ some r
      → apply_one H m W stats filter st change ≡ (
          if r.recurse
          then (crawl_changed H m W stats filter (seen H st r) change r.node >>= λ st'.
              some (st', true))
          else some (seen H st r, false))
  unfolding apply_one
  apply_one_step st change r applied = rw applied refl

  apply_one-IsSound :
      (st : Crawling H) (s : IsSound H st) (change : PendingChange)
      → OneApart st change
      → length st.tree.nodes + (most + 1) ≤ none_id
      → length st.tree.dirs + 2 * (most + 1) ≤ none_id
      → (st' : Crawling H) × (recurse : Bool) × (apply_one H m W stats filter st change
          ≡ some (st', recurse))
        × IsSound H st'
        × Grows H (most + 1) (2 * (most + 1)) st.tree st'.tree
  apply_one-IsSound st s change apart room space =
      let fs_meta = for_path (stats st.clock change.path) in
      let searched = Searched_of_apart H m st.tree s.valid change fs_meta apart.0 in
      let (r, applied, v, has_node) =
        apply_change_total H m st.tree s.valid change fs_meta (omega (arith, room))
          (omega (arith, space)) searched in
      let g = apply_change-Grows H m st.tree change fs_meta r applied (omega (arith, space)) in
      let s1 : IsSound H (seen H st r) = record {
        valid = v;
        framed = Framed-Grows H st.tree r.tree st.work_stack g s.framed;
      } in
      let step = apply_one_step st change r applied in
      elim (Bool-cases r.recurse) [
        | inr stays ↦ (
          seen H st r,
          false,
          step ∙ rw stays refl,
          s1,
          Grows-weaken H g (omega arith) (omega arith),
        )
        | inl recurses ↦
            let (st', crawled, s', g') =
              crawl_changed-IsSound (seen H st r) s1 change r.node (apart.1 r applied recurses)
                has_node (omega (arith, room, g.few_more_nodes))
                (omega (arith, space, g.few_more_dirs)) in
            (
              st',
              true,
              step ∙ rw (recurses, crawled) refl,
              s',
              Grows-weaken H (Grows-trans H g g') (omega arith) (omega arith),
            )
      ]

  rounds_step :
      (n : ℕ) (st st' : Crawling H) (change : PendingChange) (rest : List PendingChange)
      (recurse : Bool)
      → apply_one H m W stats filter st change ≡ some (st', recurse)
      → apply_rounds H m W stats filter (suc n) st (change ∷ rest)
        ≡ apply_rounds H m W stats filter n st' (if recurse then skip_below change rest else rest)
  unfolding apply_rounds
  rounds_step n st st' change rest recurse one = rw one refl

  apply_rounds-IsSound :
      (n : ℕ) (st : Crawling H) (s : IsSound H st) (changes : List PendingChange)
      → length changes ≤ n
      → ChangesApart n st changes
      → length st.tree.nodes + n * (most + 1) ≤ none_id
      → length st.tree.dirs + 2 * (n * (most + 1)) ≤ none_id
      → Sound
          (n * (most + 1))
          (2 * (n * (most + 1)))
          st
          (apply_rounds H m W stats filter n st changes)
  unfolding apply_rounds
  apply_rounds-IsSound zero st s [] few t room space =
      (st, refl, s, Grows-weaken H (Grows-refl H st.tree) (omega arith) (omega arith))
  apply_rounds-IsSound zero st s (change ∷ rest) few t room space = absurd (omega (arith, few))
  apply_rounds-IsSound (suc n) st s [] few t room space =
      (st, refl, s, Grows-weaken H (Grows-refl H st.tree) (omega arith) (omega arith))
  apply_rounds-IsSound (suc n) st s (change ∷ rest) few t room space =
      let more = suc-mul n (most + 1) in
      let (st1, recurse, one, s1, g1) =
        apply_one-IsSound st s change t.0 (omega (arith, room, more))
          (omega (arith, space, more)) in
      let (st2, done, s2, g2) =
        apply_rounds-IsSound n st1 s1 (if recurse then skip_below change rest else rest)
          (omega (arith, few, left_over_le recurse change rest)) (t.1 st1 recurse one)
          (omega (arith, room, more, g1.few_more_nodes))
          (omega (arith, space, more, g1.few_more_dirs)) in
      (
        st2,
        rounds_step n st st1 change rest recurse one ∙ done,
        s2,
        Grows-weaken H (Grows-trans H g1 g2) (omega (arith, more)) (omega (arith, more)),
      )

  -- In this transaction no search for a parent meets the id that was just inserted.
  abbrev pub TransactionApart : Crawling H → PendingChanges H → Type 0
  TransactionApart st transaction =
      ChangesApart (length (sort_by_path transaction.changes)) st (sort_by_path transaction.changes)

  -- A transaction, on a valid tree with a stack of directories, and with room for a node and a whole walk for
  -- each change: it ends without a panic, in a valid tree with a stack of directories, and leaves no
  -- pending change. This is so provided that no walk yields more than `most` entries, and in this
  -- transaction no search for the parent of a new path meets the id that was just inserted.
  pub apply_transaction-IsSound :
      (st : Crawling H) (s : IsSound H st) (transaction : PendingChanges H)
      → TransactionApart st transaction
      → length st.tree.nodes + length transaction.changes * (most + 1) ≤ none_id
      → length st.tree.dirs + 2 * (length transaction.changes * (most + 1)) ≤ none_id
      → (st' : Crawling H) × (left : PendingChanges H) × (apply_transaction H m W stats filter st
            transaction
          ≡ some (st', left))
        × IsSound H st'
        × (left.changes ≡ [])
        × (length st.tree.nodes ≤ length st'.tree.nodes)
  unfolding apply_transaction drain
  apply_transaction-IsSound st s transaction t room space =
      let same = length-sort transaction.changes in
      let (st', done, s', g) =
        apply_rounds-IsSound (length (sort_by_path transaction.changes)) st s
          (sort_by_path transaction.changes) (omega arith) t (rw same room) (rw same space) in
      (
        st',
        record transaction { path_set = H.empty; changes = [] },
        rw done refl,
        s',
        refl,
        g.more_nodes,
      )
