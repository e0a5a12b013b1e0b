-- ===== src/Tree/Sample.antt =====
-- A watched directory, a walk that yields a new file, and a table that tells the paths apart.
use filesentry.Common.{
  ℕ, zero, suc, ◌≡◌, ◌<◌, ◌==◌, not, refl, true, false, Option, some, if◌then◌else◌, ◌++◌, sym,
  subst, ◌∙◌, ◌+◌, List, [], ◌∷◌, In, inl, inr, arith, length, get_elem?, ap, get_elem?_lt, map,
  length-map,
}
use filesentry.Path.{
  CanonicalPathBuf, terminated, assert_canonicalized, first_is_separator, path_separator, push,
}
use filesentry.Path.Sample.{last_index}
use filesentry.Path.Parent.{parent-shorter}
use filesentry.Path.Bytes.{as_bytes-terminated}
use filesentry.HashTable.{hash_path}
use filesentry.HashTable.Sample.{exact, of_hash_stored}
use filesentry.HashTable.Index.{Indexes-empty, index_of}
use filesentry.HashTable.Keyed.{item_hash, insert_item}
use filesentry.Metadata.{Metadata, Stat, regular_file, pos}
use filesentry.Tree.{FileTree, FsNode, node_path, none_id, dir, recursive_flags}
use filesentry.Tree.Valid.{IsValid}
use filesentry.Tree.Change.Parents.{SearchApart, Searched_of_apart}
use filesentry.Tree.Change.Total.{apply_change_total}
use filesentry.Tree.Change.Sizes.{apply_change-Grows}
use filesentry.Tree.Change.{Applied}
use filesentry.Pending.{PendingChange}
use filesentry.Config.{Filter}
use filesentry.Metadata.{for_path}
use filesentry.Tree.{contains_recursive}
use filesentry.Tree.Crawl.{Walker, WalkItem, failed, entry, Crawling, Stats}
use filesentry.Tree.Crawl.Entering.{IsSound, seen, enter-IsSound}
use filesentry.Tree.Crawl.Leaving.{Framed-Grows}
use filesentry.Tree.Crawl.Ends.{CrawlApart, ItemApart}
use filesentry.Tree.Transaction.Ends.{OneApart}
use filesentry.Tree.Crawl.Sample.{items}

unfoldable walked_path : List ℕ → List ℕ
walked_path path = if first_is_separator path then path else path_separator ∷ path

canonical : (path : List ℕ) → assert_canonicalized path ≡ terminated (walked_path path)
unfolding assert_canonicalized walked_path push
canonical path = refl

-- With a table whose searches meet the entries of one hash only, and a hash that tells a path from its
-- parent, a search in a valid tree does not meet the entry that was just put in.
pub exact-SearchApart :
    (t : FileTree exact)
    → IsValid exact t
    → (a : List ℕ) → (fs_meta : Option Metadata)
    → SearchApart exact last_index t (terminated a) fs_meta
unfolding hash_path
exact-SearchApart t v a fs_meta found met fresh up e mem =
    let table : List (ℕ × ℕ) = (hash_path exact (terminated a), length t.nodes) ∷ t.path_table in
    elim (of_hash_stored table (length up) (length t.nodes) mem) [
      | inl head ↦
          let same : length up ≡ hash_path exact (terminated a) = ap (λ (x : ℕ × ℕ). x.0) head in
          omega (arith, parent-shorter last_index a up e, same, ap length (as_bytes-terminated a))
      | inr rest ↦
          let (k, at, _) = v.indexed.in_range (length up) (length t.nodes) rest in
          omega (
            arith,
            get_elem?_lt (map node_path t.nodes) (length t.nodes) at,
            length-map node_path t.nodes,
          )
    ]

pub exact-walked :
    (t : FileTree exact)
    → IsValid exact t
    → (path : List ℕ) → (fs_meta : Option Metadata)
    → SearchApart exact last_index t (assert_canonicalized path) fs_meta
exact-walked t v path fs_meta =
    subst (λ (p : CanonicalPathBuf). SearchApart exact last_index t p fs_meta)
      (sym (canonical path)) (exact-SearchApart t v (walked_path path) fs_meta)

abbrev pub d : CanonicalPathBuf
d = terminated (47 ∷ 100 ∷ [])

abbrev pub home : FsNode
home = record { path = d; meta = dir; inode = 2; flags = recursive_flags; children = 0 }

abbrev pub watched : FileTree exact
watched = record {
  path_table = exact.insert exact.empty (hash_path exact d) 0 (item_hash exact node_path []);
  nodes = home ∷ [];
  dirs = [] ∷ [];
}

pub watched-IsValid : IsValid exact watched
watched-IsValid = record {
  indexed =
      insert_item node_path exact exact.empty [] (Indexes-empty exact) home
        (unfold index_of in refl) (omega arith);
  few_nodes = omega arith;
  few_dirs = omega arith;
  has_dir = children;
  has_node = members;
}
  where
    children :
        (i : ℕ) (node : FsNode)
        → get_elem? watched.nodes i ≡ some node
        → not (node.children == none_id) ≡ true
        → node.children < 1
    children zero node e s = ground arith
    children (suc i) node e s = ground arith

    members : (k i : ℕ) (ids : List ℕ) → get_elem? watched.dirs k ≡ some ids → In i ids → i < 1
    members zero i ids e mem = ground arith
    members (suc k) i ids e mem = ground arith

abbrev pub idle : Crawling exact
idle = record { tree = watched; work_stack = []; emitted = []; watches = []; clock = 0 }

pub idle-IsSound : IsSound exact idle
idle-IsSound = record { valid = watched-IsValid; framed = tt }

-- Each walk yields `/d/b`.
abbrev pub one_entry : Walker
one_entry = record items { start = λ root depth. entry (47 ∷ 100 ∷ 47 ∷ 98 ∷ []) 1 false ∷ [] }

abbrev pub a_file : Stat
a_file = record {
  st_mtime = pos 6;
  st_mtime_nsec = 0;
  file_type = regular_file;
  st_size = 4;
  st_ino = 7;
}

-- What a call returned and what it is known to return.
pub some-same : {A : Type 0} → {o : Option A} → (a b : A) → o ≡ some a → o ≡ some b → a ≡ b
some-same a b e f = ground (arith, sym e ∙ f)

module _ (stats : Stats) (filter : Filter) where
  -- A crawl from a sound state, with a walk of one entry.
  pub exact-CrawlApart :
      (st : Crawling exact)
      → IsSound exact st
      → (id : ℕ) (node : FsNode) → id < length st.tree.nodes
      → CrawlApart exact last_index one_entry stats filter st id node
  exact-CrawlApart st s id node small entered e item it' next =
      let (entered', e', s', _) =
        enter-IsSound exact (record st { watches = st.watches ++ node.path ∷ [] })
          (record { valid = s.valid; framed = s.framed }) id 0 small in
      (
        subst
            (λ (x : Crawling exact).
              ItemApart exact last_index one_entry stats filter (contains_recursive node.flags) x
                item)
            (some-same entered' entered e' e) (items_apart entered' s'.valid item),
        λ st1 it1 one. tt,
      )
    where
      items_apart :
          (x : Crawling exact)
          → IsValid exact x.tree
          → (item : WalkItem)
          → ItemApart exact last_index one_entry stats filter (contains_recursive node.flags) x item
      items_apart x v failed = tt
      items_apart x v (entry path depth directory) =
          λ kept. exact-walked x.tree v path (for_path (stats x.clock (assert_canonicalized path)))

  pub exact-OneApart :
      (st : Crawling exact)
      → IsSound exact st
      → (change : PendingChange) (a : List ℕ) → change.path ≡ terminated a
      → length st.tree.nodes < none_id
      → length st.tree.dirs + 1 < none_id
      → OneApart exact last_index one_entry stats filter 1 (λ root depth. omega arith) st change
  exact-OneApart st s change a e room space =
      let fs_meta = for_path (stats st.clock change.path) in
      let apart : SearchApart exact last_index st.tree change.path fs_meta =
        subst (λ (p : CanonicalPathBuf). SearchApart exact last_index st.tree p fs_meta) (sym e)
          (exact-SearchApart st.tree s.valid a fs_meta) in
      let (r', done, v, _) =
        apply_change_total exact last_index st.tree s.valid change fs_meta room space
          (Searched_of_apart exact last_index st.tree s.valid change fs_meta apart) in
      let g =
        apply_change-Grows exact last_index st.tree change fs_meta r' done (omega (arith, space)) in
      let s' : IsSound exact (seen exact st r') = record {
        valid = v;
        framed = Framed-Grows exact st.tree r'.tree st.work_stack g s.framed;
      } in
      (
        apart,
        λ r applied recurses node at crawls.
            exact-CrawlApart (seen exact st r)
              (subst (λ (x : Applied exact). IsSound exact (seen exact st x))
                (some-same r' r done applied) s')
              r.node node (get_elem?_lt r.tree.nodes r.node at),
      )
