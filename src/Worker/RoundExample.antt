-- ===== src/Worker/RoundExample.antt =====
-- A round in which a root is added and a changed file is met.
use filesentry.Common.{
  ℕ, ◌≡◌, refl, ap, sym, ◌∙◌, true, false, none, some, Option, List, [], ◌∷◌, arith, length, ◌>>=◌,
  subst,
}
use filesentry.Path.{terminated}
use filesentry.Path.Sample.{last_index}
use filesentry.HashTable.Sample.{exact}
use filesentry.Config.{ignore_git}
use filesentry.Events
use filesentry.Events.View
use filesentry.Pending
use filesentry.Pending.{PendingChanges}
use filesentry.Tree.Sample.{
  exact-SearchApart, exact-OneApart, exact-walked, some-same, idle, idle-IsSound, one_entry, a_file,
}
use filesentry.Metadata.{ok}
use filesentry.Worker.Notified.{NotificationsApart, process_notifications-IsOrderly}
use filesentry.Worker.Examined.{ExamineApart}
use filesentry.Tree.Crawl.RootEnds.{LookApart}
use filesentry.Tree.Roots.Total.{add_total}
use filesentry.Tree.Valid.{IsValid}
use filesentry.Tree.{FileTree}
use filesentry.Tree.Crawl.{Crawling, WalkItem, failed, entry}
use filesentry.Worker.{
  process_root, process_notifications, examine, insert_root, split_roots, prune_roots,
}
use filesentry.Tree.{
  is_dir, node_meta, change_type, id_from, at_id, set_node, reserve_dir, dir_of, add_child,
}
use filesentry.Tree.Roots.{add, add_root, insert_added, rewatch, link, is_linked}
use filesentry.Tree.Crawl.{crawl_root, root_rounds, root_item}
use filesentry.Tree.Transaction.{
  crawl_changed, apply_one, apply_rounds, apply_transaction, skip_below,
}
use filesentry.Tree.Change.{find_parent, discover, apply_found, apply_change, refresh}
use filesentry.Path.{
  is_empty, as_raw_bytes, as_bytes, is_parent_of, parent, push, first_is_separator,
  assert_canonicalized, path_eq, eq_os_str, cmp, strip_nul, cmp_common, rank, len, starts_with,
  is_separator,
}
use filesentry.HashTable.{find_in, find, hash_path}
use filesentry.Pending.{insert_sorted, sort_by_path, take_recrawl, drain}
use filesentry.Metadata.{for_path, mtime_of}
use filesentry.Config.{ignore_git, last_component}
use filesentry.Common.{bytes_eq}
use filesentry.Events.{Event}
use filesentry.Tree.Crawl.Sample.{after_first}
use filesentry.Tree.Roots.{add_found}
use filesentry.Path.{ends_in_nul}
use filesentry.Metadata.{metadata_of}
use filesentry.Config.{last_separator}
use filesentry.Worker.{Worker, AddRoot, process_notifications, examine, round}
use filesentry.Worker.Orderly.{IsOrderly}
use filesentry.Worker.Rounds.{round-IsOrderly, Fits, RoundApart}

abbrev busy : Worker exact
busy = record {
  pending_changes = record {
    path_set = [];
    changes =
        record {
          path = terminated (47 ∷ 100 ∷ 47 ∷ 99 ∷ []);
          flags = record (Pending.empty) { origin_watcher = true };
        }
        ∷ [];
    recrawl = false;
  };
  events = record { table = []; events = [] };
  files = idle;
  roots = (0, true) ∷ [];
  handlers = [];
  notified = [];
}

busy-IsOrderly : IsOrderly exact busy
busy-IsOrderly = record {
  files = idle-IsSound;
  known = (omega arith, tt);
  events = unfold Events.new in Events.View.new-IsValid exact;
  terminated_paths = ((47 ∷ 100 ∷ 47 ∷ 99 ∷ [], refl), tt);
}

abbrev asked : List AddRoot
asked = record { path = terminated (47 ∷ 101 ∷ []); recursive = true } ∷ []

-- How much the round emits.
abbrev emits : Option (Worker exact) → Option ℕ
emits o = o >>= λ ready.
    examine exact last_index one_entry (λ n p. ok a_file) (λ p r. true) (λ n e. true) ignore_git
      ready
    >>= λ x. some (length (x.0.emitted))

emits_one :
    emits (
      process_notifications exact last_index one_entry
        (λ n p. ok a_file)
        (λ p r. true)
        (λ n e. true)
        ignore_git
        busy
        asked)
    ≡ some 1
unfolding last_separator after_first add_found ends_in_nul metadata_of process_root
    process_notifications examine insert_root split_roots prune_roots is_dir node_meta change_type
    id_from at_id set_node reserve_dir dir_of add_child add add_root insert_added rewatch link
    is_linked crawl_root root_rounds root_item crawl_changed apply_one apply_rounds
    apply_transaction skip_below find_parent discover apply_found apply_change refresh is_empty
    as_raw_bytes as_bytes is_parent_of parent push first_is_separator assert_canonicalized path_eq
    eq_os_str cmp strip_nul cmp_common rank len starts_with is_separator find_in find hash_path
    insert_sorted sort_by_path take_recrawl drain for_path mtime_of ignore_git last_component
    bytes_eq
emits_one = refl

busy-Fits :
    Fits exact last_index one_entry
      (λ n p. ok a_file)
      (λ p r. true)
      (λ n e. true)
      1
      (λ root depth. omega arith)
      ignore_git
      busy
      asked
busy-Fits ready files left e f =
    let counted : some (length files.emitted) ≡ some 1 =
      sym (ap emits e ∙ ap (λ o. o >>= λ x. some (length (x.0.emitted))) f) ∙ emits_one in
    ground arith

asked-Apart :
    NotificationsApart exact last_index one_entry
      (λ n p. ok a_file)
      (λ p r. true)
      (λ n e. true)
      1
      (λ root depth. omega arith)
      ignore_git
      busy
      asked
asked-Apart = (
  (
    exact-SearchApart idle.tree idle-IsSound.valid (47 ∷ 101 ∷ []) (for_path (ok a_file)),
    λ tree node added watches root at item it' next.
        let (tree', added', e, v, _) =
          add_total exact last_index idle.tree idle-IsSound.valid (terminated (47 ∷ 101 ∷ [])) true
            true (for_path (ok a_file))
            (exact-SearchApart idle.tree idle-IsSound.valid (47 ∷ 101 ∷ []) (for_path (ok a_file)))
            (omega arith) (omega arith) in
        (
          looks (record idle { tree = tree; watches = terminated (47 ∷ 101 ∷ []) ∷ []; clock = 1 })
              (subst (λ (x : FileTree exact × Option ℕ). IsValid exact (x.0))
                (some-same (tree', added') (tree, some node) e (unfold add_root in added)) v)
              item,
          λ st1 it1 one. tt,
        ),
  ),
  λ self1 one. tt,
)
  where
    looks :
        (x : Crawling exact)
        → IsValid exact x.tree
        → (item : WalkItem)
        → LookApart exact last_index one_entry (λ n p. ok a_file) ignore_git true x item
    looks x v failed = tt
    looks x v (entry path depth directory) =
        λ below kept. exact-walked x.tree v path (for_path (ok a_file))

busy-Apart :
    RoundApart exact last_index one_entry
      (λ n p. ok a_file)
      (λ p r. true)
      (λ n e. true)
      1
      (λ root depth. omega arith)
      ignore_git
      false
      asked
      busy
unfolding sort_by_path insert_sorted
busy-Apart = (
  asked-Apart,
  λ ready unsettled e.
      let (ready', e', o, p, _, _, g) =
        process_notifications-IsOrderly exact last_index one_entry (λ n p. ok a_file) (λ p r. true)
          (λ n e. true) 1 (λ root depth. omega arith) ignore_git busy busy-IsOrderly asked
          asked-Apart (omega arith, omega arith) in
      subst (examines) (some-same ready' ready e' e) (
        λ recrawls. ground (arith, ap (λ (x : PendingChanges exact). x.recrawl) p),
        λ plain. rw p (
          exact-OneApart (λ n p. ok a_file) ignore_git (ready'.files) o.files
              (record {
                path = terminated (47 ∷ 100 ∷ 47 ∷ 99 ∷ []);
                flags = record (Pending.empty) { origin_watcher = true };
              })
              (47 ∷ 100 ∷ 47 ∷ 99 ∷ []) refl (omega (arith, g.few_more_nodes))
              (omega (arith, g.few_more_dirs)),
          λ st1 recurse one. tt,
        ),
      ),
)
  where
    examines : Worker exact → Type 0
    examines x =
        ExamineApart exact last_index one_entry (λ n p. ok a_file) (λ p r. true) (λ n e. true) 1
          (λ root depth. omega arith) ignore_git x

round-IsOrderly_example :
    (self : Worker exact) × (out : Option (List Event)) × (round exact last_index one_entry
        (λ n p. ok a_file)
        (λ p r. true)
        (λ n e. true)
        ignore_git
        false
        asked
        busy
      ≡ some (self, out))
    × IsOrderly exact self
    × (out ≡ none)
round-IsOrderly_example =
    round-IsOrderly exact last_index one_entry (λ n p. ok a_file) (λ p r. true) (λ n e. true) 1
      (λ root depth. omega arith) ignore_git false asked busy busy-IsOrderly busy-Apart
      (omega arith, omega arith) busy-Fits
