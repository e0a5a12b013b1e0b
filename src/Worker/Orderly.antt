-- ===== src/Worker/Orderly.antt =====
-- What the worker holds, in order.
use filesentry.Common.{ℕ, ◌≤◌, ◌+◌, ◌*◌, [], ◌∷◌, ◌++◌, arith, length}
use filesentry.Path.{CanonicalPathBuf}
use filesentry.HashTable.{Hashing}
use filesentry.Events
use filesentry.Events.{Event}
use filesentry.Events.View
use filesentry.Pending.Drain.{AllTerminated}
use filesentry.Tree.{FileTree, none_id}
use filesentry.Tree.Grow.Sizes.{Grows}
use filesentry.Tree.Crawl.{Crawling}
use filesentry.Tree.Crawl.Entering.{IsSound}
use filesentry.Worker.{Worker}
use filesentry.Worker.Known.{AllKnown}

module _ (H : Hashing) where
  -- The tree is valid, the roots are nodes, the debouncer is valid, the paths to examine are terminated.
  pub record IsOrderly (self : Worker H) : Type 0 where
    pub files : IsSound H self.files
    pub known : AllKnown (length self.files.tree.nodes) self.roots
    pub events : Events.View.IsValid H self.events
    pub terminated_paths : AllTerminated self.pending_changes.changes

  -- Room for so many nodes, and twice as many directories.
  abbrev pub Room : ℕ → FileTree H → Type 0
  Room n t = (length t.nodes + n ≤ none_id) × (length t.dirs + 2 * n ≤ none_id)

  pub Room-Grows :
      (n k : ℕ) {d : ℕ} {t t' : FileTree H}
      → Room (n + k) t
      → Grows H n d t t'
      → d ≤ 2 * n
      → Room k t'
  Room-Grows n k room g le =
      (omega (arith, room.0, g.few_more_nodes), omega (arith, room.1, g.few_more_dirs, le))

  -- A path has been looked at, and its node watched.
  abbrev pub looked : Crawling H → FileTree H → Crawling H
  looked st tree = record st { tree = tree; clock = st.clock + 1 }

  abbrev pub watched : Crawling H → FileTree H → CanonicalPathBuf → Crawling H
  watched st tree path = record (looked st tree) { watches = st.watches ++ path ∷ [] }
