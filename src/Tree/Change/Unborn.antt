-- ===== src/Tree/Change/Unborn.antt =====
-- The search for a parent in `apply_change`, after the new id is in the table and before its node exists.
use filesentry.Common.{ℕ, ◌≡◌, ◌<◌, refl, none, some, List, [], ◌∷◌, arith, length, get_elem?, map}
use filesentry.Path.{Memrchr, parent}
use filesentry.HashTable.{Hashing, find, hash_path, find_in}
use filesentry.HashTable.Index.{index_of}
use filesentry.Pending.{PendingChange}
use filesentry.Metadata.{Metadata}
use filesentry.Tree.{FileTree, node_path, node_hash, at_id, none_id, id_from}
use filesentry.Tree.Valid.{IsValid, node_find}
use filesentry.Tree.Change.{apply_change, apply_found, find_parent, discover}

get_elem?_end : {A : Type 0} (xs : List A) → get_elem? xs (length xs) ≡ none
get_elem?_end [] = refl
get_elem?_end (x ∷ xs) = get_elem?_end xs

at_id_end : {A : Type 0} (xs : List A) → at_id xs (length xs) ≡ none
unfolding at_id
at_id_end xs = ground (arith, get_elem?_end xs)

module _ (H : Hashing) (m : Memrchr) where
  -- If the table's search for the parent's hash comes first to the id that was just inserted, its
  -- closure reads a node that does not exist yet: `apply_change` panics on a new path, whether or not
  -- the parent is in the tree. (A search may meet entries of other hashes.)
  pub apply_change_panics :
      (t : FileTree H) (v : IsValid H t) (change : PendingChange) (fs_meta : Metadata)
      (up rest : List ℕ)
      → index_of change.path (map node_path t.nodes) ≡ none
      → length t.nodes < none_id
      → parent m change.path.buf ≡ some up
      → H.probe
          (H.insert t.path_table (hash_path H change.path) (length t.nodes) (node_hash H t.nodes))
          (H.hash_one up)
        ≡ length t.nodes ∷ rest
      → apply_change H m t change (some fs_meta) ≡ none
  unfolding apply_change apply_found
  apply_change_panics t v change fs_meta up rest fresh room e first =
      rw (node_find H t v change.path) (rw fresh (panics t change fs_meta up rest room e first))
    where
      panics :
          (t : FileTree H) (change : PendingChange) (fs_meta : Metadata) (up rest : List ℕ)
          → length t.nodes < none_id
          → parent m change.path.buf ≡ some up
          → H.probe
              (H.insert t.path_table
                (hash_path H change.path)
                (length t.nodes)
                (node_hash H t.nodes))
              (H.hash_one up)
            ≡ length t.nodes ∷ rest
          → discover H m t change fs_meta ≡ none
      panics t change fs_meta up rest room e first =
          unfold discover find_parent id_from find find_in in ground (arith, at_id_end t.nodes)
