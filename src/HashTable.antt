-- ===== src/HashTable.antt =====
-- The calls of hashbrown's `HashTable` that the crate makes, and the `DefaultHashBuilder` beside it.
-- Neither is code of the repository: both enter as a parameter, with what the documentation says.
-- The tables hold indices. `probe t h` is what a search for the hash `h` calls its equality
-- closure on, one after the other; it may hold entries of another hash.
pub mod Index
pub mod Keyed
pub mod Sample
pub mod Consistent
mod Examples
mod Search
use filesentry.Common.{
  ℕ, ◌≡◌, ◌≢◌, ◌⊎◌, Bool, Option, none, some, List, [], ◌∷◌, In, ◌>>=◌, if◌then◌else◌,
}
use filesentry.Path.{CanonicalPathBuf, as_bytes}

pub record Hashing : Type 1 where
  pub Table : Type 0
  -- `HashTable::with_capacity`, `default` and `clear`
  pub empty : Table
  pub probe : Table → ℕ → List ℕ
  -- `entry(hash, eq, hasher)` and `insert` on a vacant entry; the hasher is for a table that grows
  pub insert : Table → ℕ → ℕ → (ℕ → Option ℕ) → Table
  -- `remove` on the entry that was found to hold a value
  pub remove : Table → ℕ → ℕ → Table
  -- the hashes and values that a table holds
  pub stored : Table → List (ℕ × ℕ)
  pub hash_one : List ℕ → ℕ
  pub stored-empty : stored empty ≡ []
  pub probe_stored :
      (t : Table) (h v : ℕ) → In v (probe t h) → (g : ℕ) × In {A = ℕ × ℕ} (g, v) (stored t)
  pub stored_probe : (t : Table) (h v : ℕ) → In {A = ℕ × ℕ} (h, v) (stored t) → In v (probe t h)
  -- for a hasher that gives each value the hash that it was inserted with
  pub insert_new :
      (t : Table) (h v : ℕ) (hasher : ℕ → Option ℕ)
      → ((g w : ℕ) → In {A = ℕ × ℕ} (g, w) (stored t) → hasher w ≡ some g)
      → In {A = ℕ × ℕ} (h, v) (stored (insert t h v hasher))
  pub insert_keeps :
      (t : Table) (h v : ℕ) (hasher : ℕ → Option ℕ)
      → ((g w : ℕ) → In {A = ℕ × ℕ} (g, w) (stored t) → hasher w ≡ some g)
      → (g w : ℕ) → In {A = ℕ × ℕ} (g, w) (stored t)
      → In {A = ℕ × ℕ} (g, w) (stored (insert t h v hasher))
  pub insert_only :
      (t : Table) (h v : ℕ) (hasher : ℕ → Option ℕ)
      → ((g w : ℕ) → In {A = ℕ × ℕ} (g, w) (stored t) → hasher w ≡ some g)
      → (g w : ℕ) → In {A = ℕ × ℕ} (g, w) (stored (insert t h v hasher))
      → ((g ≡ h) × (w ≡ v)) ⊎ In {A = ℕ × ℕ} (g, w) (stored t)
  pub remove_keeps :
      (t : Table) (h v g w : ℕ)
      → In {A = ℕ × ℕ} (g, w) (stored t)
      → w ≢ v
      → In {A = ℕ × ℕ} (g, w) (stored (remove t h v))
  -- for a value that the table held once
  pub remove_insert :
      (t : Table) (h v : ℕ) (hasher : ℕ → Option ℕ)
      → ((g w : ℕ) → In {A = ℕ × ℕ} (g, w) (stored t) → hasher w ≡ some g)
      → ((g : ℕ) → ¬ In {A = ℕ × ℕ} (g, v) (stored t))
      → (g w : ℕ) → In {A = ℕ × ℕ} (g, w) (stored (remove (insert t h v hasher) h v))
      → In {A = ℕ × ℕ} (g, w) (stored t)

-- The closure may panic; the search stops at the first hit.
unfoldable pub find_in : List ℕ → (ℕ → Option Bool) → Option (Option ℕ)
find_in [] eq = some none
find_in (v ∷ vs) eq =
    let rest = find_in vs eq in eq v >>= λ hit. if hit then some (some v) else rest

module _ (H : Hashing) where
  unfoldable pub find : H.Table → ℕ → (ℕ → Option Bool) → Option (Option ℕ)
  find table hash eq = find_in (H.probe table hash) eq

  -- `Hash for CanonicalPathBuf`: the bytes without the terminator.
  unfoldable pub hash_path : CanonicalPathBuf → ℕ
  hash_path path = H.hash_one (as_bytes path.buf)
