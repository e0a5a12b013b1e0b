-- ===== src/HashTable/Keyed.antt =====
-- A list of records that carry a path each, beside the table that indexes it: `Vec<PendingChange>`,
-- `EcoVec<Event>` and `Vec<FsNode>`.
use mathlib.Core.Path.{fun_ext}
use filesentry.Common.{
  ℕ, zero, suc, ◌≡◌, ◌<◌, ◌%◌, ◌^◌, refl, Bool, Option, none, some, List, [], ◌∷◌, ◌++◌, arith,
  length, get_elem?, set, map, ◌>>=◌, if◌then◌else◌, get_elem?_of_map, get_elem?-map_bind, map-set,
  sym, length-map, map-append_one,
}
use filesentry.Path.{CanonicalPathBuf, path_eq}
use filesentry.Path.Bytes.{path_eq→≡, path_eq_refl}
use filesentry.HashTable.{Hashing, find, hash_path}
use filesentry.HashTable.Index.{
  Indexes, index_of, key_eq, key_hash, find-index_of, insert-Indexes, remove-Indexes, index_of-some,
}

-- The two closures, over a list of items.
abbrev pub item_eq :
    {A : Type 0} → (A → CanonicalPathBuf) → List A → CanonicalPathBuf → ℕ → Option Bool
item_eq path xs p i = get_elem? xs i >>= λ x. some (path_eq (path x) p)

abbrev pub item_hash : (H : Hashing) {A : Type 0} → (A → CanonicalPathBuf) → List A → ℕ → Option ℕ
item_hash H path xs i = get_elem? xs i >>= λ x. some (hash_path H (path x))

-- The reference: the first item of a path.
unfoldable pub lookup : {A : Type 0} → (A → CanonicalPathBuf) → CanonicalPathBuf → List A → Option A
lookup path q [] = none
lookup path q (x ∷ xs) = if path_eq (path x) q then some x else lookup path q xs

module _ {A : Type 0} (path : A → CanonicalPathBuf) where
  pub lookup-index_of :
      (xs : List A) (q : CanonicalPathBuf)
      → lookup path q xs ≡ (index_of q (map path xs) >>= λ i. get_elem? xs i)
  unfolding lookup index_of
  lookup-index_of [] q = refl
  lookup-index_of (x ∷ xs) q = ground (arith, lookup-index_of xs q)

  pub lookup_vacant :
      (xs : List A) (p : CanonicalPathBuf)
      → index_of p (map path xs) ≡ none
      → lookup path p xs ≡ none
  lookup_vacant xs p h = rw (lookup-index_of xs p) (rw h refl)

  -- The item at the place of a path.
  pub occupied :
      (xs : List A) (p : CanonicalPathBuf) (i : ℕ)
      → index_of p (map path xs) ≡ some i
      → (x : A) × (get_elem? xs i ≡ some x) × (path x ≡ p) × (lookup path p xs ≡ some x)
  occupied xs p i h =
      let (x, at, same) = get_elem?_of_map path xs i (index_of-some p (map path xs) i h) in
      (x, at, sym same, rw (lookup-index_of xs p) (rw h at))

  pub lookup-append :
      (xs : List A) (x : A) (q : CanonicalPathBuf)
      → index_of (path x) (map path xs) ≡ none
      → lookup path q (xs ++ x ∷ []) ≡ (if path_eq (path x) q then some x else lookup path q xs)
  unfolding lookup index_of
  lookup-append [] x q h = refl
  lookup-append (y ∷ xs) x q h = ground (
    arith,
    lookup-append xs x q,
    path_eq→≡ (path y) (path x),
    path_eq→≡ (path y) q,
    path_eq→≡ (path x) q,
    path_eq_refl (path x),
    path_eq_refl q,
  )

  pub lookup-set :
      (xs : List A) (x : A) (i : ℕ) (q : CanonicalPathBuf)
      → index_of (path x) (map path xs) ≡ some i
      → lookup path q (set xs i x) ≡ (if path_eq (path x) q then some x else lookup path q xs)
  unfolding lookup index_of
  lookup-set [] x i q h = ground arith
  lookup-set (y ∷ xs) x zero q h = ground (
    arith,
    path_eq→≡ (path y) (path x),
    path_eq→≡ (path y) q,
    path_eq→≡ (path x) q,
    path_eq_refl (path x),
    path_eq_refl q,
  )
  lookup-set (y ∷ xs) x (suc i) q h = ground (
    arith,
    lookup-set xs x i q,
    path_eq→≡ (path y) (path x),
    path_eq→≡ (path y) q,
    path_eq→≡ (path x) q,
    path_eq_refl (path x),
    path_eq_refl q,
  )

  module _ (H : Hashing) (table : H.Table) (xs : List A) (v : Indexes H table (map path xs)) where
    -- The search by the closures of the code.
    pub find_item :
        (p : CanonicalPathBuf)
        → find H table (hash_path H p) (item_eq path xs p) ≡ some (index_of p (map path xs))
    find_item p =
        let e : item_eq path xs p ≡ key_eq (map path xs) p =
          fun_ext λ i. get_elem?-map_bind path (λ k. some (path_eq k p)) xs i in
        rw e (find-index_of H table (map path xs) v p)

    -- Pushing a new item and storing its index, cast to `u32`.
    pub insert_item :
        (x : A)
        → index_of (path x) (map path xs) ≡ none
        → length xs < 2 ^ 32
        → Indexes H
            (H.insert table (hash_path H (path x)) (length xs % 2 ^ 32) (item_hash H path xs))
            (map path (xs ++ x ∷ []))
    insert_item x fresh small =
        let e : item_hash H path xs ≡ key_hash H (map path xs) =
          fun_ext λ i. get_elem?-map_bind path (λ k. some (hash_path H k)) xs i in
        let exact : length xs % 2 ^ 32 ≡ length (map path xs) =
          omega (arith, length-map {0, 0} path xs) in
        rw (map-append_one path xs x)
          (rw e (rw exact (insert-Indexes H table (map path xs) v (path x) fresh)))

    -- Taking the entry of an index that has no item yet out again.
    pub remove_item :
        (p : CanonicalPathBuf)
        → Indexes H
            (H.remove
              (H.insert table (hash_path H p) (length xs) (item_hash H path xs))
              (hash_path H p)
              (length xs))
            (map path xs)
    remove_item p =
        let e : item_hash H path xs ≡ key_hash H (map path xs) =
          fun_ext λ i. get_elem?-map_bind path (λ k. some (hash_path H k)) xs i in
        let exact : length xs ≡ length (map path xs) = omega (arith, length-map {0, 0} path xs) in
        rw e (rw exact (remove-Indexes H table (map path xs) v p))

    -- Writing an item of the same path in its place.
    pub set_item :
        (i : ℕ) (old x : A)
        → get_elem? xs i ≡ some old
        → path x ≡ path old
        → Indexes H table (map path (set xs i x))
    set_item i old x at same = rw (map-set path xs i x at same) v
