-- ===== src/HashTable/Index.antt =====
-- A table as an index into a list of distinct paths, which is how the three users of `HashTable`
-- use it.
use filesentry.Common.{
  ℕ, zero, suc, ◌≡◌, ◌≢◌, refl, sym, ap, ◌∙◌, ◌⊎◌, inl, inr, Bool, true, false, Option, none, some,
  List, [], ◌∷◌, ◌++◌, In, arith, length, get_elem?, ◌>>=◌, if◌then◌else◌, Bool-cases, get_elem?_lt,
  get_elem?-append_left, get_elem?-append_end, get_elem?-append_cases,
}
use filesentry.Path.{CanonicalPathBuf, path_eq}
use filesentry.Path.Bytes.{path_eq→≡, path_eq_refl}
use filesentry.HashTable.{Hashing, find, hash_path}
use filesentry.HashTable.Search.{find_in_miss, find_in_hit}

-- The reference: the first index at which a path stands.
unfoldable pub index_of : CanonicalPathBuf → List CanonicalPathBuf → Option ℕ
index_of key [] = none
index_of key (k ∷ keys) = if path_eq k key then some 0 else (do i ← index_of key keys; some (suc i))

pub index_of-some :
    (key : CanonicalPathBuf) (keys : List CanonicalPathBuf) (i : ℕ)
    → index_of key keys ≡ some i
    → get_elem? keys i ≡ some key
unfolding index_of
index_of-some key [] i h = ground arith
index_of-some key (k ∷ keys) zero h = ground (arith, path_eq→≡ k key)
index_of-some key (k ∷ keys) (suc i) h = ground (arith, index_of-some key keys i)

pub index_of-none :
    (key : CanonicalPathBuf) (keys : List CanonicalPathBuf) (i : ℕ)
    → index_of key keys ≡ none
    → get_elem? keys i ≢ some key
unfolding index_of
index_of-none key [] i h = ground arith
index_of-none key (k ∷ keys) zero h = ground (arith, path_eq_refl key)
index_of-none key (k ∷ keys) (suc i) h = ground (arith, index_of-none key keys i)

-- The closures that the code hands over, on a list of paths.
abbrev pub key_eq : List CanonicalPathBuf → CanonicalPathBuf → ℕ → Option Bool
key_eq keys key i = get_elem? keys i >>= λ k. some (path_eq k key)

key_eq_other :
    (keys : List CanonicalPathBuf) (key : CanonicalPathBuf) (i : ℕ) (k : CanonicalPathBuf)
    → get_elem? keys i ≡ some k
    → k ≢ key
    → key_eq keys key i ≡ some false
key_eq_other keys key i k e n = elim (Bool-cases (path_eq k key)) [
  | inl t ↦ absurd (n (path_eq→≡ k key t))
  | inr f ↦ ground arith
]

key_eq_self :
    (keys : List CanonicalPathBuf) (key : CanonicalPathBuf) (i : ℕ)
    → get_elem? keys i ≡ some key
    → key_eq keys key i ≡ some true
key_eq_self keys key i e = ground (arith, path_eq_refl key)

module _ (H : Hashing) where
  abbrev pub key_hash : List CanonicalPathBuf → ℕ → Option ℕ
  key_hash keys i = get_elem? keys i >>= λ k. some (hash_path H k)

  -- Each stored index is in range, with the hash of its path, and each place of the list is stored;
  -- no path stands at two places.
  pub record Indexes (table : H.Table) (keys : List CanonicalPathBuf) : Type 0 where
    pub in_range :
        (h i : ℕ)
        → In {A = ℕ × ℕ} (h, i) (H.stored table)
        → (k : CanonicalPathBuf) × (get_elem? keys i ≡ some k) × (h ≡ hash_path H k)
    pub present :
        (i : ℕ) (k : CanonicalPathBuf)
        → get_elem? keys i ≡ some k
        → In {A = ℕ × ℕ} (hash_path H k, i) (H.stored table)
    pub distinct :
        (i j : ℕ) (k : CanonicalPathBuf)
        → get_elem? keys i ≡ some k
        → get_elem? keys j ≡ some k
        → i ≡ j

  pub Indexes-empty : Indexes H.empty []
  Indexes-empty = record {
    in_range = λ h i m. absurd (rw H.stored-empty at m);
    present = λ i k e. ground arith;
    distinct = λ i j k e. ground arith;
  }

  module _ (table : H.Table) (keys : List CanonicalPathBuf) (v : Indexes table keys)
      (key : CanonicalPathBuf) where
    -- What the search meets is in range.
    probed :
        (i : ℕ)
        → In i (H.probe table (hash_path H key))
        → (k : CanonicalPathBuf) × (get_elem? keys i ≡ some k)
    probed i m =
        let (g, s) = H.probe_stored table (hash_path H key) i m in
        let (k, e, _) = v.in_range g i s in (k, e)

    search_by :
        (o : Option ℕ)
        → index_of key keys ≡ o
        → find H table (hash_path H key) (key_eq keys key) ≡ some o
    unfolding find
    search_by none e = find_in_miss _ _ (λ i m.
        let (k, f) = probed i m in
        key_eq_other keys key i k f (λ q. index_of-none key keys i e (f ∙ ap some q)))
    search_by (some w) e =
        let there = index_of-some key keys w e in
        find_in_hit _ _ w (hit_or_miss w there) (H.stored_probe table _ w (v.present w key there))
          (key_eq_self keys key w there)
      where
        hit_or_miss :
            (w : ℕ)
            → get_elem? keys w ≡ some key
            → (i : ℕ) → In i (H.probe table (hash_path H key))
            → (key_eq keys key i ≡ some false) ⊎ ((key_eq keys key i ≡ some true) × (i ≡ w))
        hit_or_miss w there i m =
            let (k, f) = probed i m in
            elim (Bool-cases (path_eq k key)) [
              | inl t ↦
                  let at_i : get_elem? keys i ≡ some key = f ∙ ap some (path_eq→≡ k key t) in
                  inr (key_eq_self keys key i at_i, v.distinct i w key at_i there)
              | inr n ↦ inl (ground arith)
            ]

    -- The search gives the place of a path, if it is there, and does not panic.
    pub find-index_of : find H table (hash_path H key) (key_eq keys key) ≡ some (index_of key keys)
    find-index_of = search_by (index_of key keys) refl

    stored_hash : (g w : ℕ) → In {A = ℕ × ℕ} (g, w) (H.stored table) → key_hash keys w ≡ some g
    stored_hash g w m = let (k, e, q) = v.in_range g w m in ground arith

    -- Appending a new path and storing its place keeps the index.
    pub insert-Indexes :
        index_of key keys ≡ none
        → Indexes
            (H.insert table (hash_path H key) (length keys) (key_hash keys))
            (keys ++ key ∷ [])
    insert-Indexes fresh = record {
      in_range = λ h i m.
          elim (H.insert_only table _ (length keys) (key_hash keys) stored_hash h i m) [
            | inl (p, q) ↦ (key, rw q (get_elem?-append_end keys key), p)
            | inr old ↦
                let (k, e, q) = v.in_range h i old in
                (k, get_elem?-append_left keys (key ∷ []) i (get_elem?_lt keys i e) ∙ e, q)
          ];
      present = λ i k e. elim (get_elem?-append_cases keys key i e) [
        | inl old ↦
            H.insert_keeps table _ (length keys) (key_hash keys) stored_hash _ i (v.present i k old)
        | inr (p, q) ↦ rw p (rw q (H.insert_new table _ (length keys) (key_hash keys) stored_hash))
      ];
      distinct = λ i j k e f.
          places i j k (get_elem?-append_cases keys key i e) (get_elem?-append_cases keys key j f);
    }
      where
        places :
            (i j : ℕ) (k : CanonicalPathBuf)
            → (get_elem? keys i ≡ some k) ⊎ ((i ≡ length keys) × (k ≡ key))
            → (get_elem? keys j ≡ some k) ⊎ ((j ≡ length keys) × (k ≡ key))
            → i ≡ j
        places i j k (inl e) (inl f) = v.distinct i j k e f
        places i j k (inl e) (inr (f, q)) = absurd (index_of-none key keys i fresh (e ∙ ap some q))
        places i j k (inr (e, q)) (inl f) = absurd (index_of-none key keys j fresh (f ∙ ap some q))
        places i j k (inr (e, q)) (inr (f, r)) = e ∙ sym f

    -- Taking a new entry out again keeps the index of the keys that were there.
    pub remove-Indexes :
        Indexes
          (H.remove
            (H.insert table (hash_path H key) (length keys) (key_hash keys))
            (hash_path H key)
            (length keys))
          keys
    remove-Indexes = record {
      in_range = λ h i m.
          v.in_range h i
            (H.remove_insert table _ (length keys) (key_hash keys) stored_hash not_stored h i m);
      present = λ i k e.
          H.remove_keeps _ _ (length keys) _ i
            (H.insert_keeps table _ (length keys) (key_hash keys) stored_hash _ i (v.present i k e))
            (λ q. omega (arith, q, get_elem?_lt keys i e));
      distinct = v.distinct;
    }
      where
        not_stored : (g : ℕ) → ¬ In {A = ℕ × ℕ} (g, length keys) (H.stored table)
        not_stored g m =
            let (k, e, _) = v.in_range g (length keys) m in
            omega (arith, get_elem?_lt keys (length keys) e)
