-- ===== src/HashTable/Sample.antt =====
-- A table that meets the interface, for the examples: a list that every search walks from its newest
-- entry on, whatever the hash.
use filesentry.Common.{
  ℕ, ◌≡◌, ◌≢◌, ◌⊎◌, inl, inr, refl, List, [], ◌∷◌, In, ◌==◌, if◌then◌else◌, length, arith, ◌++◌,
  In-append_one, subst, In-append_end, ap, In-append_first,
}
use filesentry.HashTable.{Hashing}

abbrev values : List (ℕ × ℕ) → List ℕ
values [] = []
values ((h, v) ∷ t) = v ∷ values t

abbrev without : ℕ → List (ℕ × ℕ) → List (ℕ × ℕ)
without v [] = []
without v ((h, w) ∷ t) = let rest = without v t in if w == v then rest else (h, w) ∷ rest

pub values_stored : (t : List (ℕ × ℕ)) (v : ℕ) → In v (values t) → (g : ℕ) × In {A = ℕ × ℕ} (g, v) t
values_stored [] v m = absurd m
values_stored ((h, w) ∷ t) v (inl e) = (h, inl (ground arith))
values_stored ((h, w) ∷ t) v (inr m) = let (g, k) = values_stored t v m in (g, inr k)

pub stored_values : (t : List (ℕ × ℕ)) (h v : ℕ) → In {A = ℕ × ℕ} (h, v) t → In v (values t)
stored_values [] h v m = absurd m
stored_values ((g, w) ∷ t) h v (inl e) = inl (ground arith)
stored_values ((g, w) ∷ t) h v (inr m) = inr (stored_values t h v m)

pub without_keeps :
    (t : List (ℕ × ℕ)) (v g w : ℕ)
    → In {A = ℕ × ℕ} (g, w) t
    → w ≢ v
    → In {A = ℕ × ℕ} (g, w) (without v t)
without_keeps [] v g w m n = m
without_keeps ((h, u) ∷ t) v g w (inl e) n = ground arith
without_keeps ((h, u) ∷ t) v g w (inr m) n = ground (arith, without_keeps t v g w m n)

without_only :
    (t : List (ℕ × ℕ)) (v g w : ℕ) → In {A = ℕ × ℕ} (g, w) (without v t) → In {A = ℕ × ℕ} (g, w) t
without_only [] v g w m = m
without_only ((h, u) ∷ t) v g w m = ground (arith, without_only t v g w)

pub without_insert :
    (t : List (ℕ × ℕ)) (h v g w : ℕ)
    → In {A = ℕ × ℕ} (g, w) (without v ((h, v) ∷ t))
    → In {A = ℕ × ℕ} (g, w) t
without_insert t h v g w m = ground (arith, without_only t v g w)

pub head_or_rest :
    (t : List (ℕ × ℕ)) (h v g w : ℕ)
    → In {A = ℕ × ℕ} (g, w) ((h, v) ∷ t)
    → ((g ≡ h) × (w ≡ v)) ⊎ In {A = ℕ × ℕ} (g, w) t
head_or_rest t h v g w (inl e) = inl (ground arith, ground arith)
head_or_rest t h v g w (inr m) = inr m

abbrev pub sample : Hashing
sample = record {
  Table = List (ℕ × ℕ);
  empty = [];
  probe = λ t h. values t;
  insert = λ t h v hasher. (h, v) ∷ t;
  remove = λ t h v. without v t;
  stored = λ t. t;
  hash_one = λ bytes. length bytes;
  stored-empty = refl;
  probe_stored = λ t h v m. values_stored t v m;
  stored_probe = stored_values;
  insert_new = λ t h v hasher ok. inl refl;
  insert_keeps = λ t h v hasher ok g w m. inr m;
  insert_only = λ t h v hasher ok g w m. head_or_rest t h v g w m;
  remove_keeps = λ t h v g w m n. without_keeps t v g w m n;
  remove_insert = λ t h v hasher ok fresh g w m. without_insert t h v g w m;
}

without_gone : (t : List (ℕ × ℕ)) (v g : ℕ) → ¬ In {A = ℕ × ℕ} (g, v) (without v t)
without_gone [] v g m = m
without_gone ((h, u) ∷ t) v g m = ground (arith, without_gone t v g)

pub end_or_rest :
    (t : List (ℕ × ℕ)) (h v g w : ℕ)
    → In {A = ℕ × ℕ} (g, w) (t ++ (h, v) ∷ [])
    → ((g ≡ h) × (w ≡ v)) ⊎ In {A = ℕ × ℕ} (g, w) t
end_or_rest t h v g w m = elim (In-append_one t (h, v) (g, w) m) [
  | inl k ↦ inr k
  | inr e ↦ inl (ap (λ (x : ℕ × ℕ). x.0) e, ap (λ (x : ℕ × ℕ). x.1) e)
]

pub without_last :
    (t : List (ℕ × ℕ)) (h v g w : ℕ)
    → In {A = ℕ × ℕ} (g, w) (without v (t ++ (h, v) ∷ []))
    → In {A = ℕ × ℕ} (g, w) t
without_last t h v g w m = elim (end_or_rest t h v g w (without_only (t ++ (h, v) ∷ []) v g w m)) [
  | inr k ↦ k
  | inl (_, e) ↦ absurd (
      without_gone (t ++ (h, v) ∷ []) v g
        (subst (λ u. In {A = ℕ × ℕ} (g, u) (without v (t ++ (h, v) ∷ []))) e m))
]

-- The same, walked from the oldest entry on.
abbrev pub oldest_first : Hashing
oldest_first = record {
  Table = List (ℕ × ℕ);
  empty = [];
  probe = λ t h. values t;
  insert = λ t h v hasher. t ++ (h, v) ∷ [];
  remove = λ t h v. without v t;
  stored = λ t. t;
  hash_one = λ bytes. length bytes;
  stored-empty = refl;
  probe_stored = λ t h v m. values_stored t v m;
  stored_probe = stored_values;
  insert_new = λ t h v hasher ok. In-append_end t (h, v);
  insert_keeps = λ t h v hasher ok g w m. In-append_first t (h, v) (g, w) m;
  insert_only = λ t h v hasher ok g w m. end_or_rest t h v g w m;
  remove_keeps = λ t h v g w m n. without_keeps t v g w m n;
  remove_insert = λ t h v hasher ok fresh g w m. without_last t h v g w m;
}

-- A search that meets the entries of its hash only.
abbrev of_hash : ℕ → List (ℕ × ℕ) → List ℕ
of_hash h [] = []
of_hash h ((g, v) ∷ t) = let rest = of_hash h t in if g == h then v ∷ rest else rest

pub of_hash_stored : (t : List (ℕ × ℕ)) (h v : ℕ) → In v (of_hash h t) → In {A = ℕ × ℕ} (h, v) t
of_hash_stored [] h v m = m
of_hash_stored ((g, w) ∷ t) h v m = ground (arith, of_hash_stored t h v)

pub stored_of_hash : (t : List (ℕ × ℕ)) (h v : ℕ) → In {A = ℕ × ℕ} (h, v) t → In v (of_hash h t)
stored_of_hash [] h v m = m
stored_of_hash ((g, w) ∷ t) h v (inl e) = ground arith
stored_of_hash ((g, w) ∷ t) h v (inr m) = ground (arith, stored_of_hash t h v m)

abbrev pub exact : Hashing
exact = record {
  Table = List (ℕ × ℕ);
  empty = [];
  probe = λ t h. of_hash h t;
  insert = λ t h v hasher. (h, v) ∷ t;
  remove = λ t h v. without v t;
  stored = λ t. t;
  hash_one = λ bytes. length bytes;
  stored-empty = refl;
  probe_stored = λ t h v m. (h, of_hash_stored t h v m);
  stored_probe = stored_of_hash;
  insert_new = λ t h v hasher ok. inl refl;
  insert_keeps = λ t h v hasher ok g w m. inr m;
  insert_only = λ t h v hasher ok g w m. head_or_rest t h v g w m;
  remove_keeps = λ t h v g w m n. without_keeps t v g w m n;
  remove_insert = λ t h v hasher ok fresh g w m. without_insert t h v g w m;
}
