-- ===== src/HashTable/Search.antt =====
-- A search whose closure returns on every entry that it meets.
use filesentry.Common.{
  ℕ, ◌≡◌, refl, ◌⊎◌, inl, inr, Bool, true, false, Option, none, some, List, [], ◌∷◌, In, arith,
}
use filesentry.HashTable.{find_in}

pub find_in_miss :
    (vs : List ℕ) (eq : ℕ → Option Bool)
    → ((v : ℕ) → In v vs → eq v ≡ some false)
    → find_in vs eq ≡ some none
unfolding find_in
find_in_miss [] eq h = refl
find_in_miss (v ∷ vs) eq h = ground (arith, h v (inl refl), find_in_miss vs eq (λ w m. h w (inr m)))

-- With one index that fits, the search finds it.
pub find_in_hit :
    (vs : List ℕ) (eq : ℕ → Option Bool) (w : ℕ)
    → ((v : ℕ) → In v vs → (eq v ≡ some false) ⊎ ((eq v ≡ some true) × (v ≡ w)))
    → In w vs
    → eq w ≡ some true
    → find_in vs eq ≡ some (some w)
unfolding find_in
find_in_hit [] eq w h m e = absurd m
find_in_hit (v ∷ vs) eq w h (inl m) e = ground arith
find_in_hit (v ∷ vs) eq w h (inr m) e =
    ground (arith, h v (inl refl), find_in_hit vs eq w (λ u k. h u (inr k)) m e)
