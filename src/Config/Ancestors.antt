-- ===== src/Config/Ancestors.antt =====
-- `ignore_path_rec` asks the filter about a path and about each directory above it.
use filesentry.Common.{
  ℕ, zero, suc, ◌≡◌, ◌<◌, ◌≤◌, ◌↔◌, ◌⊎◌, inl, inr, refl, Bool, true, Option, none, some, List, [],
  ◌∷◌, arith, length, take, bytes_eq, Bool-cases, Option-cases,
}
use filesentry.Config.{Filter, last_separator, path_parent, ignore_rounds, ignore_path_rec, cut}

-- The directories above a path.
pub data Above : List ℕ → List ℕ → Type 0 where
  parent : (path up : List ℕ) → path_parent path ≡ some up → Above path up
  further : (path up top : List ℕ) → path_parent path ≡ some up → Above up top → Above path top

last_separator_lt : (path : List ℕ) (i : ℕ) → last_separator path ≡ some i → i < length path
unfolding last_separator
last_separator_lt [] i h = ground arith
last_separator_lt (c ∷ cs) zero h = omega arith
last_separator_lt (c ∷ cs) (suc i) h = ground (arith, last_separator_lt cs i)

length-take_le : (n : ℕ) (xs : List ℕ) → length (take n xs) ≤ n
length-take_le zero xs = omega arith
length-take_le (suc n) [] = omega arith
length-take_le (suc n) (x ∷ xs) = omega (arith, length-take_le n xs)

cut_lt :
    (path : List ℕ) (o : Option ℕ)
    → last_separator path ≡ o
    → 1 < length path
    → length (cut path o) < length path
cut_lt path none h l = omega arith
cut_lt path (some zero) h l = omega arith
cut_lt path (some (suc i)) h l =
    omega (arith, length-take_le (suc i) path, last_separator_lt path (suc i) h)

single_parent : (c : ℕ) (up : List ℕ) → path_parent (c ∷ []) ≡ some up → up ≡ []
unfolding path_parent last_separator bytes_eq
single_parent c up h = ground arith

-- The loop goes up a finite number of times: a parent is shorter.
length-path_parent : (path up : List ℕ) → path_parent path ≡ some up → length up < length path
length-path_parent [] up h = unfold path_parent in ground arith
length-path_parent (c ∷ []) up h = rw (single_parent c up h) (omega arith)
length-path_parent (c ∷ d ∷ cs) up h =
    let e : up ≡ cut (c ∷ d ∷ cs) (last_separator (c ∷ d ∷ cs)) =
      unfold path_parent in ground arith in
    rw e (cut_lt (c ∷ d ∷ cs) (last_separator (c ∷ d ∷ cs)) refl (omega arith))

module _ (f : Filter) where
  rounds_here :
      (n : ℕ) (path : List ℕ) (d : Option Bool) → f path d ≡ true → ignore_rounds f n path d ≡ true
  unfolding ignore_rounds
  rounds_here zero path d h = h
  rounds_here (suc n) path d h = ground arith

  rounds_above :
      (n : ℕ) (path top : List ℕ) (d : Option Bool)
      → length path ≤ n
      → Above path top
      → f top (some true) ≡ true
      → ignore_rounds f n path d ≡ true
  unfolding ignore_rounds
  rounds_above zero path top d l (parent _ up e) h =
      absurd (omega (arith, length-path_parent path up e))
  rounds_above zero path top d l (further _ up _ e a) h =
      absurd (omega (arith, length-path_parent path up e))
  rounds_above (suc n) path top d l (parent _ up e) h =
      ground (arith, rounds_here n top (some true))
  rounds_above (suc n) path top d l (further _ up _ e a) h =
      let above =
        rounds_above n up top (some true) (omega (arith, length-path_parent path up e)) a h in
      ground arith

  rounds_only :
      (n : ℕ) (path : List ℕ) (d : Option Bool)
      → ignore_rounds f n path d ≡ true
      → (f path d ≡ true) ⊎ ((top : List ℕ) × Above path top × (f top (some true) ≡ true))
  unfolding ignore_rounds
  rounds_only zero path d h = inl h
  rounds_only (suc n) path d h = elim (Bool-cases (f path d)) [
    | inl e ↦ inl e
    | inr no_leaf ↦ elim (Option-cases (path_parent path)) [
      | inl top ↦ ground arith
      | inr (up, e) ↦
          let rest : ignore_rounds f n up (some true) ≡ true = ground arith in
          elim (rounds_only n up (some true) rest) [
            | inl g ↦ inr (up, parent path up e, g)
            | inr (top, a, g) ↦ inr (top, further path up top e a, g)
          ]
    ]
  ]

  -- A path is ignored exactly if the filter ignores it, with the caller's word on whether it is a
  -- directory, or ignores a directory above it, as a directory. So the length bounds the rounds.
  pub ignore_path_rec_iff :
      (path : List ℕ) (is_dir : Option Bool)
      → (ignore_path_rec f path is_dir ≡ true)
        ↔ ((f path is_dir ≡ true) ⊎ ((top : List ℕ) × Above path top × (f top (some true) ≡ true)))
  unfolding ignore_path_rec
  ignore_path_rec_iff path is_dir = (
    rounds_only (length path) path is_dir,
    elim [
      | inl h ↦ rounds_here (length path) path is_dir h
      | inr (top, a, h) ↦ rounds_above (length path) path top is_dir (omega arith) a h
    ],
  )
