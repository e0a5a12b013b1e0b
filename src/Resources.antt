-- ===== src/Resources.antt =====
-- Calls on what the operating system hands out (handles, streams), and what it means that they are in
-- order: nothing is used or given back that is not held, and what is held in the end is known.
use filesentry.Common.{ℕ, suc, ◌≡◌, ◌<◌, ◌+◌, ◌-◌, List, [], ◌∷◌, ◌++◌, arith, ◌==◌, if◌then◌else◌}
use mathlib.Core.Path.{fun_ext}
use filesentry.Common.{subst}

pub data Use : Type 0 where
  acquired used released : ℕ → Use

abbrev pub count : ℕ → List ℕ → ℕ
count h [] = 0
count h (x ∷ xs) = if x == h then suc (count h xs) else count h xs

pub count-append : (h : ℕ) (xs ys : List ℕ) → count h (xs ++ ys) ≡ count h xs + count h ys
count-append h [] ys = omega arith
count-append h (x ∷ xs) ys = ground (arith, count-append h xs ys)

abbrev pub more : ℕ → (ℕ → ℕ) → ℕ → ℕ
more h c k = if h == k then suc (c k) else c k

abbrev pub fewer : ℕ → (ℕ → ℕ) → ℕ → ℕ
fewer h c k = if h == k then c k - 1 else c k

-- The calls lead from holding `c` of each resource to holding `d` of it.
abbrev pub InOrder : List Use → (ℕ → ℕ) → (ℕ → ℕ) → Type 0
InOrder [] c d = (k : ℕ) → c k ≡ d k
InOrder (acquired h ∷ us) c d = InOrder us (more h c) d
InOrder (used h ∷ us) c d = (0 < c h) × InOrder us c d
InOrder (released h ∷ us) c d = (0 < c h) × InOrder us (fewer h c) d

pub InOrder-from :
    (us : List Use) (c c' d : ℕ → ℕ) → ((k : ℕ) → c k ≡ c' k) → InOrder us c d → InOrder us c' d
InOrder-from us c c' d e h = subst (λ (x : ℕ → ℕ). InOrder us x d) (fun_ext e) h

pub InOrder-append :
    (us vs : List Use) (c d e : ℕ → ℕ) → InOrder us c d → InOrder vs d e → InOrder (us ++ vs) c e
InOrder-append [] vs c d e h k = InOrder-from vs d c e (λ x. ground (arith, h x)) k
InOrder-append (acquired x ∷ us) vs c d e h k = InOrder-append us vs (more x c) d e h k
InOrder-append (used x ∷ us) vs c d e h k = (h.0, InOrder-append us vs c d e h.1 k)
InOrder-append (released x ∷ us) vs c d e h k = (h.0, InOrder-append us vs (fewer x c) d e h.1 k)
