-- ===== src/FsEvent/Separators.antt =====
-- `strip_trailing_sep`: the path of an event is the path of the crawl.
use filesentry.Common.{
  ℕ, ◌≡◌, refl, Bool, true, false, none, some, List, [], ◌∷◌, ◌++◌, arith, get_last?,
  drop_last-append, get_last?-append, ◌==◌, Option-cases, inl, inr,
}
use filesentry.Path.{terminated, path_separator, first_is_separator, assert_canonicalized, push}
use filesentry.FsEvent.{strip_trailing_sep}

abbrev pub last_is_separator : List ℕ → Bool
last_is_separator path = elim (get_last? path) [ none ↦ false | some c ↦ c == path_separator ]

strip-append : (c : ℕ) (cs : List ℕ) → strip_trailing_sep (c ∷ cs ++ path_separator ∷ []) ≡ c ∷ cs
unfolding strip_trailing_sep
strip-append c [] = refl
strip-append c (d ∷ cs) =
    ground (
      arith,
      get_last?-append (d ∷ cs) path_separator,
      drop_last-append (c ∷ d ∷ cs) path_separator,
    )

strip_name : (b : List ℕ) → last_is_separator b ≡ false → strip_trailing_sep b ≡ b
unfolding strip_trailing_sep
strip_name [] h = refl
strip_name (c ∷ []) h = refl
strip_name (c ∷ d ∷ b) h = elim (Option-cases (get_last? (d ∷ b))) [
  | inl empty ↦ ground arith
  | inr (last, e) ↦ ground arith
]

assert_canonicalized_lem :
    (b : List ℕ) → first_is_separator b ≡ true → assert_canonicalized b ≡ terminated b
unfolding assert_canonicalized push first_is_separator
assert_canonicalized_lem b h = ground arith

-- An absolute path that FSEvents reports, with one separator behind it or (but for the root) without,
-- becomes the terminated path, which is that of the crawl.
pub strip_trailing_sep_lem :
    (b : List ℕ)
    → first_is_separator b ≡ true
    → (assert_canonicalized (strip_trailing_sep (b ++ path_separator ∷ [])) ≡ terminated b)
      × (last_is_separator b ≡ false → assert_canonicalized (strip_trailing_sep b) ≡ terminated b)
unfolding first_is_separator
strip_trailing_sep_lem [] h = absurd (ground arith)
strip_trailing_sep_lem (c ∷ cs) h = (
  rw (strip-append c cs) (assert_canonicalized_lem (c ∷ cs) h),
  λ name. rw (strip_name (c ∷ cs) name) (assert_canonicalized_lem (c ∷ cs) h),
)
