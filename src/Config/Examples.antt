-- ===== src/Config/Examples.antt =====
-- The filter of src/config.rs on a path below `.git`.
use filesentry.Common.{ℕ, ◌≡◌, ◌↔◌, ◌⊎◌, true, false, some, List, [], ◌∷◌}
use filesentry.Config.{ignore_path_rec, ignore_git}
use filesentry.Config.Ancestors.{Above, ignore_path_rec_iff}

-- `/.git/a`
abbrev git_file : List ℕ
git_file = 47 ∷ 46 ∷ 103 ∷ 105 ∷ 116 ∷ 47 ∷ 97 ∷ []

ignore_path_rec_iff_example : (ignore_path_rec ignore_git git_file (some false) ≡ true) ↔ (
    (ignore_git git_file (some false) ≡ true)
    ⊎ ((top : List ℕ) × Above git_file top × (ignore_git top (some true) ≡ true)))
ignore_path_rec_iff_example = ignore_path_rec_iff ignore_git git_file (some false)
