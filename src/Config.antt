-- ===== src/Config.antt =====
-- src/config.rs: the filter trait. A `Path` is its bytes; those that reach a filter are canonical,
-- with no separator doubled or at the end (but for the root), so `Path::parent` cuts at the last one.
pub mod Ancestors
mod Examples
use filesentry.Common.{
  ℕ, zero, suc, Bool, true, false, ◌||◌, Option, none, some, List, [], ◌∷◌, length, take, bytes_eq,
  ◌==◌, if◌then◌else◌,
}
use filesentry.Path.{path_separator}

-- `Filter::ignore_path` of a filter, which the user of the crate supplies.
abbrev pub Filter : Type 0
Filter = List ℕ → Option Bool → Bool

-- The index of the last separator.
unfoldable pub last_separator : List ℕ → Option ℕ
last_separator [] = none
last_separator (c ∷ cs) = elim (last_separator cs) [
  | some i ↦ some (suc i)
  | none ↦ if c == path_separator then some 0 else none
]

abbrev cut : List ℕ → Option ℕ → List ℕ
cut path none = []
cut path (some zero) = path_separator ∷ []
cut path (some (suc i)) = take (suc i) path

-- `Path::parent`: there is none of the root and of the empty path.
unfoldable pub path_parent : List ℕ → Option (List ℕ)
unfolding last_separator
path_parent [] = none
path_parent (c ∷ cs) =
    if bytes_eq (c ∷ cs) (path_separator ∷ [])
    then none
    else some (cut (c ∷ cs) (last_separator (c ∷ cs)))

module _ (ignore_path : Filter) where
  -- The loop, with a bound on its rounds.
  unfoldable pub ignore_rounds : ℕ → List ℕ → Option Bool → Bool
  ignore_rounds zero path is_dir = ignore_path path is_dir
  ignore_rounds (suc rounds) path is_dir =
      if ignore_path path is_dir
      then true
      else elim (path_parent path) [ none ↦ false | some up ↦ ignore_rounds rounds up (some true) ]

  unfoldable pub ignore_path_rec : List ℕ → Option Bool → Bool
  unfolding ignore_rounds
  ignore_path_rec path is_dir = ignore_rounds (length path) path is_dir

-- The bytes behind the last separator.
unfoldable pub last_component : List ℕ → List ℕ
last_component [] = []
last_component (c ∷ cs) = elim (last_separator cs) [
  | some i ↦ last_component cs
  | none ↦ if c == path_separator then cs else c ∷ cs
]

-- `impl Filter for ()`
unfoldable pub ignore_git : Filter
unfolding last_component
ignore_git path is_dir = bytes_eq (last_component path) (b'.' ∷ b'g' ∷ b'i' ∷ b't' ∷ [])
