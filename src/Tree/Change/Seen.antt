-- ===== src/Tree/Change/Seen.antt =====
-- `change_type`: the events are the changes of what the tree shows of a file.

use filesentry.Tree.Change.{event_of}
use filesentry.Common.{
  inl, inr, ℕ, ◌≡◌, ◌↔◌, refl, Bool, false, Option, none, some, arith, not, ◌==◌, ◌&&◌, Bool-cases,
  [], ◌∷◌, ◌⊎◌, if◌then◌else◌, ◌⊎◌, [],
}
use filesentry.Metadata.{SystemTime, Metadata, time_eq}
use filesentry.Metadata.Time.{time_eq_iff}
use filesentry.Events.{EventType, create, delete, modified}
use filesentry.Path.{CanonicalPathBuf}
use filesentry.Tree.{
  Emitted, NodeMeta, dir, file, deleted, change_type, node_meta, CanonicalPathBuf, Emitted,
}

-- A file's time and size; directories and what is deleted show nothing.
pub shown : NodeMeta → Option (SystemTime × ℕ)
shown dir = none
shown (file mtime size) = some (mtime, size)
shown deleted = none

-- The event that the two sights call for.
pub difference : Option (SystemTime × ℕ) → Option (SystemTime × ℕ) → EventType
difference none now = create
difference (some before) none = delete
difference (some before) (some now) = modified

-- Without `skip_check` there is no event exactly if the file looks the same.
pub change_type-none_iff :
    (old new : NodeMeta) → (change_type old new false ≡ none) ↔ (shown old ≡ shown new)
unfolding change_type shown
change_type-none_iff (file t s) (file u r) = ground (arith, time_eq_iff t u)
change_type-none_iff (file t s) dir = ground arith
change_type-none_iff (file t s) deleted = ground arith
change_type-none_iff dir (file t s) = ground arith
change_type-none_iff deleted (file t s) = ground arith
change_type-none_iff dir dir = ground arith
change_type-none_iff dir deleted = ground arith
change_type-none_iff deleted dir = ground arith
change_type-none_iff deleted deleted = ground arith

-- What the file system shows of the file.
abbrev pub on_disk : Metadata → Option (SystemTime × ℕ)
on_disk fs_meta = if fs_meta.is_dir then none else some (fs_meta.mtime, fs_meta.size)

-- What is emitted for two sights of a path: nothing if both show no file, or the same one and nothing
-- else speaks for a change; else the difference.
abbrev pub Reports :
    CanonicalPathBuf → Option (SystemTime × ℕ) → Option (SystemTime × ℕ) → Bool → Emitted → Type 0
Reports path before now forced emitted =
    (emitted ≡ []) × (before ≡ now) × ((before ≡ none) ⊎ (forced ≡ false))
    ⊎ (emitted ≡ (path, difference before now) ∷ [])
      × ¬ ((before ≡ now) × ((before ≡ none) ⊎ (forced ≡ false)))

Reports_none :
    (path : CanonicalPathBuf) (before now : Option (SystemTime × ℕ)) (forced : Bool)
    → before ≡ now
    → (before ≡ none) ⊎ (forced ≡ false)
    → Reports path before now forced (event_of path none)
unfolding event_of
Reports_none path before now forced e h = inl (refl, e, h)

Reports_change :
    (path : CanonicalPathBuf) (before now : Option (SystemTime × ℕ)) (forced : Bool)
    → ¬ ((before ≡ now) × ((before ≡ none) ⊎ (forced ≡ false)))
    → Reports path before now forced (event_of path (some (difference before now)))
unfolding event_of
Reports_change path before now forced n = inr (refl, n)

Reports_files :
    (path : CanonicalPathBuf) (t u : SystemTime) (s r : ℕ) (forced : Bool)
    → Reports path
        (some (t, s))
        (some (u, r))
        forced
        (event_of path (change_type (file t s) (file u r) forced))
unfolding change_type difference
Reports_files path t u s r forced = elim (Bool-cases (not forced && (time_eq t u && (s == r)))) [
  | inl same ↦ rw same (
      Reports_none path (some (t, s)) (some (u, r)) forced (ground (arith, time_eq_iff t u))
        (inr (ground arith)))
  | inr other ↦ rw other (
      Reports_change path (some (t, s)) (some (u, r)) forced (λ h. ground (arith, time_eq_iff t u)))
]

pub change_type-Reports :
    (path : CanonicalPathBuf) (old new : NodeMeta) (forced : Bool)
    → Reports path (shown old) (shown new) forced (event_of path (change_type old new forced))
unfolding change_type shown difference
change_type-Reports path (file t s) (file u r) forced = Reports_files path t u s r forced
change_type-Reports path (file t s) dir forced =
    Reports_change path (some (t, s)) none forced (λ h. ground arith)
change_type-Reports path (file t s) deleted forced =
    Reports_change path (some (t, s)) none forced (λ h. ground arith)
change_type-Reports path dir (file t s) forced =
    Reports_change path none (some (t, s)) forced (λ h. ground arith)
change_type-Reports path deleted (file t s) forced =
    Reports_change path none (some (t, s)) forced (λ h. ground arith)
change_type-Reports path dir dir forced = Reports_none path none none forced refl (inl refl)
change_type-Reports path dir deleted forced = Reports_none path none none forced refl (inl refl)
change_type-Reports path deleted dir forced = Reports_none path none none forced refl (inl refl)
change_type-Reports path deleted deleted forced = Reports_none path none none forced refl (inl refl)

pub shown-node_meta : (fs_meta : Metadata) → shown (node_meta fs_meta) ≡ on_disk fs_meta
unfolding shown node_meta
shown-node_meta fs_meta = elim (Bool-cases fs_meta.is_dir) [ inl d ↦ rw d refl | inr d ↦ rw d refl ]
