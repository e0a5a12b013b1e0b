-- ===== src/Metadata.antt =====
-- src/metadata.rs, on unix: what the tree keeps of an `lstat` call. The call itself is the rustix
-- crate's; `Lstat` is its result, with the type bits of `st_mode` decoded by `FileType::from_raw_mode`.
pub mod Time
pub mod Windows
mod Examples
use filesentry.Common.{ℕ, suc, ◌+◌, ◌*◌, Bool, true, false, Option, none, some, ◌==◌}

pub data FileType : Type 0 where
  regular_file directory other_type : FileType

-- `st_mtime`, a signed number of seconds; `negsuc n` is -(n + 1).
pub data ℤ : Type 0 where
  pos negsuc : ℕ → ℤ

pub record Stat : Type 0 where
  pub st_mtime : ℤ
  pub st_mtime_nsec : ℕ
  pub file_type : FileType
  pub st_size : ℕ
  pub st_ino : ℕ

pub data Lstat : Type 0 where
  ok : Stat → Lstat
  not_dir no_ent other_errno : Lstat

-- A `SystemTime`: so many nanoseconds after the epoch, or before it.
pub data SystemTime : Type 0 where
  after before : ℕ → SystemTime

pub record Metadata : Type 0 where
  pub is_dir : Bool
  pub mtime : SystemTime
  pub size : ℕ
  pub inode : ℕ

-- `Duration::new`
abbrev duration : ℕ → ℕ → ℕ
duration secs nanos = secs * 1_000_000_000 + nanos

unfoldable pub mtime_of : ℤ → ℕ → SystemTime
mtime_of (pos secs) nsec = after (duration secs nsec)
mtime_of (negsuc n) nsec = before (duration (suc n) nsec)

unfoldable pub metadata_of : Stat → Bool → Metadata
unfolding mtime_of
metadata_of stat is_dir = record {
  is_dir = is_dir;
  mtime = mtime_of stat.st_mtime stat.st_mtime_nsec;
  size = stat.st_size;
  inode = stat.st_ino;
}

unfoldable pub for_path : Lstat → Option Metadata
unfolding metadata_of
for_path (ok stat) = elim stat.file_type [
  | regular_file ↦ some (metadata_of stat false)
  | directory ↦ some (metadata_of stat true)
  | other_type ↦ none
]
for_path result = none

-- `==` on `SystemTime`
unfoldable pub time_eq : SystemTime → SystemTime → Bool
time_eq (after a) (after b) = a == b
time_eq (before a) (before b) = a == b
time_eq s t = false
