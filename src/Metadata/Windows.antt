-- ===== src/Metadata/Windows.antt =====
-- src/metadata.rs, on windows: what the tree keeps of a `GetFileAttributesExW` call. The call is the
-- system's; the bits of the attributes that the code tests are named.
use filesentry.Common.{
  ℕ, ◌≡◌, ◌<◌, ◌+◌, ◌-◌, ◌*◌, ◌%◌, ◌^◌, ◌↔◌, Bool, Option, none, some, arith, leb, if◌then◌else◌,
  inl, inr, Bool-cases,
}
use filesentry.Metadata.{Metadata, SystemTime, after, before}

-- `WIN32_FILE_ATTRIBUTE_DATA`; the halves are `u32`.
pub record Attributes : Type 0 where
  pub reparse_point : Bool
  pub directory : Bool
  pub write_time_high : ℕ
  pub write_time_low : ℕ
  pub size_high : ℕ
  pub size_low : ℕ

-- `(high as u64) << 32 | low as u64`
abbrev pub joined : ℕ → ℕ → ℕ
joined high low = high * 2 ^ 32 + low

-- 100-ns ticks between 1601 and 1970.
abbrev pub epoch_diff_ticks : ℕ
epoch_diff_ticks = 11_644_473_600 * 10_000_000

-- The products are `u64`s; a release build wraps around.
unfoldable pub filetime_to_system_time : ℕ → ℕ → SystemTime
filetime_to_system_time high low =
    let ticks = joined high low in
    if leb epoch_diff_ticks ticks
    then after ((ticks - epoch_diff_ticks) * 100 % 2 ^ 64)
    else before ((epoch_diff_ticks - ticks) * 100 % 2 ^ 64)

unfoldable pub for_path : Option Attributes → Option Metadata
unfolding filetime_to_system_time
for_path none = none
for_path (some attributes) =
    if attributes.reparse_point
    then none
    else some (record {
      is_dir = attributes.directory;
      mtime = filetime_to_system_time attributes.write_time_high attributes.write_time_low;
      size = joined attributes.size_high attributes.size_low;
      inode = 0;
    })

-- The nanoseconds from the start of 1601 to the start of 1970: 369 years of 365 days with 89 leap days.
abbrev pub nanos_1601_1970 : ℕ
nanos_1601_1970 = (369 * 365 + 89) * 24 * 60 * 60 * 1_000_000_000

-- The time is so many nanoseconds after 1601.
abbrev pub IsTime : SystemTime → ℕ → Type 0
IsTime (after n) nanos = nanos_1601_1970 + n ≡ nanos
IsTime (before n) nanos = nanos + n ≡ nanos_1601_1970

-- A file time, which counts 100 ns ticks from 1601 in two halves, becomes the same time since or before
-- 1970 exactly if it is less than 2^64 nanoseconds after 1970 (in the year 2554).
pub filetime_exact :
    (high low : ℕ)
    → IsTime (filetime_to_system_time high low) ((high * 4_294_967_296 + low) * 100)
      ↔ ((high * 4_294_967_296 + low) * 100 < nanos_1601_1970 + 18_446_744_073_709_551_616)
unfolding filetime_to_system_time
filetime_exact high low = elim (Bool-cases (leb epoch_diff_ticks (joined high low))) [
  | inl later ↦ rw later (λ h. ground arith, λ h. ground arith)
  | inr earlier ↦ rw earlier (λ h. ground arith, λ h. ground arith)
]
