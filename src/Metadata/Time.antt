-- ===== src/Metadata/Time.antt =====
-- File times are compared for equality only.
use filesentry.Common.{ℕ, ◌<◌, ◌≡◌, ◌↔◌, true, arith}
use filesentry.Metadata.{ℤ, pos, negsuc, SystemTime, after, before, mtime_of, time_eq}

pub time_eq_iff : (s t : SystemTime) → (time_eq s t ≡ true) ↔ (s ≡ t)
unfolding time_eq
time_eq_iff (after a) (after b) = ground arith
time_eq_iff (after a) (before b) = ground arith
time_eq_iff (before a) (after b) = ground arith
time_eq_iff (before a) (before b) = ground arith

-- For nanoseconds below a second, the converted times of two stats compare as equal exactly if the
-- seconds and the nanoseconds agree, before the epoch as well as after it.
pub mtime_of-injective :
    (s t : ℤ) (m n : ℕ)
    → m < 1_000_000_000
    → n < 1_000_000_000
    → (time_eq (mtime_of s m) (mtime_of t n) ≡ true) ↔ ((s ≡ t) × (m ≡ n))
unfolding time_eq mtime_of
mtime_of-injective (pos a) (pos b) m n h k = ground arith
mtime_of-injective (pos a) (negsuc b) m n h k = ground arith
mtime_of-injective (negsuc a) (pos b) m n h k = ground arith
mtime_of-injective (negsuc a) (negsuc b) m n h k = ground arith
