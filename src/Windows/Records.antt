-- ===== src/Windows/Records.antt =====
-- `handle_records`: a buffer of `FILE_NOTIFY_INFORMATION` records becomes calls of `add_watcher`.
-- `none` is a panic: a slice or an index out of bounds. Windows is little-endian, and a `usize` holds
-- the sums that are formed. The numbers of the actions are those of the windows-sys crate.
pub use filesentry.Pending.Batches.{Reports}
pub mod Bounds
pub mod Layout
use filesentry.Common.{
  ℕ, zero, suc, ◌+◌, ◌-◌, ◌*◌, ◌/◌, ◌%◌, ◌^◌, ◌≡◌, Bool, true, false, not, ◌&&◌, ◌||◌, Option, none,
  some, List, [], ◌∷◌, ◌++◌, length, take, drop, ◌>>=◌, ltb, leb, ◌==◌, if◌then◌else◌, assert, ◌>>◌,
}
use filesentry.Path.{CanonicalPathBuf}
use filesentry.Path.Windows.{join, as_bytes}
use filesentry.Config.{Filter}
use filesentry.Pending

-- `&buf[start..end]`
unfoldable pub slice : List ℕ → ℕ → ℕ → Option (List ℕ)
slice buf start end = do
  assert (leb start end && leb end (length buf))
  some (take (end - start) (drop start buf))

unfoldable pub read_u32 : List ℕ → Option ℕ
read_u32 (a ∷ b ∷ c ∷ d ∷ rest) = some (a + (b + (c + d * 256) * 256) * 256)
read_u32 short = none

-- `chunks_exact(2)` and `u16::from_ne_bytes`
unfoldable pub units_of : List ℕ → List ℕ
units_of [] = []
units_of (a ∷ []) = []
units_of (a ∷ b ∷ rest) = (a + b * 256) ∷ units_of rest

abbrev is_high : ℕ → Bool
is_high u = leb 0xd800 u && ltb u 0xdc00

abbrev is_low : ℕ → Bool
is_low u = leb 0xdc00 u && ltb u 0xe000

-- The code points of `String::from_utf16_lossy`: a surrogate alone is U+FFFD.
unfoldable pub decode_utf16 : List ℕ → List ℕ
decode_utf16 [] = []
decode_utf16 (u ∷ []) = (if is_high u || is_low u then 0xfffd else u) ∷ []
decode_utf16 (u ∷ v ∷ rest) =
    let pair = decode_utf16 rest in
    let single = decode_utf16 (v ∷ rest) in
    if is_high u && is_low v
    then (0x10000 + (u - 0xd800) * 0x400 + (v - 0xdc00)) ∷ pair
    else (if is_high u || is_low u then 0xfffd else u) ∷ single

unfoldable pub utf8 : ℕ → List ℕ
utf8 c =
    if ltb c 0x80
    then c ∷ []
    else if ltb c 0x800
    then (0xc0 + c / 64) ∷ (0x80 + c % 64) ∷ []
    else if ltb c 0x10000
    then (0xe0 + c / 4096) ∷ (0x80 + c / 64 % 64) ∷ (0x80 + c % 64) ∷ []
    else (0xf0 + c / 262144) ∷ (0x80 + c / 4096 % 64) ∷ (0x80 + c / 64 % 64) ∷ (0x80 + c % 64) ∷ []

unfoldable pub encode_utf8 : List ℕ → List ℕ
unfolding utf8
encode_utf8 [] = []
encode_utf8 (c ∷ cs) = utf8 c ++ encode_utf8 cs

unfoldable pub from_utf16_lossy : List ℕ → List ℕ
unfolding decode_utf16 encode_utf8
from_utf16_lossy units = encode_utf8 (decode_utf16 units)

-- The `FILE_ACTION_` constants.
pub record Actions : Type 0 where
  pub added : ℕ
  pub removed : ℕ
  pub modified : ℕ
  pub renamed_old_name : ℕ
  pub renamed_new_name : ℕ

abbrev pub header : ℕ
header = 12

module _ (actions : Actions) (filter : Filter) (root : CanonicalPathBuf) where
  -- What one record reports: its action and its name, in units of 16 bits.
  unfoldable pub report_of : ℕ → List ℕ → Reports
  unfolding from_utf16_lossy join as_bytes
  report_of action name =
      let path = join root.buf (from_utf16_lossy name) in
      if filter (as_bytes path.buf) none
      then []
      else if (action == actions.added)
          || ((action == actions.removed)
              || ((action == actions.renamed_old_name) || (action == actions.renamed_new_name)))
      then (path, record (Pending.empty) { needs_recursive_crawl = true }) ∷ []
      else if action == actions.modified
      then (path, Pending.empty) ∷ []
      else []

  -- One round of the loop: the reports, and `NextEntryOffset`.
  unfoldable pub read_record : List ℕ → ℕ → Option (Reports × ℕ)
  read_record buf offset = do
    hdr ← slice buf offset (offset + header)
    next_bytes ← slice hdr 0 4
    next_entry ← read_u32 next_bytes
    action_bytes ← slice hdr 4 8
    action ← read_u32 action_bytes
    len_bytes ← slice hdr 8 12
    name_len ← read_u32 len_bytes
    let name_start = offset + header
    let name_end =
        if leb (name_start + name_len) (length buf) then name_start + name_len else length buf
    name ← slice buf name_start name_end
    some (report_of action (units_of name), next_entry)

  -- The `while` loop. Fuel counts rounds.
  unfoldable pub record_rounds : ℕ → List ℕ → ℕ → Option Reports
  record_rounds zero buf offset = none
  record_rounds (suc fuel) buf offset =
      if leb (offset + header) (length buf)
      then (do
        (reports, next_entry) ← read_record buf offset
        if next_entry == 0
            then some reports
            else (do later ← record_rounds fuel buf (offset + next_entry); some (reports ++ later)))
      else some []

  -- Each round but the last moves on by a byte at least.
  unfoldable pub handle_records : List ℕ → Option Reports
  unfolding record_rounds
  handle_records buf = record_rounds (suc (length buf)) buf 0
