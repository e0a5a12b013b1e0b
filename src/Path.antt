-- ===== src/Path.antt =====
-- src/path.rs, on unix: the byte-level canonical paths and the comparison that sorts them.
-- A `CannonicalPath` is its byte slice, NUL terminator included; `CanonicalPathBuf` owns such a
-- buffer and dereferences to it. An `&OsStr` is its encoded bytes.
pub mod Bytes
pub mod Order
pub mod Subtree
pub mod Parent
pub mod Strings
pub mod Names
pub mod Sample
pub mod Windows
mod Examples
use filesentry.Common.{
  ℕ, zero, ◌+◌, ◌-◌, ◌≡◌, ◌≢◌, ◌<◌, Bool, true, false, ◌&&◌, Option, none, some, List, [], ◌∷◌,
  ◌++◌, compare, Ordering, ◌==◌, if◌then◌else◌, length, get_elem?, get_last?, take, drop_last,
  ◌>>=◌, bytes_eq,
}

abbrev pub path_separator : ℕ
path_separator = b'/'

abbrev pub CannonicalPath : Type 0
CannonicalPath = List ℕ

pub record CanonicalPathBuf : Type 0 where
  pub buf : CannonicalPath

-- `memrchr` of the crate memchr: the index of the last occurrence of a byte.
pub record Memrchr : Type 0 where
  pub memrchr : ℕ → List ℕ → Option ℕ
  pub at_index : (c : ℕ) (xs : List ℕ) (i : ℕ) → memrchr c xs ≡ some i → get_elem? xs i ≡ some c
  pub is_last :
      (c : ℕ) (xs : List ℕ) (i j : ℕ) → memrchr c xs ≡ some i → i < j → get_elem? xs j ≢ some c
  pub if_none : (c : ℕ) (xs : List ℕ) (i : ℕ) → memrchr c xs ≡ none → get_elem? xs i ≢ some c

-- `EMPTY`: a dot and the terminator.
abbrev pub empty_path : List ℕ
empty_path = b'.' ∷ 0 ∷ []

unfoldable pub is_empty : CannonicalPath → Bool
is_empty [] = true
is_empty (c ∷ cs) = false

unfoldable pub as_raw_bytes : CannonicalPath → List ℕ
as_raw_bytes [] = empty_path
as_raw_bytes (c ∷ cs) = c ∷ cs

-- `&bytes[..bytes.len() - 1]`
unfoldable pub as_bytes : CannonicalPath → List ℕ
unfolding as_raw_bytes
as_bytes bytes = take (length (as_raw_bytes bytes) - 1) (as_raw_bytes bytes)

unfoldable pub len : CannonicalPath → ℕ
len bytes = length bytes - 1

unfoldable pub starts_with : List ℕ → List ℕ → Bool
starts_with xs [] = true
starts_with [] (c ∷ cs) = false
starts_with (x ∷ xs) (c ∷ cs) = (x == c) && starts_with xs cs

-- `other.bytes.get(i) == Some(&PATH_SEPARATOR)`
unfoldable pub is_separator : Option ℕ → Bool
is_separator none = false
is_separator (some c) = c == path_separator

unfoldable pub is_parent_of : CannonicalPath → CannonicalPath → Bool
unfolding as_bytes len starts_with is_separator
is_parent_of self other =
    starts_with (as_bytes other) (as_bytes self) && is_separator (get_elem? other (len self))

module _ (m : Memrchr) where
  -- Everything before the last separator.
  unfoldable pub parent : CannonicalPath → Option (List ℕ)
  parent bytes = do i ← m.memrchr path_separator bytes; some (take i bytes)

  unfoldable pub pop : CanonicalPathBuf → CanonicalPathBuf × Bool
  pop self = elim (m.memrchr path_separator self.buf) [
    | none ↦ (self, false)
    | some i ↦ (record { buf = take i self.buf }, true)
  ]

-- `CanonicalPathBuf::new`
abbrev pub new : CanonicalPathBuf
new = record { buf = [] }

unfoldable pub first_is_separator : List ℕ → Bool
first_is_separator [] = false
first_is_separator (c ∷ cs) = c == path_separator

unfoldable pub push_raw : CanonicalPathBuf → List ℕ → CanonicalPathBuf
push_raw self src = record { buf = drop_last self.buf ++ (src ++ 0 ∷ []) }

unfoldable pub push : CanonicalPathBuf → List ℕ → CanonicalPathBuf
unfolding first_is_separator
push self src = record {
  buf =
      drop_last self.buf
      ++ ((if first_is_separator src then src else path_separator ∷ src) ++ 0 ∷ []);
}

unfoldable pub join : CannonicalPath → List ℕ → CanonicalPathBuf
unfolding push is_empty
join self other = if is_empty self then push new other else push (record { buf = self }) other

unfoldable pub assert_canonicalized : List ℕ → CanonicalPathBuf
unfolding push
assert_canonicalized path = push new path

-- The derived `PartialEq`.
unfoldable pub path_eq : CanonicalPathBuf → CanonicalPathBuf → Bool
unfolding bytes_eq
path_eq a b = bytes_eq a.buf b.buf

-- `PartialEq<T>` for a `T: AsRef<OsStr>`.
unfoldable pub eq_os_str : CanonicalPathBuf → List ℕ → Bool
unfolding as_bytes bytes_eq
eq_os_str self other = bytes_eq (as_bytes self.buf) other

unfoldable pub rank : ℕ → ℕ
rank byte = if byte == path_separator then 0 else byte + 1

unfoldable pub ends_in_nul : Option ℕ → Bool
ends_in_nul none = false
ends_in_nul (some c) = c == 0

unfoldable pub strip_nul : List ℕ → List ℕ
unfolding ends_in_nul
strip_nul buf = if ends_in_nul (get_last? buf) then drop_last buf else buf

-- The loop over the common length: the order of the ranks at the first difference.
unfoldable pub cmp_common : List ℕ → List ℕ → Option Ordering
unfolding rank
cmp_common [] rhs = none
cmp_common (l ∷ lhs) [] = none
cmp_common (l ∷ lhs) (r ∷ rhs) =
    if l == r then cmp_common lhs rhs else some (compare (rank l) (rank r))

unfoldable pub cmp : List ℕ → List ℕ → Ordering
unfolding strip_nul cmp_common
cmp lhs rhs = elim (cmp_common (strip_nul lhs) (strip_nul rhs)) [
  | some o ↦ o
  | none ↦ compare (length (strip_nul lhs)) (length (strip_nul rhs))
]

-- A buffer as `push` leaves it: a body and the terminator.
abbrev pub terminated : List ℕ → CanonicalPathBuf
terminated body = record { buf = body ++ 0 ∷ [] }
