-- ===== src/Path/Strings.antt =====
-- src/path.rs: the C strings that a path is handed to rustix as.
use filesentry.Common.{
  ℕ, ◌≡◌, ◌↔◌, refl, true, false, Option, none, some, if◌then◌else◌, ◌==◌, List, [], ◌∷◌, arith,
}
use filesentry.Path.{CannonicalPath, as_raw_bytes, is_empty}

-- With the terminator.
unfoldable pub as_c_str : CannonicalPath → List ℕ
unfolding as_raw_bytes
as_c_str bytes = as_raw_bytes bytes

-- `rustix::path::Arg`: what `into_c_str` makes a `CString` of.
unfoldable pub into_c_str : CannonicalPath → List ℕ
into_c_str bytes = bytes

unfoldable pub as_cow_c_str : CannonicalPath → List ℕ
unfolding as_c_str
as_cow_c_str bytes = as_c_str bytes

unfoldable pub into_with_c_str : {A : Type 0} → CannonicalPath → (List ℕ → A) → A
unfolding as_c_str
into_with_c_str bytes f = f (as_c_str bytes)

-- What a system call reads: the bytes before the first NUL; `none` if there is none.
abbrev pub c_string : List ℕ → Option (List ℕ)
c_string [] = none
c_string (b ∷ bytes) =
    if b == 0 then some [] else elim (c_string bytes) [ none ↦ none | some s ↦ some (b ∷ s) ]

-- The two ways of passing a path to a system call give it the same string exactly for the paths that are
-- not empty. The empty path is read as `.` one way, and has no terminator the other way.
pub into_c_str_iff :
    (p : CannonicalPath)
    → ((into_c_str p ≡ into_with_c_str p (λ s. s)) ↔ (is_empty p ≡ false))
      × (is_empty p ≡ true
          → (into_with_c_str p c_string ≡ some (46 ∷ [])) × (c_string (into_c_str p) ≡ none))
unfolding into_c_str into_with_c_str as_c_str as_raw_bytes is_empty
into_c_str_iff [] = ((λ e. ground arith, λ e. ground arith), λ e. (refl, refl))
into_c_str_iff (x ∷ p) = ((λ e. refl, λ e. refl), λ e. ground arith)
