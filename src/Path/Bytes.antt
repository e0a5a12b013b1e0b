-- ===== src/Path/Bytes.antt =====
-- The byte view of a terminated buffer.
use filesentry.Common.{
  ℕ, suc, ◌-◌, ◌<◌, ◌≡◌, ◌≢◌, refl, true, some, List, [], ◌∷◌, ◌++◌, arith, length, get_elem?,
  drop_last-append, get_last?-append, length-append, take-length_append, Option-cases, inl, inr,
  bytes_eq→≡, bytes_eq_refl,
}
use filesentry.Path.{
  CanonicalPathBuf, Memrchr, as_bytes, as_raw_bytes, len, strip_nul, terminated, path_eq,
}

pub strip_nul-terminated : (b : List ℕ) → strip_nul (terminated b).buf ≡ b
unfolding strip_nul
strip_nul-terminated b = rw get_last?-append (drop_last-append b 0)

raw_terminated : (b : List ℕ) → as_raw_bytes (terminated b).buf ≡ b ++ 0 ∷ []
unfolding as_raw_bytes
raw_terminated [] = refl
raw_terminated (x ∷ b) = refl

pub length-terminated : (b : List ℕ) → length (terminated b).buf ≡ suc (length b)
length-terminated b = omega (arith, length-append b (0 ∷ []))

pub as_bytes-terminated : (b : List ℕ) → as_bytes (terminated b).buf ≡ b
unfolding as_bytes
as_bytes-terminated b =
    let e : length (b ++ 0 ∷ []) - 1 ≡ length b = omega (arith, length-append b (0 ∷ [])) in
    rw (raw_terminated b) (rw e (take-length_append b (0 ∷ [])))

pub len-terminated : (b : List ℕ) → len (terminated b).buf ≡ length b
unfolding len
len-terminated b = omega (arith, length-append b (0 ∷ []))

pub path_eq→≡ : (a b : CanonicalPathBuf) → path_eq a b ≡ true → a ≡ b
unfolding path_eq
path_eq→≡ a b h = let e : a.buf ≡ b.buf = bytes_eq→≡ a.buf b.buf h in λ i. record { buf = e i }

pub path_eq_refl : (a : CanonicalPathBuf) → path_eq a a ≡ true
unfolding path_eq
path_eq_refl a = bytes_eq_refl a.buf

-- The index that `memrchr` returns is the last one.
module _ (m : Memrchr) where
  pub memrchr_last :
      (c : ℕ) (xs : List ℕ) (i : ℕ)
      → get_elem? xs i ≡ some c
      → ((j : ℕ) → i < j → get_elem? xs j ≢ some c)
      → m.memrchr c xs ≡ some i
  memrchr_last c xs i h after = elim (Option-cases (m.memrchr c xs)) [
    | inl e ↦ absurd (m.if_none c xs i e h)
    | inr (k, e) ↦ grind (arith, after k, m.is_last c xs k i e, m.at_index c xs k e)
  ]
