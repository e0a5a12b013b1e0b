-- ===== src/HashTable/Consistent.antt =====
-- src/path.rs: the equality, the order and the hash of paths.
use filesentry.Common.{
  bytes_eq, bytes_eq→≡, bytes_eq_refl, Bool-cases, inl, inr, ◌⊎◌, ℕ, ◌≡◌, ◌↔◌, refl, ap, ◌∙◌, sym,
  true, false, List, arith,
}
use Prim.Native.Nat.Ordering.{eq}
use filesentry.Path.{strip_nul, CanonicalPathBuf, cmp, path_eq, eq_os_str, terminated}
use filesentry.Path.Bytes.{strip_nul-terminated, path_eq→≡, path_eq_refl, as_bytes-terminated}
use filesentry.Path.Order.{cmp-eq_iff}
use filesentry.HashTable.{Hashing, hash_path}

same_body : (a b : List ℕ) → strip_nul (terminated a).buf ≡ strip_nul (terminated b).buf → a ≡ b
same_body a b e = sym (strip_nul-terminated a) ∙ e ∙ strip_nul-terminated b

path_eq_body : (a b : List ℕ) → path_eq (terminated a) (terminated b) ≡ true → a ≡ b
path_eq_body a b h =
    same_body a b
      (ap (λ (p : CanonicalPathBuf). strip_nul (p.buf)) (path_eq→≡ (terminated a) (terminated b) h))

path_eq_of_body : (a b : List ℕ) → a ≡ b → path_eq (terminated a) (terminated b) ≡ true
path_eq_of_body a b e = rw e (path_eq_refl (terminated b))

os_str_body : (a b : List ℕ) → eq_os_str (terminated a) b ≡ bytes_eq a b
unfolding eq_os_str
os_str_body a b = rw (as_bytes-terminated a) refl

-- On terminated paths the order, the equality of paths and the equality with a plain name agree, and
-- what is equal has the same hash, so a plain name finds a path in a table.
pub eq_ord_hash :
    (H : Hashing) (a b : List ℕ)
    → ((cmp (terminated a).buf (terminated b).buf ≡ eq)
        ↔ (path_eq (terminated a) (terminated b) ≡ true))
      × (path_eq (terminated a) (terminated b) ≡ eq_os_str (terminated a) b)
      × (eq_os_str (terminated a) b ≡ true → hash_path H (terminated a) ≡ H.hash_one b)
eq_ord_hash H a b = (
  (
    λ h.
        path_eq_of_body a b
          (same_body a b ((cmp-eq_iff (terminated a).buf (terminated b).buf).0 h)),
    λ h.
        (cmp-eq_iff (terminated a).buf (terminated b).buf).1
          (ap (λ x. strip_nul (terminated x).buf) (path_eq_body a b h)),
  ),
  agree (Bool-cases (path_eq (terminated a) (terminated b))) (Bool-cases (bytes_eq a b)),
  λ h.
      unfold hash_path in
      ap H.hash_one (as_bytes-terminated a ∙ bytes_eq→≡ a b (sym (os_str_body a b) ∙ h)),
)
  where
    agree :
        (path_eq (terminated a) (terminated b) ≡ true)
          ⊎ (path_eq (terminated a) (terminated b) ≡ false)
        → (bytes_eq a b ≡ true) ⊎ (bytes_eq a b ≡ false)
        → path_eq (terminated a) (terminated b) ≡ eq_os_str (terminated a) b
    agree (inl p) (inl q) = p ∙ sym (os_str_body a b ∙ q)
    agree (inr p) (inr q) = p ∙ sym (os_str_body a b ∙ q)
    agree (inl p) (inr q) = absurd (ground (arith, path_eq_body a b p, bytes_eq_refl a))
    agree (inr p) (inl q) = absurd (ground (arith, path_eq_of_body a b (bytes_eq→≡ a b q)))
