-- ===== src/Path/Examples.antt =====
-- Paths of src/path.rs.
use filesentry.Path.Strings.{c_string, into_c_str, into_with_c_str, into_c_str_iff}
use Prim.Native.Nat.{suc}
use filesentry.Common.{
  ◌↔◌, ℕ, ◌≡◌, ◌≢◌, refl, true, false, some, List, [], ◌∷◌, ◌++◌, arith, drop_last, get_elem?, zero,
  suc, ◌↔◌, none,
}
use Prim.Native.Nat.Ordering.{lt}
use filesentry.Path.{
  path_separator, is_parent_of, cmp, terminated, parent, join, pop, as_bytes, eq_os_str, is_empty,
}
use filesentry.Path.Subtree.{is_parent_of_iff, cmp-is_parent_of, subtree_contiguous}
use filesentry.Path.Names.{IsName, pop-join_drops_byte, root_has_no_children}
use filesentry.Path.Sample.{last_index}

-- `/d`, `/d/a` and `/d/b`
abbrev d : List ℕ
d = 47 ∷ 100 ∷ []

abbrev a_name : List ℕ
a_name = 97 ∷ []

abbrev d_a : List ℕ
d_a = d ++ 47 ∷ 97 ∷ []

abbrev d_b : List ℕ
d_b = d ++ 47 ∷ 98 ∷ []

a_IsName : IsName a_name
a_IsName = record {
  nonempty = λ e. ground arith;
  no_separator = λ i e. plain i 47 e (omega arith);
  no_nul = λ i e. plain i 0 e (omega arith);
}
  where
    plain : (i c : ℕ) → get_elem? a_name i ≡ some c → ¬ (c ≢ 97)
    plain zero c e n = n (ground arith)
    plain (suc i) c e n = ground arith

below_b : is_parent_of (terminated d).buf (terminated d_b).buf ≡ true
below_b = (is_parent_of_iff d d_b).1 (98 ∷ [], refl)

below_a : is_parent_of (terminated d).buf (terminated d_a).buf ≡ true
below_a = (is_parent_of_iff d d_a).1 (97 ∷ [], refl)

a_before_b : cmp (terminated d_a).buf (terminated d_b).buf ≡ lt
a_before_b = unfold cmp in refl

subtree_contiguous_example : is_parent_of (terminated d).buf (terminated d_a).buf ≡ true
subtree_contiguous_example =
    subtree_contiguous d d_a d_b below_b (cmp-is_parent_of d d_a below_a) a_before_b

pop-join_drops_byte_example :
    (as_bytes (pop last_index (join (terminated d).buf a_name)).0.buf ≡ drop_last d)
    × (as_bytes (pop last_index (join (terminated d).buf a_name)).0.buf ≢ d)
pop-join_drops_byte_example = pop-join_drops_byte last_index d a_name a_IsName (λ e. ground arith)

root_has_no_children_example :
    (is_parent_of (terminated (path_separator ∷ [])).buf (terminated (path_separator ∷ a_name)).buf
      ≡ false)
    × (parent last_index (terminated (path_separator ∷ a_name)).buf ≡ some [])
    × (eq_os_str (terminated (path_separator ∷ [])) [] ≡ false)
root_has_no_children_example = root_has_no_children last_index a_name a_IsName

into_c_str_iff_example :
    ((into_c_str [] ≡ into_with_c_str [] (λ s. s)) ↔ (is_empty [] ≡ false))
    × (is_empty [] ≡ true
        → (into_with_c_str [] c_string ≡ some (46 ∷ [])) × (c_string (into_c_str []) ≡ none))
into_c_str_iff_example = into_c_str_iff []
