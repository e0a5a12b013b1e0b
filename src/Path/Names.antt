-- ===== src/Path/Names.antt =====
-- Extending a path by a name, and taking it off again.
use filesentry.Common.{
  ℕ, zero, suc, ◌-◌, ◌<◌, ◌≡◌, ◌≢◌, refl, ap, true, false, some, List, [], ◌∷◌, ◌++◌, arith, ◌==◌,
  length, get_elem?, take, drop_last, drop_last-append, take-length_append, inl, inr, Bool-cases,
  sym, ◌∙◌,
}
use mathlib.Core.List.{append_assoc}
use filesentry.Path.{
  path_separator, first_is_separator, Memrchr, parent, pop, push, join, as_bytes, is_parent_of,
  terminated, eq_os_str, is_empty,
}
use filesentry.Path.Bytes.{memrchr_last}
use filesentry.Path.Subtree.{is_parent_of_iff}

-- A name of a directory entry: not empty, with neither a separator nor a NUL in it.
pub record IsName (name : List ℕ) : Type 0 where
  pub nonempty : name ≢ []
  pub no_separator : (i : ℕ) → get_elem? name i ≢ some path_separator
  pub no_nul : (i : ℕ) → get_elem? name i ≢ some 0

plain_first : (name : List ℕ) → IsName name → first_is_separator name ≡ false
unfolding first_is_separator
plain_first [] n = refl
plain_first (c ∷ name) n = elim (Bool-cases (c == path_separator)) [
  | inl e ↦ absurd (n.no_separator 0 (ground arith))
  | inr e ↦ e
]

push-name :
    (d name : List ℕ)
    → IsName name
    → push (terminated d) name ≡ terminated (d ++ path_separator ∷ name)
unfolding push
push-name d name n = rw (drop_last-append d 0) (
    rw (plain_first name n)
      (λ i. record { buf = (sym (append_assoc d (path_separator ∷ name) (0 ∷ []))) i }))

is_empty-terminated : (d : List ℕ) → is_empty (terminated d).buf ≡ false
unfolding is_empty
is_empty-terminated [] = refl
is_empty-terminated (c ∷ d) = refl

-- `join` of a terminated directory and a name is the directory, a separator and the name, again
-- terminated.
pub join-name :
    (d name : List ℕ)
    → IsName name
    → join (terminated d).buf name ≡ terminated (d ++ path_separator ∷ name)
unfolding join
join-name d name n = rw (is_empty-terminated d) (push-name d name n)

get_elem?-at_length : (d name : List ℕ) (c : ℕ) → get_elem? (d ++ c ∷ name) (length d) ≡ some c
get_elem?-at_length [] name c = refl
get_elem?-at_length (x ∷ d) name c = get_elem?-at_length d name c

no_separator_after :
    (d name : List ℕ) (j : ℕ)
    → ((i : ℕ) → get_elem? name i ≢ some path_separator)
    → length d < j
    → get_elem? ((d ++ path_separator ∷ name) ++ 0 ∷ []) j ≢ some path_separator
no_separator_after [] name zero n h = elim h [ ]
no_separator_after [] [] (suc zero) n h = ground arith
no_separator_after [] [] (suc (suc j)) n h = ground arith
no_separator_after [] (x ∷ name) (suc zero) n h = n 0
no_separator_after [] (x ∷ name) (suc (suc j)) n h =
    no_separator_after [] name (suc j) (λ i. n (suc i)) (omega arith)
no_separator_after (x ∷ d) name zero n h = elim h [ ]
no_separator_after (x ∷ d) name (suc j) n h = no_separator_after d name j n (omega arith)

take-drop_last : (c : ℕ) (d : List ℕ) → take (suc (length d) - 1) (c ∷ d) ≡ drop_last (c ∷ d)
take-drop_last c d = let e : suc (length d) - 1 ≡ length d = omega arith in rw e (go c d)
  where
    go : (c : ℕ) (d : List ℕ) → take (length d) (c ∷ d) ≡ drop_last (c ∷ d)
    go c [] = refl
    go c (x ∷ d) = ap (◌∷◌ c) (go x d)

as_bytes_unterminated : (d : List ℕ) → d ≢ [] → as_bytes d ≡ drop_last d
unfolding as_bytes
as_bytes_unterminated [] h = absurd (h refl)
as_bytes_unterminated (c ∷ d) h = take-drop_last c d

not_drop_last : (d : List ℕ) → d ≢ [] → drop_last d ≢ d
not_drop_last [] h e = h e
not_drop_last (x ∷ []) h e = cc
not_drop_last (x ∷ y ∷ d) h e = not_drop_last (y ∷ d) (λ k. ground arith) (ground arith)

module _ (m : Memrchr) (d name : List ℕ) (n : IsName name) where
  last_separator :
      m.memrchr path_separator (terminated (d ++ path_separator ∷ name)).buf ≡ some (length d)
  last_separator =
      memrchr_last m path_separator _ (length d)
        (rw (append_assoc d (path_separator ∷ name) (0 ∷ []))
          (get_elem?-at_length d (name ++ 0 ∷ []) path_separator))
        (λ j. no_separator_after d name j n.no_separator)

  take_directory : take (length d) (terminated (d ++ path_separator ∷ name)).buf ≡ d
  take_directory =
      rw (append_assoc d (path_separator ∷ name) (0 ∷ []))
        (take-length_append d (path_separator ∷ name ++ 0 ∷ []))

  -- `parent` takes off what `join` put on: for a terminated directory and a plain name, the
  -- parent of the joined path is the directory, and the directory `is_parent_of` the joined path.
  pub parent-join :
      (parent m (join (terminated d).buf name).buf ≡ some d)
      × (is_parent_of (terminated d).buf (join (terminated d).buf name).buf ≡ true)
  unfolding parent
  parent-join = (
    rw (join-name d name n) (rw last_separator (ap some take_directory)),
    rw (join-name d name n) ((is_parent_of_iff d (d ++ path_separator ∷ name)).1 (name, refl)),
  )

  pop-join : pop m (join (terminated d).buf name) ≡ (record { buf = d }, true)
  unfolding pop
  pop-join = rw (join-name d name n) (rw (last_separator, pop) (rw take_directory))

  -- `pop` does not put the terminator back: popping a name off `d/name` leaves the bytes of `d` with
  -- no terminator, so the byte view of the result lacks the last byte of `d`.
  pub pop-join_drops_byte :
      d ≢ []
      → (as_bytes (pop m (join (terminated d).buf name)).0.buf ≡ drop_last d)
        × (as_bytes (pop m (join (terminated d).buf name)).0.buf ≢ d)
  pop-join_drops_byte h =
      rw pop-join
        (as_bytes_unterminated d h, λ e. not_drop_last d h (sym (as_bytes_unterminated d h) ∙ e))

not_below :
    (name : List ℕ)
    → IsName name
    → ¬ ((rest : List ℕ) × (path_separator ∷ name ≡ path_separator ∷ path_separator ∷ rest))
not_below [] n w = n.nonempty refl
not_below (c ∷ name) n (rest, e) = n.no_separator 0 (ground arith)

-- The root directory is no parent of the paths below it: `is_parent_of` fails for it and any
-- `/name`, and `parent` of `/name` is the empty path, which is not the root's path.
pub root_has_no_children :
    (m : Memrchr) (name : List ℕ)
    → IsName name
    → (is_parent_of (terminated (path_separator ∷ [])).buf (terminated (path_separator ∷ name)).buf
        ≡ false)
      × (parent m (terminated (path_separator ∷ name)).buf ≡ some [])
      × (eq_os_str (terminated (path_separator ∷ [])) [] ≡ false)
unfolding parent eq_os_str
root_has_no_children m name n = (
  elim (Bool-cases (
      is_parent_of (terminated (path_separator ∷ [])).buf
        (terminated (path_separator ∷ name)).buf)) [
          | inl e ↦ absurd (
              not_below name n
                ((is_parent_of_iff (path_separator ∷ []) (path_separator ∷ name)).0 e))
          | inr e ↦ e
        ],
  rw (last_separator m [] name n) refl,
  refl,
)
