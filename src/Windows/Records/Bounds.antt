-- ===== src/Windows/Records/Bounds.antt =====
-- The reads of `handle_records` stay inside the buffer, whatever it holds.
use filesentry.Common.{
  ℕ, zero, suc, ◌≡◌, ◌<◌, ◌≤◌, ◌+◌, ◌-◌, refl, some, List, [], ◌∷◌, ◌++◌, arith, length, take, drop,
  length-drop, leb, ◌==◌, if◌then◌else◌, inl, inr, Bool-cases, length-append,
}
use filesentry.Path.{CanonicalPathBuf}
use filesentry.Config.{Filter}
use filesentry.Windows.Records.{
  Actions, Reports, header, slice, read_u32, units_of, report_of, read_record, record_rounds,
  handle_records,
}

length-take : (n : ℕ) (xs : List ℕ) → n ≤ length xs → length (take n xs) ≡ n
length-take zero xs h = refl
length-take (suc n) [] h = absurd (omega (arith, h))
length-take (suc n) (x ∷ xs) h = omega (arith, length-take n xs (omega (arith, h)))

pub slice_in_range :
    (buf : List ℕ) (start end : ℕ)
    → start ≤ end
    → end ≤ length buf
    → (part : List ℕ) × (slice buf start end ≡ some part) × (length part ≡ end - start)
unfolding slice
slice_in_range buf start end h l = (
  take (end - start) (drop start buf),
  ground arith,
  length-take (end - start) (drop start buf) (omega (arith, length-drop start buf)),
)

read_u32_in_range : (b : List ℕ) → 4 ≤ length b → (n : ℕ) × (read_u32 b ≡ some n)
unfolding read_u32
read_u32_in_range [] h = absurd (omega (arith, h))
read_u32_in_range (a ∷ []) h = absurd (omega (arith, h))
read_u32_in_range (a ∷ b ∷ []) h = absurd (omega (arith, h))
read_u32_in_range (a ∷ b ∷ c ∷ []) h = absurd (omega (arith, h))
read_u32_in_range (a ∷ b ∷ c ∷ d ∷ rest) h = (_, refl)

abbrev clipped : ℕ → ℕ → ℕ
clipped end bound = if leb end bound then end else bound

module _ (actions : Actions) (filter : Filter) (root : CanonicalPathBuf) where
  length-report_of :
      (action : ℕ) (name : List ℕ) → length (report_of actions filter root action name) ≤ 1
  unfolding report_of
  length-report_of action name = ground arith

  read_record_in_range :
      (buf : List ℕ) (offset : ℕ)
      → offset + header ≤ length buf
      → (x : Reports × ℕ) × (read_record actions filter root buf offset ≡ some x) × (length x.0 ≤ 1)
  unfolding read_record
  read_record_in_range buf offset h =
      let (hdr, e, l) = slice_in_range buf offset (offset + header) (omega arith) h in
      let (a, ea, la) = slice_in_range hdr 0 4 (omega arith) (omega (arith, l)) in
      let (b, eb, lb) = slice_in_range hdr 4 8 (omega arith) (omega (arith, l)) in
      let (c, ec, lc) = slice_in_range hdr 8 12 (omega arith) (omega (arith, l)) in
      let (next, na) = read_u32_in_range a (omega (arith, la)) in
      let (action, nb) = read_u32_in_range b (omega (arith, lb)) in
      let (len, nc) = read_u32_in_range c (omega (arith, lc)) in
      let end = clipped (offset + header + len) (length buf) in
      let (name, en, ln) = slice_in_range buf (offset + header) end (ground arith) (ground arith) in
      (
        (report_of actions filter root action (units_of name), next),
        ground arith,
        length-report_of action (units_of name),
      )

  rounds_in_range :
      (fuel : ℕ) (buf : List ℕ) (offset : ℕ)
      → 0 < fuel
      → length buf < fuel + offset
      → (r : Reports) × (record_rounds actions filter root fuel buf offset ≡ some r)
        × (length r ≤ length buf - offset)
  unfolding record_rounds
  rounds_in_range zero buf offset p h = absurd (omega (arith, p))
  rounds_in_range (suc fuel) buf offset p h =
      elim (Bool-cases (leb (offset + header) (length buf))) [
        | inr done ↦ ([], rw done refl, omega arith)
        | inl more ↦
            let ((reports, next), e, one) = read_record_in_range buf offset (ground arith) in
            elim (Bool-cases (next == 0)) [
              | inl last ↦ (reports, rw (more, e, last) refl, ground (arith, one))
              | inr on ↦
                  let (later, f, l) =
                    rounds_in_range fuel buf (offset + next) (ground arith) (ground arith) in
                  (
                    reports ++ later,
                    rw (more, e, on, f) refl,
                    ground (arith, one, l, length-append {0} reports later),
                  )
            ]
      ]

  -- Whatever the kernel wrote into the buffer, `handle_records` ends and reads only inside it: a name
  -- whose length is too great is cut off at the end of the buffer, and a record that does not fit ends
  -- the loop. It reports no more paths than the buffer has bytes.
  pub handle_records_in_range :
      (buf : List ℕ)
      → (r : Reports) × (handle_records actions filter root buf ≡ some r) × (length r ≤ length buf)
  unfolding handle_records
  handle_records_in_range buf =
      let (r, e, l) = rounds_in_range (suc (length buf)) buf 0 (omega arith) (omega arith) in
      (r, e, omega (arith, l))
