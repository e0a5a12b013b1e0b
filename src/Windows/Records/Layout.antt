-- ===== src/Windows/Records/Layout.antt =====
-- How the kernel lays out records: each with the distance to the next, the last with a zero.
use filesentry.Common.{
  ℕ, zero, suc, ◌≡◌, ◌<◌, ◌≤◌, ◌+◌, ◌-◌, ◌/◌, ◌%◌, refl, ap, sym, ◌∙◌, true, false, some, List, [],
  ◌∷◌, ◌++◌, arith, length, length-append, take, drop, take-length_append, drop-length_append, leb,
  ◌==◌,
}
use mathlib.Core.List.{append_assoc, append-nil}
use filesentry.Path.{CanonicalPathBuf}
use filesentry.Config.{Filter}
use filesentry.Windows.Records.{
  Actions, Reports, header, slice, read_u32, units_of, report_of, read_record, record_rounds,
  handle_records,
}

pub record Record : Type 0 where
  pub action : ℕ
  pub name : List ℕ
  pub padding : List ℕ

u32_bytes : ℕ → List ℕ → List ℕ
u32_bytes n rest =
    (n % 256) ∷ (n / 256 % 256) ∷ (n / 256 / 256 % 256) ∷ (n / 256 / 256 / 256) ∷ rest

unfoldable pub name_bytes : List ℕ → List ℕ
name_bytes [] = []
name_bytes (u ∷ us) = (u % 256) ∷ (u / 256) ∷ name_bytes us

unfoldable pub head_bytes : ℕ → Record → List ℕ
unfolding u32_bytes
head_bytes next r = u32_bytes next (u32_bytes r.action (u32_bytes (length (name_bytes r.name)) []))

unfoldable pub entry : ℕ → Record → List ℕ
entry next r = head_bytes next r ++ (name_bytes r.name ++ r.padding)

unfoldable pub size : Record → ℕ
size r = header + (length (name_bytes r.name) + length r.padding)

unfoldable pub layout : List Record → List ℕ
layout [] = []
layout (r ∷ []) = entry 0 r
layout (r ∷ s ∷ rs) = entry (size r) r ++ layout (s ∷ rs)

units_of-name_bytes : (us : List ℕ) → units_of (name_bytes us) ≡ us
unfolding units_of name_bytes
units_of-name_bytes [] = refl
units_of-name_bytes (u ∷ us) = ground (arith, units_of-name_bytes us)

length-head_bytes : (next : ℕ) (r : Record) → length (head_bytes next r) ≡ header
unfolding head_bytes
length-head_bytes next r = refl

length-entry : (next : ℕ) (r : Record) → length (entry next r) ≡ size r
unfolding entry size
length-entry next r = omega (
  arith,
  length-head_bytes next r,
  length-append {0} (head_bytes next r) (name_bytes r.name ++ r.padding),
  length-append {0} (name_bytes r.name) r.padding,
)

header-le-size : (r : Record) → header ≤ size r
unfolding size
header-le-size r = omega arith

slice-append :
    (pre mid post : List ℕ) (start end : ℕ)
    → start ≡ length pre
    → end ≡ length pre + length mid
    → slice (pre ++ (mid ++ post)) start end ≡ some mid
unfolding slice
slice-append pre mid post start end e f =
    let part : take (end - start) (drop start (pre ++ (mid ++ post))) ≡ mid = rw e (
      rw (drop-length_append pre (mid ++ post)) (
        rw (let d : end - length pre ≡ length mid = omega (arith, f) in d)
          (take-length_append mid post))) in
    ground (arith, part, length-append {0} pre (mid ++ post), length-append {0} mid post)

read_head :
    (next : ℕ) (r : Record)
    → (a b c : List ℕ) × (slice (head_bytes next r) 0 4 ≡ some a)
      × (slice (head_bytes next r) 4 8 ≡ some b)
      × (slice (head_bytes next r) 8 12 ≡ some c)
      × (read_u32 a ≡ some next)
      × (read_u32 b ≡ some r.action)
      × (read_u32 c ≡ some (length (name_bytes r.name)))
unfolding head_bytes slice read_u32
read_head next r = (_, _, _, refl, refl, refl, ground arith, ground arith, ground arith)

module _ (actions : Actions) (filter : Filter) (root : CanonicalPathBuf) where
  read_entry :
      (pre post : List ℕ) (next : ℕ) (r : Record)
      → read_record actions filter root (pre ++ (entry next r ++ post)) (length pre)
        ≡ some (report_of actions filter root r.action r.name, next)
  unfolding read_record entry
  read_entry pre post next r =
      let head = head_bytes next r in
      let name = name_bytes r.name in
      let buf = pre ++ ((head ++ (name ++ r.padding)) ++ post) in
      let split : buf ≡ pre ++ (head ++ ((name ++ r.padding) ++ post)) =
        ap (λ (xs : List ℕ). pre ++ xs) (append_assoc head (name ++ r.padding) post) in
      let split_name : buf ≡ (pre ++ head) ++ (name ++ (r.padding ++ post)) =
        split
        ∙ sym (append_assoc pre head ((name ++ r.padding) ++ post))
        ∙ ap (λ (xs : List ℕ). (pre ++ head) ++ xs) (append_assoc name r.padding post) in
      let l : length (pre ++ head) ≡ length pre + header =
        omega (arith, length-append {0} pre head, length-head_bytes next r) in
      let hdr : slice buf (length pre) (length pre + header) ≡ some head = rw split (
        slice-append pre head ((name ++ r.padding) ++ post) (length pre) (length pre + header) refl
          (omega (arith, length-head_bytes next r))) in
      let named : slice buf (length pre + header) (length pre + header + length name) ≡ some name =
        rw split_name (
          slice-append (pre ++ head) name (r.padding ++ post) (length pre + header)
            (length pre + header + length name) (sym l) (omega (arith, l))) in
      let bound : length pre + header + length name ≤ length buf = rw split_name (
        omega (
          arith,
          l,
          length-append {0} (pre ++ head) (name ++ (r.padding ++ post)),
          length-append {0} name (r.padding ++ post),
        )) in
      let (a, b, c, ea, eb, ec, na, nb, nc) = read_head next r in
      ground (arith, hdr, named, bound, units_of-name_bytes r.name)

  -- What the records report, one after the other.
  abbrev pub reports_of : List Record → Reports
  reports_of [] = []
  reports_of (r ∷ rs) = report_of actions filter root r.action r.name ++ reports_of rs

  rounds-layout :
      (pre : List ℕ) (rs : List Record) (fuel : ℕ)
      → length rs < fuel
      → record_rounds actions filter root fuel (pre ++ layout rs) (length pre)
        ≡ some (reports_of rs)
  unfolding record_rounds layout
  rounds-layout pre rs zero h = absurd (omega (arith, h))
  rounds-layout pre [] (suc fuel) h = ground (arith, length-append {0} pre [])
  rounds-layout pre (r ∷ []) (suc fuel) h =
      let read = read_entry pre [] 0 r in
      let whole : entry 0 r ++ [] ≡ entry 0 r = append-nil (entry 0 r) in
      let read' = rw whole at read in
      ground (
        arith,
        read',
        length-append {0} pre (entry 0 r),
        length-entry 0 r,
        header-le-size r,
        append-nil (report_of actions filter root r.action r.name),
      )
  rounds-layout pre (r ∷ s ∷ rs) (suc fuel) h =
      let one = entry (size r) r in
      let read = read_entry pre (layout (s ∷ rs)) (size r) r in
      let later =
        rw append_assoc at (rounds-layout (pre ++ one) (s ∷ rs) fuel (omega (arith, h))) in
      let l : length (pre ++ one) ≡ length pre + size r =
        omega (arith, length-append {0} pre one, length-entry (size r) r) in
      let whole = length-append {0} pre (one ++ layout (s ∷ rs)) in
      let fits : leb (length pre + header) (length (pre ++ (one ++ layout (s ∷ rs)))) ≡ true =
        ground (
          arith,
          whole,
          length-append {0} one (layout (s ∷ rs)),
          length-entry (size r) r,
          header-le-size r,
        ) in
      let on : (size r == 0) ≡ false = ground (arith, header-le-size r) in
      let later' = rw l at later in rw (fits, read, on, later') refl

  length-layout : (rs : List Record) → length rs ≤ length (layout rs)
  unfolding layout
  length-layout [] = omega arith
  length-layout (r ∷ []) = omega (arith, length-entry 0 r, header-le-size r)
  length-layout (r ∷ s ∷ rs) = omega (
    arith,
    length-layout (s ∷ rs),
    length-append {0} (entry (size r) r) (layout (s ∷ rs)),
    length-entry (size r) r,
    header-le-size r,
  )

  -- What the kernel lays out as records, with any padding behind the names, `handle_records` reads back:
  -- the reports of every record, in order, and none besides.
  pub handle_records-layout :
      (rs : List Record) → handle_records actions filter root (layout rs) ≡ some (reports_of rs)
  unfolding handle_records
  handle_records-layout rs =
      rounds-layout [] rs (suc (length (layout rs))) (omega (arith, length-layout rs))
