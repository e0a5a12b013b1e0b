-- ===== src/Tree/Crawl/Sample.antt =====
-- A walk that meets the interface, for the examples.
use filesentry.Common.{◌≡◌, ◌<◌, Option, none, some, List, [], ◌∷◌, arith, length}
use filesentry.Tree.Crawl.{Walker, WalkItem}

-- The walk of a list of entries; to leave the directory is to drop them all.
unfoldable pub after_first : List WalkItem → Option (WalkItem × List WalkItem)
after_first [] = none
after_first (item ∷ items) = some (item, items)

pub length-after_first :
    (it it' : List WalkItem) (item : WalkItem)
    → after_first it ≡ some (item, it')
    → length it' < length it
unfolding after_first
length-after_first [] it' item e = ground arith
length-after_first (x ∷ it) it' item e = ground arith

abbrev pub items : Walker
items = record {
  Iter = List WalkItem;
  start = λ root max_depth. [];
  next = after_first;
  skip_current_dir = λ it. [];
  remaining = λ it. length it;
  remaining-next = length-after_first;
  remaining-skip = λ it. omega arith;
}
