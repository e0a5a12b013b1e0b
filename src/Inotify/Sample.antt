-- ===== src/Inotify/Sample.antt =====
-- Watches in a list, for the examples of src/inotify.rs.
use filesentry.Common.{
  ◌≡◌, refl, true, false, Bool, Option, none, some, List, [], ◌∷◌, arith, ◌==◌, if◌then◌else◌,
}
use filesentry.Path.{CanonicalPathBuf}
use filesentry.Metadata.{pos, negsuc}
use filesentry.Inotify.{Watch, WatchMap}

abbrev same_watch : Watch → Watch → Bool
same_watch (pos a) (pos b) = a == b
same_watch (negsuc a) (negsuc b) = a == b
same_watch a b = false

same_watch_refl : (a : Watch) → same_watch a a ≡ true
same_watch_refl (pos a) = ground arith
same_watch_refl (negsuc a) = ground arith

abbrev Entries : Type 0
Entries = List (Watch × CanonicalPathBuf)

abbrev path_of : Entries → Watch → Option CanonicalPathBuf
path_of [] w = none
path_of ((v, p) ∷ t) w = if same_watch v w then some p else path_of t w

abbrev without : Entries → Watch → Entries
without [] w = []
without ((v, p) ∷ t) w = let rest = without t w in if same_watch v w then rest else (v, p) ∷ rest

pub path_of-without : (t : Entries) (w : Watch) → path_of (without t w) w ≡ none
path_of-without [] w = refl
path_of-without ((v, p) ∷ t) w = ground (arith, path_of-without t w)

pub path_of-insert :
    (t : Entries) (w : Watch) (p : CanonicalPathBuf) → path_of ((w, p) ∷ t) w ≡ some p
path_of-insert t w p = ground (arith, same_watch_refl w)

abbrev pub watch_list : WatchMap
watch_list = record {
  Map = Entries;
  get = path_of;
  insert = λ t w p. (w, p) ∷ t;
  remove = without;
  get-insert_self = path_of-insert;
  get-remove_self = path_of-without;
}
