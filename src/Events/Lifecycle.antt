-- ===== src/Events/Lifecycle.antt =====
-- What the debouncer reports of a file's history, over any number of calls of `add`.
use filesentry.Path.Bytes.{path_eq→≡, path_eq_refl}
use filesentry.Common.{
  ◌+◌, ◌≤◌, ◌≡◌, ◌^◌, refl, Bool, true, false, Option, none, some, List, [], ◌∷◌, arith, length,
  ◌>>=◌, if◌then◌else◌, ◌∙◌, ap, >>=-eq-some,
}
use filesentry.Path.{CanonicalPathBuf, path_eq}
use filesentry.HashTable.{Hashing}
use filesentry.Events.{
  EventType, create, delete, modified, tempfile, EventDebouncer, merge, new, add, get,
}
use filesentry.Events.View.{held, coalesce, IsValid, new-IsValid, add_lem, get-held, held-nil}

-- Whether the file exists after an event, for an event that can happen to a file that
-- exists or does not.
unfoldable pub happens : Bool → EventType → Option Bool
happens false create = some true
happens true modified = some true
happens true delete = some false
happens exists ty = none

unfoldable pub replay : Bool → List EventType → Option Bool
replay exists [] = some exists
replay exists (t ∷ ts) = happens exists t >>= λ now. replay now ts

-- The event that leads from one to the other over a settle period in which something happened.
unfoldable pub net : Bool → Bool → EventType
net false true = create
net false false = tempfile
net true true = modified
net true false = delete

pub coalesce_all : Option EventType → List EventType → Option EventType
coalesce_all held [] = held
coalesce_all held (t ∷ ts) = coalesce_all (some (coalesce held t)) ts

merge-net :
    (before now after : Bool) (t : EventType)
    → happens now t ≡ some after
    → merge (net before now) t ≡ net before after
unfolding merge net happens
merge-net false false after create h = ground arith
merge-net false true after create h = ground arith
merge-net true false after create h = ground arith
merge-net true true after create h = ground arith
merge-net before now after t h = ground arith

coalesce_all-net :
    (before now after : Bool) (ts : List EventType)
    → replay now ts ≡ some after
    → coalesce_all (some (net before now)) ts ≡ some (net before after)
unfolding replay coalesce_all coalesce
coalesce_all-net before now after [] h = ground arith
coalesce_all-net before now after (t ∷ ts) h =
    let (next, e, r) = >>=-eq-some (happens now t) (λ n. replay n ts) h in
    rw (merge-net before now next t e) (coalesce_all-net before next after ts r)

first-net :
    (before after : Bool) (t : EventType) → happens before t ≡ some after → t ≡ net before after
unfolding net happens
first-net false after create h = ground arith
first-net true after create h = ground arith
first-net before after t h = ground arith

coalesce_history :
    (before after : Bool) (t : EventType) (ts : List EventType)
    → replay before (t ∷ ts) ≡ some after
    → coalesce_all none (t ∷ ts) ≡ some (net before after)
unfolding replay coalesce_all coalesce
coalesce_history before after t ts h =
    let (next, e, r) = >>=-eq-some (happens before t) (λ n. replay n ts) h in
    rw (first-net before next t e) (coalesce_all-net before next after ts r)

-- The events of one path, in order.
unfoldable pub history_of : CanonicalPathBuf → List (CanonicalPathBuf × EventType) → List EventType
history_of q [] = []
history_of q ((p, t) ∷ calls) = if path_eq p q then t ∷ history_of q calls else history_of q calls

module _ (H : Hashing) where
  -- A sequence of calls of `add`.
  unfoldable pub add_all :
      EventDebouncer H → List (CanonicalPathBuf × EventType) → Option (EventDebouncer H)
  add_all d [] = some d
  add_all d ((p, t) ∷ calls) = add H d p t >>= λ d'. add_all d' calls

  pub add_all_lem :
      (calls : List (CanonicalPathBuf × EventType)) (d : EventDebouncer H)
      → IsValid H d
      → length d.events + length calls ≤ 2 ^ 32
      → (d' : EventDebouncer H) × (add_all d calls ≡ some d')
        × IsValid H d'
        × ((q : CanonicalPathBuf)
            → held q d'.events ≡ coalesce_all (held q d.events) (history_of q calls))
  unfolding add_all history_of coalesce_all
  add_all_lem [] d v room = (d, refl, v, λ q. refl)
  add_all_lem ((p, t) ∷ calls) d v room =
      let (d', e, v', small, step) = add_lem H d v p t (omega arith) in
      let (d'', e', v'', rest) = add_all_lem calls d' v' (omega arith) in
      (d'', rw e e', v'', λ q. ground (arith, step q, rest q, path_eq→≡ p q, path_eq_refl q))

  -- After up to 2^32 calls of `add` on a new debouncer, with what happened to one path being a
  -- possible history of a file, the debouncer holds for it the net event: created, deleted or
  -- modified over the period, or a temporary file.
  pub settled_event :
      (calls : List (CanonicalPathBuf × EventType)) (q : CanonicalPathBuf) (before after : Bool)
      (t : EventType) (ts : List EventType)
      → length calls ≤ 2 ^ 32
      → history_of q calls ≡ t ∷ ts
      → replay before (t ∷ ts) ≡ some after
      → (d : EventDebouncer H) × (add_all (new H) calls ≡ some d)
        × (get H d q ≡ some (some (net before after)))
  unfolding new
  settled_event calls q before after t ts room h r =
      let room' : length (new H).events + length calls ≤ 2 ^ 32 = omega arith in
      let (d, e, v, views) = add_all_lem calls (new H) (new-IsValid H) room' in
      (
        d,
        e,
        get-held H d v q
            ∙ ap some (views q ∙ rw held-nil (rw h (coalesce_history before after t ts r))),
      )
