-- ===== src/Common/Panic.antt =====
-- Code that may panic (an index out of bounds, a failed `assert!`): `none` is a panic.
use mathlib.Core.Path.{◌≡◌, refl}
use mathlib.Core.Bool.{Bool, true, false}
use mathlib.Core.Option.{Option, none, some}
use mathlib.Core.List.{List, [], ◌∷◌, map}
use Prim.Native.Nat.{ℕ, zero, suc}
use filesentry.Common.Seq.{get_elem?}
use native.Mathlib.Omega.{arith}

infixl 5 ◌>>=◌ ◌>>◌
abbrev pub ◌>>=◌ {ℓ κ} : {A : Type ℓ} {B : Type κ} → Option A → (A → Option B) → Option B
none >>= f = none
some a >>= f = f a

abbrev pub ◌>>◌ {ℓ} : {B : Type ℓ} → Option (Unit {0}) → Option B → Option B
m >> k = m >>= λ _. k

-- `assert!(b)`
abbrev pub assert : Bool → Option (Unit {0})
assert true = some tt
assert false = none

-- Inversion of a bind that does not panic.
pub >>=-eq-some {ℓ κ} :
    {A : Type ℓ} {B : Type κ} (m : Option A) (f : A → Option B) {b : B}
    → (m >>= f) ≡ some b
    → (a : A) × (m ≡ some a) × (f a ≡ some b)
>>=-eq-some none f h = ground arith
>>=-eq-some (some a) f h = (a, refl, h)

-- The same, for a goal that needs what the first part returned.
pub >>=-then {ℓ κ μ} :
    {A : Type ℓ} {B : Type κ} {G : Type μ} (m : Option A) (f : A → Option B) {b : B}
    → (m >>= f) ≡ some b
    → ((a : A) → m ≡ some a → f a ≡ some b → G)
    → G
>>=-then m f h k = let (a, e, rest) = >>=-eq-some m f h in k a e rest

-- Reading a projection of an element.
pub get_elem?-map_bind {ℓ κ μ} :
    {A : Type ℓ} {B : Type κ} {C : Type μ} (f : A → B) (g : B → Option C) (xs : List A) (i : ℕ)
    → (get_elem? xs i >>= λ a. g (f a)) ≡ (get_elem? (map f xs) i >>= g)
get_elem?-map_bind f g [] i = refl
get_elem?-map_bind f g (x ∷ xs) zero = refl
get_elem?-map_bind f g (x ∷ xs) (suc i) = get_elem?-map_bind f g xs i
