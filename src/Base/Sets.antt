-- ===== src/Base/Sets.antt =====
-- Lists of numbers used as sets (`std::find`, `erase`, `remove`), and functions used as maps.
use Prim.Native.Nat.{ℕ}
use mathlib.Core.Path.{◌≡◌, refl}
use mathlib.Core.Bool.{Bool, true, false, not, ◌&&◌, ◌||◌}
use mathlib.Core.List.{List, [], ◌∷◌, ◌++◌}
use mathlib.Core.Logic.{inl, inr}
use native.Mathlib.Omega.{arith}
use projeto_bruxo.Base.Tests.{◌==◌, if◌then◌else◌, Bool-cases}

abbrev pub contains : ℕ → List ℕ → Bool
contains x [] = false
contains x (y ∷ ys) = x == y || contains x ys

-- The first occurrence goes, as by `erase(std::find(…))`.
unfoldable pub erase : ℕ → List ℕ → List ℕ
erase x [] = []
erase x (y ∷ ys) = if x == y then ys else y ∷ erase x ys

-- Every occurrence goes, as by `std::forward_list::remove`.
unfoldable pub remove : ℕ → List ℕ → List ℕ
remove x [] = []
remove x (y ∷ ys) = let rest = remove x ys in if x == y then rest else y ∷ rest

abbrev pub nodup : List ℕ → Bool
nodup [] = true
nodup (y ∷ ys) = not (contains y ys) && nodup ys

abbrev pub update {ℓ} : {A : Type ℓ} → (ℕ → A) → ℕ → A → ℕ → A
update f x a y = if x == y then a else f y

pub contains-remove :
    (x y : ℕ) (ys : List ℕ) → contains x (remove y ys) ≡ (contains x ys && not (x == y))
unfolding remove
contains-remove x y [] = refl
contains-remove x y (z ∷ zs) = ground (arith, contains-remove x y zs)

pub contains-erase :
    (x y : ℕ) (ys : List ℕ)
    → nodup ys ≡ true
    → contains x (erase y ys) ≡ (contains x ys && not (x == y))
unfolding erase
contains-erase x y [] h = refl
contains-erase x y (z ∷ zs) h = ground (arith, contains-erase x y zs)

pub nodup-erase : (y : ℕ) (ys : List ℕ) → nodup ys ≡ true → nodup (erase y ys) ≡ true
unfolding erase
nodup-erase y [] h = refl
nodup-erase y (z ∷ zs) h = ground (arith, nodup-erase y zs, contains-erase z y zs)

pub contains-append :
    (x : ℕ) (xs ys : List ℕ) → contains x (xs ++ ys) ≡ (contains x xs || contains x ys)
contains-append x [] ys = refl
contains-append x (z ∷ zs) ys = ground (arith, contains-append x zs ys)

pub nodup-snoc :
    (y : ℕ) (ys : List ℕ) → nodup ys ≡ true → contains y ys ≡ false → nodup (ys ++ y ∷ []) ≡ true
nodup-snoc y [] h k = refl
nodup-snoc y (z ∷ zs) h k = ground (arith, nodup-snoc y zs, contains-append z zs (y ∷ []))

-- What holds of the new value and of the old ones holds after an update.
pub update_all {ℓ κ} :
    {A : Type ℓ} (P : A → Type κ) (f : ℕ → A) (x : ℕ) (a : A)
    → P a
    → ((y : ℕ) → P (f y))
    → (y : ℕ) → P (update f x a y)
update_all P f x a h k y = elim (Bool-cases (x == y)) [
  | inl same ↦ rw same h
  | inr other ↦ rw other (k y)
]
