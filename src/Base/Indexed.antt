-- ===== src/Base/Indexed.antt =====
-- `Seq::update`, and what a list has at an index after it.
use Prim.Native.Nat.{ℕ, zero, suc, ◌<◌}
use mathlib.Core.Path.{◌≡◌, refl, ap}
use mathlib.Core.Logic.{◌≢◌}
use mathlib.Core.List.{List, [], ◌∷◌, map}
use native.Mathlib.Omega.{arith}
use verified_storage.Base.Lists.{length, get_or}

abbrev pub update {ℓ} : {A : Type ℓ} → List A → ℕ → A → List A
update [] i y = []
update (x ∷ xs) zero y = y ∷ xs
update (x ∷ xs) (suc i) y = x ∷ update xs i y

pub length-update {ℓ} :
    {A : Type ℓ} (xs : List A) (i : ℕ) (y : A) → length (update xs i y) ≡ length xs
length-update [] i y = refl
length-update (x ∷ xs) zero y = refl
length-update (x ∷ xs) (suc i) y = ap suc (length-update xs i y)

pub get_or-update {ℓ} :
    {A : Type ℓ} (xs : List A) (i : ℕ) (y d : A) → i < length xs → get_or (update xs i y) i d ≡ y
get_or-update [] i y d h = absurd (omega arith)
get_or-update (x ∷ xs) zero y d h = refl
get_or-update (x ∷ xs) (suc i) y d h = get_or-update xs i y d (omega arith)

pub get_or-update_other {ℓ} :
    {A : Type ℓ} (xs : List A) (i j : ℕ) (y d : A)
    → j ≢ i
    → get_or (update xs i y) j d ≡ get_or xs j d
get_or-update_other [] i j y d h = refl
get_or-update_other (x ∷ xs) zero zero y d h = absurd (h refl)
get_or-update_other (x ∷ xs) zero (suc j) y d h = refl
get_or-update_other (x ∷ xs) (suc i) zero y d h = refl
get_or-update_other (x ∷ xs) (suc i) (suc j) y d h =
    get_or-update_other xs i j y d (λ e. h (ap suc e))

pub length-map {ℓ} : {A B : Type ℓ} (f : A → B) (xs : List A) → length (map f xs) ≡ length xs
length-map f [] = refl
length-map f (x ∷ xs) = ap suc (length-map f xs)

pub get_or-map {ℓ} :
    {A B : Type ℓ} (f : A → B) (xs : List A) (i : ℕ) (d : A) (e : B)
    → i < length xs
    → get_or (map f xs) i e ≡ f (get_or xs i d)
get_or-map f [] i d e h = absurd (omega arith)
get_or-map f (x ∷ xs) zero d e h = refl
get_or-map f (x ∷ xs) (suc i) d e h = get_or-map f xs i d e (omega arith)

pub update-update {ℓ} :
    {A : Type ℓ} (xs : List A) (i : ℕ) (y z : A) → update (update xs i y) i z ≡ update xs i z
update-update [] i y z = refl
update-update (x ∷ xs) zero y z = refl
update-update (x ∷ xs) (suc i) y z = ap (λ t. x ∷ t) (update-update xs i y z)

-- An update that a function does not see.
pub map-update {ℓ} :
    {A B : Type ℓ} (f : A → B) (xs : List A) (i : ℕ) (y d : A)
    → f y ≡ f (get_or xs i d)
    → map f (update xs i y) ≡ map f xs
map-update f [] i y d h = refl
map-update f (x ∷ xs) zero y d h = ap (λ t. t ∷ map f xs) h
map-update f (x ∷ xs) (suc i) y d h = ap (λ t. f x ∷ t) (map-update f xs i y d h)
